-- ===== src/Operator/Permitted.antt =====
-- The accesses of a run, and the role of the operator.
use pocketid_operator.Base.{◌≡◌, refl, Bool, true, ◌&&◌, List, [], ◌∷◌, ◌++◌}
use pocketid_operator.Api.Meta.{Key}
use pocketid_operator.World.{Env, History, Kind, instance_kind, Verb}
use pocketid_operator.World.Keeps.{Keeps, IgnoresReads, IgnoresSends, IgnoresWrites}
use pocketid_operator.Controller.Footprint.User as UserFootprint
use pocketid_operator.Controller.Footprint.UserGroup as GroupFootprint
use pocketid_operator.Controller.Footprint.OidcClient as ClientFootprint
use pocketid_operator.Controller.Footprint.Instance as InstanceFootprint
use pocketid_operator.Controller.Footprint.HttpRoute as RouteFootprint
use pocketid_operator.Operator.Setup.{
  Controller, instance_controller, user_controller, oidc_client_controller, user_group_controller,
  http_route_controller, Registration, setup_with_manager,
}
use pocketid_operator.Operator.Role.{
  Rule, markers, manager_role, grants, readable, resource_of, right_of, permitted,
}
use pocketid_operator.Operator.Runs.{run}

abbrev pub IsPermitted : Controller → History → Type 0
IsPermitted c h = permitted c h ≡ true

readable-manager_role : (k : Kind) → readable manager_role k ≡ true
unfolding readable grants
readable-manager_role instance_kind = refl
readable-manager_role _ = refl

abbrev pub all_readable : List Rule → List Kind → Bool
all_readable rules [] = true
all_readable rules (k ∷ ks) = readable rules k && all_readable rules ks

-- The kinds whose changes start a run.
abbrev pub sources : Registration → List Kind
sources r = r.resource ∷ (r.owns ++ r.watches)

markers-sources :
    (c : Controller) → all_readable (markers c) (sources (setup_with_manager c)) ≡ true
unfolding readable grants
markers-sources instance_controller = refl
markers-sources _ = refl

module _ (c : Controller) where
  permits_reads : IgnoresReads (IsPermitted c)
  unfolding permitted
  permits_reads = record {
    at_got = λ k key h p. rw (readable-manager_role k) p;
    at_listed = λ k namespace h p. rw (readable-manager_role k) p;
    at_read_clock = λ h p. p;
    at_read_random = λ h p. p;
  }

  permits_sends : IgnoresSends (IsPermitted c)
  unfolding permitted
  permits_sends = record { at_sent = λ r h p. p }

  permits_writes :
      (v : Verb) (k : Kind)
      → grants (markers c) (resource_of v k) (right_of v) ≡ true
      → IgnoresWrites (IsPermitted c) v k
  unfolding permitted
  permits_writes v k granted = record { at_wrote = λ x h p. rw granted p }

module _ (env : Env) where
  Keeps-IsPermitted : (c : Controller) (key : Key) → Keeps (IsPermitted c) (run env c key)
  unfolding grants
  Keeps-IsPermitted instance_controller key = search (
    InstanceFootprint.Keeps-reconcile, InstanceFootprint.Keeps-initialize,
    InstanceFootprint.Keeps-secrets, permits_reads, permits_sends, permits_writes,
  )
  Keeps-IsPermitted user_controller key =
      search (UserFootprint.Keeps-reconcile, permits_reads, permits_sends, permits_writes)
  Keeps-IsPermitted oidc_client_controller key =
      search (ClientFootprint.Keeps-reconcile, permits_reads, permits_sends, permits_writes)
  Keeps-IsPermitted user_group_controller key =
      search (GroupFootprint.Keeps-reconcile, permits_reads, permits_sends, permits_writes)
  Keeps-IsPermitted http_route_controller key = search (
    RouteFootprint.Keeps-reconcile, RouteFootprint.Keeps-apply_client, permits_reads,
    permits_writes,
  )

  -- A run of any controller does only what the operator may: what it reads, the role of the
  -- operator lets it get, list and watch, and each of its writes, by its verb and on the resource
  -- or on its status, is granted by the markers of the very reconciler that runs, where this was so
  -- before. These markers also let the controller watch every kind that it is registered for.
  pub run-IsPermitted :
      (c : Controller) (key : Key) (h : History)
      → IsPermitted c h
      → IsPermitted c (run env c key h).1
        × (all_readable (markers c) (sources (setup_with_manager c)) ≡ true)
  run-IsPermitted c key h p = ((Keeps-IsPermitted c key).at h p, markers-sources c)
