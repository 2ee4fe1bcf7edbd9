-- ===== src/Operator/Reachable.antt =====
-- What holds after any sequence of runs of the five controllers.
use pocketid_operator.Base.{
  ◌≡◌, refl, Bool, true, false, ◌&&◌, ◌||◌, is_empty, [], ◌∷◌, arith, inl, inr,
}
use pocketid_operator.Error.{Result, ok, err, Result-cases}
use pocketid_operator.Api.Meta.{Key}
use pocketid_operator.Api.Core.{HttpRoute}
use pocketid_operator.Api.OidcClient.{OidcClient}
use pocketid_operator.World.{
  Env, History, Kind, instance_kind, user_kind, user_group_kind, oidc_client_kind, namespace_kind,
  security_policy_kind, http_route_kind, Verb, create, update_status, delete, wrote, got, pure, put,
  fetch, on_error, ◌>>=◌,
}
use pocketid_operator.World.Keeps.{keeps_rules, Keeps, IgnoresReads, IgnoresSends, IgnoresWrites}
use pocketid_operator.Controller.Outcome.{failed, finished}
use pocketid_operator.Controller.Finalizers.{AddsFinalizers, clean, IsClean}
use pocketid_operator.Controller.Finalizers.Steps.{clean_steps, IsClean-reads}
use pocketid_operator.Controller.Finalizers.User.{reconcile-user-IsClean}
use pocketid_operator.Controller.Finalizers.UserGroup.{reconcile-group-IsClean}
use pocketid_operator.Controller.Finalizers.OidcClient.{reconcile-client-IsClean}
use pocketid_operator.Controller.OidcClient.Reconcile.{oidc_client_finalizer}
use pocketid_operator.Controller.Footprint.User as UserFootprint
use pocketid_operator.Controller.Footprint.UserGroup as GroupFootprint
use pocketid_operator.Controller.Footprint.OidcClient as ClientFootprint
use pocketid_operator.Controller.Footprint.Instance as InstanceFootprint
use pocketid_operator.Controller.Footprint.HttpRoute as RouteFootprint
use pocketid_operator.Controller.HttpRoute.Desired.{client_name}
use pocketid_operator.Controller.HttpRoute.Reconcile.{apply_client, write_client}
use pocketid_operator.Operator.Setup.{
  Controller, instance_controller, user_controller, oidc_client_controller, user_group_controller,
  http_route_controller,
}
use pocketid_operator.Operator.Runs.{run, Runs, none_yet, later}

-- An OIDC client that is read and has an id has its finalizer: nothing else takes it off, and the
-- resource is gone when the operator has.
pub record HoldsFinalizers (env : Env) : Type 0 where
  pub held :
      (h : History) (key : Key) (c : OidcClient)
      → env.get oidc_client_kind h key ≡ ok c
      → (env.contains_finalizer c.metadata oidc_client_finalizer || is_empty c.status.client_id)
        ≡ true

-- Who may be created, and who may be deleted, by the operator; the status is written of its own
-- kinds alone, and namespaces and routes are not written at all.
abbrev pub in_bounds : Verb → Kind → Bool
in_bounds v namespace_kind = false
in_bounds v http_route_kind = false
in_bounds create instance_kind = false
in_bounds create user_kind = false
in_bounds create user_group_kind = false
in_bounds delete k = elim k [ security_policy_kind ↦ true | _ ↦ false ]
in_bounds update_status k = elim k [
  | instance_kind ↦ true
  | user_kind ↦ true
  | user_group_kind ↦ true
  | oidc_client_kind ↦ true
  | _ ↦ false
]
in_bounds v k = true

unfoldable pub modest : History → Bool
modest [] = true
modest (wrote v k x ∷ h) = in_bounds v k && modest h
modest (_ ∷ h) = modest h

abbrev pub IsModest : History → Type 0
IsModest h = modest h ≡ true

IsModest-reads : IgnoresReads IsModest
unfolding modest
IsModest-reads = record {
  at_got = λ k key h p. p;
  at_listed = λ k namespace h p. p;
  at_read_clock = λ h p. p;
  at_read_random = λ h p. p;
}

IsModest-sends : IgnoresSends IsModest
unfolding modest
IsModest-sends = record { at_sent = λ r h p. p }

IsModest-writes : (v : Verb) (k : Kind) → in_bounds v k ≡ true → IgnoresWrites IsModest v k
unfolding modest
IsModest-writes v k allowed = record { at_wrote = λ x h p. rw allowed p }

module _ (env : Env) where
  Keeps-IsModest : (c : Controller) (key : Key) → Keeps IsModest (run env c key)
  Keeps-IsModest instance_controller key = search (
    InstanceFootprint.Keeps-reconcile, InstanceFootprint.Keeps-initialize,
    InstanceFootprint.Keeps-secrets, IsModest-reads, IsModest-sends, IsModest-writes,
  )
  Keeps-IsModest user_controller key =
      search (UserFootprint.Keeps-reconcile, IsModest-reads, IsModest-sends, IsModest-writes)
  Keeps-IsModest oidc_client_controller key =
      search (ClientFootprint.Keeps-reconcile, IsModest-reads, IsModest-sends, IsModest-writes)
  Keeps-IsModest user_group_controller key =
      search (GroupFootprint.Keeps-reconcile, IsModest-reads, IsModest-sends, IsModest-writes)
  Keeps-IsModest http_route_controller key = search (
    RouteFootprint.Keeps-reconcile, RouteFootprint.Keeps-apply_client, IsModest-reads,
    IsModest-writes,
  )

  ends_quietly :
      (written : Result OidcClient)
      → Keeps (IsClean env) (on_error written (λ e. pure (failed e)) (λ c. pure finished))
  ends_quietly written = search keeps_rules

  -- An update of a client keeps the metadata and the status that were read.
  IsClean-write_client :
      (desired : OidcClient) (found : Result OidcClient) (h : History)
      → ((c : OidcClient)
          → found ≡ ok c
          → (env.contains_finalizer c.metadata oidc_client_finalizer || is_empty c.status.client_id)
            ≡ true)
      → IsClean env h
      → IsClean env (write_client env desired found h).1
  unfolding write_client put clean
  IsClean-write_client desired (ok x) h held p = ground (arith, held x refl)
  IsClean-write_client desired (err e) h held p = ground arith

  applies_cleanly :
      HoldsFinalizers env
      → (route : HttpRoute) (desired : OidcClient)
      → Keeps (IsClean env) (apply_client env route desired)
  unfolding apply_client fetch ◌>>=◌ clean
  applies_cleanly holds route desired = record {
    at = λ h p.
        let key : Key = record { name = client_name route; namespace = route.namespace } in
        let found : Result OidcClient = env.get oidc_client_kind h key in
        elim (Result-cases
          (env.set_controller_reference http_route_kind route.metadata desired.metadata)) [
            | inl (e, refusal) ↦ rw (refusal, on_error) p
            | inr (m, owned) ↦
                rw (owned, on_error)
                  ((ends_quietly
                      (write_client env (record desired { metadata = m }) found
                        (got oidc_client_kind key ∷ h)).0).at
                    _
                    (IsClean-write_client (record desired { metadata = m }) found
                      (got oidc_client_kind key ∷ h) (holds.held h key) p))
          ];
  }

  Keeps-IsClean :
      AddsFinalizers env.lib
      → HoldsFinalizers env
      → (c : Controller) (key : Key) → Keeps (IsClean env) (run env c key)
  Keeps-IsClean adds holds instance_controller key = search (
    InstanceFootprint.Keeps-reconcile, InstanceFootprint.Keeps-initialize,
    InstanceFootprint.Keeps-secrets, clean_steps,
  )
  Keeps-IsClean adds holds user_controller key = record { at = reconcile-user-IsClean env adds key }
  Keeps-IsClean adds holds oidc_client_controller key = record {
    at = reconcile-client-IsClean env adds key;
  }
  Keeps-IsClean adds holds user_group_controller key = record {
    at = reconcile-group-IsClean env adds key;
  }
  Keeps-IsClean adds holds http_route_controller key =
      RouteFootprint.Keeps-reconcile env (IsClean-reads env) (applies_cleanly holds) key

  -- From a history that is clean and modest, any number of runs of the five controllers, for any
  -- keys and in any order, lead only to such: where a user, a user group or an OIDC client is
  -- updated without its finalizer, it had no counterpart in PocketID or that was deleted, with a
  -- request that the server granted, right before; the operator creates no instances, users or user
  -- groups, deletes nothing but security policies, writes the status of its own four kinds alone,
  -- and writes no namespaces and no routes. Added finalizers are there, and the OIDC clients that
  -- are read and have an id have theirs.
  pub Runs-IsClean :
      {h h' : History}
      → AddsFinalizers env.lib
      → HoldsFinalizers env
      → Runs env h h'
      → IsClean env h
      → IsModest h
      → IsClean env h' × IsModest h'
  Runs-IsClean adds holds none_yet cl mo = (cl, mo)
  Runs-IsClean adds holds (later c key before) cl mo =
      let (cl', mo') = Runs-IsClean adds holds before cl mo in
      ((Keeps-IsClean adds holds c key).at _ cl', (Keeps-IsModest c key).at _ mo')
