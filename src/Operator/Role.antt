-- ===== src/Operator/Role.antt =====
-- The `+kubebuilder:rbac` markers above the `Reconcile` methods. One role is generated from all of
-- them, so a marker above one reconciler grants its access to every other too.
use pocketid_operator.Base.{ℕ, Bool, true, false, ◌==◌, nat_eq, ◌&&◌, ◌||◌, List, [], ◌∷◌, ◌++◌}
use pocketid_operator.World.{
  Kind, instance_kind, user_kind, user_group_kind, oidc_client_kind, secret_kind, namespace_kind,
  config_map_kind, service_kind, stateful_set_kind, security_policy_kind, http_route_kind, got,
  listed, wrote, sent, read_clock, read_random, Verb, create, update, update_status, patch, delete,
  History,
}
use pocketid_operator.Operator.Setup.{
  Controller, instance_controller, user_controller, oidc_client_controller, user_group_controller,
  http_route_controller,
}

pub data Right : Type 0 where
  may_get may_list may_watch may_create may_update may_patch may_delete : Right

-- A resource, its status and its finalizers are granted apart; no kind here stands for volume
-- claims.
pub data Resource : Type 0 where
  object status finalizers : Kind → Resource
  persistent_volume_claims : Resource

pub record Rule : Type 0 where
  pub resource : Resource
  pub verbs : List Right

abbrev pub reading : List Right
reading = may_get ∷ may_list ∷ may_watch ∷ []

abbrev pub writing : List Right
writing = may_get ∷ may_list ∷ may_watch ∷ may_create ∷ may_update ∷ may_patch ∷ []

abbrev pub everything : List Right
everything = may_get ∷ may_list ∷ may_watch ∷ may_create ∷ may_update ∷ may_patch ∷ may_delete ∷ []

-- The three markers that four of the reconcilers have for their own kind.
abbrev pub owner_rules : Kind → List Rule
owner_rules k =
    record { resource = object k; verbs = everything }
    ∷ record { resource = status k; verbs = may_get ∷ may_update ∷ may_patch ∷ [] }
    ∷ record { resource = finalizers k; verbs = may_update ∷ [] }
    ∷ []

abbrev pub instance_markers : List Rule
instance_markers =
    owner_rules instance_kind
    ++ (record { resource = object stateful_set_kind; verbs = everything }
        ∷ record { resource = object config_map_kind; verbs = everything }
        ∷ record { resource = object secret_kind; verbs = everything }
        ∷ record { resource = object service_kind; verbs = everything }
        ∷ record { resource = persistent_volume_claims; verbs = everything }
        ∷ [])

abbrev pub user_markers : List Rule
user_markers =
    owner_rules user_kind
    ++ (record { resource = object instance_kind; verbs = reading }
        ∷ record { resource = object user_group_kind; verbs = reading }
        ∷ record { resource = object secret_kind; verbs = writing }
        ∷ record { resource = object namespace_kind; verbs = reading }
        ∷ [])

abbrev pub oidc_client_markers : List Rule
oidc_client_markers =
    owner_rules oidc_client_kind
    ++ (record { resource = object user_group_kind; verbs = reading }
        ∷ record { resource = object secret_kind; verbs = everything }
        ∷ record { resource = object http_route_kind; verbs = reading }
        ∷ record { resource = object security_policy_kind; verbs = everything }
        ∷ [])

abbrev pub user_group_markers : List Rule
user_group_markers =
    owner_rules user_group_kind
    ++ (record { resource = object instance_kind; verbs = reading }
        ∷ record { resource = object namespace_kind; verbs = reading }
        ∷ [])

abbrev pub http_route_markers : List Rule
http_route_markers =
    record { resource = object http_route_kind; verbs = reading }
    ∷ record { resource = object oidc_client_kind; verbs = everything }
    ∷ []

abbrev pub markers : Controller → List Rule
markers instance_controller = instance_markers
markers user_controller = user_markers
markers oidc_client_controller = oidc_client_markers
markers user_group_controller = user_group_markers
markers http_route_controller = http_route_markers

-- The role that is generated from the markers.
abbrev pub manager_role : List Rule
manager_role =
    instance_markers
    ++ (user_markers ++ (oidc_client_markers ++ (user_group_markers ++ http_route_markers)))

abbrev number : Kind → ℕ
number instance_kind = 0
number user_kind = 1
number user_group_kind = 2
number oidc_client_kind = 3
number secret_kind = 4
number namespace_kind = 5
number config_map_kind = 6
number service_kind = 7
number stateful_set_kind = 8
number security_policy_kind = 9
number http_route_kind = 10

abbrev pub same_kind : Kind → Kind → Bool
same_kind j k = number j == number k

abbrev pub same_resource : Resource → Resource → Bool
same_resource (object j) (object k) = same_kind j k
same_resource (status j) (status k) = same_kind j k
same_resource (finalizers j) (finalizers k) = same_kind j k
same_resource persistent_volume_claims persistent_volume_claims = true
same_resource _ _ = false

abbrev place : Right → ℕ
place may_get = 0
place may_list = 1
place may_watch = 2
place may_create = 3
place may_update = 4
place may_patch = 5
place may_delete = 6

abbrev pub has_right : List Right → Right → Bool
has_right [] r = false
has_right (q ∷ qs) r = place q == place r || has_right qs r

-- Some rule is for the resource and has the verb.
unfoldable pub grants : List Rule → Resource → Right → Bool
grants [] x r = false
grants (rule ∷ rules) x r =
    same_resource rule.resource x && has_right rule.verbs r || grants rules x r

abbrev pub right_of : Verb → Right
right_of create = may_create
right_of update = may_update
right_of update_status = may_update
right_of patch = may_patch
right_of delete = may_delete

abbrev pub resource_of : Verb → Kind → Resource
resource_of update_status k = status k
resource_of _ k = object k

-- A read is served from a cache, which lists the kind and watches it.
unfoldable pub readable : List Rule → Kind → Bool
readable rules k =
    grants rules (object k) may_get
    && grants rules (object k) may_list
    && grants rules (object k) may_watch

-- The whole role lets the controller read what it reads, and its own markers let it write what it
-- writes.
unfoldable pub permitted : Controller → History → Bool
permitted c [] = true
permitted c (got k key ∷ h) = readable manager_role k && permitted c h
permitted c (listed k namespace ∷ h) = readable manager_role k && permitted c h
permitted c (wrote v k x ∷ h) = grants (markers c) (resource_of v k) (right_of v) && permitted c h
permitted c (sent r ∷ h) = permitted c h
permitted c (read_clock ∷ h) = permitted c h
permitted c (read_random ∷ h) = permitted c h
