-- ===== src/Operator/Setup.antt =====
-- The `SetupWithManager` methods of internal/controller: the kinds whose changes start a run.
use pocketid_operator.Base.{List, [], ◌∷◌}
use pocketid_operator.World.{
  Kind, instance_kind, user_kind, user_group_kind, oidc_client_kind, secret_kind, config_map_kind,
  service_kind, stateful_set_kind, http_route_kind,
}

-- The reconcilers, in the order in which `main` sets them up.
pub data Controller : Type 0 where
  instance_controller user_controller oidc_client_controller user_group_controller : Controller
  http_route_controller : Controller

-- A change of an object of the kind `resource` starts a run for that object, a change of one of the
-- kinds `owns` a run for the object's controller, and a change of one of the kinds `watches` runs
-- for the keys that `oidcClientsReferencingUserGroup` gives.
pub record Registration : Type 0 where
  pub resource : Kind
  pub owns : List Kind
  pub watches : List Kind

abbrev pub setup_instance : Registration
setup_instance = record {
  resource = instance_kind;
  owns = stateful_set_kind ∷ config_map_kind ∷ secret_kind ∷ service_kind ∷ [];
  watches = [];
}

abbrev pub setup_user : Registration
setup_user = record { resource = user_kind; owns = []; watches = [] }

abbrev pub setup_oidc_client : Registration
setup_oidc_client = record {
  resource = oidc_client_kind;
  owns = [];
  watches = user_group_kind ∷ [];
}

abbrev pub setup_user_group : Registration
setup_user_group = record { resource = user_group_kind; owns = []; watches = [] }

abbrev pub setup_http_route : Registration
setup_http_route = record { resource = http_route_kind; owns = oidc_client_kind ∷ []; watches = [] }

abbrev pub setup_with_manager : Controller → Registration
setup_with_manager instance_controller = setup_instance
setup_with_manager user_controller = setup_user
setup_with_manager oidc_client_controller = setup_oidc_client
setup_with_manager user_group_controller = setup_user_group
setup_with_manager http_route_controller = setup_http_route
