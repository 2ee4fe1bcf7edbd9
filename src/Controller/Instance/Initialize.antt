-- ===== src/Controller/Instance/Initialize.antt =====
-- `initializeInstance` of pocketidinstance_controller.go
use pocketid_operator.Base.{true, false, not, if◌then◌else◌, none, some, []}
use pocketid_operator.Base.Lists.{is_nil}
use pocketid_operator.Error.{wrap, Result, ok, err}
use pocketid_operator.Api.Meta.{condition_true}
use pocketid_operator.Api.Instance.{Instance, InitialAdminConfig}
use pocketid_operator.PocketId.Types.{User as Account}
use pocketid_operator.PocketId.Request.{Client}
use pocketid_operator.PocketId.Client.{list_users, create_user_without_result}
use pocketid_operator.World.{Env, M, pure, on_error, on_nil, ◌>>=◌}
use pocketid_operator.Controller.Status.{set_condition}
use pocketid_operator.Controller.Access.{create_api_client_with_dev_default}

unfoldable pub admin_account : InitialAdminConfig → Account
admin_account admin = record {
  id = "";
  username = admin.username;
  email = some admin.email;
  first_name = admin.first_name;
  last_name = none;
  display_name = admin.display_name;
  is_admin = true;
  disabled = false;
  locale = none;
  user_groups = [];
}

module _ (env : Env) where
  -- Sets the condition "Initialized" of the instance.
  unfoldable pub mark_initialized : Instance → M (Result Instance)
  mark_initialized i = do
    conditions ←
        set_condition env i.status.conditions i.metadata.generation "Initialized" condition_true
          "AdminCreated" "Initial admin user has been created"
    pure (ok (record i { status = record i.status { conditions = conditions } }))

  unfoldable pub create_admin : Instance → InitialAdminConfig → Client → M (Result Instance)
  create_admin i admin c = do
    created ← create_user_without_result env c (admin_account admin)
    on_error created (λ e. pure (err (wrap "failed to create admin: " e))) (λ u. mark_initialized i)

  unfoldable pub create_first_user : Instance → InitialAdminConfig → Client → M (Result Instance)
  create_first_user i admin c = do
    listed ← list_users env c
    on_error listed (λ e. pure (err (wrap "failed to list users for initialization: " e)))
        λ users. if is_nil users then create_admin i admin c else mark_initialized i

  unfoldable pub initialize_with : Instance → InitialAdminConfig → M (Result Instance)
  initialize_with i admin =
      if env.is_status_condition_true i.status.conditions "Initialized"
      then pure (ok i)
      else if not i.status.ready
      then pure (ok i)
      else (do
        made ← create_api_client_with_dev_default env i "http://localhost:1411"
        on_error made (λ e. pure (err (wrap "failed to create API client for initialization: " e)))
            (create_first_user i admin))

  unfoldable pub initialize_instance : Instance → M (Result Instance)
  initialize_instance i = on_nil i.spec.initial_admin (pure (ok i)) (initialize_with i)
