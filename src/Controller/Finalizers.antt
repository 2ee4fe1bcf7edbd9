-- ===== src/Controller/Finalizers.antt =====
-- The order that the finalizers are for: an `Update` that leaves a resource without its finalizer
-- comes right after the deletion of what the resource stands for in PocketID. This file says what
-- that means of a history, for all three kinds of resource, and its children prove it of the three
-- reconcilers in pocketiduser_controller.go, pocketidusergroup_controller.go and
-- pocketidoidcclient_controller.go.
pub mod Steps
pub mod User
pub mod UserGroup
pub mod OidcClient
use pocketid_operator.Base.{
  ◌≡◌, String, Bool, true, false, ◌==◌, string_eq, ◌&&◌, ◌||◌, is_empty, List, [], ◌∷◌,
}
use pocketid_operator.Error.{Result, ok, err, is_ok}
use pocketid_operator.Api.Meta.{ObjectMeta}
use pocketid_operator.PocketId.Request.{
  Method, method_get, method_post, method_put, method_delete, Request,
}
use pocketid_operator.PocketId.Client.{
  read_response, ignore_body, user_path, group_path, client_path,
}
use pocketid_operator.World.{
  Env, Machinery, History, Event, wrote, sent, update, user_kind, user_group_kind, oidc_client_kind,
}
use pocketid_operator.Controller.User.Reconcile.{user_finalizer}
use pocketid_operator.Controller.UserGroup.Reconcile.{group_finalizer}
use pocketid_operator.Controller.OidcClient.Reconcile.{oidc_client_finalizer}

-- What the proofs use of `controllerutil`: a finalizer that was added is there.
pub record AddsFinalizers (lib : Machinery) : Type 0 where
  pub contains-add :
      (m : ObjectMeta) (f : String) → lib.contains_finalizer (lib.add_finalizer m f) f ≡ true

abbrev pub is_delete : Method → Bool
is_delete method_delete = true
is_delete _ = false

abbrev pub granted_delete : Env → String → Request → History → Bool
granted_delete env path r h =
    is_delete r.method && r.path == path && is_ok (read_response ignore_body tt (env.http h r))

-- The newest event is a request to delete what stands at the path, and the server granted it.
abbrev pub deleted_just_now : Env → String → History → Bool
deleted_just_now env path (sent r ∷ h) = granted_delete env path r h
deleted_just_now env path _ = false

-- An update keeps the finalizer, or the resource has no counterpart, or that was just deleted.
abbrev pub clean_update : Env → ObjectMeta → String → String → String → History → Bool
clean_update env m finalizer id path h =
    env.contains_finalizer m finalizer || is_empty id || deleted_just_now env path h

-- Every update in the history is clean.
unfoldable pub clean : Env → History → Bool
clean env [] = true
clean env (wrote update user_kind u ∷ h) =
    clean_update env u.metadata user_finalizer u.status.user_id (user_path u.status.user_id) h
    && clean env h
clean env (wrote update user_group_kind g ∷ h) =
    clean_update env g.metadata group_finalizer g.status.group_id (group_path g.status.group_id) h
    && clean env h
clean env (wrote update oidc_client_kind c ∷ h) =
    clean_update env c.metadata oidc_client_finalizer c.status.client_id
      (client_path c.status.client_id) h
    && clean env h
clean env (_ ∷ h) = clean env h

abbrev pub IsClean : Env → History → Type 0
IsClean env h = clean env h ≡ true
