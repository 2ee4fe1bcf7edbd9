-- ===== src/Controller/Deletion/User.antt =====
-- pocketiduser_controller.go: the last run on a user that is being deleted.
use pocketid_operator.Base.{◌≡◌, refl, ap, true, false, is_empty, is_some, ◌∷◌}
use pocketid_operator.Error.{ok}
use pocketid_operator.Api.Meta.{Key}
use pocketid_operator.Api.User.{User}
use pocketid_operator.Api.Instance.{Instance}
use pocketid_operator.PocketId.Request.{Client, Request, method_delete, no_body}
use pocketid_operator.PocketId.Client.{
  delete_user, do_request, read_response, ignore_body, request, user_path,
}
use pocketid_operator.World.{
  Env, History, got, sent, wrote, update, user_kind, fetch, put, send, on_error, ◌>>=◌,
}
use pocketid_operator.World.Effects.{effects}
use pocketid_operator.Controller.Outcome.{finished}
use pocketid_operator.Controller.Access.{granted, access}
use pocketid_operator.Controller.Permission.{effects-access}
use pocketid_operator.Controller.User.Reconcile.{
  user_finalizer, drop_finalizer, delete_account, handle_deletion, reconcile_with, reconcile_user,
  reconcile,
}

module _ (env : Env) (key : Key) (h : History) (u : User) (i : Instance) (c : Client) where
  abbrev after_get : History
  after_get = got user_kind key ∷ h

  abbrev pub after_access : History
  after_access = (access env u.spec.instance_ref u.namespace "" after_get).1

  abbrev pub delete_request : Request
  delete_request = request c method_delete (user_path u.status.user_id) no_body

  -- The resource without its finalizer.
  abbrev pub released : User
  released = record u { metadata = env.remove_finalizer u.metadata user_finalizer }

  -- A user that is being deleted, has its finalizer and an account, and whose instance gives
  -- access.
  pub record IsLeaving : Type 0 where
    pub found : env.get user_kind h key ≡ ok u
    pub deleted : is_some u.metadata.deletion_timestamp ≡ true
    pub opened : (access env u.spec.instance_ref u.namespace "" after_get).0 ≡ granted i c
    pub held : env.contains_finalizer u.metadata user_finalizer ≡ true
    pub has_account : is_empty u.status.user_id ≡ false

  -- If PocketID grants the deletion of the account of a user that is being deleted, and the server
  -- the update of the resource, then the run is done, and its effects are these two: the request to
  -- delete the account and then the update that removes the finalizer.
  pub reconcile-user_deletes :
      IsLeaving
      → read_response ignore_body tt (env.http after_access delete_request) ≡ ok tt
      → (stored : User)
      → env.write update user_kind (sent delete_request ∷ after_access) released ≡ ok stored
      → ((reconcile env key h).0 ≡ finished)
        × (effects (reconcile env key h).1
            ≡ wrote update user_kind released ∷ sent delete_request ∷ effects h)
  unfolding reconcile reconcile_user reconcile_with handle_deletion delete_account drop_finalizer
      delete_user do_request fetch put send ◌>>=◌
  reconcile-user_deletes l answered stored written =
      rw (l.found, on_error, l.opened, l.deleted, l.held, l.has_account, answered, written)
        (
          refl,
          ap (λ es. wrote update user_kind released ∷ sent delete_request ∷ es)
              (effects-access env u.spec.instance_ref u.namespace "" after_get),
        )
