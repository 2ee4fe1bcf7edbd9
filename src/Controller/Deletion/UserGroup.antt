-- ===== src/Controller/Deletion/UserGroup.antt =====
-- pocketidusergroup_controller.go: the last run on a user group that is being deleted.
use pocketid_operator.Base.{◌≡◌, refl, ap, true, false, is_empty, is_some, ◌∷◌}
use pocketid_operator.Error.{ok}
use pocketid_operator.Api.Meta.{Key}
use pocketid_operator.Api.UserGroup.{UserGroup}
use pocketid_operator.Api.Instance.{Instance}
use pocketid_operator.PocketId.Request.{Client, Request, method_delete, no_body}
use pocketid_operator.PocketId.Client.{
  delete_group, do_request, read_response, ignore_body, request, group_path,
}
use pocketid_operator.World.{
  Env, History, got, sent, wrote, update, user_group_kind, fetch, put, send, on_error, ◌>>=◌,
}
use pocketid_operator.World.Effects.{effects}
use pocketid_operator.Controller.Outcome.{finished}
use pocketid_operator.Controller.Access.{granted, access}
use pocketid_operator.Controller.Permission.{effects-access}
use pocketid_operator.Controller.UserGroup.Reconcile.{
  group_finalizer, drop_finalizer, delete_remote, handle_deletion, reconcile_with, reconcile_group,
  reconcile,
}

module _ (env : Env) (key : Key) (h : History) (g : UserGroup) (i : Instance) (c : Client) where
  abbrev after_get : History
  after_get = got user_group_kind key ∷ h

  abbrev pub after_access : History
  after_access = (access env g.spec.instance_ref g.namespace "" after_get).1

  abbrev pub delete_request : Request
  delete_request = request c method_delete (group_path g.status.group_id) no_body

  -- The resource without its finalizer.
  abbrev pub released : UserGroup
  released = record g { metadata = env.remove_finalizer g.metadata group_finalizer }

  -- A user group that is being deleted, has its finalizer and a group in PocketID, and whose
  -- instance gives access.
  pub record IsLeaving : Type 0 where
    pub found : env.get user_group_kind h key ≡ ok g
    pub deleted : is_some g.metadata.deletion_timestamp ≡ true
    pub opened : (access env g.spec.instance_ref g.namespace "" after_get).0 ≡ granted i c
    pub held : env.contains_finalizer g.metadata group_finalizer ≡ true
    pub has_counterpart : is_empty g.status.group_id ≡ false

  -- If PocketID grants the deletion of the counterpart of a user group that is being deleted, and
  -- the server the update of the resource, then the run is done, and its effects are these two: the
  -- request to delete the counterpart and then the update that removes the finalizer.
  pub reconcile-group_deletes :
      IsLeaving
      → read_response ignore_body tt (env.http after_access delete_request) ≡ ok tt
      → (stored : UserGroup)
      → env.write update user_group_kind (sent delete_request ∷ after_access) released ≡ ok stored
      → ((reconcile env key h).0 ≡ finished)
        × (effects (reconcile env key h).1
            ≡ wrote update user_group_kind released ∷ sent delete_request ∷ effects h)
  unfolding reconcile reconcile_group reconcile_with handle_deletion delete_remote drop_finalizer
      delete_group do_request fetch put send ◌>>=◌
  reconcile-group_deletes l answered stored written =
      rw (l.found, on_error, l.opened, l.deleted, l.held, l.has_counterpart, answered, written)
        (
          refl,
          ap (λ es. wrote update user_group_kind released ∷ sent delete_request ∷ es)
              (effects-access env g.spec.instance_ref g.namespace "" after_get),
        )
