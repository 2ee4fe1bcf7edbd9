-- ===== src/Controller/Finalizers/UserGroup.antt =====
-- pocketidusergroup_controller.go: the finalizer of a group goes only after its counterpart.
use pocketid_operator.Base.{
  ◌≡◌, String, true, is_empty, arith, inl, inr, eq_refl, string_eq, ◌||◌, ◌∷◌,
}
use pocketid_operator.Error.{Error, Result-cases}
use pocketid_operator.Api.Meta.{Key}
use pocketid_operator.Api.UserGroup.{UserGroup}
use pocketid_operator.PocketId.Request.{Client, method_delete, no_body}
use pocketid_operator.PocketId.Client.{
  do_request, delete_group, group_path, read_response, ignore_body, request,
}
use pocketid_operator.World.{Env, History, sent, on_error, put, send, ◌>>=◌}
use pocketid_operator.World.Keeps.{Keeps, keeps_rules}
use pocketid_operator.Controller.Steps.{step_rules}
use pocketid_operator.Controller.Access.{Access, refused, granted}
use pocketid_operator.Controller.UserGroup.Reconcile.{
  group_finalizer, update_error_status, drop_finalizer, delete_remote, handle_deletion,
  ensure_finalizer, sync_group, reconcile_live, reconcile_with, reconcile_group, reconcile,
}
use pocketid_operator.Controller.Footprint.UserGroup.{Keeps-update_error_status, Keeps-sync_group}
use pocketid_operator.Controller.Finalizers.{AddsFinalizers, clean, deleted_just_now, IsClean}
use pocketid_operator.Controller.Finalizers.Steps.{clean_steps}

ruleset group_steps = (clean_steps, Keeps-update_error_status, Keeps-sync_group)

module _ (env : Env) where
  refuses :
      (g : UserGroup) (r : String) (e : Error) → Keeps (IsClean env) (update_error_status env g r e)
  refuses g r e = search group_steps

  syncs : (c : Client) (g : UserGroup) → Keeps (IsClean env) (sync_group env c g)
  syncs c g = search group_steps

  -- The finalizer is there after it was added.
  Keeps-ensure_finalizer :
      AddsFinalizers env.lib → (g : UserGroup) → Keeps (IsClean env) (ensure_finalizer env g)
  unfolding ensure_finalizer put clean
  Keeps-ensure_finalizer adds g = record {
    at = λ h p. ground (arith, adds.contains-add g.metadata group_finalizer);
  }

  IsClean-drop_finalizer :
      (g : UserGroup) (h : History)
      → (is_empty g.status.group_id || deleted_just_now env (group_path g.status.group_id) h) ≡ true
      → IsClean env h
      → IsClean env (drop_finalizer env g h).1
  unfolding drop_finalizer put clean ◌>>=◌
  IsClean-drop_finalizer g h gone p = ground arith

  Keeps-delete_remote : (g : UserGroup) (c : Client) → Keeps (IsClean env) (delete_remote env g c)
  unfolding delete_remote delete_group do_request send clean ◌>>=◌
  Keeps-delete_remote g c = record {
    at = λ h p.
        let r = request c method_delete (group_path g.status.group_id) no_body in
        elim (Result-cases (read_response ignore_body tt (env.http h r))) [
          | inl (e, failed) ↦
              rw (failed, on_error) ((refuses g "DeleteGroupFailed" e).at (sent r ∷ h) p)
          | inr (_, done) ↦
              rw (done, on_error)
                (IsClean-drop_finalizer g (sent r ∷ h)
                  (ground (arith, eq_refl (group_path g.status.group_id))) p)
        ];
  }

  Keeps-drop_finalizer :
      (g : UserGroup)
      → is_empty g.status.group_id ≡ true
      → Keeps (IsClean env) (drop_finalizer env g)
  Keeps-drop_finalizer g unsynced = record {
    at = λ h p. IsClean-drop_finalizer g h (rw unsynced) p;
  }

  Keeps-handle_deletion :
      (g : UserGroup) (c : Client) → Keeps (IsClean env) (handle_deletion env g c)
  unfolding handle_deletion
  Keeps-handle_deletion g c = search (keeps_rules, Keeps-drop_finalizer, Keeps-delete_remote)

  Keeps-reconcile_with :
      AddsFinalizers env.lib
      → (g : UserGroup) (a : Access) → Keeps (IsClean env) (reconcile_with env g a)
  unfolding reconcile_with reconcile_live
  Keeps-reconcile_with adds g (refused r e) = refuses g r e
  Keeps-reconcile_with adds g (granted i c) =
      search (keeps_rules, Keeps-handle_deletion, Keeps-ensure_finalizer, syncs) depth 8

  -- A run of the user group reconciler, at any history that is clean, leaves a clean one: where it
  -- updates a group without its finalizer, the group has no counterpart in PocketID or that was
  -- deleted, with a request that the server granted, right before the update.
  pub reconcile-group-IsClean :
      AddsFinalizers env.lib
      → (key : Key) (h : History) → IsClean env h
      → IsClean env (reconcile env key h).1
  unfolding reconcile reconcile_group
  reconcile-group-IsClean adds key =
      let k : Keeps (IsClean env) (reconcile env key) =
        search (step_rules, clean_steps, Keeps-reconcile_with) depth 10 in
      k.at
