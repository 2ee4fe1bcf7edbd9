-- ===== src/Controller/Finalizers/User.antt =====
-- pocketiduser_controller.go: the finalizer of a user goes only after its account.
use pocketid_operator.Base.{
  ◌≡◌, String, true, is_empty, ◌∷◌, arith, inl, inr, eq_refl, string_eq, ◌||◌,
}
use pocketid_operator.Error.{Error, Result-cases}
use pocketid_operator.Api.Meta.{Key}
use pocketid_operator.Api.User.{User}
use pocketid_operator.Api.Instance.{Instance}
use pocketid_operator.PocketId.Request.{Client, method_delete, no_body}
use pocketid_operator.PocketId.Client.{
  do_request, delete_user, user_path, read_response, ignore_body, request,
}
use pocketid_operator.World.{Env, History, sent, on_error, put, send, ◌>>=◌}
use pocketid_operator.World.Keeps.{Keeps, keeps_rules}
use pocketid_operator.Controller.Steps.{step_rules}
use pocketid_operator.Controller.Access.{Access, refused, granted}
use pocketid_operator.Controller.User.Reconcile.{
  user_finalizer, update_error_status, drop_finalizer, delete_account, handle_deletion,
  ensure_finalizer, sync_user, reconcile_live, reconcile_with, reconcile_user, reconcile,
}
use pocketid_operator.Controller.Footprint.User.{Keeps-update_error_status, Keeps-sync_user}
use pocketid_operator.Controller.Finalizers.{AddsFinalizers, clean, deleted_just_now, IsClean}
use pocketid_operator.Controller.Finalizers.Steps.{clean_steps}

ruleset user_steps = (clean_steps, Keeps-update_error_status, Keeps-sync_user)

module _ (env : Env) where
  refuses :
      (u : User) (r : String) (e : Error) → Keeps (IsClean env) (update_error_status env u r e)
  refuses u r e = search user_steps

  syncs : (i : Instance) (c : Client) (u : User) → Keeps (IsClean env) (sync_user env i c u)
  syncs i c u = search user_steps

  -- The finalizer is there after it was added.
  Keeps-ensure_finalizer :
      AddsFinalizers env.lib → (u : User) → Keeps (IsClean env) (ensure_finalizer env u)
  unfolding ensure_finalizer put clean
  Keeps-ensure_finalizer adds u = record {
    at = λ h p. ground (arith, adds.contains-add u.metadata user_finalizer);
  }

  IsClean-drop_finalizer :
      (u : User) (h : History)
      → (is_empty u.status.user_id || deleted_just_now env (user_path u.status.user_id) h) ≡ true
      → IsClean env h
      → IsClean env (drop_finalizer env u h).1
  unfolding drop_finalizer put clean ◌>>=◌
  IsClean-drop_finalizer u h gone p = ground arith

  Keeps-delete_account : (u : User) (c : Client) → Keeps (IsClean env) (delete_account env u c)
  unfolding delete_account delete_user do_request send clean ◌>>=◌
  Keeps-delete_account u c = record {
    at = λ h p.
        let r = request c method_delete (user_path u.status.user_id) no_body in
        elim (Result-cases (read_response ignore_body tt (env.http h r))) [
          | inl (e, failed) ↦
              rw (failed, on_error) ((refuses u "DeleteUserFailed" e).at (sent r ∷ h) p)
          | inr (_, done) ↦
              rw (done, on_error)
                (IsClean-drop_finalizer u (sent r ∷ h)
                  (ground (arith, eq_refl (user_path u.status.user_id))) p)
        ];
  }

  Keeps-drop_finalizer :
      (u : User) → is_empty u.status.user_id ≡ true → Keeps (IsClean env) (drop_finalizer env u)
  Keeps-drop_finalizer u unsynced = record {
    at = λ h p. IsClean-drop_finalizer u h (rw unsynced) p;
  }

  Keeps-handle_deletion : (u : User) (c : Client) → Keeps (IsClean env) (handle_deletion env u c)
  unfolding handle_deletion
  Keeps-handle_deletion u c = search (keeps_rules, Keeps-drop_finalizer, Keeps-delete_account)

  Keeps-reconcile_with :
      AddsFinalizers env.lib
      → (u : User) (a : Access) → Keeps (IsClean env) (reconcile_with env u a)
  unfolding reconcile_with reconcile_live
  Keeps-reconcile_with adds u (refused r e) = refuses u r e
  Keeps-reconcile_with adds u (granted i c) =
      search (keeps_rules, Keeps-handle_deletion, Keeps-ensure_finalizer, syncs) depth 8

  -- A run of the user reconciler, at any history that is clean, leaves a clean one: where it
  -- updates a user without its finalizer, the user has no account or the account was deleted, with
  -- a request that the server granted, right before the update.
  pub reconcile-user-IsClean :
      AddsFinalizers env.lib
      → (key : Key) (h : History) → IsClean env h
      → IsClean env (reconcile env key h).1
  unfolding reconcile reconcile_user
  reconcile-user-IsClean adds key =
      let k : Keeps (IsClean env) (reconcile env key) =
        search (step_rules, clean_steps, Keeps-reconcile_with) depth 10 in
      k.at
