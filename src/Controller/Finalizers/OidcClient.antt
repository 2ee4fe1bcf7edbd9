-- ===== src/Controller/Finalizers/OidcClient.antt =====
-- pocketidoidcclient_controller.go and securitypolicy.go: the finalizer of an OIDC client goes only
-- after its counterpart.
use pocketid_operator.Base.{
  ◌≡◌, String, true, is_empty, ◌∷◌, arith, inl, inr, eq_refl, string_eq, ◌||◌,
}
use pocketid_operator.Error.{Error, Result-cases}
use pocketid_operator.Api.Meta.{Key}
use pocketid_operator.Api.Instance.{Instance}
use pocketid_operator.Api.OidcClient.{OidcClient}
use pocketid_operator.PocketId.Request.{Client, method_delete, no_body}
use pocketid_operator.PocketId.Client.{
  do_request, delete_oidc_client, client_path, read_response, ignore_body, request,
}
use pocketid_operator.World.{Env, History, sent, on_error, put, send, ◌>>=◌}
use pocketid_operator.World.Keeps.{Keeps, keeps_rules}
use pocketid_operator.Controller.Steps.{step_rules}
use pocketid_operator.Controller.Access.{Access, refused, granted}
use pocketid_operator.Controller.OidcClient.Reconcile.{
  oidc_client_finalizer, update_error_status, drop_finalizer, delete_remote, handle_deletion,
  ensure_finalizer, sync_client, reconcile_live, reconcile_with, reconcile_client, reconcile,
}
use pocketid_operator.Controller.Footprint.OidcClient.{Keeps-update_error_status, Keeps-sync_client}
use pocketid_operator.Controller.Finalizers.{AddsFinalizers, clean, deleted_just_now, IsClean}
use pocketid_operator.Controller.Finalizers.Steps.{clean_steps}

ruleset client_steps = (clean_steps, Keeps-update_error_status, Keeps-sync_client)

module _ (env : Env) where
  refuses :
      (o : OidcClient) (r : String) (e : Error)
      → Keeps (IsClean env) (update_error_status env o r e)
  refuses o r e = search client_steps

  syncs :
      (i : Instance) (api : Client) (o : OidcClient) → Keeps (IsClean env) (sync_client env i api o)
  syncs i api o = search client_steps

  -- The finalizer is there after it was added.
  Keeps-ensure_finalizer :
      AddsFinalizers env.lib → (o : OidcClient) → Keeps (IsClean env) (ensure_finalizer env o)
  unfolding ensure_finalizer put clean
  Keeps-ensure_finalizer adds o = record {
    at = λ h p. ground (arith, adds.contains-add o.metadata oidc_client_finalizer);
  }

  IsClean-drop_finalizer :
      (o : OidcClient) (h : History)
      → (is_empty o.status.client_id || deleted_just_now env (client_path o.status.client_id) h)
        ≡ true
      → IsClean env h
      → IsClean env (drop_finalizer env o h).1
  unfolding drop_finalizer put clean ◌>>=◌
  IsClean-drop_finalizer o h gone p = ground arith

  Keeps-delete_remote : (o : OidcClient) (c : Client) → Keeps (IsClean env) (delete_remote env o c)
  unfolding delete_remote delete_oidc_client do_request send clean ◌>>=◌
  Keeps-delete_remote o c = record {
    at = λ h p.
        let r = request c method_delete (client_path o.status.client_id) no_body in
        elim (Result-cases (read_response ignore_body tt (env.http h r))) [
          | inl (e, failed) ↦
              rw (failed, on_error) ((refuses o "DeleteOIDCClientFailed" e).at (sent r ∷ h) p)
          | inr (_, done) ↦
              rw (done, on_error)
                (IsClean-drop_finalizer o (sent r ∷ h)
                  (ground (arith, eq_refl (client_path o.status.client_id))) p)
        ];
  }

  Keeps-drop_finalizer :
      (o : OidcClient)
      → is_empty o.status.client_id ≡ true
      → Keeps (IsClean env) (drop_finalizer env o)
  Keeps-drop_finalizer o unsynced = record {
    at = λ h p. IsClean-drop_finalizer o h (rw unsynced) p;
  }

  Keeps-handle_deletion :
      (o : OidcClient) (c : Client) → Keeps (IsClean env) (handle_deletion env o c)
  unfolding handle_deletion
  Keeps-handle_deletion o c = search (keeps_rules, Keeps-drop_finalizer, Keeps-delete_remote)

  Keeps-reconcile_with :
      AddsFinalizers env.lib
      → (o : OidcClient) (a : Access) → Keeps (IsClean env) (reconcile_with env o a)
  unfolding reconcile_with reconcile_live
  Keeps-reconcile_with adds o (refused r e) = refuses o r e
  Keeps-reconcile_with adds o (granted i c) =
      search (keeps_rules, Keeps-handle_deletion, Keeps-ensure_finalizer, syncs) depth 8

  -- A run of the OIDC client reconciler, at any history that is clean, leaves a clean one: where it
  -- updates a client without its finalizer, the client has no counterpart in PocketID or that was
  -- deleted, with a request that the server granted, right before the update.
  pub reconcile-client-IsClean :
      AddsFinalizers env.lib
      → (key : Key) (h : History) → IsClean env h
      → IsClean env (reconcile env key h).1
  unfolding reconcile reconcile_client
  reconcile-client-IsClean adds key =
      let k : Keeps (IsClean env) (reconcile env key) =
        search (step_rules, clean_steps, Keeps-reconcile_with) depth 10 in
      k.at
