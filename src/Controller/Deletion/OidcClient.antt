-- ===== src/Controller/Deletion/OidcClient.antt =====
-- pocketidoidcclient_controller.go: the last run on an OIDC client that is being deleted.
use pocketid_operator.Base.{◌≡◌, refl, ap, true, false, is_empty, is_some, ◌∷◌}
use pocketid_operator.Error.{ok}
use pocketid_operator.Api.Meta.{Key}
use pocketid_operator.Api.OidcClient.{OidcClient}
use pocketid_operator.Api.Instance.{Instance}
use pocketid_operator.PocketId.Request.{Client, Request, method_delete, no_body}
use pocketid_operator.PocketId.Client.{
  delete_oidc_client, do_request, read_response, ignore_body, request, client_path,
}
use pocketid_operator.World.{
  Env, History, got, sent, wrote, update, oidc_client_kind, fetch, put, send, on_error, ◌>>=◌,
}
use pocketid_operator.World.Effects.{effects}
use pocketid_operator.Controller.Outcome.{finished}
use pocketid_operator.Controller.Access.{granted, access}
use pocketid_operator.Controller.Permission.{effects-access}
use pocketid_operator.Controller.OidcClient.Reconcile.{
  oidc_client_finalizer, drop_finalizer, delete_remote, handle_deletion, reconcile_with,
  reconcile_client, reconcile,
}

module _ (env : Env) (key : Key) (h : History) (o : OidcClient) (i : Instance) (c : Client) where
  abbrev after_get : History
  after_get = got oidc_client_kind key ∷ h

  abbrev pub after_access : History
  after_access = (access env o.spec.instance_ref o.namespace "http://localhost:8080" after_get).1

  abbrev pub delete_request : Request
  delete_request = request c method_delete (client_path o.status.client_id) no_body

  -- The resource without its finalizer.
  abbrev pub released : OidcClient
  released = record o { metadata = env.remove_finalizer o.metadata oidc_client_finalizer }

  -- An OIDC client that is being deleted, has its finalizer and a client in PocketID, and whose
  -- instance gives access.
  pub record IsLeaving : Type 0 where
    pub found : env.get oidc_client_kind h key ≡ ok o
    pub deleted : is_some o.metadata.deletion_timestamp ≡ true
    pub opened :
        (access env o.spec.instance_ref o.namespace "http://localhost:8080" after_get).0
        ≡ granted i c
    pub held : env.contains_finalizer o.metadata oidc_client_finalizer ≡ true
    pub has_counterpart : is_empty o.status.client_id ≡ false

  -- If PocketID grants the deletion of the counterpart of an OIDC client that is being deleted, and
  -- the server the update of the resource, then the run is done, and its effects are these two: the
  -- request to delete the counterpart and then the update that removes the finalizer.
  pub reconcile-client_deletes :
      IsLeaving
      → read_response ignore_body tt (env.http after_access delete_request) ≡ ok tt
      → (stored : OidcClient)
      → env.write update oidc_client_kind (sent delete_request ∷ after_access) released ≡ ok stored
      → ((reconcile env key h).0 ≡ finished)
        × (effects (reconcile env key h).1
            ≡ wrote update oidc_client_kind released ∷ sent delete_request ∷ effects h)
  unfolding reconcile reconcile_client reconcile_with handle_deletion delete_remote drop_finalizer
      delete_oidc_client do_request fetch put send ◌>>=◌
  reconcile-client_deletes l answered stored written =
      rw (l.found, on_error, l.opened, l.deleted, l.held, l.has_counterpart, answered, written)
        (
          refl,
          ap (λ es. wrote update oidc_client_kind released ∷ sent delete_request ∷ es)
              (effects-access env o.spec.instance_ref o.namespace "http://localhost:8080"
                after_get),
        )
