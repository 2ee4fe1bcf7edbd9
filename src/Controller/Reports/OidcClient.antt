-- ===== src/Controller/Reports/OidcClient.antt =====
-- pocketidoidcclient_controller.go: the result of a run, and the status that the run wrote last.
use pocketid_operator.Base.{◌≡◌, refl, true, false, String}
use pocketid_operator.Error.{Error}
use pocketid_operator.Api.Meta.{Key}
use pocketid_operator.Api.OidcClient.{OidcClient}
use pocketid_operator.Api.Instance.{Instance}
use pocketid_operator.PocketId.Types.{OidcClient as RemoteClient}
use pocketid_operator.PocketId.Request.{Client}
use pocketid_operator.World.{Env, History, oidc_client_kind}
use pocketid_operator.World.Ends.{Ends, Ends-bind, ends_rules}
use pocketid_operator.Controller.Outcome.{Outcome}
use pocketid_operator.Controller.Access.{Access, refused, granted}
use pocketid_operator.Controller.Reports.{
  KindReports, Ends-done, Ends-failed, Ends-ignore, Ends-synced, Ends-not_synced,
}
use pocketid_operator.Controller.OidcClient.Reconcile.{
  update_error_status, update_oidc_group_reference_error_status, drop_finalizer, delete_remote,
  handle_deletion, write_synced, finish, protect, publish, sync_remote, sync_client, reconcile_live,
  reconcile_with, reconcile_client, reconcile,
}

-- The status says that the client is ready and in sync.
pub record IsSynced (o : OidcClient) : Type 0 where
  pub is_ready : o.status.ready ≡ true
  pub is_synced : o.status.synced ≡ true

-- The status says that the client is neither.
pub record HasFailed (o : OidcClient) : Type 0 where
  pub not_ready : o.status.ready ≡ false
  pub not_synced : o.status.synced ≡ false

module _ (env : Env) where
  abbrev pub ClientReports : Outcome → History → Type 0
  ClientReports = KindReports env oidc_client_kind IsSynced HasFailed

  Ends-update_error_status :
      (o : OidcClient) (reason : String) (e : Error)
      → Ends ClientReports (update_error_status env o reason e)
  unfolding update_error_status
  Ends-update_error_status o reason e = Ends-bind _ _ (λ conditions.
      Ends-not_synced env oidc_client_kind IsSynced HasFailed e _
        (record { not_ready = refl; not_synced = refl }))

  Ends-write_synced :
      (latest o : OidcClient) (r : RemoteClient) → Ends ClientReports (write_synced env latest o r)
  unfolding write_synced
  Ends-write_synced latest o r = Ends-bind _ _ (λ now. Ends-bind _ _ (λ conditions.
      Ends-synced env oidc_client_kind IsSynced HasFailed _
        (record { is_ready = refl; is_synced = refl })))

  Ends-handle_deletion :
      (o : OidcClient) (c : Client) → Ends ClientReports (handle_deletion env o c)
  unfolding handle_deletion delete_remote drop_finalizer
  Ends-handle_deletion o c =
      search (ends_rules, Ends-done, Ends-failed, Ends-update_error_status) depth 10

  Ends-finish : (o : OidcClient) (r : RemoteClient) → Ends ClientReports (finish env o r)
  unfolding finish
  Ends-finish o r = search (ends_rules, Ends-failed, Ends-write_synced)

  Ends-reconcile_live :
      (i : Instance) (c : Client) (o : OidcClient) → Ends ClientReports (reconcile_live env i c o)
  unfolding reconcile_live sync_client sync_remote publish protect
      update_oidc_group_reference_error_status
  Ends-reconcile_live i c o =
      search (ends_rules, Ends-failed, Ends-update_error_status, Ends-finish) depth 16

  Ends-reconcile_with : (o : OidcClient) (a : Access) → Ends ClientReports (reconcile_with env o a)
  unfolding reconcile_with
  Ends-reconcile_with o (refused r e) = Ends-update_error_status o r e
  Ends-reconcile_with o (granted i c) =
      search (ends_rules, Ends-handle_deletion, Ends-reconcile_live)

  -- The result of a run of the OIDC client reconciler: nothing to do; or an error alone; or another
  -- run in five minutes, and then the last event is a write of the status, granted by the server,
  -- that says that the client is ready and in sync; or an error and another run in half a minute,
  -- and then the last event is a write of a status that says that the client is neither.
  pub reconcile-ClientReports :
      (key : Key) (h : History) → ClientReports (reconcile env key h).0 (reconcile env key h).1
  unfolding reconcile reconcile_client
  reconcile-ClientReports key =
      let e : Ends ClientReports (reconcile env key) =
        search (ends_rules, Ends-ignore, Ends-reconcile_with) depth 8 in
      e.at
