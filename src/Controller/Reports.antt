-- ===== src/Controller/Reports.antt =====
-- What a run's result says of the status that the run wrote. The children follow this through
-- pocketiduser_controller.go, pocketidusergroup_controller.go and pocketidoidcclient_controller.go.
pub mod User
pub mod UserGroup
pub mod OidcClient
pub mod Instance
pub mod HttpRoute
use pocketid_operator.Base.{◌≡◌, refl, true, false, ◌∷◌, if◌then◌else◌, Bool-cases, inl, inr}
use pocketid_operator.Error.{Error, ok, is_not_found}
use pocketid_operator.World.{
  Env, History, Kind, Carrier, wrote, update_status, put, pure, on_error, ◌>>=◌,
}
use pocketid_operator.World.Ends.{Ends, Ends-pure, Ends-put}
use pocketid_operator.Controller.Outcome.{
  Outcome, finished, failed, again_after, failed_after, ignore_not_found,
}

-- The result of a run, by what it promises: that nothing is to be done; an error that comes back
-- with no word in the status; a status that was reported as in sync, with another run in five
-- minutes; or one that was reported as failed, with another run in half a minute.
pub data Reports (Synced Failed : History → Type 0) : Outcome → History → Type 0 where
  done : {h : History} → Reports Synced Failed finished h
  error_only : {h : History} (e : Error) → Reports Synced Failed (failed e) h
  in_sync : {h : History} → Synced h → Reports Synced Failed (again_after 300) h
  not_in_sync : {h : History} (e : Error) → Failed h → Reports Synced Failed (failed_after 30 e) h

pub Reports-ignore_not_found :
    {Synced Failed : History → Type 0} (e : Error) (h : History)
    → Reports Synced Failed (ignore_not_found e) h
Reports-ignore_not_found e h = elim (Bool-cases (is_not_found e)) [
  | inl missing ↦ rw missing done
  | inr other ↦ rw other (error_only e)
]

-- The last event is a write of a status of the kind, which the server granted and of which `Synced`
-- holds.
pub record WroteSynced (env : Env) (k : Kind) (Synced : Carrier k → Type 0) (h : History)
    : Type 0 where
  pub resource : Carrier k
  pub before : History
  pub newest : h ≡ wrote update_status k resource ∷ before
  pub stored : Carrier k
  pub granted : env.write update_status k before resource ≡ ok stored
  pub holds : Synced resource

-- The last event is a write of a status of the kind, of which `Failed` holds.
pub record WroteFailed (k : Kind) (Failed : Carrier k → Type 0) (h : History) : Type 0 where
  pub resource : Carrier k
  pub before : History
  pub newest : h ≡ wrote update_status k resource ∷ before
  pub holds : Failed resource

module _ (env : Env) (k : Kind) (Synced Failed : Carrier k → Type 0) where
  abbrev pub KindReports : Outcome → History → Type 0
  KindReports = Reports (WroteSynced env k Synced) (WroteFailed k Failed)

  pub Ends-done : Ends KindReports (pure finished)
  Ends-done = Ends-pure finished (λ h. done)

  pub Ends-failed : (e : Error) → Ends KindReports (pure (failed e))
  Ends-failed e = Ends-pure (failed e) (λ h. error_only e)

  pub Ends-ignore : (e : Error) → Ends KindReports (pure (ignore_not_found e))
  Ends-ignore e = Ends-pure (ignore_not_found e) (Reports-ignore_not_found e)

  pub Ends-synced :
      (x : Carrier k)
      → Synced x
      → Ends KindReports (
          put env update_status k x >>= λ r.
          on_error r (λ e. pure (failed e)) (λ y. pure (again_after 300)))
  Ends-synced x synced =
      Ends-put env update_status k x _ _ (λ h e p. error_only e)
        (λ h y p. in_sync (record {
          resource = x;
          before = h;
          newest = refl;
          stored = y;
          granted = p;
          holds = synced;
        }))

  pub Ends-not_synced :
      (e : Error) (x : Carrier k)
      → Failed x
      → Ends KindReports (put env update_status k x >>= λ r. pure (failed_after 30 e))
  unfolding put ◌>>=◌
  Ends-not_synced e x failing = record {
    at = λ h. not_in_sync e (record { resource = x; before = h; newest = refl; holds = failing });
  }
