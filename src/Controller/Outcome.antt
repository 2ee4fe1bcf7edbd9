-- ===== src/Controller/Outcome.antt =====
-- The `(ctrl.Result, error)` that a reconciler returns.
use pocketid_operator.Base.{ℕ, Bool, false, Option, none, some, if◌then◌else◌}
use pocketid_operator.Error.{Error, is_not_found}

-- `requeue_after` is in seconds, and 0 where it is not set.
pub record Outcome : Type 0 where
  pub requeue : Bool
  pub requeue_after : ℕ
  pub error : Option Error

-- `ctrl.Result{}, nil`
abbrev pub finished : Outcome
finished = record { requeue = false; requeue_after = 0; error = none }

-- `ctrl.Result{}, err`
abbrev pub failed : Error → Outcome
failed e = record { requeue = false; requeue_after = 0; error = some e }

-- `ctrl.Result{RequeueAfter: …}, nil`
abbrev pub again_after : ℕ → Outcome
again_after seconds = record { requeue = false; requeue_after = seconds; error = none }

-- `ctrl.Result{RequeueAfter: …}, err`
abbrev pub failed_after : ℕ → Error → Outcome
failed_after seconds e = record { requeue = false; requeue_after = seconds; error = some e }

-- `ctrl.Result{}, client.IgnoreNotFound(err)`
abbrev pub ignore_not_found : Error → Outcome
ignore_not_found e = if is_not_found e then finished else failed e
