-- ===== src/Controller/Status.antt =====
-- internal/controller/status.go
use pocketid_operator.Base.{ℕ, String, List}
use pocketid_operator.Error.{Error, error_text}
use pocketid_operator.Api.Meta.{Condition, ConditionStatus, condition_true, condition_false}
use pocketid_operator.World.{Env, M, pure, clock, ◌>>=◌}

-- The condition that `setCondition` builds; the library fills in the time of the transition.
abbrev pub condition : ℕ → String → ConditionStatus → String → String → Condition
condition generation type status reason message = record {
  type = type;
  status = status;
  reason = reason;
  message = message;
  observed_generation = generation;
  last_transition_time = 0;
}

module _ (env : Env) where
  unfoldable pub set_condition :
      List Condition → ℕ → String → ConditionStatus → String → String → M (List Condition)
  set_condition conditions generation type status reason message = do
    now ← clock env
    pure (env.set_status_condition now conditions (condition generation type status reason message))

  unfoldable pub set_synced_condition : List Condition → ℕ → String → M (List Condition)
  set_synced_condition conditions generation message =
      set_condition conditions generation "Ready" condition_true "Synced" message

  unfoldable pub set_error_condition : List Condition → ℕ → String → Error → M (List Condition)
  set_error_condition conditions generation reason e =
      set_condition conditions generation "Ready" condition_false reason (error_text e)
