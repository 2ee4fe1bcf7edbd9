-- ===== src/Controller/Finalizers/Steps.antt =====
-- Reads, requests and all writes but the updates of the three resources leave a history clean.
use pocketid_operator.World.{
  Env, Kind, create, delete, update, update_status, patch, secret_kind, security_policy_kind,
  instance_kind, config_map_kind, service_kind,
}
use pocketid_operator.World.Keeps.{IgnoresReads, IgnoresSends, IgnoresWrites}
use pocketid_operator.Controller.Finalizers.{clean, IsClean}

module _ (env : Env) where
  pub IsClean-reads : IgnoresReads (IsClean env)
  unfolding clean
  IsClean-reads = record {
    at_got = λ k key h p. p;
    at_listed = λ k ns h p. p;
    at_read_clock = λ h p. p;
    at_read_random = λ h p. p;
  }

  pub IsClean-sends : IgnoresSends (IsClean env)
  unfolding clean
  IsClean-sends = record { at_sent = λ r h p. p }

  pub IsClean-status : (k : Kind) → IgnoresWrites (IsClean env) update_status k
  unfolding clean
  IsClean-status k = record { at_wrote = λ x h p. p }

  pub IsClean-create : (k : Kind) → IgnoresWrites (IsClean env) create k
  unfolding clean
  IsClean-create k = record { at_wrote = λ x h p. p }

  pub IsClean-delete : (k : Kind) → IgnoresWrites (IsClean env) delete k
  unfolding clean
  IsClean-delete k = record { at_wrote = λ x h p. p }

  pub IsClean-secret : IgnoresWrites (IsClean env) update secret_kind
  unfolding clean
  IsClean-secret = record { at_wrote = λ x h p. p }

  pub IsClean-policy : IgnoresWrites (IsClean env) update security_policy_kind
  unfolding clean
  IsClean-policy = record { at_wrote = λ x h p. p }

  pub IsClean-patch : (k : Kind) → IgnoresWrites (IsClean env) patch k
  unfolding clean
  IsClean-patch k = record { at_wrote = λ x h p. p }

  pub IsClean-instance : IgnoresWrites (IsClean env) update instance_kind
  unfolding clean
  IsClean-instance = record { at_wrote = λ x h p. p }

  pub IsClean-config : IgnoresWrites (IsClean env) update config_map_kind
  unfolding clean
  IsClean-config = record { at_wrote = λ x h p. p }

  pub IsClean-service : IgnoresWrites (IsClean env) update service_kind
  unfolding clean
  IsClean-service = record { at_wrote = λ x h p. p }

pub ruleset clean_steps = (
  IsClean-reads, IsClean-sends, IsClean-status, IsClean-create, IsClean-delete, IsClean-secret,
  IsClean-policy, IsClean-patch, IsClean-instance, IsClean-config, IsClean-service,
)
