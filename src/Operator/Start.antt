-- ===== src/Operator/Start.antt =====
-- cmd/main.go: from the flags to the running manager. The manager, its server options and the flag
-- parser are those of controller-runtime, zap and Go's library: a call of the manager is a value,
-- and the caller of `main` says what each call answers.
pub mod Order
use pocketid_operator.Base.{
  ℕ, String, Bool, true, false, not, if◌then◌else◌, Option, none, some, List, [], ◌∷◌,
}
use pocketid_operator.Error.{Error, Result, ok, err}
use pocketid_operator.Operator.Setup.{
  Controller, instance_controller, user_controller, oidc_client_controller, user_group_controller,
  http_route_controller,
}

-- The variables that the flags set; those of zap set only the form of the log.
pub record Flags : Type 0 where
  pub metrics_addr : String
  pub probe_addr : String
  pub enable_leader_election : Bool
  pub secure_metrics : Bool
  pub enable_http2 : Bool

-- The values without flags on the command line.
abbrev pub default_flags : Flags
default_flags = record {
  metrics_addr = "0";
  probe_addr = ":8085";
  enable_leader_election = false;
  secure_metrics = true;
  enable_http2 = false;
}

-- `tls.Config`, by the field that is set here.
pub record TlsConfig : Type 0 where
  pub next_protos : List String

abbrev pub TlsOption : Type 0
TlsOption = TlsConfig → TlsConfig

-- `disableHTTP2`
abbrev pub disable_http2 : TlsOption
disable_http2 c = record c { next_protos = "http/1.1" ∷ [] }

pub data FilterProvider : Type 0 where
  with_authentication_and_authorization : FilterProvider

-- `metricsserver.Options`
pub record MetricsOptions : Type 0 where
  pub bind_address : String
  pub secure_serving : Bool
  pub tls_options : List TlsOption
  pub filter_provider : Option FilterProvider

-- `ctrl.Options`, with the options of the webhook server in place of the server.
pub record ManagerOptions : Type 0 where
  pub metrics : MetricsOptions
  pub webhook_tls_options : List TlsOption
  pub health_probe_bind_address : String
  pub leader_election : Bool
  pub leader_election_id : String

abbrev pub tls_options : Flags → List TlsOption
tls_options flags = if not flags.enable_http2 then disable_http2 ∷ [] else []

abbrev pub metrics_options : Flags → MetricsOptions
metrics_options flags = record {
  bind_address = flags.metrics_addr;
  secure_serving = flags.secure_metrics;
  tls_options = tls_options flags;
  filter_provider =
      if flags.secure_metrics then some with_authentication_and_authorization else none;
}

abbrev pub manager_options : Flags → ManagerOptions
manager_options flags = record {
  metrics = metrics_options flags;
  webhook_tls_options = tls_options flags;
  health_probe_bind_address = flags.probe_addr;
  leader_election = flags.enable_leader_election;
  leader_election_id = "18fffd27.pocketid.tobiash.github.io";
}

pub data Call : Type 0 where
  new_manager : ManagerOptions → Call
  set_up : Controller → Call
  add_healthz_check add_readyz_check start : Call

-- The calls so far, newest first, and how the process stands: it has called `os.Exit`, or `main`
-- has returned.
pub data Exit : Type 0 where
  exited : ℕ → String → Exit
  returned : Exit

abbrev pub Process : Type 0
Process = List Call → Exit × List Call

module _ (answer : List Call → Call → Result (Unit {0})) where
  -- A call; where it fails, the message is logged, with the name of the controller where there is
  -- one, and the process ends with status 1.
  unfoldable pub check : Call → String → Process → Process
  check call message next calls = elim (answer calls call) [
    | ok _ ↦ next (call ∷ calls)
    | err e ↦ (exited 1 message, call ∷ calls)
  ]

  unfoldable pub main : Flags → Process
  main flags = check (new_manager (manager_options flags)) "unable to start manager" (
      check (set_up instance_controller) "unable to create controller PocketIDInstance" (
        check (set_up user_controller) "unable to create controller PocketIDUser" (
          check (set_up oidc_client_controller) "unable to create controller PocketIDOIDCClient" (
            check (set_up user_group_controller) "unable to create controller PocketIDUserGroup" (
              check (set_up http_route_controller) "unable to create controller HTTPRoute" (
                check add_healthz_check "unable to set up health check" (
                  check add_readyz_check "unable to set up ready check"
                    (check start "problem running manager" (λ calls. (returned, calls))))))))))
