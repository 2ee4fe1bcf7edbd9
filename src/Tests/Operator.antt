-- ===== src/Tests/Operator.antt =====
-- The theorems on the whole process.
use pocketid_operator.Base.{◌≡◌, refl, true, ◌≤◌, ◌+◌, [], ◌∷◌}
use pocketid_operator.Error.{plain, Result, ok, err}
use pocketid_operator.Api.Meta.{Key}
use pocketid_operator.Api.OidcClient.{OidcClient}
use pocketid_operator.PocketId.Types.{User as Account, zero_user}
use pocketid_operator.PocketId.Request.{answered, user_payload}
use pocketid_operator.World.{Env, History}
use pocketid_operator.World.Costs.{requests, writes}
use pocketid_operator.Controller.OidcClient.Reconcile.{oidc_client_finalizer}
use pocketid_operator.Controller.Finalizers.{clean, IsClean}
use pocketid_operator.Operator.Setup.{
  user_controller, oidc_client_controller, http_route_controller, setup_with_manager,
}
use pocketid_operator.Operator.Role.{permitted, markers}
use pocketid_operator.Operator.Runs.{run, Runs, none_yet, later}
use pocketid_operator.Operator.Permitted.{IsPermitted, all_readable, sources, run-IsPermitted}
use pocketid_operator.Operator.Reachable.{HoldsFinalizers, IsModest, modest, Runs-IsClean}
use pocketid_operator.Operator.Bounds.{run_bounds}
use pocketid_operator.Operator.Start.{Call, add_readyz_check, default_flags, main, manager_options}
use pocketid_operator.Operator.Start.Order.{Starts, plan, Protects, main-Starts}
use pocketid_operator.Tests.Sample.{user, group, oidc_client, environment, machinery-AddsFinalizers}

abbrev held_client : OidcClient
held_client = record oidc_client {
  metadata = record oidc_client.metadata { finalizers = oidc_client_finalizer ∷ [] };
}

abbrev account : Account
account = record zero_user { id = "u1"; username = "jdoe" }

abbrev env : Env
env = environment user group held_client (answered 200 "" (user_payload account))

abbrev key : Key
key = record { name = "jdoe"; namespace = "auth" }

env-HoldsFinalizers : HoldsFinalizers env
env-HoldsFinalizers = record { held = λ h k c p. cc (p) }

abbrev three_runs : History
three_runs =
    (run env oidc_client_controller key
      (run env user_controller key (run env http_route_controller key []).1).1).1

three_runs-Runs : Runs env [] three_runs
three_runs-Runs =
    later oidc_client_controller key
      (later user_controller key (later http_route_controller key none_yet))

empty-IsClean : IsClean env []
unfolding clean
empty-IsClean = refl

empty-IsModest : IsModest []
unfolding modest
empty-IsModest = refl

Runs-IsClean_example : IsClean env three_runs × IsModest three_runs
Runs-IsClean_example =
    Runs-IsClean env machinery-AddsFinalizers env-HoldsFinalizers three_runs-Runs empty-IsClean
      empty-IsModest

empty-IsPermitted : IsPermitted user_controller []
unfolding permitted
empty-IsPermitted = refl

run-IsPermitted_example :
    IsPermitted user_controller (run env user_controller key []).1
    × (all_readable (markers user_controller) (sources (setup_with_manager user_controller)) ≡ true)
run-IsPermitted_example = run-IsPermitted env user_controller key [] empty-IsPermitted

run_bounds_example :
    (requests (run env user_controller key []).1 ≤ 4 + 0)
    × (writes (run env user_controller key []).1 ≤ 3 + 0)
run_bounds_example = run_bounds env user_controller key []

-- The last check cannot be added.
abbrev reply : Call → Result (Unit {0})
reply c = elim c [ add_readyz_check ↦ err (plain "duplicate") | _ ↦ ok tt ]

main-Starts_example :
    Starts
      (λ calls c. reply c)
      (plan default_flags)
      (main (λ calls c. reply c) default_flags []).0
      (main (λ calls c. reply c) default_flags []).1
    × Protects default_flags (manager_options default_flags)
main-Starts_example = main-Starts (λ calls c. reply c) default_flags
