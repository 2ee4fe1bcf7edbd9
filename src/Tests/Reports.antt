-- ===== src/Tests/Reports.antt =====
-- The theorem on results and statuses.
use pocketid_operator.Base.{[]}
use pocketid_operator.Api.Meta.{Key}
use pocketid_operator.PocketId.Types.{zero_user}
use pocketid_operator.PocketId.Request.{answered, user_payload}
use pocketid_operator.World.{Env}
use pocketid_operator.Operator.Setup.{instance_controller}
use pocketid_operator.Operator.Runs.{run}
use pocketid_operator.Operator.Reported.{Reported, run-Reported}
use pocketid_operator.Tests.Sample.{user, group, oidc_client, environment}

abbrev env : Env
env =
    environment user group oidc_client
      (answered 200 "" (user_payload (record zero_user { id = "u1"; username = "jdoe" })))

abbrev key : Key
key = record { name = "x"; namespace = "auth" }

run-Reported_example :
    Reported env key [] instance_controller
      (run env instance_controller key []).0
      (run env instance_controller key []).1
run-Reported_example = run-Reported env instance_controller key []
