-- ===== src/Controller/Instance/Bootstrap/Run.antt =====
-- pocketidinstance_controller.go: the whole run of the instance reconciler keeps to the rules of
-- Bootstrap.
use pocketid_operator.Api.Meta.{Key}
use pocketid_operator.World.{Env, History, Verb, config_map_kind, service_kind, stateful_set_kind}
use pocketid_operator.World.Keeps.{Keeps, IgnoresWrites}
use pocketid_operator.Controller.Footprint.Instance.{Keeps-reconcile}
use pocketid_operator.Controller.Instance.Reconcile.{reconcile}
use pocketid_operator.Controller.Instance.Bootstrap.{
  KeepsNames, IsCareful, careful, IsCareful-reads, IsCareful-instance, Keeps-secrets,
  Keeps-initialize,
}

module _ (env : Env) where
  IsCareful-config : (v : Verb) → IgnoresWrites (IsCareful env) v config_map_kind
  unfolding careful
  IsCareful-config v = record { at_wrote = λ x h p. p }

  IsCareful-service : (v : Verb) → IgnoresWrites (IsCareful env) v service_kind
  unfolding careful
  IsCareful-service v = record { at_wrote = λ x h p. p }

  IsCareful-workload : (v : Verb) → IgnoresWrites (IsCareful env) v stateful_set_kind
  unfolding careful
  IsCareful-workload v = record { at_wrote = λ x h p. p }

  -- A run of the instance reconciler, after any history in which this was so, keeps to it that
  -- secrets are only ever created, right after a read that said that there is none of that name (so
  -- no generated key is replaced), and that what goes to PocketID only reads, but for a request
  -- right after PocketID has said that it has no accounts. The library that sets owners keeps
  -- names.
  pub reconcile-instance-IsCareful :
      KeepsNames env.lib
      → (key : Key) (h : History) → IsCareful env h
      → IsCareful env (reconcile env key h).1
  reconcile-instance-IsCareful names key =
      let k : Keeps (IsCareful env) (reconcile env key) = search (
        Keeps-reconcile, IsCareful-reads, IsCareful-instance, IsCareful-config, IsCareful-service,
        IsCareful-workload, Keeps-secrets, Keeps-initialize,
      ) in
      k.at
