-- ===== src/Controller/Instance/Bootstrap.antt =====
-- pocketidinstance_controller.go: what the instance reconciler makes once and then leaves alone,
-- the generated secrets and the first account.
pub mod Run
use pocketid_operator.Base.{
  ◌≡◌, refl, ap, String, Bool, true, false, ◌==◌, string_eq, eq_iff, eq_refl, not, ◌&&◌, ◌||◌,
  if◌then◌else◌, is_some, Option, none, some, List, [], ◌∷◌, arith, Bool-cases, Option-cases, inl,
  inr,
}
use pocketid_operator.Base.Lists.{is_nil}
use pocketid_operator.Error.{Error, Result, ok, err, is_not_found, Result-cases}
use pocketid_operator.Api.Meta.{Key, ObjectMeta, Condition, named}
use pocketid_operator.Api.Core.{Secret, ConfigMap, Service}
use pocketid_operator.Api.Workload.{StatefulSet}
use pocketid_operator.Api.Instance.{Instance, InitialAdminConfig}
use pocketid_operator.PocketId.Types.{User as Account}
use pocketid_operator.PocketId.Request.{
  Client, Request, Method, method_get, method_post, method_put, method_delete, no_body, user_body,
  as_users,
}
use pocketid_operator.PocketId.Client.{
  list_users, create_user_without_result, do_request, read_response, request,
}
use pocketid_operator.World.{
  Env, Machinery, History, Event, Kind, Verb, M, pure, on_error, on_nil, fetch, put, send,
  read_bytes, clock, ◌>>=◌, got, wrote, sent, read_random, create, update, update_status, patch,
  delete, instance_kind, secret_kind, config_map_kind, service_kind, stateful_set_kind,
}
use pocketid_operator.World.Keeps.{Keeps, IgnoresReads, IgnoresSends, IgnoresWrites, keeps_rules}
use pocketid_operator.Controller.Steps.{Keeps-set_condition}
use pocketid_operator.Controller.Access.{create_api_client_with_dev_default, get_secret}
use pocketid_operator.Controller.Instance.Secrets.{
  generate_random_key, create_secret, create_if_missing, ensure_secret, reconcile_api_key,
  reconcile_encryption_key, reconcile_secrets,
}
use pocketid_operator.Controller.Instance.Initialize.{
  admin_account, mark_initialized, create_admin, create_first_user, initialize_with,
  initialize_instance,
}
use pocketid_operator.Controller.Instance.Reconcile.{
  handle_deletion, write_config_map, reconcile_config_map, write_service, reconcile_service,
  write_stateful_set, reconcile_stateful_set, set_available, keep_initialized, write_ready,
  update_status_of, set_degraded_condition, reconcile_workload, reconcile_resources, add_finalizer,
  reconcile_instance, reconcile,
}

-- What the proofs use of `controllerutil`: an owner is set without a change of the object's name.
pub record KeepsNames (lib : Machinery) : Type 0 where
  pub name-owned :
      (k : Kind) (owner m m' : ObjectMeta)
      → lib.set_controller_reference k owner m ≡ ok m'
      → m'.name ≡ m.name
  pub namespace-owned :
      (k : Kind) (owner m m' : ObjectMeta)
      → lib.set_controller_reference k owner m ≡ ok m'
      → m'.namespace ≡ m.namespace

abbrev pub is_create : Verb → Bool
is_create create = true
is_create _ = false

abbrev pub is_get : Method → Bool
is_get method_get = true
is_get _ = false

abbrev pub is_missing : {A : Type 0} → Result A → Bool
is_missing (ok a) = false
is_missing (err e) = is_not_found e

abbrev pub is_none_listed : Result (List Account) → Bool
is_none_listed (ok us) = is_nil us
is_none_listed (err e) = false

-- A read of the secret of this name, then one of the random source, are the newest events, and the
-- answer to the read was that there is none.
abbrev pub missing_just_now : Env → ObjectMeta → History → Bool
missing_just_now env m (read_random ∷ got secret_kind k ∷ h) =
    k.name == m.name && k.namespace == m.namespace && is_missing (env.get secret_kind h k)
missing_just_now env m _ = false

-- The newest event is a request for the accounts, and the answer was that there are none.
abbrev pub no_accounts_just_now : Env → History → Bool
no_accounts_just_now env (sent r ∷ h) =
    is_get r.method
    && r.path == "/api/users"
    && is_none_listed (read_response as_users [] (env.http h r))
no_accounts_just_now env _ = false

-- Secrets are only created, and only where there is none of that name; and what is sent to PocketID
-- only reads, unless it has just said that it has no accounts.
unfoldable pub careful : Env → History → Bool
careful env [] = true
careful env (wrote v secret_kind s ∷ h) =
    is_create v && missing_just_now env s.metadata h && careful env h
careful env (sent r ∷ h) = (is_get r.method || no_accounts_just_now env h) && careful env h
careful env (_ ∷ h) = careful env h

abbrev pub IsCareful : Env → History → Type 0
IsCareful env h = careful env h ≡ true

module _ (env : Env) where
  pub IsCareful-reads : IgnoresReads (IsCareful env)
  unfolding careful
  IsCareful-reads = record {
    at_got = λ k key h p. p;
    at_listed = λ k ns h p. p;
    at_read_clock = λ h p. p;
    at_read_random = λ h p. p;
  }

  pub IsCareful-instance : (v : Verb) → IgnoresWrites (IsCareful env) v instance_kind
  unfolding careful
  IsCareful-instance v = record { at_wrote = λ x h p. p }

  Keeps-ensure_secret :
      KeepsNames env.lib
      → (i : Instance) (name key : String) → Keeps (IsCareful env) (ensure_secret env i name key)
  unfolding ensure_secret create_if_missing create_secret generate_random_key fetch read_bytes put
      ◌>>=◌ careful
  Keeps-ensure_secret names i name key = record {
    at = λ h p.
        let k : Key = record { name = name; namespace = i.namespace } in
        elim (Result-cases (env.get secret_kind h k)) [
          | inr (s, found) ↦ rw found p
          | inl (e, failed) ↦ elim (Bool-cases (is_not_found e)) [
            | inr other ↦ rw (failed, other) p
            | inl missing ↦
                elim (Result-cases (
                  env.set_controller_reference instance_kind i.metadata (named name i.namespace))) [
                    | inl (x, q) ↦ rw (failed, missing, q, on_error) p
                    | inr (m, q) ↦
                        rw
                          (
                            failed,
                            missing,
                            q,
                            on_error,
                            names.name-owned _ _ _ _ q,
                            names.namespace-owned _ _ _ _ q,
                            eq_refl name,
                            eq_refl i.namespace,
                          )
                          (rw (failed, missing) p)
                  ]
          ]
        ];
  }

  pub Keeps-secrets :
      KeepsNames env.lib → (i : Instance) → Keeps (IsCareful env) (reconcile_secrets env i)
  unfolding reconcile_secrets reconcile_api_key reconcile_encryption_key
  Keeps-secrets names i = search (keeps_rules, Keeps-ensure_secret) depth 10

  Keeps-mark_initialized : (i : Instance) → Keeps (IsCareful env) (mark_initialized env i)
  unfolding mark_initialized
  Keeps-mark_initialized i = search (keeps_rules, IsCareful-reads, Keeps-set_condition)

  IsCareful-create_admin :
      (i : Instance) (admin : InitialAdminConfig) (c : Client) (h : History)
      → no_accounts_just_now env h ≡ true
      → IsCareful env h
      → IsCareful env (create_admin env i admin c h).1
  unfolding create_admin create_user_without_result do_request send ◌>>=◌ careful
  IsCareful-create_admin i admin c h empty p =
      let r : Request = request c method_post "/api/users" (user_body (admin_account admin)) in
      let q : IsCareful env (sent r ∷ h) = ground arith in
      elim (Result-cases (create_user_without_result env c (admin_account admin) h).0) [
        | inl (e, failed) ↦ rw (failed, on_error) q
        | inr (u, made) ↦ rw (made, on_error) ((Keeps-mark_initialized i).at (sent r ∷ h) q)
      ]

  Keeps-create_first_user :
      (i : Instance) (admin : InitialAdminConfig) (c : Client)
      → Keeps (IsCareful env) (create_first_user env i admin c)
  unfolding create_first_user list_users do_request send ◌>>=◌ careful
  Keeps-create_first_user i admin c = record {
    at = λ h p.
        let r : Request = request c method_get "/api/users" no_body in
        elim (Result-cases (list_users env c h).0) [
          | inl (e, failed) ↦ rw (failed, on_error) p
          | inr ([], listed) ↦
              rw (listed, on_error)
                (IsCareful-create_admin i admin c (sent r ∷ h) (rw listed refl) p)
          | inr (u ∷ us, listed) ↦
              rw (listed, on_error) ((Keeps-mark_initialized i).at (sent r ∷ h) p)
        ];
  }

  pub Keeps-initialize : (i : Instance) → Keeps (IsCareful env) (initialize_instance env i)
  unfolding initialize_instance initialize_with create_api_client_with_dev_default get_secret
  Keeps-initialize i = search (keeps_rules, IsCareful-reads, Keeps-create_first_user) depth 12
