-- ===== src/Operator/Start/Order.antt =====
-- The calls that cmd/main.go makes, and how it ends.
use pocketid_operator.Base.{
  ◌≡◌, refl, String, Bool, true, false, ◌&&◌, List, [], ◌∷◌, ◌++◌, some, inl, inr,
}
use mathlib.Core.List.{append-nil, append_assoc}
use pocketid_operator.Error.{Result, is_ok, Result-cases}
use pocketid_operator.Operator.Setup.{
  instance_controller, user_controller, oidc_client_controller, user_group_controller,
  http_route_controller,
}
use pocketid_operator.Operator.Start.{
  Flags, TlsConfig, TlsOption, with_authentication_and_authorization, ManagerOptions,
  manager_options, Call, new_manager, set_up, add_healthz_check, add_readyz_check, start, Exit,
  exited, returned, Process, check, main,
}

-- The calls of a start without failures, in their order.
abbrev pub plan : Flags → List Call
plan flags =
    new_manager (manager_options flags)
    ∷ set_up instance_controller
    ∷ set_up user_controller
    ∷ set_up oidc_client_controller
    ∷ set_up user_group_controller
    ∷ set_up http_route_controller
    ∷ add_healthz_check
    ∷ add_readyz_check
    ∷ start
    ∷ []

-- The calls of the first list, made one after another, in front of the earlier ones.
abbrev pub after : List Call → List Call → List Call
after [] calls = calls
after (c ∷ cs) calls = after cs (c ∷ calls)

abbrev pub apply_all : List TlsOption → TlsConfig → TlsConfig
apply_all [] tls = tls
apply_all (f ∷ fs) tls = apply_all fs (f tls)

-- Without the flag for HTTP/2 both servers offer HTTP/1.1 only, whatever their configuration was,
-- and secure metrics are served to those alone who are authenticated and authorized.
pub record Protects (flags : Flags) (options : ManagerOptions) : Type 0 where
  pub metrics_protocols :
      (tls : TlsConfig)
      → flags.enable_http2 ≡ false
      → (apply_all options.metrics.tls_options tls).next_protos ≡ "http/1.1" ∷ []
  pub webhook_protocols :
      (tls : TlsConfig)
      → flags.enable_http2 ≡ false
      → (apply_all options.webhook_tls_options tls).next_protos ≡ "http/1.1" ∷ []
  pub filtered :
      options.metrics.secure_serving ≡ true
      → options.metrics.filter_provider ≡ some with_authentication_and_authorization

manager_options-Protects : (flags : Flags) → Protects flags (manager_options flags)
manager_options-Protects flags = record {
  metrics_protocols = λ tls off. rw off;
  webhook_protocols = λ tls off. rw off;
  filtered = λ secure. rw secure;
}

after-append :
    (done : List Call) (c : Call) (calls : List Call)
    → after (done ++ (c ∷ [])) calls ≡ c ∷ after done calls
after-append [] c calls = refl
after-append (d ∷ done) c calls = after-append done c (d ∷ calls)

abbrev calls_of : List (Call × String) → List Call
calls_of [] = []
calls_of ((c, message) ∷ steps) = c ∷ calls_of steps

-- The calls with the messages of their failures.
abbrev steps_of : Flags → List (Call × String)
steps_of flags =
    (new_manager (manager_options flags), "unable to start manager")
    ∷ (set_up instance_controller, "unable to create controller PocketIDInstance")
    ∷ (set_up user_controller, "unable to create controller PocketIDUser")
    ∷ (set_up oidc_client_controller, "unable to create controller PocketIDOIDCClient")
    ∷ (set_up user_group_controller, "unable to create controller PocketIDUserGroup")
    ∷ (set_up http_route_controller, "unable to create controller HTTPRoute")
    ∷ (add_healthz_check, "unable to set up health check")
    ∷ (add_readyz_check, "unable to set up ready check")
    ∷ (start, "problem running manager")
    ∷ []

module _ (answer : List Call → Call → Result (Unit {0})) where
  -- Every call was granted.
  abbrev pub all_granted : List Call → Bool
  all_granted [] = true
  all_granted (c ∷ calls) = is_ok (answer calls c) && all_granted calls

  -- The planned calls are made in their order up to the first that fails, which ends the process
  -- with status 1, and if none fails to the end.
  pub data Starts (planned : List Call) : Exit → List Call → Type 0 where
    served : all_granted (after planned []) ≡ true → Starts planned returned (after planned [])
    stopped :
        (done : List Call) (c : Call) (rest : List Call) (message : String)
        → planned ≡ done ++ (c ∷ rest)
        → all_granted (after done []) ≡ true
        → is_ok (answer (after done []) c) ≡ false
        → Starts planned (exited 1 message) (c ∷ after done [])

  abbrev check_all : List (Call × String) → Process
  check_all [] calls = (returned, calls)
  check_all ((c, message) ∷ cs) calls = check answer c message (check_all cs) calls

  Starts-check_all :
      (done : List Call) (steps : List (Call × String))
      → all_granted (after done []) ≡ true
      → Starts
          (done ++ calls_of steps)
          (check_all steps (after done [])).0
          (check_all steps (after done [])).1
  unfolding check
  Starts-check_all done [] granted = rw (append-nil done) (served granted)
  Starts-check_all done ((c, message) ∷ steps) granted =
      elim (Result-cases (answer (after done []) c)) [
        | inl (e, refused) ↦
            rw (refused, check)
              (stopped done c (calls_of steps) message refl granted (rw refused refl))
        | inr (_, made) ↦
            rw (made, check)
              (rw (append_assoc done (c ∷ []) (calls_of steps), after-append done c []) at
                (Starts-check_all (done ++ (c ∷ [])) steps
                  (rw (after-append done c [], made) granted)))
      ]

  -- Whatever the calls answer, the process makes those of a start in their order (the manager, the
  -- five controllers, the two checks, and only then the start of the manager) up to the first that
  -- fails, and then ends with status 1, or all of them, and then `main` returns. The manager that
  -- it asks for offers HTTP/1.1 alone at both servers unless HTTP/2 was asked for, and filters the
  -- requests for metrics where these are served securely.
  pub main-Starts :
      (flags : Flags)
      → Starts (plan flags) (main answer flags []).0 (main answer flags []).1
        × Protects flags (manager_options flags)
  unfolding main
  main-Starts flags = (Starts-check_all [] (steps_of flags) refl, manager_options-Protects flags)
