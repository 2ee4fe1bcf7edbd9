-- ===== src/PocketId/Client/Response.antt =====
-- When a request of internal/pocketid/client.go succeeds, and with which value.
use pocketid_operator.Base.{
  ◌≡◌, refl, ◌↔◌, ◌≢◌, ℕ, ◌<◌, String, false, ◌==◌, nat_eq, eq_iff, Option, some, arith, Bool-cases,
  Option-cases, inl, inr,
}
use pocketid_operator.Error.{ok}
use pocketid_operator.PocketId.Request.{Payload, Exchange, not_created, not_performed, answered}
use pocketid_operator.PocketId.Client.{read_response, is_failure}

module _ {A : Type 0} (decode : Payload → Option A) (zero : A) where
  -- The server answered with a status below 400, and the value is the decoded body; on 204 there is
  -- no body, and the value is the zero value.
  pub data Succeeds (a : A) : Exchange → Type 0 where
    no_content : {text : String} {p : Payload} → a ≡ zero → Succeeds a (answered 204 text p)
    decoded :
        {code : ℕ} {text : String} {p : Payload}
        → code < 400
        → code ≢ 204
        → decode p ≡ some a
        → Succeeds a (answered code text p)

  is_failure-false : (code : ℕ) → is_failure code ≡ false → code < 400
  is_failure-false code p = ground arith

  Succeeds-of-read : (x : Exchange) (a : A) → read_response decode zero x ≡ ok a → Succeeds a x
  unfolding read_response
  Succeeds-of-read (not_created m) a p = absurd (cc)
  Succeeds-of-read (not_performed m) a p = absurd (cc)
  Succeeds-of-read (answered code text payload) a p = elim (Bool-cases (is_failure code)) [
    | inl failure ↦ absurd (ground arith)
    | inr fine ↦ elim (Bool-cases (code == 204)) [
      | inl empty ↦
          let e : code ≡ 204 = (eq_iff code 204).0 empty in rw e (no_content (ground arith))
      | inr body ↦ elim (Option-cases (decode payload)) [
        | inl garbled ↦ absurd (ground arith)
        | inr (b, q) ↦
            decoded (is_failure-false code fine) (λ e. absurd (ground arith)) (ground arith)
      ]
    ]
  ]

  Succeeds-read : (x : Exchange) (a : A) → Succeeds a x → read_response decode zero x ≡ ok a
  unfolding read_response
  Succeeds-read (not_created m) a s = elim s [ ]
  Succeeds-read (not_performed m) a s = elim s [ ]
  Succeeds-read (answered code text p) a (no_content e) = rw e refl
  Succeeds-read (answered code text p) a (decoded below other q) = ground (arith, eq_iff code 204)

-- A request succeeds with a value exactly when the server answered it with a status below 400, and
-- the value is what the decoder finds in the body, or on 204 the zero value; no answer, a status
-- from 400 on and a body that the decoder refuses are errors.
pub read_response-ok_iff :
    {A : Type 0} (decode : Payload → Option A) (zero : A) (x : Exchange) (a : A)
    → (read_response decode zero x ≡ ok a) ↔ Succeeds decode zero a x
read_response-ok_iff decode zero x a =
    (Succeeds-of-read decode zero x a, Succeeds-read decode zero x a)
