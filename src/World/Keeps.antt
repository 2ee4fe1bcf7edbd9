-- ===== src/World/Keeps.antt =====
-- Invariants and postconditions of actions, one rule for each way to build an action.
use pocketid_operator.Base.{
  ℕ, String, ◌∷◌, ◌≡◌, refl, Bool, true, false, if◌then◌else◌, Option, none, some, List,
}
use pocketid_operator.Error.{Error, Result, ok, err}
use pocketid_operator.Api.Meta.{Key}
use pocketid_operator.PocketId.Request.{Request}
use pocketid_operator.World.{
  Env, M, History, Kind, Carrier, Verb, got, listed, wrote, sent, read_clock, read_random,
  read_bytes, pure, on_error, on_nil, fetch, fetch_all, put, send, clock, range_keys, ◌>>=◌,
}

-- The action keeps `P`.
pub record Keeps {A : Type 0} (P : History → Type 0) (m : M A) : Type 0 where
  pub at : (h : History) → P h → P (m h).1

-- Effects that a predicate on histories does not look at.
pub record IgnoresReads (P : History → Type 0) : Type 0 where
  pub at_got : (k : Kind) (key : Key) (h : History) → P h → P (got k key ∷ h)
  pub at_listed : (k : Kind) (namespace : String) (h : History) → P h → P (listed k namespace ∷ h)
  pub at_read_clock : (h : History) → P h → P (read_clock ∷ h)
  pub at_read_random : (h : History) → P h → P (read_random ∷ h)

pub record IgnoresSends (P : History → Type 0) : Type 0 where
  pub at_sent : (r : Request) (h : History) → P h → P (sent r ∷ h)

pub record IgnoresWrites (P : History → Type 0) (v : Verb) (k : Kind) : Type 0 where
  pub at_wrote : (x : Carrier k) (h : History) → P h → P (wrote v k x ∷ h)

module _ {A : Type 0} {P : History → Type 0} where
  pub Keeps-pure : (a : A) → Keeps P (pure a)
  Keeps-pure a = record { at = λ h p. p }

  pub Keeps-if :
      (test : Bool) (left right : M A)
      → (test ≡ true → Keeps P left)
      → (test ≡ false → Keeps P right)
      → Keeps P (if test then left else right)
  Keeps-if true left right on_left on_right = on_left refl
  Keeps-if false left right on_left on_right = on_right refl

module _ {A B : Type 0} {P : History → Type 0} where
  pub Keeps-bind :
      (first : M A) (next : A → M B)
      → Keeps P first
      → ((a : A) → Keeps P (next a))
      → Keeps P (first >>= next)
  unfolding ◌>>=◌
  Keeps-bind first next kf kn = record {
    at = λ h p. let (a, h') = first h in (kn a).at h' (kf.at h p);
  }

  pub Keeps-on_error :
      (r : Result A) (failed : Error → M B) (next : A → M B)
      → ((e : Error) → Keeps P (failed e))
      → ((a : A) → Keeps P (next a))
      → Keeps P (on_error r failed next)
  Keeps-on_error (ok a) failed next kf kn = kn a
  Keeps-on_error (err e) failed next kf kn = kf e

module _ {A B : Type 0} {P : History → Type 0} where
  pub Keeps-on_nil :
      (o : Option A) (missing : M B) (next : A → M B)
      → Keeps P missing
      → ((a : A) → Keeps P (next a))
      → Keeps P (on_nil o missing next)
  Keeps-on_nil none missing next km kn = km
  Keeps-on_nil (some a) missing next km kn = kn a

module _ (env : Env) {P : History → Type 0} where
  pub Keeps-fetch : IgnoresReads P → (k : Kind) (key : Key) → Keeps P (fetch env k key)
  unfolding fetch
  Keeps-fetch i k key = record { at = λ h p. i.at_got k key h p }

  pub Keeps-fetch_all : IgnoresReads P → (k : Kind) (ns : String) → Keeps P (fetch_all env k ns)
  unfolding fetch_all
  Keeps-fetch_all i k ns = record { at = λ h p. i.at_listed k ns h p }

  pub Keeps-clock : IgnoresReads P → Keeps P (clock env)
  unfolding clock
  Keeps-clock i = record { at = λ h p. i.at_read_clock h p }

  pub Keeps-read_bytes : IgnoresReads P → (n : ℕ) → Keeps P (read_bytes env n)
  unfolding read_bytes
  Keeps-read_bytes i n = record { at = λ h p. i.at_read_random h p }

  pub Keeps-range_keys : (ks : List String) → Keeps P (range_keys env ks)
  unfolding range_keys
  Keeps-range_keys ks = record { at = λ h p. p }

  pub Keeps-send : IgnoresSends P → (r : Request) → Keeps P (send env r)
  unfolding send
  Keeps-send i r = record { at = λ h p. i.at_sent r h p }

  pub Keeps-put :
      (v : Verb) (k : Kind) → IgnoresWrites P v k → (x : Carrier k) → Keeps P (put env v k x)
  unfolding put
  Keeps-put v k i x = record { at = λ h p. i.at_wrote x h p }

pub ruleset keeps_rules = (
  Keeps-pure, Keeps-if, Keeps-bind, Keeps-on_error, Keeps-on_nil, Keeps-fetch, Keeps-fetch_all,
  Keeps-clock, Keeps-read_bytes, Keeps-range_keys, Keeps-send, Keeps-put,
)
