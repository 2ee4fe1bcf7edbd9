-- ===== src/World/Ends.antt =====
-- What holds of the value that an action gives and of the history that it leaves, whatever came
-- before: only the last steps of the action matter.
use pocketid_operator.Base.{
  ◌≡◌, Bool, true, false, if◌then◌else◌, Option, none, some, ◌∷◌, inl, inr,
}
use pocketid_operator.Error.{Error, Result, ok, err, Result-cases}
use pocketid_operator.World.{
  Env, M, History, Verb, Kind, Carrier, wrote, put, pure, on_error, on_nil, ◌>>=◌,
}

pub record Ends {A : Type 0} (Q : A → History → Type 0) (m : M A) : Type 0 where
  pub at : (h : History) → Q (m h).0 (m h).1

module _ {A : Type 0} {Q : A → History → Type 0} where
  pub Ends-pure : (a : A) → ((h : History) → Q a h) → Ends Q (pure a)
  Ends-pure a q = record { at = q }

  pub Ends-if : (b : Bool) (m n : M A) → Ends Q m → Ends Q n → Ends Q (if b then m else n)
  Ends-if true m n em en = em
  Ends-if false m n em en = en

module _ {A B : Type 0} {Q : B → History → Type 0} where
  pub Ends-bind : (m : M A) (f : A → M B) → ((a : A) → Ends Q (f a)) → Ends Q (m >>= f)
  unfolding ◌>>=◌
  Ends-bind m f ef = record { at = λ h. let (a, h') = m h in (ef a).at h' }

  -- As `Ends-bind`, with what holds of the value.
  pub Ends-bind_of :
      {R : A → History → Type 0} (m : M A) (f : A → M B)
      → Ends R m
      → ((a : A) (h : History) → R a h → Q (f a h).0 (f a h).1)
      → Ends Q (m >>= f)
  unfolding ◌>>=◌
  Ends-bind_of m f em ef = record { at = λ h. ef (m h).0 (m h).1 (em.at h) }

  pub Ends-on_error :
      (r : Result A) (failed : Error → M B) (next : A → M B)
      → ((e : Error) → Ends Q (failed e))
      → ((a : A) → Ends Q (next a))
      → Ends Q (on_error r failed next)
  Ends-on_error (ok a) failed next ef en = en a
  Ends-on_error (err e) failed next ef en = ef e

  pub Ends-on_nil :
      (o : Option A) (missing : M B) (next : A → M B)
      → Ends Q missing
      → ((a : A) → Ends Q (next a))
      → Ends Q (on_nil o missing next)
  Ends-on_nil none missing next em en = em
  Ends-on_nil (some a) missing next em en = en a

-- A write, and what its answer leads to.
module _ (env : Env) {B : Type 0} {Q : B → History → Type 0} (v : Verb) (k : Kind)
    (x : Carrier k) where
  pub Ends-put :
      (failed : Error → M B) (next : Carrier k → M B)
      → ((h : History) (e : Error)
          → env.write v k h x ≡ err e
          → Q (failed e (wrote v k x ∷ h)).0 (failed e (wrote v k x ∷ h)).1)
      → ((h : History) (y : Carrier k)
          → env.write v k h x ≡ ok y
          → Q (next y (wrote v k x ∷ h)).0 (next y (wrote v k x ∷ h)).1)
      → Ends Q (put env v k x >>= λ r. on_error r failed next)
  unfolding put ◌>>=◌
  Ends-put failed next ef en = record {
    at = λ h. elim (Result-cases (env.write v k h x)) [
      | inl (e, p) ↦ rw (p, on_error) (ef h e p)
      | inr (y, p) ↦ rw (p, on_error) (en h y p)
    ];
  }

pub ruleset ends_rules = (Ends-if, Ends-bind, Ends-on_error, Ends-on_nil)
