-- ===== src/World/Costs.antt =====
-- How many requests and writes an action makes at most, one rule for each way to build an action.
use pocketid_operator.Base.{
  ℕ, suc, ◌+◌, ◌≤◌, Bool, true, false, if◌then◌else◌, Option, none, some, String, List, [], ◌∷◌,
  arith,
}
use pocketid_operator.Error.{Error, Result, ok, err}
use pocketid_operator.Api.Meta.{Key}
use pocketid_operator.PocketId.Request.{Request}
use pocketid_operator.World.{
  Env, M, History, Kind, Carrier, Verb, wrote, sent, read_bytes, pure, on_error, on_nil, fetch,
  fetch_all, put, send, clock, range_keys, ◌>>=◌,
}

-- The requests to PocketID, and the writes to the cluster, in a history.
abbrev pub requests : History → ℕ
requests [] = 0
requests (sent r ∷ h) = suc (requests h)
requests (_ ∷ h) = requests h

abbrev pub writes : History → ℕ
writes [] = 0
writes (wrote v k x ∷ h) = suc (writes h)
writes (_ ∷ h) = writes h

-- The action makes at most `a` requests and `b` writes, from every history.
pub record Spends {A : Type 0} (a b : ℕ) (m : M A) : Type 0 where
  pub in_requests : (h : History) → requests (m h).1 ≤ a + requests h
  pub in_writes : (h : History) → writes (m h).1 ≤ b + writes h

module _ {A : Type 0} {a b : ℕ} where
  pub Spends-pure : (x : A) → Spends a b (pure x)
  Spends-pure x = record { in_requests = λ h. omega arith; in_writes = λ h. omega arith }

  pub Spends-if :
      (test : Bool) (left right : M A)
      → Spends a b left
      → Spends a b right
      → Spends a b (if test then left else right)
  Spends-if true left right on_left on_right = on_left
  Spends-if false left right on_left on_right = on_right

module _ {A B : Type 0} {a b : ℕ} where
  pub Spends-on_error :
      (r : Result A) (failed : Error → M B) (next : A → M B)
      → ((e : Error) → Spends a b (failed e))
      → ((x : A) → Spends a b (next x))
      → Spends a b (on_error r failed next)
  Spends-on_error (ok x) failed next sf sn = sn x
  Spends-on_error (err e) failed next sf sn = sf e

  pub Spends-on_nil :
      (o : Option A) (missing : M B) (next : A → M B)
      → Spends a b missing
      → ((x : A) → Spends a b (next x))
      → Spends a b (on_nil o missing next)
  Spends-on_nil none missing next sm sn = sm
  Spends-on_nil (some x) missing next sm sn = sn x

module _ {A B : Type 0} (first : M A) (next : A → M B) where
  pub Spends-bind :
      (a b a' b' : ℕ)
      → Spends a b first
      → ((x : A) → Spends a' b' (next x))
      → Spends (a + a') (b + b') (first >>= next)
  unfolding ◌>>=◌
  Spends-bind a b a' b' sf sn = record {
    in_requests =
        λ h. let (x, h') = first h in omega (arith, sf.in_requests h, (sn x).in_requests h');
    in_writes = λ h. let (x, h') = first h in omega (arith, sf.in_writes h, (sn x).in_writes h');
  }

  pub Spends-free :
      {a b : ℕ} → Spends 0 0 first → ((x : A) → Spends a b (next x)) → Spends a b (first >>= next)
  unfolding ◌>>=◌
  Spends-free sf sn = record {
    in_requests =
        λ h. let (x, h') = first h in omega (arith, sf.in_requests h, (sn x).in_requests h');
    in_writes = λ h. let (x, h') = first h in omega (arith, sf.in_writes h, (sn x).in_writes h');
  }

  pub Spends-request :
      {a b : ℕ}
      → Spends 1 0 first
      → ((x : A) → Spends a b (next x))
      → Spends (suc a) b (first >>= next)
  unfolding ◌>>=◌
  Spends-request sf sn = record {
    in_requests =
        λ h. let (x, h') = first h in omega (arith, sf.in_requests h, (sn x).in_requests h');
    in_writes = λ h. let (x, h') = first h in omega (arith, sf.in_writes h, (sn x).in_writes h');
  }

  pub Spends-write :
      {a b : ℕ}
      → Spends 0 1 first
      → ((x : A) → Spends a b (next x))
      → Spends a (suc b) (first >>= next)
  unfolding ◌>>=◌
  Spends-write sf sn = record {
    in_requests =
        λ h. let (x, h') = first h in omega (arith, sf.in_requests h, (sn x).in_requests h');
    in_writes = λ h. let (x, h') = first h in omega (arith, sf.in_writes h, (sn x).in_writes h');
  }

pub Spends-more :
    {A : Type 0} (a b : ℕ) {a' b' : ℕ} {m : M A} → Spends a b m → a ≤ a' → b ≤ b' → Spends a' b' m
Spends-more a b s p q = record {
  in_requests = λ h. omega (arith, s.in_requests h);
  in_writes = λ h. omega (arith, s.in_writes h);
}

module _ (env : Env) where
  pub Spends-fetch : (k : Kind) (key : Key) → Spends 0 0 (fetch env k key)
  unfolding fetch
  Spends-fetch k key = record { in_requests = λ h. omega arith; in_writes = λ h. omega arith }

  pub Spends-fetch_all : (k : Kind) (ns : String) → Spends 0 0 (fetch_all env k ns)
  unfolding fetch_all
  Spends-fetch_all k ns = record { in_requests = λ h. omega arith; in_writes = λ h. omega arith }

  pub Spends-clock : Spends 0 0 (clock env)
  unfolding clock
  Spends-clock = record { in_requests = λ h. omega arith; in_writes = λ h. omega arith }

  pub Spends-read_bytes : (n : ℕ) → Spends 0 0 (read_bytes env n)
  unfolding read_bytes
  Spends-read_bytes n = record { in_requests = λ h. omega arith; in_writes = λ h. omega arith }

  pub Spends-range_keys : (ks : List String) → Spends 0 0 (range_keys env ks)
  unfolding range_keys
  Spends-range_keys ks = record { in_requests = λ h. omega arith; in_writes = λ h. omega arith }

  pub Spends-send : (r : Request) → Spends 1 0 (send env r)
  unfolding send
  Spends-send r = record { in_requests = λ h. omega arith; in_writes = λ h. omega arith }

  pub Spends-put : (v : Verb) (k : Kind) (x : Carrier k) → Spends 0 1 (put env v k x)
  unfolding put
  Spends-put v k x = record { in_requests = λ h. omega arith; in_writes = λ h. omega arith }

pub ruleset cost_rules = (
  Spends-pure, Spends-if, Spends-on_error, Spends-on_nil, Spends-free, Spends-request, Spends-write,
  Spends-fetch, Spends-fetch_all, Spends-clock, Spends-read_bytes, Spends-range_keys, Spends-send,
  Spends-put,
)
