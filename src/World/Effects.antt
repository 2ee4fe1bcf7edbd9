-- ===== src/World/Effects.antt =====
-- The part of a history that others can see.
use pocketid_operator.Base.{◌≡◌, refl, sym, ap, ◌∙◌, [], ◌∷◌}
use pocketid_operator.PocketId.Request.{Request, Method, method_get}
use pocketid_operator.World.{
  pure, on_error, History, got, listed, sent, wrote, read_clock, read_random,
}
use pocketid_operator.Error.{Error, Result, ok, err}
use pocketid_operator.World.Keeps.{IgnoresReads}

-- The events that change something outside: the writes to the cluster and the requests.
abbrev pub effects : History → History
effects [] = []
effects (sent r ∷ h) = sent r ∷ effects h
effects (wrote v k x ∷ h) = wrote v k x ∷ effects h
effects (_ ∷ h) = effects h

pub effects_reads : (es : History) → IgnoresReads (λ h. effects h ≡ es)
effects_reads es = record {
  at_got = λ k key h p. p;
  at_listed = λ k ns h p. p;
  at_read_clock = λ h p. p;
  at_read_random = λ h p. p;
}

abbrev counted : Method → Request → History → History
counted method_get r h = h
counted _ r h = sent r ∷ h

-- The events that change something: the effects without the requests that only read.
abbrev pub changes : History → History
changes [] = []
changes (sent r ∷ h) = counted r.method r (changes h)
changes (wrote v k x ∷ h) = wrote v k x ∷ changes h
changes (_ ∷ h) = changes h

pub changes_reads : (es : History) → IgnoresReads (λ h. changes h ≡ es)
changes_reads es = record {
  at_got = λ k key h p. p;
  at_listed = λ k ns h p. p;
  at_read_clock = λ h p. p;
  at_read_random = λ h p. p;
}

changes-effects : (h : History) → changes (effects h) ≡ changes h
changes-effects [] = refl
changes-effects (sent r ∷ h) = ap (counted r.method r) (changes-effects h)
changes-effects (wrote v k x ∷ h) = ap (λ es. wrote v k x ∷ es) (changes-effects h)
changes-effects (got k key ∷ h) = changes-effects h
changes-effects (listed k ns ∷ h) = changes-effects h
changes-effects (read_clock ∷ h) = changes-effects h
changes-effects (read_random ∷ h) = changes-effects h

-- Histories with the same effects have the same changes.
pub changes-of_effects : (h h' : History) → effects h ≡ effects h' → changes h ≡ changes h'
changes-of_effects h h' e = sym (changes-effects h) ∙ ap changes e ∙ changes-effects h'

-- An answer that only chooses a value adds no event.
pub history-on_error :
    {A B : Type 0} (r : Result A) (f : Error → B) (g : A → B) (h : History)
    → (on_error r (λ e. pure (f e)) (λ x. pure (g x)) h).1 ≡ h
history-on_error (ok x) f g h = refl
history-on_error (err e) f g h = refl
