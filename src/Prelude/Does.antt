-- ===== src/Prelude/Does.antt =====
-- What a step does in any case: each of its actions keeps to a predicate.
use mathlib.Core.Path.{◌≡◌, refl, sym, ap, ◌∙◌}
use mathlib.Core.Option.{Option, none, some}
use mathlib.Core.List.{List, [], ◌∷◌, ◌++◌, append_assoc, append-nil}
use mathlib.Core.Bool.{Bool, true, false}
use tvastr_demo.Prelude.Tests.{if◌then◌else◌}
use tvastr_demo.Prelude.Lists.{All, All-append}
use tvastr_demo.Prelude.Steps.{
  continue, Session, Step, pure, raise, perform, attempt, record_event, ◌>>=◌,
}

-- Whether `m` returns or raises, it adds only actions with `P` to the trace.
pub record Does {W Act A : Type 0} (P : Act → Type 0) (m : Step W Act A) : Type 0 where
  pub at : (s : Session W Act) → (more : List Act) × ((m s).1.trace ≡ s.trace ++ more) × All P more

module _ {W Act A : Type 0} {P : Act → Type 0} where
  pub pure-Does : (a : A) → Does P (pure {W = W} a)
  unfolding pure
  pure-Does a = record { at = λ s. ([], sym (append-nil _), tt) }

  pub raise-Does : Does P (raise {W = W} {Act = Act} {A = A})
  unfolding raise
  raise-Does = record { at = λ s. ([], sym (append-nil _), tt) }

  pub perform-Does : (a : Act) (call : W → W × Option A) → P a → Does P (perform a call)
  unfolding perform
  perform-Does a call p = record { at = λ s. (a ∷ [], refl, (p, tt)) }

  pub if-Does : (b : Bool) (m n : Step W Act A) → Does P m → Does P n → Does P (if b then m else n)
  if-Does true m n h g = h
  if-Does false m n h g = g

  pub attempt-Does : (m : Step W Act A) → Does P m → Does P (attempt m)
  unfolding attempt
  attempt-Does m h = record { at = λ s. h.at s }

module _ {W Act : Type 0} {P : Act → Type 0} where
  pub record_event-Does : (a : Act) → P a → Does P (record_event {W = W} a)
  unfolding record_event
  record_event-Does a p = record { at = λ s. (a ∷ [], refl, (p, tt)) }

module _ {W Act A B : Type 0} {P : Act → Type 0} where
  continue-Does :
      (r : Option A × Session W Act) (k : A → Step W Act B)
      → ((a : A) → Does P (k a))
      → (more : List Act) × ((continue r k).1.trace ≡ r.1.trace ++ more) × All P more
  continue-Does (none, s) k h = ([], sym (append-nil _), tt)
  continue-Does (some a, s) k h = (h a).at s

  pub >>=-Does :
      (m : Step W Act A) (k : A → Step W Act B)
      → Does P m
      → ((a : A) → Does P (k a))
      → Does P (m >>= k)
  unfolding ◌>>=◌
  >>=-Does m k h g = record {
    at = λ s.
        let (early, e, pe) = h.at s in
        let (late, f, pf) = continue-Does (m s) k g in
        (
          early ++ late,
          f ∙ ap (λ t. t ++ late) e ∙ append_assoc s.trace early late,
          All-append P early late pe pf,
        );
  }
