-- ===== src/Prelude/Phases.antt =====
-- Steps as ways through the phases of a machine.
use mathlib.Core.Path.{◌≡◌, refl, sym, ap, ◌∙◌, subst}
use mathlib.Core.Option.{Option, none, some}
use mathlib.Core.List.{List, [], ◌∷◌, ◌++◌, append_assoc, append-nil}
use tvastr_demo.Prelude.Lists.{All}
use tvastr_demo.Prelude.Steps.{
  continue, Session, Step, pure, raise, perform, attempt, record_event, ◌>>=◌,
}
use tvastr_demo.Prelude.Does.{Does}

-- A way through the phases of a machine, with the actions on it.
pub data Way {Ph Act : Type 0} (R : Ph → Act → Ph → Type 0) : Ph → List Act → Ph → Type 0 where
  here : {p : Ph} → Way R p [] p
  next : {p q r : Ph} {a : Act} {as' : List Act} → R p a q → Way R q as' r → Way R p (a ∷ as') r

-- what holds at the end of a step, which may have raised
abbrev pub Ends : {A Ph : Type 0} → (A → Ph → Type 0) → Option A → Ph → Type 0
Ends Q none q = Unit
Ends Q (some a) q = Q a q

-- The actions of `m` are moves from the phase `p`, and `Q` holds of its result and the last phase.
pub record Runs {Ph W Act A : Type 0} (R : Ph → Act → Ph → Type 0) (p : Ph) (m : Step W Act A)
    (Q : A → Ph → Type 0) : Type 0 where
  pub at :
      (s : Session W Act)
      → (more : List Act) × (q : Ph) × ((m s).1.trace ≡ s.trace ++ more)
        × Way R p more q
        × Ends Q (m s).0 q

module _ {Ph Act : Type 0} {R : Ph → Act → Ph → Type 0} where
  pub Way-append :
      (p q r : Ph) (xs ys : List Act) → Way R p xs q → Way R q ys r → Way R p (xs ++ ys) r
  Way-append p q r [] ys here v = v
  Way-append p q r (x ∷ xs) ys (next {q = m} h w) v = next h (Way-append m q r xs ys w v)

  pub Way-All :
      (P : Act → Type 0)
      → ((p : Ph) (a : Act) → P a → R p a p)
      → (p : Ph) (more : List Act) → All P more
      → Way R p more p
  Way-All P stay p [] h = here
  Way-All P stay p (a ∷ more) (h, hs) = next (stay p a h) (Way-All P stay p more hs)

Ends-weaken :
    {A Ph : Type 0} (Q S : A → Ph → Type 0) (r : Option A) (q : Ph)
    → ((a : A) (q : Ph) → Q a q → S a q)
    → Ends Q r q
    → Ends S r q
Ends-weaken Q S none q f h = tt
Ends-weaken Q S (some a) q f h = f a q h

Ends-of :
    {A Ph : Type 0} (Q : A → Ph → Type 0) (r : Option A) (q : Ph) → ((a : A) → Q a q) → Ends Q r q
Ends-of Q none q h = tt
Ends-of Q (some a) q h = h a

module _ {Ph W Act A : Type 0} {R : Ph → Act → Ph → Type 0} where
  pub pure-Runs : (p : Ph) (a : A) (Q : A → Ph → Type 0) → Q a p → Runs R p (pure {W = W} a) Q
  unfolding pure
  pure-Runs p a Q h = record { at = λ s. ([], p, sym (append-nil _), here, h) }

  pub perform-Runs :
      (p q : Ph) (a : Act) (call : W → W × Option A) (Q : A → Ph → Type 0)
      → R p a q
      → ((r : A) → Q r q)
      → Runs R p (perform a call) Q
  unfolding perform
  perform-Runs p q a call Q move h = record {
    at = λ s. (a ∷ [], q, refl, next move here, Ends-of Q (call s.world).1 q h);
  }

  pub raise-Runs : (p : Ph) (Q : A → Ph → Type 0) → Runs R p (raise {W = W} {A = A}) Q
  unfolding raise
  raise-Runs p Q = record { at = λ s. ([], p, sym (append-nil _), here, tt) }

  -- a call whose exception is caught
  pub attempt-Runs :
      (p q : Ph) (a : Act) (call : W → W × Option A) (Q : Option A → Ph → Type 0)
      → R p a q
      → ((r : Option A) → Q r q)
      → Runs R p (attempt (perform a call)) Q
  unfolding attempt perform
  attempt-Runs p q a call Q move h = record {
    at = λ s. (a ∷ [], q, refl, next move here, h (call s.world).1);
  }

  pub Runs-weaken :
      (p : Ph) (m : Step W Act A) (Q S : A → Ph → Type 0)
      → Runs R p m Q
      → ((a : A) (q : Ph) → Q a q → S a q)
      → Runs R p m S
  Runs-weaken p m Q S h f = record {
    at = λ s.
        let (more, q, e, way, ends) = h.at s in (more, q, e, way, Ends-weaken Q S (m s).0 q f ends);
  }

  pub Runs-from :
      (p q : Ph) (m : Step W Act A) (Q : A → Ph → Type 0) → q ≡ p → Runs R p m Q → Runs R q m Q
  Runs-from p q m Q e h = subst (λ x. Runs R x m Q) (sym e) h

  -- A step of actions that every phase allows stays in its phase.
  pub Does-Runs :
      (P : Act → Type 0)
      → ((p : Ph) (a : Act) → P a → R p a p)
      → (p : Ph) (m : Step W Act A) (Q : A → Ph → Type 0) → Does P m
      → ((a : A) → Q a p)
      → Runs R p m Q
  Does-Runs P stay p m Q d h = record {
    at = λ s.
        let (more, e, all) = d.at s in
        (more, p, e, Way-All P stay p more all, Ends-of Q (m s).0 p h);
  }

module _ {Ph W Act : Type 0} {R : Ph → Act → Ph → Type 0} where
  pub record_event-Runs :
      (p q : Ph) (a : Act) (Q : Unit {0} → Ph → Type 0)
      → R p a q
      → Q tt q
      → Runs R p (record_event {W = W} a) Q
  unfolding record_event
  record_event-Runs p q a Q move h = record { at = λ s. (a ∷ [], q, refl, next move here, h) }

module _ {Ph W Act A B : Type 0} {R : Ph → Act → Ph → Type 0} where
  continue-Runs :
      (q : Ph) (r : Option A × Session W Act) (k : A → Step W Act B) (Q : A → Ph → Type 0)
      (S : B → Ph → Type 0)
      → Ends Q r.0 q
      → ((a : A) (q : Ph) → Q a q → Runs R q (k a) S)
      → (more : List Act) × (last : Ph) × ((continue r k).1.trace ≡ r.1.trace ++ more)
        × Way R q more last
        × Ends S (continue r k).0 last
  continue-Runs q (none, s) k Q S h g = ([], q, sym (append-nil _), here, tt)
  continue-Runs q (some a, s) k Q S h g = (g a q h).at s

  pub >>=-Runs :
      (p : Ph) (m : Step W Act A) (k : A → Step W Act B) (Q : A → Ph → Type 0) (S : B → Ph → Type 0)
      → Runs R p m Q
      → ((a : A) (q : Ph) → Q a q → Runs R q (k a) S)
      → Runs R p (m >>= k) S
  unfolding ◌>>=◌
  >>=-Runs p m k Q S h g = record {
    at = λ s.
        let (early, q, e, w, ends) = h.at s in
        let (late, last, f, v, done) = continue-Runs q (m s) k Q S ends g in
        (
          early ++ late,
          last,
          f ∙ ap (λ t. t ++ late) e ∙ append_assoc s.trace early late,
          Way-append p q last early late w v,
          done,
        );
  }
