-- ===== src/Prelude/Steps.antt =====
-- Steps that change the world outside, note what they do and may raise. What was done before an
-- exception stays done.
use mathlib.Core.Path.{◌≡◌, refl, sym, ap}
use native.Mathlib.Omega.{arith}
use mathlib.Core.Option.{Option, none, some}
use mathlib.Core.List.{List, [], ◌∷◌, ◌++◌}

pub record Session (W Act : Type 0) : Type 0 where
  pub world : W
  pub trace : List Act

abbrev pub Step : Type 0 → Type 0 → Type 0 → Type 0
Step W Act A = Session W Act → Option A × Session W Act

module _ {W Act : Type 0} where
  abbrev pub note : Act → Session W Act → Session W Act
  note a s = record s { trace = s.trace ++ a ∷ [] }

  unfoldable pub record_event : Act → Step W Act (Unit {0})
  record_event a s = (some tt, note a s)

module _ {W Act A : Type 0} where
  unfoldable pub pure : A → Step W Act A
  pure a s = (some a, s)

  -- `raise`
  unfoldable pub raise : Step W Act A
  raise s = (none, s)

  -- a call of something outside, with the action that stands for it
  unfoldable pub perform : Act → (W → W × Option A) → Step W Act A
  perform a call s = let (w, result) = call s.world in (result, record (note a s) { world = w })

  -- `try: … except Exception: …`, with no result for an exception
  abbrev caught : Option A × Session W Act → Option (Option A) × Session W Act
  caught (result, s) = (some result, s)

  unfoldable pub attempt : Step W Act A → Step W Act (Option A)
  attempt m s = caught (m s)

module _ {W P Act A : Type 0} where
  -- a step in a larger world
  abbrev back : P → Option A × Session W Act → Option A × Session (W × P) Act
  back p (result, s) = (result, record { world = (s.world, p); trace = s.trace })

  unfoldable pub within : Step W Act A → Step (W × P) Act A
  within m s = back s.world.1 (m (record { world = s.world.0; trace = s.trace }))

  -- what the second part of the world is, and a change of it
  unfoldable pub gets : (W × P → A) → Step (W × P) Act A
  gets f s = (some (f s.world), s)

module _ {W P Act : Type 0} where
  unfoldable pub modify : (W → P → P) → Step (W × P) Act (Unit {0})
  modify f s = (some tt, record s { world = (s.world.0, f s.world.0 s.world.1) })

module _ {W Act A B : Type 0} where
  abbrev pub continue : Option A × Session W Act → (A → Step W Act B) → Option B × Session W Act
  continue (none, s) k = (none, s)
  continue (some a, s) k = k a s

  infixl 5 ◌>>=◌ ◌>>◌
  unfoldable pub ◌>>=◌ : Step W Act A → (A → Step W Act B) → Step W Act B
  ◌>>=◌ m k s = continue (m s) k

  abbrev pub ◌>>◌ : Step W Act A → Step W Act B → Step W Act B
  m >> n = m >>= λ _. n

module _ {W Act A B : Type 0} where
  continue-some :
      (m : Option A × Session W Act) (k : A → Step W Act B) (b : B) (after : Session W Act)
      → continue m k ≡ (some b, after)
      → (a : A) × (mid : Session W Act) × (m ≡ (some a, mid)) × (k a mid ≡ (some b, after))
  continue-some (none, s) k b after h = absurd (ground (arith, h))
  continue-some (some a, s) k b after h = (a, s, refl, h)

  -- What a chain that returns is made of.
  pub >>=-some :
      (m : Step W Act A) (k : A → Step W Act B) (b : B) (s after : Session W Act)
      → (m >>= k) s ≡ (some b, after)
      → (a : A) × (mid : Session W Act) × (m s ≡ (some a, mid)) × (k a mid ≡ (some b, after))
  unfolding ◌>>=◌
  >>=-some m k b s after h = continue-some (m s) k b after h

module _ {W P Act A : Type 0} where
  back-some :
      (p : P) (r : Option A × Session W Act) (a : A) (after : Session (W × P) Act)
      → back p r ≡ (some a, after)
      → after.world.1 ≡ p
  back-some p (none, s) a after h = absurd (ground (arith, h))
  back-some p (some x, s) a after h = sym (ap (λ r. r.1.world.1) h)

  -- A step inside leaves the second part of the world alone.
  pub within-some :
      (m : Step W Act A) (a : A) (s after : Session (W × P) Act)
      → within m s ≡ (some a, after)
      → after.world.1 ≡ s.world.1
  unfolding within
  within-some m a s after h =
      back-some s.world.1 (m (record { world = s.world.0; trace = s.trace })) a after h
