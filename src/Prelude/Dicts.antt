-- ===== src/Prelude/Dicts.antt =====
-- Python's `dict` as an association list in insertion order: a new key goes to the end, a known
-- key keeps its place.
use mathlib.Core.Path.{◌≡◌, refl, subst}
use mathlib.Core.Logic.{◌≢◌, inl, inr}
use mathlib.Core.Option.{Option, none, some}
use mathlib.Core.List.{List, [], ◌∷◌, map}
use native.Mathlib.Omega.{arith}
use tvastr_demo.Prelude.Tests.{if◌then◌else◌, Bool-cases}
use tvastr_demo.Prelude.Lists.{All, Pairwise}
use tvastr_demo.Prelude.Equality.{Equatable, ◌==◌}

abbrev pub Dict {ℓ κ} : Type ℓ → Type κ → Type (ℓ ⊔ κ)
Dict K V = List (K × V)

module _ {ℓ κ} {K : Type ℓ} {V : Type κ} where
  abbrev pub keys : Dict K V → List K
  keys = map (λ e. e.0)

  abbrev pub values : Dict K V → List V
  values = map (λ e. e.1)

  -- every key stands once
  abbrev pub HasUniqueKeys : Dict K V → Type ℓ
  HasUniqueKeys d = Pairwise (λ a b. a ≢ b) (keys d)

module _ {ℓ κ} {K : Type ℓ} {V : Type κ} ⦃e : Equatable K⦄ where
  -- `d.get(k)`
  unfoldable pub get : K → Dict K V → Option V
  get k [] = none
  get k ((j, v) ∷ d) = if j == k then some v else get k d

  -- `d[k] = v`
  unfoldable pub put : K → V → Dict K V → Dict K V
  put k v [] = (k, v) ∷ []
  put k v ((j, w) ∷ d) = if j == k then (j, v) ∷ d else (j, w) ∷ put k v d

  -- `d.pop(k, None)`
  unfoldable pub remove : K → Dict K V → Dict K V
  remove k [] = []
  remove k ((j, w) ∷ d) = let rest = remove k d in if j == k then rest else (j, w) ∷ rest

  pub get-put :
      (k j : K) (v : V) (d : Dict K V) → get j (put k v d) ≡ (if k == j then some v else get j d)
  unfolding get put
  get-put k j v [] = refl
  get-put k j v ((i, w) ∷ d) =
      ground (arith, e.same_iff k j, e.same_iff i k, e.same_iff i j, get-put k j v d)

  pub get-remove :
      (k j : K) (d : Dict K V) → get j (remove k d) ≡ (if k == j then none else get j d)
  unfolding get remove
  get-remove k j [] = ground arith
  get-remove k j ((i, w) ∷ d) =
      ground (arith, e.same_iff k j, e.same_iff i k, e.same_iff i j, get-remove k j d)

  All-keys-put :
      (P : K → Type 0) (k : K) (v : V) (d : Dict K V)
      → P k
      → All P (keys d)
      → All P (keys (put k v d))
  unfolding put
  All-keys-put P k v [] pk h = (pk, tt)
  All-keys-put P k v ((i, w) ∷ d) pk (pi, h) = elim (Bool-cases (i == k)) [
    | inl q ↦ rw q (pi, h)
    | inr q ↦ rw q (pi, All-keys-put P k v d pk h)
  ]

  pub All-values-put :
      (P : V → Type 0) (k : K) (v : V) (d : Dict K V)
      → P v
      → All P (values d)
      → All P (values (put k v d))
  unfolding put
  All-values-put P k v [] pv h = (pv, tt)
  All-values-put P k v ((i, w) ∷ d) pv (pw, h) = elim (Bool-cases (i == k)) [
    | inl q ↦ rw q (pv, h)
    | inr q ↦ rw q (pw, All-values-put P k v d pv h)
  ]

  pub get-All :
      (P : V → Type 0) (k : K) (d : Dict K V) (v : V) → get k d ≡ some v → All P (values d) → P v
  unfolding get
  get-All P k [] v g h = absurd (cc)
  get-All P k ((i, w) ∷ d) v g (pw, h) = elim (Bool-cases (i == k)) [
    | inl q ↦ subst P (ground (arith, q, g)) pw
    | inr q ↦ get-All P k d v (ground (arith, q, g)) h
  ]

module _ {ℓ} {K : Type 0} {V : Type ℓ} ⦃e : Equatable K⦄ where
  -- A write keeps the keys unique.
  pub put-HasUniqueKeys :
      (k : K) (v : V) (d : Dict K V) → HasUniqueKeys d → HasUniqueKeys (put k v d)
  unfolding put
  put-HasUniqueKeys k v [] h = (tt, tt)
  put-HasUniqueKeys k v ((i, w) ∷ d) (hi, h) = elim (Bool-cases (i == k)) [
    | inl q ↦ rw q (hi, h)
    | inr q ↦ rw q (
      All-keys-put (λ j. i ≢ j) k v d (λ p. ground (arith, e.same_iff i k)) hi,
      put-HasUniqueKeys k v d h,
    )
  ]
