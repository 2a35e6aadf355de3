-- ===== src/Prelude/Lists.antt =====
-- Lists over the native numbers, under the library's names, and predicates by recursion.
use Prim.Native.Nat.{ℕ, zero, suc, ◌+◌, ◌≤◌}
use mathlib.Core.Path.{◌≡◌, refl}
use mathlib.Core.Logic.{◌≢◌, ◌⊎◌, inl, inr}
use mathlib.Core.Bool.{Bool, true, false, ◌||◌}
use mathlib.Core.List.{List, [], ◌∷◌, ◌++◌, map}
use native.Mathlib.Omega.{arith}
use tvastr_demo.Prelude.Tests.{if◌then◌else◌, Bool-cases}

module _ {ℓ} {A : Type ℓ} where
  abbrev pub length : List A → ℕ
  length [] = 0
  length (x ∷ xs) = suc (length xs)

  -- `xs[:n]` and `xs[n:]` at a natural number: both clamp to the list.
  abbrev pub take : ℕ → List A → List A
  take zero xs = []
  take (suc n) [] = []
  take (suc n) (x ∷ xs) = x ∷ take n xs

  abbrev pub drop : ℕ → List A → List A
  drop zero xs = xs
  drop (suc n) [] = []
  drop (suc n) (x ∷ xs) = drop n xs

  -- `[x for x in xs if p(x)]`
  unfoldable pub keep : (A → Bool) → List A → List A
  keep p [] = []
  keep p (x ∷ xs) = let rest = keep p xs in if p x then x ∷ rest else rest

  -- `any(p(x) for x in xs)`
  unfoldable pub any : (A → Bool) → List A → Bool
  any p [] = false
  any p (x ∷ xs) = p x || any p xs

  abbrev pub is_empty : List A → Bool
  is_empty [] = true
  is_empty (x ∷ xs) = false

  pub length-append : (xs ys : List A) → length (xs ++ ys) ≡ length xs + length ys
  length-append [] ys = omega arith
  length-append (x ∷ xs) ys = omega (arith, length-append xs ys)

  pub length-take-le : (n : ℕ) (xs : List A) → length (take n xs) ≤ n
  length-take-le zero xs = omega arith
  length-take-le (suc n) [] = omega arith
  length-take-le (suc n) (x ∷ xs) = omega (arith, length-take-le n xs)

  pub any-append : (p : A → Bool) (xs ys : List A) → any p (xs ++ ys) ≡ (any p xs || any p ys)
  unfolding any
  any-append p [] ys = refl
  any-append p (x ∷ xs) ys = ground (arith, any-append p xs ys)

module _ {ℓ} {A : Type ℓ} where
  pub take_all : (xs : List A) → take (length xs) xs ≡ xs
  take_all [] = refl
  take_all (x ∷ xs) = rw (take_all xs)

  -- a cut inside the front part of `take k xs ++ tail`
  pub take-take-append :
      (a k : ℕ) (xs tail : List A) → a ≤ k → k ≤ length xs → take a (take k xs ++ tail) ≡ take a xs
  take-take-append zero k xs tail h l = refl
  take-take-append (suc a) zero xs tail h l = absurd (omega arith)
  take-take-append (suc a) (suc k) [] tail h l = absurd (omega arith)
  take-take-append (suc a) (suc k) (x ∷ xs) tail h l =
      rw (take-take-append a k xs tail (omega arith) (omega arith))

  pub drop-take-append :
      (a k : ℕ) (xs tail : List A)
      → a ≤ k
      → k ≤ length xs
      → drop a (take k xs ++ tail) ≡ drop a (take k xs) ++ tail
  drop-take-append zero k xs tail h l = refl
  drop-take-append (suc a) zero xs tail h l = absurd (omega arith)
  drop-take-append (suc a) (suc k) [] tail h l = absurd (omega arith)
  drop-take-append (suc a) (suc k) (x ∷ xs) tail h l =
      drop-take-append a k xs tail (omega arith) (omega arith)

  pub append-ne-nil_left : (xs ys : List A) → xs ≢ [] → xs ++ ys ≢ []
  append-ne-nil_left [] ys h = absurd (h refl)
  append-ne-nil_left (x ∷ xs) ys h = cc

  pub append-ne-nil_right : (xs ys : List A) → ys ≢ [] → xs ++ ys ≢ []
  append-ne-nil_right [] ys h = h
  append-ne-nil_right (x ∷ xs) ys h = cc

module _ {ℓ κ} {A : Type ℓ} {B : Type κ} (f : A → B) where
  pub map-ne-nil : (xs : List A) → xs ≢ [] → map f xs ≢ []
  map-ne-nil [] h = absurd (h refl)
  map-ne-nil (x ∷ xs) h = cc

module _ {ℓ κ} {A : Type ℓ} (P : A → Type κ) where
  abbrev pub All : List A → Type κ
  All [] = Unit
  All (x ∷ xs) = P x × All xs

  pub All-append : (xs ys : List A) → All xs → All ys → All (xs ++ ys)
  All-append [] ys _ hy = hy
  All-append (x ∷ xs) ys (px, hx) hy = (px, All-append xs ys hx hy)

  pub All-append_left : (xs ys : List A) → All (xs ++ ys) → All xs
  All-append_left [] ys h = tt
  All-append_left (x ∷ xs) ys (px, h) = (px, All-append_left xs ys h)

  pub All-append_right : (xs ys : List A) → All (xs ++ ys) → All ys
  All-append_right [] ys h = h
  All-append_right (x ∷ xs) ys (px, h) = All-append_right xs ys h

  pub All-keep : (p : A → Bool) (xs : List A) → All xs → All (keep p xs)
  unfolding keep
  All-keep p [] h = tt
  All-keep p (x ∷ xs) (px, h) = elim (Bool-cases (p x)) [
    | inl e ↦ rw e (px, All-keep p xs h)
    | inr e ↦ rw e (All-keep p xs h)
  ]

  pub All-take : (n : ℕ) (xs : List A) → All xs → All (take n xs)
  All-take zero xs h = tt
  All-take (suc n) [] h = tt
  All-take (suc n) (x ∷ xs) (px, h) = (px, All-take n xs h)

module _ {ℓ κ κ'} {A : Type ℓ} {P : A → Type κ} {Q : A → Type κ'} where
  pub All-map : ((x : A) → P x → Q x) → (xs : List A) → All P xs → All Q xs
  All-map f [] h = tt
  All-map f (x ∷ xs) (px, h) = (f x px, All-map f xs h)

module _ {ℓ} {A : Type ℓ} (P : A → Type 0) where
  -- some element satisfies `P`, with the element kept
  abbrev pub Any : List A → Type 0
  Any [] = ⊥
  Any (x ∷ xs) = P x ⊎ Any xs

  pub Any-append_left : (xs ys : List A) → Any xs → Any (xs ++ ys)
  Any-append_left [] ys h = absurd h
  Any-append_left (x ∷ xs) ys (inl px) = inl px
  Any-append_left (x ∷ xs) ys (inr h) = inr (Any-append_left xs ys h)

  pub Any-append_right : (xs ys : List A) → Any ys → Any (xs ++ ys)
  Any-append_right [] ys h = h
  Any-append_right (x ∷ xs) ys h = inr (Any-append_right xs ys h)

  pub Any-append : (xs ys : List A) → Any (xs ++ ys) → Any xs ⊎ Any ys
  Any-append [] ys h = inr h
  Any-append (x ∷ xs) ys (inl px) = inl (inl px)
  Any-append (x ∷ xs) ys (inr h) = elim (Any-append xs ys h) [ inl a ↦ inl (inr a) | inr b ↦ inr b ]

module _ {ℓ} {A : Type ℓ} {P Q : A → Type 0} where
  pub Any-map : ((x : A) → P x → Q x) → (xs : List A) → Any P xs → Any Q xs
  Any-map f [] h = absurd h
  Any-map f (x ∷ xs) (inl px) = inl (f x px)
  Any-map f (x ∷ xs) (inr h) = inr (Any-map f xs h)

module _ {ℓ κ} {A : Type ℓ} {P : A → Type κ} {Q : A → Type 0} where
  -- what holds of all elements holds of the one that is there
  pub Any-with_All :
      {R : A → Type 0}
      → ((x : A) → P x → Q x → R x)
      → (xs : List A) → All P xs
      → Any Q xs
      → Any R xs
  Any-with_All f [] a h = absurd h
  Any-with_All f (x ∷ xs) (px, a) (inl qx) = inl (f x px qx)
  Any-with_All f (x ∷ xs) (px, a) (inr h) = inr (Any-with_All f xs a h)

-- every two elements, in order, are related
module _ {ℓ κ} {A : Type ℓ} (R : A → A → Type κ) where
  abbrev pub Pairwise : List A → Type κ
  Pairwise [] = Unit
  Pairwise (x ∷ xs) = All (R x) xs × Pairwise xs

  pub Pairwise-take : (n : ℕ) (xs : List A) → Pairwise xs → Pairwise (take n xs)
  Pairwise-take zero xs h = tt
  Pairwise-take (suc n) [] h = tt
  Pairwise-take (suc n) (x ∷ xs) (hx, h) = (All-take (R x) n xs hx, Pairwise-take n xs h)

  pub Pairwise-append :
      (xs ys : List A)
      → Pairwise xs
      → Pairwise ys
      → All (λ x. All (R x) ys) xs
      → Pairwise (xs ++ ys)
  Pairwise-append [] ys h k a = k
  Pairwise-append (x ∷ xs) ys (hx, h) k (ax, a) =
      (All-append (R x) xs ys hx ax, Pairwise-append xs ys h k a)

  pub Pairwise-concat :
      (xs : List A) (y : A) → Pairwise xs → All (λ x. R x y) xs → Pairwise (xs ++ y ∷ [])
  Pairwise-concat [] y h a = (tt, tt)
  Pairwise-concat (x ∷ xs) y (hx, h) (ax, a) =
      (All-append (R x) xs (y ∷ []) hx (ax, tt), Pairwise-concat xs y h a)

module _ {ℓ κ κ'} {A : Type ℓ} {R : A → A → Type κ} {S : A → A → Type κ'} where
  pub Pairwise-map : ((a b : A) → R a b → S a b) → (xs : List A) → Pairwise R xs → Pairwise S xs
  Pairwise-map f [] h = tt
  Pairwise-map f (x ∷ xs) (hx, h) = (All-map (f x) xs hx, Pairwise-map f xs h)

module _ {ℓ κ κ'} {A : Type ℓ} (P : A → Type κ) (Q : A → Type κ') where
  pub All-zip : (xs : List A) → All P xs → All Q xs → All (λ x. P x × Q x) xs
  All-zip [] h k = tt
  All-zip (x ∷ xs) (px, h) (qx, k) = ((px, qx), All-zip xs h k)

module _ {ℓ κ κ'} {A : Type ℓ} (R : A → A → Type κ) (S : A → A → Type κ') where
  pub Pairwise-zip :
      (xs : List A) → Pairwise R xs → Pairwise S xs → Pairwise (λ a b. R a b × S a b) xs
  Pairwise-zip [] h k = tt
  Pairwise-zip (x ∷ xs) (hx, h) (kx, k) = (All-zip (R x) (S x) xs hx kx, Pairwise-zip xs h k)

module _ {ℓ κ κ'} {A : Type ℓ} (P : A → Type κ) (R : A → A → Type κ') where
  -- what holds of all elements holds of both in a pair
  pub Pairwise-with_All :
      (xs : List A) → All P xs → Pairwise R xs → Pairwise (λ a b. P a × P b × R a b) xs
  Pairwise-with_All [] h k = tt
  Pairwise-with_All (x ∷ xs) (px, h) (kx, k) =
      (All-map (λ y q. (px, q.0, q.1)) xs (All-zip P (R x) xs h kx), Pairwise-with_All xs h k)
