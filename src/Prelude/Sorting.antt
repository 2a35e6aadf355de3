-- ===== src/Prelude/Sorting.antt =====
-- Python's `sorted`, a stable sort: of two elements neither of which is below the other, the one
-- that came first stays first. The source uses it with keys, some of them reversed.
use mathlib.Core.List.Perm
use mathlib.Core.List.{Perm}
use mathlib.Core.Path.{◌≡◌, refl}
use mathlib.Core.Logic.{◌⊎◌, inl, inr}
use mathlib.Core.Bool.{Bool, true, false, ◌||◌}
use mathlib.Core.List.{List, [], ◌∷◌, ◌++◌}
use Prim.Native.Nat.{suc}
use native.Mathlib.Omega.{arith}
use tvastr_demo.Prelude.Tests.{if◌then◌else◌, Bool-cases}
use tvastr_demo.Prelude.Lists.{All, Any, Pairwise, length, All-map, any}

module _ {ℓ} {A : Type ℓ} (lt : A → A → Bool) where
  unfoldable pub insert : A → List A → List A
  insert x [] = x ∷ []
  insert x (y ∷ ys) = if lt y x then y ∷ insert x ys else x ∷ y ∷ ys

  unfoldable pub sort : List A → List A
  unfolding insert
  sort [] = []
  sort (x ∷ xs) = insert x (sort xs)

  insert-perm : (x : A) (ys : List A) → Perm (insert x ys) (x ∷ ys)
  unfolding insert
  insert-perm x [] = Perm.refl (x ∷ [])
  insert-perm x (y ∷ ys) = elim (Bool-cases (lt y x)) [
    | inl e ↦ rw e (Perm.trans (Perm.cons y (insert-perm x ys)) (Perm.swap x y ys))
    | inr e ↦ rw e (Perm.refl (x ∷ y ∷ ys))
  ]

  -- Sorting only reorders.
  pub sort-perm : (xs : List A) → Perm (sort xs) xs
  unfolding sort
  sort-perm [] = Perm.refl []
  sort-perm (x ∷ xs) = Perm.trans (insert-perm x (sort xs)) (Perm.cons x (sort-perm xs))

  length-insert : (x : A) (ys : List A) → length (insert x ys) ≡ suc (length ys)
  unfolding insert
  length-insert x [] = refl
  length-insert x (y ∷ ys) = ground (arith, length-insert x ys)

  pub length-sort : (xs : List A) → length (sort xs) ≡ length xs
  unfolding sort
  length-sort [] = refl
  length-sort (x ∷ xs) = omega (arith, length-insert x (sort xs), length-sort xs)

module _ {ℓ κ} {A : Type ℓ} (lt : A → A → Bool) (P : A → Type κ) where
  All-insert : (x : A) (ys : List A) → P x → All P ys → All P (insert lt x ys)
  unfolding insert
  All-insert x [] px h = (px, tt)
  All-insert x (y ∷ ys) px (py, h) = elim (Bool-cases (lt y x)) [
    | inl e ↦ rw e (py, All-insert x ys px h)
    | inr e ↦ rw e (px, (py, h))
  ]

  pub All-sort : (xs : List A) → All P xs → All P (sort lt xs)
  unfolding sort
  All-sort [] h = tt
  All-sort (x ∷ xs) (px, h) = All-insert x (sort lt xs) px (All-sort xs h)

  All-of-insert : (x : A) (ys : List A) → All P (insert lt x ys) → P x × All P ys
  unfolding insert
  All-of-insert x [] h = (h.0, tt)
  All-of-insert x (y ∷ ys) h = elim (Bool-cases (lt y x)) [
    | inl e ↦ let (py, rest) = rw e at h in let (px, r) = All-of-insert x ys rest in (px, (py, r))
    | inr e ↦ rw e at h
  ]

  pub All-of-sort : (xs : List A) → All P (sort lt xs) → All P xs
  unfolding sort
  All-of-sort [] h = tt
  All-of-sort (x ∷ xs) h = let (px, r) = All-of-insert x (sort lt xs) h in (px, All-of-sort xs r)

module _ {ℓ κ} {A : Type ℓ} (lt : A → A → Bool) (R : A → A → Type κ) where
  insert-Pairwise :
      ((a b : A) → R a b → R b a)
      → (x : A) (ys : List A) → All (R x) ys
      → Pairwise R ys
      → Pairwise R (insert lt x ys)
  unfolding insert
  insert-Pairwise flip x [] hx h = (tt, tt)
  insert-Pairwise flip x (y ∷ ys) (xy, hx) (hy, h) = elim (Bool-cases (lt y x)) [
    | inl e ↦ rw e (All-insert lt (R y) x ys (flip x y xy) hy, insert-Pairwise flip x ys hx h)
    | inr e ↦ rw e ((xy, hx), (hy, h))
  ]

  -- A relation that holds of all pairs, in either order, still does after a sort.
  pub sort-Pairwise :
      ((a b : A) → R a b → R b a) → (xs : List A) → Pairwise R xs → Pairwise R (sort lt xs)
  unfolding sort
  sort-Pairwise flip [] h = tt
  sort-Pairwise flip (x ∷ xs) (hx, h) =
      insert-Pairwise flip x (sort lt xs) (All-sort lt (R x) xs hx) (sort-Pairwise flip xs h)

module _ {ℓ} {A : Type ℓ} (lt : A → A → Bool) (P : A → Type 0) where
  past :
      (x y : A) (ys : List A) {R : Type 0} → (P x ⊎ Any P ys → R) → P x ⊎ (P y ⊎ Any P ys) → P y ⊎ R
  past x y ys ih (inl px) = inr (ih (inl px))
  past x y ys ih (inr (inl py)) = inl py
  past x y ys ih (inr (inr r)) = inr (ih (inr r))

  Any-insert : (x : A) (ys : List A) → P x ⊎ Any P ys → Any P (insert lt x ys)
  unfolding insert
  Any-insert x [] h = h
  Any-insert x (y ∷ ys) h = elim (Bool-cases (lt y x)) [
    | inl e ↦ rw e (past x y ys (Any-insert x ys) h)
    | inr e ↦ rw e h
  ]

  pub Any-sort : (xs : List A) → Any P xs → Any P (sort lt xs)
  unfolding sort
  Any-sort [] h = h
  Any-sort (x ∷ xs) (inl px) = Any-insert x (sort lt xs) (inl px)
  Any-sort (x ∷ xs) (inr h) = Any-insert x (sort lt xs) (inr (Any-sort xs h))

  back :
      (x y : A) (ys : List A) {R : Type 0} → (R → P x ⊎ Any P ys) → P y ⊎ R → P x ⊎ (P y ⊎ Any P ys)
  back x y ys ih (inl py) = inr (inl py)
  back x y ys ih (inr h) = elim (ih h) [ inl px ↦ inl px | inr r ↦ inr (inr r) ]

  Any-of-insert : (x : A) (ys : List A) → Any P (insert lt x ys) → P x ⊎ Any P ys
  unfolding insert
  Any-of-insert x [] h = h
  Any-of-insert x (y ∷ ys) h = elim (Bool-cases (lt y x)) [
    | inl e ↦ back x y ys (Any-of-insert x ys) (rw e at h)
    | inr e ↦ rw e at h
  ]

  pub Any-of-sort : (xs : List A) → Any P (sort lt xs) → Any P xs
  unfolding sort
  Any-of-sort [] h = h
  Any-of-sort (x ∷ xs) h = elim (Any-of-insert x (sort lt xs) h) [
    | inl px ↦ inl px
    | inr r ↦ inr (Any-of-sort xs r)
  ]

module _ {ℓ} {A : Type ℓ} (lt : A → A → Bool) (p : A → Bool) where
  any-insert : (x : A) (ys : List A) → any p (insert lt x ys) ≡ (p x || any p ys)
  unfolding insert any
  any-insert x [] = refl
  any-insert x (y ∷ ys) = ground (arith, any-insert x ys)

  pub any-sort : (xs : List A) → any p (sort lt xs) ≡ any p xs
  unfolding sort any
  any-sort [] = refl
  any-sort (x ∷ xs) = ground (arith, any-insert x (sort lt xs), any-sort xs)

-- What a sort key gives: a strict weak order.
pub record IsWeakOrder {ℓ} {A : Type ℓ} (lt : A → A → Bool) : Type ℓ where
  pub asym : (a b : A) → lt a b ≡ true → lt b a ≡ false
  pub le_trans : (a b c : A) → lt b a ≡ false → lt c b ≡ false → lt c a ≡ false

-- nothing stands behind an element that is above it
abbrev pub IsSorted {ℓ} : {A : Type ℓ} → (A → A → Bool) → List A → Type 0
IsSorted lt = Pairwise (λ a b. lt b a ≡ false)

module _ {ℓ} {A : Type ℓ} {lt : A → A → Bool} (o : IsWeakOrder lt) where
  insert-IsSorted : (x : A) (ys : List A) → IsSorted lt ys → IsSorted lt (insert lt x ys)
  unfolding insert
  insert-IsSorted x [] h = (tt, tt)
  insert-IsSorted x (y ∷ ys) (hy, h) = elim (Bool-cases (lt y x)) [
    | inl e ↦
        rw e (All-insert lt (λ z. lt z y ≡ false) x ys (o.asym y x e) hy, insert-IsSorted x ys h)
    | inr e ↦ rw e ((e, All-map (λ z q. o.le_trans x y z e q) ys hy), (hy, h))
  ]

  -- The result of a sort is in order.
  pub sort-IsSorted : (xs : List A) → IsSorted lt (sort lt xs)
  unfolding sort
  sort-IsSorted [] = tt
  sort-IsSorted (x ∷ xs) = insert-IsSorted x (sort lt xs) (sort-IsSorted xs)

  insert-append :
      (x : A) (ys zs : List A)
      → All (λ z. lt x z ≡ true) zs
      → insert lt x (ys ++ zs) ≡ insert lt x ys ++ zs
  unfolding insert
  insert-append x [] [] h = refl
  insert-append x [] (z ∷ zs) (hz, h) = rw (o.asym x z hz)
  insert-append x (y ∷ ys) zs h = ground (arith, insert-append x ys zs h)

  -- What lies wholly below is sorted before the rest, on its own.
  pub sort-append :
      (xs ys : List A)
      → All (λ x. All (λ y. lt x y ≡ true) ys) xs
      → sort lt (xs ++ ys) ≡ sort lt xs ++ sort lt ys
  unfolding sort
  sort-append [] ys h = refl
  sort-append (x ∷ xs) ys (hx, h) =
      rw (sort-append xs ys h)
        (insert-append x (sort lt xs) (sort lt ys) (All-sort lt (λ y. lt x y ≡ true) ys hx))
