-- ===== src/Pii/Resolve/Accepted.antt =====
-- What `_resolve` accepts: spans that do not overlap, with every candidate accounted for, and the
-- choices among the earlier candidates not changed by later ones.
use tvastr_demo.Prelude.{
  ◌≡◌, refl, sym, subst, Bool, true, false, List, [], ◌∷◌, ◌++◌, append_assoc, append-nil,
  if◌then◌else◌, any, arith, Bool-cases, All, Any, Pairwise, All-append, All-map, Any-append_left,
  Any-append_right, Pairwise-concat, inl, inr, ◌⊎◌, Any-with_All,
}
use tvastr_demo.Prelude.Sorting.{sort, IsSorted, sort-IsSorted, sort-append, All-of-sort, All-sort}
use tvastr_demo.Pii.Resolve.{Candidate, before, overlaps, accept, resolve, before-IsWeakOrder}

-- `any` is false exactly for a test that fails everywhere; one direction each
none_overlap :
    (p : Candidate → Bool) (xs : List Candidate) → any p xs ≡ false → All (λ a. p a ≡ false) xs
unfolding any
none_overlap p [] h = tt
none_overlap p (x ∷ xs) h = (ground arith, none_overlap p xs (ground arith))

some_overlap :
    (p : Candidate → Bool) (xs : List Candidate) → any p xs ≡ true → Any (λ a. p a ≡ true) xs
unfolding any
some_overlap p [] h = cc
some_overlap p (x ∷ xs) h = elim (Bool-cases (p x)) [
  | inl e ↦ inl e
  | inr e ↦ inr (some_overlap p xs (ground arith))
]

-- two spans that share no position
abbrev pub Disjoint : Candidate → Candidate → Type 0
Disjoint a b = overlaps b a ≡ false

module _ (accepted : List Candidate) (c : Candidate) (cs : List Candidate) where
  accept_skip : any (overlaps c) accepted ≡ true → accept accepted (c ∷ cs) ≡ accept accepted cs
  unfolding accept
  accept_skip e = rw e

  accept_add :
      any (overlaps c) accepted ≡ false → accept accepted (c ∷ cs) ≡ accept (accepted ++ c ∷ []) cs
  unfolding accept
  accept_add e = rw e

accept-Disjoint :
    (accepted cs : List Candidate)
    → Pairwise Disjoint accepted
    → Pairwise Disjoint (accept accepted cs)
accept-Disjoint accepted [] h = unfold accept in h
accept-Disjoint accepted (c ∷ cs) h = elim (Bool-cases (any (overlaps c) accepted)) [
  | inl e ↦ rw (accept_skip accepted c cs e) (accept-Disjoint accepted cs h)
  | inr e ↦ rw (accept_add accepted c cs e) (
      accept-Disjoint (accepted ++ c ∷ []) cs
        (Pairwise-concat Disjoint accepted c h (none_overlap (overlaps c) accepted e)))
]

-- No two accepted spans overlap.
pub resolve-Disjoint : (candidates : List Candidate) → Pairwise Disjoint (resolve candidates)
unfolding resolve
resolve-Disjoint candidates = accept-Disjoint [] (sort before candidates) tt

-- acceptance only appends
accept-extends :
    (accepted cs : List Candidate)
    → (more : List Candidate) × (accept accepted cs ≡ accepted ++ more)
unfolding accept
accept-extends accepted [] = ([], rw append-nil)
accept-extends accepted (c ∷ cs) = elim (Bool-cases (any (overlaps c) accepted)) [
  | inl e ↦ rw (accept_skip accepted c cs e) (accept-extends accepted cs)
  | inr e ↦
      rw (accept_add accepted c cs e)
        (let (more, p) = accept-extends (accepted ++ c ∷ []) cs in (c ∷ more, rw (p, append_assoc)))
]

accept-append :
    (accepted xs ys : List Candidate) → accept accepted (xs ++ ys) ≡ accept (accept accepted xs) ys
unfolding accept
accept-append accepted [] ys = refl
accept-append accepted (x ∷ xs) ys =
    accept-append (if any (overlaps x) accepted then accepted else accepted ++ x ∷ []) xs ys

pub accept_keeps :
    (P : Candidate → Type 0) (accepted cs : List Candidate)
    → Any P accepted
    → Any P (accept accepted cs)
accept_keeps P accepted cs h =
    let (more, p) = accept-extends accepted cs in rw p (Any-append_left P accepted more h)

-- `c` was accepted, or it overlaps an accepted span that does not come after it
abbrev pub Covers : Candidate → Candidate → Type 0
Covers c a = (a ≡ c) ⊎ ((overlaps c a ≡ true) × (before c a ≡ false))

accept-Covers :
    (accepted cs : List Candidate)
    → IsSorted before cs
    → All (λ a. All (λ c. before c a ≡ false) cs) accepted
    → All (λ c. Any (Covers c) (accept accepted cs)) cs
accept-Covers accepted [] s h = tt
accept-Covers accepted (c ∷ cs) (hc, s) h = elim (Bool-cases (any (overlaps c) accepted)) [
  | inl e ↦
      subst (λ r. All (λ d. Any (Covers d) r) (c ∷ cs)) (sym (accept_skip accepted c cs e))
        (
          accept_keeps (Covers c) accepted cs (
              Any-with_All (λ a q o. inr (o, q.0)) accepted h
                (some_overlap (overlaps c) accepted e)),
          accept-Covers accepted cs s (All-map (λ a q. q.1) accepted h),
        )
  | inr e ↦
      subst (λ r. All (λ d. Any (Covers d) r) (c ∷ cs)) (sym (accept_add accepted c cs e))
        (
          accept_keeps (Covers c) (accepted ++ c ∷ []) cs
              (Any-append_right (Covers c) accepted (c ∷ []) (inl (inl refl))),
          accept-Covers (accepted ++ c ∷ []) cs s (
              All-append (λ a. All (λ d. before d a ≡ false) cs) accepted (c ∷ [])
                (All-map (λ a q. q.1) accepted h) (hc, tt)),
        )
]

-- Every candidate is accepted, or overlaps an accepted span of the same or a more specific
-- pattern: nothing that was detected is left out for another reason.
pub resolve-Covers :
    (candidates : List Candidate) → All (λ c. Any (Covers c) (resolve candidates)) candidates
unfolding resolve
resolve-Covers candidates =
    All-of-sort before (λ c. Any (Covers c) (resolve candidates)) candidates
      (accept-Covers [] (sort before candidates) (sort-IsSorted before-IsWeakOrder candidates) tt)

-- Candidates behind all others in priority leave the spans accepted from those unchanged.
pub resolve-append :
    (xs ys : List Candidate)
    → All (λ x. All (λ y. before x y ≡ true) ys) xs
    → (more : List Candidate) × (resolve (xs ++ ys) ≡ resolve xs ++ more)
unfolding resolve
resolve-append xs ys h =
    let (more, p) = accept-extends (accept [] (sort before xs)) (sort before ys) in
    (more, rw (sort-append before-IsWeakOrder xs ys h, accept-append) p)

accept-All :
    (P : Candidate → Type 0) (accepted cs : List Candidate)
    → All P accepted
    → All P cs
    → All P (accept accepted cs)
accept-All P accepted [] h k = unfold accept in h
accept-All P accepted (c ∷ cs) h (pc, k) = elim (Bool-cases (any (overlaps c) accepted)) [
  | inl e ↦ rw (accept_skip accepted c cs e) (accept-All P accepted cs h k)
  | inr e ↦
      rw (accept_add accepted c cs e)
        (accept-All P (accepted ++ c ∷ []) cs (All-append P accepted (c ∷ []) h (pc, tt)) k)
]

-- Only candidates are accepted.
pub resolve-All : (P : Candidate → Type 0) (cs : List Candidate) → All P cs → All P (resolve cs)
unfolding resolve
resolve-All P cs h = accept-All P [] (sort before cs) tt (All-sort before P cs h)
