-- ===== src/Selfheal/Remediate/Escalation/Rows.antt =====
-- Which rows the summary of `build_escalation` in src/tvastr/selfheal/remediate.py has.
use mathlib.Core.List.Perm
use mathlib.Core.List.{Perm, perm_middle}
use tvastr_demo.Prelude.{
  true, false, Bool-cases, Option-cases, keep, contains, default_to, List, [], ◌∷◌, ◌++◌, map,
  Option, none, some, Text, text_eq, ◌≡◌, ◌≢◌, ◌↔◌, ◌⊎◌, ◌==◌, refl, ap, ◌∙◌, arith, inl, inr, sym,
  subst, All, All-map, Any,
}
use tvastr_demo.Prelude.Dicts.{Dict, get, put, get-put}
use tvastr_demo.Selfheal.Report.{RankedCluster, WeeklyReport}
use tvastr_demo.Selfheal.Remediate.{
  Status, pr_created, unverified, failed, skipped, FixOutcome, bare_outcome,
}
use tvastr_demo.Selfheal.Remediate.Escalation.{
  outcomes_by_fingerprint, outcome_for, others, attempted, is_pr_created, fixed, unfixed,
}

-- The outcome that the index has under a fingerprint is one of the list; without one, no outcome of
-- the list has the fingerprint.
abbrev Finds : List FixOutcome → Text → Option FixOutcome → Type 0
Finds rs fp none = All (λ r. r.fingerprint ≢ fp) rs
Finds rs fp (some r) = (r.fingerprint ≡ fp) × Any (λ x. x ≡ r) rs

-- the same, with the index that the loop begins with
abbrev FindsFrom : Dict Text FixOutcome → List FixOutcome → Text → Option FixOutcome → Type 0
FindsFrom d rs fp none = (get fp d ≡ none) × All (λ r. r.fingerprint ≢ fp) rs
FindsFrom d rs fp (some r) = (get fp d ≡ some r) ⊎ ((r.fingerprint ≡ fp) × Any (λ x. x ≡ r) rs)

FindsFrom-cons :
    (d : Dict Text FixOutcome) (x : FixOutcome) (rs : List FixOutcome) (fp : Text)
    (found : Option FixOutcome)
    → FindsFrom (put x.fingerprint x d) rs fp found
    → FindsFrom d (x ∷ rs) fp found
FindsFrom-cons d x rs fp none (e, h) = elim (Bool-cases (x.fingerprint == fp)) [
  | inl q ↦ absurd (ground (arith, q, e, get-put x.fingerprint fp x d))
  | inr q ↦ (
    ground (arith, q, e, get-put x.fingerprint fp x d),
    (λ z. ground (arith, q, (text_eq.same_iff x.fingerprint fp).1 z), h),
  )
]
FindsFrom-cons d x rs fp (some r) (inr (e, h)) = inr (e, inr h)
FindsFrom-cons d x rs fp (some r) (inl e) = elim (Bool-cases (x.fingerprint == fp)) [
  | inl q ↦
      let same : x ≡ r = ground (arith, q, e, get-put x.fingerprint fp x d) in
      inr (ap FixOutcome.fingerprint (sym same) ∙ (text_eq.same_iff x.fingerprint fp).0 q, inl same)
  | inr q ↦ inl (ground (arith, q, e, get-put x.fingerprint fp x d))
]

outcomes_by_fingerprint-FindsFrom :
    (d : Dict Text FixOutcome) (rs : List FixOutcome) (fp : Text)
    → FindsFrom d rs fp (get fp (outcomes_by_fingerprint d rs))
unfolding outcomes_by_fingerprint
outcomes_by_fingerprint-FindsFrom d [] fp = elim (Option-cases (get fp d)) [
  | inl q ↦ rw q (q, tt)
  | inr (r, q) ↦ rw q (inl q)
]
outcomes_by_fingerprint-FindsFrom d (x ∷ rs) fp =
    FindsFrom-cons d x rs fp (get fp (outcomes_by_fingerprint (put x.fingerprint x d) rs))
      (outcomes_by_fingerprint-FindsFrom (put x.fingerprint x d) rs fp)

FindsFrom-nil :
    (rs : List FixOutcome) (fp : Text) (found : Option FixOutcome)
    → FindsFrom [] rs fp found
    → Finds rs fp found
unfolding get
FindsFrom-nil rs fp none (e, h) = h
FindsFrom-nil rs fp (some r) (inl e) = absurd (cc)
FindsFrom-nil rs fp (some r) (inr h) = h

-- the row of a cluster: an outcome with its fingerprint, or, if there is none, that it was skipped
abbrev pub IsRowOf : List FixOutcome → RankedCluster → FixOutcome → Type 0
IsRowOf outcomes c row =
    ((row.fingerprint ≡ c.fingerprint) × Any (λ r. r ≡ row) outcomes)
    ⊎ (All (λ r. r.fingerprint ≢ c.fingerprint) outcomes × (row ≡ bare_outcome c none skipped))

-- rows for the clusters, one for each and in their order
abbrev pub RowsFor : List FixOutcome → List RankedCluster → List FixOutcome → Type 0
RowsFor outcomes [] [] = Unit
RowsFor outcomes (c ∷ cs) (row ∷ rows) = IsRowOf outcomes c row × RowsFor outcomes cs rows
RowsFor outcomes _ _ = ⊥

Finds-IsRowOf :
    (outcomes : List FixOutcome) (c : RankedCluster) (found : Option FixOutcome)
    → Finds outcomes c.fingerprint found
    → IsRowOf outcomes c (default_to (bare_outcome c none skipped) found)
Finds-IsRowOf outcomes c none h = inr (h, refl)
Finds-IsRowOf outcomes c (some r) h = inl h

outcomes_for-RowsFor :
    (outcomes : List FixOutcome) (cs : List RankedCluster)
    → RowsFor outcomes cs (map (outcome_for (outcomes_by_fingerprint [] outcomes)) cs)
unfolding outcome_for
outcomes_for-RowsFor outcomes [] = tt
outcomes_for-RowsFor outcomes (c ∷ cs) =
    let found = get c.fingerprint (outcomes_by_fingerprint [] outcomes) in
    (
      Finds-IsRowOf outcomes c found (
          FindsFrom-nil outcomes c.fingerprint found
            (outcomes_by_fingerprint-FindsFrom [] outcomes c.fingerprint)),
      outcomes_for-RowsFor outcomes cs,
    )

-- an outcome of none of the clusters
abbrev pub IsForeign : List RankedCluster → FixOutcome → Type 0
IsForeign cs r = All (λ c. c.fingerprint ≢ r.fingerprint) cs

-- the rows without a cluster: outcomes of none of them, and each of these
abbrev pub AreForeign : List RankedCluster → List FixOutcome → List FixOutcome → Type 0
AreForeign cs outcomes rows =
    All (IsForeign cs) rows
    × All (λ row. Any (λ r. r ≡ row) outcomes) rows
    × ((r : FixOutcome) → IsForeign cs r → Any (λ x. x ≡ r) outcomes → Any (λ x. x ≡ r) rows)

contains-IsForeign :
    (cs : List RankedCluster) (r : FixOutcome)
    → (contains r.fingerprint (map RankedCluster.fingerprint cs) ≡ false) ↔ IsForeign cs r
unfolding contains
contains-IsForeign [] r = (λ h. tt, λ h. refl)
contains-IsForeign (c ∷ cs) r =
    let (to, from) = contains-IsForeign cs r in
    (
      λ h. (
        λ e. ground (arith, h, (text_eq.same_iff r.fingerprint c.fingerprint).1 (sym e)),
        to (ground (arith, h)),
      ),
      λ (ne, h). elim (Bool-cases (r.fingerprint == c.fingerprint)) [
        | inl q ↦ absurd (ne (sym ((text_eq.same_iff r.fingerprint c.fingerprint).0 q)))
        | inr q ↦ ground (arith, q, from h)
      ],
    )

AreForeign-own :
    (cs : List RankedCluster) (r : FixOutcome) (rs rows : List FixOutcome)
    → (IsForeign cs r → ⊥)
    → AreForeign cs rs rows
    → AreForeign cs (r ∷ rs) rows
AreForeign-own cs r rs rows own (foreign, known, kept) = (
  foreign,
  All-map {P = λ row. Any (λ x. x ≡ row) rs} {Q = λ row. Any (λ x. x ≡ row) (r ∷ rs)}
      (λ row h. inr h) rows known,
  λ x f h. elim h [ inl e ↦ absurd (own (subst (IsForeign cs) (sym e) f)) | inr h ↦ kept x f h ],
)

AreForeign-cons :
    (cs : List RankedCluster) (r : FixOutcome) (rs rows : List FixOutcome)
    → IsForeign cs r
    → AreForeign cs rs rows
    → AreForeign cs (r ∷ rs) (r ∷ rows)
AreForeign-cons cs r rs rows f (foreign, known, kept) = (
  (f, foreign),
  (
    inl refl,
    All-map {P = λ row. Any (λ x. x ≡ row) rs} {Q = λ row. Any (λ x. x ≡ row) (r ∷ rs)}
        (λ row h. inr h) rows known,
  ),
  λ x g h. elim h [ inl e ↦ inl e | inr h ↦ inr (kept x g h) ],
)

others-AreForeign :
    (cs : List RankedCluster) (outcomes : List FixOutcome)
    → AreForeign cs outcomes (others cs outcomes)
unfolding others keep
others-AreForeign cs [] = (tt, tt, λ r f h. h)
others-AreForeign cs (r ∷ rs) =
    let rest = others-AreForeign cs rs in
    let (to, from) = contains-IsForeign cs r in
    elim (Bool-cases (contains r.fingerprint (map RankedCluster.fingerprint cs))) [
      | inl q ↦ rw q (AreForeign-own cs r rs (others cs rs) (λ f. ground (arith, q, from f)) rest)
      | inr q ↦ rw q (AreForeign-cons cs r rs (others cs rs) (to q) rest)
    ]

fixed_and_unfixed : (rs : List FixOutcome) → Perm (fixed rs ++ unfixed rs) rs
unfolding fixed unfixed keep
fixed_and_unfixed [] = Perm.refl []
fixed_and_unfixed (r ∷ rs) = elim (Bool-cases (is_pr_created r.status)) [
  | inl e ↦ rw e (Perm.cons r (fixed_and_unfixed rs))
  | inr e ↦
      rw e (Perm.trans (perm_middle (fixed rs) (unfixed rs)) (Perm.cons r (fixed_and_unfixed rs)))
]

created-status : (x : Status) → is_pr_created x ≡ true → x ≡ pr_created
created-status pr_created h = refl
created-status unverified h = absurd (cc)
created-status failed h = absurd (cc)
created-status skipped h = absurd (cc)

fixed-All : (rs : List FixOutcome) → All (λ r. r.status ≡ pr_created) (fixed rs)
unfolding fixed keep
fixed-All [] = tt
fixed-All (r ∷ rs) = elim (Bool-cases (is_pr_created r.status)) [
  | inl q ↦ rw q (created-status r.status q, fixed-All rs)
  | inr q ↦ rw q (fixed-All rs)
]

unfixed-All : (rs : List FixOutcome) → All (λ r. r.status ≢ pr_created) (unfixed rs)
unfolding unfixed keep
unfixed-All [] = tt
unfixed-All (r ∷ rs) = elim (Bool-cases (is_pr_created r.status)) [
  | inl q ↦ rw q (unfixed-All rs)
  | inr q ↦ rw q ((λ e. ground (arith, q, ap is_pr_created e)), unfixed-All rs)
]

-- the rows of the summary are one for each cluster to fix, in the order of the report, followed
-- by the outcomes that are of none of these clusters, all of them. The row of a cluster is an
-- outcome with its fingerprint, or a bare skip if there is none. Each row is in exactly one of
-- two sections: the fixed ones, whose status is that a pull request was created, and the unfixed
-- ones, whose status is another one.
pub attempted-rows :
    (report : WeeklyReport) (outcomes : List FixOutcome)
    → let rows = attempted report outcomes in
      ((own : List FixOutcome) × (foreign : List FixOutcome) × (rows ≡ own ++ foreign)
        × RowsFor outcomes report.to_fix own
        × AreForeign report.to_fix outcomes foreign)
      × Perm (fixed rows ++ unfixed rows) rows
      × All (λ r. r.status ≡ pr_created) (fixed rows)
      × All (λ r. r.status ≢ pr_created) (unfixed rows)
unfolding attempted
attempted-rows report outcomes =
    let rows = attempted report outcomes in
    (
      (
        map (outcome_for (outcomes_by_fingerprint [] outcomes)) report.to_fix,
        others report.to_fix outcomes,
        refl,
        outcomes_for-RowsFor outcomes report.to_fix,
        others-AreForeign report.to_fix outcomes,
      ),
      fixed_and_unfixed rows,
      fixed-All rows,
      unfixed-All rows,
    )
