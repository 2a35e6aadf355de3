-- ===== src/Selfheal/Ranking.antt =====
-- The two lists of a weekly report in src/tvastr/selfheal/report.py.
use mathlib.Core.List.Perm
use mathlib.Core.List.{Perm, perm_middle}
use tvastr_demo.Prelude.{
  ℕ, zero, suc, ◌≤◌, true, false, not, ◌≡◌, ◌≢◌, refl, sym, ap, arith, Bool, Bool-cases, keep,
  contains, length, length-take-le, take, List, [], ◌∷◌, ◌++◌, map, some, Text, text_eq, inl, inr,
  All, All-keep, All-take, Pairwise, Pairwise-take,
}
use tvastr_demo.Prelude.Dicts.{Dict, get, keys, HasUniqueKeys}
use tvastr_demo.Prelude.Sorting.{sort-IsSorted, sort-Pairwise, IsWeakOrder, IsSorted}
use tvastr_demo.Prelude.Strings.{text_ltb-asym, text_ltb-le_trans}
use tvastr_demo.Regex.{Regex}
use tvastr_demo.Selfheal.Report.{
  RankedCluster, Merged, ranks_above, rank_entry, rank, is_by_design, by_design_fingerprints,
  fixable, report_of,
}

abbrev Differ : RankedCluster → RankedCluster → Type 0
Differ a b = a.fingerprint ≢ b.fingerprint

contains-none : (a : Text) (ts : List Text) → All (λ t. a ≢ t) ts → contains a ts ≡ false
unfolding contains
contains-none a [] h = refl
contains-none a (t ∷ ts) (ne, h) = ground (arith, text_eq.same_iff a t, contains-none a ts h)

All-fingerprints :
    (c : RankedCluster) (cs : List RankedCluster)
    → All (Differ c) cs
    → All (λ t. c.fingerprint ≢ t) (map RankedCluster.fingerprint cs)
All-fingerprints c [] h = tt
All-fingerprints c (d ∷ cs) (ne, h) = (ne, All-fingerprints c cs h)

contains-first : (a : Text) (ts : List Text) → contains a (a ∷ ts) ≡ true
unfolding contains
contains-first a ts = ground (arith, text_eq.same_iff a a)

-- the clusters outside a list of fingerprints
outside : List RankedCluster → List RankedCluster → List RankedCluster
outside chosen = keep (λ c. not (contains c.fingerprint (map RankedCluster.fingerprint chosen)))

outside-nil : (cs : List RankedCluster) → outside [] cs ≡ cs
unfolding outside keep contains
outside-nil [] = refl
outside-nil (c ∷ cs) = ap (◌∷◌ c) (outside-nil cs)

-- A chosen cluster in front changes nothing for the clusters behind it.
outside-cons :
    (c : RankedCluster) (chosen cs : List RankedCluster)
    → All (Differ c) cs
    → outside (c ∷ chosen) cs ≡ outside chosen cs
unfolding outside keep contains
outside-cons c chosen [] h = refl
outside-cons c chosen (d ∷ cs) (ne, h) =
    ground (arith, text_eq.same_iff d.fingerprint c.fingerprint, outside-cons c chosen cs h)

outside-chosen :
    (c : RankedCluster) (chosen cs : List RankedCluster)
    → All (Differ c) cs
    → outside (c ∷ chosen) (c ∷ cs) ≡ outside chosen cs
unfolding outside keep
outside-chosen c chosen cs h =
    rw (contains-first c.fingerprint (map RankedCluster.fingerprint chosen))
      (outside-cons c chosen cs h)

outside-left :
    (c : RankedCluster) (chosen cs : List RankedCluster)
    → All (Differ c) chosen
    → outside chosen (c ∷ cs) ≡ c ∷ outside chosen cs
unfolding outside keep
outside-left c chosen cs h =
    rw
      (contains-none c.fingerprint (map RankedCluster.fingerprint chosen)
        (All-fingerprints c chosen h))
      refl

module _ (p : RankedCluster → Bool) where
  chosen_and_rest :
      (n : ℕ) (cs : List RankedCluster)
      → Pairwise Differ cs
      → let chosen = take n (keep p cs) in Perm (chosen ++ outside chosen cs) cs
  unfolding keep
  chosen_and_rest zero cs h = rw (outside-nil cs) (Perm.refl cs)
  chosen_and_rest (suc n) [] h = rw (outside-nil []) (Perm.refl [])
  chosen_and_rest (suc n) (c ∷ cs) (hc, h) = elim (Bool-cases (p c)) [
    | inl e ↦
        rw (e, outside-chosen c (take n (keep p cs)) cs hc) (Perm.cons c (chosen_and_rest n cs h))
    | inr e ↦
        let chosen = take (suc n) (keep p cs) in
        rw
          (
            e,
            outside-left c chosen cs
                (All-take (Differ c) (suc n) (keep p cs) (All-keep (Differ c) p cs hc)),
          )
          (Perm.trans (perm_middle chosen (outside chosen cs))
            (Perm.cons c (chosen_and_rest (suc n) cs h)))
  ]

ranks_above-IsWeakOrder : IsWeakOrder ranks_above
unfolding ranks_above
ranks_above-IsWeakOrder = record {
  asym = λ a b h. ground (arith, text_ltb-asym b.fingerprint a.fingerprint);
  le_trans =
      λ a b c h k. ground (arith, text_ltb-le_trans c.fingerprint b.fingerprint a.fingerprint);
}

module _ (re : Regex) where
  rank_entry-Differ :
      (e : Text × Merged) (merged : Dict Text Merged)
      → All (λ k. e.0 ≢ k) (keys merged)
      → All (Differ (rank_entry re e)) (map (rank_entry re) merged)
  unfolding rank_entry
  rank_entry-Differ e [] h = tt
  rank_entry-Differ e (d ∷ merged) (ne, h) = (ne, rank_entry-Differ e merged h)

  rank_entries-Differ :
      (merged : Dict Text Merged)
      → HasUniqueKeys merged
      → Pairwise Differ (map (rank_entry re) merged)
  rank_entries-Differ [] h = tt
  rank_entries-Differ (e ∷ merged) (he, h) =
      (rank_entry-Differ e merged he, rank_entries-Differ merged h)

  rank-Differ :
      (merged : Dict Text Merged) → HasUniqueKeys merged → Pairwise Differ (rank re merged)
  unfolding rank
  rank-Differ merged h =
      sort-Pairwise ranks_above Differ (λ a b ne q. ne (sym q)) (map (rank_entry re) merged)
        (rank_entries-Differ merged h)

  rank-IsSorted : (merged : Dict Text Merged) → IsSorted ranks_above (rank re merged)
  unfolding rank
  rank-IsSorted merged = sort-IsSorted ranks_above-IsWeakOrder (map (rank_entry re) merged)

  -- if the fingerprints of the merged entries differ, the clusters to fix and those to report
  -- only are together the first clusters of the ranking, each one once; at most the given number
  -- are to be fixed; and in the ranking no cluster stands behind one that it ranks above.
  pub report_of-Perm :
      (week : Text) (top_n fix_n : ℕ) (merged : Dict Text Merged) (days : List Text)
      → HasUniqueKeys merged
      → let r = report_of re week top_n fix_n merged days in
        Perm (r.to_fix ++ r.report_only) (take top_n (rank re merged))
        × (length r.to_fix ≤ fix_n)
        × IsSorted ranks_above (rank re merged)
  unfolding report_of fixable outside
  report_of-Perm week top_n fix_n merged days h = (
    chosen_and_rest (λ c. not (contains c.fingerprint (by_design_fingerprints re merged))) fix_n
        (take top_n (rank re merged))
        (Pairwise-take Differ top_n (rank re merged) (rank-Differ merged h)),
    length-take-le fix_n (fixable re merged (take top_n (rank re merged))),
    rank-IsSorted merged,
  )

  -- the cluster is not one that works as designed
  abbrev pub IsDefect : Dict Text Merged → RankedCluster → Type 0
  IsDefect merged c =
      (m : Merged)
      → get c.fingerprint merged ≡ some m
      → is_by_design re m.representative_message ≡ false

  outside-by_design_fingerprints :
      (fp : Text) (merged : Dict Text Merged) (m : Merged)
      → not (contains fp (by_design_fingerprints re merged)) ≡ true
      → get fp merged ≡ some m
      → is_by_design re m.representative_message ≡ false
  unfolding by_design_fingerprints keep contains get
  outside-by_design_fingerprints fp [] m h g = absurd (ground (arith, g))
  outside-by_design_fingerprints fp ((k, n) ∷ merged) m h g = ground (
    arith,
    text_eq.same_iff k fp,
    text_eq.same_iff fp k,
    outside-by_design_fingerprints fp merged m,
  )

  fixable-IsDefect :
      (merged : Dict Text Merged) (cs : List RankedCluster)
      → All (IsDefect merged) (fixable re merged cs)
  unfolding fixable keep
  fixable-IsDefect merged [] = tt
  fixable-IsDefect merged (c ∷ cs) =
      elim (Bool-cases (not (contains c.fingerprint (by_design_fingerprints re merged)))) [
        | inl q ↦ rw q (
          (λ m g. outside-by_design_fingerprints c.fingerprint merged m q g),
          fixable-IsDefect merged cs,
        )
        | inr q ↦ rw q (fixable-IsDefect merged cs)
      ]

  -- no cluster that the report gives to the fix wave has a merged message that matches a pattern
  -- of what works as designed.
  pub to_fix-IsDefect :
      (week : Text) (top_n fix_n : ℕ) (merged : Dict Text Merged) (days : List Text)
      → All (IsDefect merged) (report_of re week top_n fix_n merged days).to_fix
  unfolding report_of
  to_fix-IsDefect week top_n fix_n merged days =
      All-take (IsDefect merged) fix_n (fixable re merged (take top_n (rank re merged)))
        (fixable-IsDefect merged (take top_n (rank re merged)))
