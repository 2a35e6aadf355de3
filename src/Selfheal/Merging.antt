-- ===== src/Selfheal/Merging.antt =====
-- The merge of the digests of a week in src/tvastr/selfheal/report.py.
use tvastr_demo.Prelude.{
  ℕ, ◌+◌, ◌≤◌, leb, false, if◌then◌else◌, Bool-cases, length, length-append, length-take-le,
  contains, List, [], ◌∷◌, ◌++◌, Option, none, some, Text, text_eq, ◌==◌, ◌≡◌, refl, arith, inl,
  inr, default_to, All,
}
use tvastr_demo.Prelude.Dicts.{
  Dict, get, get-put, All-values-put, values, HasUniqueKeys, put-HasUniqueKeys, get-All,
}
use tvastr_demo.Domain.{FailurePattern}
use tvastr_demo.Selfheal.Report.{
  DailyDigest, Merged, add_samples, absorb_cluster, merged_entry, merge_cluster, merge_clusters,
  merge_day, merge_days,
}

-- how often a fingerprint was seen
abbrev pub count_of : Text → Dict Text Merged → ℕ
count_of fp merged = elim (get fp merged) [ none ↦ 0 | some m ↦ m.count ]

abbrev pub cluster_total : Text → List FailurePattern → ℕ
cluster_total fp [] = 0
cluster_total fp (c ∷ cs) = (if c.fingerprint == fp then c.count else 0) + cluster_total fp cs

abbrev pub digest_total : Text → Option DailyDigest → ℕ
digest_total fp none = 0
digest_total fp (some d) = cluster_total fp d.clusters

abbrev pub week_total : Text → Dict Text DailyDigest → List Text → ℕ
week_total fp digests [] = 0
week_total fp digests (day ∷ days) = digest_total fp (get day digests) + week_total fp digests days

module _ (isoformat : ℕ → Text) where
  merged_entry-count :
      (samples : List Text) (c : FailurePattern) (m : Option Merged)
      → (merged_entry isoformat samples c m).count
        ≡ elim m [ none ↦ 0 | some n ↦ n.count ] + c.count
  unfolding merged_entry absorb_cluster
  merged_entry-count samples c none = omega arith
  merged_entry-count samples c (some m) = refl

  count_of-merge_cluster :
      (fp : Text) (samples : Dict Text (List Text)) (merged : Dict Text Merged) (c : FailurePattern)
      → count_of fp (merge_cluster isoformat samples merged c)
        ≡ count_of fp merged + (if c.fingerprint == fp then c.count else 0)
  unfolding merge_cluster
  count_of-merge_cluster fp samples merged c =
      let kept = default_to [] (get c.fingerprint samples) in
      let entry = merged_entry isoformat kept c (get c.fingerprint merged) in
      ground (
        arith,
        merged_entry-count kept c (get c.fingerprint merged),
        get-put c.fingerprint fp entry merged,
        text_eq.same_iff c.fingerprint fp,
      )

  count_of-merge_clusters :
      (fp : Text) (samples : Dict Text (List Text)) (merged : Dict Text Merged)
      (cs : List FailurePattern)
      → count_of fp (merge_clusters isoformat samples merged cs)
        ≡ count_of fp merged + cluster_total fp cs
  unfolding merge_clusters
  count_of-merge_clusters fp samples merged [] = omega arith
  count_of-merge_clusters fp samples merged (c ∷ cs) = omega (
    arith,
    count_of-merge_clusters fp samples (merge_cluster isoformat samples merged c) cs,
    count_of-merge_cluster fp samples merged c,
  )

  count_of-merge_day :
      (fp : Text) (merged : Dict Text Merged) (d : Option DailyDigest)
      → count_of fp (merge_day isoformat merged d) ≡ count_of fp merged + digest_total fp d
  unfolding merge_day
  count_of-merge_day fp merged none = omega arith
  count_of-merge_day fp merged (some d) =
      count_of-merge_clusters fp d.sample_messages merged d.clusters

  count_of-merge_days_from :
      (fp : Text) (digests : Dict Text DailyDigest) (merged : Dict Text Merged) (days : List Text)
      → count_of fp (merge_days isoformat digests merged days)
        ≡ count_of fp merged + week_total fp digests days
  unfolding merge_days
  count_of-merge_days_from fp digests merged [] = omega arith
  count_of-merge_days_from fp digests merged (day ∷ days) = omega (
    arith,
    count_of-merge_days_from fp digests (merge_day isoformat merged (get day digests)) days,
    count_of-merge_day fp merged (get day digests),
  )

-- what a merged entry keeps of the samples
abbrev pub HasFewSamples : Merged → Type 0
HasFewSamples m = length m.sample_messages ≤ 3

abbrev pub IsTidy : Dict Text Merged → Type 0
IsTidy merged = HasUniqueKeys merged × All HasFewSamples (values merged)

add_sample-length :
    (kept : List Text) (s : Text)
    → leb 3 (length kept) ≡ false
    → length (if contains s kept then kept else kept ++ s ∷ []) ≤ 3
add_sample-length kept s h = ground (arith, length-append kept (s ∷ []))

add_samples-length :
    (kept samples : List Text) → length kept ≤ 3 → length (add_samples kept samples) ≤ 3
unfolding add_samples
add_samples-length kept [] h = h
add_samples-length kept (s ∷ samples) h = elim (Bool-cases (leb 3 (length kept))) [
  | inl q ↦ rw (q, add_samples) h
  | inr q ↦
      rw (q, add_samples)
        (add_samples-length (if contains s kept then kept else kept ++ s ∷ []) samples
          (add_sample-length kept s q))
]

module _ (isoformat : ℕ → Text) where
  merged_entry-HasFewSamples :
      (samples : List Text) (c : FailurePattern) (old : Option Merged)
      → ((m : Merged) → old ≡ some m → HasFewSamples m)
      → HasFewSamples (merged_entry isoformat samples c old)
  unfolding merged_entry absorb_cluster
  merged_entry-HasFewSamples samples c none h = length-take-le 3 samples
  merged_entry-HasFewSamples samples c (some m) h =
      add_samples-length m.sample_messages samples (h m refl)

  merge_cluster-IsTidy :
      (samples : Dict Text (List Text)) (merged : Dict Text Merged) (c : FailurePattern)
      → IsTidy merged
      → IsTidy (merge_cluster isoformat samples merged c)
  unfolding merge_cluster
  merge_cluster-IsTidy samples merged c (unique, few) =
      let kept = default_to [] (get c.fingerprint samples) in
      let entry = merged_entry isoformat kept c (get c.fingerprint merged) in
      (
        put-HasUniqueKeys c.fingerprint entry merged unique,
        All-values-put HasFewSamples c.fingerprint entry merged
            (merged_entry-HasFewSamples kept c (get c.fingerprint merged)
              (λ m q. get-All HasFewSamples c.fingerprint merged m q few))
            few,
      )

  merge_clusters-IsTidy :
      (samples : Dict Text (List Text)) (merged : Dict Text Merged) (cs : List FailurePattern)
      → IsTidy merged
      → IsTidy (merge_clusters isoformat samples merged cs)
  unfolding merge_clusters
  merge_clusters-IsTidy samples merged [] h = h
  merge_clusters-IsTidy samples merged (c ∷ cs) h =
      merge_clusters-IsTidy samples (merge_cluster isoformat samples merged c) cs
        (merge_cluster-IsTidy samples merged c h)

  merge_day-IsTidy :
      (merged : Dict Text Merged) (d : Option DailyDigest)
      → IsTidy merged
      → IsTidy (merge_day isoformat merged d)
  unfolding merge_day
  merge_day-IsTidy merged none h = h
  merge_day-IsTidy merged (some d) h = merge_clusters-IsTidy d.sample_messages merged d.clusters h

  merge_days-IsTidy :
      (digests : Dict Text DailyDigest) (merged : Dict Text Merged) (days : List Text)
      → IsTidy merged
      → IsTidy (merge_days isoformat digests merged days)
  unfolding merge_days
  merge_days-IsTidy digests merged [] h = h
  merge_days-IsTidy digests merged (day ∷ days) h =
      merge_days-IsTidy digests (merge_day isoformat merged (get day digests)) days
        (merge_day-IsTidy merged (get day digests) h)

  -- in the merge of a week, the count of each fingerprint is the sum of its counts over the
  -- clusters of the scanned days; the fingerprints differ; and no entry keeps more than three
  -- samples.
  pub merge_days-IsMerge :
      (digests : Dict Text DailyDigest) (days : List Text)
      → ((fp : Text)
          → count_of fp (merge_days isoformat digests [] days) ≡ week_total fp digests days)
        × IsTidy (merge_days isoformat digests [] days)
  unfolding get
  merge_days-IsMerge digests days = (
    λ fp. omega (arith, count_of-merge_days_from isoformat fp digests [] days),
    merge_days-IsTidy digests [] days (tt, tt),
  )
