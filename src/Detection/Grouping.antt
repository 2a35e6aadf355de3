-- ===== src/Detection/Grouping.antt =====
-- Clustering against its specification: group the events by fingerprint first, then summarise
-- each group on its own.
use tvastr_demo.Prelude.{
  ℕ, suc, ◌+◌, ◌≤◌, ◌≡◌, refl, ap, ◌∙◌, Bool, if◌then◌else◌, List, [], ◌∷◌, Option, none, some,
  length, All, keep, arith, Text, text_eq, ◌==◌, Bool-cases, Option-cases, inl, inr, length-append,
}
use tvastr_demo.Prelude.Dicts.{Dict, get, put, values, HasUniqueKeys, get-put, put-HasUniqueKeys}
use mathlib.Core.List.{Perm, Permᴰ}
use mathlib.Core.Logic.{∥∥₁_elim}
use native.Mathlib.Nat.{ℕ_set}
use tvastr_demo.Prelude.Sorting.{sort-perm, IsSorted, sort-IsSorted, IsWeakOrder}
use tvastr_demo.Regex.{Regex}
use tvastr_demo.Domain.{LogEvent, FailurePattern}
use tvastr_demo.Detection.Clustering.{
  Digest, fingerprint, open_cluster, absorb, add_event, add_events, more_frequent, cluster_events,
}

-- all events of a cluster that is there already
abbrev pub absorb_all : FailurePattern → List LogEvent → FailurePattern
absorb_all c [] = c
absorb_all c (e ∷ es) = absorb_all (absorb c e) es

-- the pattern of one group of events, in order
abbrev pub summary : Regex → Digest → List LogEvent → Option FailurePattern
summary re d [] = none
summary re d (e ∷ es) = some (absorb_all (open_cluster re d e) es)

-- the pattern so far, with more events of its group
abbrev extend : Regex → Digest → Option FailurePattern → List LogEvent → Option FailurePattern
extend re d none es = summary re d es
extend re d (some c) es = some (absorb_all c es)

module _ (re : Regex) (d : Digest) where
  abbrev pub has_fingerprint : Text → LogEvent → Bool
  has_fingerprint fp e = fingerprint re d e == fp

  -- the entry that an event leaves
  entry : Option FailurePattern → LogEvent → FailurePattern
  entry none e = open_cluster re d e
  entry (some c) e = absorb c e

  add_event-put :
      (clusters : Dict Text FailurePattern) (e : LogEvent)
      → add_event re d clusters e
        ≡ put (fingerprint re d e) (entry (get (fingerprint re d e) clusters) e) clusters
  unfolding add_event entry
  add_event-put clusters e = elim (Option-cases (get (fingerprint re d e) clusters)) [
    | inl h ↦ rw (h, add_event)
    | inr (c, h) ↦ rw (h, add_event)
  ]

  extend-entry :
      (o : Option FailurePattern) (e : LogEvent) (es : List LogEvent)
      → extend re d (some (entry o e)) es ≡ extend re d o (e ∷ es)
  unfolding entry
  extend-entry none e es = refl
  extend-entry (some c) e es = refl

  get-add_event :
      (clusters : Dict Text FailurePattern) (e : LogEvent) (fp : Text)
      → get fp (add_event re d clusters e)
        ≡ (if has_fingerprint fp e then some (entry (get fp clusters) e) else get fp clusters)
  get-add_event clusters e fp =
      rw (add_event-put clusters e, get-put (fingerprint re d e) fp)
        (elim (Bool-cases (has_fingerprint fp e)) [
          | inl h ↦ rw (h, (text_eq.same_iff (fingerprint re d e) fp).0 h)
          | inr h ↦ rw h
        ])

  get-add_events :
      (clusters : Dict Text FailurePattern) (events : List LogEvent) (fp : Text)
      → get fp (add_events re d clusters events)
        ≡ extend re d (get fp clusters) (keep (has_fingerprint fp) events)
  unfolding add_events keep
  get-add_events clusters [] fp = elim (Option-cases (get fp clusters)) [
    | inl h ↦ rw h
    | inr (c, h) ↦ rw h
  ]
  get-add_events clusters (e ∷ es) fp = elim (Bool-cases (has_fingerprint fp e)) [
    | inl h ↦
        get-add_events (add_event re d clusters e) es fp
        ∙ rw (get-add_event clusters e fp, h)
            (extend-entry (get fp clusters) e (keep (has_fingerprint fp) es))
    | inr h ↦ get-add_events (add_event re d clusters e) es fp ∙ rw (get-add_event clusters e fp, h)
  ]

  add_events-HasUniqueKeys :
      (clusters : Dict Text FailurePattern) (events : List LogEvent)
      → HasUniqueKeys clusters
      → HasUniqueKeys (add_events re d clusters events)
  unfolding add_events
  add_events-HasUniqueKeys clusters [] h = h
  add_events-HasUniqueKeys clusters (e ∷ es) h =
      add_events-HasUniqueKeys (add_event re d clusters e) es
        (rw (add_event-put clusters e) (put-HasUniqueKeys (fingerprint re d e) _ clusters h))

  -- the table of clusters has, for each fingerprint, the summary of the events with that
  -- fingerprint, in their order, and no entry where there are none.
  pub get-clusters :
      (events : List LogEvent) (fp : Text)
      → get fp (add_events re d [] events) ≡ summary re d (keep (has_fingerprint fp) events)
  unfolding get
  get-clusters events fp = get-add_events [] events fp

-- What a pattern says of the events of its group: the first one and the others.
pub record IsSummaryOf (c : FailurePattern) (e : LogEvent) (es : List LogEvent) : Type 0 where
  pub counted : c.count ≡ suc (length es)
  pub since : All (λ (x : LogEvent). c.first_seen ≤ x.timestamp) (e ∷ es)
  pub until : All (λ (x : LogEvent). x.timestamp ≤ c.last_seen) (e ∷ es)
  pub few_samples : length c.sample_event_ids ≤ 5
  pub representative : c.representative_message ≡ e.message

absorb_all-counts :
    (c : FailurePattern) (es : List LogEvent) → (absorb_all c es).count ≡ c.count + length es
unfolding absorb
absorb_all-counts c [] = omega arith
absorb_all-counts c (e ∷ es) = omega (arith, absorb_all-counts (absorb c e) es)

absorb_all-first_le :
    (c : FailurePattern) (es : List LogEvent) → (absorb_all c es).first_seen ≤ c.first_seen
unfolding absorb
absorb_all-first_le c [] = omega arith
absorb_all-first_le c (e ∷ es) = omega (arith, absorb_all-first_le (absorb c e) es)

absorb_all-last_le :
    (c : FailurePattern) (es : List LogEvent) → c.last_seen ≤ (absorb_all c es).last_seen
unfolding absorb
absorb_all-last_le c [] = omega arith
absorb_all-last_le c (e ∷ es) = omega (arith, absorb_all-last_le (absorb c e) es)

absorb_all-since :
    (c : FailurePattern) (es : List LogEvent)
    → All (λ (x : LogEvent). (absorb_all c es).first_seen ≤ x.timestamp) es
unfolding absorb
absorb_all-since c [] = tt
absorb_all-since c (e ∷ es) =
    (omega (arith, absorb_all-first_le (absorb c e) es), absorb_all-since (absorb c e) es)

absorb_all-until :
    (c : FailurePattern) (es : List LogEvent)
    → All (λ (x : LogEvent). x.timestamp ≤ (absorb_all c es).last_seen) es
unfolding absorb
absorb_all-until c [] = tt
absorb_all-until c (e ∷ es) =
    (omega (arith, absorb_all-last_le (absorb c e) es), absorb_all-until (absorb c e) es)

absorb_all-few :
    (c : FailurePattern) (es : List LogEvent)
    → length c.sample_event_ids ≤ 5
    → length (absorb_all c es).sample_event_ids ≤ 5
absorb_all-few c [] h = h
absorb_all-few c (e ∷ es) h =
    absorb_all-few (absorb c e) es
      (unfold absorb in ground (arith, length-append c.sample_event_ids (e.id ∷ [])))

absorb_all-representative :
    (c : FailurePattern) (es : List LogEvent)
    → (absorb_all c es).representative_message ≡ c.representative_message
unfolding absorb
absorb_all-representative c [] = refl
absorb_all-representative c (e ∷ es) = absorb_all-representative (absorb c e) es

-- the summary of a group counts all its events, spans their instants, keeps five sample
-- identifiers at most, and has the message of the first event.
pub summary-IsSummaryOf :
    (re : Regex) (d : Digest) (e : LogEvent) (es : List LogEvent)
    → IsSummaryOf (absorb_all (open_cluster re d e) es) e es
unfolding open_cluster
summary-IsSummaryOf re d e es =
    let c = open_cluster re d e in
    record {
      counted = omega (arith, absorb_all-counts c es);
      since = (omega (arith, absorb_all-first_le c es), absorb_all-since c es);
      until = (omega (arith, absorb_all-last_le c es), absorb_all-until c es);
      few_samples = absorb_all-few c es (omega arith);
      representative = absorb_all-representative c es;
    }

-- the number of events in all clusters
abbrev pub total : List FailurePattern → ℕ
total [] = 0
total (c ∷ cs) = c.count + total cs

abbrev old_count : Option FailurePattern → ℕ
old_count none = 0
old_count (some c) = c.count

total-put :
    (fp : Text) (c : FailurePattern) (clusters : Dict Text FailurePattern)
    → total (values (put fp c clusters)) + old_count (get fp clusters)
      ≡ total (values clusters) + c.count
unfolding put get
total-put fp c [] = omega arith
total-put fp c ((k, v) ∷ clusters) = elim (Bool-cases (k == fp)) [
  | inl h ↦ rw h (omega arith)
  | inr h ↦ rw h (omega (arith, total-put fp c clusters))
]

module _ (re : Regex) (d : Digest) where
  entry-counts :
      (o : Option FailurePattern) (e : LogEvent) → (entry re d o e).count ≡ old_count o + 1
  unfolding entry open_cluster absorb
  entry-counts none e = omega arith
  entry-counts (some c) e = omega arith

  total-add_events :
      (clusters : Dict Text FailurePattern) (events : List LogEvent)
      → total (values (add_events re d clusters events)) ≡ total (values clusters) + length events
  unfolding add_events
  total-add_events clusters [] = omega arith
  total-add_events clusters (e ∷ es) =
      let fp = fingerprint re d e in
      omega (
        arith,
        total-add_events (add_event re d clusters e) es,
        ap (λ t. total (values t)) (add_event-put re d clusters e),
        total-put fp (entry re d (get fp clusters) e) clusters,
        entry-counts (get fp clusters) e,
      )

more_frequent-IsWeakOrder : IsWeakOrder more_frequent
unfolding more_frequent
more_frequent-IsWeakOrder = record {
  asym = λ a b h. ground arith;
  le_trans = λ a b c h k. ground arith;
}

total-permᴰ : {xs ys : List FailurePattern} → Permᴰ xs ys → total xs ≡ total ys
total-permᴰ Permᴰ.nil = refl
total-permᴰ (Permᴰ.cons h p) = omega (arith, ap (λ (c : FailurePattern). c.count) h, total-permᴰ p)
total-permᴰ (Permᴰ.swap h k) =
    omega (arith, ap (λ (c : FailurePattern). c.count) h, ap (λ (c : FailurePattern). c.count) k)
total-permᴰ (Permᴰ.trans p q) = total-permᴰ p ∙ total-permᴰ q

total-perm : {xs ys : List FailurePattern} → Perm xs ys → total xs ≡ total ys
total-perm p = ∥∥₁_elim p (ℕ_set _ _) total-permᴰ

-- Clustering neither loses nor repeats an event: the counts of the patterns add up to the number
-- of events. The patterns are those of the table, whose fingerprints are all different, and no
-- pattern stands behind a less frequent one.
pub record IsClustering (re : Regex) (d : Digest) (events : List LogEvent) : Type 0 where
  pub conserves : total (cluster_events re d events) ≡ length events
  pub in_table : Perm (cluster_events re d events) (values (add_events re d [] events))
  pub unique : HasUniqueKeys (add_events re d [] events)
  pub by_frequency : IsSorted more_frequent (cluster_events re d events)

-- the counts of the patterns add up to the number of events; the patterns are those of the table,
-- whose keys are all different; and no pattern stands behind a less frequent one.
pub cluster_events-IsClustering :
    (re : Regex) (d : Digest) (events : List LogEvent) → IsClustering re d events
unfolding cluster_events
cluster_events-IsClustering re d events =
    let table = values (add_events re d [] events) in
    record {
      conserves =
          total-perm (sort-perm more_frequent table)
          ∙ total-add_events re d [] events
          ∙ omega arith;
      in_table = sort-perm more_frequent table;
      unique = add_events-HasUniqueKeys re d [] events tt;
      by_frequency = sort-IsSorted more_frequent-IsWeakOrder table;
    }
