-- ===== src/Selfheal/Report.antt =====
-- src/tvastr/selfheal/report.py: the digests of a week become one ranked report. A weight and a
-- score are in hundredths, since every weight is a number of hundredths.
use tvastr_demo.Prelude.{
  ℕ, ◌+◌, ◌*◌, Bool, true, false, ◌&&◌, ◌||◌, not, ltb, nat_beq, if◌then◌else◌, any, keep, contains,
  length, leb, take, default_to, is_some, List, [], ◌∷◌, ◌++◌, map, Option, none, some, Text, codes,
  text_eq,
}
use tvastr_demo.Prelude.Dicts.{Dict, get, put}
use tvastr_demo.Prelude.Sorting.{sort}
use tvastr_demo.Prelude.Strings.{is_infix, text_ltb, text_min, text_max}
use tvastr_demo.Regex.{Regex}
use tvastr_demo.Domain.{FailurePattern}

-- a digest as `load_daily` reads it, of a day that has one
pub record DailyDigest : Type 0 where
  pub clusters : List FailurePattern
  pub sample_messages : Dict Text (List Text)

pub data Kind : Type 0 where
  quality ops : Kind

pub data WeightClass : Type 0 where
  of_kind : Kind → WeightClass
  handled_upstream by_design : WeightClass

-- `SEVERITY_WEIGHTS`
abbrev pub severity_weight : WeightClass → ℕ
severity_weight (of_kind quality) = 300
severity_weight (of_kind ops) = 100
severity_weight handled_upstream = 25
severity_weight by_design = 5

unfoldable pub cluster_kind : Text → Kind
cluster_kind message =
    if is_infix (codes "investigator returned confidence 0.0") message
      || is_infix (codes "verify verdict repro_broken") message
    then quality
    else ops

-- `_Merged`
pub record Merged : Type 0 where
  pub title : Text
  pub representative_message : Text
  pub count : ℕ
  pub first_seen : Text
  pub last_seen : Text
  pub sample_messages : List Text

-- the loop of `_Merged.absorb`
unfoldable pub add_samples : List Text → List Text → List Text
add_samples kept [] = kept
add_samples kept (sample ∷ samples) =
    let next = add_samples (if contains sample kept then kept else kept ++ sample ∷ []) samples in
    if leb 3 (length kept) then kept else next

-- `_Merged.absorb`
unfoldable pub absorb_cluster : ℕ → Text → Text → List Text → Merged → Merged
absorb_cluster count first_seen last_seen samples m = record m {
  count = m.count + count;
  first_seen = text_min m.first_seen first_seen;
  last_seen = text_max m.last_seen last_seen;
  sample_messages = add_samples m.sample_messages samples;
}

pub record RankedCluster : Type 0 where
  pub fingerprint : Text
  pub title : Text
  pub count : ℕ
  pub weight : ℕ
  pub score : ℕ
  pub kind : Kind
  pub sample_messages : List Text
  pub first_seen : Text
  pub last_seen : Text

pub record WeeklyReport : Type 0 where
  pub week : Text
  pub to_fix : List RankedCluster
  pub report_only : List RankedCluster
  pub days_scanned : List Text

-- the order of `key=lambda c: (c.score, c.count, c.fingerprint), reverse=True`
unfoldable pub ranks_above : RankedCluster → RankedCluster → Bool
ranks_above a b =
    ltb b.score a.score
    || (nat_beq a.score b.score
        && (ltb b.count a.count
            || (nat_beq a.count b.count && text_ltb b.fingerprint a.fingerprint)))

-- what becomes of the entry of a cluster; `isoformat` is that of `datetime`
unfoldable pub merged_entry : (ℕ → Text) → List Text → FailurePattern → Option Merged → Merged
merged_entry isoformat samples c none = record {
  title = c.title;
  representative_message = c.representative_message;
  count = c.count;
  first_seen = isoformat c.first_seen;
  last_seen = isoformat c.last_seen;
  sample_messages = take 3 samples;
}
merged_entry isoformat samples c (some m) =
    absorb_cluster c.count (isoformat c.first_seen) (isoformat c.last_seen) samples m

-- the body of the inner loop, for one cluster of a digest, and the loop
unfoldable pub merge_cluster :
    (ℕ → Text) → Dict Text (List Text) → Dict Text Merged → FailurePattern → Dict Text Merged
merge_cluster isoformat sample_messages merged c =
    let samples = default_to [] (get c.fingerprint sample_messages) in
    put c.fingerprint (merged_entry isoformat samples c (get c.fingerprint merged)) merged

unfoldable pub merge_clusters :
    (ℕ → Text) → Dict Text (List Text) → Dict Text Merged → List FailurePattern → Dict Text Merged
merge_clusters isoformat samples merged [] = merged
merge_clusters isoformat samples merged (c ∷ cs) =
    merge_clusters isoformat samples (merge_cluster isoformat samples merged c) cs

-- the body of the loop over the days of the week, and the loop; a day without a digest is
-- passed over
unfoldable pub merge_day : (ℕ → Text) → Dict Text Merged → Option DailyDigest → Dict Text Merged
merge_day isoformat merged none = merged
merge_day isoformat merged (some d) = merge_clusters isoformat d.sample_messages merged d.clusters

unfoldable pub merge_days :
    (ℕ → Text) → Dict Text DailyDigest → Dict Text Merged → List Text → Dict Text Merged
merge_days isoformat digests merged [] = merged
merge_days isoformat digests merged (day ∷ days) =
    merge_days isoformat digests (merge_day isoformat merged (get day digests)) days

module _ (re : Regex) where
  open re use {Pattern, compile, search}

  abbrev handled_patterns : List Pattern
  handled_patterns = compile "GitHub .* failed \\(\\d+" false ∷ compile "rate[ -]?limit" true ∷ []

  abbrev by_design_patterns : List Pattern
  by_design_patterns = compile "no error signature found" false ∷ []

  unfoldable pub is_handled_upstream : Text → Bool
  is_handled_upstream message = any (λ p. is_some (search p message)) handled_patterns

  unfoldable pub is_by_design : Text → Bool
  is_by_design message = any (λ p. is_some (search p message)) by_design_patterns

  unfoldable pub weight_class : Text → WeightClass
  weight_class message =
      if is_by_design message
      then by_design
      else if is_handled_upstream message
      then handled_upstream
      else of_kind (cluster_kind message)

  -- the body of the loop of `_rank`
  unfoldable pub rank_entry : Text × Merged → RankedCluster
  rank_entry (fingerprint, m) = record {
    fingerprint = fingerprint;
    title = m.title;
    count = m.count;
    weight = severity_weight (weight_class m.representative_message);
    score = m.count * severity_weight (weight_class m.representative_message);
    kind = cluster_kind m.representative_message;
    sample_messages = m.sample_messages;
    first_seen = m.first_seen;
    last_seen = m.last_seen;
  }

  -- `_rank`
  unfoldable pub rank : Dict Text Merged → List RankedCluster
  rank merged = sort ranks_above (map rank_entry merged)

  -- the set `by_design` of fingerprints
  unfoldable pub by_design_fingerprints : Dict Text Merged → List Text
  by_design_fingerprints merged =
      map (λ e. e.0) (keep (λ e. is_by_design e.1.representative_message) merged)

  -- the two lists of the report, of the ranked clusters
  unfoldable pub fixable : Dict Text Merged → List RankedCluster → List RankedCluster
  fixable merged = keep (λ c. not (contains c.fingerprint (by_design_fingerprints merged)))

  unfoldable pub report_of : Text → ℕ → ℕ → Dict Text Merged → List Text → WeeklyReport
  report_of week top_n fix_n merged days =
      let ranked = take top_n (rank merged) in
      let chosen = take fix_n (fixable merged ranked) in
      record {
        week = week;
        to_fix = chosen;
        report_only =
            keep (λ c. not (contains c.fingerprint (map RankedCluster.fingerprint chosen))) ranked;
        days_scanned = days;
      }

  -- `consolidate_week`, of the days of the week
  unfoldable pub consolidate_week :
      (ℕ → Text) → Dict Text DailyDigest → Text → List Text → ℕ → ℕ → WeeklyReport
  consolidate_week isoformat digests week days top_n fix_n =
      report_of week top_n fix_n (merge_days isoformat digests [] days)
        (keep (λ day. is_some (get day digests)) days)
