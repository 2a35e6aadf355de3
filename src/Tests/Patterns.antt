-- ===== src/Tests/Patterns.antt =====
-- Detection at concrete inputs.
use tvastr_demo.Prelude.{◌≡◌, refl, not, ◌&&◌, List, [], ◌∷◌, All, keep, any, Text, text_eq, leb}
use tvastr_demo.Prelude.Dicts.{get, put}
use tvastr_demo.Prelude.Sorting.{sort}
use tvastr_demo.Prelude.Strings.{join}
use tvastr_demo.Domain.{FailurePattern, Sensitivity, internal, sensitive}
use tvastr_demo.Pii.{contains_pii}
use tvastr_demo.Detection.Clustering.{
  fingerprint, open_cluster, absorb, add_event, add_events, cluster_events, more_frequent, title_of,
  exception_type,
}
use tvastr_demo.Detection.Detector.{detect, classify, file_events, file_event, event_text}
use tvastr_demo.Detection.Threshold.{Engine, select, mark_handled}
use tvastr_demo.Detection.Grouping.{
  summary, has_fingerprint, get-clusters, IsClustering, cluster_events-IsClustering,
}
use tvastr_demo.Detection.Privacy.{IsClassified, detect-IsClassified}
use tvastr_demo.Detection.Dedup.{is_left_out, select-mark_handled}
use tvastr_demo.Tests.Samples.{sample_regex, sample_digest, sample_event, sample_events}

abbrev boom : Text
boom = fingerprint sample_regex sample_digest (sample_event 5 "boom")

-- two events of one failure, which come first, and one with PII
samples_of : List FailurePattern → List (List Text × Sensitivity)
samples_of [] = []
samples_of (p ∷ ps) = (p.sample_event_ids, p.sensitivity) ∷ samples_of ps

detect-sample_events :
    samples_of (detect sample_regex sample_digest sample_events)
    ≡ ((5 ∷ []) ∷ (9 ∷ []) ∷ [], internal) ∷ ((3 ∷ []) ∷ [], sensitive) ∷ []
unfolding samples_of detect cluster_events add_events add_event get put fingerprint exception_type
    open_cluster absorb title_of sort more_frequent classify file_events file_event event_text join
    contains_pii any
detect-sample_events = refl

get-clusters_example :
    get boom (add_events sample_regex sample_digest [] sample_events)
    ≡ summary sample_regex sample_digest
        (keep (has_fingerprint sample_regex sample_digest boom) sample_events)
get-clusters_example = get-clusters sample_regex sample_digest sample_events boom

cluster_events-IsClustering_example : IsClustering sample_regex sample_digest sample_events
cluster_events-IsClustering_example =
    cluster_events-IsClustering sample_regex sample_digest sample_events

detect-IsClassified_example :
    All
      (IsClassified sample_regex sample_digest sample_events)
      (detect sample_regex sample_digest sample_events)
detect-IsClassified_example = detect-IsClassified sample_regex sample_digest sample_events

abbrev sample_pattern : FailurePattern
sample_pattern = record (open_cluster sample_regex sample_digest (sample_event 5 "boom")) {
  count = 3;
}

abbrev sample_engine : Engine
sample_engine = record { recurrence_threshold = 3; dedup_window = 3600; handled = [] }

select-mark_handled_example :
    select (mark_handled sample_engine sample_pattern 100) (sample_pattern ∷ []) 200
    ≡ keep
        (λ q. leb 3 q.count && not (is_left_out sample_engine sample_pattern 100 q 200))
        (sample_pattern ∷ [])
select-mark_handled_example =
    select-mark_handled sample_engine sample_pattern (sample_pattern ∷ []) 100 200
