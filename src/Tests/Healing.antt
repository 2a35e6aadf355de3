-- ===== src/Tests/Healing.antt =====
-- The weekly report, the scheduler and the fix wave at concrete inputs.
use tvastr_demo.Prelude.{
  ℕ, ◌≤◌, true, false, any, keep, contains, length, take, List, [], ◌∷◌, ◌++◌, map, none, some,
  String, Text, codes, string_eq, text_eq, ◌≡◌, ◌≢◌, refl, All, Pairwise, if◌then◌else◌, Bool,
  arith,
}
use tvastr_demo.Prelude.Dicts.{Dict, get, put, HasUniqueKeys}
use tvastr_demo.Prelude.Sorting.{sort, IsSorted}
use tvastr_demo.Prelude.Strings.{is_infix, starts_with, text_ltb, text_min, text_max}
use mathlib.Core.List.{Perm}
use tvastr_demo.Regex.{Regex}
use tvastr_demo.Json.{string, lookup}
use tvastr_demo.Domain.{FailurePattern, internal}
use tvastr_demo.Events.{event, load_events, load_lines, PipelineEvent}
use tvastr_demo.Selfheal.Report.{
  DailyDigest, Merged, RankedCluster, WeeklyReport, rank, report_of, merge_days, merge_day,
  merge_clusters, merge_cluster, merged_entry, absorb_cluster, add_samples, ranks_above, fixable,
  by_design_fingerprints, is_by_design, is_handled_upstream, ops, rank_entry, weight_class,
  cluster_kind,
}
use tvastr_demo.Selfheal.Merging.{count_of, week_total, IsTidy, merge_days-IsMerge}
use tvastr_demo.Selfheal.Ranking.{IsDefect, report_of-Perm, to_fix-IsDefect}
use tvastr_demo.Selfheal.Scheduler.{
  Writes, Now, Cadence, SchedulerState, daily, weekly, tick, tick_daily, tick_weekly, fire,
  run_ticks,
}
use tvastr_demo.Selfheal.Scheduler.Firing.{Precedes, run_ticks-Precedes}
use tvastr_demo.Selfheal.Scheduler.Saving.{
  SavesFirst, jobs_of, up_to_failure, due_jobs, tick-SavesFirst,
}
use tvastr_demo.Selfheal.Remediate.{
  Settings, StartRun, Draw, FixOutcome, pr_created, attempt, settle, touch, read_outcome, status_of,
  pr_urls, add_urls, add_url, url_of,
}
use tvastr_demo.Selfheal.Remediate.Outcomes.{IsHonest, attempt-IsHonest}
use tvastr_demo.Selfheal.Remediate.Escalation.{attempted, fixed, unfixed}
use tvastr_demo.Selfheal.Remediate.Escalation.Rows.{RowsFor, AreForeign, attempted-rows}
use tvastr_demo.Tests.Samples.{sample_outside}

-- a stand-in for `re` that finds the text of a pattern
abbrev literal_regex : Regex
literal_regex = record {
  Pattern = String;
  compile = λ p _. p;
  finditer = λ p text. [];
  search = λ p text. if is_infix (codes p) text then some (0, 1) else none;
  sub = λ p repl text. text;
}

abbrev pattern_of : Text → Text → ℕ → ℕ → FailurePattern
pattern_of fp message count seen = record {
  id = fp;
  fingerprint = fp;
  title = message;
  representative_message = message;
  exception_type = none;
  count = count;
  sensitivity = internal;
  first_seen = seen;
  last_seen = seen;
  sample_event_ids = [];
}

-- two days: a timeout on both, and a refusal by design that is more frequent
abbrev sample_digests : Dict Text DailyDigest
sample_digests =
    (
      codes "mon",
      record {
        clusters = pattern_of (codes "t") (codes "timeout") 2 7 ∷ [];
        sample_messages = (codes "t", codes "timeout" ∷ []) ∷ [];
      },
    )
    ∷ (
      codes "tue",
      record {
        clusters =
            pattern_of (codes "t") (codes "timeout") 3 9
            ∷ pattern_of (codes "d") (codes "no error signature found") 200 9
            ∷ [];
        sample_messages = [];
      },
    )
    ∷ []

abbrev week_days : List Text
week_days = codes "mon" ∷ codes "tue" ∷ codes "wed" ∷ []

abbrev iso : ℕ → Text
iso n = n ∷ []

abbrev sample_merged : Dict Text Merged
sample_merged =
    (
      codes "t",
      record {
        title = codes "timeout";
        representative_message = codes "timeout";
        count = 5;
        first_seen = iso 7;
        last_seen = iso 9;
        sample_messages = codes "timeout" ∷ [];
      },
    )
    ∷ (
      codes "d",
      record {
        title = codes "no error signature found";
        representative_message = codes "no error signature found";
        count = 200;
        first_seen = iso 9;
        last_seen = iso 9;
        sample_messages = [];
      },
    )
    ∷ []

merge_days-sample_digests : merge_days iso sample_digests [] week_days ≡ sample_merged
unfolding merge_days merge_day merge_clusters merge_cluster merged_entry absorb_cluster add_samples
    get put text_ltb text_min text_max
merge_days-sample_digests = refl

merge_days-IsMerge_example :
    ((fp : Text)
      → count_of fp (merge_days iso sample_digests [] week_days)
        ≡ week_total fp sample_digests week_days)
    × IsTidy (merge_days iso sample_digests [] week_days)
merge_days-IsMerge_example = merge_days-IsMerge iso sample_digests week_days

sample_merged-HasUniqueKeys : HasUniqueKeys sample_merged
sample_merged-HasUniqueKeys = (((λ e. ground arith), tt), (tt, tt))

abbrev sample_report : WeeklyReport
sample_report = report_of literal_regex (codes "2026-W34") 10 3 sample_merged week_days

fingerprints_of : List RankedCluster → List Text
fingerprints_of = map RankedCluster.fingerprint

-- The refusal scores higher, and is not among those to fix.
report_of-sample_merged :
    (fingerprints_of sample_report.to_fix ≡ codes "t" ∷ [])
    × (fingerprints_of sample_report.report_only ≡ codes "d" ∷ [])
unfolding fingerprints_of report_of rank rank_entry weight_class is_by_design is_handled_upstream
    cluster_kind sort ranks_above fixable by_design_fingerprints keep contains any is_infix
    starts_with text_ltb
report_of-sample_merged = (refl, refl)

report_of-Perm_example :
    Perm
      (sample_report.to_fix ++ sample_report.report_only)
      (take 10 (rank literal_regex sample_merged))
    × (length sample_report.to_fix ≤ 3)
    × IsSorted ranks_above (rank literal_regex sample_merged)
report_of-Perm_example =
    report_of-Perm literal_regex (codes "2026-W34") 10 3 sample_merged week_days
      sample_merged-HasUniqueKeys

to_fix-IsDefect_example : All (IsDefect literal_regex sample_merged) sample_report.to_fix
to_fix-IsDefect_example =
    to_fix-IsDefect literal_regex (codes "2026-W34") 10 3 sample_merged week_days

abbrev cadence : Cadence
cadence = record { daily_hour = 2; weekly_day = 1 }

abbrev fresh_state : SchedulerState
fresh_state = record { last_daily_date = none; last_weekly_week = none }

abbrev can_write : Bool → Writes
can_write b = record { daily_write = b; weekly_write = b }

-- a Monday: too early, then twice in time, and the next day with a disk that is full
abbrev sample_ticks : List (Writes × Now)
sample_ticks =
    (can_write true, record { date = 739481; hour = 1 })
    ∷ (can_write true, record { date = 739481; hour = 2 })
    ∷ (can_write true, record { date = 739481; hour = 3 })
    ∷ (can_write false, record { date = 739482; hour = 2 })
    ∷ (can_write true, record { date = 739482; hour = 3 })
    ∷ []

-- The daily job of the last day is lost: the state has it before the write that fails.
run_ticks-sample_ticks :
    run_ticks cadence fresh_state sample_ticks ≡ daily 739480 ∷ weekly 105640 ∷ []
unfolding run_ticks tick tick_daily tick_weekly fire
run_ticks-sample_ticks = refl

abbrev two_ticks : List (Writes × Now)
two_ticks =
    (can_write true, record { date = 739481; hour = 2 })
    ∷ (can_write true, record { date = 739482; hour = 2 })
    ∷ []

run_ticks-Precedes_example : Pairwise Precedes (run_ticks cadence fresh_state two_ticks)
run_ticks-Precedes_example =
    run_ticks-Precedes cadence fresh_state two_ticks ((omega arith, tt), (tt, tt))
      ((tt, tt), ((tt, tt), tt))

-- the disk is full behind the daily job
abbrev one_write : Writes
one_write = record { daily_write = true; weekly_write = false }

abbrev sample_now : Now
sample_now = record { date = 739481; hour = 2 }

tick-one_write : (tick cadence one_write fresh_state sample_now).fired ≡ daily 739480 ∷ []
unfolding tick tick_daily tick_weekly fire
tick-one_write = refl

tick-SavesFirst_example :
    let t = tick cadence one_write fresh_state sample_now in
    SavesFirst one_write t.actions
    × (jobs_of t.actions ≡ up_to_failure one_write (due_jobs cadence fresh_state sample_now))
    × (t.fired ≡ jobs_of t.actions)
tick-SavesFirst_example = tick-SavesFirst cadence one_write fresh_state sample_now

abbrev wave_settings : Settings
wave_settings = record {
  github_repo = codes "testbed";
  recurrence_threshold = 3;
  dry_run = false;
  use_mocks = false;
  self_heal_repo = codes "own";
  self_heal_open_prs = true;
}

abbrev opened : PipelineEvent
opened = record {
  type = "pr.opened";
  layer = "output";
  step = "open_pr";
  payload = ("url", string (codes "u1")) ∷ [];
  timestamp = [];
  run_id = none;
}

-- a run that opens a pull request and then fails
abbrev sample_start : StartRun
sample_start events meta settings run_id runs = (
  put run_id
      (record {
        lines = event opened ∷ event (record opened { type = "error"; payload = [] }) ∷ [];
        is_readable = true;
        is_ended = true;
        is_writable = true;
        modified = 1;
      })
      runs,
  some [],
)

abbrev sample_draw : ℕ → Draw
sample_draw place = record { run_id = place ∷ []; can_touch = true }

abbrev timeout_cluster : RankedCluster
timeout_cluster = record {
  fingerprint = codes "t";
  title = codes "timeout";
  count = 5;
  weight = 100;
  score = 500;
  kind = ops;
  sample_messages = codes "timeout" ∷ [];
  first_seen = iso 7;
  last_seen = iso 9;
}

-- The pull request wins over the error.
attempt-status :
    (attempt sample_outside sample_start wave_settings timeout_cluster (sample_draw 0) []).1.status
    ≡ pr_created
unfolding attempt touch settle read_outcome status_of pr_urls add_urls add_url url_of load_events
    load_lines get put lookup contains
attempt-status = refl

attempt-IsHonest_example :
    IsHonest sample_outside sample_start wave_settings timeout_cluster
      (sample_draw 0)
      []
      (touch (0 ∷ []) true sample_outside.now [])
      (attempt sample_outside sample_start wave_settings timeout_cluster (sample_draw 0) [])
attempt-IsHonest_example =
    attempt-IsHonest sample_outside sample_start wave_settings timeout_cluster (sample_draw 0) []

abbrev one_to_fix : WeeklyReport
one_to_fix = record {
  week = codes "2026-W34";
  to_fix = timeout_cluster ∷ [];
  report_only = [];
  days_scanned = week_days;
}

-- the outcome of a cluster that is not to be fixed
abbrev foreign_outcome : FixOutcome
foreign_outcome = record {
  fingerprint = codes "f";
  title = codes "refused";
  run_id = none;
  status = pr_created;
  pr_url = some (codes "u1");
  pr_urls = codes "u1" ∷ [];
}

attempted-rows_example :
    let outcomes = foreign_outcome ∷ [] in
    let rows = attempted one_to_fix outcomes in
    ((own : List FixOutcome) × (foreign : List FixOutcome) × (rows ≡ own ++ foreign)
      × RowsFor outcomes (timeout_cluster ∷ []) own
      × AreForeign (timeout_cluster ∷ []) outcomes foreign)
    × Perm (fixed rows ++ unfixed rows) rows
    × All (λ r. r.status ≡ pr_created) (fixed rows)
    × All (λ r. r.status ≢ pr_created) (unfixed rows)
attempted-rows_example = attempted-rows one_to_fix (foreign_outcome ∷ [])
