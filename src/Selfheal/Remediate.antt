-- ===== src/Selfheal/Remediate.antt =====
-- src/tvastr/selfheal/remediate.py: the fix wave over the clusters of a weekly report, and the
-- summary of it.
pub mod Outcomes
pub mod Escalation
use tvastr_demo.Prelude.{
  ℕ, ◌+◌, Bool, true, false, ◌&&◌, ◌||◌, not, if◌then◌else◌, any, keep, contains, is_empty, length,
  default_to, List, [], ◌∷◌, ◌++◌, map, Option, none, some, is_some, Text, codes, ◌==◌, text_eq,
  string_eq,
}
use tvastr_demo.Prelude.Dicts.{Dict, get, put}
use tvastr_demo.Prelude.Strings.{strip}
use tvastr_demo.Json.{Value, null, bool, string, Payload, truthy, to_text, lookup}
use tvastr_demo.Domain.{LogEvent, error}
use tvastr_demo.Events.{PipelineEvent, RunFile, load_events, is_terminal_event}
use tvastr_demo.Selfheal.Scan.{Outside}
use tvastr_demo.Selfheal.Report.{RankedCluster, WeeklyReport}

pub data Status : Type 0 where
  pr_created unverified failed skipped : Status

pub record FixOutcome : Type 0 where
  pub fingerprint : Text
  pub title : Text
  pub run_id : Option Text
  pub status : Status
  pub pr_url : Option Text
  pub pr_urls : List Text

-- the URL that an event gives, `url` of the source's loop
unfoldable pub url_of : PipelineEvent → Value
url_of e =
    if e.type == "pr.opened"
    then lookup "url" e.payload
    else if e.type == "audit.saved"
    then lookup "pull_request_url" e.payload
    else null

-- the body of the loop of `_pr_urls`, and the loop with `urls` as accumulator
unfoldable pub add_url : (Value → Text) → List Text → PipelineEvent → List Text
add_url show urls e =
    let url = to_text show (url_of e) in
    if truthy (url_of e) && not (contains url urls) then urls ++ url ∷ [] else urls

unfoldable pub add_urls : (Value → Text) → List Text → List PipelineEvent → List Text
add_urls show urls [] = urls
add_urls show urls (e ∷ es) = add_urls show (add_url show urls e) es

unfoldable pub pr_urls : (Value → Text) → List PipelineEvent → List Text
pr_urls show es = add_urls show [] es

abbrev pub first : List Text → Option Text
first [] = none
first (u ∷ us) = some u

-- the status of a run, by its events
unfoldable pub status_of : List Text → List PipelineEvent → Status
status_of urls es =
    if not (is_empty urls)
    then pr_created
    else if any (λ e. e.type == "error") es || not (any is_terminal_event es)
    then failed
    else unverified

-- `list(load_events(path))`: a file that is not there has no events
abbrev pub events_of : Option RunFile → Option (List PipelineEvent)
events_of none = some []
events_of (some f) = load_events f

-- `_read_outcome`; a file that cannot be read raises
unfoldable pub read_outcome :
    (Value → Text) → RankedCluster → Text → Dict Text RunFile → Option FixOutcome
read_outcome show c run_id runs = elim (events_of (get run_id runs)) [
  | none ↦ none
  | some es ↦ some (record {
    fingerprint = c.fingerprint;
    title = c.title;
    run_id = some run_id;
    status = status_of (pr_urls show es) es;
    pr_url = first (pr_urls show es);
    pr_urls = pr_urls show es;
  })
]

-- `FixOutcome(cluster.fingerprint, cluster.title, run_id, status, None)`
abbrev pub bare_outcome : RankedCluster → Option Text → Status → FixOutcome
bare_outcome c run_id status = record {
  fingerprint = c.fingerprint;
  title = c.title;
  run_id = run_id;
  status = status;
  pr_url = none;
  pr_urls = [];
}

-- the messages of `cluster_events`
unfoldable pub sample_texts : RankedCluster → List Text
sample_texts c =
    let messages = keep (λ m. not (is_empty m) && not (is_empty (strip m))) c.sample_messages in
    if is_empty messages then c.title ∷ [] else messages

-- `first_seen`, or `last_seen` at the last message if it has one
unfoldable pub stamp_of : Outside → RankedCluster → Bool → ℕ
stamp_of o c is_last = elim (o.fromisoformat c.last_seen) [
  | none ↦ default_to o.now (o.fromisoformat c.first_seen)
  | some last ↦ if is_last then last else default_to o.now (o.fromisoformat c.first_seen)
]

unfoldable pub events_from : Outside → RankedCluster → ℕ → List Text → List LogEvent
events_from o c index [] = []
events_from o c index (message ∷ messages) =
    record {
      id = o.fresh c.fingerprint index;
      timestamp = stamp_of o c (is_empty messages);
      service = codes "tvastr-self";
      severity = error;
      message = message;
      stack_trace = none;
      attributes = (codes "origin", codes "selfheal") ∷ (codes "fingerprint", c.fingerprint) ∷ [];
      source = codes "selfheal";
    }
    ∷ events_from o c (index + 1) messages

-- `cluster_events`
unfoldable pub representative_events : Outside → RankedCluster → List LogEvent
representative_events o c = events_from o c 0 (sample_texts c)

-- the settings that the wave reads and changes
pub record Settings : Type 0 where
  pub github_repo : Text
  pub recurrence_threshold : ℕ
  pub dry_run : Bool
  pub use_mocks : Bool
  pub self_heal_repo : Text
  pub self_heal_open_prs : Bool

-- `_self_run_settings`
unfoldable pub self_run_settings : Settings → Settings
self_run_settings s = record s {
  github_repo = s.self_heal_repo;
  recurrence_threshold = 1;
  dry_run = if s.self_heal_open_prs then s.dry_run else true;
}

abbrev pub run_meta : Settings → RankedCluster → Text → Payload
run_meta s c run_id =
    ("run_id", string run_id)
    ∷ ("self_heal", bool true)
    ∷ ("fingerprint", string c.fingerprint)
    ∷ ("cluster_title", string c.title)
    ∷ ("repo", string s.github_repo)
    ∷ ("mode", string (codes (if s.use_mocks then "mock" else "live")))
    ∷ []

-- `StartRun`: it works on the run files and returns the run's id, or raises
abbrev pub StartRun : Type 0
StartRun =
    List LogEvent → Payload → Settings → Text → Dict Text RunFile → Dict Text RunFile × Option Text

-- `path.touch()`; the second argument says if the file can be made, and the third is its time
unfoldable pub touch : Text → Bool → ℕ → Dict Text RunFile → Option (Dict Text RunFile)
touch run_id false now runs = none
touch run_id true now runs = elim (get run_id runs) [
  | none ↦ some (
      put run_id
        (record {
          lines = [];
          is_ended = true;
          is_readable = true;
          is_writable = true;
          modified = now;
        })
        runs)
  | some f ↦ some (put run_id (record f { modified = now }) runs)
]

-- what the wave finds at one cluster: the new run id and whether its file can be made
pub record Draw : Type 0 where
  pub run_id : Text
  pub can_touch : Bool

-- `started_id or run_id`
abbrev pub id_of_run : Text → Text → Text
id_of_run [] run_id = run_id
id_of_run (c ∷ s) run_id = c ∷ s

module _ (o : Outside) (start_run : StartRun) where
  -- the outcome of a run that was started, or could not be
  unfoldable pub settle :
      RankedCluster → Text → Dict Text RunFile × Option Text → Dict Text RunFile × FixOutcome
  settle c run_id (after, none) = (after, bare_outcome c (some run_id) failed)
  settle c run_id (after, some id) = (
    after,
    default_to (bare_outcome c (some run_id) failed)
        (read_outcome o.show c (id_of_run id run_id) after),
  )

  -- the body of the loop: the run files behind it and the outcome
  unfoldable pub attempt :
      Settings → RankedCluster → Draw → Dict Text RunFile → Dict Text RunFile × FixOutcome
  attempt s c draw runs = elim (touch draw.run_id draw.can_touch o.now runs) [
    | none ↦ (runs, bare_outcome c (some draw.run_id) failed)
    | some touched ↦
        settle c draw.run_id
          (start_run (representative_events o c) (run_meta s c draw.run_id) s draw.run_id touched)
  ]

  -- the loop, with the draws by the place of a cluster
  unfoldable pub attempts :
      Settings
      → (ℕ → Draw)
      → ℕ
      → List RankedCluster
      → Dict Text RunFile
      → Dict Text RunFile × List FixOutcome
  attempts s draw place [] runs = (runs, [])
  attempts s draw place (c ∷ cs) runs =
      let (after, outcome) = attempt s c (draw place) runs in
      let (end, outcomes) = attempts s draw (place + 1) cs after in (end, outcome ∷ outcomes)

  -- `run_fix_wave`; without settings for the run, every cluster is skipped
  unfoldable pub run_fix_wave :
      WeeklyReport
      → Option Settings
      → (ℕ → Draw)
      → Dict Text RunFile
      → Dict Text RunFile × List FixOutcome
  run_fix_wave report none draw runs = (runs, map (λ c. bare_outcome c none skipped) report.to_fix)
  run_fix_wave report (some settings) draw runs =
      attempts (self_run_settings settings) draw 0 report.to_fix runs
