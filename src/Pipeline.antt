-- ===== src/Pipeline.antt =====
-- src/tvastr/pipeline.py: a batch of events runs through detection, the threshold and the agent.
-- The threshold engine and the code host of the agent outlast an exception; the events are given or
-- collected from the log source.
pub mod Settled
use tvastr_demo.Prelude.{
  ℕ, Bool, true, false, not, ◌||◌, if◌then◌else◌, is_empty, length, map, keep, List, [], ◌∷◌, ◌++◌,
  Option, none, some, String, Text, codes, text_eq, ◌==◌, default_to,
}
use tvastr_demo.Prelude.Dicts.{Dict, get, put}
use tvastr_demo.Prelude.Sorting.{sort}
use tvastr_demo.Prelude.Strings.{text_ltb}
use tvastr_demo.Prelude.Steps.{
  Step, pure, perform, attempt, record_event, within, gets, modify, ◌>>=◌, ◌>>◌,
}
use tvastr_demo.Json.{
  Payload, Values, end, item, array, string, number, bool, object, close, field, texts,
}
use mathlib.Core.Option
use tvastr_demo.Regex.{Regex}
use tvastr_demo.Domain.{
  LogEvent, FailurePattern, Sensitivity, public, internal, sensitive, RoutingDecision, RootCause,
  FileChange, PullRequestDraft, PullRequestResult, AuditRecord,
}
use tvastr_demo.Llm.{is_sensitive}
use tvastr_demo.Integrations.{CodeHost, issue_era_host}
use tvastr_demo.Detection.Clustering.{Digest}
use tvastr_demo.Detection.Detector.{detect}
use tvastr_demo.Detection.Threshold.{Engine, select, mark_handled}
use tvastr_demo.Analysis.Discovery.{PullRequestRef, PrDiff}
use tvastr_demo.Analysis.Comparison.{distinct}
use tvastr_demo.Agent.Services.{Services, Action, Context, dated, saved, emitted}
use tvastr_demo.Agent.Fixes.{Parsing}
use tvastr_demo.Agent.Nodes.{State, opt_text}
use tvastr_demo.Agent.Graph.{run as run_agent}

abbrev pub sensitivity_name : Sensitivity → Text
sensitivity_name public = codes "public"
sensitivity_name internal = codes "internal"
sensitivity_name sensitive = codes "sensitive"

pub record PatternOutcome : Type 0 where
  pub fingerprint : Text
  pub title : Text
  pub count : ℕ
  pub sensitivity : Text
  pub outcome : String
  pub pull_request_url : Option Text
  pub pr_title : Option Text
  pub pr_branch : Option Text
  pub pr_changes : List (Text × Text × Text)
  pub routing : List RoutingDecision

pub record PipelineRun : Type 0 where
  pub events_ingested : ℕ
  pub patterns_detected : ℕ
  pub patterns_selected : ℕ
  pub outcomes : List PatternOutcome

-- `{e.id: e for e in events}`
unfoldable pub by_id : List LogEvent → Dict Text LogEvent → Dict Text LogEvent
by_id [] table = table
by_id (e ∷ es) table = by_id es (put e.id e table)

abbrev with_event : Option LogEvent → List LogEvent → List LogEvent
with_event none es = es
with_event (some e) es = e ∷ es

unfoldable pub sample_events : Dict Text LogEvent → List Text → List LogEvent
sample_events table [] = []
sample_events table (eid ∷ eids) = with_event (get eid table) (sample_events table eids)

unfoldable pub breakdown : List FailurePattern → Values
breakdown [] = end
breakdown (p ∷ ps) =
    item
      (object (
        field "title" (string p.title) (
          field "count" (number false p.count 0)
            (field "sensitivity" (string (sensitivity_name p.sensitivity)) close))))
      (breakdown ps)

abbrev pub titles : List FailurePattern → Values
titles ps = texts (map FailurePattern.title ps)

-- in a dry run the URL is only a placeholder
abbrev pub audit_url : Option PullRequestResult → Option Text
audit_url none = none
audit_url (some r) = if r.dry_run then none else some r.url

-- the path, the rationale and the diff of a change
abbrev change_row : FileChange → Text × Text × Text
change_row c = (c.path, c.rationale, default_to [] c.diff)

abbrev pub draft_changes : Option PullRequestDraft → List (Text × Text × Text)
draft_changes none = []
draft_changes (some d) = map change_row d.changes

abbrev pub first_outcome : List PatternOutcome → String
first_outcome [] = "no_patterns_selected"
first_outcome (x ∷ xs) = x.outcome

module _ (o : Services) where
  open o use {World, Float}

  -- the fields of `RemediationPipeline` that change: the code host is that of the agent's context
  pub record Pipe : Type 0 where
    pub threshold : Engine
    pub code_host : CodeHost World

  abbrev pub PipeStep : Type 0 → Type 0
  PipeStep A = Step (World × Pipe) (Action Float) A

  unfoldable pub tell : String → String → String → Payload → PipeStep (Unit {0})
  tell type step layer payload = record_event (emitted type layer step payload)

  unfoldable pub use_sha : CodeHost World → Option (Option Text) → PipeStep (CodeHost World)
  use_sha base sha = do
    tell "retrieval.issue_era" "agent" "agent" (
        ("sha", opt_text (default_to none sha))
        ∷ ("ok", bool (not (is_empty (default_to [] (default_to none sha)))))
        ∷ [])
    pure (
        if is_empty (default_to [] (default_to none sha))
        then base
        else issue_era_host base (default_to [] (default_to none sha)))

  unfoldable pub find_sha : CodeHost World → Text → PipeStep (CodeHost World)
  find_sha base date = do
    sha ← attempt (within (perform (dated date) (base.commit_before date)))
    use_sha base sha

  -- `_issue_era_host`
  unfoldable pub era_host : Bool → CodeHost World → List LogEvent → PipeStep (CodeHost World)
  era_host enabled base [] = pure base
  era_host enabled base (e ∷ es) =
      if enabled then find_sha base (o.isoformat e.timestamp) else pure base

  -- the arguments of `run` that the agent gets, and its settings
  pub record Batch : Type 0 where
    pub context : Context o
    pub parsing : Parsing
    pub pr_ref : Option PullRequestRef
    pub pr_diff : Option PrDiff
    pub issue_body : Option Text

  abbrev pub initial_state : Batch → FailurePattern → List LogEvent → State o
  initial_state b pattern events = record {
    pattern = pattern;
    sample_events = events;
    pr_ref = b.pr_ref;
    pr_diff = b.pr_diff;
    issue_body = b.issue_body;
    code_files = [];
    code_context = [];
    suspected_files = [];
    root_cause = none;
    fix = none;
    fix_comparison = none;
    pr_draft = none;
    pr_result = none;
    routing = [];
    doc_sources = [];
    outcome = none;
    notes = [];
  }

  abbrev pub summary_of : Option (RootCause Float) → Option Text
  summary_of none = none
  summary_of (some rc) = some rc.summary

  unfoldable pub audit_of : FailurePattern → State o → AuditRecord
  audit_of pattern final = record {
    pattern_id = pattern.id;
    pattern_title = pattern.title;
    routing = final.routing;
    root_cause_summary = summary_of final.root_cause;
    pull_request_url = audit_url final.pr_result;
    outcome = default_to "skipped" final.outcome;
    notes = final.notes;
  }

  unfoldable pub outcome_of_pattern : FailurePattern → State o → PatternOutcome
  outcome_of_pattern pattern final = record {
    fingerprint = pattern.fingerprint;
    title = pattern.title;
    count = pattern.count;
    sensitivity = sensitivity_name pattern.sensitivity;
    outcome = default_to "skipped" final.outcome;
    pull_request_url = audit_url final.pr_result;
    pr_title = Option.map PullRequestDraft.title final.pr_draft;
    pr_branch = Option.map PullRequestDraft.branch final.pr_draft;
    pr_changes = draft_changes final.pr_draft;
    routing = final.routing;
  }

  -- `self.agent.run` with the code host that the context holds
  unfoldable pub agent_step : Batch → FailurePattern → List LogEvent → PipeStep (State o)
  agent_step b pattern events = do
    host ← gets (λ w. w.1.code_host)
    within (
        run_agent o (record b.context { code_host = host }) b.parsing
          (initial_state b pattern events))

  -- the part of the loop behind the agent
  unfoldable pub settle : FailurePattern → State o → PipeStep PatternOutcome
  unfolding audit_of outcome_of_pattern
  settle pattern final = do
    modify (λ w pipe. record pipe { threshold = mark_handled pipe.threshold pattern (o.now w) })
    within (perform (saved (audit_of pattern final)) (o.save (audit_of pattern final)))
    tell "audit.saved" "audit" "output" (
        ("outcome", string (codes (default_to "skipped" final.outcome)))
        ∷ ("pattern", string pattern.fingerprint)
        ∷ ("pull_request_url", opt_text (audit_url final.pr_result))
        ∷ [])
    pure (outcome_of_pattern pattern final)

  -- the body of the loop over the selected patterns
  unfoldable pub run_pattern :
      Batch → CodeHost World → Dict Text LogEvent → FailurePattern → PipeStep PatternOutcome
  run_pattern b base table pattern = do
    host ←
        era_host b.context.issue_era_retrieval base (sample_events table pattern.sample_event_ids)
    modify (λ w pipe. record pipe { code_host = host })
    tell "agent.start" "agent" "agent"
        (("pattern", string pattern.fingerprint) ∷ ("title", string pattern.title) ∷ [])
    final ← agent_step b pattern (sample_events table pattern.sample_event_ids)
    settle pattern final

  unfoldable pub run_patterns :
      Batch
      → CodeHost World
      → Dict Text LogEvent
      → List FailurePattern
      → PipeStep (List PatternOutcome)
  run_patterns b base table [] = pure []
  run_patterns b base table (p ∷ ps) = do
    outcome ← run_pattern b base table p
    outcomes ← run_patterns b base table ps
    pure (outcome ∷ outcomes)

  unfoldable pub tell_sensitive : List FailurePattern → PipeStep (Unit {0})
  tell_sensitive [] = pure tt
  tell_sensitive (p ∷ ps) =
      tell "detect.pii" "pii_scan" "detection"
        (("count", number false (length (p ∷ ps)) 0) ∷ ("patterns", array (titles (p ∷ ps))) ∷ [])

  -- the loop and the part behind it: the host is restored only if no pattern raises
  unfoldable pub run_selected :
      Batch → List LogEvent → List FailurePattern → List FailurePattern → PipeStep PipelineRun
  unfolding by_id
  run_selected b events patterns selected = do
    base ← gets (λ w. w.1.code_host)
    outcomes ← run_patterns b base (by_id events []) selected
    modify (λ w pipe. record pipe { code_host = base })
    tell "pipeline.end" "pipeline" "ingestion" (
        ("ingested", number false (length events) 0)
        ∷ ("detected", number false (length patterns) 0)
        ∷ ("selected", number false (length selected) 0)
        ∷ ("outcome", string (codes (first_outcome outcomes)))
        ∷ [])
    pure (record {
      events_ingested = length events;
      patterns_detected = length patterns;
      patterns_selected = length selected;
      outcomes = outcomes;
    })

  -- `RemediationPipeline.run`
  unfoldable pub run : Regex → Digest → Batch → Payload → List LogEvent → PipeStep PipelineRun
  unfolding tell_sensitive breakdown
  run re d b run_meta events = do
    tell "pipeline.start" "pipeline" "ingestion" run_meta
    tell "ingest.read" "ingest" "ingestion" (
        ("count", number false (length events) 0)
        ∷ ("services", array (texts (sort text_ltb (distinct (map LogEvent.service events) []))))
        ∷ [])
    let patterns = detect re d events
    tell "detect.cluster" "cluster" "detection" (
        ("patterns", number false (length patterns) 0)
        ∷ ("breakdown", array (breakdown patterns))
        ∷ [])
    tell_sensitive (keep (λ p. is_sensitive p.sensitivity) patterns)
    selected ← gets (λ w. select w.1.threshold patterns (o.now w.0))
    threshold ← gets (λ w. w.1.threshold.recurrence_threshold)
    tell "threshold.select" "threshold" "detection" (
        ("recurrence_threshold", number false threshold 0)
        ∷ ("selected", array (titles selected))
        ∷ [])
    run_selected b events patterns selected
