-- ===== src/Selfheal/Scan.antt =====
-- src/tvastr/selfheal/scan.py: the failures of one day, from the self logs and the run files.
use tvastr_demo.Prelude.{
  ℕ, ◌+◌, Bool, true, false, ◌&&◌, ◌||◌, not, if◌then◌else◌, any, take, List, [], ◌∷◌, ◌++◌, Option,
  none, some, Text, codes, ◌==◌, string_eq, text_eq,
}
use tvastr_demo.Prelude.Dicts.{Dict}
use tvastr_demo.Json.{
  Value, string, array, object, Payload, truthy, is_zero, is_text, is_null, is_false, as_text,
  to_text, lookup, lookup_field, field_or, or_value, get_or, Fields,
}
use tvastr_demo.Domain.{LogEvent, error}
use tvastr_demo.Events.{PipelineEvent, RunFile, load_events, is_terminal_event}

-- what the scan takes from outside: how Python shows a value, `datetime.fromisoformat`, the time
-- and the identifier drawn for the event at a place of a file
pub record Outside : Type 0 where
  pub show : Value → Text
  pub fromisoformat : Text → Option ℕ
  pub now : ℕ
  pub fresh : Text → ℕ → Text

abbrev pub run_attributes : Text → Text → Dict Text Text
run_attributes run_id ref =
    (codes "origin", codes "runs") ∷ (codes "run_id", run_id) ∷ (codes "issue", ref) ∷ []

module _ (o : Outside) where
  -- `_parse_timestamp`, and the default of a `LogEvent`
  unfoldable pub parse_timestamp : Value → ℕ
  parse_timestamp v = elim (as_text v) [
    | none ↦ o.now
    | some t ↦ elim (o.fromisoformat t) [ none ↦ o.now | some stamp ↦ stamp ]
  ]

  -- `_stringify`
  unfoldable pub stringify : Value → Option Text
  stringify v = if is_null v then none else some (to_text o.show v)

  -- `str(stack) if stack else None`
  abbrev pub shown_if_truthy : Value → Option Text
  shown_if_truthy v = if truthy v then some (to_text o.show v) else none

  unfoldable pub issue_ref : List PipelineEvent → Text
  issue_ref [] = []
  issue_ref (e ∷ es) =
      let rest = issue_ref es in
      let repo = lookup "repo" e.payload in
      let number = lookup "issue_number" e.payload in
      if e.type == "pipeline.start"
      then (if not (is_null repo) && not (is_null number)
          then to_text o.show repo ++ (codes "#" ++ to_text o.show number)
          else if not (is_null repo)
          then to_text o.show repo
          else if not (is_null number)
          then to_text o.show number
          else rest)
      else rest

  -- what the candidates of a run file share
  unfoldable pub run_log_event : Text → Text → ℕ → PipelineEvent → Text → Option Text → LogEvent
  run_log_event run_id ref place e message stack = record {
    id = o.fresh run_id place;
    timestamp = parse_timestamp (string e.timestamp);
    service = codes "tvastr-runs";
    severity = error;
    message = message;
    stack_trace = stack;
    attributes = run_attributes run_id ref;
    source = codes "selfheal";
  }

  unfoldable pub ops_message : PipelineEvent → Text
  ops_message e =
      codes e.step
      ++ (codes ": "
          ++ to_text o.show (
              or_value (lookup "reason" e.payload) (
                or_value (lookup "error" e.payload)
                  (or_value (lookup "message" e.payload) (string (codes e.step))))))

  unfoldable pub llm_call_failed : Payload → Bool
  llm_call_failed payload =
      if is_false (lookup "success" payload) then true else truthy (lookup "error" payload)

  unfoldable pub llm_failure_message : Payload → Text
  llm_failure_message payload =
      codes "llm.call failed ("
      ++ (to_text o.show (get_or "task" (string (codes "unknown")) payload)
          ++ (codes "): "
              ++ to_text o.show
                  (or_value (lookup "error" payload) (string (codes "llm call failed")))))

  -- the body of the loop of `_extract_run_candidates`
  unfoldable pub candidate_of : Text → Text → ℕ → PipelineEvent → Option LogEvent
  candidate_of run_id ref place e =
      if e.type == "error"
      then some (
          run_log_event run_id ref place e (ops_message e)
            (stringify (or_value (lookup "stack_trace" e.payload) (lookup "traceback" e.payload))))
      else if e.type == "agent.node.end" && e.step == "investigate"
      then (if is_zero (lookup "confidence" e.payload)
          then some
              (run_log_event run_id ref place e (codes "investigator returned confidence 0.0") none)
          else none)
      else if e.type == "verify.result"
          && is_text (codes "repro_broken") (lookup "verdict" e.payload)
      then some (
          run_log_event run_id ref place e (codes "verify verdict repro_broken")
            (stringify (lookup "rerun_stderr_tail" e.payload)))
      else if e.type == "llm.call" && llm_call_failed e.payload
      then some (run_log_event run_id ref place e (llm_failure_message e.payload) none)
      else none

  unfoldable pub candidates_of : Text → Text → ℕ → List PipelineEvent → List LogEvent
  candidates_of run_id ref place [] = []
  candidates_of run_id ref place (e ∷ es) =
      let rest = candidates_of run_id ref (place + 1) es in
      elim (candidate_of run_id ref place e) [ none ↦ rest | some c ↦ c ∷ rest ]

  unfoldable pub extract_run_candidates : Text → List PipelineEvent → List LogEvent
  extract_run_candidates run_id es = candidates_of run_id (issue_ref es) 0 es

-- `any(bool(e.payload.get("self_heal")) for e in events)`
unfoldable pub is_self_run : List PipelineEvent → Bool
is_self_run es = any (λ e. truthy (lookup "self_heal" e.payload)) es

-- `events[0].timestamp[:10] == day`, of a file that has an event
unfoldable pub is_of_day : Text → List PipelineEvent → Bool
is_of_day day [] = false
is_of_day day (e ∷ es) = take 10 e.timestamp == day

-- what becomes of a run file
pub data Fate : Type 0 where
  passed_over skipped mined : Fate

unfoldable pub fate : Text → List PipelineEvent → Fate
fate day es =
    if not (is_of_day day es)
    then passed_over
    else if is_self_run es
    then skipped
    else if any is_terminal_event es
    then mined
    else passed_over

-- the candidates, `scanned_runs` and `skipped_self_runs`
pub record Collected : Type 0 where
  pub candidates : List LogEvent
  pub scanned_runs : ℕ
  pub skipped_self_runs : ℕ

abbrev nothing : Collected
nothing = record { candidates = []; scanned_runs = 0; skipped_self_runs = 0 }

module _ (o : Outside) where
  -- the body of the loop of `_run_candidates`, and the loop over the files in the order of their
  -- names; a file that cannot be read raises
  unfoldable pub collect_file : Text → Text → List PipelineEvent → Collected → Collected
  collect_file day run_id es c = elim (fate day es) [
    | passed_over ↦ c
    | skipped ↦ record c { skipped_self_runs = c.skipped_self_runs + 1 }
    | mined ↦ record c {
      candidates = extract_run_candidates o run_id es ++ c.candidates;
      scanned_runs = c.scanned_runs + 1;
    }
  ]

  unfoldable pub run_candidates : Text → Dict Text RunFile → Option Collected
  run_candidates day [] = some nothing
  run_candidates day ((run_id, f) ∷ files) =
      let rest = run_candidates day files in
      elim (load_events f) [
        | none ↦ none
        | some es ↦ elim rest [ none ↦ none | some c ↦ some (collect_file day run_id es c) ]
      ]

  -- `record.get("level") not in {"error", "critical"}`, which a list or a dict raises
  unfoldable pub has_level : Value → Option Bool
  has_level (array _) = none
  has_level (object _) = none
  has_level v = some (is_text (codes "error") v || is_text (codes "critical") v)

  -- the rest of the loop of `_selflog_candidates`, for a record of a level that counts
  unfoldable pub selflog_event : Text → ℕ → Fields → Option LogEvent
  selflog_event day place fields =
      let message = lookup_field "event" fields in
      if truthy (lookup_field "self_heal" fields)
      then none
      else if not (truthy message)
      then none
      else some (record {
        id = o.fresh day place;
        timestamp = parse_timestamp o (lookup_field "timestamp" fields);
        service = codes "tvastr-self";
        severity = error;
        message = to_text o.show message;
        stack_trace =
            shown_if_truthy o
              (or_value (lookup_field "exception" fields) (lookup_field "stack" fields));
        attributes =
            (codes "origin", codes "selflog")
            ∷ (codes "logger", to_text o.show (field_or "logger" (string []) fields))
            ∷ [];
        source = codes "selfheal";
      })

  -- what a line gives: nothing, an event, or an exception
  unfoldable pub selflog_line : Text → ℕ → Option Value → Option (Option LogEvent)
  selflog_line day place (some (object fields)) = elim (has_level (lookup_field "level" fields)) [
    | none ↦ none
    | some false ↦ some none
    | some true ↦ some (selflog_event day place fields)
  ]
  selflog_line day place _ = some none

  -- `_selflog_candidates`, over the lines of a file: `none` is one that is blank or no JSON
  unfoldable pub selflog_candidates : Text → ℕ → List (Option Value) → Option (List LogEvent)
  selflog_candidates day place [] = some []
  selflog_candidates day place (l ∷ ls) =
      let rest = selflog_candidates day (place + 1) ls in
      elim (selflog_line day place l) [
        | none ↦ none
        | some none ↦ rest
        | some (some c) ↦ elim rest [ none ↦ none | some cs ↦ some (c ∷ cs) ]
      ]

  unfoldable pub collect_candidates :
      Text → List (Option Value) → Dict Text RunFile → Option Collected
  collect_candidates day selflog files = elim (selflog_candidates day 0 selflog) [
    | none ↦ none
    | some events ↦ elim (run_candidates day files) [
      | none ↦ none
      | some c ↦ some (record c { candidates = events ++ c.candidates })
    ]
  ]
