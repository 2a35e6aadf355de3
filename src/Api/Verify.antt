-- ===== src/Api/Verify.antt =====
-- src/tvastr/api/routes/verify.py: `_reconstruct_from_run`, which reads the inputs of a verification
-- back from the events of a run. `none` is an exception.
use tvastr_demo.Prelude.{
  ℕ, suc, false, if◌then◌else◌, map, List, [], ◌∷◌, ◌++◌, Option, none, some, Text, codes, text_eq,
  string_eq, ◌==◌,
}
use tvastr_demo.Prelude.Dicts.{get}
use tvastr_demo.Json.{
  Value, Payload, null, number, infinity, string, array, object, end, truthy, to_text, lookup,
  field_or, lookup_field, get_or, or_value, iterate,
}
use tvastr_demo.Domain.{
  FailurePattern, LogEvent, RootCause, FileChange, FixProposal, Sensitivity, internal, error,
}
use tvastr_demo.Events.{PipelineEvent}
use tvastr_demo.Api.Payloads.{
  ◌>>=◌, rows_of, read_changes, or_bare, register_of, sensitivity_of, id_of, opt_text_of,
}

-- what is outside: a float, `str` of a number or container, `int` (`none` is a TypeError or a
-- ValueError), the identifiers drawn, and the time
pub record Reading : Type 1 where
  pub Float : Type 0
  pub half : Float
  pub show : Value → Text
  pub to_int : Value → Option ℕ
  pub fresh : ℕ → Text
  pub now : ℕ

module _ (r : Reading) where
  open r use {Float}

  -- the variables of the loop, and the number of identifiers drawn
  pub record Rebuilt : Type 0 where
    pub repo : Text
    pub issue_title : Value
    pub pattern : Option FailurePattern
    pub root_cause : Option (RootCause Float)
    pub fix : Option FixProposal
    pub sample_events : List LogEvent
    pub pr_number : Option ℕ
    pub pr_files : List Value
    pub drawn : ℕ

  unfoldable pub take_start : PipelineEvent → Rebuilt → Option Rebuilt
  take_start ev s = elim (get "repo" ev.payload) [
    | none ↦ some s
    | some repo ↦
        some
          (record s { repo = to_text r.show repo; issue_title = lookup "issue_title" ev.payload })
  ]

  -- an event of `sample_events` for each service
  unfoldable pub take_samples : Payload → List Value → Rebuilt → Option Rebuilt
  take_samples p [] s = some s
  take_samples p (service ∷ services) s = opt_text_of (lookup "first_stack_trace" p) >>= λ trace.
      take_samples p services (record s {
        sample_events =
            s.sample_events
            ++ record {
              id = r.fresh s.drawn;
              timestamp = r.now;
              service = to_text r.show service;
              severity = error;
              message = to_text r.show (get_or "first_message" (string []) p);
              stack_trace = trace;
              attributes = [];
              source = codes "simulated";
            }
              ∷ [];
        drawn = suc s.drawn;
      })

  unfoldable pub note_read : PipelineEvent → Rebuilt → Option Rebuilt
  note_read ev s = iterate (or_value (lookup "services" ev.payload) (array end)) >>= λ services.
      take_samples ev.payload services s

  abbrev with_pattern : Text → Text → Text → Option Text → ℕ → Sensitivity → Rebuilt → Rebuilt
  with_pattern fingerprint title message exception_type count sensitivity s = record s {
    pattern = some (record {
      id = r.fresh s.drawn;
      fingerprint = fingerprint;
      title = title;
      representative_message = message;
      exception_type = exception_type;
      count = count;
      sensitivity = sensitivity;
      first_seen = r.now;
      last_seen = r.now;
      sample_event_ids = [];
    });
    drawn = suc s.drawn;
  }

  -- the pattern of a `first_pattern`
  unfoldable pub read_pattern : Value → Rebuilt → Option Rebuilt
  read_pattern (object fp) s = opt_text_of (lookup_field "exception_type" fp) >>= λ exception_type.
      r.to_int (field_or "count" (number false 1 0) fp) >>= λ count.
      sensitivity_of (field_or "sensitivity" (string (codes "internal")) fp) >>= λ sensitivity.
      some (
        with_pattern (to_text r.show (field_or "fingerprint" (string []) fp))
          (to_text r.show (field_or "title" (string []) fp))
          (to_text r.show (field_or "representative_message" (string []) fp)) exception_type count
          sensitivity s)
  read_pattern v s = none

  unfoldable pub note_cluster : PipelineEvent → Rebuilt → Option Rebuilt
  note_cluster ev s =
      let read = read_pattern (lookup "first_pattern" ev.payload) s in
      if truthy (lookup "first_pattern" ev.payload) then read else some s

  -- the thin pattern of an `agent.start`
  unfoldable pub thin_pattern : Text → Payload → Rebuilt → Option Rebuilt
  thin_pattern run_id p s = opt_text_of (lookup "exception_type" p) >>= λ exception_type. some (
      with_pattern (to_text r.show (get_or "fingerprint" (string run_id) p))
        (to_text r.show (get_or "title" (or_value s.issue_title (string [])) p))
        (to_text r.show (get_or "title" (string []) p)) exception_type 1 internal s)

  unfoldable pub note_agent : Text → PipelineEvent → Rebuilt → Option Rebuilt
  note_agent run_id ev s = elim s.pattern [
    | none ↦ thin_pattern run_id ev.payload s
    | some p ↦ some s
  ]

  -- `int(raw_pr)`: an infinity raises an OverflowError, which is not caught
  unfoldable pub read_number : Value → Option ℕ → Option (Option ℕ)
  read_number null old = some old
  read_number (infinity b) old = none
  read_number v old = some (r.to_int v)

  unfoldable pub note_benchmark : PipelineEvent → Rebuilt → Option Rebuilt
  note_benchmark ev s = read_number (lookup "pr_number" ev.payload) s.pr_number >>= λ pr_number.
      iterate (or_value (lookup "files_both" ev.payload) (array end)) >>= λ both.
      iterate (or_value (lookup "files_theirs_only" ev.payload) (array end)) >>= λ theirs.
      some (record s { pr_number = pr_number; pr_files = both ++ theirs })

  abbrev pub rebuilt_fix : Payload → List FileChange → Rebuilt → FixProposal
  rebuilt_fix p changes s = record {
    pattern_id = id_of s.pattern;
    summary = to_text r.show (get_or "summary" (string []) p);
    changes = changes;
    test_plan = to_text r.show (get_or "test_plan" (string []) p);
    register = register_of (get_or "register" (string (codes "repair")) p);
  }

  abbrev pub or_guess :
      Option (RootCause Float) → Payload → List FileChange → Rebuilt → RootCause Float
  or_guess (some rc) p changes s = rc
  or_guess none p changes s = record {
    pattern_id = id_of s.pattern;
    summary = to_text r.show (get_or "summary" (string []) p);
    suspected_files = map FileChange.path changes;
    confidence = r.half;
    reasoning = [];
  }

  unfoldable pub note_fix : PipelineEvent → Rebuilt → Option Rebuilt
  note_fix ev s = rows_of (lookup "patched_files" ev.payload) >>= λ rows.
      read_changes ev.payload rows >>= or_bare ev.payload >>= λ changes. some (record s {
        fix = some (rebuilt_fix ev.payload changes s);
        root_cause = some (or_guess s.root_cause ev.payload changes s);
      })

  -- the body of the loop: the tests exclude one another
  unfoldable pub read_event : Text → PipelineEvent → Rebuilt → Option Rebuilt
  read_event run_id ev s =
      if ev.type == "pipeline.start"
      then take_start ev s
      else if ev.type == "ingest.read"
      then note_read ev s
      else if ev.type == "detect.cluster"
      then note_cluster ev s
      else if ev.type == "agent.start"
      then note_agent run_id ev s
      else if ev.type == "benchmark.compared"
      then note_benchmark ev s
      else if ev.type == "fix.generated"
      then note_fix ev s
      else some s

  unfoldable pub read_events : Text → List PipelineEvent → Rebuilt → Option Rebuilt
  read_events run_id [] s = some s
  read_events run_id (ev ∷ es) s = read_event run_id ev s >>= read_events run_id es

  -- the inputs of a verification
  pub record Inputs : Type 0 where
    pub pattern : FailurePattern
    pub root_cause : RootCause Float
    pub fix : FixProposal
    pub sample_events : List LogEvent
    pub repo : Text
    pub issue_title : Option Text
    pub pr_number : Option ℕ
    pub pr_files : List Value

  unfoldable pub inputs_of :
      Option FailurePattern
      → Option (RootCause Float)
      → Option FixProposal
      → Rebuilt
      → Option Inputs
  inputs_of (some pattern) (some rc) (some fix) s = some (record {
    pattern = pattern;
    root_cause = rc;
    fix = fix;
    sample_events = s.sample_events;
    repo = s.repo;
    issue_title = if truthy s.issue_title then some (to_text r.show s.issue_title) else none;
    pr_number = s.pr_number;
    pr_files = s.pr_files;
  })
  inputs_of _ _ _ s = none

  abbrev pub nothing_yet : Rebuilt
  nothing_yet = record {
    repo = [];
    issue_title = null;
    pattern = none;
    root_cause = none;
    fix = none;
    sample_events = [];
    pr_number = none;
    pr_files = [];
    drawn = 0;
  }

  -- `_reconstruct_from_run`, with the events that `load_events` gives; the inner option is what it
  -- returns
  unfoldable pub reconstruct : Text → List PipelineEvent → Option (Option Inputs)
  reconstruct run_id events =
      read_events run_id events nothing_yet >>= λ s. some (inputs_of s.pattern s.root_cause s.fix s)
