-- ===== src/Tests/Runs.antt =====
-- The events, the runner and the loop guard at concrete run files.
use tvastr_demo.Prelude.{
  ℕ, true, false, any, contains, List, [], ◌∷◌, none, some, String, Text, codes, string_eq, text_eq,
  ◌≡◌, refl, inl, inr, All, Any, if◌then◌else◌, ◌==◌,
}
use tvastr_demo.Prelude.Dicts.{Dict, get}
use tvastr_demo.Prelude.Sorting.{sort, IsSorted}
use mathlib.Core.List.{Perm}
use tvastr_demo.Json.{bool, string, null, Payload, lookup}
use tvastr_demo.Events.{
  PipelineEvent, RunFile, Line, event, blank, malformed, load_lines, load_events, emit,
  append_event, is_terminal_event,
}
use tvastr_demo.Events.Sweep.{
  Extends, IsSettled, is_unfinished, sweep_file, mark_interrupted_runs, mark_interrupted_runs-again,
  mark_interrupted_runs-Extends, mark_interrupted_runs-IsSettled,
}
use tvastr_demo.Events.Summary.{
  RunSummary, Rows, newer, list_runs, list_runs-Rows, summaries, note_events, note_event,
  note_start, note_outcome, note_verdict, end_outcome,
}
use tvastr_demo.Runner.{Body, Process, start_pipeline_thread, start_pipeline_thread-in_flight}
use tvastr_demo.Selfheal.Scan.{
  Collected, fate, is_self_run, is_of_day, extract_run_candidates, candidates_of, candidate_of,
  run_candidates, collect_file,
}
use tvastr_demo.Tests.Samples.{sample_outside}
use tvastr_demo.Selfheal.Guard.{
  IsSource, mined_part, self_heal_mark, run_candidates-barred, run_candidates-IsSource,
  crashed_run_is_guarded,
}

abbrev event_of : String → Payload → PipelineEvent
event_of type payload = record {
  type = type;
  layer = "agent";
  step = "pipeline";
  payload = payload;
  timestamp = codes "2026-08-18T01:00:00";
  run_id = none;
}

abbrev file_of : List Line → ℕ → RunFile
file_of lines modified = record {
  lines = lines;
  is_ended = true;
  is_readable = true;
  is_writable = true;
  modified = modified;
}

-- a run that broke off, one that failed, and one of the loop itself
abbrev broken_off : RunFile
broken_off = file_of (event (event_of "pipeline.start" []) ∷ malformed ∷ []) 30

abbrev failed : RunFile
failed =
    file_of
      (event (event_of "pipeline.start" (("repo", string (codes "a/b")) ∷ []))
        ∷ event (event_of "error" (("reason", string (codes "timeout")) ∷ []))
        ∷ blank
        ∷ [])
      20

abbrev self_run_events : List PipelineEvent
self_run_events =
    event_of "pipeline.start" (("self_heal", bool true) ∷ [])
    ∷ event_of "pr.opened" []
    ∷ event_of "pipeline.end" []
    ∷ []

abbrev self_run : RunFile
self_run =
    file_of
      (event (event_of "pipeline.start" (("self_heal", bool true) ∷ []))
        ∷ event (event_of "pr.opened" [])
        ∷ event (event_of "pipeline.end" [])
        ∷ [])
      40

abbrev sample_runs : Dict Text RunFile
sample_runs = (codes "a1", broken_off) ∷ (codes "b2", failed) ∷ (codes "c3", self_run) ∷ []

sweep-sample_runs : (mark_interrupted_runs (codes "t") [] sample_runs).1 ≡ 1
unfolding mark_interrupted_runs sweep_file is_unfinished load_events load_lines is_terminal_event
    emit append_event contains any
sweep-sample_runs = refl

sweep-in_flight : (mark_interrupted_runs (codes "t") (codes "a1" ∷ []) sample_runs).1 ≡ 0
unfolding mark_interrupted_runs sweep_file is_unfinished load_events load_lines is_terminal_event
    emit append_event contains any
sweep-in_flight = refl

mark_interrupted_runs-again_example :
    let swept = (mark_interrupted_runs (codes "t") [] sample_runs).0 in
    mark_interrupted_runs (codes "u") [] swept ≡ (swept, 0)
mark_interrupted_runs-again_example =
    mark_interrupted_runs-again (codes "t") (codes "u") [] sample_runs (refl, (refl, (refl, tt)))

-- a run that broke off in the middle of a line
abbrev torn_runs : Dict Text RunFile
torn_runs = (codes "a1", record broken_off { is_ended = false }) ∷ []

-- the interruption is lost in the torn line, and the second sweep marks the run again
sweep-torn_runs :
    let swept = (mark_interrupted_runs (codes "t") [] torn_runs).0 in
    (mark_interrupted_runs (codes "u") [] swept).1 ≡ 1
unfolding mark_interrupted_runs sweep_file is_unfinished load_events load_lines is_terminal_event
    emit append_event contains any
sweep-torn_runs = refl

mark_interrupted_runs-Extends_example :
    Extends (codes "t") [] sample_runs (mark_interrupted_runs (codes "t") [] sample_runs).0
mark_interrupted_runs-Extends_example = mark_interrupted_runs-Extends (codes "t") [] sample_runs

mark_interrupted_runs-IsSettled_example :
    All
      (IsSettled [])
      (mark_interrupted_runs (codes "u") [] (mark_interrupted_runs (codes "t") [] torn_runs).0).0
mark_interrupted_runs-IsSettled_example =
    mark_interrupted_runs-IsSettled (codes "t") (codes "u") [] torn_runs

abbrev sample_rows : List RunSummary
sample_rows =
    record {
      run_id = codes "c3";
      started_at = some (codes "2026-08-18T01:00:00");
      repo = null;
      issue_number = null;
      issue_title = null;
      outcome = string (codes "pr_opened");
      event_count = 3;
      verdict = null;
    }
    ∷ record {
      run_id = codes "a1";
      started_at = some (codes "2026-08-18T01:00:00");
      repo = null;
      issue_number = null;
      issue_title = null;
      outcome = null;
      event_count = 1;
      verdict = null;
    }
    ∷ record {
      run_id = codes "b2";
      started_at = some (codes "2026-08-18T01:00:00");
      repo = string (codes "a/b");
      issue_number = null;
      issue_title = null;
      outcome = null;
      event_count = 2;
      verdict = null;
    }
    ∷ []

list_runs-sample_runs : list_runs sample_runs ≡ some sample_rows
unfolding list_runs sort summaries load_events load_lines note_events note_event note_start
    note_outcome note_verdict end_outcome lookup get
list_runs-sample_runs = refl

list_runs-Rows_example :
    (order : Dict Text RunFile) × Perm order sample_runs
    × IsSorted newer order
    × Rows order sample_rows
list_runs-Rows_example = list_runs-Rows sample_runs sample_rows list_runs-sample_runs

abbrev idle : Process
idle = record { in_flight = []; file = broken_off }

abbrev crash : Body
crash file = (file, some (record { name = codes "KeyError"; message = codes "x" }))

start_pipeline_thread-in_flight_example :
    let (running, finished) =
      start_pipeline_thread (codes "t") (codes "a1") 7 self_heal_mark crash idle in
    (get (codes "a1") running.in_flight ≡ some 7)
    × ((j : Text)
        → get j finished.in_flight ≡ (if codes "a1" == j then none else get j idle.in_flight))
start_pipeline_thread-in_flight_example =
    start_pipeline_thread-in_flight (codes "t") (codes "a1") 7 self_heal_mark crash idle

crashed_run_is_guarded_example :
    is_self_run (
      load_lines
        (start_pipeline_thread (codes "t") (codes "a1") 7 self_heal_mark crash idle).1.file.lines)
    ≡ true
crashed_run_is_guarded_example =
    crashed_run_is_guarded (codes "t") (codes "a1") 7 crash idle
      (record { name = codes "KeyError"; message = codes "x" }) refl refl refl

is_self_run-self_run : is_self_run self_run_events ≡ true
unfolding is_self_run any lookup get
is_self_run-self_run = refl

load_events-self_run : load_events self_run ≡ some self_run_events
unfolding load_events load_lines
load_events-self_run = refl

abbrev two_runs : Dict Text RunFile
two_runs = (codes "a1", broken_off) ∷ (codes "b2", failed) ∷ []

run_candidates-barred_example :
    mined_part (run_candidates sample_outside (codes "2026-08-18") sample_runs)
    ≡ mined_part (run_candidates sample_outside (codes "2026-08-18") two_runs)
run_candidates-barred_example =
    run_candidates-barred sample_outside (codes "2026-08-18") (codes "c3") self_run self_run_events
      two_runs [] load_events-self_run (inr (inl is_self_run-self_run))

abbrev sample_found : Collected
sample_found = record {
  candidates = extract_run_candidates sample_outside (codes "b2") (
      event_of "pipeline.start" (("repo", string (codes "a/b")) ∷ [])
      ∷ event_of "error" (("reason", string (codes "timeout")) ∷ [])
      ∷ []);
  scanned_runs = 1;
  skipped_self_runs = 1;
}

run_candidates-sample_runs :
    run_candidates sample_outside (codes "2026-08-18") sample_runs ≡ some sample_found
unfolding run_candidates load_events load_lines collect_file fate is_of_day is_self_run
    is_terminal_event any lookup get extract_run_candidates candidates_of candidate_of
run_candidates-sample_runs = refl

run_candidates-IsSource_example :
    All
      (λ c. Any (IsSource sample_outside (codes "2026-08-18") c) sample_runs)
      sample_found.candidates
run_candidates-IsSource_example =
    run_candidates-IsSource sample_outside (codes "2026-08-18") sample_runs sample_found
      run_candidates-sample_runs
