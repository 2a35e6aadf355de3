-- ===== src/Tests/Scenario.antt =====
-- Runs of the agent and of the whole pipeline on concrete services, and the theorem on the pipeline
-- at one of them.
use tvastr_demo.Prelude.{
  ℕ, List, [], ◌∷◌, map, All, Option, none, some, String, Text, codes, ◌≡◌, refl,
}
use tvastr_demo.Prelude.Steps.{Session}
use tvastr_demo.Domain.{LogEvent, FailurePattern}
use tvastr_demo.Agent.Services.{Action}
use tvastr_demo.Agent.Nodes.{State}
use tvastr_demo.Pipeline.{Pipe, PipelineRun, PatternOutcome}
use tvastr_demo.Pipeline.Settled.{run-Settles, IsHandled, taken_up, fingerprints}
use tvastr_demo.Tests.Samples.{sample_event, sample_regex, sample_digest}
use tvastr_demo.Tests.Outside.{
  sample_services, sample_context, sample_parsing, sample_state, sample_batch, sample_host,
}
use tvastr_demo.Agent.Services.{clamp_confidence, emit, ask_router}
use tvastr_demo.Agent.Nodes.{
  investigate_node, confidence_gate, skip_grounding, ground_root_cause, require, generate_fix_node,
}
use tvastr_demo.Agent.Graph.{
  outcome_of, skip_benchmark, compare_to_pr, draft_pr, open_pr, notify, act, branch,
  run as run_agent, opened_texts, escalation_texts,
}
use tvastr_demo.Agent.Investigate.{
  parse_investigation, confidence_of, root_cause_of, found, tell_cause, finish, after_answer,
  investigate_rounds, seed, investigate,
}
use tvastr_demo.Agent.Retrieval.{add_new, to_repo_path, extract_stack_files, extract_issue_files}
use tvastr_demo.Agent.Fixes.{
  valid_change, valid_changes, parse_response, fix_parts, proposal, generate_fix,
}
use tvastr_demo.Agent.Edits.{apply_operation, apply_operations, build_real_changes}
use tvastr_demo.Prelude.Steps.{record_event, pure, perform, attempt, within, gets, modify, ◌>>=◌}
use tvastr_demo.Prelude.Strings.{is_infix, join, strip, starts_with}
use tvastr_demo.Prelude.Dicts.{get, put}
use tvastr_demo.Prelude.{keep, any}
use tvastr_demo.Prelude.Sorting.{sort}
use tvastr_demo.Json.{lookup, update, iterate}
use tvastr_demo.Json.Extract.{extract_all_json}
use tvastr_demo.Detection.Threshold.{new_engine, is_duplicate, select}
use tvastr_demo.Detection.Detector.{event_text, file_event, file_events, classify, detect}
use tvastr_demo.Detection.Clustering.{
  fingerprint, open_cluster, absorb, add_event, add_events, cluster_events,
}
use tvastr_demo.Pii.{contains_pii}
use tvastr_demo.Pipeline.{
  sample_events, tell, use_sha, find_sha, era_host, agent_step, settle, run_pattern, run_patterns,
  run_selected, run,
}

abbrev told : Option (State sample_services) → Option (Option String × Text)
told none = none
told (some s) = some (s.outcome, s.notes)

-- the outcome and the notes of a run whose world is the number
abbrev ending : ℕ → Option (Option String × Text)
ending n =
    told
      (run_agent sample_services sample_context sample_parsing sample_state
        (record { world = n; trace = [] })).0

-- A sure cause ends in a pull request. A failed one is told as a lack of confidence.
endings :
    (ending 0 ≡ some (some "pr_opened", codes "PR opened: u"))
    × (ending 1 ≡ some (some "failed", codes "Escalated to human (low confidence)."))
    × (ending 2 ≡ some (some "skipped", codes "Escalated to human (low confidence)."))
unfolding clamp_confidence emit ask_router investigate_node confidence_gate skip_grounding
    ground_root_cause require generate_fix_node outcome_of skip_benchmark compare_to_pr draft_pr
    open_pr opened_texts escalation_texts notify act branch run_agent parse_investigation
    confidence_of root_cause_of found tell_cause finish after_answer investigate_rounds seed
    investigate add_new to_repo_path extract_stack_files extract_issue_files valid_change
    valid_changes parse_response fix_parts proposal generate_fix apply_operation apply_operations
    build_real_changes record_event pure perform attempt ◌>>=◌ strip starts_with get put lookup
    update iterate extract_all_json
endings = (refl, refl, refl)

abbrev two_events : List LogEvent
two_events = sample_event 5 "boom" ∷ sample_event 6 "boom" ∷ []

abbrev sample_session : Session (ℕ × Pipe sample_services) (Action (Option ℕ))
sample_session = record {
  world = (0, record { threshold = new_engine 2 60; code_host = sample_host });
  trace = [];
}

abbrev or_empty_run : Option PipelineRun → PipelineRun
or_empty_run (some r) = r
or_empty_run none = record {
  events_ingested = 0;
  patterns_detected = 0;
  patterns_selected = 0;
  outcomes = [];
}

abbrev ran : Option PipelineRun × Session (ℕ × Pipe sample_services) (Action (Option ℕ))
ran = run sample_services sample_regex sample_digest sample_batch [] two_events sample_session

run-some : ran ≡ (some (or_empty_run ran.0), ran.1)
unfolding clamp_confidence emit ask_router investigate_node confidence_gate skip_grounding
    ground_root_cause require generate_fix_node outcome_of skip_benchmark compare_to_pr draft_pr
    open_pr notify act branch run_agent parse_investigation confidence_of root_cause_of found
    tell_cause finish after_answer investigate_rounds seed investigate add_new to_repo_path
    extract_stack_files extract_issue_files valid_change valid_changes parse_response fix_parts
    proposal generate_fix apply_operation apply_operations build_real_changes record_event pure
    perform attempt within gets modify ◌>>=◌ is_infix join get put keep any sort lookup update
    iterate extract_all_json new_engine is_duplicate select event_text file_event file_events
    classify detect fingerprint open_cluster absorb add_event add_events cluster_events contains_pii
    sample_events tell use_sha find_sha era_host agent_step settle run_pattern run_patterns
    run_selected run
run-some = refl

run-outcomes : map PatternOutcome.outcome (or_empty_run ran.0).outcomes ≡ "pr_opened" ∷ []
unfolding clamp_confidence emit ask_router investigate_node confidence_gate skip_grounding
    ground_root_cause require generate_fix_node outcome_of skip_benchmark compare_to_pr draft_pr
    open_pr notify act branch run_agent parse_investigation confidence_of root_cause_of found
    tell_cause finish after_answer investigate_rounds seed investigate add_new to_repo_path
    extract_stack_files extract_issue_files valid_change valid_changes parse_response fix_parts
    proposal generate_fix apply_operation apply_operations build_real_changes record_event pure
    perform attempt within gets modify ◌>>=◌ is_infix join get put keep any sort lookup update
    iterate extract_all_json new_engine is_duplicate select event_text file_event file_events
    classify detect fingerprint open_cluster absorb add_event add_events cluster_events contains_pii
    sample_events tell use_sha find_sha era_host agent_step settle run_pattern run_patterns
    run_selected run
run-outcomes = refl

run-Settles_example :
    let r = or_empty_run ran.0 in
    (fingerprints sample_services r.outcomes
      ≡ map FailurePattern.fingerprint
          (taken_up sample_services sample_regex sample_digest two_events sample_session.world))
    × All
        (IsHandled sample_services ran.1.world.1.threshold)
        (taken_up sample_services sample_regex sample_digest two_events sample_session.world)
    × ((q : FailurePattern)
        → IsHandled sample_services sample_session.world.1.threshold q
        → IsHandled sample_services ran.1.world.1.threshold q)
    × (ran.1.world.1.code_host ≡ sample_session.world.1.code_host)
run-Settles_example =
    run-Settles sample_services sample_regex sample_digest sample_batch [] two_events
      (or_empty_run ran.0) sample_session ran.1 run-some
