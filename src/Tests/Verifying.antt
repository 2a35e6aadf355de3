-- ===== src/Tests/Verifying.antt =====
-- The verifier at a sandbox in which the failure goes with the patch.
use tvastr_demo.Prelude.{
  ℕ, true, false, is_empty, if◌then◌else◌, keep, contains, List, [], ◌∷◌, ◌++◌, Option, none, some,
  codes, text_eq, ◌≡◌, refl, ap, inl,
}
use tvastr_demo.Prelude.Sorting.{sort}
use tvastr_demo.Prelude.Strings.{is_infix, starts_with}
use tvastr_demo.Json.{number}
use tvastr_demo.Domain.{FileChange, FixProposal, repair}
use tvastr_demo.Verification.{
  verified_via_reproducer, Reproducer, claude, crash, RunResult, pos, CycleOutcome,
}
use tvastr_demo.Verification.Judge.{original_exception_seen, reproduced_by, triage, judge_rerun}
use tvastr_demo.Verification.Sandbox.{
  Sandbox, Session, Action, emitted, write_repro, apply, run_repro, emit,
}
use tvastr_demo.Verification.Overlay.{patch_changes}
use tvastr_demo.Verification.Paths.{
  distribution_for_path, before_import_root, path_parts, split_slash,
}
use tvastr_demo.Verification.Cycle.{
  run_cycle, establish_baseline, emit_baseline, test_patch, run_patched, rerun_step, judge_step,
  conclude, check_regression,
}
use tvastr_demo.Verification.Soundness.{IsEarned, run_cycle-IsEarned}
use tvastr_demo.Verification.Loop.{
  work, Verification, VerificationResult, verify, verify_with, repair_loop, pass, provision_deps,
  distributions, add_distribution, is_document, new_session,
}
use tvastr_demo.Verification.Handles.{KeepsHandles, verify-KeepsHandles, verify-IsEarned}

abbrev crashed : RunResult
crashed = record {
  exit_code = pos 1;
  stdout = [];
  stderr = codes "KeyError: 'x'";
  timed_out = false;
}

abbrev clean : RunResult
clean = record { exit_code = pos 0; stdout = []; stderr = []; timed_out = false }

-- a handle is the list of the changes that were applied to it
abbrev sample_sandbox : Sandbox
sample_sandbox = record {
  Handle = List FileChange;
  prepare = λ n. some [];
  write_file = λ code h. (h, true);
  apply_changes = λ changes h. (h ++ changes, true);
  run = λ h. (h, some (if is_empty h then crashed else clean));
  run_pytest = λ paths h. (h, some clean);
  summary = λ text. [];
  provision = λ dists h. (h, none);
}

abbrev sample_fix : FixProposal
sample_fix = record {
  pattern_id = codes "p";
  summary = [];
  changes =
      record {
        path = codes "a/b.py";
        original_snippet = none;
        patched_content = codes "pass";
        rationale = [];
        diff = none;
      }
      ∷ [];
  test_plan = [];
  register = repair;
}

abbrev sample_repro : Reproducer
sample_repro = record {
  source = claude;
  code = codes "f()";
  expected_exception = some (codes "KeyError");
  kind = crash;
}

abbrev sample_verification : Verification sample_sandbox
sample_verification = record {
  fix = sample_fix;
  overlay = λ n. none;
  scoped = λ n. [];
  provision_enabled = true;
  repair_enabled = true;
  repair_reproducer = λ repro evidence. repro;
}

abbrev started : Action
started = emitted "verify.start" []

abbrev sample_result : Option VerificationResult
sample_result = (verify sample_sandbox sample_verification started (inl sample_repro)).0

abbrev green_result : VerificationResult
green_result = record {
  verdict = verified_via_reproducer;
  oracle = "reproducer";
  evidence = ("rerun_exit_code", number false 0 0) ∷ [];
}

verify-sample_fix : sample_result ≡ some green_result
unfolding verify verify_with repair_loop pass work run_cycle establish_baseline emit_baseline
    test_patch run_patched rerun_step judge_step conclude check_regression write_repro apply
    run_repro emit judge_rerun triage original_exception_seen reproduced_by is_infix starts_with
    provision_deps distributions add_distribution distribution_for_path before_import_root
    path_parts split_slash keep patch_changes contains sort
verify-sample_fix = refl

verify-KeepsHandles_example :
    KeepsHandles false 0 (verify sample_sandbox sample_verification started (inl sample_repro)).1
verify-KeepsHandles_example = verify-KeepsHandles sample_verification started (inl sample_repro)

verify-IsEarned_example :
    (is_document repair ≡ false)
    × (n : ℕ) × (repro : Reproducer) × (h : List FileChange) × (sample_sandbox.prepare n ≡ some h)
    × IsEarned repro sample_fix none
        (provision_deps sample_sandbox true sample_fix (new_session sample_sandbox h))
verify-IsEarned_example =
    verify-IsEarned sample_verification started (inl sample_repro) green_result verify-sample_fix
      refl

abbrev fresh_session : Session sample_sandbox
fresh_session = record { handle = []; trace = [] }

abbrev sample_outcome : CycleOutcome
sample_outcome = record {
  verdict = verified_via_reproducer;
  oracle = "reproducer";
  evidence = ("rerun_exit_code", number false 0 0) ∷ [];
}

run_cycle-sample_fix :
    (run_cycle {b = sample_sandbox} sample_repro sample_fix none [] fresh_session).0
    ≡ some sample_outcome
unfolding run_cycle establish_baseline emit_baseline test_patch run_patched rerun_step judge_step
    conclude check_regression write_repro apply run_repro emit judge_rerun triage
    original_exception_seen reproduced_by is_infix starts_with patch_changes keep contains
run_cycle-sample_fix = refl

run_cycle-IsEarned_example : IsEarned sample_repro sample_fix none fresh_session
run_cycle-IsEarned_example =
    run_cycle-IsEarned sample_repro sample_fix none [] fresh_session
      (run_cycle sample_repro sample_fix none [] fresh_session).1 sample_outcome
      (ap (λ o. (o, (run_cycle sample_repro sample_fix none [] fresh_session).1))
        run_cycle-sample_fix)
      refl
