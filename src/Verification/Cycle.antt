-- ===== src/Verification/Cycle.antt =====
-- `Verifier._run_cycle` of src/tvastr/verification/verifier.py, in the order of its steps.
use tvastr_demo.Prelude.{
  Bool, true, false, ◌||◌, ltb, if◌then◌else◌, default_to, List, [], ◌∷◌, ◌++◌, Option, none, some,
  String, Text, codes, text_eq, ◌⊎◌, inl, inr,
}
use tvastr_demo.Domain.{FileChange, FixProposal}
use tvastr_demo.Verification.{Verdict, no_repro, regression, Reproducer, RunResult, CycleOutcome}
use tvastr_demo.Json.{texts, array, string, bool}
use tvastr_demo.Verification.Judge.{reproduced, judge_rerun, code_value}
use tvastr_demo.Verification.Sandbox.{
  Sandbox, paths_of, run_payload, counts_payload, Step, pure, ◌>>=◌, ◌>>◌, emit, write_repro, apply,
  run_repro, run_scoped_tests,
}
use tvastr_demo.Verification.Overlay.{patch_changes}

abbrev pub not_reproduced : CycleOutcome
not_reproduced = record {
  verdict = no_repro;
  oracle = "none";
  evidence = ("reason", string (codes "baseline run did not reproduce the failure")) ∷ [];
}

abbrev pub green_outcome : RunResult → Verdict × String → CycleOutcome
green_outcome rerun (verdict, oracle) = record {
  verdict = verdict;
  oracle = oracle;
  evidence = ("rerun_exit_code", code_value rerun.exit_code) ∷ [];
}

module _ {b : Sandbox} where
  unfoldable pub emit_baseline : Reproducer → Bool → RunResult → Step b (Unit {0})
  unfolding emit
  emit_baseline repro retry r =
      emit "verify.baseline" (run_payload r repro.expected_exception ++ ("retry", bool retry) ∷ [])

  -- the part of `_apply_buggy_overlay` behind the changes, which are none without a SHA
  unfoldable pub apply_overlay : Option Text × List FileChange → Step b (List FileChange)
  unfolding apply emit
  apply_overlay (none, changes) = pure []
  apply_overlay (some sha, []) = pure []
  apply_overlay (some sha, c ∷ cs) = do
    apply (c ∷ cs)
    emit "verify.overlay"
        (("sha", string sha) ∷ ("files", array (paths_of (c ∷ cs))) ∷ ("ok", bool true) ∷ [])
    pure (c ∷ cs)

  -- the `try` around the overlay: an exception leaves no changes
  unfoldable pub try_overlay : Option (Option Text × List FileChange) → Step b (List FileChange)
  try_overlay none s = (some [], s)
  try_overlay (some overlay) s =
      let (result, after) = apply_overlay overlay s in (some (default_to [] result), after)

  -- the second baseline, if there is an overlay: the changes of it, and the baseline that counts
  unfoldable pub rebaseline :
      Reproducer → RunResult → List FileChange → Step b (List FileChange × RunResult)
  unfolding run_repro emit_baseline
  rebaseline repro baseline [] = pure ([], baseline)
  rebaseline repro baseline (c ∷ cs) = do
    again ← run_repro
    emit_baseline repro true again
    pure (c ∷ cs, again)

  -- without a pull request there is no overlay to try
  unfoldable pub overlay_baseline :
      Reproducer
      → Option (Option (Option Text × List FileChange))
      → RunResult
      → Step b (List FileChange × RunResult)
  unfolding try_overlay rebaseline
  overlay_baseline repro none baseline = pure ([], baseline)
  overlay_baseline repro (some overlay) baseline = do
    changes ← try_overlay overlay
    rebaseline repro baseline changes

  unfoldable pub establish_baseline :
      Reproducer
      → Option (Option (Option Text × List FileChange))
      → Step b (List FileChange × RunResult)
  unfolding write_repro run_repro emit_baseline
  establish_baseline repro overlay = do
    write_repro repro.code
    baseline ← run_repro
    emit_baseline repro false baseline
    if reproduced baseline repro
        then pure ([], baseline)
        else overlay_baseline repro overlay baseline

  -- the scoped tests behind a green rerun
  unfoldable pub check_regression : List Text → RunResult → Verdict × String → Step b CycleOutcome
  unfolding run_scoped_tests emit
  check_regression [] rerun green = pure (green_outcome rerun green)
  check_regression (t ∷ ts) rerun green = do
    (result, counts) ← run_scoped_tests (t ∷ ts)
    emit "verify.regression" (
        ("scope", array (texts (t ∷ ts))) ∷ counts_payload counts
        ++ ("exit_code", code_value result.exit_code) ∷ [])
    pure (
        if ltb 0 counts.failed || ltb 0 counts.errors
        then record {
          verdict = regression;
          oracle = "scoped_tests";
          evidence = ("scope", array (texts (t ∷ ts))) ∷ counts_payload counts;
        }
        else green_outcome rerun green)

  -- what the judgement of the rerun leads to
  unfoldable pub conclude :
      List Text → RunResult → CycleOutcome ⊎ (Verdict × String) → Step b CycleOutcome
  unfolding check_regression
  conclude scoped rerun (inl outcome) = pure outcome
  conclude scoped rerun (inr green) = check_regression scoped rerun green

  -- the judgement of the rerun
  unfoldable pub judge_step :
      Reproducer → FixProposal → List Text → RunResult → RunResult → Step b CycleOutcome
  judge_step repro fix scoped baseline rerun = do
    emit "verify.rerun" (run_payload rerun repro.expected_exception)
    conclude scoped rerun (judge_rerun repro fix.register baseline rerun)

  unfoldable pub rerun_step : Reproducer → FixProposal → List Text → RunResult → Step b CycleOutcome
  rerun_step repro fix scoped baseline = do
    emit "verify.patch_applied" (("files", array (paths_of fix.changes)) ∷ [])
    rerun ← run_repro
    judge_step repro fix scoped baseline rerun

  -- the patch and the rerun
  unfoldable pub run_patched :
      Reproducer → FixProposal → List Text → List FileChange × RunResult → Step b CycleOutcome
  run_patched repro fix scoped (overlay, baseline) = do
    apply (patch_changes overlay fix)
    rerun_step repro fix scoped baseline

  -- A baseline that does not show the failure ends the cycle.
  unfoldable pub test_patch :
      Reproducer → FixProposal → List Text → List FileChange × RunResult → Step b CycleOutcome
  test_patch repro fix scoped (changes, baseline) =
      if reproduced baseline repro
      then run_patched repro fix scoped (changes, baseline)
      else pure not_reproduced

  -- `_run_cycle`, with what the overlay finds (`overlay_of`) and the scoped tests
  unfoldable pub run_cycle :
      Reproducer
      → FixProposal
      → Option (Option (Option Text × List FileChange))
      → List Text
      → Step b CycleOutcome
  run_cycle repro fix overlay scoped = do
    found ← establish_baseline repro overlay
    test_patch repro fix scoped found
