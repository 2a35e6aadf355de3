-- ===== src/Verification/Judge.antt =====
-- How src/tvastr/verification/verifier.py judges the runs of a reproducer.
use tvastr_demo.Prelude.{
  ℕ, Bool, true, false, ◌&&◌, ◌||◌, not, ltb, nat_beq, if◌then◌else◌, is_empty, take, List, [], ◌∷◌,
  ◌++◌, Option, none, some, Text, codes, ◌⊎◌, inl, inr, string_eq, String,
}
use mathlib.Core.List.{reverse}
use tvastr_demo.Prelude.Strings.{is_infix, join}
use tvastr_demo.Json.{Value, number, string, Payload}
use tvastr_demo.Domain.{FixRegister, warn, better_error}
use tvastr_demo.Verification.{
  Verdict, verified_via_reproducer, verified_via_behavior, verified_via_warning,
  verified_via_better_error, masks_symptom, repro_broken, still_broken, environmental_error,
  ReproducerKind, behavioral, crash, Reproducer, ExitCode, pos, negsuc, is_zero_code, RunResult,
  succeeded, CycleOutcome,
}

-- the line boundaries of `str.splitlines`
abbrev is_line_break : ℕ → Bool
is_line_break c =
    (not (ltb c 10) && ltb c 14)
    || (not (ltb c 28) && ltb c 31)
    || nat_beq c 0x85
    || nat_beq c 0x2028
    || nat_beq c 0x2029

-- `splitlines`, behind a carriage return or not, with the line so far
unfoldable pub lines_from : Bool → Text → Text → List Text
lines_from after_cr line [] = if is_empty line then [] else line ∷ []
lines_from after_cr line (c ∷ s) =
    let same = lines_from false line s in
    let next = lines_from (nat_beq c 13) [] s in
    let longer = lines_from false (line ++ c ∷ []) s in
    if after_cr && nat_beq c 10 then same else if is_line_break c then line ∷ next else longer

-- `_tail`: the last sixty lines
unfoldable pub tail : Text → Text
tail text = join (codes "\n") (reverse (take 60 (reverse (lines_from false [] text))))

-- `_original_exception_seen`
unfoldable pub original_exception_seen : RunResult → Option Text → Bool
original_exception_seen r none = false
original_exception_seen r (some expected) =
    let blob = r.stdout ++ codes "\n" ++ r.stderr in
    not (is_empty expected)
    && (is_infix (expected ++ codes ":") blob
        || (is_infix (expected ++ codes " ") blob || is_infix (expected ++ codes "\n") blob))

abbrev pub behavior_ok : RunResult → Bool
behavior_ok r = is_infix (codes "TVASTR_BEHAVIOR_OK") r.stdout

-- `_reproduced`
unfoldable pub reproduced_by : ReproducerKind → Option Text → RunResult → Bool
reproduced_by behavioral expected r = not (behavior_ok r)
reproduced_by crash expected r = original_exception_seen r expected || not (succeeded r)

abbrev pub reproduced : RunResult → Reproducer → Bool
reproduced r repro = reproduced_by repro.kind repro.expected_exception r

abbrev pub code_value : ExitCode → Value
code_value (pos n) = number false n 0
code_value (negsuc n) = number true (ℕ.suc n) 0

-- `_REGISTER_GREEN.get(fix.register, ...)`
abbrev pub register_green : FixRegister → Verdict × String
register_green warn = (verified_via_warning, "warning")
register_green better_error = (verified_via_better_error, "better_error")
register_green _ = (verified_via_behavior, "behavior")

abbrev rerun_evidence : RunResult → String → Payload
rerun_evidence rerun hint =
    ("rerun_exit_code", code_value rerun.exit_code)
    ∷ ("rerun_stderr_tail", string (tail rerun.stderr))
    ∷ ("hint", string (codes hint))
    ∷ []

-- the triage of a rerun that is neither broken still nor timed out: an outcome, or green
unfoldable pub triage : ReproducerKind → FixRegister → RunResult → CycleOutcome ⊎ (Verdict × String)
triage behavioral register rerun =
    if is_zero_code rerun.exit_code && behavior_ok rerun
    then inr (register_green register)
    else if is_infix (codes "AssertionError") rerun.stderr
    then inl (record {
      verdict = masks_symptom;
      oracle = "behavior";
      evidence =
          rerun_evidence rerun
            "the fix stopped the exception but the behavioral assertion failed — the symptom is masked, not fixed.";
    })
    else inl (record {
      verdict = repro_broken;
      oracle = "none";
      evidence =
          rerun_evidence rerun "behavioral reproducer neither asserted-OK nor failed cleanly.";
    })
triage crash register rerun =
    if is_zero_code rerun.exit_code
    then inr (verified_via_reproducer, "reproducer")
    else inl (record {
      verdict = repro_broken;
      oracle = "none";
      evidence =
          rerun_evidence rerun
            "reproducer raised a different exception than the issue's original — Claude likely referenced an API that doesn't exist; retry to resynthesise.";
    })

-- the part between the rerun and the scoped tests
unfoldable pub judge_rerun :
    Reproducer → FixRegister → RunResult → RunResult → CycleOutcome ⊎ (Verdict × String)
judge_rerun repro register baseline rerun =
    if original_exception_seen rerun repro.expected_exception
    then inl (record {
      verdict = still_broken;
      oracle = "reproducer";
      evidence =
          ("baseline_exit_code", code_value baseline.exit_code)
          ∷ ("rerun_exit_code", code_value rerun.exit_code)
          ∷ [];
    })
    else if rerun.timed_out
    then inl (record {
      verdict = environmental_error;
      oracle = "none";
      evidence = ("stage", string (codes "rerun")) ∷ ("reason", string (codes "timeout")) ∷ [];
    })
    else triage repro.kind register rerun
