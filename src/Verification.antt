-- ===== src/Verification.antt =====
-- src/tvastr/verification/models.py: verdicts, reproducers and the results of runs.
pub mod Paths
pub mod Judge
pub mod Sandbox
pub mod Overlay
pub mod Cycle
pub mod Soundness
pub mod Loop
pub mod Handles
use tvastr_demo.Prelude.{ℕ, nat_beq, Bool, true, false, ◌&&◌, not, List, Option, String, Text}
use tvastr_demo.Json.{Payload}

pub data Verdict : Type 0 where
  verified_via_reproducer verified_via_scoped_tests verified_via_behavior : Verdict
  verified_via_warning verified_via_better_error masks_symptom : Verdict
  unverified_smoke_import_only unverified_doc_only repro_broken no_repro : Verdict
  still_broken regression environmental_error : Verdict

-- `is_green`
abbrev pub is_green : Verdict → Bool
is_green verified_via_reproducer = true
is_green verified_via_scoped_tests = true
is_green verified_via_behavior = true
is_green verified_via_warning = true
is_green verified_via_better_error = true
is_green _ = false

pub data ReproducerKind : Type 0 where
  behavioral crash : ReproducerKind

pub data ReproducerSource : Type 0 where
  issue_body claude : ReproducerSource

pub record Reproducer : Type 0 where
  pub source : ReproducerSource
  pub code : Text
  pub expected_exception : Option Text
  pub kind : ReproducerKind

-- an exit code, negative if a signal ended the process
pub data ExitCode : Type 0 where
  pos negsuc : ℕ → ExitCode

abbrev pub is_zero_code : ExitCode → Bool
is_zero_code (pos n) = nat_beq n 0
is_zero_code (negsuc n) = false

pub record RunResult : Type 0 where
  pub exit_code : ExitCode
  pub stdout : Text
  pub stderr : Text
  pub timed_out : Bool

abbrev pub succeeded : RunResult → Bool
succeeded r = is_zero_code r.exit_code && not r.timed_out

-- `_CycleOutcome` of src/tvastr/verification/verifier.py
pub record CycleOutcome : Type 0 where
  pub verdict : Verdict
  pub oracle : String
  pub evidence : Payload
