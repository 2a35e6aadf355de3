-- ===== src/Verification/Loop.antt =====
-- `Verifier.verify` of src/tvastr/verification/verifier.py: the repair loop over fresh handles.
use tvastr_demo.Prelude.{
  ℕ, zero, suc, ◌+◌, Bool, true, false, ◌&&◌, ◌||◌, not, if◌then◌else◌, contains, is_empty, List,
  [], ◌∷◌, ◌++◌, map, Option, none, some, String, Text, codes, text_eq, string_eq, ◌⊎◌, inl, inr,
}
use tvastr_demo.Prelude.Sorting.{sort}
use tvastr_demo.Prelude.Strings.{text_ltb}
use tvastr_demo.Json.{texts, Value, null, Payload, array, bool, string, number, get_or}
use tvastr_demo.Domain.{
  FileChange, FixProposal, FixRegister, repair, fail_fast, warn, better_error, document,
}
use tvastr_demo.Verification.{
  Verdict, repro_broken, unverified_doc_only, environmental_error, verified_via_reproducer,
  verified_via_scoped_tests, verified_via_behavior, verified_via_warning, verified_via_better_error,
  masks_symptom, unverified_smoke_import_only, no_repro, still_broken, regression, Reproducer,
  ReproducerSource, issue_body, claude, CycleOutcome,
}
use tvastr_demo.Verification.Paths.{distribution_for_path}
use tvastr_demo.Verification.Sandbox.{Sandbox, ProvisionResult, Session, Action, emitted, note}
use tvastr_demo.Verification.Cycle.{run_cycle}

-- `sorted({...})` of the distributions of the changed files
unfoldable pub add_distribution : Option Text → List Text → List Text
add_distribution none ds = ds
add_distribution (some d) ds = if contains d ds then ds else d ∷ ds

unfoldable pub distributions : List FileChange → List Text
distributions [] = []
distributions (c ∷ cs) = add_distribution (distribution_for_path c.path) (distributions cs)

abbrev pub provision_payload : ProvisionResult → Payload
provision_payload r =
    ("requested", array (texts r.requested))
    ∷ ("installed", array (texts r.installed))
    ∷ ("failed", array (texts r.failed))
    ∷ ("ok", bool r.ok)
    ∷ []

abbrev pub is_document : FixRegister → Bool
is_document document = true
is_document _ = false

abbrev pub is_repro_broken : Verdict → Bool
is_repro_broken repro_broken = true
is_repro_broken _ = false

-- what a verification does, in order; `did` is an event, or work on the handle that is open
pub data Move : Type 0 where
  opened discarded : ℕ → Move
  did : Action → Move

abbrev pub verdict_text : Verdict → Text
verdict_text verified_via_reproducer = codes "verified_via_reproducer"
verdict_text verified_via_scoped_tests = codes "verified_via_scoped_tests"
verdict_text verified_via_behavior = codes "verified_via_behavior"
verdict_text verified_via_warning = codes "verified_via_warning"
verdict_text verified_via_better_error = codes "verified_via_better_error"
verdict_text masks_symptom = codes "masks_symptom"
verdict_text unverified_smoke_import_only = codes "unverified_smoke_import_only"
verdict_text unverified_doc_only = codes "unverified_doc_only"
verdict_text repro_broken = codes "repro_broken"
verdict_text no_repro = codes "no_repro"
verdict_text still_broken = codes "still_broken"
verdict_text regression = codes "regression"
verdict_text environmental_error = codes "environmental_error"

-- `_finish` and `_fail`; the times are left out
pub record VerificationResult : Type 0 where
  pub verdict : Verdict
  pub oracle : String
  pub evidence : Payload

abbrev pub result_of : CycleOutcome → VerificationResult
result_of o = record { verdict = o.verdict; oracle = o.oracle; evidence = o.evidence }

abbrev source_text : ReproducerSource → Text
source_text issue_body = codes "issue_body"
source_text claude = codes "claude"

abbrev text_or_null : Option Text → Value
text_or_null none = null
text_or_null (some t) = string t

abbrev register_text : FixRegister → Text
register_text repair = codes "repair"
register_text fail_fast = codes "fail_fast"
register_text warn = codes "warn"
register_text better_error = codes "better_error"
register_text document = codes "document"

-- the event `verify.result`
abbrev pub result_event : VerificationResult → Action
result_event r = emitted "verify.result" (
    ("verdict", string (verdict_text r.verdict)) ∷ ("oracle", string (codes r.oracle)) ∷ r.evidence)

module _ (b : Sandbox) where
  provisioned : b.Handle × Option ProvisionResult → Session b → Session b
  provisioned (h, none) s = record s { handle = h }
  provisioned (h, some r) s =
      note (emitted "verify.provision" (provision_payload r)) (record s { handle = h })

  -- `_provision`, which swallows an exception
  unfoldable pub provision_deps : Bool → FixProposal → Session b → Session b
  unfolding provisioned
  provision_deps enabled fix s =
      let dists = sort text_ltb (distributions fix.changes) in
      if enabled && not (is_empty dists) then provisioned (b.provision dists s.handle) s else s

  abbrev pub new_session : b.Handle → Session b
  new_session h = record { handle = h; trace = [] }

  -- the settings and inputs that stay the same over the loop
  pub record Verification : Type 0 where
    pub fix : FixProposal
    -- what the host says of the overlay in a pass, which asks it anew
    pub overlay : ℕ → Option (Option (Option Text × List FileChange))
    -- what `discover_scoped_tests` finds in a pass
    pub scoped : ℕ → List Text
    pub provision_enabled : Bool
    pub repair_enabled : Bool
    -- `repair_reproducer`
    pub repair_reproducer : Reproducer → Payload → Reproducer

  -- the part of one pass on the handle: the outcome, `none` for an exception, and what was done
  unfoldable pub work : Verification → ℕ → Reproducer → b.Handle → Option CycleOutcome × List Action
  work v n repro h =
      let (outcome, after) =
        run_cycle repro v.fix (v.overlay n) (v.scoped n)
          (provision_deps v.provision_enabled v.fix (new_session h)) in
      (outcome, after.trace)

  -- one pass; `none` if there is no handle
  unfoldable pub pass : Verification → ℕ → Reproducer → Option (Option CycleOutcome × List Action)
  pass v n repro = elim (b.prepare n) [ none ↦ none | some h ↦ some (work v n repro h) ]

  -- the handle is discarded in any case, in the `finally`
  abbrev pub on_handle : ℕ → List Action → List Move
  on_handle n done = opened n ∷ map did done ++ discarded n ∷ []

  abbrev pub finish : ℕ → List Action → CycleOutcome → Option VerificationResult × List Move
  finish n done o = (some (result_of o), on_handle n (done ++ result_event (result_of o) ∷ []))

  abbrev pub repair_event : ℕ → Payload → Reproducer → Action
  repair_event n evidence repro = emitted "verify.repro_repair" (
      ("attempt", number false (n + 1) 0)
      ∷ ("error_tail", get_or "rerun_stderr_tail" (string []) evidence)
      ∷ ("code", string repro.code)
      ∷ [])

  -- the loop: the passes that are left behind this one, and the number of this one
  unfoldable pub repair_loop :
      Verification → ℕ → ℕ → Reproducer → Option VerificationResult × List Move
  repair_loop v zero n repro = elim (pass v n repro) [
    | none ↦ (none, [])
    | some (none, done) ↦ (none, on_handle n done)
    | some (some o, done) ↦ finish n done o
  ]
  repair_loop v (suc left) n repro = elim (pass v n repro) [
    | none ↦ (none, [])
    | some (none, done) ↦ (none, on_handle n done)
    | some (some o, done) ↦
        let repaired = v.repair_reproducer repro o.evidence in
        let (result, moves) = repair_loop v left (n + 1) repaired in
        if not (is_repro_broken o.verdict) || not v.repair_enabled
        then finish n done o
        else (result, on_handle n done ++ (did (repair_event n o.evidence repaired) ∷ moves))
  ]

  abbrev pub fail : Verdict → Payload → Option VerificationResult × List Move
  fail verdict evidence =
      let r : VerificationResult = record {
        verdict = verdict;
        oracle = "none";
        evidence = evidence;
      } in
      (some r, did (result_event r) ∷ [])

  abbrev after_moves :
      List Move → Option VerificationResult × List Move → Option VerificationResult × List Move
  after_moves before (result, moves) = (result, before ++ moves)

  abbrev pub synth_event : Verification → Reproducer → Action
  synth_event v repro = emitted "verify.repro_synth" (
      ("source", string (source_text repro.source))
      ∷ ("code", string repro.code)
      ∷ ("expected_exception", text_or_null repro.expected_exception)
      ∷ ("register", string (register_text v.fix.register))
      ∷ [])

  -- what `synthesize_reproducer` gives: a reproducer, or the message of an exception
  abbrev pub Synthesized : Type 0
  Synthesized = Reproducer ⊎ Text

  unfoldable pub verify_with :
      Verification → Action → Synthesized → Option VerificationResult × List Move
  verify_with v started (inr message) = after_moves (did started ∷ []) (
      fail environmental_error
        (("stage", string (codes "repro_synth")) ∷ ("error", string message) ∷ []))
  verify_with v started (inl repro) =
      after_moves (did started ∷ did (synth_event v repro) ∷ []) (repair_loop v 2 0 repro)

  -- `verify`; `started` is the event at the start
  unfoldable pub verify :
      Verification → Action → Synthesized → Option VerificationResult × List Move
  verify v started synthesized =
      if is_document v.fix.register
      then after_moves (did started ∷ []) (
          fail unverified_doc_only (
            ("reason", string (codes "documentation-only fix; no behavioral oracle applies")) ∷ []))
      else verify_with v started synthesized
