-- ===== src/Verification/Soundness.antt =====
-- A green verdict of the cycle is earned: the failure was seen, and the patched rerun is clean.
use tvastr_demo.Prelude.{
  Bool, true, false, if◌then◌else◌, List, [], ◌∷◌, Option, none, some, Text, String, ◌≡◌, refl, ◌∙◌,
  sym, subst, ap, arith, ◌⊎◌, inl, inr,
}
use tvastr_demo.Json.{Payload, array}
use tvastr_demo.Domain.{FileChange, FixProposal, FixRegister}
use tvastr_demo.Verification.{
  Verdict, is_green, Reproducer, ReproducerKind, behavioral, crash, RunResult, is_zero_code,
  CycleOutcome,
}
use tvastr_demo.Verification.Judge.{
  original_exception_seen, behavior_ok, reproduced, triage, judge_rerun,
}
use tvastr_demo.Verification.Sandbox.{
  Sandbox, Session, Step, pure, and_then, ◌>>=◌, run_payload, paths_of, run_repro-result, run_repro,
  apply, emit,
}
use tvastr_demo.Verification.Overlay.{patch_changes}
use tvastr_demo.Verification.Cycle.{
  establish_baseline, run_patched, rerun_step, judge_step, test_patch, run_cycle, conclude,
  not_reproduced,
}

-- The rerun is clean: it ended in time with code 0, without the original exception, and a
-- behavioral reproducer asserted success.
pub record IsClean (repro : Reproducer) (rerun : RunResult) : Type 0 where
  pub no_exception : original_exception_seen rerun repro.expected_exception ≡ false
  pub in_time : rerun.timed_out ≡ false
  pub exit_zero : is_zero_code rerun.exit_code ≡ true
  pub asserted : repro.kind ≡ behavioral → behavior_ok rerun ≡ true

triage-green :
    (k : ReproducerKind) (register : FixRegister) (rerun : RunResult) (g : Verdict × String)
    → triage k register rerun ≡ inr g
    → (is_zero_code rerun.exit_code ≡ true) × (k ≡ behavioral → behavior_ok rerun ≡ true)
unfolding triage
triage-green behavioral register rerun g h = ground arith
triage-green crash register rerun g h = (ground (arith, h), λ e. cc)

triage-red :
    (k : ReproducerKind) (register : FixRegister) (rerun : RunResult) (o : CycleOutcome)
    → triage k register rerun ≡ inl o
    → is_green o.verdict ≡ false
unfolding triage
triage-red behavioral register rerun o h = ground arith
triage-red crash register rerun o h = ground arith

judge_rerun-IsClean :
    (repro : Reproducer) (register : FixRegister) (baseline rerun : RunResult)
    (g : Verdict × String)
    → judge_rerun repro register baseline rerun ≡ inr g
    → IsClean repro rerun
unfolding judge_rerun
judge_rerun-IsClean repro register baseline rerun g h =
    let at_triage = triage-green repro.kind register rerun g in
    record {
      no_exception = ground (arith, h);
      in_time = ground (arith, h);
      exit_zero = (at_triage (ground (arith, h))).0;
      asserted = (at_triage (ground (arith, h))).1;
    }

judge_rerun-red :
    (repro : Reproducer) (register : FixRegister) (baseline rerun : RunResult) (o : CycleOutcome)
    → judge_rerun repro register baseline rerun ≡ inl o
    → is_green o.verdict ≡ false
unfolding judge_rerun
judge_rerun-red repro register baseline rerun o h =
    ground (arith, triage-red repro.kind register rerun o)

abbrev applied_payload : FixProposal → Payload
applied_payload fix = ("files", array (paths_of fix.changes)) ∷ []

module _ {b : Sandbox} {A : Type 0} where
  either :
      (c : Bool) (m n : Step b A) (s : Session b) (x : Option A × Session b)
      → (if c then m else n) s ≡ x
      → ((c ≡ true) × (m s ≡ x)) ⊎ ((c ≡ false) × (n s ≡ x))
  either true m n s x h = inl (refl, h)
  either false m n s x h = inr (refl, h)

module _ {b : Sandbox} {A B : Type 0} where
  and_then-some :
      (m : Option A × Session b) (k : A → Step b B) (r : B) (after : Session b)
      → and_then m k ≡ (some r, after)
      → (a : A) × (mid : Session b) × (m ≡ (some a, mid)) × (k a mid ≡ (some r, after))
  and_then-some (none, s) k r after h = absurd (ground (arith, h))
  and_then-some (some a, s) k r after h = (a, s, refl, h)

  -- What a chain that succeeds is made of.
  >>=-some :
      (m : Step b A) (k : A → Step b B) (r : B) (s after : Session b)
      → (m >>= k) s ≡ (some r, after)
      → (a : A) × (mid : Session b) × (m s ≡ (some a, mid)) × (k a mid ≡ (some r, after))
  >>=-some m k r s after h = and_then-some (m s) k r after h

module _ {b : Sandbox} where
  conclude-green :
      (scoped : List Text) (rerun : RunResult) (j : CycleOutcome ⊎ (Verdict × String))
      (s after : Session b) (o : CycleOutcome)
      → ((bad : CycleOutcome) → j ≡ inl bad → is_green bad.verdict ≡ false)
      → conclude scoped rerun j s ≡ (some o, after)
      → is_green o.verdict ≡ true
      → (g : Verdict × String) × (j ≡ inr g)
  unfolding conclude
  conclude-green scoped rerun (inl bad) s after o red h green =
      absurd (ground (arith, red bad refl, h, green))
  conclude-green scoped rerun (inr g) s after o red h green = (g, refl)

  -- the state in which the patched rerun starts
  abbrev pub patched : FixProposal → List FileChange → Session b → b.Handle
  patched fix changes mid = (b.apply_changes (patch_changes changes fix) mid.handle).0

  apply-handle :
      (changes : List FileChange) (s after : Session b) (u : Unit {0})
      → apply changes s ≡ (some u, after)
      → after.handle ≡ (b.apply_changes changes s.handle).0
  unfolding apply
  apply-handle changes s after u h = sym (ap (λ r. r.1.handle) h)

  emit-handle :
      (type : String) (payload : Payload) (s after : Session b) (u : Unit {0})
      → emit type payload s ≡ (some u, after)
      → after.handle ≡ s.handle
  unfolding emit
  emit-handle type payload s after u h = sym (ap (λ r. r.1.handle) h)

  run_patched-green :
      (repro : Reproducer) (fix : FixProposal) (scoped : List Text) (changes : List FileChange)
      (baseline : RunResult) (s after : Session b) (o : CycleOutcome)
      → run_patched repro fix scoped (changes, baseline) s ≡ (some o, after)
      → is_green o.verdict ≡ true
      → (rerun : RunResult) × ((b.run (patched fix changes s)).1 ≡ some rerun) × IsClean repro rerun
  unfolding run_patched rerun_step judge_step
  run_patched-green repro fix scoped changes baseline s after o h green =
      let next = rerun_step repro fix scoped baseline in
      let judge = judge_step repro fix scoped baseline in
      let (u, s1, e1, h1) = >>=-some (apply (patch_changes changes fix)) (λ _. next) o s after h in
      let (v, s2, e2, h2) =
        >>=-some (emit "verify.patch_applied" (applied_payload fix)) (λ _. run_repro >>= judge) o s1
          after h1 in
      let (rerun, s3, e3, h3) = >>=-some run_repro judge o s2 after h2 in
      let (w, s4, e4, h4) =
        >>=-some (emit "verify.rerun" (run_payload rerun repro.expected_exception))
          (λ _. conclude scoped rerun (judge_rerun repro fix.register baseline rerun)) o s3 after
          h3 in
      let (g, e) =
        conclude-green scoped rerun (judge_rerun repro fix.register baseline rerun) s4 after o
          (judge_rerun-red repro fix.register baseline rerun) h4 green in
      (
        rerun,
        subst (λ h'. (b.run h').1 ≡ some rerun)
            (emit-handle "verify.patch_applied" (applied_payload fix) s1 s2 v e2
              ∙ apply-handle (patch_changes changes fix) s s1 u e1)
            (run_repro-result s2 s3 rerun e3),
        judge_rerun-IsClean repro fix.register baseline rerun g e,
      )

  test_patch-green :
      (repro : Reproducer) (fix : FixProposal) (scoped : List Text) (changes : List FileChange)
      (baseline : RunResult) (s after : Session b) (o : CycleOutcome)
      → test_patch repro fix scoped (changes, baseline) s ≡ (some o, after)
      → is_green o.verdict ≡ true
      → (reproduced baseline repro ≡ true)
        × (run_patched repro fix scoped (changes, baseline) s ≡ (some o, after))
  unfolding test_patch
  test_patch-green repro fix scoped changes baseline s after o h green =
      elim (either (reproduced baseline repro) (run_patched repro fix scoped (changes, baseline))
        (pure not_reproduced) s (some o, after) h) [
          | inl taken ↦ taken
          | inr (q, e) ↦ absurd (ground (arith, e, green))
        ]

  -- The baseline that counts shows the failure, and in the state that it leaves, with the patch
  -- applied, the rerun is clean.
  abbrev pub IsEarned :
      Reproducer
      → FixProposal
      → Option (Option (Option Text × List FileChange))
      → Session b
      → Type 0
  IsEarned repro fix overlay s =
      (changes : List FileChange) × (baseline : RunResult) × (mid : Session b) × (establish_baseline
          repro overlay s
        ≡ (some (changes, baseline), mid))
      × (reproduced baseline repro ≡ true)
      × (rerun : RunResult) × ((b.run (patched fix changes mid)).1 ≡ some rerun)
      × IsClean repro rerun

  -- if one cycle has a green verdict, its baseline shows the failure, in the session that the
  -- baseline leaves, with the patch applied, the rerun ends in time with code 0 and without the
  -- original exception, and a behavioral reproducer prints the marker of success.
  pub run_cycle-IsEarned :
      (repro : Reproducer) (fix : FixProposal)
      (overlay : Option (Option (Option Text × List FileChange))) (scoped : List Text)
      (s after : Session b) (o : CycleOutcome)
      → run_cycle repro fix overlay scoped s ≡ (some o, after)
      → is_green o.verdict ≡ true
      → IsEarned repro fix overlay s
  unfolding run_cycle
  run_cycle-IsEarned repro fix overlay scoped s after o h green =
      let ((changes, baseline), mid, e, k) =
        >>=-some (establish_baseline repro overlay) (test_patch repro fix scoped) o s after h in
      let (q, passed) = test_patch-green repro fix scoped changes baseline mid after o k green in
      let (rerun, ran, clean) =
        run_patched-green repro fix scoped changes baseline mid after o passed green in
      (changes, baseline, mid, e, q, rerun, ran, clean)
