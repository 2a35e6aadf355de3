-- ===== src/Verification/Handles.antt =====
-- What the repair loop of src/tvastr/verification/verifier.py promises: the handles are fresh and
-- discarded, the loop is bounded, and a green result comes from a cycle.
use tvastr_demo.Prelude.{
  Bool, Bool-cases, List, Option, Option-cases, [], ap, arith, false, inl, inr, map, none, not,
  refl, some, subst, suc, true, zero, ℕ, ◌++◌, ◌+◌, ◌<◌, ◌||◌, ◌∷◌, ◌≡◌, ◌⊎◌,
}
use tvastr_demo.Verification.{is_green, Reproducer, CycleOutcome}
use tvastr_demo.Verification.Sandbox.{Sandbox, Action}
use tvastr_demo.Verification.Cycle.{run_cycle}
use tvastr_demo.Verification.Soundness.{IsEarned, run_cycle-IsEarned}
use tvastr_demo.Verification.Loop.{
  Move, opened, discarded, did, Verification, VerificationResult, result_of, pass, work,
  repair_loop, verify, verify_with, provision_deps, new_session, is_repro_broken, is_document,
  Synthesized, repair_event, result_event,
}

-- The moves keep to the handles: with none open and `n` the next number, or with `n` open. A
-- handle has a number below three, is opened with none open, and is discarded.
abbrev pub KeepsHandles : Bool → ℕ → List Move → Type 0
KeepsHandles false n [] = Unit
KeepsHandles true n [] = ⊥
KeepsHandles false n (opened m ∷ rest) = (m ≡ n) × (m < 3) × KeepsHandles true n rest
KeepsHandles true n (opened m ∷ rest) = ⊥
KeepsHandles false n (discarded m ∷ rest) = ⊥
KeepsHandles true n (discarded m ∷ rest) = (m ≡ n) × KeepsHandles false (n + 1) rest
KeepsHandles is_open n (did a ∷ rest) = KeepsHandles is_open n rest

did-KeepsHandles :
    (n : ℕ) (done : List Action) (rest : List Move)
    → KeepsHandles false (n + 1) rest
    → KeepsHandles true n ((map did done ++ discarded n ∷ []) ++ rest)
did-KeepsHandles n [] rest h = (refl, h)
did-KeepsHandles n (a ∷ done) rest h = did-KeepsHandles n done rest h

last-KeepsHandles :
    (n : ℕ) (done : List Action) → KeepsHandles true n (map did done ++ discarded n ∷ [])
last-KeepsHandles n [] = (refl, tt)
last-KeepsHandles n (a ∷ done) = last-KeepsHandles n done

-- what a pass comes to: no handle, an exception, or an outcome
Pass-cases :
    (p : Option (Option CycleOutcome × List Action))
    → (p ≡ none)
      ⊎ ((done : List Action) × (p ≡ some (none, done)))
      ⊎ ((o : CycleOutcome) × (done : List Action) × (p ≡ some (some o, done)))
Pass-cases none = inl refl
Pass-cases (some (none, done)) = inr (inl (done, refl))
Pass-cases (some (some o, done)) = inr (inr (o, done, refl))

module _ {b : Sandbox} (v : Verification b) where
  repair_loop-KeepsHandles :
      (left n : ℕ) (repro : Reproducer)
      → n + left < 3
      → KeepsHandles false n (repair_loop b v left n repro).1
  unfolding repair_loop
  repair_loop-KeepsHandles zero n repro h = elim (Pass-cases (pass b v n repro)) [
    | inl q ↦ rw (q, repair_loop, KeepsHandles) tt
    | inr (inl (done, q)) ↦
        rw (q, repair_loop, KeepsHandles) (refl, omega arith, last-KeepsHandles n done)
    | inr (inr (o, done, q)) ↦
        rw (q, repair_loop, KeepsHandles)
          (refl, omega arith, last-KeepsHandles n (done ++ result_event (result_of o) ∷ []))
  ]
  repair_loop-KeepsHandles (suc left) n repro h = elim (Pass-cases (pass b v n repro)) [
    | inl q ↦ rw (q, repair_loop, KeepsHandles) tt
    | inr (inl (done, q)) ↦
        rw (q, repair_loop, KeepsHandles) (refl, omega arith, last-KeepsHandles n done)
    | inr (inr (o, done, q)) ↦
        elim (Bool-cases (not (is_repro_broken o.verdict) || not v.repair_enabled)) [
          | inl e ↦
              rw (q, e, repair_loop, KeepsHandles)
                (refl, omega arith, last-KeepsHandles n (done ++ result_event (result_of o) ∷ []))
          | inr e ↦
              let repaired = v.repair_reproducer repro o.evidence in
              rw (q, e, repair_loop, KeepsHandles)
                (
                  refl,
                  omega arith,
                  did-KeepsHandles n done
                      (did (repair_event b n o.evidence repaired)
                        ∷ (repair_loop b v left (n + 1) repaired).1)
                      (repair_loop-KeepsHandles left (n + 1) repaired (omega arith)),
                )
        ]
  ]

  verify_with-KeepsHandles :
      (started : Action) (synthesized : Synthesized b)
      → KeepsHandles false 0 (verify_with b v started synthesized).1
  unfolding verify_with
  verify_with-KeepsHandles started (inr message) = tt
  verify_with-KeepsHandles started (inl repro) = repair_loop-KeepsHandles 2 0 repro (omega arith)

  -- a verification opens three handles at most, numbered in order; each is opened when none is
  -- open, and is discarded before the next one or the end, also if the cycle raises.
  pub verify-KeepsHandles :
      (started : Action) (synthesized : Synthesized b)
      → KeepsHandles false 0 (verify b v started synthesized).1
  unfolding verify
  verify-KeepsHandles started synthesized = elim (Bool-cases (is_document v.fix.register)) [
    | inl q ↦ rw (q, verify, KeepsHandles) tt
    | inr q ↦ rw (q, verify) (verify_with-KeepsHandles started synthesized)
  ]

  -- the result is that of a pass
  abbrev IsOfPass : VerificationResult → Type 0
  IsOfPass r =
      (n : ℕ) × (repro : Reproducer) × (o : CycleOutcome) × (done : List Action) × (pass b v n repro
        ≡ some (some o, done))
      × (r ≡ result_of o)

  repair_loop-IsOfPass :
      (left n : ℕ) (repro : Reproducer) (r : VerificationResult)
      → (repair_loop b v left n repro).0 ≡ some r
      → IsOfPass r
  unfolding repair_loop
  repair_loop-IsOfPass zero n repro r h = elim (Pass-cases (pass b v n repro)) [
    | inl q ↦ absurd (ground (arith, q, h))
    | inr (inl (done, q)) ↦ absurd (ground (arith, q, h))
    | inr (inr (o, done, q)) ↦ (n, repro, o, done, q, ground (arith, q, h))
  ]
  repair_loop-IsOfPass (suc left) n repro r h = elim (Pass-cases (pass b v n repro)) [
    | inl q ↦ absurd (ground (arith, q, h))
    | inr (inl (done, q)) ↦ absurd (ground (arith, q, h))
    | inr (inr (o, done, q)) ↦
        elim (Bool-cases (not (is_repro_broken o.verdict) || not v.repair_enabled)) [
          | inl e ↦ (n, repro, o, done, q, ground (arith, q, e, h))
          | inr e ↦
              repair_loop-IsOfPass left (n + 1) (v.repair_reproducer repro o.evidence) r
                (ground (arith, q, e, h))
        ]
  ]

  work-IsEarned :
      (n : ℕ) (repro : Reproducer) (h : b.Handle) (o : CycleOutcome) (done : List Action)
      → work b v n repro h ≡ (some o, done)
      → is_green o.verdict ≡ true
      → IsEarned repro v.fix
          (v.overlay n)
          (provision_deps b v.provision_enabled v.fix (new_session b h))
  unfolding work
  work-IsEarned n repro h o done e green =
      let s = provision_deps b v.provision_enabled v.fix (new_session b h) in
      run_cycle-IsEarned repro v.fix (v.overlay n) (v.scoped n) s
        (run_cycle repro v.fix (v.overlay n) (v.scoped n) s).1 o
        (ap (λ x. (x.0, (run_cycle repro v.fix (v.overlay n) (v.scoped n) s).1)) e) green

  pass-IsEarned :
      (n : ℕ) (repro : Reproducer) (o : CycleOutcome) (done : List Action)
      → pass b v n repro ≡ some (some o, done)
      → is_green o.verdict ≡ true
      → (h : b.Handle) × (b.prepare n ≡ some h)
        × IsEarned repro v.fix
            (v.overlay n)
            (provision_deps b v.provision_enabled v.fix (new_session b h))
  unfolding pass
  pass-IsEarned n repro o done e green = elim (Option-cases (b.prepare n)) [
    | inl q ↦ absurd (ground (arith, q, e))
    | inr (h, q) ↦ (h, q, work-IsEarned n repro h o done (ground (arith, q, e)) green)
  ]

  verify_with-green :
      (started : Action) (synthesized : Synthesized b) (r : VerificationResult)
      → (verify_with b v started synthesized).0 ≡ some r
      → is_green r.verdict ≡ true
      → IsOfPass r
  unfolding verify_with
  verify_with-green started (inr message) r h green = absurd (ground (arith, h, green))
  verify_with-green started (inl repro) r h green = repair_loop-IsOfPass 2 0 repro r h

  verify-green :
      (started : Action) (synthesized : Synthesized b) (r : VerificationResult)
      → (verify b v started synthesized).0 ≡ some r
      → is_green r.verdict ≡ true
      → (is_document v.fix.register ≡ false) × IsOfPass r
  unfolding verify
  verify-green started synthesized r h green = elim (Bool-cases (is_document v.fix.register)) [
    | inl q ↦ absurd (ground (arith, q, h, green))
    | inr q ↦ (q, verify_with-green started synthesized r (ground (arith, q, h)) green)
  ]

  -- if a verification returns a green verdict, the fix is not one of documentation only, and in a
  -- handle that was just prepared and provisioned some reproducer shows the failure in the
  -- baseline that counts, with the overlay of that pass, and ends cleanly once the patch is
  -- applied to the handle as the baseline left it: in time, with code 0, without the original
  -- exception, and, if it is behavioral, with the marker of success.
  pub verify-IsEarned :
      (started : Action) (synthesized : Synthesized b) (r : VerificationResult)
      → (verify b v started synthesized).0 ≡ some r
      → is_green r.verdict ≡ true
      → (is_document v.fix.register ≡ false)
        × (n : ℕ) × (repro : Reproducer) × (h : b.Handle) × (b.prepare n ≡ some h)
        × IsEarned repro v.fix
            (v.overlay n)
            (provision_deps b v.provision_enabled v.fix (new_session b h))
  verify-IsEarned started synthesized r h green =
      let (runs, (n, repro, o, done, passed, e)) = verify-green started synthesized r h green in
      let (handle, prepared, earned) =
        pass-IsEarned n repro o done passed (subst (λ x. is_green x.verdict ≡ true) e green) in
      (runs, n, repro, handle, prepared, earned)
