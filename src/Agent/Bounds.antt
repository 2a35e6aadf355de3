-- ===== src/Agent/Bounds.antt =====
-- What `_investigate` of src/tvastr/agent/graph.py keeps to: the number of its questions and of the
-- files that it reads, and the range of the confidence.
use tvastr_demo.Prelude.{
  ℕ, zero, suc, ◌+◌, ◌≤◌, Bool-cases, length, List, Option, none, some, Option-cases, Text, ◌≡◌,
  refl, text_eq, string_eq, arith, inl, inr,
}
use tvastr_demo.Prelude.Dicts.{get}
use tvastr_demo.Prelude.Phases.{
  Runs, pure-Runs, >>=-Runs, raise-Runs, attempt-Runs, Runs-weaken, Runs-from,
}
use tvastr_demo.Json.{Value, Payload, array, end, or_value, truthy, iterate, lookup}
use tvastr_demo.Domain.{LogEvent, RoutingDecision, RootCause, FailurePattern}
use tvastr_demo.Llm.{Response}
use tvastr_demo.Integrations.{CodeHost}
use tvastr_demo.Agent.Services.{Services, asked, Node, ask_router}
use tvastr_demo.Agent.Investigate.{
  Evidence, Issue, tell_cause, finish, run_actions, found, conclude_synthesis, final_synthesis,
  act_on, after_answer, investigate_rounds, investigate, root_cause_of, confidence_of,
  parse_investigation, max_context_files,
}
use tvastr_demo.Agent.Confidence.{FloatLaws, InRange, zero-InRange, confidence_of-InRange}
use tvastr_demo.Agent.Uses.{Uses, Fits, emit-Uses, do_actions-Uses, seed-Uses}

module _ (o : Services) where
  open o use {Float}

  abbrev IsFound : Option (RootCause Float) → Type 0
  IsFound none = Unit
  IsFound (some rc) = InRange o rc.confidence

  -- at most `k` questions so far
  abbrev Answers : ℕ → Option (RootCause Float) × Evidence → ℕ → Type 0
  Answers k (r, ev) m = (m ≤ k) × (length ev.code_files ≤ max_context_files) × IsFound r

  -- what the investigation promises at its end
  abbrev pub Concludes : RootCause Float × Evidence → ℕ → Type 0
  Concludes (rc, ev) m =
      (m ≤ 5) × (length ev.code_files ≤ max_context_files) × InRange o rc.confidence

  module _ (laws : FloatLaws o) where
    root_cause_of-IsFound :
        (issue : Issue) (ev : Evidence) (parsed : Payload) (text : Text)
        → IsFound (root_cause_of o issue ev parsed text)
    unfolding root_cause_of
    root_cause_of-IsFound issue ev parsed text =
        elim (Option-cases (iterate (or_value (lookup "suspected_files" parsed) (array end)))) [
          | inl q ↦ rw (q, root_cause_of) tt
          | inr (items, q) ↦ elim (Option-cases (confidence_of o (get "confidence" parsed))) [
            | inl k ↦ rw (q, k, root_cause_of) tt
            | inr (c, k) ↦
                rw (q, k, root_cause_of)
                  (confidence_of-InRange o laws (get "confidence" parsed) c k)
          ]
        ]

    found-Uses :
        (n k : ℕ) (r : Option (RootCause Float)) (ev : Evidence)
        → n ≤ k
        → length ev.code_files ≤ max_context_files
        → IsFound r
        → Runs (Uses o) n (found o r ev) (Answers k)
    unfolding found
    found-Uses n k none ev le h f = raise-Runs n (Answers k)
    found-Uses n k (some rc) ev le h f = pure-Runs n (some rc, ev) (Answers k) (le, h, f)

    conclude_synthesis-Uses :
        (n : ℕ) (issue : Issue) (ev : Evidence) (answer : Option (Response × RoutingDecision))
        → length ev.code_files ≤ max_context_files
        → Runs (Uses o) n (conclude_synthesis o issue ev answer) (Answers n)
    unfolding conclude_synthesis
    conclude_synthesis-Uses n issue ev none h = pure-Runs n _ (Answers n) (omega arith, h, tt)
    conclude_synthesis-Uses n issue ev (some (response, decision)) h =
        elim (Bool-cases (truthy (lookup "root_cause" (parse_investigation o response.text)))) [
          | inl q ↦ rw q (found-Uses n n _ _ (omega arith) h (root_cause_of-IsFound issue _ _ _))
          | inr q ↦ rw q (pure-Runs n _ (Answers n) (omega arith, h, tt))
        ]

    final_synthesis-Uses :
        (n : ℕ) (issue : Issue) (ev : Evidence)
        → length ev.code_files ≤ max_context_files
        → Runs (Uses o) n (final_synthesis o issue ev) (Answers (n + 1))
    unfolding final_synthesis ask_router
    final_synthesis-Uses n issue ev h =
        >>=-Runs n _ _ (λ _ m. m ≡ n) (Answers (n + 1)) (emit-Uses o n _ _ _)
          (λ _ m e.
            >>=-Runs m _ _ (λ _ k. k ≡ suc m) (Answers (n + 1))
              (attempt-Runs m (suc m) (asked _) (o.ask _) (λ _ k. k ≡ suc m) refl (λ r. refl))
              (λ answer k f.
                Runs-weaken k _ (Answers k) (Answers (n + 1))
                  (conclude_synthesis-Uses k issue ev answer h)
                  (λ (r, after) l (a, b, c). (omega (arith, a, e, f), b, c))))

    tell_cause-Uses :
        (n : ℕ) (rc : RootCause Float) (ev : Evidence)
        → Concludes (rc, ev) n
        → Runs (Uses o) n (tell_cause o rc ev) Concludes
    unfolding tell_cause
    tell_cause-Uses n rc ev (a, b, c) =
        >>=-Runs n _ _ (λ _ m. m ≡ n) Concludes (emit-Uses o n _ _ _)
          (λ _ m e. pure-Runs m _ Concludes (omega (arith, a, e), b, c))

    finish-Uses :
        (n : ℕ) (pattern : FailurePattern) (result : Option (RootCause Float) × Evidence)
        → Answers 5 result n
        → Runs (Uses o) n (finish o pattern result) Concludes
    unfolding finish
    finish-Uses n pattern (none, ev) (a, b, c) = tell_cause-Uses n _ ev (a, b, zero-InRange o laws)
    finish-Uses n pattern (some rc, ev) h = tell_cause-Uses n rc ev h

    module _ (host : CodeHost o.World) where
      -- what comes behind the actions of a round
      abbrev Goes : ℕ → ℕ → (Evidence → Node o (Option (RootCause Float) × Evidence)) → Type 0
      Goes n k go =
          (ev : Evidence)
          → length ev.code_files ≤ max_context_files
          → Runs (Uses o) n (go ev) (Answers k)

      run_actions-Uses :
          (n k : ℕ) (go : Evidence → Node o (Option (RootCause Float) × Evidence)) (ev : Evidence)
          (acts : Option (List Value))
          → length ev.code_files ≤ max_context_files
          → Goes n k go
          → Runs (Uses o) n (run_actions o host go ev acts) (Answers k)
      unfolding run_actions
      run_actions-Uses n k go ev none h goes = raise-Runs n (Answers k)
      run_actions-Uses n k go ev (some acts) h goes =
          >>=-Runs n _ _ (Fits o n) (Answers k) (do_actions-Uses o host n acts ev h)
            (λ after m (e, f). Runs-from n m _ _ e (goes after f))

      act_on-Uses :
          (n k round : ℕ) (parsed : Payload)
          (go : Evidence → Node o (Option (RootCause Float) × Evidence)) (ev : Evidence)
          → length ev.code_files ≤ max_context_files
          → Goes n k go
          → Runs (Uses o) n (act_on o host round parsed go ev) (Answers k)
      unfolding act_on
      act_on-Uses n k round parsed go ev h goes =
          >>=-Runs n _ _ (λ _ m. m ≡ n) (Answers k) (emit-Uses o n _ _ _)
            (λ _ m e. Runs-from n m _ _ e (run_actions-Uses n k go ev _ h goes))

      after_answer-Uses :
          (n k : ℕ) (issue : Issue) (round : ℕ)
          (go : Evidence → Node o (Option (RootCause Float) × Evidence)) (ev : Evidence)
          (answer : Option (Response × RoutingDecision))
          → n ≤ k
          → length ev.code_files ≤ max_context_files
          → Goes n k go
          → Runs (Uses o) n (after_answer o host issue round go ev answer) (Answers k)
      unfolding after_answer
      after_answer-Uses n k issue round go ev none le h goes = pure-Runs n _ (Answers k) (le, h, tt)
      after_answer-Uses n k issue round go ev (some (response, decision)) le h goes =
          elim (Bool-cases (truthy (lookup "root_cause" (parse_investigation o response.text)))) [
            | inl q ↦ rw q (found-Uses n k _ _ le h (root_cause_of-IsFound issue _ _ _))
            | inr q ↦
                elim (Bool-cases
                  (truthy (lookup "actions" (parse_investigation o response.text)))) [
                    | inl r ↦ rw (q, r) (act_on-Uses n k round _ go _ h goes)
                    | inr r ↦ rw (q, r) (pure-Runs n _ (Answers k) (le, h, tt))
                  ]
          ]

      investigate_rounds-Uses :
          (n k : ℕ) (issue : Issue) (left round : ℕ) (ev : Evidence)
          → n + left + 1 ≤ k
          → length ev.code_files ≤ max_context_files
          → Runs (Uses o) n (investigate_rounds o host issue left round ev) (Answers k)
      unfolding investigate_rounds ask_router
      investigate_rounds-Uses n k issue zero round ev le h =
          Runs-weaken n _ (Answers (n + 1)) (Answers k) (final_synthesis-Uses n issue ev h)
            (λ (r, after) l (a, b, c). (omega (arith, a, le), b, c))
      investigate_rounds-Uses n k issue (suc left) round ev le h =
          >>=-Runs n _ _ (λ _ m. m ≡ suc n) (Answers k)
            (attempt-Runs n (suc n) (asked _) (o.ask _) (λ _ m. m ≡ suc n) refl (λ r. refl))
            (λ answer m e. Runs-from (suc n) m _ _ e (
              after_answer-Uses (suc n) k issue round _ ev answer (omega (arith, le)) h (λ after f.
                investigate_rounds-Uses (suc n) k issue left (round + 1) after (omega (arith, le))
                  f)))

      -- if the comparison of floats is asymmetric and zero is below one, an investigation asks
      -- the model at most five times, keeps at most twelve files, only searches, reads, lists and
      -- emits events besides, and, when it returns, has a confidence that is not below zero and
      -- not above one.
      pub investigate-Uses :
          (pattern : FailurePattern) (events : List LogEvent) (issue_body : Option Text)
          → Runs (Uses o) 0 (investigate o host pattern events issue_body) Concludes
      unfolding investigate
      investigate-Uses pattern events issue_body =
          >>=-Runs 0 _ _ (λ _ m. m ≡ 0) _ (emit-Uses o 0 _ _ _)
            (λ _ m e. >>=-Runs m _ _ (Fits o m) _ (seed-Uses o host m _) (λ ev k (f, h).
              >>=-Runs k _ _ (Answers 5) _
                (investigate_rounds-Uses k 5 _ 4 0 ev (omega (arith, e, f)) h)
                (λ result l h. finish-Uses l pattern result h)))
