-- ===== src/Agent/Gate.antt =====
-- A pull request is opened only behind the confidence gate, once at most, and every run that ends
-- tells a human exactly once.
use tvastr_demo.Prelude.{
  ℕ, Bool, true, false, default_to, if◌then◌else◌, List, [], ◌∷◌, none, some, Text, ◌≡◌, refl, ◌⊎◌,
  inl, inr, All, ◌∙◌, ap, string_eq,
}
use tvastr_demo.Prelude.Does.{Does, >>=-Does}
use tvastr_demo.Prelude.Phases.{
  Way, here, next, Runs, pure-Runs, perform-Runs, record_event-Runs, Runs-weaken, Runs-from,
  Does-Runs, >>=-Runs,
}
use tvastr_demo.Domain.{PullRequestResult}
use tvastr_demo.Agent.Services.{
  Services, Action, asked, searched, read_file, listed_dir, installed, emitted, opened, notified,
  dated, saved, gated, Context, Node,
}
use tvastr_demo.Agent.Confidence.{FloatLaws}
use tvastr_demo.Agent.Uses.{Uses}
use tvastr_demo.Agent.Bounds.{investigate-Uses}
use tvastr_demo.Agent.Ordinary.{
  IsOrdinary, emit-IsOrdinary, require-IsOrdinary, ground_root_cause-IsOrdinary,
  generate_fix_node-IsOrdinary, compare_to_pr-IsOrdinary, draft_pr-IsOrdinary,
}
use tvastr_demo.Agent.Fixes.{Parsing}
use tvastr_demo.Agent.Nodes.{State, investigate_node, confidence_gate, confidence_or_zero}
use tvastr_demo.Agent.Graph.{
  open_pr, outcome_of, notify, notify_with, notify_texts, act, branch, run,
}

-- how far a run has come: before the gate, behind it with leave to act or without, behind the pull
-- request, and behind the notification, which tells of a request or of none
pub data Phase : Type 0 where
  investigating acting declined filed told_filed told_declined : Phase

module _ (o : Services) where
  open o use {Float}

  -- the moves of a run
  abbrev pub Moves : Context o → Phase → Action Float → Phase → Type 0
  Moves ctx p (gated c decision) q =
      (p ≡ investigating)
      × (decision ≡ o.le ctx.min_confidence c)
      × (q ≡ (if decision then acting else declined))
  Moves ctx p (opened d) q = (p ≡ acting) × (q ≡ filed)
  Moves ctx p (notified m) q =
      ((p ≡ filed) × (q ≡ told_filed)) ⊎ ((p ≡ declined) × (q ≡ told_declined))
  Moves ctx p (dated t) q = ⊥
  Moves ctx p (saved r) q = ⊥
  Moves ctx p (asked x) q = q ≡ p
  Moves ctx p (searched t) q = q ≡ p
  Moves ctx p (read_file t) q = q ≡ p
  Moves ctx p (listed_dir t) q = q ≡ p
  Moves ctx p (installed t v) q = q ≡ p
  Moves ctx p (emitted t layer step x) q = q ≡ p

  stay : (ctx : Context o) (p : Phase) (a : Action Float) → IsOrdinary o a → Moves ctx p a p
  stay ctx p (asked x) h = refl
  stay ctx p (searched t) h = refl
  stay ctx p (read_file t) h = refl
  stay ctx p (listed_dir t) h = refl
  stay ctx p (installed t v) h = refl
  stay ctx p (emitted t layer step x) h = refl
  stay ctx p (opened d) h = elim h [ ]
  stay ctx p (notified m) h = elim h [ ]
  stay ctx p (dated t) h = elim h [ ]
  stay ctx p (saved r) h = elim h [ ]
  stay ctx p (gated c b) h = elim h [ ]

  -- an ordinary step stays in its phase
  ordinary :
      {A : Type 0} (ctx : Context o) (p : Phase) (m : Node o A)
      → Does (IsOrdinary o) m
      → Runs (Moves ctx) p m (λ _ q. q ≡ p)
  ordinary ctx p m h = Does-Runs (IsOrdinary o) (stay ctx) p m (λ _ q. q ≡ p) h (λ a. refl)

  Uses-IsOrdinary : (n m : ℕ) (a : Action Float) → Uses o n a m → IsOrdinary o a
  Uses-IsOrdinary n m (asked q) u = tt
  Uses-IsOrdinary n m (searched t) u = tt
  Uses-IsOrdinary n m (read_file t) u = tt
  Uses-IsOrdinary n m (listed_dir t) u = tt
  Uses-IsOrdinary n m (emitted t layer step p) u = tt
  Uses-IsOrdinary n m (installed t v) u = elim u [ ]
  Uses-IsOrdinary n m (opened d) u = elim u [ ]
  Uses-IsOrdinary n m (notified t) u = elim u [ ]
  Uses-IsOrdinary n m (dated t) u = elim u [ ]
  Uses-IsOrdinary n m (saved r) u = elim u [ ]
  Uses-IsOrdinary n m (gated c b) u = elim u [ ]

  Way-IsOrdinary :
      (n m : ℕ) (xs : List (Action Float)) → Way (Uses o) n xs m → All (IsOrdinary o) xs
  Way-IsOrdinary n m [] here = tt
  Way-IsOrdinary n m (x ∷ xs) (next {q = k} u w) =
      (Uses-IsOrdinary n k x u, Way-IsOrdinary k m xs w)

  Runs-IsOrdinary :
      {A : Type 0} (n : ℕ) (m : Node o A) (Q : A → ℕ → Type 0)
      → Runs (Uses o) n m Q
      → Does (IsOrdinary o) m
  Runs-IsOrdinary n m Q h = record {
    at = λ s. let (more, k, e, way, ends) = h.at s in (more, e, Way-IsOrdinary n k more way);
  }

  -- what the last nodes leave in the state
  abbrev Filed : State o → Type 0
  Filed s = (r : PullRequestResult) × (s.pr_result ≡ some r) × (s.outcome ≡ some (outcome_of r))

  open_pr-Runs :
      (ctx : Context o) (s : State o)
      → Runs (Moves ctx) acting (open_pr o ctx s) (λ t q. (q ≡ filed) × Filed t)
  unfolding open_pr
  open_pr-Runs ctx s =
      >>=-Runs acting _ _ (λ _ q. q ≡ acting) _
        (ordinary ctx acting _ (require-IsOrdinary o s.pr_draft))
        (λ draft p e.
          >>=-Runs p _ _ (λ _ q. q ≡ p) _ (ordinary ctx p _ (emit-IsOrdinary o _ _ _))
            (λ _ q f.
              >>=-Runs q _ _ (λ _ r. r ≡ filed) _
                (perform-Runs q filed (opened draft) _ (λ _ r. r ≡ filed) (f ∙ e, refl) (λ r. refl))
                (λ result r g.
                  >>=-Runs r _ _ (λ _ t. t ≡ r) _ (ordinary ctx r _ (emit-IsOrdinary o _ _ _))
                    (λ _ t h. pure-Runs t _ _ (h ∙ g, (result, refl, refl))))))

  act-Runs :
      (ctx : Context o) (p : Parsing) (s : State o)
      → Runs (Moves ctx) acting (act o ctx p s) (λ t q. (q ≡ filed) × Filed t)
  unfolding act
  act-Runs ctx p s =
      >>=-Runs acting _ _ (λ _ q. q ≡ acting) _
        (ordinary ctx acting _ (
          >>=-Does _ _
            (>>=-Does _ _
              (>>=-Does _ _ (ground_root_cause-IsOrdinary o ctx s)
                (generate_fix_node-IsOrdinary o p))
              (compare_to_pr-IsOrdinary o))
            (draft_pr-IsOrdinary o)))
        (λ t q e. Runs-from acting q _ _ e (open_pr-Runs ctx t))

  notify-Runs :
      (ctx : Context o) (p q : Phase) (s : State o)
      → ((m : Text) → Moves ctx p (notified m) q)
      → Runs (Moves ctx) p (notify o s) (λ t r.
        (r ≡ q) × (t.outcome ≡ some (default_to "skipped" s.outcome)) × (t.pr_result ≡ s.pr_result))
  unfolding notify notify_with
  notify-Runs ctx p q s move =
      >>=-Runs p _ _ (λ _ r. r ≡ p) _ (ordinary ctx p _ (emit-IsOrdinary o _ _ _))
        (λ _ r e. Runs-from p r _ _ e (
          >>=-Runs p _ _ (λ _ r. r ≡ q) _
            (perform-Runs p q (notified _) _ (λ _ r. r ≡ q)
              (move (notify_texts o s (default_to "skipped" s.outcome) s.pr_result s.pr_draft).0)
              (λ r. refl))
            (λ _ r f.
              >>=-Runs r _ _ (λ _ t. t ≡ r) _ (ordinary ctx r _ (emit-IsOrdinary o _ _ _))
                (λ _ t g. pure-Runs t _ _ (g ∙ f, refl, refl)))))

  investigate_node-Runs :
      FloatLaws o
      → (ctx : Context o) (s : State o)
      → Runs
          (Moves ctx)
          investigating
          (investigate_node o ctx s)
          (λ t q. (q ≡ investigating) × (t.outcome ≡ s.outcome))
  unfolding investigate_node
  investigate_node-Runs laws ctx s =
      >>=-Runs investigating _ _ (λ _ q. q ≡ investigating) _
        (ordinary ctx investigating _ (
          Runs-IsOrdinary 0 _ _
            (investigate-Uses o laws ctx.code_host s.pattern s.sample_events s.issue_body)))
        (λ (rc, ev) q e. pure-Runs q _ _ (e, refl))

  -- the phase that the gate leads to
  abbrev behind_gate : Bool → Phase
  behind_gate decision = if decision then acting else declined

  abbrev passes : Context o → State o → Bool
  passes ctx s = o.le ctx.min_confidence (confidence_or_zero o s.root_cause)

  confidence_gate-Runs :
      (ctx : Context o) (s : State o)
      → Runs (Moves ctx) investigating (confidence_gate o ctx s) (λ d q. q ≡ behind_gate d)
  unfolding confidence_gate
  confidence_gate-Runs ctx s =
      >>=-Runs investigating _ _ (λ _ q. q ≡ behind_gate (passes ctx s)) _
        (record_event-Runs investigating (behind_gate (passes ctx s))
          (gated (confidence_or_zero o s.root_cause) (passes ctx s)) _ (refl, refl, refl) refl)
        (λ _ q e. pure-Runs q _ _ e)

  -- how a run ends: with a pull request, whose result the outcome tells, or with none
  abbrev pub Finishes : State o → Phase → Type 0
  Finishes s q = ((q ≡ told_filed) × Filed s) ⊎ ((q ≡ told_declined) × (s.outcome ≡ some "skipped"))

  branch-Runs :
      (ctx : Context o) (p : Parsing) (s : State o) (d : Bool)
      → s.outcome ≡ none
      → Runs
          (Moves ctx)
          (behind_gate d)
          (branch o ctx p s d)
          (λ t q. ((q ≡ filed) × Filed t) ⊎ ((q ≡ declined) × (t.outcome ≡ none)))
  unfolding branch
  branch-Runs ctx p s true h = Runs-weaken acting _ _ _ (act-Runs ctx p s) (λ t q e. inl e)
  branch-Runs ctx p s false h = pure-Runs declined s _ (inr (refl, h))

  notify_end-Runs :
      (ctx : Context o) (p : Phase) (s : State o)
      → ((p ≡ filed) × Filed s) ⊎ ((p ≡ declined) × (s.outcome ≡ none))
      → Runs (Moves ctx) p (notify o s) Finishes
  notify_end-Runs ctx p s (inl (e, (r, f, g))) =
      Runs-weaken p _ _ _ (notify-Runs ctx p told_filed s (λ m. inl (e, refl)))
        (λ t q (a, b, c). inl (a, (r, c ∙ f, b ∙ ap (λ x. some (default_to "skipped" x)) g)))
  notify_end-Runs ctx p s (inr (e, g)) =
      Runs-weaken p _ _ _ (notify-Runs ctx p told_declined s (λ m. inr (e, refl)))
        (λ t q (a, b, c). inr (a, b ∙ ap (λ x. some (default_to "skipped" x)) g))

  -- if the comparison of floats is asymmetric, zero is below one, and the state has no outcome
  -- yet, then in every run, whatever the models and the host answer and wherever it raises: the
  -- agent opens a pull request only behind a gate event that finds the confidence at or above the
  -- threshold, opens one at most, and notifies at most once, behind the pull request or behind a
  -- gate that declined; and a run that returns has notified, and either has a result, whose
  -- outcome it reports, or was declined at the gate and ends as skipped.
  pub run-Finishes :
      FloatLaws o
      → (ctx : Context o) (p : Parsing) (s : State o) → s.outcome ≡ none
      → Runs (Moves ctx) investigating (run o ctx p s) Finishes
  unfolding run
  run-Finishes laws ctx p s h =
      >>=-Runs investigating _ _ (λ t q. (q ≡ investigating) × (t.outcome ≡ s.outcome)) _
        (investigate_node-Runs laws ctx s)
        (λ t q (e, f). Runs-from investigating q _ _ e (
          >>=-Runs investigating _ _ (λ d r. r ≡ behind_gate d) _ (confidence_gate-Runs ctx t)
            (λ d r g. Runs-from (behind_gate d) r _ _ g (
              >>=-Runs (behind_gate d) _ _ _ _ (branch-Runs ctx p t d (f ∙ h))
                (λ u k end. notify_end-Runs ctx k u end)))))
