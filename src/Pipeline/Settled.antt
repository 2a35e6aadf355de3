-- ===== src/Pipeline/Settled.antt =====
-- What a run of src/tvastr/pipeline.py leaves behind when it returns.
use tvastr_demo.Prelude.{
  ℕ, Bool, true, false, if◌then◌else◌, List, [], ◌∷◌, map, Option, none, some, String, Text,
  text_eq, ◌≡◌, ◌≢◌, sym, ap, ◌∙◌, subst, arith, All, All-map, length,
}
use tvastr_demo.Prelude.Dicts.{Dict, get, put, get-put}
use tvastr_demo.Prelude.Steps.{
  Session, Step, pure, attempt, record_event, within, gets, modify, ◌>>=◌, >>=-some, within-some,
}
use tvastr_demo.Json.{Payload}
use tvastr_demo.Domain.{FailurePattern, LogEvent}
use tvastr_demo.Integrations.{CodeHost}
use tvastr_demo.Detection.Threshold.{Engine, mark_handled, select}
use tvastr_demo.Detection.Clustering.{Digest}
use tvastr_demo.Detection.Detector.{detect}
use tvastr_demo.Regex.{Regex}
use tvastr_demo.Agent.Services.{Services, Action}
use tvastr_demo.Agent.Nodes.{State}
use tvastr_demo.Pipeline.{
  Pipe, PipeStep, Batch, PatternOutcome, PipelineRun, tell, use_sha, find_sha, era_host, agent_step,
  settle, outcome_of_pattern, run_pattern, run_patterns, run_selected, tell_sensitive, run,
}

module _ (o : Services) where
  open o use {World, Float}

  -- a step that leaves the engine and the host alone when it returns
  abbrev Leaves : {A : Type 0} → PipeStep o A → Type 0
  Leaves {A} m =
      (a : A) (s after : Session (World × Pipe o) (Action Float))
      → m s ≡ (some a, after)
      → after.world.1 ≡ s.world.1

  pure-Leaves : {A : Type 0} (a : A) → Leaves (pure a)
  unfolding pure
  pure-Leaves a r s after h = sym (ap (λ x. x.1.world.1) h)

  pure-some :
      {A : Type 0} (a b : A) (s after : Session (World × Pipe o) (Action Float))
      → pure a s ≡ (some b, after)
      → b ≡ a
  unfolding pure
  pure-some a b s after h = ground (arith, h)

  tell-Leaves :
      (type step layer : String) (payload : Payload) → Leaves (tell o type step layer payload)
  unfolding tell record_event
  tell-Leaves type step layer payload r s after h = sym (ap (λ x. x.1.world.1) h)

  within-Leaves : {A : Type 0} (m : Step World (Action Float) A) → Leaves (within m)
  within-Leaves m a s after h = within-some m a s after h

  >>=-Leaves :
      {A B : Type 0} (m : PipeStep o A) (k : A → PipeStep o B)
      → Leaves m
      → ((a : A) → Leaves (k a))
      → Leaves (m >>= k)
  >>=-Leaves m k hm hk b s after h =
      let (a, mid, e, f) = >>=-some m k b s after h in hk a b mid after f ∙ hm a s mid e

  attempt-Leaves : {A : Type 0} (m : Step World (Action Float) A) → Leaves (attempt (within m))
  unfolding attempt within
  attempt-Leaves m a s after h = sym (ap (λ x. x.1.world.1) h)

  use_sha-Leaves :
      (base : CodeHost World) (sha : Option (Option Text)) → Leaves (use_sha o base sha)
  unfolding use_sha
  use_sha-Leaves base sha = >>=-Leaves _ _ (tell-Leaves _ _ _ _) (λ _. pure-Leaves _)

  find_sha-Leaves : (base : CodeHost World) (date : Text) → Leaves (find_sha o base date)
  unfolding find_sha
  find_sha-Leaves base date = >>=-Leaves _ _ (attempt-Leaves _) (use_sha-Leaves base)

  if-Leaves :
      {A : Type 0} (b : Bool) (m n : PipeStep o A)
      → Leaves m
      → Leaves n
      → Leaves (if b then m else n)
  if-Leaves true m n h g = h
  if-Leaves false m n h g = g

  era_host-Leaves :
      (enabled : Bool) (base : CodeHost World) (es : List LogEvent)
      → Leaves (era_host o enabled base es)
  unfolding era_host
  era_host-Leaves enabled base [] = pure-Leaves base
  era_host-Leaves enabled base (e ∷ es) =
      if-Leaves enabled _ _ (find_sha-Leaves base _) (pure-Leaves base)

  gets-some :
      {A : Type 0} (f : World × Pipe o → A) (a : A)
      (s after : Session (World × Pipe o) (Action Float))
      → gets f s ≡ (some a, after)
      → (a ≡ f s.world) × (after ≡ s)
  unfolding gets
  gets-some f a s after h = (ground (arith, h), sym (ap (λ x. x.1) h))

  gets-Leaves : {A : Type 0} (f : World × Pipe o → A) → Leaves (gets f)
  gets-Leaves f a s after h = ap (λ x. x.world.1) (gets-some f a s after h).1

  agent_step-Leaves :
      (b : Batch o) (p : FailurePattern) (es : List LogEvent) → Leaves (agent_step o b p es)
  unfolding agent_step
  agent_step-Leaves b p es = >>=-Leaves _ _ (gets-Leaves _) (λ host. within-Leaves _)

  modify-some :
      (f : World → Pipe o → Pipe o) (u : Unit {0})
      (s after : Session (World × Pipe o) (Action Float))
      → modify f s ≡ (some u, after)
      → after.world.1 ≡ f s.world.0 s.world.1
  unfolding modify
  modify-some f u s after h = sym (ap (λ x. x.1.world.1) h)

  -- the engine behind a pattern: its fingerprint is handled at some time
  abbrev Marks : FailurePattern → Engine → Engine → Type 0
  Marks p before after = (now : ℕ) × (after ≡ mark_handled before p now)

  settle-some :
      (p : FailurePattern) (final : State o) (out : PatternOutcome)
      (s after : Session (World × Pipe o) (Action Float))
      → settle o p final s ≡ (some out, after)
      → (out ≡ outcome_of_pattern o p final) × Marks p s.world.1.threshold after.world.1.threshold
  unfolding settle
  settle-some p final out s after h =
      let (u, s1, e1, h1) = >>=-some _ _ out s after h in
      let (v, s2, e2, h2) = >>=-some _ _ out s1 after h1 in
      let (w, s3, e3, h3) = >>=-some _ _ out s2 after h2 in
      let same : after.world.1 ≡ s1.world.1 =
        pure-Leaves _ out s3 after h3
        ∙ tell-Leaves _ _ _ _ w s2 s3 e3
        ∙ within-Leaves _ v s1 s2 e2 in
      (
        pure-some _ out s3 after h3,
        (o.now s.world.0, ap (λ x. x.threshold) (same ∙ modify-some _ u s s1 e1)),
      )

  run_pattern-some :
      (b : Batch o) (base : CodeHost World) (table : Dict Text LogEvent) (p : FailurePattern)
      (out : PatternOutcome) (s after : Session (World × Pipe o) (Action Float))
      → run_pattern o b base table p s ≡ (some out, after)
      → (out.fingerprint ≡ p.fingerprint) × Marks p s.world.1.threshold after.world.1.threshold
  unfolding run_pattern outcome_of_pattern
  run_pattern-some b base table p out s after h =
      let (host, s1, e1, h1) = >>=-some _ _ out s after h in
      let (u, s2, e2, h2) = >>=-some _ _ out s1 after h1 in
      let (v, s3, e3, h3) = >>=-some _ _ out s2 after h2 in
      let (final, s4, e4, h4) = >>=-some _ _ out s3 after h3 in
      let (f, (now, m)) = settle-some p final out s4 after h4 in
      let same : s4.world.1.threshold ≡ s.world.1.threshold =
        ap (λ x. x.threshold)
          (agent_step-Leaves b p _ final s3 s4 e4 ∙ tell-Leaves _ _ _ _ v s2 s3 e3)
        ∙ ap (λ x. x.threshold) (modify-some _ u s1 s2 e2)
        ∙ ap (λ x. x.threshold) (era_host-Leaves _ base _ host s s1 e1) in
      (ap (λ x. x.fingerprint) f, (now, m ∙ ap (λ x. mark_handled x p now) same))

  -- the engine knows when it handled the pattern
  abbrev pub IsHandled : Engine → FailurePattern → Type 0
  IsHandled e p = get p.fingerprint e.handled ≢ none

  Marks-IsHandled :
      (p q : FailurePattern) (before after : Engine)
      → Marks p before after
      → IsHandled before q
      → IsHandled after q
  unfolding mark_handled
  Marks-IsHandled p q before after (now, m) h e =
      let f : get q.fingerprint (put p.fingerprint now before.handled) ≡ none =
        subst (λ x. get q.fingerprint x.handled ≡ none) m e in
      ground (arith, f, get-put p.fingerprint q.fingerprint now before.handled, h)

  Marks-self :
      (p : FailurePattern) (before after : Engine) → Marks p before after → IsHandled after p
  unfolding mark_handled
  Marks-self p before after (now, m) e =
      let f : get p.fingerprint (put p.fingerprint now before.handled) ≡ none =
        subst (λ x. get p.fingerprint x.handled ≡ none) m e in
      ground (
        arith,
        f,
        get-put p.fingerprint p.fingerprint now before.handled,
        text_eq.same_iff p.fingerprint p.fingerprint,
      )

  abbrev pub fingerprints : List PatternOutcome → List Text
  fingerprints outs = map PatternOutcome.fingerprint outs

  abbrev Settles : List FailurePattern → List PatternOutcome → Engine → Engine → Type 0
  Settles ps outs before after =
      (fingerprints outs ≡ map FailurePattern.fingerprint ps)
      × All (IsHandled after) ps
      × ((q : FailurePattern) → IsHandled before q → IsHandled after q)

  run_patterns-Settles :
      (b : Batch o) (base : CodeHost World) (table : Dict Text LogEvent) (ps : List FailurePattern)
      (outs : List PatternOutcome) (s after : Session (World × Pipe o) (Action Float))
      → run_patterns o b base table ps s ≡ (some outs, after)
      → Settles ps outs s.world.1.threshold after.world.1.threshold
  unfolding run_patterns
  run_patterns-Settles b base table [] outs s after h =
      let e : s.world.1.threshold ≡ after.world.1.threshold =
        sym (ap (λ x. x.threshold) (pure-Leaves _ outs s after h)) in
      (ap fingerprints (pure-some _ outs s after h), tt, λ q k. subst (λ x. IsHandled x q) e k)
  run_patterns-Settles b base table (p ∷ ps) outs s after h =
      let (out, s1, e1, h1) = >>=-some _ _ outs s after h in
      let (rest, s2, e2, h2) = >>=-some _ _ outs s1 after h1 in
      let (f, m) = run_pattern-some b base table p out s s1 e1 in
      let (fs, all, keeps) = run_patterns-Settles b base table ps rest s1 s2 e2 in
      let e : s2.world.1.threshold ≡ after.world.1.threshold =
        sym (ap (λ x. x.threshold) (pure-Leaves _ outs s2 after h2)) in
      (
        ap fingerprints (pure-some _ outs s2 after h2)
            ∙ ap (λ x. x ∷ fingerprints rest) f
            ∙ ap (λ x. p.fingerprint ∷ x) fs,
        (
          subst (λ x. IsHandled x p) e
              (keeps p (Marks-self p s.world.1.threshold s1.world.1.threshold m)),
          All-map (λ q k. subst (λ x. IsHandled x q) e k) ps all,
        ),
        λ q k.
            subst (λ x. IsHandled x q) e
              (keeps q (Marks-IsHandled p q s.world.1.threshold s1.world.1.threshold m k)),
      )

  run_selected-Settles :
      (b : Batch o) (events : List LogEvent) (patterns selected : List FailurePattern)
      (r : PipelineRun) (s after : Session (World × Pipe o) (Action Float))
      → run_selected o b events patterns selected s ≡ (some r, after)
      → Settles selected r.outcomes s.world.1.threshold after.world.1.threshold
        × (after.world.1.code_host ≡ s.world.1.code_host)
        × (r.patterns_selected ≡ length selected)
  unfolding run_selected
  run_selected-Settles b events patterns selected r s after h =
      let (base, s1, e1, h1) = >>=-some _ _ r s after h in
      let (outs, s2, e2, h2) = >>=-some _ _ r s1 after h1 in
      let (u, s3, e3, h3) = >>=-some _ _ r s2 after h2 in
      let (v, s4, e4, h4) = >>=-some _ _ r s3 after h3 in
      let (base_eq, same1) = gets-some _ base s s1 e1 in
      let last : after.world.1 ≡ s3.world.1 =
        pure-Leaves _ r s4 after h4 ∙ tell-Leaves _ _ _ _ v s3 s4 e4 in
      let done = modify-some _ u s2 s3 e3 in
      let result = pure-some _ r s4 after h4 in
      let t0 : s1.world.1.threshold ≡ s.world.1.threshold = ap (λ x. x.world.1.threshold) same1 in
      let t1 : s2.world.1.threshold ≡ after.world.1.threshold =
        sym (ap (λ x. x.threshold) (last ∙ done)) in
      let h0 = run_patterns-Settles b base _ selected outs s1 s2 e2 in
      (
        subst (λ x. Settles selected x s.world.1.threshold after.world.1.threshold)
            (sym (ap (λ x. x.outcomes) result))
            (subst (λ x. Settles selected outs x after.world.1.threshold) t0
              (subst (λ x. Settles selected outs s1.world.1.threshold x) t1 h0)),
        ap (λ x. x.code_host) (last ∙ done) ∙ base_eq,
        ap (λ x. x.patterns_selected) result,
      )

  tell-world :
      (type step layer : String) (payload : Payload) (u : Unit {0})
      (s after : Session (World × Pipe o) (Action Float))
      → tell o type step layer payload s ≡ (some u, after)
      → after.world ≡ s.world
  unfolding tell record_event
  tell-world type step layer payload u s after h = sym (ap (λ x. x.1.world) h)

  tell_sensitive-world :
      (ps : List FailurePattern) (u : Unit {0}) (s after : Session (World × Pipe o) (Action Float))
      → tell_sensitive o ps s ≡ (some u, after)
      → after.world ≡ s.world
  unfolding tell_sensitive pure
  tell_sensitive-world [] u s after h = sym (ap (λ x. x.1.world) h)
  tell_sensitive-world (p ∷ ps) u s after h = tell-world _ _ _ _ u s after h

  -- the patterns that a run takes up
  abbrev pub taken_up : Regex → Digest → List LogEvent → World × Pipe o → List FailurePattern
  taken_up re d events w = select w.1.threshold (detect re d events) (o.now w.0)

  -- if a run of the pipeline returns, its outcomes are those of the selected patterns, one for
  -- each and in their order; each of these patterns is handled in the engine, a pattern handled
  -- before still is, and the code host is the one before the run.
  pub run-Settles :
      (re : Regex) (d : Digest) (b : Batch o) (run_meta : Payload) (events : List LogEvent)
      (r : PipelineRun) (s after : Session (World × Pipe o) (Action Float))
      → run o re d b run_meta events s ≡ (some r, after)
      → (fingerprints r.outcomes ≡ map FailurePattern.fingerprint (taken_up re d events s.world))
        × All (IsHandled after.world.1.threshold) (taken_up re d events s.world)
        × ((q : FailurePattern)
            → IsHandled s.world.1.threshold q
            → IsHandled after.world.1.threshold q)
        × (after.world.1.code_host ≡ s.world.1.code_host)
  unfolding run
  run-Settles re d b run_meta events r s after h =
      let (u1, s1, e1, h1) = >>=-some _ _ r s after h in
      let (u2, s2, e2, h2) = >>=-some _ _ r s1 after h1 in
      let (u3, s3, e3, h3) = >>=-some _ _ r s2 after h2 in
      let (u4, s4, e4, h4) = >>=-some _ _ r s3 after h3 in
      let (selected, s5, e5, h5) = >>=-some _ _ r s4 after h4 in
      let (threshold, s6, e6, h6) = >>=-some _ _ r s5 after h5 in
      let (u7, s7, e7, h7) = >>=-some _ _ r s6 after h6 in
      let w4 : s4.world ≡ s.world =
        tell_sensitive-world _ u4 s3 s4 e4
        ∙ tell-world _ _ _ _ u3 s2 s3 e3
        ∙ tell-world _ _ _ _ u2 s1 s2 e2
        ∙ tell-world _ _ _ _ u1 s s1 e1 in
      let (chosen, same5) = gets-some _ selected s4 s5 e5 in
      let w7 : s7.world ≡ s.world =
        tell-world _ _ _ _ u7 s6 s7 e7
        ∙ ap (λ x. x.world) (gets-some _ threshold s5 s6 e6).1
        ∙ ap (λ x. x.world) same5
        ∙ w4 in
      let picked : selected ≡ taken_up re d events s.world =
        chosen ∙ ap (taken_up re d events) w4 in
      let (settles, host, count) =
        run_selected-Settles b events (detect re d events) selected r s7 after h7 in
      let (fs, all, keeps) =
        subst (λ x. Settles x r.outcomes s.world.1.threshold after.world.1.threshold) picked
          (subst (λ w. Settles selected r.outcomes w.1.threshold after.world.1.threshold) w7
            settles) in
      (fs, all, keeps, host ∙ ap (λ w. w.1.code_host) w7)
