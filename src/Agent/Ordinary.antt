-- ===== src/Agent/Ordinary.antt =====
-- The nodes of src/tvastr/agent/graph.py between the gate and the opening of a pull request ask,
-- read and tell; they open and send nothing.
use tvastr_demo.Prelude.{List, [], ◌∷◌, Option, none, some, String, Text}
use tvastr_demo.Prelude.Does.{
  Does, pure-Does, raise-Does, perform-Does, attempt-Does, record_event-Does, >>=-Does, if-Does,
}
use tvastr_demo.Json.{Payload}
use tvastr_demo.Domain.{RoutingDecision, RootCause, FailurePattern, FileChange}
use tvastr_demo.Llm.{Response}
use tvastr_demo.Analysis.Discovery.{PullRequestRef, PrDiff}
use tvastr_demo.Analysis.Comparison.{FixComparison, compare_fix_to_pr, returned}
use tvastr_demo.Agent.Services.{
  Services, SourceFile, Question, Action, asked, searched, read_file, listed_dir, installed,
  emitted, opened, notified, dated, saved, gated, Context, emit, ask_router,
}
use tvastr_demo.Agent.Schema.{SchemaProbe, Snippet}
use tvastr_demo.Agent.Fixes.{Parsing, generate_fix, proposal}
use tvastr_demo.Agent.Nodes.{
  State, skip_schema, show_snippets, use_package, use_probe, use_probe_answer, sdk_schema_evidence,
  schema_block, use_grounding, ground_with, skip_grounding, ground_if, ground_root_cause, require,
  generate_fix_node,
}
use tvastr_demo.Agent.Graph.{
  skip_benchmark, use_comparison, try_comparison, compare_with, compare_to_pr, draft_pr,
}

module _ (o : Services) where
  open o use {Float}

  abbrev pub IsOrdinary : Action Float → Type 0
  IsOrdinary (asked q) = Unit
  IsOrdinary (searched t) = Unit
  IsOrdinary (read_file t) = Unit
  IsOrdinary (listed_dir t) = Unit
  IsOrdinary (emitted t layer step p) = Unit
  IsOrdinary (installed t v) = Unit
  IsOrdinary (opened d) = ⊥
  IsOrdinary (notified m) = ⊥
  IsOrdinary (dated t) = ⊥
  IsOrdinary (saved r) = ⊥
  IsOrdinary (gated c b) = ⊥

  pub emit-IsOrdinary :
      (type step : String) (payload : Payload) → Does IsOrdinary (emit o type step payload)
  unfolding emit
  emit-IsOrdinary type step payload = record_event-Does (emitted type "agent" step payload) tt

  pub ask-IsOrdinary : (q : Question) → Does IsOrdinary (ask_router o q)
  unfolding ask_router
  ask-IsOrdinary q = perform-Does (asked q) (o.ask q) tt

  ruleset steps = (emit-IsOrdinary, ask-IsOrdinary, pure-Does, raise-Does, attempt-Does, >>=-Does)

  skip_schema-IsOrdinary :
      (reason : Text) (extra : Payload) → Does IsOrdinary (skip_schema o reason extra)
  unfolding skip_schema
  skip_schema-IsOrdinary reason extra = search steps

  show_snippets-IsOrdinary :
      (probe : SchemaProbe) (version : Text) (ss : List Snippet)
      → Does IsOrdinary (show_snippets o probe version ss)
  unfolding show_snippets
  show_snippets-IsOrdinary probe version [] = skip_schema-IsOrdinary _ _
  show_snippets-IsOrdinary probe version (s ∷ ss) = search steps

  use_package-IsOrdinary :
      (probe : SchemaProbe) (r : Option (Option (Text × List SourceFile)))
      → Does IsOrdinary (use_package o probe r)
  unfolding use_package
  use_package-IsOrdinary probe none = skip_schema-IsOrdinary _ _
  use_package-IsOrdinary probe (some none) = skip_schema-IsOrdinary _ _
  use_package-IsOrdinary probe (some (some (version, files))) =
      show_snippets-IsOrdinary probe version _

  use_probe-IsOrdinary : (p : Option SchemaProbe) → Does IsOrdinary (use_probe o p)
  unfolding use_probe
  use_probe-IsOrdinary none = skip_schema-IsOrdinary _ _
  use_probe-IsOrdinary (some probe) =
      >>=-Does _ _ (attempt-Does _ (perform-Does (installed _ _) (o.fetch_sdk _ _) tt))
        (use_package-IsOrdinary probe)

  use_probe_answer-IsOrdinary :
      (r : Option (Response × RoutingDecision)) → Does IsOrdinary (use_probe_answer o r)
  unfolding use_probe_answer
  use_probe_answer-IsOrdinary none = skip_schema-IsOrdinary _ _
  use_probe_answer-IsOrdinary (some (response, decision)) = use_probe-IsOrdinary _

  schema_block-IsOrdinary :
      (ctx : Context o) (rc : RootCause Float) (s : State o)
      → Does IsOrdinary (schema_block o ctx rc s)
  unfolding schema_block sdk_schema_evidence
  schema_block-IsOrdinary ctx rc s =
      if-Does _ _ _ (>>=-Does _ _ (attempt-Does _ (ask-IsOrdinary _)) use_probe_answer-IsOrdinary)
        (pure-Does [])

  use_grounding-IsOrdinary :
      (rc : RootCause Float) (s : State o) (r : Option (Response × RoutingDecision))
      → Does IsOrdinary (use_grounding o rc s r)
  unfolding use_grounding
  use_grounding-IsOrdinary rc s none = search steps
  use_grounding-IsOrdinary rc s (some (response, decision)) = search steps

  ground_with-IsOrdinary :
      (ctx : Context o) (s : State o) (rc : RootCause Float)
      → Does IsOrdinary (ground_with o ctx s rc)
  unfolding ground_with
  ground_with-IsOrdinary ctx s rc =
      search (steps, schema_block-IsOrdinary, use_grounding-IsOrdinary)

  skip_grounding-IsOrdinary : (s : State o) → Does IsOrdinary (skip_grounding o s)
  unfolding skip_grounding
  skip_grounding-IsOrdinary s = search steps

  ground_if-IsOrdinary :
      (ctx : Context o) (s : State o) (rc : Option (RootCause Float))
      → Does IsOrdinary (ground_if o ctx s rc)
  unfolding ground_if
  ground_if-IsOrdinary ctx s none = skip_grounding-IsOrdinary s
  ground_if-IsOrdinary ctx s (some rc) =
      if-Does _ _ _ (ground_with-IsOrdinary ctx s rc) (skip_grounding-IsOrdinary s)

  pub ground_root_cause-IsOrdinary :
      (ctx : Context o) (s : State o) → Does IsOrdinary (ground_root_cause o ctx s)
  unfolding ground_root_cause
  ground_root_cause-IsOrdinary ctx s = ground_if-IsOrdinary ctx s s.root_cause

  pub require-IsOrdinary : {A : Type 0} (r : Option A) → Does IsOrdinary (require o r)
  unfolding require
  require-IsOrdinary none = raise-Does
  require-IsOrdinary (some a) = pure-Does a

  proposal-IsOrdinary :
      (p : Parsing) (pattern : FailurePattern) (d : RoutingDecision)
      (r : Option (List FileChange × Text × Text))
      → Does IsOrdinary (proposal o p pattern d r)
  unfolding proposal
  proposal-IsOrdinary p pattern d none = raise-Does
  proposal-IsOrdinary p pattern d (some (changes, summary, plan)) = pure-Does _

  generate_fix-IsOrdinary :
      (p : Parsing) (pattern : FailurePattern) (rc : RootCause Float) (files : List (Text × Text))
      → Does IsOrdinary (generate_fix o p pattern rc files)
  unfolding generate_fix
  generate_fix-IsOrdinary p pattern rc files = search (steps, proposal-IsOrdinary)

  pub generate_fix_node-IsOrdinary :
      (p : Parsing) (s : State o) → Does IsOrdinary (generate_fix_node o p s)
  unfolding generate_fix_node
  generate_fix_node-IsOrdinary p s = search (steps, require-IsOrdinary, generate_fix-IsOrdinary)

  skip_benchmark-IsOrdinary :
      (reason : Text) (s : State o) → Does IsOrdinary (skip_benchmark o reason s)
  unfolding skip_benchmark
  skip_benchmark-IsOrdinary reason s = search steps

  use_comparison-IsOrdinary :
      (pr : PullRequestRef) (s : State o) (r : Option (FixComparison Float × RoutingDecision))
      → Does IsOrdinary (use_comparison o pr s r)
  unfolding use_comparison
  use_comparison-IsOrdinary pr s none = skip_benchmark-IsOrdinary _ s
  use_comparison-IsOrdinary pr s (some (c, decision)) = search steps

  returned-IsOrdinary :
      (c : Option (FixComparison Float)) (decision : RoutingDecision)
      → Does IsOrdinary (returned o c decision)
  unfolding returned
  returned-IsOrdinary none decision = raise-Does
  returned-IsOrdinary (some c) decision = pure-Does (c, decision)

  try_comparison-IsOrdinary :
      (pr : PullRequestRef) (diff : PrDiff) (s : State o)
      → Does IsOrdinary (try_comparison o pr diff s)
  unfolding try_comparison compare_fix_to_pr
  try_comparison-IsOrdinary pr diff s = search (steps, require-IsOrdinary, returned-IsOrdinary)

  compare_with-IsOrdinary :
      (s : State o) (pr : Option PullRequestRef) (diff : Option PrDiff)
      → Does IsOrdinary (compare_with o s pr diff)
  unfolding compare_with
  compare_with-IsOrdinary s (some pr) (some diff) =
      search (steps, try_comparison-IsOrdinary, use_comparison-IsOrdinary)
  compare_with-IsOrdinary s (some pr) none = skip_benchmark-IsOrdinary _ s
  compare_with-IsOrdinary s none diff = skip_benchmark-IsOrdinary _ s

  pub compare_to_pr-IsOrdinary : (s : State o) → Does IsOrdinary (compare_to_pr o s)
  unfolding compare_to_pr
  compare_to_pr-IsOrdinary s = compare_with-IsOrdinary s s.pr_ref s.pr_diff

  pub draft_pr-IsOrdinary : (s : State o) → Does IsOrdinary (draft_pr o s)
  unfolding draft_pr
  draft_pr-IsOrdinary s = search (steps, require-IsOrdinary) depth 9
