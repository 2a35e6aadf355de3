-- ===== src/Agent/Graph.antt =====
-- The act path and the entry point of src/tvastr/agent/graph.py. The compiled graph is a chain of
-- nodes with one branch; LangGraph runs it along its edges and merges what each node returns.
use tvastr_demo.Prelude.{
  Bool, true, false, if◌then◌else◌, length, map, [], ◌∷◌, ◌++◌, Option, none, some, String, Text,
  codes, string_eq, ◌==◌, default_to,
}
use tvastr_demo.Prelude.Strings.{join}
use tvastr_demo.Prelude.Steps.{pure, perform, attempt, ◌>>=◌, ◌>>◌}
use tvastr_demo.Json.{Payload, array, string, number, bool, texts}
use tvastr_demo.Domain.{
  RoutingDecision, RootCause, FileChange, FixProposal, PullRequestDraft, PullRequestResult,
  pr_description,
}
use tvastr_demo.Analysis.Discovery.{PullRequestRef, PrDiff}
use tvastr_demo.Analysis.Comparison.{FixComparison, compare_fix_to_pr}
use tvastr_demo.Agent.Prompts.{or_text, pr_description_prompt, pr_body}
use tvastr_demo.Agent.Services.{Services, Context, Node, opened, notified, emit, ask_router}
use tvastr_demo.Agent.Fixes.{Parsing}
use tvastr_demo.Agent.Nodes.{
  State, pattern_payload, opt_number, verdict_name, equivalence_name, require, investigate_node,
  confidence_gate, ground_root_cause, generate_fix_node,
}

-- the outcome that a result stands for
unfoldable pub outcome_of : PullRequestResult → String
outcome_of r = if r.dry_run then "dry_run" else if r.created then "pr_opened" else "failed"

-- the type and the payload of the event that tells it
unfoldable pub result_event : PullRequestResult → String × Payload
result_event r =
    if r.dry_run
    then ("pr.dry_run", ("url", string r.url) ∷ ("branch", string r.branch) ∷ [])
    else if r.created
    then ("pr.opened", ("url", string r.url) ∷ ("number", opt_number r.number) ∷ [])
    else ("pr.failed", ("reason", string (codes "create_pull returned created=False")) ∷ [])

module _ (o : Services) where
  open o use {Float, World}

  unfoldable pub skip_benchmark : Text → State o → Node o (State o)
  skip_benchmark reason s = do
    emit o "benchmark.skipped" "compare_to_pr" (("reason", string reason) ∷ [])
    pure s

  unfoldable pub use_comparison :
      PullRequestRef → State o → Option (FixComparison Float × RoutingDecision) → Node o (State o)
  use_comparison pr s none = skip_benchmark (codes "comparison error: " ++ o.exception_text) s
  use_comparison pr s (some (c, decision)) = do
    emit o "benchmark.compared" "compare_to_pr" (
        ("verdict", string (verdict_name c.verdict))
        ∷ ("same_root_cause", bool c.same_root_cause)
        ∷ ("equivalence", string (equivalence_name c.equivalence))
        ∷ ("files_both", array (texts c.files_both))
        ∷ ("files_ours_only", array (texts c.files_ours_only))
        ∷ ("files_theirs_only", array (texts c.files_theirs_only))
        ∷ ("rationale", string c.rationale)
        ∷ ("confidence", o.float_value c.confidence)
        ∷ ("pr_number", number false pr.number 0)
        ∷ ("pr_url", string pr.url)
        ∷ [])
    pure (record s { fix_comparison = some c; routing = s.routing ++ decision ∷ [] })

  -- the `try` of `_compare_to_pr`: a missing root cause or fix raises in it
  unfoldable pub try_comparison :
      PullRequestRef → PrDiff → State o → Node o (FixComparison Float × RoutingDecision)
  try_comparison pr diff s = do
    rc ← require o s.root_cause
    fix ← require o s.fix
    compare_fix_to_pr o s.pattern.title rc.summary fix pr diff

  unfoldable pub compare_with : State o → Option PullRequestRef → Option PrDiff → Node o (State o)
  compare_with s (some pr) (some diff) = do
    emit o "agent.node.start" "compare_to_pr" (("pr", number false pr.number 0) ∷ [])
    result ← attempt (try_comparison pr diff s)
    use_comparison pr s result
  compare_with s (some pr) none = skip_benchmark (codes "no upstream PR found") s
  compare_with s none diff = skip_benchmark (codes "no upstream PR found") s

  -- `_compare_to_pr`
  unfoldable pub compare_to_pr : State o → Node o (State o)
  unfolding compare_with
  compare_to_pr s = compare_with s s.pr_ref s.pr_diff

  abbrev pub draft_of : State o → RootCause Float → FixProposal → Text → PullRequestDraft
  draft_of s rc fix description = record {
    pattern_id = s.pattern.id;
    title = codes "fix: " ++ s.pattern.title;
    body =
        pr_body description rc.summary fix.test_plan (o.decimal s.pattern.count)
          s.pattern.fingerprint;
    branch = codes "tvastr/fix-" ++ s.pattern.fingerprint;
    base = codes "main";
    changes = fix.changes;
  }

  -- `_draft_pr`
  unfoldable pub draft_pr : State o → Node o (State o)
  draft_pr s = do
    rc ← require o s.root_cause
    fix ← require o s.fix
    emit o "agent.node.start" "draft_pr" (pattern_payload o s)
    (response, decision) ← ask_router o (record {
      task = pr_description;
      prompt = pr_description_prompt s.pattern.title rc.summary fix.summary;
      sensitivity = s.pattern.sensitivity;
      system = none;
      web_search = false;
    })
    let draft = draft_of s rc fix response.text
    emit o "pr.drafted" "draft_pr" (
        ("title", string draft.title)
        ∷ ("branch", string draft.branch)
        ∷ ("files", array (texts (map FileChange.path draft.changes)))
        ∷ ("body", string draft.body)
        ∷ [])
    pure (record s { pr_draft = some draft; routing = s.routing ++ decision ∷ [] })

  -- `_open_pr`
  unfoldable pub open_pr : Context o → State o → Node o (State o)
  open_pr ctx s = do
    draft ← require o s.pr_draft
    emit o "agent.node.start" "open_pr" (("branch", string draft.branch) ∷ [])
    result ← perform (opened draft) (ctx.code_host.open_pull_request draft)
    emit o (result_event result).0 "open_pr" (result_event result).1
    pure (record s { pr_result = some result; outcome = some (outcome_of result) })

  abbrev file_list : PullRequestDraft → Text
  file_list draft = or_text (join (codes ", ") (map FileChange.path draft.changes)) (codes "(none)")

  -- the message and the notes of `_notify`, behind its tests
  unfoldable pub opened_texts : State o → PullRequestResult → Text × Text
  opened_texts s result = (
    codes ":wrench: tvastr opened a PR for *" ++ (s.pattern.title ++ (codes "* → " ++ result.url)),
    codes "PR opened: " ++ result.url,
  )

  unfoldable pub dry_run_texts : State o → PullRequestDraft → Text × Text
  dry_run_texts s draft = (
    codes ":construction: tvastr [DRY-RUN] would open PR for *"
        ++ (s.pattern.title
            ++ (codes "* — "
                ++ (o.decimal (length draft.changes) ++ (codes " file(s): " ++ file_list draft)))),
    codes "Dry-run: no PR created. Proposed files: " ++ file_list draft,
  )

  unfoldable pub escalation_texts : State o → Text × Text
  escalation_texts s = (
    codes ":mag: tvastr flagged *"
        ++ (s.pattern.title
            ++ (codes "* ("
                ++ (o.decimal s.pattern.count
                    ++ codes "x) for human review — root-cause confidence too low to auto-fix."))),
    codes "Escalated to human (low confidence).",
  )

  unfoldable pub notify_texts :
      State o → String → Option PullRequestResult → Option PullRequestDraft → Text × Text
  notify_texts s outcome result draft =
      let skipped = escalation_texts s in
      if outcome == "pr_opened"
      then elim result [ none ↦ skipped | some r ↦ opened_texts s r ]
      else if outcome == "dry_run"
      then elim draft [ none ↦ skipped | some d ↦ dry_run_texts s d ]
      else skipped

  unfoldable pub notify_with : State o → String → Text × Text → Node o (State o)
  notify_with s outcome (message, notes) = do
    emit o "agent.node.start" "notify" (("outcome", string (codes outcome)) ∷ [])
    perform (notified message) (o.send message)
    emit o "notify.sent" "notify"
        (("channel", string (codes "slack")) ∷ ("message", string message) ∷ [])
    pure (record s { outcome = some outcome; notes = notes })

  -- `_notify`
  unfoldable pub notify : State o → Node o (State o)
  unfolding notify_texts notify_with
  notify s =
      let outcome = default_to "skipped" s.outcome in
      notify_with s outcome (notify_texts s outcome s.pr_result s.pr_draft)

  -- the edges from `ground_root_cause` to `open_pr`
  unfoldable pub act : Context o → Parsing → State o → Node o (State o)
  act ctx p s =
      ground_root_cause o ctx s
      >>= generate_fix_node o p
      >>= compare_to_pr
      >>= draft_pr
      >>= open_pr ctx

  -- the conditional edge behind the gate
  unfoldable pub branch : Context o → Parsing → State o → Bool → Node o (State o)
  branch ctx p s true = act ctx p s
  branch ctx p s false = pure s

  -- `RemediationAgent.run`: the whole graph
  unfoldable pub run : Context o → Parsing → State o → Node o (State o)
  run ctx p s = do
    s ← investigate_node o ctx s
    decision ← confidence_gate o ctx s
    s ← branch ctx p s decision
    notify s
