-- ===== src/Agent/Nodes.antt =====
-- The nodes of src/tvastr/agent/graph.py behind the investigation, and the state that they share.
use tvastr_demo.Prelude.{
  ℕ, Bool, true, false, not, if◌then◌else◌, is_empty, length, map, List, [], ◌∷◌, ◌++◌, Option,
  none, some, String, Text, codes, text_eq, string_eq, ◌==◌,
}
use tvastr_demo.Prelude.Dicts.{Dict}
use tvastr_demo.Prelude.Strings.{strip}
use tvastr_demo.Prelude.Steps.{pure, raise, perform, attempt, record_event, ◌>>=◌, ◌>>◌}
use tvastr_demo.Json.{Value, Payload, Values, end, item, null, array, string, number, bool, texts}
use tvastr_demo.Domain.{
  FixRegister, repair, fail_fast, warn, better_error, document, FailurePattern, LogEvent,
  RoutingDecision, RootCause, FileChange, FixProposal, PullRequestDraft, PullRequestResult,
  doc_grounding, schema_probe,
}
use tvastr_demo.Llm.{Response}
use tvastr_demo.Analysis.Discovery.{PullRequestRef, PrDiff}
use tvastr_demo.Analysis.Comparison.{
  FixComparison, Verdict, matches, partial, divergent, Equivalence, functionally_equivalent,
  same_goal_different_approach, addresses_different_cause,
}
use tvastr_demo.Agent.Prompts.{
  or_text, doc_grounding_system, probe_system, build_grounding_prompt, build_probe_prompt,
}
use tvastr_demo.Agent.Services.{
  Services, SourceFile, Context, Node, installed, gated, emit, ask_router,
}
use tvastr_demo.Agent.Retrieval.{format_code_for_prompt, text_or_empty}
use tvastr_demo.Agent.Investigate.{add_files, investigate}
use tvastr_demo.Agent.Schema.{
  SchemaProbe, Snippet, parse_probe, extract_schema_snippets, format_schema_block,
}
use tvastr_demo.Agent.Fixes.{Parsing, generate_fix}

-- a dict whose keys are free text is shown as the list of its entries
unfoldable pub entries : List (Text × Text) → Values
entries [] = end
entries ((k, v) ∷ es) = item (array (item (string k) (item (string v) end))) (entries es)

abbrev pub opt_text : Option Text → Value
opt_text none = null
opt_text (some s) = string s

abbrev pub opt_number : Option ℕ → Value
opt_number none = null
opt_number (some n) = number false n 0

-- a diff that is not empty, in front
abbrev pub add_row : Text → Option Text → List (Text × Text) → List (Text × Text)
add_row path none rows = rows
add_row path (some d) rows = if is_empty d then rows else (path, d) ∷ rows

unfoldable pub diffs_of : List FileChange → List (Text × Text)
diffs_of [] = []
diffs_of (c ∷ cs) = add_row c.path c.diff (diffs_of cs)

-- the dict that a comprehension makes of its rows
unfoldable pub text_dict : List (Text × Text) → Dict Text Text
unfolding add_files
text_dict rows = add_files rows []

abbrev pub register_name : FixRegister → Text
register_name repair = codes "repair"
register_name fail_fast = codes "fail_fast"
register_name warn = codes "warn"
register_name better_error = codes "better_error"
register_name document = codes "document"

abbrev pub content_row : FileChange → Text × Text
content_row c = (c.path, c.patched_content)

abbrev pub rationale_row : FileChange → Text × Text
rationale_row c = (c.path, c.rationale)

-- the payload of `fix.generated`
unfoldable pub fix_payload : FixProposal → Payload
unfolding diffs_of entries text_dict
fix_payload fix =
    ("files", array (texts (map FileChange.path fix.changes)))
    ∷ ("summary", string fix.summary)
    ∷ ("test_plan", string fix.test_plan)
    ∷ ("diffs", array (entries (text_dict (diffs_of fix.changes))))
    ∷ ("patched_files", array (entries (text_dict (map content_row fix.changes))))
    ∷ ("rationales", array (entries (text_dict (map rationale_row fix.changes))))
    ∷ ("register", string (register_name fix.register))
    ∷ []

abbrev pub verdict_name : Verdict → Text
verdict_name matches = codes "match"
verdict_name partial = codes "partial"
verdict_name divergent = codes "divergent"

abbrev pub equivalence_name : Equivalence → Text
equivalence_name functionally_equivalent = codes "functionally_equivalent"
equivalence_name same_goal_different_approach = codes "same_goal_different_approach"
equivalence_name addresses_different_cause = codes "addresses_different_cause"

module _ (o : Services) where
  open o use {Float, World}

  -- `AgentState`; the keys that no node has set are none
  pub record State : Type 0 where
    pub pattern : FailurePattern
    pub sample_events : List LogEvent
    pub pr_ref : Option PullRequestRef
    pub pr_diff : Option PrDiff
    pub issue_body : Option Text
    pub code_files : Dict Text Text
    pub code_context : Text
    pub suspected_files : List Text
    pub root_cause : Option (RootCause Float)
    pub fix : Option FixProposal
    pub fix_comparison : Option (FixComparison Float)
    pub pr_draft : Option PullRequestDraft
    pub pr_result : Option PullRequestResult
    pub routing : List RoutingDecision
    pub doc_sources : List Text
    pub outcome : Option String
    pub notes : Text

  abbrev pub pattern_payload : State → Payload
  pattern_payload s = ("pattern", string s.pattern.fingerprint) ∷ []

  unfoldable pub investigate_node : Context o → State → Node o State
  investigate_node ctx s = do
    (rc, ev) ← investigate o ctx.code_host s.pattern s.sample_events s.issue_body
    pure (record s {
      root_cause = some rc;
      suspected_files = rc.suspected_files;
      code_files = ev.code_files;
      code_context = format_code_for_prompt ev.code_files;
      routing = s.routing ++ ev.decisions;
    })

  abbrev pub confidence_or_zero : Option (RootCause Float) → Float
  confidence_or_zero none = o.zero
  confidence_or_zero (some rc) = rc.confidence

  -- `_confidence_gate`; true stands for "act"
  unfoldable pub confidence_gate : Context o → State → Node o Bool
  confidence_gate ctx s = do
    record_event (
        gated (confidence_or_zero s.root_cause)
          (o.le ctx.min_confidence (confidence_or_zero s.root_cause)))
    pure (o.le ctx.min_confidence (confidence_or_zero s.root_cause))

  -- `_skip` of `_sdk_schema_evidence`
  unfoldable pub skip_schema : Text → Payload → Node o Text
  skip_schema reason extra = do
    emit o "doc.sdk_schema" "ground_root_cause" (
        ("ok", bool false)
        ∷ ("reason", string reason)
        ∷ ("snippets", number false 0 0)
        ∷ ("files", array end)
        ∷ extra)
    pure []

  unfoldable pub show_snippets : SchemaProbe → Text → List Snippet → Node o Text
  show_snippets probe version [] =
      skip_schema (codes "no schema matches") (("package", string probe.distribution) ∷ [])
  show_snippets probe version (s ∷ ss) = do
    emit o "doc.sdk_schema" "ground_root_cause" (
        ("ok", bool true)
        ∷ ("package", string probe.distribution)
        ∷ ("version", string version)
        ∷ ("snippets", number false (length (s ∷ ss)) 0)
        ∷ ("files", array (texts (map Snippet.path (s ∷ ss))))
        ∷ [])
    pure (format_schema_block probe.distribution (s ∷ ss))

  unfoldable pub use_package : SchemaProbe → Option (Option (Text × List SourceFile)) → Node o Text
  use_package probe none = skip_schema (codes "schema evidence error: " ++ o.exception_text) []
  use_package probe (some none) =
      skip_schema (codes "fetch failed: " ++ probe.distribution)
        (("package", string probe.distribution) ∷ [])
  use_package probe (some (some (version, files))) =
      show_snippets probe version
        (extract_schema_snippets o.class_starts o.splitlines files probe.keywords)

  unfoldable pub use_probe : Option SchemaProbe → Node o Text
  use_probe none = skip_schema (codes "probe: not relevant or unparseable") []
  use_probe (some probe) = do
    fetched ← attempt (
        perform (installed probe.distribution probe.version_hint)
          (o.fetch_sdk probe.distribution probe.version_hint))
    use_package probe fetched

  unfoldable pub use_probe_answer : Option (Response × RoutingDecision) → Node o Text
  use_probe_answer none = skip_schema (codes "probe error: " ++ o.exception_text) []
  use_probe_answer (some (response, decision)) = use_probe (parse_probe o response.text)

  -- `_sdk_schema_evidence`
  unfoldable pub sdk_schema_evidence : RootCause Float → State → Node o Text
  sdk_schema_evidence rc s = do
    answer ← attempt (
        ask_router o (record {
          task = schema_probe;
          prompt =
              build_probe_prompt s.pattern.title rc.summary rc.suspected_files
                (text_or_empty s.issue_body);
          sensitivity = s.pattern.sensitivity;
          system = some probe_system;
          web_search = false;
        }))
    use_probe_answer answer

  unfoldable pub schema_block : Context o → RootCause Float → State → Node o Text
  schema_block ctx rc s = if ctx.sdk_schema_grounding then sdk_schema_evidence rc s else pure []

  -- `root_cause.model_copy(update=update)`
  abbrev pub grounded : RootCause Float → Response → RootCause Float
  grounded rc response =
      let summary = or_text (strip response.text) rc.summary in
      record rc {
        summary = summary;
        reasoning = if summary == rc.summary then rc.reasoning else response.text;
      }

  unfoldable pub use_grounding :
      RootCause Float → State → Option (Response × RoutingDecision) → Node o State
  use_grounding rc s none = do
    emit o "doc.skipped" "ground_root_cause"
        (("reason", string (codes "grounding error: " ++ o.exception_text)) ∷ [])
    pure s
  use_grounding rc s (some (response, decision)) = do
    emit o "doc.grounded" "ground_root_cause" (
        ("searched", bool (not (is_empty response.sources)))
        ∷ ("changed", bool (not (or_text (strip response.text) rc.summary == rc.summary)))
        ∷ ("sources", array (texts response.sources))
        ∷ [])
    pure (record s {
      root_cause = some (grounded rc response);
      doc_sources = response.sources;
      routing = s.routing ++ decision ∷ [];
    })

  unfoldable pub ground_with : Context o → State → RootCause Float → Node o State
  ground_with ctx s rc = do
    emit o "agent.node.start" "ground_root_cause" (pattern_payload s)
    block ← schema_block ctx rc s
    answer ← attempt (
        ask_router o (record {
          task = doc_grounding;
          prompt = build_grounding_prompt s.pattern.title rc.summary block s.code_context;
          sensitivity = s.pattern.sensitivity;
          system = some doc_grounding_system;
          web_search = true;
        }))
    use_grounding rc s answer

  unfoldable pub skip_grounding : State → Node o State
  skip_grounding s = do
    emit o "doc.skipped" "ground_root_cause" (("reason", string (codes "grounding disabled")) ∷ [])
    pure s

  unfoldable pub ground_if : Context o → State → Option (RootCause Float) → Node o State
  ground_if ctx s none = skip_grounding s
  ground_if ctx s (some rc) = if ctx.doc_grounding then ground_with ctx s rc else skip_grounding s

  -- `_ground_root_cause`
  unfoldable pub ground_root_cause : Context o → State → Node o State
  unfolding ground_if
  ground_root_cause ctx s = ground_if ctx s s.root_cause

  -- `state[key]` of a key that may be missing
  unfoldable pub require : {A : Type 0} → Option A → Node o A
  require none = raise
  require (some a) = pure a

  -- `_generate_fix`
  unfoldable pub generate_fix_node : Parsing → State → Node o State
  generate_fix_node p s = do
    emit o "agent.node.start" "generate_fix" (pattern_payload s)
    rc ← require s.root_cause
    (fix, decision) ← generate_fix o p s.pattern rc s.code_files
    emit o "fix.generated" "generate_fix" (fix_payload fix)
    pure (record s { fix = some fix; routing = s.routing ++ decision ∷ [] })
