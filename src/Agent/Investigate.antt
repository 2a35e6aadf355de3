-- ===== src/Agent/Investigate.antt =====
-- The investigation of src/tvastr/agent/graph.py: `_investigate` and `_final_synthesis`.
use tvastr_demo.Prelude.{
  ℕ, zero, suc, ◌+◌, false, ◌||◌, leb, if◌then◌else◌, contains, length, map, List, [], ◌∷◌, ◌++◌,
  Option, none, some, Text, codes, text_eq, string_eq,
}
use tvastr_demo.Prelude.Dicts.{Dict, get, put, keys}
use tvastr_demo.Prelude.Steps.{pure, raise, attempt, ◌>>=◌, ◌>>◌}
use tvastr_demo.Json.{
  Value, Payload, end, array, string, number, object, Fields, truthy, to_text, texts, lookup,
  get_or, find_field, or_value, update, iterate,
}
use tvastr_demo.Json.Extract.{extract_all_json}
use tvastr_demo.Domain.{FailurePattern, LogEvent, RoutingDecision, RootCause, root_cause}
use tvastr_demo.Llm.{Response}
use tvastr_demo.Integrations.{CodeHost}
use tvastr_demo.Agent.Prompts.{investigate_system, investigate_prompt, synthesis_prompt, or_text}
use tvastr_demo.Agent.Services.{Services, Question, Node, emit, ask_router, clamp, clamp_confidence}
use tvastr_demo.Agent.Retrieval.{
  add_new, text_or_empty, extract_stack_files, extract_issue_files, format_code_for_prompt,
  retrieve_code_files, search_codebase, list_dir,
}

abbrev pub max_context_files : ℕ
max_context_files = 12

abbrev pub max_investigate_rounds : ℕ
max_investigate_rounds = 4

-- what the investigation has gathered: its local variables
pub record Evidence : Type 0 where
  pub code_files : Dict Text Text
  pub seen : List Text
  pub transcript : List Text
  pub decisions : List RoutingDecision

-- `code_files.update(fetched)`
unfoldable pub add_files : Dict Text Text → Dict Text Text → Dict Text Text
add_files [] files = files
add_files ((path, content) ∷ fetched) files = add_files fetched (put path content files)

unfoldable pub merge_all : Payload → List Fields → Payload
merge_all merged [] = merged
merge_all merged (obj ∷ objs) = merge_all (update merged obj) objs

abbrev no_list : Value
no_list = array end

-- the parts of the issue that the prompts show
pub record Issue : Type 0 where
  pub pattern : FailurePattern
  pub body : Text

module _ (o : Services) where
  -- `_parse_investigation`
  unfoldable pub parse_investigation : Text → Payload
  unfolding merge_all
  parse_investigation text = merge_all [] (extract_all_json o.raw_decode text)

  unfoldable pub investigation_question :
      (Text → Text → Text → List Text → Text) → Issue → Evidence → Question
  investigation_question prompt issue ev = record {
    task = root_cause;
    prompt =
        prompt issue.pattern.title issue.body (format_code_for_prompt ev.code_files) ev.transcript;
    sensitivity = issue.pattern.sensitivity;
    system = some investigate_system;
    web_search = false;
  }

  -- `parsed.get("confidence", 0.5)`, clamped
  unfoldable pub confidence_of : Option Value → Option o.Float
  confidence_of none = some (clamp o o.half)
  confidence_of (some v) = clamp_confidence o v

  abbrev or_files : List Text → Dict Text Text → List Text
  or_files [] files = keys files
  or_files (p ∷ ps) files = p ∷ ps

  -- the `RootCause` of a response; it raises if the suspected files cannot be iterated, or the
  -- confidence is an int that is too large for a float
  unfoldable pub root_cause_of : Issue → Evidence → Payload → Text → Option (RootCause o.Float)
  root_cause_of issue ev parsed reasoning =
      elim (iterate (or_value (lookup "suspected_files" parsed) no_list)) [
        | none ↦ none
        | some items ↦ elim (confidence_of (get "confidence" parsed)) [
          | none ↦ none
          | some sure ↦ some (record {
            pattern_id = issue.pattern.id;
            summary = to_text o.show (lookup "root_cause" parsed);
            suspected_files = or_files (map (to_text o.show) items) ev.code_files;
            confidence = sure;
            reasoning = reasoning;
          })
        ]
      ]

  unfoldable pub found :
      Option (RootCause o.Float) → Evidence → Node o (Option (RootCause o.Float) × Evidence)
  found none ev = raise
  found (some rc) ev = pure (some rc, ev)

  -- the part of `_final_synthesis` behind the call
  unfoldable pub conclude_synthesis :
      Issue
      → Evidence
      → Option (Response × RoutingDecision)
      → Node o (Option (RootCause o.Float) × Evidence)
  conclude_synthesis issue ev none = pure (none, ev)
  conclude_synthesis issue ev (some (response, decision)) =
      let after = record ev { decisions = ev.decisions ++ decision ∷ [] } in
      let parsed = parse_investigation response.text in
      if truthy (lookup "root_cause" parsed)
      then found (root_cause_of issue after parsed response.text) after
      else pure (none, after)

  -- `_final_synthesis`, with the decisions in the evidence
  unfoldable pub final_synthesis : Issue → Evidence → Node o (Option (RootCause o.Float) × Evidence)
  final_synthesis issue ev = do
    emit o "tool.call" "investigate.final_synthesis" (
        ("reason", string (codes "round budget exhausted"))
        ∷ ("files_read", number false (length ev.code_files) 0)
        ∷ [])
    answer ← attempt (ask_router o (investigation_question synthesis_prompt issue ev))
    conclude_synthesis issue ev answer

  unfoldable pub note_search : Text → Evidence → Option (List Text) → Node o Evidence
  note_search query ev none = pure ev
  note_search query ev (some hits) = do
    emit o "tool.call" "search_codebase"
        (("query", string query) ∷ ("paths", array (texts hits)) ∷ [])
    pure (record ev {
      transcript =
          ev.transcript
          ++ (codes "search " ++ (o.repr query ++ (codes " -> " ++ o.repr_all hits))) ∷ [];
    })

  abbrev pub insufficient : FailurePattern → Evidence → RootCause o.Float
  insufficient pattern ev = record {
    pattern_id = pattern.id;
    summary = codes "insufficient evidence to determine the root cause";
    suspected_files = keys ev.code_files;
    confidence = o.zero;
    reasoning = codes "investigator did not converge within the round budget";
  }

  -- the event behind the loop
  unfoldable pub tell_cause : RootCause o.Float → Evidence → Node o (RootCause o.Float × Evidence)
  tell_cause rc ev = do
    emit o "agent.node.end" "investigate" (
        ("confidence", o.float_value rc.confidence)
        ∷ ("summary", string rc.summary)
        ∷ ("files_read", number false (length ev.code_files) 0)
        ∷ [])
    pure (rc, ev)

  unfoldable pub finish :
      FailurePattern → Option (RootCause o.Float) × Evidence → Node o (RootCause o.Float × Evidence)
  finish pattern (none, ev) = tell_cause (insufficient pattern ev) ev
  finish pattern (some rc, ev) = tell_cause rc ev

module _ (o : Services) (host : CodeHost o.World) where
  unfoldable pub search_action : Text → Evidence → Node o Evidence
  search_action query ev = do
    hits ← attempt (search_codebase o host query)
    note_search o query ev hits

  -- a file that was read, or tried, before is passed over, and so is one beyond the budget
  unfoldable pub read_action : Text → Evidence → Node o Evidence
  read_action path ev =
      if contains path ev.seen || leb max_context_files (length ev.code_files) then pure ev else do
        fetched ← retrieve_code_files o host (path ∷ []) 1
        emit o "tool.call" "retrieve_code_files" (
            ("requested", number false 1 0)
            ∷ ("retrieved", number false (length fetched) 0)
            ∷ ("paths", array (texts (keys fetched)))
            ∷ [])
        pure (record ev {
          code_files = add_files fetched ev.code_files;
          seen = add_new (path ∷ []) ev.seen;
        })

  unfoldable pub list_action : Text → Evidence → Node o Evidence
  list_action path ev = do
    entries ← list_dir o host path
    emit o "tool.call" "list_dir" (("path", string path) ∷ ("entries", array (texts entries)) ∷ [])
    pure (record ev {
      transcript =
          ev.transcript
          ++ (codes "list_dir " ++ (o.repr path ++ (codes " -> " ++ o.repr_all entries))) ∷ [];
    })

  -- the tests of an action, in order
  unfoldable pub choose_action :
      Option Value → Option Value → Option Value → Evidence → Node o Evidence
  choose_action (some query) _ _ ev = search_action (to_text o.show query) ev
  choose_action none (some path) _ ev = read_action (to_text o.show path) ev
  choose_action none none (some path) ev = list_action (to_text o.show path) ev
  choose_action none none none ev = pure ev

  unfoldable pub do_action : Value → Evidence → Node o Evidence
  do_action (object fields) ev =
      choose_action (find_field "search" fields) (find_field "read_file" fields)
        (find_field "list_dir" fields) ev
  do_action _ ev = pure ev

  unfoldable pub do_actions : List Value → Evidence → Node o Evidence
  do_actions [] ev = pure ev
  do_actions (act ∷ acts) ev = do after ← do_action act ev; do_actions acts after

  -- the actions of a round, and what comes next; actions that cannot be iterated raise
  unfoldable pub run_actions :
      (Evidence → Node o (Option (RootCause o.Float) × Evidence))
      → Evidence
      → Option (List Value)
      → Node o (Option (RootCause o.Float) × Evidence)
  run_actions next ev none = raise
  run_actions next ev (some acts) = do_actions acts ev >>= next

  unfoldable pub act_on :
      ℕ
      → Payload
      → (Evidence → Node o (Option (RootCause o.Float) × Evidence))
      → Evidence
      → Node o (Option (RootCause o.Float) × Evidence)
  act_on round parsed next ev = do
    emit o "tool.call" "investigate.round" (
        ("round", number false (round + 1) 0)
        ∷ ("thought", string (to_text o.show (get_or "thought" (string []) parsed)))
        ∷ [])
    run_actions next ev (iterate (lookup "actions" parsed))

  -- the part of a round behind the call of the model
  unfoldable pub after_answer :
      Issue
      → ℕ
      → (Evidence → Node o (Option (RootCause o.Float) × Evidence))
      → Evidence
      → Option (Response × RoutingDecision)
      → Node o (Option (RootCause o.Float) × Evidence)
  after_answer issue round next ev none = pure (none, ev)
  after_answer issue round next ev (some (response, decision)) =
      let after = record ev { decisions = ev.decisions ++ decision ∷ [] } in
      let parsed = parse_investigation o response.text in
      if truthy (lookup "root_cause" parsed)
      then found o (root_cause_of o issue after parsed response.text) after
      else if truthy (lookup "actions" parsed)
      then act_on round parsed next after
      else pure (none, after)

  -- the loop: the rounds that are left, and the number of the round
  unfoldable pub investigate_rounds :
      Issue → ℕ → ℕ → Evidence → Node o (Option (RootCause o.Float) × Evidence)
  investigate_rounds issue zero round ev = final_synthesis o issue ev
  investigate_rounds issue (suc left) round ev = do
    answer ← attempt (ask_router o (investigation_question o investigate_prompt issue ev))
    after_answer issue round (investigate_rounds issue left (round + 1)) ev answer

  -- the free seed: the files of the stack traces and those that the issue names
  unfoldable pub seed : List Text → Node o Evidence
  seed [] = pure (record { code_files = []; seen = []; transcript = []; decisions = [] })
  seed (path ∷ paths) = do
    emit o "tool.call" "extract_stack_files"
        (("source", string (codes "free_seed")) ∷ ("paths", array (texts (path ∷ paths))) ∷ [])
    fetched ← retrieve_code_files o host (path ∷ paths) 5
    pure (record {
      code_files = add_files fetched [];
      seen = path ∷ paths;
      transcript = [];
      decisions = [];
    })

  -- `_investigate`: the root cause, and the evidence behind the loop
  unfoldable pub investigate :
      FailurePattern → List LogEvent → Option Text → Node o (RootCause o.Float × Evidence)
  investigate pattern events issue_body = do
    emit o "agent.node.start" "investigate" (("pattern", string pattern.fingerprint) ∷ [])
    ev ← seed (
        add_new (extract_issue_files o (text_or_empty issue_body))
          (extract_stack_files o events []))
    result ←
        investigate_rounds
          (record {
            pattern = pattern;
            body =
                or_text (text_or_empty issue_body)
                  (or_text pattern.representative_message pattern.title);
          })
          max_investigate_rounds 0 ev
    finish o pattern result
