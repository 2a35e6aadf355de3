-- ===== src/Agent/Fixes.antt =====
-- The rest of src/tvastr/agent/tools/fix_generation.py: a response is parsed, its operations are
-- applied, and a placeholder stands for what cannot be applied.
use tvastr_demo.Prelude.{
  false, not, if◌then◌else◌, contains, keep, take, List, [], ◌∷◌, ◌++◌, Option, none, some, Text,
  codes, text_eq, string_eq,
}
use tvastr_demo.Prelude.Dicts.{Dict, keys}
use tvastr_demo.Prelude.Strings.{strip, starts_with}
use tvastr_demo.Prelude.Steps.{pure, raise, ◌>>=◌}
use tvastr_demo.Json.{
  Value, Values, end, item, array, string, object, Fields, as_text, to_text, field_or, lookup_field,
}
use tvastr_demo.Domain.{
  FailurePattern, FileChange, FixProposal, RootCause, RoutingDecision, repair, fix_generation,
}
use tvastr_demo.Agent.Prompts.{fix_generation_system, fix_prompt, or_text}
use tvastr_demo.Agent.Services.{Services, Node, ask_router}
use tvastr_demo.Agent.Retrieval.{format_code_for_prompt}
use tvastr_demo.Agent.Edits.{Operation, editable_files, build_real_changes}

-- `_ParsedFix`
pub record ParsedFix : Type 0 where
  pub summary : Text
  pub changes : List Operation
  pub test_plan : Text

-- `json.loads`, and the regular expressions that take a response apart: the text without its
-- fences, and the first greedy `{…}`
pub record Parsing : Type 0 where
  pub loads : Text → Option Value
  pub strip_fences : Text → Text
  pub braces : Text → Option Text

module _ (p : Parsing) where
  abbrev or_block : Option Text → Option Value
  or_block none = none
  or_block (some block) = p.loads block

  -- `_extract_json`
  unfoldable pub extract_fix : Text → Option Value
  extract_fix text =
      let stripped = strip text in
      let bare =
        if starts_with (codes "```") stripped then strip (p.strip_fences stripped) else stripped in
      elim (p.loads bare) [ none ↦ or_block (p.braces text) | some v ↦ some v ]

abbrev operation_of : Option Text → Option Text → Option Text → Value → Option Operation
operation_of (some path) (some search) (some replace) rationale =
    some (record { path = path; search = search; replace = replace; rationale = rationale })
operation_of _ _ _ rationale = none

-- an entry of `changes`, if it is a dict with the three strings
unfoldable pub valid_change : Value → Option Operation
valid_change (object fields) =
    operation_of (as_text (lookup_field "path" fields)) (as_text (lookup_field "search" fields))
      (as_text (lookup_field "replace" fields)) (field_or "rationale" (string []) fields)
valid_change _ = none

abbrev with_change : Option Operation → List Operation → List Operation
with_change none rest = rest
with_change (some op) rest = op ∷ rest

unfoldable pub valid_changes : Values → List Operation
valid_changes end = []
valid_changes (item v vs) = with_change (valid_change v) (valid_changes vs)

-- the part of `_parse_response` behind the two tests of types
unfoldable pub parse_object : (Value → Text) → Fields → Value → Option ParsedFix
parse_object show obj (array vs) = some (record {
  summary = strip (to_text show (field_or "summary" (string []) obj));
  changes = valid_changes vs;
  test_plan = strip (to_text show (field_or "test_plan" (string []) obj));
})
parse_object show obj _ = none

unfoldable pub parse_value : (Value → Text) → Option Value → Option ParsedFix
parse_value show (some (object obj)) = parse_object show obj (lookup_field "changes" obj)
parse_value show _ = none

-- `next(iter(code_files), "UNKNOWN.py")`
unfoldable pub first_path : Dict Text Text → Text
first_path [] = codes "UNKNOWN.py"
first_path ((path, content) ∷ files) = path

-- `_fallback_changes`
unfoldable pub fallback_changes : FailurePattern → Text → Dict Text Text → List FileChange
unfolding first_path
fallback_changes pattern response code_files =
    record {
      path = first_path code_files;
      original_snippet = none;
      patched_content =
          codes "# tvastr: fix proposal could not be applied automatically.\n# Pattern: "
          ++ (pattern.title
              ++ (codes "\n# Model output:\n# " ++ (take 500 (strip response) ++ codes "\n")));
      rationale = codes "model output could not be parsed/validated; placeholder emitted";
      diff = none;
    }
    ∷ []

abbrev pub default_test_plan : Text
default_test_plan =
    codes "Add a regression test reproducing the failure; assert it no longer occurs."

-- changes that can be applied, or the placeholder, with the summary
unfoldable pub changes_or_fallback :
    FailurePattern → Text → Dict Text Text → Text → List FileChange → List FileChange × Text
changes_or_fallback pattern response editable summary [] =
    (fallback_changes pattern response editable, or_text summary (take 500 (strip response)))
changes_or_fallback pattern response editable summary (c ∷ cs) =
    (c ∷ cs, or_text summary (codes "Fix proposal."))

module _ (o : Services) (p : Parsing) where
  -- `_parse_response`
  unfoldable pub parse_response : Text → Option ParsedFix
  unfolding extract_fix parse_value parse_object
  parse_response text = parse_value o.show (extract_fix p text)

  -- the changes, the summary and the test plan of a response; `none` raises
  unfoldable pub fix_parts :
      FailurePattern
      → Text
      → Dict Text Text
      → Option ParsedFix
      → Option (List FileChange × Text × Text)
  fix_parts pattern response code_files none = some (
    fallback_changes pattern response (editable_files code_files),
    take 500 (strip response),
    default_test_plan,
  )
  fix_parts pattern response code_files (some parsed) =
      let editable = editable_files code_files in
      elim (build_real_changes o.unified_diff parsed.changes code_files editable) [
        | none ↦ none
        | some (changes, errors) ↦
            let (cs, summary) =
              changes_or_fallback pattern response editable parsed.summary changes in
            some (cs, summary, or_text parsed.test_plan default_test_plan)
      ]

  unfoldable pub proposal :
      FailurePattern
      → RoutingDecision
      → Option (List FileChange × Text × Text)
      → Node o (FixProposal × RoutingDecision)
  proposal pattern decision none = raise
  proposal pattern decision (some (changes, summary, test_plan)) = pure (
    record {
      pattern_id = pattern.id;
      summary = summary;
      changes = changes;
      test_plan = test_plan;
      register = repair;
    },
    decision,
  )

  abbrev context_blob : Dict Text Text → Option Text
  context_blob [] = none
  context_blob (e ∷ files) = some (format_code_for_prompt (e ∷ files))

  unfoldable pub context_only : Dict Text Text → Dict Text Text → Dict Text Text
  context_only code_files editable = keep (λ e. not (contains e.0 (keys editable))) code_files

  -- `generate_fix`
  unfoldable pub generate_fix :
      FailurePattern → RootCause o.Float → Dict Text Text → Node o (FixProposal × RoutingDecision)
  generate_fix pattern rc code_files = do
    (response, decision) ← ask_router o (record {
      task = fix_generation;
      prompt =
          fix_prompt pattern.title pattern.representative_message rc.summary
            (format_code_for_prompt (editable_files code_files))
            (context_blob (context_only code_files (editable_files code_files)));
      sensitivity = pattern.sensitivity;
      system = some fix_generation_system;
      web_search = false;
    })
    proposal pattern decision
        (fix_parts pattern response.text code_files (parse_response response.text))
