-- ===== src/Agent/Prompts.antt =====
-- The prompts of src/tvastr/agent: prompts.py, and those that the nodes of graph.py and the tool
-- fix_generation.py build. A list or number in a prompt is shown by the caller.
use tvastr_demo.Prelude.{
  is_empty, if◌then◌else◌, List, [], ◌∷◌, ◌++◌, take, Text, codes, Option, none, some,
}
use tvastr_demo.Prelude.Strings.{join}

abbrev pub investigate_system : Text
investigate_system =
    codes "You are a senior engineer debugging a reported bug by reading the "
    ++ codes "codebase. Follow this method strictly:\n1. ROOT CAUSE FIRST: do "
    ++ codes "not conclude until you have READ the actual code that proves the "
    ++ codes "cause; if you have not, keep investigating or report low "
    ++ codes "confidence.\n2. VERIFY THE REPORTER'S HYPOTHESIS: identify the "
    ++ codes "real symptom AND any cause the reporter guessed, and treat the "
    ++ codes "guess as a hypothesis to confirm against the code, not as fact.\n"
    ++ codes "3. CROSS-REFERENCE: compare related/sibling code paths (read vs "
    ++ codes "write vs delete) and look for the inconsistency that explains the "
    ++ codes "bug.\n4. CITE EVIDENCE: your root_cause must reference specific "
    ++ codes "file:line; set confidence by how well-corroborated it is; do not "
    ++ codes "guess.\n\nRespond with ONLY JSON. To investigate further:\n"
    ++ codes "{\"thought\": \"...\", \"actions\": [{\"search\": \"terms\"}, "
    ++ codes "{\"read_file\": \"path\"}, {\"list_dir\": \"dir\"}]}\nWhen you "
    ++ codes "have a proven root cause:\n{\"root_cause\": \"2-4 sentences "
    ++ codes "citing file:line\", \"suspected_files\": [\"path\"], "
    ++ codes "\"confidence\": 0.0-1.0, \"done\": true}"

abbrev pub doc_grounding_system : Text
doc_grounding_system =
    codes "You validate a bug diagnosis against authoritative external " ++ codes "documentation."

abbrev pub probe_system : Text
probe_system =
    codes "You decide whether validating a bug diagnosis requires inspecting "
    ++ codes "a third-party Python library's type definitions, and if so which "
    ++ codes "pip package defines them. Reply with ONLY one JSON object, no "
    ++ codes "prose."

abbrev pub fix_comparison_system : Text
fix_comparison_system =
    codes "You compare an autonomous agent's proposed fix against a human "
    ++ codes "maintainer's pull request for the same bug. Judge whether they "
    ++ codes "target the same root cause and are functionally equivalent. "
    ++ codes "Respond ONLY with JSON."

abbrev pub fix_generation_system : Text
fix_generation_system =
    codes "You are a senior software engineer producing minimal, correct "
    ++ codes "code fixes as JSON. Respond with a single JSON object — no prose, "
    ++ codes "no markdown fences, no commentary."

abbrev pub prompt_schema_hint : Text
prompt_schema_hint =
    codes "Produce a fix as JSON with this exact schema:\n{\n  \"summary\": "
    ++ codes "\"1-3 sentences describing the fix and why it addresses the root "
    ++ codes "cause\",\n  \"changes\": [\n    {\n      \"path\": \"<one of the "
    ++ codes "EDITABLE file paths shown above>\",\n      \"search\": \"<exact "
    ++ codes "verbatim substring from that file, including indentation and "
    ++ codes "newlines>\",\n      \"replace\": \"<the substring that should "
    ++ codes "appear in its place>\",\n      \"rationale\": \"<one sentence on "
    ++ codes "why this change>\"\n    }\n  ],\n  \"test_plan\": \"<2-4 "
    ++ codes "sentences on how to verify the fix>\"\n}\n\nConstraints:\n- The "
    ++ codes "\"search\" string MUST appear EXACTLY ONCE in the EDITABLE file "
    ++ codes "shown above. Include\n  enough surrounding lines (3+) to make it "
    ++ codes "unique.\n- Whitespace and indentation in \"search\" must match "
    ++ codes "the file byte-for-byte.\n- Keep edits surgical — modify only "
    ++ codes "what's needed to address the root cause.\n- If you cannot produce "
    ++ codes "a high-confidence fix from the context provided, return\n  "
    ++ codes "{\"summary\": \"...\", \"changes\": [], \"test_plan\": \"...\"} "
    ++ codes "and explain why in\n  \"summary\"."

abbrev pub comparison_schema_hint : Text
comparison_schema_hint =
    codes "Return JSON: {\"verdict\": \"match\"|\"partial\"|\"divergent\", "
    ++ codes "\"same_root_cause\": true|false, \"equivalence\": "
    ++ codes
        "\"functionally_equivalent\"|\"same_goal_different_approach\"|\"addresses_different_cause\", "
    ++ codes "\"rationale\": \"2-4 sentences\", \"confidence\": 0.0-1.0}. Use "
    ++ codes "EXACTLY these lowercase enum values — values like EQUIVALENT, "
    ++ codes "WEAK, or DIFFERENT are invalid."

-- `text or default`
abbrev pub or_text : Text → Text → Text
or_text [] d = d
or_text (c ∷ s) d = c ∷ s

unfoldable pub build_probe_prompt : Text → Text → List Text → Text → Text
build_probe_prompt title summary suspected_files issue_snippet =
    codes "Failure: "
    ++ title
    ++ codes "\nCurrent diagnosis: "
    ++ summary
    ++ codes "\nSuspected repository files: "
    ++ or_text (join (codes ", ") suspected_files) (codes "(none)")
    ++ codes "\n\nIssue excerpt:\n"
    ++ take 1500 issue_snippet
    ++ codes "\n\nDoes validating this diagnosis depend on the exact shape of a "
    ++ codes "third-party (pip-installable) library's objects — response types, "
    ++ codes "field names, enums? Answer with ONLY this JSON:\n{\"relevant\": "
    ++ codes "<bool>, \"package\": \"<pip distribution defining those types, "
    ++ codes "e.g. google-genai>\", \"version_hint\": \"<that package's version "
    ++ codes "if the issue states one, else null>\", \"keywords\": [\"2-4 "
    ++ codes "class/field names to locate, e.g. usage_metadata\"]}"

abbrev crosscheck : Text
crosscheck =
    codes "FIRST, cross-check field names: list each attribute or key the "
    ++ codes "suspect code reads from the third-party library's objects, and "
    ++ codes "check each one against the SDK type definitions above. If a field "
    ++ codes "the code reads is missing there but the definitions carry a "
    ++ codes "similarly-named field (a rename, e.g. old vs new API versions), "
    ++ codes "that mismatch is the most likely root cause — name both fields "
    ++ codes "explicitly in your summary.\n\n"

unfoldable pub build_grounding_prompt : Text → Text → Text → Text → Text
build_grounding_prompt title diagnosis schema_block code_context =
    codes "Failure: "
    ++ title
    ++ codes "\nCurrent diagnosis: "
    ++ diagnosis
    ++ codes "\n\n"
    ++ (if is_empty schema_block then [] else schema_block ++ codes "\n\n")
    ++ codes "Code context:\n"
    ++ or_text code_context (codes "(none)")
    ++ codes "\n\n"
    ++ (if is_empty schema_block then [] else crosscheck)
    ++ codes "Validate this diagnosis against authoritative external "
    ++ codes "documentation. Use web_search ONLY if the root cause depends on "
    ++ codes "third-party API/library behavior (e.g. a renamed field or changed "
    ++ codes "return shape in a dependency). Return ONLY the corrected "
    ++ codes "root-cause summary in 2-4 sentences; if the original was correct, "
    ++ codes "restate it concisely."

-- `code` is the code read so far, formatted
unfoldable pub investigate_prompt : Text → Text → Text → List Text → Text
investigate_prompt title issue_body code transcript =
    codes "Issue: "
    ++ title
    ++ codes "\n\n"
    ++ take 4000 issue_body
    ++ codes "\n\nCode read so far:\n"
    ++ or_text code (codes "(none)")
    ++ codes "\n\nTool results so far:\n"
    ++ or_text (join (codes "\n") transcript) (codes "(none)")
    ++ codes "\n\nInvestigate further or finish with a proven root_cause."

unfoldable pub synthesis_prompt : Text → Text → Text → List Text → Text
synthesis_prompt title issue_body code transcript =
    codes "Issue: "
    ++ title
    ++ codes "\n\n"
    ++ take 4000 issue_body
    ++ codes "\n\nCode read so far:\n"
    ++ or_text code (codes "(none)")
    ++ codes "\n\nTool results so far:\n"
    ++ or_text (join (codes "\n") transcript) (codes "(none)")
    ++ codes "\n\nYour investigation budget is exhausted — no more tools. Based "
    ++ codes "only on the evidence above, give your final JSON now with "
    ++ codes "root_cause, suspected_files, and an honest confidence (low if "
    ++ codes "genuinely unproven)."

unfoldable pub pr_description_prompt : Text → Text → Text → Text
pr_description_prompt title summary fix_summary =
    codes "Write a clear, professional pull request description for this "
    ++ codes "fix.\nFailure: "
    ++ title
    ++ codes "\nRoot cause: "
    ++ summary
    ++ codes "\nFix summary: "
    ++ fix_summary
    ++ codes "\n"

unfoldable pub pr_body : Text → Text → Text → Text → Text → Text
pr_body description summary test_plan count fingerprint =
    codes "## Summary\n"
    ++ description
    ++ codes "\n\n## Root cause\n"
    ++ summary
    ++ codes "\n\n## Test plan\n"
    ++ test_plan
    ++ codes "\n\n---\n_Opened automatically by tvastr from "
    ++ count
    ++ codes " recurring failures (fingerprint `"
    ++ fingerprint
    ++ codes "`)._"

-- the read-only part, if there is a file to show
abbrev read_only : Option Text → Text
read_only none = []
read_only (some blob) =
    codes "READ-ONLY context (do NOT edit — examples/docs):\n" ++ blob ++ codes "\n\n"

unfoldable pub fix_prompt : Text → Text → Text → Text → Option Text → Text
fix_prompt title message summary editable_blob context_blob =
    codes "Failure: "
    ++ title
    ++ codes "\nRepresentative message: "
    ++ message
    ++ codes "\nRoot cause: "
    ++ summary
    ++ codes "\n\nEDITABLE source files (your fix MUST target one of these):\n"
    ++ or_text editable_blob (codes "(no source files retrieved)")
    ++ codes "\n\n"
    ++ read_only context_blob
    ++ prompt_schema_hint

unfoldable pub comparison_prompt : Text → Text → Text → Text → Text → Text × Text × Text → Text
comparison_prompt title summary our_blob number_text their_blob overlap =
    codes "ISSUE: "
    ++ title
    ++ codes "\nAGENT ROOT CAUSE: "
    ++ summary
    ++ codes "\n\nAGENT FIX:\n"
    ++ or_text our_blob (codes "(no changes)")
    ++ codes "\n\nHUMAN PR #"
    ++ number_text
    ++ codes ":\n"
    ++ or_text their_blob (codes "(none)")
    ++ codes "\n\nFile overlap (computed): both="
    ++ overlap.0
    ++ codes ", agent_only="
    ++ overlap.1
    ++ codes ", human_only="
    ++ overlap.2
    ++ codes "\n\n"
    ++ comparison_schema_hint
