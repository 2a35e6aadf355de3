-- ===== src/Tests/Privacy.antt =====
-- Redaction and routing at concrete inputs.
use tvastr_demo.Prelude.{
  ◌≡◌, ◌≢◌, refl, true, false, String, List, [], ◌∷◌, ◌++◌, none, some, All, Any, Pairwise, any,
  contains, Text, codes, ◌==◌, string_eq, arith,
}
use tvastr_demo.Prelude.Sorting.{sort}
use tvastr_demo.Prelude.Dicts.{get}
use tvastr_demo.Domain.{internal, root_cause}
use tvastr_demo.Pii.{
  redact, contains_pii, accepted_spans, regex_candidates, later, model_candidates, model_spans,
  label_entities, redact_accepted, marker,
}
use tvastr_demo.Pii.Resolve.{Candidate, resolve, before, accept, overlaps}
use tvastr_demo.Pii.Resolve.Accepted.{Disjoint, Covers}
use tvastr_demo.Pii.Floor.{model_off, regex_floor, accepted_spans-Disjoint, regex_match_covered}
use tvastr_demo.Pii.Splice.{spliced, redact-spliced}
use tvastr_demo.Pii.Labels.{redact-labels, flagged_is_redacted}
use tvastr_demo.Llm.{Client, Router, run}
use tvastr_demo.Llm.Boundary.{RespectsBoundary, run-RespectsBoundary}
use tvastr_demo.Tests.Samples.{sample_regex, sample_regex-SearchesFirst, sample_model, sample_text}

abbrev sample_redacted : Text
sample_redacted = codes "[REDACTED:PERSON]: a[REDACTED:EMAIL]b 1[REDACTED:IP]2"

redact-sample_text :
    redact sample_regex sample_model sample_text ≡ (sample_redacted, "EMAIL" ∷ "IP" ∷ "PERSON" ∷ [])
unfolding redact resolve sort before accept overlaps any regex_candidates model_candidates
    model_spans label_entities get redact_accepted marker contains
redact-sample_text = refl

regex_floor_example :
    (more : List Candidate) × (accepted_spans sample_regex sample_model sample_text
      ≡ accepted_spans sample_regex model_off sample_text ++ more)
regex_floor_example = regex_floor sample_regex sample_model sample_text

accepted_spans-Disjoint_example :
    Pairwise Disjoint (accepted_spans sample_regex sample_model sample_text)
accepted_spans-Disjoint_example = accepted_spans-Disjoint sample_regex sample_model sample_text

regex_match_covered_example :
    All
      (λ c. Any (Covers c) (accepted_spans sample_regex sample_model sample_text))
      (regex_candidates sample_regex sample_text)
regex_match_covered_example = regex_match_covered sample_regex sample_model sample_text

redact-spliced_example :
    (redact sample_regex sample_model sample_text).0
    ≡ spliced (sort later (accepted_spans sample_regex sample_model sample_text)) 12 sample_text
unfolding regex_candidates model_candidates model_spans label_entities get
redact-spliced_example =
    redact-spliced sample_regex sample_model sample_text (omega arith) (omega arith)

redact-labels_example :
    contains "IP" (redact sample_regex sample_model sample_text).1
    ≡ any
        (λ (c : Candidate). "IP" == c.label)
        (accepted_spans sample_regex sample_model sample_text)
redact-labels_example = redact-labels sample_regex sample_model sample_text "IP"

contains_pii-sample_text : contains_pii sample_regex sample_text ≡ true
unfolding contains_pii any
contains_pii-sample_text = refl

flagged_is_redacted_example : (redact sample_regex sample_model sample_text).1 ≢ []
flagged_is_redacted_example =
    flagged_is_redacted sample_regex sample_regex-SearchesFirst sample_model sample_text
      contains_pii-sample_text

contains_pii-clean : contains_pii sample_regex (codes "clean") ≡ false
unfolding contains_pii any
contains_pii-clean = refl

abbrev sample_client : String → Client
sample_client name = record {
  model = codes name;
  complete =
      λ q. some (record { text = q.prompt; model = codes name; mocked = true; sources = [] });
}

abbrev sample_router : Router
sample_router = record {
  local_client = sample_client "ollama";
  cloud_client = sample_client "claude";
}

run-RespectsBoundary_example :
    All
      (RespectsBoundary sample_regex sample_model root_cause sample_text)
      (run sample_regex sample_model sample_router root_cause sample_text internal none true).1
run-RespectsBoundary_example =
    run-RespectsBoundary sample_regex sample_model sample_router root_cause sample_text internal
      none true
