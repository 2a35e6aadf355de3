-- ===== src/Tests/Agents.antt =====
-- The agent, its tools and the pipeline on concrete services, and their theorems there.
use tvastr_demo.Prelude.{
  ℕ, nat_beq, false, if◌then◌else◌, [], ◌∷◌, Option, none, some, Text, codes, ◌≡◌, refl, arith, All,
  Any, contains, keep,
}
use tvastr_demo.Prelude.Dicts.{Dict, get, put}
use tvastr_demo.Prelude.Sorting.{sort, insert}
use tvastr_demo.Prelude.Strings.{text_ltb, starts_with, join, strip}
use tvastr_demo.Prelude.Phases.{Runs}
use tvastr_demo.Json.{Value, object, close, string}
use tvastr_demo.Json.Extract.{
  DecodesObjects, extract_json, extract_all_json, first, extract_json-first,
}
use tvastr_demo.Domain.{FileChange}
use tvastr_demo.Analysis.Discovery.{SearchItem, rank_of, rank_ltb, best_item, discover_pr}
use tvastr_demo.Analysis.Choice.{Precedes, best_item-Precedes, IsBounded, discover_pr-IsBounded}
use tvastr_demo.Agent.Services.{clamp}
use tvastr_demo.Agent.Edits.{
  build_real_changes, apply_operations, apply_operation, finish_edit, accept_edit, file_changes,
  editable_files, is_doc_example, has_segment, apply_change, count_from, replace_first,
}
use tvastr_demo.Agent.FixSafety.{IsSafe, fix_parts-IsSafe}
use tvastr_demo.Agent.Fixes.{ParsedFix, fix_parts, changes_or_fallback, default_test_plan}
use tvastr_demo.Agent.Investigate.{investigate}
use tvastr_demo.Agent.Graph.{run}
use tvastr_demo.Agent.Uses.{Uses}
use tvastr_demo.Agent.Bounds.{Concludes, investigate-Uses}
use tvastr_demo.Agent.Gate.{Moves, investigating, Finishes, run-Finishes}
use tvastr_demo.Tests.Samples.{sample_event}
use tvastr_demo.Tests.Outside.{
  sample_services, sample_services-FloatLaws, sample_host, sample_context, sample_parsing,
  sample_pattern, sample_state,
}

run-Finishes_example :
    Runs
      (Moves sample_services sample_context)
      investigating
      (run sample_services sample_context sample_parsing sample_state)
      (Finishes sample_services)
run-Finishes_example =
    run-Finishes sample_services sample_services-FloatLaws sample_context sample_parsing
      sample_state refl

investigate-Uses_example :
    Runs
      (Uses sample_services)
      0
      (investigate sample_services sample_host sample_pattern (sample_event 5 "boom" ∷ []) none)
      (Concludes sample_services)
investigate-Uses_example =
    investigate-Uses sample_services sample_services-FloatLaws sample_host sample_pattern
      (sample_event 5 "boom" ∷ []) none

-- a confidence that is no number becomes the highest
clamp-nan : clamp sample_services none ≡ some 100
unfolding clamp
clamp-nan = refl

-- two open pull requests, the first of which was updated later
abbrev newer_pr : SearchItem
newer_pr = record {
  number = 2;
  title = codes "b";
  state = codes "open";
  merged = false;
  updated_at = codes "2026-02-01";
  html_url = [];
}

abbrev older_pr : SearchItem
older_pr = record newer_pr { number = 1; updated_at = codes "2026-01-01" }

best_item-older : best_item (newer_pr ∷ older_pr ∷ []) ≡ some older_pr
unfolding best_item sort insert rank_ltb text_ltb rank_of
best_item-older = refl

best_item-Precedes_example :
    All (Precedes older_pr) (newer_pr ∷ older_pr ∷ [])
    × Any (λ y. y ≡ older_pr) (newer_pr ∷ older_pr ∷ [])
best_item-Precedes_example = best_item-Precedes (newer_pr ∷ older_pr ∷ []) older_pr best_item-older

discover_pr-IsBounded_example :
    IsBounded
      (discover_pr 5 6 false (some (codes "t")) (codes "a/b", 1) (some (newer_pr ∷ [])) []).1
discover_pr-IsBounded_example =
    discover_pr-IsBounded 5 6 false (some (codes "t")) (codes "a/b", 1) (some (newer_pr ∷ [])) []
      (omega arith)

-- a decoder that finds an empty object at every brace
abbrev empty_objects : Text → Option (Value × ℕ)
empty_objects (c ∷ s) = if nat_beq c b'{' then some (object close, 1) else none
empty_objects [] = none

empty_objects-DecodesObjects : DecodesObjects empty_objects
empty_objects-DecodesObjects s v size h = (close, ground (arith, h))

extract_json-first_example :
    extract_json empty_objects (codes "a{}")
    ≡ first empty_objects (extract_all_json empty_objects (codes "a{}"))
extract_json-first_example =
    extract_json-first empty_objects empty_objects-DecodesObjects (codes "a{}")

abbrev one_file : Dict Text Text
one_file = (codes "a.py", codes "x = 1") ∷ []

abbrev sample_fix : ParsedFix
sample_fix = record {
  summary = codes "swap";
  changes =
      record {
        path = codes "a.py";
        search = codes "x";
        replace = codes "y";
        rationale = string (codes "r");
      }
      ∷ [];
  test_plan = [];
}

abbrev sample_change : FileChange
sample_change = record {
  path = codes "a.py";
  original_snippet = none;
  patched_content = codes "y = 1";
  rationale = codes "r";
  diff = some (codes "x = 1y = 1");
}

fix_parts-sample :
    fix_parts sample_services sample_parsing sample_pattern [] one_file (some sample_fix)
    ≡ some (sample_change ∷ [], codes "swap", default_test_plan)
unfolding fix_parts build_real_changes apply_operations apply_operation finish_edit accept_edit
    file_changes editable_files is_doc_example has_segment apply_change count_from replace_first
    changes_or_fallback get contains keep starts_with put join strip
fix_parts-sample = refl

fix_parts-IsSafe_example : IsSafe (editable_files one_file) (sample_change ∷ [])
fix_parts-IsSafe_example =
    fix_parts-IsSafe sample_services sample_parsing sample_pattern [] one_file (some sample_fix)
      (sample_change ∷ []) (codes "swap") default_test_plan (tt, tt)
      (λ e. absurd (ground (arith, e))) fix_parts-sample
