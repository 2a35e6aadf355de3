-- ===== src/Tests/Editing.antt =====
-- The search and replace edits at concrete inputs.
use tvastr_demo.Prelude.{
  List, [], ◌∷◌, contains, keep, none, some, Text, codes, ◌≡◌, refl, All, arith,
}
use tvastr_demo.Prelude.Dicts.{Dict, get, put}
use tvastr_demo.Prelude.Strings.{starts_with, strip, join}
use tvastr_demo.Json.{string}
use tvastr_demo.Domain.{FileChange}
use tvastr_demo.Agent.Edits.{
  count_from, replace_first, apply_change, edited, refused, not_found, not_unique, not_editable,
  Refusal, Operation, has_segment, is_doc_example, editable_files, apply_operations,
  apply_operation, accept_edit, finish_edit, file_changes, build_real_changes,
}
use tvastr_demo.Agent.EditSafety.{
  IsEdit, IsRealChange, apply_change-IsEdit, build_real_changes-IsRealChange,
}

abbrev two_files : Dict Text Text
two_files = (codes "src/a.py", codes "x = 1") ∷ (codes "docs/b.py", codes "y = 2") ∷ []

abbrev operation : Text → Text → Text → Operation
operation path search replace = record {
  path = path;
  search = search;
  replace = replace;
  rationale = string [];
}

abbrev three_operations : List Operation
three_operations =
    operation (codes "src/a.py") (codes "1") (codes "3")
    ∷ operation (codes "docs/b.py") (codes "2") (codes "4")
    ∷ operation (codes "src/a.py") (codes "1") (codes "5")
    ∷ []

abbrev no_diff : Text → Text → Text → Text
no_diff path a b = []

abbrev edited_file : FileChange
edited_file = record {
  path = codes "src/a.py";
  original_snippet = none;
  patched_content = codes "x = 3";
  rationale = codes "edit applied";
  diff = some [];
}

abbrev two_errors : List (Text × Refusal)
two_errors = (codes "docs/b.py", not_editable) ∷ (codes "src/a.py", not_found) ∷ []

edits_are_applied :
    build_real_changes no_diff three_operations two_files (editable_files two_files)
    ≡ some (edited_file ∷ [], two_errors)
unfolding build_real_changes apply_operations apply_operation finish_edit accept_edit file_changes
    apply_change count_from replace_first editable_files is_doc_example has_segment starts_with
    strip join get contains keep put
edits_are_applied = refl

-- a search string that stands there twice, with an overlap, counts once
overlap_counts_once : count_from 0 (codes "aba") (codes "ababa") ≡ 1
unfolding count_from starts_with
overlap_counts_once = refl

twice_is_refused : apply_change (codes "a a") (codes "a") (codes "b") ≡ refused (not_unique 2)
unfolding apply_change count_from starts_with
twice_is_refused = refl

once_is_edited : apply_change (codes "x = 1") (codes "1") (codes "2") ≡ edited (codes "x = 2")
unfolding apply_change count_from replace_first starts_with
once_is_edited = refl

apply_change-IsEdit_example :
    IsEdit (codes "1") (codes "2") (codes "x = 1") (codes "x = 2")
    × (count_from 0 (codes "1") (codes "x = 1") ≡ 1)
apply_change-IsEdit_example =
    apply_change-IsEdit (codes "x = 1") (codes "1") (codes "2") (codes "x = 2") once_is_edited

build_real_changes-IsRealChange_example :
    All (IsRealChange two_files (editable_files two_files)) (edited_file ∷ [])
build_real_changes-IsRealChange_example =
    build_real_changes-IsRealChange no_diff three_operations two_files (editable_files two_files)
      (edited_file ∷ []) two_errors ((ground arith, tt), (tt, tt)) edits_are_applied
