-- ===== src/Agent/Edits.antt =====
-- src/tvastr/agent/tools/fix_generation.py: search and replace operations on the retrieved files.
use tvastr_demo.Prelude.{
  ℕ, zero, suc, ◌+◌, ◌-◌, Bool, ◌||◌, not, ltb, nat_beq, if◌then◌else◌, contains, keep, is_empty,
  default_to, length, drop, List, [], ◌∷◌, ◌++◌, Option, none, some, Text, codes, ◌==◌, text_eq,
}
use mathlib.Core.List.{reverse}
use tvastr_demo.Prelude.Dicts.{Dict, get, put, keys}
use tvastr_demo.Prelude.Strings.{strip, starts_with, join}
use tvastr_demo.Json.{Value, as_text}
use tvastr_demo.Domain.{FileChange}

-- `s.count(p)`: occurrences that do not overlap; `skip` characters belong to the last one
unfoldable pub count_from : ℕ → Text → Text → ℕ
count_from skip p [] = 0
count_from zero p (c ∷ s) =
    let behind = count_from (length p - 1) p s in
    let next = count_from 0 p s in if starts_with p (c ∷ s) then behind + 1 else next
count_from (suc skip) p (c ∷ s) = count_from skip p s

-- `s.replace(p, r, 1)`
unfoldable pub replace_first : Text → Text → Text → Text
replace_first p r [] = if is_empty p then r else []
replace_first p r (c ∷ s) =
    let rest = replace_first p r s in
    if starts_with p (c ∷ s) then r ++ drop (length p) (c ∷ s) else c ∷ rest

-- why an operation is refused; the last one has the number of occurrences
pub data Refusal : Type 0 where
  not_retrieved not_editable empty_search not_found : Refusal
  not_unique : ℕ → Refusal

pub data Applied : Type 0 where
  edited : Text → Applied
  refused : Refusal → Applied

-- `_apply_change`
unfoldable pub apply_change : Text → Text → Text → Applied
apply_change content search replace =
    let count = count_from 0 search content in
    if is_empty search
    then refused empty_search
    else if nat_beq count 0
    then refused not_found
    else if ltb 1 count
    then refused (not_unique count)
    else edited (replace_first search replace content)

-- `path.split("/")`, asked for one segment
unfoldable pub has_segment : Text → Text → Text → Bool
has_segment name part [] = part == name
has_segment name part (c ∷ s) =
    let next = has_segment name [] s in
    let longer = has_segment name (part ++ c ∷ []) s in
    if nat_beq c b'/' then part == name || next else longer

unfoldable pub is_doc_example : Text → Bool
is_doc_example path =
    starts_with (reverse (codes ".ipynb")) (reverse path)
    || (has_segment (codes "docs") [] path || has_segment (codes "examples") [] path)

-- `_editable_files`
unfoldable pub editable_files : Dict Text Text → Dict Text Text
editable_files code_files =
    let editable = keep (λ e. not (is_doc_example e.0)) code_files in
    if is_empty editable then code_files else editable

-- an operation of the response; `rationale` is "" if there is none
pub record Operation : Type 0 where
  pub path : Text
  pub search : Text
  pub replace : Text
  pub rationale : Value

-- the local variables of the first loop
pub record Working : Type 0 where
  pub files : Dict Text Text
  pub rationales : Dict Text (List Text)
  pub errors : List (Text × Refusal)

abbrev pub start : Dict Text Text → Working
start code_files = record { files = code_files; rationales = []; errors = [] }

abbrev pub or_edit_applied : Text → Text
or_edit_applied [] = codes "edit applied"
or_edit_applied (c ∷ s) = c ∷ s

abbrev pub refuse : Text → Refusal → Working → Working
refuse path r w = record w { errors = w.errors ++ (path, r) ∷ [] }

-- an operation that is applied; a rationale that is no string raises
unfoldable pub accept_edit : Operation → Text → Working → Option Working
accept_edit op content w = elim (as_text op.rationale) [
  | none ↦ none
  | some r ↦ some (record w {
    files = put op.path content w.files;
    rationales =
        put op.path (default_to [] (get op.path w.rationales) ++ or_edit_applied (strip r) ∷ [])
          w.rationales;
  })
]

unfoldable pub finish_edit : Operation → Applied → Working → Option Working
finish_edit op (refused r) w = some (refuse op.path r w)
finish_edit op (edited content) w = accept_edit op content w

-- the body of the first loop of `_build_real_changes`, and the loop
unfoldable pub apply_operation : Dict Text Text → Operation → Working → Option Working
apply_operation allowed op w = elim (get op.path w.files) [
  | none ↦ some (refuse op.path not_retrieved w)
  | some content ↦
      if contains op.path (keys allowed)
      then finish_edit op (apply_change content op.search op.replace) w
      else some (refuse op.path not_editable w)
]

unfoldable pub apply_operations : Dict Text Text → List Operation → Working → Option Working
apply_operations allowed [] w = some w
apply_operations allowed (op ∷ ops) w = elim (apply_operation allowed op w) [
  | none ↦ none
  | some next ↦ apply_operations allowed ops next
]

-- the second loop: a change for each file whose content differs. `diff` is that of difflib.
unfoldable pub file_changes :
    (Text → Text → Text → Text)
    → Dict Text Text
    → Dict Text (List Text)
    → Dict Text Text
    → List FileChange
file_changes diff code_files rationales [] = []
file_changes diff code_files rationales ((path, content) ∷ files) =
    let rest = file_changes diff code_files rationales files in
    let original = default_to [] (get path code_files) in
    if content == original
    then rest
    else record {
      path = path;
      original_snippet = none;
      patched_content = content;
      rationale = join (codes "; ") (default_to [] (get path rationales));
      diff = some (diff path original content);
    }
      ∷ rest

-- `_build_real_changes`
unfoldable pub build_real_changes :
    (Text → Text → Text → Text)
    → List Operation
    → Dict Text Text
    → Dict Text Text
    → Option (List FileChange × List (Text × Refusal))
build_real_changes diff ops code_files allowed =
    elim (apply_operations allowed ops (start code_files)) [
      | none ↦ none
      | some w ↦ some (file_changes diff code_files w.rationales w.files, w.errors)
    ]
