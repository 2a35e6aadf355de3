-- ===== src/Verification/Overlay.antt =====
-- The overlay of src/tvastr/verification/verifier.py: the state of the files of a pull request from
-- before its fix, and the patch that is tested on it.
use tvastr_demo.Prelude.{
  ℕ, nat_beq, Bool, ◌&&◌, not, if◌then◌else◌, keep, contains, is_empty, is_some, List, [], ◌∷◌,
  ◌++◌, map, Option, none, some, Text, codes, text_eq,
}
use tvastr_demo.Domain.{FileChange, FixProposal}
use tvastr_demo.Verification.Paths.{installed_module_path}

-- `none` is an exception; no SHA and no file are `some none`
pub record CodeHost : Type 0 where
  pub buggy_parent_sha : ℕ → Option (Option Text)
  pub get_file_at_ref : Text → Text → Option (Option Text)

-- the loop over the files of the pull request: `none` if the host raises
unfoldable pub overlay_changes :
    CodeHost → (Text → Bool) → Text → List Text → Option (List FileChange)
overlay_changes host isidentifier sha [] = some []
overlay_changes host isidentifier sha (path ∷ paths) =
    let rest = overlay_changes host isidentifier sha paths in
    if is_some (installed_module_path isidentifier path)
    then elim (host.get_file_at_ref path sha) [
      | none ↦ none
      | some none ↦ rest
      | some (some content) ↦ elim rest [
        | none ↦ none
        | some changes ↦ some (
            record {
              path = path;
              original_snippet = none;
              patched_content = content;
              rationale = codes "buggy overlay (pre-fix)";
              diff = none;
            }
            ∷ changes)
      ]
    ]
    else rest

-- what `_apply_buggy_overlay` asks the host; an empty SHA is none
unfoldable pub find_overlay :
    CodeHost → (Text → Bool) → ℕ → List Text → Option (Option Text × List FileChange)
find_overlay host isidentifier pr paths = elim (host.buggy_parent_sha pr) [
  | none ↦ none
  | some none ↦ some (none, [])
  | some (some []) ↦ some (none, [])
  | some (some (c ∷ sha)) ↦ elim (overlay_changes host isidentifier (c ∷ sha) paths) [
    | none ↦ none
    | some changes ↦ some (some (c ∷ sha), changes)
  ]
]

-- the condition of an overlay: it is enabled, and there is a pull request with files
unfoldable pub overlay_of :
    CodeHost
    → (Text → Bool)
    → Bool
    → Option ℕ
    → List Text
    → Option (Option (Option Text × List FileChange))
overlay_of host isidentifier source_overlay none paths = none
overlay_of host isidentifier source_overlay (some pr) paths =
    if source_overlay && (not (nat_beq pr 0) && not (is_empty paths))
    then some (find_overlay host isidentifier pr paths)
    else none

-- the overlaid files that the fix leaves alone, and the fix
unfoldable pub patch_changes : List FileChange → FixProposal → List FileChange
patch_changes overlay fix =
    keep (λ c. not (contains c.path (map FileChange.path fix.changes))) overlay ++ fix.changes
