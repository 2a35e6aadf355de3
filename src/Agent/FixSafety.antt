-- ===== src/Agent/FixSafety.antt =====
-- What `generate_fix` of src/tvastr/agent/tools/fix_generation.py makes of any response.
use tvastr_demo.Prelude.{
  true, Option-cases, contains, List, [], ◌∷◌, Option, none, some, Text, text_eq, beq_self, ◌≡◌,
  ◌≢◌, refl, subst, arith, inl, inr, All, All-map,
}
use tvastr_demo.Prelude.Dicts.{Dict, keys, HasUniqueKeys}
use tvastr_demo.Domain.{FailurePattern, FileChange}
use tvastr_demo.Agent.Edits.{editable_files, build_real_changes}
use tvastr_demo.Agent.EditSafety.{build_real_changes-IsRealChange}
use tvastr_demo.Agent.Services.{Services}
use tvastr_demo.Agent.Fixes.{
  Parsing, ParsedFix, fallback_changes, first_path, changes_or_fallback, fix_parts,
}

editable_files-ne-nil : (files : Dict Text Text) → files ≢ [] → editable_files files ≢ []
unfolding editable_files
editable_files-ne-nil files h = ground arith

-- a change of one of the files that may be edited
abbrev pub IsAllowed : Dict Text Text → FileChange → Type 0
IsAllowed editable c = contains c.path (keys editable) ≡ true

first_path-allowed :
    (files : Dict Text Text) → files ≢ [] → contains (first_path files) (keys files) ≡ true
unfolding contains first_path
first_path-allowed [] h = absurd (h refl)
first_path-allowed ((path, content) ∷ files) h = rw (beq_self path)

-- the changes are not none, and each is of a file that may be edited
abbrev pub IsSafe : Dict Text Text → List FileChange → Type 0
IsSafe editable changes = (changes ≢ []) × All (IsAllowed editable) changes

fallback_changes-IsSafe :
    (pattern : FailurePattern) (response : Text) (editable : Dict Text Text)
    → editable ≢ []
    → IsSafe editable (fallback_changes pattern response editable)
unfolding fallback_changes
fallback_changes-IsSafe pattern response editable h =
    (λ e. absurd (ground (arith, e)), (first_path-allowed editable h, tt))

changes_or_fallback-IsSafe :
    (pattern : FailurePattern) (response : Text) (editable : Dict Text Text) (summary : Text)
    (changes : List FileChange)
    → editable ≢ []
    → All (IsAllowed editable) changes
    → IsSafe editable (changes_or_fallback pattern response editable summary changes).0
unfolding changes_or_fallback
changes_or_fallback-IsSafe pattern response editable summary [] ne h =
    fallback_changes-IsSafe pattern response editable ne
changes_or_fallback-IsSafe pattern response editable summary (c ∷ cs) ne h =
    (λ e. absurd (ground (arith, e)), h)

-- if the paths of the retrieved files differ, there are files, and the operations of a response
-- do not raise, the fix has at least one change, and each change is of a file that may be edited.
pub fix_parts-IsSafe :
    (o : Services) (p : Parsing) (pattern : FailurePattern) (response : Text)
    (code_files : Dict Text Text) (parsed : Option ParsedFix) (changes : List FileChange)
    (summary test_plan : Text)
    → HasUniqueKeys code_files
    → code_files ≢ []
    → fix_parts o p pattern response code_files parsed ≡ some (changes, summary, test_plan)
    → IsSafe (editable_files code_files) changes
unfolding fix_parts
fix_parts-IsSafe o p pattern response code_files none changes summary test_plan u ne h =
    let e : fallback_changes pattern response (editable_files code_files) ≡ changes =
      ground (arith, h) in
    subst (IsSafe (editable_files code_files)) e (
      fallback_changes-IsSafe pattern response (editable_files code_files)
        (editable_files-ne-nil code_files ne))
fix_parts-IsSafe o p pattern response code_files (some parsed) changes summary test_plan u ne h =
    elim (Option-cases
      (build_real_changes o.unified_diff parsed.changes code_files (editable_files code_files))) [
        | inl q ↦ absurd (ground (arith, q, h))
        | inr ((real, errors), q) ↦
            let e : (changes_or_fallback pattern response (editable_files code_files) parsed.summary
                  real).0
                ≡ changes =
              ground (arith, q, h) in
            subst (IsSafe (editable_files code_files)) e (
              changes_or_fallback-IsSafe pattern response (editable_files code_files) parsed.summary
                real (editable_files-ne-nil code_files ne)
                (All-map (λ c r. r.0) real
                  (build_real_changes-IsRealChange o.unified_diff parsed.changes code_files
                    (editable_files code_files) real errors u q)))
      ]
