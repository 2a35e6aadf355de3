-- ===== src/Verification/Paths.antt =====
-- The path helpers of src/tvastr/verification/sandbox.py. `str.isidentifier` is an argument.
use tvastr_demo.Prelude.{
  ℕ, ◌+◌, ◌-◌, Bool, ◌||◌, not, ltb, nat_beq, if◌then◌else◌, any, keep, is_empty, length, take,
  drop, List, [], ◌∷◌, ◌++◌, Option, none, some, Text, codes, ◌==◌, text_eq,
}
use mathlib.Core.List.{reverse}
use tvastr_demo.Prelude.Strings.{starts_with, join}

-- `path.split("/")`
unfoldable pub split_slash : Text → Text → List Text
split_slash part [] = part ∷ []
split_slash part (c ∷ s) =
    let next = split_slash [] s in
    let longer = split_slash (part ++ c ∷ []) s in if nat_beq c b'/' then part ∷ next else longer

-- `[p for p in repo_path.split("/") if p]`
unfoldable pub path_parts : Text → List Text
path_parts path = keep (λ p. not (is_empty p)) (split_slash [] path)

-- `s.endswith(".py")`
unfoldable pub is_python : Text → Bool
is_python s = starts_with (reverse (codes ".py")) (reverse s)

-- `[*parts[:-1], parts[-1][:-3]]`
unfoldable pub strip_extension : List Text → List Text
strip_extension [] = []
strip_extension (p ∷ []) = take (length p - 3) p ∷ []
strip_extension (p ∷ ps) = p ∷ strip_extension ps

unfoldable pub last_part : List Text → Text
last_part [] = []
last_part (p ∷ []) = p
last_part (p ∷ ps) = last_part ps

module _ (isidentifier : Text → Bool) where
  -- the loop that finds `start`
  unfoldable pub start_from : ℕ → ℕ → List Text → ℕ
  start_from i start [] = start
  start_from i start (seg ∷ segs) =
      start_from (i + 1) (if isidentifier seg then start else i + 1) segs

  unfoldable pub installed_module_path : Text → Option Text
  installed_module_path repo_path =
      let parts = path_parts repo_path in
      let norm = strip_extension parts in
      let mods = drop (start_from 0 0 norm) norm in
      if ltb (length parts) 2 || not (is_python (last_part parts))
      then none
      else if is_empty mods || any (λ s. not (isidentifier s)) mods
      then none
      else some (join (codes ".") mods)

-- the part before the first `llama_index`, if there is one
unfoldable pub before_import_root : List Text → Option Text
before_import_root [] = none
before_import_root (p ∷ []) = none
before_import_root (p ∷ q ∷ ps) =
    let rest = before_import_root (q ∷ ps) in
    if p == codes "llama_index" then none else if q == codes "llama_index" then some p else rest

unfoldable pub distribution_for_path : Text → Option Text
distribution_for_path repo_path = elim (before_import_root (path_parts repo_path)) [
  | none ↦ none
  | some candidate ↦ if starts_with (codes "llama-index-") candidate then some candidate else none
]
