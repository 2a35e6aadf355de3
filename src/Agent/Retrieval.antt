-- ===== src/Agent/Retrieval.antt =====
-- The retrieval tools of the agent: code_retrieval.py and github_search.py of
-- src/tvastr/agent/tools, and src/tvastr/agent/retrieval/issue_extract.py.
use tvastr_demo.Prelude.{
  ℕ, nat_beq, Bool, true, false, if◌then◌else◌, contains, is_empty, take, List, [], ◌∷◌, ◌++◌, map,
  Option, none, some, Text, codes, ◌==◌, text_eq, default_to,
}
use tvastr_demo.Prelude.Dicts.{Dict, put}
use tvastr_demo.Prelude.Strings.{starts_with, join}
use tvastr_demo.Prelude.Steps.{pure, perform, attempt, ◌>>=◌}
use tvastr_demo.Domain.{LogEvent}
use tvastr_demo.Integrations.{CodeHost}
use tvastr_demo.Agent.Services.{Services, searched, read_file, listed_dir, Node}

-- append what is not there yet
unfoldable pub add_new : List Text → List Text → List Text
add_new [] files = files
add_new (p ∷ ps) files = add_new ps (if contains p files then files else files ++ p ∷ [])

abbrev pub text_or_empty : Option Text → Text
text_or_empty none = []
text_or_empty (some s) = s

-- `path.split("/")`
unfoldable pub split_slash : Text → Text → List Text
split_slash part [] = part ∷ []
split_slash part (c ∷ s) =
    let next = split_slash [] s in
    let longer = split_slash (part ++ c ∷ []) s in if nat_beq c b'/' then part ∷ next else longer

-- `s.replace(a, b)` for single characters
unfoldable pub replace_char : ℕ → ℕ → Text → Text
replace_char a b s = map (λ c. if nat_beq c a then b else c) s

abbrev or_last : Option Text → Text → Bool → Option Text
or_last (some later) here starts = some later
or_last none here true = some here
or_last none here false = none

-- the text from the last `llama_index/` on
unfoldable pub last_index : Text → Option Text
last_index [] = none
last_index (c ∷ s) = or_last (last_index s) (c ∷ s) (starts_with (codes "llama_index/") (c ∷ s))

-- the repository path for the text from `llama_index/` on, and its parts
unfoldable pub repo_path : Text → List Text → Option Text
repo_path rel (top ∷ cat ∷ name ∷ more) =
    let dist =
      codes "llama-index-"
      ++ (replace_char b'_' b'-' cat ++ (codes "-" ++ replace_char b'_' b'-' name)) in
    if cat == codes "core"
    then some (codes "llama-index-core/" ++ rel)
    else some
        (codes "llama-index-integrations/" ++ (cat ++ (codes "/" ++ (dist ++ (codes "/" ++ rel)))))
repo_path rel _ = none

-- `_to_repo_path`
unfoldable pub to_repo_path : Text → Option Text
unfolding replace_char last_index repo_path split_slash
to_repo_path path = elim (last_index (replace_char 0x5c b'/' path)) [
  | none ↦ none
  | some rel ↦ repo_path rel (split_slash [] rel)
]

-- the loop of `extract_issue_files`; what `seen` holds are the paths given so far
unfoldable pub issue_files : List Text → List Text → List Text
issue_files [] out = out
issue_files (m ∷ ms) out =
    issue_files ms (elim (to_repo_path m) [ none ↦ out | some p ↦ add_new (p ∷ []) out ])

-- a file that cannot be read is left out
abbrev pub put_read : Text → Option Text → Dict Text Text → Dict Text Text
put_read path none files = files
put_read path (some content) files = put path content files

-- `format_code_for_prompt`
unfoldable pub format_code_for_prompt : Dict Text Text → Text
format_code_for_prompt files =
    join (codes "\n\n") (map (λ e. codes "# ── " ++ (e.0 ++ (codes " ──\n" ++ e.1))) files)

module _ (o : Services) where
  -- `extract_stack_files`
  unfoldable pub extract_stack_files : List LogEvent → List Text → List Text
  extract_stack_files [] files = files
  extract_stack_files (e ∷ es) files =
      extract_stack_files es
        (add_new (o.groups "File \"([^\"]+\\.py)\"" (text_or_empty e.stack_trace)) files)

  -- `extract_issue_files`
  unfoldable pub extract_issue_files : Text → List Text
  unfolding issue_files
  extract_issue_files issue_body =
      if is_empty issue_body
      then []
      else issue_files (o.groups "File \"([^\"]+)\", line \\d+" issue_body) []

module _ (o : Services) where
  open o use {World}

  -- the loop of `retrieve_code_files`, over the first paths
  unfoldable pub retrieve_from :
      CodeHost World → List Text → Dict Text Text → Node o (Dict Text Text)
  retrieve_from host [] files = pure files
  retrieve_from host (path ∷ paths) files = do
    content ← attempt (perform (read_file path) (host.get_file path))
    retrieve_from host paths (put_read path content files)

  unfoldable pub retrieve_code_files : CodeHost World → List Text → ℕ → Node o (Dict Text Text)
  unfolding retrieve_from
  retrieve_code_files host paths max_files = retrieve_from host (take max_files paths) []

  unfoldable pub search_codebase : CodeHost World → Text → Node o (List Text)
  search_codebase host query = perform (searched query) (host.search_code query)

  -- `list_dir`: no entries on any failure
  unfoldable pub list_dir : CodeHost World → Text → Node o (List Text)
  list_dir host path = do
    entries ← attempt (perform (listed_dir path) (host.list_dir path))
    pure (default_to [] entries)
