-- ===== src/Agent/Schema.antt =====
-- src/tvastr/agent/sdk_schema.py: the type definitions of a package as evidence for a diagnosis.
use tvastr_demo.Prelude.{
  ℕ, zero, suc, ◌+◌, ltb, leb, nat_beq, Bool, false, not, ◌&&◌, ◌||◌, if◌then◌else◌, contains,
  is_empty, keep, any, take, drop, length, map, List, [], ◌∷◌, ◌++◌, Option, none, some, Text,
  codes, text_eq, nat_eq, default_to,
}
use mathlib.Core.List.{reverse}
use tvastr_demo.Prelude.Dicts.{Dict, get, put}
use tvastr_demo.Prelude.Strings.{strip, lstrip, is_infix, join}
use tvastr_demo.Json.{
  Value, array, end, Fields, truthy, to_text, lookup_field, or_value, find_field, string,
  values_list,
}
use tvastr_demo.Json.Extract.{extract_all_json}
use tvastr_demo.Agent.Services.{Services, SourceFile}

pub record SchemaProbe : Type 0 where
  pub distribution : Text
  pub version_hint : Option Text
  pub keywords : List Text

pub record Snippet : Type 0 where
  pub path : Text
  pub text : Text

abbrev is_alnum : ℕ → Bool
is_alnum c = (leb b'A' c && leb c b'Z') || (leb b'a' c && leb c b'z') || (leb b'0' c && leb c b'9')

abbrev all_of : (ℕ → Bool) → Text → Bool
all_of p s = not (any (λ c. not (p c)) s)

-- `$` also matches in front of a last newline
abbrev drop_newline : Text → Text
drop_newline [] = []
drop_newline (c ∷ s) =
    let rest = drop_newline s in if nat_beq c 10 && is_empty s then [] else c ∷ rest

-- `^[A-Za-z0-9][…]{0,n}$` of a text, where `p` says what the brackets hold
unfoldable pub is_name : (ℕ → Bool) → ℕ → Text → Bool
is_name p n [] = false
is_name p n (c ∷ s) =
    let rest = drop_newline s in is_alnum c && (all_of p rest && leb (length rest) n)

-- `_PACKAGE_RE.match`
unfoldable pub is_package : Text → Bool
unfolding is_name
is_package = is_name (λ c. is_alnum c || contains c (codes "._-")) 79

-- `_VERSION_RE.match`
unfoldable pub is_version : Text → Bool
unfolding is_name
is_version = is_name (λ c. is_alnum c || contains c (codes "._+!*-")) 63

-- `_valid_version_hint`
unfoldable pub valid_version_hint : Text → Option Text
unfolding is_version
valid_version_hint hint = if is_version hint then some hint else none

-- `next((obj for obj in … if "relevant" in obj), None)`
unfoldable pub relevant_object : List Fields → Option Fields
relevant_object [] = none
relevant_object (obj ∷ objs) = elim (find_field "relevant" obj) [
  | none ↦ relevant_object objs
  | some v ↦ some obj
]

abbrev pub as_list : Value → Option (List Value)
as_list (array vs) = some (values_list vs)
as_list _ = none

-- `format_schema_block`
unfoldable pub format_schema_block : Text → List Snippet → Text
format_schema_block distribution [] = []
format_schema_block distribution (s ∷ ss) = join (codes "\n\n") (
    (codes "Authoritative type definitions from the installed `"
      ++ (distribution ++ codes "` SDK (ground truth for field names):"))
    ∷ map (λ (x : Snippet). codes "# " ++ (x.path ++ (codes "\n" ++ x.text))) (s ∷ ss))

module _ (o : Services) where
  -- the keywords, at most four
  unfoldable pub probe_keywords : List Value → List Text
  probe_keywords vs = take 4 (keep (λ k. not (is_empty (strip k))) (map (to_text o.show) vs))

  unfoldable pub probe_of : Text → Value → List Text → Option SchemaProbe
  probe_of distribution version [] = none
  probe_of distribution version (k ∷ ks) = some (record {
    distribution = distribution;
    version_hint = if truthy version then valid_version_hint (to_text o.show version) else none;
    keywords = k ∷ ks;
  })

  unfoldable pub probe_of_object : Fields → Option SchemaProbe
  probe_of_object obj =
      let distribution = to_text o.show (or_value (lookup_field "package" obj) (string [])) in
      if truthy (lookup_field "relevant" obj)
      then (if is_package distribution
          then elim (as_list (or_value (lookup_field "keywords" obj) (array end))) [
            | none ↦ none
            | some vs ↦ probe_of distribution (lookup_field "version_hint" obj) (probe_keywords vs)
          ]
          else none)
      else none

  -- `parse_probe`
  unfoldable pub parse_probe : Text → Option SchemaProbe
  unfolding relevant_object probe_of_object
  parse_probe text = elim (relevant_object (extract_all_json o.raw_decode text)) [
    | none ↦ none
    | some obj ↦ probe_of_object obj
  ]

-- the last offset of a text: where the class blocks of a file begin, by `^class\s+\w+`
abbrev pub ClassStarts : Type 0
ClassStarts = Text → List ℕ

-- `text[start:end].rstrip()` of each class, with the offset
unfoldable pub blocks : Text → List ℕ → List (ℕ × Text)
blocks text [] = []
blocks text (start ∷ []) = (start, reverse (lstrip (reverse (drop start text)))) ∷ []
blocks text (start ∷ stop ∷ starts) =
    (start, reverse (lstrip (reverse (drop start (take stop text))))) ∷ blocks text (stop ∷ starts)

-- `next((k for k in keywords if k in block), None)`
unfoldable pub first_keyword : List Text → Text → Option Text
first_keyword [] block = none
first_keyword (k ∷ ks) block = if is_infix k block then some k else first_keyword ks block

-- the lines of a block, cut off after `n`
unfoldable pub cut_lines : ℕ → List Text → List Text
cut_lines n lines = if ltb n (length lines) then take n lines ++ codes "    ..." ∷ [] else lines

abbrev pub Buckets : Type 0
Buckets = Dict Text (List Snippet)

abbrev pub bucket : Text → Buckets → List Snippet
bucket k buckets = default_to [] (get k buckets)

-- `_SKIP_DIR_PARTS & set(rel.parts[:-1])`
unfoldable pub in_test_dir : List Text → Bool
in_test_dir [] = false
in_test_dir (p ∷ []) = false
in_test_dir (p ∷ q ∷ ps) =
    contains p (codes "tests" ∷ codes "test" ∷ codes "testing" ∷ []) || in_test_dir (q ∷ ps)

module _ (splitlines : Text → List Text) (keywords : List Text) (max_lines : ℕ) where
  -- the body of the loop over the blocks of a file. Each block is met once, since the files of a
  -- package differ: the set of blocks seen before passes none over.
  unfoldable pub file_block : Text → Text → Buckets → Buckets
  file_block path block buckets =
      let text = join (codes "\n") (cut_lines max_lines (splitlines block)) in
      elim (first_keyword keywords block) [
        | none ↦ buckets
        | some k ↦
            if any (λ w. is_infix w text) keywords
            then put k (bucket k buckets ++ record { path = path; text = text } ∷ []) buckets
            else buckets
      ]

  unfoldable pub file_blocks : Text → List (ℕ × Text) → Buckets → Buckets
  file_blocks path [] buckets = buckets
  file_blocks path ((start, block) ∷ bs) buckets =
      file_blocks path bs (file_block path block buckets)

  unfoldable pub file_snippets : ClassStarts → List Text → Option Text → Buckets → Buckets
  unfolding blocks file_blocks
  file_snippets starts parts none buckets = buckets
  file_snippets starts parts (some text) buckets =
      file_blocks (join (codes "/") parts) (blocks text (starts text)) buckets

  unfoldable pub files_snippets : ClassStarts → List SourceFile → Buckets → Buckets
  files_snippets starts [] buckets = buckets
  files_snippets starts (f ∷ fs) buckets =
      files_snippets starts fs
        (if in_test_dir f.parts then buckets else file_snippets starts f.parts f.text buckets)

-- the snippet of a bucket at an index
unfoldable pub nth : ℕ → List Snippet → Option Snippet
nth i [] = none
nth zero (s ∷ ss) = some s
nth (suc i) (s ∷ ss) = nth i ss

abbrev append_some : List Snippet → Option Snippet → List Snippet
append_some out none = out
append_some out (some s) = out ++ s ∷ []

-- one round: a snippet of each bucket that has one at the index, up to the budget
unfoldable pub take_round : ℕ → ℕ → Buckets → List Text → List Snippet → List Snippet
take_round budget i buckets [] out = out
take_round budget i buckets (k ∷ ks) out =
    if leb budget (length out)
    then out
    else take_round budget i buckets ks (append_some out (nth i (bucket k buckets)))

-- the `while` loop; each round that has a bucket to take from adds a snippet, so the budget bounds
-- the number of rounds
unfoldable pub take_rounds : ℕ → ℕ → ℕ → Buckets → List Text → List Snippet → List Snippet
take_rounds zero budget i buckets keywords out = out
take_rounds (suc fuel) budget i buckets keywords out =
    let next =
      take_rounds fuel budget (i + 1) buckets keywords (take_round budget i buckets keywords out) in
    if ltb (length out) budget && any (λ k. ltb i (length (bucket k buckets))) keywords
    then next
    else out

-- `buckets = {k: [] for k in keywords}`
unfoldable pub empty_buckets : List Text → Buckets → Buckets
empty_buckets [] buckets = buckets
empty_buckets (k ∷ ks) buckets = empty_buckets ks (put k [] buckets)

-- `extract_schema_snippets` with the default limits, over the files in their order
unfoldable pub extract_schema_snippets :
    ClassStarts → (Text → List Text) → List SourceFile → List Text → List Snippet
unfolding files_snippets take_rounds empty_buckets
extract_schema_snippets starts splitlines files keywords =
    take_rounds 6 6 0
      (files_snippets splitlines keywords 40 starts files (empty_buckets keywords [])) keywords []
