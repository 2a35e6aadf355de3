-- ===== src/Api/Payloads.antt =====
-- How src/tvastr/api/routes/verify.py reads the values of a payload. `none` is an exception.
use tvastr_demo.Prelude.{
  if◌then◌else◌, List, [], ◌∷◌, Option, none, some, Text, codes, text_eq, string_eq, ◌==◌,
}
use tvastr_demo.Prelude.Dicts.{Dict, get}
use tvastr_demo.Json.{
  Value, Values, Payload, null, string, array, end, item, truthy, lookup, or_value, iterate,
}
use tvastr_demo.Domain.{
  FailurePattern, FileChange, FixRegister, repair, fail_fast, warn, better_error, document,
  Sensitivity, public, internal, sensitive,
}

infixl 5 ◌>>=◌
abbrev pub ◌>>=◌ : {A B : Type 0} → Option A → (A → Option B) → Option B
none >>= k = none
(some a) >>= k = k a

-- `x is not None` of an optional text, and of one that must be a text
abbrev pub opt_text_of : Value → Option (Option Text)
opt_text_of null = some none
opt_text_of (string s) = some (some s)
opt_text_of _ = none

abbrev pub text_of : Value → Option Text
text_of (string s) = some s
text_of _ = none

-- the rows of a dict whose keys are free text
unfoldable pub text_rows : Values → Option (Dict Text Value)
text_rows end = some []
text_rows (item (array (item (string k) (item v end))) rest) =
    text_rows rest >>= λ rows. some ((k, v) ∷ rows)
text_rows _ = none

-- `value or {}` as such a dict
unfoldable pub rows_of : Value → Option (Dict Text Value)
rows_of (array vs) = text_rows vs
rows_of v = if truthy v then none else some []

-- an entry of `diffs`, and one of `rationales`
abbrev pub diff_of : Option Value → Option (Option Text)
diff_of none = some none
diff_of (some v) = opt_text_of v

abbrev pub rationale_of : Option Value → Option Text
rationale_of none = some []
rationale_of (some v) = text_of v

-- a change for an entry of `patched_files`
unfoldable pub read_change : Payload → Text × Value → Option FileChange
read_change p (path, content) = rows_of (lookup "rationales" p) >>= λ rationales.
    rationale_of (get path rationales) >>= λ rationale. rows_of (lookup "diffs" p) >>= λ diffs.
    diff_of (get path diffs) >>= λ diff. text_of content >>= λ patched. some (record {
      path = path;
      original_snippet = none;
      patched_content = patched;
      rationale = rationale;
      diff = diff;
    })

unfoldable pub read_changes : Payload → Dict Text Value → Option (List FileChange)
read_changes p [] = some []
read_changes p (row ∷ rows) = read_change p row >>= λ c. read_changes p rows >>= λ cs. some (c ∷ cs)

-- the changes without content, from `files`
unfoldable pub bare_changes : List Value → Option (List FileChange)
bare_changes [] = some []
bare_changes (v ∷ vs) = text_of v >>= λ path. bare_changes vs >>= λ cs. some (
    record {
      path = path;
      original_snippet = none;
      patched_content = [];
      rationale = [];
      diff = none;
    }
    ∷ cs)

unfoldable pub or_bare : Payload → List FileChange → Option (List FileChange)
or_bare p [] = iterate (or_value (lookup "files" p) (array end)) >>= bare_changes
or_bare p (c ∷ cs) = some (c ∷ cs)

-- `FixRegister(value)`, or a repair
unfoldable pub register_of : Value → FixRegister
register_of (string s) =
    if s == codes "fail_fast"
    then fail_fast
    else if s == codes "warn"
    then warn
    else if s == codes "better_error"
    then better_error
    else if s == codes "document"
    then document
    else repair
register_of _ = repair

-- `Sensitivity(value)`
unfoldable pub sensitivity_of : Value → Option Sensitivity
sensitivity_of (string s) =
    if s == codes "public"
    then some public
    else if s == codes "internal"
    then some internal
    else if s == codes "sensitive"
    then some sensitive
    else none
sensitivity_of _ = none

abbrev pub id_of : Option FailurePattern → Text
id_of none = []
id_of (some p) = p.id
