-- ===== src/Pii.antt =====
-- src/tvastr/pii/redaction.py and _presidio.py: the regex floor, the optional local model, and the
-- redaction that is applied before any text leaves the local boundary.
pub mod Resolve
pub mod Floor
pub mod Splice
pub mod Labels
use tvastr_demo.Prelude.{
  ℕ, suc, String, Bool, true, false, if◌then◌else◌, ◌||◌, ltb, List, [], ◌∷◌, ◌++◌, map, Option,
  none, some, take, drop, is_empty, any, Text, codes, contains, string_eq, is_some,
}
use tvastr_demo.Prelude.Dicts.{Dict, get}
use tvastr_demo.Prelude.Sorting.{sort}
use tvastr_demo.Regex.{Regex}
use Resolve.{Candidate, before, resolve}

-- `Span` of the local model
pub record Span : Type 0 where
  pub start : ℕ
  pub stop : ℕ
  pub label : String

-- a result of Presidio's `analyze`
pub record Entity : Type 0 where
  pub entity_type : String
  pub start : ℕ
  pub stop : ℕ

-- The setting `pii_local_model`, and the engine: none if it cannot be built; an analysis that
-- raises gives `none`.
pub record LocalModel : Type 0 where
  pub enabled : Bool
  pub engine : Option (Text → Option (List Entity))

abbrev entity_labels : Dict String String
entity_labels =
    ("PERSON", "PERSON")
    ∷ ("LOCATION", "LOCATION")
    ∷ ("NRP", "ORG")
    ∷ ("ORGANIZATION", "ORG")
    ∷ ("PHONE_NUMBER", "PHONE")
    ∷ ("CREDIT_CARD", "CREDIT_CARD")
    ∷ ("US_SSN", "SSN")
    ∷ ("IBAN_CODE", "IBAN")
    ∷ []

unfoldable pub label_entities : List Entity → List Span
label_entities [] = []
label_entities (r ∷ rs) =
    let rest = label_entities rs in
    elim (get r.entity_type entity_labels) [
      | none ↦ rest
      | some label ↦ record { start = r.start; stop = r.stop; label = label } ∷ rest
    ]

unfoldable pub analyze : Option (List Entity) → List Span
analyze none = []
analyze (some results) = label_entities results

unfoldable pub model_spans : LocalModel → Text → List Span
unfolding analyze
model_spans m text =
    if m.enabled then elim m.engine [ none ↦ [] | some engine ↦ analyze (engine text) ] else []

module _ (re : Regex) where
  open re use {Pattern, compile, finditer, search}

  abbrev pub patterns : List (String × Pattern)
  patterns =
      ("API_KEY", compile "\\b(?:sk|pk|rk)-[A-Za-z0-9\\-_]{8,}\\b" false)
      ∷ ("BEARER", compile "\\bBearer\\s+[A-Za-z0-9\\-._~+/]+=*\\b" true)
      ∷ ("AWS_KEY", compile "\\bAKIA[0-9A-Z]{16}\\b" false)
      ∷ ("CREDENTIAL_URL", compile "\\b(?:https?|opensearch)://[^\\s/@]+@[^\\s]+" true)
      ∷ ("EMAIL", compile "\\b[A-Za-z0-9._%+-]+@[A-Za-z0-9.-]+\\.[A-Za-z]{2,}\\b" false)
      ∷ ("IP", compile "\\b(?:\\d{1,3}\\.){3}\\d{1,3}\\b" false)
      ∷ []

  -- the loops of `_regex_candidates`, from the priority `prio` on
  unfoldable pub candidates_from : ℕ → List (String × Pattern) → Text → List Candidate
  candidates_from prio [] text = []
  candidates_from prio ((label, p) ∷ ps) text =
      map (λ m. record { prio = prio; start = m.0; stop = m.1; label = label }) (finditer p text)
      ++ candidates_from (suc prio) ps text

  unfoldable pub regex_candidates : Text → List Candidate
  unfolding candidates_from
  regex_candidates text = candidates_from 0 patterns text

  -- `contains_pii`: the regex floor alone
  unfoldable pub contains_pii : Text → Bool
  contains_pii text = any (λ lp. is_some (search lp.1 text)) patterns

-- `_MODEL_PRIORITY = len(_PATTERNS)`
abbrev pub model_priority : ℕ
model_priority = 6

unfoldable pub model_candidates : List Span → List Candidate
model_candidates =
    map (λ sp. record { prio = model_priority; start = sp.start; stop = sp.stop; label = sp.label })

-- the loop over `found`
unfoldable pub note_labels : List String → List Candidate → List String
note_labels found [] = found
note_labels found (c ∷ cs) =
    note_labels (if contains c.label found then found else found ++ c.label ∷ []) cs

-- `f"[REDACTED:{label}]"`
unfoldable pub marker : String → Text
marker label = codes "[REDACTED:" ++ codes label ++ codes "]"

-- the order of the key `c[1]`, reversed
unfoldable pub later : Candidate → Candidate → Bool
later a b = ltb b.start a.start

-- `redacted[:start] + f"[REDACTED:{label}]" + redacted[end:]`
abbrev pub cut_out : Candidate → Text → Text
cut_out c text = take c.start text ++ marker c.label ++ drop c.stop text

-- the loop of the replacements
unfoldable pub replace_all : List Candidate → Text → Text
replace_all [] text = text
replace_all (c ∷ cs) text = replace_all cs (cut_out c text)

-- the part of `redact` behind `_resolve`
unfoldable pub redact_accepted : List Candidate → Text → Text × List String
unfolding note_labels replace_all later
redact_accepted [] text = (text, [])
redact_accepted (a ∷ accepted) text =
    (replace_all (sort later (a ∷ accepted)) text, note_labels [] (sort before (a ∷ accepted)))

-- the local `accepted` of `redact`
unfoldable pub accepted_spans : Regex → LocalModel → Text → List Candidate
accepted_spans re m text =
    resolve (regex_candidates re text ++ model_candidates (model_spans m text))

unfoldable pub redact : Regex → LocalModel → Text → Text × List String
unfolding accepted_spans
redact re m text = redact_accepted (accepted_spans re m text) text
