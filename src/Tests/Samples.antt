-- ===== src/Tests/Samples.antt =====
-- Concrete inputs: a regular-expression engine that knows two of the patterns, a local model, and
-- a few events.
use tvastr_demo.Prelude.{
  ℕ, suc, ◌≡◌, ◌↔◌, refl, String, true, if◌then◌else◌, List, [], ◌∷◌, Option, none, some, Text,
  codes, ◌==◌, string_eq, nat_eq,
}
use mathlib.Core.List.{reverse}
use tvastr_demo.Regex.{Regex, SearchesFirst}
use tvastr_demo.Domain.{LogEvent, error}
use tvastr_demo.Pii.{LocalModel}
use tvastr_demo.Selfheal.Scan.{Outside}
use tvastr_demo.Detection.Clustering.{Digest}

-- the places of one character
abbrev places : ℕ → ℕ → Text → List (ℕ × ℕ)
places c i [] = []
places c i (d ∷ s) = let rest = places c (suc i) s in if c == d then (i, suc i) ∷ rest else rest

abbrev first {ℓ} : {A : Type ℓ} → List A → Option A
first [] = none
first (x ∷ xs) = some x

first-none {ℓ} : {A : Type ℓ} (xs : List A) → (first xs ≡ none) ↔ (xs ≡ [])
first-none [] = (λ _. refl, λ _. refl)
first-none (x ∷ xs) = (λ h. cc, λ h. cc)

-- a stand-in for `re`: the e-mail pattern finds each `@`, the address pattern each `.`, and all
-- others nothing
abbrev matches : String → Text → List (ℕ × ℕ)
matches p text =
    if p == "\\b[A-Za-z0-9._%+-]+@[A-Za-z0-9.-]+\\.[A-Za-z]{2,}\\b"
    then places b'@' 0 text
    else if p == "\\b(?:\\d{1,3}\\.){3}\\d{1,3}\\b"
    then places b'.' 0 text
    else []

abbrev pub sample_regex : Regex
sample_regex = record {
  Pattern = String;
  compile = λ p _. p;
  finditer = matches;
  search = λ p text. first (matches p text);
  sub = λ p repl text. text;
}

pub sample_regex-SearchesFirst : SearchesFirst sample_regex
sample_regex-SearchesFirst = record { search_none = λ p text. first-none (matches p text) }

-- a model that takes the first three characters for a name
abbrev pub sample_model : LocalModel
sample_model = record {
  enabled = true;
  engine = some (λ _. some (record { entity_type = "PERSON"; start = 0; stop = 3 } ∷ []));
}

abbrev pub sample_text : Text
sample_text = codes "Ann: a@b 1.2"

abbrev pub sample_digest : Digest
sample_digest = record { sha1_hex = λ s. reverse s; lower = λ s. s; new_id = λ e. e.id }

abbrev pub sample_event : ℕ → String → LogEvent
sample_event n message = record {
  id = n ∷ [];
  timestamp = n;
  service = codes "api";
  severity = error;
  message = codes message;
  stack_trace = none;
  attributes = [];
  source = codes "test";
}

abbrev pub sample_events : List LogEvent
sample_events = sample_event 5 "boom" ∷ sample_event 3 "a@b" ∷ sample_event 9 "boom" ∷ []

-- what the self-heal loop takes from outside
abbrev pub sample_outside : Outside
sample_outside = record {
  show = λ v. [];
  fromisoformat = λ t. none;
  now = 5;
  fresh = λ run_id place. place ∷ run_id;
}
