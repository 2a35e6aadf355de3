-- ===== src/Detection/Clustering.antt =====
-- src/tvastr/detection/clustering.py: events with one fingerprint become one pattern.
use tvastr_demo.Prelude.{
  ℕ, ◌+◌, min, max, Bool, false, ltb, if◌then◌else◌, List, [], ◌∷◌, ◌++◌, Option, none, some, take,
  drop, length, Text, codes, text_eq,
}
use tvastr_demo.Prelude.Dicts.{Dict, get, put, values}
use tvastr_demo.Prelude.Sorting.{sort}
use tvastr_demo.Prelude.Strings.{strip}
use tvastr_demo.Regex.{Regex}
use tvastr_demo.Domain.{LogEvent, FailurePattern, internal}

-- What the clustering takes from outside: `sha1(...).hexdigest()`, `str.lower`, and the
-- identifier that is drawn for the pattern that an event opens.
pub record Digest : Type 0 where
  pub sha1_hex : Text → Text
  pub lower : Text → Text
  pub new_id : LogEvent → Text

-- `x or y` for a text that may be missing
abbrev pub or_else : Option Text → Text → Text
or_else none d = d
or_else (some []) d = d
or_else (some (c ∷ s)) d = c ∷ s

module _ (re : Regex) where
  open re use {Pattern, compile, search, sub}

  abbrev normalizers : List (Pattern × Text)
  normalizers =
      (
        compile "\\b[0-9a-f]{8}-[0-9a-f]{4}-[0-9a-f]{4}-[0-9a-f]{4}-[0-9a-f]{12}\\b" false,
        codes "<uuid>",
      )
      ∷ (compile "\\b0x[0-9a-fA-F]+\\b" false, codes "<hex>")
      ∷ (compile "\\b[0-9a-fA-F]{6,}\\b" false, codes "<hex>")
      ∷ (
        compile
            "\\b(?=[0-9A-Za-z]{4,}\\b)(?=[0-9A-Za-z]*[A-Za-z])(?=[0-9A-Za-z]*[0-9])[0-9A-Za-z]+\\b"
            false,
        codes "<id>",
      )
      ∷ (compile "\\b\\d+\\b" false, codes "<num>")
      ∷ (compile "'[^']*'" false, codes "'<str>'")
      ∷ (compile "\"[^\"]*\"" false, codes "\"<str>\"")
      ∷ (compile "\\s+" false, codes " ")
      ∷ []

  unfoldable pub apply_normalizers : List (Pattern × Text) → Text → Text
  apply_normalizers [] text = text
  apply_normalizers ((p, repl) ∷ ps) text = apply_normalizers ps (sub p repl text)

  unfoldable pub normalize : Digest → Text → Text
  unfolding apply_normalizers strip
  normalize d message = d.lower (apply_normalizers normalizers (strip message))

  -- `match.group(1)` is the whole match: the pattern is one group between two boundaries.
  unfoldable pub first_match : Text → Option (ℕ × ℕ) → Option Text
  first_match text none = none
  first_match text (some (start, stop)) = some (drop start (take stop text))

  abbrev exception_re : Pattern
  exception_re = compile "\\b([A-Z][A-Za-z0-9]*(?:Error|Exception|Warning))\\b" false

  unfoldable pub exception_in : List Text → Option Text
  unfolding first_match
  exception_in [] = none
  exception_in (text ∷ texts) =
      let rest = exception_in texts in
      elim (first_match text (search exception_re text)) [ none ↦ rest | some exc ↦ some exc ]

  unfoldable pub exception_type : LogEvent → Option Text
  unfolding exception_in
  exception_type e = exception_in (e.message ∷ or_else e.stack_trace [] ∷ [])

  unfoldable pub fingerprint : Digest → LogEvent → Text
  unfolding exception_type normalize
  fingerprint d e = take 12 (
      d.sha1_hex (
        e.service
        ++ codes "|"
        ++ or_else (exception_type e) (codes "NoException")
        ++ codes "|"
        ++ normalize d e.message))

-- `_title`
unfoldable pub title_of : LogEvent → Option Text → Text
title_of e exc = take 120 (or_else exc e.message ++ codes " in " ++ e.service)

unfoldable pub open_cluster : Regex → Digest → LogEvent → FailurePattern
open_cluster re d e = record {
  id = d.new_id e;
  fingerprint = fingerprint re d e;
  title = title_of e (exception_type re e);
  representative_message = e.message;
  exception_type = exception_type re e;
  count = 1;
  sensitivity = internal;
  first_seen = e.timestamp;
  last_seen = e.timestamp;
  sample_event_ids = e.id ∷ [];
}

-- one more event of a known cluster
unfoldable pub absorb : FailurePattern → LogEvent → FailurePattern
absorb c e = record c {
  count = c.count + 1;
  first_seen = min c.first_seen e.timestamp;
  last_seen = max c.last_seen e.timestamp;
  sample_event_ids =
      if ltb (length c.sample_event_ids) 5
      then c.sample_event_ids ++ e.id ∷ []
      else c.sample_event_ids;
}

-- the body of the loop, and the loop
unfoldable pub add_event :
    Regex → Digest → Dict Text FailurePattern → LogEvent → Dict Text FailurePattern
add_event re d clusters e =
    let fp = fingerprint re d e in
    elim (get fp clusters) [
      | none ↦ put fp (open_cluster re d e) clusters
      | some cluster ↦ put fp (absorb cluster e) clusters
    ]

unfoldable pub add_events :
    Regex → Digest → Dict Text FailurePattern → List LogEvent → Dict Text FailurePattern
add_events re d clusters [] = clusters
add_events re d clusters (e ∷ es) = add_events re d (add_event re d clusters e) es

-- the order of `key=lambda c: c.count, reverse=True`
unfoldable pub more_frequent : FailurePattern → FailurePattern → Bool
more_frequent a b = ltb b.count a.count

unfoldable pub cluster_events : Regex → Digest → List LogEvent → List FailurePattern
cluster_events re d events = sort more_frequent (values (add_events re d [] events))
