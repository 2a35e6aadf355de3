-- ===== src/Detection/Detector.antt =====
-- src/tvastr/detection/detector.py: a pattern is sensitive if one of its events holds PII.
use tvastr_demo.Prelude.{
  if◌then◌else◌, List, [], ◌∷◌, ◌++◌, Option, none, some, any, map, Text, codes, text_eq,
}
use tvastr_demo.Prelude.Dicts.{Dict, get, put, values}
use tvastr_demo.Prelude.Strings.{join}
use tvastr_demo.Regex.{Regex}
use tvastr_demo.Domain.{LogEvent, FailurePattern, sensitive}
use tvastr_demo.Pii.{contains_pii}
use tvastr_demo.Detection.Clustering.{Digest, or_else, fingerprint, cluster_events}

-- `_event_text`
unfoldable pub event_text : LogEvent → Text
event_text e = join (codes "\n") (e.message ∷ or_else e.stack_trace [] ∷ values e.attributes)

-- `events_by_fp.setdefault(fingerprint(event), []).append(event)`, and the loop
unfoldable pub file_event :
    Regex → Digest → Dict Text (List LogEvent) → LogEvent → Dict Text (List LogEvent)
file_event re d groups e =
    let fp = fingerprint re d e in
    elim (get fp groups) [ none ↦ put fp (e ∷ []) groups | some es ↦ put fp (es ++ e ∷ []) groups ]

unfoldable pub file_events :
    Regex → Digest → Dict Text (List LogEvent) → List LogEvent → Dict Text (List LogEvent)
file_events re d groups [] = groups
file_events re d groups (e ∷ es) = file_events re d (file_event re d groups e) es

abbrev pub or_empty : Option (List LogEvent) → List LogEvent
or_empty none = []
or_empty (some es) = es

-- the body of the second loop
unfoldable pub classify : Regex → Dict Text (List LogEvent) → FailurePattern → FailurePattern
classify re groups p =
    if any (λ e. contains_pii re (event_text e)) (or_empty (get p.fingerprint groups))
    then record p { sensitivity = sensitive }
    else p

-- `FailureDetector.detect`
unfoldable pub detect : Regex → Digest → List LogEvent → List FailurePattern
detect re d events = map (classify re (file_events re d [] events)) (cluster_events re d events)
