-- ===== src/Detection/Privacy.antt =====
-- The sensitivity of detected patterns.
use tvastr_demo.Prelude.{
  ◌≡◌, refl, ◌∙◌, Bool, if◌then◌else◌, List, [], ◌∷◌, ◌++◌, Option, none, some, Option-cases,
  Bool-cases, any, keep, All, map, Text, codes, sym, ap, text_eq, inl, inr, append-nil,
  append_assoc,
}
use tvastr_demo.Prelude.Dicts.{Dict, get, put, get-put, All-values-put, get-All, values}
use tvastr_demo.Prelude.Sorting.{All-sort}
use tvastr_demo.Prelude.Strings.{join}
use tvastr_demo.Regex.{Regex}
use tvastr_demo.Domain.{LogEvent, FailurePattern, internal, sensitive}
use tvastr_demo.Pii.{contains_pii}
use tvastr_demo.Detection.Clustering.{
  Digest, or_else, fingerprint, open_cluster, absorb, add_event, add_events, more_frequent,
  cluster_events,
}
use tvastr_demo.Detection.Grouping.{has_fingerprint}
use tvastr_demo.Detection.Detector.{event_text, file_event, file_events, or_empty, classify, detect}

-- the values of the attributes, each on a line of its own
abbrev attribute_lines : Dict Text Text → Text
attribute_lines [] = []
attribute_lines ((k, v) ∷ rest) = codes "\n" ++ (v ++ attribute_lines rest)

-- all that an event tells: the message, the trace, which may be none, and the attributes
abbrev pub whole_text : LogEvent → Text
whole_text e =
    e.message ++ (codes "\n" ++ (or_else e.stack_trace [] ++ attribute_lines e.attributes))

join-attribute_lines :
    (x : Text) (attributes : Dict Text Text)
    → join (codes "\n") (x ∷ values attributes) ≡ x ++ attribute_lines attributes
unfolding join
join-attribute_lines x [] = sym (append-nil x)
join-attribute_lines x ((k, v) ∷ rest) =
    ap (λ t. x ++ (codes "\n" ++ t)) (join-attribute_lines v rest)

event_text-whole_text : (e : LogEvent) → event_text e ≡ whole_text e
unfolding event_text join
event_text-whole_text e =
    ap (λ t. e.message ++ (codes "\n" ++ t))
      (join-attribute_lines (or_else e.stack_trace []) e.attributes)

module _ (re : Regex) (d : Digest) where
  abbrev add_to : Option (List LogEvent) → LogEvent → List LogEvent
  add_to none e = e ∷ []
  add_to (some es) e = es ++ e ∷ []

  file_event-put :
      (groups : Dict Text (List LogEvent)) (e : LogEvent)
      → file_event re d groups e
        ≡ put (fingerprint re d e) (add_to (get (fingerprint re d e) groups) e) groups
  unfolding file_event
  file_event-put groups e = elim (Option-cases (get (fingerprint re d e) groups)) [
    | inl h ↦ rw (h, file_event)
    | inr (c, h) ↦ rw (h, file_event)
  ]

  or_empty-add_to : (o : Option (List LogEvent)) (e : LogEvent) → add_to o e ≡ or_empty o ++ e ∷ []
  or_empty-add_to none e = refl
  or_empty-add_to (some es) e = refl

  or_empty-file_event :
      (groups : Dict Text (List LogEvent)) (e : LogEvent) (fp : Text)
      → or_empty (get fp (file_event re d groups e))
        ≡ or_empty (get fp groups) ++ keep (has_fingerprint re d fp) (e ∷ [])
  unfolding keep
  or_empty-file_event groups e fp =
      rw (file_event-put groups e, get-put (fingerprint re d e) fp)
        (elim (Bool-cases (has_fingerprint re d fp e)) [
          | inl h ↦
              rw (h, (text_eq.same_iff (fingerprint re d e) fp).0 h)
                (or_empty-add_to (get fp groups) e)
          | inr h ↦ rw (h, append-nil)
        ])

  keep-cons :
      (p : LogEvent → Bool) (e : LogEvent) (es : List LogEvent)
      → keep p (e ∷ es) ≡ keep p (e ∷ []) ++ keep p es
  unfolding keep
  keep-cons p e es = elim (Bool-cases (p e)) [ inl h ↦ rw h | inr h ↦ rw h ]

  or_empty-file_events :
      (groups : Dict Text (List LogEvent)) (events : List LogEvent) (fp : Text)
      → or_empty (get fp (file_events re d groups events))
        ≡ or_empty (get fp groups) ++ keep (has_fingerprint re d fp) events
  unfolding file_events
  or_empty-file_events groups [] fp = unfold keep in rw append-nil
  or_empty-file_events groups (e ∷ es) fp =
      or_empty-file_events (file_event re d groups e) es fp
      ∙ rw (or_empty-file_event groups e fp, keep-cons (has_fingerprint re d fp) e es, append_assoc)

  abbrev IsInternal : FailurePattern → Type 0
  IsInternal p = p.sensitivity ≡ internal

  add_event-IsInternal :
      (clusters : Dict Text FailurePattern) (e : LogEvent)
      → All IsInternal (values clusters)
      → All IsInternal (values (add_event re d clusters e))
  unfolding add_event
  add_event-IsInternal clusters e h = elim (Option-cases (get (fingerprint re d e) clusters)) [
    | inl g ↦
        rw (g, add_event)
          (All-values-put IsInternal (fingerprint re d e) (open_cluster re d e) clusters
            (unfold open_cluster in refl) h)
    | inr (c, g) ↦
        rw (g, add_event)
          (All-values-put IsInternal (fingerprint re d e) (absorb c e) clusters
            (unfold absorb in get-All IsInternal (fingerprint re d e) clusters c g h) h)
  ]

  add_events-IsInternal :
      (clusters : Dict Text FailurePattern) (events : List LogEvent)
      → All IsInternal (values clusters)
      → All IsInternal (values (add_events re d clusters events))
  unfolding add_events
  add_events-IsInternal clusters [] h = h
  add_events-IsInternal clusters (e ∷ es) h =
      add_events-IsInternal (add_event re d clusters e) es (add_event-IsInternal clusters e h)

  -- does an event with the fingerprint hold PII?
  abbrev pub holds_pii : List LogEvent → Text → Bool
  holds_pii events fp =
      any (λ e. contains_pii re (whole_text e)) (keep (has_fingerprint re d fp) events)

  any-whole_text :
      (es : List LogEvent)
      → any (λ e. contains_pii re (event_text e)) es ≡ any (λ e. contains_pii re (whole_text e)) es
  unfolding any
  any-whole_text [] = refl
  any-whole_text (e ∷ es) = rw (event_text-whole_text e, any-whole_text es) refl

  abbrev pub IsClassified : List LogEvent → FailurePattern → Type 0
  IsClassified events p =
      p.sensitivity ≡ (if holds_pii events p.fingerprint then sensitive else internal)

  group_of :
      (events : List LogEvent) (fp : Text)
      → or_empty (get fp (file_events re d [] events)) ≡ keep (has_fingerprint re d fp) events
  group_of events fp = or_empty-file_events [] events fp ∙ unfold get in refl

  classify-IsClassified :
      (events : List LogEvent) (p : FailurePattern)
      → IsInternal p
      → IsClassified events (classify re (file_events re d [] events) p)
  unfolding classify
  classify-IsClassified events p h =
      rw
        (
          group_of events p.fingerprint,
          any-whole_text (keep (has_fingerprint re d p.fingerprint) events),
        )
        (elim (Bool-cases (holds_pii events p.fingerprint)) [
          | inl e ↦ rw (e, e)
          | inr e ↦ rw e (rw e h)
        ])

  classify-All :
      (events : List LogEvent) (ps : List FailurePattern)
      → All IsInternal ps
      → All (IsClassified events) (map (classify re (file_events re d [] events)) ps)
  classify-All events [] h = tt
  classify-All events (p ∷ ps) (hp, h) =
      (classify-IsClassified events p hp, classify-All events ps h)

  -- a detected pattern is sensitive if the PII check finds something in the whole text of an
  -- event with its fingerprint, which is its message, its stack trace or nothing, and the values
  -- of its attributes, each behind a newline; otherwise it is internal.
  pub detect-IsClassified :
      (events : List LogEvent) → All (IsClassified events) (detect re d events)
  unfolding detect cluster_events
  detect-IsClassified events = classify-All events _ (
      All-sort more_frequent IsInternal (values (add_events re d [] events))
        (add_events-IsInternal [] events tt))
