-- ===== src/Pii/Floor.antt =====
-- The guarantees of `redact` about the spans that it replaces: the regex floor holds whatever the
-- local model adds.
use tvastr_demo.Prelude.{
  ℕ, suc, ◌+◌, ◌<◌, ◌≡◌, refl, String, true, false, List, [], ◌∷◌, ◌++◌, map, arith, length, All,
  Any, All-append, All-append_left, All-map, Pairwise, Text, none, ◌∙◌, ap, sym, append-nil,
}
use tvastr_demo.Regex.{Regex}
use tvastr_demo.Pii.{
  LocalModel, Span, patterns, candidates_from, regex_candidates, model_candidates, model_priority,
  model_spans, accepted_spans,
}
use tvastr_demo.Pii.Resolve.{Candidate, before, resolve}
use tvastr_demo.Pii.Resolve.Accepted.{
  Disjoint, Covers, resolve-Disjoint, resolve-Covers, resolve-append,
}

-- The model is off, so only the regex layer runs.
abbrev pub model_off : LocalModel
model_off = record { enabled = false; engine = none }

module _ (re : Regex) where
  open re use {Pattern, finditer}

  found_prio :
      (n prio : ℕ) (label : String) (ms : List (ℕ × ℕ))
      → prio < n
      → All
          (λ (c : Candidate). c.prio < n)
          (map (λ m. record { prio = prio; start = m.0; stop = m.1; label = label }) ms)
  found_prio n prio label [] h = tt
  found_prio n prio label (m ∷ ms) h = (h, found_prio n prio label ms h)

  candidates_from_prio :
      (n prio : ℕ) (ps : List (String × Pattern)) (text : Text)
      → prio + length ps < suc n
      → All (λ (c : Candidate). c.prio < n) (candidates_from re prio ps text)
  unfolding candidates_from
  candidates_from_prio n prio [] text h = tt
  candidates_from_prio n prio ((label, p) ∷ ps) text h =
      All-append (λ (c : Candidate). c.prio < n) _ (candidates_from re (suc prio) ps text)
        (found_prio n prio label (finditer p text) (omega arith))
        (candidates_from_prio n (suc prio) ps text (omega arith))

  regex_prio :
      (text : Text) → All (λ (c : Candidate). c.prio < model_priority) (regex_candidates re text)
  unfolding regex_candidates
  regex_prio text = candidates_from_prio 6 0 (patterns re) text (omega arith)

before_model :
    (c : Candidate) (spans : List Span)
    → c.prio < model_priority
    → All (λ y. before c y ≡ true) (model_candidates spans)
unfolding model_candidates before
before_model c [] h = tt
before_model c (s ∷ spans) h = (ground arith, before_model c spans h)

no_model_spans : (text : Text) → model_spans model_off text ≡ []
unfolding model_spans
no_model_spans text = refl

accepted_off :
    (re : Regex) (text : Text)
    → accepted_spans re model_off text ≡ resolve (regex_candidates re text)
unfolding accepted_spans model_candidates
accepted_off re text = rw (no_model_spans text, append-nil)

-- whatever the local model reports, the spans that the regex layer alone would replace are all
-- replaced, in the same order, and the spans that the model adds come behind them.
pub regex_floor :
    (re : Regex) (m : LocalModel) (text : Text)
    → (more : List Candidate) × (accepted_spans re m text
        ≡ accepted_spans re model_off text ++ more)
unfolding accepted_spans
regex_floor re m text =
    let (more, p) =
      resolve-append (regex_candidates re text) (model_candidates (model_spans m text)) (
        All-map (λ c h. before_model c (model_spans m text) h) (regex_candidates re text)
          (regex_prio re text)) in
    (more, p ∙ ap (λ r. r ++ more) (sym (accepted_off re text)))

-- no two replaced spans overlap.
pub accepted_spans-Disjoint :
    (re : Regex) (m : LocalModel) (text : Text) → Pairwise Disjoint (accepted_spans re m text)
unfolding accepted_spans
accepted_spans-Disjoint re m text = resolve-Disjoint _

-- every match of a regex pattern is replaced, or overlaps a replaced span whose pattern is listed
-- no later (and which starts no later, if it is the same pattern).
pub regex_match_covered :
    (re : Regex) (m : LocalModel) (text : Text)
    → All (λ c. Any (Covers c) (accepted_spans re m text)) (regex_candidates re text)
unfolding accepted_spans
regex_match_covered re m text =
    All-append_left _ (regex_candidates re text) (model_candidates (model_spans m text))
      (resolve-Covers (regex_candidates re text ++ model_candidates (model_spans m text)))
