-- ===== src/Pii/Labels.antt =====
-- The labels that `redact` reports, and their agreement with `contains_pii`.
use tvastr_demo.Prelude.{
  ℕ, suc, String, string_eq, ◌==◌, ◌≡◌, ◌≢◌, refl, sym, ap, ◌∙◌, true, false, ◌||◌, List, [], ◌∷◌,
  ◌++◌, arith, Bool-cases, any, contains, Text, if◌then◌else◌, Pairwise, All, Pairwise-concat, Any,
  inl, inr, is_some, or_right, or_false, append-ne-nil_left, append-ne-nil_right, map-ne-nil, subst,
  beq_self,
}
use tvastr_demo.Prelude.Sorting.{sort, any-sort}
use mathlib.Core.Bool.{false≢true}
use tvastr_demo.Regex.{Regex, SearchesFirst}
use tvastr_demo.Pii.{
  LocalModel, note_labels, redact_accepted, accepted_spans, redact, contains_pii, patterns,
  candidates_from, regex_candidates, model_candidates, model_spans,
}
use tvastr_demo.Pii.Resolve.{Candidate, before, resolve, accept}
use tvastr_demo.Pii.Resolve.Accepted.{Covers}
use tvastr_demo.Pii.Floor.{model_off, regex_match_covered}

contains-append :
    (l : String) (xs ys : List String) → contains l (xs ++ ys) ≡ (contains l xs || contains l ys)
unfolding contains
contains-append l [] ys = refl
contains-append l (x ∷ xs) ys = ground (arith, contains-append l xs ys)

contains-note_labels :
    (l : String) (found : List String) (cs : List Candidate)
    → contains l (note_labels found cs)
      ≡ (contains l found || any (λ (c : Candidate). l == c.label) cs)
unfolding note_labels any contains
contains-note_labels l found [] = ground arith
contains-note_labels l found (c ∷ cs) = ground (
  arith,
  contains-note_labels l (if contains c.label found then found else found ++ c.label ∷ []) cs,
  contains-append l found (c.label ∷ []),
  string_eq.same_iff l c.label,
)

fresh_label : (l : String) (found : List String) → contains l found ≡ false → All (λ x. x ≢ l) found
unfolding contains
fresh_label l [] h = tt
fresh_label l (x ∷ found) h =
    (λ p. ground (arith, string_eq.same_iff l x), fresh_label l found (ground arith))

note_labels_unique :
    (found : List String) (cs : List Candidate)
    → Pairwise ◌≢◌ found
    → Pairwise ◌≢◌ (note_labels found cs)
unfolding note_labels
note_labels_unique found [] h = h
note_labels_unique found (c ∷ cs) h = elim (Bool-cases (contains c.label found)) [
  | inl e ↦ rw e (note_labels_unique found cs h)
  | inr e ↦ rw e (
      note_labels_unique (found ++ c.label ∷ []) cs
        (Pairwise-concat ◌≢◌ found c.label h (fresh_label c.label found e)))
]

labels_of_accepted :
    (l : String) (accepted : List Candidate) (text : Text)
    → contains l (redact_accepted accepted text).1 ≡ any (λ (c : Candidate). l == c.label) accepted
unfolding redact_accepted any
labels_of_accepted l [] text = unfold contains in refl
labels_of_accepted l (a ∷ accepted) text =
    contains-note_labels l [] (sort before (a ∷ accepted))
    ∙ unfold contains in any-sort before (λ (c : Candidate). l == c.label) (a ∷ accepted)

-- a label is among those that `redact` returns exactly if a replaced span has it.
pub redact-labels :
    (re : Regex) (m : LocalModel) (text : Text) (l : String)
    → contains l (redact re m text).1
      ≡ any (λ (c : Candidate). l == c.label) (accepted_spans re m text)
unfolding redact
redact-labels re m text l = labels_of_accepted l (accepted_spans re m text) text

labels_of_accepted_unique :
    (accepted : List Candidate) (text : Text) → Pairwise ◌≢◌ (redact_accepted accepted text).1
unfolding redact_accepted
labels_of_accepted_unique [] text = tt
labels_of_accepted_unique (a ∷ accepted) text =
    note_labels_unique [] (sort before (a ∷ accepted)) tt

-- no label is returned twice.
pub redact-labels_unique :
    (re : Regex) (m : LocalModel) (text : Text) → Pairwise ◌≢◌ (redact re m text).1
unfolding redact
redact-labels_unique re m text = labels_of_accepted_unique (accepted_spans re m text) text

first_label :
    (a : Candidate) (accepted : List Candidate)
    → any (λ (c : Candidate). a.label == c.label) (a ∷ accepted) ≡ true
unfolding any
first_label a accepted = rw (beq_self a.label)

labels-ne-nil :
    (accepted : List Candidate) (text : Text)
    → accepted ≢ []
    → (redact_accepted accepted text).1 ≢ []
unfolding contains
labels-ne-nil [] text h = absurd (h refl)
labels-ne-nil (a ∷ accepted) text h = λ e. false≢true (
    ap (contains a.label) (sym e)
    ∙ labels_of_accepted a.label (a ∷ accepted) text
    ∙ first_label a accepted)

module _ (re : Regex) (laws : SearchesFirst re) where
  open re use {Pattern, finditer, search}

  match_of_search :
      (p : Pattern) (text : Text) → is_some (search p text) ≡ true → finditer p text ≢ []
  match_of_search p text h e = ground (arith, (laws.search_none p text).1 e)

  no_match_of_search :
      (p : Pattern) (text : Text) → is_some (search p text) ≡ false → finditer p text ≡ []
  no_match_of_search p text h = (laws.search_none p text).0 (ground arith)

  candidate_of_search :
      (prio : ℕ) (ps : List (String × Pattern)) (text : Text)
      → any (λ lp. is_some (search lp.1 text)) ps ≡ true
      → candidates_from re prio ps text ≢ []
  unfolding candidates_from any
  candidate_of_search prio [] text h = cc
  candidate_of_search prio ((label, p) ∷ ps) text h = elim (Bool-cases (is_some (search p text))) [
    | inl e ↦ append-ne-nil_left _ _ (map-ne-nil _ (finditer p text) (match_of_search p text e))
    | inr e ↦
        append-ne-nil_right _ _
          (candidate_of_search (suc prio) ps text (or_right (is_some (search p text)) _ e h))
  ]

  no_candidate_of_search :
      (prio : ℕ) (ps : List (String × Pattern)) (text : Text)
      → any (λ lp. is_some (search lp.1 text)) ps ≡ false
      → candidates_from re prio ps text ≡ []
  unfolding candidates_from any
  no_candidate_of_search prio [] text h = refl
  no_candidate_of_search prio ((label, p) ∷ ps) text h =
      let (here, there) = or_false (is_some (search p text)) _ h in
      rw (no_match_of_search p text here) (no_candidate_of_search (suc prio) ps text there)

  accepted_of_candidate :
      (m : LocalModel) (text : Text) → regex_candidates re text ≢ [] → accepted_spans re m text ≢ []
  accepted_of_candidate m text h e = witness (regex_candidates re text) h (
      subst (λ r. All (λ c. Any (Covers c) r) (regex_candidates re text)) e
        (regex_match_covered re m text))
    where
      witness : (cs : List Candidate) → cs ≢ [] → All (λ c. Any (Covers c) []) cs → ⊥
      witness [] h a = h refl
      witness (c ∷ cs) h a = a.0

  -- a text that `contains_pii` flags never passes `redact` without a label, with the local model
  -- on or off, if `search` finds a match whenever `finditer` yields one and only then.
  pub flagged_is_redacted :
      (m : LocalModel) (text : Text) → contains_pii re text ≡ true → (redact re m text).1 ≢ []
  flagged_is_redacted m text h =
      unfold redact in
      labels-ne-nil (accepted_spans re m text) text (
        accepted_of_candidate m text
          (unfold regex_candidates contains_pii in candidate_of_search 0 (patterns re) text h))

  -- without the local model, a text that `contains_pii` does not flag is returned as it is, with
  -- no label, if `search` finds a match whenever `finditer` yields one and only then.
  pub unflagged_is_kept :
      (text : Text) → contains_pii re text ≡ false → redact re model_off text ≡ (text, [])
  unfolding redact accepted_spans regex_candidates contains_pii model_candidates model_spans resolve
      sort accept redact_accepted
  unflagged_is_kept text h = rw (no_candidate_of_search 0 (patterns re) text h)
