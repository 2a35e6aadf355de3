-- ===== src/Pii/Splice.antt =====
-- The text that `redact` returns: the replacements, made from right to left, are those of one walk
-- over the original text.
use tvastr_demo.Prelude.{
  ℕ, ◌≤◌, ◌<◌, ◌≡◌, refl, false, List, [], ◌∷◌, ◌++◌, append_assoc, append-nil, arith, take, drop,
  length, All, All-map, Pairwise, Pairwise-zip, Pairwise-with_All, Pairwise-map, take_all,
  take-take-append, drop-take-append, Text, sym, ap, ◌∙◌, All-append,
}
use tvastr_demo.Prelude.Sorting.{sort, IsWeakOrder, sort-IsSorted, sort-Pairwise, All-sort}
use tvastr_demo.Regex.{Regex}
use tvastr_demo.Pii.Floor.{accepted_spans-Disjoint}
use tvastr_demo.Pii.{
  regex_candidates, model_candidates, model_spans, LocalModel, cut_out, replace_all, later, marker,
  redact_accepted, accepted_spans, redact,
}
use tvastr_demo.Pii.Resolve.{Candidate, overlaps}
use tvastr_demo.Pii.Resolve.Accepted.{Disjoint, resolve-All}

-- The redaction of the first `n` characters, for spans from the last to the first: what stands
-- between two spans is copied, and each span becomes its marker.
abbrev pub spliced : List Candidate → ℕ → Text → Text
spliced [] n text = take n text
spliced (c ∷ cs) n text = spliced cs c.start text ++ (marker c.label ++ drop c.stop (take n text))

-- a span that is not empty and lies in the text
abbrev pub InText : Text → Candidate → Type 0
InText text c = (c.start < c.stop) × (c.stop ≤ length text)

-- every span ends before the one that stands ahead of it in the list begins
abbrev Descending : List Candidate → Type 0
Descending = Pairwise (λ (a b : Candidate). b.stop ≤ a.start)

overlaps_symm : (a b : Candidate) → overlaps b a ≡ false → overlaps a b ≡ false
unfolding overlaps
overlaps_symm a b h = ground arith

later-IsWeakOrder : IsWeakOrder later
unfolding later
later-IsWeakOrder = record { asym = λ a b h. ground arith; le_trans = λ a b c h k. ground arith }

ends_before :
    (text : Text) (a b : Candidate)
    → InText text a
    → InText text b
    → overlaps b a ≡ false
    → later b a ≡ false
    → b.stop ≤ a.start
unfolding overlaps later
ends_before text a b ha hb d l = ground arith

sort-Descending :
    (text : Text) (cs : List Candidate)
    → All (InText text) cs
    → Pairwise Disjoint cs
    → Descending (sort later cs)
sort-Descending text cs inside apart =
    Pairwise-map (λ a b h. ends_before text a b h.0 h.1 h.2.0 h.2.1) (sort later cs)
      (Pairwise-with_All (InText text) (λ a b. Disjoint a b × (later b a ≡ false)) (sort later cs)
        (All-sort later (InText text) cs inside)
        (Pairwise-zip Disjoint (λ a b. later b a ≡ false) (sort later cs)
          (sort-Pairwise later Disjoint overlaps_symm cs apart)
          (sort-IsSorted later-IsWeakOrder cs)))

cut_out-take :
    (c : Candidate) (n : ℕ) (text tail : Text)
    → c.start ≤ n
    → c.stop ≤ n
    → n ≤ length text
    → cut_out c (take n text ++ tail)
      ≡ take c.start text ++ (marker c.label ++ (drop c.stop (take n text) ++ tail))
cut_out-take c n text tail hs he hn = rw (
  take-take-append c.start n text tail hs hn,
  drop-take-append c.stop n text tail he hn,
  append_assoc,
)

rejoin :
    (front m kept tail : Text) → front ++ (m ++ (kept ++ tail)) ≡ (front ++ (m ++ kept)) ++ tail
rejoin front m kept tail = simp append_assoc

replace_all-spliced :
    (cs : List Candidate) (n : ℕ) (text tail : Text)
    → All (λ (c : Candidate). c.stop ≤ n) cs
    → n ≤ length text
    → All (InText text) cs
    → Descending cs
    → replace_all cs (take n text ++ tail) ≡ spliced cs n text ++ tail
unfolding replace_all
replace_all-spliced [] n text tail below inside spans down = refl
replace_all-spliced (c ∷ cs) n text tail (hc, below) inside (sc, spans) (dc, down) =
    ap (replace_all cs) (cut_out-take c n text tail (omega (arith, sc, hc)) hc inside)
    ∙ replace_all-spliced cs c.start text (marker c.label ++ (drop c.stop (take n text) ++ tail)) dc
        (omega (arith, sc, hc)) spans down
    ∙ rejoin (spliced cs c.start text) (marker c.label) (drop c.stop (take n text)) tail

replace_sorted :
    (cs : List Candidate) (text : Text)
    → All (InText text) cs
    → Descending cs
    → replace_all cs text ≡ spliced cs (length text) text
replace_sorted cs text inside down =
    ap (replace_all cs) (sym (append-nil (take (length text) text) ∙ take_all text))
    ∙ replace_all-spliced cs (length text) text [] (All-map (λ c h. h.1) cs inside) (omega arith)
        inside down
    ∙ append-nil (spliced cs (length text) text)

redact_accepted-spliced :
    (accepted : List Candidate) (text : Text)
    → All (InText text) accepted
    → Pairwise Disjoint accepted
    → (redact_accepted accepted text).0 ≡ spliced (sort later accepted) (length text) text
unfolding redact_accepted
redact_accepted-spliced [] text inside apart = unfold sort in sym (take_all text)
redact_accepted-spliced (a ∷ accepted) text inside apart =
    replace_sorted (sort later (a ∷ accepted)) text
      (All-sort later (InText text) (a ∷ accepted) inside)
      (sort-Descending text (a ∷ accepted) inside apart)

-- if the matches and the spans of the model are non-empty spans of the text, `redact` returns the
-- text with each accepted span replaced by its marker and all that stands between the spans
-- copied.
pub redact-spliced :
    (re : Regex) (m : LocalModel) (text : Text)
    → All (InText text) (regex_candidates re text)
    → All (InText text) (model_candidates (model_spans m text))
    → (redact re m text).0 ≡ spliced (sort later (accepted_spans re m text)) (length text) text
unfolding redact
redact-spliced re m text hr hm =
    redact_accepted-spliced (accepted_spans re m text) text
      (unfold accepted_spans in
        resolve-All (InText text) _ (
          All-append (InText text) (regex_candidates re text)
            (model_candidates (model_spans m text)) hr hm))
      (accepted_spans-Disjoint re m text)
