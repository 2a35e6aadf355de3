-- ===== src/Agent/EditSafety.antt =====
-- What the edits of src/tvastr/agent/tools/fix_generation.py promise.
use tvastr_demo.Prelude.{
  true, false, Bool-cases, Option-cases, is_empty, contains, length, drop, List, [], ◌∷◌, ◌++◌,
  some, Text, text_eq, ◌==◌, ◌≡◌, ◌≢◌, refl, sym, ap, subst, arith, inl, inr, ◌⊎◌, All, All-map,
  default_to,
}
use tvastr_demo.Prelude.Dicts.{Dict, get, put, keys, HasUniqueKeys}
use tvastr_demo.Prelude.Strings.{starts_with}
use tvastr_demo.Json.{as_text}
use tvastr_demo.Domain.{FileChange}
use tvastr_demo.Agent.Edits.{
  start, count_from, replace_first, Applied, edited, refused, Refusal, apply_change, Operation,
  Working, accept_edit, finish_edit, refuse, apply_operation, apply_operations, file_changes,
  build_real_changes,
}

starts_with-split : (p s : Text) → starts_with p s ≡ true → s ≡ p ++ drop (length p) s
unfolding starts_with
starts_with-split [] s h = refl
starts_with-split (c ∷ p) [] h = absurd (ground arith)
starts_with-split (c ∷ p) (d ∷ s) h = ground (arith, starts_with-split p s)

-- The new content has the replacement in the place of one occurrence.
abbrev pub IsEdit : Text → Text → Text → Text → Type 0
IsEdit search replace content new =
    (before : Text) × (after : Text) × (content ≡ before ++ (search ++ after))
    × (new ≡ before ++ (replace ++ after))

found-IsEdit :
    (p r s : Text) → is_empty p ≡ false → count_from 0 p s ≢ 0 → IsEdit p r s (replace_first p r s)
unfolding count_from replace_first
found-IsEdit p r [] ne h = absurd (h refl)
found-IsEdit p r (c ∷ s) ne h = elim (Bool-cases (starts_with p (c ∷ s))) [
  | inl q ↦ rw (q, replace_first) ([], drop (length p) (c ∷ s), starts_with-split p (c ∷ s) q, refl)
  | inr q ↦
      let (before, after, e, f) = found-IsEdit p r s ne (λ z. h (ground (arith, q, z))) in
      rw (q, replace_first) (c ∷ before, after, ap (◌∷◌ c) e, ap (◌∷◌ c) f)
]

-- if an operation is applied, the search string counts once in the content (occurrences that do
-- not overlap), and the new content is the old one with the replacement in the place of an
-- occurrence.
pub apply_change-IsEdit :
    (content search replace new : Text)
    → apply_change content search replace ≡ edited new
    → IsEdit search replace content new × (count_from 0 search content ≡ 1)
unfolding apply_change
apply_change-IsEdit content search replace new h =
    let ne : is_empty search ≡ false = ground arith in
    let one : count_from 0 search content ≡ 1 = ground arith in
    let out : replace_first search replace content ≡ new = ground arith in
    (
      subst (IsEdit search replace content) out
          (found-IsEdit search replace content ne (λ z. ground (arith, one, z))),
      one,
    )

-- An entry of an allowed path, or one that still has the retrieved content.
abbrev pub IsGuarded : Dict Text Text → Dict Text Text → Text × Text → Type 0
IsGuarded code_files allowed e =
    (contains e.0 (keys allowed) ≡ true) ⊎ (get e.0 code_files ≡ some e.1)

All-entries-put :
    (P : Text × Text → Type 0) (k v : Text) (d : Dict Text Text)
    → P (k, v)
    → All P d
    → All P (put k v d)
unfolding put
All-entries-put P k v [] pk h = (pk, tt)
All-entries-put P k v ((i, w) ∷ d) pk (pi, h) = elim (Bool-cases (i == k)) [
  | inl q ↦ let e : k ≡ i = sym ((text_eq.same_iff i k).0 q) in rw q (subst (λ j. P (j, v)) e pk, h)
  | inr q ↦ rw q (pi, All-entries-put P k v d pk h)
]

finish_edit-IsGuarded :
    (code_files allowed : Dict Text Text) (op : Operation) (a : Applied) (w next : Working)
    → contains op.path (keys allowed) ≡ true
    → finish_edit op a w ≡ some next
    → All (IsGuarded code_files allowed) w.files
    → All (IsGuarded code_files allowed) next.files
unfolding finish_edit accept_edit
finish_edit-IsGuarded code_files allowed op (refused r) w next may h kept =
    let e : refuse op.path r w ≡ next = ground (arith, h) in
    subst (λ x. All (IsGuarded code_files allowed) x.files) e kept
finish_edit-IsGuarded code_files allowed op (edited content) w next may h kept =
    elim (Option-cases (as_text op.rationale)) [
      | inl q ↦ absurd (ground (arith, q, h))
      | inr (r, q) ↦
          let e : put op.path content w.files ≡ next.files = ground (arith, q, h) in
          subst (All (IsGuarded code_files allowed)) e
            (All-entries-put (IsGuarded code_files allowed) op.path content w.files (inl may) kept)
    ]

apply_operation-IsGuarded :
    (code_files allowed : Dict Text Text) (op : Operation) (w next : Working)
    → apply_operation allowed op w ≡ some next
    → All (IsGuarded code_files allowed) w.files
    → All (IsGuarded code_files allowed) next.files
unfolding apply_operation
apply_operation-IsGuarded code_files allowed op w next h kept =
    elim (Option-cases (get op.path w.files)) [
      | inl q ↦ subst (λ x. All (IsGuarded code_files allowed) x) (ground (arith, q, h)) kept
      | inr (content, q) ↦ elim (Bool-cases (contains op.path (keys allowed))) [
        | inl may ↦
            finish_edit-IsGuarded code_files allowed op (apply_change content op.search op.replace)
              w next may (ground (arith, q, may, h)) kept
        | inr n ↦ subst (λ x. All (IsGuarded code_files allowed) x) (ground (arith, q, n, h)) kept
      ]
    ]

apply_operations-IsGuarded :
    (code_files allowed : Dict Text Text) (ops : List Operation) (w last : Working)
    → apply_operations allowed ops w ≡ some last
    → All (IsGuarded code_files allowed) w.files
    → All (IsGuarded code_files allowed) last.files
unfolding apply_operations
apply_operations-IsGuarded code_files allowed [] w last h kept =
    let e : w ≡ last = ground (arith, h) in
    subst (λ x. All (IsGuarded code_files allowed) x.files) e kept
apply_operations-IsGuarded code_files allowed (op ∷ ops) w last h kept =
    elim (Option-cases (apply_operation allowed op w)) [
      | inl q ↦ absurd (ground (arith, q, h))
      | inr (next, q) ↦
          apply_operations-IsGuarded code_files allowed ops next last (ground (arith, q, h))
            (apply_operation-IsGuarded code_files allowed op w next q kept)
    ]

-- A change of an allowed file that is really one.
abbrev pub IsRealChange : Dict Text Text → Dict Text Text → FileChange → Type 0
IsRealChange code_files allowed c =
    (contains c.path (keys allowed) ≡ true) × (get c.path code_files ≢ some c.patched_content)

file_changes-IsRealChange :
    (diff : Text → Text → Text → Text) (code_files allowed : Dict Text Text)
    (rationales : Dict Text (List Text)) (files : Dict Text Text)
    → All (IsGuarded code_files allowed) files
    → All (IsRealChange code_files allowed) (file_changes diff code_files rationales files)
unfolding file_changes
file_changes-IsRealChange diff code_files allowed rationales [] h = tt
file_changes-IsRealChange diff code_files allowed rationales ((path, content) ∷ files) (g, h) =
    let rest = file_changes-IsRealChange diff code_files allowed rationales files h in
    elim (Bool-cases (content == default_to [] (get path code_files))) [
      | inl q ↦ rw q rest
      | inr q ↦
          let differs : get path code_files ≢ some content =
            λ e. ground (arith, q, e, text_eq.same_iff content content) in
          let may : contains path (keys allowed) ≡ true = elim g [
            | inl y ↦ y
            | inr n ↦ absurd (differs n)
          ] in
          rw q ((may, differs), rest)
    ]

entries-behind :
    (k v : Text) (d es : Dict Text Text)
    → All (λ j. k ≢ j) (keys es)
    → All (λ e. get e.0 d ≡ some e.1) es
    → All (λ e. get e.0 ((k, v) ∷ d) ≡ some e.1) es
unfolding get
entries-behind k v d [] new h = tt
entries-behind k v d ((j, w) ∷ es) (n, new) (g, h) =
    (ground (arith, text_eq.same_iff k j, n, g), entries-behind k v d es new h)

-- what stands in a dictionary whose keys differ is what it gives
entries-get : (d : Dict Text Text) → HasUniqueKeys d → All (λ e. get e.0 d ≡ some e.1) d
unfolding get
entries-get [] u = tt
entries-get ((k, v) ∷ d) (new, u) =
    (ground (arith, text_eq.same_iff k k), entries-behind k v d d new (entries-get d u))

-- if the paths of the retrieved files differ and the operations of a response do not raise, every
-- change that they give is of an allowed path, and its content differs from the retrieved one.
pub build_real_changes-IsRealChange :
    (diff : Text → Text → Text → Text) (ops : List Operation) (code_files allowed : Dict Text Text)
    (changes : List FileChange) (errors : List (Text × Refusal))
    → HasUniqueKeys code_files
    → build_real_changes diff ops code_files allowed ≡ some (changes, errors)
    → All (IsRealChange code_files allowed) changes
unfolding build_real_changes
build_real_changes-IsRealChange diff ops code_files allowed changes errors u h =
    elim (Option-cases (apply_operations allowed ops (start code_files))) [
      | inl q ↦ absurd (ground (arith, q, h))
      | inr (w, q) ↦
          let e : file_changes diff code_files w.rationales w.files ≡ changes =
            ground (arith, q, h) in
          let kept =
            apply_operations-IsGuarded code_files allowed ops (start code_files) w q
              (All-map (λ x g. inr g) code_files (entries-get code_files u)) in
          subst (All (IsRealChange code_files allowed)) e
            (file_changes-IsRealChange diff code_files allowed w.rationales w.files kept)
    ]
