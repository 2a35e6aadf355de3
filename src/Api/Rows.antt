-- ===== src/Api/Rows.antt =====
-- The dicts in the event `fix.generated` of src/tvastr/agent/graph.py, as they are read back.
use tvastr_demo.Prelude.{
  Bool-cases, map, List, [], ◌∷◌, Option, none, some, Text, text_eq, string_eq, ◌==◌, ◌≡◌, ◌≢◌,
  refl, sym, ap, ◌∙◌, arith, inl, inr, All, Pairwise, beq_self,
}
use tvastr_demo.Prelude.Dicts.{Dict, get, put}
use tvastr_demo.Json.{Value, string}
use tvastr_demo.Domain.{FileChange, FixRegister, repair, fail_fast, warn, better_error, document}
use tvastr_demo.Agent.Investigate.{add_files}
use tvastr_demo.Agent.Nodes.{entries, add_row, diffs_of, text_dict, register_name, rationale_row}
use tvastr_demo.Api.Payloads.{text_rows, register_of}

-- each path stands once
abbrev pub HasUniquePaths : List FileChange → Type 0
HasUniquePaths = Pairwise (λ a b. a.path ≢ b.path)

-- a change without a snippet, whose diff is not empty
abbrev pub IsPlain : FileChange → Type 0
IsPlain c = (c.original_snippet ≡ none) × (c.diff ≢ some [])

abbrev Differs : Text → Text × Text → Type 0
Differs k row = k ≢ row.0

abbrev pub IsUnique : List (Text × Text) → Type 0
IsUnique = Pairwise (λ a b. a.0 ≢ b.0)

-- a row in front whose key is not written stays in front
add_files-cons :
    (k v : Text) (rows acc : Dict Text Text)
    → All (Differs k) rows
    → add_files rows ((k, v) ∷ acc) ≡ (k, v) ∷ add_files rows acc
unfolding add_files put
add_files-cons k v [] acc h = refl
add_files-cons k v ((j, w) ∷ rows) acc (ne, h) = elim (Bool-cases (k == j)) [
  | inl q ↦ absurd (ne ((text_eq.same_iff k j).0 q))
  | inr q ↦ rw (q, add_files, put) (add_files-cons k v rows (put j w acc) h)
]

pub text_dict_unique : (rows : List (Text × Text)) → IsUnique rows → text_dict rows ≡ rows
unfolding text_dict add_files put
text_dict_unique [] h = refl
text_dict_unique ((k, v) ∷ rows) (ne, h) =
    add_files-cons k v rows [] ne ∙ ap (λ d. (k, v) ∷ d) (text_dict_unique rows h)

abbrev pub strings : Dict Text Text → Dict Text Value
strings d = map (λ e. (e.0, string e.1)) d

pub text_rows-entries : (d : Dict Text Text) → text_rows (entries d) ≡ some (strings d)
unfolding text_rows entries
text_rows-entries [] = refl
text_rows-entries ((k, v) ∷ d) = rw (text_rows-entries d) refl

pub get-strings-none : (k : Text) (d : Dict Text Text) → get k d ≡ none → get k (strings d) ≡ none
unfolding get
get-strings-none k [] h = refl
get-strings-none k ((j, v) ∷ d) h = elim (Bool-cases (j == k)) [
  | inl q ↦ absurd (ground (arith, q, h))
  | inr q ↦ rw q (get-strings-none k d (ground (arith, q, h)))
]

pub get-strings :
    (k v : Text) (d : Dict Text Text) → get k d ≡ some v → get k (strings d) ≡ some (string v)
unfolding get
get-strings k v [] h = absurd (cc)
get-strings k v ((j, w) ∷ d) h = elim (Bool-cases (j == k)) [
  | inl q ↦ rw q (ground (arith, q, h))
  | inr q ↦ rw q (get-strings k v d (ground (arith, q, h)))
]

pub register_of_name : (x : FixRegister) → register_of (string (register_name x)) ≡ x
unfolding register_of
register_of_name repair = refl
register_of_name fail_fast = refl
register_of_name warn = refl
register_of_name better_error = refl
register_of_name document = refl

get-Differs : (k : Text) (rows : List (Text × Text)) → All (Differs k) rows → get k rows ≡ none
unfolding get
get-Differs k [] h = refl
get-Differs k ((j, v) ∷ rows) (ne, h) = elim (Bool-cases (j == k)) [
  | inl q ↦ absurd (ne (sym ((text_eq.same_iff j k).0 q)))
  | inr q ↦ rw q (get-Differs k rows h)
]

get-cons : (k j v : Text) (rows : List (Text × Text)) → j ≢ k → get k ((j, v) ∷ rows) ≡ get k rows
unfolding get
get-cons k j v rows ne = elim (Bool-cases (j == k)) [
  | inl q ↦ absurd (ne ((text_eq.same_iff j k).0 q))
  | inr q ↦ rw q refl
]

get-add_row-other :
    (k path : Text) (d : Option Text) (rows : List (Text × Text))
    → path ≢ k
    → get k (add_row path d rows) ≡ get k rows
get-add_row-other k path none rows ne = refl
get-add_row-other k path (some []) rows ne = refl
get-add_row-other k path (some (x ∷ d)) rows ne = get-cons k path (x ∷ d) rows ne

get-add_row :
    (path : Text) (d : Option Text) (rows : List (Text × Text))
    → d ≢ some []
    → All (Differs path) rows
    → get path (add_row path d rows) ≡ d
unfolding get
get-add_row path none rows ne h = get-Differs path rows h
get-add_row path (some []) rows ne h = absurd (ne refl)
get-add_row path (some (x ∷ d)) rows ne h = rw (beq_self path) refl

All-add_row :
    (k path : Text) (d : Option Text) (rows : List (Text × Text))
    → k ≢ path
    → All (Differs k) rows
    → All (Differs k) (add_row path d rows)
All-add_row k path none rows ne h = h
All-add_row k path (some []) rows ne h = h
All-add_row k path (some (x ∷ d)) rows ne h = (ne, h)

IsUnique-add_row :
    (path : Text) (d : Option Text) (rows : List (Text × Text))
    → All (Differs path) rows
    → IsUnique rows
    → IsUnique (add_row path d rows)
IsUnique-add_row path none rows ne h = h
IsUnique-add_row path (some []) rows ne h = h
IsUnique-add_row path (some (x ∷ d)) rows ne h = (ne, h)

diffs_of-Differs :
    (k : Text) (cs : List FileChange) → All (λ c. k ≢ c.path) cs → All (Differs k) (diffs_of cs)
unfolding diffs_of
diffs_of-Differs k [] h = tt
diffs_of-Differs k (c ∷ cs) (ne, h) =
    All-add_row k c.path c.diff (diffs_of cs) ne (diffs_of-Differs k cs h)

pub diffs_of-IsUnique : (cs : List FileChange) → HasUniquePaths cs → IsUnique (diffs_of cs)
unfolding diffs_of
diffs_of-IsUnique [] h = tt
diffs_of-IsUnique (c ∷ cs) (ne, h) =
    IsUnique-add_row c.path c.diff (diffs_of cs) (diffs_of-Differs c.path cs ne)
      (diffs_of-IsUnique cs h)

-- rows that have the paths of the changes
rows-Differs :
    (f : FileChange → Text) (k : Text) (cs : List FileChange)
    → All (λ c. k ≢ c.path) cs
    → All (Differs k) (map (λ c. (c.path, f c)) cs)
rows-Differs f k [] h = tt
rows-Differs f k (c ∷ cs) (ne, h) = (ne, rows-Differs f k cs h)

pub rows-IsUnique :
    (f : FileChange → Text) (cs : List FileChange)
    → HasUniquePaths cs
    → IsUnique (map (λ c. (c.path, f c)) cs)
rows-IsUnique f [] h = tt
rows-IsUnique f (c ∷ cs) (ne, h) = (rows-Differs f c.path cs ne, rows-IsUnique f cs h)

-- the rationale and the diff of a change stand in the two dicts
abbrev pub Reads : Dict Text Text → Dict Text Text → FileChange → Type 0
Reads rationales diffs c = (get c.path rationales ≡ some c.rationale) × (get c.path diffs ≡ c.diff)

Reads-cons :
    (c : FileChange) (rationales diffs : Dict Text Text) (cs : List FileChange)
    → All (λ x. c.path ≢ x.path) cs
    → All (Reads rationales diffs) cs
    → All (Reads ((c.path, c.rationale) ∷ rationales) (add_row c.path c.diff diffs)) cs
Reads-cons c rationales diffs [] ne h = tt
Reads-cons c rationales diffs (x ∷ cs) (n, ne) ((a, b), h) = (
  (
    get-cons x.path c.path c.rationale rationales n ∙ a,
    get-add_row-other x.path c.path c.diff diffs n ∙ b,
  ),
  Reads-cons c rationales diffs cs ne h,
)

pub changes-Reads :
    (cs : List FileChange)
    → HasUniquePaths cs
    → All IsPlain cs
    → All (Reads (map rationale_row cs) (diffs_of cs)) cs
unfolding diffs_of get
changes-Reads [] u plain = tt
changes-Reads (c ∷ cs) (ne, u) ((snippet, diff), plain) = (
  (
    rw (beq_self c.path) refl,
    get-add_row c.path c.diff (diffs_of cs) diff (diffs_of-Differs c.path cs ne),
  ),
  Reads-cons c (map rationale_row cs) (diffs_of cs) cs ne (changes-Reads cs u plain),
)
