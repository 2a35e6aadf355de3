-- ===== src/Json/Extract.antt =====
-- src/tvastr/analysis/_jsonutil.py: the JSON objects in the prose of a model.
use tvastr_demo.Prelude.{
  ℕ, zero, suc, ◌-◌, nat_beq, if◌then◌else◌, List, [], ◌∷◌, Option, none, some, Text, ◌≡◌, refl,
  arith, Bool-cases, inl, inr,
}
use tvastr_demo.Json.{Value, object, Fields}

-- `isinstance(obj, dict)`
abbrev pub as_object : Value → Option Fields
as_object (object fields) = some fields
as_object _ = none

abbrev pub with_object : Value → List Fields → List Fields
with_object (object fields) rest = fields ∷ rest
with_object _ rest = rest

-- `JSONDecoder.raw_decode` at the start of a text: the value and the number of characters of it,
-- at least one; `none` is a JSONDecodeError.
module _ (raw_decode : Text → Option (Value × ℕ)) where
  abbrev decoded : Option (Value × ℕ) → Option Fields → Option Fields
  decoded none later = later
  decoded (some (v, size)) later = as_object v

  -- `extract_json`
  unfoldable pub extract_json : Text → Option Fields
  extract_json [] = none
  extract_json (c ∷ s) =
      let later = extract_json s in
      if nat_beq c b'{' then decoded (raw_decode (c ∷ s)) later else later

  abbrev collected : Option (Value × ℕ) → List Fields → (ℕ → List Fields) → List Fields
  collected none later after = later
  collected (some (v, size)) later after = with_object v (after (size - 1))

  -- the loop of `extract_all_json`, with the characters to go of the last object
  unfoldable pub objects_from : ℕ → Text → List Fields
  objects_from skip [] = []
  objects_from (suc skip) (c ∷ s) = objects_from skip s
  objects_from zero (c ∷ s) =
      let later = objects_from zero s in
      let after = λ (n : ℕ). objects_from n s in
      if nat_beq c b'{' then collected (raw_decode (c ∷ s)) later after else later

  -- `extract_all_json`
  unfoldable pub extract_all_json : Text → List Fields
  unfolding objects_from
  extract_all_json text = objects_from 0 text

  -- what is decoded at an opening brace is a dict
  abbrev pub DecodesObjects : Type 0
  DecodesObjects =
      (s : Text) (v : Value) (size : ℕ)
      → raw_decode (b'{' ∷ s) ≡ some (v, size)
      → (fields : Fields) × (v ≡ object fields)

  abbrev pub first : List Fields → Option Fields
  first [] = none
  first (f ∷ _) = some f

  decoded-first :
      (r : Option (Value × ℕ)) (later : List Fields) (after : ℕ → List Fields)
      → ((v : Value) (size : ℕ) → r ≡ some (v, size) → (fields : Fields) × (v ≡ object fields))
      → decoded r (first later) ≡ first (collected r later after)
  decoded-first none later after h = refl
  decoded-first (some (v, size)) later after h =
      let (fields, e) = h v size refl in ground (arith, e)

  -- if whatever is decoded at an opening brace is an object, extract_json gives the first object
  -- of extract_all_json.
  pub extract_json-first :
      DecodesObjects → (text : Text) → extract_json text ≡ first (extract_all_json text)
  unfolding extract_json extract_all_json
  extract_json-first h [] = refl
  extract_json-first h (c ∷ s) = elim (Bool-cases (nat_beq c b'{')) [
    | inl q ↦
        let e : c ≡ b'{' = ground (arith, q) in
        let f =
          decoded-first (raw_decode (c ∷ s)) (objects_from 0 s) (λ n. objects_from n s)
            (λ v size r. h s v size (ground (arith, e, r))) in
        rw (q, extract_json, objects_from) (rw (extract_json-first h s) f)
    | inr q ↦ rw (q, extract_json, objects_from) (extract_json-first h s)
  ]
