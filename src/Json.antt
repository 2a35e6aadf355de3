-- ===== src/Json.antt =====
-- The JSON values in the payload of an event, as Python tests them.
pub mod Extract
use tvastr_demo.Prelude.{
  List, [], ◌∷◌, map, ℕ, nat_beq, Bool, true, false, not, is_empty, if◌then◌else◌, Option, none,
  some, String, Text, codes, ◌==◌, text_eq, string_eq, ◌≡◌, arith,
}
use tvastr_demo.Prelude.Dicts.{Dict, get, put, get-put}

mutual
  pub data Value : Type 0 where
    null : Value
    bool : Bool → Value
    -- the sign, the digits and how many of them are decimals
    number : Bool → ℕ → ℕ → Value
    -- `NaN`, and `Infinity` with its sign, which Python's parser accepts
    nan : Value
    infinity : Bool → Value
    string : Text → Value
    array : Values → Value
    object : Fields → Value

  pub data Values : Type 0 where
    end : Values
    item : Value → Values → Values

  pub data Fields : Type 0 where
    close : Fields
    field : String → Value → Fields → Fields

-- `bool(value)`
abbrev pub truthy : Value → Bool
truthy null = false
truthy (bool b) = b
truthy (number _ digits _) = not (nat_beq digits 0)
truthy nan = true
truthy (infinity _) = true
truthy (string s) = not (is_empty s)
truthy (array end) = false
truthy (array (item _ _)) = true
truthy (object close) = false
truthy (object (field _ _ _)) = true

-- `value == 0.0`, which holds of `False` too
abbrev pub is_zero : Value → Bool
is_zero (bool b) = not b
is_zero (number _ digits _) = nat_beq digits 0
is_zero _ = false

-- `value == text`
abbrev pub is_text : Text → Value → Bool
is_text t (string s) = s == t
is_text _ _ = false

-- `isinstance(value, str)`
abbrev pub as_text : Value → Option Text
as_text (string s) = some s
as_text _ = none

abbrev pub is_null : Value → Bool
is_null null = true
is_null _ = false

-- `str(value)`, with the numbers, lists and dicts shown by `show`
abbrev pub to_text : (Value → Text) → Value → Text
to_text show null = codes "None"
to_text show (bool true) = codes "True"
to_text show (bool false) = codes "False"
to_text show (string s) = s
to_text show v = show v

-- a list of texts
abbrev pub texts : List Text → Values
texts [] = end
texts (t ∷ ts) = item (string t) (texts ts)

abbrev or_null : Option Value → Value
or_null none = null
or_null (some v) = v

abbrev pub Payload : Type 0
Payload = Dict String Value

-- `payload.get(key)`, which is null on a missing key
unfoldable pub lookup : String → Payload → Value
lookup key payload = or_null (get key payload)

-- `record.get(key, default)`
abbrev pub field_or : String → Value → Fields → Value
field_or key default close = default
field_or key default (field k v rest) = if k == key then v else field_or key default rest

-- `record.get(key)` of a dict inside a value
abbrev pub lookup_field : String → Fields → Value
lookup_field key fields = field_or key null fields

-- `record[key]` of a key that may be missing
abbrev pub find_field : String → Fields → Option Value
find_field key close = none
find_field key (field k v rest) = if k == key then some v else find_field key rest

-- `payload.update(record)`
unfoldable pub update : Payload → Fields → Payload
update payload close = payload
update payload (field k v rest) = update (put k v payload) rest

unfoldable pub values_list : Values → List Value
values_list end = []
values_list (item v vs) = v ∷ values_list vs

unfoldable pub key_list : Fields → List Value
key_list close = []
key_list (field k v rest) = string (codes k) ∷ key_list rest

-- what a `for` loop over a value runs through; `none` is a TypeError
unfoldable pub iterate : Value → Option (List Value)
unfolding values_list key_list
iterate (array vs) = some (values_list vs)
iterate (string s) = some (map (λ c. string (c ∷ [])) s)
iterate (object fields) = some (key_list fields)
iterate _ = none

-- `a or b`
abbrev pub or_value : Value → Value → Value
or_value a b = if truthy a then a else b

-- `value is False`
abbrev pub is_false : Value → Bool
is_false (bool b) = not b
is_false _ = false

-- `payload.get(key, default)`
abbrev pub get_or : String → Value → Payload → Value
get_or key default payload = elim (get key payload) [ none ↦ default | some v ↦ v ]

pub lookup-put :
    (j k : String) (v : Value) (payload : Payload)
    → lookup k (put j v payload) ≡ (if j == k then v else lookup k payload)
unfolding lookup
lookup-put j k v payload = ground (arith, get-put j k v payload)
