-- ===== src/Agent/Confidence.antt =====
-- The confidence of src/tvastr/agent/graph.py: the range that `_clamp_confidence` brings it into.
use tvastr_demo.Prelude.{true, false, Option, none, some, ◌≡◌, subst, text_eq, string_eq, arith}
use tvastr_demo.Json.{Value}
use tvastr_demo.Agent.Services.{Services, converted, refused, overflowed, clamp, clamp_confidence}
use tvastr_demo.Agent.Investigate.{confidence_of}

-- A float comparison, which need not be total: NaN is below and above nothing.
pub record FloatLaws (o : Services) : Type 0 where
  pub asym : (a b : o.Float) → o.lt a b ≡ true → o.lt b a ≡ false
  pub zero_lt_one : o.lt o.zero o.one ≡ true

module _ (o : Services) where
  open o use {Float}

  abbrev pub InRange : Float → Type 0
  InRange c = (o.lt c o.zero ≡ false) × (o.lt o.one c ≡ false)

  clamp-InRange : FloatLaws o → (x : Float) → InRange (clamp o x)
  unfolding clamp
  clamp-InRange laws x = ground (
    arith,
    laws.asym x o.one,
    laws.asym o.zero x,
    laws.asym o.zero o.zero,
    laws.asym o.one o.one,
    laws.asym o.zero o.one,
    laws.zero_lt_one,
  )

  pub zero-InRange : FloatLaws o → InRange o.zero
  zero-InRange laws =
      ground (arith, laws.asym o.zero o.zero, laws.asym o.zero o.one, laws.zero_lt_one)

  abbrev AllInRange : Option Float → Type 0
  AllInRange none = Unit
  AllInRange (some c) = InRange c

  clamp_confidence-InRange : FloatLaws o → (v : Value) → AllInRange (clamp_confidence o v)
  unfolding clamp_confidence
  clamp_confidence-InRange laws v =
      elim (o.to_float v)
        as (λ x.
          AllInRange (elim x [
            | converted y ↦ some (clamp o y)
            | refused ↦ some o.zero
            | overflowed ↦ none
          ])) [ converted x ↦ clamp-InRange laws x | refused ↦ zero-InRange laws | overflowed ↦ tt ]

  confidence_of-AllInRange : FloatLaws o → (v : Option Value) → AllInRange (confidence_of o v)
  unfolding confidence_of
  confidence_of-AllInRange laws none = clamp-InRange laws o.half
  confidence_of-AllInRange laws (some v) = clamp_confidence-InRange laws v

  pub confidence_of-InRange :
      FloatLaws o → (v : Option Value) (c : Float) → confidence_of o v ≡ some c → InRange c
  confidence_of-InRange laws v c q = subst AllInRange q (confidence_of-AllInRange laws v)
