-- ===== src/Prelude/Strings.antt =====
-- Methods of Python's `str`, over lists of code points.
use tvastr_demo.Prelude.Tests.{ltb, leb, nat_beq, if◌then◌else◌}
use tvastr_demo.Prelude.Equality.{Text, text_eq}
use Prim.Native.Nat.{ℕ}
use mathlib.Core.Path.{◌≡◌, refl}
use native.Mathlib.Omega.{arith}
use mathlib.Core.Bool.{Bool, true, false, ◌&&◌, ◌||◌}
use mathlib.Core.List.{List, [], ◌∷◌, ◌++◌, reverse}

-- `str.isspace` of one character
unfoldable pub is_space : ℕ → Bool
is_space c =
    (leb 9 c && leb c 13)
    || (leb 28 c && leb c 32)
    || nat_beq c 0x85
    || nat_beq c 0xa0
    || nat_beq c 0x1680
    || (leb 0x2000 c && leb c 0x200a)
    || nat_beq c 0x2028
    || nat_beq c 0x2029
    || nat_beq c 0x202f
    || nat_beq c 0x205f
    || nat_beq c 0x3000

-- `s.lstrip()`
unfoldable pub lstrip : Text → Text
unfolding is_space
lstrip [] = []
lstrip (c ∷ s) = let rest = lstrip s in if is_space c then rest else c ∷ s

-- `s.strip()`
unfoldable pub strip : Text → Text
unfolding lstrip
strip s = reverse (lstrip (reverse (lstrip s)))

-- `s.startswith(p)`
unfoldable pub starts_with : Text → Text → Bool
starts_with [] s = true
starts_with (c ∷ p) [] = false
starts_with (c ∷ p) (d ∷ s) = nat_beq c d && starts_with p s

-- `p in s`
unfoldable pub is_infix : Text → Text → Bool
unfolding starts_with
is_infix p [] = starts_with p []
is_infix p (c ∷ s) = starts_with p (c ∷ s) || is_infix p s

-- `sep.join(parts)`
unfoldable pub join : Text → List Text → Text
join sep [] = []
join sep (p ∷ []) = p
join sep (p ∷ ps) = p ++ (sep ++ join sep ps)

-- `s < t`
unfoldable pub text_ltb : Text → Text → Bool
text_ltb s [] = false
text_ltb [] (d ∷ t) = true
text_ltb (c ∷ s) (d ∷ t) = ltb c d || (nat_beq c d && text_ltb s t)

-- `min(s, t)` and `max(s, t)`
unfoldable pub text_min : Text → Text → Text
text_min s t = if text_ltb t s then t else s

unfoldable pub text_max : Text → Text → Text
text_max s t = if text_ltb s t then t else s

pub text_ltb-asym : (s t : Text) → text_ltb s t ≡ true → text_ltb t s ≡ false
unfolding text_ltb
text_ltb-asym s [] h = cc
text_ltb-asym [] (d ∷ t) h = refl
text_ltb-asym (c ∷ s) (d ∷ t) h = ground (arith, text_ltb-asym s t)

pub text_ltb-le_trans :
    (s t u : Text) → text_ltb t s ≡ false → text_ltb u t ≡ false → text_ltb u s ≡ false
unfolding text_ltb
text_ltb-le_trans [] t u h k = refl
text_ltb-le_trans (c ∷ s) [] u h k = absurd (ground (arith, h))
text_ltb-le_trans (c ∷ s) (d ∷ t) [] h k = absurd (ground (arith, k))
text_ltb-le_trans (c ∷ s) (d ∷ t) (e ∷ u) h k = ground (arith, text_ltb-le_trans s t u)
