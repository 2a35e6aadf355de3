-- ===== src/Regex.antt =====
-- Python's `re`, of which the source uses compiled patterns: an argument of the definitions that
-- match text. A match is given by its two offsets.
use tvastr_demo.Prelude.{ℕ, ◌≤◌, ◌<◌, String, ◌≡◌, ◌↔◌, Bool, List, [], Option, none, length, All}
use tvastr_demo.Prelude.{Text}

pub record Regex : Type 1 where
  pub Pattern : Type 0
  -- `re.compile(p)`; the second argument is the flag `re.IGNORECASE`
  pub compile : String → Bool → Pattern
  -- the spans of `p.finditer(text)`, in order
  pub finditer : Pattern → Text → List (ℕ × ℕ)
  -- the span of `p.search(text)`
  pub search : Pattern → Text → Option (ℕ × ℕ)
  -- `p.sub(repl, text)`
  pub sub : Pattern → Text → Text → Text

-- `search` finds nothing exactly when `finditer` yields nothing.
pub record SearchesFirst (re : Regex) : Type 0 where
  pub search_none :
      (p : re.Pattern) (text : Text) → (re.search p text ≡ none) ↔ (re.finditer p text ≡ [])

-- The span is not empty and lies in the text.
abbrev pub IsSpan : Text → ℕ × ℕ → Type 0
IsSpan text m = (m.0 < m.1) × (m.1 ≤ length text)

-- Every match of the pattern is a span of the text: the pattern does not match the empty text.
abbrev pub MatchesSpans : (re : Regex) → re.Pattern → Type 0
MatchesSpans re p = (text : Text) → All (IsSpan text) (re.finditer p text)
