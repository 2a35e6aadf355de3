-- ===== src/Pii/Resolve.antt =====
-- `_resolve` of src/tvastr/pii/redaction.py: greedy acceptance of candidate spans.
pub mod Accepted
use tvastr_demo.Prelude.{
  ℕ, String, ◌≡◌, Bool, true, false, ◌&&◌, ◌||◌, List, [], ◌∷◌, ◌++◌, ltb, if◌then◌else◌, any,
  arith, nat_beq,
}
use tvastr_demo.Prelude.Sorting.{sort, IsWeakOrder}

-- `_Candidate`: (priority, start, end, label)
pub record Candidate : Type 0 where
  pub prio : ℕ
  pub start : ℕ
  pub stop : ℕ
  pub label : String

-- the order of the key `(c[0], c[1])`
unfoldable pub before : Candidate → Candidate → Bool
before a b = ltb a.prio b.prio || (nat_beq a.prio b.prio && ltb a.start b.start)

unfoldable pub overlaps : Candidate → Candidate → Bool
overlaps c a = ltb c.start a.stop && ltb a.start c.stop

-- the loop, with `accepted` as accumulator
unfoldable pub accept : List Candidate → List Candidate → List Candidate
accept accepted [] = accepted
accept accepted (c ∷ cs) =
    accept (if any (overlaps c) accepted then accepted else accepted ++ c ∷ []) cs

unfoldable pub resolve : List Candidate → List Candidate
resolve candidates = accept [] (sort before candidates)

pub before-IsWeakOrder : IsWeakOrder before
unfolding before
before-IsWeakOrder = record { asym = λ a b h. ground arith; le_trans = λ a b c h k. ground arith }
