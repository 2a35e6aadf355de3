-- ===== src/Detection/Threshold.antt =====
-- src/tvastr/detection/threshold.py: which patterns are remediated.
use tvastr_demo.Prelude.{
  ℕ, ◌+◌, ◌*◌, Bool, false, ltb, if◌then◌else◌, List, [], ◌∷◌, none, some, Text, text_eq,
}
use tvastr_demo.Prelude.Dicts.{Dict, get, put}
use tvastr_demo.Domain.{FailurePattern}

-- `dedup_window` and the instants are in seconds
pub record Engine : Type 0 where
  pub recurrence_threshold : ℕ
  pub dedup_window : ℕ
  pub handled : Dict Text ℕ

unfoldable pub new_engine : ℕ → ℕ → Engine
new_engine threshold minutes = record {
  recurrence_threshold = threshold;
  dedup_window = minutes * 60;
  handled = [];
}

-- `(now - last) < dedup_window`, also for a clock that went back
unfoldable pub is_duplicate : Engine → FailurePattern → ℕ → Bool
is_duplicate t p now = elim (get p.fingerprint t.handled) [
  | none ↦ false
  | some last ↦ ltb now (last + t.dedup_window)
]

-- the loop of `select`
unfoldable pub select : Engine → List FailurePattern → ℕ → List FailurePattern
select t [] now = []
select t (p ∷ ps) now =
    let rest = select t ps now in
    if ltb p.count t.recurrence_threshold
    then rest
    else if is_duplicate t p now
    then rest
    else p ∷ rest

unfoldable pub mark_handled : Engine → FailurePattern → ℕ → Engine
mark_handled t p now = record t { handled = put p.fingerprint now t.handled }
