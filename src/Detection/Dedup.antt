-- ===== src/Detection/Dedup.antt =====
-- The threshold engine: what it selects, and for how long a handled pattern is left out.
use tvastr_demo.Prelude.{
  ℕ, ◌+◌, ◌<◌, ◌≡◌, refl, ◌≢◌, Bool, not, ◌&&◌, if◌then◌else◌, ltb, leb, List, [], ◌∷◌, All, keep,
  text_eq, ◌==◌, arith, Bool-cases, inl, inr,
}
use tvastr_demo.Prelude.Dicts.{get-put}
use tvastr_demo.Domain.{FailurePattern}
use tvastr_demo.Detection.Threshold.{Engine, is_duplicate, select, mark_handled}

-- Is `q` left out at `now`, if `p` was handled at `at` and all else is as `t` recorded it?
abbrev pub is_left_out : Engine → FailurePattern → ℕ → FailurePattern → ℕ → Bool
is_left_out t p at q now =
    if p.fingerprint == q.fingerprint then ltb now (at + t.dedup_window) else is_duplicate t q now

is_duplicate-mark_handled :
    (t : Engine) (p q : FailurePattern) (at now : ℕ)
    → is_duplicate (mark_handled t p at) q now ≡ is_left_out t p at q now
unfolding is_duplicate mark_handled
is_duplicate-mark_handled t p q at now =
    ground (arith, get-put p.fingerprint q.fingerprint at t.handled)

threshold_kept :
    (t : Engine) (p : FailurePattern) (at : ℕ)
    → (mark_handled t p at).recurrence_threshold ≡ t.recurrence_threshold
unfolding mark_handled
threshold_kept t p at = refl

-- after a pattern was handled at an instant, `select` keeps, in order, exactly the patterns that
-- recur often enough and are not left out: those with the same fingerprint are left out until the
-- window has passed, those with another one as they were before.
pub select-mark_handled :
    (t : Engine) (p : FailurePattern) (ps : List FailurePattern) (at now : ℕ)
    → select (mark_handled t p at) ps now
      ≡ keep (λ q. leb t.recurrence_threshold q.count && not (is_left_out t p at q now)) ps
unfolding select keep
select-mark_handled t p [] at now = refl
select-mark_handled t p (q ∷ ps) at now = ground (
  arith,
  threshold_kept t p at,
  is_duplicate-mark_handled t p q at now,
  select-mark_handled t p ps at now,
)

kept_fingerprints :
    (t : Engine) (p : FailurePattern) (ps : List FailurePattern) (at now : ℕ)
    → now < at + t.dedup_window
    → All
        (λ (q : FailurePattern). q.fingerprint ≢ p.fingerprint)
        (keep (λ q. leb t.recurrence_threshold q.count && not (is_left_out t p at q now)) ps)
unfolding keep
kept_fingerprints t p [] at now h = tt
kept_fingerprints t p (q ∷ ps) at now h =
    elim (Bool-cases (leb t.recurrence_threshold q.count && not (is_left_out t p at q now))) [
      | inl e ↦ rw e (
        λ same. ground (arith, text_eq.same_iff p.fingerprint q.fingerprint),
        kept_fingerprints t p ps at now h,
      )
      | inr e ↦ rw e (kept_fingerprints t p ps at now h)
    ]

-- before the window has passed since a pattern was handled, no pattern with its fingerprint is
-- selected.
pub handled_is_left_out :
    (t : Engine) (p : FailurePattern) (ps : List FailurePattern) (at now : ℕ)
    → now < at + t.dedup_window
    → All
        (λ (q : FailurePattern). q.fingerprint ≢ p.fingerprint)
        (select (mark_handled t p at) ps now)
handled_is_left_out t p ps at now h =
    rw (select-mark_handled t p ps at now) (kept_fingerprints t p ps at now h)
