-- ===== src/Selfheal/Scheduler/Firing.antt =====
-- What `tick` of src/tvastr/selfheal/scheduler.py promises: no job runs twice.
use tvastr_demo.Prelude.{
  ℕ, ◌-◌, ◌≤◌, ◌<◌, Bool, true, false, leb, nat_beq, ◌&&◌, Bool-cases, List, [], ◌∷◌, Option, none,
  some, ◌≡◌, refl, subst, arith, inl, inr, All, All-append, All-map, Pairwise, Pairwise-append,
}
use tvastr_demo.Selfheal.Scheduler.{
  Now, Cadence, SchedulerState, Job, daily, weekly, record_job, fire, is_due, tick_daily,
  tick_weekly, tick, Writes, Ticked, start, run_ticks, week_key, isoweekday,
}

-- `none` is below every number
abbrev pub IsBelow : Option ℕ → ℕ → Type 0
IsBelow none n = Unit
IsBelow (some m) n = m < n

abbrev pub IsAtMost : Option ℕ → ℕ → Type 0
IsAtMost none n = Unit
IsAtMost (some m) n = m ≤ n

-- The job is of a later day or week than the state has.
abbrev pub IsAfter : SchedulerState → Job → Type 0
IsAfter s (daily day) = IsBelow s.last_daily_date day
IsAfter s (weekly week) = IsBelow s.last_weekly_week week

-- The second job, if it is of the same kind, is of a later day or week.
abbrev pub Precedes : Job → Job → Type 0
Precedes (daily d) (daily e) = d < e
Precedes (weekly v) (weekly w) = v < w
Precedes _ _ = Unit

-- the state stems from no later tick
abbrev pub IsPast : SchedulerState → Now → Type 0
IsPast s now =
    IsAtMost s.last_daily_date (now.date - 1)
    × IsAtMost s.last_weekly_week (week_key (now.date - 7))

-- the state has the job as its last one
abbrev pub IsLast : SchedulerState → Job → Type 0
IsLast s (daily day) = s.last_daily_date ≡ some day
IsLast s (weekly week) = s.last_weekly_week ≡ some week

due-IsBelow : (o : Option ℕ) (n : ℕ) → is_due o n ≡ true → IsAtMost o n → IsBelow o n
due-IsBelow none n d h = tt
due-IsBelow (some m) n d h = ground arith

IsBelow-trans : (o : Option ℕ) (n k : ℕ) → IsAtMost o n → n < k → IsBelow o k
IsBelow-trans none n k h l = tt
IsBelow-trans (some m) n k h l = omega arith

-- what holds between a state, the jobs that fired, and the state then
abbrev Advances : SchedulerState → Now → SchedulerState → List Job → Type 0
Advances s now after fired =
    All (IsAfter s) fired
    × Pairwise Precedes fired
    × All (IsLast after) fired
    × IsPast after now
    × ((job : Job) → IsAfter after job → IsAfter s job)

daily_advances :
    (s : SchedulerState) (now : Now)
    → IsPast s now
    → (job : Job) → IsAfter (record_job (daily (now.date - 1)) s) job
    → IsAfter s job
daily_advances s now (d, w) (daily day) h = IsBelow-trans s.last_daily_date (now.date - 1) day d h
daily_advances s now (d, w) (weekly week) h = h

weekly_advances :
    (s : SchedulerState) (now : Now)
    → IsPast s now
    → (job : Job) → IsAfter (record_job (weekly (week_key (now.date - 7))) s) job
    → IsAfter s job
weekly_advances s now (d, w) (daily day) h = h
weekly_advances s now (d, w) (weekly week) h =
    IsBelow-trans s.last_weekly_week (week_key (now.date - 7)) week w h

both_advance :
    (s : SchedulerState) (now : Now)
    → IsPast s now
    → (job : Job)
    → IsAfter
        (record_job (weekly (week_key (now.date - 7))) (record_job (daily (now.date - 1)) s))
        job
    → IsAfter s job
both_advance s now h (daily day) a = daily_advances s now h (daily day) a
both_advance s now h (weekly week) a = weekly_advances s now h (weekly week) a

-- the two conditions of a tick
abbrev pub daily_due : Cadence → SchedulerState → Now → Bool
daily_due c s now = leb c.daily_hour now.hour && is_due s.last_daily_date (now.date - 1)

abbrev pub weekly_due : Cadence → SchedulerState → Now → Bool
weekly_due c s now =
    leb c.daily_hour now.hour
    && (nat_beq (isoweekday now.date) c.weekly_day
        && is_due s.last_weekly_week (week_key (now.date - 7)))

daily_due-IsAfter :
    (c : Cadence) (s : SchedulerState) (now : Now)
    → daily_due c s now ≡ true
    → IsPast s now
    → IsAfter s (daily (now.date - 1))
daily_due-IsAfter c s now d h = due-IsBelow s.last_daily_date (now.date - 1) (ground (arith, d)) h.0

weekly_due-IsAfter :
    (c : Cadence) (s : SchedulerState) (now : Now)
    → weekly_due c s now ≡ true
    → IsPast s now
    → IsAfter s (weekly (week_key (now.date - 7)))
weekly_due-IsAfter c s now d h =
    due-IsBelow s.last_weekly_week (week_key (now.date - 7)) (ground (arith, d)) h.1

-- `fire` either runs the job or, if the state cannot be written, runs nothing and raises.
fire_daily-Advances :
    (can_save : Bool) (c : Cadence) (s : SchedulerState) (now : Now)
    → daily_due c s now ≡ true
    → IsPast s now
    → let t = fire (daily (now.date - 1)) can_save (start s) in Advances s now t.state t.fired
unfolding fire
fire_daily-Advances true c s now d h = (
  (daily_due-IsAfter c s now d h, tt),
  (tt, tt),
  (refl, tt),
  (omega arith, h.1),
  daily_advances s now h,
)
fire_daily-Advances false c s now d h = (tt, tt, tt, (omega arith, h.1), daily_advances s now h)

fire_weekly-Advances :
    (can_save : Bool) (c : Cadence) (s : SchedulerState) (now : Now)
    → weekly_due c s now ≡ true
    → IsPast s now
    → let t = fire (weekly (week_key (now.date - 7))) can_save (start s) in
      Advances s now t.state t.fired
unfolding fire
fire_weekly-Advances true c s now w h = (
  (weekly_due-IsAfter c s now w h, tt),
  (tt, tt),
  (refl, tt),
  (h.0, omega arith),
  weekly_advances s now h,
)
fire_weekly-Advances false c s now w h = (tt, tt, tt, (h.0, omega arith), weekly_advances s now h)

fire_both-Advances :
    (can_save : Bool) (c : Cadence) (s : SchedulerState) (now : Now)
    → daily_due c s now ≡ true
    → weekly_due c s now ≡ true
    → IsPast s now
    → let t =
        fire
          (weekly (week_key (now.date - 7)))
          can_save
          (fire (daily (now.date - 1)) true (start s)) in
      Advances s now t.state t.fired
unfolding fire
fire_both-Advances true c s now d w h = (
  (daily_due-IsAfter c s now d h, (weekly_due-IsAfter c s now w h, tt)),
  ((tt, tt), (tt, tt)),
  (refl, (refl, tt)),
  (omega arith, omega arith),
  both_advance s now h,
)
fire_both-Advances false c s now d w h = (
  (daily_due-IsAfter c s now d h, tt),
  (tt, tt),
  (refl, tt),
  (omega arith, omega arith),
  both_advance s now h,
)

-- a predicate of a tick holds if it holds of each of its courses
module _ (P : Ticked → Type 0) (c : Cadence) (s : SchedulerState) (now : Now) where
  abbrev DailyOnly : Bool → Type 0
  DailyOnly can_save = daily_due c s now ≡ true → P (fire (daily (now.date - 1)) can_save (start s))

  abbrev WeeklyOnly : Bool → Type 0
  WeeklyOnly can_save =
      weekly_due c s now ≡ true → P (fire (weekly (week_key (now.date - 7))) can_save (start s))

  abbrev Both : Bool → Bool → Type 0
  Both daily_write can_save =
      daily_write ≡ true
      → daily_due c s now ≡ true
      → weekly_due c s now ≡ true
      → P (
          fire (weekly (week_key (now.date - 7))) can_save
            (fire (daily (now.date - 1)) true (start s)))

  weekly_course :
      (can_save : Bool)
      → daily_due c s now ≡ false
      → P (start s)
      → WeeklyOnly can_save
      → (daily_write : Bool)
      → P (tick c (record { daily_write = daily_write; weekly_write = can_save }) s now)
  unfolding tick tick_daily tick_weekly
  weekly_course can_save d none_due weekly_only daily_write =
      elim (Bool-cases (weekly_due c s now)) [
        | inl w ↦ rw (d, w) (weekly_only w)
        | inr w ↦ rw (d, w) none_due
      ]

  pub tick-courses :
      (daily_write can_save : Bool)
      → P (start s)
      → DailyOnly daily_write
      → WeeklyOnly can_save
      → Both daily_write can_save
      → P (tick c (record { daily_write = daily_write; weekly_write = can_save }) s now)
  unfolding tick tick_daily tick_weekly fire
  tick-courses true can_save none_due daily_only weekly_only both =
      elim (Bool-cases (daily_due c s now)) [
        | inr d ↦ weekly_course can_save d none_due weekly_only true
        | inl d ↦ elim (Bool-cases (weekly_due c s now)) [
          | inl w ↦ rw (d, w) (both refl d w)
          | inr w ↦ rw (d, w) (daily_only d)
        ]
      ]
  tick-courses false can_save none_due daily_only weekly_only both =
      elim (Bool-cases (daily_due c s now)) [
        | inl d ↦ rw d (daily_only d)
        | inr d ↦ weekly_course can_save d none_due weekly_only false
      ]

tick-Advances :
    (c : Cadence) (writes : Writes) (s : SchedulerState) (now : Now)
    → IsPast s now
    → Advances s now (tick c writes s now).state (tick c writes s now).fired
tick-Advances c writes s now h =
    tick-courses (λ t. Advances s now t.state t.fired) c s now writes.daily_write
      writes.weekly_write (tt, tt, tt, h, λ job a. a)
      (λ d. fire_daily-Advances writes.daily_write c s now d h)
      (λ w. fire_weekly-Advances writes.weekly_write c s now w h)
      (λ e d w. fire_both-Advances writes.weekly_write c s now d w h)

-- the clock does not go back
abbrev pub IsAscending : List (Writes × Now) → Type 0
IsAscending = Pairwise (λ a b. a.1.date ≤ b.1.date)

IsAtMost-trans : (o : Option ℕ) (n k : ℕ) → IsAtMost o n → n ≤ k → IsAtMost o k
IsAtMost-trans none n k h l = tt
IsAtMost-trans (some m) n k h l = omega arith

IsPast-later :
    (s : SchedulerState) (now later : Now) → now.date ≤ later.date → IsPast s now → IsPast s later
IsPast-later s now later l (d, w) = (
  IsAtMost-trans s.last_daily_date (now.date - 1) (later.date - 1) d (omega arith),
  IsAtMost-trans s.last_weekly_week (week_key (now.date - 7)) (week_key (later.date - 7)) w
      (omega arith),
)

last-Precedes : (s : SchedulerState) (a b : Job) → IsLast s a → IsAfter s b → Precedes a b
last-Precedes s (daily d) (daily e) q h = subst (λ o. IsBelow o e) q h
last-Precedes s (weekly d) (weekly e) q h = subst (λ o. IsBelow o e) q h
last-Precedes s (daily d) (weekly e) q h = tt
last-Precedes s (weekly d) (daily e) q h = tt

run_ticks-Advances :
    (c : Cadence) (s : SchedulerState) (ticks : List (Writes × Now))
    → IsAscending ticks
    → All (λ t. IsPast s t.1) ticks
    → All (IsAfter s) (run_ticks c s ticks) × Pairwise Precedes (run_ticks c s ticks)
unfolding run_ticks
run_ticks-Advances c s [] a p = (tt, tt)
run_ticks-Advances c s ((writes, now) ∷ rest) (later, a) (p, ps) =
    let (after, order, last, past, mono) = tick-Advances c writes s now p in
    let t = tick c writes s now in
    let (after_rest, order_rest) =
      run_ticks-Advances c t.state rest a
        (All-map (λ n l. IsPast-later t.state now n.1 l past) rest later) in
    (
      All-append (IsAfter s) t.fired (run_ticks c t.state rest) after
          (All-map (λ job h. mono job h) (run_ticks c t.state rest) after_rest),
      Pairwise-append Precedes t.fired (run_ticks c t.state rest) order order_rest (
          All-map
            (λ a l.
              All-map (λ b h. last-Precedes t.state a b l h) (run_ticks c t.state rest) after_rest)
            t.fired last),
    )

-- if the days of the ticks do not go back and the state stems from no later day, the jobs of a
-- kind that the ticks run are of strictly increasing days or weeks, so that none runs twice,
-- whichever writes of the state fail.
pub run_ticks-Precedes :
    (c : Cadence) (s : SchedulerState) (ticks : List (Writes × Now))
    → IsAscending ticks
    → All (λ t. IsPast s t.1) ticks
    → Pairwise Precedes (run_ticks c s ticks)
run_ticks-Precedes c s ticks a p = (run_ticks-Advances c s ticks a p).1
