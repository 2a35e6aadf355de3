-- ===== src/Selfheal/Scheduler.antt =====
-- src/tvastr/selfheal/scheduler.py: when the daily and the weekly job run. A day is its
-- proleptic ordinal, of which the source writes the ISO date, and a week the ordinal of its
-- Monday divided by seven, of which the source writes the ISO key.
pub mod Firing
pub mod Saving
use tvastr_demo.Prelude.{
  ℕ, ◌+◌, ◌-◌, ◌/◌, ◌%◌, Bool, true, false, ◌&&◌, not, leb, nat_beq, if◌then◌else◌, List, [], ◌∷◌,
  ◌++◌, Option, none, some,
}

-- `now_fn()`: the day and the hour
pub record Now : Type 0 where
  pub date : ℕ
  pub hour : ℕ

-- `date.isoweekday()`: ordinal 1 is a Monday
abbrev pub isoweekday : ℕ → ℕ
isoweekday date = (date + 6) % 7 + 1

-- `week_key`
abbrev pub week_key : ℕ → ℕ
week_key date = (date + 6) / 7

-- the settings that the scheduler reads
pub record Cadence : Type 0 where
  pub daily_hour : ℕ
  pub weekly_day : ℕ

pub record SchedulerState : Type 0 where
  pub last_daily_date : Option ℕ
  pub last_weekly_week : Option ℕ

pub data Job : Type 0 where
  daily weekly : ℕ → Job

-- what a tick does outside: it writes the state, and calls a hook, which may raise
pub data Action : Type 0 where
  saved : SchedulerState → Action
  ran : Job → Action

-- what a tick leaves; `raised` if the state could not be written
pub record Ticked : Type 0 where
  pub state : SchedulerState
  pub actions : List Action
  pub fired : List Job
  pub raised : Bool

-- `self._state.last_daily_date = day` or `self._state.last_weekly_week = week`
abbrev pub record_job : Job → SchedulerState → SchedulerState
record_job (daily day) s = record s { last_daily_date = some day }
record_job (weekly week) s = record s { last_weekly_week = some week }

-- which writes of the state succeed in a tick: that of the daily job, and that of the weekly one
pub record Writes : Type 0 where
  pub daily_write : Bool
  pub weekly_write : Bool

-- `_fire_daily` and `_fire_weekly`; the second argument says if the state can be written
unfoldable pub fire : Job → Bool → Ticked → Ticked
fire job true t = record t {
  state = record_job job t.state;
  actions = t.actions ++ saved (record_job job t.state) ∷ ran job ∷ [];
  fired = t.fired ++ job ∷ [];
}
fire job false t = record t { state = record_job job t.state; raised = true }

-- `last != target`
abbrev pub is_due : Option ℕ → ℕ → Bool
is_due none target = true
is_due (some last) target = not (nat_beq last target)

abbrev pub start : SchedulerState → Ticked
start s = record { state = s; actions = []; fired = []; raised = false }

-- the first part of `tick`
unfoldable pub tick_daily : Cadence → Writes → Now → Ticked → Ticked
tick_daily c writes now t =
    let yesterday = now.date - 1 in
    if leb c.daily_hour now.hour && is_due t.state.last_daily_date yesterday
    then fire (daily yesterday) writes.daily_write t
    else t

-- the second part, which an exception of the first skips
unfoldable pub tick_weekly : Cadence → Writes → Now → Ticked → Ticked
tick_weekly c writes now t =
    let target_week = week_key (now.date - 7) in
    if t.raised
    then t
    else if leb c.daily_hour now.hour
        && (nat_beq (isoweekday now.date) c.weekly_day
            && is_due t.state.last_weekly_week target_week)
    then fire (weekly target_week) writes.weekly_write t
    else t

unfoldable pub tick : Cadence → Writes → SchedulerState → Now → Ticked
tick c writes s now = tick_weekly c writes now (tick_daily c writes now (start s))

-- the ticks of `_loop`, with what each one finds: the jobs that they run
unfoldable pub run_ticks : Cadence → SchedulerState → List (Writes × Now) → List Job
run_ticks c s [] = []
run_ticks c s ((writes, now) ∷ rest) =
    let t = tick c writes s now in t.fired ++ run_ticks c t.state rest

-- the two dates that `status` reports
unfoldable pub next_daily : SchedulerState → Now → ℕ
next_daily s now =
    let yesterday = now.date - 1 in
    if is_due s.last_daily_date yesterday then yesterday else yesterday + 1

unfoldable pub next_weekly : SchedulerState → Now → ℕ
next_weekly s now =
    let target_week = week_key (now.date - 7) in
    if is_due s.last_weekly_week target_week then target_week else week_key now.date
