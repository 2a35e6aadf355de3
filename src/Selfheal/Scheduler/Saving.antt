-- ===== src/Selfheal/Scheduler/Saving.antt =====
-- What `tick` of src/tvastr/selfheal/scheduler.py runs: the jobs that are due, each behind the write
-- of the state.
use tvastr_demo.Prelude.{
  ℕ, ◌-◌, Bool, true, false, if◌then◌else◌, List, [], ◌∷◌, ◌++◌, ◌∙◌, ◌≡◌, refl, sym, arith,
}
use tvastr_demo.Selfheal.Scheduler.{
  Now, Cadence, SchedulerState, Job, daily, weekly, Action, saved, ran, fire, tick_daily,
  tick_weekly, tick, Writes, Ticked, start, week_key,
}
use tvastr_demo.Selfheal.Scheduler.Firing.{IsLast, daily_due, weekly_due, tick-courses}

-- the write of the state that a job waits for
abbrev pub write_of : Writes → Job → Bool
write_of writes (daily day) = writes.daily_write
write_of writes (weekly week) = writes.weekly_write

-- Each run of a job stands right behind the write of a state that has the job as its last one,
-- which is a write that succeeds.
abbrev pub SavesFirst : Writes → List Action → Type 0
SavesFirst writes [] = Unit
SavesFirst writes (saved s ∷ ran job ∷ rest) =
    (write_of writes job ≡ true) × IsLast s job × SavesFirst writes rest
SavesFirst writes _ = ⊥

abbrev pub jobs_of : List Action → List Job
jobs_of [] = []
jobs_of (saved s ∷ rest) = jobs_of rest
jobs_of (ran job ∷ rest) = job ∷ jobs_of rest

-- each job waits for its write, and the jobs that are told are those that ran
abbrev pub KeepsOrder : Writes → Ticked → Type 0
KeepsOrder writes t = SavesFirst writes t.actions × (t.fired ≡ jobs_of t.actions)

fire-KeepsOrder :
    (writes : Writes) (s : SchedulerState) (job : Job) (can_save : Bool)
    → can_save ≡ write_of writes job
    → KeepsOrder writes (fire job can_save (start s))
unfolding fire
fire-KeepsOrder writes s (daily day) true e = ((sym e, refl, tt), refl)
fire-KeepsOrder writes s (weekly week) true e = ((sym e, refl, tt), refl)
fire-KeepsOrder writes s job false e = (tt, refl)

fire_both-KeepsOrder :
    (writes : Writes) (s : SchedulerState) (day week : ℕ) (can_save : Bool)
    → writes.daily_write ≡ true
    → can_save ≡ writes.weekly_write
    → KeepsOrder writes (fire (weekly week) can_save (fire (daily day) true (start s)))
unfolding fire
fire_both-KeepsOrder writes s day week true d e = ((d, refl, (sym e, refl, tt)), refl)
fire_both-KeepsOrder writes s day week false d e = ((d, refl, tt), refl)

-- the jobs that are due at a tick, in the order in which it fires them
abbrev pub due_jobs : Cadence → SchedulerState → Now → List Job
due_jobs c s now =
    (if daily_due c s now then daily (now.date - 1) ∷ [] else [])
    ++ (if weekly_due c s now then weekly (week_key (now.date - 7)) ∷ [] else [])

-- those before the first one whose write fails
abbrev pub up_to_failure : Writes → List Job → List Job
up_to_failure writes [] = []
up_to_failure writes (job ∷ jobs) =
    let rest = up_to_failure writes jobs in if write_of writes job then job ∷ rest else []

module _ (c : Cadence) (s : SchedulerState) (now : Now) where
  tick-due :
      (d_write w_write : Bool)
      → let writes : Writes = record { daily_write = d_write; weekly_write = w_write } in
        (tick c writes s now).fired ≡ up_to_failure writes (due_jobs c s now)
  unfolding tick tick_daily tick_weekly fire
  tick-due d_write w_write = ground (arith)

-- the actions of a tick are writes of the state that succeed and runs of jobs: each job runs
-- right behind such a write, of a state that has the job as its last one. The jobs that run are
-- those that are due, the daily one first, before the first one whose write fails; and they are
-- the list of fired jobs that the tick has built.
pub tick-SavesFirst :
    (c : Cadence) (writes : Writes) (s : SchedulerState) (now : Now)
    → let t = tick c writes s now in
      SavesFirst writes t.actions
      × (jobs_of t.actions ≡ up_to_failure writes (due_jobs c s now))
      × (t.fired ≡ jobs_of t.actions)
tick-SavesFirst c writes s now =
    let (first, told) =
      tick-courses (KeepsOrder writes) c s now writes.daily_write writes.weekly_write (tt, refl)
        (λ d. fire-KeepsOrder writes s (daily (now.date - 1)) writes.daily_write refl)
        (λ w. fire-KeepsOrder writes s (weekly (week_key (now.date - 7))) writes.weekly_write refl)
        (λ e d w.
          fire_both-KeepsOrder writes s (now.date - 1) (week_key (now.date - 7)) writes.weekly_write
            e refl) in
    (first, sym told ∙ tick-due c s now writes.daily_write writes.weekly_write, told)
