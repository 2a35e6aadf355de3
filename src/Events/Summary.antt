-- ===== src/Events/Summary.antt =====
-- `list_runs` of src/tvastr/events.py: what the list of the runs says of each, newest first.
use tvastr_demo.Prelude.{
  ℕ, ◌+◌, ltb, Bool, ◌&&◌, if◌then◌else◌, length, List, [], ◌∷◌, Option, none, some, Text, codes,
  ◌==◌, string_eq, ◌≡◌, refl, subst, Option-cases, inl, inr, ◌∙◌, arith,
}
use tvastr_demo.Prelude.Dicts.{Dict, get}
use tvastr_demo.Prelude.Sorting.{sort, sort-perm, IsWeakOrder, IsSorted, sort-IsSorted}
use mathlib.Core.List.{Perm}
use tvastr_demo.Json.{Value, null, string, is_null, lookup, Payload}
use tvastr_demo.Events.{PipelineEvent, RunFile, load_events}

-- what a payload may lack is a JSON value, null for `None`
pub record RunSummary : Type 0 where
  pub run_id : Text
  pub started_at : Option Text
  pub repo : Value
  pub issue_number : Value
  pub issue_title : Value
  pub outcome : Value
  pub event_count : ℕ
  pub verdict : Value

abbrev pub new_summary : Text → RunSummary
new_summary run_id = record {
  run_id = run_id;
  started_at = none;
  repo = null;
  issue_number = null;
  issue_title = null;
  outcome = null;
  event_count = 0;
  verdict = null;
}

unfoldable pub note_start : PipelineEvent → RunSummary → RunSummary
note_start e s =
    if e.type == "pipeline.start"
    then record s {
      started_at = some e.timestamp;
      repo = lookup "repo" e.payload;
      issue_number = lookup "issue_number" e.payload;
      issue_title = lookup "issue_title" e.payload;
    }
    else s

-- `event.payload.get("outcome", "completed")`
unfoldable pub end_outcome : Payload → Value
end_outcome payload = elim (get "outcome" payload) [
  | none ↦ string (codes "completed")
  | some v ↦ v
]

unfoldable pub note_outcome : PipelineEvent → Value → Value
note_outcome e outcome =
    if e.type == "pr.dry_run"
    then string (codes "dry_run")
    else if e.type == "pr.opened"
    then string (codes "pr_opened")
    else if e.type == "pr.failed"
    then string (codes "failed")
    else if e.type == "pipeline.end" && is_null outcome
    then end_outcome e.payload
    else outcome

unfoldable pub note_verdict : PipelineEvent → Value → Value
note_verdict e verdict = if e.type == "verify.result" then lookup "verdict" e.payload else verdict

-- the body of the inner loop, and the loop
unfoldable pub note_event : RunSummary → PipelineEvent → RunSummary
unfolding note_start
note_event s e = record (note_start e s) {
  outcome = note_outcome e s.outcome;
  event_count = s.event_count + 1;
  verdict = note_verdict e s.verdict;
}

unfoldable pub note_events : RunSummary → List PipelineEvent → RunSummary
note_events s [] = s
note_events s (e ∷ es) = note_events (note_event s e) es

abbrev pub newer : Text × RunFile → Text × RunFile → Bool
newer (_, f) (_, g) = ltb g.modified f.modified

-- the outer loop; no result if a file cannot be read
unfoldable pub summaries : Dict Text RunFile → Option (List RunSummary)
summaries [] = some []
summaries ((run_id, f) ∷ runs) = elim (load_events f) [
  | none ↦ none
  | some es ↦ elim (summaries runs) [
    | none ↦ none
    | some rest ↦ some (note_events (new_summary run_id) es ∷ rest)
  ]
]

unfoldable pub list_runs : Dict Text RunFile → Option (List RunSummary)
list_runs runs = summaries (sort newer runs)

-- the outcome that a PR event stands for
abbrev pub pr_outcome : PipelineEvent → Option Value
pr_outcome e =
    if e.type == "pr.dry_run"
    then some (string (codes "dry_run"))
    else if e.type == "pr.opened"
    then some (string (codes "pr_opened"))
    else if e.type == "pr.failed"
    then some (string (codes "failed"))
    else none

abbrev pub last_pr_outcome : List PipelineEvent → Option Value
last_pr_outcome [] = none
last_pr_outcome (e ∷ es) = elim (last_pr_outcome es) [ none ↦ pr_outcome e | some v ↦ some v ]

-- the outcome of the first end of a pipeline that has one
abbrev pub first_end_outcome : List PipelineEvent → Value
first_end_outcome [] = null
first_end_outcome (e ∷ es) =
    let rest = first_end_outcome es in
    if e.type == "pipeline.end"
    then (if is_null (end_outcome e.payload) then rest else end_outcome e.payload)
    else rest

abbrev pub last_verdict : Value → List PipelineEvent → Value
last_verdict v [] = v
last_verdict v (e ∷ es) =
    last_verdict (if e.type == "verify.result" then lookup "verdict" e.payload else v) es

-- the outcome of a run: its last PR event, or else its first end
abbrev pub outcome_from : Value → List PipelineEvent → Value
outcome_from v es = elim (last_pr_outcome es) [
  | some w ↦ w
  | none ↦ if is_null v then first_end_outcome es else v
]

outcome_from-note_outcome :
    (v : Value) (e : PipelineEvent) (es : List PipelineEvent)
    → outcome_from (note_outcome e v) es ≡ outcome_from v (e ∷ es)
unfolding note_outcome
outcome_from-note_outcome v e es = ground arith

note_events-outcome :
    (s : RunSummary) (es : List PipelineEvent)
    → (note_events s es).outcome ≡ outcome_from s.outcome es
unfolding note_events note_event
note_events-outcome s [] = ground arith
note_events-outcome s (e ∷ es) =
    note_events-outcome (note_event s e) es ∙ outcome_from-note_outcome s.outcome e es

note_events-count :
    (s : RunSummary) (es : List PipelineEvent)
    → (note_events s es).event_count ≡ s.event_count + length es
unfolding note_events note_event
note_events-count s [] = omega arith
note_events-count s (e ∷ es) = omega (arith, note_events-count (note_event s e) es)

note_events-verdict :
    (s : RunSummary) (es : List PipelineEvent)
    → (note_events s es).verdict ≡ last_verdict s.verdict es
unfolding note_events note_event note_verdict
note_events-verdict s [] = refl
note_events-verdict s (e ∷ es) = note_events-verdict (note_event s e) es

note_event-run_id : (s : RunSummary) (e : PipelineEvent) → (note_event s e).run_id ≡ s.run_id
unfolding note_event note_start
note_event-run_id s e = ground arith

note_events-run_id :
    (s : RunSummary) (es : List PipelineEvent) → (note_events s es).run_id ≡ s.run_id
unfolding note_events
note_events-run_id s [] = refl
note_events-run_id s (e ∷ es) = note_events-run_id (note_event s e) es ∙ note_event-run_id s e

-- what a summary says of a run
abbrev pub Summarizes : RunSummary → Text → List PipelineEvent → Type 0
Summarizes s run_id es =
    (s.run_id ≡ run_id)
    × (s.outcome ≡ outcome_from null es)
    × (s.verdict ≡ last_verdict null es)
    × (s.event_count ≡ length es)

note_events-Summarizes :
    (run_id : Text) (es : List PipelineEvent)
    → Summarizes (note_events (new_summary run_id) es) run_id es
note_events-Summarizes run_id es =
    let s = new_summary run_id in
    (
      note_events-run_id s es,
      note_events-outcome s es,
      note_events-verdict s es,
      omega (arith, note_events-count s es),
    )

-- the rows of the list, one for each run
abbrev pub Rows : Dict Text RunFile → List RunSummary → Type 0
Rows [] [] = Unit
Rows ((run_id, f) ∷ runs) (s ∷ ss) =
    ((es : List PipelineEvent) × (load_events f ≡ some es) × Summarizes s run_id es) × Rows runs ss
Rows _ _ = ⊥

summaries-Rows :
    (runs : Dict Text RunFile) (ss : List RunSummary) → summaries runs ≡ some ss → Rows runs ss
unfolding summaries
summaries-Rows [] ss h = let e : [] ≡ ss = ground (arith, h) in subst (Rows []) e tt
summaries-Rows ((run_id, f) ∷ runs) ss h = elim (Option-cases (load_events f)) [
  | inl q ↦ absurd (ground (arith, q, h))
  | inr (es, q) ↦ elim (Option-cases (summaries runs)) [
    | inl r ↦ absurd (ground (arith, q, r, h))
    | inr (rest, r) ↦
        let e : (note_events (new_summary run_id) es ∷ rest) ≡ ss = ground (arith, q, r, h) in
        subst (Rows ((run_id, f) ∷ runs)) e
          ((es, q, note_events-Summarizes run_id es), summaries-Rows runs rest r)
  ]
]

newer-IsWeakOrder : IsWeakOrder newer
newer-IsWeakOrder = record { asym = λ a b h. ground arith; le_trans = λ a b c h k. ground arith }

-- if the runs are listed, the rows are those of the runs in the order of their times, newest
-- first; each row has the number of the events of its run, the verdict of the last verification
-- result, and as outcome that of the last event on a pull request, or else that of the first end
-- of a pipeline that has one.
pub list_runs-Rows :
    (runs : Dict Text RunFile) (ss : List RunSummary)
    → list_runs runs ≡ some ss
    → (order : Dict Text RunFile) × Perm order runs × IsSorted newer order × Rows order ss
unfolding list_runs
list_runs-Rows runs ss h = (
  sort newer runs,
  sort-perm newer runs,
  sort-IsSorted newer-IsWeakOrder runs,
  summaries-Rows (sort newer runs) ss h,
)
