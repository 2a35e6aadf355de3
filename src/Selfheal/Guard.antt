-- ===== src/Selfheal/Guard.antt =====
-- The loop guard of src/tvastr/selfheal/scan.py: which run files give candidates.
use tvastr_demo.Prelude.{
  ℕ, ◌+◌, true, false, any, any-append, Option-cases, List, [], ◌∷◌, ◌++◌, Option, none, some, Text,
  text_eq, string_eq, ◌≡◌, ◌≢◌, refl, subst, arith, ◌⊎◌, inl, inr, All, Any, All-append, All-map,
}
use tvastr_demo.Prelude.Dicts.{Dict, get}
use tvastr_demo.Json.{bool, truthy, Payload, lookup}
use tvastr_demo.Domain.{LogEvent}
use tvastr_demo.Events.{
  RunFile, PipelineEvent, load_events, load_lines, load_lines-emit, Appends-ended,
  is_terminal_event,
}
use tvastr_demo.Runner.{
  Body, Raised, Process, start_pipeline_thread, start_pipeline_thread-raised, failure_event,
}
use tvastr_demo.Selfheal.Scan.{
  Outside, Collected, fate, mined, passed_over, skipped, is_self_run, is_of_day, candidates_of,
  candidate_of, extract_run_candidates, collect_file, run_candidates, run_attributes, run_log_event,
  issue_ref,
}

-- the `error_payload` of `_default_start_run` of src/tvastr/selfheal/remediate.py
abbrev pub self_heal_mark : Payload
self_heal_mark = ("self_heal", bool true) ∷ []

-- why a file gives nothing: it is of another day, a run of the loop itself, or not over
abbrev pub IsBarred : Text → List PipelineEvent → Type 0
IsBarred day es =
    (is_of_day day es ≡ false) ⊎ (is_self_run es ≡ true) ⊎ (any is_terminal_event es ≡ false)

abbrev pub IsMined : Text → List PipelineEvent → Type 0
IsMined day es =
    (is_of_day day es ≡ true) × (is_self_run es ≡ false) × (any is_terminal_event es ≡ true)

barred-fate : (day : Text) (es : List PipelineEvent) → IsBarred day es → fate day es ≢ mined
unfolding fate
barred-fate day es h = ground arith

mined-fate : (day : Text) (es : List PipelineEvent) → fate day es ≡ mined → IsMined day es
unfolding fate
mined-fate day es h = ground arith

fate-cases :
    (day : Text) (es : List PipelineEvent)
    → ((fate day es ≡ passed_over) ⊎ (fate day es ≡ skipped)) ⊎ (fate day es ≡ mined)
fate-cases day es = elim (fate day es) as (λ x. ((x ≡ passed_over) ⊎ (x ≡ skipped)) ⊎ (x ≡ mined)) [
  | passed_over ↦ inl (inl refl)
  | skipped ↦ inl (inr refl)
  | mined ↦ inr refl
]

-- the candidates of a collection and the number of files that it mined
abbrev pub mined_part : Option Collected → Option (List LogEvent × ℕ)
mined_part none = none
mined_part (some c) = some (c.candidates, c.scanned_runs)

module _ (o : Outside) where
  collect_file-barred :
      (day run_id : Text) (es : List PipelineEvent) (c : Collected)
      → fate day es ≢ mined
      → mined_part (some (collect_file o day run_id es c)) ≡ mined_part (some c)
  unfolding collect_file
  collect_file-barred day run_id es c h = ground arith

  collect_file-mined_part :
      (day run_id : Text) (es : List PipelineEvent) (c d : Collected)
      → mined_part (some c) ≡ mined_part (some d)
      → mined_part (some (collect_file o day run_id es c))
        ≡ mined_part (some (collect_file o day run_id es d))
  unfolding collect_file
  collect_file-mined_part day run_id es c d h = ground arith

  -- one more file in front of the others
  abbrev collect_next : Text → Text → List PipelineEvent → Option Collected → Option Collected
  collect_next day run_id es none = none
  collect_next day run_id es (some c) = some (collect_file o day run_id es c)

  collect_next-mined_part :
      (day run_id : Text) (es : List PipelineEvent) (x y : Option Collected)
      → mined_part x ≡ mined_part y
      → mined_part (collect_next day run_id es x) ≡ mined_part (collect_next day run_id es y)
  collect_next-mined_part day run_id es none none h = h
  collect_next-mined_part day run_id es none (some d) h = absurd (ground arith)
  collect_next-mined_part day run_id es (some c) none h = absurd (ground arith)
  collect_next-mined_part day run_id es (some c) (some d) h =
      collect_file-mined_part day run_id es c d h

  -- a run file that is of another day, belongs to a run of the loop itself or is not over changes
  -- neither the candidates of the day nor the number of scanned runs, wherever it stands among
  -- the files.
  pub run_candidates-barred :
      (day run_id : Text) (f : RunFile) (es : List PipelineEvent) (before after : Dict Text RunFile)
      → load_events f ≡ some es
      → IsBarred day es
      → mined_part (run_candidates o day (before ++ (run_id, f) ∷ after))
        ≡ mined_part (run_candidates o day (before ++ after))
  unfolding run_candidates
  run_candidates-barred day run_id f es [] after h barred =
      elim (Option-cases (run_candidates o day after)) [
        | inl q ↦ ground (arith, h, q)
        | inr (c, q) ↦
            rw (h, q, run_candidates)
              (collect_file-barred day run_id es c (barred-fate day es barred))
      ]
  run_candidates-barred day run_id f es ((i, g) ∷ before) after h barred =
      let ih = run_candidates-barred day run_id f es before after h barred in
      elim (Option-cases (load_events g)) [
        | inl q ↦ rw (q, run_candidates, mined_part) refl
        | inr (gs, q) ↦
            rw (q, run_candidates, mined_part)
              (collect_next-mined_part day i gs
                (run_candidates o day (before ++ (run_id, f) ∷ after))
                (run_candidates o day (before ++ after)) ih)
      ]

  candidate_of-run_id :
      (run_id ref : Text) (place : ℕ) (e : PipelineEvent) (c : LogEvent)
      → candidate_of o run_id ref place e ≡ some c
      → c.attributes ≡ run_attributes run_id ref
  unfolding candidate_of run_log_event
  candidate_of-run_id run_id ref place e c h = ground arith

  candidates_of-run_id :
      (run_id ref : Text) (place : ℕ) (es : List PipelineEvent)
      → All (λ c. c.attributes ≡ run_attributes run_id ref) (candidates_of o run_id ref place es)
  unfolding candidates_of
  candidates_of-run_id run_id ref place [] = tt
  candidates_of-run_id run_id ref place (e ∷ es) =
      let rest = candidates_of-run_id run_id ref (place + 1) es in
      elim (Option-cases (candidate_of o run_id ref place e)) [
        | inl q ↦ rw (q, candidates_of, All) rest
        | inr (c, q) ↦ rw (q, candidates_of, All) (candidate_of-run_id run_id ref place e c q, rest)
      ]

-- the run file that a candidate stems from
abbrev pub IsSource : Outside → Text → LogEvent → Text × RunFile → Type 0
IsSource o day c (run_id, f) =
    (es : List PipelineEvent) × (load_events f ≡ some es)
    × IsMined day es
    × (c.attributes ≡ run_attributes run_id (issue_ref o es))

module _ (o : Outside) where
  collect_file-IsSource :
      (day run_id : Text) (f : RunFile) (es : List PipelineEvent) (files : Dict Text RunFile)
      (rest : Collected)
      → load_events f ≡ some es
      → All (λ c. Any (IsSource o day c) files) rest.candidates
      → All
          (λ c. Any (IsSource o day c) ((run_id, f) ∷ files))
          (collect_file o day run_id es rest).candidates
  unfolding collect_file extract_run_candidates
  collect_file-IsSource day run_id f es files rest h old =
      let kept = All-map (λ c a. inr a) rest.candidates old in
      elim (fate-cases day es) [
        | inl q ↦ elim q [
          | inl q0 ↦ rw (q0, collect_file) kept
          | inr q1 ↦ rw (q1, collect_file) kept
        ]
        | inr q ↦
            rw (q, collect_file)
              (All-append (λ c. Any (IsSource o day c) ((run_id, f) ∷ files))
                (candidates_of o run_id (issue_ref o es) 0 es) rest.candidates
                (All-map (λ c a. inl (es, h, mined-fate day es q, a))
                  (candidates_of o run_id (issue_ref o es) 0 es)
                  (candidates_of-run_id o run_id (issue_ref o es) 0 es))
                kept)
      ]

  -- each candidate of a day carries the run id and the issue of a run file that is of the day, is
  -- over, and has no event with a truthy `self_heal`.
  pub run_candidates-IsSource :
      (day : Text) (files : Dict Text RunFile) (found : Collected)
      → run_candidates o day files ≡ some found
      → All (λ c. Any (IsSource o day c) files) found.candidates
  unfolding run_candidates
  run_candidates-IsSource day [] found h =
      let e : [] ≡ found.candidates = ground (arith, h) in
      subst (All (λ c. Any (IsSource o day c) [])) e tt
  run_candidates-IsSource day ((run_id, f) ∷ files) found h = elim (Option-cases (load_events f)) [
    | inl q ↦ absurd (ground (arith, q, h))
    | inr (es, q) ↦ elim (Option-cases (run_candidates o day files)) [
      | inl r ↦ absurd (ground (arith, q, r, h))
      | inr (rest, r) ↦
          let e : collect_file o day run_id es rest ≡ found = ground (arith, q, r, h) in
          subst (λ d. All (λ c. Any (IsSource o day c) ((run_id, f) ∷ files)) d.candidates) e
            (collect_file-IsSource day run_id f es files rest q
              (run_candidates-IsSource day files rest r))
    ]
  ]

is_self_run-last :
    (es : List PipelineEvent) (e : PipelineEvent)
    → truthy (lookup "self_heal" e.payload) ≡ true
    → is_self_run (es ++ e ∷ []) ≡ true
unfolding is_self_run any
is_self_run-last es e h =
    ground (arith, any-append (λ d. truthy (lookup "self_heal" d.payload)) es (e ∷ []), h)

-- a run that the fix wave starts and whose body raises, before or after its first event, leaves a
-- file that the scan takes for a run of the loop itself, if the file can still be written and its
-- last line has its newline.
pub crashed_run_is_guarded :
    (now run_id : Text) (thread : ℕ) (body : Body) (p : Process) (exc : Raised)
    → (body p.file).1 ≡ some exc
    → (body p.file).0.is_writable ≡ true
    → (body p.file).0.is_ended ≡ true
    → is_self_run
        (load_lines (start_pipeline_thread now run_id thread self_heal_mark body p).1.file.lines)
      ≡ true
unfolding lookup get
crashed_run_is_guarded now run_id thread body p exc h w ended =
    let (appends, terminal, kept) =
      start_pipeline_thread-raised now run_id thread self_heal_mark body p exc h w in
    let e = failure_event now run_id self_heal_mark exc in
    let lines = Appends-ended e (body p.file).0.lines (body p.file).0.is_ended _ ended appends in
    let marked : truthy (lookup "self_heal" e.payload) ≡ true =
      rw (kept "self_heal" (λ q. cc) (λ q. cc)) refl in
    rw (lines, load_lines-emit (body p.file).0.lines e)
      (is_self_run-last (load_lines (body p.file).0.lines) e marked)
