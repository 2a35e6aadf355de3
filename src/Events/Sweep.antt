-- ===== src/Events/Sweep.antt =====
-- `mark_interrupted_runs` of src/tvastr/events.py: what the sweep at the start of the server does
-- to the run files that no thread works on. The files are in the order of their names.
use tvastr_demo.Prelude.{
  ℕ, ◌+◌, Bool, true, false, ◌&&◌, not, if◌then◌else◌, any, any-append, contains, is_empty, List,
  [], ◌∷◌, ◌++◌, Option, none, some, Text, codes, text_eq, ◌≡◌, refl, sym, ap, ◌∙◌, subst, arith,
  ◌⊎◌, inl, inr, All, Option-cases,
}
use tvastr_demo.Prelude.Dicts.{Dict}
use tvastr_demo.Json.{string}
use tvastr_demo.Events.{
  PipelineEvent, event, RunFile, load_lines, load_events, emit, append_event, append_event_ended,
  Appends, append_event-Appends, is_terminal_event, load_lines-emit,
}

-- the event that the sweep appends
abbrev pub interrupted : Text → Text → PipelineEvent
interrupted now run_id = record {
  type = "pipeline.interrupted";
  layer = "pipeline";
  step = "pipeline";
  payload = ("reason", string (codes "server restarted mid-run")) ∷ [];
  timestamp = now;
  run_id = some run_id;
}

-- `not (not saw_any or saw_terminal)`, of the events of a file
unfoldable pub is_unfinished : List PipelineEvent → Bool
is_unfinished es = not (is_empty es) && not (any is_terminal_event es)

-- the body of the loop: `none` if the file is left as it is
unfoldable pub sweep_file : Text → List Text → Text → RunFile → Option RunFile
sweep_file now in_flight run_id f =
    if contains run_id in_flight then none else elim (load_events f) [
      | none ↦ none
      | some es ↦ if is_unfinished es then emit (interrupted now run_id) f else none
    ]

unfoldable pub mark_interrupted_runs : Text → List Text → Dict Text RunFile → Dict Text RunFile × ℕ
mark_interrupted_runs now in_flight [] = ([], 0)
mark_interrupted_runs now in_flight ((run_id, f) ∷ runs) =
    let (rest, marked) = mark_interrupted_runs now in_flight runs in
    elim (sweep_file now in_flight run_id f) [
      | none ↦ ((run_id, f) ∷ rest, marked)
      | some g ↦ ((run_id, g) ∷ rest, marked + 1)
    ]

is_unfinished-interrupted :
    (now run_id : Text) (es : List PipelineEvent)
    → is_unfinished (es ++ interrupted now run_id ∷ []) ≡ false
unfolding is_unfinished any is_terminal_event
is_unfinished-interrupted now run_id es =
    ground (arith, any-append is_terminal_event es (interrupted now run_id ∷ []))

-- A swept file has the text of one more event.
sweep_file-some :
    (now : Text) (in_flight : List Text) (run_id : Text) (f g : RunFile)
    → sweep_file now in_flight run_id f ≡ some g
    → (contains run_id in_flight ≡ false)
      × (is_unfinished (load_lines f.lines) ≡ true)
      × (g ≡ record f {
        lines = append_event f.lines f.is_ended (interrupted now run_id);
        is_ended = true;
      })
unfolding sweep_file emit load_events
sweep_file-some now in_flight run_id f g h = ground (arith, h)

-- One whose last line had its newline is finished then.
sweep_file-ended :
    (now : Text) (in_flight : List Text) (run_id : Text) (f g : RunFile)
    → f.is_ended ≡ true
    → sweep_file now in_flight run_id f ≡ some g
    → is_unfinished (load_lines g.lines) ≡ false
sweep_file-ended now in_flight run_id f g ended h =
    let e = interrupted now run_id in
    let (flight, unfinished, same) = sweep_file-some now in_flight run_id f g h in
    let lines : g.lines ≡ f.lines ++ event e ∷ [] =
      ap RunFile.lines same
      ∙ ap (λ b. append_event f.lines b e) ended
      ∙ append_event_ended f.lines e in
    rw (lines, load_lines-emit f.lines e)
      (is_unfinished-interrupted now run_id (load_lines f.lines))

finished_is_left :
    (now : Text) (in_flight : List Text) (run_id : Text) (f : RunFile)
    → is_unfinished (load_lines f.lines) ≡ false
    → sweep_file now in_flight run_id f ≡ none
unfolding sweep_file load_events
finished_is_left now in_flight run_id f h = ground (arith, h)

sweep_file-none :
    (now later : Text) (in_flight : List Text) (run_id : Text) (f : RunFile)
    → sweep_file now in_flight run_id f ≡ none
    → sweep_file later in_flight run_id f ≡ none
unfolding sweep_file emit
sweep_file-none now later in_flight run_id f h = ground arith

-- the files of a sweep, before and after it
abbrev pub Extends : Text → List Text → Dict Text RunFile → Dict Text RunFile → Type 0
Extends now in_flight [] [] = Unit
Extends now in_flight ((i, f) ∷ before) ((j, g) ∷ after) =
    (i ≡ j)
    × ((f ≡ g)
        ⊎ ((contains i in_flight ≡ false)
            × (is_unfinished (load_lines f.lines) ≡ true)
            × (g ≡ record f { lines = g.lines; is_ended = true })
            × Appends (interrupted now i) f.lines f.is_ended g.lines))
    × Extends now in_flight before after
Extends now in_flight _ _ = ⊥

sweep_file-Appends :
    (now : Text) (in_flight : List Text) (run_id : Text) (f g : RunFile)
    → sweep_file now in_flight run_id f ≡ some g
    → (g ≡ record f { lines = g.lines; is_ended = true })
      × Appends (interrupted now run_id) f.lines f.is_ended g.lines
sweep_file-Appends now in_flight run_id f g h =
    let e = interrupted now run_id in
    let (flight, unfinished, same) = sweep_file-some now in_flight run_id f g h in
    (
      ground (arith, same),
      subst (λ x. Appends e f.lines f.is_ended x) (sym (ap RunFile.lines same))
          (append_event-Appends f.lines f.is_ended e),
    )

-- a sweep leaves each run file as it is, or appends the interruption to it, as a line of its own,
-- or fused with a last line that lacks its newline; it does the latter only to a run that is not
-- in flight, has an event and has no terminal one.
pub mark_interrupted_runs-Extends :
    (now : Text) (in_flight : List Text) (runs : Dict Text RunFile)
    → Extends now in_flight runs (mark_interrupted_runs now in_flight runs).0
unfolding mark_interrupted_runs
mark_interrupted_runs-Extends now in_flight [] = tt
mark_interrupted_runs-Extends now in_flight ((i, f) ∷ runs) =
    let rest = mark_interrupted_runs-Extends now in_flight runs in
    elim (Option-cases (sweep_file now in_flight i f)) [
      | inl q ↦ rw (q, mark_interrupted_runs) (refl, inl refl, rest)
      | inr (g, q) ↦
          let (flight, unfinished, same) = sweep_file-some now in_flight i f g q in
          let (fields, appends) = sweep_file-Appends now in_flight i f g q in
          rw (q, mark_interrupted_runs) (refl, inr (flight, unfinished, fields, appends), rest)
    ]

-- the last line of a file has its newline
abbrev pub IsEnded : Text × RunFile → Type 0
IsEnded (run_id, f) = f.is_ended ≡ true

-- if the last line of each file has its newline, a second sweep, at whatever time, changes no
-- file and marks no run.
pub mark_interrupted_runs-again :
    (now later : Text) (in_flight : List Text) (runs : Dict Text RunFile)
    → All IsEnded runs
    → let swept = (mark_interrupted_runs now in_flight runs).0 in
      mark_interrupted_runs later in_flight swept ≡ (swept, 0)
unfolding mark_interrupted_runs
mark_interrupted_runs-again now later in_flight [] ended = refl
mark_interrupted_runs-again now later in_flight ((i, f) ∷ runs) (e, ended) =
    let again = mark_interrupted_runs-again now later in_flight runs ended in
    elim (Option-cases (sweep_file now in_flight i f)) [
      | inl q ↦ rw (q, mark_interrupted_runs, sweep_file-none now later in_flight i f q, again) refl
      | inr (g, q) ↦
          let left =
            finished_is_left later in_flight i g (sweep_file-ended now in_flight i f g e q) in
          rw (q, mark_interrupted_runs, left, again) refl
    ]

-- why a file may be unfinished after a sweep
abbrev pub IsSettled : List Text → Text × RunFile → Type 0
IsSettled in_flight (run_id, f) =
    (contains run_id in_flight ≡ true)
    ⊎ (f.is_readable ≡ false)
    ⊎ (f.is_writable ≡ false)
    ⊎ (is_unfinished (load_lines f.lines) ≡ false)

sweep_file-none-IsSettled :
    (now : Text) (in_flight : List Text) (run_id : Text) (f : RunFile)
    → sweep_file now in_flight run_id f ≡ none
    → IsSettled in_flight (run_id, f)
unfolding sweep_file emit load_events
sweep_file-none-IsSettled now in_flight run_id f h = ground arith

IsSettled-sweep_file :
    (now : Text) (in_flight : List Text) (run_id : Text) (f : RunFile)
    → IsSettled in_flight (run_id, f)
    → sweep_file now in_flight run_id f ≡ none
unfolding sweep_file emit load_events
IsSettled-sweep_file now in_flight run_id f (inl a) = ground (arith, a)
IsSettled-sweep_file now in_flight run_id f (inr (inl a)) = ground (arith, a)
IsSettled-sweep_file now in_flight run_id f (inr (inr (inl a))) = ground (arith, a)
IsSettled-sweep_file now in_flight run_id f (inr (inr (inr a))) = ground (arith, a)

-- what a first sweep leaves a file as
abbrev IsSweptOnce : List Text → Text × RunFile → Type 0
IsSweptOnce in_flight r = IsSettled in_flight r ⊎ IsEnded r

mark_interrupted_runs-IsSweptOnce :
    (now : Text) (in_flight : List Text) (runs : Dict Text RunFile)
    → All (IsSweptOnce in_flight) (mark_interrupted_runs now in_flight runs).0
unfolding mark_interrupted_runs
mark_interrupted_runs-IsSweptOnce now in_flight [] = tt
mark_interrupted_runs-IsSweptOnce now in_flight ((i, f) ∷ runs) =
    let rest = mark_interrupted_runs-IsSweptOnce now in_flight runs in
    elim (Option-cases (sweep_file now in_flight i f)) [
      | inl q ↦
          rw (q, mark_interrupted_runs) (inl (sweep_file-none-IsSettled now in_flight i f q), rest)
      | inr (g, q) ↦
          let (flight, unfinished, same) = sweep_file-some now in_flight i f g q in
          rw (q, mark_interrupted_runs) (inr (ap RunFile.is_ended same), rest)
    ]

swept_again-IsSettled :
    (now : Text) (in_flight : List Text) (runs : Dict Text RunFile)
    → All (IsSweptOnce in_flight) runs
    → All (IsSettled in_flight) (mark_interrupted_runs now in_flight runs).0
unfolding mark_interrupted_runs
swept_again-IsSettled now in_flight [] h = tt
swept_again-IsSettled now in_flight ((i, f) ∷ runs) (once, h) =
    let rest = swept_again-IsSettled now in_flight runs h in
    elim (Option-cases (sweep_file now in_flight i f)) [
      | inl q ↦ rw (q, mark_interrupted_runs) (sweep_file-none-IsSettled now in_flight i f q, rest)
      | inr (g, q) ↦
          rw (q, mark_interrupted_runs)
            (
              elim once [
                | inl s ↦ absurd (ground (arith, q, IsSettled-sweep_file now in_flight i f s))
                | inr e ↦ inr (inr (inr (sweep_file-ended now in_flight i f g e q)))
              ],
              rest,
            )
    ]

-- after two sweeps, at whatever times, each run file that is not in flight and can be read and
-- written has no event or a terminal one, also if its last line lacked its newline.
pub mark_interrupted_runs-IsSettled :
    (now later : Text) (in_flight : List Text) (runs : Dict Text RunFile)
    → All
        (IsSettled in_flight)
        (mark_interrupted_runs later in_flight (mark_interrupted_runs now in_flight runs).0).0
mark_interrupted_runs-IsSettled now later in_flight runs =
    swept_again-IsSettled later in_flight (mark_interrupted_runs now in_flight runs).0
      (mark_interrupted_runs-IsSweptOnce now in_flight runs)
