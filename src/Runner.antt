-- ===== src/Runner.antt =====
-- src/tvastr/runner.py: the thread that runs a pipeline. The body of a run appends to the run's
-- file, and may raise.
use tvastr_demo.Prelude.{
  ℕ, if◌then◌else◌, ◌==◌, beq_self, true, Option, none, some, String, Text, text_eq, string_eq, ◌≡◌,
  ◌≢◌, refl, sym, subst, arith,
}
use tvastr_demo.Prelude.Dicts.{Dict, get, put, remove, get-put, get-remove}
use tvastr_demo.Json.{Payload, string, lookup, lookup-put}
use tvastr_demo.Events.{
  PipelineEvent, RunFile, emit, append_event, Appends, append_event-Appends, is_terminal_event,
}

pub record Raised : Type 0 where
  pub name : Text
  pub message : Text

-- `IN_FLIGHT` gives the thread of a run
pub record Process : Type 0 where
  pub in_flight : Dict Text ℕ
  pub file : RunFile

abbrev pub Body : Type 0
Body = RunFile → RunFile × Option Raised

-- `{**error_payload, "error": ..., "message": ...}`
unfoldable pub failure_payload : Payload → Raised → Payload
failure_payload error_payload exc =
    put "message" (string exc.message) (put "error" (string exc.name) error_payload)

unfoldable pub failure_event : Text → Text → Payload → Raised → PipelineEvent
failure_event now run_id error_payload exc = record {
  type = "error";
  layer = "output";
  step = "pipeline";
  payload = failure_payload error_payload exc;
  timestamp = now;
  run_id = some run_id;
}

-- `sink.emit`; the thread ends where the sink raises
abbrev pub emit_or_die : PipelineEvent → RunFile → RunFile
emit_or_die e f = elim (emit e f) [ none ↦ f | some g ↦ g ]

-- `_run` up to its `finally`
unfoldable pub run_body : Text → Text → Payload → Body → RunFile → RunFile
run_body now run_id error_payload body file =
    let (after, raised) = body file in
    elim raised [
      | none ↦ after
      | some exc ↦ emit_or_die (failure_event now run_id error_payload exc) after
    ]

-- `IN_FLIGHT[run_id] = t`
unfoldable pub register : Text → ℕ → Process → Process
register run_id thread p = record p { in_flight = put run_id thread p.in_flight }

-- `_run`, whole
unfoldable pub run_thread : Text → Text → Payload → Body → Process → Process
run_thread now run_id error_payload body p = record {
  in_flight = remove run_id p.in_flight;
  file = run_body now run_id error_payload body p.file;
}

-- `start_pipeline_thread`, joined: what holds while the thread runs, and behind it
unfoldable pub start_pipeline_thread :
    Text → Text → ℕ → Payload → Body → Process → Process × Process
start_pipeline_thread now run_id thread error_payload body p =
    let running = register run_id thread p in
    (running, run_thread now run_id error_payload body running)

-- while its thread runs, a run is registered as in flight; afterwards it is not, whether or not
-- the body raised, and no other entry has changed.
pub start_pipeline_thread-in_flight :
    (now run_id : Text) (thread : ℕ) (error_payload : Payload) (body : Body) (p : Process)
    → let (running, finished) = start_pipeline_thread now run_id thread error_payload body p in
      (get run_id running.in_flight ≡ some thread)
      × ((j : Text) → get j finished.in_flight ≡ (if run_id == j then none else get j p.in_flight))
unfolding start_pipeline_thread register run_thread
start_pipeline_thread-in_flight now run_id thread error_payload body p = (
  ground (arith, get-put run_id run_id thread p.in_flight, beq_self run_id),
  λ j. ground (
    arith,
    get-remove run_id j (put run_id thread p.in_flight),
    get-put run_id j thread p.in_flight,
  ),
)

failure_payload-keeps :
    (error_payload : Payload) (exc : Raised) (k : String)
    → k ≢ "error"
    → k ≢ "message"
    → lookup k (failure_payload error_payload exc) ≡ lookup k error_payload
unfolding failure_payload
failure_payload-keeps error_payload exc k e m = ground (
  arith,
  lookup-put "message" k (string exc.message) (put "error" (string exc.name) error_payload),
  lookup-put "error" k (string exc.name) error_payload,
  string_eq.same_iff "message" k,
  string_eq.same_iff "error" k,
)

lines-run_body :
    (now run_id : Text) (error_payload : Payload) (body : Body) (file : RunFile) (exc : Raised)
    → (body file).1 ≡ some exc
    → (body file).0.is_writable ≡ true
    → (run_body now run_id error_payload body file).lines
      ≡ append_event
          (body file).0.lines
          (body file).0.is_ended
          (failure_event now run_id error_payload exc)
unfolding run_body emit
lines-run_body now run_id error_payload body file exc h w = ground arith

run_body-raised :
    (now run_id : Text) (error_payload : Payload) (body : Body) (file : RunFile) (exc : Raised)
    → (body file).1 ≡ some exc
    → (body file).0.is_writable ≡ true
    → Appends
        (failure_event now run_id error_payload exc)
        (body file).0.lines
        (body file).0.is_ended
        (run_body now run_id error_payload body file).lines
run_body-raised now run_id error_payload body file exc h w =
    let e = failure_event now run_id error_payload exc in
    subst (λ x. Appends e (body file).0.lines (body file).0.is_ended x)
      (sym (lines-run_body now run_id error_payload body file exc h w))
      (append_event-Appends (body file).0.lines (body file).0.is_ended e)

pub start_pipeline_thread-raised :
    (now run_id : Text) (thread : ℕ) (error_payload : Payload) (body : Body) (p : Process)
    (exc : Raised)
    → (body p.file).1 ≡ some exc
    → (body p.file).0.is_writable ≡ true
    → let e = failure_event now run_id error_payload exc in
      Appends e
        (body p.file).0.lines
        (body p.file).0.is_ended
        (start_pipeline_thread now run_id thread error_payload body p).1.file.lines
      × (is_terminal_event e ≡ true)
      × ((k : String) → k ≢ "error" → k ≢ "message" → lookup k e.payload ≡ lookup k error_payload)
unfolding start_pipeline_thread register run_thread failure_event is_terminal_event
start_pipeline_thread-raised now run_id thread error_payload body p exc h w = (
  run_body-raised now run_id error_payload body p.file exc h w,
  refl,
  failure_payload-keeps error_payload exc,
)
