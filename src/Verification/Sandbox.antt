-- ===== src/Verification/Sandbox.antt =====
-- The sandbox of src/tvastr/verification, as the verifier uses it. A step works on the handle of a
-- sandbox and a trace of what was done, and may raise; handle and trace outlast an exception.
use tvastr_demo.Prelude.{
  ◌≡◌, ap, arith, ℕ, ◌+◌, ◌==◌, nat_beq, Bool, false, if◌then◌else◌, List, [], ◌∷◌, ◌++◌, map,
  Option, none, some, String, Text, codes, text_eq,
}
use tvastr_demo.Domain.{FileChange}
use tvastr_demo.Verification.{RunResult}
use mathlib.Core.List.{reverse}
use tvastr_demo.Json.{Payload, Values, texts, string, number, bool}
use tvastr_demo.Verification.Judge.{code_value, tail, original_exception_seen}

-- the counts of `_parse_pytest_summary` of src/tvastr/verification/regression.py
pub record Counts : Type 0 where
  pub passed : ℕ
  pub failed : ℕ
  pub errors : ℕ
  pub skipped : ℕ

-- `kind.rstrip("s")`, backwards
abbrev drop_s : Text → Text
drop_s [] = []
drop_s (c ∷ s) = let rest = drop_s s in if nat_beq c b's' then rest else c ∷ s

-- the body of the loop, for a number and a lower-case word
unfoldable pub count_match : Counts → ℕ × Text → Counts
count_match c (n, word) =
    let kind = reverse (drop_s (reverse word)) in
    if kind == codes "error"
    then record c { errors = c.errors + n }
    else if kind == codes "passed"
    then record c { passed = c.passed + n }
    else if kind == codes "failed"
    then record c { failed = c.failed + n }
    else if kind == codes "skipped"
    then record c { skipped = c.skipped + n }
    else c

unfoldable pub count_matches : Counts → List (ℕ × Text) → Counts
count_matches c [] = c
count_matches c (m ∷ ms) = count_matches (count_match c m) ms

pub record ProvisionResult : Type 0 where
  pub requested : List Text
  pub installed : List Text
  pub failed : List Text
  pub ok : Bool

-- `SandboxHandle`: what each method makes of the container, and its result; `false` or `none` is
-- an exception. `summary` gives the numbers and lower-case words that the pattern of a pytest
-- summary matches.
pub record Sandbox : Type 1 where
  pub Handle : Type 0
  -- the handle of each call, if it can be made
  pub prepare : ℕ → Option Handle
  pub write_file : Text → Handle → Handle × Bool
  pub apply_changes : List FileChange → Handle → Handle × Bool
  -- `run(["python", "repro.py"])`, and pytest on the given files
  pub run : Handle → Handle × Option RunResult
  pub run_pytest : List Text → Handle → Handle × Option RunResult
  pub summary : Text → List (ℕ × Text)
  pub provision : List Text → Handle → Handle × Option ProvisionResult

-- what a cycle does, in order
pub data Action : Type 0 where
  wrote : Text → Action
  ran : RunResult → Action
  applied : List FileChange → Action
  tested : List Text → RunResult → Action
  emitted : String → Payload → Action

abbrev pub paths_of : List FileChange → Values
paths_of changes = texts (map FileChange.path changes)

abbrev pub run_payload : RunResult → Option Text → Payload
run_payload r expected =
    ("exit_code", code_value r.exit_code)
    ∷ ("stderr_tail", string (tail r.stderr))
    ∷ ("original_exception_seen", bool (original_exception_seen r expected))
    ∷ ("timed_out", bool r.timed_out)
    ∷ []

abbrev pub counts_payload : Counts → Payload
counts_payload c =
    ("passed", number false c.passed 0)
    ∷ ("failed", number false c.failed 0)
    ∷ ("errors", number false c.errors 0)
    ∷ ("skipped", number false c.skipped 0)
    ∷ []

module _ (b : Sandbox) where
  open b use {Handle}

  pub record Session : Type 0 where
    pub handle : Handle
    pub trace : List Action

  abbrev pub Step : Type 0 → Type 0
  Step A = Session → Option A × Session

module _ {b : Sandbox} where
  open b use {Handle, write_file, apply_changes, run, run_pytest, summary}

  abbrev pub pure : {A : Type 0} → A → Step b A
  pure a s = (some a, s)

  -- behind an exception the rest is passed over
  abbrev pub and_then :
      {A B : Type 0} → Option A × Session b → (A → Step b B) → Option B × Session b
  and_then (none, s) k = (none, s)
  and_then (some a, s) k = k a s

  infixl 5 ◌>>=◌ ◌>>◌
  abbrev pub ◌>>=◌ : {A B : Type 0} → Step b A → (A → Step b B) → Step b B
  m >>= k = λ s. and_then (m s) k

  abbrev pub ◌>>◌ : {B : Type 0} → Step b (Unit {0}) → Step b B → Step b B
  m >> n = m >>= λ _. n

  abbrev pub note : Action → Session b → Session b
  note a s = record s { trace = s.trace ++ a ∷ [] }

  unfoldable pub emit : String → Payload → Step b (Unit {0})
  emit type payload s = (some tt, note (emitted type payload) s)

  unfoldable pub write_repro : Text → Step b (Unit {0})
  write_repro code s =
      let (h, done) = write_file code s.handle in
      (if done then some tt else none, note (wrote code) (record s { handle = h }))

  unfoldable pub apply : List FileChange → Step b (Unit {0})
  apply changes s =
      let (h, done) = apply_changes changes s.handle in
      (if done then some tt else none, note (applied changes) (record s { handle = h }))

  ran_step : Handle × Option RunResult → (RunResult → Action) → Step b RunResult
  ran_step (h, none) action s = (none, record s { handle = h })
  ran_step (h, some r) action s = (some r, note (action r) (record s { handle = h }))

  unfoldable pub run_repro : Step b RunResult
  unfolding ran_step
  run_repro s = ran_step (run s.handle) ran s

  -- `run_scoped_tests`
  unfoldable pub run_scoped_tests : List Text → Step b (RunResult × Counts)
  unfolding ran_step
  run_scoped_tests scoped = do
    r ← (λ s. ran_step (run_pytest scoped s.handle) (tested scoped) s)
    pure (
      r,
      count_matches (record { passed = 0; failed = 0; errors = 0; skipped = 0 })
          (summary (r.stdout ++ codes "\n" ++ r.stderr)),
    )

  ran_step-result :
      (p : Handle × Option RunResult) (action : RunResult → Action) (s after : Session b)
      (r : RunResult)
      → ran_step p action s ≡ (some r, after)
      → p.1 ≡ some r
  unfolding ran_step
  ran_step-result (h, none) action s after r e = absurd (ground (arith, e))
  ran_step-result (h, some q) action s after r e = ap (λ x. x.0) e

  pub run_repro-result :
      (s after : Session b) (r : RunResult)
      → run_repro s ≡ (some r, after)
      → (run s.handle).1 ≡ some r
  unfolding run_repro
  run_repro-result s after r e = ran_step-result (run s.handle) ran s after r e
