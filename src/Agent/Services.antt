-- ===== src/Agent/Services.antt =====
-- src/tvastr/agent/context.py: what the agent's nodes and tools work against. The services are
-- outside the repository or behind an interface of it; the functions of Python are arguments too.
use tvastr_demo.Prelude.{ℕ, Bool, if◌then◌else◌, Option, none, some, List, Text, String}
use tvastr_demo.Prelude.Steps.{Step, perform, record_event}
use tvastr_demo.Json.{Value, Payload}
use tvastr_demo.Domain.{TaskType, Sensitivity, RoutingDecision, PullRequestDraft, AuditRecord}
use tvastr_demo.Llm.{Response}
use tvastr_demo.Integrations.{Call, CodeHost}

-- the arguments of a call of `HybridRouter.run`
pub record Question : Type 0 where
  pub task : TaskType
  pub prompt : Text
  pub sensitivity : Sensitivity
  pub system : Option Text
  pub web_search : Bool

-- a file of a package: its path below the root, and the text if it can be read
pub record SourceFile : Type 0 where
  pub parts : List Text
  pub text : Option Text

-- `float(value)`: a float, a `TypeError` or `ValueError`, or the `OverflowError` of an int that is
-- too large
pub data Conversion (Float : Type 0) : Type 0 where
  converted : Float → Conversion Float
  refused overflowed : Conversion Float

pub record Services : Type 1 where
  pub World : Type 0
  -- a Python float, with its comparisons, `float(value)`, and as a payload entry
  pub Float : Type 0
  pub lt : Float → Float → Bool
  pub le : Float → Float → Bool
  pub zero : Float
  pub half : Float
  pub one : Float
  pub to_float : Value → Conversion Float
  pub float_value : Float → Value
  -- `JSONDecoder.raw_decode`, `str` of a number or container, `repr` of a text and of a list of
  -- texts, `str` of an int, `str.lower`, and the unified diff of difflib
  pub raw_decode : Text → Option (Value × ℕ)
  pub show : Value → Text
  pub repr : Text → Text
  pub repr_all : List Text → Text
  pub decimal : ℕ → Text
  pub lower : Text → Text
  pub unified_diff : Text → Text → Text → Text
  -- `str.splitlines`, and the offsets of the matches of `^class\s+\w+`
  pub splitlines : Text → List Text
  pub class_starts : Text → List ℕ
  -- what an event shows of an exception
  pub exception_text : Text
  -- the first groups of the matches of a pattern
  pub groups : String → Text → List Text
  -- `HybridRouter.run`
  pub ask : Question → Call World (Response × RoutingDecision)
  -- `Notifier.notify`
  pub send : Text → Call World Bool
  -- `AuditStore.save`, and the clock
  pub save : AuditRecord → Call World (Unit {0})
  pub now : World → ℕ
  -- `isoformat` of an instant
  pub isoformat : ℕ → Text
  -- `fetch_sdk`, as the version in the name of the directory and the files of the package: it
  -- installs a wheel with pip. `some none` is a fetch that failed.
  pub fetch_sdk : Text → Option Text → Call World (Option (Text × List SourceFile))

-- what the agent does outside, in order
pub data Action (Float : Type 0) : Type 0 where
  asked : Question → Action Float
  searched read_file listed_dir : Text → Action Float
  installed : Text → Option Text → Action Float
  opened : PullRequestDraft → Action Float
  notified : Text → Action Float
  -- `commit_before`, and `save` of the audit store
  dated : Text → Action Float
  saved : AuditRecord → Action Float
  -- an event with its type, its layer, its step and its payload
  emitted : String → String → String → Payload → Action Float
  -- the event of the confidence gate: the confidence, and whether the agent may act
  gated : Float → Bool → Action Float

module _ (o : Services) where
  open o use {World, Float}

  -- `AgentContext`
  pub record Context : Type 0 where
    pub code_host : CodeHost World
    pub min_confidence : Float
    pub doc_grounding : Bool
    pub issue_era_retrieval : Bool
    pub sdk_schema_grounding : Bool

  abbrev pub Node : Type 0 → Type 0
  Node A = Step World (Action Float) A

  -- `max(0.0, min(1.0, x))`: both keep their first argument unless the second one is better
  unfoldable pub clamp : Float → Float
  clamp x =
      let capped = if o.lt x o.one then x else o.one in
      if o.lt o.zero capped then capped else o.zero

  -- `_clamp_confidence`, which lets an `OverflowError` through
  unfoldable pub clamp_confidence : Value → Option Float
  unfolding clamp
  clamp_confidence v = elim (o.to_float v) [
    | converted x ↦ some (clamp x)
    | refused ↦ some o.zero
    | overflowed ↦ none
  ]

module _ (o : Services) where
  unfoldable pub emit : String → String → Payload → Node o (Unit {0})
  emit type step payload = record_event (emitted type "agent" step payload)

  unfoldable pub ask_router : Question → Node o (Response × RoutingDecision)
  ask_router q = perform (asked q) (o.ask q)
