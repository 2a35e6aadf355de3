-- ===== src/Domain.antt =====
-- src/tvastr/domain/models.py: the models that the layers hand to one another. An instant is a
-- number of seconds, free text is a list of code points. A confidence is a Python float: its type
-- is a parameter.
use tvastr_demo.Prelude.{ℕ, Bool, List, Option, String, Text}
use tvastr_demo.Prelude.Dicts.{Dict}

pub data Severity : Type 0 where
  debug info warning error critical : Severity

pub data Sensitivity : Type 0 where
  public internal sensitive : Sensitivity

pub data FixRegister : Type 0 where
  repair fail_fast warn better_error document : FixRegister

pub record LogEvent : Type 0 where
  pub id : Text
  pub timestamp : ℕ
  pub service : Text
  pub severity : Severity
  pub message : Text
  pub stack_trace : Option Text
  pub attributes : Dict Text Text
  pub source : Text

pub record FailurePattern : Type 0 where
  pub id : Text
  pub fingerprint : Text
  pub title : Text
  pub representative_message : Text
  pub exception_type : Option Text
  pub count : ℕ
  pub sensitivity : Sensitivity
  pub first_seen : ℕ
  pub last_seen : ℕ
  pub sample_event_ids : List Text

-- `target` of a routing decision
pub data Target : Type 0 where
  local cloud : Target

-- `TaskType` of src/tvastr/llm/router.py, whose value a decision records
pub data TaskType : Type 0 where
  log_parsing summarization root_cause fix_generation pr_description : TaskType
  pr_analysis fix_comparison doc_grounding repro_critique schema_probe : TaskType

pub record RoutingDecision : Type 0 where
  pub task : TaskType
  pub target : Target
  pub model : Text
  pub sensitivity : Sensitivity
  pub reason : Text

pub record RootCause (Float : Type 0) : Type 0 where
  pub pattern_id : Text
  pub summary : Text
  pub suspected_files : List Text
  pub confidence : Float
  pub reasoning : Text

pub record FileChange : Type 0 where
  pub path : Text
  pub original_snippet : Option Text
  pub patched_content : Text
  pub rationale : Text
  pub diff : Option Text

pub record FixProposal : Type 0 where
  pub pattern_id : Text
  pub summary : Text
  pub changes : List FileChange
  pub test_plan : Text
  pub register : FixRegister

pub record PullRequestDraft : Type 0 where
  pub pattern_id : Text
  pub title : Text
  pub body : Text
  pub branch : Text
  pub base : Text
  pub changes : List FileChange

-- the identifier and the time of a record are drawn where it is made
pub record AuditRecord : Type 0 where
  pub pattern_id : Text
  pub pattern_title : Text
  pub routing : List RoutingDecision
  pub root_cause_summary : Option Text
  pub pull_request_url : Option Text
  pub outcome : String
  pub notes : Text

pub record PullRequestResult : Type 0 where
  pub pattern_id : Text
  pub url : Text
  pub number : Option ℕ
  pub branch : Text
  pub created : Bool
  pub mocked : Bool
  pub dry_run : Bool
