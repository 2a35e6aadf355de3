-- ===== src/Llm/Boundary.antt =====
-- The boundary: what reaches the cloud backend, and what is recorded of it.
use tvastr_demo.Prelude.{◌≡◌, ◌≢◌, Bool, true, false, [], Option, All, Text, arith}
use tvastr_demo.Regex.{Regex, SearchesFirst}
use tvastr_demo.Domain.{Sensitivity, local, cloud, TaskType}
use tvastr_demo.Pii.{LocalModel, redact, contains_pii}
use tvastr_demo.Pii.Labels.{flagged_is_redacted}
use tvastr_demo.Llm.{Action, decided, called, logged, Router, is_local_task, run}

-- A cloud call carries the redaction of the prompt; the log of a cloud call repeats it; a local
-- task makes no cloud call at all.
abbrev pub RespectsBoundary : Regex → LocalModel → TaskType → Text → Action → Type 0
RespectsBoundary re m task prompt (decided d found) = Unit
RespectsBoundary re m task prompt (called local q) = is_local_task task ≡ true
RespectsBoundary re m task prompt (called cloud q) =
    (is_local_task task ≡ false) × (q.prompt ≡ (redact re m prompt).0)
RespectsBoundary re m task prompt (logged t local sent system r) = is_local_task task ≡ true
RespectsBoundary re m task prompt (logged t cloud sent system r) =
    (is_local_task task ≡ false) × (sent ≡ (redact re m prompt).0)

-- whatever the task, the sensitivity and the backends, and whether or not the call raises, each
-- cloud call and each log of one carry the redacted prompt, and a log-parsing or summarization
-- task reaches the local backend only.
pub run-RespectsBoundary :
    (re : Regex) (m : LocalModel) (router : Router) (task : TaskType) (prompt : Text)
    (sensitivity : Sensitivity) (system : Option Text) (web_search : Bool)
    → All
        (RespectsBoundary re m task prompt)
        (run re m router task prompt sensitivity system web_search).1
unfolding run
run-RespectsBoundary re m router task prompt sensitivity system web_search = ground arith

-- The event names what was replaced: a decision of a prompt that holds PII has a label.
abbrev pub NamesRedaction : Action → Type 0
NamesRedaction (decided d found) = (d.target ≡ cloud) × (found ≢ [])
NamesRedaction _ = Unit

-- for a task that goes to the cloud, a prompt that the regex layer flags is recorded as a cloud
-- decision with at least one redacted label, if `search` finds a match whenever `finditer` yields
-- one and only then.
pub flagged_prompt_is_recorded :
    (re : Regex) (laws : SearchesFirst re) (m : LocalModel) (router : Router) (task : TaskType)
    (prompt : Text) (sensitivity : Sensitivity) (system : Option Text) (web_search : Bool)
    → is_local_task task ≡ false
    → contains_pii re prompt ≡ true
    → All NamesRedaction (run re m router task prompt sensitivity system web_search).1
unfolding run
flagged_prompt_is_recorded re laws m router task prompt sensitivity system web_search escalated
      pii =
    ground (arith, flagged_is_redacted re laws m prompt pii)
