-- ===== src/Llm.antt =====
-- src/tvastr/llm/router.py: the hybrid router. A run leaves the sequence of what it did outside:
-- the events that it emitted and the calls of the two backends, which are arguments.
pub mod Boundary
use tvastr_demo.Prelude.{
  Bool, true, false, if◌then◌else◌, ◌&&◌, List, [], ◌∷◌, ◌++◌, map, Option, none, some, is_empty,
  Text, codes, String,
}
use tvastr_demo.Regex.{Regex}
use tvastr_demo.Domain.{
  Sensitivity, sensitive, Target, local, cloud, TaskType, log_parsing, summarization,
  RoutingDecision,
}
use tvastr_demo.Pii.{LocalModel, redact}

-- `LLMResponse` of src/tvastr/llm/base.py; `target` is the backend's
pub record Response : Type 0 where
  pub text : Text
  pub model : Text
  pub mocked : Bool
  pub sources : List Text

-- what a backend is asked
pub record Request : Type 0 where
  pub prompt : Text
  pub system : Option Text
  pub web_search : Bool

-- `LLMClient`: `none` is a call that raises
pub record Client : Type 0 where
  pub model : Text
  pub complete : Request → Option Response

-- what a run does outside the router, in order
pub data Action : Type 0 where
  -- the event `router.decide`, with the redacted labels
  decided : RoutingDecision → List String → Action
  -- `client.complete`
  called : Target → Request → Action
  -- the event `llm.call`, with the payload that was sent
  logged : TaskType → Target → Text → Option Text → Response → Action

pub record Router : Type 0 where
  pub local_client : Client
  pub cloud_client : Client

abbrev pub is_local_task : TaskType → Bool
is_local_task log_parsing = true
is_local_task summarization = true
is_local_task _ = false

-- The sensitivity is an argument of the source's method, which does not read it.
unfoldable pub route_target : TaskType → Sensitivity → Target
route_target task sensitivity = if is_local_task task then local else cloud

-- `", ".join(found)`
unfoldable pub join_labels : List String → Text
join_labels [] = []
join_labels (l ∷ []) = codes l
join_labels (l ∷ ls) = codes l ++ codes ", " ++ join_labels ls

abbrev pub is_sensitive : Sensitivity → Bool
is_sensitive sensitive = true
is_sensitive _ = false

unfoldable pub cloud_reason : List String → Sensitivity → Text
unfolding join_labels
cloud_reason found sensitivity =
    if is_empty found
    then (if is_sensitive sensitivity
        then codes "escalated to cloud (flagged sensitive, no raw PII matched)"
        else codes "escalated to cloud — complex reasoning, no sensitive data")
    else codes "escalated to cloud after redacting " ++ join_labels found

abbrev pub client_of : Router → Target → Client
client_of r local = r.local_client
client_of r cloud = r.cloud_client

-- the payload, the reason and the redacted labels
pub record Prepared : Type 0 where
  pub payload : Text
  pub reason : Text
  pub redacted : List String

unfoldable pub prepare : Regex → LocalModel → Target → Sensitivity → Text → Prepared
prepare re m local sensitivity prompt = record {
  payload = prompt;
  reason = codes "kept local — sensitive data must not leave the boundary";
  redacted = [];
}
prepare re m cloud sensitivity prompt =
    let (text, found) = redact re m prompt in
    record { payload = text; reason = cloud_reason found sensitivity; redacted = found }

abbrev pub is_cloud : Target → Bool
is_cloud local = false
is_cloud cloud = true

-- the part behind the call
unfoldable pub conclude :
    RoutingDecision
    → Request
    → List Action
    → Option Response
    → Option (Response × RoutingDecision) × List Action
conclude d q done none = (none, done)
conclude d q done (some r) = (some (r, d), done ++ logged d.task d.target q.prompt q.system r ∷ [])

-- `HybridRouter.run`; no result if the backend raises
unfoldable pub run :
    Regex
    → LocalModel
    → Router
    → TaskType
    → Text
    → Sensitivity
    → Option Text
    → Bool
    → Option (Response × RoutingDecision) × List Action
unfolding route_target prepare conclude
run re m router task prompt sensitivity system web_search =
    let target = route_target task sensitivity in
    let client = client_of router target in
    let p = prepare re m target sensitivity prompt in
    let d : RoutingDecision = record {
      task = task;
      target = target;
      model = client.model;
      sensitivity = sensitivity;
      reason = p.reason;
    } in
    let q : Request = record {
      prompt = p.payload;
      system = system;
      web_search = is_cloud target && web_search;
    } in
    conclude d q (decided d p.redacted ∷ called target q ∷ []) (client.complete q)
