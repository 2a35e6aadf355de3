-- ===== src/Tests/Reading.antt =====
-- A run read back by the verification route, and the theorem on it there.
use tvastr_demo.Prelude.{[], ◌∷◌, ◌++◌, All, none, some, Text, codes, ◌≡◌, refl, arith, contains}
use tvastr_demo.Prelude.Dicts.{get}
use tvastr_demo.Json.{string, Payload, lookup}
use tvastr_demo.Domain.{FailurePattern, FixProposal, document, internal}
use tvastr_demo.Events.{PipelineEvent}
use tvastr_demo.Api.Verify.{
  Reading, Rebuilt, Inputs, nothing_yet, read_events, read_event, note_agent, thin_pattern,
  reconstruct,
}
use tvastr_demo.Api.Rows.{HasUniquePaths, IsPlain}
use tvastr_demo.Api.Roundtrip.{fix_event, IsPassedOver, reconstruct-fix_event}

abbrev sample_reading : Reading
sample_reading = record {
  Float = Text;
  half = [];
  show = λ v. [];
  to_int = λ v. none;
  fresh = λ n. n ∷ [];
  now = 0;
}

abbrev two_changes : FixProposal
two_changes = record {
  pattern_id = codes "p1";
  summary = codes "swap";
  changes =
      record {
        path = codes "a.py";
        original_snippet = none;
        patched_content = codes "y = 1";
        rationale = codes "r";
        diff = some (codes "d");
      }
      ∷ record {
        path = codes "b.py";
        original_snippet = none;
        patched_content = codes "z";
        rationale = [];
        diff = none;
      }
      ∷ [];
  test_plan = codes "t";
  register = document;
}

two_changes-HasUniquePaths : HasUniquePaths two_changes.changes
two_changes-HasUniquePaths = (((λ e. ground (arith, e)), tt), (tt, tt))

two_changes-IsPlain : All IsPlain two_changes.changes
two_changes-IsPlain = ((refl, λ e. ground (arith, e)), ((refl, λ e. ground (arith, e)), tt))

abbrev event_with : Payload → PipelineEvent
event_with p = record {
  type = "agent.start";
  layer = "agent";
  step = "agent";
  payload = p;
  timestamp = [];
  run_id = none;
}

-- as the pipeline writes it
abbrev agent_start : PipelineEvent
agent_start = event_with (("pattern", string (codes "f1")) ∷ ("title", string (codes "boom")) ∷ [])

abbrev thin : FailurePattern
thin = record {
  id = 0 ∷ [];
  fingerprint = codes "run7";
  title = codes "boom";
  representative_message = codes "boom";
  exception_type = none;
  count = 1;
  sensitivity = internal;
  first_seen = 0;
  last_seen = 0;
  sample_event_ids = [];
}

abbrev started : Rebuilt sample_reading
started = record (nothing_yet sample_reading) { pattern = some thin; drawn = 1 }

-- the fingerprint of the pattern that is read back is the identifier of the run
read_events-started :
    read_events sample_reading (codes "run7") (agent_start ∷ []) (nothing_yet sample_reading)
    ≡ some started
unfolding read_events read_event note_agent thin_pattern lookup get
read_events-started = refl

abbrev ended : PipelineEvent
ended = record agent_start { type = "pipeline.end" }

ended-IsPassedOver : IsPassedOver ended
unfolding contains
ended-IsPassedOver = refl

reconstruct-fix_event_example :
    (i : Inputs sample_reading) × (reconstruct sample_reading
        (codes "run7")
        ((agent_start ∷ []) ++ fix_event [] none two_changes ∷ ended ∷ [])
      ≡ some (some i))
    × (i.pattern ≡ thin)
    × (i.fix ≡ record two_changes { pattern_id = thin.id })
reconstruct-fix_event_example =
    reconstruct-fix_event sample_reading (codes "run7") [] none two_changes (agent_start ∷ [])
      (ended ∷ []) started thin two_changes-HasUniquePaths two_changes-IsPlain read_events-started
      refl (ended-IsPassedOver, tt)
