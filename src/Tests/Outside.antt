-- ===== src/Tests/Outside.antt =====
-- Concrete services for the agent: floats in hundredths, models whose answer is as sure as the world
-- says, and a host with one file.
use tvastr_demo.Prelude.{
  ℕ, zero, suc, ltb, leb, nat_beq, Bool, true, false, not, if◌then◌else◌, [], ◌∷◌, ◌++◌, Option,
  none, some, Text, codes, is_empty, ◌≡◌, refl, arith,
}
use tvastr_demo.Json.{Value, null, number, nan, string, array, object, end, item, field, close}
use tvastr_demo.Domain.{FailurePattern, RoutingDecision, internal, cloud}
use tvastr_demo.Integrations.{Call, CodeHost}
use tvastr_demo.Llm.{Response}
use tvastr_demo.Agent.Services.{
  Services, Conversion, converted, refused, overflowed, Context, Question,
}
use tvastr_demo.Agent.Fixes.{Parsing}
use tvastr_demo.Agent.Nodes.{State}
use tvastr_demo.Agent.Confidence.{FloatLaws}
use tvastr_demo.Pipeline.{Batch, initial_state}

-- a float is none (NaN) or a number of hundredths
abbrev below : Option ℕ → Option ℕ → Bool
below (some a) (some b) = ltb a b
below _ _ = false

abbrev at_most : Option ℕ → Option ℕ → Bool
at_most (some a) (some b) = leb a b
at_most _ _ = false

abbrev sample_float : Value → Conversion (Option ℕ)
sample_float (number false digits decimals) = converted (some digits)
sample_float nan = converted none
sample_float (number true digits decimals) = overflowed
sample_float _ = refused

-- the answer of the models: a root cause, as sure as the world says, and a fix
abbrev answer : Value → Value
answer confidence = object (
    field "root_cause" (string (codes "cause")) (
      field "confidence" confidence (
        field "summary" (string (codes "swap")) (
          field "changes"
            (array (
              item
                (object (
                  field "path" (string (codes "a.py")) (
                    field "search" (string (codes "x"))
                      (field "replace" (string (codes "y")) close))))
                end))
            close))))

abbrev confidence : ℕ → Value
confidence zero = number false 90 2
confidence (suc zero) = nan
confidence _ = number false 10 2

-- the text of an answer is a brace and how sure it is
abbrev sample_value : Text → Option Value
sample_value (b ∷ c ∷ _) = some (answer (confidence c))
sample_value _ = none

abbrev sized : Option Value → Option (Value × ℕ)
sized none = none
sized (some v) = some (v, 2)

abbrev sample_ask : Question → Call ℕ (Response × RoutingDecision)
sample_ask q w = (
  w,
  some (
    record { text = b'{' ∷ w ∷ []; model = codes "m"; mocked = true; sources = [] },
    record {
      task = q.task;
      target = cloud;
      model = codes "m";
      sensitivity = q.sensitivity;
      reason = codes "cloud";
    },
  ),
)

abbrev pub sample_services : Services
sample_services = record {
  World = ℕ;
  Float = Option ℕ;
  lt = below;
  le = at_most;
  zero = some 0;
  half = some 50;
  one = some 100;
  to_float = sample_float;
  float_value = λ x. null;
  raw_decode = λ s. sized (sample_value s);
  show = λ v. [];
  repr = λ s. s;
  repr_all = λ ss. [];
  decimal = λ n. n ∷ [];
  lower = λ s. s;
  unified_diff = λ path before after. before ++ after;
  splitlines = λ s. s ∷ [];
  class_starts = λ s. [];
  exception_text = codes "error";
  groups = λ p s. if is_empty s then [] else codes "a.py" ∷ [];
  ask = sample_ask;
  send = λ m w. (w, some true);
  save = λ r w. (w, some tt);
  now = λ w. w;
  isoformat = λ n. n ∷ [];
  fetch_sdk = λ name version w. (w, none);
}

below-asym : (a b : Option ℕ) → below a b ≡ true → below b a ≡ false
below-asym (some x) (some y) h = ground (arith, h)
below-asym (some x) none h = absurd (ground (arith, h))
below-asym none b h = absurd (ground (arith, h))

pub sample_services-FloatLaws : FloatLaws sample_services
sample_services-FloatLaws = record { asym = below-asym; zero_lt_one = refl }

abbrev pub sample_host : CodeHost ℕ
sample_host = record {
  search_code = λ q w. (w, some []);
  get_file = λ path w. (w, some (codes "x = 1"));
  list_dir = λ path w. (w, some []);
  get_file_at_ref = λ path sha w. (w, some none);
  list_dir_at_ref = λ path sha w. (w, some []);
  commit_before = λ date w. (w, some none);
  buggy_parent_sha = λ n w. (w, some none);
  open_pull_request = λ draft w. (
    w,
    some (record {
      pattern_id = draft.pattern_id;
      url = codes "u";
      number = some 1;
      branch = draft.branch;
      created = not (nat_beq w 1);
      mocked = false;
      dry_run = false;
    }),
  );
}

abbrev pub sample_context : Context sample_services
sample_context = record {
  code_host = sample_host;
  min_confidence = some 60;
  doc_grounding = false;
  issue_era_retrieval = true;
  sdk_schema_grounding = false;
}

abbrev pub sample_parsing : Parsing
sample_parsing = record { loads = sample_value; strip_fences = λ s. s; braces = λ s. none }

abbrev pub sample_pattern : FailurePattern
sample_pattern = record {
  id = codes "p1";
  fingerprint = codes "f1";
  title = codes "boom";
  representative_message = codes "boom";
  exception_type = none;
  count = 3;
  sensitivity = internal;
  first_seen = 1;
  last_seen = 5;
  sample_event_ids = [];
}

abbrev pub sample_batch : Batch sample_services
sample_batch = record {
  context = sample_context;
  parsing = sample_parsing;
  pr_ref = none;
  pr_diff = none;
  issue_body = some (codes "a.py");
}

abbrev pub sample_state : State sample_services
sample_state = initial_state sample_services sample_batch sample_pattern []
