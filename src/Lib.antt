-- ===== src/Lib.antt =====
-- tvastr watches application logs for recurring failures, traces each one to its root cause and
-- opens a pull request that fixes it (src/tvastr). This library models its core in the order of
-- the data flow, and proves what makes each part correct.
--
-- * Pii (Resolve, Floor, Splice, Labels) is src/tvastr/pii: `_regex_candidates`, `model_spans`,
--   `_resolve`, `redact` and `contains_pii`. A text is a list of code points and a span two
--   offsets. Python's `re` is the record Regex, and the Presidio engine a function: neither is
--   code of the repository.
-- * Llm (Boundary) is src/tvastr/llm/router.py: `HybridRouter.run`. The two backends are
--   arguments; a run returns its result and the list of what it did outside (events and calls),
--   so that a statement can range over all of it. `none` stands for a call that raises.
-- * Detection (Clustering, Detector, Threshold, with the proofs in Grouping, Privacy and Dedup)
--   is src/tvastr/detection: `fingerprint`, `cluster_events`, `FailureDetector.detect` and
--   `ThresholdEngine`. A Python dict is an association list in insertion order (Prelude.Dicts),
--   `sorted` a stable insertion sort (Prelude.Sorting). SHA-1, `str.lower` and the identifiers
--   drawn for patterns are arguments. An instant is a number of seconds.
-- * Events (Sweep, Summary) is src/tvastr/events.py. A run file is a list of lines, each one
--   blank, malformed or an event, as `_parse_event_line` finds it, with flags that say whether it
--   can be read and written, and whether its last line has its newline: an event that is appended
--   behind a last line without one fuses with it. Json has the values of a payload with Python's
--   truth and equality tests.
-- * Runner is src/tvastr/runner.py: `start_pipeline_thread` as the state while the thread runs
--   and the one behind it. The body of a run is an argument that changes the run's file and may
--   raise.
-- * Selfheal is src/tvastr/selfheal. Scan is scan.py (the proofs in Guard); how Python shows a
--   number, the parser of instants, the time and the identifiers drawn are the record Outside.
--   Report is report.py (Merging, Ranking), with scores in hundredths. Scheduler is scheduler.py
--   (Firing, Saving), with a day as its ordinal. Remediate is remediate.py (Outcomes, Escalation
--   with its proofs in Rows): the run files are the state of the wave, and what starts a run is
--   an argument that changes them and may raise.
-- * Verification (Paths, Judge, Sandbox, Overlay, Cycle, Loop, with the proofs in Soundness and
--   Handles) is src/tvastr/verification: models.py, verifier.py, and the parts of sandbox.py and
--   regression.py that they use. A container is the record Sandbox, whose methods say what they
--   make of a handle. A step of `_run_cycle` works on a handle and a trace and may raise; the
--   repair loop leaves the list of its moves, in which the handles are numbered. Its bound is the
--   three passes of the source.
-- * Agent is src/tvastr/agent: context.py (Services), tools/code_retrieval.py,
--   tools/github_search.py and retrieval/issue_extract.py (Retrieval), the investigation and the
--   other nodes of graph.py (Investigate, Nodes, Graph), sdk_schema.py (Schema),
--   tools/fix_generation.py (Edits, Fixes) and the prompts (Prompts). A node is a step
--   (Prelude.Steps): it works on the world outside, leaves the sequence of its actions, and may
--   raise. What is outside (the router, the code host, the notifier, pip, floats, Python's text
--   functions) is the record Services, the regular expressions of a response the record Parsing.
--   The proofs are in Confidence, Uses and Bounds (the investigation), Ordinary and Gate (the
--   graph), EditSafety and FixSafety (the fix). An investigation has the four rounds of the
--   source, so it recurs on the rounds that are left.
-- * Analysis (Discovery, Comparison, with the proofs in Choice) is src/tvastr/analysis:
--   pr_discovery.py, with the cache as an argument and a result, and fix_comparison.py.
--   Json.Extract is analysis/_jsonutil.py, with `JSONDecoder.raw_decode` as an argument.
-- * Integrations is the protocol CodeHost of src/tvastr/agent/context.py and
--   src/tvastr/integrations/issue_era_host.py.
-- * Pipeline (with the proofs in Settled) is src/tvastr/pipeline.py: `RemediationPipeline.run`,
--   whose state is the threshold engine and the code host of the agent. It composes Detection and
--   Agent.
-- * Api (Payloads, Verify, with the proofs in Rows and Roundtrip) is
--   src/tvastr/api/routes/verify.py: `_reconstruct_from_run`, which reads the inputs of a
--   verification back from the events of a run. The other routes are not modelled.
-- * Domain is src/tvastr/domain/models.py. A float is a type parameter, since there are no floats
--   here.
-- * Prelude holds what all share: steps that may raise (Steps) and their two logics: what each
--   action keeps to (Does), and the phases that a run goes through (Phases), Boolean tests,
--   lists, equality by instances, sorting, dictionaries and string methods. Tests holds concrete
--   inputs, tests of the definitions, and the theorems at those inputs.
--
-- Every loop of the modelled code runs over a finite collection, so all recursions are
-- structural; the repair loop of the verifier recurs on the number of passes that are left.
-- Logging and the thread locks around single operations are not modelled. Not modelled either are
-- the synthesis of reproducers and the ingestion of issues and logs, whose results are arguments
-- here, the audit stores, the network clients, the other HTTP routes, the command line and the
-- settings, which are glue.
pub mod Prelude
pub mod Regex
pub mod Pii
pub mod Domain
pub mod Json
pub mod Events
pub mod Runner
pub mod Selfheal
pub mod Llm
pub mod Detection
pub mod Verification
pub mod Agent
pub mod Integrations
pub mod Analysis
pub mod Pipeline
pub mod Tests
pub mod Api
