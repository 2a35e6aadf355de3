-- ===== src/Events.antt =====
-- src/tvastr/events.py: the events of a run, and the files that keep them. A line of a run file
-- stands for what `_parse_event_line` makes of it.
pub mod Sweep
pub mod Summary
use tvastr_demo.Prelude.{
  ℕ, Bool, true, false, ◌||◌, if◌then◌else◌, any, List, [], ◌∷◌, ◌++◌, map, Option, none, some,
  String, Text, ◌==◌, string_eq, ◌≡◌, refl, ap, ◌⊎◌, inl, inr,
}
use tvastr_demo.Json.{Payload}

pub record PipelineEvent : Type 0 where
  pub type : String
  pub layer : String
  pub step : String
  pub payload : Payload
  pub timestamp : Text
  pub run_id : Option Text

-- one line of a run file
pub data Line : Type 0 where
  blank malformed : Line
  event : PipelineEvent → Line

-- A file that cannot be read or written raises there. The last line may lack its newline, where a
-- write was cut off.
pub record RunFile : Type 0 where
  pub lines : List Line
  pub is_ended : Bool
  pub is_readable : Bool
  pub is_writable : Bool
  pub modified : ℕ

-- `_parse_event_line`
abbrev pub parse_event_line : Line → Option PipelineEvent
parse_event_line (event e) = some e
parse_event_line _ = none

unfoldable pub load_lines : List Line → List PipelineEvent
load_lines [] = []
load_lines (l ∷ ls) = elim (parse_event_line l) [
  | none ↦ load_lines ls
  | some e ↦ e ∷ load_lines ls
]

-- `load_events` of a file that exists; `none` is an `OSError`
unfoldable pub load_events : RunFile → Option (List PipelineEvent)
load_events f = if f.is_readable then some (load_lines f.lines) else none

-- a line without newline, with the text of an event behind it: no text but blanks has one object
-- of JSON behind it and is JSON
abbrev pub fuse : Line → PipelineEvent → Line
fuse blank e = event e
fuse _ e = malformed

unfoldable pub append_event : List Line → Bool → PipelineEvent → List Line
append_event [] is_ended e = event e ∷ []
append_event (l ∷ []) is_ended e = if is_ended then l ∷ event e ∷ [] else fuse l e ∷ []
append_event (l ∷ m ∷ ls) is_ended e = l ∷ append_event (m ∷ ls) is_ended e

-- `JsonlEventSink.emit`: the text of the event and a newline, behind what the file holds
unfoldable pub emit : PipelineEvent → RunFile → Option RunFile
emit e f =
    if f.is_writable
    then some (record f { lines = append_event f.lines f.is_ended e; is_ended = true })
    else none

-- `FanoutEventSink.emit`, over sinks that keep the files: a sink that raises misses the event
unfoldable pub fan_out : PipelineEvent → List RunFile → List RunFile
fan_out e [] = []
fan_out e (f ∷ fs) = elim (emit e f) [ none ↦ f ∷ fan_out e fs | some g ↦ g ∷ fan_out e fs ]

unfoldable pub is_terminal_event : PipelineEvent → Bool
is_terminal_event e =
    e.type == "pipeline.end" || (e.type == "pipeline.interrupted" || e.type == "error")

load_lines-append : (ls ms : List Line) → load_lines (ls ++ ms) ≡ load_lines ls ++ load_lines ms
unfolding load_lines
load_lines-append [] ms = refl
load_lines-append (blank ∷ ls) ms = load_lines-append ls ms
load_lines-append (malformed ∷ ls) ms = load_lines-append ls ms
load_lines-append (event e ∷ ls) ms = ap (◌∷◌ e) (load_lines-append ls ms)

pub load_lines-emit :
    (ls : List Line) (e : PipelineEvent) → load_lines (ls ++ event e ∷ []) ≡ load_lines ls ++ e ∷ []
unfolding load_lines
load_lines-emit ls e = load_lines-append ls (event e ∷ [])

pub append_event_ended :
    (ls : List Line) (e : PipelineEvent) → append_event ls true e ≡ ls ++ event e ∷ []
unfolding append_event
append_event_ended [] e = refl
append_event_ended (l ∷ []) e = refl
append_event_ended (l ∷ m ∷ ls) e = ap (◌∷◌ l) (append_event_ended (m ∷ ls) e)

-- what an event is to a file behind whose lines it is written: a line of its own, or a part of the
-- last line, which had no newline
abbrev pub Appends : PipelineEvent → List Line → Bool → List Line → Type 0
Appends e before is_ended after =
    (after ≡ before ++ event e ∷ [])
    ⊎ ((is_ended ≡ false)
        × (ls : List Line) × (l : Line) × (before ≡ ls ++ l ∷ [])
        × (after ≡ ls ++ fuse l e ∷ []))

pub Appends-ended :
    (e : PipelineEvent) (before : List Line) (is_ended : Bool) (after : List Line)
    → is_ended ≡ true
    → Appends e before is_ended after
    → after ≡ before ++ event e ∷ []
Appends-ended e before is_ended after h (inl a) = a
Appends-ended e before is_ended after h (inr (q, ls, l, b, a)) = absurd (cc)

pub append_event-Appends :
    (ls : List Line) (is_ended : Bool) (e : PipelineEvent)
    → Appends e ls is_ended (append_event ls is_ended e)
unfolding append_event
append_event-Appends [] is_ended e = inl refl
append_event-Appends (l ∷ []) true e = inl refl
append_event-Appends (l ∷ []) false e = inr (refl, [], l, refl, refl)
append_event-Appends (l ∷ m ∷ ls) is_ended e = elim (append_event-Appends (m ∷ ls) is_ended e) [
  | inl h ↦ inl (ap (◌∷◌ l) h)
  | inr (q, ks, k, b, a) ↦ inr (q, l ∷ ks, k, ap (◌∷◌ l) b, ap (◌∷◌ l) a)
]
