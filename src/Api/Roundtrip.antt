-- ===== src/Api/Roundtrip.antt =====
-- What src/tvastr/api/routes/verify.py reads back of the event `fix.generated` of
-- src/tvastr/agent/graph.py.
use tvastr_demo.Prelude.{
  false, Option-cases, map, List, [], ◌∷◌, ◌++◌, Option, none, some, String, Text, text_eq,
  string_eq, ◌≡◌, refl, sym, ap, ◌∙◌, arith, inl, inr, All, contains,
}
use tvastr_demo.Prelude.Dicts.{Dict, get}
use tvastr_demo.Json.{Payload, texts, iterate, values_list, string, array, lookup}
use tvastr_demo.Domain.{RootCause, FailurePattern, FileChange, FixProposal}
use tvastr_demo.Events.{PipelineEvent}
use tvastr_demo.Agent.Nodes.{entries, diffs_of, text_dict, content_row, rationale_row, fix_payload}
use tvastr_demo.Api.Verify.{
  Reading, Rebuilt, Inputs, note_fix, or_guess, rebuilt_fix, read_event, read_events, reconstruct,
  inputs_of, nothing_yet,
}
use tvastr_demo.Api.Payloads.{
  ◌>>=◌, rows_of, diff_of, read_change, read_changes, or_bare, bare_changes, id_of,
}
use tvastr_demo.Api.Rows.{
  HasUniquePaths, IsPlain, IsUnique, strings, Reads, text_dict_unique, text_rows-entries,
  get-strings-none, get-strings, register_of_name, diffs_of-IsUnique, rows-IsUnique, changes-Reads,
}

rows_of-text_dict :
    (rows : List (Text × Text))
    → IsUnique rows
    → rows_of (array (entries (text_dict rows))) ≡ some (strings rows)
unfolding rows_of
rows_of-text_dict rows h = rw (text_dict_unique rows h) (text_rows-entries rows)

diff_of-get :
    (k : Text) (d : Option Text) (diffs : Dict Text Text)
    → get k diffs ≡ d
    → diff_of (get k (strings diffs)) ≡ some d
diff_of-get k none diffs h = rw (get-strings-none k diffs h) refl
diff_of-get k (some d) diffs h = rw (get-strings k d diffs h) refl

module _ (p : Payload) (rationales diffs : Dict Text Text) where
  read_change-Reads :
      (c : FileChange)
      → rows_of (lookup "rationales" p) ≡ some (strings rationales)
      → rows_of (lookup "diffs" p) ≡ some (strings diffs)
      → Reads rationales diffs c
      → IsPlain c
      → read_change p (c.path, string c.patched_content) ≡ some c
  unfolding read_change
  read_change-Reads c hr hd (a, b) (snippet, ne) =
      rw (hr, hd, get-strings c.path c.rationale rationales a, diff_of-get c.path c.diff diffs b)
        (ap (λ x. some (record c { original_snippet = x })) (sym snippet))

  read_changes-Reads :
      (cs : List FileChange)
      → rows_of (lookup "rationales" p) ≡ some (strings rationales)
      → rows_of (lookup "diffs" p) ≡ some (strings diffs)
      → All (Reads rationales diffs) cs
      → All IsPlain cs
      → read_changes p (strings (map content_row cs)) ≡ some cs
  unfolding read_changes
  read_changes-Reads [] hr hd h plain = refl
  read_changes-Reads (c ∷ cs) hr hd (a, h) (q, plain) =
      rw (read_change-Reads c hr hd a q, read_changes-Reads cs hr hd h plain) refl

or_bare-files :
    (p : Payload) (cs : List FileChange)
    → lookup "files" p ≡ array (texts (map FileChange.path cs))
    → or_bare p cs ≡ some cs
unfolding or_bare iterate values_list bare_changes
or_bare-files p [] h = rw h refl
or_bare-files p (c ∷ cs) h = refl

-- the event of a fix
abbrev pub fix_event : Text → Option Text → FixProposal → PipelineEvent
fix_event at run_id fix = record {
  type = "fix.generated";
  layer = "agent";
  step = "generate_fix";
  payload = fix_payload fix;
  timestamp = at;
  run_id = run_id;
}

changes_of-fix_payload :
    (fix : FixProposal)
    → HasUniquePaths fix.changes
    → All IsPlain fix.changes
    → read_changes (fix_payload fix) (strings (map content_row fix.changes)) ≡ some fix.changes
unfolding fix_payload lookup get
changes_of-fix_payload fix u plain =
    read_changes-Reads (fix_payload fix) (map rationale_row fix.changes) (diffs_of fix.changes)
      fix.changes (rows_of-text_dict _ (rows-IsUnique FileChange.rationale fix.changes u))
      (rows_of-text_dict _ (diffs_of-IsUnique fix.changes u)) (changes-Reads fix.changes u plain)
      plain

patched_rows :
    (fix : FixProposal)
    → HasUniquePaths fix.changes
    → rows_of (lookup "patched_files" (fix_payload fix))
      ≡ some (strings (map content_row fix.changes))
unfolding fix_payload lookup get
patched_rows fix u = rows_of-text_dict _ (rows-IsUnique FileChange.patched_content fix.changes u)

files_of-fix_payload :
    (fix : FixProposal) → or_bare (fix_payload fix) fix.changes ≡ some fix.changes
unfolding fix_payload lookup get
files_of-fix_payload fix = or_bare-files (fix_payload fix) fix.changes refl

-- the types of the events that the loop takes up
abbrev taken_up : List String
taken_up =
    "pipeline.start" ∷ "ingest.read" ∷ "detect.cluster" ∷ "agent.start" ∷ "benchmark.compared"
    ∷ "fix.generated" ∷ []

-- an event that the loop passes over
abbrev pub IsPassedOver : PipelineEvent → Type 0
IsPassedOver e = contains e.type taken_up ≡ false

module _ (r : Reading) where
  -- the proposal as it is read back: the identifier of the pattern is drawn anew
  abbrev pub read_back : FixProposal → Rebuilt r → FixProposal
  read_back fix s = record fix { pattern_id = id_of s.pattern }

  rebuilt_fix-fix_payload :
      (fix : FixProposal) (s : Rebuilt r)
      → rebuilt_fix r (fix_payload fix) fix.changes s ≡ read_back fix s
  unfolding fix_payload lookup get
  rebuilt_fix-fix_payload fix s =
      ap (λ x. record fix { pattern_id = id_of s.pattern; register = x })
        (register_of_name fix.register)

  -- the state behind the event of a fix
  abbrev behind_fix : FixProposal → Rebuilt r → Rebuilt r
  behind_fix fix s = record s {
    fix = some (read_back fix s);
    root_cause = some (or_guess r s.root_cause (fix_payload fix) fix.changes s);
  }

  note_fix-fix_event :
      (at : Text) (run_id : Option Text) (fix : FixProposal) (s : Rebuilt r)
      → HasUniquePaths fix.changes
      → All IsPlain fix.changes
      → note_fix r (fix_event at run_id fix) s ≡ some (behind_fix fix s)
  unfolding note_fix
  note_fix-fix_event at run_id fix s u plain =
      rw (patched_rows fix u, changes_of-fix_payload fix u plain, files_of-fix_payload fix)
        (ap (λ x. some (record (behind_fix fix s) { fix = some x }))
          (rebuilt_fix-fix_payload fix s))

  read_events-append :
      (run_id : Text) (es fs : List PipelineEvent) (s t : Rebuilt r)
      → read_events r run_id es s ≡ some t
      → read_events r run_id (es ++ fs) s ≡ read_events r run_id fs t
  unfolding read_events
  read_events-append run_id [] fs s t h = ap (read_events r run_id fs) (ground (arith, h))
  read_events-append run_id (e ∷ es) fs s t h = elim (Option-cases (read_event r run_id e s)) [
    | inl q ↦ absurd (ground (arith, q, h))
    | inr (u, q) ↦
        rw q (
          read_events-append run_id es fs u t (sym (ap (λ x. x >>= read_events r run_id es) q) ∙ h))
  ]

  read_event-passed :
      (run_id : Text) (e : PipelineEvent) (s : Rebuilt r)
      → IsPassedOver e
      → read_event r run_id e s ≡ some s
  unfolding read_event contains
  read_event-passed run_id e s h = ground (arith, h)

  read_events-passed :
      (run_id : Text) (fs : List PipelineEvent) (s : Rebuilt r)
      → All IsPassedOver fs
      → read_events r run_id fs s ≡ some s
  unfolding read_events
  read_events-passed run_id [] s h = refl
  read_events-passed run_id (e ∷ fs) s (p, h) =
      rw (read_event-passed run_id e s p) (read_events-passed run_id fs s h)

  read_event-fix_event :
      (id : Text) (at : Text) (run_id : Option Text) (fix : FixProposal) (s : Rebuilt r)
      → HasUniquePaths fix.changes
      → All IsPlain fix.changes
      → read_event r id (fix_event at run_id fix) s ≡ some (behind_fix fix s)
  unfolding read_event
  read_event-fix_event id at run_id fix s u plain = note_fix-fix_event at run_id fix s u plain

  inputs_of-some :
      (q : Option FailurePattern) (p : FailurePattern) (rc : RootCause r.Float) (fix : FixProposal)
      (s : Rebuilt r)
      → q ≡ some p
      → (i : Inputs r) × (inputs_of r q (some rc) (some fix) s ≡ some i)
        × (i.pattern ≡ p)
        × (i.fix ≡ fix)
  unfolding inputs_of
  inputs_of-some none p rc fix s e = absurd (cc)
  inputs_of-some (some q) p rc fix s e = (_, refl, ground (arith, e), refl)

  read_back-id :
      (fix : FixProposal) (s : Rebuilt r) (p : FailurePattern)
      → s.pattern ≡ some p
      → read_back fix s ≡ record fix { pattern_id = p.id }
  read_back-id fix s p e = ap (λ q. record fix { pattern_id = id_of q }) e

  -- if the events before the event of a fix are read without an exception and give a pattern, the
  -- events behind it are of types that the loop passes over, and the changes of the fix have
  -- different paths, no snippet and no empty diff, then the reconstruction of the run returns
  -- that pattern and the fix as it was: its summary, all changes in their order with content,
  -- rationale and diff, its test plan and its register; only the identifier of the pattern is
  -- drawn anew.
  pub reconstruct-fix_event :
      (id : Text) (at : Text) (run_id : Option Text) (fix : FixProposal)
      (es fs : List PipelineEvent) (s : Rebuilt r) (p : FailurePattern)
      → HasUniquePaths fix.changes
      → All IsPlain fix.changes
      → read_events r id es (nothing_yet r) ≡ some s
      → s.pattern ≡ some p
      → All IsPassedOver fs
      → (i : Inputs r) × (reconstruct r id (es ++ fix_event at run_id fix ∷ fs) ≡ some (some i))
        × (i.pattern ≡ p)
        × (i.fix ≡ record fix { pattern_id = p.id })
  unfolding reconstruct read_events
  reconstruct-fix_event id at run_id fix es fs s p u plain h e passed =
      let (i, a, b, c) =
        inputs_of-some s.pattern p (or_guess r s.root_cause (fix_payload fix) fix.changes s)
          (read_back fix s) (behind_fix fix s) e in
      (
        i,
        rw
            (
              read_events-append id es (fix_event at run_id fix ∷ fs) (nothing_yet r) s h,
              read_event-fix_event id at run_id fix s u plain,
              read_events-passed id fs (behind_fix fix s) passed,
            )
            (ap some a),
        b,
        c ∙ read_back-id fix s p e,
      )
