-- ===== src/Analysis/Comparison.antt =====
-- src/tvastr/analysis/fix_comparison.py: a fix is graded against the pull request of a maintainer.
use tvastr_demo.Prelude.{
  Bool, false, not, if◌then◌else◌, contains, keep, take, map, List, [], ◌∷◌, ◌++◌, Option, none,
  some, Text, codes, text_eq, string_eq, default_to,
}
use tvastr_demo.Prelude.Dicts.{Dict, get}
use tvastr_demo.Prelude.Sorting.{sort}
use tvastr_demo.Prelude.Strings.{join, text_ltb}
use tvastr_demo.Prelude.Steps.{pure, raise, ◌>>=◌}
use tvastr_demo.Json.{Value, string, bool, Fields, truthy, to_text, field_or, find_field}
use tvastr_demo.Json.Extract.{extract_json}
use tvastr_demo.Domain.{FixProposal, FileChange, RoutingDecision, internal, fix_comparison}
use tvastr_demo.Agent.Prompts.{fix_comparison_system, comparison_prompt}
use tvastr_demo.Agent.Services.{Services, Node, ask_router, clamp, converted, refused, overflowed}
use tvastr_demo.Analysis.Discovery.{PullRequestRef, PrDiff, PrFile}

pub data Verdict : Type 0 where
  matches partial divergent : Verdict

pub data Equivalence : Type 0 where
  functionally_equivalent same_goal_different_approach addresses_different_cause : Equivalence

-- `_VERDICT_ALIASES`
abbrev pub verdict_aliases : Dict Text Verdict
verdict_aliases =
    (codes "match", matches)
    ∷ (codes "equivalent", matches)
    ∷ (codes "same", matches)
    ∷ (codes "functionally_equivalent", matches)
    ∷ (codes "partial", partial)
    ∷ (codes "weak", partial)
    ∷ (codes "weaker", partial)
    ∷ (codes "weak_equivalent", partial)
    ∷ (codes "partial_match", partial)
    ∷ (codes "divergent", divergent)
    ∷ (codes "different", divergent)
    ∷ (codes "not_equivalent", divergent)
    ∷ (codes "none", divergent)
    ∷ (codes "reject", divergent)
    ∷ (codes "incorrect", divergent)
    ∷ (codes "different_behavior", divergent)
    ∷ []

-- `_EQUIV_ALIASES`
abbrev pub equiv_aliases : Dict Text Equivalence
equiv_aliases =
    (codes "functionally_equivalent", functionally_equivalent)
    ∷ (codes "equivalent", functionally_equivalent)
    ∷ (codes "match", functionally_equivalent)
    ∷ (codes "same_goal_different_approach", same_goal_different_approach)
    ∷ (codes "partial", same_goal_different_approach)
    ∷ (codes "weak", same_goal_different_approach)
    ∷ (codes "weaker", same_goal_different_approach)
    ∷ (codes "weak_equivalent", same_goal_different_approach)
    ∷ (codes "addresses_different_cause", addresses_different_cause)
    ∷ (codes "different", addresses_different_cause)
    ∷ (codes "not_equivalent", addresses_different_cause)
    ∷ (codes "none", addresses_different_cause)
    ∷ (codes "reject", addresses_different_cause)
    ∷ (codes "incorrect", addresses_different_cause)
    ∷ (codes "different_behavior", addresses_different_cause)
    ∷ []

-- `_EQUIV_TO_VERDICT`
abbrev pub equiv_to_verdict : Equivalence → Verdict
equiv_to_verdict functionally_equivalent = matches
equiv_to_verdict same_goal_different_approach = partial
equiv_to_verdict addresses_different_cause = divergent

-- `_normalize`
unfoldable pub normalize : Text → Text → Bool → Verdict × Equivalence
normalize raw_verdict raw_equiv same_root_cause =
    let implied =
      if same_root_cause then same_goal_different_approach else addresses_different_cause in
    let equiv = default_to implied (get raw_equiv equiv_aliases) in
    (default_to (equiv_to_verdict equiv) (get raw_verdict verdict_aliases), equiv)

pub record FixComparison (Float : Type 0) : Type 0 where
  pub verdict : Verdict
  pub same_root_cause : Bool
  pub files_both : List Text
  pub files_ours_only : List Text
  pub files_theirs_only : List Text
  pub equivalence : Equivalence
  pub rationale : Text
  pub confidence : Float

-- `set(texts)`, with each element at its first place
unfoldable pub distinct : List Text → List Text → List Text
distinct [] out = out
distinct (t ∷ ts) out = distinct ts (if contains t out then out else out ++ t ∷ [])

-- the files of both, of ours only and of theirs only, sorted
unfoldable pub files_in_both : List Text → List Text → List Text
unfolding distinct
files_in_both ours theirs = sort text_ltb (keep (λ p. contains p theirs) (distinct ours []))

unfoldable pub files_in_one : List Text → List Text → List Text
unfolding distinct
files_in_one ours theirs = sort text_ltb (keep (λ p. not (contains p theirs)) (distinct ours []))

abbrev or_content : Option Text → Text → Text
or_content none content = take 800 content
or_content (some []) content = take 800 content
or_content (some (c ∷ s)) content = c ∷ s

unfoldable pub ours_blob : List FileChange → Text
ours_blob changes = join (codes "\n\n") (
    map
      (λ (c : FileChange).
        codes "--- " ++ (c.path ++ (codes "\n" ++ or_content c.diff c.patched_content)))
      changes)

unfoldable pub theirs_blob : List PrFile → Text
theirs_blob files =
    join (codes "\n\n")
      (map (λ (f : PrFile). codes "--- " ++ (f.filename ++ (codes "\n" ++ f.patch))) files)

module _ (o : Services) where
  -- the confidence of a response; an int that is too large for a float raises
  unfoldable confidence_or_zero : Option Value → Option o.Float
  confidence_or_zero none = some (clamp o o.zero)
  confidence_or_zero (some v) = elim (o.to_float v) [
    | converted x ↦ some (clamp o x)
    | refused ↦ some (clamp o o.zero)
    | overflowed ↦ none
  ]

  abbrev compared :
      List Text
      → List Text
      → Fields
      → Bool
      → Verdict × Equivalence
      → o.Float
      → FixComparison o.Float
  compared ours theirs parsed same (verdict, equiv) sure = record {
    verdict = verdict;
    same_root_cause = same;
    files_both = files_in_both ours theirs;
    files_ours_only = files_in_one ours theirs;
    files_theirs_only = files_in_one theirs ours;
    equivalence = equiv;
    rationale = to_text o.show (field_or "rationale" (string []) parsed);
    confidence = sure;
  }

  -- the part behind the call; a response that is not parsed counts as divergent
  unfoldable pub comparison_of :
      List Text → List Text → Option Fields → Option (FixComparison o.Float)
  unfolding confidence_or_zero
  comparison_of ours theirs none = some (record {
    verdict = divergent;
    same_root_cause = false;
    files_both = files_in_both ours theirs;
    files_ours_only = files_in_one ours theirs;
    files_theirs_only = files_in_one theirs ours;
    equivalence = addresses_different_cause;
    rationale = codes "Comparison response could not be parsed.";
    confidence = o.zero;
  })
  comparison_of ours theirs (some parsed) =
      let same = truthy (field_or "same_root_cause" (bool false) parsed) in
      let read =
        normalize (o.lower (to_text o.show (field_or "verdict" (string []) parsed)))
          (o.lower (to_text o.show (field_or "equivalence" (string []) parsed))) same in
      elim (confidence_or_zero (find_field "confidence" parsed)) [
        | none ↦ none
        | some sure ↦ some (compared ours theirs parsed same read sure)
      ]

  unfoldable pub returned :
      Option (FixComparison o.Float)
      → RoutingDecision
      → Node o (FixComparison o.Float × RoutingDecision)
  returned none decision = raise
  returned (some c) decision = pure (c, decision)

  abbrev pub our_paths : FixProposal → List Text
  our_paths fix = map FileChange.path fix.changes

  abbrev pub their_paths : PrDiff → List Text
  their_paths diff = map PrFile.filename diff.files

  -- `compare_fix_to_pr`
  unfoldable pub compare_fix_to_pr :
      Text
      → Text
      → FixProposal
      → PullRequestRef
      → PrDiff
      → Node o (FixComparison o.Float × RoutingDecision)
  compare_fix_to_pr title summary fix pr_ref pr_diff = do
    (response, decision) ← ask_router o (record {
      task = fix_comparison;
      prompt =
          comparison_prompt title summary (ours_blob fix.changes) (o.decimal pr_ref.number)
            (theirs_blob pr_diff.files)
            (
              o.repr_all (files_in_both (our_paths fix) (their_paths pr_diff)),
              o.repr_all (files_in_one (our_paths fix) (their_paths pr_diff)),
              o.repr_all (files_in_one (their_paths pr_diff) (our_paths fix)),
            );
      sensitivity = internal;
      system = some fix_comparison_system;
      web_search = false;
    })
    returned
        (comparison_of (our_paths fix) (their_paths pr_diff)
          (extract_json o.raw_decode response.text))
        decision
