-- ===== src/Selfheal/Remediate/Escalation.antt =====
-- `build_escalation` of src/tvastr/selfheal/remediate.py: the summary of a wave.
pub mod Rows
use mathlib.Core.List.Perm
use mathlib.Core.List.{Perm, perm_middle, map-append}
use tvastr_demo.Prelude.{
  ℕ, ◌+◌, Bool, true, false, not, if◌then◌else◌, Bool-cases, Option-cases, keep, contains, is_empty,
  length, take, default_to, List, [], ◌∷◌, ◌++◌, map, Option, none, some, Text, codes, text_eq, ◌≡◌,
  ◌≢◌, ◌↔◌, ◌⊎◌, ◌==◌, refl, ap, ◌∙◌, arith, inl, inr, sym, subst, All, All-map, Any,
}
use tvastr_demo.Prelude.Dicts.{Dict, get, put, get-put}
use tvastr_demo.Prelude.Strings.{join}
use tvastr_demo.Json.{number, to_text}
use tvastr_demo.Selfheal.Scan.{Outside}
use tvastr_demo.Selfheal.Report.{RankedCluster, WeeklyReport, Kind, quality, ops}
use tvastr_demo.Selfheal.Remediate.{
  Status, pr_created, unverified, failed, skipped, FixOutcome, bare_outcome,
}

-- `{o.fingerprint: o for o in outcomes}` and `{c.fingerprint: c for c in report.to_fix}`
unfoldable pub outcomes_by_fingerprint :
    Dict Text FixOutcome → List FixOutcome → Dict Text FixOutcome
outcomes_by_fingerprint d [] = d
outcomes_by_fingerprint d (r ∷ rs) = outcomes_by_fingerprint (put r.fingerprint r d) rs

unfoldable pub clusters_by_fingerprint :
    Dict Text RankedCluster → List RankedCluster → Dict Text RankedCluster
clusters_by_fingerprint d [] = d
clusters_by_fingerprint d (c ∷ cs) = clusters_by_fingerprint (put c.fingerprint c d) cs

-- an outcome for each cluster to fix, and the outcomes of other clusters
unfoldable pub outcome_for : Dict Text FixOutcome → RankedCluster → FixOutcome
outcome_for d c = default_to (bare_outcome c none skipped) (get c.fingerprint d)

unfoldable pub others : List RankedCluster → List FixOutcome → List FixOutcome
others cs = keep (λ r. not (contains r.fingerprint (map RankedCluster.fingerprint cs)))

unfoldable pub attempted : WeeklyReport → List FixOutcome → List FixOutcome
attempted report outcomes =
    map (outcome_for (outcomes_by_fingerprint [] outcomes)) report.to_fix
    ++ others report.to_fix outcomes

abbrev pub is_pr_created : Status → Bool
is_pr_created pr_created = true
is_pr_created _ = false

unfoldable pub fixed : List FixOutcome → List FixOutcome
fixed = keep (λ r. is_pr_created r.status)

unfoldable pub unfixed : List FixOutcome → List FixOutcome
unfixed = keep (λ r. not (is_pr_created r.status))

abbrev pub status_text : Status → Text
status_text pr_created = codes "pr_created"
status_text unverified = codes "unverified"
status_text failed = codes "failed"
status_text skipped = codes "skipped"

abbrev pub kind_text : Kind → Text
kind_text quality = codes "quality"
kind_text ops = codes "ops"

-- `_run_link`; no run, or an empty id
abbrev pub run_link : Option Text → Text
run_link none = codes "(no run)"
run_link (some []) = codes "(no run)"
run_link (some (c ∷ s)) = codes "/api/runs/" ++ c ∷ s

abbrev pub fingerprint_token : Text → Text
fingerprint_token fp = codes "`" ++ (take 12 fp ++ codes "`")

module _ (o : Outside) where
  abbrev pub count_text : ℕ → Text
  count_text n = to_text o.show (number false n 0)

  -- ` (5x)`, of the cluster of an outcome
  abbrev pub times : Option RankedCluster → Text
  times none = []
  times (some c) = codes " (" ++ (count_text c.count ++ codes "x)")

  -- the URLs of a line: all of them, or the first, or what `str(None)` is
  abbrev pub urls_text : FixOutcome → Text
  urls_text r =
      if not (is_empty r.pr_urls)
      then join (codes ", ") r.pr_urls
      else elim r.pr_url [ none ↦ codes "None" | some url ↦ url ]

  unfoldable pub fixed_line : FixOutcome → Option RankedCluster → Text
  fixed_line r c =
      codes "• "
      ++ (r.title
          ++ (times c
              ++ (codes " — "
                  ++ (urls_text r ++ (codes " — " ++ fingerprint_token r.fingerprint)))))

  unfoldable pub unfixed_line : FixOutcome → Option RankedCluster → Text
  unfixed_line r c =
      codes "• "
      ++ (r.title
          ++ (times c
              ++ (codes " — "
                  ++ (status_text r.status
                      ++ (codes " — "
                          ++ (run_link r.run_id
                              ++ (codes " — " ++ fingerprint_token r.fingerprint)))))))

  unfoldable pub report_line : RankedCluster → Text
  report_line c =
      codes "• "
      ++ (c.title
          ++ (codes " ("
              ++ (count_text c.count
                  ++ (codes "x, "
                      ++ (kind_text c.kind ++ (codes ") — " ++ fingerprint_token c.fingerprint))))))

  unfoldable pub section : Text → List Text → List Text
  section heading lines =
      (codes "*" ++ (heading ++ (codes " (" ++ (count_text (length lines) ++ codes ")*"))))
      ∷ (if is_empty lines then codes "• (none)" ∷ [] else lines)

  abbrev pub totals_line : WeeklyReport → Text
  totals_line report =
      count_text (length report.to_fix + length report.report_only)
      ++ (codes " ranked cluster(s): "
          ++ (count_text (length report.to_fix)
              ++ (codes " fix candidate(s), "
                  ++ (count_text (length report.report_only)
                      ++ (codes " report-only ("
                          ++ (count_text (length report.days_scanned)
                              ++ codes " day(s) scanned)."))))))

  unfoldable pub build_escalation : WeeklyReport → List FixOutcome → List Text
  build_escalation report outcomes =
      let clusters = clusters_by_fingerprint [] report.to_fix in
      let rows = attempted report outcomes in
      (codes ":robot_face: tvastr self-heal — week " ++ report.week)
        ∷ totals_line report
        ∷ []
        ∷ section (codes "Fixed")
            (map (λ r. fixed_line r (get r.fingerprint clusters)) (fixed rows))
      ++ ([]
            ∷ section (codes "Not fixed")
                (map (λ r. unfixed_line r (get r.fingerprint clusters)) (unfixed rows))
          ++ ([] ∷ section (codes "Report-only") (map report_line report.report_only)))
