-- ===== src/Selfheal/Remediate/Outcomes.antt =====
-- What the fix wave of src/tvastr/selfheal/remediate.py reports, on every path.
use tvastr_demo.Prelude.{
  ℕ, ◌+◌, true, false, not, ◌&&◌, ◌||◌, any, contains, Option-cases, ◌∙◌, Pairwise-concat, String,
  List, [], ◌∷◌, ◌++◌, map, ap, Option, none, some, Text, text_eq, string_eq, ◌==◌, ◌≡◌, ◌≢◌, ◌↔◌,
  refl, arith, sym, default_to, subst, ◌⊎◌, inl, inr, Bool, is_some, is_empty, Pairwise, All,
  Bool-cases,
}
use tvastr_demo.Prelude.Dicts.{Dict, get}
use tvastr_demo.Json.{Value, truthy, to_text, lookup}
use tvastr_demo.Events.{PipelineEvent, RunFile, is_terminal_event}
use tvastr_demo.Selfheal.Scan.{Outside}
use tvastr_demo.Selfheal.Report.{RankedCluster, WeeklyReport}
use tvastr_demo.Selfheal.Remediate.{
  pr_created, failed, skipped, FixOutcome, url_of, add_url, add_urls, pr_urls, status_of,
  read_outcome, events_of, bare_outcome, Settings, StartRun, Draw, settle, attempt, attempts,
  run_fix_wave, touch, first, id_of_run, run_meta, self_run_settings, representative_events,
}

-- the event tells of a pull request, under the URL
abbrev pub names_url : (Value → Text) → Text → PipelineEvent → Bool
names_url show url e =
    (e.type == "pr.opened"
      && (truthy (lookup "url" e.payload) && to_text show (lookup "url" e.payload) == url))
    || (e.type == "audit.saved"
        && (truthy (lookup "pull_request_url" e.payload)
            && to_text show (lookup "pull_request_url" e.payload) == url))

-- a pull request was opened, an error occurred, the run is over
abbrev pub opens : PipelineEvent → Bool
opens e =
    (e.type == "pr.opened" && truthy (lookup "url" e.payload))
    || (e.type == "audit.saved" && truthy (lookup "pull_request_url" e.payload))

abbrev pub opens_pr : List PipelineEvent → Bool
opens_pr = any opens

abbrev pub has_error : List PipelineEvent → Bool
has_error = any (λ e. e.type == "error")

-- The URLs are those that the events name, each once, and the first one is told.
abbrev pub HasUrls : (Value → Text) → FixOutcome → List PipelineEvent → Type 0
HasUrls show r es =
    ((url : Text) → contains url r.pr_urls ≡ any (names_url show url) es)
    × Pairwise (λ a b. a ≢ b) r.pr_urls
    × (r.pr_url ≡ first r.pr_urls)

-- The outcome says of the events of its run what they say.
abbrev pub Reports : (Value → Text) → FixOutcome → List PipelineEvent → Type 0
Reports show r es =
    ((r.status ≡ pr_created) ↔ (opens_pr es ≡ true))
    × ((r.status ≡ failed)
        ↔ ((opens_pr es ≡ false) × ((has_error es || not (any is_terminal_event es)) ≡ true)))
    × (is_some r.pr_url ≡ opens_pr es)
    × HasUrls show r es
    × (r.status ≢ skipped)

opened_is_unsaved : (t : String) → (t == "pr.opened") ≡ true → (t == "audit.saved") ≡ false
opened_is_unsaved t h =
    subst (λ x. (x == "audit.saved") ≡ false) (sym ((string_eq.same_iff t "pr.opened").0 h)) refl

truthy-url_of : (e : PipelineEvent) → truthy (url_of e) ≡ opens e
unfolding url_of
truthy-url_of e = elim (Bool-cases (e.type == "pr.opened")) [
  | inl p ↦ ground (arith, p, opened_is_unsaved e.type p)
  | inr p ↦ elim (Bool-cases (e.type == "audit.saved")) [
    | inl q ↦ ground (arith, p, q)
    | inr q ↦ ground (arith, p, q)
  ]
]

names_url-url_of :
    (show : Value → Text) (url : Text) (e : PipelineEvent)
    → names_url show url e ≡ (truthy (url_of e) && to_text show (url_of e) == url)
unfolding url_of
names_url-url_of show url e = elim (Bool-cases (e.type == "pr.opened")) [
  | inl p ↦ ground (arith, p, opened_is_unsaved e.type p)
  | inr p ↦ elim (Bool-cases (e.type == "audit.saved")) [
    | inl q ↦ ground (arith, p, q)
    | inr q ↦ ground (arith, p, q)
  ]
]

contains-concat :
    (url u : Text) (urls : List Text)
    → contains url (urls ++ u ∷ []) ≡ (contains url urls || u == url)
unfolding contains
contains-concat url u [] = ground (arith, text_eq.same_iff url u, text_eq.same_iff u url)
contains-concat url u (x ∷ urls) = ground (arith, contains-concat url u urls)

contains-add_url :
    (show : Value → Text) (url : Text) (urls : List Text) (e : PipelineEvent)
    → contains url (add_url show urls e) ≡ (contains url urls || names_url show url e)
unfolding add_url
contains-add_url show url urls e = ground (
  arith,
  names_url-url_of show url e,
  text_eq.same_iff (to_text show (url_of e)) url,
  contains-concat url (to_text show (url_of e)) urls,
)

contains-add_urls :
    (show : Value → Text) (url : Text) (urls : List Text) (es : List PipelineEvent)
    → contains url (add_urls show urls es) ≡ (contains url urls || any (names_url show url) es)
unfolding add_urls any
contains-add_urls show url urls [] = ground arith
contains-add_urls show url urls (e ∷ es) =
    ground
      (arith, contains-add_urls show url (add_url show urls e) es, contains-add_url show url urls e)

absent-All : (u : Text) (urls : List Text) → contains u urls ≡ false → All (λ x. x ≢ u) urls
unfolding contains
absent-All u [] h = tt
absent-All u (x ∷ urls) h = (
  λ q. absurd (ground (arith, h, text_eq.same_iff u x, q)),
  absent-All u urls (ground (arith, h)),
)

concat-IsUnique :
    (urls : List Text) (u : Text)
    → contains u urls ≡ false
    → Pairwise (λ a b. a ≢ b) urls
    → Pairwise (λ a b. a ≢ b) (urls ++ u ∷ [])
concat-IsUnique urls u h p = Pairwise-concat (λ a b. a ≢ b) urls u p (absent-All u urls h)

add_url-IsUnique :
    (show : Value → Text) (urls : List Text) (e : PipelineEvent)
    → Pairwise (λ a b. a ≢ b) urls
    → Pairwise (λ a b. a ≢ b) (add_url show urls e)
unfolding add_url
add_url-IsUnique show urls e p =
    elim (Bool-cases (truthy (url_of e) && not (contains (to_text show (url_of e)) urls))) [
      | inl q ↦ rw q (concat-IsUnique urls (to_text show (url_of e)) (ground (arith, q)) p)
      | inr q ↦ rw q p
    ]

add_urls-IsUnique :
    (show : Value → Text) (urls : List Text) (es : List PipelineEvent)
    → Pairwise (λ a b. a ≢ b) urls
    → Pairwise (λ a b. a ≢ b) (add_urls show urls es)
unfolding add_urls
add_urls-IsUnique show urls [] p = p
add_urls-IsUnique show urls (e ∷ es) p =
    add_urls-IsUnique show (add_url show urls e) es (add_url-IsUnique show urls e p)

is_empty-concat : (xs : List Text) (y : Text) → is_empty (xs ++ y ∷ []) ≡ false
is_empty-concat [] y = refl
is_empty-concat (x ∷ xs) y = refl

contains-is_empty : (x : Text) (xs : List Text) → contains x xs ≡ true → is_empty xs ≡ false
unfolding contains
contains-is_empty x [] h = cc
contains-is_empty x (y ∷ xs) h = refl

is_empty-add_url :
    (show : Value → Text) (urls : List Text) (e : PipelineEvent)
    → is_empty (add_url show urls e) ≡ (is_empty urls && not (opens e))
unfolding add_url
is_empty-add_url show urls e = ground (
  arith,
  truthy-url_of e,
  is_empty-concat urls (to_text show (url_of e)),
  contains-is_empty (to_text show (url_of e)) urls,
)

is_empty-add_urls :
    (show : Value → Text) (urls : List Text) (es : List PipelineEvent)
    → is_empty (add_urls show urls es) ≡ (is_empty urls && not (opens_pr es))
unfolding add_urls any
is_empty-add_urls show urls [] = ground arith
is_empty-add_urls show urls (e ∷ es) =
    ground (arith, is_empty-add_urls show (add_url show urls e) es, is_empty-add_url show urls e)

is_empty-pr_urls :
    (show : Value → Text) (es : List PipelineEvent) → is_empty (pr_urls show es) ≡ not (opens_pr es)
unfolding pr_urls
is_empty-pr_urls show es = is_empty-add_urls show [] es

is_some-first : (us : List Text) → is_some (first us) ≡ not (is_empty us)
is_some-first [] = refl
is_some-first (u ∷ us) = refl

-- the outcome of an attempt that did not get as far as a run whose events can be read
abbrev pub Failed : RankedCluster → Text → FixOutcome → Type 0
Failed c run_id r = r ≡ bare_outcome c (some run_id) failed

-- the outcome is about the cluster and the run, and reports the events of the run
abbrev pub Tells : (Value → Text) → RankedCluster → Text → FixOutcome → List PipelineEvent → Type 0
Tells show c run_id r es =
    (r.fingerprint ≡ c.fingerprint)
    × (r.title ≡ c.title)
    × (r.run_id ≡ some run_id)
    × Reports show r es

-- what is said of a run that was started, or raised, by the files that it leaves
abbrev pub IsSettled :
    (Value → Text) → RankedCluster → Text → Dict Text RunFile → Option Text → FixOutcome → Type 0
IsSettled show c run_id files none r = Failed c run_id r
IsSettled show c run_id files (some id) r =
    ((events_of (get (id_of_run id run_id) files) ≡ none) × Failed c run_id r)
    ⊎ ((es : List PipelineEvent) × (events_of (get (id_of_run id run_id) files) ≡ some es)
        × Tells show c (id_of_run id run_id) r es)

-- what is said of one attempt: a file that cannot be made starts no run
abbrev pub IsHonest :
    Outside
    → StartRun
    → Settings
    → RankedCluster
    → Draw
    → Dict Text RunFile
    → Option (Dict Text RunFile)
    → Dict Text RunFile × FixOutcome
    → Type 0
IsHonest o start_run s c draw runs none (after, r) = (after ≡ runs) × Failed c draw.run_id r
IsHonest o start_run s c draw runs (some touched) (after, r) =
    let (files, id) =
      start_run (representative_events o c) (run_meta s c draw.run_id) s draw.run_id touched in
    (after ≡ files) × IsSettled o.show c draw.run_id files id r

pr_urls-HasUrls :
    (show : Value → Text) (r : FixOutcome) (es : List PipelineEvent)
    → r.pr_url ≡ first (pr_urls show es)
    → r.pr_urls ≡ pr_urls show es
    → HasUrls show r es
unfolding pr_urls contains
pr_urls-HasUrls show r es u us = (
  λ url. ap (contains url) us ∙ contains-add_urls show url [] es,
  subst (Pairwise (λ a b. a ≢ b)) (sym us) (add_urls-IsUnique show [] es tt),
  ground (arith, u, us),
)

status_of-Reports :
    (show : Value → Text) (r : FixOutcome) (es : List PipelineEvent)
    → r.status ≡ status_of (pr_urls show es) es
    → r.pr_url ≡ first (pr_urls show es)
    → r.pr_urls ≡ pr_urls show es
    → Reports show r es
unfolding status_of
status_of-Reports show r es s u us =
    let h = is_empty-pr_urls show es in
    (
      ground (arith, h, s),
      ground (arith, h, s),
      ground (arith, is_some-first (pr_urls show es), h, u),
      pr_urls-HasUrls show r es u us,
      ground (arith, h, s),
    )

module _ (show : Value → Text) (c : RankedCluster) (run_id : Text) (files : Dict Text RunFile) where
  unread : events_of (get run_id files) ≡ none → read_outcome show c run_id files ≡ none
  unfolding read_outcome
  unread q = rw (q, read_outcome) refl

  read_outcome-some :
      (es : List PipelineEvent)
      → events_of (get run_id files) ≡ some es
      → (r : FixOutcome) × (read_outcome show c run_id files ≡ some r)
  unfolding read_outcome
  read_outcome-some es q = rw (q, read_outcome) (_, refl)

  read_outcome-Tells :
      (es : List PipelineEvent) (r : FixOutcome)
      → events_of (get run_id files) ≡ some es
      → read_outcome show c run_id files ≡ some r
      → Tells show c run_id r es
  unfolding read_outcome
  read_outcome-Tells es r q h = (
    ground (arith, q, h),
    ground (arith, q, h),
    ground (arith, q, h),
    status_of-Reports show r es (ground (arith, q, h)) (ground (arith, q, h))
        (ground (arith, q, h)),
  )

bare_fingerprints :
    (cs : List RankedCluster)
    → map FixOutcome.fingerprint (map (λ c. bare_outcome c none skipped) cs)
      ≡ map RankedCluster.fingerprint cs
bare_fingerprints [] = refl
bare_fingerprints (c ∷ cs) = ap (◌∷◌ c.fingerprint) (bare_fingerprints cs)

module _ (o : Outside) (start_run : StartRun) where
  settle-IsSettled :
      (c : RankedCluster) (run_id : Text) (files : Dict Text RunFile) (id : Option Text)
      → let (after, r) = settle o start_run c run_id (files, id) in
        (after ≡ files) × IsSettled o.show c run_id files id r
  unfolding settle
  settle-IsSettled c run_id files none = (refl, refl)
  settle-IsSettled c run_id files (some id) =
      let place = id_of_run id run_id in
      let fallback = bare_outcome c (some run_id) failed in
      elim (Option-cases (events_of (get place files))) [
        | inl q ↦ (refl, inl (q, ap (default_to fallback) (unread o.show c place files q)))
        | inr (es, q) ↦
            let (r, h) = read_outcome-some o.show c place files es q in
            (
              refl,
              inr (
                es,
                q,
                subst (λ x. Tells o.show c place (default_to fallback x) es) (sym h)
                    (read_outcome-Tells o.show c place files es r q h),
              ),
            )
      ]

  attempt_touched :
      (s : Settings) (c : RankedCluster) (draw : Draw) (runs touched : Dict Text RunFile)
      → touch draw.run_id draw.can_touch o.now runs ≡ some touched
      → attempt o start_run s c draw runs
        ≡ settle o start_run c draw.run_id
            (start_run (representative_events o c) (run_meta s c draw.run_id) s draw.run_id touched)
  unfolding attempt
  attempt_touched s c draw runs touched q = rw (q, attempt) refl

  -- if the file of a run cannot be made, an attempt changes no file and its outcome is a bare
  -- failure. Otherwise it leaves the files that the run leaves; the outcome is a bare failure if
  -- the run raises or its file cannot be read; and else it has the fingerprint and title of the
  -- cluster and the identifier of the run, and agrees with the events in the file: it says that a
  -- pull request was created exactly if one was opened, also if an error followed; it says failed
  -- exactly if none was and there is an error or no terminal event; it never says skipped; and
  -- its URLs are exactly those that the events of pull requests name, each once, the first of
  -- which is its URL.
  pub attempt-IsHonest :
      (s : Settings) (c : RankedCluster) (draw : Draw) (runs : Dict Text RunFile)
      → IsHonest o start_run s c draw runs
          (touch draw.run_id draw.can_touch o.now runs)
          (attempt o start_run s c draw runs)
  unfolding attempt
  attempt-IsHonest s c draw runs =
      elim (Option-cases (touch draw.run_id draw.can_touch o.now runs)) [
        | inl q ↦ rw (q, attempt) (refl, refl)
        | inr (touched, q) ↦
            let (files, id) =
              start_run (representative_events o c) (run_meta s c draw.run_id) s draw.run_id
                touched in
            rw (attempt_touched s c draw runs touched q, q)
              (settle-IsSettled c draw.run_id files id)
      ]

  IsSettled-fingerprint :
      (c : RankedCluster) (run_id : Text) (files : Dict Text RunFile) (id : Option Text)
      (r : FixOutcome)
      → IsSettled o.show c run_id files id r
      → r.fingerprint ≡ c.fingerprint
  IsSettled-fingerprint c run_id files none r h = ap FixOutcome.fingerprint h
  IsSettled-fingerprint c run_id files (some id) r (inl (q, h)) = ap FixOutcome.fingerprint h
  IsSettled-fingerprint c run_id files (some id) r (inr (es, q, h)) = h.0

  IsHonest-fingerprint :
      (s : Settings) (c : RankedCluster) (draw : Draw) (runs : Dict Text RunFile)
      (t : Option (Dict Text RunFile)) (p : Dict Text RunFile × FixOutcome)
      → IsHonest o start_run s c draw runs t p
      → p.1.fingerprint ≡ c.fingerprint
  IsHonest-fingerprint s c draw runs none p (e, h) = ap FixOutcome.fingerprint h
  IsHonest-fingerprint s c draw runs (some touched) p (e, h) =
      let (files, id) =
        start_run (representative_events o c) (run_meta s c draw.run_id) s draw.run_id touched in
      IsSettled-fingerprint c draw.run_id files id p.1 h

  attempt-fingerprint :
      (s : Settings) (c : RankedCluster) (draw : Draw) (runs : Dict Text RunFile)
      → (attempt o start_run s c draw runs).1.fingerprint ≡ c.fingerprint
  attempt-fingerprint s c draw runs =
      IsHonest-fingerprint s c draw runs (touch draw.run_id draw.can_touch o.now runs)
        (attempt o start_run s c draw runs) (attempt-IsHonest s c draw runs)

  attempts-fingerprints :
      (s : Settings) (draw : ℕ → Draw) (place : ℕ) (cs : List RankedCluster)
      (runs : Dict Text RunFile)
      → map FixOutcome.fingerprint (attempts o start_run s draw place cs runs).1
        ≡ map RankedCluster.fingerprint cs
  unfolding attempts
  attempts-fingerprints s draw place [] runs = refl
  attempts-fingerprints s draw place (c ∷ cs) runs =
      rw (attempt-fingerprint s c (draw place) runs) (
        ap (◌∷◌ c.fingerprint) (
          attempts-fingerprints s draw (place + 1) cs
            (attempt o start_run s c (draw place) runs).0))

  -- the wave returns one outcome for each cluster to fix, in the order of the report, also if its
  -- settings cannot be made, and whatever the runs do.
  pub run_fix_wave-fingerprints :
      (report : WeeklyReport) (settings : Option Settings) (draw : ℕ → Draw)
      (runs : Dict Text RunFile)
      → map FixOutcome.fingerprint (run_fix_wave o start_run report settings draw runs).1
        ≡ map RankedCluster.fingerprint report.to_fix
  unfolding run_fix_wave
  run_fix_wave-fingerprints report none draw runs = bare_fingerprints report.to_fix
  run_fix_wave-fingerprints report (some s) draw runs =
      attempts-fingerprints (self_run_settings s) draw 0 report.to_fix runs
