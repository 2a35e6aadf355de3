-- ===== src/Agent/Uses.antt =====
-- What the tools of the investigation in src/tvastr/agent/graph.py use: the calls of each, and the
-- files that it adds.
use tvastr_demo.Prelude.{
  ℕ, suc, ◌+◌, ◌≤◌, ◌||◌, Bool-cases, contains, leb, length, length-take-le, List, [], ◌∷◌, Option,
  none, some, String, Text, ◌≡◌, refl, take, text_eq, string_eq, arith, inl, inr, subst, ◌∙◌,
}
use tvastr_demo.Prelude.Dicts.{Dict, put}
use tvastr_demo.Prelude.Phases.{
  Runs, pure-Runs, perform-Runs, >>=-Runs, attempt-Runs, record_event-Runs, Runs-weaken, Runs-from,
}
use tvastr_demo.Json.{Value, Payload, object}
use tvastr_demo.Integrations.{CodeHost}
use tvastr_demo.Agent.Services.{
  Services, Question, Action, asked, searched, read_file, listed_dir, installed, emitted, opened,
  notified, dated, saved, gated, emit, ask_router,
}
use tvastr_demo.Agent.Retrieval.{
  retrieve_from, retrieve_code_files, search_codebase, list_dir, put_read,
}
use tvastr_demo.Agent.Investigate.{
  Evidence, note_search, search_action, read_action, list_action, choose_action, do_action,
  do_actions, seed, max_context_files, add_files,
}

length-put-le : (k v : Text) (d : Dict Text Text) → length (put k v d) ≤ length d + 1
unfolding put
length-put-le k v [] = omega arith
length-put-le k v ((j, w) ∷ d) = ground (arith, length-put-le k v d)

length-add_files-le :
    (fetched files : Dict Text Text)
    → length (add_files fetched files) ≤ length fetched + length files
unfolding add_files
length-add_files-le [] files = omega arith
length-add_files-le ((k, v) ∷ fetched) files =
    omega (arith, length-add_files-le fetched (put k v files), length-put-le k v files)

length-put_read-le :
    (path : Text) (content : Option Text) (files : Dict Text Text)
    → length (put_read path content files) ≤ length files + 1
length-put_read-le path none files = omega arith
length-put_read-le path (some c) files = length-put-le path c files

module _ (o : Services) where
  open o use {Float}

  -- An action of the investigation, with the number of questions before and behind it.
  abbrev pub Uses : ℕ → Action Float → ℕ → Type 0
  Uses n (asked q) m = m ≡ suc n
  Uses n (searched t) m = m ≡ n
  Uses n (read_file t) m = m ≡ n
  Uses n (listed_dir t) m = m ≡ n
  Uses n (emitted t layer step p) m = m ≡ n
  Uses n (installed t v) m = ⊥
  Uses n (opened d) m = ⊥
  Uses n (notified t) m = ⊥
  Uses n (dated t) m = ⊥
  Uses n (saved r) m = ⊥
  Uses n (gated c b) m = ⊥

  pub emit-Uses :
      (n : ℕ) (type step : String) (payload : Payload)
      → Runs Uses n (emit o type step payload) (λ _ m. m ≡ n)
  unfolding emit
  emit-Uses n type step payload =
      record_event-Runs n n (emitted type "agent" step payload) (λ _ m. m ≡ n) refl refl

  ask-Uses : (n : ℕ) (q : Question) → Runs Uses n (ask_router o q) (λ _ m. m ≡ suc n)
  unfolding ask_router
  ask-Uses n q = perform-Runs n (suc n) (asked q) (o.ask q) (λ _ m. m ≡ suc n) refl (λ r. refl)

  -- The evidence is within the budget of files, and `m` is what it says of the questions.
  abbrev pub Fits : ℕ → Evidence → ℕ → Type 0
  Fits n ev m = (m ≡ n) × (length ev.code_files ≤ max_context_files)

  note_search-Uses :
      (n : ℕ) (query : Text) (ev : Evidence) (hits : Option (List Text))
      → length ev.code_files ≤ max_context_files
      → Runs Uses n (note_search o query ev hits) (Fits n)
  unfolding note_search
  note_search-Uses n query ev none h = pure-Runs n ev (Fits n) (refl, h)
  note_search-Uses n query ev (some hits) h =
      >>=-Runs n _ _ (λ _ m. m ≡ n) (Fits n) (emit-Uses n _ _ _)
        (λ _ m e. pure-Runs m _ (Fits n) (e, h))

  module _ (host : CodeHost o.World) where
    retrieve_from-Uses :
        (n : ℕ) (paths : List Text) (files : Dict Text Text)
        → Runs Uses n
            (retrieve_from o host paths files)
            (λ fetched m. (m ≡ n) × (length fetched ≤ length files + length paths))
    unfolding retrieve_from
    retrieve_from-Uses n [] files = pure-Runs n files _ (refl, omega arith)
    retrieve_from-Uses n (path ∷ paths) files =
        >>=-Runs n _ _ (λ _ m. m ≡ n) _
          (attempt-Runs n n (read_file path) (host.get_file path) (λ _ m. m ≡ n) refl (λ r. refl))
          (λ content m e. Runs-from n m _ _ e (
            Runs-weaken n _ _ _ (retrieve_from-Uses n paths (put_read path content files))
              (λ fetched q (f, h). (f, omega (arith, h, length-put_read-le path content files)))))

    retrieve_one-Uses :
        (n : ℕ) (path : Text)
        → Runs Uses n
            (retrieve_code_files o host (path ∷ []) 1)
            (λ fetched m. (m ≡ n) × (length fetched ≤ 1))
    unfolding retrieve_code_files
    retrieve_one-Uses n path = retrieve_from-Uses n (path ∷ []) []

    search_action-Uses :
        (n : ℕ) (query : Text) (ev : Evidence)
        → length ev.code_files ≤ max_context_files
        → Runs Uses n (search_action o host query ev) (Fits n)
    unfolding search_action search_codebase
    search_action-Uses n query ev h =
        >>=-Runs n _ _ (λ _ m. m ≡ n) (Fits n)
          (attempt-Runs n n (searched query) (host.search_code query) (λ _ m. m ≡ n) refl
            (λ r. refl))
          (λ hits m e. Runs-from n m _ _ e (note_search-Uses n query ev hits h))

    list_dir-Uses : (n : ℕ) (path : Text) → Runs Uses n (list_dir o host path) (λ _ m. m ≡ n)
    unfolding list_dir
    list_dir-Uses n path =
        >>=-Runs n _ _ (λ _ m. m ≡ n) _
          (attempt-Runs n n (listed_dir path) (host.list_dir path) (λ _ m. m ≡ n) refl (λ r. refl))
          (λ r m e. pure-Runs m _ _ e)

    list_action-Uses :
        (n : ℕ) (path : Text) (ev : Evidence)
        → length ev.code_files ≤ max_context_files
        → Runs Uses n (list_action o host path ev) (Fits n)
    unfolding list_action
    list_action-Uses n path ev h =
        >>=-Runs n _ _ (λ _ m. m ≡ n) (Fits n) (list_dir-Uses n path)
          (λ r m e.
            >>=-Runs m _ _ (λ _ k. k ≡ m) (Fits n) (emit-Uses m _ _ _)
              (λ _ k f. pure-Runs k _ (Fits n) (f ∙ e, h)))

    read_action-Uses :
        (n : ℕ) (path : Text) (ev : Evidence)
        → length ev.code_files ≤ max_context_files
        → Runs Uses n (read_action o host path ev) (Fits n)
    unfolding read_action
    read_action-Uses n path ev h =
        elim (Bool-cases (contains path ev.seen || leb max_context_files (length ev.code_files))) [
          | inl q ↦ rw q (pure-Runs n ev (Fits n) (refl, h))
          | inr q ↦ rw q (
              >>=-Runs n _ _ (λ fetched m. (m ≡ n) × (length fetched ≤ 1)) (Fits n)
                (retrieve_one-Uses n path)
                (λ fetched m (e, f).
                  >>=-Runs m _ _ (λ _ k. k ≡ m) (Fits n) (emit-Uses m _ _ _)
                    (λ _ k g.
                      pure-Runs k _ (Fits n)
                        (g ∙ e, ground (arith, f, q, length-add_files-le fetched ev.code_files)))))
        ]

    choose_action-Uses :
        (n : ℕ) (query path dir : Option Value) (ev : Evidence)
        → length ev.code_files ≤ max_context_files
        → Runs Uses n (choose_action o host query path dir ev) (Fits n)
    unfolding choose_action
    choose_action-Uses n (some query) path dir ev h = search_action-Uses n _ ev h
    choose_action-Uses n none (some path) dir ev h = read_action-Uses n _ ev h
    choose_action-Uses n none none (some dir) ev h = list_action-Uses n _ ev h
    choose_action-Uses n none none none ev h = pure-Runs n ev (Fits n) (refl, h)

    do_action-Uses :
        (n : ℕ) (act : Value) (ev : Evidence)
        → length ev.code_files ≤ max_context_files
        → Runs Uses n (do_action o host act ev) (Fits n)
    unfolding do_action
    do_action-Uses n (object fields) ev h = choose_action-Uses n _ _ _ ev h
    do_action-Uses n _ ev h = pure-Runs n ev (Fits n) (refl, h)

    pub do_actions-Uses :
        (n : ℕ) (acts : List Value) (ev : Evidence)
        → length ev.code_files ≤ max_context_files
        → Runs Uses n (do_actions o host acts ev) (Fits n)
    unfolding do_actions
    do_actions-Uses n [] ev h = pure-Runs n ev (Fits n) (refl, h)
    do_actions-Uses n (act ∷ acts) ev h =
        >>=-Runs n _ _ (Fits n) (Fits n) (do_action-Uses n act ev h) (λ after m (e, f).
          subst (λ k. Runs Uses m (do_actions o host acts after) (Fits k)) e
            (do_actions-Uses m acts after f))

    pub seed-Uses : (n : ℕ) (paths : List Text) → Runs Uses n (seed o host paths) (Fits n)
    unfolding seed retrieve_code_files
    seed-Uses n [] = pure-Runs n _ (Fits n) (refl, omega arith)
    seed-Uses n (path ∷ paths) =
        >>=-Runs n _ _ (λ _ m. m ≡ n) (Fits n) (emit-Uses n _ _ _)
          (λ _ m e.
            >>=-Runs m _ _
              (λ fetched k. (k ≡ m) × (length fetched ≤ 0 + length (take 5 (path ∷ paths))))
              (Fits n) (retrieve_from-Uses m (take 5 (path ∷ paths)) [])
              (λ fetched k (f, g). pure-Runs k _ (Fits n) (
                f ∙ e,
                omega (arith, g, length-add_files-le fetched [], length-take-le 5 (path ∷ paths)),
              )))
