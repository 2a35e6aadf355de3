-- ===== src/Analysis/Discovery.antt =====
-- src/tvastr/analysis/pr_discovery.py: the search for the pull request of an issue, with its cache,
-- and the budget of a diff. An instant is a number of seconds.
use tvastr_demo.Prelude.{
  ℕ, suc, ◌+◌, ◌-◌, ltb, leb, nat_beq, Bool, true, false, ◌&&◌, ◌||◌, not, if◌then◌else◌, is_empty,
  take, length, List, [], ◌∷◌, ◌++◌, Option, none, some, Text, codes, text_eq, string_eq, ◌==◌,
  Equatable, nat_eq, ◌≡◌, ◌↔◌, arith,
}
use tvastr_demo.Prelude.Dicts.{Dict, get, put, remove}
use tvastr_demo.Prelude.Sorting.{sort}
use tvastr_demo.Prelude.Strings.{join, text_ltb}

pub record PullRequestRef : Type 0 where
  pub number : ℕ
  pub title : Text
  pub state : Text
  pub merged : Bool
  pub url : Text

-- an item of GitHub's answer, with the defaults of missing keys; `merged` is the truth of
-- `merged_at`
pub record SearchItem : Type 0 where
  pub number : ℕ
  pub title : Text
  pub state : Text
  pub merged : Bool
  pub updated_at : Text
  pub html_url : Text

-- `_rank`: the first part of the sort key
unfoldable pub rank_of : SearchItem → ℕ
rank_of x = if x.state == codes "open" then 0 else if x.merged then 1 else 2

-- `"-" + str(updated_at)`
abbrev pub updated_key : SearchItem → Text
updated_key x = codes "-" ++ x.updated_at

-- `<` of the keys of `_rank`
unfoldable pub rank_ltb : SearchItem → SearchItem → Bool
rank_ltb x y =
    ltb (rank_of x) (rank_of y)
    || (nat_beq (rank_of x) (rank_of y) && text_ltb (updated_key x) (updated_key y))

abbrev pub ref_of : SearchItem → PullRequestRef
ref_of x = record {
  number = x.number;
  title = x.title;
  state = x.state;
  merged = x.merged;
  url = x.html_url;
}

abbrev pub first_item : List SearchItem → Option SearchItem
first_item [] = none
first_item (x ∷ xs) = some x

-- `sorted(items, key=_rank)[0]`
unfoldable pub best_item : List SearchItem → Option SearchItem
best_item items = first_item (sort rank_ltb items)

-- a repository and the number of an issue
abbrev pub CacheKey : Type 0
CacheKey = Text × ℕ

pub key_same_iff : (a b : CacheKey) → ((a.0 == b.0 && nat_beq a.1 b.1) ≡ true) ↔ (a ≡ b)
key_same_iff a b = ground (arith, text_eq.same_iff a.0 b.0)

instance abbrev pub key_eq : Equatable CacheKey
key_eq = record { same = λ a b. a.0 == b.0 && nat_beq a.1 b.1; same_iff = key_same_iff }

-- `_cache`: the time of the write, and the value
abbrev pub Cache : Type 0
Cache = Dict CacheKey (ℕ × Option PullRequestRef)

abbrev pub cache_max : ℕ
cache_max = 1024

abbrev pub cache_ttl : ℕ
cache_ttl = 600

-- the value of a fresh hit; a stale one is deleted
unfoldable pub cache_hit :
    ℕ
    → CacheKey
    → Cache
    → Option (ℕ × Option PullRequestRef)
    → Option (Option PullRequestRef) × Cache
cache_hit now key cache none = (none, cache)
cache_hit now key cache (some (at, value)) =
    if ltb (now - at) cache_ttl then (some value, cache) else (none, remove key cache)

-- `_cache_get`
unfoldable pub cache_get : ℕ → CacheKey → Cache → Option (Option PullRequestRef) × Cache
unfolding cache_hit
cache_get now key cache = cache_hit now key cache (get key cache)

-- `min(_cache, key=…)`: the first key with the least time
unfoldable pub oldest : CacheKey → ℕ → Cache → CacheKey
oldest key at [] = key
oldest key at ((k, (t, v)) ∷ cache) = if ltb t at then oldest k t cache else oldest key at cache

abbrev pub drop_oldest : Cache → Cache
drop_oldest [] = []
drop_oldest ((k, (t, v)) ∷ cache) = remove (oldest k t cache) ((k, (t, v)) ∷ cache)

-- `_cache_put`
unfoldable pub cache_put : ℕ → CacheKey → Option PullRequestRef → Cache → Cache
unfolding oldest
cache_put now key value cache =
    put key (now, value) (if leb cache_max (length cache) then drop_oldest cache else cache)

abbrev pub found_ref : Option SearchItem → Option PullRequestRef
found_ref none = none
found_ref (some x) = some (ref_of x)

-- the part behind a miss: `none` is a failed request, which is not cached
unfoldable pub discover_fresh :
    ℕ → CacheKey → Option (List SearchItem) → Cache → Option PullRequestRef × Cache
discover_fresh now key none cache = (none, cache)
discover_fresh now key (some items) cache =
    let ref = found_ref (best_item items) in (ref, cache_put now key ref cache)

unfoldable pub discover_cached :
    ℕ
    → CacheKey
    → Option (List SearchItem)
    → Option (Option PullRequestRef) × Cache
    → Option PullRequestRef × Cache
discover_cached now key answer (some ref, cache) = (ref, cache)
discover_cached now key answer (none, cache) = discover_fresh now key answer cache

abbrev pub has_token : Option Text → Bool
has_token none = false
has_token (some t) = not (is_empty t)

-- `discover_pr`: the two readings of the clock, and the answer of GitHub, as it would be
unfoldable pub discover_pr :
    ℕ
    → ℕ
    → Bool
    → Option Text
    → CacheKey
    → Option (List SearchItem)
    → Cache
    → Option PullRequestRef × Cache
unfolding discover_cached discover_fresh cache_get cache_put
discover_pr read_at written_at use_mocks token key answer cache =
    if use_mocks || not (has_token token)
    then (none, cache)
    else discover_cached written_at key answer (cache_get read_at key cache)

pub record PrFile : Type 0 where
  pub filename : Text
  pub status : Text
  pub additions : ℕ
  pub deletions : ℕ
  pub patch : Text

pub record PrDiff : Type 0 where
  pub files : List PrFile
  pub truncated : Bool

abbrev pub max_diff_files : ℕ
max_diff_files = 30

abbrev pub max_diff_lines : ℕ
max_diff_lines = 1500

-- `patch.count("\n")`
unfoldable pub newlines : Text → ℕ
newlines [] = 0
newlines (c ∷ s) = let n = newlines s in if nat_beq c 10 then suc n else n

abbrev pub patch_lines : Text → ℕ
patch_lines patch = if is_empty patch then 0 else newlines patch + 1

module _ (splitlines : Text → List Text) where
  -- the loop of `fetch_pr_diff`: the lines that are used up, and whether the files are too many
  unfoldable pub add_diff_files : ℕ → Bool → List PrFile → List PrFile × Bool
  add_diff_files total truncated [] = ([], truncated)
  add_diff_files total truncated (f ∷ fs) =
      let lines = patch_lines f.patch in
      let (rest, cut) = add_diff_files (total + lines) truncated fs in
      let clipped = join (codes "\n") (take (max_diff_lines - total) (splitlines f.patch)) in
      if ltb max_diff_lines (total + lines)
      then (record f { patch = clipped ++ codes "\n… (diff truncated)" } ∷ [], true)
      else (f ∷ rest, cut)

  -- `fetch_pr_diff`, from the items of the answer
  unfoldable pub fetch_pr_diff : List PrFile → PrDiff
  unfolding add_diff_files
  fetch_pr_diff raw =
      let (files, truncated) =
        add_diff_files 0 (ltb max_diff_files (length raw)) (take max_diff_files raw) in
      record { files = files; truncated = truncated }
