-- ===== src/Analysis/Choice.antt =====
-- What src/tvastr/analysis/pr_discovery.py promises of the pull request it picks and of its cache.
use tvastr_demo.Prelude.{
  ℕ, ◌+◌, ◌≤◌, ◌<◌, ltb, Bool, true, false, not, ◌||◌, ◌-◌, Bool-cases, List, [], ◌∷◌, length,
  Option, none, some, Text, text_eq, ◌≡◌, refl, sym, subst, arith, inl, inr, ◌⊎◌, All, All-map, Any,
}
use tvastr_demo.Prelude.Dicts.{get, put, remove}
use tvastr_demo.Prelude.Sorting.{
  sort, IsSorted, IsWeakOrder, sort-IsSorted, All-of-sort, Any-of-sort,
}
use tvastr_demo.Prelude.Strings.{text_ltb, text_ltb-asym, text_ltb-le_trans}
use tvastr_demo.Analysis.Discovery.{
  SearchItem, PullRequestRef, rank_of, updated_key, rank_ltb, best_item, first_item, Cache,
  CacheKey, key_eq, oldest, cache_put, cache_get, cache_hit, cache_max, discover_pr,
  discover_cached, discover_fresh, drop_oldest, cache_ttl, has_token,
}

rank_ltb-asym : (x y : SearchItem) → rank_ltb x y ≡ true → rank_ltb y x ≡ false
unfolding rank_ltb
rank_ltb-asym x y h = ground (arith, text_ltb-asym (updated_key x) (updated_key y))

rank_ltb-le_trans :
    (x y z : SearchItem) → rank_ltb y x ≡ false → rank_ltb z y ≡ false → rank_ltb z x ≡ false
unfolding rank_ltb
rank_ltb-le_trans x y z h k =
    ground (arith, text_ltb-le_trans (updated_key x) (updated_key y) (updated_key z))

rank_ltb-IsWeakOrder : IsWeakOrder rank_ltb
rank_ltb-IsWeakOrder = record { asym = rank_ltb-asym; le_trans = rank_ltb-le_trans }

-- `x` ranks above `y`, or as high and was not updated after it
abbrev pub Precedes : SearchItem → SearchItem → Type 0
Precedes x y =
    (rank_of x < rank_of y)
    ⊎ ((rank_of x ≡ rank_of y) × (text_ltb y.updated_at x.updated_at ≡ false))

precedes : (x y : SearchItem) → rank_ltb y x ≡ false → Precedes x y
unfolding rank_ltb text_ltb
precedes x y h = elim (Bool-cases (ltb (rank_of x) (rank_of y))) [
  | inl q ↦ inl (ground (arith, q))
  | inr q ↦ inr (ground (arith, q), ground (arith, q, h))
]

Precedes-self : (x : SearchItem) → Precedes x x
Precedes-self x = elim (Bool-cases (rank_ltb x x)) [
  | inl q ↦ absurd (ground (arith, q, rank_ltb-asym x x q))
  | inr q ↦ precedes x x q
]

first-IsLeast :
    (x : SearchItem) (items : List SearchItem)
    → IsSorted rank_ltb items
    → first_item items ≡ some x
    → All (Precedes x) items × Any (λ y. y ≡ x) items
first-IsLeast x [] s h = absurd (cc)
first-IsLeast x (y ∷ ys) (hy, s) h =
    let e : y ≡ x = ground (arith, h) in
    (
      (
        subst (λ z. Precedes x z) (sym e) (Precedes-self x),
        All-map (λ z q. subst (λ w. Precedes w z) e (precedes y z q)) ys hy,
      ),
      inl e,
    )

-- the pull request that is picked is one of those found; it ranks before every other one, or
-- ranks as high and was not updated after it.
pub best_item-Precedes :
    (items : List SearchItem) (x : SearchItem)
    → best_item items ≡ some x
    → All (Precedes x) items × Any (λ y. y ≡ x) items
unfolding best_item
best_item-Precedes items x h =
    let (all, some_y) =
      first-IsLeast x (sort rank_ltb items) (sort-IsSorted rank_ltb-IsWeakOrder items) h in
    (All-of-sort rank_ltb (Precedes x) items all, Any-of-sort rank_ltb (λ y. y ≡ x) items some_y)

length-put :
    (k : CacheKey) (v : ℕ × Option PullRequestRef) (cache : Cache)
    → length (put k v cache) ≤ length cache + 1
unfolding put
length-put k v [] = omega arith
length-put k v ((j, w) ∷ cache) = ground (arith, length-put k v cache)

length-remove-le : (k : CacheKey) (cache : Cache) → length (remove k cache) ≤ length cache
unfolding remove
length-remove-le k [] = omega arith
length-remove-le k ((j, w) ∷ cache) = ground (arith, length-remove-le k cache)

-- `j` is `key`, or a key of the cache
abbrev IsKeyOf : CacheKey → Cache → CacheKey → Type 0
IsKeyOf key cache j = (j ≡ key) ⊎ Any (λ e. e.0 ≡ j) cache

behind :
    (key k j : CacheKey) (w : ℕ × Option PullRequestRef) (cache : Cache)
    → IsKeyOf key cache j
    → IsKeyOf key ((k, w) ∷ cache) j
behind key k j w cache (inl e) = inl e
behind key k j w cache (inr m) = inr (inr m)

-- the key that is dropped is that of the first entry or stands behind it
oldest_is_key : (key : CacheKey) (at : ℕ) (cache : Cache) → IsKeyOf key cache (oldest key at cache)
unfolding oldest
oldest_is_key key at [] = inl refl
oldest_is_key key at ((k, (t, v)) ∷ cache) = elim (Bool-cases (ltb t at)) [
  | inl q ↦
      let e : oldest k t cache ≡ oldest key at ((k, (t, v)) ∷ cache) = ground (arith, q) in
      subst (IsKeyOf key ((k, (t, v)) ∷ cache)) e
        (elim (oldest_is_key k t cache) [ inl e ↦ inr (inl (sym e)) | inr m ↦ inr (inr m) ])
  | inr q ↦
      let e : oldest key at cache ≡ oldest key at ((k, (t, v)) ∷ cache) = ground (arith, q) in
      subst (IsKeyOf key ((k, (t, v)) ∷ cache)) e
        (behind key k (oldest key at cache) (t, v) cache (oldest_is_key key at cache))
]

length-remove-lt :
    (k : CacheKey) (cache : Cache)
    → Any (λ e. e.0 ≡ k) cache
    → length (remove k cache) < length cache
unfolding remove
length-remove-lt k [] m = elim m [ ]
length-remove-lt k ((j, w) ∷ cache) (inl e) =
    ground (arith, key_eq.same_iff j k, length-remove-le k cache)
length-remove-lt k ((j, w) ∷ cache) (inr m) = ground (arith, length-remove-lt k cache m)

drop_oldest-lt : (cache : Cache) → 0 < length cache → length (drop_oldest cache) < length cache
drop_oldest-lt [] h = absurd (omega arith)
drop_oldest-lt ((k, (t, v)) ∷ cache) h =
    length-remove-lt (oldest k t cache) ((k, (t, v)) ∷ cache)
      (elim (oldest_is_key k t cache) [ inl e ↦ inl (sym e) | inr m ↦ inr m ])

abbrev pub IsBounded : Cache → Type 0
IsBounded cache = length cache ≤ cache_max

cache_put-IsBounded :
    (now : ℕ) (key : CacheKey) (ref : Option PullRequestRef) (cache : Cache)
    → IsBounded cache
    → IsBounded (cache_put now key ref cache)
unfolding cache_put
cache_put-IsBounded now key ref cache h = ground (
  arith,
  length-put key (now, ref) cache,
  length-put key (now, ref) (drop_oldest cache),
  drop_oldest-lt cache,
)

discover_fresh-IsBounded :
    (now : ℕ) (key : CacheKey) (answer : Option (List SearchItem)) (cache : Cache)
    → IsBounded cache
    → IsBounded (discover_fresh now key answer cache).1
unfolding discover_fresh
discover_fresh-IsBounded now key none cache h = h
discover_fresh-IsBounded now key (some items) cache h = cache_put-IsBounded now key _ cache h

discover_hit-IsBounded :
    (read_at written_at : ℕ) (key : CacheKey) (answer : Option (List SearchItem)) (cache : Cache)
    (hit : Option (ℕ × Option PullRequestRef))
    → IsBounded cache
    → IsBounded (discover_cached written_at key answer (cache_hit read_at key cache hit)).1
unfolding cache_hit discover_cached
discover_hit-IsBounded r w key answer cache none h = discover_fresh-IsBounded w key answer cache h
discover_hit-IsBounded r w key answer cache (some (at, value)) h =
    elim (Bool-cases (ltb (r - at) cache_ttl)) [
      | inl q ↦ rw (q, discover_cached) h
      | inr q ↦
          rw (q, discover_cached)
            (discover_fresh-IsBounded w key answer (remove key cache)
              (omega (arith, length-remove-le key cache)))
    ]

-- the search for a pull request keeps the cache within 1024 entries, if it was.
pub discover_pr-IsBounded :
    (read_at written_at : ℕ) (use_mocks : Bool) (token : Option Text) (key : CacheKey)
    (answer : Option (List SearchItem)) (cache : Cache)
    → IsBounded cache
    → IsBounded (discover_pr read_at written_at use_mocks token key answer cache).1
unfolding discover_pr cache_get
discover_pr-IsBounded r w use_mocks token key answer cache h =
    elim (Bool-cases (use_mocks || not (has_token token))) [
      | inl q ↦ rw q h
      | inr q ↦ rw q (discover_hit-IsBounded r w key answer cache (get key cache) h)
    ]
