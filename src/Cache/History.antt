-- ===== src/Cache/History.antt =====
-- The response cache (proxy/response-cache.ts) over any history of calls.
use firecrawl_gateway.Prelude.{
  ℕ, ◌+◌, ◌-◌, ◌<◌, Bool, false, not, ◌&&◌, List, [], ◌∷◌, Option, none, some, ◌≡◌, ◌===◌, arith,
  length, ltb, if◌then◌else◌, Option-cases, inl, inr,
}
use firecrawl_gateway.Prelude.OrderedMap
use firecrawl_gateway.Prelude.OrderedMap.{Distinct, get-set, get-delete, get-Fresh, set-Distinct}
use firecrawl_gateway.Prelude.Text.{Text, codes_eq}
use firecrawl_gateway.Prelude.Json.{Number}
use firecrawl_gateway.Cache.{
  CachedResponse, Entries, ResponseCache, max_cached_entry_bytes, new_cache, enabled, older_than,
  set_ttl_ms, remove, refresh, get, evict, insert, set,
}
use firecrawl_gateway.Cache.Invariant.{Inv, get-Inv, set-Inv, set_ttl_ms-Inv, remove-Inv}

pub data Op : Type 0 where
  stores : Text → CachedResponse → ℕ → Op
  fetches : Text → Option Number → ℕ → Op
  retunes : ℕ → Op

unfoldable pub step : ResponseCache → Op → ResponseCache
step c (stores key entry now) = set key entry now c
step c (fetches key max_age now) = (get key max_age now c).0
step c (retunes ttl) = set_ttl_ms ttl c

unfoldable pub run : ResponseCache → List Op → ResponseCache
unfolding step
run c [] = c
run c (op ∷ ops) = run (step c op) ops

step-Inv : (c : ResponseCache) (op : Op) → Inv c → Inv (step c op)
unfolding step
step-Inv c (stores key entry now) v = set-Inv key entry now c v
step-Inv c (fetches key max_age now) v = get-Inv key max_age now c v
step-Inv c (retunes ttl) v = set_ttl_ms-Inv ttl c v

run-Inv : (c : ResponseCache) (ops : List Op) → Inv c → Inv (run c ops)
unfolding run
run-Inv c [] v = v
run-Inv c (op ∷ ops) v = run-Inv (step c op) ops (step-Inv c op v)

new_cache-Inv : (ttl max_bytes : ℕ) → Inv (new_cache ttl max_bytes)
unfolding new_cache
new_cache-Inv ttl max_bytes = omega arith

-- After any history of stores, lookups and changes of the lifetime, no key has two entries, the
-- byte count is the sum of the bodies, and it is within the bound.
pub run-new_cache-Inv :
    (ttl max_bytes : ℕ) (ops : List Op) → Inv (run (new_cache ttl max_bytes) ops)
run-new_cache-Inv ttl max_bytes ops =
    run-Inv (new_cache ttl max_bytes) ops (new_cache-Inv ttl max_bytes)

-- The specification: for each key the response that was last accepted, with the time of the call.
abbrev pub Latest : Type 0
Latest = Text → Option CachedResponse

pub accepts : ResponseCache → CachedResponse → Bool
unfolding enabled
accepts c entry =
    enabled c
    && not (ltb max_cached_entry_bytes (length entry.body))
    && not (ltb c.max_bytes (length entry.body))

unfoldable pub note : ResponseCache → Op → Latest → Latest
unfolding accepts
note c (stores key entry now) latest k =
    if accepts c entry && key === k then some (record entry { stored_at = now }) else latest k
note c _ latest k = latest k

unfoldable pub latest_of : ResponseCache → List Op → Latest → Latest
unfolding note step
latest_of c [] latest = latest
latest_of c (op ∷ ops) latest = latest_of (step c op) ops (note c op latest)

record Agrees (c : ResponseCache) (latest : Latest) : Type 0 where
  at : (k : Text) (e : CachedResponse) → OrderedMap.get k c.entries ≡ some e → latest k ≡ some e

evict-get :
    (max : ℕ) (m : Entries) (total : ℕ) (k : Text) (e : CachedResponse)
    → Distinct m
    → OrderedMap.get k (evict max m total).0 ≡ some e
    → OrderedMap.get k m ≡ some e
unfolding evict OrderedMap.get
evict-get max [] total k e d h = h
evict-get max ((j, x) ∷ m) total k e d h = ground (
  arith,
  evict-get max m (total - length x.body) k e d.1,
  codes_eq.equal_iff j k,
  get-Fresh j m d.0,
)

remove-get :
    (key k : Text) (entry e : CachedResponse) (c : ResponseCache)
    → Distinct c.entries
    → OrderedMap.get k (remove key entry c).entries ≡ some e
    → OrderedMap.get k c.entries ≡ some e
unfolding remove OrderedMap.has
remove-get key k entry e c d h = ground (arith, get-delete key k c.entries d)

-- Moving an entry to the end changes no lookup.
refresh-get :
    (key k : Text) (entry : CachedResponse) (c : ResponseCache)
    → OrderedMap.get key c.entries ≡ some entry
    → Distinct c.entries
    → OrderedMap.get k (refresh key entry c).entries ≡ OrderedMap.get k c.entries
unfolding refresh
refresh-get key k entry c h d = ground (
  arith,
  get-set key k entry (OrderedMap.delete key c.entries),
  get-delete key k c.entries d,
  codes_eq.equal_iff key k,
)

store-get :
    (key k : Text) (entry e : CachedResponse) (c : ResponseCache)
    → Inv c
    → OrderedMap.get k
        (evict c.max_bytes
          (OrderedMap.set key entry c.entries)
          (c.total_bytes + length entry.body)).0
      ≡ some e
    → (if key === k then some entry else OrderedMap.get k c.entries) ≡ some e
store-get key k entry e c v h = rw (get-set key k entry c.entries) at (
    evict-get c.max_bytes (OrderedMap.set key entry c.entries) (c.total_bytes + length entry.body) k
      e (set-Distinct key entry c.entries v.distinct) h)

insert-get :
    (key k : Text) (entry e : CachedResponse) (c : ResponseCache)
    → Inv c
    → OrderedMap.get k (insert key entry c).entries ≡ some e
    → (if key === k then some entry else OrderedMap.get k c.entries) ≡ some e
unfolding insert
insert-get key k entry e c v h = elim (Option-cases (OrderedMap.get key c.entries)) [
  | inl q ↦ store-get key k entry e c v (rw (q, insert) at h)
  | inr (previous, q) ↦
      let r = remove-Inv key previous c q v in
      let s = store-get key k entry e (remove key previous c) r.0 (rw (q, insert) at h) in
      ground (arith, remove-get key k previous e c v.distinct)
]

record-Agrees-remove :
    (key : Text) (entry : CachedResponse) (c : ResponseCache) (latest : Latest)
    → Inv c
    → Agrees c latest
    → Agrees (remove key entry c) latest
record-Agrees-remove key entry c latest v a = record {
  at = λ k e h. a.at k e (remove-get key k entry e c v.distinct h);
}

get-Agrees :
    (key : Text) (max_age : Option Number) (now : ℕ) (c : ResponseCache) (latest : Latest)
    → Inv c
    → Agrees c latest
    → Agrees (get key max_age now c).0 latest
unfolding get
get-Agrees key max_age now c latest v a = record {
  at = λ k e h. elim (Option-cases (OrderedMap.get key c.entries)) [
    | inl q ↦ a.at k e (rw (q, get) at h)
    | inr (entry, q) ↦
        let h' = rw (q, get) at h in
        ground (
          arith,
          a.at k e,
          remove-get key k entry e c v.distinct,
          refresh-get key k entry c q v.distinct,
        )
  ];
}

set-Agrees :
    (key : Text) (entry : CachedResponse) (now : ℕ) (c : ResponseCache) (latest : Latest)
    → Inv c
    → Agrees c latest
    → Agrees (set key entry now c) (note c (stores key entry now) latest)
unfolding set note accepts
set-Agrees key entry now c latest v a = record {
  at = λ k e h. ground (arith, a.at k e, insert-get key k (record entry { stored_at = now }) e c v);
}

set_ttl_ms-Agrees :
    (ttl : ℕ) (c : ResponseCache) (latest : Latest)
    → Agrees c latest
    → Agrees (set_ttl_ms ttl c) latest
unfolding set_ttl_ms OrderedMap.get
set_ttl_ms-Agrees ttl c latest a = record { at = λ k e h. ground (arith, a.at k e) }

step-Agrees :
    (c : ResponseCache) (op : Op) (latest : Latest)
    → Inv c
    → Agrees c latest
    → Agrees (step c op) (note c op latest)
unfolding step note
step-Agrees c (stores key entry now) latest v a = set-Agrees key entry now c latest v a
step-Agrees c (fetches key max_age now) latest v a = get-Agrees key max_age now c latest v a
step-Agrees c (retunes ttl) latest v a = set_ttl_ms-Agrees ttl c latest a

run-Agrees :
    (c : ResponseCache) (ops : List Op) (latest : Latest)
    → Inv c
    → Agrees c latest
    → Agrees (run c ops) (latest_of c ops latest)
unfolding run latest_of
run-Agrees c [] latest v a = a
run-Agrees c (op ∷ ops) latest v a =
    run-Agrees (step c op) ops (note c op latest) (step-Inv c op v) (step-Agrees c op latest v a)

get_hit :
    (key : Text) (max_age : Option Number) (now : ℕ) (c : ResponseCache) (e : CachedResponse)
    → (get key max_age now c).1 ≡ some e
    → (OrderedMap.get key c.entries ≡ some e)
      × (now < e.stored_at + c.ttl_ms)
      × (older_than max_age e.stored_at now ≡ false)
unfolding get
get_hit key max_age now c e h = elim (Option-cases (OrderedMap.get key c.entries)) [
  | inl q ↦ cc (rw (q, get) at h)
  | inr (entry, q) ↦ let h' = rw (q, get) at h in ground arith
]

abbrev pub nothing : Latest
nothing k = none

new_cache-Agrees : (ttl max_bytes : ℕ) → Agrees (new_cache ttl max_bytes) nothing
unfolding new_cache OrderedMap.get
new_cache-Agrees ttl max_bytes = record { at = λ k e h. cc }

-- Whatever happened before, a hit is the response that the cache accepted last under that key, it
-- is younger than the present lifetime, and it is no older than the request's `maxAge`.
pub run_hit :
    (ttl max_bytes : ℕ) (ops : List Op) (key : Text) (max_age : Option Number) (now : ℕ)
    (e : CachedResponse)
    → let c = run (new_cache ttl max_bytes) ops in
      (get key max_age now c).1 ≡ some e
      → (latest_of (new_cache ttl max_bytes) ops nothing key ≡ some e)
        × (now < e.stored_at + c.ttl_ms)
        × (older_than max_age e.stored_at now ≡ false)
run_hit ttl max_bytes ops key max_age now e h =
    let c = run (new_cache ttl max_bytes) ops in
    let hit = get_hit key max_age now c e h in
    let a =
      run-Agrees (new_cache ttl max_bytes) ops nothing (new_cache-Inv ttl max_bytes)
        (new_cache-Agrees ttl max_bytes) in
    (a.at key e hit.0, hit.1, hit.2)
