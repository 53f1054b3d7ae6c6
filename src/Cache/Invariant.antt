-- ===== src/Cache/Invariant.antt =====
-- The bookkeeping of the response cache (proxy/response-cache.ts).
use firecrawl_gateway.Prelude.{
  ℕ, ◌+◌, ◌-◌, ◌≤◌, [], ◌∷◌, Option, some, ◌≡◌, refl, arith, length, Option-cases, inl, inr, ◌∙◌,
}
use firecrawl_gateway.Prelude.OrderedMap
use firecrawl_gateway.Prelude.OrderedMap.{
  Fresh, Distinct, delete-Distinct, set-Distinct, get-delete, Fresh-get, delete-Fresh,
}
use firecrawl_gateway.Prelude.Text.{Text, codes_eq}
use firecrawl_gateway.Prelude.Json.{Number}
use firecrawl_gateway.Cache.{
  CachedResponse, Entries, ResponseCache, set_ttl_ms, remove, refresh, get, evict, insert, set,
}

abbrev pub bytes : Entries → ℕ
bytes [] = 0
bytes ((key, entry) ∷ entries) = length entry.body + bytes entries

pub record Inv (c : ResponseCache) : Type 0 where
  pub distinct : Distinct c.entries
  pub counted : c.total_bytes ≡ bytes c.entries
  pub bounded : c.total_bytes ≤ c.max_bytes

bytes-delete :
    (key : Text) (entry : CachedResponse) (m : Entries)
    → OrderedMap.get key m ≡ some entry
    → bytes (OrderedMap.delete key m) + length entry.body ≡ bytes m
unfolding OrderedMap.get OrderedMap.delete
bytes-delete key entry [] h = cc
bytes-delete key entry ((k, e) ∷ m) h = ground (arith, bytes-delete key entry m)

pub bytes-set-Fresh :
    (key : Text) (entry : CachedResponse) (m : Entries)
    → Fresh key m
    → bytes (OrderedMap.set key entry m) ≡ bytes m + length entry.body
unfolding OrderedMap.set
bytes-set-Fresh key entry [] f = omega arith
bytes-set-Fresh key entry ((k, e) ∷ m) f = ground (arith, bytes-set-Fresh key entry m f.1)

-- After `delete` the key is gone.
pub delete-Fresh_self :
    (key : Text) (m : Entries) → Distinct m → Fresh key (OrderedMap.delete key m)
delete-Fresh_self key m d =
    Fresh-get key _ (get-delete key key m d ∙ rw ((codes_eq.equal_iff key key).1 refl) refl)

pub remove-Inv :
    (key : Text) (entry : CachedResponse) (c : ResponseCache)
    → OrderedMap.get key c.entries ≡ some entry
    → Inv c
    → Inv (remove key entry c)
      × Fresh key (remove key entry c).entries
      × ((remove key entry c).max_bytes ≡ c.max_bytes)
unfolding remove
remove-Inv key entry c h v =
    let b = bytes-delete key entry c.entries h in
    rw (h, OrderedMap.has)
      (
        record {
          distinct = delete-Distinct key c.entries v.distinct;
          counted = omega (arith, v.counted, b);
          bounded = omega (arith, v.bounded);
        },
        delete-Fresh_self key c.entries v.distinct,
        refl,
      )

refresh-Inv :
    (key : Text) (entry : CachedResponse) (c : ResponseCache)
    → OrderedMap.get key c.entries ≡ some entry
    → Inv c
    → Inv (refresh key entry c)
unfolding refresh
refresh-Inv key entry c h v = record {
  distinct = set-Distinct key entry _ (delete-Distinct key c.entries v.distinct);
  counted = omega (
    arith,
    v.counted,
    bytes-delete key entry c.entries h,
    bytes-set-Fresh key entry (OrderedMap.delete key c.entries)
        (delete-Fresh_self key c.entries v.distinct),
  );
  bounded = v.bounded;
}

pub get-Inv :
    (key : Text) (max_age : Option Number) (now : ℕ) (c : ResponseCache)
    → Inv c
    → Inv (get key max_age now c).0
unfolding get
get-Inv key max_age now c v = elim (Option-cases (OrderedMap.get key c.entries)) [
  | inl e ↦ rw (e, get) v
  | inr (entry, e) ↦
      rw (e, get) (ground (arith, (remove-Inv key entry c e v).0, refresh-Inv key entry c e v))
]

-- What `evict` keeps is an end of the list, its total is right, and it fits.
evict-Fresh :
    (max : ℕ) (k : Text) (m : Entries) (total : ℕ) → Fresh k m → Fresh k (evict max m total).0
unfolding evict
evict-Fresh max k [] total f = tt
evict-Fresh max k ((j, e) ∷ m) total f =
    ground (arith, evict-Fresh max k m (total - length e.body) f.1)

pub evict-Distinct :
    (max : ℕ) (m : Entries) (total : ℕ) → Distinct m → Distinct (evict max m total).0
unfolding evict
evict-Distinct max [] total d = tt
evict-Distinct max ((j, e) ∷ m) total d =
    ground (arith, evict-Distinct max m (total - length e.body) d.1)

pub evict-bytes :
    (max : ℕ) (m : Entries) (total : ℕ)
    → total ≡ bytes m
    → ((evict max m total).1 ≡ bytes (evict max m total).0) × ((evict max m total).1 ≤ max)
unfolding evict
evict-bytes max [] total h = omega arith
evict-bytes max ((j, e) ∷ m) total h =
    ground (arith, evict-bytes max m (total - length e.body) (omega arith))

fit-Inv :
    (c : ResponseCache) (m : Entries) (total : ℕ)
    → Distinct m
    → total ≡ bytes m
    → Inv (record c {
      entries = (evict c.max_bytes m total).0;
      total_bytes = (evict c.max_bytes m total).1;
    })
fit-Inv c m total d h =
    let b = evict-bytes c.max_bytes m total h in
    record { distinct = evict-Distinct c.max_bytes m total d; counted = b.0; bounded = b.1 }

store-Inv :
    (key : Text) (entry : CachedResponse) (c : ResponseCache)
    → Inv c
    → Fresh key c.entries
    → let m = OrderedMap.set key entry c.entries in
      let total = c.total_bytes + length entry.body in
      Inv (record c {
        entries = (evict c.max_bytes m total).0;
        total_bytes = (evict c.max_bytes m total).1;
      })
store-Inv key entry c v f =
    fit-Inv c (OrderedMap.set key entry c.entries) (c.total_bytes + length entry.body)
      (set-Distinct key entry c.entries v.distinct)
      (omega (arith, v.counted, bytes-set-Fresh key entry c.entries f))

pub insert-Inv :
    (key : Text) (entry : CachedResponse) (c : ResponseCache) → Inv c → Inv (insert key entry c)
unfolding insert
insert-Inv key entry c v = elim (Option-cases (OrderedMap.get key c.entries)) [
  | inl e ↦ rw (e, insert) (store-Inv key entry c v (Fresh-get key c.entries e))
  | inr (previous, e) ↦
      let r = remove-Inv key previous c e v in
      rw (e, insert) (store-Inv key entry (remove key previous c) r.0 r.1)
]

pub set-Inv :
    (key : Text) (entry : CachedResponse) (now : ℕ) (c : ResponseCache)
    → Inv c
    → Inv (set key entry now c)
unfolding set
set-Inv key entry now c v = ground (arith, insert-Inv key (record entry { stored_at = now }) c v)

pub set_ttl_ms-Inv : (ttl : ℕ) (c : ResponseCache) → Inv c → Inv (set_ttl_ms ttl c)
unfolding set_ttl_ms
set_ttl_ms-Inv ttl c v = ground arith
