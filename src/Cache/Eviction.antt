-- ===== src/Cache/Eviction.antt =====
-- What `set` of proxy/response-cache.ts keeps.
use firecrawl_gateway.Prelude.{
  ℕ, ◌+◌, ◌-◌, ◌≤◌, ◌<◌, true, [], ◌∷◌, ◌++◌, some, ◌≡◌, refl, subst, ap, arith, length,
  length-append, ltb, le→ltb_false, Bool-cases, Option-cases, inl, inr,
}
use firecrawl_gateway.Prelude.OrderedMap
use firecrawl_gateway.Prelude.OrderedMap.{
  Fresh, Distinct, Fresh-get, delete_absent, set_absent, get-Fresh,
}
use firecrawl_gateway.Prelude.Text.{Text, codes_eq}
use firecrawl_gateway.Cache.{
  CachedResponse, Entries, ResponseCache, max_cached_entry_bytes, enabled, remove, evict, insert,
  set,
}
use firecrawl_gateway.Cache.Invariant.{Inv, bytes, remove-Inv, bytes-set-Fresh}

-- `kept` is an end of `m`, and no longer end of `m` fits into `max` bytes.
pub record IsLongestEnd (max : ℕ) (m kept : Entries) : Type 0 where
  pub dropped : Entries
  pub split : m ≡ dropped ++ kept
  pub fits : bytes kept ≤ max
  pub longest : (xs ys : Entries) → m ≡ xs ++ ys → bytes ys ≤ max → length ys ≤ length kept

length-end : (m xs ys : Entries) → m ≡ xs ++ ys → length ys ≤ length m
length-end m xs ys h = omega (arith, ap (length {A = Text × CachedResponse}) h, length-append xs ys)

whole-IsLongestEnd : (max : ℕ) (m : Entries) → bytes m ≤ max → IsLongestEnd max m m
whole-IsLongestEnd max m h = record {
  dropped = [];
  split = refl;
  fits = h;
  longest = λ xs ys e _. length-end m xs ys e;
}

longest-cons :
    (max : ℕ) (k : Text) (x : CachedResponse) (m kept : Entries)
    → max < bytes ((k, x) ∷ m)
    → IsLongestEnd max m kept
    → (xs ys : Entries) → (k, x) ∷ m ≡ xs ++ ys
    → bytes ys ≤ max
    → length ys ≤ length kept
longest-cons max k x m kept big v [] ys e h = absurd (omega (arith, ap bytes e))
longest-cons max k x m kept big v (y ∷ xs) ys e h = v.longest xs ys (cc) h

cons-IsLongestEnd :
    (max : ℕ) (k : Text) (x : CachedResponse) (m kept : Entries)
    → max < bytes ((k, x) ∷ m)
    → IsLongestEnd max m kept
    → IsLongestEnd max ((k, x) ∷ m) kept
cons-IsLongestEnd max k x m kept big v = record {
  dropped = (k, x) ∷ v.dropped;
  split = ap (◌∷◌ (k, x)) v.split;
  fits = v.fits;
  longest = longest-cons max k x m kept big v;
}

evict-IsLongestEnd :
    (max : ℕ) (m : Entries) (total : ℕ) → total ≡ bytes m → IsLongestEnd max m (evict max m total).0
unfolding evict
evict-IsLongestEnd max [] total h = whole-IsLongestEnd max [] (omega arith)
evict-IsLongestEnd max ((k, x) ∷ m) total h = elim (Bool-cases (ltb max total)) [
  | inl e ↦
      rw (e, evict)
        (cons-IsLongestEnd max k x m _ (ground arith)
          (evict-IsLongestEnd max m (total - length x.body) (omega arith)))
  | inr e ↦ rw (e, evict) (whole-IsLongestEnd max ((k, x) ∷ m) (ground arith))
]

-- The entries in the order of use, were nothing evicted.
abbrev pub with_newest : Text → CachedResponse → ResponseCache → Entries
with_newest key entry c = OrderedMap.delete key c.entries ++ (key, entry) ∷ []

store-IsLongestEnd :
    (key : Text) (entry : CachedResponse) (c : ResponseCache)
    → Inv c
    → Fresh key c.entries
    → IsLongestEnd c.max_bytes
        (c.entries ++ (key, entry) ∷ [])
        (evict c.max_bytes
          (OrderedMap.set key entry c.entries)
          (c.total_bytes + length entry.body)).0
store-IsLongestEnd key entry c v f = rw (← set_absent key entry c.entries f) (
    evict-IsLongestEnd c.max_bytes (OrderedMap.set key entry c.entries)
      (c.total_bytes + length entry.body)
      (omega (arith, v.counted, bytes-set-Fresh key entry c.entries f)))

remove-entries :
    (key : Text) (entry previous : CachedResponse) (c : ResponseCache)
    → OrderedMap.get key c.entries ≡ some previous
    → (remove key entry c).entries ≡ OrderedMap.delete key c.entries
unfolding remove
remove-entries key entry previous c h = rw (h, OrderedMap.has)

insert-IsLongestEnd :
    (key : Text) (entry : CachedResponse) (c : ResponseCache)
    → Inv c
    → IsLongestEnd c.max_bytes (with_newest key entry c) (insert key entry c).entries
unfolding insert
insert-IsLongestEnd key entry c v = elim (Option-cases (OrderedMap.get key c.entries)) [
  | inl e ↦
      let f = Fresh-get key c.entries e in
      rw (e, insert) (rw (delete_absent key c.entries f) (store-IsLongestEnd key entry c v f))
  | inr (previous, e) ↦
      let r = remove-Inv key previous c e v in
      let c' = remove key previous c in
      let kept =
        (evict c'.max_bytes (OrderedMap.set key entry c'.entries)
          (c'.total_bytes + length entry.body)).0 in
      rw (e, insert)
        (subst (λ m. IsLongestEnd c.max_bytes (m ++ (key, entry) ∷ []) kept)
          (remove-entries key previous previous c e)
          (subst (λ n. IsLongestEnd n (c'.entries ++ (key, entry) ∷ []) kept) r.2
            (store-IsLongestEnd key entry c' r.0 r.1)))
]

-- A response that is stored becomes the most recent entry, its key's earlier entry goes, and of
-- the others exactly the least recently used ones go that must: what stays is the longest run of
-- most recent entries whose bodies fit the bound.
pub set-IsLongestEnd :
    (key : Text) (entry : CachedResponse) (now : ℕ) (c : ResponseCache)
    → Inv c
    → enabled c ≡ true
    → length entry.body ≤ max_cached_entry_bytes
    → length entry.body ≤ c.max_bytes
    → IsLongestEnd c.max_bytes
        (with_newest key (record entry { stored_at = now }) c)
        (set key entry now c).entries
unfolding set
set-IsLongestEnd key entry now c v on small fits = rw on (
    rw (le→ltb_false (length entry.body) max_cached_entry_bytes small) (
      rw (le→ltb_false (length entry.body) c.max_bytes fits)
        (insert-IsLongestEnd key (record entry { stored_at = now }) c v)))
