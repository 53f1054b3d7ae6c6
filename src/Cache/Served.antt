-- ===== src/Cache/Served.antt =====
-- The response cache between the requests (`handle` and `collectForCache` of
-- apps/api/src/proxy/proxy.service.ts): whose response a request is served.
use firecrawl_gateway.Prelude.{
  Any, here, there, Any-head, ℕ, true, List, [], ◌∷◌, Option, none, some, ◌≡◌, ◌⊎◌, inl, inr, sym,
  arith, All, Option-cases, some-injective, subst, ap, ◌∙◌, ◌===◌, ◌&&◌, Bool-cases,
}
use firecrawl_gateway.Prelude.Text.{Text, codes_eq}
use firecrawl_gateway.Prelude.Json.{Fields, obj}
use firecrawl_gateway.Cache.{CachedResponse, ResponseCache, new_cache, get}
use firecrawl_gateway.Cache.History.{
  Op, stores, fetches, retunes, Latest, step, run, latest_of, note, accepts, nothing, run_hit,
}
use firecrawl_gateway.Cache.Lookup.{
  CachePlatform, CacheLookup, CacheEligibilityInput, cache_lookup_for, canonical_json, material,
  is_eligible, key_text,
}
use firecrawl_gateway.Cache.Clients.{IsOneLine, same_key_text, cache_lookup_for-key}

-- A response that has been collected for the cache, a request that looks in it, or a new lifetime.
pub data Exchange : Type 0 where
  collected : CacheEligibilityInput → CachedResponse → ℕ → Exchange
  asked : CacheEligibilityInput → ℕ → Exchange
  retuned : ℕ → Exchange

-- The call of the cache; a request that is not cacheable makes none. `handle` asks `enabled` first,
-- which changes nothing: a cache that is not enabled is empty and stores nothing.
unfoldable pub call_of : CachePlatform → Exchange → Option Op
unfolding cache_lookup_for
call_of p (collected input entry now) = elim (cache_lookup_for p input) [
  | none ↦ none
  | some l ↦ some (stores l.key entry now)
]
call_of p (asked input now) = elim (cache_lookup_for p input) [
  | none ↦ none
  | some l ↦ some (fetches l.key l.max_age_ms now)
]
call_of p (retuned ttl) = some (retunes ttl)

abbrev with_call : Option Op → List Op → List Op
with_call none ops = ops
with_call (some op) ops = op ∷ ops

unfoldable pub calls_of : CachePlatform → List Exchange → List Op
unfolding call_of
calls_of p [] = []
calls_of p (x ∷ xs) = with_call (call_of p x) (calls_of p xs)

abbrev Stores : Text → CachedResponse → Op → Type 0
Stores key e (stores k entry now) = (k ≡ key) × (e ≡ record entry { stored_at = now })
Stores key e _ = ⊥

note-Stores :
    (c : ResponseCache) (op : Op) (latest : Latest) (key : Text) (e : CachedResponse)
    → note c op latest key ≡ some e
    → (latest key ≡ some e) ⊎ Stores key e op
unfolding note
note-Stores c (stores k entry now) latest key e h =
    elim (Bool-cases (accepts c entry && k === key)) [
      | inl q ↦ let h' = rw q at h in inr (ground (arith, codes_eq.equal_iff k key), ground arith)
      | inr q ↦ inl (rw q at h)
    ]
note-Stores c (fetches k max_age now) latest key e h = inl h
note-Stores c (retunes ttl) latest key e h = inl h

latest_of-Stores :
    (c : ResponseCache) (ops : List Op) (latest : Latest) (key : Text) (e : CachedResponse)
    → latest_of c ops latest key ≡ some e
    → (latest key ≡ some e) ⊎ Any (Stores key e) ops
unfolding latest_of
latest_of-Stores c [] latest key e h = inl h
latest_of-Stores c (op ∷ ops) latest key e h =
    elim (latest_of-Stores (step c op) ops (note c op latest) key e h) [
      | inr a ↦ inr (there a)
      | inl q ↦ elim (note-Stores c op latest key e q) [ inl n ↦ inl n | inr s ↦ inr (here s) ]
    ]

-- The exchange collected `e`, for a request whose lookup has the key.
abbrev CollectedAs : CachePlatform → Text → CachedResponse → Exchange → Type 0
CollectedAs p key e (collected input entry now) =
    (l : CacheLookup) × (cache_lookup_for p input ≡ some l)
    × (l.key ≡ key)
    × (e ≡ record entry { stored_at = now })
CollectedAs p key e _ = ⊥

call_of-CollectedAs :
    (p : CachePlatform) (key : Text) (e : CachedResponse) (x : Exchange) (op : Op)
    → call_of p x ≡ some op
    → Stores key e op
    → CollectedAs p key e x
unfolding call_of
call_of-CollectedAs p key e (collected input entry now) op h s =
    elim (Option-cases (cache_lookup_for p input)) [
      | inl q ↦ let h' = rw (q, call_of) at h in ground arith
      | inr (l, q) ↦
          let h' = some-injective (stores l.key entry now) op (rw (q, call_of) at h) in
          let s' = subst (Stores key e) (sym h') s in (l, q, s'.0, s'.1)
    ]
call_of-CollectedAs p key e (asked input now) op h s =
    elim (Option-cases (cache_lookup_for p input)) [
      | inl q ↦ let h' = rw (q, call_of) at h in ground arith
      | inr (l, q) ↦
          subst (Stores key e)
            (sym (some-injective (fetches l.key l.max_age_ms now) op (rw (q, call_of) at h))) s
    ]
call_of-CollectedAs p key e (retuned ttl) op h s =
    subst (Stores key e) (sym (some-injective (retunes ttl) op h)) s

calls_of-CollectedAs :
    (p : CachePlatform) (key : Text) (e : CachedResponse) (history : List Exchange)
    → Any (Stores key e) (calls_of p history)
    → Any (CollectedAs p key e) history
unfolding calls_of
calls_of-CollectedAs p key e [] a = elim a [ ]
calls_of-CollectedAs p key e (x ∷ xs) a = elim (Option-cases (call_of p x)) [
  | inl q ↦ there (calls_of-CollectedAs p key e xs (rw (q, calls_of) at a))
  | inr (op, q) ↦ elim (Any-head op (calls_of p xs) (rw (q, calls_of) at a)) [
    | inl s ↦ here (call_of-CollectedAs p key e x op q s)
    | inr b ↦ there (calls_of-CollectedAs p key e xs b)
  ]
]

abbrev IsWrittenId : Option Text → Type 0
IsWrittenId none = Unit {0}
IsWrittenId (some id) = IsOneLine id

-- The identifier of the client's key and the request's target have no line feed.
abbrev pub IsWritten : CacheEligibilityInput → Type 0
IsWritten input = IsOneLine input.upstream_url × IsWrittenId input.api_key_id

abbrev pub AreWritten : List Exchange → Type 0
AreWritten = All (λ x. elim x [ collected input entry now ↦ IsWritten input | _ ↦ Unit {0} ])

-- `source` is a request of the same client for the same target, whose body, but
-- for the fields that control caching, has the same canonical text.
pub record IsAnswerFor (p : CachePlatform) (input source : CacheEligibilityInput) : Type 0 where
  pub client : source.api_key_id ≡ input.api_key_id
  pub target : source.upstream_url ≡ input.upstream_url
  pub public : is_eligible source ≡ true
  pub asks :
      (fs gs : Fields) × (p.parse source.body_buffer ≡ some (obj fs))
      × (p.parse input.body_buffer ≡ some (obj gs))
      × (canonical_json p (obj (material fs)) ≡ canonical_json p (obj (material gs)))

same_key-IsAnswerFor :
    (p : CachePlatform) (input source : CacheEligibilityInput) (l m : CacheLookup)
    → ((s t : Text) → p.digest s ≡ p.digest t → s ≡ t)
    → IsWritten input
    → IsWritten source
    → cache_lookup_for p input ≡ some l
    → cache_lookup_for p source ≡ some m
    → m.key ≡ l.key
    → IsAnswerFor p input source
same_key-IsAnswerFor p input source l m inj w v h k q =
    let (id, fs, ok, key) = cache_lookup_for-key p input l h in
    let (id', gs, ok', key') = cache_lookup_for-key p source m k in
    let text =
      inj (key_text p id' source.upstream_url gs) (key_text p id input.upstream_url fs) cc in
    let (same_id, same_url, same_body) =
      same_key_text p id' id source.upstream_url input.upstream_url gs fs
        (subst IsWrittenId ok'.client v.1) (subst IsWrittenId ok.client w.1) v.0 w.0 text in
    record {
      client = ok'.client ∙ ap some same_id ∙ sym ok.client;
      target = same_url;
      public = ok'.public;
      asks = (gs, fs, ok'.body, ok.body, same_body);
    }

-- The exchange collected `e`, in answer to such a request.
abbrev pub Answered : CachePlatform → CacheEligibilityInput → CachedResponse → Exchange → Type 0
Answered p input e (collected source entry now) =
    IsAnswerFor p input source × (e ≡ record entry { stored_at = now })
Answered p input e _ = ⊥

CollectedAs-Answered :
    (p : CachePlatform) (input : CacheEligibilityInput) (l : CacheLookup) (e : CachedResponse)
    (history : List Exchange)
    → ((s t : Text) → p.digest s ≡ p.digest t → s ≡ t)
    → IsWritten input
    → AreWritten history
    → cache_lookup_for p input ≡ some l
    → Any (CollectedAs p l.key e) history
    → Any (Answered p input e) history
CollectedAs-Answered p input l e [] inj w ws h a = elim a [ ]
CollectedAs-Answered p input l e (x ∷ xs) inj w ws h (there a) =
    there (CollectedAs-Answered p input l e xs inj w ws.1 h a)
CollectedAs-Answered p input l e (collected source entry now ∷ xs) inj w ws h (here c) =
    here (same_key-IsAnswerFor p input source l c.0 inj w ws.0 h c.1 c.2, c.3)
CollectedAs-Answered p input l e (asked source now ∷ xs) inj w ws h (here c) = elim c [ ]
CollectedAs-Answered p input l e (retuned ttl ∷ xs) inj w ws h (here c) = elim c [ ]

-- Whatever was collected, asked and retuned before, a request that is answered from the cache is
-- answered with a response that was collected for a request of the same client for the same target
-- with the same canonical body, and that request, too, had no sensitive header and no private
-- target. Hashes do not collide, and no client's identifier and no request's target has a line feed.
pub served_to_its_client :
    (p : CachePlatform) (ttl max_bytes : ℕ) (history : List Exchange)
    (input : CacheEligibilityInput) (l : CacheLookup) (now : ℕ) (e : CachedResponse)
    → ((s t : Text) → p.digest s ≡ p.digest t → s ≡ t)
    → AreWritten history
    → IsWritten input
    → cache_lookup_for p input ≡ some l
    → (get l.key l.max_age_ms now (run (new_cache ttl max_bytes) (calls_of p history))).1 ≡ some e
    → Any (Answered p input e) history
served_to_its_client p ttl max_bytes history input l now e inj ws w h hit =
    let ops = calls_of p history in
    let latest = run_hit ttl max_bytes ops l.key l.max_age_ms now e hit in
    elim (latest_of-Stores (new_cache ttl max_bytes) ops nothing l.key e latest.0) [
      | inl q ↦ ground arith
      | inr a ↦
          CollectedAs-Answered p input l e history inj w ws h
            (calls_of-CollectedAs p l.key e history a)
    ]
