-- ===== src/Cache/Tests.antt =====
-- Tests of the response cache (proxy/response-cache.ts), and its theorems at concrete inputs.
use firecrawl_gateway.Prelude.{ℕ, ◌≡◌, refl, List, [], ◌∷◌, none, some, arith}
use firecrawl_gateway.Prelude.OrderedMap
use firecrawl_gateway.Prelude.Text.{Text, codes, codes_eq, codes_beq}
use firecrawl_gateway.Cache.{
  CachedResponse, ResponseCache, new_cache, enabled, get, insert, remove, evict, set,
}
use firecrawl_gateway.Cache.Invariant.{Inv}
use firecrawl_gateway.Cache.Eviction.{IsLongestEnd, with_newest, set-IsLongestEnd}
use firecrawl_gateway.Cache.History.{
  Op, stores, run, run-new_cache-Inv, run_hit, latest_of, nothing,
}

abbrev response_of : Text → ℕ → CachedResponse
response_of body now = record { status = 200; content_type = []; body = body; stored_at = now }

-- Two bodies of three bytes in a cache of five: the second evicts the first.
abbrev two_stores : List Op
two_stores =
    stores (codes "a") (response_of (codes "one") 0) 10
    ∷ stores (codes "b") (response_of (codes "two") 0) 20
    ∷ []

evicts_the_first : OrderedMap.get (codes "a") (run (new_cache 100 5) two_stores).entries ≡ none
unfolding run new_cache set insert remove evict OrderedMap.get OrderedMap.set codes_beq
evicts_the_first = refl

run-new_cache-Inv_example : Inv (run (new_cache 100 5) two_stores)
run-new_cache-Inv_example = run-new_cache-Inv 100 5 two_stores

run_hit_example :
    latest_of (new_cache 100 5) two_stores nothing (codes "b") ≡ some (response_of (codes "two") 20)
unfolding run new_cache get set insert remove evict OrderedMap.get OrderedMap.set codes_beq
run_hit_example =
    (run_hit 100 5 two_stores (codes "b") none 30 (response_of (codes "two") 20) refl).0

abbrev one_entry : ResponseCache
one_entry = record {
  entries = (codes "a", response_of (codes "one") 10) ∷ [];
  total_bytes = 3;
  ttl_ms = 100;
  max_bytes = 5;
}

set-IsLongestEnd_example :
    IsLongestEnd 5
      (with_newest (codes "b") (response_of (codes "two") 20) one_entry)
      (set (codes "b") (response_of (codes "two") 0) 20 one_entry).entries
unfolding enabled
set-IsLongestEnd_example =
    set-IsLongestEnd (codes "b") (response_of (codes "two") 0) 20 one_entry (omega arith) refl
      (omega arith) (omega arith)
