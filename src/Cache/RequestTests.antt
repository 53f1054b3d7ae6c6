-- ===== src/Cache/RequestTests.antt =====
-- Tests of the lookups and of what is stored (proxy/response-cache.ts, proxy/proxy.service.ts), and
-- their theorems at concrete inputs.
use firecrawl_gateway.Prelude.{
  Any, ◌≡◌, ◌↔◌, refl, true, false, List, [], ◌∷◌, Option, none, some, ◌===◌, if◌then◌else◌,
}
use firecrawl_gateway.Prelude.OrderedMap
use firecrawl_gateway.Prelude.Text.{Text, codes, codes_eq, codes_beq}
use firecrawl_gateway.Prelude.Chars.{every}
use firecrawl_gateway.Prelude.Json.{Json, str, bool, num, plus, obj, Fields, end, field}
use firecrawl_gateway.Common.{cloud, response, ProxyResult}
use firecrawl_gateway.Policy.{to}
use firecrawl_gateway.Cache.{CachedResponse, new_cache, get, insert, remove, evict, set}
use firecrawl_gateway.Cache.History.{run, step}
use firecrawl_gateway.Cache.Lookup.{
  CachePlatform, CacheLookup, CacheEligibilityInput, is_inspected, cache_lookup_for,
}
use firecrawl_gateway.Cache.Reordered.{swap}
use firecrawl_gateway.Cache.FieldOrder.{cache_lookup_for-Reordered}
use firecrawl_gateway.Cache.Served.{
  Exchange, collected, calls_of, call_of, Answered, served_to_its_client,
}
use firecrawl_gateway.Cache.Collect.{Read, chunk, finished, timed_out, collect, capture_for_cache}
use firecrawl_gateway.Cache.Collected.{
  IsWhole, collect_iff, IsStorable, capture_for_cache-IsStorable,
}

abbrev url_first : Fields
url_first = field (codes "url") (str (codes "u")) (field (codes "wait") (num (plus 1)) end)

abbrev wait_first : Fields
wait_first = field (codes "wait") (num (plus 1)) (field (codes "url") (str (codes "u")) end)

-- Two texts that parse to the two objects, and hashes that do not collide.
abbrev platform : CachePlatform
platform = record {
  parse = λ t. if t === codes "uw" then some (obj url_first) else some (obj wait_first);
  string = λ t. t;
  number = λ n. codes "1";
  digest = λ t. t;
}

abbrev scrape : Text → CacheEligibilityInput
scrape body = record {
  method = codes "POST";
  upstream_url = codes "/v1/scrape";
  path = codes "/v1/scrape";
  headers = [];
  api_key_id = some (codes "k");
  body_buffer = body;
  initial_backend = to cloud;
  needs_cloud = record { required = false; reason = none };
  privacy = record { has_sensitive_headers = false; has_private_target_url = false };
}

scrape_key :
    cache_lookup_for platform (scrape (codes "uw"))
    ≡ some (record { key = codes "k\n/v1/scrape\n{url:u,wait:1}"; max_age_ms = none })
unfolding cache_lookup_for codes_beq
scrape_key = refl

cache_lookup_for-Reordered_example :
    cache_lookup_for platform (scrape (codes "uw"))
    ≡ cache_lookup_for platform (scrape (codes "wu"))
unfolding is_inspected codes_beq
cache_lookup_for-Reordered_example =
    cache_lookup_for-Reordered platform (scrape (codes "uw")) (codes "wu") url_first wait_first refl
      refl refl refl (swap refl)

abbrev answer : CachedResponse
answer = record { status = 200; content_type = []; body = codes "one"; stored_at = 0 }

-- The answer of one client is collected; the same client asks with the fields in another order.
abbrev history : List Exchange
history = collected (scrape (codes "uw")) answer 10 ∷ []

abbrev lookup : CacheLookup
lookup = record { key = codes "k\n/v1/scrape\n{url:u,wait:1}"; max_age_ms = none }

is_a_hit :
    (get lookup.key lookup.max_age_ms 20 (run (new_cache 100 5) (calls_of platform history))).1
    ≡ some (record answer { stored_at = 10 })
unfolding calls_of call_of cache_lookup_for run step new_cache set get insert remove evict
    OrderedMap.get OrderedMap.set codes_beq
is_a_hit = refl

served_to_its_client_example :
    Any (Answered platform (scrape (codes "wu")) (record answer { stored_at = 10 })) history
unfolding cache_lookup_for codes_beq every
served_to_its_client_example =
    served_to_its_client platform 100 5 history (scrape (codes "wu")) lookup 20
      (record answer { stored_at = 10 }) (λ s t h. h) ((refl, refl), tt) (refl, refl) refl is_a_hit

abbrev reads : List Read
reads = chunk (codes "u") ∷ chunk (codes "w") ∷ finished ∷ []

collects : collect [] 0 reads ≡ some (codes "uw")
unfolding collect
collects = refl

is_late : collect [] 0 (chunk (codes "u") ∷ timed_out ∷ finished ∷ []) ≡ none
unfolding collect
is_late = refl

collect_iff_example : (collect [] 0 reads ≡ some (codes "uw")) ↔ IsWhole reads [] 0 (codes "uw")
collect_iff_example = collect_iff reads (codes "uw")

abbrev scraped : ProxyResult
scraped = record {
  kind = response;
  backend = cloud;
  response = some (record { status = 200; content_type = some (codes "application/json") });
  error = none;
  body = none;
  stream = some [];
}

abbrev parse_success : Text → Option Json
parse_success t = some (obj (field (codes "success") (bool true) end))

abbrev stored : CachedResponse
stored = record {
  status = 200;
  content_type = codes "application/json";
  body = codes "uw";
  stored_at = 0;
}

capture_for_cache-IsStorable_example : IsStorable parse_success scraped reads stored
unfolding capture_for_cache collect codes_beq
capture_for_cache-IsStorable_example =
    capture_for_cache-IsStorable parse_success scraped reads stored refl
