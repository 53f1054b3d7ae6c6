-- ===== src/Proxy/Tests.antt =====
-- Tests of proxy/proxy.service.ts, and its theorems at concrete inputs.
use firecrawl_gateway.Prelude.{
  ℕ, ◌+◌, ◌≤◌, true, false, List, [], ◌∷◌, none, some, ◌≡◌, refl, arith, length,
}
use firecrawl_gateway.Prelude.Text.{Text, codes, codes_beq, codes_eq}
use firecrawl_gateway.Prelude.OrderedMap.{get, delete}
use firecrawl_gateway.Prelude.Sets.{contains, add}
use firecrawl_gateway.Common.{Backend, cloud, self_hosted, has_actions}
use firecrawl_gateway.Policy.{cloud_first, self_hosted_first}
use firecrawl_gateway.Breaker.{new_breaker}
use firecrawl_gateway.Credits.{
  unavailable, LedgerStore, new_routing, reserve, reserve_locally, record_response, disable_key,
}
use firecrawl_gateway.Proxy.Calls.{proxy_cloud}
use firecrawl_gateway.Proxy.{
  proxy_to_backend, RoutePlan, UpstreamCall, FetchResult, answered, failed, Gateway, ProxyState,
  no_fallback, Outcome, result_of,
}
use firecrawl_gateway.Proxy.Headers.{is_json_content_type, HeaderValue, one, sanitize_headers}
use firecrawl_gateway.Proxy.Sanitizing.{IsSanitized, sanitize_headers-IsSanitized}
use firecrawl_gateway.Proxy.Routing.{route, rotate_loop}
use firecrawl_gateway.Proxy.Stages.{Dispatched, route-Dispatched}
use firecrawl_gateway.Proxy.Once.{IsFresh, route-Once}
use firecrawl_gateway.Proxy.Counts.{self_hosted_calls, cloud_ids, NoRepeat}
use firecrawl_gateway.Proxy.Rotation.{rotate_loop_ends}
use firecrawl_gateway.Proxy.Safety.{cloud_calls, private_request_stays, required_request_stays}

abbrev without_redis : LedgerStore ℕ
without_redis = record {
  reserve_credits = λ now ids amount l. (unavailable, l);
  capture = λ id l. (record { available = false; sequence = 0 }, l);
  settle = λ now id reservation action until l. l;
  settle_actual_usage = λ id reservation used l. l;
  reconcile = λ now id credits sequence renews_at l. l;
}

abbrev answer : ℕ → FetchResult
answer status =
    answered (record { status = status; content_type = some (codes "text/html") })
      (some (codes "{}"))

-- Cloud answers 402 to the first call and 200 to later ones, and self-hosted cannot be reached.
abbrev fetch_from : Backend → List UpstreamCall → FetchResult
fetch_from self_hosted calls = failed (codes "fetch failed")
fetch_from cloud [] = answer 402
fetch_from cloud (call ∷ calls) = answer 200

abbrev gateway : Gateway ℕ
gateway = record {
  store = without_redis;
  key_id = λ key. key;
  pick = λ n. 0;
  breaker_options = record { failure_threshold = 3; cooldown_ms = 1000 };
  time = λ n. n;
  fetch = λ calls call. fetch_from call.backend calls;
}

abbrev two_keys : List Text
two_keys = codes "fc-a" ∷ codes "fc-b" ∷ []

abbrev start : ProxyState ℕ
start = record {
  cloud_api_keys = two_keys;
  fallback_api_keys = [];
  self_hosted_attempted = false;
  upstream_attempted = false;
  attempted_cloud_key_ids = [];
  credits = new_routing;
  ledger = 0;
  breaker = new_breaker;
  calls = [];
}

start-IsFresh : IsFresh start
start-IsFresh = record { no_calls = refl; no_ids = refl; not_attempted = refl }

abbrev cloud_plan : RoutePlan
cloud_plan = record {
  body_buffer = [];
  needs_cloud = record { required = true; reason = some has_actions };
  privacy = record { has_sensitive_headers = false; has_private_target_url = false };
  initial_backend = cloud;
  cloud_api_keys = two_keys;
  fallback_api_keys = [];
  estimated_credits = 1;
}

-- The same body with a cookie, which starts on self-hosted.
abbrev private_plan : RoutePlan
private_plan = record cloud_plan {
  needs_cloud = record { required = false; reason = none };
  privacy = record { has_sensitive_headers = true; has_private_target_url = false };
  initial_backend = self_hosted;
}

route-Dispatched_example :
    Dispatched gateway cloud_first cloud_plan start (route gateway cloud_first cloud_plan start)
route-Dispatched_example = route-Dispatched gateway cloud_first cloud_plan start refl

route-Once_example :
    (self_hosted_calls (route gateway cloud_first cloud_plan start).1.calls ≤ 1)
    × NoRepeat (cloud_ids gateway.key_id (route gateway cloud_first cloud_plan start).1.calls)
route-Once_example = route-Once gateway cloud_first cloud_plan start start-IsFresh

private_request_stays_example :
    cloud_calls (route gateway self_hosted_first private_plan start).1.calls ≡ 0
private_request_stays_example =
    private_request_stays gateway self_hosted_first private_plan start start-IsFresh refl refl

required_request_stays_example :
    self_hosted_calls (route gateway cloud_first cloud_plan start).1.calls ≡ 0
required_request_stays_example =
    required_request_stays gateway cloud_first cloud_plan start start-IsFresh refl refl

abbrev refused : Outcome
refused = record {
  result = result_of cloud (answer 402);
  fallback_used = false;
  fallback_reason = no_fallback;
}

rotate_loop_ends_example :
    rotate_loop gateway cloud_first cloud_plan 10 402 1 1 refused start
    ≡ rotate_loop gateway cloud_first cloud_plan
        (length start.cloud_api_keys + 1)
        402
        1
        1
        refused
        start
rotate_loop_ends_example =
    rotate_loop_ends gateway cloud_first cloud_plan 10 402 1 1 refused start (omega arith)

abbrev some_headers : List (Text × HeaderValue)
some_headers = (codes "cookie", one (codes "admin=1")) ∷ (codes "accept", one (codes "*/*")) ∷ []

sanitize_headers-IsSanitized_example :
    IsSanitized self_hosted true none some_headers
      (sanitize_headers self_hosted true none some_headers)
sanitize_headers-IsSanitized_example =
    (sanitize_headers-IsSanitized self_hosted true none some_headers).0

-- The first key is refused, and the second answers.
abbrev rotated : List UpstreamCall
rotated =
    record { backend = cloud; api_key = some (codes "fc-b") }
    ∷ record { backend = cloud; api_key = some (codes "fc-a") }
    ∷ []

tries_both_keys : (route gateway cloud_first cloud_plan start).1.calls ≡ rotated
unfolding route proxy_cloud reserve contains get reserve_locally proxy_to_backend add codes_beq
    record_response disable_key delete is_json_content_type
tries_both_keys = refl
