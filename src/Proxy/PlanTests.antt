-- ===== src/Proxy/PlanTests.antt =====
-- Tests of the planning in proxy/proxy.service.ts, and its theorems at concrete inputs.
use firecrawl_gateway.Prelude.{ℕ, true, false, [], ◌∷◌, Option, none, some, ◌≡◌, refl}
use firecrawl_gateway.Prelude.Text.{Text, codes, codes_beq}
use firecrawl_gateway.Prelude.Json.{null}
use firecrawl_gateway.Common.{CloudKeyRole, self_hosted}
use firecrawl_gateway.Policy.{self_hosted_only}
use firecrawl_gateway.Policy.Bodies.{request_needs_cloud, has_sensitive_headers}
use firecrawl_gateway.Breaker.{new_breaker}
use firecrawl_gateway.Credits.{unavailable, new_routing}
use firecrawl_gateway.Proxy.{RoutePlan, failed, Gateway, ProxyState}
use firecrawl_gateway.Targets.{has_private_target_url, collect_target_urls}
use firecrawl_gateway.Proxy.Routing.{route}
use firecrawl_gateway.Proxy.Once.{IsFresh}
use firecrawl_gateway.Proxy.Safety.{cloud_calls}
use firecrawl_gateway.Proxy.Planning.{
  ApiKey, LimitAnswers, PlanSettings, PlanRequest, planned, build_plan,
}
use firecrawl_gateway.Proxy.Modes.{self_hosted_only_stays}

abbrev stored_key : ApiKey
stored_key = record {
  id = codes "k1";
  expires_at = some 100;
  rate_limit_per_minute = some 60;
  monthly_quota = none;
}

abbrev within_limits : LimitAnswers
within_limits = record { rate_limit = some false; quota = none }

abbrev only_key : Text → Option ApiKey
only_key token = some stored_key

abbrev home_settings : PlanSettings
home_settings = record {
  max_body_bytes = 10;
  mode = self_hosted_only;
  key_entries = record { key = codes "fc-a"; role = CloudKeyRole.cloud } ∷ [];
  hostname = λ url. none;
  auth_enabled = true;
}

abbrev plain_request : PlanRequest
plain_request = record {
  path = codes "/v1/scrape";
  body_buffer = [];
  json = null;
  parse_error = none;
  header_names = codes "accept" ∷ [];
  admin = false;
}

abbrev home_plan : RoutePlan
home_plan = record {
  body_buffer = [];
  needs_cloud = record { required = false; reason = none };
  privacy = record { has_sensitive_headers = false; has_private_target_url = false };
  initial_backend = self_hosted;
  cloud_api_keys = [];
  fallback_api_keys = [];
  estimated_credits = 1;
}

plans_at_home : build_plan home_settings plain_request ≡ planned home_plan
unfolding build_plan request_needs_cloud has_sensitive_headers codes_beq has_private_target_url
    collect_target_urls
plans_at_home = refl

abbrev home_gateway : Gateway ℕ
home_gateway = record {
  store = record {
    reserve_credits = λ now ids amount l. (unavailable, l);
    capture = λ id l. (record { available = false; sequence = 0 }, l);
    settle = λ now id reservation action until l. l;
    settle_actual_usage = λ id reservation used l. l;
    reconcile = λ now id credits sequence renews_at l. l;
  };
  key_id = λ key. key;
  pick = λ n. 0;
  breaker_options = record { failure_threshold = 3; cooldown_ms = 1000 };
  time = λ n. n;
  fetch = λ calls call. failed (codes "fetch failed");
}

abbrev home_start : ProxyState ℕ
home_start = record {
  cloud_api_keys = [];
  fallback_api_keys = [];
  self_hosted_attempted = false;
  upstream_attempted = false;
  attempted_cloud_key_ids = [];
  credits = new_routing;
  ledger = 0;
  breaker = new_breaker;
  calls = [];
}

home_start-IsFresh : IsFresh home_start
home_start-IsFresh = record { no_calls = refl; no_ids = refl; not_attempted = refl }

self_hosted_only_stays_example :
    cloud_calls (route home_gateway self_hosted_only home_plan home_start).1.calls ≡ 0
self_hosted_only_stays_example =
    self_hosted_only_stays home_gateway home_settings plain_request home_plan home_start refl
      plans_at_home home_start-IsFresh
