-- ===== src/Proxy.antt =====
-- apps/api/src/proxy/proxy.service.ts: how one request is proxied. This file has the state of a
-- request and the call of an upstream; what an upstream answers is the parameter `fetch`.
mod Tests
mod PlanTests
pub mod Planning
pub mod Headers
pub mod Sanitizing
pub mod Calls
pub mod Routing
pub mod Runs
pub mod Fallbacks
pub mod Stages
pub mod Counts
pub mod Once
pub mod Rotation
pub mod Safety
pub mod Modes
use firecrawl_gateway.Prelude.{
  ℕ, ◌+◌, Bool, true, false, not, ◌&&◌, ◌||◌, List, [], ◌∷◌, Option, none, some, ltb, leb, length,
  if◌then◌else◌,
}
use firecrawl_gateway.Prelude.Text.{Text, codes}
use firecrawl_gateway.Common.{
  Backend, self_hosted, NeedsCloudResult, Response, ResultKind, network_error, ProxyResult,
}
use firecrawl_gateway.Policy.{PrivacyFlags}
use firecrawl_gateway.Breaker.{CircuitBreaker, CircuitBreakerOptions}
use firecrawl_gateway.Credits.{CreditRouting, CreditReservation, LedgerStore}

-- What a request needs once it is routed; the pools are those that it starts with.
pub record RoutePlan : Type 0 where
  pub body_buffer : Text
  pub needs_cloud : NeedsCloudResult
  pub privacy : PrivacyFlags
  pub initial_backend : Backend
  pub cloud_api_keys : List Text
  pub fallback_api_keys : List Text
  pub estimated_credits : ℕ

pub record UpstreamCall : Type 0 where
  pub backend : Backend
  pub api_key : Option Text

-- `response.body` is null, or the bytes that are still to come; a failure has its message.
pub data FetchResult : Type 0 where
  answered : Response → Option Text → FetchResult
  failed : Text → FetchResult

-- The parts of the gateway that do not change: `time n` is the clock when `n` upstream calls of the
-- request have been made, and `fetch` answers a call, knowing those before it (the newest first).
pub record Gateway (L : Type 0) : Type 0 where
  pub store : LedgerStore L
  pub key_id : Text → Text
  pub pick : ℕ → ℕ
  pub breaker_options : CircuitBreakerOptions
  pub time : ℕ → ℕ
  pub fetch : List UpstreamCall → UpstreamCall → FetchResult

-- The fields of the plan that change while the request is routed, the services that it uses, and
-- the upstream calls made so far, the newest first.
pub record ProxyState (L : Type 0) : Type 0 where
  pub cloud_api_keys : List Text
  pub fallback_api_keys : List Text
  pub self_hosted_attempted : Bool
  pub upstream_attempted : Bool
  pub attempted_cloud_key_ids : List Text
  pub credits : CreditRouting
  pub ledger : L
  pub breaker : CircuitBreaker
  pub calls : List UpstreamCall

-- Why a fallback was used; the source keeps the sentence that says so.
pub data FallbackReason : Type 0 where
  no_fallback no_credit_pool no_credit_pool_fallback_key : FallbackReason
  self_hosted_failed self_hosted_failed_fallback_key : ProxyResult → FallbackReason
  next_key_succeeded : ℕ → FallbackReason
  keys_unavailable : ℕ → ℕ → FallbackReason
  keys_unavailable_fallback_key : ProxyResult → FallbackReason

pub record Outcome : Type 0 where
  pub result : ProxyResult
  pub fallback_used : Bool
  pub fallback_reason : FallbackReason

pub record CloudAttempt : Type 0 where
  pub result : ProxyResult
  pub reservation : CreditReservation

-- The text of an error stands for the JSON object that holds it.
unfoldable pub circuit_open_result : ProxyResult
circuit_open_result = record {
  kind = network_error;
  backend = self_hosted;
  response = none;
  error = some (codes "Self-hosted Firecrawl is temporarily unavailable (circuit open)");
  body = some (codes "Self-hosted Firecrawl is temporarily unavailable (circuit open)");
  stream = none;
}

abbrev pub response_ok : ℕ → Bool
response_ok status = leb 200 status && ltb status 300

abbrev body_or_stream : Backend → Response → Option Text → ProxyResult
body_or_stream backend r none = record {
  kind = ResultKind.response;
  backend = backend;
  response = some r;
  error = none;
  body = some [];
  stream = none;
}
body_or_stream backend r (some b) =
    let streaming = response_ok r.status || ltb r.status 400 in
    record {
      kind = ResultKind.response;
      backend = backend;
      response = some r;
      error = none;
      body = if streaming then none else some b;
      stream = if streaming then some b else none;
    }

abbrev result_of : Backend → FetchResult → ProxyResult
result_of backend (answered r body) = body_or_stream backend r body
result_of backend (failed message) = record {
  kind = network_error;
  backend = backend;
  response = none;
  error = some message;
  body = some message;
  stream = none;
}

-- `proxyToBackend`, on the calls made so far. It never throws.
unfoldable pub proxy_to_backend :
    {L : Type 0}
    → Gateway L
    → Backend
    → Option Text
    → List UpstreamCall
    → ProxyResult × List UpstreamCall
proxy_to_backend g backend api_key calls = (
  result_of backend (g.fetch calls (record { backend = backend; api_key = api_key })),
  record { backend = backend; api_key = api_key } ∷ calls,
)
