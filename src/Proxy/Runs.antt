-- ===== src/Proxy/Runs.antt =====
-- apps/api/src/proxy/proxy.service.ts: the sequences of the two upstream calls and of the switch to
-- the reserve keys of which a request may be made.
use mathlib.Core.Option.{some-injective}
use firecrawl_gateway.Prelude.{
  ℕ, ◌+◌, Bool, true, false, List, Option, none, some, nat_eq, ◌≡◌, refl, sym, ap, ◌∙◌, ◌⊎◌, inl,
  inr, length, arith, leb, Bool-cases,
}
use firecrawl_gateway.Prelude.Text.{Text, codes_eq}
use firecrawl_gateway.Prelude.Sets.{add}
use firecrawl_gateway.Common.{Backend, cloud, self_hosted, backend_eq, Response, ProxyResult}
use firecrawl_gateway.Policy.{
  RouteMode, is_fallback_allowed, is_cloud_quota_fallback_allowed, is_self_hosted_unavailable,
}
use firecrawl_gateway.Credits.{CreditReservation}
use firecrawl_gateway.Breaker.{CircuitBreaker, Permit, execute, execute_with, acquire, Settled}
use firecrawl_gateway.Proxy.{
  UpstreamCall, RoutePlan, Gateway, ProxyState, Outcome, CloudAttempt, FetchResult, answered,
  failed, proxy_to_backend, circuit_open_result, result_of, body_or_stream,
}
use firecrawl_gateway.Proxy.Calls.{
  clock, proxy_cloud, proxy_self_hosted, with_reserved, reserve_key, record_answer, record_credits,
  settled_result, guarded_call,
}
use firecrawl_gateway.Proxy.Routing.{take_fallback_keys}

body_or_stream-backend :
    (backend : Backend) (r : Response) (body : Option Text)
    → (body_or_stream backend r body).backend ≡ backend
body_or_stream-backend backend r none = refl
body_or_stream-backend backend r (some b) = refl

result_of-backend : (backend : Backend) (f : FetchResult) → (result_of backend f).backend ≡ backend
result_of-backend backend (answered r body) = body_or_stream-backend backend r body
result_of-backend backend (failed message) = refl

module _ {L : Type 0} (g : Gateway L) where
  pub record_answer-calls :
      (r : CreditReservation) (result : ProxyResult) (s : ProxyState L)
      → let t = record_answer g r result s in
        (t.self_hosted_attempted ≡ s.self_hosted_attempted)
        × (t.calls ≡ s.calls)
        × (t.attempted_cloud_key_ids ≡ s.attempted_cloud_key_ids)
        × (t.cloud_api_keys ≡ s.cloud_api_keys)
  unfolding record_answer record_credits
  record_answer-calls r result s = ground arith

  -- What the breaker makes of the self-hosted call.
  abbrev FromSelfHosted :
      Settled ProxyResult × CircuitBreaker × (List UpstreamCall × Bool) × Bool → Type 0
  FromSelfHosted (r, b, c, x) = (settled_result g r).backend ≡ self_hosted

  execute_with-FromSelfHosted :
      (now later : ℕ) (b : CircuitBreaker) (c : List UpstreamCall × Bool) (p : Option Permit)
      → FromSelfHosted (
          execute_with g.breaker_options now later
            (guarded_call g)
            is_self_hosted_unavailable
            circuit_open_result
            b
            c
            p)
  unfolding circuit_open_result proxy_to_backend
  execute_with-FromSelfHosted now later b c none = refl
  execute_with-FromSelfHosted now later b c (some p) =
      result_of-backend self_hosted (g.fetch c.0 (record { backend = self_hosted; api_key = none }))

  pub proxy_self_hosted-backend :
      (s : ProxyState L) → (proxy_self_hosted g s).0.backend ≡ self_hosted
  unfolding proxy_self_hosted execute proxy_to_backend
  proxy_self_hosted-backend s = elim (Bool-cases (leb g.breaker_options.failure_threshold 0)) [
    | inl e ↦ rw e (
        result_of-backend self_hosted
          (g.fetch s.calls (record { backend = self_hosted; api_key = none })))
    | inr e ↦ rw e (
        execute_with-FromSelfHosted (clock g s) (g.time (length s.calls + 1))
          (acquire g.breaker_options (clock g s) s.breaker).0 (s.calls, s.upstream_attempted)
          (acquire g.breaker_options (clock g s) s.breaker).1)
  ]

module _ {L : Type 0} (g : Gateway L) (mode : RouteMode) (plan : RoutePlan) where
  with_reserved-backend :
      (r : Option CreditReservation) (s : ProxyState L) (a : CloudAttempt)
      → (with_reserved g r s).0 ≡ some a
      → a.result.backend ≡ cloud
  unfolding proxy_to_backend
  with_reserved-backend none s a e = ground arith
  with_reserved-backend (some r) s a e =
      ap (λ (x : CloudAttempt). x.result.backend) (sym (some-injective _ a e))
      ∙ result_of-backend cloud (g.fetch s.calls (record { backend = cloud; api_key = some r.key }))

  pub proxy_cloud-backend :
      (s : ProxyState L) (a : CloudAttempt)
      → (proxy_cloud g plan s).0 ≡ some a
      → a.result.backend ≡ cloud
  unfolding proxy_cloud
  proxy_cloud-backend s a e =
      with_reserved-backend (reserve_key g plan s).0 (reserve_key g plan s).1 a e

  with_reserved-flag :
      (r : Option CreditReservation) (s : ProxyState L)
      → (with_reserved g r s).1.self_hosted_attempted ≡ s.self_hosted_attempted
  with_reserved-flag none s = refl
  with_reserved-flag (some r) s =
      (record_answer-calls g r (proxy_to_backend g cloud (some r.key) s.calls).0 (record s {
        attempted_cloud_key_ids = add r.key_id s.attempted_cloud_key_ids;
        upstream_attempted = true;
        calls = (proxy_to_backend g cloud (some r.key) s.calls).1;
      })).0

  pub proxy_cloud-flag :
      (s : ProxyState L) → (proxy_cloud g plan s).1.self_hosted_attempted ≡ s.self_hosted_attempted
  unfolding proxy_cloud reserve_key
  proxy_cloud-flag s = with_reserved-flag (reserve_key g plan s).0 (reserve_key g plan s).1

  -- The two policies that a call has to pass.
  abbrev pub CloudAllowed : Type 0
  CloudAllowed = (plan.initial_backend ≡ cloud) ⊎ (is_fallback_allowed mode plan.privacy ≡ true)

  abbrev pub SelfHostedAllowed : Type 0
  SelfHostedAllowed =
      (plan.initial_backend ≡ self_hosted)
      ⊎ (is_cloud_quota_fallback_allowed mode plan.needs_cloud ≡ true)

  -- The states that a request reaches from `s`.
  pub data Runs (s : ProxyState L) : ProxyState L → Type 0 where
    stop : Runs s s
    then_cloud : (t : ProxyState L) → Runs s t → CloudAllowed → Runs s (proxy_cloud g plan t).1
    then_take : (t : ProxyState L) → Runs s t → Runs s (take_fallback_keys g mode plan t).1
    then_self_hosted :
        (t : ProxyState L)
        → Runs s t
        → t.self_hosted_attempted ≡ false
        → SelfHostedAllowed
        → Runs s (proxy_self_hosted g t).1

  -- A request under way: its state is reached, and an answer of Cloud is one that policy allows.
  pub record UnderWay (s : ProxyState L) (o : Outcome) (t : ProxyState L) : Type 0 where
    pub runs : Runs s t
    pub justified : o.result.backend ≡ cloud → CloudAllowed
