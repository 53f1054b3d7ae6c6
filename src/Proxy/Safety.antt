-- ===== src/Proxy/Safety.antt =====
-- apps/api/src/proxy/proxy.service.ts: which upstreams a request never reaches.
use firecrawl_gateway.Prelude.{
  ℕ, suc, ◌+◌, Bool, true, ◌||◌, List, [], ◌∷◌, Option, none, some, ◌≡◌, refl, sym, ap, ◌∙◌, inl,
  inr, length, arith, Bool-cases, leb,
}
use firecrawl_gateway.Prelude.Text.{Text, codes_eq}
use firecrawl_gateway.Prelude.Sets.{add}
use firecrawl_gateway.Common.{cloud, self_hosted}
use firecrawl_gateway.Policy.{
  RouteMode, is_fallback_allowed, is_cloud_quota_fallback_allowed, is_self_hosted_unavailable,
}
use firecrawl_gateway.Breaker.{CircuitBreaker, Permit, execute, execute_with, acquire}
use firecrawl_gateway.Credits.{CreditReservation}
use firecrawl_gateway.Proxy.{
  UpstreamCall, RoutePlan, Gateway, ProxyState, proxy_to_backend, circuit_open_result,
}
use firecrawl_gateway.Proxy.Calls.{
  clock, proxy_cloud, proxy_self_hosted, with_reserved, reserve_key, guarded_call,
}
use firecrawl_gateway.Proxy.Routing.{take_keys, take_fallback_keys, route}
use firecrawl_gateway.Proxy.Runs.{
  Runs, stop, then_cloud, then_take, then_self_hosted, CloudAllowed, SelfHostedAllowed,
  record_answer-calls,
}
use firecrawl_gateway.Proxy.Fallbacks.{cloud-ne-self_hosted}
use firecrawl_gateway.Proxy.Once.{IsFresh, route-Runs}
use firecrawl_gateway.Proxy.Counts.{self_hosted_calls}

abbrev pub cloud_calls : List UpstreamCall → ℕ
cloud_calls [] = 0
cloud_calls (call ∷ calls) = elim call.backend [
  | cloud ↦ suc (cloud_calls calls)
  | self_hosted ↦ cloud_calls calls
]

module _ {L : Type 0} (g : Gateway L) (mode : RouteMode) (plan : RoutePlan) where
  execute_with-cloud_calls :
      (now later : ℕ) (b : CircuitBreaker) (calls : List UpstreamCall) (u : Bool)
      (p : Option Permit)
      → cloud_calls
          (execute_with g.breaker_options now later
            (guarded_call g)
            is_self_hosted_unavailable
            circuit_open_result
            b
            (calls, u)
            p).2.0
        ≡ cloud_calls calls
  unfolding proxy_to_backend
  execute_with-cloud_calls now later b calls u none = refl
  execute_with-cloud_calls now later b calls u (some p) = refl

  proxy_self_hosted-cloud_calls :
      (t : ProxyState L) → cloud_calls (proxy_self_hosted g t).1.calls ≡ cloud_calls t.calls
  unfolding proxy_self_hosted execute proxy_to_backend
  proxy_self_hosted-cloud_calls t = elim (Bool-cases (leb g.breaker_options.failure_threshold 0)) [
    | inl e ↦ rw e
    | inr e ↦ rw e (
        execute_with-cloud_calls (clock g t) (g.time (length t.calls + 1))
          (acquire g.breaker_options (clock g t) t.breaker).0 t.calls t.upstream_attempted
          (acquire g.breaker_options (clock g t) t.breaker).1)
  ]

  with_reserved-self_hosted_calls :
      (r : Option CreditReservation) (t : ProxyState L)
      → self_hosted_calls (with_reserved g r t).1.calls ≡ self_hosted_calls t.calls
  unfolding proxy_to_backend
  with_reserved-self_hosted_calls none t = refl
  with_reserved-self_hosted_calls (some q) t =
      ap self_hosted_calls
        (record_answer-calls g q (proxy_to_backend g cloud (some q.key) t.calls).0 (record t {
          attempted_cloud_key_ids = add q.key_id t.attempted_cloud_key_ids;
          upstream_attempted = true;
          calls = record { backend = cloud; api_key = some q.key } ∷ t.calls;
        })).1

  proxy_cloud-self_hosted_calls :
      (t : ProxyState L)
      → self_hosted_calls (proxy_cloud g plan t).1.calls ≡ self_hosted_calls t.calls
  unfolding proxy_cloud reserve_key
  proxy_cloud-self_hosted_calls t =
      with_reserved-self_hosted_calls (reserve_key g plan t).0 (reserve_key g plan t).1

  take_keys-calls :
      (ks : List Text) (t : ProxyState L) → (take_keys g mode plan ks t).1.calls ≡ t.calls
  take_keys-calls [] t = refl
  take_keys-calls (k ∷ ks) t = refl

  take_fallback_keys-calls :
      (t : ProxyState L) → (take_fallback_keys g mode plan t).1.calls ≡ t.calls
  unfolding take_fallback_keys
  take_fallback_keys-calls t = take_keys-calls t.fallback_api_keys t

  pub Runs-cloud_calls :
      (s t : ProxyState L)
      → Runs g mode plan s t
      → (CloudAllowed g mode plan → ⊥)
      → cloud_calls t.calls ≡ cloud_calls s.calls
  Runs-cloud_calls s _ stop n = refl
  Runs-cloud_calls s _ (then_cloud t r c) n = absurd (n c)
  Runs-cloud_calls s _ (then_take t r) n =
      ap cloud_calls (take_fallback_keys-calls t) ∙ Runs-cloud_calls s t r n
  Runs-cloud_calls s _ (then_self_hosted t r f a) n =
      proxy_self_hosted-cloud_calls t ∙ Runs-cloud_calls s t r n

  Runs-self_hosted_calls :
      (s t : ProxyState L)
      → Runs g mode plan s t
      → (SelfHostedAllowed g mode plan → ⊥)
      → self_hosted_calls t.calls ≡ self_hosted_calls s.calls
  Runs-self_hosted_calls s _ stop n = refl
  Runs-self_hosted_calls s _ (then_cloud t r c) n =
      proxy_cloud-self_hosted_calls t ∙ Runs-self_hosted_calls s t r n
  Runs-self_hosted_calls s _ (then_take t r) n =
      ap self_hosted_calls (take_fallback_keys-calls t) ∙ Runs-self_hosted_calls s t r n
  Runs-self_hosted_calls s _ (then_self_hosted t r f a) n = absurd (n a)

  -- A request that starts on self-hosted and carries sensitive headers or a private target never
  -- reaches Cloud, in no mode, however self-hosted fails.
  pub private_request_stays :
      (s : ProxyState L)
      → IsFresh s
      → plan.initial_backend ≡ self_hosted
      → (plan.privacy.has_sensitive_headers || plan.privacy.has_private_target_url) ≡ true
      → cloud_calls (route g mode plan s).1.calls ≡ 0
  unfolding is_fallback_allowed
  private_request_stays s f i p =
      Runs-cloud_calls s (route g mode plan s).1 (route-Runs g mode plan s f.not_attempted)
        (λ c. elim c [ inl e ↦ cloud-ne-self_hosted (sym i ∙ e) | inr e ↦ ground (arith, e, p) ])
      ∙ ap cloud_calls f.no_calls

  -- A request that requires Cloud and starts there never reaches self-hosted, even if no Cloud key
  -- has credit left.
  pub required_request_stays :
      (s : ProxyState L)
      → IsFresh s
      → plan.initial_backend ≡ cloud
      → plan.needs_cloud.required ≡ true
      → self_hosted_calls (route g mode plan s).1.calls ≡ 0
  unfolding is_cloud_quota_fallback_allowed
  required_request_stays s f i p =
      Runs-self_hosted_calls s (route g mode plan s).1 (route-Runs g mode plan s f.not_attempted)
        (λ c. elim c [ inl e ↦ cloud-ne-self_hosted (sym e ∙ i) | inr e ↦ ground (arith, e, p) ])
      ∙ ap self_hosted_calls f.no_calls
