-- ===== src/Proxy/Stages.antt =====
-- apps/api/src/proxy/proxy.service.ts: the stages of `handle` and the calls that they make.
use firecrawl_gateway.Prelude.{
  Bool, true, false, ◌&&◌, Option, none, some, nat_eq, ◌≡◌, refl, sym, ◌∙◌, inl, inr, arith,
  Bool-cases,
}
use firecrawl_gateway.Prelude.Text.{codes_eq}
use firecrawl_gateway.Common.{Backend, cloud, self_hosted, backend_eq, ProxyResult}
use firecrawl_gateway.Policy.{
  RouteMode, is_fallback_allowed, is_fallback_eligible, is_cloud_quota_fallback_allowed,
}
use firecrawl_gateway.Proxy.{RoutePlan, Gateway, ProxyState, Outcome, CloudAttempt}
use firecrawl_gateway.Proxy.Calls.{proxy_cloud, proxy_self_hosted}
use firecrawl_gateway.Proxy.Routing.{
  take_fallback_keys, dispatch, dispatch_to, dispatch_cloud, dispatch_fallback, cloud_reserve,
  dispatch_self_hosted, reserve_attempt, rotate_cloud_keys, fall_back_to_fallback_keys,
  after_rotation, after_fallback, improve, improve_dispatched, route, has_keys,
}
use firecrawl_gateway.Proxy.Runs.{
  CloudAllowed, Runs, stop, then_cloud, then_take, then_self_hosted, UnderWay, proxy_cloud-flag,
  proxy_self_hosted-backend,
}
use firecrawl_gateway.Proxy.Fallbacks.{
  cloud-ne-self_hosted, rotate_cloud_keys-UnderWay, self_hosted-UnderWay,
  fall_back_to_self_hosted-UnderWay, fall_back_to_fallback_keys-UnderWay,
}

module _ {L : Type 0} (g : Gateway L) (mode : RouteMode) (plan : RoutePlan) (s : ProxyState L) where
  abbrev pub Dispatched : Option Outcome × ProxyState L → Type 0
  Dispatched (none, t) = Runs g mode plan s t
  Dispatched (some o, t) = UnderWay g mode plan s o t

  reserve_attempt-Dispatched :
      (a : Option CloudAttempt) (t : ProxyState L)
      → CloudAllowed g mode plan
      → Runs g mode plan s t
      → Dispatched (reserve_attempt g mode plan a t)
  reserve_attempt-Dispatched none t c r = r
  reserve_attempt-Dispatched (some a) t c r = record { runs = r; justified = λ e. c }

  cloud_reserve-Dispatched :
      (taken : Bool) (t : ProxyState L)
      → CloudAllowed g mode plan
      → Runs g mode plan s t
      → Dispatched (cloud_reserve g mode plan taken t)
  cloud_reserve-Dispatched false t c r = r
  cloud_reserve-Dispatched true t c r =
      reserve_attempt-Dispatched (proxy_cloud g plan t).0 (proxy_cloud g plan t).1 c
        (then_cloud t r c)

  dispatch_cloud-Dispatched :
      (a : Option CloudAttempt) (t : ProxyState L)
      → plan.initial_backend ≡ cloud
      → t.self_hosted_attempted ≡ false
      → Runs g mode plan s t
      → Dispatched (dispatch_cloud g mode plan a t)
  dispatch_cloud-Dispatched (some a) t c f r = record { runs = r; justified = λ e. inl c }
  dispatch_cloud-Dispatched none t c f r =
      elim (Bool-cases (is_cloud_quota_fallback_allowed mode plan.needs_cloud)) [
        | inl e ↦ rw e (self_hosted-UnderWay g mode plan s _ t r f (inr e) refl)
        | inr e ↦ rw e (
            cloud_reserve-Dispatched (take_fallback_keys g mode plan t).0
              (take_fallback_keys g mode plan t).1 (inl c) (then_take t r))
      ]

  dispatch_fallback-Dispatched :
      (result : ProxyResult) (a : Option CloudAttempt) (t : ProxyState L)
      → CloudAllowed g mode plan
      → result.backend ≡ self_hosted
      → Runs g mode plan s t
      → Dispatched (dispatch_fallback g mode plan result a t)
  dispatch_fallback-Dispatched result none t c b r = record { runs = r; justified = λ e. c }
  dispatch_fallback-Dispatched result (some a) t c b r = record { runs = r; justified = λ e. c }

  dispatch_self_hosted-Dispatched :
      (result : ProxyResult) (t : ProxyState L)
      → result.backend ≡ self_hosted
      → Runs g mode plan s t
      → Dispatched (dispatch_self_hosted g mode plan result t)
  dispatch_self_hosted-Dispatched result t b r =
      elim (Bool-cases (
        has_keys g mode plan t.cloud_api_keys
        && is_fallback_eligible result
        && is_fallback_allowed mode plan.privacy)) [
          | inl e ↦ rw e (
              let c : CloudAllowed g mode plan = inr (ground (arith, e)) in
              dispatch_fallback-Dispatched result (proxy_cloud g plan t).0 (proxy_cloud g plan t).1
                c b (then_cloud t r c))
          | inr e ↦ rw e (record { runs = r; justified = λ x. cloud-ne-self_hosted (sym b ∙ x) })
        ]

  dispatch_to-Dispatched :
      (b : Backend)
      → plan.initial_backend ≡ b
      → s.self_hosted_attempted ≡ false
      → Dispatched (dispatch_to g mode plan b s)
  dispatch_to-Dispatched cloud e f =
      dispatch_cloud-Dispatched (proxy_cloud g plan s).0 (proxy_cloud g plan s).1 e
        (proxy_cloud-flag g mode plan s ∙ f) (then_cloud s stop (inl e))
  dispatch_to-Dispatched self_hosted e f =
      dispatch_self_hosted-Dispatched (proxy_self_hosted g s).0 (proxy_self_hosted g s).1
        (proxy_self_hosted-backend g s) (then_self_hosted s stop f (inl e))

  after_rotation-UnderWay :
      (b : Bool) (o : Outcome) (t : ProxyState L)
      → UnderWay g mode plan s o t
      → let p = after_rotation g mode plan b o t in UnderWay g mode plan s p.0 p.1
  after_rotation-UnderWay true o t u = fall_back_to_self_hosted-UnderWay g mode plan s o t u
  after_rotation-UnderWay false o t u = u

  after_fallback-UnderWay :
      (b : Bool) (o : Outcome) (t : ProxyState L)
      → UnderWay g mode plan s o t
      → let p = after_fallback g mode plan b o t in UnderWay g mode plan s p.0 p.1
  after_fallback-UnderWay true o t u = rotate_cloud_keys-UnderWay g mode plan s o t u
  after_fallback-UnderWay false o t u = u

  improve-UnderWay :
      (o : Outcome) (t : ProxyState L)
      → UnderWay g mode plan s o t
      → let p = improve g mode plan o t in UnderWay g mode plan s p.0 p.1
  improve-UnderWay o t u =
      let p1 = rotate_cloud_keys g mode plan o t in
      let u1 = rotate_cloud_keys-UnderWay g mode plan s o t u in
      let p2 = after_rotation g mode plan p1.0 p1.1 p1.2 in
      let u2 = after_rotation-UnderWay p1.0 p1.1 p1.2 u1 in
      let p3 = fall_back_to_fallback_keys g mode plan p2.0 p2.1 in
      let u3 = fall_back_to_fallback_keys-UnderWay g mode plan s p2.0 p2.1 u2 in
      after_fallback-UnderWay p3.0 p3.1 p3.2 u3

  improve_dispatched-Dispatched :
      (o : Option Outcome) (t : ProxyState L)
      → Dispatched (o, t)
      → Dispatched (improve_dispatched g mode plan o t)
  improve_dispatched-Dispatched none t r = r
  improve_dispatched-Dispatched (some o) t u = improve-UnderWay o t u

  -- A request is routed by calls that policy allows: it goes to Cloud only if it starts there or a
  -- fallback from self-hosted is allowed, and to self-hosted only while it has not been there, and
  -- only if it starts there or a fallback for want of Cloud credit is allowed. If the answer is of
  -- Cloud, going to Cloud is allowed.
  pub route-Dispatched : s.self_hosted_attempted ≡ false → Dispatched (route g mode plan s)
  unfolding route dispatch
  route-Dispatched f =
      let p = dispatch g mode plan s in
      improve_dispatched-Dispatched p.0 p.1 (dispatch_to-Dispatched plan.initial_backend refl f)
