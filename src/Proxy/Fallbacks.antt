-- ===== src/Proxy/Fallbacks.antt =====
-- apps/api/src/proxy/proxy.service.ts: the rotation and the fallbacks of `handle`, and the calls that
-- they make.
use firecrawl_gateway.Prelude.{
  ℕ, zero, suc, ◌+◌, Bool, true, false, not, ◌&&◌, ◌||◌, Option, none, some, nat_eq, ◌≡◌, refl, sym,
  ap, ◌∙◌, inl, inr, length, arith, if◌then◌else◌, Bool-cases,
}
use firecrawl_gateway.Prelude.Text.{codes_eq}
use firecrawl_gateway.Common.{cloud, self_hosted, backend_eq, ProxyResult}
use firecrawl_gateway.Policy.{RouteMode, is_cloud_quota_fallback_allowed}
use firecrawl_gateway.Proxy.{RoutePlan, Gateway, ProxyState, Outcome, CloudAttempt}
use firecrawl_gateway.Proxy.Calls.{proxy_cloud, proxy_self_hosted}
use firecrawl_gateway.Proxy.Routing.{
  take_fallback_keys, rotate_loop, on_attempt, rotate_from, rotate_cloud_keys, is_cloud_answer,
  retryable_cloud_status, cloud_capacity_status, fall_back_to_self_hosted,
  fall_back_to_fallback_keys, cloud_out_of_quota, self_hosted_failure, replace_outcome, status_of,
  has_status, has_keys,
}
use firecrawl_gateway.Proxy.Runs.{
  CloudAllowed, SelfHostedAllowed, Runs, then_cloud, then_take, then_self_hosted, UnderWay,
  proxy_self_hosted-backend,
}

pub cloud-ne-self_hosted {ℓ} : {A : Type ℓ} → self_hosted ≡ cloud → A
cloud-ne-self_hosted e = absurd (ground (arith, e))

is_cloud_answer-backend :
    (p : ℕ → Bool) (r : ProxyResult) → is_cloud_answer p r ≡ true → r.backend ≡ cloud
unfolding is_cloud_answer
is_cloud_answer-backend p r e = ground (arith, backend_eq.equal_iff r.backend cloud)

module _ {L : Type 0} (g : Gateway L) (mode : RouteMode) (plan : RoutePlan) (s : ProxyState L) where
  abbrev Fine : Bool × Outcome × ProxyState L → Type 0
  Fine (b, o, t) = UnderWay g mode plan s o t

  on_attempt-UnderWay :
      (first attempts quota : ℕ) (o : Outcome) (a : Option CloudAttempt) (t : ProxyState L)
      (continue : ℕ → ℕ → Outcome → ProxyState L → Bool × Outcome × ProxyState L)
      → CloudAllowed g mode plan
      → Runs g mode plan s t
      → UnderWay g mode plan s o t
      → ((n q : ℕ) (p : Outcome) → UnderWay g mode plan s p t → Fine (continue n q p t))
      → Fine (on_attempt g mode plan first attempts quota o a t continue)
  on_attempt-UnderWay first attempts quota o none t continue c r u k = u
  on_attempt-UnderWay first attempts quota o (some a) t continue c r u k =
      elim (Bool-cases (has_status (λ n. not (retryable_cloud_status n)) (status_of a.result))) [
        | inl e ↦ rw e (record { runs = r; justified = λ x. c })
        | inr e ↦ rw e (
            k (attempts + 1)
              (if has_status cloud_capacity_status (status_of a.result) then quota + 1 else quota)
              (record o { result = a.result }) (record { runs = r; justified = λ x. c }))
      ]

  rotate_loop-UnderWay :
      (fuel first attempts quota : ℕ) (o : Outcome) (t : ProxyState L)
      → CloudAllowed g mode plan
      → UnderWay g mode plan s o t
      → Fine (rotate_loop g mode plan fuel first attempts quota o t)
  unfolding rotate_loop
  rotate_loop-UnderWay zero first attempts quota o t c u = u
  rotate_loop-UnderWay (suc fuel) first attempts quota o t c u =
      let r = then_cloud t u.runs c in
      on_attempt-UnderWay first attempts quota o (proxy_cloud g plan t).0 (proxy_cloud g plan t).1
        (λ n q p v. rotate_loop g mode plan fuel first n q p v) c r
        (record { runs = r; justified = u.justified })
        (λ n q p v. rotate_loop-UnderWay fuel first n q p (proxy_cloud g plan t).1 c v)

  rotate_from-UnderWay :
      (status : Option ℕ) (o : Outcome) (t : ProxyState L)
      → CloudAllowed g mode plan
      → UnderWay g mode plan s o t
      → Fine (rotate_from g mode plan status o t)
  rotate_from-UnderWay none o t c u = u
  rotate_from-UnderWay (some n) o t c u =
      rotate_loop-UnderWay (length t.cloud_api_keys + 1) n 1
        (if cloud_capacity_status n then 1 else 0) o t c u

  pub rotate_cloud_keys-UnderWay :
      (o : Outcome) (t : ProxyState L)
      → UnderWay g mode plan s o t
      → Fine (rotate_cloud_keys g mode plan o t)
  unfolding rotate_cloud_keys
  rotate_cloud_keys-UnderWay o t u =
      elim (Bool-cases (is_cloud_answer retryable_cloud_status o.result)) [
        | inl e ↦ rw e (
            rotate_from-UnderWay (status_of o.result) o t
              (u.justified (is_cloud_answer-backend retryable_cloud_status o.result e)) u)
        | inr e ↦ rw e u
      ]

  -- A self-hosted call with which a request goes on.
  pub self_hosted-UnderWay :
      (o : Outcome) (t : ProxyState L)
      → Runs g mode plan s t
      → t.self_hosted_attempted ≡ false
      → SelfHostedAllowed g mode plan
      → o.result ≡ (proxy_self_hosted g t).0
      → UnderWay g mode plan s o (proxy_self_hosted g t).1
  self_hosted-UnderWay o t r f a q = record {
    runs = then_self_hosted t r f a;
    justified = λ e.
        cloud-ne-self_hosted
          (sym (ap (λ (x : ProxyResult). x.backend) q ∙ proxy_self_hosted-backend g t) ∙ e);
  }

  pub fall_back_to_self_hosted-UnderWay :
      (o : Outcome) (t : ProxyState L)
      → UnderWay g mode plan s o t
      → let p = fall_back_to_self_hosted g mode plan o t in UnderWay g mode plan s p.0 p.1
  unfolding fall_back_to_self_hosted
  fall_back_to_self_hosted-UnderWay o t u =
      elim (Bool-cases (
        not t.self_hosted_attempted
        && is_cloud_answer cloud_capacity_status o.result
        && is_cloud_quota_fallback_allowed mode plan.needs_cloud)) [
          | inl e ↦
              rw e
                (self_hosted-UnderWay _ t u.runs (ground (arith, e)) (inr (ground (arith, e))) refl)
          | inr e ↦ rw e u
        ]

  replace_outcome-UnderWay :
      (o : Outcome) (a : Option CloudAttempt) (t : ProxyState L)
      → CloudAllowed g mode plan
      → UnderWay g mode plan s o t
      → Fine (replace_outcome g mode plan o a t)
  replace_outcome-UnderWay o none t c u = u
  replace_outcome-UnderWay o (some a) t c u = record { runs = u.runs; justified = λ e. c }

  reserve_is_allowed :
      (o : Outcome) (t : ProxyState L)
      → UnderWay g mode plan s o t
      → (cloud_out_of_quota g mode plan o || self_hosted_failure g mode plan o) ≡ true
      → CloudAllowed g mode plan
  unfolding cloud_out_of_quota self_hosted_failure
  reserve_is_allowed o t u e = elim (Bool-cases (is_cloud_answer cloud_capacity_status o.result)) [
    | inl q ↦ u.justified (is_cloud_answer-backend cloud_capacity_status o.result q)
    | inr q ↦ inr (ground (arith, e, q))
  ]

  pub fall_back_to_fallback_keys-UnderWay :
      (o : Outcome) (t : ProxyState L)
      → UnderWay g mode plan s o t
      → Fine (fall_back_to_fallback_keys g mode plan o t)
  unfolding fall_back_to_fallback_keys
  fall_back_to_fallback_keys-UnderWay o t u =
      elim (Bool-cases (
        has_keys g mode plan t.fallback_api_keys
        && (cloud_out_of_quota g mode plan o || self_hosted_failure g mode plan o))) [
          | inl e ↦ rw e (
              let c = reserve_is_allowed o t u (ground (arith, e)) in
              let t' = (take_fallback_keys g mode plan t).1 in
              replace_outcome-UnderWay o (proxy_cloud g plan t').0 (proxy_cloud g plan t').1 c
                (record { runs = then_cloud t' (then_take t u.runs) c; justified = u.justified }))
          | inr e ↦ rw e u
        ]
