-- ===== src/Proxy/Modes.antt =====
-- apps/api/src/proxy/proxy.service.ts: what the route mode says of a request, from the plan on.
use firecrawl_gateway.Prelude.{
  [], ltb, length, ◌≡◌, ◌≢◌, refl, sym, ap, ◌∙◌, subst, arith, if◌then◌else◌, Bool-cases, inl, inr,
}
use firecrawl_gateway.Common.{cloud, self_hosted, NeedsCloudResult}
use firecrawl_gateway.Policy.{
  RouteMode, self_hosted_only, InitialBackend, to, reject, PrivacyFlags, KeyPools,
  choose_initial_backend, select_key_pools, may_use_cloud_keys, is_fallback_allowed,
}
use firecrawl_gateway.Policy.Bodies.{request_needs_cloud}
use firecrawl_gateway.Policy.Pools.{self_hosted_only_route}
use firecrawl_gateway.Proxy.{RoutePlan, Gateway, ProxyState}
use firecrawl_gateway.Proxy.Planning.{
  PlanSettings, PlanRequest, Planned, planned, rejected_early, build_plan, plan_backend,
  plan_inspected, has_error, privacy_of,
}
use firecrawl_gateway.Proxy.Routing.{route}
use firecrawl_gateway.Proxy.Fallbacks.{cloud-ne-self_hosted}
use firecrawl_gateway.Proxy.Once.{IsFresh, route-Runs}
use firecrawl_gateway.Proxy.Safety.{cloud_calls, Runs-cloud_calls}

-- A plan, if there is one, starts on self-hosted.
abbrev StartsAtHome : Planned → Type 0
StartsAtHome (planned plan) = plan.initial_backend ≡ self_hosted
StartsAtHome (rejected_early status) = Unit {0}

plan_backend-StartsAtHome :
    (request : PlanRequest) (needs : NeedsCloudResult) (privacy : PrivacyFlags) (pools : KeyPools)
    (b : InitialBackend)
    → b ≢ to cloud
    → StartsAtHome (plan_backend request needs privacy pools b)
plan_backend-StartsAtHome request needs privacy pools (to cloud) n = absurd (n refl)
plan_backend-StartsAtHome request needs privacy pools (to self_hosted) n = refl
plan_backend-StartsAtHome request needs privacy pools reject n = tt

inspected-StartsAtHome :
    (settings : PlanSettings) (request : PlanRequest) (needs : NeedsCloudResult)
    (privacy : PrivacyFlags)
    → settings.mode ≡ self_hosted_only
    → StartsAtHome (plan_inspected settings request needs privacy)
inspected-StartsAtHome settings request needs privacy m =
    let entries = λ (mode : RouteMode).
      if may_use_cloud_keys (choose_initial_backend mode needs) mode privacy
      then settings.key_entries
      else [] in
    subst
      (λ mode.
        StartsAtHome (plan_inspected (record settings { mode = mode }) request needs privacy))
      (sym m)
      (plan_backend-StartsAtHome request needs privacy
        (select_key_pools self_hosted_only (choose_initial_backend self_hosted_only needs) needs
          (entries self_hosted_only))
        (select_key_pools self_hosted_only (choose_initial_backend self_hosted_only needs) needs
          (entries self_hosted_only)).initial_backend
        (self_hosted_only_route needs privacy (entries self_hosted_only)).1)

build_plan-StartsAtHome :
    (settings : PlanSettings) (request : PlanRequest)
    → settings.mode ≡ self_hosted_only
    → StartsAtHome (build_plan settings request)
unfolding build_plan
build_plan-StartsAtHome settings request m =
    elim (Bool-cases (ltb settings.max_body_bytes (length request.body_buffer))) [
      | inl e ↦ rw e tt
      | inr e ↦ elim (Bool-cases (has_error request.parse_error)) [
        | inl f ↦ rw (e, f) tt
        | inr f ↦
            rw (e, f)
              (inspected-StartsAtHome settings request
                (request_needs_cloud request.path request.json) (privacy_of settings request) m)
      ]
    ]

-- In the mode `self-hosted-only` no request that the gateway plans ever reaches Cloud.
pub self_hosted_only_stays :
    {L : Type 0} (g : Gateway L) (settings : PlanSettings) (request : PlanRequest)
    (plan : RoutePlan) (s : ProxyState L)
    → settings.mode ≡ self_hosted_only
    → build_plan settings request ≡ planned plan
    → IsFresh s
    → cloud_calls (route g settings.mode plan s).1.calls ≡ 0
unfolding is_fallback_allowed
self_hosted_only_stays g settings request plan s m b f =
    Runs-cloud_calls g settings.mode plan s (route g settings.mode plan s).1
      (route-Runs g settings.mode plan s f.not_attempted)
      (λ c. elim c [
        | inl e ↦
            cloud-ne-self_hosted
              (sym (subst StartsAtHome b (build_plan-StartsAtHome settings request m)) ∙ e)
        | inr e ↦ ground (arith, e, m)
      ])
    ∙ ap cloud_calls f.no_calls
