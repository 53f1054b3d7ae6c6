-- ===== src/Proxy/Routing.antt =====
-- apps/api/src/proxy/proxy.service.ts: the stages that route a planned request, in the order in
-- which `handle` runs them.
use firecrawl_gateway.Prelude.{
  ℕ, zero, suc, ◌+◌, Bool, true, false, not, ◌&&◌, ◌||◌, List, [], ◌∷◌, Option, none, some, ◌===◌,
  nat_eq, length, if◌then◌else◌,
}
use firecrawl_gateway.Prelude.Text.{Text}
use firecrawl_gateway.Common.{
  Backend, cloud, self_hosted, backend_eq, Response, ResultKind, response, ProxyResult,
}
use firecrawl_gateway.Policy.{
  RouteMode, is_fallback_allowed, is_fallback_eligible, is_cloud_quota_fallback_allowed,
}
use firecrawl_gateway.Proxy.{
  RoutePlan, Gateway, ProxyState, FallbackReason, no_fallback, no_credit_pool,
  no_credit_pool_fallback_key, self_hosted_failed, self_hosted_failed_fallback_key,
  next_key_succeeded, keys_unavailable, keys_unavailable_fallback_key, Outcome, CloudAttempt,
}
use firecrawl_gateway.Proxy.Calls.{proxy_cloud, proxy_self_hosted}

-- `RETRYABLE_CLOUD_STATUS` and `CLOUD_CAPACITY_STATUS`.
abbrev pub retryable_cloud_status : ℕ → Bool
retryable_cloud_status status = status === 401 || status === 402 || status === 403 || status === 429

abbrev pub cloud_capacity_status : ℕ → Bool
cloud_capacity_status status = status === 402 || status === 429

-- `next.result.kind === "response" ? next.result.response?.status : undefined`.
abbrev status_in : ResultKind → Option Response → Option ℕ
status_in response (some r) = some r.status
status_in _ _ = none

unfoldable pub status_of : ProxyResult → Option ℕ
status_of result = status_in result.kind result.response

abbrev pub has_status : (ℕ → Bool) → Option ℕ → Bool
has_status p none = false
has_status p (some status) = p status

-- A Cloud answer whose status is of a kind.
unfoldable pub is_cloud_answer : (ℕ → Bool) → ProxyResult → Bool
unfolding status_of
is_cloud_answer p result = result.backend === cloud && has_status p (status_of result)

module _ {L : Type 0} (g : Gateway L) (mode : RouteMode) (plan : RoutePlan) where
  abbrev pub take_keys : List Text → ProxyState L → Bool × ProxyState L
  take_keys [] s = (false, s)
  take_keys (k ∷ ks) s = (true, record s { cloud_api_keys = k ∷ ks; fallback_api_keys = [] })

  -- Makes the reserve the active pool.
  unfoldable pub take_fallback_keys : ProxyState L → Bool × ProxyState L
  take_fallback_keys s = take_keys s.fallback_api_keys s

  abbrev pub outcome : ProxyResult → Bool → FallbackReason → Outcome
  outcome result fallback_used reason = record {
    result = result;
    fallback_used = fallback_used;
    fallback_reason = reason;
  }

  -- The reserve is the last pool of a request that only Cloud can serve; `none` is the 429.
  abbrev pub reserve_attempt : Option CloudAttempt → ProxyState L → Option Outcome × ProxyState L
  reserve_attempt none s = (none, s)
  reserve_attempt (some a) s = (some (outcome a.result true no_credit_pool_fallback_key), s)

  abbrev pub cloud_reserve : Bool → ProxyState L → Option Outcome × ProxyState L
  cloud_reserve false s = (none, s)
  cloud_reserve true s = let (a, s') = proxy_cloud g plan s in reserve_attempt a s'

  abbrev pub dispatch_cloud : Option CloudAttempt → ProxyState L → Option Outcome × ProxyState L
  dispatch_cloud (some a) s = (some (outcome a.result false no_fallback), s)
  dispatch_cloud none s =
      if not (is_cloud_quota_fallback_allowed mode plan.needs_cloud)
      then (let (taken, s') = take_fallback_keys s in cloud_reserve taken s')
      else (let (result, s') = proxy_self_hosted g s in
          (some (outcome result true no_credit_pool), s'))

  abbrev pub dispatch_fallback :
      ProxyResult → Option CloudAttempt → ProxyState L → Option Outcome × ProxyState L
  dispatch_fallback result none s = (some (outcome result false no_fallback), s)
  dispatch_fallback result (some a) s =
      (some (outcome a.result true (self_hosted_failed result)), s)

  abbrev pub has_keys : List Text → Bool
  has_keys [] = false
  has_keys (k ∷ ks) = true

  abbrev pub dispatch_self_hosted : ProxyResult → ProxyState L → Option Outcome × ProxyState L
  dispatch_self_hosted result s =
      if has_keys s.cloud_api_keys
        && is_fallback_eligible result
        && is_fallback_allowed mode plan.privacy
      then (let (a, s') = proxy_cloud g plan s in dispatch_fallback result a s')
      else (some (outcome result false no_fallback), s)

  abbrev pub dispatch_to : Backend → ProxyState L → Option Outcome × ProxyState L
  dispatch_to cloud s = let (a, s') = proxy_cloud g plan s in dispatch_cloud a s'
  dispatch_to self_hosted s =
      let (result, s') = proxy_self_hosted g s in dispatch_self_hosted result s'

  unfoldable pub dispatch : ProxyState L → Option Outcome × ProxyState L
  unfolding take_fallback_keys
  dispatch s = dispatch_to plan.initial_backend s

  -- One round of the loop of `rotateCloudKeys`; `continue` is the next round.
  abbrev pub on_attempt :
      ℕ
      → ℕ
      → ℕ
      → Outcome
      → Option CloudAttempt
      → ProxyState L
      → (ℕ → ℕ → Outcome → ProxyState L → Bool × Outcome × ProxyState L)
      → Bool × Outcome × ProxyState L
  on_attempt first_status attempts quota o none s continue = (quota === attempts, o, s)
  on_attempt first_status attempts quota o (some a) s continue =
      let status = status_of a.result in
      let quota' = if has_status cloud_capacity_status status then quota + 1 else quota in
      let o' = record o { result = a.result } in
      if has_status (λ n. not (retryable_cloud_status n)) status
      then (
        quota' === attempts + 1,
        record o' { fallback_used = true; fallback_reason = next_key_succeeded first_status },
        s,
      )
      else continue (attempts + 1) quota' o' s

  -- The loop; enough fuel for every key: `rotate_loop_ends`.
  unfoldable pub rotate_loop :
      ℕ → ℕ → ℕ → ℕ → Outcome → ProxyState L → Bool × Outcome × ProxyState L
  unfolding status_of
  rotate_loop zero first_status attempts quota o s = (quota === attempts, o, s)
  rotate_loop (suc fuel) first_status attempts quota o s =
      let (a, s') = proxy_cloud g plan s in
      on_attempt first_status attempts quota o a s'
        (λ n q p t. rotate_loop fuel first_status n q p t)

  abbrev pub rotate_from : Option ℕ → Outcome → ProxyState L → Bool × Outcome × ProxyState L
  rotate_from none o s = (false, o, s)
  rotate_from (some status) o s =
      rotate_loop (length s.cloud_api_keys + 1) status 1
        (if cloud_capacity_status status then 1 else 0) o s

  unfoldable pub rotate_cloud_keys : Outcome → ProxyState L → Bool × Outcome × ProxyState L
  unfolding is_cloud_answer rotate_loop status_of
  rotate_cloud_keys o s =
      if is_cloud_answer retryable_cloud_status o.result
      then rotate_from (status_of o.result) o s
      else (false, o, s)

  abbrev pub status_or_zero : Option ℕ → ℕ
  status_or_zero none = 0
  status_or_zero (some n) = n

  unfoldable pub fall_back_to_self_hosted : Outcome → ProxyState L → Outcome × ProxyState L
  unfolding is_cloud_answer status_of
  fall_back_to_self_hosted o s =
      if not s.self_hosted_attempted
        && is_cloud_answer cloud_capacity_status o.result
        && is_cloud_quota_fallback_allowed mode plan.needs_cloud
      then (let (result, s') = proxy_self_hosted g s in
          (
            outcome result true
                (keys_unavailable (length s.cloud_api_keys) (status_or_zero (status_of o.result))),
            s',
          ))
      else (o, s)

  unfoldable pub cloud_out_of_quota : Outcome → Bool
  unfolding is_cloud_answer
  cloud_out_of_quota o = plan.needs_cloud.required && is_cloud_answer cloud_capacity_status o.result

  unfoldable pub self_hosted_failure : Outcome → Bool
  self_hosted_failure o =
      o.result.backend === self_hosted
      && is_fallback_eligible o.result
      && is_fallback_allowed mode plan.privacy

  abbrev pub replace_outcome :
      Outcome → Option CloudAttempt → ProxyState L → Bool × Outcome × ProxyState L
  replace_outcome o none s = (false, o, s)
  replace_outcome o (some a) s = (
    true,
    outcome a.result true (
        if cloud_out_of_quota o
        then keys_unavailable_fallback_key o.result
        else self_hosted_failed_fallback_key o.result),
    s,
  )

  unfoldable pub fall_back_to_fallback_keys : Outcome → ProxyState L → Bool × Outcome × ProxyState L
  unfolding cloud_out_of_quota self_hosted_failure take_fallback_keys
  fall_back_to_fallback_keys o s =
      if has_keys s.fallback_api_keys && (cloud_out_of_quota o || self_hosted_failure o)
      then (let (a, s') = proxy_cloud g plan (take_fallback_keys s).1 in replace_outcome o a s')
      else (false, o, s)

  -- The stages of `handle` behind `dispatch`.
  abbrev pub after_rotation : Bool → Outcome → ProxyState L → Outcome × ProxyState L
  after_rotation true o s = fall_back_to_self_hosted o s
  after_rotation false o s = (o, s)

  abbrev pub after_fallback : Bool → Outcome → ProxyState L → Outcome × ProxyState L
  after_fallback true o s = let (all_quota, o', s') = rotate_cloud_keys o s in (o', s')
  after_fallback false o s = (o, s)

  abbrev pub improve : Outcome → ProxyState L → Outcome × ProxyState L
  improve o s =
      let (all_quota, o1, s1) = rotate_cloud_keys o s in
      let (o2, s2) = after_rotation all_quota o1 s1 in
      let (replaced, o3, s3) = fall_back_to_fallback_keys o2 s2 in after_fallback replaced o3 s3

  abbrev pub improve_dispatched : Option Outcome → ProxyState L → Option Outcome × ProxyState L
  improve_dispatched none s = (none, s)
  improve_dispatched (some o) s = let (o', s') = improve o s in (some o', s')

  -- `handle` from `dispatch` on; `none` if a 429 was sent.
  unfoldable pub route : ProxyState L → Option Outcome × ProxyState L
  unfolding dispatch rotate_cloud_keys fall_back_to_self_hosted fall_back_to_fallback_keys
  route s = let (o, s') = dispatch s in improve_dispatched o s'
