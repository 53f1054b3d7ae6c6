-- ===== src/Policy/Pools.antt =====
-- How proxy/policy.ts splits the keys, and what its route modes promise.
use mathlib.Core.List.{append-nil, Perm, perm_middle}
use mathlib.Core.List.Perm
use firecrawl_gateway.Prelude.{
  true, false, List, [], ◌∷◌, ◌++◌, ◌≡◌, ◌≢◌, ◌⊎◌, ◌↔◌, inl, inr, refl, arith, ◌===◌, Bool-cases,
}
use firecrawl_gateway.Prelude.Text.{Text}
use firecrawl_gateway.Common.{
  cloud, self_hosted, CloudKeyRole, fallback, role_eq, CloudKeyEntry, NeedsCloudResult,
}
use firecrawl_gateway.Policy.{
  RouteMode, self_hosted_first, self_hosted_only, hybrid, mode_eq, InitialBackend, to, reject,
  PrivacyFlags, keys_with_role, all_keys, hybrid_pools, choose_initial_backend, select_key_pools,
  is_fallback_allowed, may_use_cloud_keys, is_cloud_quota_fallback_allowed,
}

keys_with_role-perm :
    (entries : List CloudKeyEntry)
    → Perm
        (all_keys entries)
        (keys_with_role CloudKeyRole.cloud entries ++ keys_with_role fallback entries)
unfolding keys_with_role all_keys
keys_with_role-perm [] = Perm.nil
keys_with_role-perm (entry ∷ entries) =
    let rest = Perm.cons entry.key (keys_with_role-perm entries) in
    ground (
      arith,
      rest,
      Perm.trans rest (
          Perm.symm (
            perm_middle (keys_with_role CloudKeyRole.cloud entries)
              (keys_with_role fallback entries))),
    )

hybrid_pools-keys :
    (initial : InitialBackend) (needs : NeedsCloudResult) (ks rs : List Text)
    → let pools = hybrid_pools initial needs ks rs in
      Perm (ks ++ rs) (pools.cloud_api_keys ++ pools.fallback_api_keys)
unfolding hybrid_pools
hybrid_pools-keys initial needs [] rs = rw append-nil (Perm.refl rs)
hybrid_pools-keys initial needs (k ∷ ks) rs = Perm.refl _

-- Every mode: the two pools together hold each configured key exactly as often as the settings do.
pub select_key_pools-perm :
    (mode : RouteMode) (initial : InitialBackend) (needs : NeedsCloudResult)
    (entries : List CloudKeyEntry)
    → let pools = select_key_pools mode initial needs entries in
      Perm (all_keys entries) (pools.cloud_api_keys ++ pools.fallback_api_keys)
unfolding select_key_pools
select_key_pools-perm mode initial needs entries = elim (Bool-cases (mode === hybrid)) [
  | inl e ↦ rw e (
      Perm.trans (keys_with_role-perm entries) (
        hybrid_pools-keys initial needs (keys_with_role CloudKeyRole.cloud entries)
          (keys_with_role fallback entries)))
  | inr e ↦ rw e (rw append-nil (Perm.refl (all_keys entries)))
]

-- A fallback from self-hosted to Cloud is allowed exactly in the modes `self-hosted-first` and
-- `hybrid`, for a request without sensitive headers and without a private target.
pub is_fallback_allowed_iff :
    (mode : RouteMode) (privacy : PrivacyFlags)
    → (is_fallback_allowed mode privacy ≡ true) ↔ (
        ((mode ≡ self_hosted_first) ⊎ (mode ≡ hybrid))
        × (privacy.has_sensitive_headers ≡ false)
        × (privacy.has_private_target_url ≡ false))
unfolding is_fallback_allowed
is_fallback_allowed_iff mode privacy = ground arith

-- The self-hosted-only mode never starts on Cloud and may not use a Cloud key, whatever the request,
-- and it rejects exactly the requests that require Cloud.
pub self_hosted_only_route :
    (needs : NeedsCloudResult) (privacy : PrivacyFlags) (entries : List CloudKeyEntry)
    → let initial = choose_initial_backend self_hosted_only needs in
      let pools = select_key_pools self_hosted_only initial needs entries in
      (may_use_cloud_keys initial self_hosted_only privacy ≡ false)
      × (pools.initial_backend ≢ to cloud)
      × ((pools.initial_backend ≡ reject) ↔ (needs.required ≡ true))
unfolding choose_initial_backend select_key_pools may_use_cloud_keys is_fallback_allowed
self_hosted_only_route needs privacy entries = ground arith

hybrid_pools_required :
    (needs : NeedsCloudResult) (ks rs : List Text)
    → needs.required ≡ true
    → (hybrid_pools (to cloud) needs ks rs).initial_backend ≡ to cloud
unfolding hybrid_pools
hybrid_pools_required needs [] rs h = ground arith
hybrid_pools_required needs (k ∷ ks) rs h = refl

-- A request that requires Cloud never starts on self-hosted, in no mode and with no set of keys.
pub required_route :
    (mode : RouteMode) (needs : NeedsCloudResult) (entries : List CloudKeyEntry)
    → needs.required ≡ true
    → let initial = choose_initial_backend mode needs in
      ((select_key_pools mode initial needs entries).initial_backend ≢ to self_hosted)
      × (is_cloud_quota_fallback_allowed mode needs ≡ false)
unfolding choose_initial_backend select_key_pools is_cloud_quota_fallback_allowed
required_route mode needs entries h = ground (
  arith,
  hybrid_pools_required needs (keys_with_role CloudKeyRole.cloud entries)
      (keys_with_role fallback entries) h,
)
