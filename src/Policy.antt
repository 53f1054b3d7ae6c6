-- ===== src/Policy.antt =====
-- apps/api/src/proxy/policy.ts: which backend a request goes to, and which fallbacks are allowed.
mod Tests
pub mod Paths
pub mod Bodies
pub mod Pools
use firecrawl_gateway.Prelude.{
  ℕ, Bool, true, false, not, ◌&&◌, ◌||◌, List, [], ◌∷◌, Option, none, some, map, leb, HasEq, ◌===◌,
  nat_beq, nat_eq, ◌≡◌, ◌↔◌, arith, if◌then◌else◌,
}
use firecrawl_gateway.Prelude.Text.{Text, codes, codes_eq, to_lower, includes}
use firecrawl_gateway.Common.{
  Backend, cloud, self_hosted, CloudKeyRole, fallback, role_eq, CloudKeyEntry, NeedsCloudResult,
  Response, ResultKind, network_error, ProxyResult,
}
use Paths.{cannot_verb}

pub data RouteMode : Type 0 where
  self_hosted_first self_hosted_only cloud_first cloud_only hybrid : RouteMode

abbrev mode_rank : RouteMode → ℕ
mode_rank self_hosted_first = 0
mode_rank self_hosted_only = 1
mode_rank cloud_first = 2
mode_rank cloud_only = 3
mode_rank hybrid = 4

pub mode_eq_iff : (a b : RouteMode) → (nat_beq (mode_rank a) (mode_rank b) ≡ true) ↔ (a ≡ b)
mode_eq_iff a b = ground arith

instance abbrev pub mode_eq : HasEq RouteMode
mode_eq = record { equal = λ a b. nat_beq (mode_rank a) (mode_rank b); equal_iff = mode_eq_iff }

abbrev pub default_route_mode : RouteMode
default_route_mode = cloud_first

pub data InitialBackend : Type 0 where
  to : Backend → InitialBackend
  reject : InitialBackend

pub record PrivacyFlags : Type 0 where
  pub has_sensitive_headers : Bool
  pub has_private_target_url : Bool

unfoldable pub choose_initial_backend : RouteMode → NeedsCloudResult → InitialBackend
choose_initial_backend mode needs =
    if mode === cloud_first || mode === cloud_only || mode === hybrid
    then to cloud
    else if mode === self_hosted_only
    then (if needs.required then reject else to self_hosted)
    else if needs.required
    then to cloud
    else to self_hosted

unfoldable pub keys_with_role : CloudKeyRole → List CloudKeyEntry → List Text
keys_with_role role [] = []
keys_with_role role (entry ∷ entries) =
    if entry.role === role
    then entry.key ∷ keys_with_role role entries
    else keys_with_role role entries

unfoldable pub all_keys : List CloudKeyEntry → List Text
all_keys = map (λ entry. entry.key)

pub record KeyPools : Type 0 where
  pub initial_backend : InitialBackend
  pub cloud_api_keys : List Text
  pub fallback_api_keys : List Text

-- The pools of `hybrid`: without a `cloud` key it starts on self-hosted, or on the reserve.
unfoldable pub hybrid_pools : InitialBackend → NeedsCloudResult → List Text → List Text → KeyPools
hybrid_pools initial needs (k ∷ ks) reserve = record {
  initial_backend = initial;
  cloud_api_keys = k ∷ ks;
  fallback_api_keys = reserve;
}
hybrid_pools initial needs [] reserve = record {
  initial_backend = if needs.required then to cloud else to self_hosted;
  cloud_api_keys = reserve;
  fallback_api_keys = [];
}

unfoldable pub select_key_pools :
    RouteMode → InitialBackend → NeedsCloudResult → List CloudKeyEntry → KeyPools
unfolding keys_with_role all_keys hybrid_pools
select_key_pools mode initial needs entries =
    if not (mode === hybrid)
    then record {
      initial_backend = initial;
      cloud_api_keys = all_keys entries;
      fallback_api_keys = [];
    }
    else hybrid_pools initial needs (keys_with_role CloudKeyRole.cloud entries)
        (keys_with_role fallback entries)

unfoldable pub is_fallback_allowed : RouteMode → PrivacyFlags → Bool
is_fallback_allowed mode privacy =
    if not (mode === self_hosted_first) && not (mode === hybrid)
    then false
    else if privacy.has_sensitive_headers
    then false
    else if privacy.has_private_target_url
    then false
    else true

unfoldable pub may_use_cloud_keys : InitialBackend → RouteMode → PrivacyFlags → Bool
unfolding is_fallback_allowed
may_use_cloud_keys (to cloud) mode privacy = true
may_use_cloud_keys (to self_hosted) mode privacy = is_fallback_allowed mode privacy
may_use_cloud_keys reject mode privacy = false

abbrev text_of : Option Text → Text
text_of none = []
text_of (some t) = to_lower t

abbrev pub mentions_unsupported : Text → Bool
mentions_unsupported text =
    includes text (codes "fire-engine")
    || includes text (codes "not configured")
    || includes text (codes "not supported")
    || includes text (codes "unsupported")
    || cannot_verb text
    || includes text (codes "actions")
    || includes text (codes "screenshot")
    || includes text (codes "branding")

abbrev eligible_response : Option Response → Option Text → Bool
eligible_response none body = false
eligible_response (some r) body =
    if leb 500 r.status then true else leb 400 r.status && mentions_unsupported (text_of body)

abbrev eligible_kind : ResultKind → Option Response → Option Text → Bool
eligible_kind network_error response body = true
eligible_kind ResultKind.response response body = eligible_response response body

unfoldable pub is_fallback_eligible : ProxyResult → Bool
is_fallback_eligible result = eligible_kind result.kind result.response result.body

abbrev unavailable_status : Option Response → Bool
unavailable_status none = false
unavailable_status (some r) = r.status === 502 || r.status === 503 || r.status === 504

abbrev unavailable_kind : ResultKind → Option Response → Bool
unavailable_kind network_error response = true
unavailable_kind ResultKind.response response = unavailable_status response

unfoldable pub is_self_hosted_unavailable : ProxyResult → Bool
is_self_hosted_unavailable result = unavailable_kind result.kind result.response

unfoldable pub is_cloud_quota_fallback_allowed : RouteMode → NeedsCloudResult → Bool
is_cloud_quota_fallback_allowed mode needs =
    if not (mode === cloud_first) && not (mode === hybrid) then false else not needs.required
