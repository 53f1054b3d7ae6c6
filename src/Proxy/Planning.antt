-- ===== src/Proxy/Planning.antt =====
-- apps/api/src/proxy/proxy.service.ts: `authenticate` and `buildPlan`, which answer a request early
-- or make the plan by which it is routed. The stored key, its limits and the key entries come from
-- the services, and are arguments here.
use firecrawl_gateway.Prelude.{
  ℕ, Bool, true, false, not, ◌&&◌, ◌||◌, List, [], ◌∷◌, Option, none, some, leb, ltb, ◌===◌, ◌≡◌,
  ◌⊎◌, refl, length, if◌then◌else◌, Bool-cases, inl, inr,
}
use firecrawl_gateway.Prelude.Text.{Text, codes, codes_eq, codes_beq, to_lower}
use firecrawl_gateway.Prelude.Json.{Json}
use firecrawl_gateway.Common.{Backend, cloud, self_hosted, CloudKeyEntry, NeedsCloudResult}
use firecrawl_gateway.Policy.{
  RouteMode, mode_eq, InitialBackend, to, reject, PrivacyFlags, choose_initial_backend,
  may_use_cloud_keys, KeyPools, select_key_pools,
}
use firecrawl_gateway.Policy.Bodies.{request_needs_cloud, has_sensitive_headers}
use firecrawl_gateway.Targets.{collect_target_urls, has_private_target_url}
use firecrawl_gateway.Proxy.{RoutePlan}

pub record ApiKey : Type 0 where
  pub id : Text
  pub expires_at : Option ℕ
  pub rate_limit_per_minute : Option ℕ
  pub monthly_quota : Option ℕ

-- What the caller is told early: the status.
pub data Authenticated : Type 0 where
  anonymous : Authenticated
  as_key : Text → Authenticated
  turned_away : ℕ → Authenticated

-- `isApiKeyExpired`, with the time that the date parses to.
unfoldable pub is_api_key_expired : ApiKey → ℕ → Bool
is_api_key_expired key now = elim key.expires_at [ none ↦ false | some t ↦ leb t now ]

-- What the limit services answer: whether the limit is exceeded, and none if they could not say.
pub record LimitAnswers : Type 0 where
  pub rate_limit : Option Bool
  pub quota : Option Bool

-- A limit whose counter could not say counts as not exceeded: it fails open.
abbrev exceeded : Option ℕ → Option Bool → Bool
exceeded none answer = false
exceeded (some limit) none = false
exceeded (some limit) (some e) = e

unfoldable pub check_limits : ApiKey → LimitAnswers → Authenticated
check_limits key answers =
    if exceeded key.rate_limit_per_minute answers.rate_limit
    then turned_away 429
    else if exceeded key.monthly_quota answers.quota
    then turned_away 429
    else as_key key.id

abbrev check_key : ℕ → LimitAnswers → Option ApiKey → Authenticated
check_key now answers none = turned_away 401
check_key now answers (some key) =
    if is_api_key_expired key now then turned_away 401 else check_limits key answers

abbrev check_bearer : ℕ → LimitAnswers → (Text → Option ApiKey) → Option Text → Authenticated
check_bearer now answers validate none = turned_away 401
check_bearer now answers validate (some token) = check_key now answers (validate token)

-- `bearer` is the token of the header `Authorization: Bearer ...`. The headers that tell of a limit,
-- the audit entry and `touchApiKey` are left out.
unfoldable pub authenticate :
    Bool → Bool → ℕ → LimitAnswers → (Text → Option ApiKey) → Option Text → Authenticated
unfolding is_api_key_expired check_limits
authenticate auth_enabled admin now answers validate bearer =
    if auth_enabled && not admin then check_bearer now answers validate bearer else anonymous

-- The caller may go on: with no key, or with a key that is valid and of which no counter
-- says that its limit is exceeded.
abbrev pub MayGoOn : ℕ → LimitAnswers → (Text → Option ApiKey) → Option Text → Text → Type 0
MayGoOn now answers validate bearer id =
    (token : Text) × (key : ApiKey) × (bearer ≡ some token)
    × (validate token ≡ some key)
    × (key.id ≡ id)
    × (is_api_key_expired key now ≡ false)
    × (exceeded key.rate_limit_per_minute answers.rate_limit ≡ false)
    × (exceeded key.monthly_quota answers.quota ≡ false)

-- What each answer says of a request that has to authenticate.
abbrev pub IsJust : ℕ → LimitAnswers → (Text → Option ApiKey) → Option Text → Authenticated → Type 0
IsJust now answers validate bearer anonymous = ⊥
IsJust now answers validate bearer (as_key id) = MayGoOn now answers validate bearer id
IsJust now answers validate bearer (turned_away status) = (status ≡ 401) ⊎ (status ≡ 429)

check_key-IsJust :
    (now : ℕ) (answers : LimitAnswers) (validate : Text → Option ApiKey) (token : Text)
    (o : Option ApiKey)
    → validate token ≡ o
    → IsJust now answers validate (some token) (check_key now answers o)
unfolding check_limits
check_key-IsJust now answers validate token none v = inl refl
check_key-IsJust now answers validate token (some key) v =
    elim (Bool-cases (is_api_key_expired key now)) [
      | inl x ↦ rw x (inl refl)
      | inr x ↦ elim (Bool-cases (exceeded key.rate_limit_per_minute answers.rate_limit)) [
        | inl y ↦ rw (x, y) (inr refl)
        | inr y ↦ elim (Bool-cases (exceeded key.monthly_quota answers.quota)) [
          | inl z ↦ rw (x, y, z) (inr refl)
          | inr z ↦ rw (x, y, z) (token, key, refl, v, refl, x, y, z)
        ]
      ]
    ]

check_bearer-IsJust :
    (now : ℕ) (answers : LimitAnswers) (validate : Text → Option ApiKey) (bearer : Option Text)
    → IsJust now answers validate bearer (check_bearer now answers validate bearer)
check_bearer-IsJust now answers validate none = inl refl
check_bearer-IsJust now answers validate (some token) =
    check_key-IsJust now answers validate token (validate token) refl

-- With authentication on, a request that is not the admin's never goes on without a key: it goes on
-- as a key only with the token of that key, which is stored, has not expired, and of which neither
-- counter says that its limit is exceeded (a counter that cannot say does not), and otherwise it is
-- answered with 401 or 429.
pub authenticate-IsJust :
    (now : ℕ) (answers : LimitAnswers) (validate : Text → Option ApiKey) (bearer : Option Text)
    → IsJust now answers validate bearer (authenticate true false now answers validate bearer)
unfolding authenticate
authenticate-IsJust now answers validate bearer = check_bearer-IsJust now answers validate bearer

-- The services and settings that `buildPlan` reads. `hostname` is as in common/utils.ts.
pub record PlanSettings : Type 0 where
  pub max_body_bytes : ℕ
  pub mode : RouteMode
  pub key_entries : List CloudKeyEntry
  pub hostname : Text → Option Text
  pub auth_enabled : Bool

-- What `buildPlan` reads of a request; `json` and `parse_error` are what `inspectBody` returns.
pub record PlanRequest : Type 0 where
  pub path : Text
  pub body_buffer : Text
  pub json : Json
  pub parse_error : Option Text
  pub header_names : List Text
  pub admin : Bool

pub data Planned : Type 0 where
  planned : RoutePlan → Planned
  rejected_early : ℕ → Planned

-- `privacyHeaders`: the names without those of the gateway's own credentials.
unfoldable pub privacy_headers : Bool → Bool → List Text → List Text
unfolding to_lower codes_beq
privacy_headers auth_enabled admin [] = []
privacy_headers auth_enabled admin (name ∷ names) =
    let lower = to_lower name in
    if auth_enabled && (lower === codes "authorization" || admin && lower === codes "cookie")
    then privacy_headers auth_enabled admin names
    else name ∷ privacy_headers auth_enabled admin names

unfoldable pub privacy_of : PlanSettings → PlanRequest → PrivacyFlags
unfolding privacy_headers
privacy_of settings request = record {
  has_sensitive_headers =
      has_sensitive_headers
        (privacy_headers settings.auth_enabled request.admin request.header_names) request.json;
  has_private_target_url =
      has_private_target_url settings.hostname (collect_target_urls request.json);
}

abbrev pub plan_on : PlanRequest → NeedsCloudResult → PrivacyFlags → KeyPools → Backend → Planned
plan_on request needs privacy pools backend = planned (record {
  body_buffer = request.body_buffer;
  needs_cloud = needs;
  privacy = privacy;
  initial_backend = backend;
  cloud_api_keys = pools.cloud_api_keys;
  fallback_api_keys = pools.fallback_api_keys;
  estimated_credits = 1;
})

abbrev pub no_keys : List Text → Bool
no_keys [] = true
no_keys (k ∷ ks) = false

abbrev pub plan_backend :
    PlanRequest → NeedsCloudResult → PrivacyFlags → KeyPools → InitialBackend → Planned
plan_backend request needs privacy pools (to cloud) =
    if no_keys pools.cloud_api_keys
    then rejected_early 502
    else plan_on request needs privacy pools cloud
plan_backend request needs privacy pools (to self_hosted) =
    plan_on request needs privacy pools self_hosted
plan_backend request needs privacy pools reject = rejected_early 409

abbrev pub plan_pools : PlanRequest → NeedsCloudResult → PrivacyFlags → KeyPools → Planned
plan_pools request needs privacy pools =
    plan_backend request needs privacy pools pools.initial_backend

abbrev pub plan_inspected : PlanSettings → PlanRequest → NeedsCloudResult → PrivacyFlags → Planned
plan_inspected settings request needs privacy =
    let first = choose_initial_backend settings.mode needs in
    plan_pools request needs privacy (
      select_key_pools settings.mode first needs
        (if may_use_cloud_keys first settings.mode privacy then settings.key_entries else []))

abbrev pub has_error : Option Text → Bool
has_error none = false
has_error (some e) = true

unfoldable pub build_plan : PlanSettings → PlanRequest → Planned
unfolding privacy_of choose_initial_backend select_key_pools may_use_cloud_keys
build_plan settings request =
    if ltb settings.max_body_bytes (length request.body_buffer)
    then rejected_early 413
    else if has_error request.parse_error
    then rejected_early 400
    else plan_inspected settings request (request_needs_cloud request.path request.json)
        (privacy_of settings request)
