-- ===== src/ApiKeys.antt =====
-- apps/api/src/api-keys/api-keys.service.ts: the virtual API keys, their validation and their
-- limits. A row stands for the record that `toKey` makes of it; times are milliseconds.
-- `hash` is `hashApiKey` (SHA-256).
pub mod Table
pub mod Store
pub mod Validation
pub mod Counters
mod Tests
use firecrawl_gateway.Prelude.{
  ℕ, ◌+◌, ◌-◌, max, Bool, true, false, not, ◌&&◌, ◌||◌, List, [], ◌∷◌, ◌++◌, Option, none, some,
  length, ltb, leb, ◌===◌, nat_eq, ◌≡◌, if◌then◌else◌,
}
use firecrawl_gateway.Prelude.OrderedMap.{get, set, delete, has}
use firecrawl_gateway.Prelude.Text.{Text, codes, codes_eq}
use firecrawl_gateway.RateLimits.{RateLimitHit}

abbrev pub api_key_validation_cache_ttl_ms : ℕ
api_key_validation_cache_ttl_ms = 30000

abbrev pub validation_cache_max_size : ℕ
validation_cache_max_size = 10000

abbrev pub touch_debounce_ms : ℕ
touch_debounce_ms = 60000

abbrev pub touch_tracker_max_size : ℕ
touch_tracker_max_size = 10000

pub record ApiKeyRecord : Type 0 where
  pub id : Text
  pub name : Text
  pub key_hash : Text
  pub key_value : Option Text
  pub key_prefix : Text
  pub revoked : Bool
  pub created_at : ℕ
  pub updated_at : ℕ
  pub last_used_at : Option ℕ
  pub expires_at : Option ℕ
  pub rate_limit_per_minute : Option ℕ
  pub monthly_quota : Option ℕ

-- `none` leaves a limit as it is, `some none` clears it.
pub record ApiKeyLimits : Type 0 where
  pub expires_at : Option (Option ℕ)
  pub rate_limit_per_minute : Option (Option ℕ)
  pub monthly_quota : Option (Option ℕ)

pub record ApiKeyRateLimitResult : Type 0 where
  pub limit : ℕ
  pub remaining : ℕ
  pub reset_at : ℕ
  pub exceeded : Bool

abbrev pub or_keep {ℓ} : {A : Type ℓ} → Option A → A → A
or_keep none old = old
or_keep (some new) old = new

-- `limitsData`, written over the row.
unfoldable pub with_limits : ApiKeyLimits → ApiKeyRecord → ApiKeyRecord
with_limits l key = record key {
  expires_at = or_keep l.expires_at key.expires_at;
  rate_limit_per_minute = or_keep l.rate_limit_per_minute key.rate_limit_per_minute;
  monthly_quota = or_keep l.monthly_quota key.monthly_quota;
}

-- `findFirst` of the row with the hash that is not revoked.
unfoldable pub find_valid : Text → List ApiKeyRecord → Option ApiKeyRecord
find_valid hash [] = none
find_valid hash (row ∷ rows) =
    if row.key_hash === hash && not row.revoked then some row else find_valid hash rows

-- `update` of the row with the id: no row is the error P2025.
unfoldable pub update_row :
    (ApiKeyRecord → ApiKeyRecord)
    → Text
    → List ApiKeyRecord
    → List ApiKeyRecord × Option ApiKeyRecord
update_row change id [] = ([], none)
update_row change id (row ∷ rows) =
    let rest = update_row change id rows in
    if row.id === id then (change row ∷ rows, some (change row)) else (row ∷ rest.0, rest.1)

abbrev pub revoke : ApiKeyRecord → ApiKeyRecord
revoke key = record key { revoked = true }

-- `revokeApiKey` and `updateApiKeyLimits` up to the invalidation of the key's hash.
unfoldable pub revoke_api_key : Text → List ApiKeyRecord → List ApiKeyRecord × Option ApiKeyRecord
unfolding update_row
revoke_api_key id rows = update_row revoke id rows

unfoldable pub update_api_key_limits :
    Text → ApiKeyLimits → List ApiKeyRecord → List ApiKeyRecord × Option ApiKeyRecord
unfolding update_row with_limits
update_api_key_limits id limits rows = update_row (with_limits limits) id rows

-- `hitRateLimit`: `hit` is what the counter answers, `none` where it throws.
abbrev limited : Option ℕ → Option RateLimitHit → Option ApiKeyRateLimitResult
limited none hit = none
limited (some limit) none = none
limited (some limit) (some hit) = some (record {
  limit = limit;
  remaining = limit - hit.count;
  reset_at = hit.reset_at;
  exceeded = ltb limit hit.count;
})

unfoldable pub rate_limit_key : ApiKeyRecord → Text
rate_limit_key key = codes "key:" ++ key.id

unfoldable pub hit_rate_limit :
    (Text → Option RateLimitHit) → ApiKeyRecord → Option ApiKeyRateLimitResult
unfolding rate_limit_key
hit_rate_limit counter key = limited key.rate_limit_per_minute (counter (rate_limit_key key))

-- `quotaWindow`: the digits of the year and the month (from 1, two of them).
unfoldable pub quota_key : Text → Text → Text → Text
quota_key id year month = codes "quota:" ++ (id ++ b':' ∷ (year ++ b'-' ∷ month))

unfoldable pub hit_quota :
    (Text → Option RateLimitHit) → Text → Text → ApiKeyRecord → Option ApiKeyRateLimitResult
unfolding quota_key
hit_quota counter year month key = limited key.monthly_quota (counter (quota_key key.id year month))

-- `recordValidation` and `recordTouch`: the newest entry stands last, and the oldest makes room.
abbrev drop_first {ℓ} : {V : Type ℓ} → List (Text × V) → List (Text × V)
drop_first [] = []
drop_first ((oldest, v) ∷ m) = if oldest === [] then (oldest, v) ∷ m else m

unfoldable pub record_newest {ℓ} : {V : Type ℓ} → ℕ → Text → V → List (Text × V) → List (Text × V)
record_newest limit key v m =
    set key v (if has key m then delete key m else if leb limit (length m) then drop_first m else m)

-- `touchApiKey` up to its `await`: whether the time is written to the row.
unfoldable pub start_touch : Text → ℕ → List (Text × ℕ) → List (Text × ℕ) × Bool
unfolding record_newest
start_touch id now touches = elim (get id touches) [
  | none ↦ (touches, true)
  | some last ↦
      if ltb 0 last && ltb (now - last) touch_debounce_ms
      then (record_newest touch_tracker_max_size id last touches, false)
      else (touches, true)
]

-- The rest of it, once the row is written.
unfoldable pub finish_touch : Text → ℕ → List (Text × ℕ) → List (Text × ℕ)
unfolding record_newest
finish_touch id now touches = record_newest touch_tracker_max_size id now touches
