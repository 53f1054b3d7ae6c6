-- ===== src/Settings/Service.antt =====
-- apps/api/src/settings/settings.service.ts: settings behind a cache of five seconds.
use firecrawl_gateway.Prelude.{
  ℕ, List, [], ◌∷◌, Option, none, some, ◌===◌, nat_eq, ◌≡◌, ◌⊎◌, arith, if◌then◌else◌,
}
use firecrawl_gateway.Prelude.OrderedMap.{get, set, Distinct, get-set, set-Distinct}
use firecrawl_gateway.Prelude.Text.{Text, codes, codes_eq}
use firecrawl_gateway.Policy.{
  RouteMode, self_hosted_first, self_hosted_only, cloud_first, cloud_only, hybrid,
}
use firecrawl_gateway.Reads.{Reads, Cached, CacheStore, Found, begin, finish}
use firecrawl_gateway.Reads.World.{World, Event, calls, commits, invalidates, step, run}
use firecrawl_gateway.Reads.Calls.{outcome}
use firecrawl_gateway.Reads.Acknowledged.{AllKeep, acknowledged, acknowledged_call}

-- The value of a setting; none where there is no row.
abbrev pub SettingValue : Type 0
SettingValue = Option Text

abbrev pub settings_ttl_ms : ℕ
settings_ttl_ms = 5000

unfoldable pub mode_of : Text → Option RouteMode
mode_of t =
    if t === codes "self-hosted-first"
    then some self_hosted_first
    else if t === codes "self-hosted-only"
    then some self_hosted_only
    else if t === codes "cloud-first"
    then some cloud_first
    else if t === codes "cloud-only"
    then some cloud_only
    else if t === codes "hybrid"
    then some hybrid
    else none

unfoldable pub parse_route_mode : SettingValue → RouteMode → RouteMode
unfolding mode_of
parse_route_mode none otherwise = otherwise
parse_route_mode (some value) otherwise = elim (mode_of value) [
  | none ↦ otherwise
  | some mode ↦ mode
]

-- `track` writes the cache by a plain `set`.
unfoldable pub cache_setting :
    Text
    → Cached SettingValue
    → List (Text × Cached SettingValue)
    → List (Text × Cached SettingValue)
cache_setting key c m = set key c m

pub cache_setting-get :
    (k j : Text) (c d : Cached SettingValue) (m : List (Text × Cached SettingValue))
    → Distinct m
    → get j (cache_setting k c m) ≡ some d
    → ((k ≡ j) × (c ≡ d)) ⊎ (get j m ≡ some d)
unfolding cache_setting
cache_setting-get k j c d m v h = ground (arith, codes_eq.equal_iff k j, get-set k j c m)

pub cache_setting-Distinct :
    (k : Text) (c : Cached SettingValue) (m : List (Text × Cached SettingValue))
    → Distinct m
    → Distinct (cache_setting k c m)
unfolding cache_setting
cache_setting-Distinct k c m = set-Distinct k c m

abbrev pub settings_store : CacheStore Text SettingValue
settings_store = record {
  put = cache_setting;
  put-get = cache_setting-get;
  put-Distinct = cache_setting-Distinct;
}

abbrev pub Settings : Type 0
Settings = World Text SettingValue

unfoldable pub step_settings : Settings → Event Text SettingValue → Settings
step_settings w event = step settings_store settings_ttl_ms w event

unfoldable pub run_settings : Settings → List (Event Text SettingValue) → Settings
run_settings w events = run settings_store settings_ttl_ms w events

-- `getSetting`: what the call finds at once.
unfoldable pub get_setting : Text → ℕ → Settings → Found SettingValue
get_setting key now w = (begin key w.next now w.reads).1

-- `track` after its `await`: the request `id` has read the value.
unfoldable pub track :
    Text → ℕ → SettingValue → ℕ → Reads Text SettingValue → Reads Text SettingValue
track key id value now r = finish settings_store settings_ttl_ms key id value now r

-- `setSetting` with nothing in between.
unfoldable pub set_setting : Text → Text → Settings → Settings
unfolding step_settings
set_setting key value w =
    step_settings (step_settings w (commits key (some value))) (invalidates key)

-- `getSettings` makes one call for each key of the set, all at one time; the queries of the keys that
-- are missing are one query in the source, and are read one by one here.
unfoldable pub get_settings : List Text → ℕ → Settings → Settings
unfolding step_settings
get_settings [] now w = w
get_settings (key ∷ keys) now w = get_settings keys now (step_settings w (calls key now))

-- `setSetting`, or a `replaceSettingIfUnchanged` that made its change, has returned.
unfoldable pub changed_setting :
    Text
    → Text
    → (Text → SettingValue)
    → List (Event Text SettingValue)
    → List (Event Text SettingValue)
    → List (Event Text SettingValue)
    → Settings
changed_setting key value db before between after =
    acknowledged settings_store settings_ttl_ms key (some value) db before between after

-- Once a setting has been saved and the call has returned, every later read in this process returns
-- the new value at once, also if a read that had started before ends only afterwards. The setting is
-- not written again before the read ends; anything else may happen.
pub get_setting-changed_setting :
    (key value : Text) (seen : SettingValue) (db : Text → SettingValue)
    (before between after events : List (Event Text SettingValue)) (now : ℕ)
    → AllKeep key between
    → AllKeep key after
    → AllKeep key events
    → let w = changed_setting key value db before between after in
      outcome (get_setting key now w) w.next (run_settings (step_settings w (calls key now)) events)
        ≡ some seen
      → seen ≡ some value
unfolding get_setting run_settings step_settings changed_setting
get_setting-changed_setting key value seen db before between after events now =
    acknowledged_call settings_store settings_ttl_ms key (some value) seen db before between after
      events now
