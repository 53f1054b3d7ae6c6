-- ===== src/Settings/Update.antt =====
-- `update` of apps/api/src/settings/settings.controller.ts: what the admin saves. An error is `none`,
-- also where encryption throws. What is echoed to the caller is left out.
use firecrawl_gateway.Prelude.{
  ℕ, zero, suc, Bool, true, false, not, ◌&&◌, List, [], ◌∷◌, Option, none, some, length, ltb, ◌===◌,
  nat_eq, if◌then◌else◌,
}
use firecrawl_gateway.Prelude.Text.{Text, codes, codes_eq}
use firecrawl_gateway.Prelude.Chars.{is_digit, trim}
use firecrawl_gateway.Prelude.Json.{
  plus, minus, Json, null, num, str, arr, obj, Items, nil, cons, property,
}
use firecrawl_gateway.Common.{CloudKeyRole, cloud, fallback, CloudKeyEntry}
use firecrawl_gateway.Crypto.{Cipher, encrypt_setting_value}
use firecrawl_gateway.Settings.{
  is_bot_token, is_chat_id, max_response_cache_ttl_seconds, max_alert_credits_threshold,
}
use firecrawl_gateway.Settings.CloudKeys.{JsonText, serialize_cloud_key_entries}
use firecrawl_gateway.Settings.Service.{mode_of}

-- `VALID_SETTINGS`.
pub data SettingKey : Type 0 where
  firecrawl_api_keys api_key_inactivity_revoke_days default_route_mode : SettingKey
  response_cache_ttl_seconds alert_credits_low_threshold alert_fallback_ratio_percent : SettingKey
  telegram_chat_id telegram_bot_token : SettingKey

unfoldable pub setting_key : Text → Option SettingKey
setting_key t =
    if t === codes "firecrawl_api_keys"
    then some firecrawl_api_keys
    else if t === codes "api_key_inactivity_revoke_days"
    then some api_key_inactivity_revoke_days
    else if t === codes "default_route_mode"
    then some default_route_mode
    else if t === codes "response_cache_ttl_seconds"
    then some response_cache_ttl_seconds
    else if t === codes "alert_credits_low_threshold"
    then some alert_credits_low_threshold
    else if t === codes "alert_fallback_ratio_percent"
    then some alert_fallback_ratio_percent
    else if t === codes "telegram_chat_id"
    then some telegram_chat_id
    else if t === codes "telegram_bot_token"
    then some telegram_bot_token
    else none

abbrev pub max_cloud_api_keys : ℕ
max_cloud_api_keys = 10

abbrev pub min_api_key_length : ℕ
min_api_key_length = 8

-- A number as `strictNumber` gives it: a fraction is kept as `String` writes it.
pub data Amount : Type 0 where
  whole : ℕ → Amount
  fraction : Text → Amount
  below_zero not_a_number : Amount

-- `Number` of a decimal text, `String` of a whole number, and what encryption needs.
pub record Platform : Type 0 where
  pub number : Text → Amount
  pub show : ℕ → Text
  pub json : JsonText
  pub cipher : Cipher
  pub key : Text
  pub iv : Text

-- `\d+(\.\d+)?`
digits_end : Text → Bool
digits_end [] = true
digits_end (c ∷ t) = is_digit c && digits_end t

decimal_rest : Text → Bool
unfolding digits_end
decimal_rest [] = true
decimal_rest (c ∷ t) =
    if is_digit c then decimal_rest t else c === b'.' && not (t === []) && digits_end t

is_decimal : Text → Bool
unfolding decimal_rest
is_decimal [] = false
is_decimal (c ∷ t) = is_digit c && decimal_rest t

unfoldable pub strict_number : (Text → Amount) → Json → Amount
unfolding trim is_decimal
strict_number number (num (plus n)) = whole n
strict_number number (num (minus zero)) = whole 0
strict_number number (num (minus (suc n))) = below_zero
strict_number number (str t) = if is_decimal (trim t) then number t else not_a_number
strict_number number _ = not_a_number

abbrev pub role_of : Option Json → Option CloudKeyRole
role_of none = some cloud
role_of (some null) = some cloud
role_of (some (str t)) =
    if t === codes "cloud"
    then some cloud
    else if t === codes "fallback"
    then some fallback
    else none
role_of _ = none

abbrev pub entry_of : Text → Option CloudKeyRole → Option CloudKeyEntry
entry_of key none = none
entry_of key (some role) =
    if ltb (length key) min_api_key_length then none else some (record { key = key; role = role })

abbrev pub object_entry : Option Json → Option Json → Option CloudKeyEntry
object_entry (some (str key)) role = entry_of key (role_of role)
object_entry _ role = none

unfoldable pub to_key_entry : Json → Option CloudKeyEntry
unfolding property
to_key_entry (str key) = entry_of key (some cloud)
to_key_entry (obj fields) =
    object_entry (property (codes "key") fields) (property (codes "role") fields)
to_key_entry _ = none

abbrev pub both : Option CloudKeyEntry → Option (List CloudKeyEntry) → Option (List CloudKeyEntry)
both (some e) (some entries) = some (e ∷ entries)
both _ _ = none

unfoldable pub to_key_entries : Items → Option (List CloudKeyEntry)
unfolding to_key_entry
to_key_entries nil = some []
to_key_entries (cons item items) = both (to_key_entry item) (to_key_entries items)

abbrev pub items_length : Items → ℕ
items_length nil = 0
items_length (cons item items) = suc (items_length items)

abbrev pub stored_keys : Platform → Option (List CloudKeyEntry) → Option Text
stored_keys p none = none
stored_keys p (some entries) =
    encrypt_setting_value p.cipher p.iv (p.json.stringify (serialize_cloud_key_entries entries))
      p.key

abbrev pub stored_whole : Platform → ℕ → Amount → Option Text
stored_whole p limit (whole n) = if ltb limit n then none else some (p.show n)
stored_whole p limit _ = none

abbrev pub stored_number : Platform → Amount → Option Text
stored_number p (whole n) = some (p.show n)
stored_number p (fraction t) = some t
stored_number p _ = none

unfoldable pub stored_token : Platform → Text → Option Text
unfolding is_bot_token
stored_token p token =
    if token === []
    then some []
    else if not (is_bot_token token)
    then none
    else encrypt_setting_value p.cipher p.iv token p.key

unfoldable pub stored_chat : Text → Option Text
unfolding is_chat_id
stored_chat chat = if not (chat === []) && not (is_chat_id chat) then none else some chat

-- One field of the update: the value to store.
unfoldable pub normalize : Platform → SettingKey → Json → Option Text
unfolding strict_number to_key_entries stored_token stored_chat trim mode_of
normalize p default_route_mode (str mode) = elim (mode_of mode) [ none ↦ none | some _ ↦ some mode ]
normalize p default_route_mode _ = none
normalize p firecrawl_api_keys (arr items) =
    if ltb max_cloud_api_keys (items_length items)
    then none
    else stored_keys p (to_key_entries items)
normalize p firecrawl_api_keys _ = none
normalize p telegram_bot_token (str token) = stored_token p (trim token)
normalize p telegram_bot_token _ = none
normalize p telegram_chat_id (str chat) = stored_chat (trim chat)
normalize p telegram_chat_id _ = none
normalize p response_cache_ttl_seconds raw =
    stored_whole p max_response_cache_ttl_seconds (strict_number p.number raw)
normalize p alert_credits_low_threshold raw =
    stored_whole p max_alert_credits_threshold (strict_number p.number raw)
normalize p alert_fallback_ratio_percent raw = stored_whole p 100 (strict_number p.number raw)
normalize p api_key_inactivity_revoke_days raw = stored_number p (strict_number p.number raw)

abbrev pub staged : Platform → Option SettingKey → Json → Option Text
staged p none raw = none
staged p (some key) raw = normalize p key raw

abbrev pub before_rest :
    Text → Option Text → Option (List (Text × Text)) → Option (List (Text × Text))
before_rest key (some value) (some writes) = some ((key, value) ∷ writes)
before_rest key _ _ = none

unfoldable pub stage_all : Platform → List (Text × Json) → Option (List (Text × Text))
unfolding setting_key normalize
stage_all p [] = some []
stage_all p ((key, raw) ∷ fields) =
    before_rest key (staged p (setting_key key) raw) (stage_all p fields)

-- Whether it succeeds, and the calls of `setSetting` in their order.
unfoldable pub update : Platform → List (Text × Json) → Bool × List (Text × Text)
unfolding stage_all
update p fields = elim (stage_all p fields) [ none ↦ (false, []) | some writes ↦ (true, writes) ]
