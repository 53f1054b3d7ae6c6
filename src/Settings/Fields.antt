-- ===== src/Settings/Fields.antt =====
-- What one field of an update stores (settings/settings.controller.ts).
use firecrawl_gateway.Prelude.{
  ℕ, ◌≤◌, true, List, [], Option, none, some, length, ltb, ◌===◌, nat_eq, ◌≡◌, ◌⊎◌, inl, inr, refl,
  arith, Bool-cases, Option-cases,
}
use firecrawl_gateway.Prelude.Text.{Text, codes_eq}
use firecrawl_gateway.Prelude.Chars.{trim}
use firecrawl_gateway.Prelude.Json.{Json, str, arr, Items}
use firecrawl_gateway.Common.{CloudKeyEntry}
use firecrawl_gateway.Policy.{RouteMode}
use firecrawl_gateway.Crypto.{encrypt_setting_value}
use firecrawl_gateway.Settings.{
  is_bot_token, is_chat_id, max_response_cache_ttl_seconds, max_alert_credits_threshold,
}
use firecrawl_gateway.Settings.CloudKeys.{serialize_cloud_key_entries}
use firecrawl_gateway.Settings.Service.{mode_of}
use firecrawl_gateway.Settings.Update.{
  SettingKey, firecrawl_api_keys, api_key_inactivity_revoke_days, default_route_mode,
  response_cache_ttl_seconds, alert_credits_low_threshold, alert_fallback_ratio_percent,
  telegram_chat_id, telegram_bot_token, max_cloud_api_keys, Amount, Platform, strict_number,
  to_key_entries, items_length, stored_keys, stored_whole, stored_number, stored_token, stored_chat,
  normalize,
}
use firecrawl_gateway.Settings.Entries.{AllLong, to_key_entries_lem}

abbrev pub IsWhole : Platform → ℕ → Text → Type 0
IsWhole p limit value = (n : ℕ) × (n ≤ limit) × (value ≡ p.show n)

-- What may be stored under each key.
abbrev pub IsStorable : Platform → SettingKey → Text → Type 0
IsStorable p default_route_mode value = (mode : RouteMode) × (mode_of value ≡ some mode)
IsStorable p firecrawl_api_keys value =
    (entries : List CloudKeyEntry) × (length entries ≤ max_cloud_api_keys)
    × AllLong entries
    × (encrypt_setting_value p.cipher p.iv (p.json.stringify (serialize_cloud_key_entries entries))
          p.key
        ≡ some value)
IsStorable p telegram_bot_token value =
    (value ≡ [])
    ⊎ ((token : Text) × (is_bot_token token ≡ true)
        × (encrypt_setting_value p.cipher p.iv token p.key ≡ some value))
IsStorable p telegram_chat_id value = (value ≡ []) ⊎ (is_chat_id value ≡ true)
IsStorable p response_cache_ttl_seconds value = IsWhole p max_response_cache_ttl_seconds value
IsStorable p alert_credits_low_threshold value = IsWhole p max_alert_credits_threshold value
IsStorable p alert_fallback_ratio_percent value = IsWhole p 100 value
IsStorable p api_key_inactivity_revoke_days value =
    ((n : ℕ) × (value ≡ p.show n))
    ⊎ ((raw : Json) × (strict_number p.number raw ≡ Amount.fraction value))

stored_whole-IsWhole :
    (p : Platform) (limit : ℕ) (a : Amount) (value : Text)
    → stored_whole p limit a ≡ some value
    → IsWhole p limit value
stored_whole-IsWhole p limit (Amount.whole n) value h = (n, ground arith, ground arith)
stored_whole-IsWhole p limit (Amount.fraction t) value h = absurd (ground arith)
stored_whole-IsWhole p limit Amount.below_zero value h = absurd (ground arith)
stored_whole-IsWhole p limit Amount.not_a_number value h = absurd (ground arith)

stored_keys-IsStorable :
    (p : Platform) (items : Items) (value : Text) (o : Option (List CloudKeyEntry))
    → items_length items ≤ max_cloud_api_keys
    → to_key_entries items ≡ o
    → stored_keys p o ≡ some value
    → IsStorable p firecrawl_api_keys value
stored_keys-IsStorable p items value none n h e = absurd (ground arith)
stored_keys-IsStorable p items value (some entries) n h e =
    let (count, long) = to_key_entries_lem items entries h in
    (entries, omega (arith, count), long, e)

stored_number-IsStorable :
    (p : Platform) (raw : Json) (value : Text) (a : Amount)
    → strict_number p.number raw ≡ a
    → stored_number p a ≡ some value
    → IsStorable p api_key_inactivity_revoke_days value
stored_number-IsStorable p raw value (Amount.whole n) h e = inl (n, ground arith)
stored_number-IsStorable p raw value (Amount.fraction t) h e = inr (raw, ground arith)
stored_number-IsStorable p raw value Amount.below_zero h e = absurd (ground arith)
stored_number-IsStorable p raw value Amount.not_a_number h e = absurd (ground arith)

stored_token-IsStorable :
    (p : Platform) (token value : Text)
    → stored_token p token ≡ some value
    → IsStorable p telegram_bot_token value
unfolding stored_token
stored_token-IsStorable p token value h = elim (Bool-cases (token === [])) [
  | inl e ↦ let g : some [] ≡ some value = (rw e at h) in inl (ground arith)
  | inr e ↦ elim (Bool-cases (is_bot_token token)) [
    | inl b ↦ inr (token, b, ground arith)
    | inr b ↦ absurd (ground arith)
  ]
]

stored_chat-IsStorable :
    (p : Platform) (chat value : Text)
    → stored_chat chat ≡ some value
    → IsStorable p telegram_chat_id value
unfolding stored_chat
stored_chat-IsStorable p chat value h = elim (Bool-cases (chat === [])) [
  | inl e ↦ inl (ground (arith, codes_eq.equal_iff chat []))
  | inr e ↦ inr (ground arith)
]

mode-IsStorable :
    (p : Platform) (raw : Json) (value : Text)
    → normalize p default_route_mode raw ≡ some value
    → IsStorable p default_route_mode value
unfolding normalize
mode-IsStorable p (str mode) value h = elim (Option-cases (mode_of mode)) [
  | inl e ↦ absurd (ground arith)
  | inr (m, e) ↦ (m, ground arith)
]
mode-IsStorable p _ value h = cc

keys-IsStorable :
    (p : Platform) (raw : Json) (value : Text)
    → normalize p firecrawl_api_keys raw ≡ some value
    → IsStorable p firecrawl_api_keys value
unfolding normalize
keys-IsStorable p (arr items) value h =
    elim (Bool-cases (ltb max_cloud_api_keys (items_length items))) [
      | inl e ↦ let g : none ≡ some value = (rw e at h) in cc
      | inr e ↦
          let g : stored_keys p (to_key_entries items) ≡ some value = (rw e at h) in
          stored_keys-IsStorable p items value (to_key_entries items) (ground arith) refl g
    ]
keys-IsStorable p _ value h = cc

token-IsStorable :
    (p : Platform) (raw : Json) (value : Text)
    → normalize p telegram_bot_token raw ≡ some value
    → IsStorable p telegram_bot_token value
unfolding normalize
token-IsStorable p (str token) value h = stored_token-IsStorable p (trim token) value h
token-IsStorable p _ value h = cc

chat-IsStorable :
    (p : Platform) (raw : Json) (value : Text)
    → normalize p telegram_chat_id raw ≡ some value
    → IsStorable p telegram_chat_id value
unfolding normalize
chat-IsStorable p (str chat) value h = stored_chat-IsStorable p (trim chat) value h
chat-IsStorable p _ value h = cc

pub normalize-IsStorable :
    (p : Platform) (key : SettingKey) (raw : Json) (value : Text)
    → normalize p key raw ≡ some value
    → IsStorable p key value
unfolding normalize
normalize-IsStorable p default_route_mode raw value h = mode-IsStorable p raw value h
normalize-IsStorable p firecrawl_api_keys raw value h = keys-IsStorable p raw value h
normalize-IsStorable p telegram_bot_token raw value h = token-IsStorable p raw value h
normalize-IsStorable p telegram_chat_id raw value h = chat-IsStorable p raw value h
normalize-IsStorable p response_cache_ttl_seconds raw value h =
    stored_whole-IsWhole p max_response_cache_ttl_seconds (strict_number p.number raw) value h
normalize-IsStorable p alert_credits_low_threshold raw value h =
    stored_whole-IsWhole p max_alert_credits_threshold (strict_number p.number raw) value h
normalize-IsStorable p alert_fallback_ratio_percent raw value h =
    stored_whole-IsWhole p 100 (strict_number p.number raw) value h
normalize-IsStorable p api_key_inactivity_revoke_days raw value h =
    stored_number-IsStorable p raw value (strict_number p.number raw) refl h
