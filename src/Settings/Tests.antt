-- ===== src/Settings/Tests.antt =====
-- Tests of the settings (settings/), and the theorems at concrete inputs.
use firecrawl_gateway.Prelude.{true, false, List, [], ◌∷◌, ◌++◌, none, some, ◌≡◌, refl}
use firecrawl_gateway.Prelude.OrderedMap.{get, set, delete}
use firecrawl_gateway.Prelude.Text.{Text, codes, codes_beq}
use firecrawl_gateway.Prelude.Chars.{every}
use firecrawl_gateway.Prelude.Json.{
  plus, Json, null, num, str, obj, Items, nil, cons, end, field, property,
}
use firecrawl_gateway.Common.{cloud, fallback, CloudKeyEntry}
use firecrawl_gateway.Crypto.{encrypt_setting_value}
use firecrawl_gateway.Crypto.Sample.{shift_up, shift_cipher, shift_cipher-IsCipher, hex_key}
use firecrawl_gateway.Reads.{begin, finish, invalidate}
use firecrawl_gateway.Reads.World.{new_world, Event, calls, queries, settles, step, run}
use firecrawl_gateway.Reads.Calls.{outcome}
use firecrawl_gateway.Settings.{mask_bot_token, is_chat_id}
use firecrawl_gateway.Settings.CloudKeys.{
  JsonText, load_cloud_key_entries, replace_if_unchanged, serialize_cloud_key_entries,
}
use firecrawl_gateway.Settings.Loading.{plain_of, load_keeps_plaintext}
use firecrawl_gateway.Settings.Service.{
  SettingValue, step_settings, run_settings, get_setting, changed_setting, track, set_setting,
  get_settings,
}
use firecrawl_gateway.Settings.Update.{
  whole, Platform, setting_key, to_key_entry, to_key_entries, normalize, update,
}
use firecrawl_gateway.Settings.Stored.{AllStorable, update_refuses, update-AllStorable}
use firecrawl_gateway.Settings.SavedKeys.{load-normalize}

masked :
    mask_bot_token (codes "77:secret")
    ≡ codes "77:" ++ (8226 ∷ 8226 ∷ 8226 ∷ 8226 ∷ 8226 ∷ 8226 ∷ 8226 ∷ 8226 ∷ [])
unfolding mask_bot_token
masked = refl

channel : is_chat_id (codes "@news_1") ≡ true
unfolding is_chat_id every
channel = refl

-- JSON texts that are told apart by nothing: enough where one value is written.
abbrev one_value : Json → JsonText
one_value json = record { parse = λ t. some json; stringify = λ j. codes "[]" }

abbrev platform : Platform
platform = record {
  number = λ t. whole 7;
  show = λ n. n ∷ [];
  json = one_value null;
  cipher = shift_cipher;
  key = hex_key;
  iv = codes "iv";
}

abbrev fields : List (Text × Json)
fields =
    (codes "default_route_mode", str (codes "hybrid"))
    ∷ (codes "alert_fallback_ratio_percent", num (plus 101))
    ∷ (codes "telegram_chat_id", str (codes ""))
    ∷ []

update_refuses_example : update platform fields ≡ (false, [])
unfolding setting_key normalize codes_beq
update_refuses_example =
    update_refuses platform ((codes "default_route_mode", str (codes "hybrid")) ∷ [])
      ((codes "telegram_chat_id", str (codes "")) ∷ []) (codes "alert_fallback_ratio_percent")
      (num (plus 101)) refl

update-AllStorable_example : AllStorable platform (update platform fields).1
update-AllStorable_example = update-AllStorable platform fields

load_keeps_plaintext_example :
    plain_of shift_cipher hex_key (
      replace_if_unchanged
        (load_cloud_key_entries shift_cipher (one_value null) (codes "iv") hex_key (codes "old")).1
        (codes "old"))
    ≡ plain_of shift_cipher hex_key (codes "old")
load_keeps_plaintext_example =
    load_keeps_plaintext shift_cipher (one_value null) (codes "iv") hex_key (codes "old")
      (codes "old") shift_cipher-IsCipher (refl, (refl, tt))

-- A read that ends after the setting was saved leaves the cache alone.
late_read :
    (track
      (codes "k")
      0
      (some (codes "old"))
      6
      (set_setting
        (codes "k")
        (codes "new")
        (get_settings (codes "k" ∷ []) 5 (new_world (λ key. some (codes "old"))))).reads).cache
    ≡ []
unfolding track set_setting get_settings step_settings step begin finish invalidate get set delete
    codes_beq
late_read = refl

-- A read of the old value is under way while the setting is saved.
abbrev before : List (Event Text SettingValue)
before = calls (codes "k") 5 ∷ queries 0 ∷ []

abbrev after : List (Event Text SettingValue)
after = settles 0 6 ∷ []

read_after_save :
    let w = changed_setting (codes "k") (codes "new") (λ key. some (codes "old")) before [] after in
    outcome
      (get_setting (codes "k") 7 w)
      w.next
      (run_settings (step_settings w (calls (codes "k") 7)) (queries 1 ∷ []))
    ≡ some (some (codes "new"))
unfolding get_setting changed_setting run_settings step_settings run step begin finish invalidate
    get set delete codes_beq
read_after_save = refl

abbrev sent_keys : Items
sent_keys = cons (str (codes "fc-12345")) (
    cons
      (obj (
        field (codes "role") (str (codes "fallback"))
          (field (codes "key") (str (codes "fc-67890")) end)))
      nil)

abbrev saved_keys : List CloudKeyEntry
saved_keys =
    record { key = codes "fc-12345"; role = cloud }
    ∷ record { key = codes "fc-67890"; role = fallback }
    ∷ []

abbrev key_platform : Platform
key_platform = record platform { json = one_value (serialize_cloud_key_entries saved_keys) }

abbrev saved_text : Text
saved_text = codes "enc:v1:iv::" ++ shift_up (codes "[]")

load-normalize_example :
    load_cloud_key_entries shift_cipher key_platform.json (codes "v2") hex_key saved_text
    ≡ (some saved_keys, none)
unfolding to_key_entries to_key_entry property codes_beq normalize encrypt_setting_value every
    shift_up
load-normalize_example =
    load-normalize key_platform sent_keys saved_keys saved_text (codes "v2") shift_cipher-IsCipher
      (refl, (refl, tt)) refl refl refl
