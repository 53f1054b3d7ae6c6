-- ===== src/Settings.antt =====
-- apps/api/src/settings/runtime-settings.ts: the settings that may be changed while the gateway
-- runs. `number` stands for `Number(text)` where that is an integer that is not negative.
pub mod CloudKeys
pub mod Loading
pub mod Service
pub mod Update
pub mod Entries
pub mod Fields
pub mod Stored
pub mod SavedKeys
mod Tests
use firecrawl_gateway.Prelude.{
  ℕ, Bool, false, ◌&&◌, ◌||◌, [], ◌∷◌, ◌++◌, Option, none, some, length, leb, ◌===◌, nat_eq,
  if◌then◌else◌,
}
use firecrawl_gateway.Prelude.Text.{Text, codes_eq}
use firecrawl_gateway.Prelude.Chars.{is_digit, is_letter, every, trim}

abbrev pub default_alert_fallback_ratio_percent : ℕ
default_alert_fallback_ratio_percent = 50

abbrev pub max_response_cache_ttl_seconds : ℕ
max_response_cache_ttl_seconds = 86400

abbrev pub max_alert_credits_threshold : ℕ
max_alert_credits_threshold = 1000000000

abbrev token_unit : ℕ → Bool
token_unit c = is_digit c || is_letter c || c === b'_' || c === b'-'

-- `TELEGRAM_BOT_TOKEN_PATTERN` from its colon on, and from its start.
token_secret : Text → Bool
unfolding every
token_secret t = leb 20 (length t) && every token_unit t

token_rest : Text → Bool
unfolding token_secret
token_rest [] = false
token_rest (c ∷ t) = if is_digit c then token_rest t else c === b':' && token_secret t

unfoldable pub is_bot_token : Text → Bool
unfolding token_rest
is_bot_token [] = false
is_bot_token (c ∷ t) = is_digit c && token_rest t

abbrev name_unit : ℕ → Bool
name_unit c = is_digit c || is_letter c || c === b'_'

digits_within : ℕ → Text → Bool
unfolding every
digits_within limit t = leb 1 (length t) && leb (length t) limit && every is_digit t

channel_name : Text → Bool
unfolding every
channel_name [] = false
channel_name (c ∷ t) = is_letter c && leb 4 (length t) && leb (length t) 31 && every name_unit t

-- `TELEGRAM_CHAT_ID_PATTERN`.
unfoldable pub is_chat_id : Text → Bool
unfolding digits_within channel_name
is_chat_id [] = false
is_chat_id (c ∷ t) =
    if c === b'@'
    then channel_name t
    else if c === b'-'
    then digits_within 20 t
    else digits_within 20 (c ∷ t)

unfoldable pub integer_setting : (Text → Option ℕ) → Option Text → ℕ → ℕ
integer_setting number none fallback = fallback
integer_setting number (some value) fallback =
    if trim value === [] then fallback else elim (number value) [ none ↦ fallback | some n ↦ n ]

before_colon : Text → Text
before_colon [] = []
before_colon (c ∷ t) = if c === b':' then [] else c ∷ before_colon t

unfoldable pub mask_bot_token : Text → Text
unfolding before_colon
mask_bot_token token =
    before_colon token ++ b':' ∷ 8226 ∷ 8226 ∷ 8226 ∷ 8226 ∷ 8226 ∷ 8226 ∷ 8226 ∷ 8226 ∷ []
