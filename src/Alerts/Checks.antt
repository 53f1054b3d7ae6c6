-- ===== src/Alerts/Checks.antt =====
-- `loadSettings` and `collectChecks` of alerts/alert.service.ts.
use firecrawl_gateway.Prelude.{
  ℕ, ◌+◌, ◌*◌, ◌/◌, Bool, not, ◌&&◌, ◌||◌, List, [], ◌∷◌, ◌++◌, Option, none, some, ltb, leb, ◌===◌,
  nat_eq, if◌then◌else◌,
}
use firecrawl_gateway.Prelude.Text.{Text, codes, codes_eq}
use firecrawl_gateway.Prelude.Chars.{trim}
use firecrawl_gateway.Breaker.{CircuitState, state_eq}
use firecrawl_gateway.Settings.{
  is_bot_token, is_chat_id, integer_setting, default_alert_fallback_ratio_percent,
}
use firecrawl_gateway.Alerts.State.{
  AlertSettings, Round, RuleCheck, Stored, circuit_open, credits_low, fallback_min_requests,
  fallback_rate,
}

-- `String(n)`, `Number(text)` where it is an integer that is not negative, and
-- `decryptSettingValue` with the gateway's key, which has no value where it throws.
pub record Outside : Type 0 where
  pub show : ℕ → Text
  pub number : Text → Option ℕ
  pub decrypt : Text → Option Text

abbrev pub value_of : Option Text → Text
value_of none = []
value_of (some value) = value

settings_with : Outside → Stored → Text → Text → Option AlertSettings
unfolding integer_setting is_bot_token
settings_with o stored chat_id token =
    if not (is_bot_token token)
    then none
    else some (record {
      bot_token = token;
      chat_id = chat_id;
      credits_threshold = integer_setting o.number stored.alert_credits_low_threshold 0;
      ratio_threshold =
          integer_setting o.number stored.alert_fallback_ratio_percent
            default_alert_fallback_ratio_percent;
    })

unfoldable pub load_settings : Outside → Stored → Option AlertSettings
unfolding settings_with is_chat_id trim
load_settings o stored =
    let chat_id = trim (value_of stored.telegram_chat_id) in
    let encrypted_token = value_of stored.telegram_bot_token in
    if chat_id === [] || encrypted_token === [] || not (is_chat_id chat_id)
    then none
    else elim (o.decrypt encrypted_token) [
      | none ↦ none
      | some token ↦ settings_with o stored chat_id token
    ]

-- `Math.round` of the share in per cent, computed exactly.
abbrev pub percent_of : ℕ → ℕ → ℕ
percent_of fallbacks total = if ltb 0 total then (200 * fallbacks + total) / (2 * total) else 0

state_name : CircuitState → Text
state_name CircuitState.closed = codes "closed"
state_name CircuitState.opened = codes "open"
state_name CircuitState.half_open = codes "half-open"

-- The conditions under which the rules fire.
abbrev pub credits_active : AlertSettings → Round → Bool
credits_active s r = ltb 0 r.keys && ltb r.credits s.credits_threshold

abbrev pub fallback_active : AlertSettings → Round → Bool
fallback_active s r =
    leb fallback_min_requests r.total && leb s.ratio_threshold (percent_of r.fallbacks r.total)

abbrev pub circuit_active : Round → Bool
circuit_active r = not (r.circuit === CircuitState.closed)

unfoldable pub credits_check : Outside → AlertSettings → Round → RuleCheck
credits_check o s r = record {
  rule = credits_low;
  active = credits_active s r;
  firing_text =
      codes "Estimated Firecrawl Cloud credits are low: about "
      ++ o.show r.credits
      ++ codes " left across "
      ++ o.show r.keys
      ++ codes " key(s) (alert threshold "
      ++ o.show s.credits_threshold
      ++ codes ").";
  resolved_text =
      codes "Estimated Firecrawl Cloud credits recovered: about "
      ++ o.show r.credits
      ++ codes " left across "
      ++ o.show r.keys
      ++ codes " key(s).";
}

unfoldable pub fallback_check : Outside → AlertSettings → Round → RuleCheck
fallback_check o s r = record {
  rule = fallback_rate;
  active = fallback_active s r;
  firing_text =
      o.show (percent_of r.fallbacks r.total)
      ++ codes "% of requests used a fallback in the last 10 minutes ("
      ++ o.show r.fallbacks
      ++ codes " of "
      ++ o.show r.total
      ++ codes ", alert threshold "
      ++ o.show s.ratio_threshold
      ++ codes "%).";
  resolved_text =
      codes "The fallback rate is back to "
      ++ o.show (percent_of r.fallbacks r.total)
      ++ codes "% ("
      ++ o.show r.fallbacks
      ++ codes " of "
      ++ o.show r.total
      ++ codes " requests in the last 10 minutes).";
}

unfoldable pub circuit_check : Round → RuleCheck
unfolding state_name
circuit_check r = record {
  rule = circuit_open;
  active = circuit_active r;
  firing_text =
      codes "The self-hosted backend circuit breaker is "
      ++ state_name r.circuit
      ++ codes ": requests fail fast or use a fallback instead of reaching self-hosted.";
  resolved_text = codes "The self-hosted backend circuit breaker is closed again.";
}

unfoldable pub collect_checks : Outside → AlertSettings → Round → List RuleCheck
unfolding credits_check fallback_check circuit_check
collect_checks o s r =
    (if ltb 0 s.credits_threshold then credits_check o s r ∷ [] else [])
    ++ (if ltb 0 s.ratio_threshold then fallback_check o s r ∷ [] else [])
    ++ circuit_check r ∷ []
