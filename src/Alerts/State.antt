-- ===== src/Alerts/State.antt =====
-- The types of alerts/alert.service.ts: rules, their states, messages, and what a round reads.
use firecrawl_gateway.Prelude.{
  ℕ, Bool, true, false, List, ◌∷◌, ◌++◌, Option, HasEq, nat_eq, nat_beq, ◌≡◌, ◌↔◌, arith,
}
use firecrawl_gateway.Prelude.Text.{Text, codes_eq}
use firecrawl_gateway.Breaker.{CircuitState, state_eq}

pub data RuleName : Type 0 where
  credits_low fallback_rate circuit_open : RuleName

abbrev rule_rank : RuleName → ℕ
rule_rank credits_low = 0
rule_rank fallback_rate = 1
rule_rank circuit_open = 2

pub rule_eq_iff : (a b : RuleName) → (nat_beq (rule_rank a) (rule_rank b) ≡ true) ↔ (a ≡ b)
rule_eq_iff a b = ground arith

instance abbrev pub rule_eq : HasEq RuleName
rule_eq = record { equal = λ a b. nat_beq (rule_rank a) (rule_rank b); equal_iff = rule_eq_iff }

abbrev pub fallback_min_requests : ℕ
fallback_min_requests = 20

abbrev pub reminder_ms : ℕ
reminder_ms = 3600000

abbrev pub resolve_after_clean_checks : ℕ
resolve_after_clean_checks = 3

pub record RuleState : Type 0 where
  pub firing : Bool
  pub last_notified_at : ℕ
  pub clean_checks : ℕ

abbrev pub fresh_state : RuleState
fresh_state = record { firing = false; last_notified_at = 0; clean_checks = 0 }

pub record AlertSettings : Type 0 where
  pub bot_token : Text
  pub chat_id : Text
  pub credits_threshold : ℕ
  pub ratio_threshold : ℕ

pub record RuleCheck : Type 0 where
  pub rule : RuleName
  pub active : Bool
  pub firing_text : Text
  pub resolved_text : Text

-- The values stored under `ALERT_SETTING_KEYS`.
pub record Stored : Type 0 where
  pub alert_credits_low_threshold : Option Text
  pub alert_fallback_ratio_percent : Option Text
  pub telegram_chat_id : Option Text
  pub telegram_bot_token : Option Text

-- What the promise of `fetch` comes to.
pub data Answer : Type 0 where
  answered : ℕ → Answer
  no_answer : Answer

-- What one evaluation reads. `stored` is `none` where the database fails.
pub record Round : Type 0 where
  pub now : ℕ
  pub stored : Option Stored
  pub keys : ℕ
  pub credits : ℕ
  pub total : ℕ
  pub fallbacks : ℕ
  pub circuit : CircuitState
  pub telegram : RuleName → Answer

pub data Kind : Type 0 where
  alert still_firing resolved : Kind

-- A request to Telegram: `destination` is the chat and the token, `delivered` what `send` returned.
pub record Sent : Type 0 where
  pub rule : RuleName
  pub kind : Kind
  pub at : ℕ
  pub destination : Text
  pub text : Text
  pub delivered : Bool

-- The calls of `apply` with what they checked, and the requests; the latest first.
pub data Entry : Type 0 where
  checked : RuleName → Bool → Entry
  sent : Sent → Entry

abbrev pub States : Type 0
States = List (RuleName × RuleState)

pub record AlertService : Type 0 where
  pub states : States
  pub destination : Text
  pub evaluating : Bool

abbrev pub destination_of : AlertSettings → Text
destination_of s = s.chat_id ++ 10 ∷ s.bot_token
