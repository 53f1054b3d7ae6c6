-- ===== src/Alerts/Tests.antt =====
-- Tests of the alerts (alerts/alert.service.ts), and the theorems at concrete inputs.
use firecrawl_gateway.Prelude.{ℕ, ◌≡◌, refl, Bool, true, false, List, [], ◌∷◌, none, some}
use firecrawl_gateway.Prelude.OrderedMap.{get, set}
use firecrawl_gateway.Prelude.Text.{codes, codes_beq}
use firecrawl_gateway.Prelude.Chars.{every, trim}
use firecrawl_gateway.Breaker.{CircuitState}
use firecrawl_gateway.Settings.{is_bot_token, is_chat_id, integer_setting}
use firecrawl_gateway.Alerts.Apply.{keep_checked, has_check, apply_all, apply, advance_rule}
use firecrawl_gateway.Alerts.Checks.{Outside, load_settings, collect_checks}
use firecrawl_gateway.Alerts.Evaluate.{new_service, evaluate, check_rules}
use firecrawl_gateway.Alerts.State.{
  circuit_open, AlertSettings, Stored, Answer, answered, no_answer, Round, Kind, Entry, checked,
  sent, destination_of,
}
use firecrawl_gateway.Alerts.Log.{IsSound, notified}
use firecrawl_gateway.Alerts.History.{run, run-IsSound}
use firecrawl_gateway.Alerts.Notified.{run_told}

-- Tokens are stored as they are; the thresholds are not stored.
abbrev plain : Outside
plain = record { show = λ n. n ∷ []; number = λ t. some 0; decrypt = λ t. some t }

abbrev saved : Stored
saved = record {
  alert_credits_low_threshold = none;
  alert_fallback_ratio_percent = none;
  telegram_chat_id = some (codes " -100 ");
  telegram_bot_token = some (codes "7:abcdefghijklmnopqrst");
}

abbrev round_at : ℕ → CircuitState → Answer → Round
round_at now circuit answer = record {
  now = now;
  stored = some saved;
  keys = 1;
  credits = 0;
  total = 0;
  fallbacks = 0;
  circuit = circuit;
  telegram = λ rule. answer;
}

abbrev saved_settings : AlertSettings
saved_settings = record {
  bot_token = codes "7:abcdefghijklmnopqrst";
  chat_id = codes "-100";
  credits_threshold = 0;
  ratio_threshold = 50;
}

saved_loads : load_settings plain saved ≡ some saved_settings
unfolding load_settings is_chat_id is_bot_token integer_setting trim every codes_beq
saved_loads = refl

-- The first message fails, the second is delivered; the recovery follows three clean checks.
abbrev incident : List Round
incident =
    round_at 0 CircuitState.opened no_answer
    ∷ round_at 60000 CircuitState.opened (answered 200)
    ∷ round_at 120000 CircuitState.closed (answered 200)
    ∷ round_at 180000 CircuitState.closed (answered 200)
    ∷ round_at 240000 CircuitState.closed (answered 200)
    ∷ []

abbrev kinds_of : List Entry → List (Kind × Bool)
kinds_of [] = []
kinds_of (checked rule active ∷ log) = kinds_of log
kinds_of (sent m ∷ log) = (m.kind, m.delivered) ∷ kinds_of log

incident_messages :
    kinds_of (run plain incident new_service []).1
    ≡ (Kind.resolved, true) ∷ (Kind.alert, true) ∷ (Kind.alert, false) ∷ []
unfolding run evaluate check_rules collect_checks keep_checked has_check apply_all apply
    advance_rule load_settings is_chat_id is_bot_token integer_setting trim every codes_beq get set
incident_messages = refl

run-IsSound_example : IsSound (run plain incident new_service []).1
run-IsSound_example = run-IsSound plain incident

run_told_example :
    let start = run plain incident new_service [] in
    (t : ℕ) × (notified circuit_open
        (run plain
          (round_at 300000 CircuitState.half_open no_answer
            ∷ round_at 360000 CircuitState.opened (answered 200)
            ∷ [])
          start.0
          start.1).1
      ≡ some (destination_of saved_settings, t))
run_told_example =
    run_told plain circuit_open saved_settings incident
      (round_at 300000 CircuitState.half_open no_answer
        ∷ round_at 360000 CircuitState.opened (answered 200)
        ∷ [])
      ((saved_loads, refl), ((saved_loads, refl), tt)) refl
