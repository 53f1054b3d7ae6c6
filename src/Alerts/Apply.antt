-- ===== src/Alerts/Apply.antt =====
-- `apply` and `send` of alerts/alert.service.ts.
use firecrawl_gateway.Prelude.{
  ℕ, ◌+◌, ◌-◌, Bool, true, false, not, ◌&&◌, ◌||◌, List, [], ◌∷◌, ◌++◌, Option, none, some, ltb,
  leb, ◌===◌, nat_eq, if◌then◌else◌,
}
use firecrawl_gateway.Prelude.OrderedMap.{get, set}
use firecrawl_gateway.Prelude.Text.{Text, codes, codes_eq}
use firecrawl_gateway.Breaker.{state_eq}
use firecrawl_gateway.Alerts.State.{
  rule_eq, AlertSettings, Answer, Entry, Kind, Round, RuleCheck, RuleName, RuleState, States, alert,
  answered, checked, destination_of, fresh_state, no_answer, reminder_ms,
  resolve_after_clean_checks, resolved, sent, still_firing,
}

-- `send`: whether the message was delivered.
abbrev pub is_ok : Answer → Bool
is_ok (answered status) = leb 200 status && leb status 299
is_ok no_answer = false

kind_mark : Kind → Text
kind_mark alert = codes " ALERT: "
kind_mark still_firing = codes " STILL FIRING: "
kind_mark resolved = codes " RESOLVED: "

kind_text : Kind → RuleCheck → Text
kind_text resolved c = c.resolved_text
kind_text _ c = c.firing_text

message : Kind → RuleCheck → Text
unfolding kind_mark kind_text
message k c = codes "[firecrawl-gateway]" ++ kind_mark k ++ kind_text k c

-- `apply` on the state of its rule, and the kind of the message that it sends, if any.
unfoldable pub advance_rule : Bool → Bool → ℕ → RuleState → RuleState × Option Kind
advance_rule active ok now state =
    let cleared : RuleState = record state { clean_checks = 0 } in
    let counted : RuleState = record state { clean_checks = state.clean_checks + 1 } in
    if active
    then (if not state.firing
        then (
          if ok then record cleared { firing = true; last_notified_at = now } else cleared,
          some alert,
        )
        else if leb reminder_ms (now - state.last_notified_at)
        then (if ok then record cleared { last_notified_at = now } else cleared, some still_firing)
        else (cleared, none))
    else if not state.firing
    then (state, none)
    else if ltb counted.clean_checks resolve_after_clean_checks
    then (counted, none)
    else (
      if ok then record counted { firing = false; clean_checks = 0 } else counted,
      some resolved,
    )

abbrev pub state_of : RuleName → States → RuleState
state_of rule states = elim (get rule states) [ none ↦ fresh_state | some state ↦ state ]

unfoldable pub log_sent :
    RuleCheck → AlertSettings → ℕ → Bool → Option Kind → List Entry → List Entry
unfolding message
log_sent check settings now ok none log = log
log_sent check settings now ok (some kind) log =
    sent (record {
      rule = check.rule;
      kind = kind;
      at = now;
      destination = destination_of settings;
      text = message kind check;
      delivered = ok;
    })
    ∷ log

unfoldable pub apply : RuleCheck → AlertSettings → Round → States × List Entry → States × List Entry
unfolding advance_rule log_sent
apply check settings r (states, log) =
    let ok = is_ok (r.telegram check.rule) in
    let next = advance_rule check.active ok r.now (state_of check.rule states) in
    (
      set check.rule next.0 states,
      log_sent check settings r.now ok next.1 (checked check.rule check.active ∷ log),
    )

unfoldable pub apply_all :
    List RuleCheck → AlertSettings → Round → States × List Entry → States × List Entry
unfolding apply
apply_all [] settings r s = s
apply_all (check ∷ checks) settings r s = apply_all checks settings r (apply check settings r s)

unfoldable pub has_check : RuleName → List RuleCheck → Bool
has_check rule [] = false
has_check rule (check ∷ checks) = check.rule === rule || has_check rule checks

-- Rules that are switched off forget their states.
unfoldable pub keep_checked : List RuleCheck → States → States
unfolding has_check
keep_checked checks [] = []
keep_checked checks ((rule, state) ∷ states) =
    let rest = keep_checked checks states in
    if has_check rule checks then (rule, state) ∷ rest else rest
