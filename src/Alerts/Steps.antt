-- ===== src/Alerts/Steps.antt =====
-- `apply` of alerts/alert.service.ts: what the states of the rules know of the log.
use firecrawl_gateway.Prelude.{
  ◌≤◌, true, false, List, ◌∷◌, some, ◌===◌, ◌≡◌, arith, Option-cases, inl, inr,
}
use firecrawl_gateway.Prelude.OrderedMap.{get, get-set}
use firecrawl_gateway.Prelude.Text.{Text}
use firecrawl_gateway.Alerts.Apply.{is_ok, advance_rule, state_of, log_sent, apply}
use firecrawl_gateway.Alerts.State.{
  RuleName, rule_eq, rule_eq_iff, RuleState, AlertSettings, RuleCheck, Round, Entry, checked,
  States, destination_of,
}
use firecrawl_gateway.Alerts.Log.{clean_run, last_check, notified, IsSound}

pub record Tracks (destination : Text) (states : States) (log : List Entry) : Type 0 where
  pub counted :
      (rule : RuleName) (state : RuleState)
      → get rule states ≡ some state
      → state.clean_checks ≤ clean_run rule log
  pub told :
      (rule : RuleName) (state : RuleState)
      → get rule states ≡ some state
      → state.firing ≡ true
      → notified rule log ≡ some (destination, state.last_notified_at)

-- The log after `advance_rule`, for a rule whose state is `state`.
abbrev log_after : RuleCheck → AlertSettings → Round → RuleState → List Entry → List Entry
log_after c s r state log =
    log_sent c s r.now (is_ok (r.telegram c.rule))
      (advance_rule c.active (is_ok (r.telegram c.rule)) r.now state).1
      (checked c.rule c.active ∷ log)

abbrev state_after : RuleCheck → Round → RuleState → RuleState
state_after c r state = (advance_rule c.active (is_ok (r.telegram c.rule)) r.now state).0

module _ (c : RuleCheck) (s : AlertSettings) (r : Round) (state : RuleState)
    (log : List Entry) where
  advance_counted :
      state.clean_checks ≤ clean_run c.rule log
      → (state_after c r state).clean_checks ≤ clean_run c.rule (log_after c s r state log)
  unfolding advance_rule log_sent clean_run
  advance_counted h = ground (arith, rule_eq_iff c.rule c.rule)

  advance_told :
      (state.firing ≡ true → notified c.rule log ≡ some (destination_of s, state.last_notified_at))
      → (state_after c r state).firing ≡ true
      → notified c.rule (log_after c s r state log)
        ≡ some (destination_of s, (state_after c r state).last_notified_at)
  unfolding advance_rule log_sent notified
  advance_told h f = ground (arith, rule_eq_iff c.rule c.rule)

  advance_rule-IsSound :
      state.clean_checks ≤ clean_run c.rule log
      → (state.firing ≡ true
          → notified c.rule log ≡ some (destination_of s, state.last_notified_at))
      → IsSound log
      → IsSound (log_after c s r state log)
  unfolding advance_rule log_sent notified clean_run last_check
  advance_rule-IsSound h k v = ground (arith, rule_eq_iff c.rule c.rule)

  log_after-clean_run :
      (rule : RuleName)
      → (c.rule === rule) ≡ false
      → clean_run rule (log_after c s r state log) ≡ clean_run rule log
  unfolding advance_rule log_sent clean_run
  log_after-clean_run rule h = ground arith

  log_after-notified :
      (rule : RuleName)
      → (c.rule === rule) ≡ false
      → notified rule (log_after c s r state log) ≡ notified rule log
  unfolding advance_rule log_sent notified
  log_after-notified rule h = ground arith

-- A rule without a state starts as one that is not firing.
state_of-counted :
    (rule : RuleName) (d : Text) (states : States) (log : List Entry)
    → Tracks d states log
    → (state_of rule states).clean_checks ≤ clean_run rule log
state_of-counted rule d states log v = elim (Option-cases (get rule states)) [
  | inl e ↦ rw (e, state_of) (omega arith)
  | inr (state, e) ↦ rw (e, state_of) (v.counted rule state e)
]

state_of-told :
    (rule : RuleName) (d : Text) (states : States) (log : List Entry)
    → Tracks d states log
    → (state_of rule states).firing ≡ true
    → notified rule log ≡ some (d, (state_of rule states).last_notified_at)
state_of-told rule d states log v = elim (Option-cases (get rule states)) [
  | inl e ↦ rw (e, state_of) (λ h. cc)
  | inr (state, e) ↦ rw (e, state_of) (v.told rule state e)
]

module _ (c : RuleCheck) (s : AlertSettings) (r : Round) (states : States) (log : List Entry) where
  pub apply-Tracks :
      Tracks (destination_of s) states log
      → Tracks (destination_of s) (apply c s r (states, log)).0 (apply c s r (states, log)).1
  unfolding apply
  apply-Tracks v = record {
    counted = λ rule state h. ground (
      arith,
      rule_eq_iff c.rule rule,
      get-set c.rule rule (state_after c r (state_of c.rule states)) states,
      v.counted rule state,
      log_after-clean_run c s r (state_of c.rule states) log rule,
      advance_counted c s r (state_of c.rule states) log
          (state_of-counted c.rule (destination_of s) states log v),
    );
    told = λ rule state h f. ground (
      arith,
      rule_eq_iff c.rule rule,
      get-set c.rule rule (state_after c r (state_of c.rule states)) states,
      v.told rule state,
      log_after-notified c s r (state_of c.rule states) log rule,
      advance_told c s r (state_of c.rule states) log
          (state_of-told c.rule (destination_of s) states log v),
    );
  }

  pub apply-IsSound :
      Tracks (destination_of s) states log → IsSound log → IsSound (apply c s r (states, log)).1
  unfolding apply
  apply-IsSound v =
      advance_rule-IsSound c s r (state_of c.rule states) log
        (state_of-counted c.rule (destination_of s) states log v)
        (state_of-told c.rule (destination_of s) states log v)
