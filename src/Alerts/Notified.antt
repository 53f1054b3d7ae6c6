-- ===== src/Alerts/Notified.antt =====
-- A problem that lasts (alerts/alert.service.ts).
use firecrawl_gateway.Prelude.{
  ℕ, Bool, true, false, not, ◌&&◌, ◌||◌, List, [], ◌∷◌, Option, none, some, ltb, ◌===◌, ◌≡◌, subst,
  sym, refl, arith, All, Option-cases, inl, inr,
}
use firecrawl_gateway.Prelude.OrderedMap.{get, get-set}
use firecrawl_gateway.Prelude.Text.{codes_eq}
use firecrawl_gateway.Breaker.{state_eq}
use firecrawl_gateway.Alerts.Apply.{
  is_ok, advance_rule, state_of, apply, apply_all, has_check, keep_checked,
}
use firecrawl_gateway.Alerts.Checks.{
  Outside, load_settings, credits_active, fallback_active, circuit_active, credits_check,
  fallback_check, circuit_check, collect_checks,
}
use firecrawl_gateway.Alerts.Evaluate.{for_destination, check_rules, evaluate, new_service}
use firecrawl_gateway.Alerts.State.{
  RuleName, credits_low, fallback_rate, circuit_open, rule_eq, rule_eq_iff, RuleState,
  AlertSettings, RuleCheck, Round, Entry, States, AlertService, destination_of,
}
use firecrawl_gateway.Alerts.Log.{notified}
use firecrawl_gateway.Alerts.History.{
  IsTracked, keep_checked-get_same, for_destination_lem, run, run-IsTracked, empty-Tracks,
}

abbrev pub is_firing : RuleName → States → Bool
is_firing rule states = (state_of rule states).firing

-- Every check of the rule is active.
only_active : RuleName → List RuleCheck → Bool
only_active rule [] = true
only_active rule (c ∷ cs) = (not (c.rule === rule) || c.active) && only_active rule cs

advance_rule-firing :
    (ok : Bool) (now : ℕ) (state : RuleState)
    → (advance_rule true ok now state).0.firing ≡ (ok || state.firing)
unfolding advance_rule
advance_rule-firing ok now state = ground arith

apply-is_firing :
    (rule : RuleName) (c : RuleCheck) (s : AlertSettings) (r : Round) (states : States)
    (log : List Entry)
    → (not (c.rule === rule) || c.active) ≡ true
    → is_firing rule (apply c s r (states, log)).0
      ≡ (c.rule === rule && is_ok (r.telegram rule) || is_firing rule states)
unfolding apply
apply-is_firing rule c s r states log h = ground (
  arith,
  rule_eq_iff c.rule rule,
  get-set c.rule rule
      (advance_rule c.active (is_ok (r.telegram c.rule)) r.now (state_of c.rule states)).0 states,
  advance_rule-firing (is_ok (r.telegram c.rule)) r.now (state_of c.rule states),
)

apply_all-is_firing :
    (rule : RuleName) (cs : List RuleCheck) (s : AlertSettings) (r : Round) (states : States)
    (log : List Entry)
    → only_active rule cs ≡ true
    → is_firing rule (apply_all cs s r (states, log)).0
      ≡ (has_check rule cs && is_ok (r.telegram rule) || is_firing rule states)
unfolding apply_all only_active has_check
apply_all-is_firing rule [] s r states log h = refl
apply_all-is_firing rule (c ∷ cs) s r states log h = ground (
  arith,
  apply-is_firing rule c s r states log,
  apply_all-is_firing rule cs s r (apply c s r (states, log)).0 (apply c s r (states, log)).1,
)

-- The rule is switched on, and its condition holds.
abbrev pub problem : RuleName → AlertSettings → Round → Bool
problem credits_low s r = ltb 0 s.credits_threshold && credits_active s r
problem fallback_rate s r = ltb 0 s.ratio_threshold && fallback_active s r
problem circuit_open s r = circuit_active r

problem-has_check :
    (o : Outside) (rule : RuleName) (s : AlertSettings) (r : Round)
    → problem rule s r ≡ true
    → (has_check rule (collect_checks o s r) ≡ true)
      × (only_active rule (collect_checks o s r) ≡ true)
unfolding collect_checks has_check only_active credits_check fallback_check circuit_check
problem-has_check o credits_low s r h = ground arith
problem-has_check o fallback_rate s r h = ground arith
problem-has_check o circuit_open s r h = ground arith

-- What is known of a rule under the settings: a change of the destination forgets it.
abbrev known : RuleName → AlertSettings → AlertService → Bool
known rule s a = destination_of s === a.destination && is_firing rule a.states

for_destination-is_firing :
    (rule : RuleName) (s : AlertSettings) (a : AlertService)
    → is_firing rule (for_destination s a).states ≡ known rule s a
unfolding get
for_destination-is_firing rule s a = ground arith

keep_checked-is_firing :
    (cs : List RuleCheck) (states : States) (rule : RuleName)
    → has_check rule cs ≡ true
    → is_firing rule (keep_checked cs states) ≡ is_firing rule states
keep_checked-is_firing cs states rule h = ground (arith, keep_checked-get_same cs states rule h)

check_rules-is_firing :
    (o : Outside) (rule : RuleName) (s : AlertSettings) (r : Round) (a : AlertService)
    (log : List Entry)
    → problem rule s r ≡ true
    → is_firing rule (check_rules o s r a log).0.states
      ≡ (is_ok (r.telegram rule) || known rule s a)
unfolding check_rules
check_rules-is_firing o rule s r a log h =
    let (has, only) = problem-has_check o rule s r h in
    let cs = collect_checks o s r in
    let states = (for_destination s a).states in
    ground (
      arith,
      apply_all-is_firing rule cs s r (keep_checked cs states) log only,
      keep_checked-is_firing cs states rule has,
      for_destination-is_firing rule s a,
    )

abbrev pub loaded : Outside → Round → Option AlertSettings
loaded o r = elim r.stored [ none ↦ none | some stored ↦ load_settings o stored ]

-- In the round the settings are `s`, and the rule's problem is there.
abbrev pub Lasts : Outside → RuleName → AlertSettings → Round → Type 0
Lasts o rule s r = (loaded o r ≡ some s) × (problem rule s r ≡ true)

evaluate-check_rules :
    (o : Outside) (s : AlertSettings) (r : Round) (a : AlertService) (log : List Entry)
    → a.evaluating ≡ false
    → loaded o r ≡ some s
    → evaluate o r a log ≡ check_rules o s r a log
unfolding evaluate
evaluate-check_rules o s r a log free h = ground arith

abbrev pub some_ok : RuleName → List Round → Bool
some_ok rule [] = false
some_ok rule (r ∷ rs) = is_ok (r.telegram rule) || some_ok rule rs

check_rules_rest :
    (o : Outside) (s : AlertSettings) (r : Round) (a : AlertService) (log : List Entry)
    → a.evaluating ≡ false
    → ((check_rules o s r a log).0.evaluating ≡ false)
      × ((check_rules o s r a log).0.destination ≡ destination_of s)
unfolding check_rules
check_rules_rest o s r a log free = ground (arith, for_destination_lem s a)

check_rules-known :
    (o : Outside) (rule : RuleName) (s : AlertSettings) (r : Round) (a : AlertService)
    (log : List Entry)
    → a.evaluating ≡ false
    → problem rule s r ≡ true
    → known rule s (check_rules o s r a log).0 ≡ (is_ok (r.telegram rule) || known rule s a)
check_rules-known o rule s r a log free h = ground (
  arith,
  check_rules_rest o s r a log free,
  codes_eq.equal_iff (destination_of s) (check_rules o s r a log).0.destination,
  check_rules-is_firing o rule s r a log h,
)

run-known :
    (o : Outside) (rule : RuleName) (s : AlertSettings) (rs : List Round) (a : AlertService)
    (log : List Entry)
    → a.evaluating ≡ false
    → All (Lasts o rule s) rs
    → (some_ok rule rs || known rule s a) ≡ true
    → known rule s (run o rs a log).0 ≡ true
unfolding run
run-known o rule s [] a log free l h = h
run-known o rule s (r ∷ rs) a log free l h =
    subst (λ (n : AlertService × List Entry). known rule s (run o rs n.0 n.1).0 ≡ true)
      (sym (evaluate-check_rules o s r a log free l.0.0))
      (run-known o rule s rs (check_rules o s r a log).0 (check_rules o s r a log).1
        (check_rules_rest o s r a log free).0 l.1
        (ground (arith, check_rules-known o rule s r a log free l.0.1)))

evaluate_free :
    (o : Outside) (r : Round) (a : AlertService) (log : List Entry)
    → a.evaluating ≡ false
    → (evaluate o r a log).0.evaluating ≡ false
unfolding evaluate check_rules
evaluate_free o r a log free = ground arith

pub run_free :
    (o : Outside) (rs : List Round) (a : AlertService) (log : List Entry)
    → a.evaluating ≡ false
    → (run o rs a log).0.evaluating ≡ false
unfolding run
run_free o [] a log free = free
run_free o (r ∷ rs) a log free =
    run_free o rs (evaluate o r a log).0 (evaluate o r a log).1 (evaluate_free o r a log free)

told_of_known :
    (rule : RuleName) (s : AlertSettings) (a : AlertService) (log : List Entry)
    → IsTracked (a, log)
    → known rule s a ≡ true
    → (t : ℕ) × (notified rule log ≡ some (destination_of s, t))
told_of_known rule s a log v h = elim (Option-cases (get rule a.states)) [
  | inl e ↦ absurd (ground arith)
  | inr (state, e) ↦ (
    state.last_notified_at,
    ground (arith, codes_eq.equal_iff (destination_of s) a.destination, v.0.told rule state e),
  )
]

-- If the problem of a rule lasts through consecutive checks under the same settings, whatever
-- happened before, and Telegram accepts the rule's message in one of them, then the chat and token
-- of the settings have been told of it, and no recovery has been delivered since: a send that fails
-- is made again.
pub run_told :
    (o : Outside) (rule : RuleName) (s : AlertSettings) (before rs : List Round)
    → All (Lasts o rule s) rs
    → some_ok rule rs ≡ true
    → let start = run o before new_service [] in
      (t : ℕ) × (notified rule (run o rs start.0 start.1).1 ≡ some (destination_of s, t))
run_told o rule s before rs l h =
    let start = run o before new_service [] in
    told_of_known rule s (run o rs start.0 start.1).0 (run o rs start.0 start.1).1
      (run-IsTracked o rs start.0 start.1
        (run-IsTracked o before new_service [] (empty-Tracks [] [], tt)))
      (run-known o rule s rs start.0 start.1 (run_free o before new_service [] refl) l
        (ground arith))
