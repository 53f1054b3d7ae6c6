-- ===== src/Alerts/History.antt =====
-- Any sequence of evaluations (alerts/alert.service.ts).
use firecrawl_gateway.Prelude.{
  true, List, [], ◌∷◌, some, ◌===◌, ◌≡◌, refl, arith, Bool-cases, Option-cases, inl, inr,
}
use firecrawl_gateway.Prelude.OrderedMap.{get}
use firecrawl_gateway.Prelude.Text.{Text, codes_eq}
use firecrawl_gateway.Alerts.Apply.{apply, apply_all, has_check, keep_checked}
use firecrawl_gateway.Alerts.Checks.{Outside, load_settings, collect_checks}
use firecrawl_gateway.Alerts.Evaluate.{for_destination, check_rules, evaluate, new_service}
use firecrawl_gateway.Alerts.State.{
  RuleName, rule_eq, rule_eq_iff, RuleState, AlertSettings, RuleCheck, Round, Entry, States,
  AlertService, destination_of,
}
use firecrawl_gateway.Alerts.Log.{IsSound}
use firecrawl_gateway.Alerts.Steps.{Tracks, apply-Tracks, apply-IsSound}

-- A service with the log of what it did.
abbrev pub IsTracked : AlertService × List Entry → Type 0
IsTracked (a, log) = Tracks a.destination a.states log × IsSound log

apply_all-IsTracked :
    (cs : List RuleCheck) (s : AlertSettings) (r : Round) (states : States) (log : List Entry)
    → Tracks (destination_of s) states log
    → IsSound log
    → Tracks
        (destination_of s)
        (apply_all cs s r (states, log)).0
        (apply_all cs s r (states, log)).1
      × IsSound (apply_all cs s r (states, log)).1
unfolding apply_all
apply_all-IsTracked [] s r states log v w = (v, w)
apply_all-IsTracked (c ∷ cs) s r states log v w =
    apply_all-IsTracked cs s r (apply c s r (states, log)).0 (apply c s r (states, log)).1
      (apply-Tracks c s r states log v) (apply-IsSound c s r states log v w)

keep_checked-get :
    (cs : List RuleCheck) (states : States) (rule : RuleName) (state : RuleState)
    → get rule (keep_checked cs states) ≡ some state
    → has_check rule cs ≡ true
unfolding keep_checked get
keep_checked-get cs [] rule state h = cc
keep_checked-get cs ((j, w) ∷ states) rule state h =
    ground (arith, rule_eq_iff j rule, keep_checked-get cs states rule state)

pub keep_checked-get_same :
    (cs : List RuleCheck) (states : States) (rule : RuleName)
    → has_check rule cs ≡ true
    → get rule (keep_checked cs states) ≡ get rule states
unfolding keep_checked get
keep_checked-get_same cs [] rule h = refl
keep_checked-get_same cs ((j, w) ∷ states) rule h =
    ground (arith, rule_eq_iff j rule, keep_checked-get_same cs states rule)

keep_checked-Tracks :
    (cs : List RuleCheck) (d : Text) (states : States) (log : List Entry)
    → Tracks d states log
    → Tracks d (keep_checked cs states) log
keep_checked-Tracks cs d states log v = record {
  counted = λ rule state h.
      v.counted rule state
        (cc (keep_checked-get_same cs states rule (keep_checked-get cs states rule state h)));
  told = λ rule state h.
      v.told rule state
        (cc (keep_checked-get_same cs states rule (keep_checked-get cs states rule state h)));
}

pub empty-Tracks : (d : Text) (log : List Entry) → Tracks d [] log
unfolding get
empty-Tracks d log = record { counted = λ rule state h. cc; told = λ rule state h. cc }

for_destination-Tracks :
    (s : AlertSettings) (a : AlertService) (log : List Entry)
    → Tracks a.destination a.states log
    → Tracks (destination_of s) (for_destination s a).states log
for_destination-Tracks s a log v = elim (Bool-cases (destination_of s === a.destination)) [
  | inl e ↦ rw e (rw ((codes_eq.equal_iff _ _).0 e) v)
  | inr e ↦ rw e (empty-Tracks _ log)
]

pub for_destination_lem :
    (s : AlertSettings) (a : AlertService) → (for_destination s a).destination ≡ destination_of s
for_destination_lem s a = ground (arith, codes_eq.equal_iff (destination_of s) a.destination)

check_rules-IsTracked :
    (o : Outside) (s : AlertSettings) (r : Round) (a : AlertService) (log : List Entry)
    → IsTracked (a, log)
    → IsTracked (check_rules o s r a log)
unfolding check_rules
check_rules-IsTracked o s r a log v =
    let cs = collect_checks o s r in
    let t = keep_checked-Tracks cs _ _ log (for_destination-Tracks s a log v.0) in
    rw (for_destination_lem s a) (apply_all-IsTracked cs s r _ log t v.1)

pub evaluate-IsTracked :
    (o : Outside) (r : Round) (a : AlertService) (log : List Entry)
    → IsTracked (a, log)
    → IsTracked (evaluate o r a log)
unfolding evaluate
evaluate-IsTracked o r a log v = elim (Bool-cases a.evaluating) [
  | inl busy ↦ rw busy v
  | inr free ↦ rw free (elim (Option-cases r.stored) [
    | inl e ↦ rw e v
    | inr (stored, e) ↦ rw e (elim (Option-cases (load_settings o stored)) [
      | inl n ↦ rw n (empty-Tracks [] log, v.1)
      | inr (s, l) ↦ rw l (check_rules-IsTracked o s r a log v)
    ])
  ])
]

unfoldable pub run : Outside → List Round → AlertService → List Entry → AlertService × List Entry
run o [] a log = (a, log)
run o (r ∷ rs) a log = let next = evaluate o r a log in run o rs next.0 next.1

pub run-IsTracked :
    (o : Outside) (rs : List Round) (a : AlertService) (log : List Entry)
    → IsTracked (a, log)
    → IsTracked (run o rs a log)
unfolding run
run-IsTracked o [] a log v = v
run-IsTracked o (r ∷ rs) a log v =
    run-IsTracked o rs (evaluate o r a log).0 (evaluate o r a log).1
      (evaluate-IsTracked o r a log v)

-- In every history of evaluations, whatever Telegram answers: an alert or a reminder is sent only
-- for a rule whose check just before it was active; a reminder only to the chat and token that were
-- told of the incident last, and at least an hour after that; and a recovery only to the chat and
-- token that were told last, after at least three clean checks in a row.
pub run-IsSound : (o : Outside) (rs : List Round) → IsSound (run o rs new_service []).1
run-IsSound o rs = (run-IsTracked o rs new_service [] (empty-Tracks [] [], tt)).1
