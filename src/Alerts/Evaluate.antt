-- ===== src/Alerts/Evaluate.antt =====
-- `evaluate` of alerts/alert.service.ts. It is one step, since overlapping runs are skipped.
use firecrawl_gateway.Prelude.{false, not, List, [], none, some, ◌===◌, nat_eq, if◌then◌else◌}
use firecrawl_gateway.Prelude.Text.{codes_eq}
use firecrawl_gateway.Breaker.{state_eq}
use firecrawl_gateway.Alerts.State.{
  rule_eq, AlertService, AlertSettings, Entry, Round, destination_of,
}
use firecrawl_gateway.Alerts.Apply.{apply_all, keep_checked}
use firecrawl_gateway.Alerts.Checks.{Outside, collect_checks, load_settings}

-- Not configured: the incidents are forgotten.
abbrev pub forget : AlertService → AlertService
forget a = record a { states = []; destination = [] }

-- Another bot or chat gets its own alerts.
abbrev pub for_destination : AlertSettings → AlertService → AlertService
for_destination s a =
    if not (destination_of s === a.destination)
    then record a { states = []; destination = destination_of s }
    else a

unfoldable pub check_rules :
    Outside → AlertSettings → Round → AlertService → List Entry → AlertService × List Entry
unfolding collect_checks keep_checked apply_all
check_rules o s r a log =
    let a' = for_destination s a in
    let checks = collect_checks o s r in
    let end = apply_all checks s r (keep_checked checks a'.states, log) in
    (record a' { states = end.0 }, end.1)

unfoldable pub evaluate : Outside → Round → AlertService → List Entry → AlertService × List Entry
unfolding load_settings check_rules
evaluate o r a log = if a.evaluating then (a, log) else elim r.stored [
  | none ↦ (a, log)
  | some stored ↦ elim (load_settings o stored) [
    | none ↦ (forget a, log)
    | some s ↦ check_rules o s r a log
  ]
]

abbrev pub new_service : AlertService
new_service = record { states = []; destination = []; evaluating = false }
