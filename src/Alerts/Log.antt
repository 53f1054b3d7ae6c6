-- ===== src/Alerts/Log.antt =====
-- What the log of alerts/alert.service.ts says of a rule: its checks, and what its audience knows.
use firecrawl_gateway.Prelude.{
  ℕ, suc, ◌+◌, ◌≤◌, Bool, true, ◌&&◌, List, [], ◌∷◌, Option, none, some, ◌===◌, ◌≡◌, if◌then◌else◌,
}
use firecrawl_gateway.Prelude.Text.{Text}
use firecrawl_gateway.Alerts.State.{
  RuleName, rule_eq, Kind, alert, still_firing, resolved, Sent, Entry, checked, sent, reminder_ms,
  resolve_after_clean_checks,
}

-- How many checks of the rule were clean since the last one that was not.
unfoldable pub clean_run : RuleName → List Entry → ℕ
clean_run rule [] = 0
clean_run rule (checked r active ∷ log) =
    if r === rule then (if active then 0 else suc (clean_run rule log)) else clean_run rule log
clean_run rule (sent m ∷ log) = clean_run rule log

unfoldable pub last_check : RuleName → List Entry → Option Bool
last_check rule [] = none
last_check rule (checked r active ∷ log) = if r === rule then some active else last_check rule log
last_check rule (sent m ∷ log) = last_check rule log

abbrev after_message : Sent → Option (Text × ℕ)
after_message m = elim m.kind [
  | alert ↦ some (m.destination, m.at)
  | still_firing ↦ some (m.destination, m.at)
  | resolved ↦ none
]

-- The open incident: who was told last, and when, unless the last that arrived was a recovery.
unfoldable pub notified : RuleName → List Entry → Option (Text × ℕ)
notified rule [] = none
notified rule (checked r active ∷ log) = notified rule log
notified rule (sent m ∷ log) =
    if m.rule === rule && m.delivered then after_message m else notified rule log

abbrev pub IsTold : Option (Text × ℕ) → Sent → Type 0
IsTold none m = ⊥
IsTold (some (destination, at)) m = destination ≡ m.destination

abbrev pub IsDue : Option (Text × ℕ) → Sent → Type 0
IsDue none m = ⊥
IsDue (some (destination, at)) m = (destination ≡ m.destination) × (at + reminder_ms ≤ m.at)

abbrev pub IsJustifiedAs : Kind → Sent → List Entry → Type 0
IsJustifiedAs alert m log = last_check m.rule log ≡ some true
IsJustifiedAs still_firing m log =
    (last_check m.rule log ≡ some true) × IsDue (notified m.rule log) m
IsJustifiedAs resolved m log =
    (resolve_after_clean_checks ≤ clean_run m.rule log) × IsTold (notified m.rule log) m

-- Every message of the log is justified by what stands before it.
abbrev pub IsSound : List Entry → Type 0
IsSound [] = Unit {0}
IsSound (checked r active ∷ log) = IsSound log
IsSound (sent m ∷ log) = IsJustifiedAs m.kind m log × IsSound log
