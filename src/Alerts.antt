-- ===== src/Alerts.antt =====
-- apps/api/src/alerts/alert.service.ts: the alerts that the gateway sends to Telegram.
-- What a run reads and what Telegram answers are the fields of a `Round`; a rule sends at most one
-- message in a round.
pub mod State
pub mod Apply
pub mod Checks
pub mod Evaluate
pub mod Log
pub mod Steps
pub mod History
pub mod Notified
mod Tests
