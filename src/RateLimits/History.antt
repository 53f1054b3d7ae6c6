-- ===== src/RateLimits/History.antt =====
-- Requests, flushes and timers in any order (common/rate-limit-counter.ts).
use firecrawl_gateway.Prelude.{
  ℕ, Bool, true, false, ◌&&◌, ltb, if◌then◌else◌, List, [], ◌∷◌, Option, arith,
}
use firecrawl_gateway.Prelude.Text.{Text}
use firecrawl_gateway.RateLimits.{
  Row, RateLimitCounter, new_counter, start_hit, finish_hit, settle_flush, run_timer, after_timer,
  schedule, is_current,
}
use firecrawl_gateway.RateLimits.Tally.{counted_in, stored_in, dropped_in, flying, IsAccounted}
use firecrawl_gateway.RateLimits.Accounting.{
  Accounts, start_hit-Accounts, settle_flush-Accounts, run_timer-Accounts,
}

-- The steps between which the event loop may run others. The keys, times, outcomes and the order
-- are arbitrary.
pub data Op : Type 0 where
  hit_starts : Text → Option ℕ → ℕ → Op
  hit_ends : Text → ℕ → ℕ → Op
  flush_ends : Text → Option (Option Row) → Op
  timer_fires : Text → ℕ → Op
  timer_ends : Text → ℕ → ℕ → Op

unfoldable pub step : RateLimitCounter → Op → RateLimitCounter
step s (hit_starts key fixed now) = (start_hit key fixed now s).0
step s (hit_ends key b now) = (finish_hit key b now s).0
step s (flush_ends key outcome) = settle_flush key outcome s
step s (timer_fires key now) = run_timer key now s
step s (timer_ends key b now) = after_timer key b now s

unfoldable pub run : RateLimitCounter → List Op → RateLimitCounter
unfolding step
run s [] = s
run s (op ∷ ops) = run (step s op) ops

schedule-Accounts :
    (key : Text) (b now : ℕ) (s : RateLimitCounter) → Accounts s → Accounts (schedule key b now s)
unfolding schedule
schedule-Accounts key b now s v = record {
  accounted = λ i. ground (arith, v.accounted i);
  unused = λ i h. ground (arith, v.unused i);
  allocated = ground (arith, v.allocated);
}

schedule_if-Accounts :
    (t : Bool) (key : Text) (b now : ℕ) (s : RateLimitCounter)
    → Accounts s
    → Accounts (if t then schedule key b now s else s)
schedule_if-Accounts true key b now s v = schedule-Accounts key b now s v
schedule_if-Accounts false key b now s v = v

step-Accounts : (s : RateLimitCounter) (op : Op) → Accounts s → Accounts (step s op)
unfolding step finish_hit after_timer
step-Accounts s (hit_starts key fixed now) v = start_hit-Accounts key fixed now s v
step-Accounts s (hit_ends key b now) v =
    schedule_if-Accounts (s.schedule_flush && ltb 0 (s.heap b).pending_delta) key b now s v
step-Accounts s (flush_ends key outcome) v = settle_flush-Accounts key outcome s v
step-Accounts s (timer_fires key now) v = run_timer-Accounts key now s v
step-Accounts s (timer_ends key b now) v =
    schedule_if-Accounts
      (ltb 0 (s.heap b).pending_delta && ltb now (s.heap b).reset_at && is_current key b s) key b
      now s v

pub run-Accounts : (s : RateLimitCounter) (ops : List Op) → Accounts s → Accounts (run s ops)
unfolding run
run-Accounts s [] v = v
run-Accounts s (op ∷ ops) v = run-Accounts (step s op) ops (step-Accounts s op v)

pub new_counter-Accounts : (schedules : Bool) → Accounts (new_counter schedules)
unfolding counted_in stored_in dropped_in flying
new_counter-Accounts schedules = record {
  accounted = λ b. omega arith;
  unused = λ b h. omega arith;
  allocated = tt;
}

-- Every request that a bucket, in use or not, counted is in exactly one place: pending in the bucket,
-- on its way to PostgreSQL, reported as stored by a flush, or dropped by a flush of a window that has
-- ended.
pub run-IsAccounted :
    (schedules : Bool) (ops : List Op) (b : ℕ) → IsAccounted b (run (new_counter schedules) ops)
run-IsAccounted schedules ops b =
    (run-Accounts (new_counter schedules) ops (new_counter-Accounts schedules)).accounted b
