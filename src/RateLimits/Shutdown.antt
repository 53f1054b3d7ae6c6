-- ===== src/RateLimits/Shutdown.antt =====
-- `drain` after any history (common/rate-limit-counter.ts).
use firecrawl_gateway.Prelude.{
  ℕ, zero, suc, ◌+◌, Bool, true, List, [], ◌∷◌, Option, some, leb, length, ◌≡◌, arith, Bool-cases,
  Option-cases, inl, inr,
}
use firecrawl_gateway.Prelude.OrderedMap.{get, delete, has, Distinct, delete-Distinct, set-Distinct}
use firecrawl_gateway.Prelude.Text.{Text, codes_eq}
use firecrawl_gateway.RateLimits.{
  Flush, Row, RateLimitBucket, RateLimitCounter, new_counter, max_buckets, drop_oldest,
  record_bucket, create_bucket, find_bucket, start_flush, finish_hit, settle_flush, run_timer,
  after_timer, schedule, flush_if_current,
}
use firecrawl_gateway.RateLimits.Tally.{counted_in, stored_in, dropped_in, flying}
use firecrawl_gateway.RateLimits.Accounting.{
  Accounts, settle_flush-Accounts, flush_if_current-Accounts,
}
use firecrawl_gateway.RateLimits.History.{
  Op, hit_starts, hit_ends, flush_ends, timer_fires, timer_ends, step, run, run-Accounts,
  new_counter-Accounts,
}
use firecrawl_gateway.RateLimits.Bound.{start_hit-buckets}
use firecrawl_gateway.RateLimits.Draining.{
  Outcomes, settle_all, pending_of, flush_all, continue, drain_loop, drain, AllClear,
}
use firecrawl_gateway.RateLimits.Drained.{IsDrained, drain_loop-IsDrained}

drop_oldest-Distinct : (m : List (Text × ℕ)) → Distinct m → Distinct (drop_oldest m)
unfolding drop_oldest
drop_oldest-Distinct [] d = tt
drop_oldest-Distinct ((j, b) ∷ m) d = ground arith

record_bucket-Distinct :
    (key : Text) (b : ℕ) (m : List (Text × ℕ)) → Distinct m → Distinct (record_bucket key b m)
unfolding record_bucket
record_bucket-Distinct key b m d = elim (Bool-cases (has key m)) [
  | inl e ↦ rw e (set-Distinct key b (delete key m) (delete-Distinct key m d))
  | inr e ↦ rw e (elim (Bool-cases (leb max_buckets (length m))) [
    | inl l ↦ rw l (set-Distinct key b (drop_oldest m) (drop_oldest-Distinct m d))
    | inr l ↦ rw l (set-Distinct key b m d)
  ])
]

find_bucket-Distinct :
    (key : Text) (fixed : Option ℕ) (now : ℕ) (s : RateLimitCounter)
    → Distinct s.buckets
    → Distinct (find_bucket key fixed now s).0.buckets
unfolding find_bucket create_bucket
find_bucket-Distinct key fixed now s d = elim (Option-cases (get key s.buckets)) [
  | inl e ↦ rw (e, find_bucket) (record_bucket-Distinct key s.next s.buckets d)
  | inr (b, e) ↦
      rw (e, find_bucket)
        (elim (Bool-cases (leb (s.heap b).reset_at now)) [
          | inl l ↦ rw l (
              record_bucket-Distinct key s.next (delete key s.buckets)
                (delete-Distinct key s.buckets d))
          | inr l ↦ rw l d
        ])
]

-- Only a request changes which buckets are in use.
step-buckets : (s : RateLimitCounter) (op : Op) → Distinct s.buckets → Distinct (step s op).buckets
unfolding step finish_hit after_timer settle_flush run_timer flush_if_current schedule start_flush
step-buckets s (hit_starts key fixed now) d =
    rw (start_hit-buckets key fixed now s) (find_bucket-Distinct key fixed now s d)
step-buckets s (hit_ends key b now) d = ground (arith, d)
step-buckets s (flush_ends key outcome) d = ground (arith, d)
step-buckets s (timer_fires key now) d = ground (arith, d)
step-buckets s (timer_ends key b now) d = ground (arith, d)

run-Distinct :
    (s : RateLimitCounter) (ops : List Op) → Distinct s.buckets → Distinct (run s ops).buckets
unfolding run
run-Distinct s [] d = d
run-Distinct s (op ∷ ops) d = run-Distinct (step s op) ops (step-buckets s op d)

settle_all-Accounts :
    (out : Text → Option (Option Row)) (m : List (Text × Flush)) (s : RateLimitCounter)
    → Accounts s
    → Accounts (settle_all out m s)
unfolding settle_all
settle_all-Accounts out [] s v = v
settle_all-Accounts out ((key, f) ∷ m) s v =
    settle_all-Accounts out m (settle_flush key (out key) s)
      (settle_flush-Accounts key (out key) s v)

flush_all-Accounts :
    (now : ℕ) (m : List (Text × ℕ)) (s : RateLimitCounter)
    → Accounts s
    → Accounts (flush_all now m s)
unfolding flush_all
flush_all-Accounts now [] s v = v
flush_all-Accounts now ((key, b) ∷ m) s v =
    flush_all-Accounts now m (flush_if_current key b now s)
      (flush_if_current-Accounts key b now s v)

continue-Accounts :
    (m : List (Text × ℕ)) (s t : RateLimitCounter)
    → Accounts s
    → Accounts t
    → Accounts (continue m s t)
unfolding continue
continue-Accounts [] s t v w = v
continue-Accounts (_ ∷ _) s t v w = w

drain_loop-Accounts :
    (p : ℕ) (out : Outcomes) (now : ℕ → ℕ) (n : ℕ) (s : RateLimitCounter)
    → Accounts s
    → Accounts (drain_loop p out now n s)
unfolding drain_loop
drain_loop-Accounts zero out now n s v = v
drain_loop-Accounts (suc p) out now n s v =
    let settled = settle_all (out n) s.flush_in_flight s in
    let pending = pending_of settled.heap settled.buckets in
    let flushed = flush_all (now n) pending settled in
    let ended = settle_all (out (n + 1)) flushed.flush_in_flight flushed in
    let w = settle_all-Accounts (out n) s.flush_in_flight s v in
    continue-Accounts pending settled (drain_loop p out now (n + 2) ended) w (
      drain_loop-Accounts p out now (n + 2) ended (
        settle_all-Accounts (out (n + 1)) flushed.flush_in_flight flushed
          (flush_all-Accounts (now n) pending settled w)))

AllClear-get :
    (heap : ℕ → RateLimitBucket) (m : List (Text × ℕ)) (key : Text) (b : ℕ)
    → AllClear heap m
    → get key m ≡ some b
    → (heap b).pending_delta ≡ 0
unfolding get
AllClear-get heap [] key b v h = cc
AllClear-get heap ((j, i) ∷ m) key b v h = ground (arith, AllClear-get heap m key b v.1)

-- The counter stops after any history, while the database works.
module _ (schedules : Bool) (ops : List Op) (out : ℕ → Text → Option Row) (now : ℕ → ℕ) where
  abbrev pub stopped : RateLimitCounter
  stopped = drain (λ n key. some (out n key)) now (run (new_counter schedules) ops)

  stopped-IsDrained : IsDrained stopped
  unfolding drain
  stopped-IsDrained =
      let s = run (new_counter schedules) ops in
      drain_loop-IsDrained out now 1 0 (record s { draining = true; flush_timers = [] })
        (run-Distinct (new_counter schedules) ops tt)

  stopped-Accounts : Accounts stopped
  unfolding drain
  stopped-Accounts =
      let s = run (new_counter schedules) ops in
      let v = run-Accounts (new_counter schedules) ops (new_counter-Accounts schedules) in
      drain_loop-Accounts 3 (λ n key. some (out n key)) now 0
        (record s { draining = true; flush_timers = [] })
        (record { accounted = v.accounted; unused = v.unused; allocated = v.allocated })

  pub drain_stores_all :
      (key : Text) (b : ℕ)
      → get key stopped.buckets ≡ some b
      → counted_in b stopped.log ≡ stored_in b stopped.log + dropped_in b stopped.log
  unfolding flying
  drain_stores_all key b h =
      let clear = AllClear-get stopped.heap stopped.buckets key b stopped-IsDrained.0 h in
      let landed : flying b stopped.flush_in_flight ≡ 0 = rw stopped-IsDrained.1 in
      omega (arith, clear, landed, stopped-Accounts.accounted b)
