-- ===== src/RateLimits/Bound.antt =====
-- How many buckets are kept (common/rate-limit-counter.ts).
use firecrawl_gateway.Prelude.{
  ℕ, ◌+◌, ◌≤◌, Bool, true, false, List, [], ◌∷◌, Option, leb, length, ◌===◌, ◌≡◌, arith, All,
  Bool-cases, Option-cases, inl, inr,
}
use firecrawl_gateway.Prelude.OrderedMap.{get, set, delete, has, length-set, length-delete}
use firecrawl_gateway.Prelude.Text.{Text, codes_eq}
use firecrawl_gateway.RateLimits.{
  RateLimitCounter, new_counter, max_buckets, drop_oldest, record_bucket, create_bucket,
  find_bucket, start_hit, start_flush, finish_hit, settle_flush, run_timer, after_timer, schedule,
  flush_if_current, count_one,
}
use firecrawl_gateway.RateLimits.Accounting.{start_flush_rest}
use firecrawl_gateway.RateLimits.History.{
  Op, hit_starts, hit_ends, flush_ends, timer_fires, timer_ends, step, run,
}

abbrev pub AllNamed : List (Text × ℕ) → Type 0
AllNamed [] = Unit {0}
AllNamed ((key, b) ∷ m) = ((key === []) ≡ false) × AllNamed m

abbrev IsBounded : List (Text × ℕ) → Type 0
IsBounded m = AllNamed m × (length m ≤ max_buckets)

AllNamed-delete : (key : Text) (m : List (Text × ℕ)) → AllNamed m → AllNamed (delete key m)
unfolding delete
AllNamed-delete key [] v = tt
AllNamed-delete key ((j, i) ∷ m) v = ground (arith, AllNamed-delete key m v.1)

AllNamed-set :
    (key : Text) (b : ℕ) (m : List (Text × ℕ))
    → (key === []) ≡ false
    → AllNamed m
    → AllNamed (set key b m)
unfolding set
AllNamed-set key b [] h v = (h, tt)
AllNamed-set key b ((j, i) ∷ m) h v = ground (arith, AllNamed-set key b m h v.1)

length-delete-has :
    (key : Text) (m : List (Text × ℕ)) → has key m ≡ true → length (delete key m) + 1 ≡ length m
unfolding has get delete
length-delete-has key [] h = cc
length-delete-has key ((j, i) ∷ m) h = ground (arith, length-delete-has key m)

drop_oldest-IsBounded :
    (m : List (Text × ℕ))
    → AllNamed m
    → max_buckets ≤ length m
    → AllNamed (drop_oldest m) × (length (drop_oldest m) + 1 ≡ length m)
unfolding drop_oldest
drop_oldest-IsBounded [] v h = absurd (omega arith)
drop_oldest-IsBounded ((j, i) ∷ m) v h = ground arith

record_bucket-IsBounded :
    (key : Text) (b : ℕ) (m : List (Text × ℕ))
    → (key === []) ≡ false
    → IsBounded m
    → IsBounded (record_bucket key b m)
unfolding record_bucket
record_bucket-IsBounded key b m h v = elim (Bool-cases (has key m)) [
  | inl e ↦ rw e (
    AllNamed-set key b (delete key m) h (AllNamed-delete key m v.0),
    omega (arith, length-set key b (delete key m), length-delete-has key m e),
  )
  | inr e ↦ rw e (elim (Bool-cases (leb max_buckets (length m))) [
    | inl l ↦
        let d = drop_oldest-IsBounded m v.0 (ground arith) in
        rw l (
          AllNamed-set key b (drop_oldest m) h d.0,
          omega (arith, d.1, length-set key b (drop_oldest m)),
        )
    | inr l ↦ rw l (AllNamed-set key b m h v.0, ground (arith, length-set key b m))
  ])
]

find_bucket-IsBounded :
    (key : Text) (fixed : Option ℕ) (now : ℕ) (s : RateLimitCounter)
    → (key === []) ≡ false
    → IsBounded s.buckets
    → IsBounded (find_bucket key fixed now s).0.buckets
unfolding find_bucket create_bucket
find_bucket-IsBounded key fixed now s h v = elim (Option-cases (get key s.buckets)) [
  | inl e ↦ rw (e, find_bucket) (record_bucket-IsBounded key s.next s.buckets h v)
  | inr (b, e) ↦
      rw (e, find_bucket)
        (elim (Bool-cases (leb (s.heap b).reset_at now)) [
          | inl l ↦ rw l (
              record_bucket-IsBounded key s.next (delete key s.buckets) h
                (AllNamed-delete key s.buckets v.0, omega (arith, length-delete key s.buckets)))
          | inr l ↦ rw l v
        ])
]

pub start_hit-buckets :
    (key : Text) (fixed : Option ℕ) (now : ℕ) (s : RateLimitCounter)
    → (start_hit key fixed now s).0.buckets ≡ (find_bucket key fixed now s).0.buckets
unfolding start_hit
start_hit-buckets key fixed now s =
    let found = find_bucket key fixed now s in
    ground (arith, start_flush_rest key found.1 now (count_one found.1 found.0))

-- The key of a request that starts is not the empty text.
abbrev pub IsNamed : Op → Type 0
IsNamed (hit_starts key fixed now) = (key === []) ≡ false
IsNamed _ = Unit {0}

step-IsBounded :
    (s : RateLimitCounter) (op : Op)
    → IsNamed op
    → IsBounded s.buckets
    → IsBounded (step s op).buckets
unfolding step finish_hit after_timer settle_flush run_timer flush_if_current schedule start_flush
step-IsBounded s (hit_starts key fixed now) h v =
    rw (start_hit-buckets key fixed now s) (find_bucket-IsBounded key fixed now s h v)
step-IsBounded s (hit_ends key b now) h v = ground (arith, v)
step-IsBounded s (flush_ends key outcome) h v = ground (arith, v)
step-IsBounded s (timer_fires key now) h v = ground (arith, v)
step-IsBounded s (timer_ends key b now) h v = ground (arith, v)

run-IsBounded :
    (s : RateLimitCounter) (ops : List Op)
    → All IsNamed ops
    → IsBounded s.buckets
    → IsBounded (run s ops).buckets
unfolding run
run-IsBounded s [] h v = v
run-IsBounded s (op ∷ ops) h v = run-IsBounded (step s op) ops h.1 (step-IsBounded s op h.0 v)

-- At most 10,000 buckets are kept, in every history of requests, flushes and timers whose keys are
-- not empty.
pub run-max_buckets :
    (schedules : Bool) (ops : List Op)
    → All IsNamed ops
    → length (run (new_counter schedules) ops).buckets ≤ max_buckets
run-max_buckets schedules ops h = (run-IsBounded (new_counter schedules) ops h (tt, omega arith)).1
