-- ===== src/RateLimits.antt =====
-- apps/api/src/common/rate-limit-counter.ts: requests counted in memory and flushed to PostgreSQL.
-- A bucket is an object of the heap, since a flush keeps the one it was started for. An operation is
-- cut where the source awaits: `start_hit` and `finish_hit`, `start_flush` and `settle_flush`. What
-- the query comes to is the argument of `settle_flush`.
pub mod Tally
pub mod Accounting
pub mod History
pub mod Bound
pub mod Kept
pub mod Draining
pub mod Drained
pub mod Shutdown
pub mod Middleware
mod Tests
use firecrawl_gateway.Prelude.{
  ℕ, suc, ◌+◌, ◌-◌, max, Bool, true, false, not, ◌&&◌, ◌||◌, List, [], ◌∷◌, Option, none, some,
  length, ltb, leb, ◌===◌, nat_eq, if◌then◌else◌,
}
use firecrawl_gateway.Prelude.OrderedMap.{get, set, delete, has}
use firecrawl_gateway.Prelude.Text.{Text, codes_eq}

abbrev pub rate_limit_window_ms : ℕ
rate_limit_window_ms = 60000

abbrev pub flush_interval_ms : ℕ
flush_interval_ms = 5000

abbrev pub max_buckets : ℕ
max_buckets = 10000

pub record RateLimitBucket : Type 0 where
  pub pending_delta : ℕ
  pub synced_count : ℕ
  pub reset_at : ℕ
  pub last_flush_at : ℕ
  pub fixed_reset_at : Option ℕ

-- A row of `rate_limits`.
pub record Row : Type 0 where
  pub count : ℕ
  pub reset_at : ℕ

-- A query that was sent: the bucket and the delta that its continuation holds.
pub record Flush : Type 0 where
  pub bucket : ℕ
  pub delta : ℕ

pub record Timer : Type 0 where
  pub bucket : ℕ
  pub delay : ℕ

-- What happened to the requests of a bucket: one was counted, a flush of some was acknowledged, or
-- some were dropped with their window.
pub data Event : Type 0 where
  counted : ℕ → Event
  acknowledged : ℕ → ℕ → Event
  dropped : ℕ → ℕ → Event

pub record RateLimitCounter : Type 0 where
  pub buckets : List (Text × ℕ)
  pub heap : ℕ → RateLimitBucket
  pub next : ℕ
  pub flush_in_flight : List (Text × Flush)
  pub flush_timers : List (Text × Timer)
  pub draining : Bool
  pub schedule_flush : Bool
  pub log : List Event

abbrev pub empty_bucket : RateLimitBucket
empty_bucket = record {
  pending_delta = 0;
  synced_count = 0;
  reset_at = 0;
  last_flush_at = 0;
  fixed_reset_at = none;
}

abbrev pub new_counter : Bool → RateLimitCounter
new_counter schedule = record {
  buckets = [];
  heap = λ b. empty_bucket;
  next = 0;
  flush_in_flight = [];
  flush_timers = [];
  draining = false;
  schedule_flush = schedule;
  log = [];
}

abbrev pub write : ℕ → RateLimitBucket → (ℕ → RateLimitBucket) → ℕ → RateLimitBucket
write b bucket heap i = if b === i then bucket else heap i

-- The oldest key goes, unless it is the empty text.
unfoldable pub drop_oldest : List (Text × ℕ) → List (Text × ℕ)
drop_oldest [] = []
drop_oldest ((oldest, b) ∷ m) = if oldest === [] then (oldest, b) ∷ m else m

unfoldable pub record_bucket : Text → ℕ → List (Text × ℕ) → List (Text × ℕ)
unfolding set delete has drop_oldest
record_bucket key b m =
    set key b
      (if has key m then delete key m else if leb max_buckets (length m) then drop_oldest m else m)

pub new_bucket : Option ℕ → ℕ → RateLimitBucket
new_bucket fixed now = record {
  pending_delta = 0;
  synced_count = 0;
  reset_at = elim fixed [ none ↦ now + rate_limit_window_ms | some end ↦ end ];
  last_flush_at = 0;
  fixed_reset_at = fixed;
}

create_bucket : Text → Option ℕ → ℕ → RateLimitCounter → RateLimitCounter × ℕ
unfolding record_bucket new_bucket
create_bucket key fixed now s = (
  record s {
    buckets = record_bucket key s.next s.buckets;
    heap = write s.next (new_bucket fixed now) s.heap;
    next = suc s.next;
  },
  s.next,
)

-- The bucket of the key, or a fresh one if there is none or its window has ended. What a bucket that
-- leaves the map has not flushed is discarded with it: the object stays in the heap, but no flush
-- starts from it any more.
pub find_bucket : Text → Option ℕ → ℕ → RateLimitCounter → RateLimitCounter × ℕ
unfolding get create_bucket delete
find_bucket key fixed now s = elim (get key s.buckets) [
  | none ↦ create_bucket key fixed now s
  | some b ↦
      if leb (s.heap b).reset_at now
      then create_bucket key fixed now (record s { buckets = delete key s.buckets })
      else (s, b)
]

abbrev pub count_one : ℕ → RateLimitCounter → RateLimitCounter
count_one b s =
    let old = s.heap b in
    record s {
      heap = write b (record old { pending_delta = old.pending_delta + 1 }) s.heap;
      log = counted b ∷ s.log;
    }

-- `flushBucket` up to its `await`.
unfoldable pub start_flush : Text → ℕ → ℕ → RateLimitCounter → RateLimitCounter
unfolding has set
start_flush key b now s =
    let old = s.heap b in
    let rested = write b (record old { last_flush_at = now }) s.heap in
    let taken = write b (record old { pending_delta = 0; last_flush_at = now }) s.heap in
    let request : Flush = record { bucket = b; delta = old.pending_delta } in
    if has key s.flush_in_flight
    then s
    else if leb old.pending_delta 0
    then record s { heap = rested }
    else record s { heap = taken; flush_in_flight = set key request s.flush_in_flight }

-- The continuation of the query: `none` where it failed, else its first row, if any.
pub settle_bucket : Option (Option Row) → ℕ → RateLimitBucket → RateLimitBucket
settle_bucket none delta bucket = record bucket { pending_delta = bucket.pending_delta + delta }
settle_bucket (some none) delta bucket = bucket
settle_bucket (some (some row)) delta bucket = record bucket {
  synced_count = row.count;
  reset_at = row.reset_at;
}

abbrev pub log_settled : Option (Option Row) → Flush → List Event → List Event
log_settled none f log = log
log_settled (some r) f log = acknowledged f.bucket f.delta ∷ log

unfoldable pub settle_flush : Text → Option (Option Row) → RateLimitCounter → RateLimitCounter
unfolding get delete settle_bucket
settle_flush key outcome s = elim (get key s.flush_in_flight) [
  | none ↦ s
  | some f ↦ record s {
    heap = write f.bucket (settle_bucket outcome f.delta (s.heap f.bucket)) s.heap;
    flush_in_flight = delete key s.flush_in_flight;
    log = log_settled outcome f s.log;
  }
]

-- `hit` up to its `await`: the bucket that it counted in.
unfoldable pub start_hit : Text → Option ℕ → ℕ → RateLimitCounter → RateLimitCounter × ℕ
unfolding find_bucket start_flush
start_hit key fixed now s =
    let found = find_bucket key fixed now s in
    let counting = count_one found.1 found.0 in
    (
      if leb flush_interval_ms (now - (found.0.heap found.1).last_flush_at)
          then start_flush key found.1 now counting
          else counting,
      found.1,
    )

unfoldable pub schedule : Text → ℕ → ℕ → RateLimitCounter → RateLimitCounter
unfolding has set
schedule key b now s =
    let timer : Timer = record {
      bucket = b;
      delay = max 1000 ((s.heap b).last_flush_at + flush_interval_ms - now);
    } in
    if s.draining || has key s.flush_timers
    then s
    else record s { flush_timers = set key timer s.flush_timers }

pub record RateLimitHit : Type 0 where
  pub count : ℕ
  pub reset_at : ℕ

-- The rest of `hit`.
unfoldable pub finish_hit : Text → ℕ → ℕ → RateLimitCounter → RateLimitCounter × RateLimitHit
unfolding schedule
finish_hit key b now s = (
  if s.schedule_flush && ltb 0 (s.heap b).pending_delta then schedule key b now s else s,
  record {
    count = (s.heap b).synced_count + (s.heap b).pending_delta;
    reset_at = (s.heap b).reset_at;
  },
)

-- `flushIfCurrent` up to its `await`: what belongs to a window that has ended is dropped.
unfoldable pub flush_if_current : Text → ℕ → ℕ → RateLimitCounter → RateLimitCounter
unfolding start_flush
flush_if_current key b now s =
    let old = s.heap b in
    if leb old.reset_at now
    then record s {
      heap = write b (record old { pending_delta = 0 }) s.heap;
      log = dropped b old.pending_delta ∷ s.log;
    }
    else start_flush key b now s

abbrev pub is_current : Text → ℕ → RateLimitCounter → Bool
is_current key b s = elim (get key s.buckets) [ none ↦ false | some current ↦ current === b ]

-- The callback of a timer up to its `await`.
unfoldable pub run_timer : Text → ℕ → RateLimitCounter → RateLimitCounter
unfolding get delete flush_if_current
run_timer key now s = elim (get key s.flush_timers) [
  | none ↦ s
  | some t ↦
      let s' : RateLimitCounter = record s { flush_timers = delete key s.flush_timers } in
      if not (is_current key t.bucket s') || leb (s'.heap t.bucket).pending_delta 0
      then s'
      else flush_if_current key t.bucket now s'
]

-- What the timer does once its flush has ended: a failed one is tried again.
unfoldable pub after_timer : Text → ℕ → ℕ → RateLimitCounter → RateLimitCounter
unfolding schedule
after_timer key b now s =
    if ltb 0 (s.heap b).pending_delta && ltb now (s.heap b).reset_at && is_current key b s
    then schedule key b now s
    else s
