-- ===== src/RateLimits/Draining.antt =====
-- `drain` of common/rate-limit-counter.ts. `out` is what the queries of each wait come to, and `now`
-- the time of each pass.
use firecrawl_gateway.Prelude.{
  ℕ, suc, zero, ◌+◌, ◌≤◌, true, List, [], ◌∷◌, Option, none, some, ltb, nat_eq, ◌≡◌, refl, arith,
  if◌then◌else◌,
}
use firecrawl_gateway.Prelude.OrderedMap.{get, delete, has, get-set, Distinct, Fresh}
use firecrawl_gateway.Prelude.Text.{Text, codes_eq}
use firecrawl_gateway.RateLimits.{
  RateLimitBucket, Flush, Row, RateLimitCounter, start_flush, settle_bucket, settle_flush,
  flush_if_current,
}

abbrev pub Outcomes : Type 0
Outcomes = ℕ → Text → Option (Option Row)

-- Every write that was on its way ends.
unfoldable pub settle_all :
    (Text → Option (Option Row)) → List (Text × Flush) → RateLimitCounter → RateLimitCounter
settle_all out [] s = s
settle_all out ((key, f) ∷ m) s = settle_all out m (settle_flush key (out key) s)

unfoldable pub pending_of : (ℕ → RateLimitBucket) → List (Text × ℕ) → List (Text × ℕ)
pending_of heap [] = []
pending_of heap ((key, b) ∷ m) =
    let rest = pending_of heap m in if ltb 0 (heap b).pending_delta then (key, b) ∷ rest else rest

unfoldable pub flush_all : ℕ → List (Text × ℕ) → RateLimitCounter → RateLimitCounter
flush_all now [] s = s
flush_all now ((key, b) ∷ m) s = flush_all now m (flush_if_current key b now s)

-- `drain` returns once nothing is pending.
unfoldable pub continue : List (Text × ℕ) → RateLimitCounter → RateLimitCounter → RateLimitCounter
continue [] settled further = settled
continue (_ ∷ _) settled further = further

-- The passes: `n` counts the waits that have ended.
unfoldable pub drain_loop : ℕ → Outcomes → (ℕ → ℕ) → ℕ → RateLimitCounter → RateLimitCounter
unfolding continue
drain_loop zero out now n s = s
drain_loop (suc passes) out now n s =
    let settled = settle_all (out n) s.flush_in_flight s in
    let pending = pending_of settled.heap settled.buckets in
    let flushed = flush_all (now n) pending settled in
    let ended = settle_all (out (n + 1)) flushed.flush_in_flight flushed in
    continue pending settled (drain_loop passes out now (n + 2) ended)

unfoldable pub drain : Outcomes → (ℕ → ℕ) → RateLimitCounter → RateLimitCounter
unfolding drain_loop
drain out now s = drain_loop 3 out now 0 (record s { draining = true; flush_timers = [] })

abbrev pub pending_at : ℕ → RateLimitCounter → ℕ
pending_at i s = (s.heap i).pending_delta

-- With writes that succeed, the pending requests stay as they are and nothing is on its way.
settle_flush_rest :
    (key : Text) (r : Option Row) (s : RateLimitCounter) (i : ℕ)
    → (pending_at i (settle_flush key (some r) s) ≡ pending_at i s)
      × ((settle_flush key (some r) s).buckets ≡ s.buckets)
unfolding settle_flush settle_bucket
settle_flush_rest key none s i = ground arith
settle_flush_rest key (some row) s i = ground arith

pub settle_all_rest :
    (out : Text → Option Row) (m : List (Text × Flush)) (s : RateLimitCounter) (i : ℕ)
    → (pending_at i (settle_all (λ key. some (out key)) m s) ≡ pending_at i s)
      × ((settle_all (λ key. some (out key)) m s).buckets ≡ s.buckets)
unfolding settle_all
settle_all_rest out [] s i = (refl, refl)
settle_all_rest out ((key, f) ∷ m) s i = ground (
  arith,
  settle_flush_rest key (out key) s i,
  settle_all_rest out m (settle_flush key (some (out key)) s) i,
)

settle_flush-flush_in_flight :
    (key : Text) (f : Flush) (m : List (Text × Flush)) (r : Option (Option Row))
    (s : RateLimitCounter)
    → s.flush_in_flight ≡ (key, f) ∷ m
    → (settle_flush key r s).flush_in_flight ≡ m
unfolding settle_flush get delete
settle_flush-flush_in_flight key f m r s h = ground (arith, codes_eq.equal_iff key key)

pub settle_all-flush_in_flight :
    (out : Text → Option (Option Row)) (m : List (Text × Flush)) (s : RateLimitCounter)
    → s.flush_in_flight ≡ m
    → (settle_all out m s).flush_in_flight ≡ []
unfolding settle_all
settle_all-flush_in_flight out [] s h = h
settle_all-flush_in_flight out ((key, f) ∷ m) s h =
    settle_all-flush_in_flight out m (settle_flush key (out key) s)
      (settle_flush-flush_in_flight key f m (out key) s h)

flush_if_current-le :
    (key : Text) (b now : ℕ) (s : RateLimitCounter) (i : ℕ)
    → (pending_at i (flush_if_current key b now s) ≤ pending_at i s)
      × ((flush_if_current key b now s).buckets ≡ s.buckets)
unfolding flush_if_current start_flush
flush_if_current-le key b now s i = ground arith

pub flush_all-le :
    (now : ℕ) (m : List (Text × ℕ)) (s : RateLimitCounter) (i : ℕ)
    → (pending_at i (flush_all now m s) ≤ pending_at i s)
      × ((flush_all now m s).buckets ≡ s.buckets)
unfolding flush_all
flush_all-le now [] s i = (omega arith, refl)
flush_all-le now ((key, b) ∷ m) s i =
    ground (
      arith,
      flush_if_current-le key b now s i,
      flush_all-le now m (flush_if_current key b now s) i,
    )

-- None of the keys has a write on its way.
abbrev pub AllGrounded : List (Text × ℕ) → List (Text × Flush) → Type 0
AllGrounded [] flights = Unit {0}
AllGrounded ((key, b) ∷ m) flights = (get key flights ≡ none) × AllGrounded m flights

abbrev pub AllClear : (ℕ → RateLimitBucket) → List (Text × ℕ) → Type 0
AllClear heap [] = Unit {0}
AllClear heap ((key, b) ∷ m) = ((heap b).pending_delta ≡ 0) × AllClear heap m

pub AllGrounded-nil : (m : List (Text × ℕ)) → AllGrounded m []
unfolding get
AllGrounded-nil [] = tt
AllGrounded-nil ((key, b) ∷ m) = (refl, AllGrounded-nil m)

flush_if_current-clears :
    (key : Text) (b now : ℕ) (s : RateLimitCounter)
    → get key s.flush_in_flight ≡ none
    → pending_at b (flush_if_current key b now s) ≡ 0
unfolding flush_if_current start_flush has
flush_if_current-clears key b now s h = ground arith

flush_if_current-AllGrounded :
    (key : Text) (b now : ℕ) (s : RateLimitCounter) (m : List (Text × ℕ))
    → Fresh key m
    → AllGrounded m s.flush_in_flight
    → AllGrounded m (flush_if_current key b now s).flush_in_flight
unfolding flush_if_current start_flush
flush_if_current-AllGrounded key b now s [] f v = tt
flush_if_current-AllGrounded key b now s ((j, i) ∷ m) f v = ground (
  arith,
  codes_eq.equal_iff key j,
  codes_eq.equal_iff j key,
  get-set key j (record { bucket = b; delta = (s.heap b).pending_delta }) s.flush_in_flight,
  flush_if_current-AllGrounded key b now s m f.1 v.1,
)

pub flush_all-AllClear :
    (now : ℕ) (m : List (Text × ℕ)) (s : RateLimitCounter)
    → Distinct m
    → AllGrounded m s.flush_in_flight
    → AllClear (flush_all now m s).heap m
unfolding flush_all
flush_all-AllClear now [] s d v = tt
flush_all-AllClear now ((key, b) ∷ m) s d v =
    let s' = flush_if_current key b now s in
    (
      omega (arith, flush_all-le now m s' b, flush_if_current-clears key b now s v.0),
      flush_all-AllClear now m s' d.1 (flush_if_current-AllGrounded key b now s m d.0 v.1),
    )
