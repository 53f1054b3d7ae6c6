-- ===== src/RateLimits/Tally.antt =====
-- The requests that a bucket counted, and where they are (common/rate-limit-counter.ts).
use firecrawl_gateway.Prelude.{
  ℕ, ◌+◌, List, [], ◌∷◌, Option, none, some, ◌===◌, nat_eq, ◌≡◌, arith, Option-cases, inl, inr,
  if◌then◌else◌,
}
use firecrawl_gateway.Prelude.OrderedMap.{get, set, delete, has}
use firecrawl_gateway.Prelude.Text.{Text, codes_eq}
use firecrawl_gateway.RateLimits.{
  Flush, Event, counted, acknowledged, dropped, Row, RateLimitCounter, start_flush, settle_bucket,
  settle_flush,
}

-- How many requests the bucket counted, how many of them flushes stored, how many were dropped.
unfoldable pub counted_in : ℕ → List Event → ℕ
counted_in b [] = 0
counted_in b (counted i ∷ log) = (if i === b then 1 else 0) + counted_in b log
counted_in b (_ ∷ log) = counted_in b log

unfoldable pub stored_in : ℕ → List Event → ℕ
stored_in b [] = 0
stored_in b (acknowledged i n ∷ log) = (if i === b then n else 0) + stored_in b log
stored_in b (_ ∷ log) = stored_in b log

unfoldable pub dropped_in : ℕ → List Event → ℕ
dropped_in b [] = 0
dropped_in b (dropped i n ∷ log) = (if i === b then n else 0) + dropped_in b log
dropped_in b (_ ∷ log) = dropped_in b log

-- How many are on their way.
unfoldable pub flying : ℕ → List (Text × Flush) → ℕ
flying b [] = 0
flying b ((key, f) ∷ m) = (if f.bucket === b then f.delta else 0) + flying b m

flying-set :
    (b : ℕ) (key : Text) (f : Flush) (m : List (Text × Flush))
    → get key m ≡ none
    → flying b (set key f m) ≡ flying b m + (if f.bucket === b then f.delta else 0)
unfolding flying set get
flying-set b key f [] h = omega arith
flying-set b key f ((j, g) ∷ m) h = ground (arith, flying-set b key f m)

flying-delete :
    (b : ℕ) (key : Text) (f : Flush) (m : List (Text × Flush))
    → get key m ≡ some f
    → flying b m ≡ flying b (delete key m) + (if f.bucket === b then f.delta else 0)
unfolding flying delete get
flying-delete b key f [] h = cc
flying-delete b key f ((j, g) ∷ m) h = ground (arith, flying-delete b key f m)

abbrev pub IsAccounted : ℕ → RateLimitCounter → Type 0
IsAccounted b s =
    counted_in b s.log
    ≡ (s.heap b).pending_delta + flying b s.flush_in_flight + stored_in b s.log + dropped_in b s.log

pub start_flush-IsAccounted :
    (b : ℕ) (key : Text) (i now : ℕ) (s : RateLimitCounter)
    → IsAccounted b s
    → IsAccounted b (start_flush key i now s)
unfolding start_flush has
start_flush-IsAccounted b key i now s v = elim (Option-cases (get key s.flush_in_flight)) [
  | inl e ↦ ground (
    arith,
    flying-set b key (record { bucket = i; delta = (s.heap i).pending_delta }) s.flush_in_flight,
  )
  | inr (f, e) ↦ ground arith
]

pub settle_flush-IsAccounted :
    (b : ℕ) (key : Text) (outcome : Option (Option Row)) (s : RateLimitCounter)
    → IsAccounted b s
    → IsAccounted b (settle_flush key outcome s)
unfolding settle_flush settle_bucket counted_in stored_in dropped_in
settle_flush-IsAccounted b key outcome s v = elim (Option-cases (get key s.flush_in_flight)) [
  | inl e ↦ rw (e, settle_flush) v
  | inr (f, e) ↦ ground (arith, flying-delete b key f s.flush_in_flight)
]
