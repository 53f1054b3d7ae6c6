-- ===== src/RateLimits/Accounting.antt =====
-- What becomes of the requests that a bucket counted (common/rate-limit-counter.ts).
use firecrawl_gateway.Prelude.{
  ℕ, suc, ◌-◌, not, ◌||◌, ◌≤◌, ◌<◌, List, [], ◌∷◌, Option, some, nat_eq, leb, ◌≡◌, arith,
  Bool-cases, Option-cases, inl, inr, length,
}
use firecrawl_gateway.Prelude.OrderedMap.{get, set, delete, has}
use firecrawl_gateway.Prelude.Text.{Text, codes_eq}
use firecrawl_gateway.RateLimits.{
  Row, RateLimitCounter, record_bucket, drop_oldest, new_bucket, create_bucket, find_bucket,
  count_one, start_flush, settle_flush, start_hit, flush_interval_ms, flush_if_current, run_timer,
  is_current, max_buckets,
}
use firecrawl_gateway.RateLimits.Tally.{
  counted_in, stored_in, dropped_in, IsAccounted, start_flush-IsAccounted, settle_flush-IsAccounted,
}

abbrev pub AllBelow : ℕ → List (Text × ℕ) → Type 0
AllBelow next [] = Unit {0}
AllBelow next ((key, b) ∷ m) = (b < next) × AllBelow next m

-- Every bucket in use is older than `next`, and no other has counted anything.
pub record Accounts (s : RateLimitCounter) : Type 0 where
  pub accounted : (b : ℕ) → IsAccounted b s
  pub unused : (b : ℕ) → s.next ≤ b → counted_in b s.log ≡ 0
  pub allocated : AllBelow s.next s.buckets

AllBelow-suc : (n : ℕ) (m : List (Text × ℕ)) → AllBelow n m → AllBelow (suc n) m
AllBelow-suc n [] v = tt
AllBelow-suc n ((key, b) ∷ m) v = (omega arith, AllBelow-suc n m v.1)

AllBelow-get :
    (n : ℕ) (key : Text) (b : ℕ) (m : List (Text × ℕ)) → AllBelow n m → get key m ≡ some b → b < n
unfolding get
AllBelow-get n key b [] v h = cc
AllBelow-get n key b ((j, i) ∷ m) v h = ground (arith, AllBelow-get n key b m v.1)

AllBelow-delete :
    (n : ℕ) (key : Text) (m : List (Text × ℕ)) → AllBelow n m → AllBelow n (delete key m)
unfolding delete
AllBelow-delete n key [] v = tt
AllBelow-delete n key ((j, i) ∷ m) v = ground (arith, AllBelow-delete n key m v.1)

AllBelow-set :
    (n : ℕ) (key : Text) (b : ℕ) (m : List (Text × ℕ))
    → AllBelow n m
    → b < n
    → AllBelow n (set key b m)
unfolding set
AllBelow-set n key b [] v h = (h, tt)
AllBelow-set n key b ((j, i) ∷ m) v h = ground (arith, AllBelow-set n key b m v.1 h)

AllBelow-drop_oldest : (n : ℕ) (m : List (Text × ℕ)) → AllBelow n m → AllBelow n (drop_oldest m)
unfolding drop_oldest
AllBelow-drop_oldest n [] v = tt
AllBelow-drop_oldest n ((j, i) ∷ m) v = ground arith

AllBelow-record_bucket :
    (n : ℕ) (key : Text) (m : List (Text × ℕ))
    → AllBelow n m
    → AllBelow (suc n) (record_bucket key n m)
unfolding record_bucket
AllBelow-record_bucket n key m v = elim (Bool-cases (has key m)) [
  | inl e ↦ rw e (
      AllBelow-set (suc n) key n (delete key m) (AllBelow-suc n _ (AllBelow-delete n key m v))
        (omega arith))
  | inr e ↦ rw e (elim (Bool-cases (leb max_buckets (length m))) [
    | inl l ↦ rw l (
        AllBelow-set (suc n) key n (drop_oldest m) (AllBelow-suc n _ (AllBelow-drop_oldest n m v))
          (omega arith))
    | inr l ↦ rw l (AllBelow-set (suc n) key n m (AllBelow-suc n m v) (omega arith))
  ])
]

create_bucket-Accounts :
    (key : Text) (fixed : Option ℕ) (now : ℕ) (s : RateLimitCounter)
    → Accounts s
    → Accounts (create_bucket key fixed now s).0
unfolding create_bucket new_bucket
create_bucket-Accounts key fixed now s v = record {
  accounted = λ b. ground (arith, v.accounted b, v.unused b);
  unused = λ b h. v.unused b (omega arith);
  allocated = AllBelow-record_bucket s.next key s.buckets v.allocated;
}

abbrev IsFound : RateLimitCounter × ℕ → Type 0
IsFound (s, b) = Accounts s × (b < s.next)

create_bucket-IsFound :
    (key : Text) (fixed : Option ℕ) (now : ℕ) (s : RateLimitCounter)
    → Accounts s
    → IsFound (create_bucket key fixed now s)
unfolding create_bucket
create_bucket-IsFound key fixed now s v = (create_bucket-Accounts key fixed now s v, omega arith)

find_bucket-IsFound :
    (key : Text) (fixed : Option ℕ) (now : ℕ) (s : RateLimitCounter)
    → Accounts s
    → IsFound (find_bucket key fixed now s)
unfolding find_bucket
find_bucket-IsFound key fixed now s v = elim (Option-cases (get key s.buckets)) [
  | inl e ↦ rw (e, find_bucket) (create_bucket-IsFound key fixed now s v)
  | inr (b, e) ↦
      rw (e, find_bucket)
        (elim (Bool-cases (leb (s.heap b).reset_at now)) [
          | inl l ↦ rw l (
              create_bucket-IsFound key fixed now (record s { buckets = delete key s.buckets })
                (record {
                  accounted = v.accounted;
                  unused = v.unused;
                  allocated = AllBelow-delete s.next key s.buckets v.allocated;
                }))
          | inr l ↦ rw l (v, AllBelow-get s.next key b s.buckets v.allocated e)
        ])
]

count_one-Accounts :
    (i : ℕ) (s : RateLimitCounter) → Accounts s → i < s.next → Accounts (count_one i s)
unfolding counted_in stored_in dropped_in
count_one-Accounts i s v h = record {
  accounted = λ b. ground (arith, v.accounted b);
  unused = λ b k. ground (arith, v.unused b);
  allocated = v.allocated;
}

-- A flush leaves the map of buckets alone, and counts nothing.
pub start_flush_rest :
    (key : Text) (b now : ℕ) (s : RateLimitCounter)
    → ((start_flush key b now s).buckets ≡ s.buckets)
      × ((start_flush key b now s).next ≡ s.next)
      × ((start_flush key b now s).log ≡ s.log)
unfolding start_flush
start_flush_rest key b now s = ground arith

pub start_flush-Accounts :
    (key : Text) (b now : ℕ) (s : RateLimitCounter)
    → Accounts s
    → Accounts (start_flush key b now s)
start_flush-Accounts key b now s v =
    let (m, n, l) = start_flush_rest key b now s in
    record {
      accounted = λ i. start_flush-IsAccounted i key b now s (v.accounted i);
      unused = λ i h. rw l (v.unused i (omega (arith, n)));
      allocated = rw m (rw n v.allocated);
    }

pub start_hit-Accounts :
    (key : Text) (fixed : Option ℕ) (now : ℕ) (s : RateLimitCounter)
    → Accounts s
    → Accounts (start_hit key fixed now s).0
unfolding start_hit
start_hit-Accounts key fixed now s v =
    let found = find_bucket key fixed now s in
    let f = find_bucket-IsFound key fixed now s v in
    let counting = count_one-Accounts found.1 found.0 f.0 f.1 in
    elim (Bool-cases (leb flush_interval_ms (now - (found.0.heap found.1).last_flush_at))) [
      | inl e ↦ rw e (start_flush-Accounts key found.1 now (count_one found.1 found.0) counting)
      | inr e ↦ rw e counting
    ]

pub settle_flush-Accounts :
    (key : Text) (outcome : Option (Option Row)) (s : RateLimitCounter)
    → Accounts s
    → Accounts (settle_flush key outcome s)
unfolding settle_flush counted_in
settle_flush-Accounts key outcome s v = record {
  accounted = λ b. settle_flush-IsAccounted b key outcome s (v.accounted b);
  unused = λ b h. ground (arith, v.unused b);
  allocated = ground (arith, v.allocated);
}

pub flush_if_current-Accounts :
    (key : Text) (b now : ℕ) (s : RateLimitCounter)
    → Accounts s
    → Accounts (flush_if_current key b now s)
unfolding flush_if_current counted_in stored_in dropped_in
flush_if_current-Accounts key i now s v = elim (Bool-cases (leb (s.heap i).reset_at now)) [
  | inl e ↦
      rw (e, flush_if_current)
        (record {
          accounted = λ b. ground (arith, v.accounted b);
          unused = λ b h. v.unused b h;
          allocated = v.allocated;
        })
  | inr e ↦ rw (e, flush_if_current) (start_flush-Accounts key i now s v)
]

pub run_timer-Accounts :
    (key : Text) (now : ℕ) (s : RateLimitCounter) → Accounts s → Accounts (run_timer key now s)
unfolding run_timer
run_timer-Accounts key now s v = elim (Option-cases (get key s.flush_timers)) [
  | inl e ↦ rw (e, run_timer) v
  | inr (t, e) ↦
      let s' : RateLimitCounter = record s { flush_timers = delete key s.flush_timers } in
      let w : Accounts s' = record {
        accounted = v.accounted;
        unused = v.unused;
        allocated = v.allocated;
      } in
      rw (e, run_timer)
        (elim (Bool-cases
          (not (is_current key t.bucket s') || leb (s'.heap t.bucket).pending_delta 0)) [
            | inl f ↦ rw f w
            | inr f ↦ rw f (flush_if_current-Accounts key t.bucket now s' w)
          ])
]
