-- ===== src/Ledger.antt =====
-- apps/api/src/credits/credit-ledger.store.ts: the credit ledger, which is four Lua scripts that
-- Redis runs one at a time. A pool has its reservations with it; a reservation's hash exists as
-- long as its state is `open`, or until it expires, which leaves its name in the pool's set. The
-- names are `randomUUID`, and the pick is `math.floor(random * #ties)`.
mod Tests
pub mod Reservations
pub mod Pools
pub mod Settlement
pub mod Closing
pub mod Choosing
use firecrawl_gateway.Prelude.{
  ℕ, zero, suc, ◌+◌, ◌-◌, ◌/◌, min, max, Bool, true, false, not, ◌&&◌, ◌||◌, List, [], ◌∷◌, Option,
  none, some, ltb, leb, HasEq, ◌===◌, nat_eq, length, get_elem?, if◌then◌else◌,
}
use firecrawl_gateway.Prelude.Text.{Text, codes_eq}
use firecrawl_gateway.Prelude.OrderedMap.{get, set, delete}
use firecrawl_gateway.Credits.{
  LedgerReserveResult, reserved, no_capacity, unavailable, SettleAction, refund, cooldown, disabled,
  LedgerSnapshot, LedgerStore, ms_per_day,
}
use firecrawl_gateway.Credits.Selection.{Rank, Choice, choose}

pub record Reservation : Type 0 where
  pub amount : ℕ
  pub sequence : ℕ
  pub expired : Bool

-- `credits` is none until a report or a settlement writes it.
pub record Pool : Type 0 where
  pub credits : Option ℕ
  pub reserved_credits : ℕ
  pub is_disabled : Bool
  pub cooldown_until : ℕ
  pub renews_at : ℕ
  pub reserve_sequence : ℕ
  pub reservations : List (Text × Reservation)

abbrev pub new_pool : Pool
new_pool = record {
  credits = none;
  reserved_credits = 0;
  is_disabled = false;
  cooldown_until = 0;
  renews_at = 0;
  reserve_sequence = 0;
  reservations = [];
}

pub record Ledger : Type 0 where
  pub pools : List (Text × Pool)
  pub names_used : ℕ

abbrev pub known_credits : Option ℕ → ℕ
known_credits none = 0
known_credits (some c) = c

-- RESERVE_SCRIPT, on the selected pool.
unfoldable pub reserve_pool : ℕ → Text → Pool → Pool
reserve_pool amount name p = record p {
  credits = some (known_credits p.credits - amount);
  reserved_credits = p.reserved_credits + amount;
  reserve_sequence = p.reserve_sequence + 1;
  reservations =
      set name (record { amount = amount; sequence = p.reserve_sequence + 1; expired = false })
        p.reservations;
}

-- `EXPIRE`: the hash of a reservation goes when its time is over.
unfoldable pub expire_reservation : Text → List (Text × Reservation) → List (Text × Reservation)
expire_reservation name [] = []
expire_reservation name ((j, r) ∷ rs) =
    if j === name
    then (j, record r { expired = true }) ∷ rs
    else (j, r) ∷ expire_reservation name rs

abbrev pub expire_pool : Text → Pool → Pool
expire_pool name p = record p { reservations = expire_reservation name p.reservations }

abbrev pub refund_pool : Text → Option Reservation → Pool → Pool
refund_pool name none p = p
refund_pool name (some r) p = if r.expired then p else record p {
  credits = some (known_credits p.credits + r.amount);
  reserved_credits = p.reserved_credits - r.amount;
  reservations = delete name p.reservations;
}

abbrev pub after_settling : SettleAction → ℕ → Pool → Pool
after_settling refund until p = p
after_settling cooldown until p = record p { cooldown_until = max until p.cooldown_until }
after_settling disabled until p = record p {
  is_disabled = true;
  credits = some 0;
  cooldown_until = 0;
}

-- SETTLE_SCRIPT.
unfoldable pub settle_pool : Text → SettleAction → ℕ → Pool → Pool
settle_pool name action until p =
    after_settling action until (refund_pool name (get name p.reservations) p)

-- The credits after a reservation of `estimated` turned out to use `actual`.
unfoldable pub corrected : ℕ → ℕ → ℕ → ℕ
corrected estimated actual credits =
    if ltb estimated actual
    then credits - min (actual - estimated) credits
    else credits + (estimated - actual)

abbrev pub use_reservation : Text → ℕ → Option Reservation → Pool → Pool
use_reservation name actual none p = p
use_reservation name actual (some r) p = if r.expired then p else record p {
  credits = some (corrected r.amount actual (known_credits p.credits));
  reserved_credits = p.reserved_credits - r.amount;
  reservations = delete name p.reservations;
}

-- ACTUAL_USAGE_SCRIPT.
unfoldable pub usage_pool : Text → ℕ → Pool → Pool
unfolding corrected
usage_pool name actual p = use_reservation name actual (get name p.reservations) p

-- The reservations that a credit report does not cover, made after its sequence number.
unfoldable pub pending_after : ℕ → List (Text × Reservation) → List (Text × Reservation)
pending_after sequence [] = []
pending_after sequence ((name, r) ∷ rs) =
    if not r.expired && ltb sequence r.sequence
    then (name, r) ∷ pending_after sequence rs
    else pending_after sequence rs

unfoldable pub amount_of : List (Text × Reservation) → ℕ
amount_of [] = 0
amount_of ((name, r) ∷ rs) = r.amount + amount_of rs

-- RECONCILE_SCRIPT.
unfoldable pub reconcile_pool : ℕ → ℕ → ℕ → ℕ → Pool → Pool
unfolding pending_after amount_of
reconcile_pool now snapshot sequence renews_at p =
    let pending = pending_after sequence p.reservations in
    record p {
      credits = some (snapshot - amount_of pending);
      reserved_credits = amount_of pending;
      is_disabled = leb snapshot 0;
      cooldown_until = if leb p.cooldown_until now then 0 else p.cooldown_until;
      renews_at = renews_at;
      reservations = pending;
    }

abbrev or_new : Option Pool → Pool
or_new none = new_pool
or_new (some p) = p

unfoldable pub pool_of : Text → Ledger → Pool
pool_of id l = or_new (get id l.pools)

unfoldable pub update_pool : Text → (Pool → Pool) → Ledger → Ledger
unfolding pool_of
update_pool id f l = record l { pools = set id (f (pool_of id l)) l.pools }

abbrev pub renewal_rank : ℕ → Option ℕ
renewal_rank renews_at = if ltb 0 renews_at then some (renews_at / ms_per_day) else none

abbrev pub funded_rank : ℕ → ℕ → Pool → Option ℕ → Option Rank
funded_rank now amount p none = none
funded_rank now amount p (some credits) =
    if not p.is_disabled && leb p.cooldown_until now && leb amount credits
    then some (record { day = renewal_rank p.renews_at; credits = credits })
    else none

-- The rank of a candidate, and none for a pool that is not eligible.
unfoldable pub ledger_rank : ℕ → ℕ → Ledger → ℕ × Text → Option Rank
unfolding pool_of
ledger_rank now amount l (index, id) = funded_rank now amount (pool_of id l) (pool_of id l).credits

unfoldable pub numbered : ℕ → List Text → List (ℕ × Text)
numbered n [] = []
numbered n (id ∷ ids) = (n, id) ∷ numbered (n + 1) ids

abbrev has_credits : Option ℕ → Bool
has_credits none = false
has_credits (some c) = true

unfoldable pub some_initialized : List Text → Ledger → Bool
unfolding pool_of
some_initialized [] l = false
some_initialized (id ∷ ids) l = has_credits (pool_of id l).credits || some_initialized ids l

module _ (name : ℕ → Text) (pick : ℕ → ℕ) where
  -- `ties[math.floor(random * #ties) + 1] or ties[1]`
  abbrev pub tie_or_first : Option (ℕ × Text) → List (ℕ × Text) → Option (ℕ × Text)
  tie_or_first (some c) ties = some c
  tie_or_first none [] = none
  tie_or_first none (c ∷ ties) = some c

  abbrev pub select_tie : Option (Choice (ℕ × Text)) → Option (ℕ × Text)
  select_tie none = none
  select_tie (some c) = tie_or_first (get_elem? c.ties (pick (length c.ties))) c.ties

  abbrev pub reserve_selected : ℕ → Ledger → Option (ℕ × Text) → LedgerReserveResult × Ledger
  reserve_selected amount l none = (no_capacity, l)
  reserve_selected amount l (some (index, id)) = (
    reserved index (name l.names_used),
    update_pool id (reserve_pool amount (name l.names_used))
        (record l { names_used = l.names_used + 1 }),
  )

  -- `reserve`, with the script; an empty list of keys is no ledger to ask.
  unfoldable pub ledger_reserve : ℕ → List Text → ℕ → Ledger → LedgerReserveResult × Ledger
  unfolding some_initialized numbered ledger_rank choose update_pool reserve_pool
  ledger_reserve now ids amount l =
      if not (some_initialized ids l)
      then (unavailable, l)
      else reserve_selected amount l
          (select_tie (choose (ledger_rank now amount l) (numbered 0 ids) none))

  -- The ledger that `CreditRoutingService` uses, as long as Redis answers.
  abbrev pub redis_ledger : LedgerStore Ledger
  redis_ledger = record {
    reserve_credits = ledger_reserve;
    capture = λ id l. (record { available = true; sequence = (pool_of id l).reserve_sequence }, l);
    settle = λ now id reservation action until l.
        update_pool id (settle_pool reservation action until) l;
    settle_actual_usage = λ id reservation used l. update_pool id (usage_pool reservation used) l;
    reconcile = λ now id snapshot sequence renews_at l.
        update_pool id (reconcile_pool now snapshot sequence renews_at) l;
  }
