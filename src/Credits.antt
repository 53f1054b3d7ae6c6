-- ===== src/Credits.antt =====
-- apps/api/src/credits/credit-routing.service.ts, class `CreditRoutingService`: which Cloud key a
-- request is charged to. The Redis ledger is the interface `LedgerStore`, `keyId` (an HMAC) and the
-- random pick are parameters, and credits are whole numbers that are not negative.
mod Tests
pub mod Selection
pub mod Chosen
pub mod Ties
pub mod Admission
pub mod Best
pub mod Limits
pub mod Resting
pub mod Cooling
pub mod Refresh
pub mod Usage
use firecrawl_gateway.Prelude.{
  ℕ, ◌+◌, ◌-◌, ◌/◌, ◌<◌, max, Bool, true, false, not, ◌&&◌, ◌||◌, List, [], ◌∷◌, Option, none, some,
  ltb, leb, HasEq, ◌===◌, nat_eq, nat_beq, arith, length, get_elem?, if◌then◌else◌,
}
use firecrawl_gateway.Prelude.Text.{Text, codes_eq}
use firecrawl_gateway.Prelude.OrderedMap.{get, set, delete}
use firecrawl_gateway.Prelude.Sets.{contains, add}
use Selection.{Rank, Choice, choose}

abbrev pub credit_key_cooldown_ms : ℕ
credit_key_cooldown_ms = 30000

abbrev pub redis_failure_cooldown_ms : ℕ
redis_failure_cooldown_ms = 5000

abbrev pub ms_per_day : ℕ
ms_per_day = 86400000

-- Where a reservation was made; only one of the ledger has a key to settle it by.
pub data Source : Type 0 where
  redis : Text → Source
  local_pool : Source

pub record CreditReservation : Type 0 where
  pub key : Text
  pub key_id : Text
  pub amount : ℕ
  pub source : Source

pub record LocalPool : Type 0 where
  pub renews_at : Option ℕ
  pub credits : Option ℕ

pub record CreditRouting : Type 0 where
  pub local_cooldown_until : List (Text × ℕ)
  pub local_disabled : List Text
  pub local_pools : List (Text × LocalPool)
  pub redis_unavailable_until : ℕ

abbrev pub new_routing : CreditRouting
new_routing = record {
  local_cooldown_until = [];
  local_disabled = [];
  local_pools = [];
  redis_unavailable_until = 0;
}

pub data LedgerReserveResult : Type 0 where
  reserved : ℕ → Text → LedgerReserveResult
  no_capacity unavailable : LedgerReserveResult

pub data SettleAction : Type 0 where
  refund cooldown disabled : SettleAction

pub record LedgerSnapshot : Type 0 where
  pub available : Bool
  pub sequence : ℕ

-- The operations of credits/credit-ledger.store.ts that routing calls, on a state `L`. The first
-- number of each is the time.
pub record LedgerStore (L : Type 0) : Type 0 where
  pub reserve_credits : ℕ → List Text → ℕ → L → LedgerReserveResult × L
  pub capture : Text → L → LedgerSnapshot × L
  pub settle : ℕ → Text → Text → SettleAction → ℕ → L → L
  pub settle_actual_usage : Text → Text → ℕ → L → L
  pub reconcile : ℕ → Text → ℕ → ℕ → ℕ → L → L

pub record Candidate : Type 0 where
  pub key : Text
  pub key_id : Text

-- `localCooldownUntil.get(keyId) || 0`.
abbrev pub or_zero : Option ℕ → ℕ
or_zero none = 0
or_zero (some n) = n

unfoldable pub cooldown_of : CreditRouting → Text → ℕ
cooldown_of s id = or_zero (get id s.local_cooldown_until)

unfoldable pub locally_usable : CreditRouting → ℕ → Text → Bool
unfolding cooldown_of
locally_usable s now id = not (contains id s.local_disabled) && leb (cooldown_of s id) now

abbrev renewal_day : Option ℕ → Option ℕ
renewal_day none = none
renewal_day (some t) = if t === 0 then none else some (t / ms_per_day)

abbrev credit_rank : Option ℕ → ℕ
credit_rank none = 0
credit_rank (some c) = c + 1

abbrev pool_rank : Option LocalPool → Rank
pool_rank none = record { day = none; credits = 0 }
pool_rank (some p) = record { day = renewal_day p.renews_at; credits = credit_rank p.credits }

-- The rank of a candidate, and none for one that is disabled or cools down.
unfoldable pub local_rank : CreditRouting → ℕ → Candidate → Option Rank
unfolding locally_usable
local_rank s now c =
    if locally_usable s now c.key_id then some (pool_rank (get c.key_id s.local_pools)) else none

abbrev pub lower : ℕ → Option ℕ → Option ℕ
lower amount none = none
lower amount (some c) = some (c - amount)

abbrev pub spend : ℕ → LocalPool → LocalPool
spend amount p = record p { credits = lower amount p.credits }

-- `pool.credits = Math.max(0, pool.credits - amount)`, for a pool that is known.
abbrev pub spend_known : Text → ℕ → CreditRouting → Option LocalPool → CreditRouting
spend_known id amount s none = s
spend_known id amount s (some p) = record s { local_pools = set id (spend amount p) s.local_pools }

unfoldable pub spend_locally : Text → ℕ → CreditRouting → CreditRouting
spend_locally id amount s = spend_known id amount s (get id s.local_pools)

-- `pick n` is `Math.floor(Math.random() * n)`.
abbrev pub PickLt : (ℕ → ℕ) → Type 0
PickLt pick = (n : ℕ) → 0 < n → pick n < n

abbrev pub take_local :
    ℕ → CreditRouting → Option Candidate → Option CreditReservation × CreditRouting
take_local amount s none = (none, s)
take_local amount s (some c) = (
  some (record { key = c.key; key_id = c.key_id; amount = amount; source = local_pool }),
  spend_locally c.key_id amount s,
)

abbrev pub pick_tie : (ℕ → ℕ) → Option (Choice Candidate) → Option Candidate
pick_tie pick none = none
pick_tie pick (some c) = get_elem? c.ties (pick (length c.ties))

unfoldable pub reserve_locally :
    (ℕ → ℕ) → ℕ → List Candidate → ℕ → CreditRouting → Option CreditReservation × CreditRouting
unfolding spend_locally choose local_rank
reserve_locally pick now candidates amount s =
    take_local amount s (pick_tie pick (choose (local_rank s now) candidates none))

-- The candidates of `reserve`: neither excluded, disabled nor cooling down.
unfoldable pub candidates_of :
    (Text → Text) → CreditRouting → ℕ → List Text → List Text → List Candidate
unfolding locally_usable
candidates_of key_id s now excluded [] = []
candidates_of key_id s now excluded (key ∷ keys) =
    if not (contains (key_id key) excluded) && locally_usable s now (key_id key)
    then record { key = key; key_id = key_id key } ∷ candidates_of key_id s now excluded keys
    else candidates_of key_id s now excluded keys

unfoldable pub ids_of : List Candidate → List Text
ids_of [] = []
ids_of (c ∷ cs) = c.key_id ∷ ids_of cs

-- `now` is the time at which `reserve` starts, `later` the time after the ledger has answered.
module _ {L : Type 0} (store : LedgerStore L) (key_id : Text → Text) (pick : ℕ → ℕ)
    (now later : ℕ) where
  abbrev pub then_locally :
      List Candidate → ℕ → CreditRouting → L → Option CreditReservation × CreditRouting × L
  then_locally candidates amount s l =
      let (r, s') = reserve_locally pick later candidates amount s in (r, s', l)

  abbrev pub take_reserved :
      List Candidate
      → ℕ
      → Text
      → CreditRouting
      → L
      → Option Candidate
      → Option CreditReservation × CreditRouting × L
  take_reserved candidates amount id s l none = then_locally candidates amount s l
  take_reserved candidates amount id s l (some c) =
      (some (record { key = c.key; key_id = c.key_id; amount = amount; source = redis id }), s, l)

  abbrev pub on_ledger :
      List Candidate
      → ℕ
      → CreditRouting
      → LedgerReserveResult
      → L
      → Option CreditReservation × CreditRouting × L
  on_ledger candidates amount s (reserved index id) l =
      take_reserved candidates amount id (record s { redis_unavailable_until = 0 }) l
        (get_elem? candidates index)
  on_ledger candidates amount s no_capacity l = (none, s, l)
  on_ledger candidates amount s unavailable l =
      then_locally candidates amount
        (record s { redis_unavailable_until = later + redis_failure_cooldown_ms }) l

  abbrev pub reserve_among :
      List Candidate → ℕ → CreditRouting → L → Option CreditReservation × CreditRouting × L
  reserve_among [] amount s l = (none, s, l)
  reserve_among (c ∷ cs) amount s l =
      if leb s.redis_unavailable_until now
      then (let (result, l') = store.reserve_credits now (ids_of (c ∷ cs)) amount l in
          on_ledger (c ∷ cs) amount s result l')
      else then_locally (c ∷ cs) amount s l

  unfoldable pub reserve :
      List Text → ℕ → List Text → CreditRouting → L → Option CreditReservation × CreditRouting × L
  unfolding ids_of candidates_of
  reserve api_keys amount excluded s l =
      reserve_among (candidates_of key_id s now excluded api_keys) (max 1 amount) s l

unfoldable pub disable_key : Text → CreditRouting → CreditRouting
disable_key id s = record s {
  local_disabled = add id s.local_disabled;
  local_cooldown_until = delete id s.local_cooldown_until;
}

unfoldable pub cool_key : ℕ → Text → CreditRouting → CreditRouting
cool_key now id s = record s {
  local_cooldown_until = set id (now + credit_key_cooldown_ms) s.local_cooldown_until;
}

-- `settle`, for a reservation of the ledger.
module _ {L : Type 0} (store : LedgerStore L) (now : ℕ) where
  abbrev settle_at : Source → Text → SettleAction → ℕ → L → L
  settle_at (redis id) key_id action until l = store.settle now key_id id action until l
  settle_at local_pool key_id action until l = l

  abbrev settle_source : CreditReservation → SettleAction → ℕ → L → L
  settle_source r action until l = settle_at r.source r.key_id action until l

  -- Without a number of credits, or with one that is not a safe integer, nothing is settled.
  abbrev settle_used : Source → Text → Option ℕ → L → L
  settle_used source key_id none l = l
  settle_used local_pool key_id (some used) l = l
  settle_used (redis id) key_id (some used) l =
      if leb used 9007199254740991 then store.settle_actual_usage key_id id used l else l

  unfoldable pub record_response :
      CreditReservation → ℕ → Option ℕ → CreditRouting → L → CreditRouting × L
  record_response r status used s l =
      if status === 402
      then (disable_key r.key_id s, settle_source r disabled 0 l)
      else if status === 429
      then (cool_key now r.key_id s, settle_source r cooldown (now + credit_key_cooldown_ms) l)
      else if status === 401 || status === 403
      then (s, settle_source r refund 0 l)
      else if leb 200 status && ltb status 300
      then (s, settle_used r.source r.key_id used l)
      else (s, l)
