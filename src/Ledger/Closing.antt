-- ===== src/Ledger/Closing.antt =====
-- That a reservation of credits/credit-ledger.store.ts is settled once.
use firecrawl_gateway.Prelude.{
  ℕ, ◌+◌, Bool, false, not, List, [], ◌∷◌, Option, none, some, ◌===◌, nat_eq, ◌≡◌, refl, ap, ◌∙◌,
  arith, Bool-cases, inl, inr,
}
use firecrawl_gateway.Prelude.Text.{Text, codes_eq}
use firecrawl_gateway.Prelude.OrderedMap.{get, get-Fresh, get-set, delete, Distinct, get-delete}
use firecrawl_gateway.Credits.{SettleAction, refund, cooldown, disabled}
use firecrawl_gateway.Ledger.{
  Reservation, Pool, reserve_pool, refund_pool, after_settling, settle_pool, usage_pool,
  use_reservation, expire_reservation, pending_after, reconcile_pool,
}
use firecrawl_gateway.Ledger.Pools.{
  PoolHistory, PoolHistory-IsBalanced, PoolStep, reserve_step, settle_step, usage_step,
  reconcile_step, expire_step, then_step,
}

get-delete_self :
    (name : Text) (rs : List (Text × Reservation)) → Distinct rs → get name (delete name rs) ≡ none
get-delete_self name rs d = ground (arith, get-delete name name rs d, codes_eq.equal_iff name name)

-- An open reservation.
abbrev is_open : Option Reservation → Bool
is_open none = false
is_open (some r) = not r.expired

refund_pool-closed :
    (name : Text) (o : Option Reservation) (p : Pool) → is_open o ≡ false → refund_pool name o p ≡ p
refund_pool-closed name none p h = refl
refund_pool-closed name (some r) p h = elim (Bool-cases r.expired) [
  | inl e ↦ rw e
  | inr e ↦ ground (arith, h, e)
]

use_reservation-closed :
    (name : Text) (actual : ℕ) (o : Option Reservation) (p : Pool)
    → is_open o ≡ false
    → use_reservation name actual o p ≡ p
use_reservation-closed name actual none p h = refl
use_reservation-closed name actual (some r) p h = elim (Bool-cases r.expired) [
  | inl e ↦ rw e
  | inr e ↦ ground (arith, h, e)
]

refund_pool-closes :
    (name : Text) (o : Option Reservation) (p : Pool)
    → get name p.reservations ≡ o
    → Distinct p.reservations
    → is_open (get name (refund_pool name o p).reservations) ≡ false
refund_pool-closes name none p h d = rw h
refund_pool-closes name (some r) p h d = elim (Bool-cases r.expired) [
  | inl e ↦ rw (e, h, e)
  | inr e ↦ rw (e, get-delete_self name p.reservations d)
]

after_settling-reservations :
    (action : SettleAction) (until : ℕ) (p : Pool)
    → (after_settling action until p).reservations ≡ p.reservations
after_settling-reservations refund until p = refl
after_settling-reservations cooldown until p = refl
after_settling-reservations disabled until p = refl

settle_pool-closes :
    (name : Text) (action : SettleAction) (until : ℕ) (p : Pool)
    → Distinct p.reservations
    → is_open (get name (settle_pool name action until p).reservations) ≡ false
unfolding settle_pool
settle_pool-closes name action until p d =
    ap (λ rs. is_open (get name rs))
      (after_settling-reservations action until (refund_pool name (get name p.reservations) p))
    ∙ refund_pool-closes name (get name p.reservations) p refl d

usage_pool_closed :
    (name : Text) (actual : ℕ) (p : Pool)
    → is_open (get name p.reservations) ≡ false
    → usage_pool name actual p ≡ p
unfolding usage_pool
usage_pool_closed name actual p h = use_reservation-closed name actual (get name p.reservations) p h

use_reservation-closes :
    (name : Text) (actual : ℕ) (o : Option Reservation) (p : Pool)
    → get name p.reservations ≡ o
    → Distinct p.reservations
    → is_open (get name (use_reservation name actual o p).reservations) ≡ false
use_reservation-closes name actual none p h d = rw h
use_reservation-closes name actual (some r) p h d = elim (Bool-cases r.expired) [
  | inl e ↦ rw (e, h, e)
  | inr e ↦ rw (e, get-delete_self name p.reservations d)
]

-- Either way in which a call ends: its outcome is settled, or its true usage is reported.
pub data Settles (name : Text) (p : Pool) : Pool → Type 0 where
  by_outcome :
      (action : SettleAction) (until : ℕ) → Settles name p (settle_pool name action until p)
  by_usage : (actual : ℕ) → Settles name p (usage_pool name actual p)

-- A reservation that the step makes has another name.
abbrev pub Avoids : Text → {p q : Pool} → PoolStep p q → Type 0
Avoids name (reserve_step amount other h) = (other === name) ≡ false
Avoids name _ = Unit {0}

pub data Later (name : Text) (p : Pool) : Pool → Type 0 where
  at_once : Later name p p
  after_step : (q r : Pool) → Later name p q → (s : PoolStep q r) → Avoids name s → Later name p r

abbrev IsClosed : Text → Pool → Type 0
IsClosed name p = is_open (get name p.reservations) ≡ false

Settles-IsClosed :
    (name : Text) (p q : Pool) → Distinct p.reservations → Settles name p q → IsClosed name q
unfolding usage_pool
Settles-IsClosed name p _ d (by_outcome action until) = settle_pool-closes name action until p d
Settles-IsClosed name p _ d (by_usage actual) =
    use_reservation-closes name actual (get name p.reservations) p refl d

pending_after-IsClosed :
    (n : ℕ) (name : Text) (rs : List (Text × Reservation))
    → Distinct rs
    → is_open (get name rs) ≡ false
    → is_open (get name (pending_after n rs)) ≡ false
unfolding pending_after get
pending_after-IsClosed n name [] d c = refl
pending_after-IsClosed n name ((k, q) ∷ rs) d c =
    ground
      (arith, pending_after-IsClosed n name rs d.1, get-Fresh k rs d.0, codes_eq.equal_iff k name)

expire_reservation-IsClosed :
    (name other : Text) (rs : List (Text × Reservation))
    → is_open (get name rs) ≡ false
    → is_open (get name (expire_reservation other rs)) ≡ false
unfolding expire_reservation get
expire_reservation-IsClosed name other [] c = refl
expire_reservation-IsClosed name other ((k, q) ∷ rs) c =
    ground (arith, expire_reservation-IsClosed name other rs)

without-IsClosed :
    (name other : Text) (rs : List (Text × Reservation))
    → Distinct rs
    → is_open (get name rs) ≡ false
    → is_open (get name (delete other rs)) ≡ false
without-IsClosed name other rs d c = ground (arith, get-delete other name rs d)

refund_pool-IsClosed :
    (name other : Text) (o : Option Reservation) (p : Pool)
    → Distinct p.reservations
    → IsClosed name p
    → IsClosed name (refund_pool other o p)
refund_pool-IsClosed name other none p d c = c
refund_pool-IsClosed name other (some r) p d c = elim (Bool-cases r.expired) [
  | inl e ↦ rw e c
  | inr e ↦ rw e (without-IsClosed name other p.reservations d c)
]

use_reservation-IsClosed :
    (name other : Text) (actual : ℕ) (o : Option Reservation) (p : Pool)
    → Distinct p.reservations
    → IsClosed name p
    → IsClosed name (use_reservation other actual o p)
use_reservation-IsClosed name other actual none p d c = c
use_reservation-IsClosed name other actual (some r) p d c = elim (Bool-cases r.expired) [
  | inl e ↦ rw e c
  | inr e ↦ rw e (without-IsClosed name other p.reservations d c)
]

PoolStep-IsClosed :
    (name : Text) (p q : Pool) (s : PoolStep p q)
    → Avoids name s
    → Distinct p.reservations
    → IsClosed name p
    → IsClosed name q
unfolding reserve_pool settle_pool usage_pool reconcile_pool
PoolStep-IsClosed name p _ (reserve_step amount other h) a d c = ground (
  arith,
  a,
  get-set other name
      (record { amount = amount; sequence = p.reserve_sequence + 1; expired = false })
      p.reservations,
)
PoolStep-IsClosed name p _ (settle_step other action until) a d c =
    ap (λ rs. is_open (get name rs))
      (after_settling-reservations action until (refund_pool other (get other p.reservations) p))
    ∙ refund_pool-IsClosed name other (get other p.reservations) p d c
PoolStep-IsClosed name p _ (usage_step other actual) a d c =
    use_reservation-IsClosed name other actual (get other p.reservations) p d c
PoolStep-IsClosed name p _ (reconcile_step now snapshot sequence renews_at) a d c =
    pending_after-IsClosed sequence name p.reservations d c
PoolStep-IsClosed name p _ (expire_step other) a d c =
    expire_reservation-IsClosed name other p.reservations c

Settles-PoolHistory : (name : Text) (p q : Pool) → Settles name p q → PoolHistory p → PoolHistory q
Settles-PoolHistory name p _ (by_outcome action until) h =
    then_step p (settle_pool name action until p) h (settle_step name action until)
Settles-PoolHistory name p _ (by_usage actual) h =
    then_step p (usage_pool name actual p) h (usage_step name actual)

Later-PoolHistory : (name : Text) (p q : Pool) → Later name p q → PoolHistory p → PoolHistory q
Later-PoolHistory name p _ at_once h = h
Later-PoolHistory name p _ (after_step q r l s a) h =
    then_step q r (Later-PoolHistory name p q l h) s

Later-IsClosed :
    (name : Text) (p q : Pool) → PoolHistory p → Later name p q → IsClosed name p → IsClosed name q
Later-IsClosed name p _ h at_once c = c
Later-IsClosed name p _ h (after_step q r l s a) c =
    PoolStep-IsClosed name q r s a
      (PoolHistory-IsBalanced q (Later-PoolHistory name p q l h)).distinct
      (Later-IsClosed name p q h l c)

after_settling-reserved :
    (action : SettleAction) (until : ℕ) (p : Pool)
    → (after_settling action until p).reserved_credits ≡ p.reserved_credits
after_settling-reserved refund until p = refl
after_settling-reserved cooldown until p = refl
after_settling-reserved disabled until p = refl

-- A refund or a usage report changes nothing, and no settlement changes what is reserved.
pub record IsSettled (name : Text) (p : Pool) : Type 0 where
  pub refunded : (until : ℕ) → settle_pool name refund until p ≡ p
  pub reported : (actual : ℕ) → usage_pool name actual p ≡ p
  pub reserved :
      (action : SettleAction) (until : ℕ)
      → ((settle_pool name action until p).reserved_credits ≡ p.reserved_credits)
        × ((settle_pool name action until p).reservations ≡ p.reservations)

IsClosed-IsSettled : (name : Text) (p : Pool) → IsClosed name p → IsSettled name p
unfolding settle_pool usage_pool
IsClosed-IsSettled name p c =
    let same = refund_pool-closed name (get name p.reservations) p c in
    record {
      refunded = λ until. same;
      reported = λ actual. use_reservation-closed name actual (get name p.reservations) p c;
      reserved = λ action until. (
        after_settling-reserved action until (refund_pool name (get name p.reservations) p)
            ∙ ap (λ q. q.reserved_credits) same,
        after_settling-reservations action until (refund_pool name (get name p.reservations) p)
            ∙ ap (λ q. q.reservations) same,
      );
    }

-- A reservation is settled once. After its outcome has been settled or its true usage reported, in
-- any state that the scripts lead to, and whatever scripts and expiries follow that reserve under
-- other names, a refund or a usage report for it changes nothing, and no settlement for it changes
-- the reservations or the reserved credits.
pub Settles-IsSettled :
    (name : Text) (p q r : Pool)
    → PoolHistory p
    → Settles name p q
    → Later name q r
    → IsSettled name r
Settles-IsSettled name p q r h s l = IsClosed-IsSettled name r (
    Later-IsClosed name q r (Settles-PoolHistory name p q s h) l
      (Settles-IsClosed name p q (PoolHistory-IsBalanced p h).distinct s))
