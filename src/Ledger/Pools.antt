-- ===== src/Ledger/Pools.antt =====
-- What the scripts of credits/credit-ledger.store.ts keep of one pool.
use firecrawl_gateway.Prelude.{
  ℕ, ◌+◌, ◌-◌, false, [], ◌∷◌, Option, none, some, nat_eq, ◌≡◌, refl, sym, ap, ◌∙◌, subst, arith,
  Bool-cases, inl, inr,
}
use firecrawl_gateway.Prelude.Text.{Text, codes_eq}
use firecrawl_gateway.Prelude.OrderedMap.{
  get, delete, Distinct, Fresh-get, set_absent, set-Distinct, delete-Distinct,
}
use firecrawl_gateway.Credits.{SettleAction, refund, cooldown, disabled}
use firecrawl_gateway.Ledger.{
  Reservation, Pool, reserve_pool, refund_pool, after_settling, settle_pool, usage_pool,
  use_reservation, amount_of, reconcile_pool, known_credits, new_pool, corrected, expire_pool,
}
use firecrawl_gateway.Ledger.Reservations.{
  Numbered, amount_of-append, amount_of-delete, Numbered-append, Numbered-delete,
  pending_after-Distinct, pending_after-Numbered, expire_reservation-Distinct,
  expire_reservation-Numbered, amount_of-expire,
}

pub record IsBalanced (p : Pool) : Type 0 where
  pub balanced : p.reserved_credits ≡ amount_of p.reservations
  pub distinct : Distinct p.reservations
  pub numbered : Numbered p.reserve_sequence p.reservations

one_more :
    (amount : ℕ) (name : Text) (r : Reservation)
    → r.amount ≡ amount
    → (n : ℕ) → n + amount_of ((name, r) ∷ []) ≡ n + amount
unfolding amount_of
one_more amount name r e n = omega (arith, e)

reserve_pool-IsBalanced :
    (amount : ℕ) (name : Text) (p : Pool)
    → get name p.reservations ≡ none
    → IsBalanced p
    → IsBalanced (reserve_pool amount name p)
unfolding reserve_pool
reserve_pool-IsBalanced amount name p h v =
    let r : Reservation = record {
      amount = amount;
      sequence = p.reserve_sequence + 1;
      expired = false;
    } in
    let e = set_absent name r p.reservations (Fresh-get name p.reservations h) in
    record {
      balanced =
          ap (λ n. n + amount) v.balanced
          ∙ sym (
              ap amount_of e
              ∙ amount_of-append p.reservations ((name, r) ∷ [])
              ∙ one_more amount name r refl (amount_of p.reservations));
      distinct = set-Distinct name r p.reservations v.distinct;
      numbered = subst (Numbered (p.reserve_sequence + 1)) (sym e) (
          Numbered-append p.reserve_sequence (p.reserve_sequence + 1) name r p.reservations
            (omega arith) (omega arith) v.numbered);
    }

after_settling-IsBalanced :
    (action : SettleAction) (until : ℕ) (p : Pool)
    → IsBalanced p
    → IsBalanced (after_settling action until p)
after_settling-IsBalanced refund until p v = v
after_settling-IsBalanced cooldown until p v = record {
  balanced = v.balanced;
  distinct = v.distinct;
  numbered = v.numbered;
}
after_settling-IsBalanced disabled until p v = record {
  balanced = v.balanced;
  distinct = v.distinct;
  numbered = v.numbered;
}

-- A pool without a reservation, whatever its credits become.
without_reservation-IsBalanced :
    (name : Text) (r : Reservation) (credits : ℕ) (p : Pool)
    → get name p.reservations ≡ some r
    → IsBalanced p
    → IsBalanced (record p {
      credits = some credits;
      reserved_credits = p.reserved_credits - r.amount;
      reservations = delete name p.reservations;
    })
without_reservation-IsBalanced name r credits p h v = record {
  balanced = omega (arith, v.balanced, amount_of-delete name r p.reservations h);
  distinct = delete-Distinct name p.reservations v.distinct;
  numbered = Numbered-delete p.reserve_sequence name p.reservations v.numbered;
}

refund_pool-IsBalanced :
    (name : Text) (o : Option Reservation) (p : Pool)
    → get name p.reservations ≡ o
    → IsBalanced p
    → IsBalanced (refund_pool name o p)
refund_pool-IsBalanced name none p h v = v
refund_pool-IsBalanced name (some r) p h v = elim (Bool-cases r.expired) [
  | inl e ↦ rw e v
  | inr e ↦ rw e (without_reservation-IsBalanced name r (known_credits p.credits + r.amount) p h v)
]

use_reservation-IsBalanced :
    (name : Text) (actual : ℕ) (o : Option Reservation) (p : Pool)
    → get name p.reservations ≡ o
    → IsBalanced p
    → IsBalanced (use_reservation name actual o p)
use_reservation-IsBalanced name actual none p h v = v
use_reservation-IsBalanced name actual (some r) p h v = elim (Bool-cases r.expired) [
  | inl e ↦ rw e v
  | inr e ↦ rw e (
      without_reservation-IsBalanced name r (corrected r.amount actual (known_credits p.credits)) p
        h v)
]

-- What happens to one pool: the scripts, and the expiry of a reservation.
pub data PoolStep (p : Pool) : Pool → Type 0 where
  reserve_step :
      (amount : ℕ) (name : Text)
      → get name p.reservations ≡ none
      → PoolStep p (reserve_pool amount name p)
  settle_step :
      (name : Text) (action : SettleAction) (until : ℕ)
      → PoolStep p (settle_pool name action until p)
  usage_step : (name : Text) (actual : ℕ) → PoolStep p (usage_pool name actual p)
  reconcile_step :
      (now snapshot sequence renews_at : ℕ)
      → PoolStep p (reconcile_pool now snapshot sequence renews_at p)
  expire_step : (name : Text) → PoolStep p (expire_pool name p)

pub data PoolHistory : Pool → Type 0 where
  unused : PoolHistory new_pool
  then_step : (p q : Pool) → PoolHistory p → PoolStep p q → PoolHistory q

PoolStep-IsBalanced : (p q : Pool) → PoolStep p q → IsBalanced p → IsBalanced q
unfolding settle_pool usage_pool reconcile_pool
PoolStep-IsBalanced p _ (reserve_step amount name h) v = reserve_pool-IsBalanced amount name p h v
PoolStep-IsBalanced p _ (settle_step name action until) v =
    after_settling-IsBalanced action until (refund_pool name (get name p.reservations) p)
      (refund_pool-IsBalanced name (get name p.reservations) p refl v)
PoolStep-IsBalanced p _ (usage_step name actual) v =
    use_reservation-IsBalanced name actual (get name p.reservations) p refl v
PoolStep-IsBalanced p _ (reconcile_step now snapshot sequence renews_at) v = record {
  balanced = refl;
  distinct = pending_after-Distinct sequence p.reservations v.distinct;
  numbered = pending_after-Numbered sequence p.reserve_sequence p.reservations v.numbered;
}
PoolStep-IsBalanced p _ (expire_step name) v = record {
  balanced = v.balanced ∙ sym (amount_of-expire name p.reservations);
  distinct = expire_reservation-Distinct name p.reservations v.distinct;
  numbered = expire_reservation-Numbered name p.reserve_sequence p.reservations v.numbered;
}

-- After any sequence of scripts and expiries a pool's reserved credits are the sum of its reservations, no two
-- reservations have one name, and none is numbered above the pool's sequence, as long as a new
-- reservation takes a new name.
pub PoolHistory-IsBalanced : (p : Pool) → PoolHistory p → IsBalanced p
unfolding amount_of
PoolHistory-IsBalanced _ unused = record { balanced = refl; distinct = tt; numbered = tt }
PoolHistory-IsBalanced _ (then_step p q h s) =
    PoolStep-IsBalanced p q s (PoolHistory-IsBalanced p h)
