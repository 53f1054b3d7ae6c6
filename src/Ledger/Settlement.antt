-- ===== src/Ledger/Settlement.antt =====
-- How reservations of credits/credit-ledger.store.ts are settled and reported.
use firecrawl_gateway.Prelude.{
  ℕ, ◌+◌, ◌-◌, ◌<◌, ◌≤◌, false, not, ◌&&◌, List, [], ◌∷◌, ◌++◌, none, some, ltb, ◌===◌, nat_eq, ◌≡◌,
  refl, ap, ◌∙◌, arith, Bool-cases, inl, inr,
}
use firecrawl_gateway.Prelude.Text.{Text, codes_eq}
use firecrawl_gateway.Prelude.OrderedMap.{get, set, delete, Fresh-get, set_absent, get-set_self}
use firecrawl_gateway.Credits.{refund}
use firecrawl_gateway.Ledger.{
  Reservation, Pool, reserve_pool, settle_pool, usage_pool, corrected, pending_after, amount_of,
  reconcile_pool, known_credits,
}
use firecrawl_gateway.Ledger.Pools.{PoolHistory, PoolHistory-IsBalanced}
use firecrawl_gateway.Ledger.Reservations.{Numbered}

delete_last :
    (name : Text) (r : Reservation) (rs : List (Text × Reservation))
    → get name rs ≡ none
    → delete name (set name r rs) ≡ rs
unfolding get set delete
delete_last name r [] h = ground (arith, codes_eq.equal_iff name name)
delete_last name r ((j, q) ∷ rs) h = elim (Bool-cases (j === name)) [
  | inl e ↦ ground (arith, rw e at h)
  | inr e ↦ rw (e, e) (ap (λ l. (j, q) ∷ l) (delete_last name r rs (rw e at h)))
]

-- What a refund or a report of the true usage does to the pool as it was before the reservation.
abbrev pub SameButCredits : Pool → Pool → ℕ → Type 0
SameButCredits p q credits =
    (q.credits ≡ some credits)
    × (q.reserved_credits ≡ p.reserved_credits)
    × (q.reservations ≡ p.reservations)

-- A refund gives back what the reservation took: the credits, the reserved credits and the list of
-- reservations are those before it. The pool has credits for the amount, and the name is new.
pub settle_pool-reserve_pool :
    (amount : ℕ) (name : Text) (until : ℕ) (p : Pool)
    → get name p.reservations ≡ none
    → amount ≤ known_credits p.credits
    → SameButCredits p
        (settle_pool name refund until (reserve_pool amount name p))
        (known_credits p.credits)
unfolding settle_pool reserve_pool
settle_pool-reserve_pool amount name until p h k =
    let r : Reservation = record {
      amount = amount;
      sequence = p.reserve_sequence + 1;
      expired = false;
    } in
    rw (get-set_self name r p.reservations)
      (ap some (omega (arith, k)), omega arith, delete_last name r p.reservations h)

-- A report of the true usage leaves the pool with its credits before the reservation less the
-- credits used, and never with less than none. The pool has credits for the amount, and the name is
-- new.
pub usage_pool-reserve_pool :
    (amount actual : ℕ) (name : Text) (p : Pool)
    → get name p.reservations ≡ none
    → amount ≤ known_credits p.credits
    → SameButCredits p
        (usage_pool name actual (reserve_pool amount name p))
        (known_credits p.credits - actual)
unfolding usage_pool reserve_pool corrected
usage_pool-reserve_pool amount actual name p h k =
    let r : Reservation = record {
      amount = amount;
      sequence = p.reserve_sequence + 1;
      expired = false;
    } in
    rw (get-set_self name r p.reservations)
      (ap some (ground (arith, k)), omega arith, delete_last name r p.reservations h)

pending_after-append :
    (n : ℕ) (rs ss : List (Text × Reservation))
    → pending_after n (rs ++ ss) ≡ pending_after n rs ++ pending_after n ss
unfolding pending_after
pending_after-append n [] ss = refl
pending_after-append n ((k, q) ∷ rs) ss = elim (Bool-cases (not q.expired && ltb n q.sequence)) [
  | inl e ↦ rw e (ap (λ l. (k, q) ∷ l) (pending_after-append n rs ss))
  | inr e ↦ rw e (pending_after-append n rs ss)
]

pending_after-Numbered_nil :
    (n : ℕ) (rs : List (Text × Reservation)) → Numbered n rs → pending_after n rs ≡ []
unfolding pending_after
pending_after-Numbered_nil n [] h = refl
pending_after-Numbered_nil n ((k, q) ∷ rs) h =
    elim (Bool-cases (not q.expired && ltb n q.sequence)) [
      | inl e ↦ ground (arith, e, h.0)
      | inr e ↦ rw e (pending_after-Numbered_nil n rs h.1)
    ]

pending_after_last :
    (n : ℕ) (name : Text) (r : Reservation)
    → r.expired ≡ false
    → n < r.sequence
    → (pending_after n ((name, r) ∷ []) ≡ (name, r) ∷ []) × (amount_of ((name, r) ∷ []) ≡ r.amount)
unfolding pending_after amount_of
pending_after_last n name r e h = (ground (arith, e), omega arith)

-- A report whose sequence number was captured before a reservation covers all the earlier ones and
-- not this one: what it makes of the pool are the reported credits less this reservation's
-- amount, which alone stays reserved, in every state that the scripts lead to. The name is new.
pub reconcile_pool-reserve_pool :
    (now snapshot renews_at amount : ℕ) (name : Text) (p : Pool)
    → PoolHistory p
    → get name p.reservations ≡ none
    → let q =
        reconcile_pool now snapshot p.reserve_sequence renews_at (reserve_pool amount name p) in
      (q.credits ≡ some (snapshot - amount)) × (q.reserved_credits ≡ amount)
unfolding reconcile_pool reserve_pool
reconcile_pool-reserve_pool now snapshot renews_at amount name p h k =
    let r : Reservation = record {
      amount = amount;
      sequence = p.reserve_sequence + 1;
      expired = false;
    } in
    let (l, a) = pending_after_last p.reserve_sequence name r refl (omega arith) in
    let e : pending_after p.reserve_sequence (set name r p.reservations) ≡ (name, r) ∷ [] =
      ap (pending_after p.reserve_sequence)
        (set_absent name r p.reservations (Fresh-get name p.reservations k))
      ∙ pending_after-append p.reserve_sequence p.reservations ((name, r) ∷ [])
      ∙ ap (λ x. x ++ pending_after p.reserve_sequence ((name, r) ∷ []))
          (pending_after-Numbered_nil p.reserve_sequence p.reservations
            (PoolHistory-IsBalanced p h).numbered)
      ∙ l in
    let b = ap amount_of e ∙ a in (ap (λ x. some (snapshot - x)) b, b)
