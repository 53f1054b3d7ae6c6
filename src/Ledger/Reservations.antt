-- ===== src/Ledger/Reservations.antt =====
-- The reservations that the scripts of credits/credit-ledger.store.ts keep of one pool.
use mathlib.Core.Option.{some-injective}
use firecrawl_gateway.Prelude.{
  ℕ, ◌+◌, ◌≤◌, not, ◌&&◌, List, [], ◌∷◌, ◌++◌, some, ltb, ◌===◌, nat_eq, ◌≡◌, refl, ap, arith,
  Bool-cases, inl, inr,
}
use firecrawl_gateway.Prelude.Text.{Text, codes_eq}
use firecrawl_gateway.Prelude.OrderedMap.{get, delete, Fresh, Distinct}
use firecrawl_gateway.Ledger.{Reservation, pending_after, amount_of, expire_reservation}

-- No reservation is numbered above the pool's sequence.
abbrev pub Numbered : ℕ → List (Text × Reservation) → Type 0
Numbered n [] = Unit {0}
Numbered n ((name, r) ∷ rs) = (r.sequence ≤ n) × Numbered n rs

pub amount_of-append :
    (rs ss : List (Text × Reservation)) → amount_of (rs ++ ss) ≡ amount_of rs + amount_of ss
unfolding amount_of
amount_of-append [] ss = omega arith
amount_of-append ((name, r) ∷ rs) ss = omega (arith, amount_of-append rs ss)

pub amount_of-delete :
    (name : Text) (r : Reservation) (rs : List (Text × Reservation))
    → get name rs ≡ some r
    → amount_of (delete name rs) + r.amount ≡ amount_of rs
unfolding amount_of get delete
amount_of-delete name r [] h = ground arith
amount_of-delete name r ((j, q) ∷ rs) h = elim (Bool-cases (j === name)) [
  | inl e ↦
      rw e (omega (arith, ap (λ (x : Reservation). x.amount) (some-injective q r (rw e at h))))
  | inr e ↦ rw e (omega (arith, amount_of-delete name r rs (rw e at h)))
]

pub Numbered-append :
    (m n : ℕ) (name : Text) (r : Reservation) (rs : List (Text × Reservation))
    → m ≤ n
    → r.sequence ≤ n
    → Numbered m rs
    → Numbered n (rs ++ (name, r) ∷ [])
Numbered-append m n name r [] h k v = (k, tt)
Numbered-append m n name r ((j, q) ∷ rs) h k v =
    (omega (arith, v.0), Numbered-append m n name r rs h k v.1)

pub Numbered-delete :
    (n : ℕ) (name : Text) (rs : List (Text × Reservation))
    → Numbered n rs
    → Numbered n (delete name rs)
unfolding delete
Numbered-delete n name [] v = tt
Numbered-delete n name ((j, q) ∷ rs) v = elim (Bool-cases (j === name)) [
  | inl e ↦ rw e v.1
  | inr e ↦ rw e (v.0, Numbered-delete n name rs v.1)
]

pending_after-Fresh :
    (n : ℕ) (j : Text) (rs : List (Text × Reservation)) → Fresh j rs → Fresh j (pending_after n rs)
unfolding pending_after
pending_after-Fresh n j [] h = tt
pending_after-Fresh n j ((k, q) ∷ rs) h = elim (Bool-cases (not q.expired && ltb n q.sequence)) [
  | inl e ↦ rw e (h.0, pending_after-Fresh n j rs h.1)
  | inr e ↦ rw e (pending_after-Fresh n j rs h.1)
]

pub pending_after-Distinct :
    (n : ℕ) (rs : List (Text × Reservation)) → Distinct rs → Distinct (pending_after n rs)
unfolding pending_after
pending_after-Distinct n [] h = tt
pending_after-Distinct n ((k, q) ∷ rs) h = elim (Bool-cases (not q.expired && ltb n q.sequence)) [
  | inl e ↦ rw e (pending_after-Fresh n k rs h.0, pending_after-Distinct n rs h.1)
  | inr e ↦ rw e (pending_after-Distinct n rs h.1)
]

pub pending_after-Numbered :
    (n m : ℕ) (rs : List (Text × Reservation)) → Numbered m rs → Numbered m (pending_after n rs)
unfolding pending_after
pending_after-Numbered n m [] h = tt
pending_after-Numbered n m ((k, q) ∷ rs) h = elim (Bool-cases (not q.expired && ltb n q.sequence)) [
  | inl e ↦ rw e (h.0, pending_after-Numbered n m rs h.1)
  | inr e ↦ rw e (pending_after-Numbered n m rs h.1)
]

expire_reservation-Fresh :
    (name j : Text) (rs : List (Text × Reservation))
    → Fresh j rs
    → Fresh j (expire_reservation name rs)
unfolding expire_reservation
expire_reservation-Fresh name j [] h = tt
expire_reservation-Fresh name j ((k, q) ∷ rs) h = elim (Bool-cases (k === name)) [
  | inl e ↦ rw e (h.0, h.1)
  | inr e ↦ rw e (h.0, expire_reservation-Fresh name j rs h.1)
]

pub expire_reservation-Distinct :
    (name : Text) (rs : List (Text × Reservation))
    → Distinct rs
    → Distinct (expire_reservation name rs)
unfolding expire_reservation
expire_reservation-Distinct name [] h = tt
expire_reservation-Distinct name ((k, q) ∷ rs) h = elim (Bool-cases (k === name)) [
  | inl e ↦ rw e (h.0, h.1)
  | inr e ↦ rw e (expire_reservation-Fresh name k rs h.0, expire_reservation-Distinct name rs h.1)
]

pub expire_reservation-Numbered :
    (name : Text) (n : ℕ) (rs : List (Text × Reservation))
    → Numbered n rs
    → Numbered n (expire_reservation name rs)
unfolding expire_reservation
expire_reservation-Numbered name n [] h = tt
expire_reservation-Numbered name n ((k, q) ∷ rs) h = elim (Bool-cases (k === name)) [
  | inl e ↦ rw e (h.0, h.1)
  | inr e ↦ rw e (h.0, expire_reservation-Numbered name n rs h.1)
]

pub amount_of-expire :
    (name : Text) (rs : List (Text × Reservation))
    → amount_of (expire_reservation name rs) ≡ amount_of rs
unfolding expire_reservation amount_of
amount_of-expire name [] = refl
amount_of-expire name ((k, q) ∷ rs) = elim (Bool-cases (k === name)) [
  | inl e ↦ rw e
  | inr e ↦ rw e (ap (λ n. q.amount + n) (amount_of-expire name rs))
]
