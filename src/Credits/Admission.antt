-- ===== src/Credits/Admission.antt =====
-- What `CreditRoutingService.reserve` (credits/credit-routing.service.ts) may return.
use mathlib.Core.Option.{some-injective}
use firecrawl_gateway.Prelude.{
  ℕ, ◌+◌, max, true, false, List, [], ◌∷◌, Option, none, some, leb, nat_eq, ◌≡◌, refl, sym, subst,
  arith, length, get_elem?, All, All-get_elem, Bool-cases, inl, inr,
}
use firecrawl_gateway.Prelude.Text.{Text, codes_eq}
use firecrawl_gateway.Prelude.Sets.{contains}
use firecrawl_gateway.Credits.{
  take_local, take_reserved, on_ledger, reserve_among, ids_of, redis_failure_cooldown_ms,
  CreditReservation, CreditRouting, LedgerStore, LedgerReserveResult, reserved, no_capacity,
  unavailable, Candidate, locally_usable, local_rank, pick_tie, reserve_locally, candidates_of,
  reserve,
}
use firecrawl_gateway.Credits.Selection.{Rank, Choice, choose, IsBest}
use firecrawl_gateway.Credits.Chosen.{having-All, chosen-IsBest}

-- What every candidate of a call of `reserve` satisfies.
pub record IsCandidate (key_id : Text → Text) (s : CreditRouting) (now : ℕ)
    (api_keys excluded : List Text) (c : Candidate) : Type 0 where
  pub listed : contains c.key api_keys ≡ true
  pub own_id : c.key_id ≡ key_id c.key
  pub not_excluded : contains c.key_id excluded ≡ false
  pub usable : locally_usable s now c.key_id ≡ true

-- The reservation of one of the candidates.
pub record IsReservationOf (P : Candidate → Type 0) (amount : ℕ) (r : CreditReservation)
    : Type 0 where
  pub candidate : P (record { key = r.key; key_id = r.key_id })
  pub right_amount : r.amount ≡ amount

pick_tie-All :
    (P : Candidate → Type 0) (rank : Candidate → Option Rank) (pick : ℕ → ℕ) (xs : List Candidate)
    (c : Option (Choice Candidate)) (a : Candidate)
    → All P xs
    → IsBest rank xs c
    → pick_tie pick c ≡ some a
    → P a
pick_tie-All P rank pick xs none a h b e = ground arith
pick_tie-All P rank pick xs (some c) a h b e =
    All-get_elem P c.ties (pick (length c.ties)) a
      (subst (All P) (sym b.1) (having-All P rank c.best xs h)) e

candidates_of-IsCandidate :
    (key_id : Text → Text) (s : CreditRouting) (now : ℕ) (excluded : List Text)
    (all keys : List Text)
    → ((k : Text) → contains k keys ≡ true → contains k all ≡ true)
    → All (IsCandidate key_id s now all excluded) (candidates_of key_id s now excluded keys)
unfolding candidates_of contains
candidates_of-IsCandidate key_id s now excluded all [] h = tt
candidates_of-IsCandidate key_id s now excluded all (key ∷ keys) h =
    let rest =
      candidates_of-IsCandidate key_id s now excluded all keys (λ k t. h k (ground (arith, t))) in
    elim (Bool-cases (contains (key_id key) excluded)) [
      | inl e ↦ rw e rest
      | inr e ↦ elim (Bool-cases (locally_usable s now (key_id key))) [
        | inl u ↦
            rw (e, u)
              (
                record {
                  listed = h key (ground (arith, codes_eq.equal_iff key key));
                  own_id = refl;
                  not_excluded = e;
                  usable = u;
                },
                rest,
              )
        | inr u ↦ rw (e, u) rest
      ]
    ]

module _ (P : Candidate → Type 0) (amount : ℕ) (r : CreditReservation) where
  take_local-IsReservationOf :
      (s : CreditRouting) (o : Option Candidate)
      → ((c : Candidate) → o ≡ some c → P c)
      → (take_local amount s o).0 ≡ some r
      → IsReservationOf P amount r
  take_local-IsReservationOf s none h e = ground arith
  take_local-IsReservationOf s (some c) h e =
      subst (IsReservationOf P amount) (some-injective _ r e)
        (record { candidate = h c refl; right_amount = refl })

  reserve_locally-IsReservationOf :
      (pick : ℕ → ℕ) (now : ℕ) (xs : List Candidate) (s : CreditRouting)
      → All P xs
      → (reserve_locally pick now xs amount s).0 ≡ some r
      → IsReservationOf P amount r
  unfolding reserve_locally
  reserve_locally-IsReservationOf pick now xs s h e =
      take_local-IsReservationOf s (pick_tie pick (choose (local_rank s now) xs none))
        (λ c q.
          pick_tie-All P (local_rank s now) pick xs (choose (local_rank s now) xs none) c h
            (chosen-IsBest (local_rank s now) xs) q)
        e

  module _ {L : Type 0} (store : LedgerStore L) (key_id : Text → Text) (pick : ℕ → ℕ)
      (now later : ℕ) where
    take_reserved-IsReservationOf :
        (xs : List Candidate) (id : Text) (s : CreditRouting) (l : L) (o : Option Candidate)
        → All P xs
        → ((c : Candidate) → o ≡ some c → P c)
        → (take_reserved store key_id pick now later xs amount id s l o).0 ≡ some r
        → IsReservationOf P amount r
    take_reserved-IsReservationOf xs id s l none h k e =
        reserve_locally-IsReservationOf pick later xs s h e
    take_reserved-IsReservationOf xs id s l (some c) h k e =
        subst (IsReservationOf P amount) (some-injective _ r e)
          (record { candidate = k c refl; right_amount = refl })

    on_ledger-IsReservationOf :
        (xs : List Candidate) (s : CreditRouting) (l : L) (result : LedgerReserveResult)
        → All P xs
        → (on_ledger store key_id pick now later xs amount s result l).0 ≡ some r
        → IsReservationOf P amount r
    on_ledger-IsReservationOf xs s l (reserved index id) h e =
        take_reserved-IsReservationOf xs id (record s { redis_unavailable_until = 0 }) l
          (get_elem? xs index) h (λ c q. All-get_elem P xs index c h q) e
    on_ledger-IsReservationOf xs s l no_capacity h e = ground arith
    on_ledger-IsReservationOf xs s l unavailable h e =
        reserve_locally-IsReservationOf pick later xs
          (record s { redis_unavailable_until = later + redis_failure_cooldown_ms }) h e

    reserve_among-IsReservationOf :
        (xs : List Candidate) (s : CreditRouting) (l : L)
        → All P xs
        → (reserve_among store key_id pick now later xs amount s l).0 ≡ some r
        → IsReservationOf P amount r
    reserve_among-IsReservationOf [] s l h e = ground arith
    reserve_among-IsReservationOf (x ∷ xs) s l h e =
        elim (Bool-cases (leb s.redis_unavailable_until now)) [
          | inl b ↦
              on_ledger-IsReservationOf (x ∷ xs) s
                (store.reserve_credits now (ids_of (x ∷ xs)) amount l).1
                (store.reserve_credits now (ids_of (x ∷ xs)) amount l).0 h (rw b at e)
          | inr b ↦ reserve_locally-IsReservationOf pick later (x ∷ xs) s h (rw b at e)
        ]

module _ {L : Type 0} (store : LedgerStore L) (key_id : Text → Text) (pick : ℕ → ℕ)
    (now later : ℕ) where
  -- A reservation is for one of the given keys under its own id, which is not excluded and was
  -- neither disabled nor cooling down when `reserve` started, and it is for the amount asked for,
  -- at least 1; whatever the ledger answers.
  pub reserve-IsReservationOf :
      (api_keys excluded : List Text) (amount : ℕ) (s : CreditRouting) (l : L)
      (r : CreditReservation)
      → (reserve store key_id pick now later api_keys amount excluded s l).0 ≡ some r
      → IsReservationOf (IsCandidate key_id s now api_keys excluded) (max 1 amount) r
  unfolding reserve
  reserve-IsReservationOf api_keys excluded amount s l r e =
      reserve_among-IsReservationOf (IsCandidate key_id s now api_keys excluded) (max 1 amount) r
        store key_id pick now later (candidates_of key_id s now excluded api_keys) s l
        (candidates_of-IsCandidate key_id s now excluded api_keys api_keys (λ k h. h)) e
