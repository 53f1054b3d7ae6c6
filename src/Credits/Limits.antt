-- ===== src/Credits/Limits.antt =====
-- The steps of credits/credit-routing.service.ts that may run between two uses of a key, and what
-- they leave of the keys that are out of use.
use firecrawl_gateway.Prelude.{
  ℕ, ◌+◌, ◌≤◌, max, false, List, ◌∷◌, [], Option, none, some, leb, nat_eq, ◌===◌, ◌≡◌, get_elem?,
  refl, arith, Bool-cases, inl, inr,
}
use firecrawl_gateway.Prelude.Text.{Text, codes_eq}
use firecrawl_gateway.Credits.{
  Candidate, LedgerReserveResult, reserved, no_capacity, unavailable, take_local, take_reserved,
  on_ledger, reserve_among, ids_of, redis_failure_cooldown_ms, pick_tie, local_rank, candidates_of,
  CreditReservation, CreditRouting, LedgerStore, LedgerSnapshot, reserve, record_response,
  spend_locally, reserve_locally,
}
use firecrawl_gateway.Credits.Selection.{choose}
use firecrawl_gateway.Credits.Refresh.{UsageReply, apply_usage}

-- What routing knows of keys that are out of use.
pub record SameLimits (s t : CreditRouting) : Type 0 where
  pub same_disabled : t.local_disabled ≡ s.local_disabled
  pub same_cooldowns : t.local_cooldown_until ≡ s.local_cooldown_until

refl_SameLimits : (s : CreditRouting) → SameLimits s s
refl_SameLimits s = record { same_disabled = refl; same_cooldowns = refl }

spend_locally-SameLimits :
    (id : Text) (amount : ℕ) (s : CreditRouting) → SameLimits s (spend_locally id amount s)
unfolding spend_locally
spend_locally-SameLimits id amount s = ground arith

take_local-SameLimits :
    (amount : ℕ) (s : CreditRouting) (o : Option Candidate) → SameLimits s (take_local amount s o).1
take_local-SameLimits amount s none = refl_SameLimits s
take_local-SameLimits amount s (some c) = spend_locally-SameLimits c.key_id amount s

reserve_locally-SameLimits :
    (pick : ℕ → ℕ) (now : ℕ) (xs : List Candidate) (amount : ℕ) (s : CreditRouting)
    → SameLimits s (reserve_locally pick now xs amount s).1
unfolding reserve_locally
reserve_locally-SameLimits pick now xs amount s =
    take_local-SameLimits amount s (pick_tie pick (choose (local_rank s now) xs none))

module _ {L : Type 0} (store : LedgerStore L) (key_id : Text → Text) where
  take_reserved-SameLimits :
      (pick : ℕ → ℕ) (now later : ℕ) (xs : List Candidate) (amount : ℕ) (id : Text)
      (s : CreditRouting) (l : L) (o : Option Candidate)
      → SameLimits s (take_reserved store key_id pick now later xs amount id s l o).1
  take_reserved-SameLimits pick now later xs amount id s l none =
      reserve_locally-SameLimits pick later xs amount s
  take_reserved-SameLimits pick now later xs amount id s l (some c) = refl_SameLimits s

  on_ledger-SameLimits :
      (pick : ℕ → ℕ) (now later : ℕ) (xs : List Candidate) (amount : ℕ) (s : CreditRouting) (l : L)
      (result : LedgerReserveResult)
      → SameLimits s (on_ledger store key_id pick now later xs amount s result l).1
  on_ledger-SameLimits pick now later xs amount s l (reserved index id) = ground (
    arith,
    take_reserved-SameLimits pick now later xs amount id (record s { redis_unavailable_until = 0 })
        l (get_elem? xs index),
  )
  on_ledger-SameLimits pick now later xs amount s l no_capacity = refl_SameLimits s
  on_ledger-SameLimits pick now later xs amount s l unavailable = ground (
    arith,
    reserve_locally-SameLimits pick later xs amount
        (record s { redis_unavailable_until = later + redis_failure_cooldown_ms }),
  )

  reserve_among-SameLimits :
      (pick : ℕ → ℕ) (now later : ℕ) (xs : List Candidate) (amount : ℕ) (s : CreditRouting) (l : L)
      → SameLimits s (reserve_among store key_id pick now later xs amount s l).1
  reserve_among-SameLimits pick now later [] amount s l = refl_SameLimits s
  reserve_among-SameLimits pick now later (x ∷ xs) amount s l =
      elim (Bool-cases (leb s.redis_unavailable_until now)) [
        | inl b ↦ rw b (
            on_ledger-SameLimits pick now later (x ∷ xs) amount s
              (store.reserve_credits now (ids_of (x ∷ xs)) amount l).1
              (store.reserve_credits now (ids_of (x ∷ xs)) amount l).0)
        | inr b ↦ rw b (reserve_locally-SameLimits pick later (x ∷ xs) amount s)
      ]

  pub reserve-SameLimits :
      (pick : ℕ → ℕ) (now later : ℕ) (keys : List Text) (amount : ℕ) (excluded : List Text)
      (s : CreditRouting) (l : L)
      → SameLimits s (reserve store key_id pick now later keys amount excluded s l).1
  unfolding reserve
  reserve-SameLimits pick now later keys amount excluded s l =
      reserve_among-SameLimits pick now later (candidates_of key_id s now excluded keys)
        (max 1 amount) s l

  -- What other requests do to routing from the time `since` on. No credit report for the key `id`
  -- arrives.
  pub data Meanwhile (id : Text) (since : ℕ) (s : CreditRouting) : CreditRouting → Type 0 where
    nothing : Meanwhile id since s s
    then_reserve :
        (t : CreditRouting)
        → Meanwhile id since s t
        → (pick : ℕ → ℕ) (now later : ℕ) (keys : List Text) (amount : ℕ) (excluded : List Text)
          (l : L)
        → Meanwhile id since s (reserve store key_id pick now later keys amount excluded t l).1
    then_record :
        (t : CreditRouting)
        → Meanwhile id since s t
        → (now : ℕ) → since ≤ now
        → (r : CreditReservation) (status : ℕ) (used : Option ℕ) (l : L)
        → Meanwhile id since s (record_response store now r status used t l).0
    then_report :
        (t : CreditRouting)
        → Meanwhile id since s t
        → (parse_date : Text → Option ℕ) (now : ℕ) (other : Text) → (other === id) ≡ false
        → (snapshot : LedgerSnapshot) (reply : UsageReply) (l : L)
        → Meanwhile id since s (apply_usage store parse_date now other snapshot reply t l).0
