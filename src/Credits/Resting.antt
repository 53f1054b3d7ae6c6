-- ===== src/Credits/Resting.antt =====
-- How `recordResponse` (credits/credit-routing.service.ts) lets a key rest that Cloud limits, while
-- other requests go on.
use firecrawl_gateway.Prelude.{
  ℕ, ◌+◌, ◌<◌, ◌≤◌, true, false, ◌&&◌, ltb, ◌||◌, List, Option, none, some, leb, nat_eq, ◌===◌, ◌≡◌,
  ◌≢◌, ◌⊎◌, refl, sym, subst, arith, Bool-cases, inl, inr,
}
use firecrawl_gateway.Prelude.Text.{Text, codes_eq}
use firecrawl_gateway.Prelude.OrderedMap.{set, get-set, get-delete_other}
use firecrawl_gateway.Prelude.Sets.{contains, contains-add, contains_self, contains-remove}
use firecrawl_gateway.Credits.{
  disable_key, cool_key, CreditReservation, CreditRouting, LedgerStore, LedgerSnapshot, cooldown_of,
  locally_usable, credit_key_cooldown_ms, reserve, record_response,
}
use firecrawl_gateway.Credits.Refresh.{UsageReply, failed, usage, apply_usage, reenable, renewal}
use firecrawl_gateway.Credits.Admission.{reserve-IsReservationOf}
use firecrawl_gateway.Credits.Limits.{
  SameLimits, reserve-SameLimits, Meanwhile, nothing, then_reserve, then_record, then_report,
}

module _ {L : Type 0} (store : LedgerStore L) (key_id : Text → Text) where
  -- The key is disabled, or cools down until a time.
  abbrev Rests : Text → ℕ → CreditRouting → Type 0
  Rests id until s = (contains id s.local_disabled ≡ true) ⊎ (until ≤ cooldown_of s id)

  pub record_response_cases :
      (now : ℕ) (r : CreditReservation) (status : ℕ) (used : Option ℕ) (s : CreditRouting) (l : L)
      → let t = (record_response store now r status used s l).0 in
        (t ≡ disable_key r.key_id s) ⊎ (t ≡ cool_key now r.key_id s) ⊎ (t ≡ s)
  unfolding record_response
  record_response_cases now r status used s l = elim (Bool-cases (status === 402)) [
    | inl a ↦ rw a (inl refl)
    | inr a ↦ elim (Bool-cases (status === 429)) [
      | inl b ↦ rw (a, b) (inr (inl refl))
      | inr b ↦ elim (Bool-cases (status === 401 || status === 403)) [
        | inl c ↦ rw (a, b, c) (inr (inr refl))
        | inr c ↦ elim (Bool-cases (leb 200 status && ltb status 300)) [
          | inl d ↦ rw (a, b, c, d) (inr (inr refl))
          | inr d ↦ rw (a, b, c, d) (inr (inr refl))
        ]
      ]
    ]
  ]

  disable_key-Rests :
      (id other : Text) (until : ℕ) (s : CreditRouting)
      → Rests id until s
      → Rests id until (disable_key other s)
  unfolding disable_key cooldown_of
  disable_key-Rests id other until s v = ground (
    arith,
    contains_self other s.local_disabled,
    contains-add id other s.local_disabled,
    codes_eq.equal_iff other id,
    get-delete_other other id s.local_cooldown_until,
  )

  cool_key-Rests :
      (id other : Text) (until now : ℕ) (s : CreditRouting)
      → until ≤ now + credit_key_cooldown_ms
      → Rests id until s
      → Rests id until (cool_key now other s)
  unfolding cool_key cooldown_of
  cool_key-Rests id other until now s h v =
      ground (arith, get-set other id (now + credit_key_cooldown_ms) s.local_cooldown_until)

  record_response-Rests :
      (id : Text) (until now : ℕ) (r : CreditReservation) (status : ℕ) (used : Option ℕ)
      (s : CreditRouting) (l : L)
      → until ≤ now + credit_key_cooldown_ms
      → Rests id until s
      → Rests id until (record_response store now r status used s l).0
  record_response-Rests id until now r status used s l h v =
      elim (record_response_cases now r status used s l) [
        | inl e ↦ subst (Rests id until) (sym e) (disable_key-Rests id r.key_id until s v)
        | inr (inl e) ↦ subst (Rests id until) (sym e) (cool_key-Rests id r.key_id until now s h v)
        | inr (inr e) ↦ subst (Rests id until) (sym e) v
      ]

  reenable-Rests :
      (id other : Text) (until now remaining : ℕ) (s : CreditRouting)
      → (other === id) ≡ false
      → Rests id until s
      → Rests id until (reenable now other remaining s)
  unfolding reenable cooldown_of
  reenable-Rests id other until now remaining s h v = ground (
    arith,
    contains-add id other s.local_disabled,
    contains-remove id other s.local_disabled,
    get-delete_other other id s.local_cooldown_until,
  )

  apply_usage-Rests :
      (parse_date : Text → Option ℕ) (now : ℕ) (id other : Text) (until : ℕ)
      (snapshot : LedgerSnapshot) (reply : UsageReply) (s : CreditRouting) (l : L)
      → (other === id) ≡ false
      → Rests id until s
      → Rests id until (apply_usage store parse_date now other snapshot reply s l).0
  unfolding apply_usage
  apply_usage-Rests parse_date now id other until snapshot (failed message) s l h v = v
  apply_usage-Rests parse_date now id other until snapshot (usage none plan start stop) s l h v = v
  apply_usage-Rests parse_date now id other until snapshot (usage (some n) plan start stop) s l h
        v =
      reenable-Rests id other until now n
        (record s {
          local_pools =
              set other (record { renews_at = renewal parse_date stop; credits = some n })
                s.local_pools;
        })
        h v

  SameLimits-Rests :
      (id : Text) (until : ℕ) (s t : CreditRouting)
      → SameLimits s t
      → Rests id until s
      → Rests id until t
  unfolding cooldown_of
  SameLimits-Rests id until s t h v = ground (arith, h.same_disabled, h.same_cooldowns)

  Meanwhile-Rests :
      (id : Text) (since : ℕ) (s t : CreditRouting)
      → Meanwhile store key_id id since s t
      → Rests id (since + credit_key_cooldown_ms) s
      → Rests id (since + credit_key_cooldown_ms) t
  Meanwhile-Rests id since s _ nothing v = v
  Meanwhile-Rests id since s _ (then_reserve t m pick now later keys amount excluded l) v =
      SameLimits-Rests id (since + credit_key_cooldown_ms) t
        (reserve store key_id pick now later keys amount excluded t l).1
        (reserve-SameLimits store key_id pick now later keys amount excluded t l)
        (Meanwhile-Rests id since s t m v)
  Meanwhile-Rests id since s _ (then_record t m now h r status used l) v =
      record_response-Rests id (since + credit_key_cooldown_ms) now r status used t l (omega arith)
        (Meanwhile-Rests id since s t m v)
  Meanwhile-Rests id since s _ (then_report t m parse_date now other h snapshot reply l) v =
      apply_usage-Rests parse_date now id other (since + credit_key_cooldown_ms) snapshot reply t l
        h (Meanwhile-Rests id since s t m v)

  record_429 :
      (now : ℕ) (r : CreditReservation) (used : Option ℕ) (s : CreditRouting) (l : L)
      → Rests r.key_id (now + credit_key_cooldown_ms) (record_response store now r 429 used s l).0
  unfolding record_response cool_key cooldown_of
  record_429 now r used s l = ground (
    arith,
    codes_eq.equal_iff r.key_id r.key_id,
    get-set r.key_id r.key_id (now + credit_key_cooldown_ms) s.local_cooldown_until,
  )

  usable_id :
      (s : CreditRouting) (now until : ℕ) (id : Text)
      → Rests id until s
      → now < until
      → locally_usable s now id ≡ false
  unfolding locally_usable
  usable_id s now until id v h = ground arith

  -- A key that Cloud answered with 429 at a time cools down: no reservation is for its id in the
  -- 30 seconds from that time, whatever other requests did meanwhile, as long as the clock does
  -- not go back and no credit report for that id arrives.
  pub limited_key_rests :
      (at : ℕ) (r : CreditReservation) (used : Option ℕ) (s t : CreditRouting) (l l' : L)
      → Meanwhile store key_id r.key_id at (record_response store at r 429 used s l).0 t
      → (pick : ℕ → ℕ) (now later : ℕ) (keys excluded : List Text) (amount : ℕ)
        (q : CreditReservation)
      → now < at + credit_key_cooldown_ms
      → (reserve store key_id pick now later keys amount excluded t l').0 ≡ some q
      → q.key_id ≢ r.key_id
  limited_key_rests at r used s t l l' m pick now later keys excluded amount q h e k =
      let u =
        (reserve-IsReservationOf store key_id pick now later keys excluded amount t l' q
          e).candidate.usable in
      let d =
        Meanwhile-Rests r.key_id at (record_response store at r 429 used s l).0 t m
          (record_429 at r used s l) in
      ground (
        arith,
        subst (λ i. locally_usable t now i ≡ true) k u,
        usable_id t now (at + credit_key_cooldown_ms) r.key_id d h,
      )
