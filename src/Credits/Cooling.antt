-- ===== src/Credits/Cooling.antt =====
-- How `recordResponse` (credits/credit-routing.service.ts) takes a key out of routing that is out
-- of credits, while other requests go on.
use firecrawl_gateway.Prelude.{
  ℕ, true, false, List, Option, none, some, nat_eq, ◌===◌, ◌≡◌, ◌≢◌, ap, ◌∙◌, subst, arith, inl,
  inr,
}
use firecrawl_gateway.Prelude.Text.{Text, codes_eq}
use firecrawl_gateway.Prelude.Sets.{contains, contains-add, contains_self, contains-remove}
use firecrawl_gateway.Credits.{
  disable_key, cool_key, CreditReservation, CreditRouting, LedgerStore, LedgerSnapshot,
  locally_usable, reserve, record_response,
}
use firecrawl_gateway.Credits.Refresh.{UsageReply, failed, usage, apply_usage, reenable}
use firecrawl_gateway.Credits.Admission.{reserve-IsReservationOf}
use firecrawl_gateway.Credits.Limits.{
  reserve-SameLimits, Meanwhile, nothing, then_reserve, then_record, then_report,
}
use firecrawl_gateway.Credits.Resting.{record_response_cases}

module _ {L : Type 0} (store : LedgerStore L) (key_id : Text → Text) where
  record_response-disabled :
      (id : Text) (now : ℕ) (r : CreditReservation) (status : ℕ) (used : Option ℕ)
      (s : CreditRouting) (l : L)
      → contains id s.local_disabled ≡ true
      → contains id (record_response store now r status used s l).0.local_disabled ≡ true
  unfolding disable_key cool_key
  record_response-disabled id now r status used s l h =
      elim (record_response_cases store key_id now r status used s l) [
        | inl e ↦
            ap (λ t. contains id t.local_disabled) e ∙ contains-add id r.key_id s.local_disabled h
        | inr (inl e) ↦ ap (λ t. contains id t.local_disabled) e ∙ h
        | inr (inr e) ↦ ap (λ t. contains id t.local_disabled) e ∙ h
      ]

  apply_usage-disabled :
      (parse_date : Text → Option ℕ) (now : ℕ) (id other : Text) (snapshot : LedgerSnapshot)
      (reply : UsageReply) (s : CreditRouting) (l : L)
      → (other === id) ≡ false
      → contains id s.local_disabled ≡ true
      → contains id (apply_usage store parse_date now other snapshot reply s l).0.local_disabled
        ≡ true
  unfolding apply_usage reenable
  apply_usage-disabled parse_date now id other snapshot (failed message) s l h v = v
  apply_usage-disabled parse_date now id other snapshot (usage none plan start stop) s l h v = v
  apply_usage-disabled parse_date now id other snapshot (usage (some n) plan start stop) s l h v =
      ground
        (arith, contains-add id other s.local_disabled, contains-remove id other s.local_disabled)

  Meanwhile-disabled :
      (id : Text) (since : ℕ) (s t : CreditRouting)
      → Meanwhile store key_id id since s t
      → contains id s.local_disabled ≡ true
      → contains id t.local_disabled ≡ true
  Meanwhile-disabled id since s _ nothing v = v
  Meanwhile-disabled id since s _ (then_reserve t m pick now later keys amount excluded l) v =
      ap (contains id)
        (reserve-SameLimits store key_id pick now later keys amount excluded t l).same_disabled
      ∙ Meanwhile-disabled id since s t m v
  Meanwhile-disabled id since s _ (then_record t m now h r status used l) v =
      record_response-disabled id now r status used t l (Meanwhile-disabled id since s t m v)
  Meanwhile-disabled id since s _ (then_report t m parse_date now other h snapshot reply l) v =
      apply_usage-disabled parse_date now id other snapshot reply t l h
        (Meanwhile-disabled id since s t m v)

  record_402 :
      (now : ℕ) (r : CreditReservation) (used : Option ℕ) (s : CreditRouting) (l : L)
      → contains r.key_id (record_response store now r 402 used s l).0.local_disabled ≡ true
  unfolding record_response disable_key
  record_402 now r used s l = contains_self r.key_id s.local_disabled

  -- A key that Cloud answered with 402 is disabled: no later reservation is for its id, whatever
  -- other requests did meanwhile, as long as no credit report for that id arrives.
  pub disabled_key_rests :
      (at : ℕ) (r : CreditReservation) (used : Option ℕ) (s t : CreditRouting) (l l' : L)
      → Meanwhile store key_id r.key_id at (record_response store at r 402 used s l).0 t
      → (pick : ℕ → ℕ) (now later : ℕ) (keys excluded : List Text) (amount : ℕ)
        (q : CreditReservation)
      → (reserve store key_id pick now later keys amount excluded t l').0 ≡ some q
      → q.key_id ≢ r.key_id
  unfolding locally_usable
  disabled_key_rests at r used s t l l' m pick now later keys excluded amount q e k =
      let u =
        (reserve-IsReservationOf store key_id pick now later keys excluded amount t l' q
          e).candidate.usable in
      let d =
        Meanwhile-disabled r.key_id at (record_response store at r 402 used s l).0 t m
          (record_402 at r used s l) in
      ground (arith, subst (λ i. locally_usable t now i ≡ true) k u, d)
