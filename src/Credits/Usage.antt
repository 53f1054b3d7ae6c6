-- ===== src/Credits/Usage.antt =====
-- What credits/credit-routing.service.ts promises of credit reports and of the estimate it shows.
use mathlib.Core.Option.{some-injective}
use firecrawl_gateway.Prelude.{
  ℕ, ◌+◌, ◌<◌, ◌≤◌, true, false, List, [], ◌∷◌, Option, none, some, ◌===◌, ◌≡◌, refl, sym, arith,
  inl, inr, Bool-cases, subst,
}
use firecrawl_gateway.Prelude.Text.{Text, codes_eq}
use firecrawl_gateway.Prelude.OrderedMap.{get, set, get-set}
use firecrawl_gateway.Prelude.Sets.{contains, contains_self, contains-remove}
use firecrawl_gateway.Credits.{
  Candidate, CreditRouting, LocalPool, spend, lower, spend_locally, spend_known, take_local,
  pick_tie, local_rank, reserve_locally,
}
use firecrawl_gateway.Credits.Selection.{choose}
use firecrawl_gateway.Credits.Refresh.{
  CreditUsageDetails, CachedUsage, UsageRefresh, cached, started, begin_refresh, begin_with,
  end_refresh, cache_details, credit_usage_cache_ttl_ms, estimate_from, add_credits,
  estimated_remaining_credits,
}

begin_with_started :
    (now : ℕ) (api_key : Text) (u : UsageRefresh) (c : Option CachedUsage)
    → (begin_with now api_key u c).0 ≡ started
    → (contains api_key u.credit_usage_in_flight ≡ false)
      × (contains api_key (begin_with now api_key u c).1.credit_usage_in_flight ≡ true)
begin_with_started now api_key u none h =
    ground (arith, contains_self api_key u.credit_usage_in_flight)
begin_with_started now api_key u (some c) h =
    ground (arith, contains_self api_key u.credit_usage_in_flight)

-- A request for credits starts only when none for that key is under way, it is under way from then
-- on, and it no longer is when it ends, with an error or not.
pub begin_refresh_once :
    (now later : ℕ) (api_key : Text) (details : CreditUsageDetails) (u v : UsageRefresh)
    → (begin_refresh now api_key u).0 ≡ started
    → (contains api_key u.credit_usage_in_flight ≡ false)
      × (contains api_key (begin_refresh now api_key u).1.credit_usage_in_flight ≡ true)
      × (contains api_key (end_refresh later api_key details v).credit_usage_in_flight ≡ false)
unfolding begin_refresh end_refresh
begin_refresh_once now later api_key details u v h = ground (
  arith,
  begin_with_started now api_key u (get api_key u.credit_usage_cache) h,
  contains-remove api_key api_key
      (cache_details later api_key details details.error v).credit_usage_in_flight,
  codes_eq.equal_iff api_key api_key,
)

-- A report without an error answers all calls for that key in the 30 seconds after it arrived.
pub begin_refresh-end_refresh :
    (now later : ℕ) (api_key : Text) (details : CreditUsageDetails) (u : UsageRefresh)
    → details.error ≡ none
    → later < now + credit_usage_cache_ttl_ms
    → (begin_refresh later api_key (end_refresh now api_key details u)).0 ≡ cached details
unfolding begin_refresh end_refresh
begin_refresh-end_refresh now later api_key details u e h = rw e (
    ground (
      arith,
      codes_eq.equal_iff api_key api_key,
      get-set api_key api_key
          (record { details = details; expires_at = now + credit_usage_cache_ttl_ms })
          u.credit_usage_cache,
    ))

-- The second estimate counts the same keys, and at most `amount` credits less.
abbrev pub LessBy : ℕ → ℕ × ℕ → ℕ × ℕ → Type 0
LessBy amount e f = (f.0 ≡ e.0) × (f.1 ≤ e.1) × (e.1 ≤ f.1 + amount)

add_credits-LessBy :
    (amount : ℕ) (c : Option ℕ) (e f : ℕ × ℕ)
    → LessBy amount e f
    → LessBy amount (add_credits c e) (add_credits c f)
add_credits-LessBy amount none e f h = h
add_credits-LessBy amount (some c) e f h = ground arith

lower-LessBy :
    (amount : ℕ) (c : Option ℕ) (e : ℕ × ℕ)
    → LessBy amount (add_credits c e) (add_credits (lower amount c) e)
lower-LessBy amount none e = ground arith
lower-LessBy amount (some c) e = ground arith

estimate_from-LessBy :
    (amount : ℕ) (pools : List (Text × LocalPool)) (e f : ℕ × ℕ)
    → LessBy amount e f
    → LessBy amount (estimate_from pools e) (estimate_from pools f)
unfolding estimate_from
estimate_from-LessBy amount [] e f h = h
estimate_from-LessBy amount ((id, p) ∷ pools) e f h =
    estimate_from-LessBy amount pools (add_credits p.credits e) (add_credits p.credits f)
      (add_credits-LessBy amount p.credits e f h)

estimate_from-set :
    (amount : ℕ) (id : Text) (p : LocalPool) (pools : List (Text × LocalPool)) (e : ℕ × ℕ)
    → get id pools ≡ some p
    → LessBy amount (estimate_from pools e) (estimate_from (set id (spend amount p) pools) e)
unfolding estimate_from get set
estimate_from-set amount id p [] e h = ground arith
estimate_from-set amount id p ((j, q) ∷ pools) e h = elim (Bool-cases (j === id)) [
  | inl t ↦ rw t (
      estimate_from-LessBy amount pools (add_credits q.credits e)
        (add_credits (lower amount p.credits) e)
        (subst
          (λ x. LessBy amount (add_credits x.credits e) (add_credits (lower amount p.credits) e))
          (sym (some-injective q p (rw t at h))) (lower-LessBy amount p.credits e)))
  | inr t ↦ rw t (estimate_from-set amount id p pools (add_credits q.credits e) (rw t at h))
]

spend_known-LessBy :
    (amount : ℕ) (id : Text) (s : CreditRouting) (o : Option LocalPool)
    → get id s.local_pools ≡ o
    → LessBy amount
        (estimated_remaining_credits s)
        (estimated_remaining_credits (spend_known id amount s o))
unfolding estimated_remaining_credits
spend_known-LessBy amount id s none h = ground arith
spend_known-LessBy amount id s (some p) h = estimate_from-set amount id p s.local_pools (0, 0) h

take_local-LessBy :
    (amount : ℕ) (s : CreditRouting) (o : Option Candidate)
    → LessBy amount
        (estimated_remaining_credits s)
        (estimated_remaining_credits (take_local amount s o).1)
unfolding spend_locally
take_local-LessBy amount s none = ground arith
take_local-LessBy amount s (some c) =
    spend_known-LessBy amount c.key_id s (get c.key_id s.local_pools) refl

-- A reservation without Redis keeps the number of known keys in the estimate, and lowers the
-- estimated credits by no more than its amount.
pub reserve_locally-LessBy :
    (pick : ℕ → ℕ) (now : ℕ) (xs : List Candidate) (amount : ℕ) (s : CreditRouting)
    → LessBy amount
        (estimated_remaining_credits s)
        (estimated_remaining_credits (reserve_locally pick now xs amount s).1)
unfolding reserve_locally
reserve_locally-LessBy pick now xs amount s =
    take_local-LessBy amount s (pick_tie pick (choose (local_rank s now) xs none))
