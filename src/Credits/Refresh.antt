-- ===== src/Credits/Refresh.antt =====
-- apps/api/src/credits/credit-routing.service.ts, `refreshCreditUsage`: from the call to the reply
-- of `/v2/team/credit-usage`, in the steps between which other requests may run. `fetch` and
-- `Date.parse` are outside: the reply is an argument, and so is what the date parses to.
use firecrawl_gateway.Prelude.{ℕ, ◌+◌, List, [], ◌∷◌, Option, none, some, ltb, leb, if◌then◌else◌}
use firecrawl_gateway.Prelude.Text.{Text, codes, codes_eq}
use firecrawl_gateway.Prelude.OrderedMap.{get, set, delete}
use firecrawl_gateway.Prelude.Sets.{contains, add, remove}
use firecrawl_gateway.Credits.{
  CreditRouting, LocalPool, LedgerStore, LedgerSnapshot, cooldown_of, or_zero,
}

abbrev pub credit_usage_cache_ttl_ms : ℕ
credit_usage_cache_ttl_ms = 30000

pub record CreditUsageDetails : Type 0 where
  pub remaining_credits : Option ℕ
  pub plan_credits : Option ℕ
  pub billing_period_start : Option Text
  pub billing_period_end : Option Text
  pub error : Option Text

pub record CachedUsage : Type 0 where
  pub details : CreditUsageDetails
  pub expires_at : ℕ

pub record UsageRefresh : Type 0 where
  pub credit_usage_cache : List (Text × CachedUsage)
  pub credit_usage_in_flight : List Text

-- A reply: an error (HTTP, network or JSON) with its message, or the fields of `data`, `none` for
-- one that is not a finite number.
pub data UsageReply : Type 0 where
  failed : Text → UsageReply
  usage : Option ℕ → Option ℕ → Option Text → Option Text → UsageReply

pub data Begun : Type 0 where
  cached : CreditUsageDetails → Begun
  joined started : Begun

abbrev pub no_remaining_credits : Text
no_remaining_credits = codes "Credit usage response did not include remainingCredits"

abbrev begin_uncached : Text → UsageRefresh → Begun × UsageRefresh
begin_uncached api_key u =
    if contains api_key u.credit_usage_in_flight
    then (joined, u)
    else (started, record u { credit_usage_in_flight = add api_key u.credit_usage_in_flight })

abbrev pub begin_with : ℕ → Text → UsageRefresh → Option CachedUsage → Begun × UsageRefresh
begin_with now api_key u none = begin_uncached api_key u
begin_with now api_key u (some c) =
    if ltb now c.expires_at
    then (cached c.details, u)
    else begin_uncached api_key
        (record u { credit_usage_cache = delete api_key u.credit_usage_cache })

-- The part before the request: a cached reply, a request that is under way, or a new one.
unfoldable pub begin_refresh : ℕ → Text → UsageRefresh → Begun × UsageRefresh
begin_refresh now api_key u = begin_with now api_key u (get api_key u.credit_usage_cache)

unfoldable pub details_of : UsageReply → CreditUsageDetails
details_of (failed message) = record {
  remaining_credits = none;
  plan_credits = none;
  billing_period_start = none;
  billing_period_end = none;
  error = some message;
}
details_of (usage none plan start end_date) = record {
  remaining_credits = none;
  plan_credits = plan;
  billing_period_start = start;
  billing_period_end = end_date;
  error = some no_remaining_credits;
}
details_of (usage (some remaining) plan start end_date) = record {
  remaining_credits = some remaining;
  plan_credits = plan;
  billing_period_start = start;
  billing_period_end = end_date;
  error = none;
}

abbrev positive_time : Option ℕ → Option ℕ
positive_time none = none
positive_time (some n) = if ltb 0 n then some n else none

abbrev pub renewal : (Text → Option ℕ) → Option Text → Option ℕ
renewal parse_date none = none
renewal parse_date (some t) = positive_time (parse_date t)

unfoldable pub reenable : ℕ → Text → ℕ → CreditRouting → CreditRouting
unfolding cooldown_of
reenable now key_id remaining s =
    if ltb 0 remaining
    then (if leb (cooldown_of s key_id) now
        then record s {
          local_disabled = remove key_id s.local_disabled;
          local_cooldown_until = delete key_id s.local_cooldown_until;
        }
        else record s { local_disabled = remove key_id s.local_disabled })
    else record s { local_disabled = add key_id s.local_disabled }

module _ {L : Type 0} (store : LedgerStore L) (parse_date : Text → Option ℕ) (now : ℕ) where
  abbrev reconcile_available : LedgerSnapshot → Text → ℕ → Option ℕ → L → L
  reconcile_available snapshot key_id remaining renews_at l =
      if snapshot.available
      then store.reconcile now key_id remaining snapshot.sequence (or_zero renews_at) l
      else l

  -- What a reply changes: nothing, unless it says how many credits remain.
  unfoldable pub apply_usage :
      Text → LedgerSnapshot → UsageReply → CreditRouting → L → CreditRouting × L
  unfolding reenable
  apply_usage key_id snapshot (failed message) s l = (s, l)
  apply_usage key_id snapshot (usage none plan start end_date) s l = (s, l)
  apply_usage key_id snapshot (usage (some remaining) plan start end_date) s l = (
    reenable now key_id remaining (record s {
      local_pools =
          set key_id (record { renews_at = renewal parse_date end_date; credits = some remaining })
            s.local_pools;
    }),
    reconcile_available snapshot key_id remaining (renewal parse_date end_date) l,
  )

abbrev pub cache_details : ℕ → Text → CreditUsageDetails → Option Text → UsageRefresh → UsageRefresh
cache_details now api_key details none u = record u {
  credit_usage_cache =
      set api_key (record { details = details; expires_at = now + credit_usage_cache_ttl_ms })
        u.credit_usage_cache;
}
cache_details now api_key details (some e) u = u

-- The part after the request: a reply without an error is cached, and the request is forgotten.
unfoldable pub end_refresh : ℕ → Text → CreditUsageDetails → UsageRefresh → UsageRefresh
end_refresh now api_key details u =
    let u' = cache_details now api_key details details.error u in
    record u' { credit_usage_in_flight = remove api_key u'.credit_usage_in_flight }

abbrev pub add_credits : Option ℕ → ℕ × ℕ → ℕ × ℕ
add_credits none e = e
add_credits (some c) e = (e.0 + 1, e.1 + c)

-- `estimatedRemainingCredits`: the number of keys and the sum of their credits.
unfoldable pub estimate_from : List (Text × LocalPool) → ℕ × ℕ → ℕ × ℕ
estimate_from [] e = e
estimate_from ((id, p) ∷ pools) e = estimate_from pools (add_credits p.credits e)

unfoldable pub estimated_remaining_credits : CreditRouting → ℕ × ℕ
unfolding estimate_from
estimated_remaining_credits s = estimate_from s.local_pools (0, 0)
