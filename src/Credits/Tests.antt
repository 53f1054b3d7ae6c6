-- ===== src/Credits/Tests.antt =====
-- Tests of credits/credit-routing.service.ts, and its theorems at concrete inputs.
use firecrawl_gateway.Prelude.{arith, ℕ, false, List, [], ◌∷◌, none, some, ◌≡◌, ◌≢◌, refl}
use firecrawl_gateway.Prelude.Text.{Text, codes, codes_beq, codes_eq}
use firecrawl_gateway.Prelude.OrderedMap.{get, set, delete}
use firecrawl_gateway.Prelude.Sets.{contains, add}
use firecrawl_gateway.Credits.{
  disable_key, cool_key, local_pool, CreditReservation, CreditRouting, new_routing, unavailable,
  LedgerStore, Candidate, PickLt, reserve, reserve_locally, record_response,
}
use firecrawl_gateway.Credits.Admission.{IsReservationOf, IsCandidate, reserve-IsReservationOf}
use firecrawl_gateway.Credits.Best.{LocalChoice, reserve_locally-LocalChoice}
use firecrawl_gateway.Credits.Limits.{nothing}
use firecrawl_gateway.Credits.Cooling.{disabled_key_rests}
use firecrawl_gateway.Credits.Resting.{limited_key_rests}
use firecrawl_gateway.Credits.Refresh.{CreditUsageDetails, UsageRefresh, started, begin_refresh}

-- A gateway without Redis.
abbrev no_redis : LedgerStore ℕ
no_redis = record {
  reserve_credits = λ now ids amount l. (unavailable, l);
  capture = λ id l. (record { available = false; sequence = 0 }, l);
  settle = λ now id reservation action until l. l;
  settle_actual_usage = λ id reservation used l. l;
  reconcile = λ now id credits sequence renews_at l. l;
}

abbrev same_id : Text → Text
same_id key = key

abbrev first_tie : ℕ → ℕ
first_tie n = 0

first_tie-lt : PickLt first_tie
first_tie-lt n h = h

abbrev key_a : Text
key_a = codes "fc-a"

abbrev key_b : Text
key_b = codes "fc-b"

-- Both keys renew on the same day, and the second has more credits.
abbrev two_pools : CreditRouting
two_pools = record new_routing {
  local_pools =
      (key_a, record { renews_at = some 90000000; credits = some 10 })
      ∷ (key_b, record { renews_at = some 86400000; credits = some 20 })
      ∷ [];
}

abbrev two_candidates : List Candidate
two_candidates =
    record { key = key_a; key_id = key_a } ∷ record { key = key_b; key_id = key_b } ∷ []

abbrev on_b : CreditReservation
on_b = record { key = key_b; key_id = key_b; amount = 1; source = local_pool }

abbrev on_a : CreditReservation
on_a = record { key = key_a; key_id = key_a; amount = 1; source = local_pool }

reserves_the_fullest :
    (reserve no_redis same_id first_tie 5 6 (key_a ∷ key_b ∷ []) 0 [] two_pools 0).0 ≡ some on_b
unfolding reserve reserve_locally codes_beq contains get
reserves_the_fullest = refl

reserve-IsReservationOf_example :
    IsReservationOf (IsCandidate same_id two_pools 5 (key_a ∷ key_b ∷ []) []) 1 on_b
reserve-IsReservationOf_example =
    reserve-IsReservationOf no_redis same_id first_tie 5 6 (key_a ∷ key_b ∷ []) [] 0 two_pools 0
      on_b reserves_the_fullest

reserve_locally-LocalChoice_example :
    LocalChoice two_pools 5 two_candidates
      (reserve_locally first_tie 5 two_candidates 1 two_pools).0
reserve_locally-LocalChoice_example =
    reserve_locally-LocalChoice first_tie 5 two_candidates 1 two_pools first_tie-lt

abbrev disabled_b : CreditRouting
disabled_b = record two_pools { local_disabled = key_b ∷ [] }

b_is_disabled : (record_response no_redis 7 on_b 402 none two_pools 0).0 ≡ disabled_b
unfolding record_response codes_beq disable_key delete add contains
b_is_disabled = refl

reserves_the_other :
    (reserve no_redis same_id first_tie 8 9
      (key_a ∷ key_b ∷ [])
      1
      []
      (record_response no_redis 7 on_b 402 none two_pools 0).0
      0).0
    ≡ some on_a
unfolding reserve record_response codes_beq contains disable_key add get delete reserve_locally
reserves_the_other = refl

disabled_key_rests_example : on_a.key_id ≢ on_b.key_id
disabled_key_rests_example =
    disabled_key_rests no_redis same_id 7 on_b none two_pools
      (record_response no_redis 7 on_b 402 none two_pools 0).0 0 0 nothing first_tie 8 9
      (key_a ∷ key_b ∷ []) [] 1 on_a reserves_the_other

reserves_the_other_while_limited :
    (reserve no_redis same_id first_tie 8 9
      (key_a ∷ key_b ∷ [])
      1
      []
      (record_response no_redis 7 on_b 429 none two_pools 0).0
      0).0
    ≡ some on_a
unfolding reserve record_response codes_beq contains cool_key get set reserve_locally
reserves_the_other_while_limited = refl

limited_key_rests_example : on_a.key_id ≢ on_b.key_id
limited_key_rests_example =
    limited_key_rests no_redis same_id 7 on_b none two_pools
      (record_response no_redis 7 on_b 429 none two_pools 0).0 0 0 nothing first_tie 8 9
      (key_a ∷ key_b ∷ []) [] 1 on_a (omega arith) reserves_the_other_while_limited

abbrev five_left : CreditUsageDetails
five_left = record {
  remaining_credits = some 5;
  plan_credits = none;
  billing_period_start = none;
  billing_period_end = none;
  error = none;
}

abbrev no_refresh : UsageRefresh
no_refresh = record { credit_usage_cache = []; credit_usage_in_flight = [] }

refresh_starts : (begin_refresh 1 key_a no_refresh).0 ≡ started
unfolding begin_refresh codes_beq contains get
refresh_starts = refl

abbrev refreshing : UsageRefresh
refreshing = (begin_refresh 1 key_a no_refresh).1
