-- ===== src/Ledger/Tests.antt =====
-- Tests of credits/credit-ledger.store.ts, and its theorems at concrete inputs.
use firecrawl_gateway.Prelude.{[], ◌∷◌, some, none, ◌≡◌, refl}
use firecrawl_gateway.Prelude.Text.{codes, codes_beq, codes_eq}
use firecrawl_gateway.Prelude.OrderedMap.{get, set, delete}
use firecrawl_gateway.Credits.{reserved}
use firecrawl_gateway.Ledger.{
  Pool, new_pool, Ledger, reserve_pool, usage_pool, reconcile_pool, ledger_reserve, pool_of,
}
use firecrawl_gateway.Ledger.Pools.{
  IsBalanced, PoolHistory, unused, then_step, reserve_step, reconcile_step, PoolHistory-IsBalanced,
}
use firecrawl_gateway.Ledger.Choosing.{LedgerChoice, ledger_reserve-LedgerChoice}
use firecrawl_gateway.Ledger.Closing.{by_usage, at_once, after_step, IsSettled, Settles-IsSettled}

-- The first pool has 5 credits and renews later than the second, which has 3.
abbrev first_pool : Pool
first_pool = record new_pool { credits = some 5; renews_at = 200000000 }

abbrev second_pool : Pool
second_pool = record new_pool { credits = some 3; renews_at = 100000000 }

abbrev two_pools_ledger : Ledger
two_pools_ledger = record {
  pools = (codes "a", first_pool) ∷ (codes "b", second_pool) ∷ [];
  names_used = 0;
}

takes_the_earlier_renewal :
    (ledger_reserve (λ n. n ∷ []) (λ n. 0) 7 (codes "a" ∷ codes "b" ∷ []) 2 two_pools_ledger).0
    ≡ reserved 1 (0 ∷ [])
unfolding ledger_reserve pool_of get codes_beq
takes_the_earlier_renewal = refl

takes_one_that_has_enough :
    (ledger_reserve (λ n. n ∷ []) (λ n. 0) 7 (codes "a" ∷ codes "b" ∷ []) 4 two_pools_ledger).0
    ≡ reserved 0 (0 ∷ [])
unfolding ledger_reserve pool_of get codes_beq
takes_one_that_has_enough = refl

is_unused : get (codes "r") first_pool.reservations ≡ none
unfolding get
is_unused = refl

-- A pool with 7 reported credits, of which 2 are reserved.
abbrev reported_pool : Pool
reported_pool = reconcile_pool 1 7 0 0 new_pool

reported_history : PoolHistory reported_pool
reported_history = then_step new_pool reported_pool unused (reconcile_step 1 7 0 0)

is_unused_there : get (codes "r") reported_pool.reservations ≡ none
unfolding get reconcile_pool
is_unused_there = refl

abbrev used_pool : Pool
used_pool = reserve_pool 2 (codes "r") reported_pool

used_history : PoolHistory used_pool
used_history =
    then_step reported_pool used_pool reported_history (reserve_step 2 (codes "r") is_unused_there)

PoolHistory-IsBalanced_example : IsBalanced used_pool
PoolHistory-IsBalanced_example = PoolHistory-IsBalanced used_pool used_history

-- The usage of the reservation is reported; then another one is made.
abbrev settled_pool : Pool
settled_pool = usage_pool (codes "r") 1 used_pool

abbrev later_pool : Pool
later_pool = reserve_pool 3 (codes "s") settled_pool

is_unused_later : get (codes "s") settled_pool.reservations ≡ none
unfolding get set delete usage_pool reserve_pool reconcile_pool codes_beq
is_unused_later = refl

Settles-IsSettled_example : IsSettled (codes "r") later_pool
unfolding codes_beq
Settles-IsSettled_example =
    Settles-IsSettled (codes "r") used_pool settled_pool later_pool used_history (by_usage 1)
      (after_step settled_pool later_pool at_once (reserve_step 3 (codes "s") is_unused_later) refl)

ledger_reserve-LedgerChoice_example :
    LedgerChoice 7 2 two_pools_ledger
      (codes "a" ∷ codes "b" ∷ [])
      (ledger_reserve (λ n. n ∷ []) (λ n. 0) 7 (codes "a" ∷ codes "b" ∷ []) 2 two_pools_ledger).0
ledger_reserve-LedgerChoice_example =
    ledger_reserve-LedgerChoice (λ n. n ∷ []) (λ n. 0) 7 2 two_pools_ledger
      (codes "a" ∷ codes "b" ∷ [])
