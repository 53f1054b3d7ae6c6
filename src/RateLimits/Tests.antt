-- ===== src/RateLimits/Tests.antt =====
-- Tests of the rate limit counter (common/rate-limit-counter.ts, common/rate-limit.middleware.ts),
-- and the theorems at concrete inputs.
use firecrawl_gateway.Prelude.{
  ℕ, ◌+◌, ◌≤◌, ◌≡◌, refl, true, List, [], ◌∷◌, Option, none, some, length,
}
use firecrawl_gateway.Prelude.OrderedMap.{get, set, delete, has}
use firecrawl_gateway.Prelude.Text.{Text, codes, codes_beq, codes_eq}
use firecrawl_gateway.RateLimits.{
  Row, new_counter, max_buckets, start_hit, finish_hit, settle_flush, run_timer, record_bucket,
  start_flush, flush_if_current, schedule,
}
use firecrawl_gateway.RateLimits.Tally.{counted_in, stored_in, dropped_in, IsAccounted}
use firecrawl_gateway.RateLimits.History.{
  Op, hit_starts, hit_ends, flush_ends, timer_fires, step, run,
}
use firecrawl_gateway.RateLimits.Kept.{Stays, run-IsKept}
use firecrawl_gateway.RateLimits.Bound.{run-max_buckets}
use firecrawl_gateway.RateLimits.Draining.{
  settle_all, pending_of, flush_all, continue, drain_loop, drain,
}
use firecrawl_gateway.RateLimits.Shutdown.{stopped, drain_stores_all}
use firecrawl_gateway.RateLimits.Middleware.{
  Write, too_many_requests, is_exempt_path, admit_request,
}

abbrev client : Text
client = codes "10.0.0.7"

-- The first flush fails while a second request arrives; the timer's flush is under way at the end.
abbrev busy : List Op
busy =
    hit_starts client none 100000
    ∷ hit_starts client none 100001
    ∷ flush_ends client none
    ∷ hit_ends client 0 100002
    ∷ timer_fires client 106000
    ∷ hit_starts client none 106001
    ∷ []

busy_pending : ((run (new_counter true) busy).heap 0).pending_delta ≡ 1
unfolding run step start_hit finish_hit settle_flush run_timer record_bucket start_flush
    flush_if_current schedule codes_beq get set delete has
busy_pending = refl

busy_in_use : get client (run (new_counter true) busy).buckets ≡ some 0
unfolding run step start_hit finish_hit settle_flush run_timer record_bucket start_flush
    flush_if_current schedule codes_beq get set delete has
busy_in_use = refl

run-IsKept_example :
    IsAccounted 0 (run (new_counter true) busy)
    × Stays
        (run (new_counter true) busy)
        (hit_starts client none 106002)
        client
        0
        (step (run (new_counter true) busy) (hit_starts client none 106002))
run-IsKept_example = run-IsKept true busy (hit_starts client none 106002) client 0 busy_in_use

run-max_buckets_example : length (run (new_counter true) busy).buckets ≤ max_buckets
unfolding codes_beq
run-max_buckets_example = run-max_buckets true busy (refl, (refl, (tt, (tt, (tt, (refl, tt))))))

abbrev stored_row : ℕ → Text → Option Row
stored_row n key = some (record { count = 3; reset_at = 200000 })

drain_stores_all_example :
    counted_in 0 (stopped true busy stored_row (λ n. 107000)).log
    ≡ stored_in 0 (stopped true busy stored_row (λ n. 107000)).log
      + dropped_in 0 (stopped true busy stored_row (λ n. 107000)).log
unfolding run step start_hit finish_hit settle_flush run_timer record_bucket start_flush
    flush_if_current schedule codes_beq get set delete has settle_all pending_of flush_all continue
    drain_loop drain
drain_stores_all_example = drain_stores_all true busy stored_row (λ n. 107000) client 0 refl

abbrev full_row : Row
full_row = record { count = 290; reset_at = 1000 }

abbrev write_at : ℕ → ℕ → Write
write_at delta now = record { delta = delta; fixed = none; at = now }

exempt_probe : is_exempt_path (codes "/health?x=1") ≡ true
unfolding is_exempt_path codes_beq
exempt_probe = refl

limited_request :
    admit_request (codes "/v1/scrape") (some (record { count = 301; reset_at = 1500 }))
    ≡ too_many_requests (record { limit = 300; remaining = 0; reset = 2 })
unfolding admit_request codes_beq
limited_request = refl
