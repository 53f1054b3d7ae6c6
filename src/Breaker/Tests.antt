-- ===== src/Breaker/Tests.antt =====
-- Tests of the circuit breaker (proxy/circuit-breaker.ts), and its theorems at concrete inputs.
use firecrawl_gateway.Prelude.{
  ℕ, suc, ◌≡◌, refl, Bool, true, false, List, [], ◌∷◌, some, ◌===◌, nat_eq, arith,
}
use firecrawl_gateway.Breaker.{
  CircuitState, opened, half_open, PermitKind, probe, rejected, Permit, CircuitBreakerOptions,
  CircuitBreaker, new_breaker, acquire, release, execute, Settled, resolved,
}
use firecrawl_gateway.Breaker.System.{System, start, admit, settle, Reach, here, next, Inv}
use firecrawl_gateway.Breaker.Invariant.{Reach-Inv, Reach-release_stale}
use firecrawl_gateway.Breaker.Trip.{
  TimedCall, HasFailed, execute_all, execute_all-HasFailed, execute_probe,
}

abbrev trip_at_one : CircuitBreakerOptions
trip_at_one = record { failure_threshold = 1; cooldown_ms = 10 }

abbrev trip_at_two : CircuitBreakerOptions
trip_at_two = record { failure_threshold = 2; cooldown_ms = 10 }

abbrev first_permit : Permit
first_permit = record { kind = PermitKind.closed; generation = 0 }

abbrev tripped : CircuitBreaker
tripped = record {
  state = opened;
  consecutive_failures = 1;
  opened_at = 5;
  probe_in_flight = false;
  generation = 1;
  transitions = (CircuitState.closed, opened) ∷ [];
}

-- Two calls are admitted; one fails and opens the circuit; the other is still outstanding.
abbrev tripped_system : System
tripped_system = record { breaker = tripped; outstanding = first_permit ∷ [] }

tripped_reached : Reach trip_at_one start tripped_system
unfolding acquire release
tripped_reached =
    next
      (next (next here (admit 0 new_breaker first_permit refl refl))
        (admit 1 new_breaker first_permit refl refl))
      (settle 5 true first_permit [] (first_permit ∷ []) refl refl)

Reach-Inv_example : Inv trip_at_one tripped_system
Reach-Inv_example = Reach-Inv {o = trip_at_one} (omega arith) tripped_reached

-- The circuit opens while a call is outstanding, a probe closes it again, and then the call ends.
abbrev one_outstanding : System
one_outstanding = record { breaker = new_breaker; outstanding = first_permit ∷ [] }

abbrev two_outstanding : System
two_outstanding = record { breaker = new_breaker; outstanding = first_permit ∷ first_permit ∷ [] }

abbrev probe_permit : Permit
probe_permit = record { kind = probe; generation = 1 }

abbrev half_opened : CircuitBreaker
half_opened = record tripped {
  state = half_open;
  probe_in_flight = true;
  transitions = (opened, half_open) ∷ (CircuitState.closed, opened) ∷ [];
}

abbrev recovered : CircuitBreaker
recovered = record half_opened {
  state = CircuitState.closed;
  consecutive_failures = 0;
  probe_in_flight = false;
  transitions = (half_open, CircuitState.closed) ∷ half_opened.transitions;
}

abbrev probing_system : System
probing_system = record { breaker = half_opened; outstanding = probe_permit ∷ first_permit ∷ [] }

abbrev recovered_system : System
recovered_system = record { breaker = recovered; outstanding = first_permit ∷ [] }

opened_meanwhile : Reach trip_at_one two_outstanding tripped_system
unfolding acquire release
opened_meanwhile = next here (settle 5 true first_permit [] (first_permit ∷ []) refl refl)

recovered_meanwhile : Reach trip_at_one tripped_system recovered_system
unfolding acquire release
recovered_meanwhile =
    next {t = probing_system} (next here (admit 15 half_opened probe_permit refl refl))
      (settle 20 false probe_permit [] (first_permit ∷ []) refl refl)

first_admitted : acquire trip_at_one 1 new_breaker ≡ (new_breaker, some first_permit)
unfolding acquire
first_admitted = refl

Reach-release_stale_example : release trip_at_one 30 first_permit true recovered ≡ recovered
Reach-release_stale_example =
    Reach-release_stale {o = trip_at_one} 1 30 one_outstanding tripped_system recovered_system
      new_breaker first_permit true first_admitted refl opened_meanwhile refl recovered_meanwhile

-- A call that rejects, and one whose result is a failure.
abbrev two_failures : List (TimedCall ℕ ℕ)
two_failures =
    record { now = 1; later = 4; call = λ n. (rejected, suc n) }
    ∷ record { now = 5; later = 9; call = λ n. (resolved 503, suc n) }
    ∷ []

abbrev is_unavailable : ℕ → Bool
is_unavailable status = status === 503

execute_all-HasFailed_example :
    HasFailed trip_at_two new_breaker 2 9
      (execute_all trip_at_two is_unavailable 0 two_failures new_breaker 0).0
    × ((execute_all trip_at_two is_unavailable 0 two_failures new_breaker 0).1 ≡ 2)
execute_all-HasFailed_example =
    execute_all-HasFailed trip_at_two is_unavailable 0 two_failures new_breaker 0 refl (omega arith)
      (omega arith) (tt, (refl, tt))

abbrev count_call : ℕ → Settled ℕ × ℕ
count_call n = (resolved n, suc n)

abbrev never_fails : ℕ → Bool
never_fails n = false

execute_probe_example :
    (execute trip_at_one 15 20 count_call never_fails 99 tripped 3).0 ≡ resolved 3
execute_probe_example =
    (execute_probe trip_at_one 15 20 count_call never_fails 99 tripped 3 (omega arith) refl refl
      (omega arith)).0

-- A failed probe opens the circuit again, under a new generation.
probe_fails : ((execute trip_at_one 15 20 count_call (λ n. true) 99 tripped 3).1).generation ≡ 2
unfolding execute
probe_fails = refl
