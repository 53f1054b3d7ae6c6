-- ===== src/Breaker.antt =====
-- apps/api/src/proxy/circuit-breaker.ts: the breaker that guards the self-hosted backend.
-- `acquire` and `release` run without an `await`, so each is one atomic step; `onTransition` is
-- the log `transitions` (newest first). The clock is an argument of each call.
mod Tests
pub mod System
pub mod Invariant
pub mod Trip
pub mod Reports
use firecrawl_gateway.Prelude.{
  ℕ, ◌+◌, Bool, true, false, not, ◌&&◌, ◌||◌, List, [], ◌∷◌, Option, none, some, ltb, leb, HasEq,
  ◌===◌, nat_eq, nat_beq, ◌≡◌, ◌↔◌, arith, if◌then◌else◌,
}

pub data CircuitState : Type 0 where
  closed opened half_open : CircuitState

abbrev state_rank : CircuitState → ℕ
state_rank closed = 0
state_rank opened = 1
state_rank half_open = 2

pub state_eq_iff : (a b : CircuitState) → (nat_beq (state_rank a) (state_rank b) ≡ true) ↔ (a ≡ b)
state_eq_iff a b = ground arith

instance abbrev pub state_eq : HasEq CircuitState
state_eq = record { equal = λ a b. nat_beq (state_rank a) (state_rank b); equal_iff = state_eq_iff }

pub data PermitKind : Type 0 where
  closed probe : PermitKind

pub record Permit : Type 0 where
  pub kind : PermitKind
  pub generation : ℕ

pub record CircuitBreakerOptions : Type 0 where
  pub failure_threshold : ℕ
  pub cooldown_ms : ℕ

pub record CircuitBreaker : Type 0 where
  pub state : CircuitState
  pub consecutive_failures : ℕ
  pub opened_at : ℕ
  pub probe_in_flight : Bool
  pub generation : ℕ
  pub transitions : List (CircuitState × CircuitState)

abbrev pub new_breaker : CircuitBreaker
new_breaker = record {
  state = CircuitState.closed;
  consecutive_failures = 0;
  opened_at = 0;
  probe_in_flight = false;
  generation = 0;
  transitions = [];
}

unfoldable pub transition : CircuitState → CircuitBreaker → CircuitBreaker
transition to b =
    if b.state === to
    then b
    else record b { state = to; transitions = (b.state, to) ∷ b.transitions }

unfoldable pub open_circuit : ℕ → CircuitBreaker → CircuitBreaker
unfolding transition
open_circuit now b = transition opened (record b { generation = b.generation + 1; opened_at = now })

-- The half-open part of `acquire`: a single probe at a time.
unfoldable pub admit_probe : CircuitBreaker → CircuitBreaker × Option Permit
admit_probe b = if b.probe_in_flight then (b, none) else (
  record b { probe_in_flight = true },
  some (record { kind = probe; generation = b.generation }),
)

-- `none` is "reject". The difference of two times may be negative, so the test is a sum.
unfoldable pub acquire : CircuitBreakerOptions → ℕ → CircuitBreaker → CircuitBreaker × Option Permit
unfolding admit_probe transition
acquire o now b =
    if b.state === CircuitState.closed
    then (b, some (record { kind = PermitKind.closed; generation = b.generation }))
    else if b.state === opened
    then (if ltb now (b.opened_at + o.cooldown_ms)
        then (b, none)
        else admit_probe (transition half_open b))
    else admit_probe b

release_probe : ℕ → Bool → CircuitBreaker → CircuitBreaker
unfolding open_circuit transition
release_probe now failed b =
    if failed
    then open_circuit now (record b { probe_in_flight = false })
    else transition CircuitState.closed
        (record b { probe_in_flight = false; consecutive_failures = 0 })

-- A failure of a call that the closed circuit admitted and that still counts.
count_failure : CircuitBreakerOptions → ℕ → CircuitBreaker → CircuitBreaker
unfolding open_circuit transition
count_failure o now b =
    let b' = record b { consecutive_failures = b.consecutive_failures + 1 } in
    if leb o.failure_threshold b'.consecutive_failures then open_circuit now b' else b'

release_closed : CircuitBreakerOptions → ℕ → ℕ → Bool → CircuitBreaker → CircuitBreaker
unfolding count_failure
release_closed o now generation failed b =
    if not (generation === b.generation) || not (b.state === CircuitState.closed)
    then b
    else if not failed
    then record b { consecutive_failures = 0 }
    else count_failure o now b

release_kind : CircuitBreakerOptions → ℕ → PermitKind → ℕ → Bool → CircuitBreaker → CircuitBreaker
unfolding release_probe release_closed
release_kind o now probe generation failed b = release_probe now failed b
release_kind o now PermitKind.closed generation failed b = release_closed o now generation failed b

unfoldable pub release : CircuitBreakerOptions → ℕ → Permit → Bool → CircuitBreaker → CircuitBreaker
unfolding release_kind
release o now permit failed b = release_kind o now permit.kind permit.generation failed b

-- How an asynchronous call ends.
pub data Settled {ℓ} (T : Type ℓ) : Type ℓ where
  resolved : T → Settled T
  rejected : Settled T

unfoldable pub call_failed {ℓ} : {T : Type ℓ} → (T → Bool) → Settled T → Bool
call_failed is_failure (resolved t) = is_failure t
call_failed is_failure rejected = true

-- `execute` where nothing else uses the breaker during the call: the call starts at `now`, ends at
-- `later`, and works on the state `S`. The Boolean tells whether `onReject` was called.
module _ {ℓ} {S T : Type ℓ} (o : CircuitBreakerOptions) (now later : ℕ) where
  abbrev pub run_call :
      (S → Settled T × S)
      → (T → Bool)
      → Permit
      → CircuitBreaker
      → S
      → Settled T × CircuitBreaker × S × Bool
  run_call call is_failure permit b s =
      let (r, s') = call s in (r, release o later permit (call_failed is_failure r) b, s', false)

  abbrev pub execute_with :
      (S → Settled T × S)
      → (T → Bool)
      → T
      → CircuitBreaker
      → S
      → Option Permit
      → Settled T × CircuitBreaker × S × Bool
  execute_with call is_failure short b s none = (resolved short, b, s, true)
  execute_with call is_failure short b s (some permit) = run_call call is_failure permit b s

  abbrev pub bypass :
      (S → Settled T × S) → CircuitBreaker → S → Settled T × CircuitBreaker × S × Bool
  bypass call b s = let (r, s') = call s in (r, b, s', false)

  unfoldable pub execute :
      (S → Settled T × S)
      → (T → Bool)
      → T
      → CircuitBreaker
      → S
      → Settled T × CircuitBreaker × S × Bool
  unfolding acquire release call_failed
  execute call is_failure short b s =
      if leb o.failure_threshold 0
      then bypass call b s
      else let (b', permit) = acquire o now b in execute_with call is_failure short b' s permit
