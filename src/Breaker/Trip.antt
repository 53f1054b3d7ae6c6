-- ===== src/Breaker/Trip.antt =====
-- When the circuit of proxy/circuit-breaker.ts opens, stays open and recovers, for calls that run
-- one after another, and the state changes that it reports.
use firecrawl_gateway.Prelude.{
  ℕ, ◌+◌, ◌≤◌, ◌<◌, Bool, true, false, List, [], ◌∷◌, length, ltb, if◌then◌else◌, ◌≡◌, refl, ap,
  ◌∙◌, arith,
}
use firecrawl_gateway.Breaker.{
  CircuitState, opened, CircuitBreakerOptions, CircuitBreaker, Settled, resolved, rejected, execute,
  call_failed,
}

-- A call of `execute`: when it starts, when it ends, and what it does.
pub record TimedCall {ℓ} (S T : Type ℓ) : Type ℓ where
  pub now : ℕ
  pub later : ℕ
  pub call : S → Settled T × S

-- What the breaker is after `k` more failures, the last of which ended at `t`.
pub record HasFailed (o : CircuitBreakerOptions) (b : CircuitBreaker) (k t : ℕ) (c : CircuitBreaker)
    : Type 0 where
  pub counted : c.consecutive_failures ≡ b.consecutive_failures + k
  pub state : c.state ≡ (
      if ltb (b.consecutive_failures + k) o.failure_threshold then CircuitState.closed else opened)
  pub opened_at :
      c.opened_at
      ≡ (if ltb (b.consecutive_failures + k) o.failure_threshold then b.opened_at else t)

-- A call has failed if it rejects, or resolves to a result that is a failure.
abbrev pub Fails {ℓ} : {T : Type ℓ} → (T → Bool) → Settled T → Type 0
Fails is_failure (resolved t) = is_failure t ≡ true
Fails is_failure rejected = Unit {0}

Fails-call_failed {ℓ} :
    {T : Type ℓ} (is_failure : T → Bool) (r : Settled T)
    → Fails is_failure r
    → call_failed is_failure r ≡ true
unfolding call_failed
Fails-call_failed is_failure (resolved t) h = h
Fails-call_failed is_failure rejected h = refl

module _ {ℓ} {S T : Type ℓ} (o : CircuitBreakerOptions) (is_failure : T → Bool) (short : T) where
  -- One `execute` after another: what the breaker and the calls' state come to.
  pub execute_all : List (TimedCall S T) → CircuitBreaker → S → CircuitBreaker × S
  unfolding execute
  execute_all [] b s = (b, s)
  execute_all (c ∷ cs) b s =
      let r = execute o c.now c.later c.call is_failure short b s in execute_all cs r.1 r.2

  -- Each call, in the state that the ones before it leave, rejects or has a result that is a failure.
  abbrev pub AllFail : List (TimedCall S T) → S → Type 0
  AllFail [] s = Unit {0}
  AllFail (c ∷ cs) s = Fails is_failure (c.call s).0 × AllFail cs (c.call s).1

  abbrev pub last_end : ℕ → List (TimedCall S T) → ℕ
  last_end n [] = n
  last_end n (c ∷ cs) = last_end c.later cs

  abbrev pub end_state : List (TimedCall S T) → S → S
  end_state [] s = s
  end_state (c ∷ cs) s = end_state cs (c.call s).1

  fail_once :
      (c : TimedCall S T) (b : CircuitBreaker) (s : S)
      → 0 < o.failure_threshold
      → b.state ≡ CircuitState.closed
      → b.consecutive_failures < o.failure_threshold
      → call_failed is_failure (c.call s).0 ≡ true
      → let r = execute o c.now c.later c.call is_failure short b s in
        HasFailed o b 1 c.later r.1 × (r.2 ≡ (c.call s).1)
  unfolding execute
  fail_once c b s pos closed h f = (
    record { counted = ground arith; state = ground arith; opened_at = ground arith },
    ground arith,
  )

  -- Calls that run one after another on a closed circuit and that all fail, by rejecting or by a
  -- result that is a failure: each of them runs, each is counted, and the circuit stays closed
  -- while fewer than the threshold are counted and opens with the last one, at the time at which
  -- that one ends. There are no more calls than are missing to the threshold.
  pub execute_all-HasFailed :
      (cs : List (TimedCall S T)) (b : CircuitBreaker) (s : S)
      → b.state ≡ CircuitState.closed
      → b.consecutive_failures < o.failure_threshold
      → b.consecutive_failures + length cs ≤ o.failure_threshold
      → AllFail cs s
      → HasFailed o b (length cs) (last_end b.opened_at cs) (execute_all cs b s).0
        × ((execute_all cs b s).1 ≡ end_state cs s)
  unfolding execute_all
  execute_all-HasFailed [] b s closed below fits fail = (
    record { counted = omega arith; state = ground (arith, closed); opened_at = ground arith },
    refl,
  )
  execute_all-HasFailed (c ∷ []) b s closed below fits fail =
      fail_once c b s (omega arith) closed below (Fails-call_failed is_failure (c.call s).0 fail.0)
  execute_all-HasFailed (c ∷ d ∷ cs) b s closed below fits fail =
      let failed = Fails-call_failed is_failure (c.call s).0 fail.0 in
      let (once, same) = fail_once c b s (omega arith) closed below failed in
      let r = execute o c.now c.later c.call is_failure short b s in
      let rest =
        execute_all-HasFailed (d ∷ cs) r.1 r.2 (ground (arith, once.state))
          (omega (arith, once.counted)) (omega (arith, once.counted)) (rw same fail.1) in
      (
        record {
          counted = omega (arith, rest.0.counted, once.counted);
          state = ground (arith, rest.0.state, once.counted);
          opened_at = ground (arith, rest.0.opened_at, once.counted, once.opened_at);
        },
        rest.1 ∙ ap (end_state (d ∷ cs)) same,
      )

module _ {ℓ} {S T : Type ℓ} (o : CircuitBreakerOptions) (now later : ℕ) where
  -- Until the cooldown has passed since the circuit opened, `execute` never runs the call: it
  -- reports a rejection, gives the short-circuit result, and changes neither breaker nor state.
  pub execute_open :
      (call : S → Settled T × S) (is_failure : T → Bool) (short : T) (b : CircuitBreaker) (s : S)
      → 0 < o.failure_threshold
      → b.state ≡ opened
      → now < b.opened_at + o.cooldown_ms
      → execute o now later call is_failure short b s ≡ (resolved short, b, s, true)
  unfolding execute
  execute_open call is_failure short b s pos op early = ground arith

  -- Once the cooldown has passed the next call is a probe, and its outcome decides: on success the
  -- circuit is closed with no failures counted, on failure it is open again from the probe's end,
  -- under a new generation. The caller gets the call's own result.
  pub execute_probe :
      (call : S → Settled T × S) (is_failure : T → Bool) (short : T) (b : CircuitBreaker) (s : S)
      → 0 < o.failure_threshold
      → b.state ≡ opened
      → b.probe_in_flight ≡ false
      → b.opened_at + o.cooldown_ms ≤ now
      → let r = execute o now later call is_failure short b s in
        (r.0 ≡ (call s).0)
        × (r.2 ≡ (call s).1)
        × (r.3 ≡ false)
        × (r.1.probe_in_flight ≡ false)
        × (call_failed is_failure (call s).0 ≡ false
            → (r.1.state ≡ CircuitState.closed) × (r.1.consecutive_failures ≡ 0))
        × (call_failed is_failure (call s).0 ≡ true
            → (r.1.state ≡ opened) × (r.1.opened_at ≡ later) × (r.1.generation ≡ b.generation + 1))
  unfolding execute
  execute_probe call is_failure short b s pos op idle late = ground arith

  -- A threshold of 0 switches the breaker off: every call runs and nothing is recorded.
  pub execute_disabled :
      (call : S → Settled T × S) (is_failure : T → Bool) (short : T) (b : CircuitBreaker) (s : S)
      → o.failure_threshold ≡ 0
      → execute o now later call is_failure short b s ≡ ((call s).0, b, (call s).1, false)
  unfolding execute
  execute_disabled call is_failure short b s off = ground arith
