-- ===== src/Breaker/System.antt =====
-- Calls interleave at their `await`s: any number of admitted calls may be outstanding, and they
-- end in any order. The invariants of proxy/circuit-breaker.ts under every interleaving.
use firecrawl_gateway.Prelude.{
  ℕ, ◌+◌, ◌≤◌, ◌<◌, Bool, true, false, List, [], ◌∷◌, ◌++◌, none, some, ◌≡◌, ◌⊎◌, arith,
}
use firecrawl_gateway.Breaker.{
  CircuitState, half_open, PermitKind, probe, Permit, CircuitBreakerOptions, CircuitBreaker,
  new_breaker, acquire, release,
}

pub record System : Type 0 where
  pub breaker : CircuitBreaker
  pub outstanding : List Permit

abbrev pub start : System
start = record { breaker = new_breaker; outstanding = [] }

pub data Step (o : CircuitBreakerOptions) (s : System) (t : System) : Type 0 where
  admit :
      (now : ℕ) (b : CircuitBreaker) (p : Permit)
      → acquire o now s.breaker ≡ (b, some p)
      → t ≡ record { breaker = b; outstanding = p ∷ s.outstanding }
      → Step o s t
  reject :
      (now : ℕ) (b : CircuitBreaker)
      → acquire o now s.breaker ≡ (b, none)
      → t ≡ record { breaker = b; outstanding = s.outstanding }
      → Step o s t
  settle :
      (now : ℕ) (failed : Bool) (p : Permit) (before after : List Permit)
      → s.outstanding ≡ before ++ p ∷ after
      → t ≡ record { breaker = release o now p failed s.breaker; outstanding = before ++ after }
      → Step o s t

pub data Reach (o : CircuitBreakerOptions) (s : System) : System → Type 0 where
  here : Reach o s s
  next : {t u : System} → Reach o s t → Step o t u → Reach o s u

abbrev pub is_probe : PermitKind → ℕ
is_probe probe = 1
is_probe PermitKind.closed = 0

abbrev pub probes : List Permit → ℕ
probes [] = 0
probes (p ∷ ps) = is_probe p.kind + probes ps

pub probes-append : (ps qs : List Permit) → probes (ps ++ qs) ≡ probes ps + probes qs
probes-append [] qs = omega arith
probes-append (p ∷ ps) qs = omega (arith, probes-append ps qs)

-- A permit of the closed circuit was issued by an earlier generation, or by this one while the
-- circuit is closed.
abbrev pub IsCurrent : CircuitBreaker → PermitKind → ℕ → Type 0
IsCurrent b probe g = g ≤ b.generation
IsCurrent b PermitKind.closed g =
    (g < b.generation) ⊎ ((g ≡ b.generation) × (b.state ≡ CircuitState.closed))

abbrev pub AllCurrent : CircuitBreaker → List Permit → Type 0
AllCurrent b [] = Unit {0}
AllCurrent b (p ∷ ps) = IsCurrent b p.kind p.generation × AllCurrent b ps

abbrev pub flag : Bool → ℕ
flag true = 1
flag false = 0

abbrev pub probing : CircuitState → Bool
probing half_open = true
probing _ = false

-- The breaker's own part of the invariant.
pub record BreakerInv (o : CircuitBreakerOptions) (b : CircuitBreaker) : Type 0 where
  pub below : b.state ≡ CircuitState.closed → b.consecutive_failures < o.failure_threshold
  pub half : b.probe_in_flight ≡ probing b.state

pub record Inv (o : CircuitBreakerOptions) (s : System) : Type 0 where
  pub own : BreakerInv o s.breaker
  pub one_probe : probes s.outstanding ≡ flag s.breaker.probe_in_flight
  pub current : AllCurrent s.breaker s.outstanding
