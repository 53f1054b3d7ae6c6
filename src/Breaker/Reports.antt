-- ===== src/Breaker/Reports.antt =====
-- The state changes that proxy/circuit-breaker.ts reports through `onTransition`.
use firecrawl_gateway.Prelude.{
  ℕ, ◌<◌, Bool, true, false, List, [], ◌∷◌, ◌++◌, ◌≡◌, arith, refl, ap, sym,
}
use firecrawl_gateway.Breaker.{
  CircuitState, opened, half_open, probe, Permit, CircuitBreakerOptions, CircuitBreaker, acquire,
  release,
}
use firecrawl_gateway.Breaker.System.{
  System, start, Step, admit, reject, settle, Reach, here, next, probes, probes-append, Inv,
}
use firecrawl_gateway.Breaker.Invariant.{Reach-Inv}

-- The changes that the diagram of the circuit has.
abbrev pub is_edge : CircuitState → CircuitState → Bool
is_edge CircuitState.closed opened = true
is_edge opened half_open = true
is_edge half_open CircuitState.closed = true
is_edge half_open opened = true
is_edge _ _ = false

-- The reports, newest first, form a path of such changes from the closed circuit to `s`.
abbrev pub IsPath : CircuitState → List (CircuitState × CircuitState) → Type 0
IsPath s [] = s ≡ CircuitState.closed
IsPath s ((from, to) ∷ log) = (to ≡ s) × (is_edge from to ≡ true) × IsPath from log

abbrev pub IsReported : CircuitBreaker → Type 0
IsReported b = IsPath b.state b.transitions

acquire-IsReported :
    (o : CircuitBreakerOptions) (now : ℕ) (b : CircuitBreaker)
    → IsReported b
    → IsReported (acquire o now b).0
unfolding acquire
acquire-IsReported o now b c = ground arith

-- A probe ends in a half-open circuit.
release-IsReported :
    (o : CircuitBreakerOptions) (now : ℕ) (p : Permit) (failed : Bool) (b : CircuitBreaker)
    → (p.kind ≡ probe → b.state ≡ half_open)
    → IsReported b
    → IsReported (release o now p failed b)
unfolding release
release-IsReported o now p failed b h c = ground arith

probe_half_open :
    {o : CircuitBreakerOptions} {s : System} (p : Permit) (before after : List Permit)
    → Inv o s
    → s.outstanding ≡ before ++ p ∷ after
    → p.kind ≡ probe
    → s.breaker.state ≡ half_open
probe_half_open {o} {s} p before after v e k =
    let one : probes (before ++ p ∷ after) ≡ probes s.outstanding = ap probes (sym e) in
    ground (arith, v.one_probe, v.own.half, probes-append before (p ∷ after))

Step-IsReported :
    {o : CircuitBreakerOptions} {s t : System}
    → Inv o s
    → Step o s t
    → IsReported s.breaker
    → IsReported t.breaker
Step-IsReported {o} {s} v (admit now b p e q) c =
    rw q (rw e at (acquire-IsReported o now s.breaker c))
Step-IsReported {o} {s} v (reject now b e q) c =
    rw q (rw e at (acquire-IsReported o now s.breaker c))
Step-IsReported {o} {s} v (settle now failed p before after e q) c =
    rw q (release-IsReported o now p failed s.breaker (probe_half_open p before after v e) c)

-- Under every interleaving, the reported state changes form a path of the circuit's diagram
-- (closed to open, open to half-open, half-open to closed or open) from the closed circuit to the
-- present state: what a listener last heard is the breaker's state.
pub Reach-IsReported :
    {o : CircuitBreakerOptions} {s : System}
    → 0 < o.failure_threshold
    → Reach o start s
    → IsReported s.breaker
Reach-IsReported pos here = refl
Reach-IsReported pos (next r st) = Step-IsReported (Reach-Inv pos r) st (Reach-IsReported pos r)
