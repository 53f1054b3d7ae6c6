-- ===== src/Breaker/Invariant.antt =====
-- The invariant of the circuit breaker (proxy/circuit-breaker.ts) under every interleaving.
use firecrawl_gateway.Prelude.{
  ℕ, ◌+◌, ◌≤◌, ◌<◌, Bool, List, [], ◌∷◌, ◌++◌, Option, none, some, ◌≡◌, ◌⊎◌, inl, inr, arith, refl,
}
use firecrawl_gateway.Breaker.{
  CircuitState, PermitKind, probe, Permit, CircuitBreakerOptions, CircuitBreaker, acquire, release,
}
use firecrawl_gateway.Breaker.System.{
  System, start, Step, admit, reject, settle, Reach, here, next, is_probe, probes, probes-append,
  IsCurrent, AllCurrent, flag, BreakerInv, Inv,
}

-- What `acquire` does to the breaker and to the permits.
acquire-BreakerInv :
    (o : CircuitBreakerOptions) (now : ℕ) (b : CircuitBreaker)
    → BreakerInv o b
    → BreakerInv o (acquire o now b).0
unfolding acquire
acquire-BreakerInv o now b v = ground arith

abbrev Admitted : CircuitBreaker → CircuitBreaker → Option Permit → Type 0
Admitted b b' none = b'.probe_in_flight ≡ b.probe_in_flight
Admitted b b' (some p) =
    IsCurrent b' p.kind p.generation
    × (flag b'.probe_in_flight ≡ is_probe p.kind + flag b.probe_in_flight)

acquire-Admitted :
    (o : CircuitBreakerOptions) (now : ℕ) (b : CircuitBreaker)
    → BreakerInv o b
    → Admitted b (acquire o now b).0 (acquire o now b).1
unfolding acquire
acquire-Admitted o now b v = ground arith

-- `acquire` neither bumps the generation nor closes the circuit, and leaves a closed one alone.
acquire_keeps :
    (o : CircuitBreakerOptions) (now : ℕ) (b : CircuitBreaker)
    → ((acquire o now b).0.generation ≡ b.generation)
      × (b.state ≡ CircuitState.closed → (acquire o now b).0.state ≡ CircuitState.closed)
unfolding acquire
acquire_keeps o now b = ground arith

IsCurrent-mono :
    (b c : CircuitBreaker) (k : PermitKind) (g : ℕ)
    → b.generation ≤ c.generation
    → (b.state ≡ CircuitState.closed
        → (c.state ≡ CircuitState.closed) ⊎ (b.generation < c.generation))
    → IsCurrent b k g
    → IsCurrent c k g
IsCurrent-mono b c probe g h f w = omega arith
IsCurrent-mono b c PermitKind.closed g h f w = ground arith

AllCurrent-mono :
    (b c : CircuitBreaker) (ps : List Permit)
    → b.generation ≤ c.generation
    → (b.state ≡ CircuitState.closed
        → (c.state ≡ CircuitState.closed) ⊎ (b.generation < c.generation))
    → AllCurrent b ps
    → AllCurrent c ps
AllCurrent-mono b c [] h f w = tt
AllCurrent-mono b c (p ∷ ps) h f w =
    (IsCurrent-mono b c p.kind p.generation h f w.0, AllCurrent-mono b c ps h f w.1)

release-BreakerInv :
    (o : CircuitBreakerOptions) (now : ℕ) (p : Permit) (failed : Bool) (b : CircuitBreaker)
    → 0 < o.failure_threshold
    → BreakerInv o b
    → BreakerInv o (release o now p failed b)
unfolding release
release-BreakerInv o now p failed b pos v = ground arith

release_monotone :
    (o : CircuitBreakerOptions) (now : ℕ) (p : Permit) (failed : Bool) (b : CircuitBreaker)
    → (b.generation ≤ (release o now p failed b).generation)
      × (b.state ≡ CircuitState.closed
          → ((release o now p failed b).state ≡ CircuitState.closed)
            ⊎ (b.generation < (release o now p failed b).generation))
unfolding release
release_monotone o now p failed b = ground arith

-- A probe's end clears the flag; another permit leaves it.
release-flag :
    (o : CircuitBreakerOptions) (now : ℕ) (p : Permit) (failed : Bool) (b : CircuitBreaker) (n : ℕ)
    → is_probe p.kind + n ≡ flag b.probe_in_flight
    → n ≡ flag (release o now p failed b).probe_in_flight
unfolding release
release-flag o now p failed b n h = ground arith

AllCurrent-remove :
    (b : CircuitBreaker) (p : Permit) (before after : List Permit)
    → AllCurrent b (before ++ p ∷ after)
    → AllCurrent b (before ++ after)
AllCurrent-remove b p [] after w = w.1
AllCurrent-remove b p (q ∷ before) after w = (w.0, AllCurrent-remove b p before after w.1)

start-Inv : (o : CircuitBreakerOptions) → 0 < o.failure_threshold → Inv o start
start-Inv o pos = record {
  own = record { below = λ _. pos; half = refl };
  one_probe = refl;
  current = tt;
}

acquired-BreakerInv :
    (o : CircuitBreakerOptions) (now : ℕ) (b c : CircuitBreaker) (r : Option Permit)
    → acquire o now b ≡ (c, r)
    → BreakerInv o b
    → BreakerInv o c × Admitted b c r
acquired-BreakerInv o now b c r e v =
    (rw e at (acquire-BreakerInv o now b v), rw e at (acquire-Admitted o now b v))

acquired-AllCurrent :
    (o : CircuitBreakerOptions) (now : ℕ) (b c : CircuitBreaker) (r : Option Permit)
    → acquire o now b ≡ (c, r)
    → (ps : List Permit) → AllCurrent b ps
    → AllCurrent c ps
acquired-AllCurrent o now b c r e ps w =
    let k = rw e at (acquire_keeps o now b) in
    AllCurrent-mono b c ps (omega arith) (λ h. inl (k.1 h)) w

admit-Inv :
    (o : CircuitBreakerOptions) (now : ℕ) (s : System) (b : CircuitBreaker) (p : Permit)
    → acquire o now s.breaker ≡ (b, some p)
    → Inv o s
    → Inv o (record { breaker = b; outstanding = p ∷ s.outstanding })
admit-Inv o now s b p e v =
    let a = acquired-BreakerInv o now s.breaker b (some p) e v.own in
    record {
      own = a.0;
      one_probe = omega arith;
      current = (a.1.0, acquired-AllCurrent o now s.breaker b (some p) e s.outstanding v.current);
    }

reject-Inv :
    (o : CircuitBreakerOptions) (now : ℕ) (s : System) (b : CircuitBreaker)
    → acquire o now s.breaker ≡ (b, none)
    → Inv o s
    → Inv o (record { breaker = b; outstanding = s.outstanding })
reject-Inv o now s b e v =
    let a = acquired-BreakerInv o now s.breaker b none e v.own in
    record {
      own = a.0;
      one_probe = rw a.1 v.one_probe;
      current = acquired-AllCurrent o now s.breaker b none e s.outstanding v.current;
    }

settle-Inv :
    (o : CircuitBreakerOptions) (now : ℕ) (failed : Bool) (s : System) (p : Permit)
    → (before after : List Permit) → 0 < o.failure_threshold
    → s.outstanding ≡ before ++ p ∷ after
    → Inv o s
    → Inv o (record { breaker = release o now p failed s.breaker; outstanding = before ++ after })
settle-Inv o now failed s p before after pos e v =
    let m = release_monotone o now p failed s.breaker in
    let one : probes (before ++ p ∷ after) ≡ flag s.breaker.probe_in_flight = rw e at v.one_probe in
    record {
      own = release-BreakerInv o now p failed s.breaker pos v.own;
      one_probe =
          release-flag o now p failed s.breaker (probes (before ++ after))
            (omega (arith, one, probes-append before (p ∷ after), probes-append before after));
      current =
          AllCurrent-mono s.breaker (release o now p failed s.breaker) (before ++ after) m.0 m.1
            (AllCurrent-remove s.breaker p before after (rw e at v.current));
    }

Step-Inv :
    {o : CircuitBreakerOptions} {s t : System}
    → 0 < o.failure_threshold
    → Step o s t
    → Inv o s
    → Inv o t
Step-Inv {o} {s} pos (admit now b p e q) v = rw q (admit-Inv o now s b p e v)
Step-Inv {o} {s} pos (reject now b e q) v = rw q (reject-Inv o now s b e v)
Step-Inv {o} {s} pos (settle now failed p before after e q) v =
    rw q (settle-Inv o now failed s p before after pos e v)

-- In every state that the breaker can reach, with a positive threshold, the circuit is half-open
-- exactly while one probe is outstanding and there is never a second one; a closed circuit has
-- counted fewer failures than the threshold; and every outstanding permit of a closed circuit is
-- from an earlier generation, or from this one while the circuit is still closed.
pub Reach-Inv :
    {o : CircuitBreakerOptions} {s : System} → 0 < o.failure_threshold → Reach o start s → Inv o s
Reach-Inv {o} pos here = start-Inv o pos
Reach-Inv pos (next r st) = Step-Inv pos st (Reach-Inv pos r)

-- A release under a closed circuit's permit of an earlier generation changes nothing.
release_stale :
    (o : CircuitBreakerOptions) (now : ℕ) (p : Permit) (failed : Bool) (b : CircuitBreaker)
    → p.kind ≡ PermitKind.closed
    → p.generation < b.generation
    → release o now p failed b ≡ b
unfolding release
release_stale o now p failed b k h = ground arith

generation_mono :
    {o : CircuitBreakerOptions} {s t : System}
    → Reach o s t
    → s.breaker.generation ≤ t.breaker.generation
generation_mono here = omega arith
generation_mono {o} (next {t} r (admit now b p e q)) =
    let k = rw e at (acquire_keeps o now t.breaker) in rw q (omega (arith, generation_mono r, k.0))
generation_mono {o} (next {t} r (reject now b e q)) =
    let k = rw e at (acquire_keeps o now t.breaker) in rw q (omega (arith, generation_mono r, k.0))
generation_mono {o} (next {t} r (settle now failed p before after e q)) =
    rw q (omega (arith, generation_mono r, (release_monotone o now p failed t.breaker).0))

Step-opens :
    {o : CircuitBreakerOptions} {s t : System}
    → Step o s t
    → s.breaker.state ≡ CircuitState.closed
    → (t.breaker.state ≡ CircuitState.closed) ⊎ (s.breaker.generation < t.breaker.generation)
Step-opens {o} {s} (admit now b p e q) c =
    let k = rw e at (acquire_keeps o now s.breaker) in rw q (inl (k.1 c))
Step-opens {o} {s} (reject now b e q) c =
    let k = rw e at (acquire_keeps o now s.breaker) in rw q (inl (k.1 c))
Step-opens {o} {s} (settle now failed p before after e q) c =
    rw q ((release_monotone o now p failed s.breaker).1 c)

-- A circuit that was closed and no longer is has a new generation since.
Reach-opens :
    {o : CircuitBreakerOptions} {s t : System}
    → Reach o s t
    → s.breaker.state ≡ CircuitState.closed
    → (t.breaker.state ≡ CircuitState.closed) ⊎ (s.breaker.generation < t.breaker.generation)
Reach-opens here c = inl c
Reach-opens (next {t} r st) c = elim (Reach-opens r c) [
  | inl d ↦ elim (Step-opens st d) [
    | inl e ↦ inl e
    | inr h ↦ inr (omega (arith, generation_mono r, h))
  ]
  | inr h ↦ inr (omega (arith, h, generation_mono (next here st)))
]

-- A permit of the closed circuit is of the generation of that circuit.
abbrev ClosedPermit : CircuitBreaker → Option Permit → Type 0
ClosedPermit b none = Unit {0}
ClosedPermit b (some p) =
    p.kind ≡ PermitKind.closed → (b.state ≡ CircuitState.closed) × (p.generation ≡ b.generation)

acquire-ClosedPermit :
    (o : CircuitBreakerOptions) (now : ℕ) (b : CircuitBreaker)
    → ClosedPermit (acquire o now b).0 (acquire o now b).1
unfolding acquire
acquire-ClosedPermit o now b = ground arith

acquired-ClosedPermit :
    (o : CircuitBreakerOptions) (now : ℕ) (b c : CircuitBreaker) (r : Option Permit)
    → acquire o now b ≡ (c, r)
    → ClosedPermit c r
acquired-ClosedPermit o now b c r e = rw e at (acquire-ClosedPermit o now b)

-- However the calls interleave, a call that the closed circuit admitted and that ends after the
-- circuit has opened has no effect on the breaker, whether it failed or not: neither while the
-- circuit is open or half-open, nor after it has recovered, nor when it opens again.
pub Reach-release_stale :
    {o : CircuitBreakerOptions} (start_time end_time : ℕ) (s u t : System) (b : CircuitBreaker)
    (p : Permit) (failed : Bool)
    → acquire o start_time s.breaker ≡ (b, some p)
    → p.kind ≡ PermitKind.closed
    → Reach o (record { breaker = b; outstanding = p ∷ s.outstanding }) u
    → u.breaker.state ≡ CircuitState.opened
    → Reach o u t
    → release o end_time p failed t.breaker ≡ t.breaker
Reach-release_stale {o} start_time end_time s u t b p failed e k r opens later =
    let (c, g) = acquired-ClosedPermit o start_time s.breaker b (some p) e k in
    release_stale o end_time p failed t.breaker k (elim (Reach-opens r c) [
      | inl d ↦ ground (arith, opens, d)
      | inr h ↦ omega (arith, h, g, generation_mono later)
    ])
