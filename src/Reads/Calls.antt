-- ===== src/Reads/Calls.antt =====
-- What a call returns (api-keys/api-keys.service.ts, settings/settings.service.ts).
use firecrawl_gateway.Prelude.{
  ℕ, Bool, false, List, [], ◌∷◌, Option, none, some, HasEq, ◌===◌, nat_eq, ltb, ◌≡◌, refl, ◌∙◌,
  arith, Bool-cases, inl, inr, All,
}
use firecrawl_gateway.Prelude.OrderedMap.{get}
use firecrawl_gateway.Reads.{
  Cached, CacheStore, Reads, Found, hit, joins, starts, begin, join_or_start, look_up,
}
use firecrawl_gateway.Reads.World.{
  World, Event, calls, queries, settles, fails, commits, invalidates, after_call, step, run,
}
use firecrawl_gateway.Reads.Fresh.{Awaits, IsFresh}

-- Whether an event writes the key's row.
abbrev pub writes {ℓ κ} : {K : Type ℓ} ⦃e : HasEq K⦄ {V : Type κ} → K → Event K V → Bool
writes k (commits j v) = j === k
writes k _ = false

-- What a call has got from the world: a cached value at once, or the answer of its request.
abbrev pub outcome {ℓ κ} : {K : Type ℓ} {V : Type κ} → Found V → ℕ → World K V → Option V
outcome (hit v) i w = some v
outcome (joins i) _ w = w.answers i
outcome starts i w = w.answers i

module _ {ℓ κ} {K : Type ℓ} ⦃e : HasEq K⦄ {V : Type κ} (s : CacheStore K V) (ttl : ℕ) where
  -- The value is the one in the database, or it comes from a request whose answer will be.
  abbrev IsCurrent : K → V → Found V → ℕ → World K V → Type (ℓ ⊔ κ)
  IsCurrent k u (hit v) i w = Unit {ℓ} × (v ≡ u)
  IsCurrent k u (joins i) _ w = Awaits s ttl k i w × (w.db k ≡ u)
  IsCurrent k u starts i w = Awaits s ttl k i w × (w.db k ≡ u)

  pub after_call_rest :
      (j : K) (w : World K V) (p : Reads K V × Found V) (k : K)
      → ((after_call s ttl j w p).db k ≡ w.db k) × ((after_call s ttl j w p).stale k ≡ w.stale k)
  after_call_rest j w (r, hit v) k = (refl, refl)
  after_call_rest j w (r, joins i) k = (refl, refl)
  after_call_rest j w (r, starts) k = (refl, refl)

  -- While nothing writes the key, its row stays, and it does not become stale.
  step_rest :
      (w : World K V) (event : Event K V) (k : K)
      → writes k event ≡ false
      → w.stale k ≡ false
      → ((step s ttl w event).db k ≡ w.db k) × ((step s ttl w event).stale k ≡ false)
  unfolding step
  step_rest w (calls j now) k h f =
      let rest = after_call_rest j w (begin j w.next now w.reads) k in (rest.0, rest.1 ∙ f)
  step_rest w (queries i) k h f = (refl, f)
  step_rest w (settles i now) k h f = (refl, f)
  step_rest w (fails i) k h f = (refl, f)
  step_rest w (commits j v) k h f = ground arith
  step_rest w (invalidates j) k h f = ground arith

  pub run_rest :
      (w : World K V) (events : List (Event K V)) (k : K)
      → All (λ event. writes k event ≡ false) events
      → w.stale k ≡ false
      → ((run s ttl w events).db k ≡ w.db k) × ((run s ttl w events).stale k ≡ false)
  unfolding run
  run_rest w [] k h f = (refl, f)
  run_rest w (event ∷ events) k h f =
      let now = step_rest w event k h.0 f in
      let later = run_rest (step s ttl w event) events k h.1 now.1 in (later.0 ∙ now.0, later.1)

  after_call-Awaits :
      (j : K) (w : World K V) (p : Reads K V × Found V) (k : K) (i : ℕ)
      → Awaits s ttl k i w
      → Awaits s ttl k i (after_call s ttl j w p)
  after_call-Awaits j w (r, hit v) k i a = record {
    started = a.started;
    keyed = a.keyed;
    current = a.current;
  }
  after_call-Awaits j w (r, joins n) k i a = record {
    started = a.started;
    keyed = a.keyed;
    current = a.current;
  }
  after_call-Awaits j w (r, starts) k i a = record {
    started = omega (arith, a.started);
    keyed = ground (arith, a.keyed, a.started);
    current = λ v h. ground (arith, a.started, a.current v);
  }

  step-Awaits :
      (w : World K V) (event : Event K V) (k : K) (i : ℕ)
      → writes k event ≡ false
      → Awaits s ttl k i w
      → Awaits s ttl k i (step s ttl w event)
  unfolding step
  step-Awaits w (calls j now) k i h a = after_call-Awaits j w (begin j w.next now w.reads) k i a
  step-Awaits w (queries n) k i h a = record {
    started = a.started;
    keyed = a.keyed;
    current = λ v g. ground (arith, a.keyed, a.current v);
  }
  step-Awaits w (settles n now) k i h a = record {
    started = a.started;
    keyed = a.keyed;
    current = a.current;
  }
  step-Awaits w (fails n) k i h a = record {
    started = a.started;
    keyed = a.keyed;
    current = a.current;
  }
  step-Awaits w (commits j v) k i h a = record {
    started = a.started;
    keyed = a.keyed;
    current = λ u g. ground (arith, a.current u);
  }
  step-Awaits w (invalidates j) k i h a = record {
    started = a.started;
    keyed = a.keyed;
    current = a.current;
  }

  run-Awaits :
      (w : World K V) (events : List (Event K V)) (k : K) (i : ℕ)
      → All (λ event. writes k event ≡ false) events
      → Awaits s ttl k i w
      → Awaits s ttl k i (run s ttl w events)
  unfolding run
  run-Awaits w [] k i h a = a
  run-Awaits w (event ∷ events) k i h a =
      run-Awaits (step s ttl w event) events k i h.1 (step-Awaits w event k i h.0 a)

  -- A call for a key that is not stale.
  join_or_start-IsCurrent :
      (w : World K V) (k : K) (o : Option ℕ)
      → get k w.reads.in_flight ≡ o
      → w.stale k ≡ false
      → IsFresh s ttl w
      → let p = join_or_start k w.next w.reads o in
        IsCurrent k (w.db k) p.1 w.next (after_call s ttl k w p)
  join_or_start-IsCurrent w k (some i) g h f = (
    record {
      started = (f.registered k i g).0;
      keyed = (f.registered k i g).1;
      current = λ v a. f.awaited k i v h g a;
    },
    refl,
  )
  join_or_start-IsCurrent w k none g h f =
      (record { started = omega arith; keyed = ground arith; current = λ v a. ground arith }, refl)

  look_up-IsCurrent :
      (w : World K V) (k : K) (now : ℕ) (o : Option (Cached V))
      → get k w.reads.cache ≡ o
      → w.stale k ≡ false
      → IsFresh s ttl w
      → let p = look_up k w.next now w.reads o in
        IsCurrent k (w.db k) p.1 w.next (after_call s ttl k w p)
  look_up-IsCurrent w k now none g h f =
      join_or_start-IsCurrent w k (get k w.reads.in_flight) refl h f
  look_up-IsCurrent w k now (some c) g h f = elim (Bool-cases (ltb now c.expires_at)) [
    | inl t ↦ rw t (tt, f.cached k c h g)
    | inr t ↦ rw t (join_or_start-IsCurrent w k (get k w.reads.in_flight) refl h f)
  ]

  -- What the call has in the end, if nothing writes the key in the meantime.
  outcome-IsCurrent :
      (w : World K V) (events : List (Event K V)) (k : K) (u v : V) (i : ℕ) (found : Found V)
      → All (λ event. writes k event ≡ false) events
      → w.stale k ≡ false
      → IsCurrent k u found i w
      → outcome found i (run s ttl w events) ≡ some v
      → v ≡ u
  outcome-IsCurrent w events k u v i (hit x) h f c o = cc (c.1)
  outcome-IsCurrent w events k u v i (joins n) h f c o =
      (run-Awaits w events k n h c.0).current v o ∙ (run_rest w events k h f).0 ∙ c.1
  outcome-IsCurrent w events k u v i starts h f c o =
      (run-Awaits w events k i h c.0).current v o ∙ (run_rest w events k h f).0 ∙ c.1

  -- A call returns the row that was in the database when it started.
  pub call_current :
      (w : World K V) (k : K) (now : ℕ) (events : List (Event K V)) (v : V)
      → IsFresh s ttl w
      → w.stale k ≡ false
      → All (λ event. writes k event ≡ false) events
      → outcome
          (begin k w.next now w.reads).1
          w.next
          (run s ttl (step s ttl w (calls k now)) events)
        ≡ some v
      → v ≡ w.db k
  unfolding step begin
  call_current w k now events v f h n o =
      let p = begin k w.next now w.reads in
      outcome-IsCurrent (after_call s ttl k w p) events k (w.db k) v w.next p.1 n
        ((after_call_rest k w p k).1 ∙ h) (look_up-IsCurrent w k now (get k w.reads.cache) refl h f)
        o
