-- ===== src/Reads/Acknowledged.antt =====
-- A call after an acknowledged write (api-keys/api-keys.service.ts, settings/settings.service.ts).
use firecrawl_gateway.Prelude.{
  ℕ, false, List, [], ◌∷◌, some, HasEq, nat_eq, ◌≡◌, refl, ◌∙◌, arith, All,
}
use firecrawl_gateway.Reads.{CacheStore, begin}
use firecrawl_gateway.Reads.World.{
  World, Event, calls, queries, settles, fails, commits, invalidates, step, run, new_world,
}
use firecrawl_gateway.Reads.Fresh.{run-IsFresh, new_world-IsFresh, step-IsFresh}
use firecrawl_gateway.Reads.Calls.{writes, outcome, after_call_rest, run_rest, call_current}

-- None of the events writes the key.
abbrev pub AllKeep {ℓ κ} : {K : Type ℓ} ⦃e : HasEq K⦄ {V : Type κ} → K → List (Event K V) → Type 0
AllKeep k = All (λ event. writes k event ≡ false)

module _ {ℓ κ} {K : Type ℓ} ⦃e : HasEq K⦄ {V : Type κ} (s : CacheStore K V) (ttl : ℕ) where
  step_db :
      (w : World K V) (event : Event K V) (k : K)
      → writes k event ≡ false
      → (step s ttl w event).db k ≡ w.db k
  unfolding step
  step_db w (calls j now) k h = (after_call_rest s ttl j w (begin j w.next now w.reads) k).0
  step_db w (queries i) k h = refl
  step_db w (settles i now) k h = refl
  step_db w (fails i) k h = refl
  step_db w (commits j v) k h = ground arith
  step_db w (invalidates j) k h = refl

  run_db :
      (w : World K V) (events : List (Event K V)) (k : K)
      → AllKeep k events
      → (run s ttl w events).db k ≡ w.db k
  unfolding run
  run_db w [] k h = refl
  run_db w (event ∷ events) k h = run_db (step s ttl w event) events k h.1 ∙ step_db w event k h.0

  -- The world once a write has been committed and its caller has invalidated the key, with other
  -- events before, in between and afterwards.
  abbrev pub acknowledged :
      K → V → (K → V) → List (Event K V) → List (Event K V) → List (Event K V) → World K V
  acknowledged k v db before between after =
      let committed = step s ttl (run s ttl (new_world db) before) (commits k v) in
      run s ttl (step s ttl (run s ttl committed between) (invalidates k)) after

  pub acknowledged_db :
      (k : K) (v : V) (db : K → V) (before between after : List (Event K V))
      → AllKeep k between
      → AllKeep k after
      → (acknowledged k v db before between after).db k ≡ v
  unfolding step
  acknowledged_db k v db before between after h g =
      let committed = step s ttl (run s ttl (new_world db) before) (commits k v) in
      let invalidated = step s ttl (run s ttl committed between) (invalidates k) in
      run_db invalidated after k g ∙ run_db committed between k h ∙ ground (arith, e.equal_iff k k)

  pub acknowledged_stale :
      (k : K) (v : V) (db : K → V) (before between after : List (Event K V))
      → AllKeep k after
      → (acknowledged k v db before between after).stale k ≡ false
  unfolding step
  acknowledged_stale k v db before between after g =
      let committed = step s ttl (run s ttl (new_world db) before) (commits k v) in
      let invalidated = step s ttl (run s ttl committed between) (invalidates k) in
      (run_rest s ttl invalidated after k g (ground (arith, e.equal_iff k k))).1

  -- A call after the acknowledgement returns what was written.
  pub acknowledged_call :
      (k : K) (v u : V) (db : K → V) (before between after events : List (Event K V)) (now : ℕ)
      → AllKeep k between
      → AllKeep k after
      → AllKeep k events
      → let w = acknowledged k v db before between after in
        outcome
            (begin k w.next now w.reads).1
            w.next
            (run s ttl (step s ttl w (calls k now)) events)
          ≡ some u
        → u ≡ v
  acknowledged_call k v u db before between after events now h g n o =
      let w = acknowledged k v db before between after in
      let committed = step s ttl (run s ttl (new_world db) before) (commits k v) in
      let invalidated = step s ttl (run s ttl committed between) (invalidates k) in
      let fresh = run-IsFresh s ttl invalidated after (
        step-IsFresh s ttl (run s ttl committed between) (invalidates k) (
          run-IsFresh s ttl committed between (
            step-IsFresh s ttl (run s ttl (new_world db) before) (commits k v)
              (run-IsFresh s ttl (new_world db) before (new_world-IsFresh s ttl db))))) in
      call_current s ttl w k now events u fresh (acknowledged_stale k v db before between after g) n
        o
      ∙ acknowledged_db k v db before between after h g
