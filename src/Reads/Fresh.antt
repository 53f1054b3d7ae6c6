-- ===== src/Reads/Fresh.antt =====
-- What a reader may get while others write (api-keys/api-keys.service.ts,
-- settings/settings.service.ts).
use firecrawl_gateway.Prelude.{
  ℕ, ◌+◌, ◌<◌, true, false, List, [], ◌∷◌, Option, none, some, HasEq, nat_eq, ltb, ◌≡◌, inl, inr,
  refl, sym, ap, ◌∙◌, arith, Bool-cases, Option-cases,
}
use firecrawl_gateway.Prelude.OrderedMap.{
  get, delete, Distinct, get-set, get-delete, delete-Distinct, set-Distinct,
}
use firecrawl_gateway.Reads.{
  Cached, CacheStore, Reads, begin, join_or_start, look_up, is_registered, finish, fail_request,
  invalidate,
}
use firecrawl_gateway.Reads.World.{
  World, Event, calls, queries, settles, fails, commits, invalidates, after_call, step, run,
  new_world,
}

module _ {ℓ κ} {K : Type ℓ} ⦃e : HasEq K⦄ {V : Type κ} (s : CacheStore K V) (ttl : ℕ) where
  -- A request for the key whose answer, once it has one, is the database's.
  pub record Awaits (k : K) (i : ℕ) (w : World K V) : Type (ℓ ⊔ κ) where
    pub started : i < w.next
    pub keyed : w.key_of i ≡ some k
    pub current : (v : V) → w.answers i ≡ some v → v ≡ w.db k

  -- For a key that is not stale, the cache and the request under way agree with the database.
  pub record IsFresh (w : World K V) : Type (ℓ ⊔ κ) where
    pub cache_distinct : Distinct w.reads.cache
    pub flight_distinct : Distinct w.reads.in_flight
    pub cached :
        (k : K) (c : Cached V) → w.stale k ≡ false → get k w.reads.cache ≡ some c → c.value ≡ w.db k
    pub registered :
        (k : K) (i : ℕ) → get k w.reads.in_flight ≡ some i → (i < w.next) × (w.key_of i ≡ some k)
    pub awaited :
        (k : K) (i : ℕ) (v : V)
        → w.stale k ≡ false
        → get k w.reads.in_flight ≡ some i
        → w.answers i ≡ some v
        → v ≡ w.db k

  step_commits-IsFresh :
      (w : World K V) (k : K) (v : V) → IsFresh w → IsFresh (step s ttl w (commits k v))
  unfolding step
  step_commits-IsFresh w k v f = record {
    cache_distinct = f.cache_distinct;
    flight_distinct = f.flight_distinct;
    cached = λ j c h g. ground (arith, e.equal_iff k j, f.cached j c);
    registered = f.registered;
    awaited = λ j i u h g a. ground (arith, e.equal_iff k j, f.awaited j i u);
  }

  step_invalidates-IsFresh :
      (w : World K V) (k : K) → IsFresh w → IsFresh (step s ttl w (invalidates k))
  unfolding step invalidate
  step_invalidates-IsFresh w k f = record {
    cache_distinct = delete-Distinct k w.reads.cache f.cache_distinct;
    flight_distinct = delete-Distinct k w.reads.in_flight f.flight_distinct;
    cached = λ j c h g. ground (arith, get-delete k j w.reads.cache f.cache_distinct, f.cached j c);
    registered = λ j i g.
        ground (arith, get-delete k j w.reads.in_flight f.flight_distinct, f.registered j i);
    awaited = λ j i u h g a.
        ground (arith, get-delete k j w.reads.in_flight f.flight_distinct, f.awaited j i u);
  }

  step_queries-IsFresh : (w : World K V) (i : ℕ) → IsFresh w → IsFresh (step s ttl w (queries i))
  unfolding step
  step_queries-IsFresh w i f = record {
    cache_distinct = f.cache_distinct;
    flight_distinct = f.flight_distinct;
    cached = f.cached;
    registered = f.registered;
    awaited = λ j n u h g a. ground (arith, f.registered j n, f.awaited j n u);
  }

  -- Deregistering a request keeps what holds of the others.
  deregistered-IsFresh :
      (w : World K V) (k : K)
      → IsFresh w
      → IsFresh (record w { reads = record w.reads { in_flight = delete k w.reads.in_flight } })
  deregistered-IsFresh w k f = record {
    cache_distinct = f.cache_distinct;
    flight_distinct = delete-Distinct k w.reads.in_flight f.flight_distinct;
    cached = f.cached;
    registered = λ j i g.
        ground (arith, get-delete k j w.reads.in_flight f.flight_distinct, f.registered j i);
    awaited = λ j i u h g a.
        ground (arith, get-delete k j w.reads.in_flight f.flight_distinct, f.awaited j i u);
  }

  step_fails-IsFresh : (w : World K V) (i : ℕ) → IsFresh w → IsFresh (step s ttl w (fails i))
  unfolding step fail_request
  step_fails-IsFresh w i f = elim (Option-cases (w.key_of i)) [
    | inl n ↦ rw (n, step) f
    | inr (k, n) ↦ elim (Bool-cases (is_registered k i w.reads)) [
      | inl r ↦ rw (n, step, fail_request) (rw (r, fail_request) (deregistered-IsFresh w k f))
      | inr r ↦ rw (n, step, fail_request) (rw (r, fail_request) f)
    ]
  ]

  put-IsFresh :
      (w : World K V) (k : K) (v : V) (at : ℕ)
      → IsFresh w
      → (w.stale k ≡ false → v ≡ w.db k)
      → IsFresh (record w {
        reads = record w.reads {
          cache = s.put k (record { value = v; expires_at = at }) w.reads.cache;
        };
      })
  put-IsFresh w k v at f h = record {
    cache_distinct =
        s.put-Distinct k (record { value = v; expires_at = at }) w.reads.cache f.cache_distinct;
    flight_distinct = f.flight_distinct;
    cached = λ j c u g.
        elim (s.put-get k j (record { value = v; expires_at = at }) c w.reads.cache f.cache_distinct
          g) [
            | inl (same, new) ↦
                sym (ap (λ (d : Cached V). d.value) new) ∙ h (ap w.stale same ∙ u) ∙ ap w.db same
            | inr old ↦ f.cached j c u old
          ];
    registered = f.registered;
    awaited = f.awaited;
  }

  is_registered-get :
      (k : K) (i : ℕ) (r : Reads K V) → is_registered k i r ≡ true → get k r.in_flight ≡ some i
  is_registered-get k i r h = ground arith

  step_settles-IsFresh :
      (w : World K V) (i now : ℕ) → IsFresh w → IsFresh (step s ttl w (settles i now))
  unfolding step finish
  step_settles-IsFresh w i now f = elim (Option-cases (w.key_of i)) [
    | inl n ↦ rw (n, step) f
    | inr (k, n) ↦ elim (Option-cases (w.answers i)) [
      | inl a ↦ rw (n, step) (rw (a, step) f)
      | inr (v, a) ↦ elim (Bool-cases (is_registered k i w.reads)) [
        | inl r ↦
            let g = is_registered-get k i w.reads r in
            rw (n, step)
              (rw (a, step, finish)
                (rw (r, finish)
                  (deregistered-IsFresh _ k
                    (put-IsFresh w k v (now + ttl) f (λ h. f.awaited k i v h g a)))))
        | inr r ↦ rw (n, step) (rw (a, step, finish) (rw (r, finish) f))
      ]
    ]
  ]

  -- A call that finds nothing: an entry that has expired goes, and it joins a request or starts one.
  join_or_start-IsFresh :
      (w : World K V) (k : K) (o : Option ℕ)
      → get k w.reads.in_flight ≡ o
      → IsFresh w
      → IsFresh (after_call s ttl k w (join_or_start k w.next w.reads o))
  join_or_start-IsFresh w k (some i) g f = record {
    cache_distinct = delete-Distinct k w.reads.cache f.cache_distinct;
    flight_distinct = f.flight_distinct;
    cached = λ j c h d. ground (arith, get-delete k j w.reads.cache f.cache_distinct, f.cached j c);
    registered = f.registered;
    awaited = f.awaited;
  }
  join_or_start-IsFresh w k none g f = record {
    cache_distinct = delete-Distinct k w.reads.cache f.cache_distinct;
    flight_distinct = set-Distinct k w.next w.reads.in_flight f.flight_distinct;
    cached = λ j c h d. ground (arith, get-delete k j w.reads.cache f.cache_distinct, f.cached j c);
    registered = λ j i d.
        ground (arith, e.equal_iff k j, get-set k j w.next w.reads.in_flight, f.registered j i);
    awaited = λ j i v h d a.
        ground (arith, get-set k j w.next w.reads.in_flight, f.registered j i, f.awaited j i v);
  }

  look_up-IsFresh :
      (w : World K V) (k : K) (now : ℕ) (o : Option (Cached V))
      → IsFresh w
      → IsFresh (after_call s ttl k w (look_up k w.next now w.reads o))
  look_up-IsFresh w k now none f = join_or_start-IsFresh w k (get k w.reads.in_flight) refl f
  look_up-IsFresh w k now (some c) f = elim (Bool-cases (ltb now c.expires_at)) [
    | inl h ↦ rw h f
    | inr h ↦ rw h (join_or_start-IsFresh w k (get k w.reads.in_flight) refl f)
  ]

  pub step-IsFresh : (w : World K V) (event : Event K V) → IsFresh w → IsFresh (step s ttl w event)
  unfolding step begin
  step-IsFresh w (calls k now) f = look_up-IsFresh w k now (get k w.reads.cache) f
  step-IsFresh w (queries i) f = step_queries-IsFresh w i f
  step-IsFresh w (settles i now) f = step_settles-IsFresh w i now f
  step-IsFresh w (fails i) f = step_fails-IsFresh w i f
  step-IsFresh w (commits k v) f = step_commits-IsFresh w k v f
  step-IsFresh w (invalidates k) f = step_invalidates-IsFresh w k f

  pub run-IsFresh :
      (w : World K V) (events : List (Event K V)) → IsFresh w → IsFresh (run s ttl w events)
  unfolding run
  run-IsFresh w [] f = f
  run-IsFresh w (event ∷ events) f =
      run-IsFresh (step s ttl w event) events (step-IsFresh w event f)

  pub new_world-IsFresh : (db : K → V) → IsFresh (new_world db)
  unfolding get
  new_world-IsFresh db = record {
    cache_distinct = tt;
    flight_distinct = tt;
    cached = λ k c h g. cc;
    registered = λ k i g. cc;
    awaited = λ k i v h g a. cc;
  }
