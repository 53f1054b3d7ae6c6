-- ===== src/RateLimits/Drained.antt =====
-- What `drain` of common/rate-limit-counter.ts leaves behind.
use firecrawl_gateway.Prelude.{
  ℕ, suc, ◌+◌, ◌≤◌, List, [], ◌∷◌, Option, some, ◌≡◌, ◌⊎◌, refl, sym, ap, subst, arith, inl, inr,
}
use firecrawl_gateway.Prelude.OrderedMap.{Distinct, Fresh}
use firecrawl_gateway.Prelude.Text.{Text, codes_eq}
use firecrawl_gateway.RateLimits.{RateLimitBucket, Row, RateLimitCounter}
use firecrawl_gateway.RateLimits.Draining.{
  Outcomes, settle_all, pending_of, flush_all, continue, drain_loop, AllClear, AllGrounded,
  AllGrounded-nil, settle_all_rest, settle_all-flush_in_flight, flush_all-le, flush_all-AllClear,
}

pending_of-Fresh :
    (heap : ℕ → RateLimitBucket) (key : Text) (m : List (Text × ℕ))
    → Fresh key m
    → Fresh key (pending_of heap m)
unfolding pending_of
pending_of-Fresh heap key [] f = tt
pending_of-Fresh heap key ((j, b) ∷ m) f = ground (arith, pending_of-Fresh heap key m f.1)

pending_of-Distinct :
    (heap : ℕ → RateLimitBucket) (m : List (Text × ℕ)) → Distinct m → Distinct (pending_of heap m)
unfolding pending_of
pending_of-Distinct heap [] d = tt
pending_of-Distinct heap ((j, b) ∷ m) d =
    ground (arith, pending_of-Fresh heap j m d.0, pending_of-Distinct heap m d.1)

AllClear-pending_of :
    (heap later : ℕ → RateLimitBucket) (m : List (Text × ℕ))
    → ((i : ℕ) → (later i).pending_delta ≤ (heap i).pending_delta)
    → AllClear later (pending_of heap m)
    → AllClear later m
unfolding pending_of
AllClear-pending_of heap later [] h v = tt
AllClear-pending_of heap later ((j, b) ∷ m) h v =
    ground (arith, h b, AllClear-pending_of heap later m h)

AllClear-le :
    (heap later : ℕ → RateLimitBucket) (m : List (Text × ℕ))
    → ((i : ℕ) → (later i).pending_delta ≤ (heap i).pending_delta)
    → AllClear heap m
    → AllClear later m
AllClear-le heap later [] h v = tt
AllClear-le heap later ((j, b) ∷ m) h v = (omega (arith, h b, v.0), AllClear-le heap later m h v.1)

AllClear-nil :
    (heap : ℕ → RateLimitBucket) (m : List (Text × ℕ)) → pending_of heap m ≡ [] → AllClear heap m
unfolding pending_of
AllClear-nil heap [] h = tt
AllClear-nil heap ((j, b) ∷ m) h = ground (arith, AllClear-nil heap m)

pending_of-nil :
    (heap : ℕ → RateLimitBucket) (m : List (Text × ℕ)) → AllClear heap m → pending_of heap m ≡ []
unfolding pending_of
pending_of-nil heap [] v = refl
pending_of-nil heap ((j, b) ∷ m) v = ground (arith, pending_of-nil heap m v.1)

List-cases {ℓ} :
    {A : Type ℓ} (xs : List A) → (xs ≡ []) ⊎ ((x : A) × (rest : List A) × (xs ≡ x ∷ rest))
List-cases [] = inl refl
List-cases (x ∷ xs) = inr (x, xs, refl)

-- Nothing is pending in a bucket in use, and nothing is on its way.
abbrev pub IsDrained : RateLimitCounter → Type 0
IsDrained s = AllClear s.heap s.buckets × (s.flush_in_flight ≡ [])

module _ (out : ℕ → Text → Option Row) (now : ℕ → ℕ) where
  abbrev stored : Outcomes
  stored n key = some (out n key)

  abbrev settled_at : ℕ → RateLimitCounter → RateLimitCounter
  settled_at n s = settle_all (stored n) s.flush_in_flight s

  abbrev flushed_at : ℕ → RateLimitCounter → RateLimitCounter
  flushed_at n s =
      flush_all (now n) (pending_of (settled_at n s).heap (settled_at n s).buckets) (settled_at n s)

  abbrev ended_at : ℕ → RateLimitCounter → RateLimitCounter
  ended_at n s = settle_all (stored (n + 1)) (flushed_at n s).flush_in_flight (flushed_at n s)

  settled_clear :
      (n : ℕ) (s : RateLimitCounter)
      → pending_of (settled_at n s).heap (settled_at n s).buckets ≡ []
      → IsDrained (settled_at n s)
  settled_clear n s h = (
    AllClear-nil (settled_at n s).heap (settled_at n s).buckets h,
    settle_all-flush_in_flight (stored n) s.flush_in_flight s refl,
  )

  flushed_clear :
      (n : ℕ) (s : RateLimitCounter)
      → Distinct s.buckets
      → AllClear (flushed_at n s).heap (flushed_at n s).buckets
  flushed_clear n s d =
      let t = settled_at n s in
      let m = pending_of t.heap t.buckets in
      let kept = (settle_all_rest (out n) s.flush_in_flight s 0).1 in
      let grounded = settle_all-flush_in_flight (stored n) s.flush_in_flight s refl in
      rw (flush_all-le (now n) m t 0).1 (
        AllClear-pending_of t.heap (flushed_at n s).heap t.buckets
          (λ i. (flush_all-le (now n) m t i).0)
          (flush_all-AllClear (now n) m t
            (pending_of-Distinct t.heap t.buckets (subst (λ b. Distinct b) (sym kept) d))
            (subst (λ f. AllGrounded m f) (sym grounded) (AllGrounded-nil m))))

  ended_clear : (n : ℕ) (s : RateLimitCounter) → Distinct s.buckets → IsDrained (ended_at n s)
  ended_clear n s d =
      let t = flushed_at n s in
      (
        rw (settle_all_rest (out (n + 1)) t.flush_in_flight t 0).1 (
            AllClear-le t.heap (ended_at n s).heap t.buckets
              (λ i. omega (arith, (settle_all_rest (out (n + 1)) t.flush_in_flight t i).0))
              (flushed_clear n s d)),
        settle_all-flush_in_flight (stored (n + 1)) t.flush_in_flight t refl,
      )

  drain_loop_nil :
      (p n : ℕ) (s : RateLimitCounter)
      → pending_of (settled_at n s).heap (settled_at n s).buckets ≡ []
      → drain_loop (suc p) stored now n s ≡ settled_at n s
  unfolding drain_loop
  drain_loop_nil p n s h =
      ap (λ l. continue l (settled_at n s) (drain_loop p stored now (n + 2) (ended_at n s))) h

  drain_loop_cons :
      (p n : ℕ) (s : RateLimitCounter) (e : Text × ℕ) (m : List (Text × ℕ))
      → pending_of (settled_at n s).heap (settled_at n s).buckets ≡ e ∷ m
      → drain_loop (suc p) stored now n s ≡ drain_loop p stored now (n + 2) (ended_at n s)
  unfolding drain_loop
  drain_loop_cons p n s e m h =
      ap (λ l. continue l (settled_at n s) (drain_loop p stored now (n + 2) (ended_at n s))) h

  drain_loop-IsDrained_step :
      (p n : ℕ) (s : RateLimitCounter) → IsDrained s → IsDrained (drain_loop (suc p) stored now n s)
  drain_loop-IsDrained_step p n s v =
      let rest = λ (i : ℕ). settle_all_rest (out n) s.flush_in_flight s i in
      let h = pending_of-nil (settled_at n s).heap (settled_at n s).buckets (
        rw (rest 0).1 (
          AllClear-le s.heap (settled_at n s).heap s.buckets
            (λ i. omega (arith, (settle_all_rest (out n) s.flush_in_flight s i).0)) v.0)) in
      rw (drain_loop_nil p n s h) (settled_clear n s h)

  pub drain_loop-IsDrained :
      (p n : ℕ) (s : RateLimitCounter)
      → Distinct s.buckets
      → IsDrained (drain_loop (suc (suc p)) stored now n s)
  drain_loop-IsDrained p n s d =
      elim (List-cases (pending_of (settled_at n s).heap (settled_at n s).buckets)) [
        | inl h ↦ rw (drain_loop_nil (suc p) n s h) (settled_clear n s h)
        | inr (e, m, h) ↦
            rw (drain_loop_cons (suc p) n s e m h)
              (drain_loop-IsDrained_step p (n + 2) (ended_at n s) (ended_clear n s d))
      ]
