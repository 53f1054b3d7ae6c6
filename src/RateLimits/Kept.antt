-- ===== src/RateLimits/Kept.antt =====
-- Which buckets stay in use (common/rate-limit-counter.ts).
use firecrawl_gateway.Prelude.{
  ℕ, ◌≤◌, Bool, false, List, [], ◌∷◌, Option, none, some, leb, length, ◌===◌, ◌≡◌, ◌⊎◌, refl, sym,
  ap, ◌∙◌, subst, arith, Bool-cases, Option-cases, inl, inr,
}
use firecrawl_gateway.Prelude.OrderedMap.{
  get, set, delete, has, get-set, get-delete_other, delete_absent, Fresh-get,
}
use firecrawl_gateway.Prelude.Text.{Text, codes_eq}
use firecrawl_gateway.RateLimits.{
  RateLimitCounter, new_counter, max_buckets, drop_oldest, record_bucket, create_bucket,
  find_bucket, start_flush, finish_hit, settle_flush, run_timer, after_timer, schedule,
  flush_if_current,
}
use firecrawl_gateway.RateLimits.Bound.{start_hit-buckets}
use firecrawl_gateway.RateLimits.Tally.{IsAccounted}
use firecrawl_gateway.RateLimits.History.{
  Op, hit_starts, hit_ends, flush_ends, timer_fires, timer_ends, step, run, run-IsAccounted,
}

-- The map is full and the key is its oldest.
abbrev pub IsOldest : Text → List (Text × ℕ) → Type 0
IsOldest key m =
    (max_buckets ≤ length m) × (b : ℕ) × (rest : List (Text × ℕ)) × (m ≡ (key, b) ∷ rest)

drop_oldest-get :
    (key : Text) (b : ℕ) (m : List (Text × ℕ))
    → get key m ≡ some b
    → (get key (drop_oldest m) ≡ some b)
      ⊎ ((i : ℕ) × (rest : List (Text × ℕ)) × (m ≡ (key, i) ∷ rest))
unfolding drop_oldest get
drop_oldest-get key b [] h = inl h
drop_oldest-get key b ((j, i) ∷ m) h = elim (Bool-cases (j === [])) [
  | inl e ↦ rw e (inl h)
  | inr e ↦ elim (Bool-cases (j === key)) [
    | inl q ↦ inr (i, m, ap (λ k. (k, i) ∷ m) ((codes_eq.equal_iff j key).0 q))
    | inr q ↦ rw e (inl (rw q at h))
  ]
]

module _ (key : Text) (b : ℕ) (other : Text) (i : ℕ) (n : (other === key) ≡ false) where
  set-get : (m : List (Text × ℕ)) → get key m ≡ some b → get key (set other i m) ≡ some b
  set-get m h = ground (arith, get-set other key i m, n)

  record_bucket-get :
      (m : List (Text × ℕ))
      → get key m ≡ some b
      → (get key (record_bucket other i m) ≡ some b) ⊎ IsOldest key m
  unfolding record_bucket
  record_bucket-get m h = elim (Bool-cases (has other m)) [
    | inl e ↦ rw e (inl (set-get (delete other m) (get-delete_other other key m n ∙ h)))
    | inr e ↦ elim (Bool-cases (leb max_buckets (length m))) [
      | inl f ↦ elim (drop_oldest-get key b m h) [
        | inl g ↦ rw (e, f) (inl (set-get (drop_oldest m) g))
        | inr (j, rest, q) ↦ inr (ground (arith, f), j, rest, q)
      ]
      | inr f ↦ rw (e, f) (inl (set-get m h))
    ]
  ]

-- There is no bucket for the key, or its window has ended.
abbrev pub NeedsBucket : RateLimitCounter → Text → ℕ → Type 0
NeedsBucket s key now =
    (get key s.buckets ≡ none)
    ⊎ ((b : ℕ) × (get key s.buckets ≡ some b) × ((s.heap b).reset_at ≤ now))

-- The bucket of the key stays in use; or this request finds that its window has ended; or this
-- request needs a bucket for another key, the other keys fill the map, and the key is the oldest.
abbrev pub Stays : RateLimitCounter → Op → Text → ℕ → RateLimitCounter → Type 0
Stays s (hit_starts other fixed now) key b t =
    (get key t.buckets ≡ some b)
    ⊎ ((other ≡ key) × ((s.heap b).reset_at ≤ now))
    ⊎ (((other === key) ≡ false) × NeedsBucket s other now × IsOldest key (delete other s.buckets))
Stays s _ key b t = get key t.buckets ≡ some b

module _ (s : RateLimitCounter) (key : Text) (b : ℕ) (h : get key s.buckets ≡ some b) where
  -- A request for another key.
  other-Stays :
      (other : Text) (fixed : Option ℕ) (now : ℕ)
      → (other === key) ≡ false
      → Stays s (hit_starts other fixed now) key b (find_bucket other fixed now s).0
  unfolding find_bucket create_bucket
  other-Stays other fixed now n = elim (Option-cases (get other s.buckets)) [
    | inl e ↦ elim (record_bucket-get key b other s.next n s.buckets h) [
      | inl g ↦ rw (e, find_bucket) (inl g)
      | inr o ↦ inr (
          inr (
            n,
            inl e,
            subst (IsOldest key) (sym (delete_absent other s.buckets (Fresh-get other s.buckets e)))
                o,
          ))
    ]
    | inr (i, e) ↦ elim (Bool-cases (leb (s.heap i).reset_at now)) [
      | inl l ↦
          elim (record_bucket-get key b other s.next n (delete other s.buckets)
            (get-delete_other other key s.buckets n ∙ h)) [
              | inl g ↦ rw (e, find_bucket) (rw l (inl g))
              | inr o ↦ inr (inr (n, inr (i, e, ground (arith, l)), o))
            ]
      | inr l ↦ rw (e, find_bucket) (rw l (inl h))
    ]
  ]

  -- A request for the key itself.
  own-Stays :
      (fixed : Option ℕ) (now : ℕ)
      → Stays s (hit_starts key fixed now) key b (find_bucket key fixed now s).0
  unfolding find_bucket
  own-Stays fixed now = elim (Bool-cases (leb (s.heap b).reset_at now)) [
    | inl l ↦ inr (inl (refl, ground (arith, l)))
    | inr l ↦ rw (h, find_bucket) (rw l (inl h))
  ]

  find_bucket-Stays :
      (other : Text) (fixed : Option ℕ) (now : ℕ)
      → Stays s (hit_starts other fixed now) key b (find_bucket other fixed now s).0
  find_bucket-Stays other fixed now = elim (Bool-cases (other === key)) [
    | inl e ↦
        subst (λ k. Stays s (hit_starts k fixed now) key b (find_bucket k fixed now s).0)
          (sym ((codes_eq.equal_iff other key).0 e)) (own-Stays fixed now)
    | inr n ↦ other-Stays other fixed now n
  ]

  step-Stays : (op : Op) → Stays s op key b (step s op)
  unfolding step finish_hit settle_flush run_timer after_timer schedule flush_if_current start_flush
  step-Stays (hit_starts other fixed now) =
      rw (start_hit-buckets other fixed now s) (find_bucket-Stays other fixed now)
  step-Stays (hit_ends k i now) = ground (arith, h)
  step-Stays (flush_ends k outcome) = ground (arith, h)
  step-Stays (timer_fires k now) = ground (arith, h)
  step-Stays (timer_ends k i now) = ground (arith, h)

pub run-IsKept :
    (schedules : Bool) (ops : List Op) (op : Op) (key : Text) (b : ℕ)
    → let s = run (new_counter schedules) ops in
      get key s.buckets ≡ some b → IsAccounted b s × Stays s op key b (step s op)
run-IsKept schedules ops op key b h =
    (run-IsAccounted schedules ops b, step-Stays (run (new_counter schedules) ops) key b h op)
