-- ===== src/Proxy/Rotation.antt =====
-- apps/api/src/proxy/proxy.service.ts: the rounds of the loop of `rotateCloudKeys`.
use firecrawl_gateway.Prelude.{
  ℕ, zero, suc, ◌+◌, ◌<◌, ◌≤◌, Bool, true, false, not, List, [], ◌∷◌, Option, none, some, ◌===◌,
  nat_eq, ◌≡◌, refl, sym, ap, ◌∙◌, subst, inl, inr, length, arith, if◌then◌else◌, Bool-cases,
}
use firecrawl_gateway.Prelude.Text.{Text, codes_eq}
use firecrawl_gateway.Prelude.Sets.{contains, add, contains_self, contains-add}
use firecrawl_gateway.Common.{cloud}
use firecrawl_gateway.Policy.{RouteMode}
use firecrawl_gateway.Credits.{CreditReservation}
use firecrawl_gateway.Credits.Admission.{reserve-IsReservationOf}
use firecrawl_gateway.Proxy.{
  RoutePlan, Gateway, ProxyState, Outcome, CloudAttempt, proxy_to_backend,
}
use firecrawl_gateway.Proxy.Calls.{clock, proxy_cloud, with_reserved, reserve_key}
use firecrawl_gateway.Proxy.Routing.{
  rotate_loop, on_attempt, status_of, has_status, retryable_cloud_status, cloud_capacity_status,
}
use firecrawl_gateway.Proxy.Runs.{record_answer-calls}

-- The number of keys that were not tried yet.
abbrev pub untried : (Text → Text) → List Text → List Text → ℕ
untried key_id [] ids = 0
untried key_id (key ∷ keys) ids =
    (if contains (key_id key) ids then 0 else 1) + untried key_id keys ids

untried-length :
    (key_id : Text → Text) (keys ids : List Text) → untried key_id keys ids ≤ length keys
untried-length key_id [] ids = omega arith
untried-length key_id (key ∷ keys) ids = ground (arith, untried-length key_id keys ids)

untried-add :
    (key_id : Text → Text) (keys ids : List Text) (id : Text)
    → untried key_id keys (add id ids) ≤ untried key_id keys ids
untried-add key_id [] ids id = omega arith
untried-add key_id (key ∷ keys) ids id =
    ground (arith, untried-add key_id keys ids id, contains-add (key_id key) id ids)

untried-add_lt :
    (key_id : Text → Text) (keys ids : List Text) (key : Text)
    → contains key keys ≡ true
    → contains (key_id key) ids ≡ false
    → untried key_id keys (add (key_id key) ids) < untried key_id keys ids
unfolding contains
untried-add_lt key_id [] ids key h n = ground arith
untried-add_lt key_id (k ∷ keys) ids key h n = elim (Bool-cases (k === key)) [
  | inl e ↦
      subst (λ j. untried key_id (j ∷ keys) (add (key_id key) ids) < untried key_id (j ∷ keys) ids)
        (sym ((codes_eq.equal_iff k key).0 e))
        (ground
          (arith, n, contains_self (key_id key) ids, untried-add key_id keys ids (key_id key)))
  | inr e ↦ ground (
    arith,
    untried-add_lt key_id keys ids key (ground (arith, h, e)) n,
    contains-add (key_id k) (key_id key) ids,
  )
]

-- The key of a reservation is one of the pool, and was not tried yet.
record IsUntried {L : Type 0} (g : Gateway L) (t : ProxyState L) (q : CreditReservation)
    : Type 0 where
  listed : contains q.key t.cloud_api_keys ≡ true
  own_id : q.key_id ≡ g.key_id q.key
  not_excluded : contains q.key_id t.attempted_cloud_key_ids ≡ false

module _ {L : Type 0} (g : Gateway L) (plan : RoutePlan) where
  abbrev pub untried_keys : ProxyState L → ℕ
  untried_keys t = untried g.key_id t.cloud_api_keys t.attempted_cloud_key_ids

  with_reserved-untried :
      (r : Option CreditReservation) (t : ProxyState L) (a : CloudAttempt)
      → ((q : CreditReservation) → r ≡ some q → IsUntried g t q)
      → (with_reserved g r t).0 ≡ some a
      → untried_keys (with_reserved g r t).1 < untried_keys t
  unfolding proxy_to_backend
  with_reserved-untried none t a h e = ground arith
  with_reserved-untried (some q) t a h e =
      let c = h q refl in
      let (f, w, i, k) =
        record_answer-calls g q (proxy_to_backend g cloud (some q.key) t.calls).0 (record t {
          attempted_cloud_key_ids = add q.key_id t.attempted_cloud_key_ids;
          upstream_attempted = true;
          calls = record { backend = cloud; api_key = some q.key } ∷ t.calls;
        }) in
      subst (λ x. x < untried_keys t)
        (sym (
          ap (λ x. untried g.key_id x (with_reserved g (some q) t).1.attempted_cloud_key_ids) k
          ∙ ap (untried g.key_id t.cloud_api_keys) i
          ∙ ap (λ x. untried g.key_id t.cloud_api_keys (add x t.attempted_cloud_key_ids)) c.own_id))
        (untried-add_lt g.key_id t.cloud_api_keys t.attempted_cloud_key_ids q.key c.listed
          (ap (λ x. contains x t.attempted_cloud_key_ids) (sym c.own_id) ∙ c.not_excluded))

  proxy_cloud-untried :
      (t : ProxyState L) (a : CloudAttempt)
      → (proxy_cloud g plan t).0 ≡ some a
      → untried_keys (proxy_cloud g plan t).1 < untried_keys t
  unfolding proxy_cloud reserve_key
  proxy_cloud-untried t a e =
      with_reserved-untried (reserve_key g plan t).0 (reserve_key g plan t).1 a
        (λ q d.
          let c =
            (reserve-IsReservationOf g.store g.key_id g.pick (clock g t) (clock g t)
              t.cloud_api_keys t.attempted_cloud_key_ids plan.estimated_credits t.credits t.ledger q
              d).candidate in
          record { listed = c.listed; own_id = c.own_id; not_excluded = c.not_excluded })
        e

module _ {L : Type 0} (g : Gateway L) (mode : RouteMode) (plan : RoutePlan) where
  abbrev Round : Type 0
  Round = ℕ → ℕ → Outcome → ProxyState L → Bool × Outcome × ProxyState L

  on_attempt_cong :
      (first attempts quota : ℕ) (o : Outcome) (a : Option CloudAttempt) (t : ProxyState L)
      (j k : Round)
      → ((b : CloudAttempt) (n q : ℕ) (p : Outcome) → a ≡ some b → j n q p t ≡ k n q p t)
      → on_attempt g mode plan first attempts quota o a t j
        ≡ on_attempt g mode plan first attempts quota o a t k
  on_attempt_cong first attempts quota o none t j k h = refl
  on_attempt_cong first attempts quota o (some a) t j k h =
      elim (Bool-cases (has_status (λ n. not (retryable_cloud_status n)) (status_of a.result))) [
        | inl e ↦ rw e
        | inr e ↦ rw e (
            h a (attempts + 1)
              (if has_status cloud_capacity_status (status_of a.result) then quota + 1 else quota)
              (record o { result = a.result }) refl)
      ]

  rotate_loop_enough :
      (fuel more first attempts quota : ℕ) (o : Outcome) (t : ProxyState L)
      → untried_keys g plan t < fuel
      → untried_keys g plan t < more
      → rotate_loop g mode plan fuel first attempts quota o t
        ≡ rotate_loop g mode plan more first attempts quota o t
  unfolding rotate_loop
  rotate_loop_enough zero more first attempts quota o t h k = absurd (omega (arith, h))
  rotate_loop_enough (suc fuel) zero first attempts quota o t h k = absurd (omega (arith, k))
  rotate_loop_enough (suc fuel) (suc more) first attempts quota o t h k =
      on_attempt_cong first attempts quota o (proxy_cloud g plan t).0 (proxy_cloud g plan t).1
        (λ n q p v. rotate_loop g mode plan fuel first n q p v)
        (λ n q p v. rotate_loop g mode plan more first n q p v)
        (λ a n q p e.
          rotate_loop_enough fuel more first n q p (proxy_cloud g plan t).1
            (omega (arith, proxy_cloud-untried g plan t a e))
            (omega (arith, proxy_cloud-untried g plan t a e)))

  -- The loop over the Cloud keys ends: one round more than there are keys in the pool is as good
  -- as any number of rounds above that.
  pub rotate_loop_ends :
      (more first attempts quota : ℕ) (o : Outcome) (t : ProxyState L)
      → length t.cloud_api_keys < more
      → rotate_loop g mode plan more first attempts quota o t
        ≡ rotate_loop g mode plan (length t.cloud_api_keys + 1) first attempts quota o t
  rotate_loop_ends more first attempts quota o t h =
      rotate_loop_enough more (length t.cloud_api_keys + 1) first attempts quota o t
        (omega (arith, untried-length g.key_id t.cloud_api_keys t.attempted_cloud_key_ids))
        (omega (arith, untried-length g.key_id t.cloud_api_keys t.attempted_cloud_key_ids))
