-- ===== src/Proxy/Once.antt =====
-- apps/api/src/proxy/proxy.service.ts: how often one request calls the upstreams.
use firecrawl_gateway.Prelude.{
  ℕ, ◌+◌, ◌≤◌, Bool, true, false, List, [], ◌∷◌, Option, none, some, nat_eq, ◌≡◌, refl, sym, ap,
  ◌∙◌, subst, inl, inr, length, arith, Bool-cases, leb,
}
use firecrawl_gateway.Prelude.Text.{Text, codes_eq}
use firecrawl_gateway.Prelude.Sets.{contains, add}
use firecrawl_gateway.Common.{cloud, ProxyResult}
use firecrawl_gateway.Policy.{RouteMode, is_self_hosted_unavailable}
use firecrawl_gateway.Breaker.{CircuitBreaker, Permit, execute, execute_with, acquire}
use firecrawl_gateway.Credits.{CreditReservation}
use firecrawl_gateway.Credits.Admission.{reserve-IsReservationOf}
use firecrawl_gateway.Proxy.{
  UpstreamCall, RoutePlan, Gateway, ProxyState, Outcome, proxy_to_backend, circuit_open_result,
}
use firecrawl_gateway.Proxy.Calls.{
  clock, proxy_cloud, proxy_self_hosted, with_reserved, reserve_key, record_answer, guarded_call,
}
use firecrawl_gateway.Proxy.Routing.{take_keys, take_fallback_keys, route}
use firecrawl_gateway.Proxy.Runs.{
  Runs, stop, then_cloud, then_take, then_self_hosted, record_answer-calls,
}
use firecrawl_gateway.Proxy.Stages.{Dispatched, route-Dispatched}
use firecrawl_gateway.Proxy.Counts.{
  self_hosted_calls, cloud_ids, NoRepeat, OnceOf, cloud_call-OnceOf, self_hosted_call-OnceOf,
  no_call-OnceOf,
}

module _ {L : Type 0} (g : Gateway L) (plan : RoutePlan) where
  abbrev pub Once : ProxyState L → Type 0
  Once t = OnceOf g.key_id t.calls t.attempted_cloud_key_ids t.self_hosted_attempted

  record_answer-Once :
      (q : CreditReservation) (result : ProxyResult) (t : ProxyState L)
      → Once t
      → Once (record_answer g q result t)
  record_answer-Once q result t v =
      let (f, c, i, k) = record_answer-calls g q result t in
      subst
        (λ x.
          OnceOf g.key_id x (record_answer g q result t).attempted_cloud_key_ids
            (record_answer g q result t).self_hosted_attempted)
        (sym c)
        (subst (λ x. OnceOf g.key_id t.calls x (record_answer g q result t).self_hosted_attempted)
          (sym i) (subst (λ x. OnceOf g.key_id t.calls t.attempted_cloud_key_ids x) (sym f) v))

  with_reserved-Once :
      (r : Option CreditReservation) (t : ProxyState L)
      → ((q : CreditReservation)
          → r ≡ some q
          → (contains q.key_id t.attempted_cloud_key_ids ≡ false) × (q.key_id ≡ g.key_id q.key))
      → Once t
      → Once (with_reserved g r t).1
  unfolding proxy_to_backend
  with_reserved-Once none t h v = v
  with_reserved-Once (some q) t h v =
      let (n, e) = h q refl in
      record_answer-Once q (proxy_to_backend g cloud (some q.key) t.calls).0
        (record t {
          attempted_cloud_key_ids = add q.key_id t.attempted_cloud_key_ids;
          upstream_attempted = true;
          calls = record { backend = cloud; api_key = some q.key } ∷ t.calls;
        })
        (subst
          (λ i.
            OnceOf g.key_id (record { backend = cloud; api_key = some q.key } ∷ t.calls)
              (add i t.attempted_cloud_key_ids) t.self_hosted_attempted)
          (sym e)
          (cloud_call-OnceOf g.key_id t.calls t.attempted_cloud_key_ids t.self_hosted_attempted
            q.key (ap (λ i. contains i t.attempted_cloud_key_ids) (sym e) ∙ n) v))

  reserve_key-fresh :
      (t : ProxyState L) (q : CreditReservation)
      → (reserve_key g plan t).0 ≡ some q
      → (contains q.key_id t.attempted_cloud_key_ids ≡ false) × (q.key_id ≡ g.key_id q.key)
  unfolding reserve_key
  reserve_key-fresh t q e =
      let c =
        (reserve-IsReservationOf g.store g.key_id g.pick (clock g t) (clock g t) t.cloud_api_keys
          t.attempted_cloud_key_ids plan.estimated_credits t.credits t.ledger q e).candidate in
      (c.not_excluded, c.own_id)

  proxy_cloud-Once : (t : ProxyState L) → Once t → Once (proxy_cloud g plan t).1
  unfolding proxy_cloud reserve_key
  proxy_cloud-Once t v =
      with_reserved-Once (reserve_key g plan t).0 (reserve_key g plan t).1
        (λ q e. reserve_key-fresh t q e) v

  execute_with-OnceOf :
      (now later : ℕ) (b : CircuitBreaker) (calls : List UpstreamCall) (u : Bool) (ids : List Text)
      (p : Option Permit)
      → OnceOf g.key_id calls ids false
      → OnceOf g.key_id
          (execute_with g.breaker_options now later
            (guarded_call g)
            is_self_hosted_unavailable
            circuit_open_result
            b
            (calls, u)
            p).2.0
          ids
          true
  unfolding proxy_to_backend
  execute_with-OnceOf now later b calls u ids none v = no_call-OnceOf g.key_id calls ids v
  execute_with-OnceOf now later b calls u ids (some p) v =
      self_hosted_call-OnceOf g.key_id calls ids v

  proxy_self_hosted-Once :
      (t : ProxyState L) → t.self_hosted_attempted ≡ false → Once t → Once (proxy_self_hosted g t).1
  unfolding proxy_self_hosted execute proxy_to_backend
  proxy_self_hosted-Once t f v =
      let v' = subst (λ x. OnceOf g.key_id t.calls t.attempted_cloud_key_ids x) f v in
      elim (Bool-cases (leb g.breaker_options.failure_threshold 0)) [
        | inl e ↦ rw e (self_hosted_call-OnceOf g.key_id t.calls t.attempted_cloud_key_ids v')
        | inr e ↦ rw e (
            execute_with-OnceOf (clock g t) (g.time (length t.calls + 1))
              (acquire g.breaker_options (clock g t) t.breaker).0 t.calls t.upstream_attempted
              t.attempted_cloud_key_ids (acquire g.breaker_options (clock g t) t.breaker).1 v')
      ]

  take_keys-Once :
      (mode : RouteMode) (ks : List Text) (t : ProxyState L)
      → Once t
      → Once (take_keys g mode plan ks t).1
  take_keys-Once mode [] t v = v
  take_keys-Once mode (k ∷ ks) t v = v

  take_fallback_keys-Once :
      (mode : RouteMode) (t : ProxyState L) → Once t → Once (take_fallback_keys g mode plan t).1
  unfolding take_fallback_keys
  take_fallback_keys-Once mode t v = take_keys-Once mode t.fallback_api_keys t v

  Runs-Once : (mode : RouteMode) (s t : ProxyState L) → Runs g mode plan s t → Once s → Once t
  Runs-Once mode s _ stop v = v
  Runs-Once mode s _ (then_cloud t r c) v = proxy_cloud-Once t (Runs-Once mode s t r v)
  Runs-Once mode s _ (then_take t r) v = take_fallback_keys-Once mode t (Runs-Once mode s t r v)
  Runs-Once mode s _ (then_self_hosted t r f a) v =
      proxy_self_hosted-Once t f (Runs-Once mode s t r v)

-- A request before its first stage.
pub record IsFresh {L : Type 0} (s : ProxyState L) : Type 0 where
  pub no_calls : s.calls ≡ []
  pub no_ids : s.attempted_cloud_key_ids ≡ []
  pub not_attempted : s.self_hosted_attempted ≡ false

module _ {L : Type 0} (g : Gateway L) (mode : RouteMode) (plan : RoutePlan) (s : ProxyState L) where
  Dispatched-Runs :
      (p : Option Outcome × ProxyState L) → Dispatched g mode plan s p → Runs g mode plan s p.1
  Dispatched-Runs (none, t) d = d
  Dispatched-Runs (some o, t) d = d.runs

  pub route-Runs : s.self_hosted_attempted ≡ false → Runs g mode plan s (route g mode plan s).1
  route-Runs f = Dispatched-Runs (route g mode plan s) (route-Dispatched g mode plan s f)

  IsFresh-Once : IsFresh s → Once g plan s
  IsFresh-Once f =
      subst (λ c. OnceOf g.key_id c s.attempted_cloud_key_ids s.self_hosted_attempted)
        (sym f.no_calls) (record { one_self_hosted = omega arith; no_key_twice = tt; known = tt })

  -- A request calls self-hosted at most once, and it never calls Cloud twice with the same key:
  -- the ids of the keys it used are all different.
  pub route-Once :
      IsFresh s
      → (self_hosted_calls (route g mode plan s).1.calls ≤ 1)
        × NoRepeat (cloud_ids g.key_id (route g mode plan s).1.calls)
  route-Once f =
      let v =
        Runs-Once g plan mode s (route g mode plan s).1 (route-Runs f.not_attempted)
          (IsFresh-Once f) in
      (ground (arith, v.one_self_hosted), v.no_key_twice)
