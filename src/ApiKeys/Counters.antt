-- ===== src/ApiKeys/Counters.antt =====
-- The counters of the keys' limits (api-keys/api-keys.service.ts).
use firecrawl_gateway.Prelude.{ℕ, false, [], ◌∷◌, ◌++◌, ◌===◌, nat_eq, ◌≡◌, ◌≢◌, ◌↔◌, arith}
use firecrawl_gateway.Prelude.Text.{Text}
use firecrawl_gateway.ApiKeys.{ApiKeyRecord, rate_limit_key, quota_key}

-- The text has no such code unit.
abbrev pub Without : ℕ → Text → Type 0
Without c [] = Unit {0}
Without c (d ∷ t) = ((d === c) ≡ false) × Without c t

first_part :
    (c : ℕ) (s t u v : Text)
    → Without c s
    → Without c u
    → s ++ c ∷ t ≡ u ++ c ∷ v
    → (s ≡ u) × (t ≡ v)
first_part c [] t [] v h k e = ground arith
first_part c [] t (d ∷ u) v h k e = ground arith
first_part c (d ∷ s) t [] v h k e = ground arith
first_part c (d ∷ s) t (f ∷ u) v h k e = ground (arith, first_part c s t u v h.1 k.1)

-- Two limits share a counter only if they are the same limit of the same key, and for a quota of the
-- same month: the counter of a rate limit is never that of a quota. Ids have no colon, years no
-- hyphen.
pub counters_apart :
    (a b : ApiKeyRecord) (year month year' month' : Text)
    → Without b':' a.id
    → Without b':' b.id
    → Without b'-' year
    → Without b'-' year'
    → (rate_limit_key a ≢ quota_key b.id year month)
      × ((rate_limit_key a ≡ rate_limit_key b) ↔ (a.id ≡ b.id))
      × ((quota_key a.id year month ≡ quota_key b.id year' month')
          ↔ ((a.id ≡ b.id) × (year ≡ year') × (month ≡ month')))
unfolding rate_limit_key quota_key
counters_apart a b year month year' month' h k y y' = (
  λ e. ground arith,
  (λ e. ground arith, λ e. ground arith),
  (
    λ e.
        let p =
          first_part b':' a.id (year ++ b'-' ∷ month) b.id (year' ++ b'-' ∷ month') h k (cc) in
        let q = first_part b'-' year month year' month' y y' p.1 in (p.0, q.0, q.1),
    λ e. ground arith,
  ),
)
