-- ===== src/Reads.antt =====
-- Reads of the database behind a cache with a lifetime and a map of the reads under way, in the
-- order in which `validateApiKey` (apps/api/src/api-keys/api-keys.service.ts) and `getSetting` with
-- `track` (apps/api/src/settings/settings.service.ts) look at them. A request stands for the
-- promise in the map: its number is the promise's identity.
pub mod World
pub mod Fresh
pub mod Calls
pub mod Acknowledged
use firecrawl_gateway.Prelude.{
  ℕ, ◌+◌, Bool, true, false, List, [], ◌∷◌, Option, none, some, ltb, HasEq, ◌===◌, nat_eq, ◌≡◌, ◌⊎◌,
  if◌then◌else◌,
}
use firecrawl_gateway.Prelude.OrderedMap.{get, set, delete, Distinct}

pub record Cached {κ} (V : Type κ) : Type κ where
  pub value : V
  pub expires_at : ℕ

-- How an answer is written to the cache: a plain `set`, or one that makes room first.
pub record CacheStore {ℓ κ} (K : Type ℓ) ⦃e : HasEq K⦄ (V : Type κ) : Type (ℓ ⊔ κ) where
  pub put : K → Cached V → List (K × Cached V) → List (K × Cached V)
  pub put-get :
      (k j : K) (c d : Cached V) (m : List (K × Cached V))
      → Distinct m
      → get j (put k c m) ≡ some d
      → ((k ≡ j) × (c ≡ d)) ⊎ (get j m ≡ some d)
  pub put-Distinct :
      (k : K) (c : Cached V) (m : List (K × Cached V)) → Distinct m → Distinct (put k c m)

pub record Reads {ℓ κ} (K : Type ℓ) (V : Type κ) : Type (ℓ ⊔ κ) where
  pub cache : List (K × Cached V)
  pub in_flight : List (K × ℕ)

-- What a call comes to: a cached value, a request that another call made, or one of its own.
pub data Found {κ} (V : Type κ) : Type κ where
  hit : V → Found V
  joins : ℕ → Found V
  starts : Found V

module _ {ℓ κ} {K : Type ℓ} ⦃e : HasEq K⦄ {V : Type κ} where
  -- No cached value serves: an entry that has expired goes.
  abbrev pub join_or_start : K → ℕ → Reads K V → Option ℕ → Reads K V × Found V
  join_or_start k id r (some i) = (record r { cache = delete k r.cache }, joins i)
  join_or_start k id r none =
      (record r { cache = delete k r.cache; in_flight = set k id r.in_flight }, starts)

  abbrev pub look_up : K → ℕ → ℕ → Reads K V → Option (Cached V) → Reads K V × Found V
  look_up k id now r none = join_or_start k id r (get k r.in_flight)
  look_up k id now r (some c) =
      if ltb now c.expires_at then (r, hit c.value) else join_or_start k id r (get k r.in_flight)

  unfoldable pub begin : K → ℕ → ℕ → Reads K V → Reads K V × Found V
  begin k id now r = look_up k id now r (get k r.cache)

  abbrev pub is_registered : K → ℕ → Reads K V → Bool
  is_registered k id r = elim (get k r.in_flight) [ none ↦ false | some i ↦ i === id ]

  -- The request ends with a value: it is cached and deregistered if it still is the key's request.
  unfoldable pub finish : CacheStore K V → ℕ → K → ℕ → V → ℕ → Reads K V → Reads K V
  finish s ttl k id v now r =
      if is_registered k id r
      then record r {
        cache = s.put k (record { value = v; expires_at = now + ttl }) r.cache;
        in_flight = delete k r.in_flight;
      }
      else r

  unfoldable pub fail_request : K → ℕ → Reads K V → Reads K V
  fail_request k id r =
      if is_registered k id r then record r { in_flight = delete k r.in_flight } else r

  -- After a write.
  unfoldable pub invalidate : K → Reads K V → Reads K V
  invalidate k r = record r { cache = delete k r.cache; in_flight = delete k r.in_flight }

abbrev pub no_reads {ℓ κ} : {K : Type ℓ} {V : Type κ} → Reads K V
no_reads = record { cache = []; in_flight = [] }
