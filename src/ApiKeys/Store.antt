-- ===== src/ApiKeys/Store.antt =====
-- The bounded maps of api-keys/api-keys.service.ts: what `recordValidation` and `recordTouch` keep.
use firecrawl_gateway.Prelude.{
  ℕ, List, [], ◌∷◌, Option, some, length, leb, ◌≡◌, ◌⊎◌, inl, inr, arith, Bool-cases, if◌then◌else◌,
}
use firecrawl_gateway.Prelude.OrderedMap.{
  get, set, delete, has, Distinct, get-set, get-delete, get-Fresh, set-Distinct, delete-Distinct,
}
use firecrawl_gateway.Prelude.Text.{Text, codes_eq}
use firecrawl_gateway.Reads.{Cached, CacheStore}
use firecrawl_gateway.ApiKeys.{ApiKeyRecord, validation_cache_max_size, drop_first, record_newest}

module _ {ℓ} {V : Type ℓ} where
  drop_first-get :
      (j : Text) (d : V) (m : List (Text × V))
      → Distinct m
      → get j (drop_first m) ≡ some d
      → get j m ≡ some d
  unfolding get
  drop_first-get j d [] v h = h
  drop_first-get j d ((k, w) ∷ m) v h = ground (arith, codes_eq.equal_iff k j, get-Fresh k m v.0)

  drop_first-Distinct : (m : List (Text × V)) → Distinct m → Distinct (drop_first m)
  drop_first-Distinct [] v = v
  drop_first-Distinct ((k, w) ∷ m) v = ground arith

  -- What the map has after an entry was recorded was there before, or is the entry.
  pub record_newest-get :
      (limit : ℕ) (k j : Text) (c d : V) (m : List (Text × V))
      → Distinct m
      → get j (record_newest limit k c m) ≡ some d
      → ((k ≡ j) × (c ≡ d)) ⊎ (get j m ≡ some d)
  unfolding record_newest
  record_newest-get limit k j c d m v h = elim (Bool-cases (has k m)) [
    | inl e ↦
        let g : get j (set k c (delete k m)) ≡ some d = (rw e at h) in
        ground (arith, codes_eq.equal_iff k j, get-set k j c (delete k m), get-delete k j m v)
    | inr e ↦
        let g : get j (set k c (if leb limit (length m) then drop_first m else m)) ≡ some d =
          (rw e at h) in
        elim (Bool-cases (leb limit (length m))) [
          | inl l ↦
              let f : get j (set k c (drop_first m)) ≡ some d = (rw l at g) in
              ground (
                arith,
                codes_eq.equal_iff k j,
                get-set k j c (drop_first m),
                drop_first-get j d m v,
              )
          | inr l ↦
              let f : get j (set k c m) ≡ some d = (rw l at g) in
              ground (arith, codes_eq.equal_iff k j, get-set k j c m)
        ]
  ]

  pub record_newest-Distinct :
      (limit : ℕ) (k : Text) (c : V) (m : List (Text × V))
      → Distinct m
      → Distinct (record_newest limit k c m)
  unfolding record_newest
  record_newest-Distinct limit k c m v = elim (Bool-cases (has k m)) [
    | inl e ↦ rw e (set-Distinct k c (delete k m) (delete-Distinct k m v))
    | inr e ↦ rw e (elim (Bool-cases (leb limit (length m))) [
      | inl l ↦ rw l (set-Distinct k c (drop_first m) (drop_first-Distinct m v))
      | inr l ↦ rw l (set-Distinct k c m v)
    ])
  ]

-- The validation cache.
unfoldable pub record_validation :
    Text
    → Cached (Option ApiKeyRecord)
    → List (Text × Cached (Option ApiKeyRecord))
    → List (Text × Cached (Option ApiKeyRecord))
unfolding record_newest
record_validation hash c m = record_newest validation_cache_max_size hash c m

pub record_validation-get :
    (k j : Text) (c d : Cached (Option ApiKeyRecord))
    (m : List (Text × Cached (Option ApiKeyRecord)))
    → Distinct m
    → get j (record_validation k c m) ≡ some d
    → ((k ≡ j) × (c ≡ d)) ⊎ (get j m ≡ some d)
unfolding record_validation
record_validation-get k j c d m = record_newest-get validation_cache_max_size k j c d m

pub record_validation-Distinct :
    (k : Text) (c : Cached (Option ApiKeyRecord)) (m : List (Text × Cached (Option ApiKeyRecord)))
    → Distinct m
    → Distinct (record_validation k c m)
unfolding record_validation
record_validation-Distinct k c m = record_newest-Distinct validation_cache_max_size k c m

abbrev pub validations : CacheStore Text (Option ApiKeyRecord)
validations = record {
  put = record_validation;
  put-get = record_validation-get;
  put-Distinct = record_validation-Distinct;
}
