-- ===== src/Cache/FieldOrder.antt =====
-- The response cache (proxy/response-cache.ts): the order of the fields of a body does not matter.
use firecrawl_gateway.Prelude.{
  Bool, true, not, ◌||◌, List, [], ◌∷◌, Option, none, some, ◌≡◌, refl, ◌∙◌, if◌then◌else◌,
}
use firecrawl_gateway.Prelude.Text.{Text, codes, codes_eq}
use firecrawl_gateway.Prelude.Json.{Number, Json, arr, obj, Items, Fields, property, is_some}
use firecrawl_gateway.Cache.Lookup.{
  CachePlatform, CacheLookup, CacheEligibilityInput, has_any, is_text, is_true, is_false,
  max_age_of, key_text, uncacheable_fields, lookup_fields, is_inspected, for_client,
  cache_lookup_for,
}
use firecrawl_gateway.Cache.Reordered.{
  same, items, fields, ReorderedFields, canonical_json-Reordered, material-Reordered,
  ReorderedOption, absent, present, via, property-Reordered,
}

-- A test that looks no deeper than the value itself.
shallow {ℓ} :
    {R : Type ℓ} (f : Option Json → R)
    → ((xs ys : Items) → f (some (arr xs)) ≡ f (some (arr ys)))
    → ((fs gs : Fields) → f (some (obj fs)) ≡ f (some (obj gs)))
    → {a b : Option Json} → ReorderedOption a b
    → f a ≡ f b
shallow f in_arr in_obj absent = refl
shallow f in_arr in_obj (present same) = refl
shallow f in_arr in_obj (present (items {xs} {ys} r)) = in_arr xs ys
shallow f in_arr in_obj (present (fields {fs} {gs} r)) = in_obj fs gs
shallow f in_arr in_obj (via r s) = shallow f in_arr in_obj r ∙ shallow f in_arr in_obj s

reads_same {ℓ} :
    {R : Type ℓ} (f : Option Json → R)
    → ((xs ys : Items) → f (some (arr xs)) ≡ f (some (arr ys)))
    → ((fs gs : Fields) → f (some (obj fs)) ≡ f (some (obj gs)))
    → (name : Text) {fs gs : Fields} → ReorderedFields fs gs
    → f (property name fs) ≡ f (property name gs)
reads_same f in_arr in_obj name r = shallow f in_arr in_obj (property-Reordered name r)

has_any-Reordered :
    (names : List Text) {fs gs : Fields}
    → ReorderedFields fs gs
    → has_any names fs ≡ has_any names gs
unfolding has_any
has_any-Reordered [] r = refl
has_any-Reordered (name ∷ names) r =
    rw (reads_same is_some (λ xs ys. refl) (λ fs gs. refl) name r, has_any-Reordered names r) refl

-- What the lookup makes of the values that it has read from the body.
lookup_with :
    CachePlatform → Bool → Bool → Bool → Bool → Option (Option Number) → Text → Option CacheLookup
lookup_with p url refused retention stored age text =
    if not url
    then none
    else if refused
    then none
    else if retention || stored
    then none
    else elim age [ none ↦ none | some a ↦ some (record { key = p.digest text; max_age_ms = a }) ]

lookup_fields-lookup_with :
    (p : CachePlatform) (id url : Text) (fs : Fields)
    → lookup_fields p id url fs
      ≡ lookup_with p
          (is_text (property (codes "url") fs))
          (has_any uncacheable_fields fs)
          (is_true (property (codes "zeroDataRetention") fs))
          (is_false (property (codes "storeInCache") fs))
          (max_age_of (property (codes "maxAge") fs))
          (key_text p id url fs)
unfolding lookup_fields lookup_with
lookup_fields-lookup_with p id url fs = refl

key_text-Reordered :
    (p : CachePlatform) (id url : Text) {fs gs : Fields}
    → ReorderedFields fs gs
    → key_text p id url fs ≡ key_text p id url gs
unfolding key_text
key_text-Reordered p id url r = rw (canonical_json-Reordered p (fields (material-Reordered r))) refl

lookup_fields-Reordered :
    (p : CachePlatform) (id url : Text) (fs gs : Fields)
    → ReorderedFields fs gs
    → lookup_fields p id url fs ≡ lookup_fields p id url gs
lookup_fields-Reordered p id url fs gs r =
    let is_url = reads_same is_text (λ xs ys. refl) (λ fs gs. refl) (codes "url") r in
    let refused = has_any-Reordered uncacheable_fields r in
    let retention =
      reads_same is_true (λ xs ys. refl) (λ fs gs. refl) (codes "zeroDataRetention") r in
    let stored = reads_same is_false (λ xs ys. refl) (λ fs gs. refl) (codes "storeInCache") r in
    let age = reads_same max_age_of (λ xs ys. refl) (λ fs gs. refl) (codes "maxAge") r in
    let text = key_text-Reordered p id url r in
    let left = lookup_fields-lookup_with p id url fs in
    let right = lookup_fields-lookup_with p id url gs in cc

for_client-Reordered :
    (p : CachePlatform) (input : CacheEligibilityInput) (body : Text) (fs gs : Fields)
    → is_inspected input.body_buffer ≡ true
    → is_inspected body ≡ true
    → p.parse input.body_buffer ≡ some (obj fs)
    → p.parse body ≡ some (obj gs)
    → ReorderedFields fs gs
    → (client : Option Text)
    → for_client p input client ≡ for_client p (record input { body_buffer = body }) client
for_client-Reordered p input body fs gs i j q r o none = refl
for_client-Reordered p input body fs gs i j q r o (some id) =
    rw (i, j, q, r, lookup_fields-Reordered p id input.upstream_url fs gs o) refl

-- Two bodies that are inspected (not empty and at most 64 KB) and that parse to the same object with
-- the fields in another order, at any depth, are looked up under the same key and the same age, or
-- neither is, in requests that are the same otherwise.
pub cache_lookup_for-Reordered :
    (p : CachePlatform) (input : CacheEligibilityInput) (body : Text) (fs gs : Fields)
    → is_inspected input.body_buffer ≡ true
    → is_inspected body ≡ true
    → p.parse input.body_buffer ≡ some (obj fs)
    → p.parse body ≡ some (obj gs)
    → ReorderedFields fs gs
    → cache_lookup_for p input ≡ cache_lookup_for p (record input { body_buffer = body })
unfolding cache_lookup_for
cache_lookup_for-Reordered p input body fs gs i j q r o =
    rw (for_client-Reordered p input body fs gs i j q r o input.api_key_id) refl
