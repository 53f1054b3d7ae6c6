-- ===== src/Cache/Clients.antt =====
-- The response cache behind its lookups (proxy/response-cache.ts, and `handle` and
-- `collectForCache` of proxy/proxy.service.ts): who is served what.
use firecrawl_gateway.Prelude.{
  true, not, ◌||◌, [], ◌∷◌, ◌++◌, Option, none, some, ◌===◌, nat_eq, ◌≡◌, inl, inr, refl, ap, arith,
  Bool-cases, if◌then◌else◌,
}
use firecrawl_gateway.Prelude.Text.{Text, codes, codes_eq}
use firecrawl_gateway.Prelude.Chars.{every}
use firecrawl_gateway.Prelude.Json.{Number, Json, null, bool, num, str, arr, obj, Fields, property}
use firecrawl_gateway.Cache.Lookup.{
  CachePlatform, lookup_of, CacheLookup, CacheEligibilityInput, is_eligible, is_inspected,
  lookup_fields, lookup_body, for_client, cache_lookup_for, material, canonical_json, key_text,
  max_age_of,
}

-- The text before the first line feed, and the text after it.
before_line : Text → Text
before_line [] = []
before_line (c ∷ t) = if c === b'\n' then [] else c ∷ before_line t

after_line : Text → Text
after_line [] = []
after_line (c ∷ t) = if c === b'\n' then t else after_line t

-- A text of one line, as an identifier and a request's target are.
abbrev pub IsOneLine : Text → Type 0
IsOneLine t = every (λ c. not (c === b'\n')) t ≡ true

before_line-append : (s t : Text) → IsOneLine s → before_line (s ++ codes "\n" ++ t) ≡ s
unfolding before_line every
before_line-append [] t h = refl
before_line-append (c ∷ s) t h = ground (arith, before_line-append s t)

after_line-append : (s t : Text) → IsOneLine s → after_line (s ++ codes "\n" ++ t) ≡ t
unfolding after_line every
after_line-append [] t h = refl
after_line-append (c ∷ s) t h = ground (arith, after_line-append s t)

same_lines :
    (s t x y : Text)
    → IsOneLine s
    → IsOneLine t
    → s ++ codes "\n" ++ x ≡ t ++ codes "\n" ++ y
    → (s ≡ t) × (x ≡ y)
same_lines s t x y h k e =
    let first = before_line-append s x h in
    let first' = before_line-append t y k in
    let rest = after_line-append s x h in
    let rest' = after_line-append t y k in
    let e1 = ap before_line e in let e2 = ap after_line e in (cc, cc)

-- The parts of what is hashed can be told apart.
pub same_key_text :
    (p : CachePlatform) (id id' url url' : Text) (fs gs : Fields)
    → IsOneLine id
    → IsOneLine id'
    → IsOneLine url
    → IsOneLine url'
    → key_text p id url fs ≡ key_text p id' url' gs
    → (id ≡ id')
      × (url ≡ url')
      × (canonical_json p (obj (material fs)) ≡ canonical_json p (obj (material gs)))
unfolding key_text
same_key_text p id id' url url' fs gs h h' k k' e =
    let a =
      same_lines id id' (url ++ codes "\n" ++ canonical_json p (obj (material fs)))
        (url' ++ codes "\n" ++ canonical_json p (obj (material gs))) h h' e in
    let b =
      same_lines url url' (canonical_json p (obj (material fs)))
        (canonical_json p (obj (material gs))) k k' a.1 in
    (a.0, b.0, b.1)

-- The request is one that the cache may answer: the conditions of `cacheLookupFor`.
pub record IsCacheable (p : CachePlatform) (input : CacheEligibilityInput) (id : Text) (fs : Fields)
    : Type 0 where
  pub client : input.api_key_id ≡ some id
  pub public : is_eligible input ≡ true
  pub body : p.parse input.body_buffer ≡ some (obj fs)

lookup_of-key :
    (p : CachePlatform) (id url : Text) (fs : Fields) (age : Option (Option Number))
    (l : CacheLookup)
    → lookup_of p id url fs age ≡ some l
    → l.key ≡ p.digest (key_text p id url fs)
lookup_of-key p id url fs none l h = ground arith
lookup_of-key p id url fs (some age) l h = ground arith

lookup_fields-key :
    (p : CachePlatform) (id url : Text) (fs : Fields) (l : CacheLookup)
    → lookup_fields p id url fs ≡ some l
    → l.key ≡ p.digest (key_text p id url fs)
unfolding lookup_fields
lookup_fields-key p id url fs l h =
    ground (arith, lookup_of-key p id url fs (max_age_of (property (codes "maxAge") fs)) l)

lookup_body-key :
    (p : CachePlatform) (id url : Text) (o : Option Json) (l : CacheLookup)
    → lookup_body p id url o ≡ some l
    → (fs : Fields) × (o ≡ some (obj fs)) × (l.key ≡ p.digest (key_text p id url fs))
lookup_body-key p id url none l h = ground arith
lookup_body-key p id url (some (obj fs)) l h = (fs, refl, lookup_fields-key p id url fs l h)
lookup_body-key p id url (some null) l h = ground arith
lookup_body-key p id url (some (bool b)) l h = ground arith
lookup_body-key p id url (some (num n)) l h = ground arith
lookup_body-key p id url (some (str t)) l h = ground arith
lookup_body-key p id url (some (arr xs)) l h = ground arith

for_client-key :
    (p : CachePlatform) (input : CacheEligibilityInput) (o : Option Text) (l : CacheLookup)
    → for_client p input o ≡ some l
    → (id : Text) × (fs : Fields) × (o ≡ some id)
      × (p.parse input.body_buffer ≡ some (obj fs))
      × (l.key ≡ p.digest (key_text p id input.upstream_url fs))
for_client-key p input none l h = ground arith
for_client-key p input (some id) l h =
    elim (Bool-cases (id === [] || not (is_inspected input.body_buffer))) [
      | inl q ↦ let h' = rw q at h in ground arith
      | inr q ↦
          let (fs, parsed, key) =
            lookup_body-key p id input.upstream_url (p.parse input.body_buffer) l (rw q at h) in
          (id, fs, refl, parsed, key)
    ]

pub cache_lookup_for-key :
    (p : CachePlatform) (input : CacheEligibilityInput) (l : CacheLookup)
    → cache_lookup_for p input ≡ some l
    → (id : Text) × (fs : Fields) × IsCacheable p input id fs
      × (l.key ≡ p.digest (key_text p id input.upstream_url fs))
unfolding cache_lookup_for
cache_lookup_for-key p input l h = elim (Bool-cases (is_eligible input)) [
  | inl q ↦
      let (id, fs, client, parsed, key) = for_client-key p input input.api_key_id l (rw q at h) in
      (id, fs, record { client = client; public = q; body = parsed }, key)
  | inr q ↦ let h' = rw q at h in ground arith
]
