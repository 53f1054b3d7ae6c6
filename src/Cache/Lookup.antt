-- ===== src/Cache/Lookup.antt =====
-- `cacheLookupFor` of apps/api/src/proxy/response-cache.ts: which requests the cache may answer,
-- and under which key. Numbers in a body are integers.
use firecrawl_gateway.Prelude.{
  ℕ, zero, ◌*◌, Bool, true, false, not, ◌&&◌, ◌||◌, List, [], ◌∷◌, ◌++◌, Option, none, some, map,
  length, ltb, nat_beq, ◌===◌, nat_eq, if◌then◌else◌,
}
use firecrawl_gateway.Prelude.OrderedMap
use firecrawl_gateway.Prelude.Sets.{contains}
use firecrawl_gateway.Prelude.Text.{Text, codes, codes_eq, to_lower, includes}
use firecrawl_gateway.Prelude.Json.{
  Number, plus, minus, Json, null, bool, num, str, arr, obj, Items, nil, cons, Fields, end, field,
  property, is_some,
}
use firecrawl_gateway.Common.{cloud, self_hosted, NeedsCloudResult}
use firecrawl_gateway.Policy.{InitialBackend, to, reject, PrivacyFlags}

abbrev pub max_inspected_body_bytes : ℕ
max_inspected_body_bytes = 64 * 1024

unfoldable pub is_scrape_path : Text → Bool
is_scrape_path path =
    path === codes "/v1/scrape"
    || path === codes "/v2/scrape"
    || path === codes "/v1/scrape/"
    || path === codes "/v2/scrape/"

abbrev pub uncacheable_fields : List Text
uncacheable_fields =
    codes "actions"
    ∷ codes "headers"
    ∷ codes "profile"
    ∷ codes "changeTracking"
    ∷ codes "lockdown"
    ∷ codes "minAge"
    ∷ []

abbrev pub control_fields : List Text
control_fields = codes "maxAge" ∷ codes "storeInCache" ∷ []

pub record CacheLookup : Type 0 where
  pub key : Text
  pub max_age_ms : Option Number

pub record CacheEligibilityInput : Type 0 where
  pub method : Text
  pub upstream_url : Text
  pub path : Text
  pub headers : List (Text × Text)
  pub api_key_id : Option Text
  pub body_buffer : Text
  pub initial_backend : InitialBackend
  pub needs_cloud : NeedsCloudResult
  pub privacy : PrivacyFlags

-- `JSON.parse` of UTF-8 bytes, `JSON.stringify` of a string and of a number, and SHA-256 in hex.
pub record CachePlatform : Type 0 where
  pub parse : Text → Option Json
  pub string : Text → Text
  pub number : Number → Text
  pub digest : Text → Text

-- `left < right` of two strings.
unfoldable pub text_ltb : Text → Text → Bool
text_ltb s [] = false
text_ltb [] (b ∷ t) = true
text_ltb (a ∷ s) (b ∷ t) = ltb a b || nat_beq a b && text_ltb s t

unfoldable pub insert_entry : Text × Text → List (Text × Text) → List (Text × Text)
unfolding text_ltb
insert_entry e [] = e ∷ []
insert_entry e (d ∷ ds) = if text_ltb d.0 e.0 then d ∷ insert_entry e ds else e ∷ d ∷ ds

unfoldable pub sort_entries : List (Text × Text) → List (Text × Text)
unfolding insert_entry
sort_entries [] = []
sort_entries (e ∷ es) = insert_entry e (sort_entries es)

-- `join(",")`
unfoldable pub join_comma : List Text → Text
join_comma [] = []
join_comma (t ∷ []) = t
join_comma (t ∷ ts) = t ++ codes "," ++ join_comma ts

abbrev pub member : CachePlatform → Text × Text → Text
member p e = p.string e.0 ++ codes ":" ++ e.1

unfoldable mutual
  unfolding sort_entries join_comma

  pub canonical_json : CachePlatform → Json → Text
  canonical_json p null = codes "null"
  canonical_json p (bool true) = codes "true"
  canonical_json p (bool false) = codes "false"
  canonical_json p (num n) = p.number n
  canonical_json p (str t) = p.string t
  canonical_json p (arr xs) = codes "[" ++ join_comma (canonical_items p xs) ++ codes "]"
  canonical_json p (obj fs) =
      codes "{" ++ join_comma (map (member p) (sort_entries (canonical_fields p fs))) ++ codes "}"

  pub canonical_items : CachePlatform → Items → List Text
  canonical_items p nil = []
  canonical_items p (cons x xs) = canonical_json p x ∷ canonical_items p xs

  pub canonical_fields : CachePlatform → Fields → List (Text × Text)
  canonical_fields p end = []
  canonical_fields p (field k v fs) = (k, canonical_json p v) ∷ canonical_fields p fs

-- The body without the fields that control caching.
unfoldable pub material : Fields → Fields
unfolding contains
material end = end
material (field k v fs) = if contains k control_fields then material fs else field k v (material fs)

unfoldable pub has_any : List Text → Fields → Bool
unfolding property
has_any [] fs = false
has_any (name ∷ names) fs = is_some (property name fs) || has_any names fs

abbrev pub is_text : Option Json → Bool
is_text (some (str t)) = true
is_text _ = false

abbrev pub is_true : Option Json → Bool
is_true (some (bool true)) = true
is_true _ = false

abbrev pub is_false : Option Json → Bool
is_false (some (bool false)) = true
is_false _ = false

-- The age that a request accepts, none for the gateway's; no answer where it asks for no cache.
abbrev pub max_age_of : Option Json → Option (Option Number)
max_age_of none = some none
max_age_of (some (num (plus zero))) = none
max_age_of (some (num (minus zero))) = none
max_age_of (some (num n)) = some (some n)
max_age_of (some _) = none

-- What is hashed: the client, the request's target and the canonical body.
unfoldable pub key_text : CachePlatform → Text → Text → Fields → Text
unfolding canonical_json material
key_text p id url fs =
    id ++ codes "\n" ++ (url ++ codes "\n" ++ canonical_json p (obj (material fs)))

abbrev pub lookup_of :
    CachePlatform → Text → Text → Fields → Option (Option Number) → Option CacheLookup
lookup_of p id url fs none = none
lookup_of p id url fs (some age) =
    some (record { key = p.digest (key_text p id url fs); max_age_ms = age })

unfoldable pub lookup_fields : CachePlatform → Text → Text → Fields → Option CacheLookup
unfolding has_any property key_text
lookup_fields p id url fs =
    if not (is_text (property (codes "url") fs))
    then none
    else if has_any uncacheable_fields fs
    then none
    else if is_true (property (codes "zeroDataRetention") fs)
        || is_false (property (codes "storeInCache") fs)
    then none
    else lookup_of p id url fs (max_age_of (property (codes "maxAge") fs))

abbrev pub lookup_body : CachePlatform → Text → Text → Option Json → Option CacheLookup
lookup_body p id url (some (obj fs)) = lookup_fields p id url fs
lookup_body p id url _ = none

abbrev pub is_cloud : InitialBackend → Bool
is_cloud (to cloud) = true
is_cloud (to self_hosted) = false
is_cloud reject = false

-- `String(headers["cache-control"] ?? "").toLowerCase()` says `no-cache` or `no-store`.
abbrev forbids : Option Text → Bool
forbids none = false
forbids (some t) =
    includes (to_lower t) (codes "no-cache") || includes (to_lower t) (codes "no-store")

unfoldable pub is_inspected : Text → Bool
is_inspected body = not (length body === 0) && not (ltb max_inspected_body_bytes (length body))

-- The conditions on the request besides its key and its body.
unfoldable pub is_eligible : CacheEligibilityInput → Bool
unfolding is_scrape_path OrderedMap.get
is_eligible input =
    input.method === codes "POST"
    && is_scrape_path input.path
    && is_cloud input.initial_backend
    && not input.needs_cloud.required
    && not input.privacy.has_sensitive_headers
    && not input.privacy.has_private_target_url
    && not (forbids (OrderedMap.get (codes "cache-control") input.headers))

abbrev pub for_client : CachePlatform → CacheEligibilityInput → Option Text → Option CacheLookup
for_client p input none = none
for_client p input (some id) =
    if id === [] || not (is_inspected input.body_buffer)
    then none
    else lookup_body p id input.upstream_url (p.parse input.body_buffer)

unfoldable pub cache_lookup_for : CachePlatform → CacheEligibilityInput → Option CacheLookup
unfolding is_eligible is_inspected lookup_fields
cache_lookup_for p input = if is_eligible input then for_client p input input.api_key_id else none
