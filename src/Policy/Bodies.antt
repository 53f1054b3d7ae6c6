-- ===== src/Policy/Bodies.antt =====
-- What proxy/policy.ts reads from a request: `requestNeedsCloud` and `hasSensitiveHeaders`, with
-- `findObjectsByKey` of common/utils.ts.
use firecrawl_gateway.Prelude.{
  Bool, true, false, ◌||◌, List, [], ◌∷◌, ◌++◌, Option, none, some, ◌===◌, ◌≡◌, refl, ◌∙◌, arith,
  if◌then◌else◌, Bool-cases, Option-cases, inl, inr,
}
use firecrawl_gateway.Prelude.Text.{Text, codes, codes_eq, to_lower, includes}
use firecrawl_gateway.Prelude.Json.{
  Json, null, bool, num, str, arr, obj, Items, nil, cons, Fields, end, field, property, truthy,
  walk, walk_items, walk_fields, some_value, some_item, some_field, first_found, is_some,
  walk_found,
}
use firecrawl_gateway.Common.{
  CloudReason, managed_path, has_actions, has_agent, has_enterprise, has_proxy, NeedsCloudResult,
}
use firecrawl_gateway.Policy.Paths.{cloud_only_path_patterns, some_pattern}

-- `Array.isArray(x) && x.length > 0`
abbrev is_filled_array : Option Json → Bool
is_filled_array (some (arr (cons x xs))) = true
is_filled_array _ = false

abbrev is_managed_proxy : Option Json → Bool
is_managed_proxy (some (str t)) = t === codes "stealth" || t === codes "enhanced"
is_managed_proxy _ = false

-- The visitor's look at one value. An array has none of the four properties.
unfoldable pub value_needs_cloud : Json → Option CloudReason
unfolding property truthy
value_needs_cloud (obj fields) =
    if is_filled_array (property (codes "actions") fields)
    then some has_actions
    else if truthy (property (codes "agent") fields)
    then some has_agent
    else if is_filled_array (property (codes "enterprise") fields)
    then some has_enterprise
    else if is_managed_proxy (property (codes "proxy") fields)
    then some has_proxy
    else none
value_needs_cloud _ = none

unfoldable pub body_needs_cloud : Option CloudReason → NeedsCloudResult
body_needs_cloud reason = record { required = is_some reason; reason = reason }

unfoldable pub request_needs_cloud : Text → Json → NeedsCloudResult
unfolding some_pattern walk value_needs_cloud body_needs_cloud
request_needs_cloud path body =
    if some_pattern cloud_only_path_patterns path
    then record { required = true; reason = some managed_path }
    else body_needs_cloud (walk body (first_found value_needs_cloud) none)

-- A request requires Cloud exactly if its path is one of the managed features or some value of its
-- body, at any depth, asks for actions, an agent, enterprise options or a managed proxy; and the
-- result carries a reason exactly then.
pub request_needs_cloud_iff :
    (path : Text) (body : Json)
    → ((request_needs_cloud path body).required ≡ (
        some_pattern cloud_only_path_patterns path
        || some_value (λ x. is_some (value_needs_cloud x)) body))
      × (is_some (request_needs_cloud path body).reason ≡ (request_needs_cloud path body).required)
unfolding request_needs_cloud
request_needs_cloud_iff path body = elim (Bool-cases (some_pattern cloud_only_path_patterns path)) [
  | inl e ↦ rw e (refl, refl)
  | inr e ↦ rw e (walk_found value_needs_cloud body none, refl)
]

-- `findObjectsByKey`: in the order of the walk.
abbrev found_in : Option Json → List Json → List Json
found_in none found = found
found_in (some v) found = found ++ v ∷ []

unfoldable pub collect_key : Text → Json → List Json → List Json
unfolding property
collect_key key (obj fields) found = found_in (property key fields) found
collect_key key _ found = found

unfoldable pub find_objects_by_key : Json → Text → List Json
unfolding walk collect_key
find_objects_by_key value key = walk value (collect_key key) []

abbrev is_credential : Text → Bool
is_credential lower =
    lower === codes "authorization"
    || lower === codes "cookie"
    || lower === codes "x-api-key"
    || includes lower (codes "token")
    || includes lower (codes "secret")

unfoldable pub some_credential : Fields → Bool
some_credential end = false
some_credential (field k v fs) = is_credential (to_lower k) || some_credential fs

-- The keys of an array are numerals, and none is a credential.
unfoldable pub has_credential : Json → Bool
unfolding some_credential
has_credential (obj fields) = some_credential fields
has_credential _ = false

unfoldable pub some_body_headers : List Json → Bool
unfolding has_credential
some_body_headers [] = false
some_body_headers (item ∷ items) = has_credential item || some_body_headers items

unfoldable pub has_key : Text → List Text → Bool
has_key name [] = false
has_key name (key ∷ keys) = to_lower key === name || has_key name keys

-- The request's headers are given by their names.
unfoldable pub has_sensitive_headers : List Text → Json → Bool
unfolding has_key find_objects_by_key some_body_headers
has_sensitive_headers names body =
    if has_key (codes "authorization") names || has_key (codes "cookie") names
    then true
    else some_body_headers (find_objects_by_key body (codes "headers"))

abbrev found_credentials : Option Json → Bool
found_credentials none = false
found_credentials (some v) = has_credential v

-- The value is an object, and what it has under `key` is an object that names a credential.
unfoldable pub holds_credentials : Text → Json → Bool
unfolding property has_credential
holds_credentials key (obj fields) = found_credentials (property key fields)
holds_credentials key _ = false

some_body_headers-append :
    (xs ys : List Json)
    → some_body_headers (xs ++ ys) ≡ (some_body_headers xs || some_body_headers ys)
unfolding some_body_headers
some_body_headers-append [] ys = refl
some_body_headers-append (x ∷ xs) ys = ground (arith, some_body_headers-append xs ys)

collect_key_found :
    (key : Text) (j : Json) (found : List Json)
    → some_body_headers (collect_key key j found)
      ≡ (some_body_headers found || holds_credentials key j)
unfolding collect_key holds_credentials some_body_headers
collect_key_found key (obj fields) found = elim (Option-cases (property key fields)) [
  | inl e ↦ rw (e, collect_key, holds_credentials) (ground arith)
  | inr (v, e) ↦
      rw (e, collect_key, holds_credentials)
        (some_body_headers-append found (v ∷ []) ∙ ground arith)
]
collect_key_found key _ found = ground arith

mutual
  unfolding walk walk_items walk_fields some_value some_item some_field

  walk_collects :
      (key : Text) (j : Json) (found : List Json)
      → some_body_headers (walk j (collect_key key) found)
        ≡ (some_body_headers found || some_value (holds_credentials key) j)
  walk_collects key (arr xs) found = ground (
    arith,
    collect_key_found key (arr xs) found,
    walk_items_collects key xs (collect_key key (arr xs) found),
  )
  walk_collects key (obj fs) found = ground (
    arith,
    collect_key_found key (obj fs) found,
    walk_fields_collects key fs (collect_key key (obj fs) found),
  )
  walk_collects key null found = collect_key_found key null found
  walk_collects key (bool b) found = collect_key_found key (bool b) found
  walk_collects key (num n) found = collect_key_found key (num n) found
  walk_collects key (str t) found = collect_key_found key (str t) found

  walk_items_collects :
      (key : Text) (xs : Items) (found : List Json)
      → some_body_headers (walk_items xs (collect_key key) found)
        ≡ (some_body_headers found || some_item (holds_credentials key) xs)
  walk_items_collects key nil found = ground arith
  walk_items_collects key (cons x xs) found = ground (
    arith,
    walk_collects key x found,
    walk_items_collects key xs (walk x (collect_key key) found),
  )

  walk_fields_collects :
      (key : Text) (fs : Fields) (found : List Json)
      → some_body_headers (walk_fields fs (collect_key key) found)
        ≡ (some_body_headers found || some_field (holds_credentials key) fs)
  walk_fields_collects key end found = ground arith
  walk_fields_collects key (field k v fs) found = ground (
    arith,
    walk_collects key v found,
    walk_fields_collects key fs (walk v (collect_key key) found),
  )

-- Headers count as sensitive exactly if the request itself has `authorization` or `cookie`, in any
-- case of letters, or some object of the body, at any depth, has an object `headers` one of whose
-- keys names a credential.
pub has_sensitive_headers_iff :
    (names : List Text) (body : Json)
    → has_sensitive_headers names body ≡ (
        (has_key (codes "authorization") names || has_key (codes "cookie") names)
        || some_value (holds_credentials (codes "headers")) body)
unfolding has_sensitive_headers
has_sensitive_headers_iff names body = ground (arith, walk_collects (codes "headers") body [])
