-- ===== src/Proxy/Sanitizing.antt =====
-- Which headers `sanitizeHeaders` of apps/api/src/proxy/proxy.service.ts sends upstream.
use firecrawl_gateway.Prelude.{
  ℕ, Bool, true, false, List, [], ◌∷◌, ◌++◌, Option, none, some, ◌===◌, nat_eq, ◌≡◌, ◌⊎◌, refl, sym,
  ap, ◌∙◌, Any-map, subst, arith, All, Any, here, there, Bool-cases, inl, inr, if◌then◌else◌, ◌↔◌,
}
use firecrawl_gateway.Prelude.Text.{Text, codes, codes_eq, to_lower}
use firecrawl_gateway.Prelude.OrderedMap.{get, set, has, get-set, get-set_self}
use firecrawl_gateway.Prelude.Sets.{contains}
use firecrawl_gateway.Common.{Backend, cloud, self_hosted, backend_eq}
use firecrawl_gateway.Proxy.Headers.{
  hop_by_hop_headers, HeaderValue, one, many, undefined, join, is_withheld, set_value, copy_headers,
  sanitize_headers,
}

-- A header of a single connection, by its name in lower case.
abbrev pub IsHopByHop : Text → Type 0
IsHopByHop name =
    (name ≡ codes "connection")
    ⊎ (name ≡ codes "keep-alive")
    ⊎ (name ≡ codes "proxy-authenticate")
    ⊎ (name ≡ codes "proxy-authorization")
    ⊎ (name ≡ codes "te")
    ⊎ (name ≡ codes "trailer")
    ⊎ (name ≡ codes "transfer-encoding")
    ⊎ (name ≡ codes "upgrade")
    ⊎ (name ≡ codes "host")
    ⊎ (name ≡ codes "content-length")

contains-hop_by_hop_headers_iff :
    (name : Text) → (contains name hop_by_hop_headers ≡ true) ↔ IsHopByHop name
unfolding contains
contains-hop_by_hop_headers_iff name = ground (
  arith,
  codes_eq.equal_iff (codes "connection") name,
  codes_eq.equal_iff (codes "keep-alive") name,
  codes_eq.equal_iff (codes "proxy-authenticate") name,
  codes_eq.equal_iff (codes "proxy-authorization") name,
  codes_eq.equal_iff (codes "te") name,
  codes_eq.equal_iff (codes "trailer") name,
  codes_eq.equal_iff (codes "transfer-encoding") name,
  codes_eq.equal_iff (codes "upgrade") name,
  codes_eq.equal_iff (codes "host") name,
  codes_eq.equal_iff (codes "content-length") name,
)

-- A header that must not go upstream, by its name in lower case.
abbrev pub IsStopped : Backend → Bool → Text → Type 0
IsStopped backend auth_enabled name =
    IsHopByHop name
    ⊎ (name ≡ codes "x-firecrawl-route-mode")
    ⊎ (name ≡ codes "cookie")
    ⊎ ((name ≡ codes "authorization") × (backend ≡ self_hosted) × (auth_enabled ≡ true))

is_withheld_iff :
    (backend : Backend) (auth_enabled : Bool) (name : Text)
    → (is_withheld backend auth_enabled name ≡ true) ↔ IsStopped backend auth_enabled name
unfolding is_withheld
is_withheld_iff cloud auth_enabled name = ground (
  arith,
  contains-hop_by_hop_headers_iff name,
  codes_eq.equal_iff name (codes "x-firecrawl-route-mode"),
  codes_eq.equal_iff name (codes "cookie"),
  codes_eq.equal_iff name (codes "authorization"),
)
is_withheld_iff self_hosted auth_enabled name = ground (
  arith,
  contains-hop_by_hop_headers_iff name,
  codes_eq.equal_iff name (codes "x-firecrawl-route-mode"),
  codes_eq.equal_iff name (codes "cookie"),
  codes_eq.equal_iff name (codes "authorization"),
)

-- The text of a header that has one.
abbrev pub text_of : HeaderValue → Option Text
text_of (one t) = some t
text_of (many ts) = some (join ts)
text_of undefined = none

-- The header comes from the client and may go upstream.
pub record IsPassed (backend : Backend) (auth_enabled : Bool) (headers : List (Text × HeaderValue))
    (name value : Text) : Type 0 where
  pub allowed : ¬ IsStopped backend auth_enabled (to_lower name)
  pub sent : Any (λ h. (h.0 ≡ name) × (text_of h.1 ≡ some value)) headers

set-All :
    (P : Text × Text → Type 0) (name value : Text) (next : List (Text × Text))
    → P (name, value)
    → All P next
    → All P (set name value next)
unfolding set
set-All P name value [] p ps = (p, tt)
set-All P name value ((j, v) ∷ next) p ps = elim (Bool-cases (j === name)) [
  | inl e ↦ rw e (subst (λ n. P (n, value)) (sym ((codes_eq.equal_iff j name).0 e)) p, ps.1)
  | inr e ↦ rw e (ps.0, set-All P name value next p ps.1)
]

module _ (backend : Backend) (auth_enabled : Bool) (all : List (Text × HeaderValue)) where
  abbrev AllowedEntry : Text × Text → Type 0
  AllowedEntry h = IsPassed backend auth_enabled all h.0 h.1

  abbrev AllPassed : List (Text × Text) → Type 0
  AllPassed = All AllowedEntry

  not_withheld :
      (name : Text)
      → is_withheld backend auth_enabled (to_lower name) ≡ false
      → ¬ IsStopped backend auth_enabled (to_lower name)
  not_withheld name w x =
      let y = (is_withheld_iff backend auth_enabled (to_lower name)).1 x in ground (arith, w, y)

  passed :
      (name t : Text) (value : HeaderValue)
      → is_withheld backend auth_enabled (to_lower name) ≡ false
      → text_of value ≡ some t
      → Any (λ h. h ≡ (name, value)) all
      → IsPassed backend auth_enabled all name t
  passed name t value w e a = record {
    allowed = λ x. not_withheld name w x;
    sent = Any-map all (λ h q. (ap (λ x. x.0) q, ap (λ x. text_of x.1) q ∙ e)) a;
  }

  set_value-AllPassed :
      (name : Text) (value : HeaderValue) (next : List (Text × Text))
      → is_withheld backend auth_enabled (to_lower name) ≡ false
      → Any (λ h. h ≡ (name, value)) all
      → AllPassed next
      → AllPassed (set_value name value next)
  set_value-AllPassed name (one t) next w a ps =
      set-All AllowedEntry name t next (passed name t (one t) w refl a) ps
  set_value-AllPassed name (many ts) next w a ps =
      set-All AllowedEntry name (join ts) next (passed name (join ts) (many ts) w refl a) ps
  set_value-AllPassed name undefined next w a ps = ps

  copy_headers-AllPassed :
      (headers : List (Text × HeaderValue)) (next : List (Text × Text))
      → All (λ h. Any (λ x. x ≡ h) all) headers
      → AllPassed next
      → AllPassed (copy_headers backend auth_enabled headers next)
  unfolding copy_headers
  copy_headers-AllPassed [] next m ps = ps
  copy_headers-AllPassed ((name, value) ∷ headers) next m ps =
      elim (Bool-cases (is_withheld backend auth_enabled (to_lower name))) [
        | inl e ↦ rw e (copy_headers-AllPassed headers next m.1 ps)
        | inr e ↦ rw e (
            copy_headers-AllPassed headers (set_value name value next) m.1
              (set_value-AllPassed name value next e m.0 ps))
      ]

-- Setting a header keeps the others.
set-has :
    (name other value : Text) (next : List (Text × Text))
    → has other next ≡ true
    → has other (set name value next) ≡ true
unfolding has
set-has name other value next h = ground (arith, get-set name other value next)

set-has_self :
    (name value : Text) (next : List (Text × Text)) → has name (set name value next) ≡ true
unfolding has
set-has_self name value next = ground (arith, get-set_self name value next)

set_value-has :
    (name other : Text) (value : HeaderValue) (next : List (Text × Text))
    → has other next ≡ true
    → has other (set_value name value next) ≡ true
set_value-has name other (one t) next h = set-has name other t next h
set_value-has name other (many ts) next h = set-has name other (join ts) next h
set_value-has name other undefined next h = h

module _ (backend : Backend) (auth_enabled : Bool) where
  copy_headers-has :
      (other : Text) (headers : List (Text × HeaderValue)) (next : List (Text × Text))
      → has other next ≡ true
      → has other (copy_headers backend auth_enabled headers next) ≡ true
  unfolding copy_headers
  copy_headers-has other [] next h = h
  copy_headers-has other ((name, value) ∷ headers) next h =
      elim (Bool-cases (is_withheld backend auth_enabled (to_lower name))) [
        | inl e ↦ rw e (copy_headers-has other headers next h)
        | inr e ↦ rw e (
            copy_headers-has other headers (set_value name value next)
              (set_value-has name other value next h))
      ]

  -- The header must not go, has no value, or is among those that go.
  abbrev pub IsDelivered : List (Text × Text) → Text × HeaderValue → Type 0
  IsDelivered next (name, value) =
      IsStopped backend auth_enabled (to_lower name)
      ⊎ (text_of value ≡ none)
      ⊎ (has name next ≡ true)

  set_value-has_self :
      (name : Text) (value : HeaderValue) (next : List (Text × Text))
      → (text_of value ≡ none) ⊎ (has name (set_value name value next) ≡ true)
  set_value-has_self name (one t) next = inr (set-has_self name t next)
  set_value-has_self name (many ts) next = inr (set-has_self name (join ts) next)
  set_value-has_self name undefined next = inl refl

  step-IsDelivered :
      (name : Text) (value : HeaderValue) (headers : List (Text × HeaderValue))
      (next result : List (Text × Text))
      → copy_headers backend auth_enabled ((name, value) ∷ headers) next ≡ result
      → IsDelivered result (name, value)
  unfolding copy_headers
  step-IsDelivered name value headers next result q =
      elim (Bool-cases (is_withheld backend auth_enabled (to_lower name))) [
        | inl e ↦ inl ((is_withheld_iff backend auth_enabled (to_lower name)).0 e)
        | inr e ↦ inr (elim (set_value-has_self name value next) [
          | inl none_there ↦ inl none_there
          | inr h ↦ inr (
              subst (λ r. has name r ≡ true) (rw (e, copy_headers) at q)
                (copy_headers-has name headers (set_value name value next) h))
        ])
      ]

  copy_headers-IsDelivered :
      (headers : List (Text × HeaderValue)) (next result : List (Text × Text))
      → copy_headers backend auth_enabled headers next ≡ result
      → All (IsDelivered result) headers
  unfolding copy_headers
  copy_headers-IsDelivered [] next result q = tt
  copy_headers-IsDelivered ((name, value) ∷ headers) next result q = (
    step-IsDelivered name value headers next result q,
    copy_headers-IsDelivered headers
        (if is_withheld backend auth_enabled (to_lower name)
          then next
          else set_value name value next)
        result q,
  )

All-there :
    {A : Type 0} (x : A) (all xs : List A)
    → All (λ h. Any (λ y. y ≡ h) all) xs
    → All (λ h. Any (λ y. y ≡ h) (x ∷ all)) xs
All-there x all [] m = tt
All-there x all (y ∷ xs) m = (there m.0, All-there x all xs m.1)

All-Any : {A : Type 0} (xs : List A) → All (λ h. Any (λ y. y ≡ h) xs) xs
All-Any [] = tt
All-Any (x ∷ xs) = (here refl, All-there x xs xs (All-Any xs))

-- The key is sent to Cloud, and it is not empty.
abbrev pub IsKeyHeader : Backend → Option Text → Text → Text → Type 0
IsKeyHeader backend api_key name value =
    (backend ≡ cloud)
    × (c : ℕ) × (key : Text) × (api_key ≡ some (c ∷ key))
    × (name ≡ codes "authorization")
    × (value ≡ codes "Bearer " ++ c ∷ key)

abbrev pub IsSanitized :
    Backend → Bool → Option Text → List (Text × HeaderValue) → List (Text × Text) → Type 0
IsSanitized backend auth_enabled api_key headers result =
    All (λ h. IsPassed backend auth_enabled headers h.0 h.1 ⊎ IsKeyHeader backend api_key h.0 h.1)
      result
    × All (IsDelivered backend auth_enabled result) headers

-- What `authorize` adds.
abbrev pub HasKey : Backend → Option Text → List (Text × Text) → Type 0
HasKey cloud (some (c ∷ key)) result =
    get (codes "authorization") result ≡ some (codes "Bearer " ++ c ∷ key)
HasKey _ _ result = Unit {0}

All-map {ℓ κ} :
    {A : Type ℓ} {P Q : A → Type κ} (xs : List A) → ((x : A) → P x → Q x) → All P xs → All Q xs
All-map [] f h = tt
All-map (x ∷ xs) f h = (f x h.0, All-map xs f h.1)

copied-IsSanitized :
    (backend : Backend) (auth_enabled : Bool) (api_key : Option Text)
    (headers : List (Text × HeaderValue))
    → IsSanitized backend auth_enabled api_key headers
        (copy_headers backend auth_enabled headers [])
copied-IsSanitized backend auth_enabled api_key headers = (
  All-map (copy_headers backend auth_enabled headers []) (λ h p. inl p)
      (copy_headers-AllPassed backend auth_enabled headers headers [] (All-Any headers) tt),
  copy_headers-IsDelivered backend auth_enabled headers []
      (copy_headers backend auth_enabled headers []) refl,
)

set-IsDelivered :
    (backend : Backend) (auth_enabled : Bool) (name value : Text) (result : List (Text × Text))
    (h : Text × HeaderValue)
    → IsDelivered backend auth_enabled result h
    → IsDelivered backend auth_enabled (set name value result) h
set-IsDelivered backend auth_enabled name value result (other, v) (inl stopped) = inl stopped
set-IsDelivered backend auth_enabled name value result (other, v) (inr (inl e)) = inr (inl e)
set-IsDelivered backend auth_enabled name value result (other, v) (inr (inr e)) =
    inr (inr (set-has name other value result e))

-- What goes upstream is just what the client sent and the key. Each header that goes is one of the
-- client's with its text, and its name, in any case of letters, is not `cookie`, the route mode, one
-- of a single connection, or, to self-hosted with authentication on, `authorization`; or it is the
-- `authorization` of the key, which only Cloud gets, and only with a key that is not empty. Every
-- header of the client's that has a text and no such name goes under its name. With such a key the
-- `authorization` that Cloud gets is that key's.
pub sanitize_headers-IsSanitized :
    (backend : Backend) (auth_enabled : Bool) (api_key : Option Text)
    (headers : List (Text × HeaderValue))
    → let result = sanitize_headers backend auth_enabled api_key headers in
      IsSanitized backend auth_enabled api_key headers result × HasKey backend api_key result
unfolding sanitize_headers
sanitize_headers-IsSanitized self_hosted auth_enabled api_key headers =
    (copied-IsSanitized self_hosted auth_enabled api_key headers, tt)
sanitize_headers-IsSanitized cloud auth_enabled none headers =
    (copied-IsSanitized cloud auth_enabled none headers, tt)
sanitize_headers-IsSanitized cloud auth_enabled (some []) headers =
    (copied-IsSanitized cloud auth_enabled (some []) headers, tt)
sanitize_headers-IsSanitized cloud auth_enabled (some (c ∷ key)) headers =
    let name = codes "authorization" in
    let value = codes "Bearer " ++ c ∷ key in
    let copied = copy_headers cloud auth_enabled headers [] in
    let (sound, delivered) = copied-IsSanitized cloud auth_enabled (some (c ∷ key)) headers in
    (
      (
        set-All
            (λ h.
              IsPassed cloud auth_enabled headers h.0 h.1
              ⊎ IsKeyHeader cloud (some (c ∷ key)) h.0 h.1)
            name value copied (inr (refl, c, key, refl, refl, refl)) sound,
        All-map headers (λ h d. set-IsDelivered cloud auth_enabled name value copied h d) delivered,
      ),
      get-set_self name value copied,
    )
