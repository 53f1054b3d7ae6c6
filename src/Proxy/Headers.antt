-- ===== src/Proxy/Headers.antt =====
-- apps/api/src/proxy/proxy.service.ts: which headers go upstream, and the JSON content types.
use mathlib.Core.List.{reverse}
use firecrawl_gateway.Prelude.{
  ℕ, Bool, false, not, ◌&&◌, ◌||◌, List, [], ◌∷◌, Option, none, some, leb, ◌===◌, nat_eq, ◌++◌,
  if◌then◌else◌,
}
use firecrawl_gateway.Prelude.Text.{Text, codes, codes_eq, ends_with, to_lower, ends_with}
use firecrawl_gateway.Prelude.OrderedMap.{set}
use firecrawl_gateway.Prelude.Sets.{contains}
use firecrawl_gateway.Common.{Backend, cloud, backend_eq}

unfoldable pub before_semicolon : Text → Text
before_semicolon [] = []
before_semicolon (c ∷ t) = if c === 59 then [] else c ∷ before_semicolon t

abbrev is_space : ℕ → Bool
is_space c = leb 9 c && leb c 13 || c === 32

unfoldable pub trim_start : Text → Text
trim_start [] = []
trim_start (c ∷ t) = if is_space c then trim_start t else c ∷ t

unfoldable pub is_json_content_type : Option Text → Bool
unfolding before_semicolon trim_start ends_with to_lower
is_json_content_type none = false
is_json_content_type (some t) =
    let media_type = to_lower (reverse (trim_start (reverse (trim_start (before_semicolon t))))) in
    media_type === codes "application/json" || ends_with media_type (codes "+json")

-- `hopByHopHeaders`.
abbrev pub hop_by_hop_headers : List Text
hop_by_hop_headers =
    codes "connection"
    ∷ codes "keep-alive"
    ∷ codes "proxy-authenticate"
    ∷ codes "proxy-authorization"
    ∷ codes "te"
    ∷ codes "trailer"
    ∷ codes "transfer-encoding"
    ∷ codes "upgrade"
    ∷ codes "host"
    ∷ codes "content-length"
    ∷ []

-- A header's value: one text, several, or `undefined`.
pub data HeaderValue : Type 0 where
  one : Text → HeaderValue
  many : List Text → HeaderValue
  undefined : HeaderValue

unfoldable pub join : List Text → Text
join [] = []
join (t ∷ []) = t
join (t ∷ ts) = t ++ codes ", " ++ join ts

-- The names that `sanitizeHeaders` passes over, in lower case.
unfoldable pub is_withheld : Backend → Bool → Text → Bool
unfolding contains
is_withheld backend auth_enabled name =
    contains name hop_by_hop_headers
    || name === codes "x-firecrawl-route-mode"
    || name === codes "cookie"
    || (name === codes "authorization" && not (backend === cloud) && auth_enabled)

abbrev pub set_value : Text → HeaderValue → List (Text × Text) → List (Text × Text)
set_value name (one t) next = set name t next
set_value name (many ts) next = set name (join ts) next
set_value name undefined next = next

unfoldable pub copy_headers :
    Backend → Bool → List (Text × HeaderValue) → List (Text × Text) → List (Text × Text)
unfolding is_withheld
copy_headers backend auth_enabled [] next = next
copy_headers backend auth_enabled ((name, value) ∷ headers) next =
    copy_headers backend auth_enabled headers
      (if is_withheld backend auth_enabled (to_lower name) then next else set_value name value next)

-- An empty key counts as none.
abbrev pub authorize : Backend → Option Text → List (Text × Text) → List (Text × Text)
authorize cloud (some []) next = next
authorize cloud (some (c ∷ key)) next =
    set (codes "authorization") (codes "Bearer " ++ c ∷ key) next
authorize _ _ next = next

unfoldable pub sanitize_headers :
    Backend → Bool → Option Text → List (Text × HeaderValue) → List (Text × Text)
unfolding copy_headers
sanitize_headers backend auth_enabled api_key headers =
    authorize backend api_key (copy_headers backend auth_enabled headers [])
