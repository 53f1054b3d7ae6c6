-- ===== src/Targets.antt =====
-- apps/api/src/common/utils.ts: the URLs that a request's body names, and which of them are private.
-- `hostname` is `new URL(item).hostname`, and none where the constructor throws. A host that it
-- gives has neither spaces nor signs, and its hextets are at most four digits.
pub mod Collected
mod Tests
use firecrawl_gateway.Prelude.{
  ℕ, ◌+◌, ◌-◌, ◌*◌, ◌/◌, ◌%◌, ◌^◌, ◌≤◌, Bool, true, false, not, ◌&&◌, ◌||◌, List, [], ◌∷◌, ◌++◌,
  Option, none, some, leb, ltb, HasEq, ◌===◌, nat_eq, ◌≡◌, ◌↔◌, refl, sym, ap, ◌∙◌, arith, length,
  drop, take, if◌then◌else◌, Bool-cases, Option-cases, inl, inr,
}
use firecrawl_gateway.Prelude.Text.{
  Text, codes, codes_eq, to_lower, starts_with, ends_with, includes, split, codes_beq,
}
use firecrawl_gateway.Prelude.Json.{
  Json, null, bool, num, str, arr, obj, Items, nil, cons, Fields, end, field, walk, walk_items,
  walk_fields, some_value, some_item, some_field,
}
use firecrawl_gateway.Prelude.Sets.{add, contains, contains-add_iff}

-- `/^https?:\/\//i`
unfoldable pub is_web_url : Text → Bool
unfolding starts_with to_lower
is_web_url t =
    let lower = to_lower t in
    starts_with lower (codes "http://") || starts_with lower (codes "https://")

abbrev pub visit_url : Json → List Text → List Text
visit_url (str t) urls = if is_web_url t then add t urls else urls
visit_url _ urls = urls

-- The list without repetition is the set that the source makes of it.
unfoldable pub collect_target_urls : Json → List Text
unfolding walk is_web_url add
collect_target_urls body = walk body visit_url []

abbrev digit_value : ℕ → Option ℕ
digit_value c = if leb b'0' c && leb c b'9' then some (c - b'0') else none

abbrev hex_value : ℕ → Option ℕ
hex_value c =
    if leb b'0' c && leb c b'9'
    then some (c - b'0')
    else if leb b'a' c && leb c b'f'
    then some (c - b'a' + 10)
    else none

-- `\d+`, as a number.
unfoldable pub decimal_from : ℕ → Text → Option ℕ
decimal_from n [] = some n
decimal_from n (c ∷ t) = elim (digit_value c) [ none ↦ none | some d ↦ decimal_from (n * 10 + d) t ]

abbrev pub decimal_text : Text → Option ℕ
decimal_text [] = none
decimal_text (c ∷ t) = decimal_from 0 (c ∷ t)

-- `parseInt(text, 16)` on lower-case letters: the longest prefix of digits, none for NaN.
unfoldable pub hex_from : ℕ → Text → ℕ
hex_from n [] = n
hex_from n (c ∷ t) = elim (hex_value c) [ none ↦ n | some d ↦ hex_from (n * 16 + d) t ]

abbrev pub parse_hex : Text → Option ℕ
parse_hex [] = none
parse_hex (c ∷ t) = elim (hex_value c) [ none ↦ none | some d ↦ some (hex_from d t) ]

abbrev pub first_two : Option ℕ → Option ℕ → Option ℕ → Option ℕ → Option (ℕ × ℕ)
first_two (some a) (some b) (some c) (some d) = some (a, b)
first_two _ _ _ _ = none

abbrev octets_of : List Text → Option (ℕ × ℕ)
octets_of (a ∷ b ∷ c ∷ d ∷ []) =
    first_two (decimal_text a) (decimal_text b) (decimal_text c) (decimal_text d)
octets_of _ = none

-- `/^(\d+)\.(\d+)\.(\d+)\.(\d+)$/`; only the first two numbers are read.
unfoldable pub ipv4_octets : Text → Option (ℕ × ℕ)
unfolding split decimal_from
ipv4_octets host = octets_of (split b'.' host)

unfoldable pub is_private_octets : ℕ × ℕ → Bool
is_private_octets (a, b) =
    a === 10
    || a === 127
    || a === 172 && leb 16 b && leb b 31
    || a === 192 && b === 168
    || a === 169 && b === 254

abbrev private_octets : Option (ℕ × ℕ) → Bool
private_octets none = false
private_octets (some o) = is_private_octets o

-- The octets that the two hextets of a mapped address stand for.
abbrev mapped_hextets : Option ℕ → Option ℕ → Option (ℕ × ℕ)
mapped_hextets (some high) (some low) =
    let ip = (high * 65536 + low) % 2 ^ 32 in some (ip / 16777216 % 256, ip / 65536 % 256)
mapped_hextets _ _ = none

abbrev mapped_parts : List Text → Option (ℕ × ℕ)
mapped_parts (high ∷ low ∷ []) = mapped_hextets (parse_hex high) (parse_hex low)
mapped_parts _ = none

abbrev mapped_octets : Option (ℕ × ℕ) → Text → Option (ℕ × ℕ)
mapped_octets (some o) suffix = some o
mapped_octets none suffix = mapped_parts (split b':' suffix)

abbrev private_hextet : Option ℕ → Bool
private_hextet none = false
private_hextet (some n) = leb 64512 n && leb n 65023 || leb 65152 n && leb n 65215

abbrev first_hextet : Text → List Text → Bool
first_hextet host [] = false
first_hextet host ([] ∷ parts) = host === codes "::1"
first_hextet host ((c ∷ t) ∷ parts) = private_hextet (parse_hex (c ∷ t))

-- The tests behind the names and the mapped addresses.
unfoldable pub is_private_address : Text → Bool
unfolding split includes ipv4_octets is_private_octets hex_from
is_private_address host =
    if includes host (codes ":")
    then first_hextet host (split b':' host)
    else private_octets (ipv4_octets host)

abbrev private_mapped : Text → Option (ℕ × ℕ) → Bool
private_mapped host none = is_private_address host
private_mapped host (some o) = is_private_octets o

unfoldable pub without_brackets : Text → Text
unfolding starts_with ends_with
without_brackets host =
    if starts_with host (codes "[") && ends_with host (codes "]")
    then take (length host - 2) (drop 1 host)
    else host

unfoldable pub is_private_name : Text → Bool
unfolding ends_with
is_private_name host =
    host === codes "localhost"
    || ends_with host (codes ".localhost")
    || ends_with host (codes ".local")
    || ends_with host (codes ".internal")
    || host === codes "127.0.0.1"
    || host === codes "0.0.0.0"
    || host === codes "::1"

unfoldable pub is_private_host : Text → Bool
unfolding is_private_name is_private_address starts_with ipv4_octets split
is_private_host host =
    if is_private_name host
    then true
    else if starts_with host (codes "::ffff:")
    then private_mapped host (mapped_octets (ipv4_octets (drop 7 host)) (drop 7 host))
    else is_private_address host

unfoldable pub is_private_hostname : Text → Bool
unfolding is_private_host without_brackets to_lower
is_private_hostname hostname = is_private_host (without_brackets (to_lower hostname))

abbrev private_parsed : Option Text → Bool
private_parsed none = false
private_parsed (some hostname) = is_private_hostname hostname

unfoldable pub has_private_target_url : (Text → Option Text) → List Text → Bool
unfolding is_private_hostname
has_private_target_url hostname [] = false
has_private_target_url hostname (url ∷ urls) =
    if private_parsed (hostname url) then true else has_private_target_url hostname urls
