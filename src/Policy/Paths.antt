-- ===== src/Policy/Paths.antt =====
-- The regular expressions of proxy/policy.ts, as scanners over code units.
use firecrawl_gateway.Prelude.{
  ℕ, Bool, true, false, not, ◌&&◌, ◌||◌, List, [], ◌∷◌, Option, none, some, leb, ◌===◌, nat_eq,
  if◌then◌else◌,
}
use firecrawl_gateway.Prelude.Text.{Text, codes, strip_prefix}

abbrev pub slash : ℕ
slash = 47

-- One `\/word` or `\/[^/]+` of a path pattern.
pub data Part : Type 0 where
  word : Text → Part
  segment : Part

abbrev pub is_digit : ℕ → Bool
is_digit c = leb 48 c && leb c 57

unfoldable pub drop_digits : Text → Text
drop_digits [] = []
drop_digits (c ∷ s) = if is_digit c then drop_digits s else c ∷ s

unfoldable pub drop_segment : Text → Text
drop_segment [] = []
drop_segment (c ∷ s) = if c === slash then c ∷ s else drop_segment s

-- `X+`: at least one.
abbrev one_or_more : (ℕ → Bool) → (Text → Text) → Text → Option Text
one_or_more test rest [] = none
one_or_more test rest (c ∷ s) = if test c then some (rest s) else none

abbrev match_part : Part → Text → Option Text
match_part (word w) s = strip_prefix w s
match_part segment s = one_or_more (λ c. not (c === slash)) drop_segment s

unfoldable pub match_parts : List Part → Option Text → Bool
unfolding drop_segment strip_prefix
match_parts ps none = false
match_parts [] (some []) = true
match_parts [] (some (c ∷ s)) = c === slash
match_parts (p ∷ ps) (some []) = false
match_parts (p ∷ ps) (some (c ∷ s)) = if c === slash then match_parts ps (match_part p s) else false

abbrev digits_then : List Part → Option Text → Bool
digits_then ps none = false
digits_then ps (some s) = match_parts ps (one_or_more is_digit drop_digits s)

-- `^\/v\d+` followed by the parts and by `(?:\/|$)`.
unfoldable pub match_path : List Part → Text → Bool
unfolding match_parts drop_digits
match_path ps path = digits_then ps (strip_prefix (codes "/v") path)

abbrev pub cloud_only_path_patterns : List (List Part)
cloud_only_path_patterns =
    (word (codes "agent") ∷ [])
    ∷ (word (codes "browser") ∷ [])
    ∷ (word (codes "monitor") ∷ [])
    ∷ (word (codes "search") ∷ word (codes "research") ∷ [])
    ∷ (word (codes "research") ∷ [])
    ∷ (word (codes "support") ∷ [])
    ∷ (word (codes "team") ∷ [])
    ∷ (word (codes "feedback") ∷ [])
    ∷ (word (codes "scrape") ∷ segment ∷ word (codes "interact") ∷ [])
    ∷ (word (codes "search") ∷ segment ∷ word (codes "feedback") ∷ [])
    ∷ []

unfoldable pub some_pattern : List (List Part) → Text → Bool
unfolding match_path
some_pattern [] path = false
some_pattern (ps ∷ pss) path = match_path ps path || some_pattern pss path

-- `\w`, `\s` and `\b` over ASCII.
abbrev is_word : ℕ → Bool
is_word c = is_digit c || leb 65 c && leb c 90 || leb 97 c && leb c 122 || c === 95

abbrev is_space : ℕ → Bool
is_space c = leb 9 c && leb c 13 || c === 32

unfoldable pub drop_spaces : Text → Text
drop_spaces [] = []
drop_spaces (c ∷ s) = if is_space c then drop_spaces s else c ∷ s

abbrev ends_word : Option Text → Bool
ends_word none = false
ends_word (some []) = true
ends_word (some (c ∷ s)) = not (is_word c)

abbrev verb_here : Option Text → Bool
verb_here none = false
verb_here (some s) =
    ends_word (strip_prefix (codes "get") s)
    || ends_word (strip_prefix (codes "post") s)
    || ends_word (strip_prefix (codes "put") s)
    || ends_word (strip_prefix (codes "patch") s)
    || ends_word (strip_prefix (codes "delete") s)
    || ends_word (strip_prefix (codes "head") s)
    || ends_word (strip_prefix (codes "options") s)

abbrev spaces_then : Option Text → Option Text
spaces_then none = none
spaces_then (some s) = one_or_more is_space drop_spaces s

-- `/\bcannot\s+(?:get|post|put|patch|delete|head|options)\b/`; `inside` is whether the code unit
-- before `s` is part of a word.
unfoldable pub cannot_verb_from : Bool → Text → Bool
unfolding strip_prefix drop_spaces
cannot_verb_from inside [] = false
cannot_verb_from inside (c ∷ s) =
    not inside && verb_here (spaces_then (strip_prefix (codes "cannot") (c ∷ s)))
    || cannot_verb_from (is_word c) s

unfoldable pub cannot_verb : Text → Bool
unfolding cannot_verb_from
cannot_verb s = cannot_verb_from false s
