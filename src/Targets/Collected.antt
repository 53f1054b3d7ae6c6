-- ===== src/Targets/Collected.antt =====
-- Which URLs of a body `collectTargetUrls` of apps/api/src/common/utils.ts finds.
use firecrawl_gateway.Prelude.{
  Bool, true, false, ◌&&◌, ◌||◌, List, [], ◌∷◌, ◌++◌, ◌===◌, nat_eq, ◌≡◌, ◌⊎◌, subst, ◌↔◌, refl,
  arith, Bool-cases, inl, inr,
}
use firecrawl_gateway.Prelude.Text.{Text, codes, codes_eq, to_lower, starts_with}
use firecrawl_gateway.Prelude.Json.{
  Json, null, bool, num, str, arr, obj, Items, nil, cons, Fields, end, field, walk, walk_items,
  walk_fields, some_value, some_item, some_field,
}
use firecrawl_gateway.Prelude.Sets.{contains, contains-add_iff}
use firecrawl_gateway.Targets.{is_web_url, visit_url, collect_target_urls}

-- A value of the body that is this URL.
abbrev is_target : Text → Json → Bool
is_target url (str t) = is_web_url t && (t === url)
is_target url _ = false

visit_url-contains :
    (url t : Text) (urls : List Text)
    → contains url (visit_url (str t) urls) ≡ (contains url urls || is_target url (str t))
visit_url-contains url t urls = ground (arith, contains-add_iff url t urls)

mutual
  unfolding walk walk_items walk_fields some_value some_item some_field

  walk-contains :
      (url : Text) (j : Json) (urls : List Text)
      → contains url (walk j visit_url urls) ≡ (contains url urls || some_value (is_target url) j)
  walk-contains url (arr xs) urls = ground (arith, walk_items-contains url xs urls)
  walk-contains url (obj fs) urls = ground (arith, walk_fields-contains url fs urls)
  walk-contains url null urls = ground arith
  walk-contains url (bool b) urls = ground arith
  walk-contains url (num n) urls = ground arith
  walk-contains url (str t) urls = visit_url-contains url t urls

  walk_items-contains :
      (url : Text) (xs : Items) (urls : List Text)
      → contains url (walk_items xs visit_url urls)
        ≡ (contains url urls || some_item (is_target url) xs)
  walk_items-contains url nil urls = ground arith
  walk_items-contains url (cons x xs) urls =
      ground (arith, walk-contains url x urls, walk_items-contains url xs (walk x visit_url urls))

  walk_fields-contains :
      (url : Text) (fs : Fields) (urls : List Text)
      → contains url (walk_fields fs visit_url urls)
        ≡ (contains url urls || some_field (is_target url) fs)
  walk_fields-contains url end urls = ground arith
  walk_fields-contains url (field k v fs) urls =
      ground (arith, walk-contains url v urls, walk_fields-contains url fs (walk v visit_url urls))

starts_with_iff : (s p : Text) → (starts_with s p ≡ true) ↔ ((rest : Text) × (s ≡ p ++ rest))
unfolding starts_with
starts_with_iff s [] = (λ h. (s, refl), λ w. refl)
starts_with_iff [] (c ∷ p) = (λ h. ground arith, λ w. ground (arith, w.1))
starts_with_iff (d ∷ s) (c ∷ p) = (
  λ h. let (rest, e) = (starts_with_iff s p).0 (ground (arith, h)) in (rest, ground (arith, h, e)),
  λ w. let h = (starts_with_iff s p).1 (w.0, ground (arith, w.1)) in ground (arith, w.1, h),
)

-- A text that begins with `http://` or `https://` in any case of letters.
abbrev pub IsWebUrl : Text → Type 0
IsWebUrl url =
    (rest : Text) × ((to_lower url ≡ codes "http://" ++ rest)
      ⊎ (to_lower url ≡ codes "https://" ++ rest))

is_web_url_iff : (url : Text) → (is_web_url url ≡ true) ↔ IsWebUrl url
unfolding is_web_url
is_web_url_iff url =
    let http = starts_with_iff (to_lower url) (codes "http://") in
    let https = starts_with_iff (to_lower url) (codes "https://") in
    (
      λ h. elim (Bool-cases (starts_with (to_lower url) (codes "http://"))) [
        | inl e ↦ let (rest, q) = http.0 e in (rest, inl q)
        | inr e ↦ let (rest, q) = https.0 (ground (arith, h, e)) in (rest, inr q)
      ],
      λ w. elim w.1 [
        | inl q ↦ let e = http.1 (w.0, q) in ground (arith, e)
        | inr q ↦ let e = https.1 (w.0, q) in ground (arith, e)
      ],
    )

-- The text is a value of the body, at any depth.
mutual
  pub data Occurs (t : Text) : Json → Type 0 where
    itself : Occurs t (str t)
    in_array : {xs : Items} → OccursItems t xs → Occurs t (arr xs)
    in_object : {fs : Fields} → OccursFields t fs → Occurs t (obj fs)

  pub data OccursItems (t : Text) : Items → Type 0 where
    in_item : {x : Json} {xs : Items} → Occurs t x → OccursItems t (cons x xs)
    in_items : {x : Json} {xs : Items} → OccursItems t xs → OccursItems t (cons x xs)

  pub data OccursFields (t : Text) : Fields → Type 0 where
    in_field : {k : Text} {v : Json} {fs : Fields} → Occurs t v → OccursFields t (field k v fs)
    in_fields :
        {k : Text} {v : Json} {fs : Fields} → OccursFields t fs → OccursFields t (field k v fs)

mutual
  unfolding some_value some_item some_field

  some_value-Occurs :
      (url : Text) (j : Json)
      → some_value (is_target url) j ≡ true
      → (is_web_url url ≡ true) × Occurs url j
  some_value-Occurs url (str t) h =
      let e : t ≡ url = (codes_eq.equal_iff t url).0 (ground (arith, h)) in
      subst (λ u. (is_web_url u ≡ true) × Occurs u (str t)) e (ground (arith, h), itself)
  some_value-Occurs url (arr xs) h =
      let (w, o) = some_item-Occurs url xs (ground (arith, h)) in (w, in_array o)
  some_value-Occurs url (obj fs) h =
      let (w, o) = some_field-Occurs url fs (ground (arith, h)) in (w, in_object o)
  some_value-Occurs url null h = ground arith
  some_value-Occurs url (bool b) h = ground arith
  some_value-Occurs url (num n) h = ground arith

  some_item-Occurs :
      (url : Text) (xs : Items)
      → some_item (is_target url) xs ≡ true
      → (is_web_url url ≡ true) × OccursItems url xs
  some_item-Occurs url nil h = ground arith
  some_item-Occurs url (cons x xs) h = elim (Bool-cases (some_value (is_target url) x)) [
    | inl e ↦ let (w, o) = some_value-Occurs url x e in (w, in_item o)
    | inr e ↦ let (w, o) = some_item-Occurs url xs (ground (arith, h, e)) in (w, in_items o)
  ]

  some_field-Occurs :
      (url : Text) (fs : Fields)
      → some_field (is_target url) fs ≡ true
      → (is_web_url url ≡ true) × OccursFields url fs
  some_field-Occurs url end h = ground arith
  some_field-Occurs url (field k v fs) h = elim (Bool-cases (some_value (is_target url) v)) [
    | inl e ↦ let (w, o) = some_value-Occurs url v e in (w, in_field o)
    | inr e ↦ let (w, o) = some_field-Occurs url fs (ground (arith, h, e)) in (w, in_fields o)
  ]

mutual
  unfolding some_value some_item some_field

  Occurs-some_value :
      (url : Text) (j : Json)
      → is_web_url url ≡ true
      → Occurs url j
      → some_value (is_target url) j ≡ true
  Occurs-some_value url _ w itself = ground (arith, codes_eq.equal_iff url url)
  Occurs-some_value url _ w (in_array {xs} o) = ground (arith, OccursItems-some_item url xs w o)
  Occurs-some_value url _ w (in_object {fs} o) = ground (arith, OccursFields-some_field url fs w o)

  OccursItems-some_item :
      (url : Text) (xs : Items)
      → is_web_url url ≡ true
      → OccursItems url xs
      → some_item (is_target url) xs ≡ true
  OccursItems-some_item url _ w (in_item {x} {xs} o) = ground (arith, Occurs-some_value url x w o)
  OccursItems-some_item url _ w (in_items {x} {xs} o) =
      ground (arith, OccursItems-some_item url xs w o)

  OccursFields-some_field :
      (url : Text) (fs : Fields)
      → is_web_url url ≡ true
      → OccursFields url fs
      → some_field (is_target url) fs ≡ true
  OccursFields-some_field url _ w (in_field {k} {v} {fs} o) =
      ground (arith, Occurs-some_value url v w o)
  OccursFields-some_field url _ w (in_fields {k} {v} {fs} o) =
      ground (arith, OccursFields-some_field url fs w o)

-- The targets of a request are exactly the texts that are values of its body, at any depth, and that
-- begin with `http://` or `https://` in any case of letters.
pub collect_target_urls_iff :
    (url : Text) (body : Json)
    → (contains url (collect_target_urls body) ≡ true) ↔ (IsWebUrl url × Occurs url body)
unfolding collect_target_urls contains
collect_target_urls_iff url body =
    let e = walk-contains url body [] in
    (
      λ h.
          let (w, o) = some_value-Occurs url body (ground (arith, h, e)) in
          ((is_web_url_iff url).0 w, o),
      λ w.
          let o = Occurs-some_value url body ((is_web_url_iff url).1 w.0) w.1 in
          ground (arith, o, e),
    )
