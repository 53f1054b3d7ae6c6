-- ===== src/Cache/Reordered.antt =====
-- `canonicalJson` of apps/api/src/proxy/response-cache.ts: JSON up to the order of fields.
use firecrawl_gateway.Prelude.{
  false, Option, none, some, ◌===◌, ◌≡◌, refl, arith, ◌∙◌, Bool-cases, inl, inr,
}
use firecrawl_gateway.Prelude.Sets.{contains}
use firecrawl_gateway.Prelude.Text.{Text, codes_eq}
use firecrawl_gateway.Prelude.Json.{Json, arr, obj, Items, nil, cons, Fields, end, field, property}
use firecrawl_gateway.Cache.Lookup.{
  CachePlatform, sort_entries, canonical_json, canonical_items, canonical_fields, material,
  control_fields,
}
use firecrawl_gateway.Cache.Sorting.{insert_entry_comm}

-- The same value with the fields of its objects, at any depth, in another order.
mutual
  pub data Reordered : Json → Json → Type 0 where
    same : {j : Json} → Reordered j j
    items : {xs ys : Items} → ReorderedItems xs ys → Reordered (arr xs) (arr ys)
    fields : {fs gs : Fields} → ReorderedFields fs gs → Reordered (obj fs) (obj gs)

  pub data ReorderedItems : Items → Items → Type 0 where
    no_items : ReorderedItems nil nil
    item :
        {x y : Json} {xs ys : Items}
        → Reordered x y
        → ReorderedItems xs ys
        → ReorderedItems (cons x xs) (cons y ys)

  pub data ReorderedFields : Fields → Fields → Type 0 where
    no_fields : ReorderedFields end end
    keep :
        {k : Text} {v w : Json} {fs gs : Fields}
        → Reordered v w
        → ReorderedFields fs gs
        → ReorderedFields (field k v fs) (field k w gs)
    swap :
        {j k : Text} {v w : Json} {fs : Fields}
        → (j === k) ≡ false
        → ReorderedFields (field j v (field k w fs)) (field k w (field j v fs))
    steps :
        {fs gs hs : Fields} → ReorderedFields fs gs → ReorderedFields gs hs → ReorderedFields fs hs

mutual
  unfolding canonical_json canonical_items canonical_fields sort_entries

  pub canonical_json-Reordered :
      (p : CachePlatform) {a b : Json} → Reordered a b → canonical_json p a ≡ canonical_json p b
  canonical_json-Reordered p same = refl
  canonical_json-Reordered p (items r) = rw (canonical_items-Reordered p r) refl
  canonical_json-Reordered p (fields r) = rw (canonical_fields-Reordered p r) refl

  canonical_items-Reordered :
      (p : CachePlatform) {xs ys : Items}
      → ReorderedItems xs ys
      → canonical_items p xs ≡ canonical_items p ys
  canonical_items-Reordered p no_items = refl
  canonical_items-Reordered p (item r rs) =
      rw (canonical_json-Reordered p r, canonical_items-Reordered p rs) refl

  canonical_fields-Reordered :
      (p : CachePlatform) {fs gs : Fields}
      → ReorderedFields fs gs
      → sort_entries (canonical_fields p fs) ≡ sort_entries (canonical_fields p gs)
  canonical_fields-Reordered p no_fields = refl
  canonical_fields-Reordered p (keep r rs) =
      rw (canonical_json-Reordered p r, canonical_fields-Reordered p rs) refl
  canonical_fields-Reordered p (swap {j} {k} {v} {w} {fs} n) =
      insert_entry_comm (j, canonical_json p v) (k, canonical_json p w)
        (sort_entries (canonical_fields p fs)) n
  canonical_fields-Reordered p (steps r s) =
      canonical_fields-Reordered p r ∙ canonical_fields-Reordered p s

same_fields : (fs : Fields) → ReorderedFields fs fs
same_fields end = no_fields
same_fields (field k v fs) = keep same (same_fields fs)

material-keep :
    (k : Text) {v w : Json} (fs gs : Fields)
    → Reordered v w
    → ReorderedFields (material fs) (material gs)
    → ReorderedFields (material (field k v fs)) (material (field k w gs))
unfolding material
material-keep k fs gs r rs = elim (Bool-cases (contains k control_fields)) [
  | inl c ↦ rw c rs
  | inr c ↦ rw c (keep r rs)
]

material-swap :
    (j k : Text) (v w : Json) (fs : Fields)
    → (j === k) ≡ false
    → ReorderedFields (material (field j v (field k w fs))) (material (field k w (field j v fs)))
unfolding material
material-swap j k v w fs n = elim (Bool-cases (contains j control_fields)) [
  | inl c ↦ rw c (same_fields (material (field k w fs)))
  | inr c ↦ elim (Bool-cases (contains k control_fields)) [
    | inl d ↦ rw (c, d) (same_fields (field j v (material fs)))
    | inr d ↦ rw (c, d) (swap n)
  ]
]

pub material-Reordered :
    {fs gs : Fields} → ReorderedFields fs gs → ReorderedFields (material fs) (material gs)
unfolding material
material-Reordered no_fields = no_fields
material-Reordered (keep {k} {fs = fs} {gs = gs} r rs) =
    material-keep k fs gs r (material-Reordered rs)
material-Reordered (swap {j} {k} {v} {w} {fs} n) = material-swap j k v w fs n
material-Reordered (steps r s) = steps (material-Reordered r) (material-Reordered s)

pub data ReorderedOption : Option Json → Option Json → Type 0 where
  absent : ReorderedOption none none
  present : {v w : Json} → Reordered v w → ReorderedOption (some v) (some w)
  via : {a b c : Option Json} → ReorderedOption a b → ReorderedOption b c → ReorderedOption a c

same_option : (o : Option Json) → ReorderedOption o o
same_option none = absent
same_option (some v) = present same

property-swap :
    (name j k : Text) (v w : Json) (fs : Fields)
    → (j === k) ≡ false
    → property name (field j v (field k w fs)) ≡ property name (field k w (field j v fs))
unfolding property
property-swap name j k v w fs n =
    ground (arith, codes_eq.equal_iff j k, codes_eq.equal_iff j name, codes_eq.equal_iff k name)

pub property-Reordered :
    (name : Text) {fs gs : Fields}
    → ReorderedFields fs gs
    → ReorderedOption (property name fs) (property name gs)
unfolding property
property-Reordered name no_fields = absent
property-Reordered name (keep {k} r rs) = elim (Bool-cases (k === name)) [
  | inl q ↦ rw q (present r)
  | inr q ↦ rw q (property-Reordered name rs)
]
property-Reordered name (swap {j} {k} {v} {w} {fs} n) =
    rw (property-swap name j k v w fs n) (same_option (property name (field k w (field j v fs))))
property-Reordered name (steps r s) = via (property-Reordered name r) (property-Reordered name s)
