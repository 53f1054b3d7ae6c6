-- ===== src/Prelude/Json.antt =====
-- Parsed JSON, and apps/api/src/common/utils.ts `walk` and `findObjectsByKey`. Numbers are integers.
use Prim.Native.Nat.{ℕ, zero}
use mathlib.Core.Path.{◌≡◌}
use mathlib.Core.Bool.{Bool, true, false, ◌||◌}
use mathlib.Core.Option.{Option, none, some}
use mathlib.Core.List.{[]}
use native.Mathlib.Omega.{arith}
use firecrawl_gateway.Prelude.Tests.{◌===◌, if◌then◌else◌}
use firecrawl_gateway.Prelude.Text.{Text, codes_eq}

pub data Number : Type 0 where
  plus minus : ℕ → Number

-- A key may occur twice in a text, and never in a parsed value.
mutual
  pub data Json : Type 0 where
    null : Json
    bool : Bool → Json
    num : Number → Json
    str : Text → Json
    arr : Items → Json
    obj : Fields → Json

  pub data Items : Type 0 where
    nil : Items
    cons : Json → Items → Items

  pub data Fields : Type 0 where
    end : Fields
    field : Text → Json → Fields → Fields

unfoldable pub property : Text → Fields → Option Json
property k end = none
property k (field j v fs) = if j === k then some v else property k fs

-- JavaScript's conversion to a Boolean; an absent field is `undefined`.
unfoldable pub truthy : Option Json → Bool
truthy none = false
truthy (some null) = false
truthy (some (bool b)) = b
truthy (some (num (plus zero))) = false
truthy (some (num (minus zero))) = false
truthy (some (num _)) = true
truthy (some (str [])) = false
truthy (some _) = true

-- `walk`: the visitor sees a value before the values inside it. It changes the state `S`.
unfoldable mutual
  pub walk {ℓ} : {S : Type ℓ} → Json → (Json → S → S) → S → S
  walk (arr xs) visit s = walk_items xs visit (visit (arr xs) s)
  walk (obj fs) visit s = walk_fields fs visit (visit (obj fs) s)
  walk null visit s = visit null s
  walk (bool b) visit s = visit (bool b) s
  walk (num n) visit s = visit (num n) s
  walk (str t) visit s = visit (str t) s

  pub walk_items {ℓ} : {S : Type ℓ} → Items → (Json → S → S) → S → S
  walk_items nil visit s = s
  walk_items (cons x xs) visit s = walk_items xs visit (walk x visit s)

  pub walk_fields {ℓ} : {S : Type ℓ} → Fields → (Json → S → S) → S → S
  walk_fields end visit s = s
  walk_fields (field k v fs) visit s = walk_fields fs visit (walk v visit s)

-- Some value in `j`, itself included, passes the test.
unfoldable mutual
  pub some_value : (Json → Bool) → Json → Bool
  some_value test (arr xs) = test (arr xs) || some_item test xs
  some_value test (obj fs) = test (obj fs) || some_field test fs
  some_value test null = test null
  some_value test (bool b) = test (bool b)
  some_value test (num n) = test (num n)
  some_value test (str t) = test (str t)

  pub some_item : (Json → Bool) → Items → Bool
  some_item test nil = false
  some_item test (cons x xs) = some_value test x || some_item test xs

  pub some_field : (Json → Bool) → Fields → Bool
  some_field test end = false
  some_field test (field k v fs) = some_value test v || some_field test fs

-- A visitor that keeps what it found.
abbrev pub first_found {ℓ} : {R : Type ℓ} → (Json → Option R) → Json → Option R → Option R
first_found look x (some r) = some r
first_found look x none = look x

abbrev pub is_some {ℓ} : {R : Type ℓ} → Option R → Bool
is_some none = false
is_some (some r) = true

-- A walk that keeps the first answer of `look` has one exactly if some value gives one.
mutual
  unfolding walk walk_items walk_fields some_value some_item some_field

  pub walk_found {ℓ} :
      {R : Type ℓ} (look : Json → Option R) (j : Json) (s : Option R)
      → is_some (walk j (first_found look) s) ≡ (is_some s || some_value (λ x. is_some (look x)) j)
  walk_found look (arr xs) s =
      ground (arith, walk_found_items look xs (first_found look (arr xs) s))
  walk_found look (obj fs) s =
      ground (arith, walk_found_fields look fs (first_found look (obj fs) s))
  walk_found look null s = ground arith
  walk_found look (bool b) s = ground arith
  walk_found look (num n) s = ground arith
  walk_found look (str t) s = ground arith

  walk_found_items {ℓ} :
      {R : Type ℓ} (look : Json → Option R) (xs : Items) (s : Option R)
      → is_some (walk_items xs (first_found look) s)
        ≡ (is_some s || some_item (λ x. is_some (look x)) xs)
  walk_found_items look nil s = ground arith
  walk_found_items look (cons x xs) s =
      ground (arith, walk_found look x s, walk_found_items look xs (walk x (first_found look) s))

  walk_found_fields {ℓ} :
      {R : Type ℓ} (look : Json → Option R) (fs : Fields) (s : Option R)
      → is_some (walk_fields fs (first_found look) s)
        ≡ (is_some s || some_field (λ x. is_some (look x)) fs)
  walk_found_fields look end s = ground arith
  walk_found_fields look (field k v fs) s =
      ground (arith, walk_found look v s, walk_found_fields look fs (walk v (first_found look) s))
