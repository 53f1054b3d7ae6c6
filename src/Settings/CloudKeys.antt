-- ===== src/Settings/CloudKeys.antt =====
-- apps/api/src/settings/cloud-keys.ts: the Cloud keys as they are stored.
use firecrawl_gateway.Prelude.{
  false, List, [], ◌∷◌, Option, none, some, ◌===◌, nat_eq, ◌≡◌, refl, arith, if◌then◌else◌,
}
use firecrawl_gateway.Prelude.Text.{Text, codes, codes_beq, codes_eq}
use firecrawl_gateway.Prelude.Json.{Json, str, arr, obj, Items, nil, cons, end, field, property}
use firecrawl_gateway.Common.{CloudKeyRole, cloud, fallback, CloudKeyEntry}
use firecrawl_gateway.Crypto.{Cipher, Decrypted, encrypt_setting_value, decrypt_setting_value}

-- The role of a stored object: only `fallback` is read as that.
abbrev stored_role : Option Json → CloudKeyRole
stored_role (some (str role)) = if role === codes "fallback" then fallback else cloud
stored_role _ = cloud

abbrev entry_with : Text → CloudKeyRole → List CloudKeyEntry → List CloudKeyEntry
entry_with key role entries =
    if key === [] then entries else record { key = key; role = role } ∷ entries

abbrev add_object : Option Json → Option Json → List CloudKeyEntry → List CloudKeyEntry
add_object (some (str key)) role entries = entry_with key (stored_role role) entries
add_object _ role entries = entries

-- One item, before the entries of those behind it. An array has no property `key`.
abbrev add_item : Json → List CloudKeyEntry → List CloudKeyEntry
add_item (str key) entries = entry_with key cloud entries
add_item (obj fields) entries =
    add_object (property (codes "key") fields) (property (codes "role") fields) entries
add_item _ entries = entries

unfoldable pub parse_items : Items → List CloudKeyEntry
unfolding property codes_beq
parse_items nil = []
parse_items (cons item items) = add_item item (parse_items items)

unfoldable pub parse_cloud_key_entries : Json → List CloudKeyEntry
unfolding parse_items
parse_cloud_key_entries (arr items) = parse_items items
parse_cloud_key_entries _ = []

abbrev stored_entry : CloudKeyEntry → CloudKeyRole → Json
stored_entry e cloud = str e.key
stored_entry e fallback =
    obj (field (codes "key") (str e.key) (field (codes "role") (str (codes "fallback")) end))

unfoldable pub serialize_items : List CloudKeyEntry → Items
serialize_items [] = nil
serialize_items (e ∷ entries) = cons (stored_entry e e.role) (serialize_items entries)

unfoldable pub serialize_cloud_key_entries : List CloudKeyEntry → Json
unfolding serialize_items
serialize_cloud_key_entries entries = arr (serialize_items entries)

abbrev pub AllKeyed : List CloudKeyEntry → Type 0
AllKeyed [] = Unit {0}
AllKeyed (e ∷ entries) = ((e.key === []) ≡ false) × AllKeyed entries

parse_stored :
    (e : CloudKeyEntry) (role : CloudKeyRole) (entries : List CloudKeyEntry) (items : Items)
    → (e.key === []) ≡ false
    → e.role ≡ role
    → parse_items items ≡ entries
    → parse_items (cons (stored_entry e role) items) ≡ e ∷ entries
unfolding parse_items property codes_beq
parse_stored e cloud entries items h r p = ground arith
parse_stored e fallback entries items h r p = ground arith

parse-serialize_items :
    (entries : List CloudKeyEntry)
    → AllKeyed entries
    → parse_items (serialize_items entries) ≡ entries
unfolding serialize_items parse_items
parse-serialize_items [] v = refl
parse-serialize_items (e ∷ entries) v =
    parse_stored e e.role entries (serialize_items entries) v.0 refl
      (parse-serialize_items entries v.1)

pub parse-serialize_cloud_key_entries :
    (entries : List CloudKeyEntry)
    → AllKeyed entries
    → parse_cloud_key_entries (serialize_cloud_key_entries entries) ≡ entries
unfolding parse_cloud_key_entries serialize_cloud_key_entries
parse-serialize_cloud_key_entries entries v = parse-serialize_items entries v

-- `JSON.parse`, which may throw, and `JSON.stringify`.
pub record JsonText : Type 0 where
  pub parse : Text → Option Json
  pub stringify : Json → Text

-- A replacement of a stored value, made only while it still is what was read.
pub record Replacement : Type 0 where
  pub expected : Text
  pub value : Text

abbrev pub parsed : JsonText → Text → Option (List CloudKeyEntry)
parsed t text = elim (t.parse text) [
  | none ↦ none
  | some json ↦ some (parse_cloud_key_entries json)
]

abbrev pub Loaded : Type 0
Loaded = Option (List CloudKeyEntry) × Option Replacement

-- A plaintext is encrypted first, which may throw.
abbrev pub load_legacy : JsonText → Text → Option Text → Loaded
load_legacy t value none = (none, none)
load_legacy t value (some stored) =
    (parsed t value, some (record { expected = value; value = stored }))

abbrev pub load_decrypted : Cipher → JsonText → Text → Text → Text → Option Decrypted → Loaded
load_decrypted c t iv key value none = (none, none)
load_decrypted c t iv key value (some d) =
    if d.encrypted
    then (parsed t d.value, none)
    else load_legacy t value (encrypt_setting_value c iv value key)

-- `loadCloudKeyEntries`: the entries, none where it throws, and the replacement of a plaintext that
-- it asks for. What is not encrypted is the stored value itself.
unfoldable pub load_cloud_key_entries : Cipher → JsonText → Text → Text → Text → Loaded
load_cloud_key_entries c t iv key value =
    load_decrypted c t iv key value (decrypt_setting_value c value key)

-- `updateMany` where the row still has the expected value.
unfoldable pub replace_if_unchanged : Option Replacement → Text → Text
replace_if_unchanged none row = row
replace_if_unchanged (some r) row = if row === r.expected then r.value else row
