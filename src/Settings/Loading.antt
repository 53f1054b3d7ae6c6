-- ===== src/Settings/Loading.antt =====
-- What loading the Cloud keys does to their setting (settings/cloud-keys.ts).
use firecrawl_gateway.Prelude.{
  Option, none, some, ◌===◌, nat_eq, ◌≡◌, refl, sym, ap, ◌∙◌, Bool-cases, inl, inr,
}
use firecrawl_gateway.Prelude.Text.{Text, codes_eq}
use firecrawl_gateway.Crypto.{Cipher, Decrypted, encrypt_setting_value, decrypt_setting_value}
use firecrawl_gateway.Crypto.RoundTrip.{
  Colonless, IsCipher, decrypt-encrypt_setting_value, decrypt_setting_value-legacy,
}
use firecrawl_gateway.Settings.CloudKeys.{
  JsonText, Replacement, load_legacy, load_decrypted, load_cloud_key_entries, replace_if_unchanged,
}

-- The plaintext of a stored value.
abbrev pub plain_of : Cipher → Text → Text → Option Text
plain_of c key row = elim (decrypt_setting_value c row key) [ none ↦ none | some d ↦ some d.value ]

-- The replacement that a load asks for, if any: the value was plaintext.
abbrev IsCopy : Cipher → Text → Text → Option Replacement → Type 0
IsCopy c key value none = Unit {0}
IsCopy c key value (some r) =
    (r.expected ≡ value)
    × (plain_of c key value ≡ some value)
    × (plain_of c key r.value ≡ some value)

load_legacy-IsCopy :
    (c : Cipher) (t : JsonText) (iv key value : Text) (o : Option Text)
    → IsCipher c
    → Colonless iv
    → encrypt_setting_value c iv value key ≡ o
    → plain_of c key value ≡ some value
    → IsCopy c key value (load_legacy t value o).1
load_legacy-IsCopy c t iv key value none v h e p = tt
load_legacy-IsCopy c t iv key value (some stored) v h e p =
    (refl, p, rw (decrypt-encrypt_setting_value c iv value key stored v h e, plain_of) refl)

load_decrypted-IsCopy :
    (c : Cipher) (t : JsonText) (iv key value : Text) (o : Option Decrypted)
    → IsCipher c
    → Colonless iv
    → decrypt_setting_value c value key ≡ o
    → IsCopy c key value (load_decrypted c t iv key value o).1
load_decrypted-IsCopy c t iv key value none v h e = tt
load_decrypted-IsCopy c t iv key value (some d) v h e = elim (Bool-cases d.encrypted) [
  | inl b ↦ rw b tt
  | inr b ↦
      let p : plain_of c key value ≡ some value =
        rw (e, plain_of) (ap some (decrypt_setting_value-legacy c value key d e b)) in
      rw b (load_legacy-IsCopy c t iv key value (encrypt_setting_value c iv value key) v h refl p)
]

replace-IsCopy :
    (c : Cipher) (key value row : Text) (o : Option Replacement)
    → IsCopy c key value o
    → plain_of c key (replace_if_unchanged o row) ≡ plain_of c key row
unfolding replace_if_unchanged
replace-IsCopy c key value row none v = refl
replace-IsCopy c key value row (some r) (same, before, after) =
    elim (Bool-cases (row === r.expected)) [
      | inl w ↦ rw w (
          after
          ∙ sym before
          ∙ ap (plain_of c key) (sym same ∙ sym ((codes_eq.equal_iff row r.expected).0 w)))
      | inr w ↦ rw w refl
    ]

-- Loading never changes what the setting means: whatever the row holds when the replacement of a
-- plaintext arrives, also if an admin has changed it since it was read, it decrypts to the same
-- text before and after.
pub load_keeps_plaintext :
    (c : Cipher) (t : JsonText) (iv key value row : Text)
    → IsCipher c
    → Colonless iv
    → plain_of c key (replace_if_unchanged (load_cloud_key_entries c t iv key value).1 row)
      ≡ plain_of c key row
unfolding load_cloud_key_entries
load_keeps_plaintext c t iv key value row v h =
    replace-IsCopy c key value row (load_cloud_key_entries c t iv key value).1
      (load_decrypted-IsCopy c t iv key value (decrypt_setting_value c value key) v h refl)
