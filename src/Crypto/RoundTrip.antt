-- ===== src/Crypto/RoundTrip.antt =====
-- What was encrypted is decrypted again (common/crypto.ts).
use mathlib.Core.Option.{some-injective}
use firecrawl_gateway.Prelude.{
  true, false, List, [], ◌∷◌, ◌++◌, none, some, ◌===◌, nat_eq, ◌≡◌, refl, subst, arith, Bool-cases,
  inl, inr,
}
use firecrawl_gateway.Prelude.Text.{Text, codes, starts_with, split}
use firecrawl_gateway.Crypto.{
  Cipher, is_encryption_key, encrypt_setting_value, Decrypted, decrypt_parts, decrypt_setting_value,
}

-- base64url has no colon.
abbrev pub Colonless : Text → Type 0
Colonless [] = Unit {0}
Colonless (c ∷ t) = ((c === b':') ≡ false) × Colonless t

-- What the code relies on: a sealed value opens, and its parts are base64url.
pub record IsCipher (c : Cipher) : Type 0 where
  pub opens :
      (key iv value : Text)
      → c.unseal key iv (c.seal key iv value).0 (c.seal key iv value).1 ≡ some value
  pub tag_colonless : (key iv value : Text) → Colonless (c.seal key iv value).0
  pub text_colonless : (key iv value : Text) → Colonless (c.seal key iv value).1

split-Colonless : (t : Text) → Colonless t → split b':' t ≡ t ∷ []
unfolding split
split-Colonless [] v = refl
split-Colonless (c ∷ t) v = ground (arith, split-Colonless t v.1)

split-append : (s t : Text) → Colonless s → split b':' (s ++ b':' ∷ t) ≡ s ∷ split b':' t
unfolding split
split-append [] t v = refl
split-append (c ∷ s) t v = ground (arith, split-append s t v.1)

split_stored :
    (iv tag text : Text)
    → Colonless iv
    → Colonless tag
    → Colonless text
    → split b':' (codes "enc:v1:" ++ (iv ++ b':' ∷ (tag ++ b':' ∷ text)))
      ≡ codes "enc" ∷ codes "v1" ∷ iv ∷ tag ∷ text ∷ []
unfolding split
split_stored iv tag text h k l =
    ground (
      arith,
      split-append iv (tag ++ b':' ∷ text) h,
      split-append tag text k,
      split-Colonless text l,
    )

abbrev stored_text : Cipher → Text → Text → Text → Text
stored_text c iv value key =
    codes "enc:v1:" ++ (iv ++ b':' ∷ ((c.seal key iv value).0 ++ b':' ∷ (c.seal key iv value).1))

decrypt_stored :
    (c : Cipher) (iv value key : Text)
    → IsCipher c
    → Colonless iv
    → is_encryption_key key ≡ true
    → decrypt_setting_value c (stored_text c iv value key) key
      ≡ some (record { value = value; encrypted = true })
unfolding decrypt_setting_value starts_with decrypt_parts
decrypt_stored c iv value key v h k =
    rw
      (split_stored iv (c.seal key iv value).0 (c.seal key iv value).1 h
        (v.tag_colonless key iv value) (v.text_colonless key iv value))
      (rw k (rw (v.opens key iv value)))

-- A secret that was encrypted under a well-formed key is decrypted to itself under that key, as one
-- that was encrypted.
pub decrypt-encrypt_setting_value :
    (c : Cipher) (iv value key stored : Text)
    → IsCipher c
    → Colonless iv
    → encrypt_setting_value c iv value key ≡ some stored
    → decrypt_setting_value c stored key ≡ some (record { value = value; encrypted = true })
unfolding encrypt_setting_value
decrypt-encrypt_setting_value c iv value key stored v h e =
    elim (Bool-cases (is_encryption_key key)) [
      | inl k ↦
          let g : some (stored_text c iv value key) ≡ some stored = (rw k at e) in
          subst
            (λ t. decrypt_setting_value c t key ≡ some (record { value = value; encrypted = true }))
            (some-injective _ _ g) (decrypt_stored c iv value key v h k)
      | inr k ↦ let g : none ≡ some stored = (rw k at e) in cc
    ]

parts_encrypted :
    (c : Cipher) (key : Text) (parts : List Text) (d : Decrypted)
    → decrypt_parts c key parts ≡ some d
    → d.encrypted ≡ true
unfolding decrypt_parts
parts_encrypted c key [] d h = cc
parts_encrypted c key (p ∷ []) d h = cc
parts_encrypted c key (p ∷ v ∷ []) d h = cc
parts_encrypted c key (p ∷ v ∷ iv ∷ []) d h = cc
parts_encrypted c key (p ∷ v ∷ iv ∷ tag ∷ []) d h = cc
parts_encrypted c key (p ∷ v ∷ iv ∷ tag ∷ text ∷ []) d h = ground arith
parts_encrypted c key (p ∷ v ∷ iv ∷ tag ∷ text ∷ more ∷ parts) d h = cc

-- What is reported as not encrypted is the stored text itself.
pub decrypt_setting_value-legacy :
    (c : Cipher) (value key : Text) (d : Decrypted)
    → decrypt_setting_value c value key ≡ some d
    → d.encrypted ≡ false
    → d.value ≡ value
unfolding decrypt_setting_value
decrypt_setting_value-legacy c value key d e h =
    ground (arith, parts_encrypted c key (split b':' value) d)
