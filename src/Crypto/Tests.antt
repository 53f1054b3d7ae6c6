-- ===== src/Crypto/Tests.antt =====
-- Tests of the stored form of secrets (common/crypto.ts), and its theorem at a concrete input.
use firecrawl_gateway.Prelude.{true, false, ◌++◌, none, some, ◌≡◌, refl}
use firecrawl_gateway.Prelude.Text.{codes, starts_with}
use firecrawl_gateway.Prelude.Chars.{every}
use firecrawl_gateway.Crypto.{encrypt_setting_value, decrypt_setting_value}
use firecrawl_gateway.Crypto.Sample.{shift_up, shift_cipher, shift_cipher-IsCipher, hex_key}
use firecrawl_gateway.Crypto.RoundTrip.{decrypt-encrypt_setting_value}

legacy_secret :
    decrypt_setting_value shift_cipher (codes "fc-plain") hex_key
    ≡ some (record { value = codes "fc-plain"; encrypted = false })
unfolding decrypt_setting_value starts_with
legacy_secret = refl

malformed_secret : decrypt_setting_value shift_cipher (codes "enc:v1:a:b") hex_key ≡ none
unfolding decrypt_setting_value
malformed_secret = refl

decrypt-encrypt_setting_value_example :
    decrypt_setting_value shift_cipher (codes "enc:v1:iv::" ++ shift_up (codes "a:b")) hex_key
    ≡ some (record { value = codes "a:b"; encrypted = true })
unfolding encrypt_setting_value every shift_up
decrypt-encrypt_setting_value_example =
    decrypt-encrypt_setting_value shift_cipher (codes "iv") (codes "a:b") hex_key
      (codes "enc:v1:iv::" ++ shift_up (codes "a:b")) shift_cipher-IsCipher (refl, (refl, tt)) refl
