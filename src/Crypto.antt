-- ===== src/Crypto.antt =====
-- apps/api/src/common/crypto.ts: how a secret is stored. AES-GCM and base64url are the record
-- `Cipher`, and the random vector, as base64url, is an argument.
mod Tests
pub mod RoundTrip
pub mod Sample
use firecrawl_gateway.Prelude.{
  ℕ, Bool, true, false, not, ◌&&◌, ◌||◌, List, [], ◌∷◌, ◌++◌, Option, none, some, length, leb,
  ◌===◌, nat_eq, if◌then◌else◌,
}
use firecrawl_gateway.Prelude.Text.{Text, codes, starts_with, split}
use firecrawl_gateway.Prelude.Chars.{is_digit, every}

-- `seal` gives the tag and the ciphertext, and `unseal` nothing where the decipher throws; all but
-- the plaintext are base64url.
pub record Cipher : Type 0 where
  pub seal : Text → Text → Text → Text × Text
  pub unseal : Text → Text → Text → Text → Option Text

abbrev is_hex : ℕ → Bool
is_hex c = is_digit c || leb b'a' c && leb c b'f' || leb b'A' c && leb c b'F'

-- `encryptionKey`: anything but 64 hexadecimal digits throws.
unfoldable pub is_encryption_key : Text → Bool
unfolding every
is_encryption_key key = length key === 64 && every is_hex key

unfoldable pub encrypt_setting_value : Cipher → Text → Text → Text → Option Text
unfolding is_encryption_key
encrypt_setting_value c iv value key =
    if is_encryption_key key
    then some (
        codes "enc:v1:"
        ++ (iv ++ b':' ∷ ((c.seal key iv value).0 ++ b':' ∷ (c.seal key iv value).1)))
    else none

pub record Decrypted : Type 0 where
  pub value : Text
  pub encrypted : Bool

abbrev opened : Option Text → Option Decrypted
opened none = none
opened (some value) = some (record { value = value; encrypted = true })

-- The five parts of a stored secret; any other number throws.
decrypt_parts : Cipher → Text → List Text → Option Decrypted
unfolding is_encryption_key
decrypt_parts c key (prefix ∷ version ∷ iv ∷ tag ∷ ciphertext ∷ []) =
    if is_encryption_key key then opened (c.unseal key iv tag ciphertext) else none
decrypt_parts c key _ = none

unfoldable pub decrypt_setting_value : Cipher → Text → Text → Option Decrypted
unfolding starts_with split decrypt_parts
decrypt_setting_value c value key =
    if not (starts_with value (codes "enc:v1:"))
    then some (record { value = value; encrypted = false })
    else decrypt_parts c key (split b':' value)
