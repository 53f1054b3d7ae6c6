-- ===== src/Crypto/Sample.antt =====
-- A cipher for the tests: it moves every code unit past the colon.
use firecrawl_gateway.Prelude.{◌+◌, ◌-◌, [], ◌∷◌, some, nat_eq, ◌≡◌, refl, ap, arith}
use firecrawl_gateway.Prelude.Text.{Text, codes}
use firecrawl_gateway.Crypto.{Cipher}
use firecrawl_gateway.Crypto.RoundTrip.{Colonless, IsCipher}

unfoldable pub shift_up : Text → Text
shift_up [] = []
shift_up (c ∷ t) = (c + 59) ∷ shift_up t

unfoldable pub shift_down : Text → Text
shift_down [] = []
shift_down (c ∷ t) = (c - 59) ∷ shift_down t

abbrev pub shift_cipher : Cipher
shift_cipher = record {
  seal = λ key iv value. ([], shift_up value);
  unseal = λ key iv tag text. some (shift_down text);
}

shift_down-shift_up : (t : Text) → shift_down (shift_up t) ≡ t
unfolding shift_up shift_down
shift_down-shift_up [] = refl
shift_down-shift_up (c ∷ t) = ground (arith, shift_down-shift_up t)

shift_up-Colonless : (t : Text) → Colonless (shift_up t)
unfolding shift_up
shift_up-Colonless [] = tt
shift_up-Colonless (c ∷ t) = (ground arith, shift_up-Colonless t)

pub shift_cipher-IsCipher : IsCipher shift_cipher
shift_cipher-IsCipher = record {
  opens = λ key iv value. ap some (shift_down-shift_up value);
  tag_colonless = λ key iv value. tt;
  text_colonless = λ key iv value. shift_up-Colonless value;
}

abbrev pub hex_key : Text
hex_key = codes "00112233445566778899aabbccddeeff00112233445566778899aabbccddeeff"
