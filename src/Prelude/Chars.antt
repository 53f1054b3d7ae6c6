-- ===== src/Prelude/Chars.antt =====
-- Classes of code units, and JavaScript's `trim`.
use Prim.Native.Nat.{ℕ}
use mathlib.Core.Bool.{Bool, true, ◌&&◌, ◌||◌}
use mathlib.Core.List.{[], ◌∷◌, reverse}
use firecrawl_gateway.Prelude.Tests.{nat_beq, leb, if◌then◌else◌}
use firecrawl_gateway.Prelude.Text.{Text}

abbrev pub is_digit : ℕ → Bool
is_digit c = leb b'0' c && leb c b'9'

abbrev pub is_letter : ℕ → Bool
is_letter c = leb b'A' c && leb c b'Z' || leb b'a' c && leb c b'z'

unfoldable pub every : (ℕ → Bool) → Text → Bool
every test [] = true
every test (c ∷ t) = test c && every test t

-- White space and line ends, as `trim` and `Number` skip them.
abbrev is_white : ℕ → Bool
is_white c =
    leb 9 c && leb c 13
    || nat_beq c 32
    || nat_beq c 160
    || nat_beq c 5760
    || leb 8192 c && leb c 8202
    || leb 8232 c && leb c 8233
    || nat_beq c 8239
    || nat_beq c 8287
    || nat_beq c 12288
    || nat_beq c 65279

skip_white : Text → Text
skip_white [] = []
skip_white (c ∷ t) = if is_white c then skip_white t else c ∷ t

unfoldable pub trim : Text → Text
unfolding skip_white
trim t = reverse (skip_white (reverse (skip_white t)))
