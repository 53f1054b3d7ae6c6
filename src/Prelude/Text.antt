-- ===== src/Prelude/Text.antt =====
-- Texts as lists of code units. Letters are ASCII.
use Prim.Native.Nat.{ℕ, ◌+◌, ◌-◌}
use Prim.Native.Char.{code}
use Prim.Native.String.{String}
use mathlib.Core.Path.{◌≡◌}
use mathlib.Core.Logic.{◌↔◌}
use mathlib.Core.Bool.{Bool, true, false, ◌&&◌, ◌||◌}
use mathlib.Core.Option.{Option, none, some}
use mathlib.Core.List.{List, [], ◌∷◌}
use native.Mathlib.Omega.{arith}
use firecrawl_gateway.Prelude.Tests.{HasEq, nat_eq, nat_beq, leb, if◌then◌else◌}
use firecrawl_gateway.Prelude.Lists.{length, drop}

abbrev pub Text : Type 0
Text = List ℕ

abbrev pub codes : String → Text
codes String.[] = []
codes (String.◌∷◌ c s) = code c ∷ codes s

unfoldable pub codes_beq : Text → Text → Bool
codes_beq [] [] = true
codes_beq (a ∷ s) (b ∷ t) = nat_beq a b && codes_beq s t
codes_beq _ _ = false

pub codes_beq_iff : (s t : Text) → (codes_beq s t ≡ true) ↔ (s ≡ t)
unfolding codes_beq
codes_beq_iff [] [] = ground arith
codes_beq_iff [] (b ∷ t) = ground arith
codes_beq_iff (a ∷ s) [] = ground arith
codes_beq_iff (a ∷ s) (b ∷ t) = ground (arith, codes_beq_iff s t)

instance abbrev pub codes_eq : HasEq Text
codes_eq = record { equal = codes_beq; equal_iff = codes_beq_iff }

unfoldable pub to_lower : Text → Text
to_lower [] = []
to_lower (c ∷ s) = (if leb b'A' c && leb c b'Z' then c + 32 else c) ∷ to_lower s

unfoldable pub starts_with : Text → Text → Bool
starts_with s [] = true
starts_with [] (p ∷ ps) = false
starts_with (c ∷ s) (p ∷ ps) = nat_beq c p && starts_with s ps

unfoldable pub includes : Text → Text → Bool
unfolding starts_with
includes [] p = starts_with [] p
includes (c ∷ s) p = starts_with (c ∷ s) p || includes s p

-- What follows the prefix.
unfoldable pub strip_prefix : Text → Text → Option Text
strip_prefix [] s = some s
strip_prefix (p ∷ ps) [] = none
strip_prefix (p ∷ ps) (c ∷ s) = if nat_beq c p then strip_prefix ps s else none

unfoldable pub ends_with : Text → Text → Bool
unfolding codes_beq
ends_with t suffix =
    leb (length suffix) (length t) && codes_beq (drop (length t - length suffix) t) suffix

abbrev add_to_first : ℕ → List Text → List Text
add_to_first c [] = []
add_to_first c (part ∷ parts) = (c ∷ part) ∷ parts

-- The parts between the separators, of which there is always one.
unfoldable pub split : ℕ → Text → List Text
split separator [] = [] ∷ []
split separator (c ∷ t) =
    if nat_beq c separator then [] ∷ split separator t else add_to_first c (split separator t)
