-- ===== src/Scanner.antt =====
-- apps/api/src/credits/credit-routing.service.ts, class `CreditsUsedScanner`: a byte scanner that
-- finds `metadata.creditsUsed` in a response without parsing it.
mod Tests
pub mod Push
mod Cursors
pub mod Chunks
pub mod Values
use firecrawl_gateway.Prelude.{
  ℕ, zero, suc, ◌+◌, ◌-◌, ◌*◌, ◌/◌, Bool, true, false, not, ◌&&◌, ◌||◌, List, [], ◌∷◌, ◌++◌, Option,
  none, some, ltb, leb, HasEq, ◌===◌, nat_eq, nat_beq, ◌≡◌, ◌↔◌, arith, length, if◌then◌else◌,
}
use firecrawl_gateway.Prelude.Text.{Text, codes, codes_eq, codes_beq}

abbrev pub max_scanned_key_length : ℕ
max_scanned_key_length = 11

abbrev pub max_safe_credits_used : ℕ
max_safe_credits_used = 9007199254740991

pub data ScanState : Type 0 where
  outside string after_key after_colon digits after_digits : ScanState

-- `found_values` holds the calls of `onFound`, the last first.
pub record Scanner : Type 0 where
  pub state : ScanState
  pub escaped : Bool
  pub candidate : Text
  pub has_escape : Bool
  pub pending_key : Option Text
  pub value : ℕ
  pub overflow : Bool
  pub found : Bool
  pub object_depth : ℕ
  pub array_depth : ℕ
  pub metadata_object_depth : Option ℕ
  pub metadata_array_depth : Option ℕ
  pub found_values : List ℕ

abbrev pub new_scanner : Scanner
new_scanner = record {
  state = outside;
  escaped = false;
  candidate = [];
  has_escape = false;
  pending_key = none;
  value = 0;
  overflow = false;
  found = false;
  object_depth = 0;
  array_depth = 0;
  metadata_object_depth = none;
  metadata_array_depth = none;
  found_values = [];
}

unfoldable pub is_json_whitespace : ℕ → Bool
is_json_whitespace byte = byte === 9 || byte === 10 || byte === 13 || byte === 32

unfoldable pub is_json_delimiter : ℕ → Bool
is_json_delimiter byte = byte === 44 || byte === 93 || byte === 125

abbrev pub same_depth : Option ℕ → ℕ → Bool
same_depth none n = false
same_depth (some m) n = m === n

abbrev pub same_key : Option Text → Text → Bool
same_key none t = false
same_key (some s) t = s === t

-- The four tests of the source exclude one another.
unfoldable pub update_container_depth : ℕ → Scanner → Scanner
update_container_depth byte s =
    if byte === 123
    then record s { object_depth = s.object_depth + 1 }
    else if byte === 91
    then record s { array_depth = s.array_depth + 1 }
    else if byte === 125
    then (if same_depth s.metadata_object_depth s.object_depth
        then record s {
          metadata_object_depth = none;
          metadata_array_depth = none;
          object_depth = s.object_depth - 1;
        }
        else record s { object_depth = s.object_depth - 1 })
    else if byte === 93
    then record s { array_depth = s.array_depth - 1 }
    else s

unfoldable pub emit_value : Scanner → Scanner
emit_value s =
    if s.overflow then s else record s { found = true; found_values = s.value ∷ s.found_values }

-- What one string byte adds to the candidate: itself if it prints, else the two characters `\0`.
unfoldable pub shown : ℕ → Text
shown byte = if leb 32 byte && leb byte 126 then byte ∷ [] else 92 ∷ 48 ∷ []

unfoldable pub add_shown : Text → ℕ → Text
unfolding shown
add_shown candidate byte =
    if leb (length candidate) max_scanned_key_length then candidate ++ shown byte else candidate

-- `processByte`, state by state. The Boolean says whether the byte is to be processed again.
outside_byte : ℕ → Scanner → Scanner × Bool
unfolding update_container_depth
outside_byte byte s =
    if byte === 34
    then (record s { state = string; candidate = []; has_escape = false }, false)
    else (update_container_depth byte s, false)

string_byte : ℕ → Scanner → Scanner × Bool
unfolding add_shown
string_byte byte s =
    if s.escaped
    then (record s { escaped = false; has_escape = true }, false)
    else if byte === 92
    then (record s { escaped = true; has_escape = true }, false)
    else if byte === 34
    then (
      record s { pending_key = if s.has_escape then none else some s.candidate; state = after_key },
      false,
    )
    else (record s { candidate = add_shown s.candidate byte }, false)

after_key_byte : ℕ → Scanner → Scanner × Bool
unfolding is_json_whitespace
after_key_byte byte s =
    if is_json_whitespace byte
    then (s, false)
    else if byte === 58
    then (record s { state = after_colon }, false)
    else (record s { pending_key = none; state = outside }, true)

-- A container opens behind the colon.
open_container : Bool → Scanner → Scanner
open_container metadata s =
    if metadata
    then record s {
      metadata_object_depth = some s.object_depth;
      metadata_array_depth = some s.array_depth;
      pending_key = none;
      state = outside;
    }
    else record s { pending_key = none; state = outside }

after_colon_byte : ℕ → Scanner → Scanner × Bool
unfolding is_json_whitespace update_container_depth open_container codes_beq
after_colon_byte byte s =
    if is_json_whitespace byte
    then (s, false)
    else if byte === 123 || byte === 91
    then (
      open_container
          (same_key s.pending_key (codes "metadata")
            && s.object_depth === 1
            && s.array_depth === 0
            && byte === 123)
          (update_container_depth byte s),
      false,
    )
    else if leb 48 byte
        && leb byte 57
        && same_key s.pending_key (codes "creditsUsed")
        && same_depth s.metadata_object_depth s.object_depth
        && same_depth s.metadata_array_depth s.array_depth
    then (
      record s { state = digits; value = byte - 48; overflow = false; pending_key = none },
      false,
    )
    else (record s { pending_key = none; state = outside }, true)

-- One more digit, unless the value would pass the largest safe integer.
unfoldable pub add_digit : ℕ → Scanner → Scanner
add_digit digit s =
    if ltb ((max_safe_credits_used - digit) / 10) s.value
    then record s { overflow = true }
    else if not s.overflow
    then record s { value = s.value * 10 + digit }
    else s

-- The end of the number by a delimiter, as in the states `digits` and `after-digits`.
end_value : ℕ → Scanner → Scanner
unfolding emit_value update_container_depth
end_value byte s = record (update_container_depth byte (emit_value s)) { state = outside }

digits_byte : ℕ → Scanner → Scanner × Bool
unfolding add_digit is_json_whitespace is_json_delimiter end_value
digits_byte byte s =
    if leb 48 byte && leb byte 57
    then (add_digit (byte - 48) s, false)
    else if is_json_whitespace byte
    then (record s { state = after_digits }, false)
    else if is_json_delimiter byte
    then (end_value byte s, false)
    else (record s { state = outside }, true)

after_digits_byte : ℕ → Scanner → Scanner × Bool
unfolding is_json_whitespace is_json_delimiter end_value
after_digits_byte byte s =
    if is_json_whitespace byte
    then (s, false)
    else if is_json_delimiter byte
    then (end_value byte s, false)
    else (record s { state = outside }, true)

abbrev byte_in : ScanState → ℕ → Scanner → Scanner × Bool
byte_in outside byte s = outside_byte byte s
byte_in string byte s = string_byte byte s
byte_in after_key byte s = after_key_byte byte s
byte_in after_colon byte s = after_colon_byte byte s
byte_in digits byte s = digits_byte byte s
byte_in after_digits byte s = after_digits_byte byte s

unfoldable pub process_byte : ℕ → Scanner → Scanner × Bool
unfolding outside_byte string_byte after_key_byte after_colon_byte digits_byte after_digits_byte
process_byte byte s = byte_in s.state byte s

-- `while (processAgain && !this.found)`. Two rounds are enough: `process_loop_ends`.
unfoldable pub process_loop : ℕ → ℕ → Bool → Scanner → Scanner
process_loop zero byte again s = s
process_loop (suc fuel) byte again s =
    let (s', again') = process_byte byte s in
    let rest = process_loop fuel byte again' s' in if again && not s.found then rest else s

unfoldable pub process_fully : ℕ → Scanner → Scanner
unfolding process_loop
process_fully byte s = process_loop 2 byte true s
