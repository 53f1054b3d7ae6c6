-- ===== src/Scanner/Tests.antt =====
-- Tests of the credits scanner of credits/credit-routing.service.ts, and its theorems at concrete
-- inputs.
use mathlib.Core.List.{flatten}
use firecrawl_gateway.Prelude.{ℕ, true, List, [], ◌∷◌, ◌++◌, none, some, ◌≡◌, refl}
use firecrawl_gateway.Prelude.Text.{codes, codes_beq}
use firecrawl_gateway.Scanner.{new_scanner, is_json_delimiter, process_byte, process_fully}
use firecrawl_gateway.Scanner.Push.{push, push_bytes, push_loop, advance, scan_key}
use firecrawl_gateway.Scanner.Chunks.{push-eq-push_bytes, push-append}
use firecrawl_gateway.Scanner.Values.{
  extract_credits_used, observe_credits_used, reported, observe-eq-extract,
}

-- The body `{"x":1,"metadata":{"creditsUsed":42}}` in two chunks.
abbrev first_chunk : List ℕ
first_chunk = codes "{\"x\":1,\"metad"

abbrev second_chunk : List ℕ
second_chunk = codes "ata\":{\"creditsUsed\":42}}"

finds_42 : extract_credits_used (first_chunk ++ second_chunk) ≡ some 42
unfolding extract_credits_used push push_loop process_fully process_byte codes_beq advance scan_key
finds_42 = refl

skips_other_objects : extract_credits_used (codes "{\"data\":{\"creditsUsed\":42}}") ≡ none
unfolding extract_credits_used push push_loop process_fully process_byte codes_beq advance scan_key
skips_other_objects = refl

push-eq-push_bytes_example : push first_chunk new_scanner ≡ push_bytes first_chunk new_scanner
push-eq-push_bytes_example = push-eq-push_bytes first_chunk new_scanner

push-append_example :
    push (first_chunk ++ second_chunk) new_scanner
    ≡ push second_chunk (push first_chunk new_scanner)
push-append_example = push-append first_chunk second_chunk new_scanner

observe-eq-extract_example :
    observe_credits_used (first_chunk ∷ second_chunk ∷ [])
    ≡ reported (extract_credits_used (flatten (first_chunk ∷ second_chunk ∷ [])))
observe-eq-extract_example = observe-eq-extract (first_chunk ∷ second_chunk ∷ [])

is_comma : is_json_delimiter 44 ≡ true
unfolding is_json_delimiter
is_comma = refl
