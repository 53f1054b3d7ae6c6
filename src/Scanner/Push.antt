-- ===== src/Scanner/Push.antt =====
-- `push` of the credits scanner (credits/credit-routing.service.ts), which skips to the next quote or
-- backslash, and the loop that takes every byte.
use firecrawl_gateway.Prelude.{
  ℕ, zero, suc, ◌+◌, ◌-◌, Bool, true, false, not, ◌&&◌, List, [], ◌∷◌, ◌++◌, ltb, leb, ◌===◌,
  nat_eq, length, take, drop, if◌then◌else◌,
}
use firecrawl_gateway.Prelude.Text.{Text}
use firecrawl_gateway.Scanner.{
  max_scanned_key_length, ScanState, string, Scanner, shown, process_fully,
}

-- The reference: byte by byte, until the value is found.
unfoldable pub push_bytes : List ℕ → Scanner → Scanner
push_bytes [] s = s
push_bytes (byte ∷ bytes) s = if s.found then s else push_bytes bytes (process_fully byte s)

-- `nextQuote` and `nextBackslash`: -2, -1, or a position in the chunk.
pub data Cursor : Type 0 where
  unsearched missing : Cursor
  at : ℕ → Cursor

-- `chunk.indexOf(byte, i)`, where `rest` is the chunk from `i` on.
unfoldable pub index_of : ℕ → ℕ → List ℕ → Cursor
index_of byte i [] = missing
index_of byte i (x ∷ rest) = if x === byte then at i else index_of byte (i + 1) rest

unfoldable pub advance : ℕ → ℕ → List ℕ → Cursor → Cursor
unfolding index_of
advance byte i rest unsearched = index_of byte i rest
advance byte i rest missing = missing
advance byte i rest (at n) = if ltb n i then index_of byte i rest else at n

abbrev pub end_of : ℕ → Cursor → ℕ
end_of len (at n) = n
end_of len _ = len

abbrev pub nearer : Cursor → ℕ → ℕ
nearer (at n) end = if ltb n end then n else end
nearer _ end = end

-- The inner loop, which stops when the candidate is too long to be a key.
unfoldable pub scan_key : Text → List ℕ → Text
unfolding shown
scan_key candidate [] = candidate
scan_key candidate (byte ∷ bytes) =
    if leb (length candidate) max_scanned_key_length
    then scan_key (candidate ++ shown byte) bytes
    else candidate

abbrev pub in_string : ScanState → Bool
in_string string = true
in_string _ = false

-- Process `chunk[i++]`, and go on by `next` unless the value was found.
abbrev pub take_byte : (List ℕ → Scanner → Scanner) → List ℕ → Scanner → Scanner
take_byte next [] s = s
take_byte next (byte ∷ rest) s =
    let s' = process_fully byte s in if s'.found then s' else next rest s'

unfoldable pub push_loop : ℕ → ℕ → ℕ → List ℕ → Cursor → Cursor → Scanner → Scanner
push_loop zero i len rest quote backslash s = s
push_loop (suc fuel) i len rest quote backslash s = elim (in_string s.state && not s.escaped) [
  | true ↦
      let quote' = advance 34 i rest quote in
      let backslash' = advance 92 i rest backslash in
      let end = nearer backslash' (end_of len quote') in
      take_byte (λ r t. push_loop fuel (end + 1) len r quote' backslash' t) (drop (end - i) rest)
        (record s { candidate = scan_key s.candidate (take (end - i) rest) })
  | false ↦ take_byte (λ r t. push_loop fuel (i + 1) len r quote backslash t) rest s
]

-- Each round takes a byte, so one round more than the chunk has bytes is enough.
unfoldable pub push : List ℕ → Scanner → Scanner
push chunk s =
    if s.found
    then s
    else push_loop (length chunk + 1) 0 (length chunk) chunk unsearched unsearched s
