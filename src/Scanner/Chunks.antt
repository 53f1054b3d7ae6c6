-- ===== src/Scanner/Chunks.antt =====
-- The skipping loop of `push` (credits/credit-routing.service.ts), the loop that takes every byte,
-- and a body that comes in chunks.
use firecrawl_gateway.Prelude.{
  ℕ, zero, suc, ◌+◌, ◌-◌, ◌≤◌, ◌<◌, true, false, not, ◌&&◌, List, [], ◌∷◌, ◌++◌, leb, ◌===◌, nat_eq,
  ◌≡◌, refl, sym, ap, subst, ◌∙◌, arith, length, take, drop, length-drop, Bool-cases, inl, inr,
}
use firecrawl_gateway.Prelude.Text.{Text}
use firecrawl_gateway.Scanner.{
  max_scanned_key_length, string, Scanner, add_shown, process_byte, process_loop, process_fully,
}
use firecrawl_gateway.Scanner.Push.{
  Cursor, unsearched, advance, end_of, nearer, scan_key, in_string, take_byte, push_loop,
  push_bytes, push,
}
use firecrawl_gateway.Scanner.Cursors.{
  NoByte, Says, advance-Clears, Clears-Says, Says-drop, Clears-take, end_of-Within, nearer-Within,
}

-- A byte that is to be processed again is not so a second time.
again_once :
    (byte : ℕ) (s : Scanner)
    → (process_byte byte s).1 ≡ true
    → (process_byte byte (process_byte byte s).0).1 ≡ false
unfolding process_byte
again_once byte s h = ground arith

process_loop_stops : (n byte : ℕ) (s : Scanner) → process_loop n byte false s ≡ s
unfolding process_loop
process_loop_stops zero byte s = refl
process_loop_stops (suc n) byte s = refl

-- The inner loop of `push` takes two rounds at most: with more fuel the result is the same.
pub process_loop_ends :
    (n byte : ℕ) (s : Scanner) → process_loop (suc (suc n)) byte true s ≡ process_fully byte s
unfolding process_fully process_loop
process_loop_ends n byte s =
    let s' = (process_byte byte s).0 in
    ground (arith, again_once byte s, process_loop_stops n byte (process_byte byte s').0)

pub push_bytes_nil : (s : Scanner) → push_bytes [] s ≡ s
unfolding push_bytes
push_bytes_nil s = refl

pub push_bytes-found : (bytes : List ℕ) (s : Scanner) → s.found ≡ true → push_bytes bytes s ≡ s
unfolding push_bytes
push_bytes-found [] s h = refl
push_bytes-found (x ∷ bytes) s h = rw h

-- A candidate that is too long stays.
scan_key_long :
    (candidate : Text) (bytes : List ℕ)
    → leb (length candidate) max_scanned_key_length ≡ false
    → scan_key candidate bytes ≡ candidate
unfolding scan_key
scan_key_long candidate [] h = refl
scan_key_long candidate (x ∷ bytes) h = rw h

scan_key_nil : (candidate : Text) → scan_key candidate [] ≡ candidate
unfolding scan_key
scan_key_nil candidate = refl

scan_key-cons :
    (candidate : Text) (x : ℕ) (bytes : List ℕ)
    → scan_key candidate (x ∷ bytes) ≡ scan_key (add_shown candidate x) bytes
unfolding scan_key add_shown
scan_key-cons candidate x bytes =
    elim (Bool-cases (leb (length candidate) max_scanned_key_length)) [
      | inl e ↦ rw e
      | inr e ↦ rw e (sym (scan_key_long candidate bytes e))
    ]

plain_byte :
    (x : ℕ) (s : Scanner)
    → s.found ≡ false
    → s.state ≡ string
    → s.escaped ≡ false
    → (x === 34) ≡ false
    → (x === 92) ≡ false
    → process_fully x s ≡ record s { candidate = add_shown s.candidate x }
unfolding process_fully process_byte
plain_byte x s f st es q b = ground arith

pub push_bytes-cons :
    (x : ℕ) (rest : List ℕ) (s : Scanner)
    → s.found ≡ false
    → push_bytes (x ∷ rest) s ≡ push_bytes rest (process_fully x s)
unfolding push_bytes
push_bytes-cons x rest s f = ground arith

-- Inside a string, a run without quote or backslash only extends the candidate.
push_bytes_run :
    (k : ℕ) (rest : List ℕ) (s : Scanner)
    → s.found ≡ false
    → s.state ≡ string
    → s.escaped ≡ false
    → NoByte 34 (take k rest)
    → NoByte 92 (take k rest)
    → push_bytes rest s
      ≡ push_bytes (drop k rest) (record s { candidate = scan_key s.candidate (take k rest) })
unfolding push_bytes
push_bytes_run zero rest s f st es q b = rw (scan_key_nil s.candidate)
push_bytes_run (suc k) [] s f st es q b = rw (scan_key_nil s.candidate)
push_bytes_run (suc k) (x ∷ rest) s f st es q b =
    let s' = record s { candidate = add_shown s.candidate x } in
    push_bytes-cons x rest s f
    ∙ ap (push_bytes rest) (plain_byte x s f st es q.0 b.0)
    ∙ push_bytes_run k rest s' f st es q.1 b.1
    ∙ ap (λ c. push_bytes (drop k rest) (record s { candidate = c }))
        (sym (scan_key-cons s.candidate x (take k rest)))

take_byte_lem :
    (next : List ℕ → Scanner → Scanner) (rest : List ℕ) (s : Scanner)
    → s.found ≡ false
    → ((x : ℕ) (xs : List ℕ)
        → rest ≡ x ∷ xs
        → (process_fully x s).found ≡ false
        → next xs (process_fully x s) ≡ push_bytes xs (process_fully x s))
    → take_byte next rest s ≡ push_bytes rest s
unfolding push_bytes
take_byte_lem next [] s f h = refl
take_byte_lem next (x ∷ xs) s f h =
    ground (arith, h x xs refl, push_bytes-found xs (process_fully x s), push_bytes-cons x xs s f)

-- One round of the loop in a string, where `end` is the next byte that matters.
string_round :
    (next : List ℕ → Scanner → Scanner) (k : ℕ) (rest : List ℕ) (s : Scanner)
    → s.found ≡ false
    → (in_string s.state && not s.escaped) ≡ true
    → NoByte 34 (take k rest)
    → NoByte 92 (take k rest)
    → let s' = record s { candidate = scan_key s.candidate (take k rest) } in
      ((x : ℕ) (xs : List ℕ)
        → drop k rest ≡ x ∷ xs
        → (process_fully x s').found ≡ false
        → next xs (process_fully x s') ≡ push_bytes xs (process_fully x s'))
      → take_byte next (drop k rest) s' ≡ push_bytes rest s
string_round next k rest s f e q b h =
    let s' = record s { candidate = scan_key s.candidate (take k rest) } in
    take_byte_lem next (drop k rest) s' f h
    ∙ sym (push_bytes_run k rest s f (ground arith) (ground arith) q b)

-- A cursor that held at `i` holds behind the byte at `end`.
Says-behind :
    (byte i end x : ℕ) (rest xs : List ℕ) (c : Cursor)
    → i ≤ end
    → drop (end - i) rest ≡ x ∷ xs
    → Says byte i rest c
    → Says byte (end + 1) xs c
Says-behind byte i end x rest xs c le e h =
    Says-drop byte 1 end (end + 1) (x ∷ xs) c refl
      (subst (λ r. Says byte end r c) e (Says-drop byte (end - i) i end rest c (omega arith) h))

drop_size : (k x : ℕ) (rest xs : List ℕ) → drop k rest ≡ x ∷ xs → k + 1 + length xs ≡ length rest
drop_size k x rest xs e = omega (arith, ap (length {A = ℕ}) e, length-drop k rest)

push_loop-eq-push_bytes :
    (fuel i len : ℕ) (rest : List ℕ) (quote backslash : Cursor) (s : Scanner)
    → length rest < fuel
    → len ≡ i + length rest
    → s.found ≡ false
    → Says 34 i rest quote
    → Says 92 i rest backslash
    → push_loop fuel i len rest quote backslash s ≡ push_bytes rest s
unfolding push_loop
push_loop-eq-push_bytes zero i len rest quote backslash s more l f q b = absurd (omega arith)
push_loop-eq-push_bytes (suc fuel) i len rest quote backslash s more l f q b =
    elim (Bool-cases (in_string s.state && not s.escaped)) [
      | inl e ↦
          let quote' = advance 34 i rest quote in
          let backslash' = advance 92 i rest backslash in
          let q' = advance-Clears 34 i rest quote q in
          let b' = advance-Clears 92 i rest backslash b in
          let w = end_of-Within 34 i len rest quote' q' (omega arith) in
          let n = nearer-Within 92 i rest backslash' (end_of len quote') b' w.0 in
          let end = nearer backslash' (end_of len quote') in
          rw (e, push_loop)
            (string_round (λ r t. push_loop fuel (end + 1) len r quote' backslash' t) (end - i) rest
              s f e (Clears-take 34 i end rest quote' q' (w.1 end n.1) n.0)
              (Clears-take 92 i end rest backslash' b' n.2 n.0)
              (λ x xs r e'.
                push_loop-eq-push_bytes fuel (end + 1) len xs quote' backslash' (process_fully x _)
                  (omega (arith, drop_size (end - i) x rest xs r))
                  (omega (arith, drop_size (end - i) x rest xs r, n.0)) e'
                  (Says-behind 34 i end x rest xs quote' n.0 r (Clears-Says 34 i rest quote' q'))
                  (Says-behind 92 i end x rest xs backslash' n.0 r
                    (Clears-Says 92 i rest backslash' b'))))
      | inr e ↦
          rw (e, push_loop)
            (take_byte_lem (λ r t. push_loop fuel (i + 1) len r quote backslash t) rest s f
              (λ x xs r e'.
                push_loop-eq-push_bytes fuel (i + 1) len xs quote backslash (process_fully x s)
                  (omega (arith, ap (length {A = ℕ}) r)) (omega (arith, ap (length {A = ℕ}) r)) e'
                  (Says-drop 34 1 i (i + 1) (x ∷ xs) quote refl
                    (subst (λ r. Says 34 i r quote) r q))
                  (Says-drop 92 1 i (i + 1) (x ∷ xs) backslash refl
                    (subst (λ r. Says 92 i r backslash) r b))))
    ]

-- The loop that skips to the next quote or backslash of the chunk ends, and leaves the scanner in
-- the state in which the loop that takes every byte leaves it.
pub push-eq-push_bytes : (chunk : List ℕ) (s : Scanner) → push chunk s ≡ push_bytes chunk s
unfolding push
push-eq-push_bytes chunk s = elim (Bool-cases s.found) [
  | inl e ↦ ground (arith, push_bytes-found chunk s e)
  | inr e ↦ ground (
    arith,
    push_loop-eq-push_bytes (length chunk + 1) 0 (length chunk) chunk unsearched unsearched s
        (omega arith) (omega arith) e tt tt,
  )
]

pub push_bytes-append :
    (xs ys : List ℕ) (s : Scanner) → push_bytes (xs ++ ys) s ≡ push_bytes ys (push_bytes xs s)
unfolding push_bytes
push_bytes-append [] ys s = refl
push_bytes-append (x ∷ xs) ys s =
    ground (arith, push_bytes-append xs ys (process_fully x s), push_bytes-found ys s)

-- A body that comes in two chunks leaves the scanner as the same body in one chunk does.
pub push-append : (xs ys : List ℕ) (s : Scanner) → push (xs ++ ys) s ≡ push ys (push xs s)
push-append xs ys s =
    push-eq-push_bytes (xs ++ ys) s
    ∙ push_bytes-append xs ys s
    ∙ sym (push-eq-push_bytes ys (push_bytes xs s))
    ∙ ap (push ys) (sym (push-eq-push_bytes xs s))
