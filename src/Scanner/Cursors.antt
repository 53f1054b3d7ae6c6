-- ===== src/Scanner/Cursors.antt =====
-- What the cursors `nextQuote` and `nextBackslash` of credits/credit-routing.service.ts say of the
-- bytes ahead.
use firecrawl_gateway.Prelude.{
  ℕ, zero, suc, ◌+◌, ◌-◌, ◌≤◌, false, List, [], ◌∷◌, ltb, ◌===◌, nat_eq, ◌≡◌, refl, arith, take,
  drop, ltb_false→le, Bool-cases, inl, inr,
}
use firecrawl_gateway.Scanner.Push.{
  Cursor, unsearched, missing, at, index_of, advance, end_of, nearer,
}

abbrev pub NoByte : ℕ → List ℕ → Type 0
NoByte byte [] = Unit {0}
NoByte byte (x ∷ xs) = ((x === byte) ≡ false) × NoByte byte xs

NoByte-take : (byte k : ℕ) (xs : List ℕ) → NoByte byte xs → NoByte byte (take k xs)
NoByte-take byte zero xs h = tt
NoByte-take byte (suc k) [] h = tt
NoByte-take byte (suc k) (x ∷ xs) h = (h.0, NoByte-take byte k xs h.1)

NoByte-drop : (byte k : ℕ) (xs : List ℕ) → NoByte byte xs → NoByte byte (drop k xs)
NoByte-drop byte zero xs h = h
NoByte-drop byte (suc k) [] h = tt
NoByte-drop byte (suc k) (x ∷ xs) h = NoByte-drop byte k xs h.1

NoByte-take-drop :
    (byte k m l : ℕ) (xs : List ℕ)
    → l ≡ k + m
    → NoByte byte (take l xs)
    → NoByte byte (take m (drop k xs))
NoByte-take-drop byte zero m l xs e h = let e' : l ≡ m = omega arith in rw (← e') h
NoByte-take-drop byte (suc k) m zero xs e h = absurd (omega arith)
NoByte-take-drop byte (suc k) m (suc l) [] e h = NoByte-take byte m [] tt
NoByte-take-drop byte (suc k) m (suc l) (x ∷ xs) e h =
    NoByte-take-drop byte k m l xs (omega arith) h.1

-- What a cursor says of the bytes from position `i` on.
abbrev pub Says : ℕ → ℕ → List ℕ → Cursor → Type 0
Says byte i rest unsearched = Unit {0}
Says byte i rest missing = NoByte byte rest
Says byte i rest (at n) = (k : ℕ) → i + k ≤ n → NoByte byte (take k rest)

-- And once it has been advanced to `i`.
abbrev pub Clears : ℕ → ℕ → List ℕ → Cursor → Type 0
Clears byte i rest unsearched = ⊥
Clears byte i rest missing = NoByte byte rest
Clears byte i rest (at n) = (i ≤ n) × ((k : ℕ) → i + k ≤ n → NoByte byte (take k rest))

Clears-cons :
    (byte i x : ℕ) (rest : List ℕ) (c : Cursor)
    → (x === byte) ≡ false
    → Clears byte (i + 1) rest c
    → Clears byte i (x ∷ rest) c
Clears-cons byte i x rest unsearched e h = h
Clears-cons byte i x rest missing e h = (e, h)
Clears-cons byte i x rest (at n) e h = (omega arith, before)
  where
    before : (k : ℕ) → i + k ≤ n → NoByte byte (take k (x ∷ rest))
    before zero le = tt
    before (suc k) le = (e, h.1 k (omega arith))

Clears-here : (byte i : ℕ) (rest : List ℕ) → Clears byte i rest (at i)
Clears-here byte i rest = (omega arith, before)
  where
    before : (k : ℕ) → i + k ≤ i → NoByte byte (take k rest)
    before zero le = tt
    before (suc k) le = absurd (omega arith)

index_of-Clears : (byte i : ℕ) (rest : List ℕ) → Clears byte i rest (index_of byte i rest)
unfolding index_of
index_of-Clears byte i [] = tt
index_of-Clears byte i (x ∷ rest) = elim (Bool-cases (x === byte)) [
  | inl e ↦ rw e (Clears-here byte i (x ∷ rest))
  | inr e ↦ rw e (Clears-cons byte i x rest _ e (index_of-Clears byte (i + 1) rest))
]

pub advance-Clears :
    (byte i : ℕ) (rest : List ℕ) (c : Cursor)
    → Says byte i rest c
    → Clears byte i rest (advance byte i rest c)
unfolding advance
advance-Clears byte i rest unsearched h = index_of-Clears byte i rest
advance-Clears byte i rest missing h = h
advance-Clears byte i rest (at n) h = elim (Bool-cases (ltb n i)) [
  | inl e ↦ rw e (index_of-Clears byte i rest)
  | inr e ↦ rw e (ltb_false→le n i e, h)
]

pub Clears-Says :
    (byte i : ℕ) (rest : List ℕ) (c : Cursor) → Clears byte i rest c → Says byte i rest c
Clears-Says byte i rest unsearched h = tt
Clears-Says byte i rest missing h = h
Clears-Says byte i rest (at n) h = h.1

pub Says-drop :
    (byte k i j : ℕ) (rest : List ℕ) (c : Cursor)
    → j ≡ i + k
    → Says byte i rest c
    → Says byte j (drop k rest) c
Says-drop byte k i j rest unsearched e h = tt
Says-drop byte k i j rest missing e h = NoByte-drop byte k rest h
Says-drop byte k i j rest (at n) e h =
    λ m le. NoByte-take-drop byte k m (k + m) rest refl (h (k + m) (omega arith))

-- `end` does not pass the cursor.
abbrev pub Within : Cursor → ℕ → Type 0
Within (at n) end = end ≤ n
Within _ end = Unit {0}

-- Up to such a bound there is no such byte.
pub Clears-take :
    (byte i end : ℕ) (rest : List ℕ) (c : Cursor)
    → Clears byte i rest c
    → Within c end
    → i ≤ end
    → NoByte byte (take (end - i) rest)
Clears-take byte i end rest unsearched h le ge = absurd h
Clears-take byte i end rest missing h le ge = NoByte-take byte (end - i) rest h
Clears-take byte i end rest (at n) h le ge = h.1 (end - i) (omega arith)

pub end_of-Within :
    (byte i len : ℕ) (rest : List ℕ) (c : Cursor)
    → Clears byte i rest c
    → i ≤ len
    → (i ≤ end_of len c) × ((end : ℕ) → end ≤ end_of len c → Within c end)
end_of-Within byte i len rest unsearched h le = absurd h
end_of-Within byte i len rest missing h le = (le, λ end e. tt)
end_of-Within byte i len rest (at n) h le = (h.0, λ end e. e)

pub nearer-Within :
    (byte i : ℕ) (rest : List ℕ) (c : Cursor) (end : ℕ)
    → Clears byte i rest c
    → i ≤ end
    → (i ≤ nearer c end) × (nearer c end ≤ end) × Within c (nearer c end)
nearer-Within byte i rest unsearched end h ge = absurd h
nearer-Within byte i rest missing end h ge = (ge, omega arith, tt)
nearer-Within byte i rest (at n) end h ge = ground arith
