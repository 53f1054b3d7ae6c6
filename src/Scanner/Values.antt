-- ===== src/Scanner/Values.antt =====
-- The values that the credits scanner (credits/credit-routing.service.ts) reports.
use mathlib.Core.List.{flatten}
use firecrawl_gateway.Prelude.{
  ℕ, ◌+◌, ◌-◌, ◌*◌, ◌≤◌, Bool, true, false, List, [], ◌∷◌, ◌++◌, Option, none, some, nat_eq, ◌≡◌,
  refl, sym, ◌∙◌, arith, ap, subst,
}
use firecrawl_gateway.Prelude.Text.{codes, codes_beq}
use firecrawl_gateway.Scanner.{
  max_safe_credits_used, digits, after_colon, Scanner, new_scanner, is_json_delimiter, process_byte,
  process_loop, process_fully,
}
use firecrawl_gateway.Scanner.Push.{push, push_bytes}
use firecrawl_gateway.Scanner.Chunks.{
  push-eq-push_bytes, push-append, push_bytes-cons, push_bytes-found, push_bytes_nil,
  push_bytes-append,
}

abbrev last_call : List ℕ → Option ℕ
last_call [] = none
last_call (value ∷ values) = some value

unfoldable pub extract_credits_used : List ℕ → Option ℕ
extract_credits_used body = last_call (push body new_scanner).found_values

unfoldable pub push_chunks : List (List ℕ) → Scanner → Scanner
push_chunks [] s = s
push_chunks (chunk ∷ chunks) s = push_chunks chunks (push chunk s)

-- The calls of `onCreditsUsed` for a stream, the last first. The chunks pass through unchanged.
unfoldable pub observe_credits_used : List (List ℕ) → List ℕ
observe_credits_used chunks = (push_chunks chunks new_scanner).found_values

-- At most one value is reported, when the scan ends, and it is a safe integer.
abbrev pub IsReport : Bool → List ℕ → Type 0
IsReport false values = values ≡ []
IsReport true [] = ⊥
IsReport true (value ∷ values) = (value ≤ max_safe_credits_used) × (values ≡ [])

pub record Inv (s : Scanner) : Type 0 where
  pub report : IsReport s.found s.found_values
  pub safe : s.value ≤ max_safe_credits_used

process_byte-Inv : (byte : ℕ) (s : Scanner) → s.found ≡ false → Inv s → Inv (process_byte byte s).0
unfolding process_byte
process_byte-Inv byte s f v = ground arith

process_fully-Inv : (byte : ℕ) (s : Scanner) → s.found ≡ false → Inv s → Inv (process_fully byte s)
unfolding process_fully process_loop
process_fully-Inv byte s f v =
    ground (arith, process_byte-Inv byte s f v, process_byte-Inv byte (process_byte byte s).0)

push_bytes-Inv : (bytes : List ℕ) (s : Scanner) → Inv s → Inv (push_bytes bytes s)
unfolding push_bytes
push_bytes-Inv [] s v = v
push_bytes-Inv (x ∷ bytes) s v =
    ground (arith, push_bytes-Inv bytes (process_fully x s), process_fully-Inv x s)

push-Inv : (body : List ℕ) → Inv (push body new_scanner)
push-Inv body =
    subst Inv (sym (push-eq-push_bytes body new_scanner))
      (push_bytes-Inv body new_scanner (record { report = refl; safe = omega arith }))

push_chunks-flatten :
    (chunks : List (List ℕ)) (s : Scanner) → push_chunks chunks s ≡ push (flatten chunks) s
unfolding push_chunks flatten
push_chunks-flatten [] s = sym (push-eq-push_bytes [] s ∙ push_bytes_nil s)
push_chunks-flatten (chunk ∷ chunks) s =
    push_chunks-flatten chunks (push chunk s) ∙ sym (push-append chunk (flatten chunks) s)

abbrev pub reported : Option ℕ → List ℕ
reported none = []
reported (some value) = value ∷ []

reported-last_call :
    (found : Bool) (values : List ℕ) → IsReport found values → values ≡ reported (last_call values)
reported-last_call false values v = rw v
reported-last_call true [] v = absurd v
reported-last_call true (value ∷ values) v = ap (◌∷◌ value) v.1

-- However a response is cut into chunks, the stream observer calls back as often as
-- `extractCreditsUsed` finds a value in the whole body, with that value: once or not at all.
pub observe-eq-extract :
    (chunks : List (List ℕ))
    → observe_credits_used chunks ≡ reported (extract_credits_used (flatten chunks))
unfolding observe_credits_used extract_credits_used
observe-eq-extract chunks =
    let s = push (flatten chunks) new_scanner in
    ap (λ (t : Scanner). t.found_values) (push_chunks-flatten chunks new_scanner)
    ∙ reported-last_call s.found s.found_values (push-Inv (flatten chunks)).report

last_call-le :
    (found : Bool) (values : List ℕ) (value : ℕ)
    → IsReport found values
    → last_call values ≡ some value
    → value ≤ max_safe_credits_used
last_call-le false values value v h = ground arith
last_call-le true [] value v h = absurd v
last_call-le true (w ∷ values) value v h = ground arith

-- Every value that is found is a safe integer.
pub extract-le :
    (body : List ℕ) (value : ℕ)
    → extract_credits_used body ≡ some value
    → value ≤ max_safe_credits_used
unfolding extract_credits_used
extract-le body value h =
    let s = push body new_scanner in
    last_call-le s.found s.found_values value (push-Inv body).report h

-- The number that decimal digits write behind a number that was read already.
abbrev pub decimal : ℕ → List ℕ → ℕ
decimal n [] = n
decimal n (d ∷ ds) = decimal (n * 10 + (d - 48)) ds

abbrev pub AllDigits : List ℕ → Type 0
AllDigits [] = Unit {0}
AllDigits (d ∷ ds) = (48 ≤ d) × (d ≤ 57) × AllDigits ds

le-decimal : (n : ℕ) (ds : List ℕ) → n ≤ decimal n ds
le-decimal n [] = omega arith
le-decimal n (d ∷ ds) = omega (arith, le-decimal (n * 10 + (d - 48)) ds)

abbrev IsReading : Scanner → Type 0
IsReading s = (s.state ≡ digits) × (s.overflow ≡ false) × (s.found ≡ false)

digit_byte :
    (d : ℕ) (s : Scanner)
    → IsReading s
    → 48 ≤ d
    → d ≤ 57
    → s.value * 10 + (d - 48) ≤ max_safe_credits_used
    → process_fully d s ≡ record s { value = s.value * 10 + (d - 48) }
unfolding process_fully process_byte
digit_byte d s r lo hi fits = ground arith

digits_bytes :
    (ds rest : List ℕ) (s : Scanner)
    → IsReading s
    → AllDigits ds
    → decimal s.value ds ≤ max_safe_credits_used
    → push_bytes (ds ++ rest) s ≡ push_bytes rest (record s { value = decimal s.value ds })
digits_bytes [] rest s r a fits = refl
digits_bytes (d ∷ ds) rest s r a fits =
    let n = s.value * 10 + (d - 48) in
    push_bytes-cons d (ds ++ rest) s r.2
    ∙ ap (push_bytes (ds ++ rest)) (digit_byte d s r a.0 a.1 (omega (arith, le-decimal n ds)))
    ∙ digits_bytes ds rest (record s { value = n }) r a.2 fits

delimiter_byte :
    (byte : ℕ) (s : Scanner)
    → IsReading s
    → is_json_delimiter byte ≡ true
    → ((process_fully byte s).found ≡ true)
      × ((process_fully byte s).found_values ≡ s.value ∷ s.found_values)
unfolding process_fully process_byte is_json_delimiter
delimiter_byte byte s r h = ground arith

number_found :
    (ds rest : List ℕ) (byte : ℕ) (s : Scanner)
    → IsReading s
    → AllDigits ds
    → decimal s.value ds ≤ max_safe_credits_used
    → is_json_delimiter byte ≡ true
    → (push_bytes (ds ++ byte ∷ rest) s).found_values ≡ decimal s.value ds ∷ s.found_values
number_found ds rest byte s r a fits h =
    let s' = record s { value = decimal s.value ds } in
    let e = delimiter_byte byte s' r h in
    ap (λ (t : Scanner). t.found_values)
      (digits_bytes ds (byte ∷ rest) s r a fits
        ∙ push_bytes-cons byte rest s' r.2
        ∙ push_bytes-found rest (process_fully byte s') e.0)
    ∙ e.1

-- `{"metadata":{"creditsUsed":`
abbrev pub credits_prefix : List ℕ
credits_prefix =
    123 ∷ 34 ∷ codes "metadata" ++ 34 ∷ 58 ∷ 123 ∷ 34 ∷ codes "creditsUsed" ++ 34 ∷ 58 ∷ []

abbrev at_value : Scanner
at_value = record new_scanner {
  state = after_colon;
  candidate = codes "creditsUsed";
  pending_key = some (codes "creditsUsed");
  object_depth = 2;
  metadata_object_depth = some 2;
  metadata_array_depth = some 0;
}

after_prefix : push_bytes credits_prefix new_scanner ≡ at_value
unfolding push_bytes process_fully process_byte codes_beq
after_prefix = refl

first_digit :
    (d : ℕ)
    → 48 ≤ d
    → d ≤ 57
    → process_fully d at_value
      ≡ record at_value { state = digits; value = d - 48; overflow = false; pending_key = none }
unfolding process_fully process_byte codes_beq
first_digit d lo hi = ground arith

-- A body that begins `{"metadata":{"creditsUsed":` and goes on with decimal digits and a comma or
-- a closing bracket yields the number that the digits write, whatever follows, as long as that
-- number is a safe integer.
pub extract_number :
    (d : ℕ) (ds rest : List ℕ) (byte : ℕ)
    → AllDigits (d ∷ ds)
    → decimal 0 (d ∷ ds) ≤ max_safe_credits_used
    → is_json_delimiter byte ≡ true
    → extract_credits_used (credits_prefix ++ d ∷ ds ++ byte ∷ rest) ≡ some (decimal 0 (d ∷ ds))
unfolding extract_credits_used
extract_number d ds rest byte a fits h =
    let s = record at_value {
      state = digits;
      value = d - 48;
      overflow = false;
      pending_key = none;
    } in
    let z : 0 + (d - 48) ≡ d - 48 = omega arith in
    let fits' = subst (λ n. decimal n ds ≤ max_safe_credits_used) z fits in
    ap (λ (t : Scanner). last_call t.found_values)
      (push-eq-push_bytes (credits_prefix ++ d ∷ ds ++ byte ∷ rest) new_scanner
        ∙ push_bytes-append credits_prefix (d ∷ ds ++ byte ∷ rest) new_scanner
        ∙ ap (push_bytes (d ∷ ds ++ byte ∷ rest)) after_prefix
        ∙ push_bytes-cons d (ds ++ byte ∷ rest) at_value refl
        ∙ ap (push_bytes (ds ++ byte ∷ rest)) (first_digit d a.0 a.1))
    ∙ ap last_call (number_found ds rest byte s (refl, refl, refl) a.2 fits' h)
    ∙ ap (λ n. some (decimal n ds)) (sym z)
