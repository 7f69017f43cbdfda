-- ===== src/Lsp/Frame/RoundTrip.antt =====
-- What `send` of src/gz_lsp_client.cpp writes, `parse_messages` takes off its input again.
use gzscript.Base.{
  ℕ, zero, suc, ◌+◌, ◌*◌, ◌/◌, ◌%◌, ◌≤◌, ◌<◌, ◌==◌, ltb, ◌≡◌, ◌≢◌, refl, ap, ◌∙◌, false, [], ◌∷◌,
  ◌++◌, Bytes, codes, none, some, length, length-append, take, drop, All, All-append, arith,
  Bool-cases, inl, inr,
}
use gzscript.Diagnostics.Path.{strip_prefix}
use gzscript.Lsp.Header.{IsDigit, decimal, skip_spaces, parse_digits, parse_digits_iff}
use gzscript.Lsp.Frame.{
  digits_before, to_string, frame, find_blank, split_lines, read_header, content_length,
  take_message, message, blank_line, content_length_prefix,
}

-- The digits of a number are digits.
pub digits-All :
    (fuel n : ℕ) (digits : Bytes) → All IsDigit digits → All IsDigit (digits_before fuel n digits)
unfolding digits_before
digits-All zero n digits h = h
digits-All (suc fuel) n digits h =
    let more : All IsDigit ((n % 10 + 48) ∷ digits) = (omega arith, h) in
    ground (arith, digits-All fuel (n / 10) ((n % 10 + 48) ∷ digits) more)

-- They stand for the number.
pub decimal-digits :
    (fuel n : ℕ) (digits : Bytes)
    → n < fuel
    → decimal (digits_before fuel n digits) 0 ≡ decimal digits n
unfolding digits_before decimal
decimal-digits zero n digits h = absurd (omega (arith, h))
decimal-digits (suc fuel) n digits h = elim (Bool-cases (ltb n 10)) [
  | inl small ↦ rw (small, digits_before) (ap (decimal digits) (ground (arith, small)))
  | inr large ↦
      rw (large, digits_before)
        (decimal-digits fuel (n / 10) ((n % 10 + 48) ∷ digits) (ground (arith, large))
          ∙ ap (decimal digits) (omega arith))
]

abbrev ten_to : ℕ → ℕ
ten_to zero = 1
ten_to (suc k) = 10 * ten_to k

-- They are as many as the bound on the number has.
length-digits :
    (k fuel n : ℕ) (digits : Bytes)
    → n < ten_to (suc k)
    → length (digits_before fuel n digits) ≤ suc k + length digits
unfolding digits_before
length-digits k zero n digits h = omega arith
length-digits zero (suc fuel) n digits h = ground arith
length-digits (suc k) (suc fuel) n digits h =
    ground (arith, length-digits k fuel (n / 10) ((n % 10 + 48) ∷ digits) (omega (arith, h)))

abbrev IsPlain : Bytes → Type 0
IsPlain s = All (λ c. c ≢ 13) s

find_blank-append :
    (header rest : Bytes)
    → IsPlain header
    → find_blank (header ++ (blank_line ++ rest)) ≡ some (header, rest)
unfolding find_blank strip_prefix
find_blank-append [] rest h = refl
find_blank-append (c ∷ header) rest h = ground (arith, find_blank-append header rest (h.1))

split_lines-plain : (line : Bytes) → IsPlain line → split_lines line ≡ line ∷ []
unfolding split_lines
split_lines-plain [] h = refl
split_lines-plain (c ∷ []) h = refl
split_lines-plain (c ∷ d ∷ line) h = ground (arith, split_lines-plain (d ∷ line) (h.1))

take-append : (s rest : Bytes) → take (length s) (s ++ rest) ≡ s
take-append [] rest = refl
take-append (c ∷ s) rest = ap (λ z. c ∷ z) (take-append s rest)

drop-append : (s rest : Bytes) → drop (length s) (s ++ rest) ≡ rest
drop-append [] rest = refl
drop-append (c ∷ s) rest = drop-append s rest

digits-IsPlain : (s : Bytes) → All IsDigit s → IsPlain s
digits-IsPlain [] h = tt
digits-IsPlain (c ∷ s) h = ((λ e. omega (arith, e, h.0)), digits-IsPlain s h.1)

header_of : Bytes → Bytes
header_of digits = content_length_prefix ++ 32 ∷ digits

header-IsPlain : (digits : Bytes) → All IsDigit digits → IsPlain (header_of digits)
unfolding header_of
header-IsPlain digits h =
    All-append (λ c. c ≢ 13) content_length_prefix (32 ∷ digits) (omega arith)
      ((λ e. omega (arith, e)), digits-IsPlain digits h)

read_header-digits :
    (digits : Bytes) (n : ℕ)
    → All IsDigit digits
    → 0 < length digits
    → decimal digits 0 ≡ n
    → n ≤ 8388608
    → read_header (header_of digits ∷ []) none ≡ content_length n
unfolding read_header header_of skip_spaces
read_header-digits [] n h p e b = absurd (omega (arith, p))
read_header-digits (c ∷ digits) n h p e b =
    let value : parse_digits (c ∷ digits) 0 ≡ some n =
      (parse_digits_iff (c ∷ digits) 0 n (omega arith)).1 (h, e, omega (arith, e, b)) in
    let digit : (c == 32) ≡ false = ground (arith, h.0) in ground (arith, digit, value)

digits-positive :
    (fuel n : ℕ) (digits : Bytes)
    → 0 < length digits + fuel
    → 0 < length (digits_before fuel n digits)
unfolding digits_before
digits-positive zero n digits h = omega (arith, h)
digits-positive (suc fuel) n digits h =
    ground (arith, digits-positive fuel (n / 10) ((n % 10 + 48) ∷ digits) (omega arith))

pub append_assoc_bytes : (a b c : Bytes) → (a ++ b) ++ c ≡ a ++ (b ++ c)
append_assoc_bytes [] b c = refl
append_assoc_bytes (x ∷ a) b c = ap (λ z. x ∷ z) (append_assoc_bytes a b c)

regroup :
    (digits body rest : Bytes)
    → (codes "Content-Length: " ++ (digits ++ (blank_line ++ body))) ++ rest
      ≡ header_of digits ++ (blank_line ++ (body ++ rest))
unfolding header_of
regroup digits body rest =
    ap (λ z. content_length_prefix ++ 32 ∷ z) (append_assoc_bytes digits (blank_line ++ body) rest)

take_message-parts :
    (header body rest : Bytes)
    → IsPlain header
    → length header ≤ 16384
    → read_header (header ∷ []) none ≡ content_length (length body)
    → take_message (header ++ (blank_line ++ (body ++ rest))) ≡ message body rest
unfolding take_message
take_message-parts header body rest plain short read =
    let found : find_blank (header ++ (blank_line ++ (body ++ rest)))
        ≡ some (header, body ++ rest) =
      find_blank-append header (body ++ rest) plain in
    let lines : split_lines header ≡ header ∷ [] = split_lines-plain header plain in
    let fits : ltb 16384 (length header) ≡ false = ground (arith, short) in
    let whole : ltb (length (body ++ rest)) (length body) ≡ false =
      ground (arith, length-append body rest) in
    rw (found, fits, lines, read, whole, take-append body rest, drop-append body rest) refl

-- A message that `send` wrote, of at most the limit for messages, is taken off the front of any
-- input that starts with it, whole, and leaves what follows it.
pub take_message-frame :
    (body rest : Bytes)
    → length body ≤ 8388608
    → take_message (frame body ++ rest) ≡ message body rest
unfolding frame to_string header_of
take_message-frame body rest h =
    let n = length body in
    let digits : Bytes = digits_before (suc n) n [] in
    let all : All IsDigit digits = digits-All (suc n) n [] tt in
    let value : decimal digits 0 ≡ n =
      decimal-digits (suc n) n [] (omega arith) ∙ (unfold decimal in refl) in
    let short : length digits ≤ 8 =
      omega (arith, length-digits 7 (suc n) n [] (omega (arith, h))) in
    let some_digit : 0 < length digits = digits-positive (suc n) n [] (omega arith) in
    ap take_message (regroup digits body rest)
    ∙ take_message-parts (header_of digits) body rest (header-IsPlain digits all)
        (omega (arith, short, length-append content_length_prefix (32 ∷ digits)))
        (read_header-digits digits n all some_digit value h)
