-- ===== src/Lsp/Header.antt =====
-- The value of a `Content-Length` header, in `parse_messages` of src/gz_lsp_client.cpp.
use gzscript.Base.{
  is_empty, ℕ, ◌+◌, ◌-◌, ◌*◌, ◌/◌, ◌≤◌, ◌==◌, ltb, ◌≡◌, refl, ◌↔◌, Bool, false, ◌||◌, if◌then◌else◌,
  [], ◌∷◌, Bytes, Option, none, some, arith, All,
}

abbrev pub message_limit : ℕ
message_limit = 8388608

unfoldable pub skip_spaces : Bytes → Bytes
skip_spaces [] = []
skip_spaces (c ∷ s) = let rest = skip_spaces s in if c == 32 then rest else c ∷ s

-- The test on a digit, after the length that is read so far.
unfoldable pub bad_digit : ℕ → ℕ → Bool
bad_digit length digit =
    ltb digit 48 || (ltb 57 digit || ltb ((message_limit - (digit - 48)) / 10) length)

-- The loop over the digits; `none` is a failure.
unfoldable pub parse_digits : Bytes → ℕ → Option ℕ
unfolding bad_digit
parse_digits [] length = some length
parse_digits (digit ∷ s) length =
    let rest = parse_digits s (length * 10 + (digit - 48)) in
    if bad_digit length digit then none else rest

abbrev pub digits_of : Bytes → Option ℕ
digits_of [] = none
digits_of (c ∷ s) = parse_digits (c ∷ s) 0

-- What follows `Content-Length:`.
unfoldable pub parse_length : Bytes → Option ℕ
unfolding skip_spaces parse_digits
parse_length s = digits_of (skip_spaces s)

-- Decimal digits behind a number.
unfoldable pub decimal : Bytes → ℕ → ℕ
decimal [] n = n
decimal (digit ∷ s) n = decimal s (n * 10 + (digit - 48))

abbrev pub IsDigit : ℕ → Type 0
IsDigit c = (48 ≤ c) × (c ≤ 57)

bad_digit_iff : (n c : ℕ) → (bad_digit n c ≡ false) ↔ (IsDigit c × (n * 10 + (c - 48) ≤ 8388608))
unfolding bad_digit
bad_digit_iff n c = ground arith

decimal-grows : (s : Bytes) (n : ℕ) → n ≤ decimal s n
unfolding decimal
decimal-grows [] n = omega arith
decimal-grows (c ∷ s) n = omega (arith, decimal-grows s (n * 10 + (c - 48)))

pub parse_digits_iff :
    (s : Bytes) (n m : ℕ)
    → n ≤ 8388608
    → (parse_digits s n ≡ some m) ↔ (All IsDigit s × (decimal s n ≡ m) × (decimal s n ≤ 8388608))
unfolding parse_digits decimal
parse_digits_iff [] n m h = ground arith
parse_digits_iff (c ∷ s) n m h =
    let next = n * 10 + (c - 48) in
    ground (arith, bad_digit_iff n c, parse_digits_iff s next m, decimal-grows s next)

-- The value of the header is accepted exactly if, its leading spaces taken off, it is a nonempty
-- string of digits whose decimal value is at most the message limit; the length is that value.
pub parse_length_iff :
    (s : Bytes) (m : ℕ)
    → (parse_length s ≡ some m) ↔ (
        (is_empty (skip_spaces s) ≡ false)
        × All IsDigit (skip_spaces s)
        × (decimal (skip_spaces s) 0 ≡ m)
        × (m ≤ 8388608))
unfolding parse_length
parse_length_iff s m = of_digits (skip_spaces s) m
  where
    of_digits :
        (t : Bytes) (m : ℕ)
        → (digits_of t ≡ some m)
          ↔ ((is_empty t ≡ false) × All IsDigit t × (decimal t 0 ≡ m) × (m ≤ 8388608))
    of_digits [] m = (λ h. absurd (cc h), λ h. absurd (cc (h.0)))
    of_digits (c ∷ t) m =
        let step = parse_digits_iff (c ∷ t) 0 m (omega arith) in
        (
          (λ h. (refl, (step.0 h).0, (step.0 h).1, omega (arith, (step.0 h).1, (step.0 h).2))),
          (λ h. step.1 (h.1, h.2, omega (arith, h.2, h.3))),
        )
