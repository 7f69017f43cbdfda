-- ===== src/Lsp/Frame.antt =====
-- The framing of messages in src/gz_lsp_client.cpp: what `send` writes, and how `parse_messages`
-- takes a message off the front of its input.
pub mod RoundTrip
use gzscript.Base.{
  ℕ, zero, suc, ◌+◌, ◌-◌, ◌*◌, ◌/◌, ◌%◌, ◌==◌, ltb, Bool, true, false, ◌&&◌, if◌then◌else◌, List,
  [], ◌∷◌, ◌++◌, Bytes, codes, Option, none, some, length, take, drop,
}
use gzscript.Diagnostics.Path.{strip_prefix}
use gzscript.Lsp.Header.{skip_spaces, parse_digits}

abbrev pub header_limit : ℕ
header_limit = 16 * 1024

-- `std::to_string`, the digits in front of those that are there; a number has fewer digits than it
-- has value, or one.
unfoldable pub digits_before : ℕ → ℕ → Bytes → Bytes
digits_before zero n digits = digits
digits_before (suc fuel) n digits =
    let more = (n % 10 + 48) ∷ digits in
    elim (ltb n 10) [ true ↦ more | false ↦ digits_before fuel (n / 10) more ]

unfoldable pub to_string : ℕ → Bytes
unfolding digits_before
to_string n = digits_before (suc n) n []

abbrev pub line_end : Bytes
line_end = 13 ∷ 10 ∷ []

abbrev pub blank_line : Bytes
blank_line = 13 ∷ 10 ∷ 13 ∷ 10 ∷ []

-- `send` without the pipe.
unfoldable pub frame : Bytes → Bytes
unfolding to_string
frame body = codes "Content-Length: " ++ (to_string (length body) ++ (blank_line ++ body))

abbrev before_blank : ℕ → Option (Bytes × Bytes) → Option (Bytes × Bytes)
before_blank c none = none
before_blank c (some (header, rest)) = some (c ∷ header, rest)

-- `input.find("\r\n\r\n")`: what stands before the first one and after it.
unfoldable pub find_blank : Bytes → Option (Bytes × Bytes)
unfolding strip_prefix
find_blank [] = none
find_blank (c ∷ s) = elim (strip_prefix blank_line (c ∷ s)) [
  | some rest ↦ some ([], rest)
  | none ↦ before_blank c (find_blank s)
]

abbrev onto_first : ℕ → List Bytes → List Bytes
onto_first c [] = (c ∷ []) ∷ []
onto_first c (line ∷ lines) = (c ∷ line) ∷ lines

-- The lines of a header, which the loop over `line_start` goes through.
unfoldable pub split_lines : Bytes → List Bytes
split_lines [] = [] ∷ []
split_lines (c ∷ []) = (c ∷ []) ∷ []
split_lines (c ∷ d ∷ s) = elim ((c == 13) && (d == 10)) [
  | true ↦ [] ∷ split_lines s
  | false ↦ onto_first c (split_lines (d ∷ s))
]

pub data HeaderResult : Type 0 where
  content_length : ℕ → HeaderResult
  bad_header : Bytes → HeaderResult

abbrev pub content_length_prefix : Bytes
content_length_prefix = codes "Content-Length:"

-- A length that was read, or the failure, after the loop over its digits.
abbrev number_or_fail : Option ℕ → HeaderResult
number_or_fail none = bad_header (codes "ZLS sent an invalid or oversized Content-Length header")
number_or_fail (some n) = content_length n

-- What follows `Content-Length:`, the spaces taken off.
abbrev read_value : Bytes → HeaderResult
read_value [] = bad_header (codes "ZLS sent an invalid Content-Length header")
read_value (c ∷ s) = number_or_fail (parse_digits (c ∷ s) 0)

-- The loop over the lines, with the length that was read.
unfoldable pub read_header : List Bytes → Option ℕ → HeaderResult
unfolding strip_prefix skip_spaces parse_digits
read_header [] none = bad_header (codes "ZLS response omitted Content-Length")
read_header [] (some n) = content_length n
read_header (line ∷ lines) found = elim (strip_prefix content_length_prefix line) [
  | none ↦ read_header lines found
  | some value ↦ elim found [
    | some n ↦ bad_header (codes "ZLS sent duplicate Content-Length headers")
    | none ↦ elim (read_value (skip_spaces value)) [
      | bad_header message ↦ bad_header message
      | content_length n ↦ read_header lines (some n)
    ]
  ]
]

-- What the input starts with: nothing whole yet, a fault, or a message and the rest.
pub data Taken : Type 0 where
  wait : Taken
  broken : Bytes → Taken
  message : Bytes → Bytes → Taken

abbrev oversized_header : Bytes
oversized_header = codes "ZLS sent an oversized JSON-RPC header"

abbrev take_body : HeaderResult → Bytes → Taken
take_body (bad_header text) rest = broken text
take_body (content_length n) rest =
    if ltb (length rest) n then wait else message (take n rest) (drop n rest)

abbrev take_found : Option (Bytes × Bytes) → Bytes → Taken
take_found none input = if ltb header_limit (length input) then broken oversized_header else wait
take_found (some (header, rest)) input =
    if ltb header_limit (length header)
    then broken oversized_header
    else take_body (read_header (split_lines header) none) rest

-- One round of the loop of `parse_messages`, up to the parsing of the body.
unfoldable pub take_message : Bytes → Taken
unfolding find_blank split_lines read_header
take_message input = take_found (find_blank input) input
