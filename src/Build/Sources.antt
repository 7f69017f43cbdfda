-- ===== src/Build/Sources.antt =====
-- `source_dependencies` of src/gz_build_manager.cpp: the files that a Zig source imports or embeds,
-- found without parsing it. Text is the list of its characters.
pub mod Scan
pub mod Rounds
use gzscript.Base.{
  ℕ, zero, suc, ◌+◌, ◌==◌, if◌then◌else◌, Bool, true, false, not, ◌&&◌, ◌||◌, List, [], ◌∷◌, Bytes,
  codes, Option, none, some, length,
}
use gzscript.Diagnostics.Path.{strip_prefix}

pub record SourceDependency : Type 0 where
  pub path : Bytes
  pub is_import : Bool

-- What follows the next newline.
unfoldable pub skip_line : Bytes → Bytes
skip_line [] = []
skip_line (c ∷ source) = let rest = skip_line source in if c == 10 then source else rest

-- What follows the next quote; a backslash hides a character.
unfoldable pub skip_quoted : ℕ → Bytes → Bytes
skip_quoted quote [] = []
skip_quoted quote (c ∷ []) = []
skip_quoted quote (c ∷ (d ∷ source)) =
    let escaped = skip_quoted quote source in
    let rest = skip_quoted quote (d ∷ source) in
    if c == 92 then escaped else if c == quote then d ∷ source else rest

abbrev pub is_blank : ℕ → Bool
is_blank c = c == 32 || (c == 9 || (c == 13 || c == 10))

unfoldable pub skip_blanks : Bytes → Bytes
skip_blanks [] = []
skip_blanks (c ∷ source) = let rest = skip_blanks source in if is_blank c then rest else c ∷ source

-- The character that must come next.
unfoldable pub expect : ℕ → Bytes → Option Bytes
expect wanted [] = none
expect wanted (c ∷ source) = if c == wanted then some source else none

abbrev onto_path : ℕ → Option (Bytes × Bytes) → Option (Bytes × Bytes)
onto_path c none = none
onto_path c (some (path, rest)) = some (c ∷ path, rest)

-- The path up to the closing quote, and what follows the quote.
unfoldable pub take_path : Bytes → Option (Bytes × Bytes)
take_path [] = none
take_path (c ∷ source) =
    let rest = take_path source in
    if c == 34 then some ([], source) else if c == 92 then none else onto_path c rest

infixl 4 ◌>>=◌
abbrev pub ◌>>=◌ : {A B : Type 0} → Option A → (A → Option B) → Option B
none >>= next = none
(some a) >>= next = next a

-- The argument of `@import` or `@embedFile`.
unfoldable pub take_argument : Bytes → Option (Bytes × Bytes)
unfolding skip_blanks expect take_path
take_argument source = do
  inner ← expect 40 (skip_blanks source)
  quoted ← expect 34 (skip_blanks inner)
  take_path quoted

-- What the loop finds at the start of the text: nothing of interest, which it passes over, a
-- dependency, or a call that it cannot read.
pub data Step : Type 0 where
  pass : Bytes → Step
  depend : SourceDependency → Bytes → Step
  unreadable : Step

abbrev pub read_call : Bool → Option (Bytes × Bytes) → Step
read_call is_import none = unreadable
read_call is_import (some (path, rest)) =
    depend (record { path = path; is_import = is_import }) rest

abbrev pub is_comment : ℕ → Bytes → Bool
is_comment c [] = false
is_comment c (d ∷ rest) = c == 47 && d == 47

abbrev pub call_step : Option Bytes → Option Bytes → Bytes → Step
call_step (some rest) _ after = read_call true (take_argument rest)
call_step none (some rest) after = read_call false (take_argument rest)
call_step none none after = pass after

-- One round of the loop, on a text that starts with a character.
unfoldable pub scan_step : ℕ → Bytes → Step
unfolding skip_line skip_quoted take_argument strip_prefix
scan_step c source =
    if is_comment c source
    then pass (skip_line source)
    else if c == 34 || c == 39
    then pass (skip_quoted c source)
    else call_step (strip_prefix (codes "@import") (c ∷ source))
        (strip_prefix (codes "@embedFile") (c ∷ source)) source

-- The loop, for a number of rounds.
unfoldable pub scan : ℕ → Bytes → Option (List SourceDependency)
unfolding scan_step
scan zero source = some []
scan (suc rounds) [] = some []
scan (suc rounds) (c ∷ source) = elim (scan_step c source) [
  | pass rest ↦ scan rounds rest
  | depend dependency rest ↦ do others ← scan rounds rest; some (dependency ∷ others)
  | unreadable ↦ none
]

-- Each round passes a character.
unfoldable pub source_dependencies : Bytes → Option (List SourceDependency)
unfolding scan
source_dependencies source = scan (length source) source
