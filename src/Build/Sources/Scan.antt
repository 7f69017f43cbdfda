-- ===== src/Build/Sources/Scan.antt =====
-- `source_dependencies` of src/gz_build_manager.cpp finds what a source written in pieces depends
-- on.
use gzscript.Base.{
  ℕ, zero, suc, ◌+◌, ◌≤◌, ◌≡◌, ◌∙◌, refl, ap, ◌==◌, Bool, true, false, ◌||◌, List, [], ◌∷◌, ◌++◌,
  Bytes, codes, Option, none, some, length, All, arith, length-append,
}
use gzscript.Diagnostics.Path.{strip_prefix}
use gzscript.Build.Sources.{
  SourceDependency, skip_line, skip_quoted, is_blank, skip_blanks, take_path, take_argument,
  is_comment, scan_step, scan, source_dependencies, pass,
}

-- A sign of a text between quotes: a character, or a backslash with the character that it hides.
pub data Sign : Type 0 where
  ordinary escaped : ℕ → Sign

abbrev pub write_sign : Sign → Bytes → Bytes
write_sign (ordinary c) rest = c ∷ rest
write_sign (escaped c) rest = 92 ∷ c ∷ rest

unfoldable pub write_signs : List Sign → Bytes → Bytes
write_signs [] rest = rest
write_signs (sign ∷ signs) rest = write_sign sign (write_signs signs rest)

-- A piece of a source: a character that starts nothing, a comment, a text between quotes, or a call
-- with blanks around its parenthesis.
pub data Piece : Type 0 where
  plain : ℕ → Piece
  comment : Bytes → Piece
  quoted : ℕ → List Sign → Piece
  call : Bool → Bytes → Bytes → Bytes → Piece

abbrev pub keyword : Bool → Bytes
keyword true = codes "import"
keyword false = codes "embedFile"

-- A piece in front of the rest of a source.
unfoldable pub write : Piece → Bytes → Bytes
unfolding write_signs
write (plain c) rest = c ∷ rest
write (comment text) rest = 47 ∷ 47 ∷ (text ++ 10 ∷ rest)
write (quoted quote signs) rest = quote ∷ write_signs signs (quote ∷ rest)
write (call is_import before inside path) rest =
    64 ∷ (keyword is_import ++ (before ++ 40 ∷ (inside ++ 34 ∷ (path ++ 34 ∷ rest))))

unfoldable pub write_all : List Piece → Bytes
unfolding write
write_all [] = []
write_all (piece ∷ pieces) = write piece (write_all pieces)

abbrev pub IsOther : ℕ → ℕ → Type 0
IsOther c d = (d == c) ≡ false

abbrev pub IsSign : ℕ → Sign → Type 0
IsSign quote (ordinary c) = IsOther quote c × IsOther 92 c
IsSign quote (escaped c) = Unit {0}

-- In front of the rest of a source: a character that is no quote and starts neither a comment nor a
-- call there; texts that end where they are meant to.
unfoldable pub IsWritten : Piece → Bytes → Type 0
IsWritten (plain c) rest =
    IsOther 34 c
    × IsOther 39 c
    × (strip_prefix (codes "//") (c ∷ rest) ≡ none)
    × (strip_prefix (codes "@import") (c ∷ rest) ≡ none)
    × (strip_prefix (codes "@embedFile") (c ∷ rest) ≡ none)
IsWritten (comment text) rest = All (IsOther 10) text
IsWritten (quoted quote signs) rest =
    ((quote == 34 || quote == 39) ≡ true) × All (IsSign quote) signs
IsWritten (call is_import before inside path) rest =
    All (λ c. is_blank c ≡ true) before
    × (All (λ c. is_blank c ≡ true) inside × (All (IsOther 34) path × All (IsOther 92) path))

unfoldable pub AreWritten : List Piece → Type 0
unfolding IsWritten write_all
AreWritten [] = Unit {0}
AreWritten (piece ∷ pieces) = IsWritten piece (write_all pieces) × AreWritten pieces

unfoldable pub dependencies_of : List Piece → List SourceDependency
dependencies_of [] = []
dependencies_of (call is_import before inside path ∷ rest) =
    record { path = path; is_import = is_import } ∷ dependencies_of rest
dependencies_of (_ ∷ rest) = dependencies_of rest

skip_line-append :
    (text rest : Bytes) → All (IsOther 10) text → skip_line (text ++ 10 ∷ rest) ≡ rest
unfolding skip_line
skip_line-append [] rest h = refl
skip_line-append (c ∷ text) rest h = ground (arith, skip_line-append text rest h.1)

-- A character that is neither a quote nor a backslash is passed over.
skip_quoted-other :
    (quote c : ℕ) (text : Bytes)
    → IsSign quote (ordinary c)
    → skip_quoted quote (c ∷ text) ≡ skip_quoted quote text
unfolding skip_quoted
skip_quoted-other quote c [] h = refl
skip_quoted-other quote c (d ∷ text) h = ground arith

skip_quoted-write_signs :
    (quote : ℕ) (signs : List Sign) (rest : Bytes)
    → (quote == 34 || quote == 39) ≡ true
    → All (IsSign quote) signs
    → skip_quoted quote (write_signs signs (quote ∷ rest)) ≡ rest
unfolding skip_quoted write_signs
skip_quoted-write_signs quote [] [] q h = refl
skip_quoted-write_signs quote [] (r ∷ rest) q h = ground arith
skip_quoted-write_signs quote (ordinary c ∷ signs) rest q h =
    skip_quoted-other quote c (write_signs signs (quote ∷ rest)) h.0
    ∙ skip_quoted-write_signs quote signs rest q h.1
skip_quoted-write_signs quote (escaped c ∷ signs) rest q h =
    skip_quoted-write_signs quote signs rest q h.1

skip_blanks-append :
    (blanks rest : Bytes) (c : ℕ)
    → All (λ b. is_blank b ≡ true) blanks
    → is_blank c ≡ false
    → skip_blanks (blanks ++ c ∷ rest) ≡ c ∷ rest
unfolding skip_blanks
skip_blanks-append [] rest c h k = ground arith
skip_blanks-append (b ∷ blanks) rest c h k = ground (arith, skip_blanks-append blanks rest c h.1 k)

take_path-append :
    (path rest : Bytes)
    → All (IsOther 34) path
    → All (IsOther 92) path
    → take_path (path ++ 34 ∷ rest) ≡ some (path, rest)
unfolding take_path
take_path-append [] rest h k = refl
take_path-append (c ∷ path) rest h k = ground (arith, take_path-append path rest h.1 k.1)

take_argument-append :
    (before inside path rest : Bytes)
    → IsWritten (call true before inside path) rest
    → take_argument (before ++ 40 ∷ (inside ++ 34 ∷ (path ++ 34 ∷ rest))) ≡ some (path, rest)
unfolding take_argument IsWritten
take_argument-append before inside path rest (hb, (hi, (hq, he))) =
    rw
      (
        skip_blanks-append before (inside ++ 34 ∷ (path ++ 34 ∷ rest)) 40 hb refl,
        skip_blanks-append inside (path ++ 34 ∷ rest) 34 hi refl,
        take_path-append path rest hq he,
      )
      refl

no_comment : (c : ℕ) (t : Bytes) → strip_prefix (codes "//") (c ∷ t) ≡ none → is_comment c t ≡ false
unfolding strip_prefix
no_comment c [] e = refl
no_comment c (d ∷ t) e = ground (arith, e)

plain-pass : (c : ℕ) (rest : Bytes) → IsWritten (plain c) rest → scan_step c rest ≡ pass rest
unfolding scan_step IsWritten
plain-pass c rest (a, b, h, k, l) = rw (no_comment c rest h, a, b, k, l) refl

quoted-pass :
    (quote : ℕ) (signs : List Sign) (rest : Bytes)
    → IsWritten (quoted quote signs) rest
    → scan_step quote (write_signs signs (quote ∷ rest)) ≡ pass rest
unfolding scan_step IsWritten
quoted-pass quote signs rest h = ground (
  arith,
  skip_quoted-write_signs quote signs rest h.0 h.1,
  quote_starts_none quote (write_signs signs (quote ∷ rest)) h.0,
)
  where
    quote_starts_none : (c : ℕ) (t : Bytes) → (c == 34 || c == 39) ≡ true → is_comment c t ≡ false
    quote_starts_none c [] k = refl
    quote_starts_none c (d ∷ t) k = ground arith

-- What a piece adds to what the rest depends on.
unfoldable after : Piece → Option (List SourceDependency) → Option (List SourceDependency)
after _ none = none
after (call is_import before inside path) (some found) =
    some (record { path = path; is_import = is_import } ∷ found)
after _ (some found) = some found

scan-write :
    (piece : Piece) (rest : Bytes) (rounds : ℕ)
    → IsWritten piece rest
    → scan (suc rounds) (write piece rest) ≡ after piece (scan rounds rest)
unfolding scan write after scan_step strip_prefix
scan-write (plain c) rest rounds h = ground (arith, plain-pass c rest h)
scan-write (comment text) rest rounds h =
    ground (arith, skip_line-append text rest (unfold IsWritten in h))
scan-write (quoted quote signs) rest rounds h = ground (arith, quoted-pass quote signs rest h)
scan-write (call true before inside path) rest rounds h =
    ground (arith, take_argument-append before inside path rest h)
scan-write (call false before inside path) rest rounds h =
    ground (arith, take_argument-append before inside path rest (unfold IsWritten in h))

write_signs-length :
    (signs : List Sign) (rest : Bytes) → length rest ≤ length (write_signs signs rest)
unfolding write_signs
write_signs-length [] rest = omega arith
write_signs-length (ordinary c ∷ signs) rest = omega (arith, write_signs-length signs rest)
write_signs-length (escaped c ∷ signs) rest = omega (arith, write_signs-length signs rest)

write-length : (piece : Piece) (rest : Bytes) → length rest + 1 ≤ length (write piece rest)
unfolding write
write-length (plain c) rest = omega arith
write-length (comment text) rest = omega (arith, length-append text (10 ∷ rest))
write-length (quoted quote signs) rest = omega (arith, write_signs-length signs (quote ∷ rest))
write-length (call is_import before inside path) rest = omega (
  arith,
  length-append (keyword is_import) (before ++ 40 ∷ (inside ++ 34 ∷ (path ++ 34 ∷ rest))),
  length-append before (40 ∷ (inside ++ 34 ∷ (path ++ 34 ∷ rest))),
  length-append inside (34 ∷ (path ++ 34 ∷ rest)),
  length-append path (34 ∷ rest),
)

after-dependencies :
    (piece : Piece) (pieces : List Piece)
    → after piece (some (dependencies_of pieces)) ≡ some (dependencies_of (piece ∷ pieces))
unfolding after dependencies_of
after-dependencies (plain c) pieces = refl
after-dependencies (comment text) pieces = refl
after-dependencies (quoted quote text) pieces = refl
after-dependencies (call is_import before inside path) pieces = refl

scan-write_all :
    (pieces : List Piece) (rounds : ℕ)
    → AreWritten pieces
    → length (write_all pieces) ≤ rounds
    → scan rounds (write_all pieces) ≡ some (dependencies_of pieces)
unfolding write_all dependencies_of AreWritten
scan-write_all [] zero h k = unfold scan in refl
scan-write_all [] (suc rounds) h k = unfold scan in refl
scan-write_all (piece ∷ pieces) zero h k = ground (arith, write-length piece (write_all pieces))
scan-write_all (piece ∷ pieces) (suc rounds) h k =
    scan-write piece (write_all pieces) rounds h.0
    ∙ (ap (after piece) (
          scan-write_all pieces rounds h.1
            (omega (arith, k, write-length piece (write_all pieces))))
        ∙ after-dependencies piece pieces)

-- What a source depends on is found in full and in order, however it is put together from comments
-- that end with their line, texts between single or double quotes in which a backslash hides the
-- next character, calls of `@import` and `@embedFile` whose path has no quote and no backslash, with
-- blanks before the parenthesis and after it, and any other character that is no quote and at which
-- neither a comment nor one of those two names starts.
pub source_dependencies-write_all :
    (pieces : List Piece)
    → AreWritten pieces
    → source_dependencies (write_all pieces) ≡ some (dependencies_of pieces)
unfolding source_dependencies
source_dependencies-write_all pieces h =
    scan-write_all pieces (length (write_all pieces)) h (omega arith)
