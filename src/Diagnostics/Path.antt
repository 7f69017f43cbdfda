-- ===== src/Diagnostics/Path.antt =====
-- src/diagnostics/gz_diagnostic_path.cpp, as it is built outside Windows: the key of a document.
-- A path is the list of its bytes. The `_WIN32` blocks are not modelled: they call a function
-- `is_drive_prefix` that no file declares.
pub mod Segments
pub mod Work
pub mod Scheme
pub mod Idempotent
pub mod Uri
use gzscript.Base.{
  ℕ, zero, suc, ◌+◌, ◌-◌, ◌*◌, ◌==◌, leb, if◌then◌else◌, Bool, true, false, not, ◌&&◌, ◌||◌, List,
  [], ◌∷◌, ◌++◌, Bytes, codes, ◌===◌, Option, none, some, is_empty,
}
use mathlib.Core.List.{reverse}

abbrev pub slash : ℕ
slash = b'/'

-- The lambda `hex_value`; `none` is its -1.
unfoldable pub hex_value : ℕ → Option ℕ
hex_value digit =
    if leb b'0' digit && leb digit b'9'
    then some (digit - b'0')
    else if leb b'a' digit && leb digit b'f'
    then some (digit - b'a' + 10)
    else if leb b'A' digit && leb digit b'F'
    then some (digit - b'A' + 10)
    else none

-- Both hexadecimal digits, as one byte.
abbrev pub hex_pair : Option ℕ → Option ℕ → Option ℕ
hex_pair (some high) (some low) = some (high * 16 + low)
hex_pair _ _ = none

unfoldable pub escape : ℕ → ℕ → ℕ → Option ℕ
unfolding hex_value
escape c high low = if c == b'%' then hex_pair (hex_value high) (hex_value low) else none

-- An escape that the end of the text cuts off is left as it is.
unfoldable pub uri_decode : Bytes → Bytes
unfolding escape
uri_decode [] = []
uri_decode (c ∷ []) = c ∷ []
uri_decode (c ∷ d ∷ []) = c ∷ d ∷ []
uri_decode (c ∷ high ∷ low ∷ rest) = elim (escape c high low) [
  | some byte ↦ byte ∷ uri_decode rest
  | none ↦ c ∷ uri_decode (high ∷ low ∷ rest)
]

-- What follows a prefix.
unfoldable pub strip_prefix : Bytes → Bytes → Option Bytes
strip_prefix [] s = some s
strip_prefix (p ∷ ps) [] = none
strip_prefix (p ∷ ps) (c ∷ s) = if p == c then strip_prefix ps s else none

abbrev pub file_scheme : Bytes
file_scheme = codes "file://"

abbrev pub scheme_mark : Bytes
scheme_mark = codes "://"

abbrev pub cons_before : ℕ → Option (Bytes × Bytes) → Option (Bytes × Bytes)
cons_before c none = none
cons_before c (some (before, after)) = some (c ∷ before, after)

-- `work.find("://")`: what stands before the first one and after it.
unfoldable pub find_mark : Bytes → Option (Bytes × Bytes)
unfolding strip_prefix
find_mark [] = none
find_mark (c ∷ s) = elim (strip_prefix scheme_mark (c ∷ s)) [
  | some after ↦ some ([], after)
  | none ↦ cons_before c (find_mark s)
]

unfoldable pub is_letter : ℕ → Bool
is_letter c = (leb b'a' c && leb c b'z') || (leb b'A' c && leb c b'Z')

unfoldable pub is_scheme_tail : Bytes → Bool
unfolding is_letter
is_scheme_tail [] = true
is_scheme_tail (c ∷ s) =
    if is_letter c || ((leb b'0' c && leb c b'9') || (c == b'+' || (c == b'-' || c == b'.')))
    then is_scheme_tail s
    else false

-- `scheme_end > 0` and the loop over the bytes before it.
unfoldable pub is_scheme : Bytes → Bool
unfolding is_letter is_scheme_tail
is_scheme [] = false
is_scheme (c ∷ s) = if is_letter c then is_scheme_tail s else false

unfoldable pub has_byte : ℕ → Bytes → Bool
has_byte b [] = false
has_byte b (c ∷ s) = c == b || has_byte b s

unfoldable pub starts_with_slash : Bytes → Bool
starts_with_slash [] = false
starts_with_slash (c ∷ s) = c == slash

-- file:///abs and file://host/abs both reduce to an absolute path.
unfoldable pub file_path : Bytes → Bytes
file_path rest =
    let work = uri_decode rest in
    if not (is_empty work) && (not (starts_with_slash work) && not (has_byte b':' work))
    then slash ∷ work
    else work

unfoldable pub drop_slash : Bytes → Bytes
drop_slash [] = []
drop_slash (c ∷ s) = if c == slash then s else c ∷ s

-- `scheme_prefix` and `work` for a path that is no file URI.
unfoldable pub other_scheme : Bytes → Bytes × Bytes
other_scheme path = elim (find_mark path) [
  | none ↦ ([], path)
  | some (scheme, rest) ↦
      if is_scheme scheme then (scheme ++ scheme_mark, drop_slash rest) else ([], path)
]

-- The first part of `gz_normalize_document_path`.
unfoldable pub split_scheme : Bytes → Bytes × Bytes
split_scheme path = elim (strip_prefix file_scheme path) [
  | some rest ↦ ([], file_path rest)
  | none ↦ other_scheme path
]

-- Duplicate separators collapse; the flag says that the last byte kept is a separator.
unfoldable pub collapse : Bool → Bytes → Bytes
collapse after_slash [] = []
collapse after_slash (c ∷ s) = elim (c == slash && after_slash) [
  | true ↦ collapse true s
  | false ↦ c ∷ collapse (c == slash) s
]

unfoldable pub has_drive : Bytes → Bool
unfolding is_letter
has_drive (c ∷ d ∷ s) = d == b':' && is_letter c
has_drive _ = false

abbrev pub dot : Bytes
dot = b'.' ∷ []

abbrev pub dot_dot : Bytes
dot_dot = b'.' ∷ b'.' ∷ []

-- A `..` takes the last part back, unless there is none, it is a `..` itself or a drive.
-- `parts` is the vector with its last element first.
unfoldable pub go_up : Bool → Bool → List Bytes → List Bytes
go_up rooted drive [] = if not rooted && not drive then dot_dot ∷ [] else []
go_up rooted drive (last ∷ rest) =
    if not (last === dot_dot) && (not (last === slash ∷ []) && not (is_empty rest && drive))
    then rest
    else if not rooted && not drive
    then dot_dot ∷ last ∷ rest
    else last ∷ rest

-- What the loop does with a segment when it meets a separator.
unfoldable pub push_segment : Bool → Bool → Bytes → List Bytes → List Bytes
unfolding go_up
push_segment rooted drive segment parts =
    if is_empty segment || segment === dot
    then parts
    else if segment === dot_dot
    then go_up rooted drive parts
    else segment ∷ parts

-- The loop over the bytes, with a separator supplied at the end.
unfoldable pub walk : Bool → Bool → Bytes → List Bytes → Bytes → List Bytes
unfolding push_segment
walk rooted drive [] parts segment = push_segment rooted drive segment parts
walk rooted drive (c ∷ s) parts segment = elim (c == slash) [
  | true ↦ walk rooted drive s (push_segment rooted drive segment parts) []
  | false ↦ walk rooted drive s parts (segment ++ c ∷ [])
]

unfoldable pub join : List Bytes → Bytes
join [] = []
join (p ∷ []) = p
join (p ∷ q ∷ ps) = p ++ slash ∷ join (q ∷ ps)

-- An empty result is the root, or the current directory.
unfoldable pub render : Bool → List Bytes → Bytes
unfolding join
render true parts = slash ∷ join parts
render false [] = dot
render false (p ∷ ps) = join (p ∷ ps)

-- The segments of a path without its scheme, resolved.
unfoldable pub resolve : Bytes → List Bytes
unfolding has_drive walk starts_with_slash
resolve work = reverse (walk (starts_with_slash work) (has_drive work) work [] [])

-- `gz_normalize_document_path` after the scheme.
unfoldable pub normalize_work : Bytes → Bytes
unfolding collapse resolve render
normalize_work work0 =
    let work = collapse false work0 in render (starts_with_slash work) (resolve work)

-- `gz_normalize_document_path`
unfoldable pub normalize_document_path : Bytes → Bytes
normalize_document_path path =
    let (scheme_prefix, work) = split_scheme path in scheme_prefix ++ normalize_work work
