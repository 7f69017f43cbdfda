-- ===== src/Diagnostics/Path/Uri.antt =====
-- File URIs in `gz_normalize_document_path` (src/diagnostics/gz_diagnostic_path.cpp).
use gzscript.Base.{◌≡◌, refl, sym, ap, ◌∙◌, true, false, [], ◌∷◌, ◌++◌, Bytes, arith, inl, inr}
use gzscript.Diagnostics.Path.{
  slash, has_byte, starts_with_slash, file_scheme, strip_prefix, uri_decode, is_scheme,
  split_scheme, file_path, normalize_document_path, scheme_mark,
}
use gzscript.Diagnostics.Path.Scheme.{
  split_scheme_file, split_scheme_other, strip_prefix-append, other_scheme_cases, find_mark_eq,
}
use gzscript.Diagnostics.Path.Idempotent.{normalize_split}

-- A text without a percent sign is decoded to itself.
uri_decode_plain : (s : Bytes) → has_byte b'%' s ≡ false → uri_decode s ≡ s
unfolding uri_decode has_byte
uri_decode_plain [] h = refl
uri_decode_plain (c ∷ []) h = refl
uri_decode_plain (c ∷ d ∷ []) h = refl
uri_decode_plain (c ∷ high ∷ low ∷ rest) h = ground (arith, uri_decode_plain (high ∷ low ∷ rest))

no_scheme_slash :
    (q scheme rest : Bytes)
    → is_scheme scheme ≡ true
    → slash ∷ q ≡ scheme ++ scheme_mark ++ rest
    → ⊥
unfolding is_scheme
no_scheme_slash q [] rest valid e = cc
no_scheme_slash q (c ∷ scheme) rest valid e = ground (arith, e)

split_absolute : (q : Bytes) → split_scheme (slash ∷ q) ≡ ([], slash ∷ q)
split_absolute q =
    split_scheme_other (slash ∷ q) (unfold strip_prefix in refl)
    ∙ elim (other_scheme_cases (slash ∷ q)) [
      | inl e ↦ e
      | inr (scheme, rest, found, valid, e) ↦
          absurd (no_scheme_slash q scheme rest valid (find_mark_eq (slash ∷ q) scheme rest found))
    ]

-- A file URI of an absolute path without escapes has the key of that path.
pub normalize_file_uri :
    (q : Bytes)
    → has_byte b'%' q ≡ false
    → normalize_document_path (file_scheme ++ slash ∷ q) ≡ normalize_document_path (slash ∷ q)
normalize_file_uri q h =
    normalize_split (file_scheme ++ slash ∷ q) [] (slash ∷ q) (
      split_scheme_file (file_scheme ++ slash ∷ q) (slash ∷ q)
        (strip_prefix-append file_scheme (slash ∷ q))
      ∙ ap (λ w. ([], w)) absolute)
    ∙ sym (normalize_split (slash ∷ q) [] (slash ∷ q) (split_absolute q))
  where
    absolute : file_path (slash ∷ q) ≡ slash ∷ q
    absolute =
        let d : uri_decode (slash ∷ q) ≡ slash ∷ q =
          uri_decode_plain (slash ∷ q) (unfold has_byte in h) in
        unfold file_path starts_with_slash in rw d
