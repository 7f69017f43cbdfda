-- ===== src/Diagnostics/Path/Idempotent.antt =====
-- `gz_normalize_document_path` (src/diagnostics/gz_diagnostic_path.cpp) as a whole: the shape of a
-- key, when a key is its own key, and file URIs.
use gzscript.Base.{
  ◌==◌, ◌≡◌, refl, sym, ap, subst, ◌∙◌, ◌⊎◌, ◌↔◌, inl, inr, Bool, true, false, not, ◌||◌,
  false≢true, List, [], ◌∷◌, ◌++◌, Bytes, none, is_empty, length, arith, Bool-cases, Option-cases,
}
use gzscript.Diagnostics.Path.{
  slash, starts_with_slash, collapse, file_scheme, scheme_mark, strip_prefix, is_scheme, drop_slash,
  split_scheme, file_path, render, resolve, normalize_work, normalize_document_path,
}
use gzscript.Diagnostics.Path.Segments.{IsPath}
use gzscript.Diagnostics.Path.Work.{
  up_of, resolve-IsPath, starts_with_slash-normalize_work, collapse-normalize_work,
  normalize_work_idem, normalize_work_lem,
}
use gzscript.Diagnostics.Path.Scheme.{
  other_scheme_uri, other_scheme_cases, strip_prefix-file, split_scheme_file, split_scheme_other,
  split_scheme_plain, collapse-tail, length-collapse-le, find_mark_eq,
}

starts_with_slash-collapse :
    (w : Bytes) → starts_with_slash (collapse false w) ≡ starts_with_slash w
unfolding starts_with_slash collapse
starts_with_slash-collapse [] = refl
starts_with_slash-collapse (c ∷ s) = ground arith

drop_slash_relative : (r : Bytes) → starts_with_slash r ≡ false → drop_slash r ≡ r
unfolding drop_slash starts_with_slash
drop_slash_relative [] h = refl
drop_slash_relative (c ∷ s) h = ground arith

collapse-true : (s : Bytes) → collapse true s ≡ s → starts_with_slash s ≡ false
unfolding collapse starts_with_slash
collapse-true [] h = refl
collapse-true (c ∷ s) h = ground (arith, length-collapse-le true s, ap length h)

drop_slash_rooted : (r : Bytes) → collapse false r ≡ r → starts_with_slash (drop_slash r) ≡ false
unfolding drop_slash
drop_slash_rooted [] h = unfold starts_with_slash in refl
drop_slash_rooted (c ∷ s) h = elim (Bool-cases (c == slash)) [
  | inl e ↦ rw e (collapse-true s (subst (λ b. collapse b s ≡ s) e (collapse-tail false c s h)))
  | inr e ↦ unfold starts_with_slash in ground arith
]

append-cancel : (p x y : Bytes) → p ++ x ≡ p ++ y → x ≡ y
append-cancel [] x y h = h
append-cancel (c ∷ p) x y h = append-cancel p x y (ground (arith, h))

-- A path is plain, or it has a scheme that is kept.
split_cases :
    (path : Bytes)
    → ((w : Bytes) × (split_scheme path ≡ ([], w)))
      ⊎ ((scheme : Bytes) × (rest : Bytes) × (is_scheme scheme ≡ true)
          × (strip_prefix file_scheme (scheme ++ scheme_mark ++ rest) ≡ none)
          × (split_scheme path ≡ (scheme ++ scheme_mark, drop_slash rest)))
split_cases path = elim (Option-cases (strip_prefix file_scheme path)) [
  | inr (rest, e) ↦ inl (file_path rest, split_scheme_file path rest e)
  | inl e ↦ elim (other_scheme_cases path) [
    | inl f ↦ inl (path, split_scheme_other path e ∙ f)
    | inr (scheme, rest, found, valid, f) ↦ inr (
      scheme,
      rest,
      valid,
      ap (strip_prefix file_scheme) (sym (find_mark_eq path scheme rest found)) ∙ e,
      split_scheme_other path e ∙ f,
    )
  ]
]

normalize_lem :
    (path : Bytes)
    → normalize_document_path path ≡ (split_scheme path).0 ++ normalize_work (split_scheme path).1
normalize_lem path = unfold normalize_document_path in refl

pub normalize_split :
    (path prefix work : Bytes)
    → split_scheme path ≡ (prefix, work)
    → normalize_document_path path ≡ prefix ++ normalize_work work
normalize_split path prefix work e =
    normalize_lem path ∙ ap (λ (z : Bytes × Bytes). z.0 ++ normalize_work z.1) e

-- Normalizing again cannot change a key unless its scheme is followed by an absolute path.
abbrev pub once_is_enough : Bytes → Bool
once_is_enough path =
    is_empty (split_scheme path).0 || not (starts_with_slash (split_scheme path).1)

plain_idem :
    (path w : Bytes)
    → split_scheme path ≡ ([], w)
    → normalize_document_path (normalize_document_path path) ≡ normalize_document_path path
plain_idem path w e = rw (normalize_split path [] w e) (
    normalize_split (normalize_work w) [] (normalize_work w)
      (split_scheme_plain (normalize_work w) (collapse-normalize_work w))
    ∙ normalize_work_idem w)

module _ (scheme rest : Bytes) (valid : is_scheme scheme ≡ true)
    (other : strip_prefix file_scheme (scheme ++ scheme_mark ++ rest) ≡ none) where
  abbrev result : Bytes
  result = normalize_work (drop_slash rest)

  -- The second pass over a key with a scheme.
  uri_again :
      normalize_document_path (scheme ++ scheme_mark ++ result)
      ≡ scheme ++ scheme_mark ++ normalize_work (drop_slash result)
  uri_again =
      normalize_split (scheme ++ scheme_mark ++ result) (scheme ++ scheme_mark) (drop_slash result)
        (split_scheme_other (scheme ++ scheme_mark ++ result)
            (strip_prefix-file scheme rest result valid other)
          ∙ other_scheme_uri scheme result valid)

  starts_with_slash-result : starts_with_slash result ≡ starts_with_slash (drop_slash rest)
  starts_with_slash-result =
      starts_with_slash-normalize_work (drop_slash rest)
      ∙ starts_with_slash-collapse (drop_slash rest)

  uri_idem :
      starts_with_slash (drop_slash rest) ≡ false
      → normalize_document_path (scheme ++ scheme_mark ++ result) ≡ scheme ++ scheme_mark ++ result
  uri_idem h =
      uri_again
      ∙ ap (λ z. scheme ++ scheme_mark ++ z)
          (ap normalize_work (drop_slash_relative result (starts_with_slash-result ∙ h))
            ∙ normalize_work_idem (drop_slash rest))

  uri_changes :
      starts_with_slash (drop_slash rest) ≡ true
      → normalize_document_path (scheme ++ scheme_mark ++ result) ≡ scheme ++ scheme_mark ++ result
      → ⊥
  uri_changes h e =
      let same : normalize_work (drop_slash result) ≡ result =
        append-cancel (scheme ++ scheme_mark) _ _ (sym uri_again ∙ e) in
      false≢true (
        sym (
          starts_with_slash-normalize_work (drop_slash result)
          ∙ (starts_with_slash-collapse (drop_slash result)
              ∙ drop_slash_rooted result (collapse-normalize_work (drop_slash rest))))
        ∙ (ap starts_with_slash same ∙ (starts_with_slash-result ∙ h)))

not_empty : (s : Bytes) → is_empty (s ++ scheme_mark) ≡ false
not_empty [] = refl
not_empty (c ∷ s) = refl

uri_iff :
    (path scheme rest : Bytes)
    → is_scheme scheme ≡ true
    → strip_prefix file_scheme (scheme ++ scheme_mark ++ rest) ≡ none
    → split_scheme path ≡ (scheme ++ scheme_mark, drop_slash rest)
    → (normalize_document_path (normalize_document_path path) ≡ normalize_document_path path)
      ↔ (once_is_enough path ≡ true)
uri_iff path scheme rest valid other e =
    rw (normalize_split path (scheme ++ scheme_mark) (drop_slash rest) e, e)
      (elim (Bool-cases (starts_with_slash (drop_slash rest))) [
        | inl f ↦ (
          (λ h. absurd (uri_changes scheme rest valid other f h)),
          (λ h. absurd (false≢true (sym (rw (f, not_empty scheme)) ∙ h))),
        )
        | inr f ↦ ((λ _. rw (f, not_empty scheme)), (λ _. uri_idem scheme rest valid other f))
      ])

-- Normalizing the key of a path gives the same key exactly when the path is plain or a file URI,
-- or what follows its scheme, one separator taken off, is not absolute.
pub normalize_idem_iff :
    (path : Bytes)
    → (normalize_document_path (normalize_document_path path) ≡ normalize_document_path path)
      ↔ (once_is_enough path ≡ true)
normalize_idem_iff path = elim (split_cases path) [
  | inl (w, e) ↦ (
    λ _. ap (λ (z : Bytes × Bytes). is_empty z.0 || not (starts_with_slash z.1)) e,
    λ _. plain_idem path w e,
  )
  | inr (scheme, rest, valid, other, e) ↦ uri_iff path scheme rest valid other e
]

-- A key is the kept scheme and a rendered list of proper segments (nonempty, without separator,
-- no "."), in which ".." stands in front only, and only if the path is neither rooted nor on a
-- drive.
pub normalize-IsPath :
    (path : Bytes)
    → (parts : List Bytes) × (normalize_document_path path
        ≡ (split_scheme path).0 ++ render (starts_with_slash (split_scheme path).1) parts)
      × IsPath (up_of (collapse false (split_scheme path).1)) true parts
normalize-IsPath path = (
  resolve (collapse false (split_scheme path).1),
  normalize_lem path
      ∙ ap (λ z. (split_scheme path).0 ++ z)
          (normalize_work_lem (split_scheme path).1
            ∙ ap (λ b. render b (resolve (collapse false (split_scheme path).1)))
                (starts_with_slash-collapse (split_scheme path).1)),
  resolve-IsPath (collapse false (split_scheme path).1),
)
