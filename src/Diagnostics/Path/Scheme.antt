-- ===== src/Diagnostics/Path/Scheme.antt =====
-- The scheme of a path in `gz_normalize_document_path` (src/diagnostics/gz_diagnostic_path.cpp):
-- what `split_scheme` returns for a path, and again for its result.
use gzscript.Base.{
  ℕ, ◌≤◌, ◌==◌, ◌≡◌, ◌≢◌, refl, sym, ap, subst, ◌∙◌, ◌⊎◌, inl, inr, Bool, true, false, [], ◌∷◌,
  ◌++◌, Bytes, codes, Option, none, some, length, arith, Bool-cases, Option-cases,
}
use gzscript.Diagnostics.Path.{
  slash, has_byte, collapse, file_scheme, scheme_mark, strip_prefix, find_mark, cons_before,
  is_scheme, is_scheme_tail, drop_slash, other_scheme, split_scheme, file_path,
}

-- A prefix that was stripped was there.
strip_prefix_eq : (p s r : Bytes) → strip_prefix p s ≡ some r → s ≡ p ++ r
unfolding strip_prefix
strip_prefix_eq [] s r h = ground arith
strip_prefix_eq (c ∷ p) [] r h = cc
strip_prefix_eq (c ∷ p) (d ∷ s) r h = ground (arith, strip_prefix_eq p s r)

pub strip_prefix-append : (p r : Bytes) → strip_prefix p (p ++ r) ≡ some r
unfolding strip_prefix
strip_prefix-append [] r = refl
strip_prefix-append (c ∷ p) r = ground (arith, strip_prefix-append p r)

pub length-collapse-le : (b : Bool) (s : Bytes) → length (collapse b s) ≤ length s
unfolding collapse
length-collapse-le b [] = omega arith
length-collapse-le b (c ∷ s) =
    ground (arith, length-collapse-le true s, length-collapse-le (c == slash) s)

-- A text that collapsing leaves alone holds no "//", so no "://".
pub collapse-tail :
    (b : Bool) (c : ℕ) (s : Bytes) → collapse b (c ∷ s) ≡ c ∷ s → collapse (c == slash) s ≡ s
unfolding collapse
collapse-tail b c s h = ground (arith, length-collapse-le true s, ap length h)

no_double : (b : Bool) (s : Bytes) → collapse b (slash ∷ slash ∷ s) ≢ slash ∷ slash ∷ s
unfolding collapse
no_double true s h = omega (arith, length-collapse-le true s, ap length h)
no_double false s h = omega (arith, length-collapse-le true s, ap length h)

find_mark-cons :
    (c : ℕ) (s : Bytes)
    → strip_prefix scheme_mark (c ∷ s) ≡ none
    → find_mark (c ∷ s) ≡ cons_before c (find_mark s)
find_mark-cons c s h = unfold find_mark in ground arith

find_mark-here : (r : Bytes) → find_mark (scheme_mark ++ r) ≡ some ([], r)
find_mark-here r = unfold find_mark in refl

pub find_mark-collapsed : (b : Bool) (s : Bytes) → collapse b s ≡ s → find_mark s ≡ none
find_mark-collapsed b [] h = unfold find_mark in refl
find_mark-collapsed b (c ∷ s) h = elim (Option-cases (strip_prefix scheme_mark (c ∷ s))) [
  | inl e ↦
      find_mark-cons c s e
      ∙ ap (cons_before c) (find_mark-collapsed (c == slash) s (collapse-tail b c s h))
  | inr (r, e) ↦ absurd (
      no_double false r (
        collapse-tail b b':' (slash ∷ slash ∷ r)
          (subst (λ z. collapse b z ≡ z) (strip_prefix_eq scheme_mark (c ∷ s) r e) h)))
]

find_mark-scheme :
    (scheme x : Bytes)
    → has_byte b':' scheme ≡ false
    → find_mark (scheme ++ scheme_mark ++ x) ≡ some (scheme, x)
find_mark-scheme [] x h = find_mark-here x
find_mark-scheme (c ∷ scheme) x h =
    find_mark-cons c (scheme ++ scheme_mark ++ x) (unfold strip_prefix has_byte in ground arith)
    ∙ ap (cons_before c) (find_mark-scheme scheme x (unfold has_byte in ground arith))

pub find_mark_eq :
    (s scheme r : Bytes) → find_mark s ≡ some (scheme, r) → s ≡ scheme ++ scheme_mark ++ r
find_mark_eq [] scheme r h = unfold find_mark in cc
find_mark_eq (c ∷ s) scheme r h = elim (Option-cases (strip_prefix scheme_mark (c ∷ s))) [
  | inl e ↦
      let g : cons_before c (find_mark s) ≡ some (scheme, r) = sym (find_mark-cons c s e) ∙ h in
      elim (Option-cases (find_mark s)) [
        | inl f ↦ absurd (cc (g, ap (cons_before c) f))
        | inr ((before, after), f) ↦ ground (arith, g, f, find_mark_eq s before after f)
      ]
  | inr (r', e) ↦
      let p : c ∷ s ≡ scheme_mark ++ r' = strip_prefix_eq scheme_mark (c ∷ s) r' e in
      let q : some ([], r') ≡ some (scheme, r) = sym (ap find_mark p ∙ find_mark-here r') ∙ h in
      ground (arith, p, q)
]

is_scheme_tail-no_colon : (s : Bytes) → is_scheme_tail s ≡ true → has_byte b':' s ≡ false
unfolding is_scheme_tail has_byte
is_scheme_tail-no_colon [] h = refl
is_scheme_tail-no_colon (c ∷ s) h = ground (arith, is_scheme_tail-no_colon s)

is_scheme-no_colon : (s : Bytes) → is_scheme s ≡ true → has_byte b':' s ≡ false
unfolding is_scheme has_byte
is_scheme-no_colon [] h = refl
is_scheme-no_colon (c ∷ s) h = ground (arith, is_scheme_tail-no_colon s)

-- The two outcomes for a path's scheme.
pub other_scheme_cases :
    (path : Bytes)
    → (other_scheme path ≡ ([], path))
      ⊎ ((scheme : Bytes) × (rest : Bytes) × (find_mark path ≡ some (scheme, rest))
          × (is_scheme scheme ≡ true)
          × (other_scheme path ≡ (scheme ++ scheme_mark, drop_slash rest)))
other_scheme_cases path = elim (Option-cases (find_mark path)) [
  | inl e ↦ inl (unfold other_scheme in rw (e, other_scheme))
  | inr ((scheme, rest), e) ↦ elim (Bool-cases (is_scheme scheme)) [
    | inl f ↦ inr (scheme, rest, e, f, unfold other_scheme in rw (e, f, other_scheme))
    | inr f ↦ inl (unfold other_scheme in rw (e, f, other_scheme))
  ]
]

other_scheme_plain : (path : Bytes) → find_mark path ≡ none → other_scheme path ≡ ([], path)
other_scheme_plain path e = unfold other_scheme in rw (e, other_scheme)

pub other_scheme_uri :
    (scheme x : Bytes)
    → is_scheme scheme ≡ true
    → other_scheme (scheme ++ scheme_mark ++ x) ≡ (scheme ++ scheme_mark, drop_slash x)
other_scheme_uri scheme x h =
    let e : find_mark (scheme ++ scheme_mark ++ x) ≡ some (scheme, x) =
      find_mark-scheme scheme x (is_scheme-no_colon scheme h) in
    unfold other_scheme in rw (e, h, other_scheme)

-- Whether a text is a file URI depends on its scheme alone.
pub strip_prefix-file :
    (scheme x y : Bytes)
    → is_scheme scheme ≡ true
    → strip_prefix file_scheme (scheme ++ scheme_mark ++ x) ≡ none
    → strip_prefix file_scheme (scheme ++ scheme_mark ++ y) ≡ none
strip_prefix-file scheme x y h e =
    elim (Option-cases (strip_prefix file_scheme (scheme ++ scheme_mark ++ y))) [
      | inl f ↦ f
      | inr (z, f) ↦
          let p : scheme ++ scheme_mark ++ y ≡ file_scheme ++ z =
            strip_prefix_eq file_scheme (scheme ++ scheme_mark ++ y) z f in
          let q : ◌≡◌ {A = Option (Bytes × Bytes)} (some (scheme, y)) (some (codes "file", z)) =
            sym (find_mark-scheme scheme y (is_scheme-no_colon scheme h))
            ∙ (ap find_mark p ∙ find_mark-scheme (codes "file") z (unfold has_byte in refl)) in
          let r : scheme ≡ codes "file" = ground (arith, q) in
          let s : strip_prefix file_scheme (scheme ++ scheme_mark ++ x) ≡ some x =
            ap (λ t. strip_prefix file_scheme (t ++ scheme_mark ++ x)) r
            ∙ strip_prefix-append file_scheme x in
          absurd (cc (e, s))
    ]

pub split_scheme_file :
    (path rest : Bytes)
    → strip_prefix file_scheme path ≡ some rest
    → split_scheme path ≡ ([], file_path rest)
split_scheme_file path rest e = unfold split_scheme in rw (e, split_scheme)

pub split_scheme_other :
    (path : Bytes) → strip_prefix file_scheme path ≡ none → split_scheme path ≡ other_scheme path
split_scheme_other path e = unfold split_scheme in rw (e, split_scheme)

-- A text without "//" has no scheme.
pub split_scheme_plain : (r : Bytes) → collapse false r ≡ r → split_scheme r ≡ ([], r)
split_scheme_plain r h = elim (Option-cases (strip_prefix file_scheme r)) [
  | inl e ↦ split_scheme_other r e ∙ other_scheme_plain r (find_mark-collapsed false r h)
  | inr (z, e) ↦
      let p : find_mark r ≡ some (codes "file", z) =
        ap find_mark (strip_prefix_eq file_scheme r z e)
        ∙ find_mark-scheme (codes "file") z (unfold has_byte in refl) in
      absurd (cc (p, find_mark-collapsed false r h))
]
