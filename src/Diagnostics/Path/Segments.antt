-- ===== src/Diagnostics/Path/Segments.antt =====
-- The part of `gz_normalize_document_path` after the scheme (src/diagnostics/gz_diagnostic_path.cpp):
-- which segments its loop leaves, and that a second pass changes nothing.
use gzscript.Base.{
  ℕ, ◌==◌, ◌≡◌, refl, sym, ap, subst, ◌∙◌, ◌⊎◌, inl, inr, if◌then◌else◌, Bool, true, false, not,
  ◌&&◌, false≢true, List, [], ◌∷◌, ◌++◌, Bytes, ◌===◌, ===→eq, is_empty, arith, Bool-cases,
}
use mathlib.Core.List.{reverse_aux, append_assoc, append-nil}
use gzscript.Diagnostics.Path.{slash, dot, dot_dot, has_byte, go_up, push_segment, walk, join}

-- What every segment of a result is.
pub record IsSegment (s : Bytes) : Type 0 where
  pub nonempty : is_empty s ≡ false
  pub no_slash : has_byte slash s ≡ false
  pub not_dot : (s === dot) ≡ false

abbrev pub all_up : List Bytes → Bool
all_up [] = true
all_up (s ∷ r) = all_up r && (s === dot_dot)

-- The stack of the loop, last part first: a `..` has only `..` before it, and is there only where
-- the path is neither rooted nor on a drive (`up`).
abbrev pub IsStack : Bool → List Bytes → Type 0
IsStack up [] = Unit
IsStack up (s ∷ r) =
    IsSegment s × ((s === dot_dot) ≡ true → (up ≡ true) × (all_up r ≡ true)) × IsStack up r

-- The same of the parts in order; the flag says that all parts so far are `..`.
abbrev pub IsPath : Bool → Bool → List Bytes → Type 0
IsPath up b [] = Unit
IsPath up b (p ∷ ps) =
    IsSegment p
    × ((p === dot_dot) ≡ true → (up ≡ true) × (b ≡ true))
    × IsPath up (b && (p === dot_dot)) ps

abbrev pub can_go_up : Bool → Bool → Bool
can_go_up rooted drive = not rooted && not drive

dot_dot-IsSegment : IsSegment dot_dot
unfolding has_byte ◌===◌
dot_dot-IsSegment = record { nonempty = refl; no_slash = refl; not_dot = refl }

-- A part is not a lone separator.
not_slash : (s : Bytes) → IsSegment s → (s === slash ∷ []) ≡ false
not_slash s h = elim (Bool-cases (s === slash ∷ [])) [
  | inl e ↦
      let p : s ≡ slash ∷ [] = ===→eq s (slash ∷ []) e in
      let q : has_byte slash s ≡ true = rw p (unfold has_byte in refl) in
      absurd (cc (q, h.no_slash))
  | inr e ↦ e
]

go_up_cases :
    (rooted drive : Bool) (last : Bytes) (rest : List Bytes)
    → (last === slash ∷ []) ≡ false
    → (go_up rooted drive (last ∷ rest) ≡ rest)
      ⊎ (go_up rooted drive (last ∷ rest) ≡ last ∷ rest)
      ⊎ (((last === dot_dot) ≡ true)
          × (can_go_up rooted drive ≡ true)
          × (go_up rooted drive (last ∷ rest) ≡ dot_dot ∷ last ∷ rest))
unfolding go_up
go_up_cases rooted drive last rest n = ground arith

go_up-IsStack :
    (rooted drive : Bool) (parts : List Bytes)
    → IsStack (can_go_up rooted drive) parts
    → IsStack (can_go_up rooted drive) (go_up rooted drive parts)
go_up-IsStack false false [] h = unfold go_up in (dot_dot-IsSegment, λ _. (refl, refl), tt)
go_up-IsStack false true [] h = unfold go_up in tt
go_up-IsStack true drive [] h = unfold go_up in tt
go_up-IsStack rooted drive (last ∷ rest) h =
    elim (go_up_cases rooted drive last rest (not_slash last h.0)) [
      | inl e ↦ subst (IsStack (can_go_up rooted drive)) (sym e) h.2
      | inr (inl e) ↦ subst (IsStack (can_go_up rooted drive)) (sym e) h
      | inr (inr (up, ok, e)) ↦
          subst (IsStack (can_go_up rooted drive)) (sym e)
            (dot_dot-IsSegment, (λ _. (ok, ground (arith, h.1 up))), h)
    ]

push_segment_cases :
    (rooted drive : Bool) (segment : Bytes) (parts : List Bytes)
    → (push_segment rooted drive segment parts ≡ parts)
      ⊎ (push_segment rooted drive segment parts ≡ go_up rooted drive parts)
      ⊎ ((is_empty segment ≡ false)
          × ((segment === dot) ≡ false)
          × ((segment === dot_dot) ≡ false)
          × (push_segment rooted drive segment parts ≡ segment ∷ parts))
push_segment_cases rooted drive segment parts = unfold push_segment in ground arith

push_segment-IsStack :
    (rooted drive : Bool) (segment : Bytes) (parts : List Bytes)
    → has_byte slash segment ≡ false
    → IsStack (can_go_up rooted drive) parts
    → IsStack (can_go_up rooted drive) (push_segment rooted drive segment parts)
push_segment-IsStack rooted drive segment parts n h =
    elim (push_segment_cases rooted drive segment parts) [
      | inl e ↦ subst (IsStack (can_go_up rooted drive)) (sym e) h
      | inr (inl e) ↦
          subst (IsStack (can_go_up rooted drive)) (sym e) (go_up-IsStack rooted drive parts h)
      | inr (inr (full, not_dot, not_up, e)) ↦ subst (IsStack (can_go_up rooted drive)) (sym e) (
        record { nonempty = full; no_slash = n; not_dot = not_dot },
        (λ up. absurd (cc (up, not_up))),
        h,
      )
    ]

pub has_byte-append :
    (b : ℕ) (s t : Bytes) → has_byte b (s ++ t) ≡ (if has_byte b s then true else has_byte b t)
unfolding has_byte
has_byte-append b [] t = refl
has_byte-append b (c ∷ s) t = ground (arith, has_byte-append b s t)

-- One byte of the loop: a separator ends the segment, any other byte extends it.
pub walk-slash :
    (rooted drive : Bool) (s : Bytes) (parts : List Bytes) (segment : Bytes) (c : ℕ)
    → (c == slash) ≡ true
    → walk rooted drive (c ∷ s) parts segment
      ≡ walk rooted drive s (push_segment rooted drive segment parts) []
walk-slash rooted drive s parts segment c e = unfold walk in ground arith

walk-other :
    (rooted drive : Bool) (s : Bytes) (parts : List Bytes) (segment : Bytes) (c : ℕ)
    → (c == slash) ≡ false
    → walk rooted drive (c ∷ s) parts segment ≡ walk rooted drive s parts (segment ++ c ∷ [])
walk-other rooted drive s parts segment c e = unfold walk in ground arith

pub walk-IsStack :
    (rooted drive : Bool) (s : Bytes) (parts : List Bytes) (segment : Bytes)
    → has_byte slash segment ≡ false
    → IsStack (can_go_up rooted drive) parts
    → IsStack (can_go_up rooted drive) (walk rooted drive s parts segment)
walk-IsStack rooted drive [] parts segment n h =
    unfold walk in push_segment-IsStack rooted drive segment parts n h
walk-IsStack rooted drive (c ∷ s) parts segment n h = elim (Bool-cases (c == slash)) [
  | inl e ↦
      subst (IsStack (can_go_up rooted drive)) (sym (walk-slash rooted drive s parts segment c e)) (
        walk-IsStack rooted drive s (push_segment rooted drive segment parts) []
          (unfold has_byte in refl) (push_segment-IsStack rooted drive segment parts n h))
  | inr e ↦
      subst (IsStack (can_go_up rooted drive)) (sym (walk-other rooted drive s parts segment c e)) (
        walk-IsStack rooted drive s parts (segment ++ c ∷ [])
          (has_byte-append slash segment (c ∷ []) ∙ (unfold has_byte in ground arith)) h)
]

pub IsPath-reverse_aux :
    (up : Bool) (st acc : List Bytes)
    → IsStack up st
    → IsPath up (all_up st) acc
    → IsPath up true (reverse_aux st acc)
IsPath-reverse_aux up [] acc h k = k
IsPath-reverse_aux up (s ∷ r) acc h k = IsPath-reverse_aux up r (s ∷ acc) h.2 (h.0, h.1, k)

-- What was allowed with `..` is allowed under any flags if the first part is no `..`.
pub IsPath-below : (up up' : Bool) (ps : List Bytes) → IsPath up false ps → IsPath up' false ps
IsPath-below up up' [] h = tt
IsPath-below up up' (p ∷ ps) h =
    (h.0, λ e. absurd (false≢true (h.1 e).1), IsPath-below up up' ps h.2)

pub IsPath-up : (up b : Bool) (ps : List Bytes) → IsPath up b ps → IsPath true b ps
IsPath-up up b [] h = tt
IsPath-up up b (p ∷ ps) h =
    (h.0, λ e. (refl, (h.1 e).1), IsPath-up up (b && (p === dot_dot)) ps h.2)

go_up-cons :
    (rooted drive : Bool) (st : List Bytes)
    → can_go_up rooted drive ≡ true
    → all_up st ≡ true
    → go_up rooted drive st ≡ dot_dot ∷ st
unfolding go_up
go_up-cons rooted drive [] h k = ground arith
go_up-cons rooted drive (last ∷ rest) h k = ground arith

-- A segment that belongs to a path is pushed.
push_segment-cons :
    (rooted drive : Bool) (p : Bytes) (st : List Bytes)
    → IsSegment p
    → ((p === dot_dot) ≡ true → (can_go_up rooted drive ≡ true) × (all_up st ≡ true))
    → push_segment rooted drive p st ≡ p ∷ st
push_segment-cons rooted drive p st seg h = elim (Bool-cases (p === dot_dot)) [
  | inl e ↦
      unfold push_segment in
      rw (seg.nonempty, seg.not_dot, e)
        (go_up-cons rooted drive st (h e).0 (h e).1 ∙ ap (λ q. q ∷ st) (sym (===→eq p dot_dot e)))
  | inr e ↦ unfold push_segment in rw (seg.nonempty, seg.not_dot, e)
]

walk-segment :
    (rooted drive : Bool) (p s : Bytes) (st : List Bytes) (segment : Bytes)
    → has_byte slash p ≡ false
    → walk rooted drive (p ++ s) st segment ≡ walk rooted drive s st (segment ++ p)
walk-segment rooted drive [] s st segment h = rw append-nil
walk-segment rooted drive (c ∷ p) s st segment h =
    walk-other rooted drive (p ++ s) st segment c (unfold has_byte in ground arith)
    ∙ (walk-segment rooted drive p s st (segment ++ c ∷ []) (unfold has_byte in ground arith)
        ∙ ap (walk rooted drive s st) (append_assoc segment (c ∷ []) p))

-- The loop over one last segment.
walk_last :
    (rooted drive : Bool) (p : Bytes) (st : List Bytes)
    → has_byte slash p ≡ false
    → walk rooted drive p st [] ≡ push_segment rooted drive p st
walk_last rooted drive p st h =
    ap (λ q. walk rooted drive q st []) (sym (append-nil p))
    ∙ (walk-segment rooted drive p [] st [] h ∙ (unfold walk in refl))

-- The loop over a segment and its separator.
walk_first :
    (rooted drive : Bool) (p s : Bytes) (st : List Bytes)
    → has_byte slash p ≡ false
    → walk rooted drive (p ++ slash ∷ s) st []
      ≡ walk rooted drive s (push_segment rooted drive p st) []
walk_first rooted drive p s st h =
    walk-segment rooted drive p (slash ∷ s) st [] h ∙ walk-slash rooted drive s st p slash refl

-- The loop reads the parts of a path back.
pub walk-join :
    (rooted drive : Bool) (p : Bytes) (ps st : List Bytes)
    → IsPath (can_go_up rooted drive) (all_up st) (p ∷ ps)
    → walk rooted drive (join (p ∷ ps)) st [] ≡ reverse_aux (p ∷ ps) st
unfolding join
walk-join rooted drive p [] st h =
    walk_last rooted drive p st h.0.no_slash ∙ push_segment-cons rooted drive p st h.0 h.1
walk-join rooted drive p (q ∷ ps) st h =
    walk_first rooted drive p (join (q ∷ ps)) st h.0.no_slash
    ∙ (ap (λ z. walk rooted drive (join (q ∷ ps)) z [])
          (push_segment-cons rooted drive p st h.0 h.1)
        ∙ walk-join rooted drive q ps (p ∷ st) h.2)
