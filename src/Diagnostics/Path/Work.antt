-- ===== src/Diagnostics/Path/Work.antt =====
-- The part of `gz_normalize_document_path` after the scheme (src/diagnostics/gz_diagnostic_path.cpp)
-- keeps what it has made: rendering and resolving again gives the same parts.
use gzscript.Base.{
  ℕ, ◌==◌, ◌≡◌, refl, sym, ap, subst, ◌∙◌, inl, inr, Bool, true, false, ◌&&◌, false≢true, List, [],
  ◌∷◌, ◌++◌, Bytes, ◌===◌, ===→eq, arith, Bool-cases,
}
use mathlib.Core.List.{reverse, reverse-reverse, append-nil}
use gzscript.Diagnostics.Path.{
  slash, dot_dot, has_byte, starts_with_slash, is_letter, collapse, has_drive, push_segment, walk,
  join, render, resolve, normalize_work,
}
use gzscript.Diagnostics.Path.Segments.{
  IsSegment, IsPath, can_go_up, walk-IsStack, walk-join, IsPath-reverse_aux, IsPath-below,
  IsPath-up, walk-slash,
}

-- Where a `..` may stand in the result for a path.
abbrev pub up_of : Bytes → Bool
up_of work = can_go_up (starts_with_slash work) (has_drive work)

-- Every result is a path of proper segments, with `..` in front at most, and only in a relative
-- path.
pub resolve-IsPath : (work : Bytes) → IsPath (up_of work) true (resolve work)
resolve-IsPath work =
    unfold resolve in
    IsPath-reverse_aux (up_of work) (walk (starts_with_slash work) (has_drive work) work [] []) []
      (walk-IsStack (starts_with_slash work) (has_drive work) work [] [] (unfold has_byte in refl)
        tt)
      tt

join_head : (p : Bytes) (ps : List Bytes) → IsSegment p → starts_with_slash (join (p ∷ ps)) ≡ false
unfolding join starts_with_slash has_byte
join_head [] ps h = absurd (false≢true (sym h.nonempty))
join_head (c ∷ p) [] h = ground (arith, h.no_slash)
join_head (c ∷ p) (q ∷ ps) h = ground (arith, h.no_slash)

-- A `..` in front is no drive.
drive_head :
    (p : Bytes) (ps : List Bytes) → has_drive (join (p ∷ ps)) ≡ true → (p === dot_dot) ≡ false
drive_head p ps h = elim (Bool-cases (p === dot_dot)) [
  | inl e ↦ absurd (
      false≢true
        (no_drive ps ∙ (ap (λ z. has_drive (join (z ∷ ps))) (sym (===→eq p dot_dot e)) ∙ h)))
  | inr e ↦ e
]
  where
    no_drive : (qs : List Bytes) → false ≡ has_drive (join (dot_dot ∷ qs))
    no_drive [] = unfold has_drive is_letter join in refl
    no_drive (q ∷ qs) = unfold has_drive is_letter join in refl

-- The parts of a relative path fit the flags that its text has.
refit :
    (up d : Bool) (p : Bytes) (ps : List Bytes)
    → (d ≡ true → (p === dot_dot) ≡ false)
    → IsPath up true (p ∷ ps)
    → IsPath (can_go_up false d) true (p ∷ ps)
refit up false p ps k h = IsPath-up up true (p ∷ ps) h
refit up true p ps k h = (
  h.0,
  (λ e. absurd (false≢true (sym (k refl) ∙ e))),
  subst (λ b. IsPath false b ps) (sym (k refl))
      (IsPath-below up false ps (subst (λ b. IsPath up b ps) (k refl) h.2)),
)

resolve-join :
    (up : Bool) (p : Bytes) (ps : List Bytes)
    → IsPath up true (p ∷ ps)
    → resolve (join (p ∷ ps)) ≡ p ∷ ps
resolve-join up p ps h =
    unfold resolve in
    rw (join_head p ps h.0) (
      ap reverse (
        walk-join false (has_drive (join (p ∷ ps))) p ps []
          (refit up (has_drive (join (p ∷ ps))) p ps (drive_head p ps) h))
      ∙ reverse-reverse (p ∷ ps))

-- A separator in front leaves the parts as they are.
resolve-slash : (ps : List Bytes) → IsPath false true ps → resolve (slash ∷ join ps) ≡ ps
unfolding push_segment resolve walk
resolve-slash [] h = unfold join in refl
resolve-slash (p ∷ ps) h =
    ap reverse (
      walk-slash true (has_drive (slash ∷ join (p ∷ ps))) (join (p ∷ ps)) [] [] slash refl
      ∙ walk-join true (has_drive (slash ∷ join (p ∷ ps))) p ps [] h)
    ∙ reverse-reverse (p ∷ ps)

-- Rendering the parts of a path and resolving them again gives the parts.
pub resolve-render :
    (rooted drive : Bool) (ps : List Bytes)
    → IsPath (can_go_up rooted drive) true ps
    → resolve (render rooted ps) ≡ ps
resolve-render true drive ps h = unfold render in resolve-slash ps h
resolve-render false drive [] h = unfold resolve render ◌===◌ in refl
resolve-render false drive (p ∷ ps) h = unfold render in resolve-join (can_go_up false drive) p ps h

pub starts_with_slash-render :
    (rooted up : Bool) (ps : List Bytes)
    → IsPath up true ps
    → starts_with_slash (render rooted ps) ≡ rooted
starts_with_slash-render true up ps h = unfold render starts_with_slash in refl
starts_with_slash-render false up [] h = unfold render starts_with_slash in refl
starts_with_slash-render false up (p ∷ ps) h = unfold render in join_head p ps h.0

-- No separators to collapse.
collapse-cons :
    (b : Bool) (c : ℕ) (s : Bytes)
    → (c == slash) ≡ false
    → collapse b (c ∷ s) ≡ c ∷ collapse false s
unfolding collapse
collapse-cons b c s h = ground arith

collapse-append :
    (p s : Bytes) → has_byte slash p ≡ false → collapse false (p ++ s) ≡ p ++ collapse false s
collapse-append [] s h = refl
collapse-append (c ∷ p) s h =
    collapse-cons false c (p ++ s) (unfold has_byte in ground arith)
    ∙ ap (λ z. c ∷ z) (collapse-append p s (unfold has_byte in ground arith))

-- A segment in front is kept, whatever stood before it.
collapse-segment :
    (b : Bool) (p s : Bytes) → IsSegment p → collapse b (p ++ s) ≡ p ++ collapse false s
collapse-segment b [] s h = absurd (false≢true (sym h.nonempty))
collapse-segment b (c ∷ p) s h =
    collapse-cons b c (p ++ s) (let n = h.no_slash in unfold has_byte in ground (arith, n))
    ∙ ap (λ z. c ∷ z)
        (collapse-append p s (let n = h.no_slash in unfold has_byte in ground (arith, n)))

collapse-join :
    (b up first : Bool) (ps : List Bytes) → IsPath up first ps → collapse b (join ps) ≡ join ps
unfolding join collapse
collapse-join b up first [] h = refl
collapse-join b up first (p ∷ []) h =
    ap (collapse b) (sym (append-nil p)) ∙ (collapse-segment b p [] h.0 ∙ append-nil p)
collapse-join b up first (p ∷ q ∷ ps) h =
    collapse-segment b p (slash ∷ join (q ∷ ps)) h.0
    ∙ ap (λ z. p ++ slash ∷ z) (collapse-join true up (first && (p === dot_dot)) (q ∷ ps) h.2)

pub collapse-render :
    (rooted up : Bool) (ps : List Bytes)
    → IsPath up true ps
    → collapse false (render rooted ps) ≡ render rooted ps
collapse-render true up ps h =
    unfold render collapse in ap (λ z. slash ∷ z) (collapse-join true up true ps h)
collapse-render false up [] h = unfold render collapse in refl
collapse-render false up (p ∷ ps) h = unfold render in collapse-join false up true (p ∷ ps) h

pub normalize_work_lem :
    (w : Bytes)
    → normalize_work w ≡ render (starts_with_slash (collapse false w)) (resolve (collapse false w))
normalize_work_lem w = unfold normalize_work in refl

-- A result starts with a separator exactly if its path does.
pub starts_with_slash-normalize_work :
    (w : Bytes) → starts_with_slash (normalize_work w) ≡ starts_with_slash (collapse false w)
starts_with_slash-normalize_work w =
    ap starts_with_slash (normalize_work_lem w)
    ∙ starts_with_slash-render (starts_with_slash (collapse false w)) (up_of (collapse false w))
        (resolve (collapse false w)) (resolve-IsPath (collapse false w))

-- A result holds no two separators in a row.
pub collapse-normalize_work : (w : Bytes) → collapse false (normalize_work w) ≡ normalize_work w
collapse-normalize_work w = rw (normalize_work_lem w) (
    collapse-render (starts_with_slash (collapse false w)) (up_of (collapse false w))
      (resolve (collapse false w)) (resolve-IsPath (collapse false w)))

-- What `gz_normalize_document_path` does after the scheme is done once and for all.
pub normalize_work_idem : (w : Bytes) → normalize_work (normalize_work w) ≡ normalize_work w
normalize_work_idem w =
    normalize_work_lem (normalize_work w)
    ∙ (ap (λ z. render (starts_with_slash z) (resolve z)) (collapse-normalize_work w)
        ∙ (ap (λ b. render b (resolve (normalize_work w))) (starts_with_slash-normalize_work w)
            ∙ (ap (λ ps. render (starts_with_slash (collapse false w)) ps)
                  (ap resolve (normalize_work_lem w)
                    ∙ resolve-render (starts_with_slash (collapse false w))
                        (has_drive (collapse false w)) (resolve (collapse false w))
                        (resolve-IsPath (collapse false w)))
                ∙ sym (normalize_work_lem w))))
