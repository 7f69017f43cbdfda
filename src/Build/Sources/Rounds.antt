-- ===== src/Build/Sources/Rounds.antt =====
-- The loop of `source_dependencies` in src/gz_build_manager.cpp passes a character in each round, so
-- the rounds that it is given suffice.
use gzscript.Base.{
  ℕ, zero, suc, ◌≤◌, ◌≡◌, refl, subst, if_both, inl, inr, ◌⊎◌, ◌==◌, Bool, true, false, ◌||◌, [],
  ◌∷◌, Bytes, codes, Option, none, some, length, arith,
}
use gzscript.Diagnostics.Path.{strip_prefix}
use gzscript.Build.Sources.{
  SourceDependency, skip_line, skip_quoted, skip_blanks, expect, take_path, take_argument,
  is_comment, call_step, ◌>>=◌, read_call, scan_step, scan, Step, pass, depend, unreadable,
}

skip_line_shorter : (s : Bytes) → length (skip_line s) ≤ length s
unfolding skip_line
skip_line_shorter [] = omega arith
skip_line_shorter (c ∷ s) = ground (arith, skip_line_shorter s)

skip_quoted_shorter : (quote : ℕ) (s : Bytes) → length (skip_quoted quote s) ≤ length s
unfolding skip_quoted
skip_quoted_shorter quote [] = omega arith
skip_quoted_shorter quote (c ∷ []) = omega arith
skip_quoted_shorter quote (c ∷ (d ∷ s)) =
    ground (arith, skip_quoted_shorter quote s, skip_quoted_shorter quote (d ∷ s))

skip_blanks_shorter : (s : Bytes) → length (skip_blanks s) ≤ length s
unfolding skip_blanks
skip_blanks_shorter [] = omega arith
skip_blanks_shorter (c ∷ s) = ground (arith, skip_blanks_shorter s)

-- What remains of a text is no longer than the text.
Shorter : Bytes → Option (Bytes × Bytes) → Type 0
Shorter s none = 0 ≤ 0
Shorter s (some (path, rest)) = length rest ≤ length s

take_path-Shorter : (s : Bytes) → Shorter s (take_path s)
unfolding take_path Shorter
take_path-Shorter [] = omega arith
take_path-Shorter (c ∷ s) = ground (arith, take_path-Shorter s)

strip_prefix_shorter :
    (prefix s rest : Bytes) → strip_prefix prefix s ≡ some rest → length rest ≤ length s
unfolding strip_prefix
strip_prefix_shorter [] s rest e = ground arith
strip_prefix_shorter (p ∷ prefix) [] rest e = ground arith
strip_prefix_shorter (p ∷ prefix) (c ∷ s) rest e =
    ground (arith, strip_prefix_shorter prefix s rest)

Shorter-weaken :
    (t s : Bytes) (o : Option (Bytes × Bytes)) → length t ≤ length s → Shorter t o → Shorter s o
unfolding Shorter
Shorter-weaken t s none h k = k
Shorter-weaken t s (some (path, rest)) h k = omega (arith, h, k)

take_argument-Shorter : (s : Bytes) → Shorter s (take_argument s)
unfolding take_argument Shorter expect
take_argument-Shorter s = go (skip_blanks s) (skip_blanks_shorter s)
  where
    quoted : (t : Bytes) → length t ≤ length s → Shorter s (expect 34 t >>= (λ q. take_path q))
    quoted [] h = omega arith
    quoted (c ∷ t) h =
        ground (arith, Shorter-weaken t s (take_path t) (omega (arith, h)) (take_path-Shorter t))

    go :
        (t : Bytes)
        → length t ≤ length s
        → Shorter s
            (expect 40 t >>= (λ inner. expect 34 (skip_blanks inner) >>= (λ q. take_path q)))
    go [] h = omega arith
    go (c ∷ t) h = ground (arith, quoted (skip_blanks t), skip_blanks_shorter t)

-- The text that a round leaves.
unfoldable pub Leaves : Step → Bytes → Type 0
Leaves (pass rest) s = length rest ≤ length s
Leaves (depend dependency rest) s = length rest ≤ length s
Leaves unreadable s = 0 ≤ 0

read_call-Leaves :
    (is_import : Bool) (s t : Bytes) (o : Option (Bytes × Bytes))
    → length t ≤ length s
    → Shorter t o
    → Leaves (read_call is_import o) s
unfolding Leaves Shorter
read_call-Leaves is_import s t none h k = omega arith
read_call-Leaves is_import s t (some (path, rest)) h k = omega (arith, h, k)

call_step-Leaves :
    (a b : Option Bytes) (s : Bytes)
    → ((r : Bytes) → a ≡ some r → length r ≤ length s)
    → ((r : Bytes) → b ≡ some r → length r ≤ length s)
    → Leaves (call_step a b s) s
unfolding Leaves
call_step-Leaves (some r) b s h k =
    read_call-Leaves true s r (take_argument r) (h r refl) (take_argument-Shorter r)
call_step-Leaves none (some r) s h k =
    read_call-Leaves false s r (take_argument r) (k r refl) (take_argument-Shorter r)
call_step-Leaves none none s h k = omega arith

strip_after :
    (word : Bytes) (c : ℕ) (s r : Bytes)
    → strip_prefix (64 ∷ word) (c ∷ s) ≡ some r
    → length r ≤ length s
unfolding strip_prefix
strip_after word c s r e = ground (arith, strip_prefix_shorter word s r)

scan_step-Leaves : (c : ℕ) (s : Bytes) → Leaves (scan_step c s) s
unfolding scan_step Leaves
scan_step-Leaves c s =
    if_both (λ (step : Step). Leaves step s) (is_comment c s) (skip_line_shorter s)
      (if_both (λ (step : Step). Leaves step s) (c == 34 || c == 39) (skip_quoted_shorter c s)
        (call_step-Leaves (strip_prefix (codes "@import") (c ∷ s))
          (strip_prefix (codes "@embedFile") (c ∷ s)) s (strip_after (codes "import") c s)
          (strip_after (codes "embedFile") c s)))

Step-cases :
    (step : Step)
    → ((r : Bytes) × (step ≡ pass r))
      ⊎ (((d : SourceDependency) × ((r : Bytes) × (step ≡ depend d r))) ⊎ (step ≡ unreadable))
Step-cases (pass r) = inl (r, refl)
Step-cases (depend d r) = inr (inl (d, (r, refl)))
Step-cases unreadable = inr (inr refl)

-- Any number of rounds that is no less than the length of the text gives the same answer.
pub scan_enough : (m n : ℕ) (s : Bytes) → length s ≤ m → length s ≤ n → scan m s ≡ scan n s
unfolding scan Leaves
scan_enough zero zero s h k = refl
scan_enough zero (suc n) [] h k = refl
scan_enough zero (suc n) (c ∷ s) h k = ground arith
scan_enough (suc m) zero [] h k = refl
scan_enough (suc m) zero (c ∷ s) h k = ground arith
scan_enough (suc m) (suc n) [] h k = refl
scan_enough (suc m) (suc n) (c ∷ s) h k = elim (Step-cases (scan_step c s)) [
  | inl (r, e) ↦
      let short = subst (λ step. Leaves step s) e (scan_step-Leaves c s) in
      let same = scan_enough m n r (less r m short h) (less r n short k) in ground (arith, e, same)
  | inr (inl (d, (r, e))) ↦
      let short = subst (λ step. Leaves step s) e (scan_step-Leaves c s) in
      let same = scan_enough m n r (less r m short h) (less r n short k) in ground (arith, e, same)
  | inr (inr e) ↦ ground (arith, e)
]
  where
    less : (r : Bytes) (j : ℕ) → length r ≤ length s → length (c ∷ s) ≤ suc j → length r ≤ j
    less r j a b = omega (arith, a, b)
