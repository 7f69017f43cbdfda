-- ===== src/Build/Dependencies/Pushed.antt =====
-- The keys and the pending files of `append_dependencies` in src/gz_build_manager.cpp.
use mathlib.Core.List.{Memᴰ}
use mathlib.Core.List.Memᴰ
use gzscript.Base.{
  ℕ, ◌≡◌, refl, ap, if◌then◌else◌, Bool, true, false, List, [], ◌∷◌, ◌++◌, Bytes, codes, length,
  arith, ◌⊎◌, inl, inr, if_cases, if_both, length-append,
}
use gzscript.Build.Sources.{SourceDependency}
use gzscript.Build.Identity.{append_identity, identity_of}
use gzscript.Build.Cache.{Files}
use gzscript.Build.Dependencies.{visit_key, Paths, names_file, resolve_mention, push_all}

last_code : Bytes → ℕ
last_code [] = 0
last_code (c ∷ []) = c
last_code (c ∷ (d ∷ s)) = last_code (d ∷ s)

last_code-append : (s t : Bytes) (c : ℕ) → last_code (s ++ c ∷ t) ≡ last_code (c ∷ t)
unfolding last_code
last_code-append [] t c = refl
last_code-append (b ∷ []) t c = refl
last_code-append (b ∷ (d ∷ s)) t c = last_code-append (d ∷ s) t c

prefix_unique : (a b s : Bytes) → a ++ s ≡ b ++ s → a ≡ b
prefix_unique [] [] s e = refl
prefix_unique [] (d ∷ b) s e = let n = ap length e in ground (arith, n, length-append b s)
prefix_unique (c ∷ a) [] s e = let n = ap length e in ground (arith, n, length-append a s)
prefix_unique (c ∷ a) (d ∷ b) s e = ground (arith, prefix_unique a b s (ground arith))

suffix : Bool → Bytes
suffix b = if b then codes "#import" else codes "#embed"

suffix_unique : (a b : Bytes) (x y : Bool) → a ++ suffix x ≡ b ++ suffix y → (a ≡ b) × (x ≡ y)
unfolding suffix last_code
suffix_unique a b true true e = (prefix_unique a b (codes "#import") e, refl)
suffix_unique a b false false e = (prefix_unique a b (codes "#embed") e, refl)
suffix_unique a b true false e =
    let n = ap last_code e in
    ground (arith, n, last_code-append a (codes "import") 35, last_code-append b (codes "embed") 35)
suffix_unique a b false true e =
    let n = ap last_code e in
    ground (arith, n, last_code-append b (codes "import") 35, last_code-append a (codes "embed") 35)

-- The key tells the path and the kind.
pub visit_key_inj : (d e : SourceDependency) → visit_key d ≡ visit_key e → d ≡ e
unfolding visit_key suffix
visit_key_inj d e h =
    let (path, kind) = suffix_unique d.path e.path d.is_import e.is_import h in
    ground (arith, path, kind)

pub identity_of-snoc :
    (identity : Bytes) (es : List (Bytes × Bytes)) (label value : Bytes)
    → identity_of identity (es ++ (label, value) ∷ [])
      ≡ append_identity (identity_of identity es) label value
unfolding identity_of
identity_of-snoc identity [] label value = refl
identity_of-snoc identity ((l, v) ∷ es) label value =
    identity_of-snoc (append_identity identity l v) es label value

module _ (paths : Paths) (files : Files) where
  -- What is pushed is what was there and what is mentioned.
  pub push_all_kept :
      (path : Bytes) (ds pending : List SourceDependency) (x : SourceDependency)
      → Memᴰ x pending
      → Memᴰ x (push_all paths files path ds pending)
  unfolding push_all
  push_all_kept path [] pending x m = m
  push_all_kept path (d ∷ ds) pending x m =
      push_all_kept path ds _ x (if_both (λ q. Memᴰ x q) (names_file paths files d) (Memᴰ.tail m) m)

  pub push_all_new :
      (path : Bytes) (ds pending : List SourceDependency) (d : SourceDependency)
      → Memᴰ d ds
      → names_file paths files d ≡ true
      → Memᴰ (resolve_mention paths files path d) (push_all paths files path ds pending)
  unfolding push_all
  push_all_new path (d ∷ ds) pending e m h = elim (Memᴰ.cases_cons m) [
    | inl same ↦ push_all_kept path ds _ (resolve_mention paths files path e) (
        if_cases (λ q. Memᴰ (resolve_mention paths files path e) q) (names_file paths files d)
          (λ b. Memᴰ.head (ap (resolve_mention paths files path) same))
          (λ b. ground (arith, ap (names_file paths files) same)))
    | inr rest ↦ push_all_new path ds _ e rest h
  ]
  push_all_new path [] pending e m h = absurd (Memᴰ.not-nil m)

  -- A dependency that is mentioned in a file.
  abbrev pub Mentions : Bytes → List SourceDependency → SourceDependency → Type 0
  Mentions path ds x =
      (d : SourceDependency) × (Memᴰ d ds
        × ((names_file paths files d ≡ true) × (x ≡ resolve_mention paths files path d)))

  pub push_all_sound :
      (path : Bytes) (ds pending : List SourceDependency) (x : SourceDependency)
      → Memᴰ x (push_all paths files path ds pending)
      → Memᴰ x pending ⊎ Mentions path ds x
  unfolding push_all
  push_all_sound path [] pending x m = inl m
  push_all_sound path (d ∷ ds) pending x m = elim (push_all_sound path ds _ x m) [
    | inl old ↦ at_front d ds pending x old
    | inr (e, (mem, rest)) ↦ inr (e, (Memᴰ.tail mem, rest))
  ]
    where
      at_front :
          (d : SourceDependency) (ds pending : List SourceDependency) (x : SourceDependency)
          → Memᴰ x (
              if names_file paths files d
              then resolve_mention paths files path d ∷ pending
              else pending)
          → Memᴰ x pending ⊎ Mentions path (d ∷ ds) x
      at_front d ds pending x =
          if_cases (λ q. Memᴰ x q → Memᴰ x pending ⊎ Mentions path (d ∷ ds) x)
            (names_file paths files d)
            (λ b m. elim (Memᴰ.cases_cons m) [
              | inl same ↦ inr (d, (Memᴰ.head refl, (b, same)))
              | inr old ↦ inl old
            ])
            (λ b m. inl m)
