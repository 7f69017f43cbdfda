-- ===== src/Build/Dependencies/Cover.antt =====
-- `append_dependencies` of src/gz_build_manager.cpp fingerprints just the files that the source
-- depends on, whatever way leads to them.
use mathlib.Core.List.{Memᴰ}
use mathlib.Core.List.Memᴰ
use gzscript.Base.{
  ℕ, zero, suc, ◌≡◌, ◌∙◌, refl, sym, ap, subst, if◌then◌else◌, Bool, true, false, not, ◌&&◌, List,
  [], ◌∷◌, ◌++◌, Bytes, ◌===◌, ===_iff, Option, none, some, is_empty, arith, ◌⊎◌, inl, inr,
  Bool-cases, some_inj, elim_cases,
}
use gzscript.Base.Assoc.{contains}
use gzscript.Build.Sources.{SourceDependency}
use gzscript.Build.Identity.{append_identity, identity_of}
use gzscript.Build.Cache.{Files}
use gzscript.Build.Dependencies.{
  visit_key, Walk, Walked, walked, refused, Paths, get_sha256, resolve_mention, add_hash, follow,
  walk_files, append_dependencies,
}
use gzscript.Build.Dependencies.Pushed.{visit_key_inj, identity_of-snoc}
use gzscript.Build.Dependencies.Depends.{
  root, Depends, itself, mentioned, entry, Seen, Followed, Covers, walk_from-Covers, again-Covers,
  Follows, follow-Follows,
}

module _ (paths : Paths) (files : Files) (source_path : Bytes) where
  abbrev with_entry : Bool → SourceDependency → List (Bytes × Bytes) → List (Bytes × Bytes)
  with_entry first d es = if first then es else es ++ entry paths files source_path d ∷ []

  with_entry-written :
      (first : Bool) (d : SourceDependency) (es : List (Bytes × Bytes)) (fingerprint : Bytes)
      → fingerprint ≡ identity_of [] es
      → (if first
          then fingerprint
          else append_identity fingerprint d.path (get_sha256 paths files d.path))
        ≡ identity_of [] (with_entry first d es)
  with_entry-written true d es fingerprint e = e
  with_entry-written false d es fingerprint e =
      ap (λ q. append_identity q d.path (get_sha256 paths files d.path)) e
      ∙ sym (identity_of-snoc [] es d.path (get_sha256 paths files d.path))

  with_entry_new :
      (first : Bool) (d : SourceDependency) (es : List (Bytes × Bytes))
      → (first ≡ true → d ≡ root paths files source_path)
      → (d ≡ root paths files source_path)
        ⊎ Memᴰ (entry paths files source_path d) (with_entry first d es)
  with_entry_new true d es h = inl (h refl)
  with_entry_new false d es h = inr (Memᴰ.append_right es (Memᴰ.head refl))

  with_entry_kept :
      (first : Bool) (d : SourceDependency) (es : List (Bytes × Bytes)) (p : Bytes × Bytes)
      → Memᴰ p es
      → Memᴰ p (with_entry first d es)
  with_entry_kept true d es p m = m
  with_entry_kept false d es p m = Memᴰ.append_left (entry paths files source_path d ∷ []) m

  with_entry_sound :
      (first : Bool) (d : SourceDependency) (es : List (Bytes × Bytes)) (p : Bytes × Bytes)
      → Memᴰ p (with_entry first d es)
      → Memᴰ p es ⊎ (p ≡ entry paths files source_path d)
  with_entry_sound true d es p m = inl m
  with_entry_sound false d es p m = elim (Memᴰ.append_cases es m) [
    | inl old ↦ inl old
    | inr new ↦ inr (Memᴰ.eq_of_singleton new)
  ]

  contains_cons :
      (d x : SourceDependency) (keys : List Bytes)
      → contains (visit_key x) (visit_key d ∷ keys) ≡ true
      → (d ≡ x) ⊎ (contains (visit_key x) keys ≡ true)
  unfolding contains
  contains_cons d x keys h = elim (Bool-cases (visit_key d === visit_key x)) [
    | inl h1 ↦ inl (visit_key_inj d x ((===_iff (visit_key d) (visit_key x)).0 h1))
    | inr h0 ↦ inr (ground (arith, h, h0))
  ]

  cons_contains :
      (d x : SourceDependency) (keys : List Bytes)
      → (d ≡ x) ⊎ (contains (visit_key x) keys ≡ true)
      → contains (visit_key x) (visit_key d ∷ keys) ≡ true
  unfolding contains
  cons_contains d x keys (inl same) =
      let e = (===_iff (visit_key d) (visit_key x)).1 (ap visit_key same) in ground (arith, e)
  cons_contains d x keys (inr h) = ground (arith, h)

  -- A new file is followed, and has its entry unless it is the source.
  visit-Covers :
      (es : List (Bytes × Bytes)) (s : Walk) (d : SourceDependency) (rest : List SourceDependency)
      (t : Walk)
      → s.pending ≡ d ∷ rest
      → Follows paths files source_path d (add_hash paths files d (record s { pending = rest })) t
      → Covers paths files source_path es s
      → Covers paths files source_path (with_entry s.first d es) t
  visit-Covers es s d rest t e f h = record {
    written = f.fingerprint ∙ with_entry-written s.first d es s.fingerprint h.written;
    started = λ first. ground (arith, first, f.first);
    rooted = still (root paths files source_path) h.rooted;
    pending = λ x m. elim (f.sound x m) [
      | inl old ↦ h.pending x (subst (λ q. Memᴰ x q) (sym e) (Memᴰ.tail old))
      | inr new ↦ new depends_on
    ];
    hashed = λ x w. hash_of x (was_visited x w);
    closed = λ x w i. follow_of x i (was_visited x w);
    sound = λ p m. elim (with_entry_sound s.first d es p m) [
      | inl old ↦ h.sound p old
      | inr new ↦ (d, (depends_on, new))
    ];
  }
    where
      still :
          (x : SourceDependency)
          → Seen paths files source_path s x
          → Seen paths files source_path t x
      still x (inr w) = inr (
          subst (λ q. contains (visit_key x) q ≡ true) (sym f.visited)
            (cons_contains d x s.visited (inr w)))
      still x (inl m) = elim (Memᴰ.cases_cons (subst (λ q. Memᴰ x q) e m)) [
        | inl same ↦ inr (
            subst (λ q. contains (visit_key x) q ≡ true) (sym f.visited)
              (cons_contains d x s.visited (inl (sym same))))
        | inr old ↦ inl (f.kept x old)
      ]

      depends_on : Depends paths files source_path d
      depends_on = h.pending d (subst (λ q. Memᴰ d q) (sym e) (Memᴰ.head refl))

      was_visited :
          (x : SourceDependency)
          → contains (visit_key x) t.visited ≡ true
          → (d ≡ x) ⊎ (contains (visit_key x) s.visited ≡ true)
      was_visited x w =
          contains_cons d x s.visited (subst (λ q. contains (visit_key x) q ≡ true) f.visited w)

      is_root : s.first ≡ true → d ≡ root paths files source_path
      is_root first = let (one, _) = h.started first in ground (arith, one, e)

      hash_of :
          (x : SourceDependency)
          → (d ≡ x) ⊎ (contains (visit_key x) s.visited ≡ true)
          → (x ≡ root paths files source_path)
            ⊎ Memᴰ (entry paths files source_path x) (with_entry s.first d es)
      hash_of x (inl same) =
          subst
            (λ q.
              (q ≡ root paths files source_path)
              ⊎ Memᴰ (entry paths files source_path q) (with_entry s.first d es))
            same (with_entry_new s.first d es is_root)
      hash_of x (inr old) = elim (h.hashed x old) [
        | inl same ↦ inl same
        | inr m ↦ inr (with_entry_kept s.first d es (entry paths files source_path x) m)
      ]

      follow_of :
          (x : SourceDependency)
          → x.is_import ≡ true
          → (d ≡ x) ⊎ (contains (visit_key x) s.visited ≡ true)
          → Followed paths files source_path t x
      follow_of x i (inl same) =
          subst (λ q. Followed paths files source_path t q) same
            (f.mentions (ap (λ q. q.is_import) same ∙ i))
      follow_of x i (inr old) =
          let (ds, (found, all)) = h.closed x old i in
          (ds, (found, λ y m n. still (resolve_mention paths files x.path y) (all y m n)))

  -- What the loop ends with when it ends with a fingerprint.
  abbrev Covered : Bytes → Type 0
  Covered f =
      (es : List (Bytes × Bytes)) × (t : Walk) × (Covers paths files source_path es t
        × ((t.pending ≡ []) × (t.fingerprint ≡ f)))

  -- The rule for a round in which a file is visited.
  followed-Covered :
      (n : ℕ) (es : List (Bytes × Bytes)) (s : Walk) (d : SourceDependency)
      (rest : List SourceDependency) (f : Bytes)
      → s.pending ≡ d ∷ rest
      → Covers paths files source_path es s
      → ((t : Walk) (ds : List (Bytes × Bytes))
          → Covers paths files source_path ds t
          → walk_files paths files n t ≡ walked f
          → Covered f)
      → (followed : Option Walk)
      → follow paths files d (add_hash paths files d (record s { pending = rest })) ≡ followed
      → elim followed [ none ↦ refused [] | some next ↦ walk_files paths files n next ] ≡ walked f
      → Covered f
  followed-Covered n es s d rest f p h loop none g e = ground (arith, e)
  followed-Covered n es s d rest f p h loop (some t) g e =
      loop t (with_entry s.first d es)
        (visit-Covers es s d rest t p (follow-Follows paths files source_path d _ t g) h) e

  abbrev state : List SourceDependency → List Bytes → Bool → Bytes → Walk
  state pending visited first fingerprint = record {
    pending = pending;
    visited = visited;
    first = first;
    fingerprint = fingerprint;
  }

  walk_files-Covered :
      (n : ℕ) (pending : List SourceDependency) (visited : List Bytes) (first : Bool)
      (fingerprint : Bytes) (es : List (Bytes × Bytes)) (f : Bytes)
      → Covers paths files source_path es (state pending visited first fingerprint)
      → walk_files paths files n (state pending visited first fingerprint) ≡ walked f
      → Covered f
  unfolding walk_files
  walk_files-Covered zero pending visited first fingerprint es f h e = ground (arith, e)
  walk_files-Covered (suc n) [] visited first fingerprint es f h e =
      (es, _, (h, (refl, ground (arith, e))))
  walk_files-Covered (suc n) (d ∷ rest) visited first fingerprint es f h e =
      let ends = λ (w : Walked). w ≡ walked f → Covered f in
      let loop = λ (t : Walk) (ds : List (Bytes × Bytes)).
        walk_files-Covered n t.pending t.visited t.first t.fingerprint ds f in
      elim_cases ends (contains (visit_key d) visited)
        (λ b. loop _ es (again-Covers paths files source_path es _ d rest refl b h))
        (λ b.
          elim_cases ends (not first && is_empty (get_sha256 paths files d.path))
            (λ c e. ground (arith, e)) (λ c. followed-Covered n es _ d rest f refl h loop _ refl))
        e

  -- When a fingerprint comes out, all its entries are files that the source depends on, with their
  -- hashes, and all files that it depends on, but the source itself, are among them.
  pub append_dependencies_covers :
      (f : Bytes)
      → append_dependencies paths files source_path ≡ walked f
      → (es : List (Bytes × Bytes)) × ((f ≡ identity_of [] es)
          × (((d : SourceDependency)
                → Depends paths files source_path d
                → (d ≡ root paths files source_path) ⊎ Memᴰ (entry paths files source_path d) es)
              × ((p : Bytes × Bytes)
                  → Memᴰ p es
                  → (d : SourceDependency) × (Depends paths files source_path d
                      × (p ≡ entry paths files source_path d)))))
  unfolding append_dependencies
  append_dependencies_covers f e =
      let (es, t, (h, (done, same))) =
        walk_files-Covered _ _ _ _ _ [] f (walk_from-Covers paths files source_path) e in
      (es, (sym same ∙ h.written, (λ d dep. h.hashed d (all_visited es t h done d dep), h.sound)))
    where
      seen_visited :
          (t : Walk)
          → t.pending ≡ []
          → (d : SourceDependency) → Seen paths files source_path t d
          → contains (visit_key d) t.visited ≡ true
      seen_visited t done d (inr v) = v
      seen_visited t done d (inl m) = absurd (Memᴰ.not-nil (subst (λ q. Memᴰ d q) done m))

      all_visited :
          (es : List (Bytes × Bytes)) (t : Walk)
          → Covers paths files source_path es t
          → t.pending ≡ []
          → (d : SourceDependency) → Depends paths files source_path d
          → contains (visit_key d) t.visited ≡ true
      all_visited es t h done _ itself = seen_visited t done (root paths files source_path) h.rooted
      all_visited es t h done _ (mentioned {d} ds {e} dep i found m n) =
          let (ds', (found', all)) = h.closed d (all_visited es t h done d dep) i in
          seen_visited t done (resolve_mention paths files d.path e)
            (all e (subst (λ q. Memᴰ e q) (some_inj (sym found ∙ found')) m) n)
