-- ===== src/Build/Dependencies/Depends.antt =====
-- What a source depends on, and the invariant of the loop of `append_dependencies` in
-- src/gz_build_manager.cpp.
use mathlib.Core.List.{Memᴰ}
use mathlib.Core.List.Memᴰ
use gzscript.Base.{
  ◌≡◌, refl, sym, subst, true, List, [], ◌∷◌, Bytes, Option, none, some, arith, ◌⊎◌, inl, inr,
  some_inj, if_cases,
}
use gzscript.Base.Assoc.{contains}
use gzscript.Build.Sources.{SourceDependency, source_dependencies}
use gzscript.Build.Identity.{identity_of}
use gzscript.Build.Cache.{Files}
use gzscript.Build.Dependencies.{
  visit_key, Walk, Paths, get_sha256, get_text, names_file, resolve_mention, push_found, follow,
  walk_from,
}
use gzscript.Build.Dependencies.Pushed.{push_all_kept, push_all_new, push_all_sound}

module _ (paths : Paths) (files : Files) (source_path : Bytes) where
  abbrev pub root : SourceDependency
  root = record { path = paths.simplify_path source_path; is_import = true }

  -- What the source depends on: itself, and what a file depends on that is imported.
  pub data Depends : SourceDependency → Type 0 where
    itself : Depends root
    mentioned :
        {d : SourceDependency} (ds : List SourceDependency) {e : SourceDependency}
        → Depends d
        → d.is_import ≡ true
        → source_dependencies (get_text paths files d.path) ≡ some ds
        → Memᴰ e ds
        → names_file paths files e ≡ true
        → Depends (resolve_mention paths files d.path e)

  abbrev pub entry : SourceDependency → Bytes × Bytes
  entry d = (d.path, get_sha256 paths files d.path)

  abbrev pub Seen : Walk → SourceDependency → Type 0
  Seen s d = Memᴰ d s.pending ⊎ (contains (visit_key d) s.visited ≡ true)

  -- What a file that was visited mentions was seen.
  abbrev pub Followed : Walk → SourceDependency → Type 0
  Followed s d =
      (ds : List SourceDependency) × ((source_dependencies (get_text paths files d.path) ≡ some ds)
        × ((e : SourceDependency)
            → Memᴰ e ds
            → names_file paths files e ≡ true
            → Seen s (resolve_mention paths files d.path e)))

  pub record Covers (es : List (Bytes × Bytes)) (s : Walk) : Type 0 where
    pub written : s.fingerprint ≡ identity_of [] es
    pub started : s.first ≡ true → (s.pending ≡ root ∷ []) × (s.visited ≡ [])
    pub rooted : Seen s root
    pub pending : (d : SourceDependency) → Memᴰ d s.pending → Depends d
    pub hashed :
        (d : SourceDependency)
        → contains (visit_key d) s.visited ≡ true
        → (d ≡ root) ⊎ Memᴰ (entry d) es
    pub closed :
        (d : SourceDependency)
        → contains (visit_key d) s.visited ≡ true
        → d.is_import ≡ true
        → Followed s d
    pub sound :
        (p : Bytes × Bytes) → Memᴰ p es → (d : SourceDependency) × (Depends d × (p ≡ entry d))

  pub walk_from-Covers : Covers [] (walk_from paths files source_path)
  unfolding identity_of contains
  walk_from-Covers = record {
    written = refl;
    started = λ e. (refl, refl);
    rooted = inl (Memᴰ.head refl);
    pending = λ d m. subst Depends (sym (Memᴰ.eq_of_singleton m)) itself;
    hashed = λ d v. ground arith;
    closed = λ d v i. ground arith;
    sound = λ p m. absurd (Memᴰ.not-nil m);
  }

  -- A file that was visited before is passed over.
  pub again-Covers :
      (es : List (Bytes × Bytes)) (s : Walk) (d : SourceDependency) (rest : List SourceDependency)
      → s.pending ≡ d ∷ rest
      → contains (visit_key d) s.visited ≡ true
      → Covers es s
      → Covers es (record s { pending = rest })
  unfolding contains
  again-Covers es s d rest e v h = record {
    written = h.written;
    started = λ f. let (_, none_visited) = h.started f in ground (arith, none_visited);
    rooted = still root h.rooted;
    pending = λ x m. h.pending x (subst (λ q. Memᴰ x q) (sym e) (Memᴰ.tail m));
    hashed = h.hashed;
    closed = λ x w i.
        let (ds, (found, all)) = h.closed x w i in
        (ds, (found, λ y m n. still (resolve_mention paths files x.path y) (all y m n)));
    sound = h.sound;
  }
    where
      still : (x : SourceDependency) → Seen s x → Seen (record s { pending = rest }) x
      still x (inr w) = inr w
      still x (inl m) = elim (Memᴰ.cases_cons (subst (λ q. Memᴰ x q) e m)) [
        | inl same ↦ inr (subst (λ q. contains (visit_key q) s.visited ≡ true) (sym same) v)
        | inr old ↦ inl old
      ]

  -- What following a file does to the state.
  pub record Follows (d : SourceDependency) (s t : Walk) : Type 0 where
    pub visited : t.visited ≡ s.visited
    pub first : t.first ≡ s.first
    pub fingerprint : t.fingerprint ≡ s.fingerprint
    pub kept : (x : SourceDependency) → Memᴰ x s.pending → Memᴰ x t.pending
    pub sound :
        (x : SourceDependency) → Memᴰ x t.pending → Memᴰ x s.pending ⊎ (Depends d → Depends x)
    pub mentions : d.is_import ≡ true → Followed t d

  pub follow-Follows :
      (d : SourceDependency) (s t : Walk) → follow paths files d s ≡ some t → Follows d s t
  unfolding follow
  follow-Follows d s t =
      if_cases (λ q. q ≡ some t → Follows d s t) d.is_import
        (λ b. on_found b (source_dependencies (get_text paths files d.path)) refl)
        (λ b e.
          subst (λ q. Follows d s q) (some_inj e)
            (record {
              visited = refl;
              first = refl;
              fingerprint = refl;
              kept = λ x m. m;
              sound = λ x m. inl m;
              mentions = λ i. ground (arith, b, i);
            }))
    where
      on_found :
          d.is_import ≡ true
          → (found : Option (List SourceDependency))
          → source_dependencies (get_text paths files d.path) ≡ found
          → push_found paths files d.path found s ≡ some t
          → Follows d s t
      on_found b none found e = ground (arith, e)
      on_found b (some ds) found e =
          subst (λ q. Follows d s q) (some_inj e)
            (record {
              visited = refl;
              first = refl;
              fingerprint = refl;
              kept = push_all_kept paths files d.path ds s.pending;
              sound = λ x m. elim (push_all_sound paths files d.path ds s.pending x m) [
                | inl old ↦ inl old
                | inr (y, (mem, (n, same))) ↦
                    inr (λ dep. subst Depends (sym same) (mentioned ds dep b found mem n))
              ];
              mentions = λ i.
                  (ds, (found, λ y m n. inl (push_all_new paths files d.path ds s.pending y m n)));
            })
