-- ===== src/Build/Dependencies/Rounds.antt =====
-- The loop of `append_dependencies` in src/gz_build_manager.cpp ends: a file is followed once, and
-- pushes no more than it mentions.
use gzscript.Base.{
  ℕ, zero, suc, ◌+◌, ◌≤◌, ◌<◌, ◌≡◌, refl, sym, ap, subst, if◌then◌else◌, Bool, true, false, not,
  ◌&&◌, List, [], ◌∷◌, Bytes, ◌===◌, ===_iff, Option, none, some, length, is_empty, arith, some_inj,
  if_cases, elim_cases, ◌≢◌,
}
use gzscript.Base.Assoc.{contains, lookup}
use gzscript.Build.Sources.{SourceDependency, source_dependencies}
use gzscript.Build.Cache.{Files}
use gzscript.Build.Dependencies.{
  visit_key, Walk, refused, unfinished, Paths, or_empty, get_sha256, get_text, names_file,
  resolve_mention, push_all, add_hash, push_found, follow, walk_files, append_dependencies,
  mentions, all_mentions,
}

abbrev import_key : Bytes → Bytes
import_key path = visit_key (record { path = path; is_import = true })

-- What the files mention that were not visited.
fresh : Files → List Bytes → ℕ
fresh [] visited = 0
fresh ((path, text) ∷ files) visited =
    (if contains (import_key path) visited then 0 else mentions text) + fresh files visited

fresh_all : (files : Files) → fresh files [] ≡ all_mentions files
unfolding fresh all_mentions contains
fresh_all [] = refl
fresh_all ((path, text) ∷ files) = ap (λ n. mentions text + n) (fresh_all files)

fresh_cons :
    (files : Files) (key : Bytes) (visited : List Bytes)
    → fresh files (key ∷ visited) ≤ fresh files visited
unfolding fresh contains
fresh_cons [] key visited = ground arith
fresh_cons ((path, text) ∷ files) key visited = ground (arith, fresh_cons files key visited)

mentions_nothing : mentions [] ≤ 0
unfolding mentions source_dependencies
mentions_nothing = ground arith

mentions_found :
    (text : Bytes) (ds : List SourceDependency)
    → source_dependencies text ≡ some ds
    → mentions text ≡ length ds
unfolding mentions
mentions_found text ds e = ap (λ q. elim q [ none ↦ 0 | some ds ↦ length ds ]) e

fresh_visit :
    (files : Files) (path : Bytes) (visited : List Bytes)
    → contains (import_key path) visited ≡ false
    → mentions (or_empty (lookup path files)) + fresh files (import_key path ∷ visited)
      ≤ fresh files visited
unfolding fresh contains lookup
fresh_visit [] path visited h = ground (arith, mentions_nothing)
fresh_visit ((p, text) ∷ files) path visited h =
    if_cases
      (λ q.
        mentions (or_empty q) + fresh ((p, text) ∷ files) (import_key path ∷ visited)
        ≤ fresh ((p, text) ∷ files) visited)
      (p === path)
      (λ same.
        let e = ap import_key ((===_iff p path).0 same) in
        let seen = (===_iff (import_key path) (import_key p)).1 (sym e) in
        let new = subst (λ q. contains q visited ≡ false) (sym e) h in
        ground (arith, seen, new, fresh_cons files (import_key path) visited))
      (λ other. ground (arith, fresh_visit files path visited h))

module _ (paths : Paths) (files : Files) where
  length-push_all :
      (path : Bytes) (ds pending : List SourceDependency)
      → length (push_all paths files path ds pending) ≤ length ds + length pending
  unfolding push_all
  length-push_all path [] pending = ground arith
  length-push_all path (d ∷ ds) pending =
      if_cases (λ q. length (push_all paths files path ds q) ≤ suc (length ds) + length pending)
        (names_file paths files d)
        (λ b.
          ground (arith, length-push_all path ds (resolve_mention paths files path d ∷ pending)))
        (λ b. ground (arith, length-push_all path ds pending))

  potential : Walk → ℕ
  potential s = length s.pending + fresh files s.visited

  -- Following a new file pushes at most what is no longer fresh.
  potential-follow :
      (d : SourceDependency) (s t : Walk)
      → contains (visit_key d) s.visited ≡ false
      → follow paths files d (add_hash paths files d s) ≡ some t
      → potential t ≤ potential s
  unfolding follow potential
  potential-follow d s t h =
      if_cases (λ q. q ≡ some t → potential t ≤ potential s) d.is_import
        (λ b.
          on_found (subst (λ q. contains q s.visited ≡ false) (key b) h) (key b)
            (source_dependencies (get_text paths files d.path)) refl)
        (λ b e.
          subst (λ q. potential q ≤ potential s) (some_inj e)
            (ground (arith, fresh_cons files (visit_key d) s.visited)))
    where
      key : d.is_import ≡ true → visit_key d ≡ import_key d.path
      key b = ap visit_key (ground (arith, b))

      on_found :
          contains (import_key d.path) s.visited ≡ false
          → visit_key d ≡ import_key d.path
          → (found : Option (List SourceDependency))
          → source_dependencies (get_text paths files d.path) ≡ found
          → push_found paths files d.path found (add_hash paths files d s) ≡ some t
          → potential t ≤ potential s
      on_found new k none found e = ground (arith, e)
      on_found new k (some ds) found e =
          subst (λ q. potential q ≤ potential s) (some_inj e)
            (ground (
              arith,
              length-push_all d.path ds s.pending,
              mentions_found (get_text paths files d.path) ds found,
              fresh_visit files d.path s.visited new,
              ap (λ q. fresh files (q ∷ s.visited)) k,
            ))

  abbrev state : List SourceDependency → List Bytes → Bool → Bytes → Walk
  state pending visited first fingerprint = record {
    pending = pending;
    visited = visited;
    first = first;
    fingerprint = fingerprint;
  }

  follow_ends :
      (n : ℕ) (d : SourceDependency) (s : Walk)
      → contains (visit_key d) s.visited ≡ false
      → potential s < n
      → ((t : Walk) → potential t < n → walk_files paths files n t ≢ unfinished)
      → (followed : Option Walk) → follow paths files d (add_hash paths files d s) ≡ followed
      → elim followed [ none ↦ refused [] | some next ↦ walk_files paths files n next ] ≢ unfinished
  follow_ends n d s new h loop none e u = ground (arith, u)
  follow_ends n d s new h loop (some t) e u =
      loop t (ground (arith, potential-follow d s t new e, h)) u

  walk_ends :
      (n : ℕ) (pending : List SourceDependency) (visited : List Bytes) (first : Bool)
      (fingerprint : Bytes)
      → potential (state pending visited first fingerprint) < n
      → walk_files paths files n (state pending visited first fingerprint) ≢ unfinished
  unfolding walk_files potential
  walk_ends zero pending visited first fingerprint h u = ground (arith, h)
  walk_ends (suc n) [] visited first fingerprint h u = ground (arith, u)
  walk_ends (suc n) (d ∷ rest) visited first fingerprint h u =
      let loop = λ (t : Walk) (less : potential t < n).
        walk_ends n t.pending t.visited t.first t.fingerprint less in
      elim_cases (λ q. q ≢ unfinished) (contains (visit_key d) visited)
        (λ b. loop (state rest visited first fingerprint) (ground (arith, h)))
        (λ b.
          elim_cases (λ q. q ≢ unfinished) (not first && is_empty (get_sha256 paths files d.path))
            (λ c v. ground (arith, v))
            (λ c.
              follow_ends n d (state rest visited first fingerprint) b (ground (arith, h)) loop _
                refl))
        u

  -- The rounds suffice: whatever files there are, and whatever they import, also each other, the
  -- loop ends with a fingerprint or an error.
  pub append_dependencies_ends :
      (source_path : Bytes) → append_dependencies paths files source_path ≢ unfinished
  unfolding append_dependencies potential contains
  append_dependencies_ends source_path =
      walk_ends (all_mentions files + 2)
        (record { path = paths.simplify_path source_path; is_import = true } ∷ []) [] true []
        (ground (arith, fresh_all files))
