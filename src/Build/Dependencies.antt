-- ===== src/Build/Dependencies.antt =====
-- What a compilation depends on beyond its own source, in src/gz_build_manager.cpp:
-- `append_dependencies` follows imports from file to file, `append_source_tree` takes all files of a
-- directory. Files are a map from paths to contents.
pub mod Pushed
pub mod Depends
pub mod Cover
pub mod Rounds
use gzscript.Base.{
  ℕ, zero, suc, ◌+◌, ◌==◌, if◌then◌else◌, Bool, true, false, not, ◌&&◌, ◌||◌, List, [], ◌∷◌, ◌++◌,
  Bytes, ◌===◌, codes, Option, none, some, length, is_empty,
}
use gzscript.Base.Assoc.{contains, lookup}
use gzscript.Base.Sort.{any}
use gzscript.Build.Sources.{SourceDependency, source_dependencies}
use gzscript.Build.Identity.{append_identity}
use gzscript.Build.Cache.{Files}

-- Godot's functions on paths, and the text of a SHA-256.
pub record Paths : Type 0 where
  pub simplify_path : Bytes → Bytes
  pub base_dir : Bytes → Bytes
  pub extension : Bytes → Bytes
  pub path_join : Bytes → Bytes → Bytes
  pub sha256 : Bytes → Bytes

unfoldable pub visit_key : SourceDependency → Bytes
visit_key d = d.path ++ (if d.is_import then codes "#import" else codes "#embed")

-- The state of the loop; the last pending one comes first.
pub record Walk : Type 0 where
  pub pending : List SourceDependency
  pub visited : List Bytes
  pub first : Bool
  pub fingerprint : Bytes

-- How the loop ends: with a fingerprint, with `false` and an error or none, or for want of rounds.
pub data Walked : Type 0 where
  walked : Bytes → Walked
  refused : Bytes → Walked
  unfinished : Walked

abbrev pub or_empty : Option Bytes → Bytes
or_empty none = []
or_empty (some text) = text

-- How many rounds there are at most: one for the source and one for each mention of a file.
unfoldable pub mentions : Bytes → ℕ
unfolding source_dependencies
mentions text = elim (source_dependencies text) [ none ↦ 0 | some ds ↦ length ds ]

unfoldable pub all_mentions : Files → ℕ
unfolding mentions
all_mentions [] = 0
all_mentions ((path, text) ∷ rest) = mentions text + all_mentions rest

module _ (paths : Paths) (files : Files) where
  abbrev file_hash : Option Bytes → Bytes
  file_hash none = []
  file_hash (some content) = paths.sha256 content

  -- `FileAccess::get_sha256`
  abbrev pub get_sha256 : Bytes → Bytes
  get_sha256 path = file_hash (lookup path files)

  -- `FileAccess::get_file_as_string`
  abbrev pub get_text : Bytes → Bytes
  get_text path = or_empty (lookup path files)

  -- An import that names no file is a module of the compiler.
  unfoldable pub names_file : SourceDependency → Bool
  names_file d = not (
      d.is_import
      && (not (any (λ c. c == 47) d.path) && not (paths.extension d.path === codes "zig")))

  abbrev pub resolve_mention : Bytes → SourceDependency → SourceDependency
  resolve_mention path d = record {
    path = paths.simplify_path (paths.path_join (paths.base_dir path) d.path);
    is_import = d.is_import;
  }

  -- The loop over what a file at this path depends on.
  unfoldable pub push_all :
      Bytes → List SourceDependency → List SourceDependency → List SourceDependency
  unfolding names_file
  push_all path [] pending = pending
  push_all path (d ∷ ds) pending =
      push_all path ds (if names_file d then resolve_mention path d ∷ pending else pending)

  abbrev pub missing : Bytes → Bytes
  missing path = codes "Unable to fingerprint Zig dependency: " ++ path

  -- A file is hashed, unless it is the one that is compiled.
  abbrev pub add_hash : SourceDependency → Walk → Walk
  add_hash d s = record s {
    visited = visit_key d ∷ s.visited;
    first = false;
    fingerprint =
        if s.first then s.fingerprint else append_identity s.fingerprint d.path (get_sha256 d.path);
  }

  abbrev pub push_found : Bytes → Option (List SourceDependency) → Walk → Option Walk
  push_found path none s = none
  push_found path (some ds) s = some (record s { pending = push_all path ds s.pending })

  -- What a file that is imported depends on.
  unfoldable pub follow : SourceDependency → Walk → Option Walk
  unfolding source_dependencies push_all
  follow d s =
      if d.is_import then push_found d.path (source_dependencies (get_text d.path)) s else some s

  unfoldable pub walk_files : ℕ → Walk → Walked
  unfolding visit_key follow append_identity contains
  walk_files zero s = unfinished
  walk_files (suc rounds) s = elim s.pending [
    | [] ↦ walked s.fingerprint
    | d ∷ rest ↦
        let popped = record s { pending = rest } in
        elim (contains (visit_key d) s.visited) [
          | true ↦ walk_files rounds popped
          | false ↦ elim (not s.first && is_empty (get_sha256 d.path)) [
            | true ↦ refused (missing d.path)
            | false ↦ elim (follow d (add_hash d popped)) [
              | none ↦ refused []
              | some next ↦ walk_files rounds next
            ]
          ]
        ]
  ]

  abbrev pub walk_from : Bytes → Walk
  walk_from source_path = record {
    pending = record { path = paths.simplify_path source_path; is_import = true } ∷ [];
    visited = [];
    first = true;
    fingerprint = [];
  }

  unfoldable pub append_dependencies : Bytes → Walked
  unfolding walk_files all_mentions
  append_dependencies source_path = walk_files (all_mentions files + 2) (walk_from source_path)
