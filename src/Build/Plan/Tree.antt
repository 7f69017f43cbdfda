-- ===== src/Build/Plan/Tree.antt =====
-- `append_source_tree` of src/gz_build_manager.cpp: the fingerprint of all files of a directory.
use gzscript.Base.{
  if◌then◌else◌, Bool, true, false, not, ◌&&◌, ◌||◌, List, [], ◌∷◌, ◌++◌, Bytes, ◌===◌, codes,
  is_empty,
}
use gzscript.Build.Identity.{append_identity}
use gzscript.Build.Cache.{Files}
use gzscript.Build.Dependencies.{Paths, get_sha256}

-- A directory that cannot be opened, or one with its files and its directories, both in the order
-- that `sort` gives.
mutual
  pub data Directory : Type 0 where
    closed : Directory
    directory : List Bytes → Directories → Directory

  pub data Directories : Type 0 where
    no_more : Directories
    child : Bytes → Directory → Directories → Directories

-- `true` and the fingerprint, or `false` and the error.
pub data Treed : Type 0 where
  hashed : Bytes → Treed
  unreadable : Bytes → Treed

module _ (paths : Paths) (files : Files) (root : Bytes) (include_non_zig : Bool) where
  abbrev pub child_path : Bytes → Bytes → Bytes
  child_path relative name = if is_empty relative then name else paths.path_join relative name

  abbrev pub skips_file : Bytes → Bool
  skips_file file =
      (file === codes ".DS_Store" || paths.extension file === codes "uid")
      || (not include_non_zig && not (paths.extension file === codes "zig"))

  abbrev pub skips_directory : Bytes → Bool
  skips_directory name =
      (name === codes ".git" || name === codes ".godot")
      || (name === codes ".zig-cache" || name === codes "zig-out")

  unfoldable pub append_files : Bytes → List Bytes → Bytes → Treed
  unfolding append_identity
  append_files relative [] fingerprint = hashed fingerprint
  append_files relative (file ∷ rest) fingerprint =
      let path = child_path relative file in
      let hash = get_sha256 paths files (paths.path_join root path) in
      elim (skips_file file) [
        | true ↦ append_files relative rest fingerprint
        | false ↦ elim (is_empty hash) [
          | true ↦
              unreadable (codes "Unable to fingerprint Zig source: " ++ paths.path_join root path)
          | false ↦ append_files relative rest (append_identity fingerprint path hash)
        ]
      ]

  unfoldable mutual
    unfolding append_files

    pub append_source_tree : Directory → Bytes → Bytes → Treed
    append_source_tree closed relative fingerprint = unreadable (
        codes "Unable to read Zig source directory: "
        ++ (if is_empty relative then root else paths.path_join root relative))
    append_source_tree (directory names children) relative fingerprint =
        elim (append_files relative names fingerprint) [
          | unreadable text ↦ unreadable text
          | hashed next ↦ append_directories children relative next
        ]

    pub append_directories : Directories → Bytes → Bytes → Treed
    append_directories no_more relative fingerprint = hashed fingerprint
    append_directories (child name inner rest) relative fingerprint = elim (skips_directory name) [
      | true ↦ append_directories rest relative fingerprint
      | false ↦ elim (append_source_tree inner (child_path relative name) fingerprint) [
        | unreadable text ↦ unreadable text
        | hashed next ↦ append_directories rest relative next
      ]
    ]
