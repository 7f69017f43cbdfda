-- ===== src/Build/Cache.antt =====
-- How src/gz_build_manager.cpp publishes a compiled module and stamps it (`finish`,
-- `cache_stamp_matches`, `write_text`), on a file system that is a map from paths to contents.
pub mod Stamp
pub mod Sizes
use gzscript.Base.{
  ℕ, ◌==◌, if◌then◌else◌, Bool, true, false, not, ◌&&◌, ◌||◌, List, [], ◌∷◌, ◌++◌, Bytes, ◌===◌,
  codes, Option, none, some, is_empty, is_none,
}
use gzscript.Base.Assoc.{lookup, update, erase}
use gzscript.Lsp.Frame.{to_string}
use gzscript.Build.Queue.{CompilePlan}

abbrev pub Files : Type 0
Files = List (Bytes × Bytes)

-- What `GzCompiledModule::load` makes of a path (Compiled/Load.antt has its parts).
pub data LoadResult (M : Type 0) : Type 0 where
  loaded : M → LoadResult M
  load_error : Bytes → LoadResult M

-- What the system does: the hash of a file's content, the file that a failed `store_string` leaves,
-- whether `rename` fails, and `strip_edges`.
pub record Disk (M : Type 0) : Type 0 where
  pub sha256 : Bytes → Bytes
  pub write_fault : Bytes → Option (Option Bytes)
  pub rename_fails : Bytes → Bool
  pub strip_edges : Bytes → Bytes
  pub load : Bytes → Option Bytes → LoadResult M

-- `split("\n", false)`, with the line that is being read.
unfoldable pub split_from : Bytes → Bytes → List Bytes
split_from line [] = if is_empty line then [] else line ∷ []
split_from line (c ∷ text) =
    let rest = split_from [] text in
    let longer = split_from (line ++ c ∷ []) text in
    if c == 10 then (if is_empty line then rest else line ∷ rest) else longer

abbrev pub is_stamp : List Bytes → Bytes → Bytes → Bool
is_stamp (hash ∷ (sum ∷ [])) source_hash content_hash = hash === source_hash && sum === content_hash
is_stamp _ source_hash content_hash = false

module _ {M : Type 0} (disk : Disk M) where
  abbrev pub stamp_matches : Option Bytes → Option Bytes → Bytes → Bool
  stamp_matches none _ source_hash = false
  stamp_matches (some _) none source_hash = false
  stamp_matches (some content) (some stamp) source_hash =
      is_stamp (split_from [] stamp) source_hash (disk.sha256 content)

  unfoldable pub cache_stamp_matches : Bytes → Bytes → Bytes → Files → Bool
  unfolding split_from
  cache_stamp_matches output stamp_path source_hash files =
      stamp_matches (lookup output files) (lookup stamp_path files) source_hash

  abbrev pub left_over : Bytes → Option Bytes → Files → Files
  left_over path none files = files
  left_over path (some content) files = update path content files

  abbrev pub after_write : Bytes → Bytes → Option (Option Bytes) → Files → Bool × Files
  after_write path contents none files = (true, update path contents files)
  after_write path contents (some left) files = (false, left_over path left files)

  unfoldable pub write_text : Bytes → Bytes → Files → Bool × Files
  write_text path contents files = after_write path contents (disk.write_fault path) files

  abbrev pub after_rename : Bytes → Bytes → Option Bytes → Files → Bool × Files
  after_rename source destination none files = (false, files)
  after_rename source destination (some content) files =
      (true, update destination content (erase source files))

  -- `gz_atomic_replace`, of src/gz_file_utils.cpp, by `rename`.
  unfoldable pub atomic_replace : Bytes → Bytes → Files → Bool × Files
  atomic_replace source destination files =
      if disk.rename_fails source
      then (false, files)
      else after_rename source destination (lookup source files) files

  abbrev pub replace_written : Bytes → Bytes → Bool × Files → Bool × Files
  replace_written source destination (false, files) = (false, files)
  replace_written source destination (true, files) = atomic_replace source destination files

  -- `get_sha256`
  abbrev pub hash_of : Option Bytes → Bytes
  hash_of none = []
  hash_of (some content) = disk.sha256 content

  -- The stamp is written to a file of its own, which then takes the place of the old one.
  unfoldable pub write_stamp : CompilePlan → Files → Files
  unfolding write_text atomic_replace
  write_stamp plan files =
      let stamp = plan.source_hash ++ 10 ∷ (hash_of (lookup plan.output files) ++ 10 ∷ []) in
      erase plan.stamp_output
        (replace_written plan.stamp_output plan.hash_path
          (write_text plan.stamp_output stamp files)).1

  unfoldable pub publish : CompilePlan → Files → Bool × Files
  unfolding cache_stamp_matches atomic_replace
  publish plan files =
      if not plan.needs_compile
      then (true, files)
      else if cache_stamp_matches plan.output plan.hash_path plan.source_hash files
      then (true, erase plan.compile_output files)
      else atomic_replace plan.compile_output plan.output files

  pub record Finished : Type 0 where
    pub compiled : Option M
    pub files : Files
    pub diagnostics : Bytes

  abbrev pub load_published : CompilePlan → Files → LoadResult M → Finished
  load_published plan files (load_error text) = record {
    compiled = none;
    files = erase plan.output (erase plan.compile_output files);
    diagnostics = text;
  }
  load_published plan files (loaded found) =
      let clean = erase plan.compile_output files in
      record {
        compiled = some found;
        files = if is_empty plan.source_hash then clean else write_stamp plan clean;
        diagnostics = [];
      }

  abbrev pub load_or_fail : CompilePlan → Bool × Files → Finished
  load_or_fail plan (false, files) = record {
    compiled = none;
    files = erase plan.compile_output files;
    diagnostics =
        codes "Failed to publish compiled module " ++ (plan.output ++ codes " (Error 20)");
  }
  load_or_fail plan (true, files) =
      load_published plan files (disk.load plan.output (lookup plan.output files))

  -- `finish`; the exit code is not negative.
  unfoldable pub finish_compile : CompilePlan → ℕ → Bytes → Files → Finished
  unfolding publish write_stamp to_string
  finish_compile plan exit_code compiler_output files0 =
      let files = erase plan.stamp_output (erase plan.generated files0) in
      let output = disk.strip_edges compiler_output in
      if not (exit_code == 0)
      then record {
        compiled = none;
        files = erase plan.compile_output files;
        diagnostics =
            codes "Compilation failed for "
            ++ (plan.resource_path
                ++ (codes " (exit "
                    ++ (to_string exit_code
                        ++ (codes ")" ++ (if is_empty output then [] else 10 ∷ output)))));
      }
      else load_or_fail plan (publish plan files)
