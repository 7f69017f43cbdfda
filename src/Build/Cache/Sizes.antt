-- ===== src/Build/Cache/Sizes.antt =====
-- How many files `finish` of src/gz_build_manager.cpp leaves.
use gzscript.Base.{
  ◌+◌, ◌≤◌, ◌<◌, ◌≡◌, ◌∙◌, refl, ap, Bool, true, false, not, [], ◌∷◌, ◌++◌, Bytes, ◌===◌, ===_iff,
  Option, none, some, is_empty, length, arith, if_both, if_cases, Bool-cases, ◌⊎◌, inl, inr,
}
use gzscript.Base.Assoc.{lookup, update, erase, lookup-erase}
use gzscript.Build.Queue.{CompilePlan}
use gzscript.Build.Cache.{
  Files, LoadResult, loaded, load_error, Disk, cache_stamp_matches, stamp_matches, left_over,
  after_write, write_text, after_rename, atomic_replace, replace_written, hash_of, write_stamp,
  publish, Finished, load_published, load_or_fail, finish_compile,
}

pub length-erase : (k : Bytes) (files : Files) → length (erase k files) ≤ length files
unfolding erase
length-erase k [] = ground arith
length-erase k ((j, v) ∷ files) = ground (arith, length-erase k files)

length-update : (k v : Bytes) (files : Files) → length (update k v files) ≤ length files + 1
unfolding update
length-update k v [] = ground arith
length-update k v ((j, w) ∷ files) = ground (arith, length-update k v files)

length-erase_less :
    (k v : Bytes) (files : Files) → lookup k files ≡ some v → length (erase k files) < length files
unfolding erase lookup
length-erase_less k v [] e = ground (arith, e)
length-erase_less k v ((j, w) ∷ files) e =
    ground (arith, e, length-erase k files, length-erase_less k v files)

-- A file that is there, when others are erased before it.
erase_other :
    (k j v : Bytes) (files : Files)
    → lookup k files ≡ some v
    → (length (erase j files) < length files) ⊎ (lookup k (erase j files) ≡ some v)
erase_other k j v files e = elim (Bool-cases (j === k)) [
  | inl same ↦
      inl (length-erase_less j v files (ap (λ i. lookup i files) ((===_iff j k).0 same) ∙ e))
  | inr other ↦ inr (lookup-erase j k files ∙ ground (arith, other, e))
]

erase_two :
    (k j v : Bytes) (files : Files)
    → lookup k files ≡ some v
    → length (erase k (erase j files)) < length files
erase_two k j v files e = elim (erase_other k j v files e) [
  | inl less ↦ ground (arith, less, length-erase k (erase j files))
  | inr there ↦ ground (arith, length-erase j files, length-erase_less k v (erase j files) there)
]

module _ {M : Type 0} (disk : Disk M) where
  length-left_over :
      (path : Bytes) (left : Option Bytes) (files : Files)
      → length (left_over disk path left files) ≤ length files + 1
  length-left_over path none files = ground arith
  length-left_over path (some content) files = length-update path content files

  length-after_write :
      (path contents : Bytes) (fault : Option (Option Bytes)) (files : Files)
      → length (after_write disk path contents fault files).1 ≤ length files + 1
  length-after_write path contents none files = length-update path contents files
  length-after_write path contents (some left) files = length-left_over path left files

  pub length-write_text :
      (path contents : Bytes) (files : Files)
      → length (write_text disk path contents files).1 ≤ length files + 1
  unfolding write_text
  length-write_text path contents files =
      length-after_write path contents (disk.write_fault path) files

  length-after_rename :
      (source destination : Bytes) (found : Option Bytes) (files : Files)
      → length (after_rename disk source destination found files).1 ≤ length files + 1
  length-after_rename source destination none files = ground arith
  length-after_rename source destination (some content) files =
      ground
        (arith, length-update destination content (erase source files), length-erase source files)

  length-replace_written :
      (source destination : Bytes) (written : Bool × Files)
      → length (replace_written disk source destination written).1 ≤ length written.1 + 1
  unfolding atomic_replace
  length-replace_written source destination (false, files) = ground arith
  length-replace_written source destination (true, files) =
      if_both (λ (q : Bool × Files). length q.1 ≤ length files + 1) (disk.rename_fails source)
        (ground arith) (length-after_rename source destination (lookup source files) files)

  length-write_stamp :
      (plan : CompilePlan) (files : Files) → length (write_stamp disk plan files) ≤ length files + 2
  unfolding write_stamp
  length-write_stamp plan files =
      let written =
        write_text disk plan.stamp_output
          (plan.source_hash ++ 10 ∷ (hash_of disk (lookup plan.output files) ++ 10 ∷ [])) files in
      ground (
        arith,
        length-erase plan.stamp_output
            (replace_written disk plan.stamp_output plan.hash_path written).1,
        length-replace_written plan.stamp_output plan.hash_path written,
        length-write_text plan.stamp_output
            (plan.source_hash ++ 10 ∷ (hash_of disk (lookup plan.output files) ++ 10 ∷ [])) files,
      )

  -- A module that loads adds its stamp; one that does not is taken out.
  abbrev pub Shrinks : Finished disk → Files → Type 0
  Shrinks f files =
      (length f.files ≤ length files + 2) × (f.compiled ≡ none → length f.files < length files)

  -- The module's file is there, or files were taken out before.
  abbrev Remains : CompilePlan → Files → Files → Type 0
  Remains plan files0 files =
      (length files < length files0)
      ⊎ ((length files ≤ length files0)
          × ((content : Bytes) × (lookup plan.output files ≡ some content)))

  not_longer :
      (plan : CompilePlan) (files0 files : Files)
      → Remains plan files0 files
      → length files ≤ length files0
  not_longer plan files0 files (inl less) = ground (arith, less)
  not_longer plan files0 files (inr (le, rest)) = le

  erase-Remains :
      (plan : CompilePlan) (path : Bytes) (files0 files : Files)
      → Remains plan files0 files
      → Remains plan files0 (erase path files)
  erase-Remains plan path files0 files (inl less) =
      inl (ground (arith, less, length-erase path files))
  erase-Remains plan path files0 files (inr (le, (content, e))) =
      elim (erase_other plan.output path content files e) [
        | inl less ↦ inl (ground (arith, le, less))
        | inr there ↦ inr (ground (arith, le, length-erase path files), (content, there))
      ]

  erase_output :
      (plan : CompilePlan) (files0 files : Files)
      → Remains plan files0 files
      → length (erase plan.output files) < length files0
  erase_output plan files0 files (inl less) = ground (arith, less, length-erase plan.output files)
  erase_output plan files0 files (inr (le, (content, e))) =
      ground (arith, le, length-erase_less plan.output content files e)

  load_published-Shrinks :
      (plan : CompilePlan) (files0 files : Files) (result : LoadResult M)
      → Remains plan files0 files
      → Shrinks (load_published disk plan files result) files0
  load_published-Shrinks plan files0 files (load_error text) h =
      let less =
        erase_output plan files0 (erase plan.compile_output files)
          (erase-Remains plan plan.compile_output files0 files h) in
      (ground (arith, less), λ x. less)
  load_published-Shrinks plan files0 files (loaded found) h =
      let le = not_longer plan files0 files h in
      (
        if_both (λ q. length q ≤ length files0 + 2) (is_empty plan.source_hash)
            {x = erase plan.compile_output files}
            {y = write_stamp disk plan (erase plan.compile_output files)}
            (ground (arith, le, length-erase plan.compile_output files))
            (ground (
              arith,
              le,
              length-erase plan.compile_output files,
              length-write_stamp plan (erase plan.compile_output files),
            )),
        λ x. ground (arith, x),
      )

  -- `finish` on what the cache has.
  pub finish_cached-Shrinks :
      (plan : CompilePlan) (content : Bytes) (files : Files)
      → plan.needs_compile ≡ false
      → lookup plan.output files ≡ some content
      → Shrinks (finish_compile disk plan 0 [] files) files
  unfolding finish_compile publish
  finish_cached-Shrinks plan content files needed e =
      let clean = erase plan.stamp_output (erase plan.generated files) in
      let there =
        erase-Remains plan plan.stamp_output files (erase plan.generated files)
          (erase-Remains plan plan.generated files files (inr (ground arith, (content, e)))) in
      if_cases (λ (q : Bool × Files). Shrinks (load_or_fail disk plan q) files)
        (not plan.needs_compile) (λ b. load_published-Shrinks plan files clean _ there)
        (λ b. ground (arith, b, needed))

  pub cache_stamp_matches-output :
      (plan : CompilePlan) (files : Files)
      → cache_stamp_matches disk plan.output plan.hash_path plan.source_hash files ≡ true
      → (content : Bytes) × (lookup plan.output files ≡ some content)
  unfolding cache_stamp_matches
  cache_stamp_matches-output plan files =
      found (lookup plan.output files) (lookup plan.hash_path files)
    where
      found :
          (output stamp : Option Bytes)
          → stamp_matches disk output stamp plan.source_hash ≡ true
          → (content : Bytes) × (output ≡ some content)
      found none stamp e = ground (arith, e)
      found (some content) stamp e = (content, refl)
