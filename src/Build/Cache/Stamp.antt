-- ===== src/Build/Cache/Stamp.antt =====
-- After `finish` of src/gz_build_manager.cpp has loaded a module, the cache has it.
use gzscript.Base.{
  ◌≡◌, ◌∙◌, refl, sym, ap, subst, append_nil, ◌==◌, Bool, true, false, [], ◌∷◌, ◌++◌, Bytes, ◌===◌,
  ===_refl, Option, none, some, is_empty, All, arith,
}
use gzscript.Base.Assoc.{lookup, update, erase, lookup-update, lookup-erase}
use gzscript.Lsp.Frame.RoundTrip.{append_assoc_bytes}
use gzscript.Build.Queue.{CompilePlan}
use gzscript.Build.Cache.{
  Files, LoadResult, loaded, load_error, Disk, split_from, cache_stamp_matches, write_text,
  atomic_replace, write_stamp, publish, Finished, load_published, load_or_fail, finish_compile,
}

-- A line that can stand in a stamp.
pub record IsLine (line : Bytes) : Type 0 where
  pub filled : is_empty line ≡ false
  pub plain : All (λ c. (c == 10) ≡ false) line

-- The files of a plan that must not be the same.
pub record IsSeparate (plan : CompilePlan) : Type 0 where
  pub stamp_hash : (plan.stamp_output === plan.hash_path) ≡ false
  pub stamp_output : (plan.stamp_output === plan.output) ≡ false
  pub hash_output : (plan.hash_path === plan.output) ≡ false
  pub compile_output : (plan.compile_output === plan.output) ≡ false

split_from-line :
    (line text rest : Bytes)
    → is_empty (line ++ text) ≡ false
    → All (λ c. (c == 10) ≡ false) text
    → split_from line (text ++ 10 ∷ rest) ≡ (line ++ text) ∷ split_from [] rest
unfolding split_from
split_from-line [] [] rest f h = ground arith
split_from-line (c ∷ line) [] rest f h =
    ap (λ l. (c ∷ l) ∷ split_from [] rest) (sym (append_nil line))
split_from-line line (c ∷ text) rest f h =
    let same = append_assoc_bytes line (c ∷ []) text in
    let filled = subst (λ l. is_empty l ≡ false) (sym same) f in
    let later = split_from-line (line ++ c ∷ []) text rest filled h.1 in
    ground (arith, later ∙ ap (λ l. l ∷ split_from [] rest) same)

split_from-stamp :
    (hash sum : Bytes)
    → IsLine hash
    → IsLine sum
    → split_from [] (hash ++ 10 ∷ (sum ++ 10 ∷ [])) ≡ hash ∷ (sum ∷ [])
split_from-stamp hash sum h k =
    split_from-line [] hash (sum ++ 10 ∷ []) h.filled h.plain
    ∙ ap (λ ls. hash ∷ ls)
        (split_from-line [] sum [] k.filled k.plain ∙ (unfold split_from in refl))

module _ {M : Type 0} (disk : Disk M) (plan : CompilePlan) where
  -- The file system after a stamp that is written without a fault.
  abbrev stamped : Bytes → Files → Files
  stamped stamp files =
      erase plan.stamp_output (
        update plan.hash_path stamp
          (erase plan.stamp_output (update plan.stamp_output stamp files)))

  write_stamp-stamped :
      (content : Bytes) (files : Files)
      → disk.write_fault plan.stamp_output ≡ none
      → disk.rename_fails plan.stamp_output ≡ false
      → lookup plan.output files ≡ some content
      → write_stamp disk plan files
        ≡ stamped (plan.source_hash ++ 10 ∷ (disk.sha256 content ++ 10 ∷ [])) files
  unfolding write_stamp write_text atomic_replace
  write_stamp-stamped content files writes renames found =
      let stamp = plan.source_hash ++ 10 ∷ (disk.sha256 content ++ 10 ∷ []) in
      let back = lookup-update plan.stamp_output plan.stamp_output stamp files in
      ground (arith, found, writes, renames, back, ===_refl plan.stamp_output)

  stamped-hash :
      (stamp : Bytes) (files : Files)
      → IsSeparate plan
      → lookup plan.hash_path (stamped stamp files) ≡ some stamp
  stamped-hash stamp files apart =
      let f = erase plan.stamp_output (update plan.stamp_output stamp files) in
      ground (
        arith,
        apart.stamp_hash,
        ===_refl plan.hash_path,
        lookup-erase plan.stamp_output plan.hash_path (update plan.hash_path stamp f),
        lookup-update plan.hash_path plan.hash_path stamp f,
      )

  stamped-output :
      (stamp : Bytes) (files : Files)
      → IsSeparate plan
      → lookup plan.output (stamped stamp files) ≡ lookup plan.output files
  stamped-output stamp files apart =
      let f = update plan.stamp_output stamp files in
      ground (
        arith,
        apart.stamp_output,
        apart.hash_output,
        lookup-erase plan.stamp_output plan.output
            (update plan.hash_path stamp (erase plan.stamp_output f)),
        lookup-update plan.hash_path plan.output stamp (erase plan.stamp_output f),
        lookup-erase plan.stamp_output plan.output f,
        lookup-update plan.stamp_output plan.output stamp files,
      )

  -- A stamp that is written without a fault is the one that is looked for.
  cache_stamp_matches-write_stamp :
      (content : Bytes) (files : Files)
      → IsSeparate plan
      → IsLine plan.source_hash
      → IsLine (disk.sha256 content)
      → disk.write_fault plan.stamp_output ≡ none
      → disk.rename_fails plan.stamp_output ≡ false
      → lookup plan.output files ≡ some content
      → cache_stamp_matches disk plan.output plan.hash_path plan.source_hash
          (write_stamp disk plan files)
        ≡ true
  unfolding cache_stamp_matches
  cache_stamp_matches-write_stamp content files apart hash sum writes renames found =
      let stamp = plan.source_hash ++ 10 ∷ (disk.sha256 content ++ 10 ∷ []) in
      rw
        (
          write_stamp-stamped content files writes renames found,
          stamped-hash stamp files apart,
          stamped-output stamp files apart,
          found,
          split_from-stamp plan.source_hash (disk.sha256 content) hash sum,
          ===_refl plan.source_hash,
          ===_refl (disk.sha256 content),
        )
        refl

  -- When `finish` gives a module, and its stamp is written without a fault, the cache has the
  -- module under its hash, so that the same inputs are not compiled again. The paths of the plan
  -- are different ones, hashes are lines of text, and only a file that is there can be loaded.
  pub cache_stamp_matches-finish_compile :
      (compiler_output : Bytes) (files : Files) (found : M)
      → IsSeparate plan
      → IsLine plan.source_hash
      → ((content : Bytes) → IsLine (disk.sha256 content))
      → ((path : Bytes) → (text : Bytes) × (disk.load path none ≡ load_error text))
      → disk.write_fault plan.stamp_output ≡ none
      → disk.rename_fails plan.stamp_output ≡ false
      → (finish_compile disk plan 0 compiler_output files).compiled ≡ some found
      → cache_stamp_matches disk plan.output plan.hash_path plan.source_hash
          (finish_compile disk plan 0 compiler_output files).files
        ≡ true
  unfolding finish_compile
  cache_stamp_matches-finish_compile compiler_output files found apart hash sums needs writes
        renames e =
      from_published (publish disk plan (erase plan.stamp_output (erase plan.generated files))) e
    where
      Cached : Finished disk → Type 0
      Cached f =
          f.compiled ≡ some found
          → cache_stamp_matches disk plan.output plan.hash_path plan.source_hash f.files ≡ true

      from_loaded :
          (files : Files) (o : Option Bytes) (r : LoadResult M)
          → lookup plan.output files ≡ o
          → disk.load plan.output o ≡ r
          → Cached (load_published disk plan files r)
      from_loaded files o (load_error text) at l k = ground arith
      from_loaded files none (loaded m) at l k =
          let (text, bad) = needs plan.output in ground (arith, bad, l)
      from_loaded files (some content) (loaded m) at l k =
          let kept : lookup plan.output (erase plan.compile_output files) ≡ some content =
            ground (
              arith,
              at,
              apart.compile_output,
              lookup-erase plan.compile_output plan.output files,
            ) in
          let cached =
            cache_stamp_matches-write_stamp content (erase plan.compile_output files) apart hash
              (sums content) writes renames kept in
          ground (arith, hash.filled, cached)

      from_published : (r : Bool × Files) → Cached (load_or_fail disk plan r)
      from_published (false, files) k = ground arith
      from_published (true, files) k = from_loaded files (lookup plan.output files) _ refl refl k
