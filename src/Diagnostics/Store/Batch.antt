-- ===== src/Diagnostics/Store/Batch.antt =====
-- `normalize_range` and `normalize_batch` of src/diagnostics/gz_diagnostic_store.cpp, and what
-- every stored batch is.
use gzscript.Base.{
  ℕ, ◌+◌, ◌*◌, ◌^◌, ◌≡◌, refl, ap, ◌∙◌, Bool, true, false, ◌||◌, ◌&&◌, not, List, [], ◌∷◌, Bytes,
  is_empty, ltb, if◌then◌else◌, All, arith, ◌===◌, ===_refl,
}
use gzscript.Base.Sort.{
  Sorter, unique, IsSorted, NoRepeat, unique-NoRepeat, unique-IsSorted, unique-All, any,
  any-of_count-eq, any-unique, All-of_any-not, any-not_of_All,
}
use gzscript.Diagnostics.Model.{
  Source, Position, Range, Diagnostic, diagnostic_equal, diagnostic_less, source_name,
}
use gzscript.Diagnostics.Model.Ordering.{diagnostic_equal_iff}

-- `(line << 32) | column`, for a column below 2 ^ 32.
abbrev pub packed : Position → ℕ
packed p = p.line * 2 ^ 32 + p.column

-- A range that ends before it starts becomes a point; the flag says so.
unfoldable pub normalize_range : Range → Range × Bool
normalize_range range =
    if ltb (packed range.end) (packed range.start)
    then (record range { end = range.start }, true)
    else (range, false)

-- The body of the loop of `normalize_batch`.
unfoldable pub normalize_entry : Bytes → Diagnostic → Diagnostic
unfolding normalize_range source_name
normalize_entry document_key d = record d {
  document_path = document_key;
  range = (normalize_range d.range).0;
  origin =
      if is_empty d.origin.name
      then record d.origin { name = source_name d.origin.kind }
      else d.origin;
}

-- The loop over the batch: the entries, and how many ranges were turned into points.
unfoldable pub normalize_entries : Bytes → List Diagnostic → List Diagnostic × ℕ
unfolding normalize_entry
normalize_entries document_key [] = ([], 0)
normalize_entries document_key (d ∷ ds) =
    let (rest, count) = normalize_entries document_key ds in
    (
      normalize_entry document_key d ∷ rest,
      if (normalize_range d.range).1 then count + 1 else count,
    )

module _ (sorter : Sorter diagnostic_less) where
  unfoldable pub normalize_batch : Bytes → List Diagnostic → List Diagnostic × ℕ
  unfolding normalize_entries unique
  normalize_batch document_key diagnostics =
      let (entries, count) = normalize_entries document_key diagnostics in
      (unique diagnostic_equal (sorter.sort entries), count)

-- An entry as the store keeps it: under the key of its document, with a range that does not end
-- before it starts, and a producer's name.
abbrev pub is_stored : Bytes → Diagnostic → Bool
is_stored document_key d =
    (d.document_path === document_key)
    && (not (ltb (packed d.range.end) (packed d.range.start)) && not (is_empty d.origin.name))

-- A batch as the store keeps it.
pub record IsBatch (document_key : Bytes) (ds : List Diagnostic) : Type 0 where
  pub sorted : IsSorted diagnostic_less ds
  pub no_repeat : NoRepeat diagnostic_equal ds
  pub stored : All (λ d. is_stored document_key d ≡ true) ds

source_name_nonempty : (s : Source) → is_empty (source_name s) ≡ false
unfolding source_name
source_name_nonempty s = ground arith

normalize_entry-stored :
    (document_key : Bytes) (d : Diagnostic)
    → is_stored document_key (normalize_entry document_key d) ≡ true
unfolding normalize_entry
normalize_entry-stored document_key d =
    ground (arith, ===_refl document_key, source_name_nonempty d.origin.kind)

normalize_entries-stored :
    (document_key : Bytes) (ds : List Diagnostic)
    → All (λ d. is_stored document_key d ≡ true) (normalize_entries document_key ds).0
unfolding normalize_entries
normalize_entries-stored document_key [] = tt
normalize_entries-stored document_key (d ∷ ds) =
    (normalize_entry-stored document_key d, normalize_entries-stored document_key ds)

any-normalize_entries :
    (p : Diagnostic → Bool) (document_key : Bytes) (ds : List Diagnostic)
    → any p (normalize_entries document_key ds).0 ≡ any (λ d. p (normalize_entry document_key d)) ds
unfolding any normalize_entries
any-normalize_entries p document_key [] = refl
any-normalize_entries p document_key (d ∷ ds) =
    ap (λ b. p (normalize_entry document_key d) || b) (any-normalize_entries p document_key ds)

diagnostic_equal_sound : (a b : Diagnostic) → diagnostic_equal a b ≡ true → a ≡ b
diagnostic_equal_sound a b = (diagnostic_equal_iff a b).0

module _ (sorter : Sorter diagnostic_less) (document_key : Bytes) (ds : List Diagnostic) where
  -- Whatever `std::sort` does with ties, a normalized batch is sorted, holds no two equal
  -- neighbours, and only entries in stored form.
  pub normalize_batch-IsBatch : IsBatch document_key (normalize_batch sorter document_key ds).0
  unfolding normalize_batch
  normalize_batch-IsBatch = record {
    sorted = unique-IsSorted diagnostic_equal diagnostic_less _ (sorter.sorts entries);
    no_repeat = unique-NoRepeat diagnostic_equal (sorter.sort entries);
    stored = unique-All diagnostic_equal _ (sorter.sort entries) (
        All-of_any-not (is_stored document_key) (sorter.sort entries) (
          any-of_count-eq (λ d. not (is_stored document_key d)) _ _
            (sorter.permutes (λ d. not (is_stored document_key d)) entries)
          ∙ any-not_of_All (is_stored document_key) entries
              (normalize_entries-stored document_key ds)));
  }
    where
      entries : List Diagnostic
      entries = (normalize_entries document_key ds).0

  -- A test holds of some entry of the normalized batch exactly if it holds of some entry of the
  -- batch after the loop: sorting and `unique` lose no diagnostic and add none.
  pub any-normalize_batch :
      (p : Diagnostic → Bool)
      → any p (normalize_batch sorter document_key ds).0
        ≡ any (λ d. p (normalize_entry document_key d)) ds
  unfolding normalize_batch
  any-normalize_batch p =
      any-unique diagnostic_equal diagnostic_equal_sound p (sorter.sort entries)
      ∙ (any-of_count-eq p _ _ (sorter.permutes p entries)
          ∙ any-normalize_entries p document_key ds)
    where
      entries : List Diagnostic
      entries = (normalize_entries document_key ds).0
