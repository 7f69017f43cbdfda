-- ===== src/Diagnostics/Store/Clears.antt =====
-- `replace`, the clearing methods, removal and draining keep the invariant of the store
-- (src/diagnostics/gz_diagnostic_store.cpp).
use gzscript.Base.{
  ℕ, ltb, ◌≡◌, refl, inl, inr, List, [], is_empty, Bytes, Option, none, some, arith, Bool-cases,
  Option-cases, false≢true,
}
use gzscript.Base.Assoc.{
  contains, lookup, keys, lookup-erase, keys-erase, remove-Distinct, contains-remove,
}
use gzscript.Base.Sort.{Sorter}
use gzscript.Diagnostics.Model.{Source, Diagnostic, zls, zig_compiler, gz_script, diagnostic_less}
use gzscript.Diagnostics.Path.{normalize_document_path}
use gzscript.Diagnostics.Store.Batch.{IsBatch, normalize_batch, normalize_batch-IsBatch}
use gzscript.Diagnostics.Store.Defs.{
  BySource, DocumentState, Store, Update, find_source, set_source, entries, replace_found, replace,
  clear_source, clear_document, clear_sources, remove_document, take_changed_documents,
  count_ranges, cleared, has_any,
}
use gzscript.Diagnostics.Store.Invariant.{
  HasBatches, IsConsistent, IsBatch-nil, set_source-HasBatches, update-IsConsistent,
  stats-IsConsistent,
}
use gzscript.Diagnostics.Store.Keeps.{put_marked, apply_batch-IsConsistent}

replace_found-IsConsistent :
    (key : Bytes) (u : Update) (batch : List Diagnostic) (s : Store) (found : Option DocumentState)
    → IsBatch key batch
    → lookup key s.documents ≡ found
    → IsConsistent s
    → IsConsistent (replace_found found key u batch s).1
replace_found-IsConsistent key u batch s none fine e c =
    unfold replace_found in stats-IsConsistent key s _ c
replace_found-IsConsistent key u batch s (some state) fine e c =
    elim (Bool-cases (ltb u.generation state.generation)) [
      | inl f ↦ unfold replace_found in rw (f, replace_found) (stats-IsConsistent key s _ c)
      | inr f ↦ elim (Bool-cases (ltb state.generation u.generation)) [
        | inl g ↦ unfold replace_found in rw (f, g, replace_found) (stats-IsConsistent key s _ c)
        | inr g ↦
            unfold replace_found in
            rw (f, g, replace_found) (apply_batch-IsConsistent key state u.source s batch fine e c)
      ]
    ]

count_ranges-IsConsistent : (n : ℕ) (s : Store) → IsConsistent s → IsConsistent (count_ranges n s)
count_ranges-IsConsistent n s c = elim (Bool-cases (ltb 0 n)) [
  | inl f ↦ rw f (stats-IsConsistent [] s _ c)
  | inr f ↦ rw f c
]

pub replace-IsConsistent :
    (sorter : Sorter diagnostic_less) (u : Update) (s : Store)
    → IsConsistent s
    → IsConsistent (replace sorter u s).1
replace-IsConsistent sorter u s c =
    unfold replace in
    replace_found-IsConsistent key u (normalize_batch sorter key u.diagnostics).0 _ _
      (normalize_batch-IsBatch sorter key u.diagnostics) refl
      (count_ranges-IsConsistent (normalize_batch sorter key u.diagnostics).1 s c)
  where
    key : Bytes
    key = normalize_document_path u.document_path

pub clear_source-IsConsistent :
    (path : Bytes) (source : Source) (s : Store)
    → IsConsistent s
    → IsConsistent (clear_source path source s)
clear_source-IsConsistent path source s c = elim (Option-cases (lookup key s.documents)) [
  | inl e ↦ unfold clear_source in rw (e, clear_source) c
  | inr (state, e) ↦ elim (Bool-cases (is_empty (entries (find_source source state.by_source)))) [
    | inl f ↦ unfold clear_source in rw (e, f, clear_source) c
    | inr f ↦
        unfold clear_source in
        rw (e, f, clear_source)
          (put_marked key (record state { by_source = set_source source [] state.by_source }) s
            (set_source-HasBatches key source [] state.by_source (IsBatch-nil key)
              (c.batches key state e))
            c)
  ]
]
  where
    key : Bytes
    key = normalize_document_path path

entries-cleared : (o : Option (List Diagnostic)) → entries (cleared o) ≡ []
entries-cleared none = refl
entries-cleared (some ds) = refl

clear_sources-HasBatches : (key : Bytes) (b : BySource) → HasBatches key (clear_sources b)
clear_sources-HasBatches key b = record { batch = batch }
  where
    batch : (source : Source) → IsBatch key (entries (find_source source (clear_sources b)))
    batch zls = unfold find_source in rw (entries-cleared b.of_zls) (IsBatch-nil key)
    batch zig_compiler =
        unfold find_source in rw (entries-cleared b.of_zig_compiler) (IsBatch-nil key)
    batch gz_script = unfold find_source in rw (entries-cleared b.of_gz_script) (IsBatch-nil key)

pub clear_document-IsConsistent :
    (path : Bytes) (s : Store) → IsConsistent s → IsConsistent (clear_document path s)
clear_document-IsConsistent path s c = elim (Option-cases (lookup key s.documents)) [
  | inl e ↦ unfold clear_document in rw (e, clear_document) c
  | inr (state, e) ↦ elim (Bool-cases (has_any state.by_source)) [
    | inl f ↦
        unfold clear_document in
        rw (e, f, clear_document)
          (put_marked key _ s (clear_sources-HasBatches key state.by_source) c)
    | inr f ↦
        unfold clear_document in
        rw (e, f, clear_document)
          (update-IsConsistent key s _ s.stats (clear_sources-HasBatches key state.by_source) c)
  ]
]
  where
    key : Bytes
    key = normalize_document_path path

pub remove_document-IsConsistent :
    (path : Bytes) (s : Store) → IsConsistent s → IsConsistent (remove_document path s)
remove_document-IsConsistent path s c =
    unfold remove_document in
    record {
      distinct =
          rw (keys-erase key s.documents) (remove-Distinct key (keys s.documents) c.distinct);
      queue = record {
        distinct = remove-Distinct key s.changed_order c.queue.distinct;
        same = λ k. rw (
          contains-remove key k s.changed_set,
          contains-remove key k s.changed_order,
          c.queue.same k,
        );
        tracked = λ k g. ground (
          arith,
          keys-erase key s.documents,
          contains-remove key k s.changed_order,
          contains-remove key k (keys s.documents),
          c.queue.tracked k,
          g,
        );
      };
      batches = λ k state e. c.batches k state (ground (arith, lookup-erase key k s.documents, e));
    }
  where
    key : Bytes
    key = normalize_document_path path

pub take_changed_documents-IsConsistent :
    (s : Store) → IsConsistent s → IsConsistent (take_changed_documents s).1
take_changed_documents-IsConsistent s c =
    unfold take_changed_documents contains in
    record {
      distinct = c.distinct;
      queue = record { distinct = tt; same = λ k. refl; tracked = λ k g. absurd (false≢true g) };
      batches = c.batches;
    }
