-- ===== src/Diagnostics/Store/Keeps.antt =====
-- Opening, advancing, closing a document and applying a batch keep the invariant of the store
-- (src/diagnostics/gz_diagnostic_store.cpp).
use gzscript.Base.{
  ◌≡◌, sym, subst, ◌∙◌, inl, inr, true, List, Bytes, ===_refl, some, arith, Bool-cases,
  Option-cases,
}
use gzscript.Base.Assoc.{contains, lookup, update, keys, keys-update, contains-keys}
use gzscript.Diagnostics.Model.{Source, Diagnostic}
use gzscript.Diagnostics.Path.{normalize_document_path}
use gzscript.Diagnostics.Store.Batch.{IsBatch}
use gzscript.Diagnostics.Store.Defs.{
  DocumentState, Store, find_source, entries, mark_changed, opened, open_document,
  advance_generation, close_document, apply_batch, batch_equal,
}
use gzscript.Diagnostics.Store.Invariant.{
  HasBatches, IsConsistent, no_sources-HasBatches, set_source-HasBatches, mark_changed-IsConsistent,
  update-IsConsistent,
}

by_source-opened : (state : DocumentState) → (opened (some state)).by_source ≡ state.by_source
unfolding opened
by_source-opened state = ground arith

opened-HasBatches :
    (key : Bytes) (s : Store)
    → IsConsistent s
    → HasBatches key (opened (lookup key s.documents)).by_source
opened-HasBatches key s c = elim (Option-cases (lookup key s.documents)) [
  | inl e ↦ rw e (unfold opened in no_sources-HasBatches key)
  | inr (state, e) ↦
      rw e (subst (HasBatches key) (sym (by_source-opened state)) (c.batches key state e))
]

pub open_document-IsConsistent :
    (path : Bytes) (s : Store) → IsConsistent s → IsConsistent (open_document path s).1
open_document-IsConsistent path s c =
    unfold open_document in
    update-IsConsistent (normalize_document_path path) s _ s.stats
      (opened-HasBatches (normalize_document_path path) s c) c

pub advance_generation-IsConsistent :
    (path : Bytes) (s : Store) → IsConsistent s → IsConsistent (advance_generation path s).1
advance_generation-IsConsistent path s c =
    elim (Option-cases (lookup (normalize_document_path path) s.documents)) [
      | inl e ↦ unfold advance_generation in rw (e, advance_generation) c
      | inr (state, e) ↦
          unfold advance_generation in
          rw (e, advance_generation)
            (update-IsConsistent (normalize_document_path path) s _ s.stats
              (c.batches (normalize_document_path path) state e) c)
    ]

pub close_document-IsConsistent :
    (path : Bytes) (s : Store) → IsConsistent s → IsConsistent (close_document path s).1
close_document-IsConsistent path s c =
    elim (Option-cases (lookup (normalize_document_path path) s.documents)) [
      | inl e ↦ unfold close_document in rw (e, close_document) c
      | inr (state, e) ↦
          unfold close_document in
          rw (e, close_document)
            (update-IsConsistent (normalize_document_path path) s _ s.stats
              (c.batches (normalize_document_path path) state e) c)
    ]

-- A document that is put is tracked.
tracked_update :
    (key : Bytes) (state : DocumentState) (s : Store)
    → contains key (keys (update key state s.documents)) ≡ true
tracked_update key state s = keys-update key key state s.documents ∙ ground (arith, ===_refl key)

-- One source of a tracked document is replaced, and the document is marked.
pub put_marked :
    (key : Bytes) (state : DocumentState) (s : Store)
    → HasBatches key state.by_source
    → IsConsistent s
    → IsConsistent (mark_changed key (record s { documents = update key state s.documents }))
put_marked key state s h c =
    mark_changed-IsConsistent key (record s { documents = update key state s.documents })
      (tracked_update key state s) (update-IsConsistent key s state s.stats h c)

module _ (key : Bytes) (state : DocumentState) (source : Source) (s : Store) where
  pub apply_batch-IsConsistent :
      (batch : List Diagnostic)
      → IsBatch key batch
      → lookup key s.documents ≡ some state
      → IsConsistent s
      → IsConsistent (apply_batch key state source batch s)
  apply_batch-IsConsistent batch fine e c =
      elim (Bool-cases (batch_equal (entries (find_source source state.by_source)) batch)) [
        | inl f ↦
            unfold apply_batch in
            rw (f, apply_batch)
              (update-IsConsistent key s _ _
                (set_source-HasBatches key source _ state.by_source (old.batch source) old) c)
        | inr f ↦
            unfold apply_batch in
            rw (f, apply_batch)
              (update-IsConsistent key (mark_changed key s) _ _
                (set_source-HasBatches key source batch state.by_source fine old)
                (mark_changed-IsConsistent key s (contains-keys key state s.documents e) c))
      ]
    where
      old : HasBatches key state.by_source
      old = c.batches key state e
