-- ===== src/Diagnostics/Store/Reach.antt =====
-- Sequences of calls of the store of src/diagnostics/gz_diagnostic_store.cpp. Each method holds the
-- mutex for all its work on the state, so any use by several threads is such a sequence.
use gzscript.Base.{refl, List, [], ◌∷◌, Bytes, false≢true}
use gzscript.Base.Assoc.{contains, lookup, keys}
use gzscript.Base.Sort.{Sorter}
use gzscript.Diagnostics.Model.{Source, diagnostic_less}
use gzscript.Diagnostics.Store.Defs.{
  Store, Update, empty_store, open_document, advance_generation, close_document, replace,
  clear_source, clear_document, clear_all_from_source, remove_document, take_changed_documents,
}
use gzscript.Diagnostics.Store.Invariant.{IsConsistent}
use gzscript.Diagnostics.Store.Keeps.{
  open_document-IsConsistent, advance_generation-IsConsistent, close_document-IsConsistent,
}
use gzscript.Diagnostics.Store.Clears.{
  replace-IsConsistent, clear_source-IsConsistent, clear_document-IsConsistent,
  remove_document-IsConsistent, take_changed_documents-IsConsistent,
}
use gzscript.Diagnostics.Store.ClearAll.{clear_all_from_source-IsConsistent}

-- A call that changes the store.
pub data Call : Type 0 where
  open_path : Bytes → Call
  advance : Bytes → Call
  close : Bytes → Call
  submit : Update → Call
  clear_one : Bytes → Source → Call
  clear_path : Bytes → Call
  clear_all : Source → Call
  forget : Bytes → Call
  take : Call

module _ (sorter : Sorter diagnostic_less) where
  -- The store after a call.
  unfoldable pub step : Call → Store → Store
  step (open_path path) s = (open_document path s).1
  step (advance path) s = (advance_generation path s).1
  step (close path) s = (close_document path s).1
  step (submit u) s = (replace sorter u s).1
  step (clear_one path source) s = clear_source path source s
  step (clear_path path) s = clear_document path s
  step (clear_all source) s = clear_all_from_source source s
  step (forget path) s = remove_document path s
  step take s = (take_changed_documents s).1

  unfoldable pub run : List Call → Store → Store
  unfolding step
  run [] s = s
  run (c ∷ cs) s = run cs (step c s)

empty_store-IsConsistent : IsConsistent empty_store
unfolding keys contains lookup
empty_store-IsConsistent = record {
  distinct = tt;
  queue = record { distinct = tt; same = λ k. refl; tracked = λ k g. absurd (false≢true g) };
  batches = λ k state e. absurd (cc e);
}

module _ (sorter : Sorter diagnostic_less) where
  pub step-IsConsistent : (c : Call) (s : Store) → IsConsistent s → IsConsistent (step sorter c s)
  unfolding step
  step-IsConsistent (open_path path) s h = open_document-IsConsistent path s h
  step-IsConsistent (advance path) s h = advance_generation-IsConsistent path s h
  step-IsConsistent (close path) s h = close_document-IsConsistent path s h
  step-IsConsistent (submit u) s h = replace-IsConsistent sorter u s h
  step-IsConsistent (clear_one path source) s h = clear_source-IsConsistent path source s h
  step-IsConsistent (clear_path path) s h = clear_document-IsConsistent path s h
  step-IsConsistent (clear_all source) s h = clear_all_from_source-IsConsistent source s h
  step-IsConsistent (forget path) s h = remove_document-IsConsistent path s h
  step-IsConsistent take s h = take_changed_documents-IsConsistent s h

  run_keeps : (cs : List Call) (s : Store) → IsConsistent s → IsConsistent (run sorter cs s)
  unfolding run
  run_keeps [] s h = h
  run_keeps (c ∷ cs) s h = run_keeps cs (step sorter c s) (step-IsConsistent c s h)

  -- From the empty store, any calls in any order, by whatever threads, leave a store in which
  -- no document is tracked twice, the queue names tracked documents, each once, with the set as
  -- its members, and every stored batch is sorted, without equal neighbours, under its document's
  -- key, with ranges that do not end before they start and with named producers.
  pub run-IsConsistent : (cs : List Call) → IsConsistent (run sorter cs empty_store)
  run-IsConsistent cs = run_keeps cs empty_store empty_store-IsConsistent
