-- ===== src/Diagnostics/Store/Defs.antt =====
-- The methods of `GzDiagnosticStore`, in src/diagnostics/gz_diagnostic_store.cpp.
use gzscript.Base.{
  ℕ, ◌==◌, ltb, add64, if◌then◌else◌, Bool, true, false, not, ◌||◌, List, [], ◌∷◌, ◌++◌, length,
  is_empty, Bytes, Option, none, some,
}
use gzscript.Base.Assoc.{contains, remove, lookup, update, erase}
use gzscript.Base.Sort.{Sorter, stable_sort}
use gzscript.Diagnostics.Model.{Source, Diagnostic, Snapshot, diagnostic_equal, diagnostic_less}
use gzscript.Diagnostics.Path.{normalize_document_path}
use gzscript.Diagnostics.Store.Batch.{normalize_batch}
pub use gzscript.Diagnostics.Store.State.{
  UpdateResult, applied, stale, unknown_document, future_generation, Update, Stats, BySource,
  DocumentState, Store, no_sources, empty_store,
}
unfoldable pub use gzscript.Diagnostics.Store.State.{find_source, set_source}

-- `documents_[key]` makes a new state of generation 0; `open_document` raises a 0 to 1.
unfoldable pub opened : Option DocumentState → DocumentState
opened none = record { generation = 1; closed = false; by_source = no_sources }
opened (some state) = if state.generation == 0 then record state { generation = 1 } else state

unfoldable pub open_document : Bytes → Store → ℕ × Store
unfolding opened
open_document path s =
    let key = normalize_document_path path in
    let state = opened (lookup key s.documents) in
    (state.generation, record s { documents = update key state s.documents })

unfoldable pub advance_generation : Bytes → Store → ℕ × Store
advance_generation path s =
    let key = normalize_document_path path in
    elim (lookup key s.documents) [
      | none ↦ (0, s)
      | some state ↦
          let next = add64 state.generation 1 in
          (
            next,
            record s { documents = update key (record state { generation = next }) s.documents },
          )
    ]

unfoldable pub current_generation : Bytes → Store → ℕ
current_generation path s = elim (lookup (normalize_document_path path) s.documents) [
  | none ↦ 0
  | some state ↦ state.generation
]

unfoldable pub close_document : Bytes → Store → Bool × Store
close_document path s =
    let key = normalize_document_path path in
    elim (lookup key s.documents) [
      | none ↦ (false, s)
      | some state ↦
          (true, record s { documents = update key (record state { closed = true }) s.documents })
    ]

-- `changed_set_.insert(key).second` is false if the key is there.
unfoldable pub mark_changed : Bytes → Store → Store
mark_changed key s =
    if contains key s.changed_set
    then s
    else record s { changed_set = key ∷ s.changed_set; changed_order = s.changed_order ++ key ∷ [] }

-- `operator[]` on the map of sources: an empty vector where there is none.
abbrev pub entries : Option (List Diagnostic) → List Diagnostic
entries none = []
entries (some ds) = ds

-- `std::vector::operator==`
unfoldable pub batch_equal : List Diagnostic → List Diagnostic → Bool
batch_equal [] [] = true
batch_equal [] (e ∷ es) = false
batch_equal (d ∷ ds) [] = false
batch_equal (d ∷ ds) (e ∷ es) = if diagnostic_equal d e then batch_equal ds es else false

abbrev pub put_document : Bytes → DocumentState → Store → Store
put_document key state s = record s { documents = update key state s.documents }

-- `replace` for a tracked document of the update's generation.
unfoldable pub apply_batch : Bytes → DocumentState → Source → List Diagnostic → Store → Store
unfolding find_source set_source batch_equal mark_changed
apply_batch key state source batch s =
    let current = entries (find_source source state.by_source) in
    if batch_equal current batch
    then (record s {
      documents =
          update key (record state { by_source = set_source source current state.by_source })
            s.documents;
      stats = record s.stats { updates_noop = add64 s.stats.updates_noop 1 };
    })
    else (let marked = mark_changed key s in
        record marked {
          documents =
              update key (record state { by_source = set_source source batch state.by_source })
                marked.documents;
          stats = record marked.stats { replaces_applied = add64 marked.stats.replaces_applied 1 };
        })

abbrev pub count_ranges : ℕ → Store → Store
count_ranges normalized s =
    if ltb 0 normalized
    then record s {
      stats = record s.stats { ranges_normalized = add64 s.stats.ranges_normalized normalized };
    }
    else s

abbrev pub reject_unknown : Store → Store
reject_unknown s = record s {
  stats = record s.stats { unknown_rejected = add64 s.stats.unknown_rejected 1 };
}

abbrev pub reject_stale : Store → Store
reject_stale s = record s {
  stats = record s.stats { stale_rejected = add64 s.stats.stale_rejected 1 };
}

abbrev pub reject_future : Store → Store
reject_future s = record s {
  stats = record s.stats { future_rejected = add64 s.stats.future_rejected 1 };
}

-- What `replace` does under its lock, by the state that it finds.
unfoldable pub replace_found :
    Option DocumentState → Bytes → Update → List Diagnostic → Store → UpdateResult × Store
unfolding apply_batch
replace_found none key u batch s = (unknown_document, reject_unknown s)
replace_found (some state) key u batch s =
    if ltb u.generation state.generation
    then (stale, reject_stale s)
    else if ltb state.generation u.generation
    then (future_generation, reject_future s)
    else (applied, apply_batch key state u.source batch s)

unfoldable pub replace : Sorter diagnostic_less → Update → Store → UpdateResult × Store
unfolding replace_found
replace sorter u s0 =
    let key = normalize_document_path u.document_path in
    let (batch, normalized) = normalize_batch sorter key u.diagnostics in
    let s = count_ranges normalized s0 in replace_found (lookup key s.documents) key u batch s

-- `stored->second.clear()` where there is something to clear.
unfoldable pub clear_source : Bytes → Source → Store → Store
unfolding find_source set_source mark_changed
clear_source path source s =
    let key = normalize_document_path path in
    elim (lookup key s.documents) [
      | none ↦ s
      | some state ↦
          if is_empty (entries (find_source source state.by_source))
          then s
          else mark_changed key (
              put_document key (record state { by_source = set_source source [] state.by_source })
                s)
    ]

-- Each vector that is there becomes empty.
abbrev pub cleared : Option (List Diagnostic) → Option (List Diagnostic)
cleared none = none
cleared (some ds) = some []

abbrev pub clear_sources : BySource → BySource
clear_sources b = record {
  of_zls = cleared b.of_zls;
  of_zig_compiler = cleared b.of_zig_compiler;
  of_gz_script = cleared b.of_gz_script;
}

abbrev pub has_any : BySource → Bool
has_any b =
    not (is_empty (entries b.of_zls))
    || (not (is_empty (entries b.of_zig_compiler)) || not (is_empty (entries b.of_gz_script)))

unfoldable pub clear_document : Bytes → Store → Store
unfolding mark_changed
clear_document path s =
    let key = normalize_document_path path in
    elim (lookup key s.documents) [
      | none ↦ s
      | some state ↦
          let s' =
            put_document key (record state { by_source = clear_sources state.by_source }) s in
          if has_any state.by_source then mark_changed key s' else s'
    ]

abbrev pub has_entries : Source → DocumentState → Bool
has_entries source state = not (is_empty (entries (find_source source state.by_source)))

abbrev pub mark_if : Bool → Bytes → Store → Store
mark_if true key s = mark_changed key s
mark_if false key s = s

abbrev pub clear_if : Bool → Source → DocumentState → DocumentState
clear_if true source state = record state { by_source = set_source source [] state.by_source }
clear_if false source state = state

-- The loop of `clear_all_from_source` over the documents that are left, with the store whose
-- queue it marks; the documents come back changed.
unfoldable pub clear_all_loop :
    Source → List (Bytes × DocumentState) → Store → List (Bytes × DocumentState) × Store
unfolding find_source set_source mark_changed
clear_all_loop source [] s = ([], s)
clear_all_loop source ((key, state) ∷ rest) s =
    let (rest', s') = clear_all_loop source rest (mark_if (has_entries source state) key s) in
    ((key, clear_if (has_entries source state) source state) ∷ rest', s')

unfoldable pub clear_all_from_source : Source → Store → Store
unfolding clear_all_loop
clear_all_from_source source s =
    let (documents, s') = clear_all_loop source s.documents s in record s' { documents = documents }

unfoldable pub remove_document : Bytes → Store → Store
remove_document path s =
    let key = normalize_document_path path in
    record s {
      documents = erase key s.documents;
      changed_set = remove key s.changed_set;
      changed_order = remove key s.changed_order;
    }

-- The sources one after the other, in the order of the enumeration.
abbrev pub all_entries : BySource → List Diagnostic
all_entries b = entries b.of_zls ++ (entries b.of_zig_compiler ++ entries b.of_gz_script)

unfoldable pub snapshot : Bytes → Store → Snapshot
snapshot path s =
    let key = normalize_document_path path in
    elim (lookup key s.documents) [
      | none ↦ record { document_path = key; generation = 0; diagnostics = [] }
      | some state ↦ record {
        document_path = key;
        generation = state.generation;
        diagnostics = stable_sort diagnostic_less (all_entries state.by_source);
      }
    ]

unfoldable pub snapshot_source : Bytes → Source → Store → Snapshot
unfolding find_source
snapshot_source path source s =
    let key = normalize_document_path path in
    elim (lookup key s.documents) [
      | none ↦ record { document_path = key; generation = 0; diagnostics = [] }
      | some state ↦ record {
        document_path = key;
        generation = state.generation;
        diagnostics = entries (find_source source state.by_source);
      }
    ]

unfoldable pub take_changed_documents : Store → List Bytes × Store
take_changed_documents s = (s.changed_order, record s { changed_order = []; changed_set = [] })

unfoldable pub tracked_document_count : Store → ℕ
tracked_document_count s = length s.documents
