-- ===== src/Diagnostics/Tests/Store.antt =====
-- The theorems on src/diagnostics/gz_diagnostic_store.cpp at concrete inputs: a producer that
-- reports to one document.
use gzscript.Base.{◌≡◌, refl, ◌↔◌, false, ◌∷◌, [], List, Bytes, codes, arith, some, ◌===◌}
use gzscript.Base.Assoc.{lookup, update}
use gzscript.Base.Sort.{Sorter, stable_sorter, IsSorted}
use gzscript.Diagnostics.Model.{Diagnostic, error, warning, zls, zig_compiler, diagnostic_less}
use gzscript.Diagnostics.Model.Ordering.{diagnostic_less-IsWeakOrder}
use gzscript.Diagnostics.Path.{
  normalize_document_path, split_scheme, normalize_work, file_path, other_scheme, strip_prefix,
  find_mark, is_scheme, drop_slash, uri_decode, has_byte, starts_with_slash,
}
use gzscript.Diagnostics.Store.Batch.{normalize_batch, IsBatch, normalize_batch-IsBatch}
use gzscript.Diagnostics.Store.Defs.{
  Update, Store, applied, stale, unknown_document, empty_store, open_document, opened, replace,
  snapshot, find_source, no_sources,
}
use gzscript.Diagnostics.Store.Invariant.{IsConsistent}
use gzscript.Diagnostics.Store.Reach.{
  Call, open_path, advance, submit, clear_one, forget, take, step, run, run-IsConsistent,
}
use gzscript.Diagnostics.Store.Spec.{DocumentView, view, to_view, spec}
use gzscript.Diagnostics.Store.Contract.{step-spec}
use gzscript.Diagnostics.Store.Generations.{
  ever, replace-applied_iff, late_update_stale, removed_stays_unknown,
}
use gzscript.Diagnostics.Store.Snapshots.{snapshot-IsSorted}

abbrev sorter : Sorter diagnostic_less
sorter = stable_sorter diagnostic_less diagnostic_less-IsWeakOrder

abbrev path : Bytes
path = codes "/a"

-- Its range ends before it starts, and its producer has no name.
abbrev report : Diagnostic
report = record {
  document_path = codes "/elsewhere";
  range = record { start = record { line = 3; column = 4 }; end = record { line = 2; column = 0 } };
  severity = error;
  origin = record { kind = zig_compiler; name = [] };
  message = codes "unused";
  code = [];
}

abbrev reports : List Diagnostic
reports = report ∷ record report { severity = warning } ∷ report ∷ []

abbrev first : Update
first = record {
  document_path = path;
  generation = 1;
  source = zig_compiler;
  diagnostics = reports;
}

abbrev one_open : Store
one_open = (open_document path empty_store).1

abbrev fresh : DocumentView
fresh = to_view (record { generation = 1; closed = false; by_source = no_sources })

abbrev calls : List Call
calls = open_path path ∷ submit first ∷ advance path ∷ clear_one path zls ∷ take ∷ []

abbrev later : List Call
later = submit first ∷ advance path ∷ take ∷ []

store_code : Unit {0}
unfolding open_document opened lookup update normalize_document_path split_scheme normalize_work
    file_path other_scheme strip_prefix find_mark is_scheme drop_slash uri_decode has_byte
    starts_with_slash to_view find_source ever ◌===◌
store_code = tt

step-spec_example :
    view (step sorter (submit first) one_open) path
    ≡ spec sorter (submit first) path (view one_open path)
step-spec_example = step-spec sorter (submit first) one_open path

run-IsConsistent_example : IsConsistent (run sorter calls empty_store)
run-IsConsistent_example = run-IsConsistent sorter calls

replace-applied_iff_example : ((replace sorter first one_open).0 ≡ applied) ↔ (
    (v : DocumentView) × (view one_open (normalize_document_path path) ≡ some v)
    × (v.generation ≡ 1))
replace-applied_iff_example = replace-applied_iff sorter first one_open

late_update_stale_example : (replace sorter first (run sorter later one_open)).0 ≡ stale
unfolding store_code
late_update_stale_example =
    late_update_stale sorter first later one_open fresh refl refl (omega arith) refl refl
      (omega arith)

removed_stays_unknown_example :
    (replace sorter first (run sorter (forget path ∷ later) one_open)).0 ≡ unknown_document
unfolding store_code
removed_stays_unknown_example = removed_stays_unknown sorter first later one_open refl

normalize_batch-IsBatch_example : IsBatch path (normalize_batch sorter path reports).0
normalize_batch-IsBatch_example = normalize_batch-IsBatch sorter path reports

abbrev reported : Store
reported = (replace sorter first one_open).1

snapshot-IsSorted_example : IsSorted diagnostic_less (snapshot path reported).diagnostics
snapshot-IsSorted_example = snapshot-IsSorted path reported
