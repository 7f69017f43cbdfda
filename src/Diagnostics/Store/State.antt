-- ===== src/Diagnostics/Store/State.antt =====
-- The state of `GzDiagnosticStore` and the types of its interface, in
-- src/diagnostics/gz_diagnostic_store.hpp.
use gzscript.Base.{ℕ, List, [], Bytes, Bool, Option, none, some}
use gzscript.Diagnostics.Model.{Source, Diagnostic, zls, zig_compiler, gz_script}

pub data UpdateResult : Type 0 where
  applied stale unknown_document future_generation : UpdateResult

pub record Update : Type 0 where
  pub document_path : Bytes
  pub generation : ℕ
  pub source : Source
  pub diagnostics : List Diagnostic

pub record Stats : Type 0 where
  pub replaces_applied : ℕ
  pub stale_rejected : ℕ
  pub future_rejected : ℕ
  pub unknown_rejected : ℕ
  pub updates_noop : ℕ
  pub ranges_normalized : ℕ

-- `std::map<GzDiagnosticSource, std::vector<GzDiagnostic>>`: an entry for each key there may be,
-- in the order of the keys.
pub record BySource : Type 0 where
  pub of_zls : Option (List Diagnostic)
  pub of_zig_compiler : Option (List Diagnostic)
  pub of_gz_script : Option (List Diagnostic)

unfoldable pub find_source : Source → BySource → Option (List Diagnostic)
find_source zls b = b.of_zls
find_source zig_compiler b = b.of_zig_compiler
find_source gz_script b = b.of_gz_script

unfoldable pub set_source : Source → List Diagnostic → BySource → BySource
set_source zls ds b = record b { of_zls = some ds }
set_source zig_compiler ds b = record b { of_zig_compiler = some ds }
set_source gz_script ds b = record b { of_gz_script = some ds }

pub record DocumentState : Type 0 where
  pub generation : ℕ
  pub closed : Bool
  pub by_source : BySource

pub record Store : Type 0 where
  pub documents : List (Bytes × DocumentState)
  pub changed_order : List Bytes
  pub changed_set : List Bytes
  pub stats : Stats

abbrev pub no_sources : BySource
no_sources = record { of_zls = none; of_zig_compiler = none; of_gz_script = none }

abbrev pub empty_store : Store
empty_store = record {
  documents = [];
  changed_order = [];
  changed_set = [];
  stats = record {
    replaces_applied = 0;
    stale_rejected = 0;
    future_rejected = 0;
    unknown_rejected = 0;
    updates_noop = 0;
    ranges_normalized = 0;
  };
}
