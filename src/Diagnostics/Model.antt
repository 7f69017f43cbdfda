-- ===== src/Diagnostics/Model.antt =====
-- src/diagnostics/gz_diagnostic.hpp and gz_diagnostic.cpp: severities, sources, positions,
-- diagnostics with their equality and order, snapshots. A `uint32_t` is a number; that it is
-- below 2 ^ 32 is stated where it matters. The hash, which nothing under src/ calls, is left out.
pub mod Ordering
use gzscript.Base.{
  ℕ, ◌==◌, ltb, if◌then◌else◌, Bool, true, false, not, ◌&&◌, List, [], ◌∷◌, Bytes, codes, ◌===◌,
  bytes_less,
}

pub data Severity : Type 0 where
  error warning information hint : Severity

pub data Source : Type 0 where
  zls zig_compiler gz_script : Source

pub record Position : Type 0 where
  pub line : ℕ
  pub column : ℕ

pub record Range : Type 0 where
  pub start : Position
  pub end : Position

pub record Origin : Type 0 where
  pub kind : Source
  pub name : Bytes

pub record Diagnostic : Type 0 where
  pub document_path : Bytes
  pub range : Range
  pub severity : Severity
  pub origin : Origin
  pub message : Bytes
  pub code : Bytes

pub record Snapshot : Type 0 where
  pub document_path : Bytes
  pub generation : ℕ
  pub diagnostics : List Diagnostic

-- The values that the enumerations are declared with, by which `==` and `<` compare them.
unfoldable pub source_value : Source → ℕ
source_value zls = 0
source_value zig_compiler = 1
source_value gz_script = 2

unfoldable pub severity_value : Severity → ℕ
severity_value error = 0
severity_value warning = 1
severity_value information = 2
severity_value hint = 3

unfoldable pub position_less : Position → Position → Bool
position_less lhs rhs =
    if not (lhs.line == rhs.line) then ltb lhs.line rhs.line else ltb lhs.column rhs.column

unfoldable pub position_equal : Position → Position → Bool
position_equal lhs rhs = (lhs.line == rhs.line) && (lhs.column == rhs.column)

-- `GzDiagnostic::operator==`
unfoldable pub diagnostic_equal : Diagnostic → Diagnostic → Bool
unfolding position_equal severity_value source_value
diagnostic_equal d other =
    (d.document_path === other.document_path)
    && (position_equal d.range.start other.range.start
        && (position_equal d.range.end other.range.end
            && ((severity_value d.severity == severity_value other.severity)
                && ((source_value d.origin.kind == source_value other.origin.kind)
                    && ((d.origin.name === other.origin.name)
                        && ((d.message === other.message) && (d.code === other.code)))))))

unfoldable pub severity_rank : Severity → ℕ
severity_rank error = 0
severity_rank warning = 1
severity_rank information = 2
severity_rank hint = 3

unfoldable pub source_name : Source → Bytes
source_name zls = codes "zls"
source_name zig_compiler = codes "zig"
source_name gz_script = codes "gzscript"

unfoldable pub severity_name : Severity → Bytes
severity_name error = codes "ERROR"
severity_name warning = codes "WARNING"
severity_name information = codes "INFO"
severity_name hint = codes "HINT"

unfoldable pub is_error : Severity → Bool
unfolding severity_value
is_error severity = severity_value severity == severity_value error

unfoldable pub all_without_error : List Diagnostic → Bool
unfolding is_error
all_without_error [] = true
all_without_error (d ∷ ds) = if is_error d.severity then false else all_without_error ds

-- `gz_diagnostic_snapshot_valid`
unfoldable pub snapshot_valid : Snapshot → Bool
unfolding all_without_error
snapshot_valid snapshot = all_without_error snapshot.diagnostics

-- `gz_diagnostic_less`, with its early returns.
unfoldable pub diagnostic_less : Diagnostic → Diagnostic → Bool
unfolding position_equal position_less severity_rank source_value
diagnostic_less lhs rhs =
    if not (position_equal lhs.range.start rhs.range.start)
    then position_less lhs.range.start rhs.range.start
    else if not (severity_rank lhs.severity == severity_rank rhs.severity)
    then ltb (severity_rank lhs.severity) (severity_rank rhs.severity)
    else if not (source_value lhs.origin.kind == source_value rhs.origin.kind)
    then ltb (source_value lhs.origin.kind) (source_value rhs.origin.kind)
    else if not (lhs.message === rhs.message)
    then bytes_less lhs.message rhs.message
    else if not (lhs.code === rhs.code)
    then bytes_less lhs.code rhs.code
    else if not (lhs.origin.name === rhs.origin.name)
    then bytes_less lhs.origin.name rhs.origin.name
    else bytes_less lhs.document_path rhs.document_path
