-- ===== src/Diagnostics/Adapter.antt =====
-- src/diagnostics/gz_diagnostic_godot_adapter.cpp: the lists of errors and warnings that the
-- editor is given. Texts are kept as bytes, where the source converts UTF-8 to Godot's strings;
-- `store_key_for_godot_path` takes Godot's `globalize_path` as an argument.
pub mod Lists
use gzscript.Base.{
  ℕ, ◌+◌, ◌-◌, ◌^◌, ◌≤◌, ◌<◌, min, ◌≡◌, refl, if◌then◌else◌, Bool, not, List, [], ◌∷◌, Bytes, codes,
  is_empty, length, arith, All, Option, none, some, sym, Bool-cases, inl, inr,
}
use gzscript.Diagnostics.Model.{Diagnostic, Snapshot, is_error, all_without_error, snapshot_valid}
use gzscript.Diagnostics.Path.{strip_prefix, normalize_document_path}

-- `clamp_position`: at most the largest `int32_t`.
unfoldable pub clamp_position : ℕ → ℕ
clamp_position value = min value (2 ^ 31 - 1)

-- Godot counts lines and columns from one.
unfoldable pub godot_position : ℕ → ℕ
unfolding clamp_position
godot_position zero_based = clamp_position zero_based + 1

pub record ErrorEntry : Type 0 where
  pub path : Bytes
  pub line : ℕ
  pub column : ℕ
  pub message : Bytes

pub record WarningEntry : Type 0 where
  pub start_line : ℕ
  pub end_line : ℕ
  pub string_code : Bytes
  pub message : Bytes

abbrev error_entry : Bytes → Diagnostic → ErrorEntry
error_entry display_path d = record {
  path = display_path;
  line = godot_position d.range.start.line;
  column = godot_position d.range.start.column;
  message = d.message;
}

abbrev warning_entry : Diagnostic → WarningEntry
warning_entry d = record {
  start_line = godot_position d.range.start.line;
  end_line = godot_position d.range.end.line;
  string_code = d.code;
  message = d.message;
}

errors_of : Bytes → List Diagnostic → List ErrorEntry
errors_of display_path [] = []
errors_of display_path (d ∷ ds) =
    let rest = errors_of display_path ds in
    if not (is_error d.severity) then rest else error_entry display_path d ∷ rest

warnings_of : List Diagnostic → List WarningEntry
warnings_of [] = []
warnings_of (d ∷ ds) =
    let rest = warnings_of ds in if is_error d.severity then rest else warning_entry d ∷ rest

unfoldable pub godot_error_list : Snapshot → Bytes → List ErrorEntry
unfolding errors_of is_error godot_position
godot_error_list snapshot display_path = errors_of display_path snapshot.diagnostics

unfoldable pub godot_warning_list : Snapshot → List WarningEntry
unfolding warnings_of is_error godot_position
godot_warning_list snapshot = warnings_of snapshot.diagnostics

unfoldable pub godot_snapshot_valid : Snapshot → Bool
unfolding snapshot_valid
godot_snapshot_valid snapshot = snapshot_valid snapshot

-- `globalize` is `none` where there is no `ProjectSettings`.
unfoldable pub store_key_for_godot_path : Option (Bytes → Bytes) → Bytes → Bytes
unfolding strip_prefix
store_key_for_godot_path globalize [] = []
store_key_for_godot_path globalize (c ∷ path) = elim (strip_prefix (codes "res://") (c ∷ path)) [
  | none ↦ normalize_document_path (c ∷ path)
  | some _ ↦ elim globalize [ none ↦ [] | some g ↦ normalize_document_path (g (c ∷ path)) ]
]
