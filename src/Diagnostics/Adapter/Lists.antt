-- ===== src/Diagnostics/Adapter/Lists.antt =====
-- What the lists of src/diagnostics/gz_diagnostic_godot_adapter.cpp hold of the diagnostics.
use gzscript.Base.{
  ℕ, ◌+◌, ◌^◌, ◌≤◌, ◌<◌, ◌≡◌, refl, true, false, List, [], ◌∷◌, Bytes, is_empty, arith, ◌≢◌, ◌⊎◌,
  inl, inr, sym,
}
use mathlib.Core.List.{Memᴰ}
use gzscript.Diagnostics.Model.{
  Severity, error, warning, information, hint, Diagnostic, Snapshot, is_error, all_without_error,
  snapshot_valid,
}
use gzscript.Diagnostics.Adapter.{
  ErrorEntry, WarningEntry, errors_of, warnings_of, godot_position, godot_error_list,
  godot_warning_list, godot_snapshot_valid,
}

-- What counts from zero is shown counting from one; what 32 bits cannot hold is shown as the largest
-- position.
pub record IsShown (zero_based shown : ℕ) : Type 0 where
  pub exact : zero_based < 2 ^ 31 → shown ≡ zero_based + 1
  pub largest : 2 ^ 31 ≤ zero_based → shown ≡ 2 ^ 31

-- An entry of the list of errors is of this diagnostic.
pub record IsErrorOf (path : Bytes) (d : Diagnostic) (e : ErrorEntry) : Type 0 where
  pub severity : d.severity ≡ error
  pub place : e.path ≡ path
  pub line : IsShown d.range.start.line e.line
  pub column : IsShown d.range.start.column e.column
  pub message : e.message ≡ d.message

-- An entry of the list of warnings is.
pub record IsWarningOf (d : Diagnostic) (w : WarningEntry) : Type 0 where
  pub severity : d.severity ≢ error
  pub start_line : IsShown d.range.start.line w.start_line
  pub end_line : IsShown d.range.end.line w.end_line
  pub code : w.string_code ≡ d.code
  pub message : w.message ≡ d.message

-- The two lists are those of the diagnostics, dealt out in order.
pub data Dealt (path : Bytes) : List Diagnostic → List ErrorEntry → List WarningEntry → Type 0 where
  dealt : Dealt path [] [] []
  to_errors :
      {d : Diagnostic} {e : ErrorEntry} {ds : List Diagnostic} {es : List ErrorEntry}
      {ws : List WarningEntry}
      → IsErrorOf path d e
      → Dealt path ds es ws
      → Dealt path (d ∷ ds) (e ∷ es) ws
  to_warnings :
      {d : Diagnostic} {w : WarningEntry} {ds : List Diagnostic} {es : List ErrorEntry}
      {ws : List WarningEntry}
      → IsWarningOf d w
      → Dealt path ds es ws
      → Dealt path (d ∷ ds) es (w ∷ ws)

position-IsShown : (n : ℕ) → IsShown n (godot_position n)
unfolding godot_position
position-IsShown n = record { exact = λ h. omega (arith, h); largest = λ h. omega (arith, h) }

is_error_cases :
    (s : Severity) → ((s ≡ error) × (is_error s ≡ true)) ⊎ ((s ≢ error) × (is_error s ≡ false))
unfolding is_error
is_error_cases error = inl (refl, refl)
is_error_cases warning = inr ((λ e. absurd (cc e)), refl)
is_error_cases information = inr ((λ e. absurd (cc e)), refl)
is_error_cases hint = inr ((λ e. absurd (cc e)), refl)

lists-Dealt :
    (path : Bytes) (ds : List Diagnostic) → Dealt path ds (errors_of path ds) (warnings_of ds)
unfolding errors_of warnings_of
lists-Dealt path [] = dealt
lists-Dealt path (d ∷ ds) = elim (is_error_cases d.severity) [
  | inl (s, b) ↦ rw b (
      to_errors
        (record {
          severity = s;
          place = refl;
          line = position-IsShown d.range.start.line;
          column = position-IsShown d.range.start.column;
          message = refl;
        })
        (lists-Dealt path ds))
  | inr (s, b) ↦ rw b (
      to_warnings
        (record {
          severity = s;
          start_line = position-IsShown d.range.start.line;
          end_line = position-IsShown d.range.end.line;
          code = refl;
          message = refl;
        })
        (lists-Dealt path ds))
]

valid_errors :
    (path : Bytes) (ds : List Diagnostic) → is_empty (errors_of path ds) ≡ all_without_error ds
unfolding errors_of all_without_error
valid_errors path [] = refl
valid_errors path (d ∷ ds) = ground (arith, valid_errors path ds)

-- The diagnostics are dealt out in order: one of severity error becomes the next entry of the list
-- of errors, with the path given, its message and where it starts; any other becomes the next entry
-- of the list of warnings, with its code, its message and its lines; both count from one, and
-- nothing else is in the lists. A document is reported as valid exactly if its list of errors is
-- empty.
pub valid-errors-warnings :
    (snapshot : Snapshot) (path : Bytes)
    → Dealt path snapshot.diagnostics (godot_error_list snapshot path) (godot_warning_list snapshot)
      × (godot_snapshot_valid snapshot ≡ is_empty (godot_error_list snapshot path))
valid-errors-warnings snapshot path = (
  (unfold godot_error_list godot_warning_list in lists-Dealt path snapshot.diagnostics),
  (unfold godot_snapshot_valid snapshot_valid godot_error_list in
      sym (valid_errors path snapshot.diagnostics)),
)

-- A position that an entry can show.
abbrev pub IsPosition : ℕ → Type 0
IsPosition n = (0 < n) × (n ≤ 2 ^ 31)

-- An error of one of the diagnostics, in range.
abbrev pub ErrorAmong : List Diagnostic → Bytes → ErrorEntry → Type 0
ErrorAmong ds path e =
    (d : Diagnostic) × Memᴰ d ds × IsErrorOf path d e × IsPosition e.line × IsPosition e.column

-- A warning of one of the diagnostics, in range, with its lines in order if they are.
abbrev pub WarningAmong : List Diagnostic → WarningEntry → Type 0
WarningAmong ds w =
    (d : Diagnostic) × Memᴰ d ds
    × IsWarningOf d w
    × IsPosition w.start_line
    × IsPosition w.end_line
    × (d.range.start.line ≤ d.range.end.line → w.start_line ≤ w.end_line)
