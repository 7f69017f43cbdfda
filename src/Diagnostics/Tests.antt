-- ===== src/Diagnostics/Tests.antt =====
-- Runs of src/diagnostics on the inputs of tests/diagnostics, and the theorems on paths and
-- diagnostics at concrete inputs.
mod Store
use gzscript.Base.{
  ◌≡◌, refl, ◌↔◌, ℕ, ◌+◌, ◌^◌, ◌≤◌, ◌<◌, Bool, true, false, ◌∷◌, [], ◌++◌, List, Bytes, codes,
  is_empty, length, ◌===◌,
}
use gzscript.Diagnostics.Model.{
  Source, Diagnostic, Snapshot, error, warning, zls, zig_compiler, diagnostic_equal,
  diagnostic_less,
}
use gzscript.Diagnostics.Model.Ordering.{
  Key, key, key_order, diagnostic_equal_iff, diagnostic_less-eq-lex, tied_iff-key,
}
use gzscript.Base.Order.{Order}
use gzscript.Diagnostics.Path.{
  normalize_document_path, split_scheme, normalize_work, file_path, other_scheme, strip_prefix,
  find_mark, is_scheme, drop_slash, uri_decode, has_byte, starts_with_slash, render, collapse,
  file_scheme,
}
use gzscript.Diagnostics.Path.Idempotent.{once_is_enough, normalize_idem_iff, normalize-IsPath}
use gzscript.Diagnostics.Path.Segments.{IsPath}
use gzscript.Diagnostics.Path.Work.{up_of}
use gzscript.Diagnostics.Path.Uri.{normalize_file_uri}
use gzscript.Diagnostics.Adapter.{godot_snapshot_valid, godot_error_list, godot_warning_list}
use gzscript.Diagnostics.Adapter.Lists.{Dealt, valid-errors-warnings}

path_code : Unit {0}
unfolding normalize_document_path split_scheme normalize_work file_path other_scheme strip_prefix
    find_mark is_scheme drop_slash uri_decode has_byte starts_with_slash
path_code = tt

paths :
    (normalize_document_path (codes "/game/a/../scripts//p.zig") ≡ codes "/game/scripts/p.zig")
    × (normalize_document_path (codes "a/./b/../c.zig") ≡ codes "a/c.zig")
    × (normalize_document_path (codes "../../a/..") ≡ codes "../..")
    × (normalize_document_path (codes "C:/../a") ≡ codes "C:/a")
    × (normalize_document_path (codes "/game/scripts/") ≡ codes "/game/scripts")
    × (normalize_document_path (codes "file:///game/my%20dir/p.zig") ≡ codes "/game/my dir/p.zig")
    × (normalize_document_path (codes "file://host/%2x") ≡ codes "/host/%2x")
    × (normalize_document_path (codes "res://a/./b.zig") ≡ codes "res://a/b.zig")
    × (normalize_document_path (codes "res:////a") ≡ codes "res:///a")
unfolding path_code ◌===◌
paths = (refl, refl, refl, refl, refl, refl, refl, refl, refl)

abbrev res_path : Bytes
res_path = codes "res:////a"

normalize_idem_iff_example :
    (normalize_document_path (normalize_document_path res_path) ≡ normalize_document_path res_path)
    ↔ (once_is_enough res_path ≡ true)
normalize_idem_iff_example = normalize_idem_iff res_path

normalize-IsPath_example :
    (parts : List Bytes) × (normalize_document_path res_path
      ≡ (split_scheme res_path).0 ++ render (starts_with_slash (split_scheme res_path).1) parts)
    × IsPath (up_of (collapse false (split_scheme res_path).1)) true parts
normalize-IsPath_example = normalize-IsPath res_path

normalize_file_uri_example :
    normalize_document_path (codes "file:///a/../b") ≡ normalize_document_path (codes "/a/../b")
unfolding path_code
normalize_file_uri_example = normalize_file_uri (codes "a/../b") refl

abbrev unused : Diagnostic
unused = record {
  document_path = codes "/a";
  range = record { start = record { line = 3; column = 4 }; end = record { line = 3; column = 9 } };
  severity = error;
  origin = record { kind = zig_compiler; name = codes "zig" };
  message = codes "unused";
  code = [];
}

-- The same place, with a longer range.
abbrev longer : Diagnostic
longer = record unused {
  range = record { start = record { line = 3; column = 4 }; end = record { line = 4; column = 0 } };
}

abbrev two : Snapshot
two = record {
  document_path = codes "/a";
  generation = 1;
  diagnostics = unused ∷ record longer { severity = warning } ∷ [];
}

diagnostic_less-eq-lex_example :
    diagnostic_less unused longer ≡ key_order.lt (key unused) (key longer)
diagnostic_less-eq-lex_example = diagnostic_less-eq-lex unused longer

valid-errors-warnings_example :
    Dealt
      (codes "res://a")
      two.diagnostics
      (godot_error_list two (codes "res://a"))
      (godot_warning_list two)
    × (godot_snapshot_valid two ≡ is_empty (godot_error_list two (codes "res://a")))
valid-errors-warnings_example = valid-errors-warnings two (codes "res://a")
