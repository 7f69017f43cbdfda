-- ===== src/Build/Plan/Environment.antt =====
-- What `prepare` of src/gz_build_manager.cpp finds in a project: paths, the target, the compiler, and
-- what is wrong before the compiler is asked (`normalize_source`, `zig_path`, `get_zig_executable`).
use gzscript.Base.{
  ℕ, ◌==◌, if◌then◌else◌, Bool, not, ◌&&◌, ◌||◌, List, [], ◌∷◌, ◌++◌, Bytes, ◌===◌, codes, Option,
  none, some, is_empty, is_none,
}
use gzscript.Base.Assoc.{lookup}
use gzscript.Lsp.Frame.{to_string}
use gzscript.Build.Queue.{CompilePlan}
use gzscript.Build.Identity.{platform_name, module_extension, zig_target, valid_optimization}
use gzscript.Build.Cache.{Files}
use gzscript.Build.Dependencies.{Paths, or_empty}
use gzscript.Build.Plan.Tree.{Directory}

-- What `prepare` asks of Godot. `make_dir` gives the number of an error, `run` is `run_process`.
pub record Project : Type 0 where
  pub is_main_thread : Bool
  pub paths : Paths
  pub globalize_path : Bytes → Bytes
  pub os_name : Bytes
  pub architecture : Bytes
  pub make_dir : Bytes → ℕ
  pub strip_edges : Bytes → Bytes
  pub replace : Bytes → Bytes → Bytes → Bytes
  pub optimization : Bytes
  pub zig_setting : Option Bytes
  pub get_environment : Bytes → Bytes
  pub run : Bytes → List Bytes → ℕ × Bytes
  pub process_id : ℕ
  pub tree : Bytes → Directory

-- `cached_zig_executable` and `cached_zig_version`
pub record ZigVersion : Type 0 where
  pub executable : Bytes
  pub version : Bytes

pub data Prepared : Type 0 where
  prepared : CompilePlan → Prepared
  not_prepared : Bytes → Prepared
  wrong_thread : Prepared

-- The first of the checks that fails.
abbrev pub fail_if : Bool → Bytes → Option Bytes → Option Bytes
fail_if bad text rest = if bad then some text else rest

module _ (p : Project) where
  abbrev pub normalize_source : Bytes → Bytes
  normalize_source text = p.strip_edges (p.replace text (13 ∷ 10 ∷ []) (10 ∷ []))

  abbrev pub zig_path : Bytes → Bytes
  zig_path relative = p.globalize_path (codes "res://addons/gzscript/zig/" ++ relative)

  -- Where a user keeps zig, if a file is there.
  abbrev pub zig_at_home : Bytes → Files → Bytes
  zig_at_home home files =
      let executable = if p.os_name === codes "Windows" then codes "zig.exe" else codes "zig" in
      let zvm_path = p.paths.path_join (p.paths.path_join home (codes ".zvm/bin")) executable in
      if not (is_empty home) && not (is_none (lookup zvm_path files)) then zvm_path else executable

  unfoldable pub get_zig_executable : Files → Bytes
  get_zig_executable files =
      let configured = or_empty p.zig_setting in
      let from_environment = p.get_environment (codes "GZSCRIPT_ZIG_PATH") in
      let home = p.get_environment (codes "HOME") in
      if not (is_empty configured)
      then configured
      else if not (is_empty from_environment)
      then from_environment
      else zig_at_home (if is_empty home then p.get_environment (codes "USERPROFILE") else home)
          files

  abbrev pub project_root : Bytes
  project_root = p.globalize_path (codes "res://")

  abbrev pub cache_root : Bytes
  cache_root = p.paths.path_join project_root (codes ".godot/gzscript")

  abbrev pub platform : Bytes
  platform = platform_name p.os_name

  abbrev pub target : Bytes
  target = zig_target platform p.architecture

  abbrev pub extension : Bytes
  extension = module_extension platform

  abbrev pub module_directory : Bytes
  module_directory =
      p.paths.path_join cache_root (codes "modules/" ++ (platform ++ (codes "-" ++ p.architecture)))

  -- The second directory is made when the first could be.
  abbrev pub directory_error : ℕ
  directory_error =
      let first = p.make_dir (p.paths.path_join cache_root (codes "generated")) in
      if first == 0 then p.make_dir module_directory else first

  -- What is checked before the compiler is asked for its version.
  unfoldable pub input_error : Bytes → Bytes → Files → Option Bytes
  unfolding platform_name zig_target module_extension
  input_error resource_path source files =
      let source_path = p.globalize_path resource_path in
      fail_if (is_empty platform || (is_empty extension || is_empty target))
        (codes "gzscript runtime compilation does not support target "
          ++ (platform ++ (codes "-" ++ p.architecture)))
        (fail_if (not (directory_error == 0))
          (codes "Unable to create gzscript cache directories (Error "
            ++ (to_string directory_error ++ codes ")"))
          (fail_if (is_none (lookup source_path files))
            (codes "Zig script not found: " ++ source_path)
            (fail_if
              (not (
                normalize_source (or_empty (lookup source_path files)) === normalize_source source))
              (codes "Zig source for "
                ++ (resource_path
                    ++ codes " does not match the file on disk; save it before compiling"))
              (fail_if (not (valid_optimization p.optimization))
                (codes "Unsupported Zig optimization mode: " ++ p.optimization) none))))
