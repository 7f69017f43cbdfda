-- ===== src/Build/Plan.antt =====
-- `prepare` of src/gz_build_manager.cpp: what is compiled, how, and where to.
pub mod Environment
pub mod Adapter
pub mod Tree
pub mod Key
unfoldable pub use Environment.*
use gzscript.Base.{
  ℕ, ◌+◌, ◌==◌, if◌then◌else◌, Bool, true, false, not, ◌&&◌, ◌||◌, List, [], ◌∷◌, ◌++◌, Bytes,
  ◌===◌, codes, Option, none, some, is_empty, is_none,
}
use gzscript.Base.Assoc.{lookup}
use gzscript.Lsp.Frame.{to_string}
use gzscript.Build.Queue.{CompilePlan}
use gzscript.Build.Identity.{
  platform_name, module_extension, zig_target, valid_optimization, Inputs, compilation_identity,
}
use gzscript.Build.Cache.{Files, Disk, cache_stamp_matches}
use gzscript.Build.Dependencies.{
  Paths, or_empty, Walked, walked, refused, unfinished, append_dependencies,
}
use gzscript.Build.Plan.Adapter.{adapter_source}
use gzscript.Build.Plan.Tree.{Directory, Treed, hashed, unreadable, append_source_tree}

module _ (p : Project) where
  -- The answer to `zig version`, when it is asked.
  abbrev pub version_answer : Bytes → ℕ × Bytes → ZigVersion → Option Bytes × ZigVersion
  version_answer zig (code, text) cached =
      let version = p.strip_edges text in
      if not (code == 0) || is_empty version
      then (
        some (
            codes "Unable to query Zig compiler version from "
            ++ (zig
                ++ (codes " (exit "
                    ++ (to_string code
                        ++ (codes ")" ++ (if is_empty version then [] else 10 ∷ version)))))),
        cached,
      )
      else (none, record { executable = zig; version = version })

  -- The version is asked for when the compiler is another one, or none was asked.
  unfoldable pub query_version : Bytes → ZigVersion → Option Bytes × ZigVersion
  query_version zig cached =
      if not (cached.executable === zig) || is_empty cached.version
      then version_answer zig (p.run zig (codes "version" ∷ [])) cached
      else (none, cached)

  abbrev pub user_tree_or : Walked → Treed → Treed
  user_tree_or (walked fingerprint) all_files = hashed fingerprint
  user_tree_or (refused text) all_files = all_files
  user_tree_or unfinished all_files = all_files

  -- When the imports cannot be followed, all files beside the source count.
  unfoldable pub user_tree : Bytes → Files → Treed
  unfolding append_dependencies append_source_tree
  user_tree source_path files =
      let beside = p.paths.base_dir source_path in
      user_tree_or (append_dependencies p.paths files source_path)
        (append_source_tree p.paths files beside true (p.tree beside) [] [])

  unfoldable pub sdk_tree : Files → Treed
  unfolding append_source_tree
  sdk_tree files =
      append_source_tree p.paths files (zig_path p []) false (p.tree (zig_path p [])) [] []

  -- What goes into the identity.
  abbrev pub inputs_of : Bytes → Bytes → Bytes → ZigVersion → Bytes → Bytes → Inputs
  inputs_of resource_path source zig version user sdk = record {
    resource_path = p.paths.simplify_path (p.globalize_path resource_path);
    source = normalize_source p source;
    user_tree = user;
    sdk_tree = sdk;
    adapter = adapter_source;
    abi = codes "5";
    zig_executable = zig;
    zig_version = version.version;
    platform = platform p;
    architecture = p.architecture;
    target = target p;
    optimization = p.optimization;
  }

  abbrev pub key_of : Inputs → Bytes
  key_of inputs = p.paths.sha256 (compilation_identity inputs)

  -- The names that no other process and no other request uses.
  abbrev pub request_suffix : ℕ → Bytes
  request_suffix id = to_string p.process_id ++ (codes "_" ++ to_string id)

  abbrev pub compiler_cache : Bytes
  compiler_cache = p.paths.path_join (cache_root p) (codes "zig-cache/" ++ to_string p.process_id)

  abbrev pub compiler_arguments : Bytes → Bytes → Bytes → List Bytes
  compiler_arguments source_path generated compile_output =
      codes "build-lib"
      ∷ codes "-dynamic"
      ∷ codes "-target"
      ∷ target p
      ∷ codes "-O"
      ∷ p.optimization
      ∷ codes "--cache-dir"
      ∷ compiler_cache
      ∷ (codes "-femit-bin=" ++ compile_output)
      ∷ codes "--dep"
      ∷ codes "godot"
      ∷ codes "--dep"
      ∷ codes "user_script"
      ∷ (codes "-Mroot=" ++ generated)
      ∷ codes "--dep"
      ∷ codes "godot"
      ∷ codes "-target"
      ∷ target p
      ∷ (codes "-Muser_script=" ++ source_path)
      ∷ codes "-target"
      ∷ target p
      ∷ (codes "-Mgodot=" ++ zig_path p (codes "godot.zig"))
      ∷ []

  module _ {M : Type 0} (disk : Disk M) where
    unfoldable pub make_plan : Bytes → Bytes → Bytes → Bytes → ℕ → Files → CompilePlan
    unfolding cache_stamp_matches
    make_plan resource_path source zig key id files =
        let generated = p.paths.path_join (cache_root p) (
          codes "generated/script_"
          ++ (key ++ (codes "_" ++ (request_suffix id ++ codes ".zig")))) in
        let output =
          p.paths.path_join (module_directory p) (codes "script_" ++ (key ++ extension p)) in
        let compile_output =
          p.paths.path_join (cache_root p)
            (codes "compile_" ++ (key ++ (codes "_" ++ (request_suffix id ++ extension p)))) in
        let hash_path = output ++ codes ".hash" in
        record {
          resource_path = resource_path;
          source = source;
          key = key;
          output = output;
          compile_output = compile_output;
          generated = generated;
          zig_executable = zig;
          arguments = compiler_arguments (p.globalize_path resource_path) generated compile_output;
          needs_compile = not (cache_stamp_matches disk output hash_path key files);
          hash_path = hash_path;
          lock_path = output ++ codes ".lock";
          stamp_output =
              hash_path
              ++ (codes "."
                  ++ (to_string p.process_id ++ (codes "." ++ (to_string id ++ codes ".tmp"))));
          source_hash = key;
        }

    -- The compiler has a cache directory for each process.
    abbrev pub with_cache : CompilePlan → Prepared
    with_cache plan =
        let error = p.make_dir compiler_cache in
        if error == 0
        then prepared plan
        else not_prepared (
            codes "Unable to create Zig compiler cache directories (Error "
            ++ (to_string error ++ codes ")"))

    abbrev pub with_trees :
        Bytes → Bytes → Bytes → ZigVersion → ℕ → Files → Treed → Treed → Prepared
    with_trees resource_path source zig version id files (unreadable text) sdk = not_prepared text
    with_trees resource_path source zig version id files (hashed user) (unreadable text) =
        not_prepared text
    with_trees resource_path source zig version id files (hashed user) (hashed sdk) = with_cache (
        make_plan resource_path source zig
          (key_of (inputs_of resource_path source zig version user sdk)) id files)

    abbrev pub with_version :
        Bytes → Bytes → Bytes → ℕ → Files → Option Bytes × ZigVersion → Prepared × ZigVersion
    with_version resource_path source zig id files (some text, version) =
        (not_prepared text, version)
    with_version resource_path source zig id files (none, version) =
        if not (version.version === codes "0.16.0")
        then (
          not_prepared (
              codes "Zig "
              ++ (version.version ++ codes " is incompatible with gzscript; expected Zig 0.16.0")),
          version,
        )
        else (
          with_trees resource_path source zig version id files
              (user_tree (p.globalize_path resource_path) files) (sdk_tree files),
          version,
        )

    unfoldable pub prepare : Bytes → Bytes → ℕ → Files → ZigVersion → Prepared × ZigVersion
    unfolding input_error get_zig_executable query_version user_tree sdk_tree make_plan
    prepare resource_path source id files cached =
        if not p.is_main_thread
        then (wrong_thread, cached)
        else elim (input_error p resource_path source files) [
          | some text ↦ (not_prepared text, cached)
          | none ↦
              let zig = get_zig_executable p files in
              with_version resource_path source zig id files (query_version zig cached)
        ]
