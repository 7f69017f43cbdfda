-- ===== src/Build/Tests/Scheduling.antt =====
-- The theorems on how src/gz_build_manager.cpp plans and schedules compilations, at concrete inputs.
use mathlib.Core.List.{Memᴰ}
use gzscript.Base.{
  ℕ, ◌≡◌, refl, if◌then◌else◌, is_empty, ◌≢◌, ◌⊎◌, true, false, List, [], ◌∷◌, ◌++◌, Bytes, ◌===◌,
  codes, Option, none, some, arith,
}
use gzscript.Base.Assoc.{lookup, erase, update}
use gzscript.Base.Sort.{any}
use gzscript.Build.Sources.{SourceDependency}
use gzscript.Build.Identity.{identity_of, compilation_identity}
use gzscript.Lsp.Frame.{to_string}
use gzscript.Build.Plan.{Project, ZigVersion, prepared, prepare, make_plan, key_of, inputs_of}
use gzscript.Build.Plan.Adapter.{adapter_source}
use gzscript.Build.Plan.Tree.{directory, no_more}
use gzscript.Build.Plan.Key.{SameInputs, Collides, prepare-SameInputs}
use gzscript.Build.Scheduler.{World, acquired, lock_error, Scheduler, moved_plan, start_next}
use gzscript.Build.Scheduler.{new_scheduler}
use gzscript.Build.Scheduler.Pump.{
  pump, settle, complete_active, shutdown, uncalled, pumped, queued,
}
use gzscript.Build.Scheduler.Invariant.{IsSound}
use gzscript.Build.Scheduler.Always.{calls-IsSound}
use gzscript.Build.Scheduler.Ends.{start_next_ends}
use gzscript.Build.Scheduler.Closes.{IsOver, shutdown-IsOver}
use gzscript.Build.Scheduler.Publish.{IsPublished, IsCurrent, settle-IsCurrent}
use gzscript.Build.Queue.{
  Surroundings, compile_call, perform_all, queue_compile, CompiledModule, Script, CompilePlan,
  CompileRequest, ActiveCompile,
}
use gzscript.Build.Cache.{Files, cache_stamp_matches, LoadResult, loaded, load_error, Disk}
use gzscript.Build.Dependencies.{Paths, unfinished, append_dependencies}
use gzscript.Build.Dependencies.Depends.{root, Depends, entry}
use gzscript.Build.Dependencies.Cover.{append_dependencies_covers}
use gzscript.Build.Dependencies.Rounds.{append_dependencies_ends}

-- Paths are names in one directory, and a hash is the content.
abbrev paths : Paths
paths = record {
  simplify_path = λ path. path;
  base_dir = λ path. [];
  extension = λ path. codes "zig";
  path_join = λ dir path. path;
  sha256 = λ text. text;
}

abbrev sources : Files
sources = (codes "a.zig", codes "@import(\"b.zig\")") ∷ (codes "b.zig", codes "x") ∷ []

abbrev user_fingerprint : Bytes
user_fingerprint = codes "b.zig:1:x" ++ 10 ∷ []

append_dependencies_covers_example :
    (es : List (Bytes × Bytes)) × ((user_fingerprint ≡ identity_of [] es)
      × (((d : SourceDependency)
            → Depends paths sources (codes "a.zig") d
            → (d ≡ root paths sources (codes "a.zig"))
              ⊎ Memᴰ (entry paths sources (codes "a.zig") d) es)
          × ((p : Bytes × Bytes)
              → Memᴰ p es
              → (d : SourceDependency) × (Depends paths sources (codes "a.zig") d
                  × (p ≡ entry paths sources (codes "a.zig") d)))))
unfolding append_dependencies lookup ◌===◌ any to_string
append_dependencies_covers_example =
    append_dependencies_covers paths sources (codes "a.zig") user_fingerprint refl

append_dependencies_ends_example : append_dependencies paths sources (codes "a.zig") ≢ unfinished
append_dependencies_ends_example = append_dependencies_ends paths sources (codes "a.zig")

abbrev project : Project
project = record {
  is_main_thread = true;
  paths = paths;
  globalize_path = λ path. path;
  os_name = codes "Linux";
  architecture = codes "x86_64";
  make_dir = λ path. 0;
  strip_edges = λ text. text;
  replace = λ text what forwhat. text;
  optimization = codes "Debug";
  zig_setting = some (codes "zig");
  get_environment = λ name. [];
  run = λ executable arguments. (0, codes "0.16.0");
  process_id = 5;
  tree = λ path. directory [] no_more;
}

abbrev load_module : Bytes → Option Bytes → LoadResult CompiledModule
load_module path none = load_error (codes "missing")
load_module path (some content) = loaded (record { get_path = path; handle = 3 })

abbrev disk : Disk CompiledModule
disk = record {
  sha256 = λ content. codes "f";
  write_fault = λ path. none;
  rename_fails = λ path. false;
  strip_edges = λ text. text;
  load = load_module;
}

abbrev unknown : ZigVersion
unknown = record { executable = []; version = [] }

abbrev known : ZigVersion
known = record { executable = codes "zig"; version = codes "0.16.0" }

abbrev source_text : Bytes
source_text = codes "@import(\"b.zig\")"

abbrev key : Bytes
key =
    key_of project
      (inputs_of project (codes "a.zig") source_text (codes "zig") known user_fingerprint [])

abbrev planned : ℕ → Files → CompilePlan
planned id files = make_plan project disk (codes "a.zig") source_text (codes "zig") key id files

prepared_1 :
    (prepare project disk (codes "a.zig") source_text 1 sources unknown).0
    ≡ prepared (planned 1 sources)
unfolding prepare lookup ◌===◌ any to_string
prepared_1 = refl

prepared_2 :
    (prepare project disk (codes "a.zig") source_text 2 sources known).0
    ≡ prepared (planned 2 sources)
unfolding prepare lookup ◌===◌ any to_string
prepared_2 = refl

prepare-SameInputs_example :
    SameInputs project project (codes "a.zig") (codes "a.zig") sources sources
    ⊎ Collides project project
        (codes "a.zig")
        (codes "a.zig")
        source_text
        source_text
        sources
        sources
        (planned 1 sources)
        (planned 2 sources)
unfolding make_plan
prepare-SameInputs_example =
    prepare-SameInputs disk project project (codes "a.zig") (codes "a.zig") source_text source_text
      1 2 sources sources unknown known (planned 1 sources) (planned 2 sources) prepared_1
      prepared_2 refl

abbrev world : World
world = record {
  disk = disk;
  project = λ n. project;
  outside = λ n files. files;
  try_lock = λ n path. acquired;
  start = λ n executable arguments. some 7;
  is_process_running = λ n pid. true;
  get_ticks_msec = λ n. n;
  read_pipe = λ n. none;
  get_process_exit_code = λ n pid. 0;
}

abbrev script_a : Script
script_a = record {
  path = codes "a.zig";
  source = source_text;
  compile_generation = 1;
  valid = false;
  compiled = none;
}

abbrev request_a : CompileRequest
request_a = record {
  script = 0;
  resource_path = codes "a.zig";
  source = source_text;
  generation = 1;
  prepared = none;
}

abbrev waiting : Scheduler
waiting = record {
  manager = record {
    scripts = λ id. script_a;
    pending = request_a ∷ [];
    active = none;
    shutdown_started = false;
    errors = [];
  };
  last_diagnostics = [];
  next_request_id = 1;
  cached = unknown;
  files = sources;
  compile_jobs = 0;
  events = [];
  reads = 0;
}

abbrev around : Surroundings
around = record {
  is_shutting_down = false;
  is_main_thread = true;
  absolute_path = λ path. path;
  file_text = λ path. source_text;
}

-- A new manager is asked to compile the script.
abbrev asked : Scheduler
asked =
    let s = new_scheduler (λ id. script_a) sources in
    record s { manager = perform_all around (compile_call (some 0) ∷ []) s.manager }

asked_queues : (x : CompileRequest) × (asked.manager.pending ≡ x ∷ [])
unfolding perform_all queue_compile ◌===◌
asked_queues = (_, refl)

calls-IsSound_example : IsSound (pump world 2 asked).1
calls-IsSound_example =
    calls-IsSound world (λ id. script_a) sources (pump world 2 asked).1
      (pumped 2 (queued around (compile_call (some 0) ∷ []) uncalled))

-- The compiler was started and has written its output.
pump_starts : (pump world 2 waiting).1.compile_jobs ≡ 1
unfolding pump lookup ◌===◌ any to_string erase update cache_stamp_matches
pump_starts = refl

abbrev module_a : CompiledModule
module_a = record { get_path = (planned 1 sources).output; handle = 3 }

abbrev active_a : ActiveCompile
active_a = record {
  request = request_a;
  plan = planned 1 sources;
  output = [];
  output_truncated = false;
  timed_out = false;
  pid = 7;
  started_at_msec = 0;
}

abbrev compiled_a : Scheduler
compiled_a = record waiting {
  manager = record waiting.manager { pending = [] };
  files = ((planned 1 sources).compile_output, codes "module") ∷ sources;
}

settle-IsPublished : IsPublished world 0 module_a (settle world 0 active_a compiled_a).events
unfolding settle make_plan lookup ◌===◌ any to_string erase update cache_stamp_matches
    compilation_identity adapter_source
settle-IsPublished = Memᴰ.head refl

settle-IsCurrent_example :
    IsPublished world 0 module_a compiled_a.events
    ⊎ IsCurrent world 0 module_a 0 active_a compiled_a
settle-IsCurrent_example =
    settle-IsCurrent world 0 module_a 0 active_a compiled_a settle-IsPublished

start_next_ends_example : (start_next world 7 waiting).0 ≡ true
start_next_ends_example = start_next_ends world (λ n f. ground arith) 7 waiting (omega arith)

shutdown-IsOver_example :
    (t : Scheduler) × ((shutdown world 2001 waiting ≡ some t) × IsOver world t)
shutdown-IsOver_example = shutdown-IsOver world waiting (λ n less. omega arith) (omega arith)

-- A lock file without a name cannot be opened.
abbrev locks : World
locks = record world {
  try_lock = λ n path. if is_empty path then lock_error (codes "Unable to lock") else acquired;
}

-- The request had waited for the lock, so its plan was moved from.
abbrev waited : ActiveCompile
waited = record active_a {
  request = record request_a { prepared = some (moved_plan (planned 1 sources)) };
}

-- While the compiler ran, b.zig was changed.
abbrev changed_b : Scheduler
changed_b = record compiled_a {
  files = (codes "a.zig", codes "@import(\"b.zig\")") ∷ (codes "b.zig", codes "y") ∷ [];
}

-- The request is dropped, and no compiler runs.
moved_plan_drops :
    ((complete_active locks 3 0 waited changed_b).1.manager.pending ≡ [])
    × ((complete_active locks 3 0 waited changed_b).1.manager.active ≡ none)
unfolding complete_active make_plan lookup ◌===◌ any to_string erase update cache_stamp_matches
    compilation_identity adapter_source
moved_plan_drops = (refl, refl)

-- Without the moved plan it is compiled again.
fresh_request_stays : (complete_active locks 3 0 active_a changed_b).1.compile_jobs ≡ 1
unfolding complete_active make_plan lookup ◌===◌ any to_string erase update cache_stamp_matches
    compilation_identity adapter_source
fresh_request_stays = refl
