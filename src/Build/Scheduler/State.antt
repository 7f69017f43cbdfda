-- ===== src/Build/Scheduler/State.antt =====
-- The state of the build manager in src/gz_build_manager.cpp, what it asks of the system, and the
-- changes of the state that its methods are made of.
use gzscript.Base.{
  ℕ, Bool, true, not, List, [], ◌∷◌, ◌++◌, Bytes, codes, Option, some, none, false, is_none,
}
use gzscript.Base.Assoc.{erase}
use gzscript.Build.Queue.{
  CompiledModule, Script, CompilePlan, CompileRequest, ActiveCompile, Manager, set_script,
}
use gzscript.Build.Cache.{Files, Disk}
use gzscript.Build.Plan.{Project, ZigVersion}

-- `GzFileLock::Result`
pub data LockResult : Type 0 where
  acquired : LockResult
  busy : LockResult
  lock_error : Bytes → LockResult

-- What the system answers to the n-th question, and what others do to the files before it. `start`
-- is `execute_with_pipe` and gives a process; a pipe has what can be read of it, or is closed.
pub record World : Type 0 where
  pub disk : Disk CompiledModule
  pub project : ℕ → Project
  pub outside : ℕ → Files → Files
  pub try_lock : ℕ → Bytes → LockResult
  pub start : ℕ → Bytes → List Bytes → Option ℕ
  pub is_process_running : ℕ → ℕ → Bool
  pub get_ticks_msec : ℕ → ℕ
  pub read_pipe : ℕ → Option Bytes
  pub get_process_exit_code : ℕ → ℕ → ℕ

-- What others see of the manager.
pub data Event : Type 0 where
  published : ℕ → CompiledModule → Event
  changed : ℕ → Event
  script_compiled : Event
  started : ℕ → Event
  terminated : ℕ → Event

-- The build manager with the files it works on, and the counter of running compilers.
pub record Scheduler : Type 0 where
  pub manager : Manager
  pub last_diagnostics : Bytes
  pub next_request_id : ℕ
  pub cached : ZigVersion
  pub files : Files
  pub compile_jobs : ℕ
  pub events : List Event
  pub reads : ℕ

-- A new object: nothing is queued, nothing runs, and no compiler has been asked for its version.
abbrev pub new_scheduler : (ℕ → Script) → Files → Scheduler
new_scheduler scripts files = record {
  manager = record {
    scripts = scripts;
    pending = [];
    active = none;
    shutdown_started = false;
    errors = [];
  };
  last_diagnostics = [];
  next_request_id = 1;
  cached = record { executable = []; version = [] };
  files = files;
  compile_jobs = 0;
  events = [];
  reads = 0;
}

-- A round of the loop of `start_next`: it goes on, or it returns.
pub data Round : Type 0 where
  again : Scheduler → Round
  stop : Scheduler → Round

abbrev pub with_pending : List CompileRequest → Scheduler → Scheduler
with_pending pending s = record s { manager = record s.manager { pending = pending } }

abbrev pub push_front : CompileRequest → Scheduler → Scheduler
push_front request s = with_pending (request ∷ s.manager.pending) s

abbrev pub with_active : Option ActiveCompile → Scheduler → Scheduler
with_active active s = record s { manager = record s.manager { active = active } }

abbrev pub with_script : ℕ → Script → Scheduler → Scheduler
with_script id script s = record s {
  manager = record s.manager { scripts = set_script id script s.manager.scripts };
}

abbrev pub script_of : ℕ → Scheduler → Script
script_of id s = s.manager.scripts id

abbrev pub emit : Event → Scheduler → Scheduler
emit event s = record s { events = s.events ++ event ∷ [] }

abbrev pub print_error : Bytes → Scheduler → Scheduler
print_error text s = record s {
  manager = record s.manager { errors = s.manager.errors ++ (codes "gzscript: " ++ text) ∷ [] };
}

abbrev pub report_error : Bytes → Scheduler → Scheduler
report_error text s = record (print_error text s) { last_diagnostics = text }

abbrev pub remove_file : Bytes → Scheduler → Scheduler
remove_file path s = record s { files = erase path s.files }

-- A request that fails leaves the script with the module it had.
abbrev pub mark_failed : ℕ → Scheduler → Scheduler
mark_failed id s =
    let script = script_of id s in
    emit (changed id) (with_script id (record script { valid = not (is_none script.compiled) }) s)

-- `publish_module`, and the signal after it.
abbrev pub publish_module : ℕ → CompiledModule → Scheduler → Scheduler
publish_module id compiled s = emit script_compiled (
    emit (published id compiled)
      (with_script id (record (script_of id s) { valid = true; compiled = some compiled }) s))

-- What `std::move` leaves of a plan.
abbrev pub moved_plan : CompilePlan → CompilePlan
moved_plan plan = record {
  resource_path = [];
  source = [];
  key = [];
  output = [];
  compile_output = [];
  generated = [];
  zig_executable = [];
  arguments = [];
  needs_compile = plan.needs_compile;
  hash_path = [];
  lock_path = [];
  stamp_output = [];
  source_hash = [];
}
