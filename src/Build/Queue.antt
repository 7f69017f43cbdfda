-- ===== src/Build/Queue.antt =====
-- The queue of src/gz_build_manager.cpp: `queue_compile`, `queue_saved`, `queue_all`,
-- `is_compiling`, and what is read of the compiler's output (`drain`).
pub mod Requests
pub mod Kept
use gzscript.Base.{
  ℕ, zero, suc, ◌+◌, ◌-◌, ◌*◌, ◌==◌, ltb, if◌then◌else◌, Bool, true, false, not, ◌&&◌, ◌||◌, List,
  [], ◌∷◌, ◌++◌, Bytes, ◌===◌, codes, Option, none, some, length, take, is_empty, is_none, add64,
  min,
}

-- A loaded module: its path, and a number that stands for the pointer to it.
pub record CompiledModule : Type 0 where
  pub get_path : Bytes
  pub handle : ℕ

-- What the build manager knows of a `GzScript`.
pub record Script : Type 0 where
  pub path : Bytes
  pub source : Bytes
  pub compile_generation : ℕ
  pub valid : Bool
  pub compiled : Option CompiledModule

pub record CompilePlan : Type 0 where
  pub resource_path : Bytes
  pub source : Bytes
  pub key : Bytes
  pub output : Bytes
  pub compile_output : Bytes
  pub generated : Bytes
  pub zig_executable : Bytes
  pub arguments : List Bytes
  pub needs_compile : Bool
  pub hash_path : Bytes
  pub lock_path : Bytes
  pub stamp_output : Bytes
  pub source_hash : Bytes

-- A script is known by a number, which stands for the pointer to it.
pub record CompileRequest : Type 0 where
  pub script : ℕ
  pub resource_path : Bytes
  pub source : Bytes
  pub generation : ℕ
  pub prepared : Option CompilePlan

-- The running compiler, which holds the lock of its plan.
pub record ActiveCompile : Type 0 where
  pub request : CompileRequest
  pub plan : CompilePlan
  pub output : Bytes
  pub output_truncated : Bool
  pub timed_out : Bool
  pub pid : ℕ
  pub started_at_msec : ℕ

pub record Manager : Type 0 where
  pub scripts : ℕ → Script
  pub pending : List CompileRequest
  pub active : Option ActiveCompile
  pub shutdown_started : Bool
  pub errors : List Bytes

-- Whether a request is for this script, and for what it is now.
unfoldable pub is_current : ℕ → Script → CompileRequest → Bool
is_current id script request =
    (request.script == id)
    && ((request.resource_path === script.path) && (request.source === script.source))

abbrev pub is_active : ℕ → Script → Option ActiveCompile → Bool
is_active id script none = false
is_active id script (some active) = is_current id script active.request

unfoldable pub is_queued : ℕ → Script → List CompileRequest → Bool
unfolding is_current
is_queued id script [] = false
is_queued id script (queued ∷ rest) = is_current id script queued || is_queued id script rest

-- The first request for the same script is replaced, or the request comes last.
unfoldable pub enqueue : CompileRequest → List CompileRequest → List CompileRequest
enqueue request [] = request ∷ []
enqueue request (queued ∷ rest) =
    let later = enqueue request rest in
    if queued.script == request.script then request ∷ rest else queued ∷ later

-- The scripts with one of them changed.
abbrev pub set_script : ℕ → Script → (ℕ → Script) → ℕ → Script
set_script id script scripts other = if other == id then script else scripts other

-- The request that is made, with a new generation of the script.
abbrev pub add_request : ℕ → Manager → Manager
add_request id m =
    let script = m.scripts id in
    let generation = add64 script.compile_generation 1 in
    let request : CompileRequest = record {
      script = id;
      resource_path = script.path;
      source = script.source;
      generation = generation;
      prepared = none;
    } in
    record m {
      scripts = set_script id (record script { compile_generation = generation }) m.scripts;
      pending = enqueue request m.pending;
    }

abbrev pub not_on_main : Bytes
not_on_main = codes "gzscript: Zig compilation must be queued on the main thread"

-- What the manager asks of its surroundings.
pub record Surroundings : Type 0 where
  pub is_shutting_down : Bool
  pub is_main_thread : Bool
  pub absolute_path : Bytes → Bytes
  pub file_text : Bytes → Bytes

module _ (w : Surroundings) where
  -- `none` is a null script.
  unfoldable pub queue_compile : Option ℕ → Manager → Manager
  unfolding is_queued enqueue
  queue_compile none m =
      if m.shutdown_started || (w.is_shutting_down || w.is_main_thread)
      then m
      else record m { errors = m.errors ++ not_on_main ∷ [] }
  queue_compile (some id) m =
      if m.shutdown_started || w.is_shutting_down
      then m
      else if not w.is_main_thread
      then record m { errors = m.errors ++ not_on_main ∷ [] }
      else if is_empty (m.scripts id).path
          || (is_active id (m.scripts id) m.active || is_queued id (m.scripts id) m.pending)
      then m
      else add_request id m

  -- `absolute_path` is `globalize_path` and then `simplify_path`.
  unfoldable pub queue_saved : Option ℕ → Bytes → Manager → Manager
  unfolding queue_compile
  queue_saved none saved m = m
  queue_saved (some id) saved m =
      let path = (m.scripts id).path in
      if not (is_empty path) && (w.absolute_path path === w.absolute_path saved)
      then queue_compile (some id) m
      else m

  -- `set_source` with the text of the script's file.
  abbrev pub read_source : ℕ → Manager → Manager
  read_source id m =
      let script = m.scripts id in
      record m {
        scripts = set_script id (record script { source = w.file_text script.path }) m.scripts;
      }

  -- The loop of `queue_all`, over the scripts that there are.
  unfoldable pub queue_each : List ℕ → Manager → Manager
  unfolding queue_compile
  queue_each [] m = m
  queue_each (id ∷ rest) m =
      queue_each rest
        (if is_empty (m.scripts id).path then m else queue_compile (some id) (read_source id m))

  unfoldable pub queue_all : List ℕ → Manager → Manager
  unfolding queue_each
  queue_all ids m =
      if w.is_main_thread
      then queue_each ids m
      else record m { errors = m.errors ++ not_on_main ∷ [] }

  -- The calls that queue scripts.
  pub data QueueCall : Type 0 where
    compile_call : Option ℕ → QueueCall
    saved_call : Option ℕ → Bytes → QueueCall
    all_call : List ℕ → QueueCall

  unfoldable pub perform_all : List QueueCall → Manager → Manager
  unfolding queue_compile queue_saved queue_all
  perform_all [] m = m
  perform_all (compile_call o ∷ calls) m = perform_all calls (queue_compile o m)
  perform_all (saved_call o path ∷ calls) m = perform_all calls (queue_saved o path m)
  perform_all (all_call ids ∷ calls) m = perform_all calls (queue_all ids m)

  unfoldable pub is_compiling : Manager → Bool
  is_compiling m = w.is_main_thread && (not (is_none m.active) || not (is_empty m.pending))

-- `COMPILER_OUTPUT_LIMIT`
abbrev pub compiler_output_limit : ℕ
compiler_output_limit = 64 * 1024

-- `drain` of a pipe that is open or not: what is kept of what is available, and whether some was
-- dropped.
unfoldable pub drain_output : Bool → Bytes → Bytes × Bool → Bytes × Bool
drain_output is_open available (output, truncated) =
    let bytes = take (64 * 1024) available in
    let retained = min (compiler_output_limit - length output) (length bytes) in
    if is_open
    then (output ++ take retained bytes, truncated || ltb retained (length bytes))
    else (output, truncated)
