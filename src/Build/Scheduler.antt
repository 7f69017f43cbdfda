-- ===== src/Build/Scheduler.antt =====
-- How src/gz_build_manager.cpp compiles what is queued: `start_next`, `complete_active`, `pump` and
-- `shutdown`. What the methods ask of the system is a stream of answers, read in turn.
pub mod State
pub mod Pump
pub mod Invariant
pub mod Started
pub mod Loop
pub mod Stopped
pub mod Always
pub mod Publish
pub mod Ends
pub mod Closes
pub use State.*
use gzscript.Base.{
  ℕ, zero, suc, ◌+◌, ◌-◌, ◌*◌, ◌%◌, ◌^◌, ◌==◌, ltb, leb, if◌then◌else◌, Bool, true, false, not,
  ◌&&◌, ◌||◌, List, [], ◌∷◌, ◌++◌, Bytes, ◌===◌, codes, Option, none, some, is_empty, is_none,
  add64,
}
use gzscript.Base.Assoc.{lookup, erase}
use gzscript.Lsp.Frame.{to_string}
use gzscript.Build.Queue.{
  CompiledModule, Script, CompilePlan, CompileRequest, ActiveCompile, Manager, set_script,
  drain_output, compiler_output_limit,
}
use gzscript.Build.Cache.{Files, Disk, Finished, cache_stamp_matches, write_text, finish_compile}
use gzscript.Build.Plan.{
  Project, ZigVersion, Prepared, prepared, not_prepared, wrong_thread, prepare,
}
use gzscript.Build.Plan.Adapter.{adapter_source}

module _ (w : World) where
  -- The files as a question finds them.
  abbrev pub tick : Scheduler → Scheduler
  tick s = record s { files = w.outside s.reads s.files; reads = s.reads + 1 }

  abbrev pub after_prepare : Scheduler → Prepared × ZigVersion → Option CompilePlan × Scheduler
  after_prepare s (prepared plan, version) =
      (some plan, record s { last_diagnostics = []; cached = version })
  after_prepare s (not_prepared text, version) =
      (none, record (report_error text s) { cached = version })
  after_prepare s (wrong_thread, version) =
      (none, print_error (codes "Zig scripts must be compiled on the main thread") s)

  abbrev pub next_id : Scheduler → Scheduler
  next_id s = record (tick s) { next_request_id = add64 s.next_request_id 1 }

  abbrev pub prepared_by : CompileRequest → Scheduler → Prepared × ZigVersion
  prepared_by request s =
      prepare (w.project s.reads) w.disk request.resource_path request.source s.next_request_id
        (tick s).files s.cached

  -- `prepare` with the next id.
  unfoldable pub prepare_next : CompileRequest → Scheduler → Option CompilePlan × Scheduler
  unfolding prepare
  prepare_next request s = after_prepare (next_id s) (prepared_by request s)

  abbrev pub after_finish : Finished w.disk → Scheduler → Scheduler
  after_finish f s =
      let t = record s { files = f.files; last_diagnostics = f.diagnostics } in
      if is_none f.compiled then print_error f.diagnostics t else t

  -- A module that the cache has is loaded, unless it is the one that the script has.
  abbrev pub with_cached :
      CompileRequest → CompilePlan → Option CompiledModule → Scheduler → Scheduler
  with_cached request plan (some compiled) s = publish_module request.script compiled s
  with_cached request plan none s =
      if is_none (lookup plan.output s.files)
      then push_front request s
      else mark_failed request.script s

  abbrev pub has_module : Bytes → Option CompiledModule → Bool
  has_module path none = false
  has_module path (some compiled) = compiled.get_path === path

  unfoldable pub use_cached : CompileRequest → CompilePlan → Scheduler → Scheduler
  unfolding finish_compile
  use_cached request plan s =
      let script = script_of request.script s in
      let f = finish_compile w.disk plan 0 [] s.files in
      if has_module plan.output script.compiled
      then with_script request.script (record script { valid = true }) s
      else with_cached request plan f.compiled (after_finish f s)

  abbrev pub after_start : CompileRequest → CompilePlan → Scheduler → Option ℕ → Scheduler
  after_start request plan s none = mark_failed request.script (
      report_error (codes "Unable to start Zig compiler: " ++ plan.zig_executable)
        (remove_file plan.generated s))
  after_start request plan s (some pid) =
      let active : ActiveCompile = record {
        request = request;
        plan = plan;
        output = [];
        output_truncated = false;
        timed_out = false;
        pid = pid;
        started_at_msec = w.get_ticks_msec s.reads;
      } in
      with_active (some active)
        (emit (started pid) (record s { reads = s.reads + 1; compile_jobs = s.compile_jobs + 1 }))

  -- The compiler is started on the adapter.
  abbrev pub start_process : CompileRequest → CompilePlan → Scheduler → Scheduler
  start_process request plan s =
      let t = tick (remove_file plan.compile_output s) in
      after_start request plan t (w.start s.reads plan.zig_executable plan.arguments)

  abbrev pub after_adapter : CompileRequest → CompilePlan → Scheduler → Bool × Files → Scheduler
  after_adapter request plan s (true, files) =
      start_process request plan (record s { files = files })
  after_adapter request plan s (false, files) = mark_failed request.script (
      report_error (codes "Unable to write generated Zig adapter: " ++ plan.generated)
        (remove_file plan.generated (record s { files = files })))

  -- What the lock protects: the cache is used, or the compiler is started.
  unfoldable pub build : CompileRequest → CompilePlan → Scheduler → Scheduler
  unfolding use_cached write_text cache_stamp_matches
  build request plan0 s =
      let t = tick s in
      let needed =
        not (cache_stamp_matches w.disk plan0.output plan0.hash_path plan0.source_hash t.files) in
      let plan = record plan0 { needs_compile = needed } in
      elim needed [
        | false ↦ use_cached request plan t
        | true ↦
            after_adapter request plan t (write_text w.disk plan.generated adapter_source t.files)
      ]

  -- A plan from before is made again, now that the lock is held.
  abbrev pub recheck : CompileRequest → CompilePlan → Option CompilePlan × Scheduler → Round
  recheck request plan (none, s) = again (mark_failed request.script s)
  recheck request plan (some current, s) = elim (current.key === plan.key) [
    | true ↦ again (build request current s)
    | false ↦ stop (push_front (record request { prepared = some current }) s)
  ]

  abbrev pub if_locked : CompileRequest → Bool → CompilePlan → LockResult → Scheduler → Round
  if_locked request reused plan busy s =
      stop (push_front (record request { prepared = some plan }) s)
  if_locked request reused plan (lock_error text) s =
      again (mark_failed request.script (report_error text s))
  if_locked request true plan acquired s =
      let moved = record request { prepared = some (moved_plan plan) } in
      recheck moved plan (prepare_next moved s)
  if_locked request false plan acquired s = again (build request plan s)

  abbrev pub lock_plan : CompileRequest → Bool → CompilePlan → Scheduler → Round
  lock_plan request reused plan s =
      if_locked request reused plan (w.try_lock s.reads plan.lock_path) (tick s)

  abbrev pub if_prepared : CompileRequest → Option CompilePlan × Scheduler → Round
  if_prepared request (none, s) = again (mark_failed request.script s)
  if_prepared request (some plan, s) = lock_plan request false plan s

  abbrev pub plan_request : CompileRequest → Option CompilePlan → Scheduler → Round
  plan_request request (some plan) s = lock_plan request true plan s
  plan_request request none s = if_prepared request (prepare_next request s)

  -- The body of the loop, for the request that was first.
  unfoldable pub start_round : CompileRequest → Scheduler → Round
  unfolding prepare_next build
  start_round request s =
      elim (request.generation == (script_of request.script s).compile_generation) [
        | true ↦ plan_request request request.prepared s
        | false ↦ again s
      ]

  abbrev pub go_on : (Scheduler → Bool × Scheduler) → Round → Bool × Scheduler
  go_on loop (again s) = loop s
  go_on loop (stop s) = (true, s)

  abbrev pub take_round :
      (Scheduler → Bool × Scheduler) → List CompileRequest → Scheduler → Bool × Scheduler
  take_round loop [] s = (true, s)
  take_round loop (request ∷ rest) s = go_on loop (start_round request (with_pending rest s))

  -- The loop, with whether it came to its end in so many rounds.
  unfoldable pub start_loop : ℕ → Scheduler → Bool × Scheduler
  unfolding start_round
  start_loop zero s = (false, s)
  start_loop (suc rounds) s = elim (is_none s.manager.active) [
    | false ↦ (true, s)
    | true ↦ take_round (λ t. start_loop rounds t) s.manager.pending s
  ]

  unfoldable pub start_next : ℕ → Scheduler → Bool × Scheduler
  unfolding start_loop
  start_next rounds s = if s.manager.shutdown_started then (true, s) else start_loop rounds s
