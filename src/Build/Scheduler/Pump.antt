-- ===== src/Build/Scheduler/Pump.antt =====
-- How src/gz_build_manager.cpp follows the running compiler: `pump`, `complete_active`, `shutdown`.
use gzscript.Base.{
  ℕ, zero, suc, ◌≡◌, ◌+◌, ◌-◌, ◌%◌, ◌^◌, ◌==◌, ltb, leb, if◌then◌else◌, Bool, true, false, not,
  ◌&&◌, ◌||◌, List, [], ◌∷◌, ◌++◌, Bytes, ◌===◌, codes, Option, none, some, add64,
}
use gzscript.Base.Sort.{any}
use gzscript.Build.Queue.{
  CompiledModule, CompilePlan, CompileRequest, ActiveCompile, Surroundings, QueueCall, perform_all,
  drain_output,
}
use gzscript.Build.Cache.{finish_compile}
use gzscript.Build.Scheduler.{
  World, Scheduler, terminated, tick, emit, with_active, push_front, with_pending, mark_failed,
  publish_module, remove_file, after_finish, prepare_next, start_next, script_of,
}

-- What is added to output that was cut off, and to that of a compiler that was stopped.
abbrev pub output_truncated_text : Bytes
output_truncated_text = 10 ∷ codes "[gzscript: compiler output truncated]"

abbrev pub timeout_text : Bytes
timeout_text = 10 ∷ codes "Zig compiler timed out after 120000 ms"

-- `COMPILER_TIMEOUT_MSEC`
abbrev pub compiler_timeout : ℕ
compiler_timeout = 120000

-- Milliseconds from a time to a later one, on `uint64_t`.
abbrev pub elapsed : ℕ → ℕ → ℕ
elapsed since now = (now + (2 ^ 64 - since)) % 2 ^ 64

abbrev pub is_for : ℕ → CompileRequest → Bool
is_for id queued = queued.script == id

module _ (w : World) where
  -- The files of a compilation that is given up.
  abbrev pub discard : CompilePlan → Scheduler → Scheduler
  discard plan s = remove_file plan.generated (remove_file plan.compile_output s)

  abbrev pub finished : CompileRequest → Option CompiledModule → Scheduler → Scheduler
  finished request (some compiled) s = publish_module request.script compiled s
  finished request none s = mark_failed request.script s

  abbrev pub final_output : ActiveCompile → Bytes
  final_output a = if a.output_truncated then a.output ++ output_truncated_text else a.output

  -- The module is published or the error is kept.
  unfoldable pub finish_active : ℕ → ActiveCompile → Scheduler → Scheduler
  unfolding finish_compile
  finish_active exit_code a s =
      let f = finish_compile w.disk a.plan exit_code (final_output a) s.files in
      finished a.request f.compiled (after_finish w f s)

  -- A module counts when its inputs are what they were.
  abbrev pub recheck_active : ActiveCompile → Option CompilePlan × Scheduler → Scheduler
  recheck_active a (none, s) = mark_failed a.request.script (discard a.plan s)
  recheck_active a (some current, s) = elim (current.key === a.plan.key) [
    | false ↦ push_front a.request (discard a.plan s)
    | true ↦ finish_active 0 a s
  ]

  -- What is done with the compiler's result, up to `start_next`.
  unfoldable pub settle : ℕ → ActiveCompile → Scheduler → Scheduler
  unfolding finish_active prepare_next
  settle exit_code a s =
      elim (a.request.generation == (script_of a.request.script s).compile_generation) [
        | false ↦ discard a.plan s
        | true ↦ elim (exit_code == 0) [
          | false ↦ finish_active exit_code a s
          | true ↦ elim (any (is_for a.request.script) s.manager.pending) [
            | true ↦ discard a.plan s
            | false ↦ recheck_active a (prepare_next w a.request s)
          ]
        ]
      ]

  abbrev pub release_active : Scheduler → Scheduler
  release_active s = record (with_active none s) { compile_jobs = s.compile_jobs - 1 }

  unfoldable pub complete_active : ℕ → ℕ → ActiveCompile → Scheduler → Bool × Scheduler
  unfolding settle start_next
  complete_active rounds exit_code a s =
      start_next w rounds (settle exit_code a (tick w (release_active s)))

  -- `drain` of a pipe.
  abbrev drain_pipe : Option Bytes → ActiveCompile → ActiveCompile
  drain_pipe none a = a
  drain_pipe (some available) a =
      let (output, truncated) = drain_output true available (a.output, a.output_truncated) in
      record a { output = output; output_truncated = truncated }

  -- Both pipes are drained.
  unfoldable pub drain_both : ℕ → ActiveCompile → ActiveCompile
  unfolding drain_output
  drain_both reads a = drain_pipe (w.read_pipe (reads + 1)) (drain_pipe (w.read_pipe reads) a)

  abbrev pub say_timeout : ActiveCompile → ActiveCompile
  say_timeout a =
      if a.timed_out then a else record a { timed_out = true; output = a.output ++ timeout_text }

  -- A running compiler has time; then it is stopped.
  abbrev pub watch : ActiveCompile → Scheduler → Scheduler
  watch a s =
      if not a.timed_out
        && ltb (elapsed a.started_at_msec (w.get_ticks_msec s.reads)) compiler_timeout
      then with_active (some a) s
      else emit (terminated a.pid) (with_active (some (say_timeout a)) s)

  abbrev pub exit_code_of : ℕ → ActiveCompile → ℕ
  exit_code_of reads a = if a.timed_out then 124 else w.get_process_exit_code reads a.pid

  abbrev pub advance : ℕ → Scheduler → Scheduler
  advance n s = record s { reads = s.reads + n }

  unfoldable pub pump_active : ℕ → ActiveCompile → Scheduler → Bool × Scheduler
  unfolding drain_both complete_active
  pump_active rounds a0 s =
      let a = drain_both s.reads a0 in
      let last = drain_both (s.reads + 3) a in
      elim (w.is_process_running (s.reads + 2) a.pid) [
        | true ↦ (true, advance 4 (watch a (advance 3 s)))
        | false ↦ complete_active rounds (exit_code_of (s.reads + 5) last) last (advance 6 s)
      ]

  abbrev pub pump_if : ℕ → Option ActiveCompile → Bool × Scheduler → Bool × Scheduler
  pump_if rounds none (ended, s) = (ended, s)
  pump_if rounds (some a) (ended, s) = pump_active rounds a s

  unfoldable pub pump : ℕ → Scheduler → Bool × Scheduler
  unfolding start_next pump_active
  pump rounds s =
      if not (w.project s.reads).is_main_thread || s.manager.shutdown_started
      then (true, s)
      else let next = start_next w rounds s in pump_if rounds next.1.manager.active next

  -- The compiler is stopped again until it is gone or two seconds are over.
  unfoldable pub wait_exit : ℕ → ℕ → ℕ → Scheduler → Option Scheduler
  wait_exit zero deadline pid s = none
  wait_exit (suc rounds) deadline pid s =
      let stopped = emit (terminated pid) s in
      let later = wait_exit rounds deadline pid (advance 2 stopped) in
      if not (w.is_process_running s.reads pid)
      then some (advance 1 s)
      else if not (deadline == 0) && leb deadline (w.get_ticks_msec (s.reads + 1))
      then some (advance 2 stopped)
      else later

  abbrev pub clear_all : Scheduler → Scheduler
  clear_all s = with_pending [] (with_active none s)

  abbrev pub end_active : ActiveCompile → Option Scheduler → Option Scheduler
  end_active a none = none
  end_active a (some s) =
      let t = discard a.plan (tick w s) in
      some (clear_all (record t { compile_jobs = t.compile_jobs - 1 }))

  abbrev pub stop_active : ℕ → Option ActiveCompile → Scheduler → Option Scheduler
  stop_active rounds none s = some (clear_all s)
  stop_active rounds (some a) s = end_active a (
      wait_exit rounds (add64 (w.get_ticks_msec s.reads) 2000) a.pid
        (advance 1 (emit (terminated a.pid) s)))

  unfoldable pub shutdown : ℕ → Scheduler → Option Scheduler
  unfolding wait_exit
  shutdown rounds s =
      if s.manager.shutdown_started
      then some s
      else stop_active rounds s.manager.active
          (record s { manager = record s.manager { shutdown_started = true } })

  -- The schedulers that there are after some calls on one, with a loop seen after any number of
  -- rounds. The calls that queue scripts find some surroundings.
  pub data Reached (s0 : Scheduler) : Scheduler → Type 0 where
    uncalled : Reached s0 s0
    queued :
        (around : Surroundings) (calls : List (QueueCall around)) {s : Scheduler}
        → Reached s0 s
        → Reached s0 (record s { manager = perform_all around calls s.manager })
    pumped : (rounds : ℕ) {s : Scheduler} → Reached s0 s → Reached s0 (pump rounds s).1
    shut_down :
        (rounds : ℕ) {s t : Scheduler} → Reached s0 s → shutdown rounds s ≡ some t → Reached s0 t
