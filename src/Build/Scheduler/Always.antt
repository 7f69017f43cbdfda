-- ===== src/Build/Scheduler/Always.antt =====
-- The invariant of the build manager of src/gz_build_manager.cpp under calls in any order.
use gzscript.Base.{
  ℕ, ◌≡◌, ◌∙◌, refl, sym, ap, ◌+◌, ◌==◌, ==_iff, Bool, false, not, ◌||◌, List, [], ◌∷◌, ◌===◌,
  Option, none, some, arith, if_cases, elim_cases, if_both,
}
use gzscript.Base.Sort.{any}
use gzscript.Build.Cache.{Files}
use gzscript.Build.Queue.{
  Script, CompiledModule, CompilePlan, CompileRequest, ActiveCompile, Surroundings, QueueCall,
  perform_all,
}
use gzscript.Build.Queue.Requests.{request_of, has_request, IsOnce, perform_all-IsOrdered}
use gzscript.Build.Queue.Kept.{perform_all-Kept}
use gzscript.Build.Cache.{finish_compile}
use gzscript.Build.Scheduler.{
  new_scheduler, World, Scheduler, tick, with_active, after_finish, start_next, script_of,
}
use gzscript.Build.Scheduler.Invariant.{
  Same, keeps, Same-trans, mark_failed-Same, publish_module-Same, IsSound, Same-IsSound, Holds,
  Same-Holds, push_front-IsSound, compiling,
}
use gzscript.Build.Scheduler.Started.{Live, prepare_next-Same, after_finish-Same}
use gzscript.Build.Scheduler.Loop.{start_next-Live, start_next-IsSound}
use gzscript.Build.Scheduler.Stopped.{shutdown-IsSound}
use gzscript.Build.Scheduler.Pump.{
  is_for, discard, finished, final_output, finish_active, recheck_active, settle, release_active,
  complete_active, drain_both, say_timeout, watch, exit_code_of, pump_active, pump_if, pump,
  advance, Reached, uncalled, queued, pumped, shut_down,
}

has_request-any :
    (id : ℕ) (pending : List CompileRequest) → any (is_for id) pending ≡ has_request id pending
unfolding has_request any
has_request-any id [] = refl
has_request-any id (r ∷ rest) = ap (λ b. (r.script == id) || b) (has_request-any id rest)

module _ (w : World) where
  -- A compiler that ended is off the books.
  record Free (s : Scheduler) : Type 0 where
    pub sound : IsSound s
    pub live : s.manager.shutdown_started ≡ false
    pub idle : s.manager.active ≡ none

  Same-Free : {s t : Scheduler} → Same s t → Free s → Free t
  Same-Free same h = record {
    sound = Same-IsSound same h.sound;
    live = same.ended ∙ h.live;
    idle = same.active ∙ h.idle;
  }

  discard-Same : (plan : CompilePlan) (s : Scheduler) → Same s (discard w plan s)
  discard-Same plan s = keeps refl refl refl refl refl

  finish_active-Same :
      (exit_code : ℕ) (a : ActiveCompile) (s : Scheduler) → Same s (finish_active w exit_code a s)
  unfolding finish_active
  finish_active-Same exit_code a s =
      let f = finish_compile w.disk a.plan exit_code (final_output w a) s.files in
      Same-trans (after_finish-Same w f s) (on_module f.compiled (after_finish w f s))
    where
      on_module :
          (found : Option CompiledModule) (t : Scheduler) → Same t (finished w a.request found t)
      on_module (some compiled) t = publish_module-Same a.request.script compiled t
      on_module none t = mark_failed-Same a.request.script t

  recheck_active-IsSound :
      (a : ActiveCompile) (result : Option CompilePlan × Scheduler)
      → Holds a.request result.1
      → IsSound (recheck_active w a result)
  recheck_active-IsSound a (none, s) h =
      Same-IsSound (Same-trans (discard-Same a.plan s) (mark_failed-Same a.request.script _))
        h.sound
  recheck_active-IsSound a (some current, s) h =
      elim_cases IsSound (current.key === a.plan.key)
        (λ b. Same-IsSound (finish_active-Same 0 a s) h.sound)
        (λ b.
          push_front-IsSound a.request (discard w a.plan s) (Same-Holds (discard-Same a.plan s) h))

  settle-IsSound :
      (exit_code : ℕ) (a : ActiveCompile) (s : Scheduler)
      → Free s
      → IsSound (settle w exit_code a s)
  unfolding settle
  settle-IsSound exit_code a s h =
      elim_cases IsSound (a.request.generation == (script_of a.request.script s).compile_generation)
        (λ newest.
          elim_cases IsSound (exit_code == 0)
            (λ good.
              elim_cases IsSound (any (is_for a.request.script) s.manager.pending)
                (λ stale. Same-IsSound (discard-Same a.plan s) h.sound)
                (λ lone. recheck_active-IsSound a _ (
                  Same-Holds (prepare_next-Same w a.request s) (record {
                    sound = h.sound;
                    live = h.live;
                    idle = h.idle;
                    lone = sym (has_request-any a.request.script s.manager.pending) ∙ lone;
                    newest = (==_iff _ _).0 newest;
                  }))))
            (λ bad. Same-IsSound (finish_active-Same exit_code a s) h.sound))
        (λ old. Same-IsSound (discard-Same a.plan s) h.sound)

  -- The compiler is taken off the books before its result is looked at.
  release_active-Free :
      (s : Scheduler) (a : ActiveCompile)
      → Live s
      → s.manager.active ≡ some a
      → Free (tick w (release_active w s))
  release_active-Free s a (h, live) e = record {
    sound = record {
      ordered = record { once = h.ordered.once; newest = h.ordered.newest };
      jobs = ground (arith, h.jobs, ap compiling e);
      ended = λ x. ground (arith, live, x);
    };
    live = live;
    idle = refl;
  }

  replace_active-IsSound :
      (s : Scheduler) (a b : ActiveCompile)
      → Live s
      → s.manager.active ≡ some a
      → IsSound (with_active (some b) s)
  replace_active-IsSound s a b (h, live) e = record {
    ordered = record { once = h.ordered.once; newest = h.ordered.newest };
    jobs = h.jobs ∙ ap compiling e;
    ended = λ x. ground (arith, live, x);
  }

  watch-IsSound :
      (s : Scheduler) (a b : ActiveCompile)
      → Live s
      → s.manager.active ≡ some a
      → IsSound (watch w b s)
  watch-IsSound s a b h e = if_both IsSound _ (replace_active-IsSound s a b h e) (
      Same-IsSound (keeps refl refl refl refl refl)
        (replace_active-IsSound s a (say_timeout w b) h e))

  complete_active-IsSound :
      (rounds exit_code : ℕ) (b : ActiveCompile) (s : Scheduler) (a : ActiveCompile)
      → Live s
      → s.manager.active ≡ some a
      → IsSound (complete_active w rounds exit_code b s).1
  unfolding complete_active
  complete_active-IsSound rounds exit_code b s a h e =
      start_next-IsSound w rounds (settle w exit_code b (tick w (release_active w s)))
        (settle-IsSound exit_code b (tick w (release_active w s)) (release_active-Free s a h e))

  pump_active-IsSound :
      (rounds : ℕ) (a : ActiveCompile) (s : Scheduler)
      → Live s
      → s.manager.active ≡ some a
      → IsSound (pump_active w rounds a s).1
  unfolding pump_active
  pump_active-IsSound rounds a s h e =
      let moved : (n : ℕ) → Live (advance w n s) =
        λ n. (Same-IsSound (keeps refl refl refl refl refl) h.0, h.1) in
      let last : ActiveCompile = drain_both w (s.reads + 3) (drain_both w s.reads a) in
      elim_cases (λ (q : Bool × Scheduler). IsSound q.1) (w.is_process_running (s.reads + 2) _)
        (λ b.
          Same-IsSound (keeps refl refl refl refl refl)
            (watch-IsSound (advance w 3 s) a _ (moved 3) e))
        (λ b.
          complete_active-IsSound rounds (exit_code_of w (s.reads + 5) last) last (advance w 6 s) a
            (moved 6) e)

  pump_if-IsSound :
      (rounds : ℕ) (active : Option ActiveCompile) (next : Bool × Scheduler)
      → Live next.1
      → next.1.manager.active ≡ active
      → IsSound (pump_if w rounds active next).1
  pump_if-IsSound rounds none (ended, s) h e = h.0
  pump_if-IsSound rounds (some a) (ended, s) h e = pump_active-IsSound rounds a s h e

  pump-IsSound : (rounds : ℕ) (s : Scheduler) → IsSound s → IsSound (pump w rounds s).1
  unfolding pump
  pump-IsSound rounds s h =
      if_cases (λ (q : Bool × Scheduler). IsSound q.1)
        (not (w.project s.reads).is_main_thread || s.manager.shutdown_started) (λ b. h)
        (λ b.
          pump_if-IsSound rounds _ (start_next w rounds s)
            (start_next-Live w rounds s h (ground (arith, b))) refl)

  queued-IsSound :
      (around : Surroundings) (calls : List (QueueCall around)) (s : Scheduler)
      → IsSound s
      → IsSound (record s { manager = perform_all around calls s.manager })
  queued-IsSound around calls s h =
      let k = perform_all-Kept around calls s.manager in
      record {
        ordered = perform_all-IsOrdered around calls s.manager h.ordered;
        jobs = h.jobs ∙ ap compiling (sym k.active);
        ended = λ e.
            let (p, a) = h.ended (sym k.ended ∙ e) in
            (k.closed (sym k.ended ∙ e) ∙ p, k.active ∙ a);
      }

  pub reached-IsSound : (s0 s : Scheduler) → IsSound s0 → Reached w s0 s → IsSound s
  reached-IsSound s0 _ h uncalled = h
  reached-IsSound s0 _ h (queued around calls {s} r) =
      queued-IsSound around calls s (reached-IsSound s0 s h r)
  reached-IsSound s0 _ h (pumped rounds {s} r) = pump-IsSound rounds s (reached-IsSound s0 s h r)
  reached-IsSound s0 _ h (shut_down rounds {s} {t} r e) =
      shutdown-IsSound w rounds s t (reached-IsSound s0 s h r) e

  new_scheduler-IsSound :
      (scripts : ℕ → Script) (files : Files) → IsSound (new_scheduler scripts files)
  unfolding IsOnce request_of
  new_scheduler-IsSound scripts files = record {
    ordered = record { once = tt; newest = λ id r f. ground (arith, f) };
    jobs = refl;
    ended = λ e. ground (arith, e);
  }

  -- Whatever calls are made of a new build manager, in any order, and whatever the scripts, the files
  -- and the answers of the system are: no script is queued twice, and the request that is queued is for
  -- its newest generation; the counter of compilers is 1 when one runs and 0 otherwise; and after the
  -- shutdown nothing is queued and no compiler runs.
  pub calls-IsSound :
      (scripts : ℕ → Script) (files : Files) (s : Scheduler)
      → Reached w (new_scheduler scripts files) s
      → IsSound s
  calls-IsSound scripts files s r =
      reached-IsSound (new_scheduler scripts files) s (new_scheduler-IsSound scripts files) r
