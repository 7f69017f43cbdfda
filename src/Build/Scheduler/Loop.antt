-- ===== src/Build/Scheduler/Loop.antt =====
-- The rounds of `start_next` of src/gz_build_manager.cpp keep the invariant.
use gzscript.Base.{
  ℕ, zero, suc, ◌≡◌, ◌∙◌, refl, ap, subst, ◌==◌, Bool, true, false, List, [], ◌∷◌, ◌===◌, Option,
  none, some, is_none, arith, if_cases, elim_cases, if_both,
}
use gzscript.Build.Queue.{CompilePlan, CompileRequest, ActiveCompile}
use gzscript.Build.Queue.Requests.{request_of, IsOnce}
use gzscript.Build.Scheduler.{
  World, Scheduler, LockResult, acquired, busy, lock_error, Round, again, stop, tick, with_pending,
  report_error, moved_plan, start_next, script_of, recheck, if_locked, lock_plan, if_prepared,
  plan_request, start_round, go_on, take_round, start_loop,
}
use gzscript.Build.Scheduler.Invariant.{Holds, IsSound, Same-Holds, keeps}
use gzscript.Build.Scheduler.Started.{
  Live, scheduler_of, held_as, held_back, mark_failed_held, request_of_later, build-Live,
  prepare_next-Same,
}

module _ (w : World) where
  recheck-Live :
      (r : CompileRequest) (plan : CompilePlan) (result : Option CompilePlan × Scheduler)
      → Holds r result.1
      → Live (scheduler_of (recheck w r plan result))
  recheck-Live r plan (none, s) h = mark_failed_held s h
  recheck-Live r plan (some current, s) h =
      elim_cases (λ q. Live (scheduler_of q)) (current.key === plan.key)
        (λ b. build-Live w r current s h)
        (λ b. held_back (record r { prepared = some current }) (held_as refl refl h))

  if_locked-Live :
      (r : CompileRequest) (reused : Bool) (plan : CompilePlan) (result : LockResult)
      (s : Scheduler)
      → Holds r s
      → Live (scheduler_of (if_locked w r reused plan result s))
  if_locked-Live r reused plan busy s h =
      held_back (record r { prepared = some plan }) (held_as refl refl h)
  if_locked-Live r reused plan (lock_error text) s h =
      mark_failed_held (report_error text s) (Same-Holds (keeps refl refl refl refl refl) h)
  if_locked-Live r true plan acquired s h =
      let moved = record r { prepared = some (moved_plan plan) } in
      recheck-Live moved plan _ (Same-Holds (prepare_next-Same w moved s) (held_as refl refl h))
  if_locked-Live r false plan acquired s h = build-Live w r plan s h

  lock_plan-Live :
      (r : CompileRequest) (reused : Bool) (plan : CompilePlan) (s : Scheduler)
      → Holds r s
      → Live (scheduler_of (lock_plan w r reused plan s))
  lock_plan-Live r reused plan s h =
      if_locked-Live r reused plan _ (tick w s) (Same-Holds (keeps refl refl refl refl refl) h)

  if_prepared-Live :
      (r : CompileRequest) (result : Option CompilePlan × Scheduler)
      → Holds r result.1
      → Live (scheduler_of (if_prepared w r result))
  if_prepared-Live r (none, s) h = mark_failed_held s h
  if_prepared-Live r (some plan, s) h = lock_plan-Live r false plan s h

  plan_request-Live :
      (r : CompileRequest) (made : Option CompilePlan) (s : Scheduler)
      → Holds r s
      → Live (scheduler_of (plan_request w r made s))
  plan_request-Live r (some plan) s h = lock_plan-Live r true plan s h
  plan_request-Live r none s h = if_prepared-Live r _ (Same-Holds (prepare_next-Same w r s) h)

  start_round-Live :
      (r : CompileRequest) (s : Scheduler) → Holds r s → Live (scheduler_of (start_round w r s))
  unfolding start_round
  start_round-Live r s h =
      elim_cases (λ q. Live (scheduler_of q))
        (r.generation == (script_of r.script s).compile_generation)
        (λ b. plan_request-Live r r.prepared s h) (λ b. (h.sound, h.live))

  -- What is left of the queue when its first request is taken.
  take_first :
      (r : CompileRequest) (rest : List CompileRequest) (s : Scheduler)
      → s.manager.pending ≡ r ∷ rest
      → s.manager.active ≡ none
      → Live s
      → Holds r (with_pending rest s)
  unfolding IsOnce request_of
  take_first r rest s e idle (h, live) =
      let once = subst IsOnce e h.ordered.once in
      record {
        sound = record {
          ordered = record {
            once = once.1;
            newest = λ id q f.
                h.ordered.newest id q
                  (ap (request_of id) e ∙ request_of_later r rest id q once.0 f);
          };
          jobs = h.jobs;
          ended = λ x. ground (arith, live, x);
        };
        live = live;
        idle = idle;
        lone = once.0;
        newest = h.ordered.newest r.script r (ap (request_of r.script) e ∙ ground arith);
      }

  idle_none : (active : Option ActiveCompile) → is_none active ≡ true → active ≡ none
  idle_none none e = refl
  idle_none (some a) e = ground (arith, e)

  go_on-Live :
      (loop : Scheduler → Bool × Scheduler) (round : Round)
      → ((t : Scheduler) → Live t → Live (loop t).1)
      → Live (scheduler_of round)
      → Live (go_on w loop round).1
  go_on-Live loop (again t) step h = step t h
  go_on-Live loop (stop t) step h = h

  take_round-Live :
      (loop : Scheduler → Bool × Scheduler) (pending : List CompileRequest) (s : Scheduler)
      → ((t : Scheduler) → Live t → Live (loop t).1)
      → s.manager.pending ≡ pending
      → s.manager.active ≡ none
      → Live s
      → Live (take_round w loop pending s).1
  take_round-Live loop [] s step e f h = h
  take_round-Live loop (r ∷ rest) s step e f h =
      go_on-Live loop (start_round w r (with_pending rest s)) step
        (start_round-Live r (with_pending rest s) (take_first r rest s e f h))

  -- The loop keeps the invariant in every round.
  start_loop-Live : (rounds : ℕ) (s : Scheduler) → Live s → Live (start_loop w rounds s).1
  unfolding start_loop
  start_loop-Live zero s h = h
  start_loop-Live (suc rounds) s h =
      elim_cases (λ (q : Bool × Scheduler). Live q.1) (is_none s.manager.active)
        (λ b.
          take_round-Live (λ t. start_loop w rounds t) s.manager.pending s
            (λ t k. start_loop-Live rounds t k) refl (idle_none s.manager.active b) h)
        (λ b. h)

  pub start_next-Live :
      (rounds : ℕ) (s : Scheduler)
      → IsSound s
      → s.manager.shutdown_started ≡ false
      → Live (start_next w rounds s).1
  unfolding start_next
  start_next-Live rounds s h live =
      if_both (λ (q : Bool × Scheduler). Live q.1) s.manager.shutdown_started (h, live)
        (start_loop-Live rounds s (h, live))

  pub start_next-IsSound :
      (rounds : ℕ) (s : Scheduler) → IsSound s → IsSound (start_next w rounds s).1
  unfolding start_next
  start_next-IsSound rounds s h =
      if_cases (λ (q : Bool × Scheduler). IsSound q.1) s.manager.shutdown_started (λ b. h)
        (λ b. (start_loop-Live rounds s (h, b)).0)
