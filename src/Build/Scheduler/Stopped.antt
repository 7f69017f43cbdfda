-- ===== src/Build/Scheduler/Stopped.antt =====
-- The `shutdown` of src/gz_build_manager.cpp keeps the invariant.
use gzscript.Base.{
  ℕ, zero, suc, ◌≡◌, refl, subst, ◌+◌, ◌-◌, ◌==◌, leb, not, ◌&&◌, Option, none, some, arith,
  if_both, some_inj,
}
use gzscript.Build.Queue.{ActiveCompile}
use gzscript.Build.Queue.Requests.{request_of, IsOnce}
use gzscript.Build.Scheduler.{World, Scheduler, tick, emit, terminated}
use gzscript.Build.Scheduler.Invariant.{Same, keeps, Same-trans, IsSound, compiling}
use gzscript.Build.Scheduler.Pump.{
  discard, advance, clear_all, end_active, stop_active, wait_exit, shutdown,
}

module _ (w : World) where
  pub wait_exit-Same :
      (rounds deadline pid : ℕ) (s t : Scheduler)
      → wait_exit w rounds deadline pid s ≡ some t
      → Same s t
  unfolding wait_exit
  wait_exit-Same zero deadline pid s t e = ground (arith, e)
  wait_exit-Same (suc rounds) deadline pid s t e =
      if_both (λ q. q ≡ some t → Same s t) (not (w.is_process_running s.reads pid))
        (λ f. subst (λ q. Same s q) (some_inj f) (keeps refl refl refl refl refl))
        (if_both (λ q. q ≡ some t → Same s t)
          (not (deadline == 0) && leb deadline (w.get_ticks_msec (s.reads + 1)))
          (λ f. subst (λ q. Same s q) (some_inj f) (keeps refl refl refl refl refl))
          (λ f.
            Same-trans {t = advance w 2 (emit (terminated pid) s)} (keeps refl refl refl refl refl)
              (wait_exit-Same rounds deadline pid (advance w 2 (emit (terminated pid) s)) t f)))
        e

  clear_all-IsSound : (s : Scheduler) → s.compile_jobs ≡ 0 → IsSound (clear_all w s)
  unfolding IsOnce request_of
  clear_all-IsSound s e = record {
    ordered = record { once = tt; newest = λ id r f. ground (arith, f) };
    jobs = e;
    ended = λ x. (refl, refl);
  }

  end_active-IsSound :
      (a b : ActiveCompile) (ended : Option Scheduler) (s t : Scheduler)
      → ((u : Scheduler) → ended ≡ some u → Same s u)
      → s.compile_jobs ≡ compiling (some b)
      → end_active w a ended ≡ some t
      → IsSound t
  end_active-IsSound a b none s t same h e = ground (arith, e)
  end_active-IsSound a b (some u) s t same h e =
      let left : Scheduler = discard w a.plan (tick w u) in
      subst IsSound (some_inj e) (
        clear_all-IsSound (record left { compile_jobs = u.compile_jobs - 1 })
          (ground (arith, h, (same u refl).jobs)))

  stop_active-IsSound :
      (rounds : ℕ) (active : Option ActiveCompile) (s t : Scheduler)
      → s.compile_jobs ≡ compiling active
      → stop_active w rounds active s ≡ some t
      → IsSound t
  stop_active-IsSound rounds none s t h e = subst IsSound (some_inj e) (clear_all-IsSound s h)
  stop_active-IsSound rounds (some a) s t h e =
      end_active-IsSound a a _ (advance w 1 (emit (terminated a.pid) s)) t
        (λ u f. wait_exit-Same rounds _ a.pid _ u f) h e

  pub shutdown-IsSound :
      (rounds : ℕ) (s t : Scheduler) → IsSound s → shutdown w rounds s ≡ some t → IsSound t
  unfolding shutdown
  shutdown-IsSound rounds s t h e =
      if_both (λ q. q ≡ some t → IsSound t) s.manager.shutdown_started
        (λ f. subst IsSound (some_inj f) h) (stop_active-IsSound rounds s.manager.active _ t h.jobs)
        e
