-- ===== src/Build/Scheduler/Closes.antt =====
-- The shutdown of the build manager in src/gz_build_manager.cpp ends, and nothing runs after it.
use gzscript.Base.{
  ℕ, zero, suc, ◌≡◌, ◌∙◌, refl, ap, ◌+◌, ◌-◌, ◌*◌, ◌^◌, ◌≤◌, ◌<◌, ◌==◌, leb, Bool, true, not, ◌&&◌,
  ◌||◌, Option, none, some, arith, if_cases, if_both, add64,
}
use gzscript.Build.Queue.{ActiveCompile}
use gzscript.Build.Scheduler.{World, Scheduler, tick, emit, terminated}
use gzscript.Build.Scheduler.Pump.{
  pump, wait_exit, shutdown, advance, discard, clear_all, end_active, stop_active,
}
use gzscript.Build.Scheduler.Invariant.{Same}
use gzscript.Build.Scheduler.Stopped.{wait_exit-Same}

module _ (w : World) where
  -- It is over: all that may be called leaves it as it is.
  pub record IsOver (t : Scheduler) : Type 0 where
    pub ended : t.manager.shutdown_started ≡ true
    pub pump_idle : (rounds : ℕ) → pump w rounds t ≡ (true, t)
    pub shutdown_idle : (rounds : ℕ) → shutdown w rounds t ≡ some t

  over : (t : Scheduler) → t.manager.shutdown_started ≡ true → IsOver t
  unfolding pump shutdown
  over t e = record {
    ended = e;
    pump_idle = λ rounds.
        if_cases (λ (q : Bool × Scheduler). q ≡ (true, t))
          (not (w.project t.reads).is_main_thread || t.manager.shutdown_started) (λ b. refl)
          (λ b. ground (arith, b, e));
    shutdown_idle = λ rounds.
        if_cases (λ q. q ≡ some t) t.manager.shutdown_started (λ b. refl)
          (λ b. ground (arith, b, e));
  }

  abbrev IsSome : Option Scheduler → Type 0
  IsSome o = (t : Scheduler) × (o ≡ some t)

  -- A round ends the wait, or the deadline is still to come.
  wait_round :
      (rounds deadline pid : ℕ) (s : Scheduler)
      → 0 < deadline
      → (w.get_ticks_msec (s.reads + 1) < deadline
          → IsSome (wait_exit w rounds deadline pid (advance w 2 (emit (terminated pid) s))))
      → IsSome (wait_exit w (suc rounds) deadline pid s)
  unfolding wait_exit
  wait_round rounds deadline pid s pos next =
      if_both IsSome (not (w.is_process_running s.reads pid)) {x = some (advance w 1 s)} (_, refl)
        (if_cases IsSome (not (deadline == 0) && leb deadline (w.get_ticks_msec (s.reads + 1)))
          {x = some (advance w 2 (emit (terminated pid) s))}
          {y = wait_exit w rounds deadline pid (advance w 2 (emit (terminated pid) s))}
          (λ b. (_, refl)) (λ b. next (ground (arith, b, pos))))

  abbrev Moves : ℕ → Type 0
  Moves limit = (n : ℕ) → n < limit → w.get_ticks_msec n < w.get_ticks_msec (n + 2)

  wait_exit_ends :
      (rounds deadline pid limit : ℕ) (s : Scheduler)
      → Moves limit
      → s.reads + 2 * rounds < limit
      → 0 < deadline
      → deadline ≤ w.get_ticks_msec (s.reads + 1) + rounds
      → IsSome (wait_exit w (suc rounds) deadline pid s)
  wait_exit_ends zero deadline pid limit s later r pos h =
      wait_round zero deadline pid s pos (λ l. ground (arith, l, h))
  wait_exit_ends (suc rounds) deadline pid limit s later r pos h =
      let same : s.reads + 2 + 1 ≡ s.reads + 1 + 2 = omega arith in
      let soon : s.reads + 1 < limit = ground (arith, r) in
      wait_round (suc rounds) deadline pid s pos (λ l.
        wait_exit_ends rounds deadline pid limit (advance w 2 (emit (terminated pid) s)) later
          (ground (arith, r)) pos
          (ground (arith, h, later (s.reads + 1) soon, ap w.get_ticks_msec same)))

  end_active-IsOver :
      (a : ActiveCompile) (s : Scheduler) (ended : Option Scheduler)
      → s.manager.shutdown_started ≡ true
      → IsSome ended
      → ((u : Scheduler) → ended ≡ some u → Same s u)
      → (t : Scheduler) × ((end_active w a ended ≡ some t) × IsOver t)
  end_active-IsOver a s none e (u, f) same = ground (arith, f)
  end_active-IsOver a s (some u) e f same =
      let left : Scheduler = discard w a.plan (tick w u) in
      let free : Scheduler = record left { compile_jobs = u.compile_jobs - 1 } in
      (clear_all w free, (refl, over (clear_all w free) ((same u refl).ended ∙ e)))

  stop_active-IsOver :
      (active : Option ActiveCompile) (s : Scheduler)
      → s.manager.shutdown_started ≡ true
      → Moves (s.reads + 4002)
      → w.get_ticks_msec s.reads + 2000 < 2 ^ 64
      → (t : Scheduler) × ((stop_active w 2001 active s ≡ some t) × IsOver t)
  stop_active-IsOver none s e later early = (_, (refl, over (clear_all w s) e))
  stop_active-IsOver (some a) s e later early =
      let start : Scheduler = advance w 1 (emit (terminated a.pid) s) in
      let deadline = add64 (w.get_ticks_msec s.reads) 2000 in
      let same : s.reads + 1 + 1 ≡ s.reads + 2 = omega arith in
      let soon : s.reads < s.reads + 4002 = omega arith in
      end_active-IsOver a start (wait_exit w 2001 deadline a.pid start) e
        (wait_exit_ends 2000 deadline a.pid (s.reads + 4002) start later (omega arith)
          (ground (arith, early))
          (ground (arith, early, later s.reads soon, ap w.get_ticks_msec same)))
        (λ u f. wait_exit-Same w 2001 deadline a.pid start u f)

  -- Where the clock moves on by a millisecond at least between each two rounds, for the time of 2001
  -- rounds, and is not about to wrap, the shutdown ends within 2001 rounds whether or not the
  -- compiler's process does; and then a call of `pump` or of `shutdown` changes nothing.
  pub shutdown-IsOver :
      (s : Scheduler)
      → ((n : ℕ) → n < s.reads + 4002 → w.get_ticks_msec n < w.get_ticks_msec (n + 2))
      → w.get_ticks_msec s.reads + 2000 < 2 ^ 64
      → (t : Scheduler) × ((shutdown w 2001 s ≡ some t) × IsOver t)
  unfolding shutdown
  shutdown-IsOver s later early =
      if_cases (λ q. (t : Scheduler) × ((q ≡ some t) × IsOver t)) s.manager.shutdown_started
        (λ b. (s, (refl, over s b)))
        (λ b.
          stop_active-IsOver s.manager.active
            (record s { manager = record s.manager { shutdown_started = true } }) refl later early)
