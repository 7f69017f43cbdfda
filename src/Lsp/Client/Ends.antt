-- ===== src/Lsp/Client/Ends.antt =====
-- `shutdown` of src/gz_lsp_client.cpp comes to an end, and it is the end.
use gzscript.Base.{
  ℕ, zero, suc, ◌+◌, ◌*◌, ◌^◌, ◌≤◌, ◌<◌, ◌≡◌, ◌∙◌, refl, ltb, true, false, ◌&&◌, Bytes, Option,
  some, none, is_none, subst, arith, add64, if_both,
}
use gzscript.Lsp.Client.{Client, World, start, observed, send}
use gzscript.Lsp.Client.Pump.{complete, complete_query, lookup, lookup_query, pump}
use gzscript.Lsp.Client.Shutdown.{
  say_exit, begin_shutdown, release, released, new_client, wait_exit, end_process, shutdown,
  Reached, uncalled, completed, looked_up, pumped, shut_down,
}
use gzscript.Lsp.Client.Invariant.Calls.{calls-IsFit, shutdown-IsShut, reached-IsFit}

module _ (w : World) where
  -- The deadline has passed at the last round.
  wait_exit_ends :
      (rounds deadline last : ℕ) (s : Client)
      → 0 < deadline
      → 0 < rounds
      → last + 1 ≡ s.reads + rounds
      → deadline ≤ w.clock last
      → is_none (wait_exit w rounds deadline s) ≡ false
  unfolding wait_exit
  wait_exit_ends zero deadline last s d k e h = ground arith
  wait_exit_ends (suc zero) deadline last s d k e h =
      let same : last ≡ s.reads = omega arith in
      let now = subst (λ n. deadline ≤ w.clock n) same h in ground arith
  wait_exit_ends (suc (suc rounds)) deadline last s d k e h =
      let rest =
        wait_exit_ends (suc rounds) deadline last (observed s) d (omega arith) (omega arith) h in
      ground arith

  end_process_ends :
      (s : Client)
      → w.clock s.reads < 2 ^ 63
      → w.clock s.reads + 2000 ≤ w.clock (s.reads + 401)
      → is_none (end_process w 401 s) ≡ false
  unfolding end_process send
  end_process_ends s small late =
      if_both (λ (o : Option Client). is_none o ≡ false) (ltb 0 s.pid && w.running s.reads s.pid)
        (wait_exit_ends 401 (add64 (w.clock s.reads) 2000) (s.reads + 401) (say_exit w s)
          (omega arith) (omega arith) (omega arith) (ground arith))
        refl

  released-some :
      (o : Option Client) → is_none o ≡ false → (s : Client) × ((released o ≡ some s) × (s.pid ≡ 0))
  released-some none e = ground arith
  released-some (some s) e = (release s, (refl, refl))

  shutdown-begin :
      (rounds : ℕ) (s : Client)
      → s.shutdown_started ≡ false
      → shutdown w rounds s ≡ released (end_process w rounds (begin_shutdown s))
  unfolding shutdown
  shutdown-begin rounds s h = ground arith

  -- `shutdown` returns, without a process, after at most 401 rounds of waiting, if the clock
  -- advances by 5 ms in each and has not come near the end of its range.
  pub shutdown_ends :
      (s : Client)
      → s.shutdown_started ≡ false
      → w.clock s.reads < 2 ^ 63
      → ((k : ℕ) → w.clock s.reads + 5 * k ≤ w.clock (s.reads + 1 + k))
      → (s' : Client) × ((shutdown w 401 s ≡ some s') × (s'.pid ≡ 0))
  shutdown_ends s h small ticks =
      let (s', (e, gone)) =
        released-some (end_process w 401 (begin_shutdown s))
          (end_process_ends (begin_shutdown s) small (ground (arith, ticks 400))) in
      (s', (shutdown-begin 401 s h ∙ e, gone))

  -- Once `shutdown` has started, nothing changes that shows.
  record IsOver (s s' : Client) : Type 0 where
    pub over : s'.shutdown_started ≡ true
    pub state : s'.state ≡ s.state
    pub pid : s'.pid ≡ s.pid
    pub sent : s'.sent ≡ s.sent
    pub launches : s'.launches ≡ s.launches
    pub killed : s'.killed ≡ s.killed

  complete-IsOver :
      (code path : Bytes) (s : Client)
      → s.shutdown_started ≡ true
      → IsOver s (complete w code path s).1
  unfolding complete complete_query start
  complete-IsOver code path s h = ground arith

  lookup-IsOver :
      (code path : Bytes) (s : Client)
      → s.shutdown_started ≡ true
      → IsOver s (lookup w code path s).1
  unfolding lookup lookup_query start
  lookup-IsOver code path s h = ground arith

  pump-IsOver : (s : Client) → s.shutdown_started ≡ true → IsOver s (pump w s)
  unfolding pump
  pump-IsOver s h = ground arith

  shutdown-IsOver :
      (rounds : ℕ) (s s' : Client)
      → s.shutdown_started ≡ true
      → shutdown w rounds s ≡ some s'
      → IsOver s s'
  unfolding shutdown
  shutdown-IsOver rounds s s' h e = ground arith

  reached-IsOver : {s t : Client} → s.shutdown_started ≡ true → Reached w s t → IsOver s t
  reached-IsOver h uncalled = record {
    over = h;
    state = refl;
    pid = refl;
    sent = refl;
    launches = refl;
    killed = refl;
  }
  reached-IsOver h (completed code path {s = t} r) =
      let before = reached-IsOver h r in ground (arith, complete-IsOver code path t before.over)
  reached-IsOver h (looked_up code path {s = t} r) =
      let before = reached-IsOver h r in ground (arith, lookup-IsOver code path t before.over)
  reached-IsOver h (pumped {s = t} r) =
      let before = reached-IsOver h r in ground (arith, pump-IsOver t before.over)
  reached-IsOver h (shut_down rounds {s = t} {s' = t'} r e) =
      let before = reached-IsOver h r in ground (arith, shutdown-IsOver rounds t t' before.over e)

  -- After `shutdown` of a client that was used in any way, there is no server process, whatever
  -- is called: none is started, nothing is written and nothing is killed.
  pub shutdown-final :
      (rounds : ℕ) {s s' t : Client}
      → Reached w new_client s
      → shutdown w rounds s ≡ some s'
      → Reached w s' t
      → (t.pid ≡ 0)
        × ((t.processes ≡ 0)
            × ((t.launches ≡ s'.launches) × ((t.sent ≡ s'.sent) × (t.killed ≡ s'.killed))))
  shutdown-final rounds {s} {s'} {t} r e c =
      let fit = reached-IsFit w (calls-IsFit w (shut_down rounds r e)) c in
      let over = reached-IsOver (shutdown-IsShut w rounds s s' (calls-IsFit w r) e).1 c in
      ground arith
