-- ===== src/Lsp/Client/Shutdown.antt =====
-- `shutdown` of src/gz_lsp_client.cpp, and what the editor may do with a client: the calls
-- `complete`, `lookup`, `pump` and `shutdown`, in any order.
use gzscript.Base.{
  ℕ, zero, suc, ◌+◌, ◌-◌, ◌==◌, ◌≡◌, ltb, leb, if◌then◌else◌, true, false, not, ◌&&◌, [], ◌∷◌,
  Bytes, Option, none, some, add64,
}
use gzscript.Lsp.Client.{Client, World, stopped, exit, observed, send, no_query}
use gzscript.Lsp.Client.Pump.{complete, lookup, pump}

-- A client as it is made.
abbrev pub new_client : Client
new_client = record {
  state = stopped;
  shutdown_started = false;
  stdio_open = false;
  stderr_open = false;
  input = [];
  stderr_output = [];
  pid = 0;
  next_request_id = 1;
  started_at_msec = 0;
  failed_at_msec = 0;
  completion_due_msec = 0;
  consecutive_restarts = 0;
  requests = [];
  documents = [];
  pending_completion = no_query;
  pending_definition = no_query;
  cached_completion_query = no_query;
  cached_definition_query = no_query;
  cached_completion_options = [];
  cached_definition = none;
  has_pending_completion = false;
  completion_in_flight = false;
  has_pending_definition = false;
  has_cached_completion = false;
  has_cached_definition = false;
  processes = 0;
  launches = 0;
  sent = [];
  signals = [];
  errors = [];
  killed = [];
  reads = 0;
}

-- The end of `shutdown`, and its beginning.
abbrev pub release : Client → Client
release s = record s {
  processes = if ltb 0 s.pid then s.processes - 1 else s.processes;
  pid = 0;
  stdio_open = false;
  stderr_open = false;
  input = [];
}

abbrev pub released : Option Client → Option Client
released none = none
released (some s) = some (release s)

abbrev pub begin_shutdown : Client → Client
begin_shutdown s = record s {
  shutdown_started = true;
  has_pending_completion = false;
  completion_in_flight = false;
  has_pending_definition = false;
  requests = [];
  documents = [];
  state = stopped;
}

module _ (w : World) where
  -- The loop that waits for the process, for a number of rounds, each 5 ms after the one before;
  -- `none` when the rounds do not suffice.
  unfoldable pub wait_exit : ℕ → ℕ → Client → Option Client
  wait_exit zero deadline s = none
  wait_exit (suc rounds) deadline s =
      let later = wait_exit rounds deadline (observed s) in
      if not (w.running s.reads s.pid)
      then some (observed s)
      else if not (deadline == 0) && leb deadline (w.clock s.reads)
      then some (record s { killed = s.pid ∷ s.killed; reads = s.reads + 1 })
      else later

  -- The process is told to exit, and its input is closed.
  abbrev pub say_exit : Client → Client
  say_exit s = record (send exit s) { stdio_open = false; reads = s.reads + 1 }

  -- A running process is told to exit and waited for.
  unfoldable pub end_process : ℕ → Client → Option Client
  unfolding wait_exit send
  end_process rounds s =
      if ltb 0 s.pid && w.running s.reads s.pid
      then wait_exit rounds (add64 (w.clock s.reads) 2000) (say_exit s)
      else some (observed s)

  unfoldable pub shutdown : ℕ → Client → Option Client
  unfolding end_process
  shutdown rounds s =
      if s.shutdown_started then some s else released (end_process rounds (begin_shutdown s))

  -- The clients that there are after some calls on one.
  pub data Reached (s0 : Client) : Client → Type 0 where
    uncalled : Reached s0 s0
    completed :
        (code path : Bytes) {s : Client} → Reached s0 s → Reached s0 (complete w code path s).1
    looked_up :
        (code path : Bytes) {s : Client} → Reached s0 s → Reached s0 (lookup w code path s).1
    pumped : {s : Client} → Reached s0 s → Reached s0 (pump w s)
    shut_down :
        (rounds : ℕ) {s s' : Client} → Reached s0 s → shutdown rounds s ≡ some s' → Reached s0 s'
