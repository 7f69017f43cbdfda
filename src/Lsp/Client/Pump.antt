-- ===== src/Lsp/Client/Pump.antt =====
-- The calls that the editor makes of src/gz_lsp_client.cpp: `pump` with `parse_messages`,
-- `complete` and `lookup`.
use gzscript.Base.{
  ℕ, zero, suc, ◌+◌, ◌-◌, ◌*◌, ltb, leb, if◌then◌else◌, Bool, true, false, not, ◌&&◌, ◌||◌, List,
  [], ◌∷◌, ◌++◌, Bytes, codes, Option, none, some, is_empty, length, add64, take, drop,
}
use gzscript.Lsp.{Query, make_query, same_query}
use gzscript.Lsp.Json.{CompletionOption, Definition, Fields}
use gzscript.Lsp.Frame.{take_message, wait, broken, message}
use gzscript.Lsp.Client.{
  Client, World, Request, RequestKind, State, initializing, ready, initialize, observed, sub64,
  fail, start, send_completion, send_definition,
}
use gzscript.Lsp.Client.Answers.{handle, give_up}

abbrev pub pipe_read_limit : ℕ
pipe_read_limit = 64 * 1024

abbrev pub input_limit : ℕ
input_limit = 16 * 1024 + 4 + 8 * 1024 * 1024

abbrev pub stderr_limit : ℕ
stderr_limit = 16 * 1024

-- `drain` of a pipe that is open or not, with what is available.
unfoldable pub drain : Bool → Bytes → Bytes → Bytes
drain is_open available output =
    if is_open then output ++ take pipe_read_limit available else output

-- The last bytes, at most as many as the limit.
unfoldable pub keep_last : ℕ → Bytes → Bytes
keep_last limit output =
    if ltb limit (length output) then drop (length output - limit) output else output

abbrev pub is_initialize : RequestKind → Bool
is_initialize initialize = true
is_initialize _ = false

abbrev pub is_running_state : State → Bool
is_running_state initializing = true
is_running_state ready = true
is_running_state _ = false

abbrev pub is_initializing : State → Bool
is_initializing initializing = true
is_initializing _ = false

abbrev pub is_ready : State → Bool
is_ready ready = true
is_ready _ = false

module _ (w : World) where
  abbrev pub handle_parsed : Option Fields → Client → Client
  handle_parsed none s = s
  handle_parsed (some fields) s = handle w fields s

  -- The loop of `parse_messages`, for as many messages as are left.
  unfoldable pub parse_rounds : ℕ → Client → Client
  unfolding take_message handle fail
  parse_rounds zero s = s
  parse_rounds (suc left) s =
      let later = observed s in
      elim (w.in_time s.reads) [
        | false ↦ later
        | true ↦ elim (take_message s.input) [
          | wait ↦ later
          | broken text ↦ fail w text later
          | message body rest ↦
              parse_rounds left (handle_parsed (w.parse body) (record later { input = rest }))
        ]
      ]

  abbrev pub parse_messages : Client → Client
  parse_messages s = parse_rounds 8 s

  -- A request that has waited too long, unless it is the first.
  unfoldable pub is_expired : ℕ → Request → Bool
  unfolding sub64
  is_expired now pending =
      not (is_initialize pending.kind || ltb (sub64 now pending.sent_at_msec) 5000)

  -- The loop over the requests: those that stay, and the client with the others given up.
  unfoldable pub expire : ℕ → List (ℕ × Request) → Client → List (ℕ × Request) × Client
  unfolding is_expired give_up
  expire now [] s = ([], s)
  expire now ((id, pending) ∷ rest) s =
      let is_old = is_expired now pending in
      let (kept, s') =
        expire now rest (if is_old then give_up pending.kind pending.query s else s) in
      (if is_old then kept else (id, pending) ∷ kept, s')

  -- The end of `pump`: old requests are given up, and the completion that is due is asked for.
  unfoldable pub pump_requests : Client → Client
  unfolding expire send_completion
  pump_requests s0 =
      let now = w.clock s0.reads in
      let (kept, s1) = expire now s0.requests (observed s0) in
      let s = record s1 { requests = kept } in
      if is_ready s.state
        && (s.has_pending_completion
            && (not s.completion_in_flight && leb s.completion_due_msec now))
      then send_completion w s.pending_completion s
      else s

  abbrev pub exit_message : Client → Bytes
  exit_message s =
      codes "ZLS exited unexpectedly"
      ++ (if is_empty s.stderr_output then [] else 10 ∷ s.stderr_output)

  abbrev pub is_late : Client → Bool
  is_late s = is_initializing s.state && leb 5000 (sub64 (w.clock s.reads) s.started_at_msec)

  -- The checks of `pump` on the process and the time.
  unfoldable pub pump_checks : Client → Client
  unfolding fail pump_requests
  pump_checks s =
      if not (w.running s.reads s.pid)
      then fail w (exit_message s) (observed s)
      else if is_late s
      then fail w (codes "ZLS initialization timed out") (observed s)
      else pump_requests (observed s)

  abbrev pub drained : Client → Client
  drained s = record s {
    input = drain s.stdio_open (w.stdout s.reads) s.input;
    stderr_output = drain s.stderr_open (w.stderr s.reads) s.stderr_output;
    reads = s.reads + 1;
  }

  abbrev pub trimmed : Client → Client
  trimmed s = record s { stderr_output = keep_last stderr_limit s.stderr_output }

  unfoldable pub pump_input : Client → Client
  unfolding drain parse_rounds keep_last pump_checks
  pump_input s0 =
      let s = parse_messages (drained s0) in
      if ltb input_limit (length s.input)
      then fail w (codes "ZLS exceeded the JSON-RPC input buffer limit") s
      else pump_checks (trimmed s)

  unfoldable pub pump : Client → Client
  unfolding pump_input
  pump s = if s.shutdown_started || not (is_running_state s.state) then s else pump_input s

  abbrev pub want_completion : Query → Client → Client
  want_completion query s = record s {
    pending_completion = query;
    has_pending_completion = true;
    completion_due_msec = add64 (w.clock s.reads) 75;
    reads = s.reads + 1;
  }

  -- `complete` for the query that it makes.
  unfoldable pub complete_query : Query → Client → List CompletionOption × Client
  unfolding same_query start
  complete_query query s =
      if s.has_cached_completion && same_query query s.cached_completion_query
      then (s.cached_completion_options, s)
      else if s.has_pending_completion && same_query query s.pending_completion
      then ([], s)
      else ([], (start w (want_completion query s)).1)

  unfoldable pub complete : Bytes → Bytes → Client → List CompletionOption × Client
  unfolding complete_query make_query
  complete code path s =
      if is_empty path then ([], s) else complete_query (make_query w.path_to_uri code path) s

  -- `start() && state == State::READY`
  abbrev pub ask_if_ready : Query → Bool × Client → Client
  ask_if_ready query (started, s) =
      if started && is_ready s.state then send_definition w query s else s

  abbrev pub want_definition : Query → Client → Client
  want_definition query s = record s { pending_definition = query; has_pending_definition = true }

  unfoldable pub lookup_query : Query → Client → Option Definition × Client
  unfolding same_query start send_definition
  lookup_query query s =
      if s.has_cached_definition && same_query query s.cached_definition_query
      then (s.cached_definition, s)
      else if s.has_pending_definition && same_query query s.pending_definition
      then (none, s)
      else (none, ask_if_ready query (start w (want_definition query s)))

  unfoldable pub lookup : Bytes → Bytes → Client → Option Definition × Client
  unfolding lookup_query make_query
  lookup code path s =
      if is_empty path then (none, s) else lookup_query (make_query w.path_to_uri code path) s
