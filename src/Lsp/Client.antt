-- ===== src/Lsp/Client.antt =====
-- The state of `GzLspClient` in src/gz_lsp_client.hpp, and how gz_lsp_client.cpp starts the server,
-- gives it up and writes to it. What the engine and the operating system answer is a `World`, a
-- stream for each question, which is read at the number of observations made so far.
pub mod Answers
pub mod Pump
pub mod Shutdown
pub mod Protocol
pub mod Invariant
pub mod Ends
pub mod Queries
mod Tests
use gzscript.Base.{
  ℕ, ◌+◌, ◌-◌, ◌%◌, ◌^◌, ◌==◌, ltb, leb, if◌then◌else◌, Bool, true, false, not, ◌&&◌, ◌||◌, List,
  [], ◌∷◌, ◌++◌, Bytes, codes, Option, none, some,
}
use gzscript.Lsp.{Query, Document, Notification, synchronize}
use gzscript.Lsp.Json.{Json, Fields, Conversions, CompletionOption, Definition}

pub data State : Type 0 where
  stopped initializing ready failed : State

pub data RequestKind : Type 0 where
  initialize completion definition : RequestKind

-- `Query()`
abbrev pub no_query : Query
no_query = record { code = []; path = []; source = []; uri = []; line = 0; character = 0 }

pub record Request : Type 0 where
  pub kind : RequestKind
  pub query : Query
  pub sent_at_msec : ℕ

-- What the client writes to the server: requests with their ids, notifications, and answers to the
-- server's own requests, with as many configurations as it asked for.
pub data Message : Type 0 where
  initialize_request : ℕ → Message
  completion_request definition_request : ℕ → Query → Message
  initialized exit : Message
  document_notification : Notification → Message
  configurations : Json → ℕ → Message
  null_answer : Json → Message

-- `pid` is 0 for no process. The fields from `processes` on are outside the object: the global
-- count of server processes, how many were started, the messages written, the signals
-- `completion_ready`, the errors printed, the processes killed, and the observations made.
pub record Client : Type 0 where
  pub state : State
  pub shutdown_started : Bool
  pub stdio_open : Bool
  pub stderr_open : Bool
  pub input : Bytes
  pub stderr_output : Bytes
  pub pid : ℕ
  pub next_request_id : ℕ
  pub started_at_msec : ℕ
  pub failed_at_msec : ℕ
  pub completion_due_msec : ℕ
  pub consecutive_restarts : ℕ
  pub requests : List (ℕ × Request)
  pub documents : List (Bytes × Document)
  pub pending_completion : Query
  pub pending_definition : Query
  pub cached_completion_query : Query
  pub cached_definition_query : Query
  pub cached_completion_options : List CompletionOption
  pub cached_definition : Option Definition
  pub has_pending_completion : Bool
  pub completion_in_flight : Bool
  pub has_pending_definition : Bool
  pub has_cached_completion : Bool
  pub has_cached_definition : Bool
  pub processes : ℕ
  pub launches : ℕ
  pub sent : List Message
  pub signals : List Bytes
  pub errors : List Bytes
  pub killed : List ℕ
  pub reads : ℕ

-- `launch` is the pid of the process that `execute_with_pipe` starts, 0 if it starts none;
-- `in_time` says that the time for messages is not used up; `parse` gives the dictionary that a
-- text is, if it is one.
pub record World : Type 0 where
  pub clock : ℕ → ℕ
  pub running : ℕ → ℕ → Bool
  pub launch : ℕ → ℕ
  pub in_time : ℕ → Bool
  pub shutting_down : ℕ → Bool
  pub stdout : ℕ → Bytes
  pub stderr : ℕ → Bytes
  pub parse : Bytes → Option Fields
  pub path_to_uri : Bytes → Bytes
  pub uri_to_path : Bytes → Bytes
  pub to : Conversions

-- `a - b` on a `uint64_t`.
unfoldable pub sub64 : ℕ → ℕ → ℕ
sub64 a b = (a + 2 ^ 64 - b) % 2 ^ 64

abbrev pub observed : Client → Client
observed s = record s { reads = s.reads + 1 }

abbrev pub is_failed : State → Bool
is_failed failed = true
is_failed _ = false

unfoldable pub send : Message → Client → Client
send message s = if s.stdio_open then record s { sent = s.sent ++ message ∷ [] } else s

abbrev pub send_any : Option Notification → Client → Client
send_any none s = s
send_any (some notification) s = send (document_notification notification) s

-- `synchronize`, with its message.
unfoldable pub send_document : Query → Client → Client
unfolding send
send_document query s =
    let (notification, documents) = synchronize query s.documents in
    send_any notification (record s { documents = documents })

module _ (w : World) where
  -- `requests.emplace`
  abbrev pub emplace : RequestKind → Query → Client → Client
  emplace kind query s =
      let pending : Request = record {
        kind = kind;
        query = query;
        sent_at_msec = w.clock s.reads;
      } in
      record s {
        next_request_id = s.next_request_id + 1;
        requests = (s.next_request_id, pending) ∷ s.requests;
        reads = s.reads + 1;
      }

  -- `request`, of a kind, for a query, with the message made of its id.
  unfoldable pub request : RequestKind → Query → (ℕ → Message) → Client → Client
  unfolding send
  request kind query message s = send (message s.next_request_id) (emplace kind query s)

  unfoldable pub send_completion : Query → Client → Client
  unfolding request send_document
  send_completion query s =
      record (request completion query (λ id. completion_request id query)
        (send_document query s)) { completion_in_flight = true }

  unfoldable pub send_definition : Query → Client → Client
  unfolding request send_document
  send_definition query s =
      request definition query (λ id. definition_request id query) (send_document query s)

  -- A running process is killed; the global count goes down if there was a process.
  unfoldable pub fail : Bytes → Client → Client
  fail message s = record s {
    errors = if is_failed s.state then s.errors else s.errors ++ message ∷ [];
    state = failed;
    failed_at_msec = w.clock s.reads;
    has_pending_completion = false;
    completion_in_flight = false;
    has_pending_definition = false;
    requests = [];
    documents = [];
    killed = if ltb 0 s.pid && w.running s.reads s.pid then s.pid ∷ s.killed else s.killed;
    processes = if ltb 0 s.pid then s.processes - 1 else s.processes;
    pid = 0;
    stdio_open = false;
    stderr_open = false;
    input = [];
    reads = s.reads + 1;
  }

  -- The second half of `start`.
  unfoldable pub launch : Client → Bool × Client
  unfolding request fail
  launch s =
      let pid = w.launch s.reads in
      if pid == 0
      then (
        false,
        fail (codes "Unable to start ZLS. Configure gzscript/language_server/zls_path.") s,
      )
      else (
        true,
        request initialize no_query initialize_request (record s {
          stdio_open = true;
          stderr_open = true;
          pid = pid;
          processes = s.processes + 1;
          launches = s.launches + 1;
          state = initializing;
          started_at_msec = w.clock s.reads;
          reads = s.reads + 1;
        }),
      )

  abbrev pub start_from : State → Client → Bool × Client
  start_from ready s = (true, s)
  start_from initializing s = (true, s)
  start_from failed s =
      if leb 1 s.consecutive_restarts || ltb (sub64 (w.clock s.reads) s.failed_at_msec) 1000
      then (false, observed s)
      else launch (record s {
        consecutive_restarts = s.consecutive_restarts + 1;
        state = stopped;
        reads = s.reads + 1;
      })
  start_from stopped s = launch s

  unfoldable pub start : Client → Bool × Client
  unfolding launch
  start s =
      if s.shutdown_started || w.shutting_down s.reads then (false, s) else start_from s.state s
