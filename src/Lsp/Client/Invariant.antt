-- ===== src/Lsp/Client/Invariant.antt =====
-- The invariant of the client of src/gz_lsp_client.cpp, and that its parts keep it.
pub mod Requests
pub mod Answers
pub mod Pump
pub mod Calls
use gzscript.Base.{
  ℕ, ◌+◌, ◌≤◌, ◌<◌, ◌≡◌, refl, ltb, if◌then◌else◌, Bytes, Option, none, ◌∙◌, Bool-cases, inl, inr,
  Bool, true, false, List, [], ◌∷◌, ◌++◌, some, length, arith,
}
use gzscript.Lsp.{Query, Document, Notification, synchronize, synchronize_found}
use gzscript.Lsp.Client.{
  Client, World, Request, RequestKind, initialize, completion, State, stopped, initializing, ready,
  failed, Message, initialize_request, completion_request, document_notification, definition,
  is_failed, send, send_document, send_any, request, emplace, send_completion, send_definition,
  fail, launch, start, start_from, definition_request,
}
use gzscript.Lsp.Client.Pump.{is_running_state, is_initializing, input_limit}
use gzscript.Lsp.Client.Protocol.{
  closed, opened, talk, advance, next_phase, agrees, readied, talk-snoc, readied-snoc, is_greeting,
  greetings, greetings-snoc,
}

unfoldable pub one_of : RequestKind → RequestKind → ℕ
one_of initialize initialize = 1
one_of completion completion = 1
one_of definition definition = 1
one_of _ _ = 0

-- The requests of a kind among the outstanding ones.
unfoldable pub count : RequestKind → List (ℕ × Request) → ℕ
unfolding one_of
count kind [] = 0
count kind ((id, pending) ∷ rest) = one_of kind pending.kind + count kind rest

-- The ids are distinct and below the one given: the latest comes first.
unfoldable pub IsNumbered : ℕ → List (ℕ × Request) → Type 0
IsNumbered bound [] = 0 < 1
IsNumbered bound ((id, pending) ∷ rest) = (id < bound) × IsNumbered id rest

abbrev pub one_if : Bool → ℕ
one_if true = 1
one_if false = 0

-- There is a process, with open pipes, in just the states `initializing` and `ready`; in the others
-- nothing is outstanding. A server is started once more than servers became ready, and once more
-- as long as the restart is not made good.
pub record IsLive (s : Client) : Type 0 where
  pub process : ltb 0 s.pid ≡ is_running_state s.state
  pub stdio : s.stdio_open ≡ is_running_state s.state
  pub stderr : s.stderr_open ≡ is_running_state s.state
  pub quiet : is_running_state s.state ≡ false → s.requests ≡ []
  pub untracked : is_running_state s.state ≡ false → s.documents ≡ []
  pub unread : is_running_state s.state ≡ false → s.input ≡ []
  pub counted : s.processes ≡ one_if (is_running_state s.state)
  pub restarts : s.consecutive_restarts ≤ 1
  pub launched : s.launches ≤ 1 + s.consecutive_restarts + readied s.sent
  pub fresh :
      s.state ≡ stopped
      → s.shutdown_started ≡ false
      → s.launches ≤ s.consecutive_restarts + readied s.sent
  pub over : s.shutdown_started ≡ true → s.state ≡ stopped
  pub talks : agrees s.state (talk (some closed) s.sent) ≡ true
  pub greeted : greetings s.sent ≡ s.launches
  pub greeting : count initialize s.requests ≤ one_if (is_initializing s.state)
  pub numbered : IsNumbered s.next_request_id s.requests

-- At most one completion is outstanding, and the flag tells whether one is.
pub record IsSound (s : Client) : Type 0 where
  pub live : IsLive s
  pub in_flight : count completion s.requests ≡ one_if s.completion_in_flight

-- The same before `shutdown`.
pub record IsUp (s : Client) : Type 0 where
  pub sound : IsSound s
  pub up : s.shutdown_started ≡ false

-- A message that is allowed keeps the invariant.
pub send-IsLive :
    (m : Message) (s : Client)
    → agrees s.state (advance (talk (some closed) s.sent) m) ≡ true
    → is_greeting m ≡ 0
    → IsLive s
    → IsLive (send m s)
unfolding send readied
send-IsLive m s h other live =
    ground (arith, talk-snoc (some closed) s.sent m, readied-snoc s.sent m, greetings-snoc s.sent m)

opened_agrees : (s : Client) → s.state ≡ ready → IsLive s → talk (some closed) s.sent ≡ some opened
unfolding agrees
opened_agrees s h live = ground arith

send_any-IsLive :
    (o : Option Notification) (s : Client) → s.state ≡ ready → IsLive s → IsLive (send_any o s)
unfolding advance next_phase agrees is_greeting
send_any-IsLive none s h live = live
send_any-IsLive (some n) s h live =
    send-IsLive (document_notification n) s (ground (arith, opened_agrees s h live)) refl live

documents-IsLive :
    (ds : List (Bytes × Document)) (s : Client)
    → s.state ≡ ready
    → IsLive s
    → IsLive (record s { documents = ds })
documents-IsLive ds s h live = ground arith

pub send_document-IsLive :
    (q : Query) (s : Client) → s.state ≡ ready → IsLive s → IsLive (send_document q s)
unfolding send_document
send_document-IsLive q s h live =
    let (o, ds) = synchronize q s.documents in
    send_any-IsLive o (record s { documents = ds }) h (documents-IsLive ds s h live)

-- What the rest of the client goes by is not touched by `synchronize`.
pub record IsSame (s s' : Client) : Type 0 where
  pub input : s'.input ≡ s.input
  pub state : s'.state ≡ s.state
  pub requests : s'.requests ≡ s.requests
  pub in_flight : s'.completion_in_flight ≡ s.completion_in_flight
  pub up : s'.shutdown_started ≡ s.shutdown_started

pub send_document-IsSame : (q : Query) (s : Client) → IsSame s (send_document q s)
unfolding send_document synchronize synchronize_found send
send_document-IsSame q s = ground arith

module _ (w : World) where
  pub fail-IsLive :
      (message : Bytes) (s : Client)
      → s.shutdown_started ≡ false
      → IsLive s
      → IsLive (fail w message s)
  unfolding fail agrees IsNumbered count
  fail-IsLive message s h live = ground arith

  -- A request that is allowed.
  request-IsLive :
      (kind : RequestKind) (q : Query) (message : ℕ → Message) (s : Client)
      → s.state ≡ ready
      → one_of initialize kind ≡ 0
      → advance (some opened) (message s.next_request_id) ≡ some opened
      → is_greeting (message s.next_request_id) ≡ 0
      → IsLive s
      → IsLive (request w kind q message s)
  unfolding request agrees IsNumbered count
  request-IsLive kind q message s h other allowed no_greeting live =
      send-IsLive (message s.next_request_id) (emplace w kind q s)
        (ground (arith, allowed, opened_agrees s h live)) no_greeting (ground arith)

  pub launch-IsLive :
      (s : Client)
      → s.state ≡ stopped
      → s.shutdown_started ≡ false
      → IsLive s
      → IsLive (launch w s).1
  unfolding launch fail request send agrees IsNumbered count talk advance next_phase readied
      is_greeting
  launch-IsLive s e h live = ground (
    arith,
    talk-snoc (some closed) s.sent (initialize_request s.next_request_id),
    readied-snoc s.sent (initialize_request s.next_request_id),
    greetings-snoc s.sent (initialize_request s.next_request_id),
  )

  retried-IsLive :
      (s : Client)
      → s.state ≡ failed
      → ltb s.consecutive_restarts 1 ≡ true
      → s.shutdown_started ≡ false
      → IsLive s
      → IsLive (record s {
        consecutive_restarts = s.consecutive_restarts + 1;
        state = stopped;
        reads = s.reads + 1;
      })
  unfolding agrees
  retried-IsLive s h k running live = ground arith

  start_from-IsLive :
      (state : State) (s : Client)
      → s.state ≡ state
      → s.shutdown_started ≡ false
      → IsLive s
      → IsLive (start_from w state s).1
  unfolding agrees
  start_from-IsLive stopped s e h live = launch-IsLive s e h live
  start_from-IsLive initializing s e h live = live
  start_from-IsLive ready s e h live = live
  start_from-IsLive failed s e h live = elim (Bool-cases (ltb s.consecutive_restarts 1)) [
    | inl k ↦ ground (
      arith,
      launch-IsLive
          (record s {
            consecutive_restarts = s.consecutive_restarts + 1;
            state = stopped;
            reads = s.reads + 1;
          })
          refl h (retried-IsLive s e k h live),
    )
    | inr k ↦ ground arith
  ]

  pub start-IsLive : (s : Client) → IsLive s → IsLive (start w s).1
  unfolding start
  start-IsLive s live = ground (arith, start_from-IsLive s.state s refl)

  -- A definition may be asked for whenever the server is ready, a completion when none is
  -- outstanding.
  pub send_definition-IsUp :
      (q : Query) (s : Client) → s.state ≡ ready → IsUp s → IsUp (send_definition w q s)
  unfolding send_definition advance next_phase one_of request send count is_greeting
  send_definition-IsUp q s h up =
      let same = send_document-IsSame q s in
      let live =
        request-IsLive definition q (λ id. definition_request id q) (send_document q s)
          (same.state ∙ h) refl refl refl (send_document-IsLive q s h up.sound.live) in
      ground arith

  pub send_completion-IsUp :
      (q : Query) (s : Client)
      → s.state ≡ ready
      → s.completion_in_flight ≡ false
      → IsUp s
      → IsUp (send_completion w q s)
  unfolding send_completion advance next_phase one_of request send count is_greeting
  send_completion-IsUp q s h k up =
      let same = send_document-IsSame q s in
      let live =
        request-IsLive completion q (λ id. completion_request id q) (send_document q s)
          (same.state ∙ h) refl refl refl (send_document-IsLive q s h up.sound.live) in
      ground arith
