-- ===== src/Lsp/Client/Invariant/Calls.antt =====
-- Whatever the editor calls and the system answers, the client of src/gz_lsp_client.cpp stays
-- sound.
use gzscript.Base.{
  some_inj, ℕ, zero, suc, ◌+◌, ◌≤◌, ◌≡◌, refl, ltb, Bool, true, false, ◌&&◌, List, [], Bytes,
  Option, some, none, length, is_empty, arith, subst, add64, if_both, if_cases, if◌then◌else◌,
}
use gzscript.Lsp.{Query, make_query, same_query}
use gzscript.Lsp.Json.{CompletionOption, Definition}
use gzscript.Lsp.Client.{
  Client, World, stopped, start, ready, send_definition, exit, send, observed, fail, launch,
  request,
}
use gzscript.Lsp.Client.Pump.{
  complete, lookup, complete_query, lookup_query, ask_if_ready, want_completion, want_definition,
  is_ready, input_limit,
}
use gzscript.Lsp.Client.Shutdown.{
  say_exit, begin_shutdown, release, released, new_client, wait_exit, end_process, shutdown,
  Reached, uncalled, completed, looked_up, pumped, shut_down,
}
use gzscript.Lsp.Client.Protocol.{
  talk, closed, readied, agrees, advance, next_phase, talk-snoc, readied-snoc, greetings,
  is_greeting, greetings-snoc,
}
use gzscript.Lsp.Client.Invariant.{
  IsNumbered, count, one_of, send_document-IsSame, IsSound, IsUp, start-IsLive,
  send_definition-IsUp,
}
use gzscript.Lsp.Client.Invariant.Pump.{pump-IsSound, pump-input}

-- Sound, and with no more input than is allowed.
pub record IsFit (s : Client) : Type 0 where
  pub sound : IsSound s
  pub bounded : length s.input ≤ input_limit

new_client-IsFit : IsFit new_client
unfolding greetings agrees talk readied IsNumbered count
new_client-IsFit = ground arith

module _ (w : World) where
  start-IsFit : (s : Client) → IsFit s → IsFit (start w s).1
  unfolding start launch fail request send count one_of
  start-IsFit s h = ground (arith, start-IsLive w s h.sound.live)

  want_completion-IsFit : (q : Query) (s : Client) → IsFit s → IsFit (want_completion w q s)
  want_completion-IsFit q s h = ground arith

  want_definition-IsFit : (q : Query) (s : Client) → IsFit s → IsFit (want_definition w q s)
  want_definition-IsFit q s h = ground arith

  complete-IsFit : (code path : Bytes) (s : Client) → IsFit s → IsFit (complete w code path s).1
  unfolding complete complete_query
  complete-IsFit code path s h =
      let q = make_query w.path_to_uri code path in
      let started = start-IsFit (want_completion w q s) (want_completion-IsFit q s h) in
      if_both IsResult (is_empty path) h (
        if_both IsResult (s.has_cached_completion && same_query q s.cached_completion_query) h (
          if_both IsResult (s.has_pending_completion && same_query q s.pending_completion) h
            started))
    where
      IsResult : List CompletionOption × Client → Type 0
      IsResult (_, r) = IsFit r

  send_definition-IsFit :
      (q : Query) (s : Client) → s.state ≡ ready → IsFit s → IsFit (send_definition w q s)
  unfolding send_definition request send
  send_definition-IsFit q s e h =
      let up : IsUp s = record { sound = h.sound; up = ground arith } in
      ground (arith, send_definition-IsUp w q s e up, send_document-IsSame q s)

  ask_if_ready-IsFit : (q : Query) (r : Bool × Client) → IsFit r.1 → IsFit (ask_if_ready w q r)
  ask_if_ready-IsFit q (started, s) h =
      if_cases IsFit (started && is_ready s.state) (λ e. send_definition-IsFit q s (ground arith) h)
        (λ e. h)

  lookup-IsFit : (code path : Bytes) (s : Client) → IsFit s → IsFit (lookup w code path s).1
  unfolding lookup lookup_query
  lookup-IsFit code path s h =
      let q = make_query w.path_to_uri code path in
      let started = start-IsFit (want_definition w q s) (want_definition-IsFit q s h) in
      if_both IsResult (is_empty path) h (
        if_both IsResult (s.has_cached_definition && same_query q s.cached_definition_query) h (
          if_both IsResult (s.has_pending_definition && same_query q s.pending_definition) h
            (ask_if_ready-IsFit q (start w (want_definition w q s)) started)))
    where
      IsResult : Option Definition × Client → Type 0
      IsResult (_, r) = IsFit r

-- A client between the start and the end of `shutdown`.
record IsEnding (s : Client) : Type 0 where
  pub state : s.state ≡ stopped
  pub over : s.shutdown_started ≡ true
  pub requests : s.requests ≡ []
  pub documents : s.documents ≡ []
  pub in_flight : s.completion_in_flight ≡ false
  pub counted : s.processes ≡ (if ltb 0 s.pid then 1 else 0)
  pub restarts : s.consecutive_restarts ≤ 1
  pub launched : s.launches ≤ 1 + s.consecutive_restarts + readied s.sent
  pub talks : agrees stopped (talk (some closed) s.sent) ≡ true
  pub greeted : greetings s.sent ≡ s.launches

-- A client after `shutdown`.
abbrev pub IsShut : Client → Type 0
IsShut s = IsFit s × (s.shutdown_started ≡ true)

release-IsFit : (s : Client) → IsEnding s → IsFit (release s)
unfolding agrees IsNumbered count
release-IsFit s h = ground arith

module _ (w : World) where
  wait_exit-IsEnding :
      (rounds deadline : ℕ) (s s' : Client)
      → IsEnding s
      → wait_exit w rounds deadline s ≡ some s'
      → IsEnding s'
  unfolding wait_exit
  wait_exit-IsEnding zero deadline s s' h e = ground arith
  wait_exit-IsEnding (suc rounds) deadline s s' h e =
      ground (arith, wait_exit-IsEnding rounds deadline (observed s) s' (ground arith))

  begin-IsEnding : (s : Client) → IsFit s → IsEnding (begin_shutdown s)
  unfolding agrees
  begin-IsEnding s h = ground arith

  say_exit-IsEnding :
      (s : Client) → ltb 0 s.pid ≡ true → IsFit s → IsEnding (say_exit w (begin_shutdown s))
  unfolding send agrees advance next_phase readied is_greeting
  say_exit-IsEnding s e h = ground (
    arith,
    talk-snoc (some closed) s.sent exit,
    readied-snoc s.sent exit,
    greetings-snoc s.sent exit,
  )

  observed-IsEnding : (s : Client) → IsEnding s → IsEnding (observed s)
  observed-IsEnding s h = ground arith

  end_process-IsEnding :
      (rounds : ℕ) (s s' : Client)
      → IsFit s
      → end_process w rounds (begin_shutdown s) ≡ some s'
      → IsEnding s'
  unfolding end_process
  end_process-IsEnding rounds s s' h =
      if_cases Ends (ltb 0 s.pid && w.running s.reads s.pid)
        (λ b.
          wait_exit-IsEnding rounds (add64 (w.clock s.reads) 2000) _ s'
            (say_exit-IsEnding s (ground arith) h))
        (λ b e.
          subst IsEnding (some_inj e) (observed-IsEnding (begin_shutdown s) (begin-IsEnding s h)))
    where
      Ends : Option Client → Type 0
      Ends o = o ≡ some s' → IsEnding s'

  pub shutdown-IsShut :
      (rounds : ℕ) (s s' : Client) → IsFit s → shutdown w rounds s ≡ some s' → IsShut s'
  unfolding shutdown
  shutdown-IsShut rounds s s' h =
      if_cases Ends s.shutdown_started (λ b e. subst IsShut (some_inj e) (h, b))
        (λ b. go (end_process w rounds (begin_shutdown s)) (λ t. end_process-IsEnding rounds s t h))
    where
      Ends : Option Client → Type 0
      Ends o = o ≡ some s' → IsShut s'

      go :
          (o : Option Client)
          → ((t : Client) → o ≡ some t → IsEnding t)
          → released o ≡ some s'
          → IsShut s'
      go none k e = ground arith
      go (some t) k e =
          let ending = k t refl in subst IsShut (some_inj e) (release-IsFit t ending, ending.over)

  pub reached-IsFit : {s0 s : Client} → IsFit s0 → Reached w s0 s → IsFit s
  reached-IsFit h uncalled = h
  reached-IsFit h (completed code path {s} r) = complete-IsFit w code path s (reached-IsFit h r)
  reached-IsFit h (looked_up code path {s} r) = lookup-IsFit w code path s (reached-IsFit h r)
  reached-IsFit h (pumped {s} r) = record {
    sound = pump-IsSound w s (reached-IsFit h r).sound;
    bounded = pump-input w s (reached-IsFit h r).bounded;
  }
  reached-IsFit h (shut_down rounds {s} {s'} r e) =
      (shutdown-IsShut rounds s s' (reached-IsFit h r) e).0

  -- Whatever is called on a new client, and whatever the system and the server answer, the client
  -- is sound: there is one process, with open pipes, just while it initializes or is ready, and
  -- what is counted of it is right; otherwise no request, document or input is kept. As many
  -- `initialize` requests are written as servers were started. After each, until the next: first only
  -- answers to the server, then, in `ready`, also requests and document notifications, but none before
  -- the notification `initialized`, which comes at most once; after `exit`, which may come at any point
  -- and without the request `shutdown`, nothing. The ids of outstanding requests are distinct, and at
  -- most one of those is for a completion, as its flag says. The input is bounded. Servers are started at
  -- most once more than servers became ready, and once more again after a restart that is not
  -- made good yet.
  pub calls-IsFit : {s : Client} → Reached w new_client s → IsFit s
  calls-IsFit r = reached-IsFit new_client-IsFit r
