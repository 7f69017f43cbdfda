-- ===== src/Lsp/Client/Invariant/Answers.antt =====
-- The client of src/gz_lsp_client.cpp stays sound when it handles a message of the server.
use gzscript.Base.{ℕ, ◌+◌, ◌≤◌, ◌≡◌, refl, false, Bytes, Option, some, none, arith, if_both}
use gzscript.Lsp.{Query}
use gzscript.Lsp.Json.{Json, Fields}
use gzscript.Lsp.Client.{
  Client, World, Message, Request, RequestKind, initialize, completion, definition, initialized,
  send, fail,
}
use gzscript.Lsp.Client.Answers.{
  find_request, drop_request, give_up, handle, handle_response, handle_result, enter_ready,
  handle_server_request, become_ready, accept_completion, accept_definition, answer,
}
use gzscript.Lsp.Client.Protocol.{
  closed, greeted, opened, advance, next_phase, agrees, readied, talk-snoc, readied-snoc,
  greetings-snoc, is_greeting,
}
use gzscript.Lsp.Client.Invariant.{
  count, one_of, one_if, IsLive, IsUp, fail-IsLive, send_definition-IsUp,
}
use gzscript.Lsp.Client.Invariant.Requests.{drop_request-IsNumbered, count-drop_request}
use gzscript.Lsp.Client.Pump.{is_initializing}

module _ (w : World) where
  pub fail-IsUp : (message : Bytes) (s : Client) → IsUp s → IsUp (fail w message s)
  unfolding fail count
  fail-IsUp message s h = record {
    sound = record { live = fail-IsLive w message s h.up h.sound.live; in_flight = refl };
    up = h.up;
  }

  -- An answer to a request of the server may be sent at any time.
  reply-IsUp :
      (m : Message) (s : Client)
      → ((advance (some greeted) m ≡ some greeted) × (advance (some opened) m ≡ some opened))
      → is_greeting m ≡ 0
      → IsUp s
      → IsUp (send m s)
  unfolding send agrees advance next_phase
  reply-IsUp m s k other h =
      ground
        (arith, talk-snoc (some closed) s.sent m, readied-snoc s.sent m, greetings-snoc s.sent m)

  pub handle_server_request-IsUp :
      (message : Fields) (s : Client) → IsUp s → IsUp (handle_server_request w message s)
  unfolding handle_server_request advance next_phase is_greeting
  handle_server_request-IsUp message s h =
      if_both IsUp _ (reply-IsUp _ s (refl, refl) refl h) (reply-IsUp _ s (refl, refl) refl h)

  -- The request that is answered is no longer outstanding.
  record IsAnswered (kind : RequestKind) (s : Client) : Type 0 where
    pub live : IsLive s
    pub alone :
        one_of initialize kind + count initialize s.requests ≤ one_if (is_initializing s.state)
    pub up : s.shutdown_started ≡ false
    pub in_flight :
        one_of completion kind + count completion s.requests ≡ one_if s.completion_in_flight

  accept_completion-IsUp :
      (q : Query) (result : Json) (s : Client)
      → IsAnswered completion s
      → IsUp (accept_completion w q result s)
  unfolding accept_completion one_of
  accept_completion-IsUp q result s h = ground arith

  accept_definition-IsUp :
      (q : Query) (result : Json) (s : Client)
      → IsAnswered definition s
      → IsUp (accept_definition w q result s)
  unfolding accept_definition one_of
  accept_definition-IsUp q result s h = ground arith

  give_up-IsUp :
      (kind : RequestKind) (q : Query) (s : Client) → IsAnswered kind s → IsUp (give_up kind q s)
  unfolding give_up one_of
  give_up-IsUp initialize q s h = ground arith
  give_up-IsUp completion q s h = ground arith
  give_up-IsUp definition q s h = ground arith

  enter_ready-IsUp : (s : Client) → IsAnswered initialize s → IsUp (enter_ready w s)
  unfolding send agrees advance next_phase readied one_of is_greeting
  enter_ready-IsUp s h = ground (
    arith,
    talk-snoc (some closed) s.sent initialized,
    readied-snoc s.sent initialized,
    greetings-snoc s.sent initialized,
  )

  become_ready-IsUp : (s : Client) → IsAnswered initialize s → IsUp (become_ready w s)
  unfolding become_ready
  become_ready-IsUp s h =
      let up = enter_ready-IsUp s h in
      if_both IsUp _
        (send_definition-IsUp w (enter_ready w s).pending_definition (enter_ready w s) refl up) up

  -- `fail` needs no account of what is outstanding.
  refuse-IsUp :
      {kind : RequestKind} (message : Bytes) (s : Client)
      → IsAnswered kind s
      → IsUp (fail w message s)
  unfolding fail count
  refuse-IsUp message s h = record {
    sound = record { live = fail-IsLive w message s h.up h.live; in_flight = refl };
    up = h.up;
  }

  handle_result-IsUp :
      (kind : RequestKind) (q : Query) (result : Json) (s : Client)
      → IsAnswered kind s
      → IsUp (handle_result w kind q result s)
  unfolding handle_result
  handle_result-IsUp initialize q result s h =
      if_both IsUp _ (refuse-IsUp _ s h) (become_ready-IsUp s h)
  handle_result-IsUp completion q result s h = accept_completion-IsUp q result s h
  handle_result-IsUp definition q result s h = accept_definition-IsUp q result s h

  dropped-IsAnswered :
      (id : ℕ) (p : Request) (s : Client)
      → find_request id s.requests ≡ some p
      → IsUp s
      → IsAnswered p.kind (record s { requests = drop_request id s.requests })
  unfolding drop_request
  dropped-IsAnswered id p s e h =
      let numbered = h.sound.live.numbered in
      ground (
        arith,
        count-drop_request initialize id s.requests s.next_request_id p numbered e,
        count-drop_request completion id s.requests s.next_request_id p numbered e,
        drop_request-IsNumbered id s.requests s.next_request_id numbered,
      )

  answer-IsUp :
      (o : Option Request) (id : ℕ) (message : Fields) (s : Client)
      → find_request id s.requests ≡ o
      → IsUp s
      → IsUp (answer w o id message s)
  answer-IsUp none id message s e h = h
  answer-IsUp (some p) id message s e h =
      let dropped = dropped-IsAnswered id p s e h in
      if_both IsUp _ (give_up-IsUp _ _ _ dropped) (handle_result-IsUp _ _ _ _ dropped)

  pub handle-IsUp : (message : Fields) (s : Client) → IsUp s → IsUp (handle w message s)
  unfolding handle handle_response
  handle-IsUp message s h =
      if_both IsUp _ (handle_server_request-IsUp message s h)
        (if_both IsUp _ (answer-IsUp _ _ message s refl h) h)
