-- ===== src/Lsp/Client/Invariant/Pump.antt =====
-- The client of src/gz_lsp_client.cpp stays sound in `pump`, and keeps its input within bounds.
use gzscript.Base.{
  ℕ, if_cases, ◌||◌, ltb, codes, not, zero, suc, ◌+◌, ◌≤◌, ◌≡◌, refl, true, [], ◌∷◌, Bytes, Option,
  some, none, arith, inl, inr, ◌⊎◌, ◌+◌, if_both, length,
}
use gzscript.Lsp.{Query}
use gzscript.Lsp.Json.{Fields}
use gzscript.Lsp.Frame.{take_message, Taken, wait, broken, message}
use gzscript.Lsp.Client.{Client, World, send, fail, request, send_completion, initialize, observed}
use gzscript.Lsp.Client.Pump.{
  is_running_state, exit_message, is_late, drained, trimmed, parse_messages, input_limit, pump,
  pump_input, pump_checks, pump_requests, parse_rounds, handle_parsed, expire,
}
use gzscript.Lsp.Client.Invariant.{IsSound, IsUp, send_document-IsSame, send_completion-IsUp}
use gzscript.Lsp.Client.Invariant.Requests.{
  expire-IsKept, expire-nil, expire-IsNumbered, count-expire, in_flight-expire,
}
use gzscript.Lsp.Client.Invariant.Answers.{handle-IsUp, fail-IsUp}

Taken-cases :
    (t : Taken)
    → (t ≡ wait)
      ⊎ (((text : Bytes) × (t ≡ broken text))
          ⊎ ((body : Bytes) × ((rest : Bytes) × (t ≡ message body rest))))
Taken-cases wait = inl refl
Taken-cases (broken text) = inr (inl (text, refl))
Taken-cases (message body rest) = inr (inr (body, (rest, refl)))

take_nil : (input : Bytes) → input ≡ [] → take_message input ≡ wait
unfolding take_message
take_nil [] e = refl
take_nil (c ∷ input) e = ground arith

module _ (w : World) where
  -- The input may be replaced where there is a process.
  read-IsUp :
      (input stderr : Bytes) (reads : ℕ) (s : Client)
      → s.stdio_open ≡ true
      → IsUp s
      → IsUp (record s { input = input; stderr_output = stderr; reads = reads })
  read-IsUp input stderr reads s e h = ground arith

  observed-IsUp : (s : Client) → IsUp s → IsUp (observed s)
  observed-IsUp s h = ground arith

  handle_parsed-IsUp : (o : Option Fields) (s : Client) → IsUp s → IsUp (handle_parsed w o s)
  handle_parsed-IsUp none s h = h
  handle_parsed-IsUp (some fields) s h = handle-IsUp w fields s h

  -- Something is read only from a running server.
  nonempty-open :
      (s : Client) (body rest : Bytes)
      → IsUp s
      → take_message s.input ≡ message body rest
      → s.stdio_open ≡ true
  nonempty-open s body rest h e = ground (arith, take_nil s.input)

  parse_rounds-IsUp : (left : ℕ) (s : Client) → IsUp s → IsUp (parse_rounds w left s)
  unfolding parse_rounds
  parse_rounds-IsUp zero s h = h
  parse_rounds-IsUp (suc left) s h = elim (Taken-cases (take_message s.input)) [
    | inl e ↦ ground (arith, observed-IsUp s h)
    | inr (inl (text, e)) ↦
        ground (arith, observed-IsUp s h, fail-IsUp w text (observed s) (observed-IsUp s h))
    | inr (inr (body, (rest, e))) ↦
        let next = record s { input = rest; reads = s.reads + 1 } in
        let up = read-IsUp rest s.stderr_output (s.reads + 1) s (nonempty-open s body rest h e) h in
        ground (
          arith,
          observed-IsUp s h,
          parse_rounds-IsUp left (handle_parsed w (w.parse body) next)
              (handle_parsed-IsUp (w.parse body) next up),
        )
  ]

  -- The client after the loop over the requests.
  abbrev kept_client : Client → Client
  kept_client s =
      let (kept, s1) = expire w (w.clock s.reads) s.requests (observed s) in
      record s1 { requests = kept }

  kept_client-IsUp : (s : Client) → IsUp s → IsUp (kept_client s)
  kept_client-IsUp s h =
      let same = expire-IsKept w (w.clock s.reads) s.requests (observed s) in
      let live = same.live (observed-IsUp s h).sound.live in
      let numbered =
        expire-IsNumbered w (w.clock s.reads) s.requests (observed s) s.next_request_id
          h.sound.live.numbered in
      let fewer = count-expire w (w.clock s.reads) initialize s.requests (observed s) in
      let flags = in_flight-expire w (w.clock s.reads) s.requests (observed s) 0 in
      let none_left = expire-nil w (w.clock s.reads) s.requests (observed s) in
      record { sound = record { live = ground arith; in_flight = ground arith }; up = ground arith }

  pump_requests-IsUp : (s : Client) → IsUp s → IsUp (pump_requests w s)
  unfolding pump_requests
  pump_requests-IsUp s h = ground (
    arith,
    kept_client-IsUp s h,
    send_completion-IsUp w (kept_client s).pending_completion (kept_client s),
  )

  pump_checks-IsUp : (s : Client) → IsUp s → IsUp (pump_checks w s)
  unfolding pump_checks
  pump_checks-IsUp s h =
      let up = observed-IsUp s h in
      if_both IsUp (not (w.running s.reads s.pid)) (fail-IsUp w (exit_message w s) (observed s) up)
        (if_both IsUp (is_late w s)
          (fail-IsUp w (codes "ZLS initialization timed out") (observed s) up)
          (pump_requests-IsUp (observed s) up))

  stderr-IsUp : (stderr : Bytes) (s : Client) → IsUp s → IsUp (record s { stderr_output = stderr })
  stderr-IsUp stderr s h = ground arith

  pump_input-IsUp : (s : Client) → s.stdio_open ≡ true → IsUp s → IsUp (pump_input w s)
  unfolding pump_input
  pump_input-IsUp s e h =
      let parsed =
        parse_rounds-IsUp 8 (drained w s)
          (read-IsUp (drained w s).input (drained w s).stderr_output (s.reads + 1) s e h) in
      let r = parse_messages w (drained w s) in
      if_both IsUp (ltb input_limit (length r.input))
        (fail-IsUp w (codes "ZLS exceeded the JSON-RPC input buffer limit") r parsed)
        (pump_checks-IsUp (trimmed w r) (stderr-IsUp (trimmed w r).stderr_output r parsed))

  pub pump-IsSound : (s : Client) → IsSound s → IsSound (pump w s)
  unfolding pump
  pump-IsSound s h =
      if_cases IsSound (s.shutdown_started || not (is_running_state s.state)) (λ e. h)
        (λ e.
          (pump_input-IsUp s (ground (arith, h.live.stdio))
            (record { sound = h; up = ground arith })).sound)

  -- Asking keeps the input.
  send_completion-input : (q : Query) (s : Client) → (send_completion w q s).input ≡ s.input
  unfolding send_completion request send
  send_completion-input q s = ground (arith, send_document-IsSame q s)

  pump_requests-input : (s : Client) → (pump_requests w s).input ≡ s.input
  unfolding pump_requests
  pump_requests-input s =
      let same = expire-IsKept w (w.clock s.reads) s.requests (observed s) in
      ground (arith, send_completion-input (kept_client s).pending_completion (kept_client s))

  pump_checks-input :
      (s : Client) → length s.input ≤ input_limit → length (pump_checks w s).input ≤ input_limit
  unfolding pump_checks fail
  pump_checks-input s h = ground (arith, pump_requests-input (observed s))

  pump_input-input : (s : Client) → length (pump_input w s).input ≤ input_limit
  unfolding pump_input fail
  pump_input-input s =
      ground (arith, pump_checks-input (trimmed w (parse_messages w (drained w s))))

  pub pump-input :
      (s : Client) → length s.input ≤ input_limit → length (pump w s).input ≤ input_limit
  unfolding pump
  pump-input s h =
      if_both (λ (r : Client). length r.input ≤ input_limit)
        (s.shutdown_started || not (is_running_state s.state)) h (pump_input-input s)
