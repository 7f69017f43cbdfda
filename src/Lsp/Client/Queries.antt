-- ===== src/Lsp/Client/Queries.antt =====
-- What `complete` of src/gz_lsp_client.cpp answers after the server has answered, and after it has
-- failed.
use gzscript.Base.{
  ℕ, ◌+◌, ◌≡◌, refl, sym, ap, ◌∙◌, subst, ltb, leb, true, false, ◌&&◌, ◌||◌, [], codes, some, arith,
  ===_iff, ==_iff,
}
use gzscript.Lsp.{Query, same_query}
use gzscript.Lsp.Json.{Fields, null, has_field, get_field, completion_options}
use gzscript.Lsp.Client.{Client, World, completion, failed, start, sub64}
use gzscript.Lsp.Client.Answers.{
  find_request, handle_response, handle_result, accept_completion, drop_request,
}
use gzscript.Lsp.Client.Pump.{complete_query, pump}

same_query_refl : (q : Query) → same_query q q ≡ true
unfolding same_query
same_query_refl q = ground (
  arith,
  (===_iff q.uri q.uri).1 refl,
  (===_iff q.source q.source).1 refl,
  (==_iff q.line q.line).1 refl,
)

module _ (w : World) where
  -- The cache holds the answer to the query that is wanted.
  accepted_completion :
      (q : Query) (result : _) (s : Client)
      → s.has_pending_completion ≡ true
      → same_query q s.pending_completion ≡ true
      → complete_query w q (accept_completion w q result s)
        ≡ (completion_options w.to result, accept_completion w q result s)
  unfolding accept_completion complete_query
  accepted_completion q result s h k = ground (arith, same_query_refl q)

  response-accepted :
      (id : ℕ) (message : Fields) (q : Query) (sent_at : ℕ) (s : Client)
      → find_request id s.requests
        ≡ some (record { kind = completion; query = q; sent_at_msec = sent_at })
      → has_field (codes "error") message ≡ false
      → handle_response w id message s
        ≡ accept_completion w q
            (get_field (codes "result") null message)
            (record s { requests = drop_request id s.requests })
  unfolding handle_response handle_result
  response-accepted id message q sent_at s e k = ground arith

  -- When the server answers the request for the completion that is still wanted, without an error,
  -- the next `complete` of the same query returns the options that the answer lists, and changes
  -- nothing.
  pub complete-handle_response :
      (id : ℕ) (message : Fields) (q : Query) (sent_at : ℕ) (s : Client)
      → find_request id s.requests
        ≡ some (record { kind = completion; query = q; sent_at_msec = sent_at })
      → has_field (codes "error") message ≡ false
      → s.has_pending_completion ≡ true
      → same_query q s.pending_completion ≡ true
      → complete_query w q (handle_response w id message s) ≡ (
        completion_options w.to (get_field (codes "result") null message),
        handle_response w id message s,
      )
  complete-handle_response id message q sent_at s e k h same =
      let result = get_field (codes "result") null message in
      subst (λ r. complete_query w q r ≡ (completion_options w.to result, r))
        (sym (response-accepted id message q sent_at s e k))
        (accepted_completion q result (record s { requests = drop_request id s.requests }) h same)

  asked_again :
      (later : World) (q : Query) (s : Client)
      → s.state ≡ failed
      → (leb 1 s.consecutive_restarts || ltb (sub64 (w.clock (s.reads + 1)) s.failed_at_msec) 1000)
        ≡ true
      → (s.has_cached_completion && same_query q s.cached_completion_query) ≡ false
      → s.has_pending_completion ≡ false
      → complete_query later q (complete_query w q s).1 ≡ ([], (complete_query w q s).1)
  unfolding complete_query start
  asked_again later q s h k e n = ground (arith, same_query_refl q)

  stays_failed :
      (q : Query) (s : Client)
      → s.state ≡ failed
      → (leb 1 s.consecutive_restarts || ltb (sub64 (w.clock (s.reads + 1)) s.failed_at_msec) 1000)
        ≡ true
      → (complete_query w q s).1.state ≡ failed
  unfolding complete_query start
  stays_failed q s h k = ground arith

pump_failed : (w : World) (s : Client) → s.state ≡ failed → pump w s ≡ s
unfolding pump
pump_failed w s h = ground arith

-- The client after calls of `complete` for one query, and of `pump`, at any times.
pub data Waits (q : Query) (s0 : Client) : Client → Type 0 where
  unasked : Waits q s0 s0
  asked : (w : World) {s : Client} → Waits q s0 s → Waits q s0 (complete_query w q s).1
  pumped : (w : World) {s : Client} → Waits q s0 s → Waits q s0 (pump w s)

waits_in_vain :
    (q : Query) (s0 s : Client)
    → s0.state ≡ failed
    → ((w : World) → complete_query w q s0 ≡ ([], s0))
    → Waits q s0 s
    → s ≡ s0
waits_in_vain q s0 _ h k unasked = refl
waits_in_vain q s0 _ h k (asked w {s} r) =
    ap (λ t. (complete_query w q t).1) (waits_in_vain q s0 s h k r) ∙ ap (λ p. p.1) (k w)
waits_in_vain q s0 _ h k (pumped w {s} r) =
    ap (pump w) (waits_in_vain q s0 s h k r) ∙ pump_failed w s0 h

-- A completion that is first asked for, its answer not cached and no other pending, when a failed
-- server may not be started again, within a second of its failure or after a restart that was not made
-- good, is not followed up by asking again: as long as only the same query is completed and `pump` is
-- called, as often as that is and at whatever times, also after that second, nothing changes and the
-- answer is that there are no options. Other queries, which may start the server, are not among those
-- calls.
pub complete-failed :
    (w : World) (q : Query) (s t : Client)
    → s.state ≡ failed
    → (leb 1 s.consecutive_restarts || ltb (sub64 (w.clock (s.reads + 1)) s.failed_at_msec) 1000)
      ≡ true
    → (s.has_cached_completion && same_query q s.cached_completion_query) ≡ false
    → s.has_pending_completion ≡ false
    → Waits q (complete_query w q s).1 t
    → (t ≡ (complete_query w q s).1) × ((later : World) → complete_query later q t ≡ ([], t))
complete-failed w q s t h k e n r =
    let again = λ (later : World). asked_again w later q s h k e n in
    let same = waits_in_vain q (complete_query w q s).1 t (stays_failed w q s h k) again r in
    (same, λ later. subst (λ u. complete_query later q u ≡ ([], u)) (sym same) (again later))
