-- ===== src/Lsp/Client/Invariant/Requests.antt =====
-- The outstanding requests of src/gz_lsp_client.cpp under `handle_response` and `pump`: their ids
-- stay distinct, and completions are counted right.
use gzscript.Base.{if_both, if◌then◌else◌, ℕ, ◌+◌, ◌≤◌, ◌≡◌, refl, ◌∙◌, List, [], ◌∷◌, some, arith}
use gzscript.Lsp.{Query}
use gzscript.Lsp.Client.{Client, World, Request, RequestKind, initialize, completion, definition}
use gzscript.Lsp.Client.Answers.{find_request, drop_request, give_up}
use gzscript.Lsp.Client.Pump.{expire, is_expired}
use gzscript.Lsp.Client.Invariant.{IsLive, IsNumbered, count, one_of, one_if}

IsNumbered-weaken :
    (reqs : List (ℕ × Request)) {a b : ℕ} → a ≤ b → IsNumbered a reqs → IsNumbered b reqs
unfolding IsNumbered
IsNumbered-weaken [] h n = n
IsNumbered-weaken ((id, p) ∷ rest) h n = ground arith

drop_absent :
    (id : ℕ) (reqs : List (ℕ × Request)) (b : ℕ)
    → b ≤ id
    → IsNumbered b reqs
    → drop_request id reqs ≡ reqs
unfolding drop_request IsNumbered
drop_absent id [] b h n = refl
drop_absent id ((key, p) ∷ rest) b h n = ground (arith, drop_absent id rest key)

pub drop_request-IsNumbered :
    (id : ℕ) (reqs : List (ℕ × Request)) (b : ℕ)
    → IsNumbered b reqs
    → IsNumbered b (drop_request id reqs)
unfolding drop_request IsNumbered
drop_request-IsNumbered id [] b n = n
drop_request-IsNumbered id ((key, p) ∷ rest) b n =
    let kept = drop_request-IsNumbered id rest key n.1 in
    ground (arith, IsNumbered-weaken (drop_request id rest) {a = key} {b = b})

-- The request that is found is the one that is dropped.
pub count-drop_request :
    (kind : RequestKind) (id : ℕ) (reqs : List (ℕ × Request)) (b : ℕ) (p : Request)
    → IsNumbered b reqs
    → find_request id reqs ≡ some p
    → count kind reqs ≡ one_of kind p.kind + count kind (drop_request id reqs)
unfolding drop_request find_request count IsNumbered
count-drop_request kind id [] b p n e = ground arith
count-drop_request kind id ((key, q) ∷ rest) b p n e =
    ground (arith, drop_absent id rest key, count-drop_request kind id rest key p)

-- Only the flags of the client change while requests are given up.
pub record IsKept (s s' : Client) : Type 0 where
  pub live : IsLive s → IsLive s'
  pub input : s'.input ≡ s.input
  pub next_request_id : s'.next_request_id ≡ s.next_request_id
  pub state : s'.state ≡ s.state
  pub up : s'.shutdown_started ≡ s.shutdown_started

give_up-IsLive :
    (kind : RequestKind) (q : Query) (s : Client) → IsLive s → IsLive (give_up kind q s)
unfolding give_up
give_up-IsLive initialize q s h = h
give_up-IsLive completion q s h = ground arith
give_up-IsLive definition q s h = ground arith

give_up-IsKept : (kind : RequestKind) (q : Query) (s : Client) → IsKept s (give_up kind q s)
unfolding give_up
give_up-IsKept kind q s = record {
  live = give_up-IsLive kind q s;
  input = ground arith;
  next_request_id = ground arith;
  state = ground arith;
  up = ground arith;
}

IsKept-trans : {s t u : Client} → IsKept s t → IsKept t u → IsKept s u
IsKept-trans h k = record {
  live = λ l. k.live (h.live l);
  input = k.input ∙ h.input;
  next_request_id = k.next_request_id ∙ h.next_request_id;
  state = k.state ∙ h.state;
  up = k.up ∙ h.up;
}

IsKept-refl : (s : Client) → IsKept s s
IsKept-refl s = record {
  live = λ h. h;
  input = refl;
  next_request_id = refl;
  state = refl;
  up = refl;
}

module _ (w : World) (now : ℕ) where
  -- The client with the first request given up, if that is old.
  abbrev visit : Request → Client → Client
  visit p s = if is_expired w now p then give_up p.kind p.query s else s

  pub expire-IsNumbered :
      (reqs : List (ℕ × Request)) (s : Client) (b : ℕ)
      → IsNumbered b reqs
      → IsNumbered b (expire w now reqs s).0
  unfolding expire IsNumbered
  expire-IsNumbered [] s b n = n
  expire-IsNumbered ((id, p) ∷ rest) s b n = ground (
    arith,
    expire-IsNumbered rest (visit p s) b,
    expire-IsNumbered rest (visit p s) id,
    IsNumbered-weaken rest {a = id} {b = b},
  )

  pub count-expire :
      (kind : RequestKind) (reqs : List (ℕ × Request)) (s : Client)
      → count kind (expire w now reqs s).0 ≤ count kind reqs
  unfolding expire count
  count-expire kind [] s = omega arith
  count-expire kind ((id, p) ∷ rest) s = ground (arith, count-expire kind rest (visit p s))

  -- `k` completions are kept before the ones that are looked at.
  pub in_flight-expire :
      (reqs : List (ℕ × Request)) (s : Client) (k : ℕ)
      → k + count completion reqs ≡ one_if s.completion_in_flight
      → k + count completion (expire w now reqs s).0
        ≡ one_if (expire w now reqs s).1.completion_in_flight
  unfolding expire count one_of give_up
  in_flight-expire [] s k e = e
  in_flight-expire ((id, p) ∷ rest) s k e = ground (
    arith,
    in_flight-expire rest (visit p s) k,
    in_flight-expire rest (visit p s) (k + one_of completion p.kind),
  )

  pub expire-nil :
      (reqs : List (ℕ × Request)) (s : Client) → reqs ≡ [] → (expire w now reqs s).0 ≡ []
  unfolding expire
  expire-nil [] s e = refl
  expire-nil (r ∷ rest) s e = ground arith

  pub expire-IsKept : (reqs : List (ℕ × Request)) (s : Client) → IsKept s (expire w now reqs s).1
  unfolding expire
  expire-IsKept [] s = IsKept-refl s
  expire-IsKept ((id, p) ∷ rest) s =
      IsKept-trans
        (if_both (IsKept s) (is_expired w now p) (give_up-IsKept p.kind p.query s) (IsKept-refl s))
        (expire-IsKept rest (visit p s))
