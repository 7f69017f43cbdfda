-- ===== src/Lsp/Client/Protocol.antt =====
-- The order in which the client of src/gz_lsp_client.cpp writes its messages to the servers that it
-- starts: a server is greeted, then initialized, and then asked. The order is not all that the protocol
-- of language servers wants: `exit` may stand without the request `shutdown`, which is never written.
use gzscript.Base.{
  ℕ, ◌+◌, ◌≡◌, refl, Bool, true, false, List, [], ◌∷◌, ◌++◌, Option, none, some, arith,
}
use gzscript.Lsp.Client.{
  State, stopped, initializing, ready, failed, Message, initialize_request, completion_request,
  definition_request, initialized, exit, document_notification, configurations, null_answer,
}

-- Where the talk with the server greeted last stands: none was greeted, or it was told to exit; its
-- answer to the greeting is waited for; it may be asked.
pub data Phase : Type 0 where
  closed greeted opened : Phase

-- The phase after a message, if the message is in order. A greeting goes to a new server, since each
-- is greeted once, and it may come at any time: the server before may have failed.
unfoldable pub next_phase : Phase → Message → Option Phase
next_phase _ (initialize_request id) = some greeted
next_phase greeted initialized = some opened
next_phase greeted (configurations id count) = some greeted
next_phase greeted (null_answer id) = some greeted
next_phase greeted exit = some closed
next_phase opened (completion_request id query) = some opened
next_phase opened (definition_request id query) = some opened
next_phase opened (document_notification notification) = some opened
next_phase opened (configurations id count) = some opened
next_phase opened (null_answer id) = some opened
next_phase opened exit = some closed
next_phase _ _ = none

unfoldable pub advance : Option Phase → Message → Option Phase
unfolding next_phase
advance none message = none
advance (some phase) message = next_phase phase message

-- The phase after all messages, if each is allowed.
unfoldable pub talk : Option Phase → List Message → Option Phase
unfolding advance
talk phase [] = phase
talk phase (message ∷ rest) = talk (advance phase message) rest

pub talk-snoc :
    (phase : Option Phase) (sent : List Message) (message : Message)
    → talk phase (sent ++ message ∷ []) ≡ advance (talk phase sent) message
unfolding talk
talk-snoc phase [] message = refl
talk-snoc phase (m ∷ sent) message = talk-snoc (advance phase m) sent message

-- The phase fits the state of the client.
unfoldable pub agrees : State → Option Phase → Bool
agrees initializing (some greeted) = true
agrees ready (some opened) = true
agrees stopped (some _) = true
agrees failed (some _) = true
agrees _ _ = false

-- How many servers have become ready.
unfoldable pub readied : List Message → ℕ
readied [] = 0
readied (initialized ∷ rest) = readied rest + 1
readied (_ ∷ rest) = readied rest

pub readied-snoc :
    (sent : List Message) (message : Message)
    → readied (sent ++ message ∷ []) ≡ readied sent + readied (message ∷ [])
unfolding readied
readied-snoc [] message = omega arith
readied-snoc (initialized ∷ sent) message = ground (arith, readied-snoc sent message)
readied-snoc (initialize_request id ∷ sent) message = readied-snoc sent message
readied-snoc (completion_request id query ∷ sent) message = readied-snoc sent message
readied-snoc (definition_request id query ∷ sent) message = readied-snoc sent message
readied-snoc (exit ∷ sent) message = readied-snoc sent message
readied-snoc (document_notification notification ∷ sent) message = readied-snoc sent message
readied-snoc (configurations id count ∷ sent) message = readied-snoc sent message
readied-snoc (null_answer id ∷ sent) message = readied-snoc sent message

unfoldable pub is_greeting : Message → ℕ
is_greeting (initialize_request id) = 1
is_greeting _ = 0

-- How many greetings were written.
unfoldable pub greetings : List Message → ℕ
unfolding is_greeting
greetings [] = 0
greetings (message ∷ rest) = is_greeting message + greetings rest

pub greetings-snoc :
    (sent : List Message) (message : Message)
    → greetings (sent ++ message ∷ []) ≡ greetings sent + is_greeting message
unfolding greetings
greetings-snoc [] message = omega arith
greetings-snoc (m ∷ sent) message = omega (arith, greetings-snoc sent message)
