-- ===== src/Lsp/Documents.antt =====
-- The documents that src/gz_lsp_client.cpp sends, seen from the server.
use gzscript.Base.{
  ==_iff, ℕ, ◌+◌, ◌==◌, ◌≡◌, refl, ap, ◌∙◌, true, false, List, [], ◌∷◌, Bytes, ◌===◌, ===→eq,
  ===_refl, Option, none, some, arith, Bool-cases, inl, inr,
}
use gzscript.Base.Assoc.{lookup, update, lookup-update}
use gzscript.Base.Sort.{count}
use gzscript.Lsp.{
  Query, Document, Notification, did_open, did_change, synchronize, synchronize_found, locate,
  before_caret, make_query,
}

-- What a server does with a message: it opens only documents that are not open, and changes only
-- open ones, to a later version; any other message it refuses.
unfoldable pub receive : Notification → List (Bytes × Document) → Option (List (Bytes × Document))
receive (did_open uri version text) documents = elim (lookup uri documents) [
  | none ↦ some (update uri (record { source = text; version = version }) documents)
  | some document ↦ none
]
receive (did_change uri version text) documents = elim (lookup uri documents) [
  | none ↦ none
  | some document ↦ elim (document.version + 1 == version) [
    | true ↦ some (update uri (record { source = text; version = version }) documents)
    | false ↦ none
  ]
]

abbrev pub receive_any :
    Option Notification → List (Bytes × Document) → Option (List (Bytes × Document))
receive_any none documents = some documents
receive_any (some message) documents = receive message documents

receive-open :
    (uri text : Bytes) (documents : List (Bytes × Document))
    → lookup uri documents ≡ none
    → receive (did_open uri 1 text) documents
      ≡ some (update uri (record { source = text; version = 1 }) documents)
unfolding receive
receive-open uri text documents e = rw (e, receive) refl

receive-change :
    (uri text : Bytes) (document : Document) (documents : List (Bytes × Document))
    → lookup uri documents ≡ some document
    → receive (did_change uri (document.version + 1) text) documents
      ≡ some (update uri (record { source = text; version = document.version + 1 }) documents)
unfolding receive
receive-change uri text document documents e = rw (e, (==_iff _ _).1 refl, receive) refl

lookup-updated :
    (uri : Bytes) (d : Document) (documents : List (Bytes × Document))
    → lookup uri (update uri d documents) ≡ some d
lookup-updated uri d documents = lookup-update uri uri d documents ∙ rw (===_refl uri) refl

abbrev InStep :
    Query → List (Bytes × Document) → Option Notification × List (Bytes × Document) → Type 0
InStep query documents r =
    (receive_any r.0 documents ≡ some r.1)
    × ((version : ℕ) × (lookup query.uri r.1
          ≡ some (record { source = query.source; version = version })))

found-InStep :
    (query : Query) (documents : List (Bytes × Document)) (o : Option Document)
    → lookup query.uri documents ≡ o
    → InStep query documents (synchronize_found o query documents)
unfolding synchronize_found
found-InStep query documents none e =
    (receive-open query.uri query.source documents e, (1, lookup-updated query.uri _ documents))
found-InStep query documents (some document) e =
    elim (Bool-cases (document.source === query.source)) [
      | inl same ↦
          rw (same, synchronize_found)
            (
              refl,
              (
                document.version,
                e
                    ∙ ap (λ z. some (record document { source = z }))
                        (===→eq document.source query.source same),
              ),
            )
      | inr other ↦
          rw (other, synchronize_found)
            (
              receive-change query.uri query.source document documents e,
              (document.version + 1, lookup-updated query.uri _ documents),
            )
    ]

-- A server that has the documents of the client accepts what `synchronize` sends and has the
-- documents of the client again, the queried one with the text of the query.
pub receive-synchronize :
    (query : Query) (documents : List (Bytes × Document))
    → (receive_any (synchronize query documents).0 documents ≡ some (synchronize query documents).1)
      × ((version : ℕ) × (lookup query.uri (synchronize query documents).1
            ≡ some (record { source = query.source; version = version })))
unfolding synchronize
receive-synchronize query documents = found-InStep query documents (lookup query.uri documents) refl

-- Newlines are the only ends of lines.
locate-line :
    (code : Bytes) (line character : ℕ)
    → (locate code line character).0 ≡ line + count (λ c. c == 10) code
unfolding locate count
locate-line [] line character = omega arith
locate-line (c ∷ code) line character = ground (
  arith,
  locate-line code (line + 1) 0,
  locate-line code line (character + 1),
  locate-line code line (character + 2),
)

-- The line of a query is the number of newlines in front of the caret.
pub make_query-line :
    (path_to_uri : Bytes → Bytes) (code path : Bytes)
    → (make_query path_to_uri code path).line ≡ count (λ c. c == 10) (before_caret code)
unfolding make_query
make_query-line path_to_uri code path = locate-line (before_caret code) 0 0 ∙ omega arith
