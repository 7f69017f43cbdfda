-- ===== src/Lsp.antt =====
-- Parts of the language server client, src/gz_lsp_client.hpp and gz_lsp_client.cpp: what a query
-- is, and how documents are kept in step with the server. Text is the list of its characters; a
-- version is an `int32_t` that is raised once for each change, so below 2 ^ 31 it does not wrap.
pub mod Documents
pub mod Header
pub mod Frame
pub mod Json
pub mod Client
mod Tests
use gzscript.Base.{
  ℕ, ◌+◌, ◌==◌, ltb, if◌then◌else◌, Bool, true, false, not, ◌&&◌, ◌||◌, List, [], ◌∷◌, Bytes, ◌===◌,
  Option, none, some, keep,
}
use gzscript.Base.Assoc.{lookup, update}

pub record Query : Type 0 where
  pub code : Bytes
  pub path : Bytes
  pub source : Bytes
  pub uri : Bytes
  pub line : ℕ
  pub character : ℕ

pub record Document : Type 0 where
  pub source : Bytes
  pub version : ℕ

-- The character that Godot puts where the caret is.
abbrev pub caret_mark : ℕ
caret_mark = 65535

-- The code in front of the caret, or all of it.
unfoldable pub before_caret : Bytes → Bytes
before_caret [] = []
before_caret (c ∷ code) = let rest = before_caret code in if c == caret_mark then [] else c ∷ rest

-- The loop of `make_query`, which counts UTF-16 code units.
unfoldable pub locate : Bytes → ℕ → ℕ → ℕ × ℕ
locate [] line character = (line, character)
locate (c ∷ code) line character = elim (c == 10) [
  | true ↦ locate code (line + 1) 0
  | false ↦ locate code line (character + (if ltb 65535 c then 2 else 1))
]

-- `path_to_uri` asks Godot, and is an argument.
unfoldable pub make_query : (Bytes → Bytes) → Bytes → Bytes → Query
unfolding before_caret locate
make_query path_to_uri code path =
    let (line, character) = locate (before_caret code) 0 0 in
    record {
      code = code;
      path = path;
      source = keep (λ c. not (c == caret_mark)) code;
      uri = path_to_uri path;
      line = line;
      character = character;
    }

unfoldable pub same_query : Query → Query → Bool
same_query left right =
    (left.uri === right.uri)
    && ((left.source === right.source)
        && ((left.line == right.line) && (left.character == right.character)))

-- What the server is told: the document's uri, its version and its text.
pub data Notification : Type 0 where
  did_open : Bytes → ℕ → Bytes → Notification
  did_change : Bytes → ℕ → Bytes → Notification

-- `synchronize` for the document that is found, and the message that it sends, if any.
unfoldable pub synchronize_found :
    Option Document
    → Query
    → List (Bytes × Document)
    → Option Notification × List (Bytes × Document)
synchronize_found none query documents = (
  some (did_open query.uri 1 query.source),
  update query.uri (record { source = query.source; version = 1 }) documents,
)
synchronize_found (some document) query documents =
    if document.source === query.source then (none, documents) else (
      some (did_change query.uri (document.version + 1) query.source),
      update query.uri (record { source = query.source; version = document.version + 1 }) documents,
    )

unfoldable pub synchronize :
    Query → List (Bytes × Document) → Option Notification × List (Bytes × Document)
unfolding synchronize_found
synchronize query documents = synchronize_found (lookup query.uri documents) query documents
