-- ===== src/Lsp/Client/Answers.antt =====
-- How src/gz_lsp_client.cpp handles a message of the server: `handle_response`,
-- `handle_server_request` and `handle`.
use gzscript.Base.{
  ℕ, ◌+◌, ◌==◌, if◌then◌else◌, Bool, true, false, not, ◌&&◌, ◌||◌, List, [], ◌∷◌, ◌++◌, Bytes,
  codes, ◌===◌, Option, none, some, is_empty, is_none,
}
use gzscript.Diagnostics.Path.{strip_prefix}
use gzscript.Lsp.{Query, same_query}
use gzscript.Lsp.Json.{
  Json, Items, Fields, null, text, dictionary, array, no_items, one_item, no_fields, has_field,
  get_field, completion_options, definition_result,
}
use gzscript.Lsp.Client.{
  Client, World, Request, RequestKind, initialize, completion, definition, ready, initialized,
  configurations, null_answer, send, fail, send_definition,
}

-- `requests.find`
unfoldable pub find_request : ℕ → List (ℕ × Request) → Option Request
find_request id [] = none
find_request id ((key, pending) ∷ rest) = if key == id then some pending else find_request id rest

-- `requests.erase`
unfoldable pub drop_request : ℕ → List (ℕ × Request) → List (ℕ × Request)
drop_request id [] = []
drop_request id ((key, pending) ∷ rest) =
    let others = drop_request id rest in if key == id then others else (key, pending) ∷ others

-- A request of this kind is given up, with an error or for its age.
unfoldable pub give_up : RequestKind → Query → Client → Client
unfolding same_query
give_up initialize query s = s
give_up completion query s = record s {
  completion_in_flight = false;
  has_pending_completion =
      if same_query query s.pending_completion then false else s.has_pending_completion;
}
give_up definition query s = record s {
  has_pending_definition =
      if same_query query s.pending_definition then false else s.has_pending_definition;
}

-- `items.size()`
unfoldable pub items_size : Items → ℕ
items_size no_items = 0
items_size (one_item value rest) = items_size rest + 1

abbrev starts_with : Bytes → Bytes → Bool
starts_with prefix s = not (is_none (strip_prefix prefix s))

module _ (w : World) where
  -- The version that the server says it has.
  unfoldable pub server_version : Json → Bytes
  unfolding get_field
  server_version (dictionary result) =
      let server = w.to.as_fields (get_field (codes "serverInfo") (dictionary no_fields) result) in
      w.to.as_text (get_field (codes "version") (text []) server)
  server_version _ = []

  unfoldable pub incompatible : Bytes → Bool
  unfolding strip_prefix
  incompatible version = not (is_empty version) && not (starts_with (codes "0.16.") version)

  abbrev pub enter_ready : Client → Client
  enter_ready s = record (send initialized s) { state = ready; consecutive_restarts = 0 }

  -- The server is ready: the definition that waits for it is asked for.
  unfoldable pub become_ready : Client → Client
  unfolding send send_definition
  become_ready s0 =
      let s = enter_ready s0 in
      if s.has_pending_definition then send_definition w s.pending_definition s else s

  unfoldable pub accept_completion : Query → Json → Client → Client
  unfolding same_query
  accept_completion query result s0 =
      let s = record s0 { completion_in_flight = false } in
      if not s.has_pending_completion || not (same_query query s.pending_completion)
      then s
      else record s {
        cached_completion_query = query;
        cached_completion_options = completion_options w.to result;
        has_cached_completion = true;
        has_pending_completion = false;
        signals = s.signals ++ query.path ∷ [];
      }

  unfoldable pub accept_definition : Query → Json → Client → Client
  unfolding same_query
  accept_definition query result s =
      if not s.has_pending_definition || not (same_query query s.pending_definition)
      then s
      else record s {
        cached_definition_query = query;
        cached_definition = definition_result w.to w.uri_to_path result;
        has_cached_definition = true;
        has_pending_definition = false;
      }

  -- `handle_response` for a request without an error.
  unfoldable pub handle_result : RequestKind → Query → Json → Client → Client
  unfolding become_ready accept_completion accept_definition
  handle_result initialize query result s =
      if incompatible (server_version result)
      then fail w
          (codes "ZLS "
            ++ (server_version result
                ++ codes " is incompatible with gzscript's Zig 0.16 toolchain"))
          s
      else become_ready s
  handle_result completion query result s = accept_completion query result s
  handle_result definition query result s = accept_definition query result s

  abbrev pub answer : Option Request → ℕ → Fields → Client → Client
  answer none id message s = s
  answer (some pending) id message s0 =
      let s = record s0 { requests = drop_request id s0.requests } in
      if has_field (codes "error") message
      then give_up pending.kind pending.query s
      else handle_result pending.kind pending.query (get_field (codes "result") null message) s

  unfoldable pub handle_response : ℕ → Fields → Client → Client
  unfolding find_request drop_request give_up handle_result
  handle_response id message s = answer (find_request id s.requests) id message s

  unfoldable pub handle_server_request : Fields → Client → Client
  unfolding send items_size get_field
  handle_server_request message s =
      let id = get_field (codes "id") null message in
      let params = w.to.as_fields (get_field (codes "params") (dictionary no_fields) message) in
      let items = w.to.as_items (get_field (codes "items") (array no_items) params) in
      if w.to.as_text (get_field (codes "method") (text []) message)
        === codes "workspace/configuration"
      then send (configurations id (items_size items)) s
      else send (null_answer id) s

  unfoldable pub handle : Fields → Client → Client
  unfolding handle_server_request handle_response
  handle message s =
      if has_field (codes "method") message && has_field (codes "id") message
      then handle_server_request message s
      else if has_field (codes "id") message
      then handle_response (w.to.as_int (get_field (codes "id") null message)) message s
      else s
