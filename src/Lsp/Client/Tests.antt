-- ===== src/Lsp/Client/Tests.antt =====
-- The theorems on the client of src/gz_lsp_client.cpp at concrete inputs.
use gzscript.Base.{◌*◌, ◌≡◌, refl, ltb, true, false, [], ◌∷◌, ◌++◌, codes, ◌===◌, some, none, arith}
use gzscript.Lsp.{same_query}
use gzscript.Lsp.Frame.{frame, take_message, message}
use gzscript.Lsp.Frame.RoundTrip.{take_message-frame}
use gzscript.Lsp.Json.{
  Fields, array, null, no_fields, no_items, field, find_field, get_field, completion_options,
}
use gzscript.Lsp.Client.{sub64, Client, World, completion, failed, no_query}
use gzscript.Lsp.Client.Answers.{find_request, handle_response}
use gzscript.Lsp.Client.Pump.{complete, complete_query, pump}
use gzscript.Lsp.Client.Shutdown.{
  new_client, begin_shutdown, say_exit, release, shutdown, Reached, uncalled, completed, pumped,
}
use gzscript.Lsp.Client.Invariant.Calls.{IsFit, calls-IsFit}
use gzscript.Lsp.Client.Ends.{shutdown_ends, shutdown-final}
use gzscript.Lsp.Client.Queries.{complete-handle_response, unasked, complete-failed}
use gzscript.Lsp.Client.Queries

take_message-frame_example :
    take_message (frame (codes "{}") ++ codes "Con") ≡ message (codes "{}") (codes "Con")
take_message-frame_example = take_message-frame (codes "{}") (codes "Con") (omega arith)

-- A server that runs until the eighth observation; the clock advances by 5 ms for each.
abbrev world : World
world = record {
  clock = λ n. 5 * n;
  running = λ n pid. ltb n 8;
  launch = λ n. 7;
  in_time = λ n. true;
  shutting_down = λ n. false;
  stdout = λ n. [];
  stderr = λ n. [];
  parse = λ text. none;
  path_to_uri = λ path. path;
  uri_to_path = λ uri. uri;
  to = record {
    as_text = λ value. [];
    as_int = λ value. 0;
    as_fields = λ value. no_fields;
    as_items = λ value. no_items;
  };
}

abbrev asked : Client
asked = (complete world (codes "a.") (codes "/a.zig") new_client).1

abbrev is_asked : Reached world new_client asked
is_asked = completed (codes "a.") (codes "/a.zig") uncalled

calls-IsFit_example : IsFit (pump world asked)
calls-IsFit_example = calls-IsFit world (pumped is_asked)

shutdown_ends_example : (s' : Client) × ((shutdown world 401 asked ≡ some s') × (s'.pid ≡ 0))
unfolding complete
shutdown_ends_example = shutdown_ends world asked refl (omega arith) (λ k. omega arith)

abbrev ended : Client
ended = release (record (say_exit world (begin_shutdown asked)) { reads = 9 })

is_ended : shutdown world 20 asked ≡ some ended
unfolding shutdown complete
is_ended = refl

shutdown-final_example :
    ((pump world ended).pid ≡ 0)
    × (((pump world ended).processes ≡ 0)
        × (((pump world ended).launches ≡ ended.launches)
            × (((pump world ended).sent ≡ ended.sent)
                × ((pump world ended).killed ≡ ended.killed))))
shutdown-final_example = shutdown-final world 20 is_asked is_ended (pumped uncalled)

abbrev waiting : Client
waiting = record asked {
  requests = (4, record { kind = completion; query = no_query; sent_at_msec = 0 }) ∷ [];
  pending_completion = no_query;
}

abbrev no_options : Fields
no_options = field (codes "result") (array no_items) no_fields

complete-handle_response_example :
    complete_query world no_query (handle_response world 4 no_options waiting) ≡ (
      completion_options world.to (get_field (codes "result") null no_options),
      handle_response world 4 no_options waiting,
    )
unfolding complete find_request find_field same_query ◌===◌
complete-handle_response_example =
    complete-handle_response world 4 no_options no_query 0 waiting refl refl refl refl

abbrev broken : Client
broken = record new_client { state = failed }

abbrev later_world : World
later_world = record world { clock = λ n. 60000 }

abbrev refused : Client
refused = (complete_query world no_query broken).1

abbrev asked_later : Client
asked_later = (complete_query later_world no_query (pump later_world refused)).1

complete-failed_example :
    (asked_later ≡ refused)
    × ((later : World) → complete_query later no_query asked_later ≡ ([], asked_later))
unfolding sub64
complete-failed_example =
    complete-failed world no_query broken asked_later refl refl refl refl
      (Queries.asked later_world (Queries.pumped later_world unasked))
