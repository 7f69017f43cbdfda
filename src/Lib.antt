-- ===== src/Lib.antt =====
-- gzscript lets Godot run scripts that are written in Zig. This library is about its C++ part.
--
-- Diagnostics keeps what the compilers and the language server say about documents.
--   Diagnostics/Model.antt: src/diagnostics/gz_diagnostic.hpp and gz_diagnostic.cpp, the
--     diagnostics with their equality and order. `Diagnostic` is `GzDiagnostic`, `diagnostic_less`
--     is `gz_diagnostic_less`, `snapshot_valid` is `gz_diagnostic_snapshot_valid`.
--   Diagnostics/Path.antt: src/diagnostics/gz_diagnostic_path.cpp, `normalize_document_path` and the
--     loops it is made of; the bytes of a path are a list of numbers.
--   Diagnostics/Store.antt and the files below it: src/diagnostics/gz_diagnostic_store.hpp and
--     gz_diagnostic_store.cpp. `Store` has the fields of `GzDiagnosticStore`, a method is a function
--     that takes the store and gives it back, `Call` and `step` are the calls in any order.
--   Diagnostics/Adapter.antt: src/diagnostics/gz_diagnostic_godot_adapter.cpp, the lists of errors
--     and warnings that the editor shows.
-- The producers of diagnostics call `replace` with a batch for one document and one source; the
-- store keys documents by `normalize_document_path`, and the adapter turns snapshots into the
-- editor's lists.
--
-- Compiled is about scripts that were compiled to dynamic libraries.
--   Compiled/Abi.antt: src/abi/gzscript_abi.h, the records that a library and its host exchange. A
--     pointer is optional memory, an array is a list with a flag for a null pointer, a float is its bits.
--   Compiled/Engine.antt: what the code uses of Godot, as parameters with their documented laws.
--   Compiled/Codec.antt: src/gz_value_codec.cpp, `to_variant`, `from_variant`, `variant_type`.
--   Compiled/Validate.antt: `validate_descriptor` of src/gz_compiled_module.cpp.
--   Compiled/Load.antt: `load`, the destructor (`destroy`), `find_property` of the same file;
--     Compiled/Load/Exports.antt has `has_same_exports`.
--   Compiled/Calls.antt: `object_call`, `object_emit_signal` and the cache of names of the same file.
-- A module is loaded from a library, which hands over a descriptor; the codec converts the values of
-- its properties and the arguments of calls.
--
-- Lsp is about the client of the language server, src/gz_lsp_client.hpp and gz_lsp_client.cpp.
--   Lsp.antt: `make_query`, `same_query`, `synchronize`; Lsp/Documents.antt has the server's view.
--   Lsp/Header.antt, Lsp/Frame.antt: the framing of messages in `send` and `parse_messages`.
--   Lsp/Json.antt: `completion_options` and `definition_result` on the values that JSON gives.
--   Lsp/Client.antt: `Client` is the object `GzLspClient`, with what it does to the system as
--     further fields; `start`, `fail`, `request`, `send_completion`, `send_definition`.
--   Lsp/Client/Answers.antt: `handle` and what it calls. Lsp/Client/Pump.antt: `pump`,
--     `parse_messages`, `complete`, `lookup`. Lsp/Client/Shutdown.antt: `shutdown`, and `Reached` for
--     calls in any order.
--   Lsp/Client/Protocol.antt: the order in which the client writes its messages.
-- The editor calls `complete` and `lookup`, which start the server, and `pump` at each frame, which
-- takes the server's answers and sends what waits.
--
-- Build is about the build manager, src/gz_build_manager.hpp and gz_build_manager.cpp.
--   Build/Sources.antt: `source_dependencies`, the scanner for imports.
--   Build/Dependencies.antt: `append_dependencies`, which follows imports from file to file;
--     Build/Dependencies/Depends.antt says what a source depends on.
--   Build/Identity.antt: `append_identity` and the identity that `prepare` hashes, the targets.
--   Build/Plan.antt: `prepare`. Build/Plan/Environment.antt has `get_zig_executable` and what is
--     checked first, Build/Plan/Tree.antt `append_source_tree`, Build/Plan/Adapter.antt the text
--     `ADAPTER_SOURCE`.
--   Build/Cache.antt: `write_text`, `cache_stamp_matches` and `finish`, with `gz_atomic_replace` of
--     src/gz_file_utils.cpp, on a map of files; what is printed is left out.
--   Build/Queue.antt: `queue_compile`, `queue_saved`, `queue_all`, `is_compiling`, `drain`.
--   Build/Scheduler/State.antt: `Scheduler`, the object `GzBuildManager` with the files, the counter of
--     compilers and the events that others see. Build/Scheduler.antt: `start_next`.
--   Build/Scheduler/Pump.antt: `pump`, `complete_active`, `shutdown`, and `Reached` for calls in any
--     order.
-- Scripts are queued by the editor; `pump` starts a compiler for one at a time, watches it, and
-- publishes the module to the script. A compilation is identified by all that it depends on, and its
-- module is put into a cache under the hash of that.
--
-- Scripts is about scripts and their instances, src/gz_script.hpp and gz_script.cpp, in part.
--   Scripts/Instances.antt: `migrate_editor_instance`, `sync_retained_objects`, `_instance_create`,
--     `instance_free`. `GzScript` is the object with its instances; `ZigCode` are the functions of the
--     compiled libraries.
--   Scripts/Refresh.antt: `publish_module`, `_schedule_pending_refresh`, `_apply_pending_refresh`.
-- The build manager publishes a module to a script; in the editor the instances then move to it, some
-- in each deferred call.
--
-- What the system answers to the client or to the build manager is a `World`, a stream for each
-- question. `parse_messages` takes at most 8 messages, the bound of the source, and the `shutdown`
-- of the client waits for a number of rounds that is given; 401 suffice, as `shutdown_ends` shows;
-- the scanner goes as many rounds as its text has characters, which suffice
-- (Build/Sources/Rounds.antt), and `append_dependencies` two more than the files have mentions of
-- files, which suffice (Build/Dependencies/Rounds.antt). `start_next` has rounds that are given
-- (Build/Scheduler/Ends.antt says how many suffice), and so has the `shutdown` of the build
-- manager, where 2001 suffice. All other loops are recursion on the list they walk, so no fuel is
-- needed.
--
-- `std::sort` is a parameter with the laws that its documentation gives (Base/Sort.antt); a stable
-- sort is written out. Counters, generations and times are 64-bit and wrap; the ids of requests are
-- counted without a bound. Not modelled: the mutex (each method holds it throughout, so threads are
-- sequences of calls), the debug dump, the hash of a diagnostic, the code for Windows, the dynamic
-- loader and direct calls through method binds, the text of JSON and of uris, the settings that are
-- passed to the language server, `compile`, `run_process` and the calls that wait for the compiler
-- (`run` of a `Project` is what `run_process` gives), the order in which a directory is sorted,
-- placeholders, the properties and methods of instances that Godot asks for, and the classes that
-- register scripts with the engine.
pub mod Base
pub mod Build
pub mod Compiled
pub mod Diagnostics
pub mod Lsp
pub mod Scripts
