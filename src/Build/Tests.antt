-- ===== src/Build/Tests.antt =====
-- The theorems on src/gz_build_manager.cpp at concrete inputs, and runs that show its faults.
mod Scheduling
use gzscript.Base.{
  ℕ, ◌≡◌, refl, true, false, List, [], ◌∷◌, ◌++◌, Bytes, ◌===◌, codes, Option, none, some, arith,
  All,
}
use gzscript.Base.Assoc.{lookup, erase, update}
use gzscript.Diagnostics.Path.{strip_prefix}
use gzscript.Build.Sources.{source_dependencies}
use gzscript.Build.Sources.Scan.{
  Piece, ordinary, escaped, plain, comment, quoted, call, write_all, AreWritten, dependencies_of,
  source_dependencies-write_all,
}
use gzscript.Build.Queue.{
  Script, CompilePlan, CompileRequest, ActiveCompile, Manager, Surroundings, queue_compile,
}
use gzscript.Build.Queue.Requests.{request_of, IsOnce, IsOrdered, queue_compile-request_of}
use gzscript.Build.Identity.{Inputs, compilation_identity_inj}
use gzscript.Build.Cache.{
  Files, LoadResult, loaded, load_error, Disk, cache_stamp_matches, finish_compile,
}
use gzscript.Build.Cache.Stamp.{cache_stamp_matches-finish_compile}

abbrev pieces : List Piece
pieces =
    plain 97
    ∷ comment (codes " \"@import(")
    ∷ quoted 34 (ordinary 39 ∷ escaped 34 ∷ [])
    ∷ plain 47
    ∷ plain 64
    ∷ call true (codes " ") [] (codes "a.zig")
    ∷ plain 41
    ∷ []

pieces-AreWritten : AreWritten pieces
unfolding AreWritten strip_prefix write_all
pieces-AreWritten = ground arith

source_dependencies-write_all_example :
    source_dependencies (write_all pieces) ≡ some (dependencies_of pieces)
source_dependencies-write_all_example = source_dependencies-write_all pieces pieces-AreWritten

-- A quote in a multiline string hides the import that follows.
multiline_hides_import :
    source_dependencies (codes "\\\\it's" ++ 10 ∷ codes "@import(\"a.zig\")") ≡ some []
unfolding source_dependencies
multiline_hides_import = refl

abbrev script : Script
script = record {
  path = codes "res://a.zig";
  source = codes "A";
  compile_generation = 2;
  valid = false;
  compiled = none;
}

abbrev around : Surroundings
around = record {
  is_shutting_down = false;
  is_main_thread = true;
  absolute_path = λ path. path;
  file_text = λ path. [];
}

abbrev asked_for : Bytes → ℕ → CompileRequest
asked_for source generation = record {
  script = 0;
  resource_path = codes "res://a.zig";
  source = source;
  generation = generation;
  prepared = none;
}

abbrev plan : CompilePlan
plan = record {
  resource_path = codes "res://a.zig";
  source = codes "A";
  key = codes "k";
  output = codes "o";
  compile_output = codes "c";
  generated = codes "g";
  zig_executable = codes "zig";
  arguments = [];
  needs_compile = true;
  hash_path = codes "h";
  lock_path = codes "l";
  stamp_output = codes "s";
  source_hash = codes "k";
}

abbrev running : ActiveCompile
running = record {
  request = asked_for (codes "A") 1;
  plan = plan;
  output = [];
  output_truncated = false;
  timed_out = false;
  pid = 7;
  started_at_msec = 0;
}

-- `A` is compiled, `B` was queued after it, and the script is back at `A`.
abbrev edited : Manager
edited = record {
  scripts = λ id. script;
  pending = asked_for (codes "B") 2 ∷ [];
  active = some running;
  shutdown_started = false;
  errors = [];
}

-- Queuing it then changes nothing, so `B` stays what is compiled next.
queue_keeps_outdated : queue_compile around (some 0) edited ≡ edited
unfolding queue_compile ◌===◌
queue_keeps_outdated = refl

abbrev idle : Manager
idle = record edited { active = none }

one_request :
    (id : ℕ) (r : CompileRequest)
    → request_of id idle.pending ≡ some r
    → r.generation ≡ (idle.scripts id).compile_generation
unfolding request_of
one_request id r e = ground arith

idle-IsOrdered : IsOrdered idle
unfolding IsOnce
idle-IsOrdered = record { once = (refl, tt); newest = one_request }

queue_compile-request_of_example :
    (r : CompileRequest) × ((request_of 0 (queue_compile around (some 0) idle).pending ≡ some r)
      × ((r.resource_path ≡ codes "res://a.zig")
          × ((r.source ≡ codes "A")
              × (r.generation
                  ≡ ((queue_compile around (some 0) idle).scripts 0).compile_generation))))
queue_compile-request_of_example =
    queue_compile-request_of around 0 idle idle-IsOrdered refl refl refl refl

abbrev inputs : Inputs
inputs = record {
  resource_path = codes "/a.zig";
  source = codes "A";
  user_tree = [];
  sdk_tree = [];
  adapter = [];
  abi = codes "1";
  zig_executable = codes "zig";
  zig_version = codes "0.16.0";
  platform = codes "linux";
  architecture = codes "x86_64";
  target = codes "x86_64-linux-gnu";
  optimization = codes "Debug";
}

compilation_identity_inj_example : inputs ≡ inputs
compilation_identity_inj_example = compilation_identity_inj inputs inputs refl

abbrev read_module : Bytes → Option Bytes → LoadResult Bytes
read_module path none = load_error (codes "missing")
read_module path (some content) = loaded content

abbrev disk : Disk Bytes
disk = record {
  sha256 = λ content. codes "f";
  write_fault = λ path. none;
  rename_fails = λ path. false;
  strip_edges = λ text. text;
  load = read_module;
}

abbrev files : Files
files = (codes "c", codes "module") ∷ []

cache_stamp_matches-finish_compile_example :
    cache_stamp_matches disk plan.output plan.hash_path plan.source_hash
      (finish_compile disk plan 0 [] files).files
    ≡ true
unfolding finish_compile ◌===◌ lookup erase update
cache_stamp_matches-finish_compile_example =
    cache_stamp_matches-finish_compile disk plan [] files (codes "module")
      (record { stamp_hash = refl; stamp_output = refl; hash_output = refl; compile_output = refl })
      (record { filled = refl; plain = (refl, tt) })
      (λ content. record { filled = refl; plain = (refl, tt) }) (λ path. (codes "missing", refl))
      refl refl refl
