-- ===== src/Scripts/Tests.antt =====
-- The theorems on src/gz_script.cpp at concrete inputs.
use gzscript.Base.{ℕ, ◌≡◌, refl, true, false, [], none, some, length, arith, ◌<◌, ◌+◌}
use gzscript.Compiled.Engine.{Engine, nil}
use gzscript.Compiled.Load.{Module}
use gzscript.Scripts.Instances.{
  ZigCode, Host, InstanceData, GzScript, new_script, instance_create, list_from, has_instance,
}
use gzscript.Scripts.Refresh.{
  publish_module, schedule_pending_refresh, other_instances, uncalled, published, created, Reached,
}
use gzscript.Scripts.Refresh.Covered.{to_come}
use gzscript.Scripts.Refresh.Calls.{IsRefreshing}
use gzscript.Scripts.Refresh.Always.{calls-IsRefreshing}
use gzscript.Scripts.Refresh.Ends.{run_deferred, IsRefreshed, run_deferred-IsRefreshed}

abbrev engine : Engine
engine = record {
  Object = ℕ;
  get_instance = λ id. none;
  get_instance_id = λ o. o;
  Basis = Unit;
  basis = λ a b c. tt;
  row_0 = λ b. record { x = 0; y = 0; z = 0 };
  row_1 = λ b. record { x = 0; y = 0; z = 0 };
  row_2 = λ b. record { x = 0; y = 0; z = 0 };
  utf8 = λ text. text;
  to_utf8 = λ text. text;
  num = λ n. [];
}

-- The memory counts the instances.
abbrev zig : ZigCode ℕ
zig = record {
  create_instance = λ m owner n. (some n, n + 1);
  destroy_instance = λ m instance n. n;
  get_property = λ m instance i n. (none, n);
  set_property = λ m instance i value n. (false, n);
}

abbrev empty_module : Module engine
empty_module = record {
  handle = true;
  descriptor = none;
  path = [];
  property_names = [];
  property_indices = [];
  property_defaults = [];
  inspector_properties = [];
}

abbrev host : Host engine ℕ
host = record {
  zig = zig;
  modules = λ m. empty_module;
  is_class = λ o name. true;
  exports_differ = λ m next. true;
  is_editor_hint = true;
  get_ticks_usec = λ n. n;
}

abbrev data_of : ℕ → InstanceData engine
data_of i = record { owner = i; used_module = 0; zig_instance = i; retained_objects = λ p. nil }

-- Two instances are created, and a second module is published.
abbrev first_module : GzScript engine ℕ
first_module = publish_module host (some 0) (new_script data_of 0)

abbrev one_instance : GzScript engine ℕ
one_instance = (instance_create host 4 4 first_module).1

abbrev two_instances : GzScript engine ℕ
two_instances = (instance_create host 5 5 one_instance).1

abbrev changed : GzScript engine ℕ
changed = publish_module host (some 1) two_instances

changed-Reached : Reached host (new_script data_of 0) changed
changed-Reached = published (some 1) (created 5 5 (created 4 4 (published (some 0) uncalled)))

calls-IsRefreshing_example : IsRefreshing host refl changed
calls-IsRefreshing_example = calls-IsRefreshing host refl data_of 0 changed changed-Reached

two_to_come : length (to_come host changed) < 3
unfolding publish_module list_from other_instances schedule_pending_refresh instance_create
    has_instance
two_to_come = ground arith

run_deferred-IsRefreshed_example :
    ((run_deferred host refl 3 changed).pending_refresh ≡ false)
    × ((i : ℕ)
        → has_instance i (run_deferred host refl 3 changed).instances ≡ true
        → IsRefreshed host refl (run_deferred host refl 3 changed) i)
run_deferred-IsRefreshed_example =
    run_deferred-IsRefreshed host refl data_of 0 3 changed changed-Reached two_to_come

-- Both instances then use the new module.
refresh_moves : ((run_deferred host refl 3 changed).datas 5).used_module ≡ 1
unfolding run_deferred publish_module list_from other_instances schedule_pending_refresh
    has_instance instance_create
refresh_moves = refl
