-- ===== src/Scripts/Instances.antt =====
-- The instances of a script in src/gz_script.cpp: how one is created, freed and moved to another
-- module (`_instance_create`, `instance_free`, `migrate_editor_instance`, `sync_retained_objects`).
-- Modules, instances and objects are known by numbers, which stand for pointers.
use gzscript.Base.{
  ℕ, zero, suc, ◌+◌, ◌==◌, if◌then◌else◌, Bool, true, false, not, ◌&&◌, ◌||◌, List, [], ◌∷◌, Bytes,
  Option, none, some, is_empty, get_elem?,
}
use gzscript.Compiled.Abi.{Value, PropertyDescriptor, ScriptDescriptor}
use gzscript.Compiled.Engine.{Engine, Variant, nil, object}
use gzscript.Compiled.Codec.{from_view, to_variant, no_data}
use gzscript.Compiled.Load.{Module, find_property}

-- The functions of the libraries, on the memory of all of them.
pub record ZigCode (Memory : Type 0) : Type 0 where
  pub create_instance : ℕ → ℕ → Memory → Option ℕ × Memory
  pub destroy_instance : ℕ → ℕ → Memory → Memory
  pub get_property : ℕ → ℕ → ℕ → Memory → Option Value × Memory
  pub set_property : ℕ → ℕ → ℕ → Value → Memory → Bool × Memory

-- `InstanceData`
pub record InstanceData (engine : Engine) : Type 0 where
  pub owner : ℕ
  pub used_module : ℕ
  pub zig_instance : ℕ
  pub retained_objects : ℕ → Variant engine

-- A `GzScript` with its instances, in the order of the set; `calls` counts the deferred calls that
-- are to come, and `failed` are the instances whose refresh failed since a module was published.
pub record GzScript (engine : Engine) (Memory : Type 0) : Type 0 where
  pub current_module : Option ℕ
  pub valid : Bool
  pub pending_module : Option ℕ
  pub pending_refresh : Bool
  pub refresh_call_scheduled : Bool
  pub pending_exports_changed : Bool
  pub pending_refresh_instances : List ℕ
  pub refresh_index : ℕ
  pub instances : List ℕ
  pub datas : ℕ → InstanceData engine
  pub memory : Memory
  pub calls : ℕ
  pub changes : ℕ
  pub notified : List ℕ
  pub failed : List ℕ
  pub reads : ℕ

-- A new script: without a module and without instances.
abbrev pub new_script :
    {engine : Engine} {Memory : Type 0}
    → (ℕ → InstanceData engine)
    → Memory
    → GzScript engine Memory
new_script datas memory = record {
  current_module = none;
  valid = false;
  pending_module = none;
  pending_refresh = false;
  refresh_call_scheduled = false;
  pending_exports_changed = false;
  pending_refresh_instances = [];
  refresh_index = 0;
  instances = [];
  datas = datas;
  memory = memory;
  calls = 0;
  changes = 0;
  notified = [];
  failed = [];
  reads = 0;
}

-- Membership in the set of instances.
unfoldable pub has_instance : ℕ → List ℕ → Bool
has_instance i [] = false
has_instance i (j ∷ js) = (j == i) || has_instance i js

unfoldable pub remove_instance : ℕ → List ℕ → List ℕ
remove_instance i [] = []
remove_instance i (j ∷ js) = if j == i then remove_instance i js else j ∷ remove_instance i js

-- What is left of a list from an index on.
unfoldable pub list_from : ℕ → List ℕ → List ℕ
list_from zero xs = xs
list_from (suc n) [] = []
list_from (suc n) (x ∷ xs) = list_from n xs

-- The libraries and the loaded modules, and what is asked of Godot: `exports_differ` is whether
-- `has_same_exports` says no, and `get_ticks_usec` answers in turn.
pub record Host (engine : Engine) (Memory : Type 0) : Type 0 where
  pub zig : ZigCode Memory
  pub modules : ℕ → Module engine
  pub is_class : engine.Object → Bytes → Bool
  pub exports_differ : ℕ → ℕ → Bool
  pub is_editor_hint : Bool
  pub get_ticks_usec : ℕ → ℕ

module _ {engine : Engine} {Memory : Type 0} (host : Host engine Memory) where
  abbrev pub ScriptState : Type 0
  ScriptState = GzScript engine Memory

  abbrev pub items_of : Option ScriptDescriptor → List PropertyDescriptor
  items_of none = []
  items_of (some descriptor) = descriptor.properties.items

  abbrev pub properties_of : ℕ → List PropertyDescriptor
  properties_of m = items_of (host.modules m).descriptor

  abbrev pub set_retained : ℕ → Variant engine → (ℕ → Variant engine) → ℕ → Variant engine
  set_retained i value retained j = if j == i then value else retained j

  abbrev pub object_id_in : Variant engine → ℕ
  object_id_in (object (some o)) = engine.get_instance_id o
  object_id_in _ = 0

  -- Whether a value is an object of another class than the property has.
  abbrev pub is_incompatible : Bytes → Variant engine → Bool
  is_incompatible expected (object (some o)) =
      not (is_empty expected) && not (host.is_class o expected)
  is_incompatible expected _ = false

  abbrev pub object_value : ℕ → Value
  object_value id = record { type = 6; payload = record no_data { object_id = id } }

  abbrev pub Retained : Type 0
  Retained = (ℕ → Variant engine) × Memory

  -- An object is kept alive, or the property gets the one back that it had.
  abbrev pub retain :
      ℕ → ℕ → ℕ → PropertyDescriptor → (ℕ → Variant engine) → Option Value × Memory → Retained
  retain m instance i property retained (none, memory) = (retained, memory)
  retain m instance i property retained (some value, memory) =
      let (found, valid) = to_variant engine value in
      if not valid
      then (retained, memory)
      else if is_incompatible (from_view engine property.class_name) found
      then (
        retained,
        (host.zig.set_property m instance i (object_value (object_id_in (retained i))) memory).1,
      )
      else (set_retained i found retained, memory)

  unfoldable pub sync_each :
      ℕ → ℕ → ℕ → List PropertyDescriptor → (ℕ → Variant engine) → Memory → Retained
  unfolding to_variant
  sync_each m instance i [] retained memory = (retained, memory)
  sync_each m instance i (property ∷ rest) retained memory =
      let kept =
        retain m instance i property retained (host.zig.get_property m instance i memory) in
      let skipped = sync_each m instance (i + 1) rest retained memory in
      let synced = sync_each m instance (i + 1) rest kept.0 kept.1 in
      if not (property.type == 6) then skipped else synced

  -- `sync_retained_objects`
  unfoldable pub sync_retained_objects : ℕ → ℕ → (ℕ → Variant engine) → Memory → Retained
  unfolding sync_each
  sync_retained_objects m instance retained memory =
      sync_each m instance 0 (properties_of m) retained memory

  abbrev pub type_at : ℕ → Option PropertyDescriptor → Bool
  type_at type none = false
  type_at type (some property) = type == property.type

  -- Where a property goes: it is found by its name and has the same type.
  unfoldable pub target_property : ℕ → PropertyDescriptor → Option ℕ
  unfolding find_property
  target_property next property =
      elim (find_property engine (from_view engine property.name) (host.modules next)) [
        | none ↦ none
        | some j ↦ if type_at property.type (get_elem? (properties_of next) j) then some j else none
      ]

  abbrev pub set_copied : ℕ → ℕ → ℕ → Option Value × Memory → Bool × Memory
  set_copied next instance j (none, memory) = (false, memory)
  set_copied next instance j (some value, memory) =
      host.zig.set_property next instance j value memory

  -- The loop over the properties of the module that is left.
  unfoldable pub copy_each : ℕ → ℕ → ℕ → ℕ → ℕ → List PropertyDescriptor → Memory → Bool × Memory
  unfolding target_property
  copy_each m old next new i [] memory = (true, memory)
  copy_each m old next new i (property ∷ rest) memory = elim (target_property next property) [
    | none ↦ copy_each m old next new (i + 1) rest memory
    | some j ↦
        let copied = set_copied next new j (host.zig.get_property m old i memory) in
        elim copied.0 [ false ↦ copied | true ↦ copy_each m old next new (i + 1) rest copied.1 ]
  ]

  abbrev pub set_data : ℕ → InstanceData engine → ScriptState → ScriptState
  set_data i held s = record s { datas = λ j. if j == i then held else s.datas j }

  -- The instance is the new one's, and the old one is destroyed.
  abbrev pub adopt : ℕ → InstanceData engine → ℕ → ℕ → Memory → ScriptState → ScriptState
  adopt i held next new memory s =
      let synced = sync_retained_objects next new (λ j. nil) memory in
      let adopted : InstanceData engine = record held {
        used_module = next;
        zig_instance = new;
        retained_objects = synced.0;
      } in
      record (set_data i adopted s) {
        memory = host.zig.destroy_instance held.used_module held.zig_instance synced.1;
      }

  abbrev pub after_copy :
      ℕ → InstanceData engine → ℕ → ℕ → ScriptState → Bool × Memory → Bool × ScriptState
  after_copy i held next new s (true, memory) = (true, adopt i held next new memory s)
  after_copy i held next new s (false, memory) =
      (false, record s { memory = host.zig.destroy_instance next new memory })

  abbrev pub after_create : ℕ → ℕ → ScriptState → Option ℕ × Memory → Bool × ScriptState
  after_create i next s (none, memory) = (false, record s { memory = memory })
  after_create i next s (some new, memory) =
      let held = s.datas i in
      after_copy i held next new s (
        copy_each held.used_module held.zig_instance next new 0 (properties_of held.used_module)
          memory)

  -- `migrate_editor_instance`
  unfoldable pub migrate_editor_instance : ℕ → ℕ → ScriptState → Bool × ScriptState
  unfolding copy_each sync_retained_objects
  migrate_editor_instance i next s =
      after_create i next s (host.zig.create_instance next (s.datas i).owner s.memory)

  abbrev pub after_instance : ℕ → ℕ → ℕ → ScriptState → Option ℕ × Memory → Bool × ScriptState
  after_instance i owner m s (none, memory) = (false, record s { memory = memory })
  after_instance i owner m s (some new, memory) =
      let synced = sync_retained_objects m new (λ j. nil) memory in
      let held : InstanceData engine = record {
        owner = owner;
        used_module = m;
        zig_instance = new;
        retained_objects = synced.0;
      } in
      (true, record (set_data i held s) { memory = synced.1; instances = i ∷ s.instances })

  abbrev pub create_with : ℕ → ℕ → Option ℕ → ScriptState → Bool × ScriptState
  create_with i owner none s = (false, s)
  create_with i owner (some m) s =
      after_instance i owner m s (host.zig.create_instance m owner s.memory)

  -- `_instance_create` for an owner that is not null; `i` is where the new `InstanceData` is.
  unfoldable pub instance_create : ℕ → ℕ → ScriptState → Bool × ScriptState
  unfolding sync_retained_objects
  instance_create i owner s = create_with i owner s.current_module s

  -- `instance_free`
  unfoldable pub instance_free : ℕ → ScriptState → ScriptState
  unfolding remove_instance
  instance_free i s =
      let held = s.datas i in
      record s {
        instances = remove_instance i s.instances;
        memory = host.zig.destroy_instance held.used_module held.zig_instance s.memory;
      }
