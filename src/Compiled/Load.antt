-- ===== src/Compiled/Load.antt =====
-- `GzCompiledModule::load`, its destructor and its queries, in src/gz_compiled_module.cpp. What
-- the dynamic loader finds in a file is a parameter; an outcome counts the calls of
-- `close_library` on the handle. The lifecycle counters and traces are left out.
pub mod Stages
pub mod Layout
pub mod Names
pub mod Closes
pub mod Exports
use gzscript.Base.{
  ℕ, ◌+◌, ◌==◌, ltb, leb, if◌then◌else◌, Bool, true, false, not, ◌&&◌, ◌||◌, List, [], ◌∷◌, ◌++◌,
  map, Bytes, codes, is_empty, is_none, length, get_elem?, set, replicate, Option, none, some,
}
use gzscript.Base.Assoc.{lookup, update}
use gzscript.Compiled.Abi.{
  StringView, Counted, PropertyDescriptor, InspectorEntry, ScriptDescriptor,
}
use gzscript.Compiled.Engine.{Engine, Variant}
use gzscript.Compiled.Codec.{from_view, to_variant, variant_type, VariantType, type_nil}
use gzscript.Compiled.Validate.{validate_descriptor}

-- What a library exports: the status that `gzscript_script_init` returns and the descriptor it
-- leaves, or nothing under that name.
pub record Library : Type 0 where
  pub init : Option (ℕ × Option ScriptDescriptor)

pub data Usage : Type 0 where
  usage_none usage_category usage_group usage_subgroup usage_default : Usage

pub record PropertyInfo : Type 0 where
  pub type : VariantType
  pub name : Bytes
  pub hint : ℕ
  pub hint_string : Bytes
  pub usage : Usage
  pub class_name : Bytes

-- `handle` says whether the pointer is set. An entry of `inspector_properties` is `none` if its
-- property would be read outside the array of properties.
pub record Module (engine : Engine) : Type 0 where
  pub handle : Bool
  pub descriptor : Option ScriptDescriptor
  pub path : Bytes
  pub property_names : List Bytes
  pub property_indices : List (Bytes × ℕ)
  pub property_defaults : List (Bytes × Variant engine)
  pub inspector_properties : List (Option PropertyInfo)

pub record Outcome (engine : Engine) : Type 0 where
  pub loaded_module : Option (Module engine)
  pub error : Bytes
  pub closes : ℕ

-- The check for null pointers.
unfoldable pub is_incomplete : ScriptDescriptor → Bool
is_incomplete d =
    not d.create_instance
    || (not d.destroy_instance
        || (not d.call_method
            || (not d.get_property
                || (not d.set_property
                    || (not d.notification
                        || ((ltb 0 (length d.methods.items) && d.methods.null)
                            || ((ltb 0 (length d.properties.items) && d.properties.null)
                                || ((ltb 0 (length d.inspector_entries.items)
                                      && d.inspector_entries.null)
                                    || (ltb 0 (length d.signals.items) && d.signals.null)))))))))

abbrev pub is_listed : Option Bool → Bool
is_listed (some listed) = listed
is_listed none = false

pub data Checked : Type 0 where
  layout_error : Bytes → Checked
  layout : List Bool → Checked

-- The loop over the Inspector entries, with the properties listed so far.
unfoldable pub check_entries : ℕ → List InspectorEntry → List Bool → Checked
check_entries property_count [] listed = layout listed
check_entries property_count (entry ∷ entries) listed =
    let index = entry.property_index in
    let skipped = check_entries property_count entries listed in
    let marked = check_entries property_count entries (set listed index true) in
    if ltb 3 entry.kind
    then layout_error (codes "Compiled Zig script has an invalid Inspector entry")
    else if not (entry.kind == 0)
    then skipped
    else if leb property_count index || is_listed (get_elem? listed index)
    then layout_error (codes "Compiled Zig script has an invalid Inspector property index")
    else marked

-- The loop that looks for a property that is not listed.
unfoldable pub omits_property : List Bool → Bool
omits_property [] = false
omits_property (listed ∷ rest) = if not listed then true else omits_property rest

module _ (engine : Engine) where
  unfoldable pub inspector_property_info : ScriptDescriptor → InspectorEntry → Option PropertyInfo
  unfolding from_view variant_type
  inspector_property_info d entry =
      if not (entry.kind == 0)
      then some (record {
        type = type_nil;
        name = from_view engine entry.name;
        hint = 0;
        hint_string = from_view engine entry.prefix;
        usage =
            if entry.kind == 1
            then usage_category
            else if entry.kind == 2
            then usage_group
            else if entry.kind == 3
            then usage_subgroup
            else usage_none;
        class_name = [];
      })
      else elim (get_elem? d.properties.items entry.property_index) [
        | none ↦ none
        | some property ↦ some (record {
          type = variant_type property.type;
          name = from_view engine property.name;
          hint = property.hint;
          hint_string =
              if property.hint == 1
              then engine.num property.range_min
                ++ (codes ","
                    ++ (engine.num property.range_max
                        ++ (codes "," ++ engine.num property.range_step)))
              else from_view engine property.hint_string;
          usage = usage_default;
          class_name = from_view engine property.class_name;
        })
      ]

  pub data Added : Type 0 where
    duplicate : Bytes → Module engine → Added
    added : Module engine → Added

  -- `property_indices.insert` and the two writes beside it.
  unfoldable pub add_property : ℕ → PropertyDescriptor → Module engine → Module engine
  unfolding from_view to_variant
  add_property i property m =
      let name = from_view engine property.name in
      record m {
        property_names = m.property_names ++ name ∷ [];
        property_indices = update name i m.property_indices;
        property_defaults =
            update name (to_variant engine property.default_value).0 m.property_defaults;
      }

  -- The loop over the properties that are left, from the index of the first.
  unfoldable pub add_properties : ℕ → List PropertyDescriptor → Module engine → Added
  unfolding add_property from_view
  add_properties i [] m = added m
  add_properties i (property ∷ properties) m =
      let name = from_view engine property.name in
      let rest = add_properties (i + 1) properties (add_property i property m) in
      if not (is_none (lookup name m.property_indices)) then duplicate name m else rest

  -- The closes of `~GzCompiledModule`.
  unfoldable pub destroy : Module engine → ℕ
  destroy m = if m.handle then 1 else 0

  -- The error and an empty pointer, the library closed.
  unfoldable pub refuse : Bytes → Outcome engine
  refuse message = record { loaded_module = none; error = message; closes = 1 }

  -- A duplicate name: the library is closed, and the module that goes out of scope closes it too.
  abbrev pub finish : ScriptDescriptor → Added → Outcome engine
  finish d (duplicate name m) = record {
    loaded_module = none;
    error = codes "Compiled Zig script has duplicate property name: " ++ name;
    closes = 1 + destroy m;
  }
  finish d (added m) = record {
    loaded_module = some (record m {
      inspector_properties = map (inspector_property_info d) d.inspector_entries.items;
    });
    error = [];
    closes = 0;
  }

  abbrev pub new_module : Bytes → ScriptDescriptor → Module engine
  new_module path d = record {
    handle = true;
    descriptor = some d;
    path = path;
    property_names = [];
    property_indices = [];
    property_defaults = [];
    inspector_properties = [];
  }

  abbrev pub with_layout : Bytes → ScriptDescriptor → Checked → Outcome engine
  with_layout path d (layout_error message) = refuse message
  with_layout path d (layout listed) =
      if omits_property listed
      then refuse (codes "Compiled Zig script Inspector layout omits a property")
      else finish d (add_properties 0 d.properties.items (new_module path d))

  -- `load` with the descriptor.
  unfoldable pub load_descriptor : Bytes → ScriptDescriptor → Outcome engine
  unfolding is_incomplete validate_descriptor check_entries omits_property add_properties
  load_descriptor path d =
      if not (d.abi_version == 5) || not (d.struct_size == 136)
      then refuse (codes "Compiled Zig script ABI does not match gzscript")
      else if is_incomplete d
      then refuse (codes "Compiled Zig script descriptor is incomplete")
      else if not (is_empty (validate_descriptor d))
      then refuse (validate_descriptor d)
      else with_layout path d (
          check_entries (length d.properties.items) d.inspector_entries.items
            (replicate (length d.properties.items) false))

  -- `load` with what the library exports.
  unfoldable pub load_init : Bytes → Option (ℕ × Option ScriptDescriptor) → Outcome engine
  unfolding load_descriptor
  load_init path none = refuse (codes "Compiled Zig script does not export gzscript_script_init")
  load_init path (some (status, none)) = refuse (codes "Compiled Zig script initialization failed")
  load_init path (some (status, some d)) =
      if not (status == 0)
      then refuse (codes "Compiled Zig script initialization failed")
      else load_descriptor path d

  -- `load`, of a library or of none with the loader's message.
  unfoldable pub load : Bytes → Bytes → Option Library → Outcome engine
  unfolding load_init
  load path message none = record { loaded_module = none; error = message; closes = 0 }
  load path message (some library) = load_init path library.init

  -- The index, or `none` for -1.
  unfoldable pub find_property : Bytes → Module engine → Option ℕ
  find_property name m = lookup name m.property_indices
