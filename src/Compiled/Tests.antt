-- ===== src/Compiled/Tests.antt =====
-- A script library with one property, and the theorems on the code of src/gz_compiled_module.cpp
-- and src/gz_value_codec.cpp at it.
use gzscript.Base.{
  ◌≤◌, ℕ, ◌≡◌, refl, ◌↔◌, ◌⊎◌, ◌∷◌, [], ◌++◌, map, List, Bytes, codes, Bool, true, false, Option,
  some, none, ltb, if◌then◌else◌, All, is_none, length, get_elem?, suc, zero, not, ◌===◌,
}
use gzscript.Base.Assoc.{lookup, update}
use gzscript.Base.Sort.{count, any}
use gzscript.Compiled.Abi.{
  StringView, Vector3, Value, PropertyDescriptor, InspectorEntry, ScriptDescriptor, Counted,
}
use gzscript.Compiled.Engine.{Engine, EngineLaws, Variant, transform3d, int}
use gzscript.Compiled.Codec.{no_data, from_view, to_variant, from_variant, value_type}
use gzscript.Compiled.Codec.RoundTrip.{returned, is_other, to_variant-from_variant}
use gzscript.Compiled.Validate.{
  validate_descriptor, valid_view, exceeds_limits, bad_method, bad_property, bad_entry, bad_signal,
  bad_argument, validate_signals, valid_value_type, valid_property_hint,
}
use gzscript.Compiled.Validate.Accepts.{IsSafe, validate_descriptor_iff}
use gzscript.Compiled.Load.{
  Library, Module, is_incomplete, check_entries, omits_property, add_property, add_properties,
  destroy, refuse, load_descriptor, load_init, load, find_property,
}
use gzscript.Compiled.Load.Layout.{shows, IsComplete, load-layout}
use gzscript.Compiled.Load.Names.{name_of, find_property-load}
use gzscript.Compiled.Load.Closes.{closes_in_all, load-closes}
use gzscript.Compiled.Load.Exports.{
  has_same_exports, has_same_exports-find_property, same_descriptors, all_equal, entry_equal,
  property_equal, default_value_equal, string_view_equal,
}
use gzscript.Compiled.Calls.{CallError, call_ok}

abbrev Rows : Type 0
Rows = Vector3 × Vector3 × Vector3

abbrev instance_of : ℕ → Option ℕ
instance_of zero = none
instance_of (suc n) = some n

-- Objects are numbers, and text is its bytes.
abbrev engine : Engine
engine = record {
  Object = ℕ;
  get_instance = instance_of;
  get_instance_id = λ n. suc n;
  Basis = Rows;
  basis = λ a b c. (
    record { x = a.x; y = b.x; z = c.x },
    record { x = a.y; y = b.y; z = c.y },
    record { x = a.z; y = b.z; z = c.z },
  );
  row_0 = λ b. b.0;
  row_1 = λ b. b.1;
  row_2 = λ b. b.2;
  utf8 = λ s. s;
  to_utf8 = λ s. s;
  num = λ n. n ∷ [];
}

abbrev laws : EngineLaws engine
laws = record {
  found = λ o. refl;
  nobody = refl;
  utf8-to_utf8 = λ s. refl;
  row_0-basis = λ a b c. refl;
  row_1-basis = λ a b c. refl;
  row_2-basis = λ a b c. refl;
}

abbrev up : Vector3
up = record { x = 1; y = 2; z = 3 }

abbrev side : Vector3
side = record { x = 4; y = 5; z = 6 }

abbrev ahead : Vector3
ahead = record { x = 7; y = 8; z = 9 }

abbrev placed : Variant engine
placed = transform3d (engine.basis up side ahead) up

to_variant-from_variant_example :
    ((from_variant engine placed true).1 ≡ not (is_other engine placed))
    × (is_other engine placed ≡ false
        → to_variant engine (from_variant engine placed true).0 ≡ (returned engine placed, true))
to_variant-from_variant_example = to_variant-from_variant engine laws placed

abbrev view : Bytes → StringView
view s = record { ptr = some s; len = length s }

abbrev no_text : StringView
no_text = record { ptr = none; len = 0 }

abbrev three : Value
three = record { type = 2; payload = record no_data { integer = 3 } }

abbrev health : PropertyDescriptor
health = record {
  name = view (codes "hp");
  type = 2;
  hint = 0;
  hint_string = no_text;
  class_name = no_text;
  range_min = 0;
  range_max = 0;
  range_step = 0;
  default_value = three;
}

abbrev group : InspectorEntry
group = record { kind = 2; property_index = 0; name = view (codes "Body"); prefix = no_text }

abbrev shown : InspectorEntry
shown = record { kind = 0; property_index = 0; name = no_text; prefix = no_text }

abbrev nothing {ℓ} : {A : Type ℓ} → Counted A
nothing = record { null = true; items = [] }

abbrev script : ScriptDescriptor
script = record {
  abi_version = 5;
  struct_size = 136;
  base_class = view (codes "Node");
  methods = nothing;
  properties = record { null = false; items = health ∷ [] };
  inspector_entries = record { null = false; items = group ∷ shown ∷ [] };
  signals = nothing;
  create_instance = true;
  destroy_instance = true;
  call_method = true;
  get_property = true;
  set_property = true;
  notification = true;
}

validate_descriptor_iff_example : (validate_descriptor script ≡ []) ↔ IsSafe script
validate_descriptor_iff_example = validate_descriptor_iff script

abbrev path : Bytes
path = codes "a.so"

abbrev library : Library
library = record { init = some (0, some script) }

load_code : Unit {0}
unfolding load load_init load_descriptor is_incomplete validate_descriptor valid_view exceeds_limits
    any bad_method bad_property bad_entry bad_signal bad_argument validate_signals valid_value_type
    valid_property_hint check_entries omits_property add_properties add_property from_view lookup
    update ◌===◌ refuse destroy
load_code = tt

abbrev module_or {ℓ} : {A : Type ℓ} → A → Option A → A
module_or a none = a
module_or a (some m) = m

abbrev unloaded : Module engine
unloaded = record {
  handle = false;
  descriptor = none;
  path = [];
  property_names = [];
  property_indices = [];
  property_defaults = [];
  inspector_properties = [];
}

abbrev loaded : Module engine
loaded = module_or unloaded (load engine path [] (some library)).loaded_module

loads : (load engine path [] (some library)).loaded_module ≡ some loaded
unfolding load_code
loads = refl

load-layout_example :
    (d : ScriptDescriptor) × (loaded.descriptor ≡ some d)
    × IsComplete d
    × IsSafe d
    × ((i : ℕ)
        → count (shows i) d.inspector_entries.items
          ≡ (if ltb i (length d.properties.items) then 1 else 0))
    × All (λ (e : InspectorEntry). e.kind ≤ 3) d.inspector_entries.items
    × All (λ o. is_none o ≡ false) loaded.inspector_properties
load-layout_example = load-layout engine path [] (some library) loaded loads

find_property-load_example :
    (d : ScriptDescriptor) × (loaded.descriptor ≡ some d)
    × (loaded.property_names ≡ map (name_of engine) d.properties.items)
    × ((name : Bytes) (i : ℕ)
        → (find_property engine name loaded ≡ some i)
          ↔ (get_elem? loaded.property_names i ≡ some name))
find_property-load_example = find_property-load engine path [] (some library) loaded loads

abbrev twice : Library
twice = record {
  init = some (
    0,
    some (record script {
      properties = record { null = false; items = health ∷ health ∷ [] };
      inspector_entries = record {
        null = false;
        items = shown ∷ record shown { property_index = 1 } ∷ [];
      };
    }),
  );
}

-- Two properties of one name: the library is closed twice.
duplicate_closed_twice : closes_in_all engine (load engine path [] (some twice)) ≡ 2
unfolding load_code
duplicate_closed_twice = refl

load-closes_example :
    (closes_in_all engine (load engine path [] (some twice)) ≡ 1)
    ⊎ ((closes_in_all engine (load engine path [] (some twice)) ≡ 2)
        × ((load engine path [] (some twice)).loaded_module ≡ none)
        × ((name : Bytes) × ((load engine path [] (some twice)).error
              ≡ codes "Compiled Zig script has duplicate property name: " ++ name)))
load-closes_example = load-closes engine path [] twice

abbrev always : Variant engine → Variant engine → Bool
always v w = true

abbrev exact : ℕ → ℕ → Bool
exact m n = not (ltb m n)

export_code : Unit {0}
unfolding load_code has_same_exports same_descriptors all_equal entry_equal property_equal
    default_value_equal string_view_equal to_variant value_type
export_code = tt

has_same_exports-find_property_example :
    (loaded.property_names ≡ loaded.property_names)
    × ((name : Bytes) → find_property engine name loaded ≡ find_property engine name loaded)
unfolding export_code
has_same_exports-find_property_example =
    has_same_exports-find_property engine always exact path [] path [] (some library) (some library)
      loaded loaded loads loads refl

abbrev answers : ℕ → Bytes → List (Variant engine) → CallError × Variant engine
answers o name values = (call_ok, int o)

abbrev jump : StringView
jump = view (codes "jump")

abbrev arguments : Counted Value
arguments = record { null = false; items = three ∷ [] }
