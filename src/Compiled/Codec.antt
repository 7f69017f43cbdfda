-- ===== src/Compiled/Codec.antt =====
-- src/gz_value_codec.cpp: values of the C interface and Godot's variants, in both directions.
pub mod RoundTrip
use gzscript.Base.{
  ℕ, ◌==◌, if◌then◌else◌, Bool, true, false, Bytes, Option, none, some, [], length, take,
}
use gzscript.Compiled.Abi.{
  StringView, Vector2, Vector3, Color, Transform2d, Transform3d, Rect2, ValueData, Value,
}
use gzscript.Compiled.Engine.{
  Engine, Variant, nil, bool, int, float, string, vector2, object, vector3, color, transform2d,
  transform3d, rect2, other,
}

-- `GzValueType`, and a number that is none of its values.
pub data ValueType : Type 0 where
  value_nil value_bool value_int value_float value_string value_vector2 value_object value_vector3 :
      ValueType
  value_color value_transform2d value_transform3d value_rect2 value_unknown : ValueType

-- The `switch` on a type.
unfoldable pub value_type : ℕ → ValueType
value_type type =
    if type == 0
    then value_nil
    else if type == 1
    then value_bool
    else if type == 2
    then value_int
    else if type == 3
    then value_float
    else if type == 4
    then value_string
    else if type == 5
    then value_vector2
    else if type == 6
    then value_object
    else if type == 7
    then value_vector3
    else if type == 8
    then value_color
    else if type == 9
    then value_transform2d
    else if type == 10
    then value_transform3d
    else if type == 11
    then value_rect2
    else value_unknown

-- The bytes that a view shows; Godot takes a null pointer for an empty string.
abbrev pub bytes_at : ℕ → Option Bytes → Bytes
bytes_at len none = []
bytes_at len (some bytes) = take len bytes

abbrev pub viewed : StringView → Bytes
viewed v = bytes_at v.len v.ptr

abbrev zero_2 : Vector2
zero_2 = record { x = 0; y = 0 }

abbrev zero_3 : Vector3
zero_3 = record { x = 0; y = 0; z = 0 }

-- `GzValue result{}`
abbrev pub no_data : ValueData
no_data = record {
  boolean = false;
  integer = 0;
  floating = 0;
  string = record { ptr = none; len = 0 };
  vector2 = zero_2;
  vector3 = zero_3;
  color = record { r = 0; g = 0; b = 0; a = 0 };
  transform2d = record { x = zero_2; y = zero_2; origin = zero_2 };
  transform3d = record { basis_0 = zero_3; basis_1 = zero_3; basis_2 = zero_3; origin = zero_3 };
  rect2 = record { position = zero_2; size = zero_2 };
  object_id = 0;
}

-- `Object *object = value; object ? object->get_instance_id() : 0`
abbrev object_id_of : (engine : Engine) → Option engine.Object → ℕ
object_id_of engine none = 0
object_id_of engine (some o) = engine.get_instance_id o

module _ (engine : Engine) where
  unfoldable pub from_view : StringView → Bytes
  from_view value = engine.utf8 (viewed value)

  -- The variant of a value, and `*valid`.
  unfoldable pub to_variant : Value → Variant engine × Bool
  unfolding from_view value_type
  to_variant value =
      let d = value.payload in
      elim (value_type value.type) [
        | value_nil ↦ (nil, true)
        | value_bool ↦ (bool d.boolean, true)
        | value_int ↦ (int d.integer, true)
        | value_float ↦ (float d.floating, true)
        | value_string ↦ (string (from_view d.string), true)
        | value_vector2 ↦ (vector2 d.vector2, true)
        | value_object ↦ (object (engine.get_instance d.object_id), true)
        | value_vector3 ↦ (vector3 d.vector3, true)
        | value_color ↦ (color d.color, true)
        | value_transform2d ↦ (transform2d d.transform2d, true)
        | value_transform3d ↦ (
          transform3d
              (engine.basis d.transform3d.basis_0 d.transform3d.basis_1 d.transform3d.basis_2)
              d.transform3d.origin,
          true,
        )
        | value_rect2 ↦ (rect2 d.rect2, true)
        | value_unknown ↦ (nil, false)
      ]

  -- The value of a variant, and `*valid`; the flag says that there is storage for a string, which
  -- the value then points into.
  unfoldable pub from_variant : Variant engine → Bool → Value × Bool
  from_variant nil storage = (record { type = 0; payload = no_data }, true)
  from_variant (bool b) storage =
      (record { type = 1; payload = record no_data { boolean = b } }, true)
  from_variant (int n) storage =
      (record { type = 2; payload = record no_data { integer = n } }, true)
  from_variant (float n) storage =
      (record { type = 3; payload = record no_data { floating = n } }, true)
  from_variant (string s) false = (record { type = 0; payload = no_data }, false)
  from_variant (string s) true =
      let bytes = engine.to_utf8 s in
      (
        record {
          type = 4;
          payload = record no_data { string = record { ptr = some bytes; len = length bytes } };
        },
        true,
      )
  from_variant (vector2 v) storage =
      (record { type = 5; payload = record no_data { vector2 = v } }, true)
  from_variant (object o) storage =
      (record { type = 6; payload = record no_data { object_id = object_id_of engine o } }, true)
  from_variant (vector3 v) storage =
      (record { type = 7; payload = record no_data { vector3 = v } }, true)
  from_variant (color c) storage =
      (record { type = 8; payload = record no_data { color = c } }, true)
  from_variant (transform2d t) storage =
      (record { type = 9; payload = record no_data { transform2d = t } }, true)
  from_variant (transform3d basis origin) storage =
      let rows : Transform3d = record {
        basis_0 = engine.row_0 basis;
        basis_1 = engine.row_1 basis;
        basis_2 = engine.row_2 basis;
        origin = origin;
      } in
      (record { type = 10; payload = record no_data { transform3d = rows } }, true)
  from_variant (rect2 r) storage =
      (record { type = 11; payload = record no_data { rect2 = r } }, true)
  from_variant (other kind) storage = (record { type = 0; payload = no_data }, false)

-- `Variant::Type`, as far as the code names it.
pub data VariantType : Type 0 where
  type_nil type_bool type_int type_float type_string type_vector2 type_object type_vector3 :
      VariantType
  type_color type_transform2d type_transform3d type_rect2 type_other : VariantType

unfoldable pub variant_type : ℕ → VariantType
unfolding value_type
variant_type type = elim (value_type type) [
  | value_bool ↦ type_bool
  | value_int ↦ type_int
  | value_float ↦ type_float
  | value_string ↦ type_string
  | value_vector2 ↦ type_vector2
  | value_object ↦ type_object
  | value_vector3 ↦ type_vector3
  | value_color ↦ type_color
  | value_transform2d ↦ type_transform2d
  | value_transform3d ↦ type_transform3d
  | value_rect2 ↦ type_rect2
  | _ ↦ type_nil
]
