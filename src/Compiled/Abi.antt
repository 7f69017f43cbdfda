-- ===== src/Compiled/Abi.antt =====
-- src/abi/gzscript_abi.h. A `float` or a `double` is the number of its bits, a signed integer its
-- two's complement. A pointer to bytes is `none` if it is null, else the memory it points to. The
-- union `data` of a value is `payload`, the record of what its members read as.
use gzscript.Base.{ℕ, Bool, List, Bytes, Option}

pub record StringView : Type 0 where
  pub ptr : Option Bytes
  pub len : ℕ

pub record Vector2 : Type 0 where
  pub x : ℕ
  pub y : ℕ

pub record Vector3 : Type 0 where
  pub x : ℕ
  pub y : ℕ
  pub z : ℕ

pub record Color : Type 0 where
  pub r : ℕ
  pub g : ℕ
  pub b : ℕ
  pub a : ℕ

pub record Transform2d : Type 0 where
  pub x : Vector2
  pub y : Vector2
  pub origin : Vector2

-- The array `basis` of three vectors is three fields.
pub record Transform3d : Type 0 where
  pub basis_0 : Vector3
  pub basis_1 : Vector3
  pub basis_2 : Vector3
  pub origin : Vector3

pub record Rect2 : Type 0 where
  pub position : Vector2
  pub size : Vector2

pub record ValueData : Type 0 where
  pub boolean : Bool
  pub integer : ℕ
  pub floating : ℕ
  pub string : StringView
  pub vector2 : Vector2
  pub vector3 : Vector3
  pub color : Color
  pub transform2d : Transform2d
  pub transform3d : Transform3d
  pub rect2 : Rect2
  pub object_id : ℕ

pub record Value : Type 0 where
  pub type : ℕ
  pub payload : ValueData

-- An array that a descriptor points to: whether its pointer is null, and as many elements as its
-- count says.
pub record Counted {ℓ} (A : Type ℓ) : Type ℓ where
  pub null : Bool
  pub items : List A

pub record MethodDescriptor : Type 0 where
  pub name : StringView
  pub argument_count : ℕ
  pub flags : ℕ

pub record PropertyDescriptor : Type 0 where
  pub name : StringView
  pub type : ℕ
  pub hint : ℕ
  pub hint_string : StringView
  pub class_name : StringView
  pub range_min : ℕ
  pub range_max : ℕ
  pub range_step : ℕ
  pub default_value : Value

pub record InspectorEntry : Type 0 where
  pub kind : ℕ
  pub property_index : ℕ
  pub name : StringView
  pub prefix : StringView

pub record SignalArgument : Type 0 where
  pub name : StringView
  pub type : ℕ

pub record SignalDescriptor : Type 0 where
  pub name : StringView
  pub arguments : Counted SignalArgument

-- Of each function pointer, whether it is there.
pub record ScriptDescriptor : Type 0 where
  pub abi_version : ℕ
  pub struct_size : ℕ
  pub base_class : StringView
  pub methods : Counted MethodDescriptor
  pub properties : Counted PropertyDescriptor
  pub inspector_entries : Counted InspectorEntry
  pub signals : Counted SignalDescriptor
  pub create_instance : Bool
  pub destroy_instance : Bool
  pub call_method : Bool
  pub get_property : Bool
  pub set_property : Bool
  pub notification : Bool
