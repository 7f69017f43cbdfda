-- ===== src/Compiled/Engine.antt =====
-- What src/gz_value_codec.cpp and src/gz_compiled_module.cpp use of Godot, as parameters. A Godot
-- `String` or `StringName` is the list of its characters, and a `Variant` one of the kinds that
-- the code tells apart; a `real_t` is a `float`.
use gzscript.Base.{ℕ, Bool, Bytes, Option, some, ◌≡◌}
use gzscript.Compiled.Abi.{Vector2, Vector3, Color, Transform2d, Rect2}

pub record Engine : Type 1 where
  -- `Object`, `ObjectDB::get_instance` and `Object::get_instance_id`.
  pub Object : Type 0
  pub get_instance : ℕ → Option Object
  pub get_instance_id : Object → ℕ
  -- `Basis`, its constructor from three vectors, and its rows.
  pub Basis : Type 0
  pub basis : Vector3 → Vector3 → Vector3 → Basis
  pub row_0 : Basis → Vector3
  pub row_1 : Basis → Vector3
  pub row_2 : Basis → Vector3
  -- `String::utf8` and `String::utf8()`.
  pub utf8 : Bytes → Bytes
  pub to_utf8 : Bytes → Bytes
  -- `String::num`
  pub num : ℕ → Bytes

pub data Variant (engine : Engine) : Type 0 where
  nil : Variant engine
  bool : Bool → Variant engine
  int : ℕ → Variant engine
  float : ℕ → Variant engine
  string : Bytes → Variant engine
  vector2 : Vector2 → Variant engine
  object : Option engine.Object → Variant engine
  vector3 : Vector3 → Variant engine
  color : Color → Variant engine
  transform2d : Transform2d → Variant engine
  transform3d : engine.Basis → Vector3 → Variant engine
  rect2 : Rect2 → Variant engine
  other : ℕ → Variant engine

-- What the documentation of Godot says of them: an object is found under its id and the id 0 is
-- nobody's, UTF-8 is read back, and the three vectors that a basis is made of are its columns.
pub record EngineLaws (engine : Engine) : Type 0 where
  pub found : (o : engine.Object) → engine.get_instance (engine.get_instance_id o) ≡ some o
  pub nobody : engine.get_instance 0 ≡ Option.none
  pub utf8-to_utf8 : (s : Bytes) → engine.utf8 (engine.to_utf8 s) ≡ s
  pub row_0-basis :
      (a b c : Vector3) → engine.row_0 (engine.basis a b c) ≡ record { x = a.x; y = b.x; z = c.x }
  pub row_1-basis :
      (a b c : Vector3) → engine.row_1 (engine.basis a b c) ≡ record { x = a.y; y = b.y; z = c.y }
  pub row_2-basis :
      (a b c : Vector3) → engine.row_2 (engine.basis a b c) ≡ record { x = a.z; y = b.z; z = c.z }
