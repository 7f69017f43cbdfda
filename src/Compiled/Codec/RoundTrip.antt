-- ===== src/Compiled/Codec/RoundTrip.antt =====
-- The two conversions of src/gz_value_codec.cpp, one after the other.
use gzscript.Base.{
  ◌≡◌, refl, ap, ◌∙◌, Bool, true, false, Bytes, none, some, length, take, [], ◌∷◌, arith, ◌≤◌, not,
  ◌↔◌,
}
use gzscript.Compiled.Abi.{Vector3, Value}
use gzscript.Compiled.Engine.{
  Engine, EngineLaws, Variant, nil, bool, int, float, string, vector2, object, vector3, color,
  transform2d, transform3d, rect2, other,
}
use gzscript.Compiled.Codec.{
  value_type, to_variant, from_variant, variant_type, VariantType, type_nil, type_bool, type_int,
  type_float, type_string, type_vector2, type_object, type_vector3, type_color, type_transform2d,
  type_transform3d, type_rect2, type_other,
}

-- The basis whose columns are the rows of a basis.
abbrev pub transposed : (engine : Engine) → engine.Basis → engine.Basis
transposed engine b = engine.basis (engine.row_0 b) (engine.row_1 b) (engine.row_2 b)

-- What comes back of a variant.
abbrev pub returned : (engine : Engine) → Variant engine → Variant engine
returned engine (transform3d basis origin) = transform3d (transposed engine basis) origin
returned engine v = v

abbrev pub is_other : (engine : Engine) → Variant engine → Bool
is_other engine (other kind) = true
is_other engine _ = false

-- `Variant::get_type`
abbrev pub get_type : (engine : Engine) → Variant engine → VariantType
get_type engine nil = type_nil
get_type engine (bool b) = type_bool
get_type engine (int n) = type_int
get_type engine (float n) = type_float
get_type engine (string s) = type_string
get_type engine (vector2 v) = type_vector2
get_type engine (object o) = type_object
get_type engine (vector3 v) = type_vector3
get_type engine (color c) = type_color
get_type engine (transform2d t) = type_transform2d
get_type engine (transform3d b o) = type_transform3d
get_type engine (rect2 r) = type_rect2
get_type engine (other kind) = type_other

take-length : (bs : Bytes) → take (length bs) bs ≡ bs
take-length [] = refl
take-length (b ∷ bs) = ap (λ z. b ∷ z) (take-length bs)

module _ (engine : Engine) where
  -- A value is converted to a variant of the type that the type of its properties is declared
  -- with, and is valid exactly if its type is one of the twelve.
  pub get_type-to_variant :
      (v : Value)
      → (get_type engine (to_variant engine v).0 ≡ variant_type v.type)
        × (((to_variant engine v).1 ≡ true) ↔ (v.type ≤ 11))
  unfolding to_variant variant_type value_type
  get_type-to_variant v = ground arith

module _ (engine : Engine) (laws : EngineLaws engine) where
  -- With storage for strings, a variant of a kind that values have is converted and comes back the
  -- same, but for a Transform3D, whose basis comes back transposed; any other kind is refused.
  pub to_variant-from_variant :
      (v : Variant engine)
      → ((from_variant engine v true).1 ≡ not (is_other engine v))
        × (is_other engine v ≡ false
            → to_variant engine (from_variant engine v true).0 ≡ (returned engine v, true))
  unfolding to_variant from_variant
  to_variant-from_variant nil = (refl, λ _. refl)
  to_variant-from_variant (bool b) = (refl, λ _. refl)
  to_variant-from_variant (int n) = (refl, λ _. refl)
  to_variant-from_variant (float n) = (refl, λ _. refl)
  to_variant-from_variant (string s) = (
    refl,
    λ _.
        ap (λ z. (string z, true))
          (ap engine.utf8 (take-length (engine.to_utf8 s)) ∙ laws.utf8-to_utf8 s),
  )
  to_variant-from_variant (vector2 v) = (refl, λ _. refl)
  to_variant-from_variant (object none) = (refl, λ _. ap (λ z. (object z, true)) laws.nobody)
  to_variant-from_variant (object (some o)) = (refl, λ _. ap (λ z. (object z, true)) (laws.found o))
  to_variant-from_variant (vector3 v) = (refl, λ _. refl)
  to_variant-from_variant (color c) = (refl, λ _. refl)
  to_variant-from_variant (transform2d t) = (refl, λ _. refl)
  to_variant-from_variant (transform3d b o) = (refl, λ _. refl)
  to_variant-from_variant (rect2 r) = (refl, λ _. refl)
  to_variant-from_variant (other kind) = (refl, λ h. absurd (cc h))

  -- The rows of the basis that comes back of one made of three vectors are these vectors: its
  -- columns have become its rows.
  pub rows-transposed :
      (a b c : Vector3)
      → (engine.row_0 (transposed engine (engine.basis a b c)) ≡ a)
        × (engine.row_1 (transposed engine (engine.basis a b c)) ≡ b)
        × (engine.row_2 (transposed engine (engine.basis a b c)) ≡ c)
  rows-transposed a b c = (
    laws.row_0-basis _ _ _ ∙ (λ i. record {
      x = (laws.row_0-basis a b c i).x;
      y = (laws.row_1-basis a b c i).x;
      z = (laws.row_2-basis a b c i).x;
    }),
    laws.row_1-basis _ _ _ ∙ (λ i. record {
      x = (laws.row_0-basis a b c i).y;
      y = (laws.row_1-basis a b c i).y;
      z = (laws.row_2-basis a b c i).y;
    }),
    laws.row_2-basis _ _ _ ∙ (λ i. record {
      x = (laws.row_0-basis a b c i).z;
      y = (laws.row_1-basis a b c i).z;
      z = (laws.row_2-basis a b c i).z;
    }),
  )
