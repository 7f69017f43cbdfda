-- ===== src/Compiled/Load/Exports.antt =====
-- `GzCompiledModule::has_same_exports` of src/gz_compiled_module.cpp, over Godot's comparison of
-- variants and the processor's of doubles.
use gzscript.Base.{
  Bool-cases, ℕ, ◌≡◌, refl, ap, sym, ◌∙◌, subst, ◌↔◌, Bool, true, false, not, ◌==◌, ◌&&◌, ◌||◌,
  if◌then◌else◌, List, [], ◌∷◌, Bytes, ◌===◌, ===→eq, take, map, Option, none, some, arith, length,
  get_elem?, inl, inr,
}
use gzscript.Compiled.Abi.{StringView, Value, PropertyDescriptor, InspectorEntry, ScriptDescriptor}
use gzscript.Compiled.Engine.{Engine, Variant}
use gzscript.Compiled.Codec.{bytes_at, viewed, from_view, to_variant}
use gzscript.Compiled.Load.{Library, Module, load, find_property}
use gzscript.Compiled.Load.Names.{name_of, find_property-load}

-- `memcmp` of as many bytes as both views have.
abbrev pub same_bytes : ℕ → Option Bytes → Option Bytes → Bool
same_bytes len (some lhs) (some rhs) = take len lhs === take len rhs
same_bytes len _ _ = false

unfoldable pub string_view_equal : StringView → StringView → Bool
string_view_equal lhs rhs =
    if not (lhs.len == rhs.len)
    then false
    else if lhs.len == 0
    then true
    else same_bytes lhs.len lhs.ptr rhs.ptr

-- The loop over two arrays of one count.
unfoldable pub all_equal {ℓ} : {A : Type ℓ} → (A → A → Bool) → List A → List A → Bool
all_equal same [] ys = true
all_equal same (x ∷ xs) [] = false
all_equal same (x ∷ xs) (y ∷ ys) = if not (same x y) then false else all_equal same xs ys

unfoldable pub entry_equal : InspectorEntry → InspectorEntry → Bool
unfolding string_view_equal
entry_equal lhs rhs =
    if not (lhs.kind == rhs.kind)
      || (not (string_view_equal lhs.name rhs.name)
          || not (string_view_equal lhs.prefix rhs.prefix))
    then false
    else not ((lhs.kind == 0) && not (lhs.property_index == rhs.property_index))

module _ (engine : Engine) (variant_equal : Variant engine → Variant engine → Bool)
    (double_equal : ℕ → ℕ → Bool) where
  unfoldable pub default_value_equal : Value → Value → Bool
  unfolding to_variant
  default_value_equal lhs rhs =
      (to_variant engine lhs).1
      && ((to_variant engine rhs).1
          && variant_equal (to_variant engine lhs).0 (to_variant engine rhs).0)

  unfoldable pub property_equal : PropertyDescriptor → PropertyDescriptor → Bool
  unfolding default_value_equal string_view_equal
  property_equal lhs rhs = not (
      not (lhs.type == rhs.type)
      || (not (lhs.hint == rhs.hint)
          || (not (double_equal lhs.range_min rhs.range_min)
              || (not (double_equal lhs.range_max rhs.range_max)
                  || (not (double_equal lhs.range_step rhs.range_step)
                      || (not (string_view_equal lhs.name rhs.name)
                          || (not (string_view_equal lhs.hint_string rhs.hint_string)
                              || (not (string_view_equal lhs.class_name rhs.class_name)
                                  || not (
                                      default_value_equal lhs.default_value
                                        rhs.default_value)))))))))

  unfoldable pub same_descriptors : ScriptDescriptor → ScriptDescriptor → Bool
  unfolding all_equal entry_equal property_equal string_view_equal
  same_descriptors lhs rhs =
      if not (length lhs.properties.items == length rhs.properties.items)
        || (not (length lhs.inspector_entries.items == length rhs.inspector_entries.items)
            || not (string_view_equal lhs.base_class rhs.base_class))
      then false
      else if not (all_equal entry_equal lhs.inspector_entries.items rhs.inspector_entries.items)
      then false
      else all_equal property_equal lhs.properties.items rhs.properties.items

  -- Without both descriptors, the pointers are compared.
  abbrev pub compare_descriptors : Option ScriptDescriptor → Option ScriptDescriptor → Bool
  compare_descriptors (some lhs) (some rhs) = same_descriptors lhs rhs
  compare_descriptors (some lhs) none = false
  compare_descriptors none (some rhs) = false
  compare_descriptors none none = true

  unfoldable pub has_same_exports : Module engine → Module engine → Bool
  unfolding same_descriptors
  has_same_exports m other = compare_descriptors m.descriptor other.descriptor

bytes_at_zero : (p : Option Bytes) → bytes_at 0 p ≡ []
bytes_at_zero none = refl
bytes_at_zero (some bytes) = refl

same_bytes_at : (n : ℕ) (p q : Option Bytes) → same_bytes n p q ≡ true → bytes_at n p ≡ bytes_at n q
same_bytes_at n none q h = absurd (cc h)
same_bytes_at n (some a) none h = absurd (cc h)
same_bytes_at n (some a) (some b) h = ===→eq (take n a) (take n b) h

view_bytes : (a b : StringView) → string_view_equal a b ≡ true → viewed a ≡ viewed b
unfolding string_view_equal
view_bytes a b h = elim (Bool-cases (a.len == b.len)) [
  | inr other ↦ absurd (ground (arith, h, other))
  | inl e ↦ elim (Bool-cases (a.len == 0)) [
    | inl z ↦
        let p : a.len ≡ 0 = ground (arith, z) in
        let q : b.len ≡ 0 = ground (arith, z, e) in
        ap (λ n. bytes_at n a.ptr) p
        ∙ (bytes_at_zero a.ptr ∙ sym (ap (λ n. bytes_at n b.ptr) q ∙ bytes_at_zero b.ptr))
    | inr nz ↦
        let q : a.len ≡ b.len = ground (arith, e) in
        same_bytes_at a.len a.ptr b.ptr (ground (arith, h, e, nz)) ∙ ap (λ n. bytes_at n b.ptr) q
  ]
]

get_same :
    (xs ys : List Bytes) (o o' : Option ℕ) (name : Bytes)
    → xs ≡ ys
    → ((i : ℕ) → (o ≡ some i) ↔ (get_elem? xs i ≡ some name))
    → ((i : ℕ) → (o' ≡ some i) ↔ (get_elem? ys i ≡ some name))
    → o ≡ o'
get_same xs ys none none name e f g = refl
get_same xs ys none (some j) name e f g = (f j).1 (ap (λ z. get_elem? z j) e ∙ (g j).0 refl)
get_same xs ys (some i) o' name e f g =
    sym ((g i).1 (ap (λ z. get_elem? z i) (sym e) ∙ (f i).0 refl))

module _ (engine : Engine) (variant_equal : Variant engine → Variant engine → Bool)
    (double_equal : ℕ → ℕ → Bool) where
  same_names :
      (ps qs : List PropertyDescriptor)
      → length ps ≡ length qs
      → all_equal (property_equal engine variant_equal double_equal) ps qs ≡ true
      → map (name_of engine) ps ≡ map (name_of engine) qs
  unfolding all_equal property_equal from_view
  same_names [] [] e h = refl
  same_names [] (q ∷ qs) e h = absurd (omega (arith, e))
  same_names (p ∷ ps) [] e h = absurd (omega (arith, e))
  same_names (p ∷ ps) (q ∷ qs) e h =
      let first : string_view_equal p.name q.name ≡ true = ground (arith, h) in
      let rest : map (name_of engine) ps ≡ map (name_of engine) qs =
        same_names ps qs (omega (arith, e)) (ground (arith, h)) in
      λ i. engine.utf8 (view_bytes p.name q.name first i) ∷ rest i

  compared :
      (d d' : ScriptDescriptor)
      → same_descriptors engine variant_equal double_equal d d' ≡ true
      → map (name_of engine) d.properties.items ≡ map (name_of engine) d'.properties.items
  unfolding same_descriptors
  compared d d' h =
      same_names d.properties.items d'.properties.items (ground (arith, h)) (ground (arith, h))

  -- Two loaded modules with the same exports have the same property names in the same order, so
  -- that an index looked up in one of them means the property of that name in the other, however
  -- variants and doubles are compared.
  pub has_same_exports-find_property :
      (path message path' message' : Bytes) (library library' : Option Library)
      (m m' : Module engine)
      → (load engine path message library).loaded_module ≡ some m
      → (load engine path' message' library').loaded_module ≡ some m'
      → has_same_exports engine variant_equal double_equal m m' ≡ true
      → (m.property_names ≡ m'.property_names)
        × ((name : Bytes) → find_property engine name m ≡ find_property engine name m')
  unfolding has_same_exports
  has_same_exports-find_property path message path' message' library library' m m' h h' e =
      let (d, p, names, find) = find_property-load engine path message library m h in
      let (d', p', names', find') = find_property-load engine path' message' library' m' h' in
      let both : same_descriptors engine variant_equal double_equal d d' ≡ true =
        subst (λ z. compare_descriptors engine variant_equal double_equal (some d) z ≡ true) p'
          (subst (λ z. compare_descriptors engine variant_equal double_equal z m'.descriptor ≡ true)
            p e) in
      let same : m.property_names ≡ m'.property_names = names ∙ (compared d d' both ∙ sym names') in
      (
        same,
        λ name. get_same m.property_names m'.property_names _ _ name same (find name) (find' name),
      )
