-- ===== src/Compiled/Validate/Accepts.antt =====
-- What the checks of src/gz_compiled_module.cpp on a descriptor let through.
use gzscript.Base.{
  ℕ, ◌≡◌, refl, ◌↔◌, ◌⊎◌, ◌≤◌, ◌<◌, Bool, true, false, List, [], ◌∷◌, is_none, length, arith, All,
}
use gzscript.Base.Sort.{any}
use gzscript.Compiled.Abi.{
  StringView, MethodDescriptor, PropertyDescriptor, InspectorEntry, SignalArgument,
  SignalDescriptor, ScriptDescriptor,
}
use gzscript.Compiled.Validate.{
  valid_view, valid_value_type, valid_property_hint, bad_method, bad_property, bad_entry,
  bad_signal, bad_argument, exceeds_limits, validate_signals, validate_descriptor,
}

-- Text of at most a mebibyte, behind a pointer that is not null unless there is none.
abbrev pub IsText : StringView → Type 0
IsText v = (v.len ≤ 1048576) × (0 < v.len → is_none v.ptr ≡ false)

abbrev pub IsName : StringView → Type 0
IsName v = (0 < v.len) × IsText v

-- A hint of `GzPropertyHint`.
abbrev pub IsHint : ℕ → Type 0
IsHint hint = (hint ≡ 0) ⊎ ((hint ≡ 1) ⊎ ((hint ≡ 2) ⊎ ((hint ≡ 13) ⊎ (hint ≡ 18))))

abbrev pub IsProperty : PropertyDescriptor → Type 0
IsProperty p =
    IsName p.name
    × IsText p.hint_string
    × IsText p.class_name
    × (p.type ≤ 11)
    × IsHint p.hint
    × (p.default_value.type ≤ 11)
    × (p.default_value.type ≡ 4 → IsText p.default_value.payload.string)

abbrev pub IsEntry : InspectorEntry → Type 0
IsEntry e = IsText e.name × IsText e.prefix

abbrev pub IsArgument : SignalArgument → Type 0
IsArgument a = IsName a.name × (a.type ≤ 11)

abbrev pub IsSignal : SignalDescriptor → Type 0
IsSignal s =
    (IsName s.name
      × (length s.arguments.items ≤ 65536)
      × (0 < length s.arguments.items → s.arguments.null ≡ false))
    × All IsArgument s.arguments.items

abbrev pub AreFew : ScriptDescriptor → Type 0
AreFew d =
    (length d.methods.items ≤ 65536)
    × (length d.properties.items ≤ 65536)
    × (length d.inspector_entries.items ≤ 65536)
    × (length d.signals.items ≤ 65536)

-- Every text and every array that the host reads of a descriptor is within its limits, and every
-- type and hint is a known one.
abbrev pub IsSafe : ScriptDescriptor → Type 0
IsSafe d =
    IsName d.base_class
    × AreFew d
    × All (λ (m : MethodDescriptor). IsName m.name) d.methods.items
    × All IsProperty d.properties.items
    × All IsEntry d.inspector_entries.items
    × All IsSignal d.signals.items

valid-IsText : (v : StringView) → (valid_view v true ≡ true) ↔ IsText v
unfolding valid_view
valid-IsText v = ground arith

valid-IsName : (v : StringView) → (valid_view v false ≡ true) ↔ IsName v
unfolding valid_view
valid-IsName v = ground arith

-- Where no element is bad, all are good, and the other way round.
none_bad_iff {ℓ κ} :
    {A : Type ℓ} (bad : A → Bool) (Good : A → Type κ)
    → ((x : A) → (bad x ≡ false) ↔ Good x)
    → (xs : List A) → (any bad xs ≡ false) ↔ All Good xs
unfolding any
none_bad_iff bad Good f [] = (λ _. tt, λ _. refl)
none_bad_iff bad Good f (x ∷ xs) = (
  (λ h. ((f x).0 (ground arith), (none_bad_iff bad Good f xs).0 (ground arith))),
  (λ h. ground (arith, (f x).1 (h.0), (none_bad_iff bad Good f xs).1 (h.1))),
)

bad_method_iff : (m : MethodDescriptor) → (bad_method m ≡ false) ↔ IsName m.name
unfolding bad_method
bad_method_iff m = ground (arith, valid-IsName m.name)

IsHint-iff : (n : ℕ) → (valid_property_hint n ≡ true) ↔ IsHint n
unfolding valid_property_hint
IsHint-iff n = ground arith

bad_property_iff : (p : PropertyDescriptor) → (bad_property p ≡ false) ↔ IsProperty p
unfolding bad_property valid_value_type
bad_property_iff p = ground (
  arith,
  valid-IsName p.name,
  valid-IsText p.hint_string,
  valid-IsText p.class_name,
  IsHint-iff p.hint,
  valid-IsText p.default_value.payload.string,
)

bad_entry_iff : (e : InspectorEntry) → (bad_entry e ≡ false) ↔ IsEntry e
unfolding bad_entry
bad_entry_iff e = ground (arith, valid-IsText e.name, valid-IsText e.prefix)

bad_argument_iff : (a : SignalArgument) → (bad_argument a ≡ false) ↔ IsArgument a
unfolding bad_argument valid_value_type
bad_argument_iff a = ground (arith, valid-IsName a.name)

bad_signal_iff :
    (s : SignalDescriptor)
    → (bad_signal s ≡ false) ↔ (
        IsName s.name
        × (length s.arguments.items ≤ 65536)
        × (0 < length s.arguments.items → s.arguments.null ≡ false))
unfolding bad_signal
bad_signal_iff s = ground (arith, valid-IsName s.name)

signals_iff : (ss : List SignalDescriptor) → (validate_signals ss ≡ []) ↔ All IsSignal ss
unfolding validate_signals
signals_iff [] = (λ _. tt, λ _. refl)
signals_iff (s ∷ ss) = ground (
  arith,
  bad_signal_iff s,
  none_bad_iff bad_argument IsArgument bad_argument_iff s.arguments.items,
  signals_iff ss,
)

limits_iff : (d : ScriptDescriptor) → (exceeds_limits d ≡ false) ↔ AreFew d
unfolding exceeds_limits
limits_iff d = ground arith

-- A descriptor passes exactly if its base class and the names of its methods, properties, signals
-- and signal arguments are texts of 1 to 1,048,576 bytes, its other texts are no longer, none of
-- these texts stands behind a null pointer unless it is empty, no array has more than 65,536
-- elements, and the types of values and the property hints are known ones.
pub validate_descriptor_iff : (d : ScriptDescriptor) → (validate_descriptor d ≡ []) ↔ IsSafe d
unfolding validate_descriptor
validate_descriptor_iff d = ground (
  arith,
  valid-IsName d.base_class,
  limits_iff d,
  none_bad_iff bad_method (λ m. IsName m.name) bad_method_iff d.methods.items,
  none_bad_iff bad_property IsProperty bad_property_iff d.properties.items,
  none_bad_iff bad_entry IsEntry bad_entry_iff d.inspector_entries.items,
  signals_iff d.signals.items,
)
