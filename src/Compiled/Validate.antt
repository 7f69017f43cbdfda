-- ===== src/Compiled/Validate.antt =====
-- The checks of src/gz_compiled_module.cpp on the descriptor that a script library hands over:
-- `validate_descriptor` and its helpers. An empty text means that no error was found.
pub mod Accepts
use gzscript.Base.{
  ℕ, ◌==◌, ◌*◌, ltb, leb, if◌then◌else◌, Bool, true, false, not, ◌&&◌, ◌||◌, List, [], ◌∷◌, Bytes,
  codes, is_empty, is_none, length,
}
use gzscript.Base.Sort.{any}
use gzscript.Compiled.Abi.{
  StringView, Counted, MethodDescriptor, PropertyDescriptor, InspectorEntry, SignalArgument,
  SignalDescriptor, ScriptDescriptor,
}

abbrev pub descriptor_count_limit : ℕ
descriptor_count_limit = 65536

abbrev pub descriptor_string_limit : ℕ
descriptor_string_limit = 1024 * 1024

unfoldable pub valid_view : StringView → Bool → Bool
valid_view view allow_empty =
    if view.len == 0
    then allow_empty
    else not (is_none view.ptr) && leb view.len descriptor_string_limit

unfoldable pub valid_value_type : ℕ → Bool
valid_value_type type = leb type 11

unfoldable pub valid_property_hint : ℕ → Bool
valid_property_hint hint =
    (hint == 0) || ((hint == 1) || ((hint == 2) || ((hint == 13) || (hint == 18))))

-- The conditions of the loops.
unfoldable pub bad_method : MethodDescriptor → Bool
unfolding valid_view
bad_method method = not (valid_view method.name false)

unfoldable pub bad_property : PropertyDescriptor → Bool
unfolding valid_view valid_value_type valid_property_hint
bad_property property =
    not (valid_view property.name false)
    || (not (valid_view property.hint_string true)
        || (not (valid_view property.class_name true)
            || (not (valid_value_type property.type)
                || (not (valid_property_hint property.hint)
                    || (not (valid_value_type property.default_value.type)
                        || ((property.default_value.type == 4)
                            && not (valid_view property.default_value.payload.string true)))))))

unfoldable pub bad_entry : InspectorEntry → Bool
unfolding valid_view
bad_entry entry = not (valid_view entry.name true) || not (valid_view entry.prefix true)

unfoldable pub bad_signal : SignalDescriptor → Bool
unfolding valid_view
bad_signal signal =
    not (valid_view signal.name false)
    || (ltb descriptor_count_limit (length signal.arguments.items)
        || (ltb 0 (length signal.arguments.items) && signal.arguments.null))

unfoldable pub bad_argument : SignalArgument → Bool
unfolding valid_view valid_value_type
bad_argument argument = not (valid_view argument.name false) || not (valid_value_type argument.type)

unfoldable pub exceeds_limits : ScriptDescriptor → Bool
exceeds_limits d =
    ltb descriptor_count_limit (length d.methods.items)
    || (ltb descriptor_count_limit (length d.properties.items)
        || (ltb descriptor_count_limit (length d.inspector_entries.items)
            || ltb descriptor_count_limit (length d.signals.items)))

-- The loop over the signals.
unfoldable pub validate_signals : List SignalDescriptor → Bytes
unfolding any bad_signal bad_argument
validate_signals [] = []
validate_signals (signal ∷ signals) =
    let rest = validate_signals signals in
    if bad_signal signal
    then codes "Compiled Zig script has invalid signal metadata"
    else if any bad_argument signal.arguments.items
    then codes "Compiled Zig script has invalid signal argument metadata"
    else rest

unfoldable pub validate_descriptor : ScriptDescriptor → Bytes
unfolding valid_view exceeds_limits any bad_method bad_property bad_entry validate_signals
validate_descriptor d =
    if not (valid_view d.base_class false)
    then codes "Compiled Zig script has an invalid base class"
    else if exceeds_limits d
    then codes "Compiled Zig script descriptor exceeds metadata limits"
    else if any bad_method d.methods.items
    then codes "Compiled Zig script has invalid method metadata"
    else if any bad_property d.properties.items
    then codes "Compiled Zig script has invalid property metadata"
    else if any bad_entry d.inspector_entries.items
    then codes "Compiled Zig script has invalid Inspector metadata"
    else validate_signals d.signals.items
