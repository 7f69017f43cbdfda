-- ===== src/Compiled/Calls.antt =====
-- The calls that a compiled script makes into the engine, in src/gz_compiled_module.cpp:
-- `object_call`, `object_emit_signal` and the cache of names, which is the state. What the engine
-- answers to a call is a parameter. The buffers on the stack and on the heap hold the same list.
pub mod Answers
use gzscript.Base.{
  ℕ, ◌≡◌, refl, ap, sym, ◌∙◌, ◌↔◌, ◌⊎◌, inl, inr, Bool, true, false, not, ◌==◌, ◌&&◌, ◌||◌, ltb,
  if◌then◌else◌, List, [], ◌∷◌, ◌++◌, Bytes, ◌===◌, ===_iff, Option, none, some, arith, is_none,
  length, Bool-cases, Option-cases, map, All,
}
use gzscript.Base.Assoc.{lookup, update, lookup-update}
use gzscript.Compiled.Abi.{StringView, Value, Counted}
use gzscript.Compiled.Engine.{Engine, Variant}
use gzscript.Compiled.Codec.{viewed, from_view, to_variant, from_variant}

pub data Status : Type 0 where
  ok invalid_argument method_not_found type_mismatch script_error : Status

-- `GDExtensionCallError`
pub data CallError : Type 0 where
  call_ok error_invalid_method error_invalid_argument error_too_many_arguments : CallError
  error_too_few_arguments error_instance_is_null error_other : CallError

-- What a call comes to: its status, what it leaves in `*result`, the call made of the engine,
-- and the cache after it.
pub record Called (engine : Engine) : Type 0 where
  pub status : Status
  pub result : Option Value
  pub made : Option (engine.Object × (Bytes × List (Variant engine)))
  pub cache : List (Bytes × Bytes)

module _ (engine : Engine) where
  unfoldable pub get_cached_name : StringView → List (Bytes × Bytes) → Bytes × List (Bytes × Bytes)
  unfolding from_view
  get_cached_name view cache = elim (lookup (viewed view) cache) [
    | some name ↦ (name, cache)
    | none ↦ (from_view engine view, update (viewed view) (from_view engine view) cache)
  ]

  abbrev pub prepend :
      Variant engine × Bool → Option (List (Variant engine)) → Option (List (Variant engine))
  prepend (v, true) (some vs) = some (v ∷ vs)
  prepend (v, true) none = none
  prepend (v, false) vs = none

  -- The loop over the arguments; `none` if one is invalid.
  unfoldable pub convert_all : List Value → Option (List (Variant engine))
  unfolding to_variant
  convert_all [] = some []
  convert_all (value ∷ values) = prepend (to_variant engine value) (convert_all values)

  unfoldable pub call_status : CallError → Bool → Status
  call_status call_ok valid = if valid then ok else type_mismatch
  call_status error_invalid_method valid = method_not_found
  call_status error_invalid_argument valid = type_mismatch
  call_status error_too_many_arguments valid = invalid_argument
  call_status error_too_few_arguments valid = invalid_argument
  call_status error_instance_is_null valid = invalid_argument
  call_status error_other valid = script_error

  abbrev pub call_result : CallError → Value → Option Value
  call_result call_ok value = some value
  call_result _ value = none

  -- A call that ends before the engine is asked.
  abbrev pub stopped : Status → List (Bytes × Bytes) → Called engine
  stopped status cache = record { status = status; result = none; made = none; cache = cache }

  abbrev pub bad_arguments : Counted Value → Bool
  bad_arguments arguments = ltb 0 (length arguments.items) && arguments.null

  module _
      (callp : engine.Object → Bytes → List (Variant engine) → CallError × Variant engine) where
    -- `object_call` with the receiver and the arguments at hand.
    abbrev pub perform :
        engine.Object → StringView → List (Variant engine) → List (Bytes × Bytes) → Called engine
    perform o method values cache =
        let (name, cache') = get_cached_name method cache in
        let (error, answer) = callp o name values in
        let (value, valid) = from_variant engine answer true in
        record {
          status = call_status error valid;
          result = call_result error value;
          made = some (o, (name, values));
          cache = cache';
        }

    abbrev pub call_with :
        Option engine.Object
        → Option (List (Variant engine))
        → StringView
        → Counted Value
        → Bool
        → List (Bytes × Bytes)
        → Called engine
    call_with none values method arguments has_result cache = stopped invalid_argument cache
    call_with (some o) none method arguments has_result cache =
        if not has_result || bad_arguments arguments
        then stopped invalid_argument cache
        else stopped type_mismatch cache
    call_with (some o) (some values) method arguments has_result cache =
        if not has_result || bad_arguments arguments
        then stopped invalid_argument cache
        else perform o method values cache

    -- `has_result` says that the pointer to the result is not null.
    unfoldable pub object_call :
        ℕ → StringView → Counted Value → Bool → List (Bytes × Bytes) → Called engine
    unfolding get_cached_name convert_all from_variant call_status
    object_call object_id method arguments has_result cache =
        call_with (engine.get_instance object_id) (convert_all arguments.items) method arguments
          has_result cache

  module _ (has_bind : Bool)
      (emit : engine.Object → Bytes → List (Variant engine) → CallError × ℕ) where
    -- The signal is emitted, unless the engine has no method for it.
    abbrev pub emit_bound :
        engine.Object → Bytes → List (Variant engine) → List (Bytes × Bytes) → Called engine
    emit_bound o name values cache =
        if not has_bind then stopped method_not_found cache else record {
          status = elim ((emit o name values).0) [
            | call_ok ↦ if (emit o name values).1 == 0 then ok else script_error
            | _ ↦ script_error
          ];
          result = none;
          made = some (o, (name, values));
          cache = cache;
        }

    abbrev pub emit_with :
        Option engine.Object
        → Option (List (Variant engine))
        → StringView
        → Counted Value
        → List (Bytes × Bytes)
        → Called engine
    emit_with none values signal arguments cache = stopped invalid_argument cache
    emit_with (some o) none signal arguments cache =
        if bad_arguments arguments
        then stopped invalid_argument cache
        else stopped type_mismatch (get_cached_name signal cache).1
    emit_with (some o) (some values) signal arguments cache =
        if bad_arguments arguments
        then stopped invalid_argument cache
        else emit_bound o (get_cached_name signal cache).0 values (get_cached_name signal cache).1

    unfoldable pub object_emit_signal :
        ℕ → StringView → Counted Value → List (Bytes × Bytes) → Called engine
    unfolding get_cached_name convert_all
    object_emit_signal object_id signal arguments cache =
        emit_with (engine.get_instance object_id) (convert_all arguments.items) signal arguments
          cache
