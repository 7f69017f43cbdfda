-- ===== src/Compiled/Calls/Answers.antt =====
-- What the calls of src/gz_compiled_module.cpp into the engine come to.
use gzscript.Base.{
  ◌≡◌, refl, ◌↔◌, inl, inr, Bool, true, false, List, [], ◌∷◌, Bytes, ===_iff, Option, none, some,
  arith, is_none, Option-cases, ◌≤◌, All,
}
use gzscript.Base.Assoc.{lookup, lookup-update}
use gzscript.Compiled.Abi.{StringView, Value, Counted}
use gzscript.Compiled.Engine.{Engine, Variant}
use gzscript.Compiled.Codec.{viewed, from_view, to_variant, from_variant}
use gzscript.Compiled.Codec.RoundTrip.{get_type-to_variant}
use gzscript.Compiled.Calls.{
  CallError, call_ok, get_cached_name, prepend, Called, convert_all, bad_arguments,
}

module _ (engine : Engine) where
  -- Every cached name is the one that its bytes make.
  abbrev pub IsCache : List (Bytes × Bytes) → Type 0
  IsCache cache = (key name : Bytes) → lookup key cache ≡ some name → name ≡ engine.utf8 key

  -- The cache cannot be seen: it gives the name that the bytes make, and stays so.
  pub get_cached_name-from_view :
      (view : StringView) (cache : List (Bytes × Bytes))
      → IsCache cache
      → ((get_cached_name engine view cache).0 ≡ from_view engine view)
        × IsCache ((get_cached_name engine view cache).1)
  unfolding get_cached_name from_view
  get_cached_name-from_view view cache h = elim (Option-cases (lookup (viewed view) cache)) [
    | inr (name, e) ↦ rw (e, get_cached_name) (h (viewed view) name e, h)
    | inl e ↦
        rw (e, get_cached_name)
          (
            refl,
            λ key name g. ground (
              arith,
              lookup-update (viewed view) key (engine.utf8 (viewed view)) cache,
              ===_iff (viewed view) key,
              h key name,
              g,
            ),
          )
  ]

  prepended :
      (x : Variant engine × Bool) (o : Option (List (Variant engine)))
      → (is_none (prepend engine x o) ≡ false) ↔ ((x.1 ≡ true) × (is_none o ≡ false))
  prepended (v, true) none = ground arith
  prepended (v, true) (some vs) = ground arith
  prepended (v, false) o = ground arith

  -- The arguments are converted exactly if the types of all are known.
  pub convert_all_iff :
      (values : List Value)
      → (is_none (convert_all engine values) ≡ false) ↔ All (λ (v : Value). v.type ≤ 11) values
  unfolding convert_all
  convert_all_iff [] = (λ _. tt, λ _. refl)
  convert_all_iff (v ∷ vs) =
      let step = prepended (to_variant engine v) (convert_all engine vs) in
      let valid = (get_type-to_variant engine v).1 in
      let rest = convert_all_iff vs in
      (
        (λ h. (valid.0 ((step.0 h).0), rest.0 ((step.0 h).1))),
        (λ h. step.1 (valid.1 (h.0), rest.1 (h.1))),
      )

  module _
      (callp : engine.Object → Bytes → List (Variant engine) → CallError × Variant engine) where
    -- The call is made of the engine exactly in these conditions, and is this call.
    abbrev pub Makes :
        Called engine
        → Option engine.Object
        → Option (List (Variant engine))
        → StringView
        → Counted Value
        → Bool
        → Type 0
    Makes called receiver converted method arguments has_result =
        (o : engine.Object) (name : Bytes) (values : List (Variant engine))
        → (called.made ≡ some (o, (name, values))) ↔ (
            (name ≡ from_view engine method)
            × (receiver ≡ some o)
            × (converted ≡ some values)
            × (has_result ≡ true)
            × (bad_arguments engine arguments ≡ false))

    -- All is well exactly then.
    abbrev pub Succeeds :
        Option engine.Object
        → Option (List (Variant engine))
        → StringView
        → Counted Value
        → Bool
        → Type 0
    Succeeds receiver converted method arguments has_result =
        (o : engine.Object) × (values : List (Variant engine)) × (receiver ≡ some o)
        × (converted ≡ some values)
        × (has_result ≡ true)
        × (bad_arguments engine arguments ≡ false)
        × ((callp o (from_view engine method) values).0 ≡ call_ok)
        × ((from_variant engine (callp o (from_view engine method) values).1 true).1 ≡ true)
