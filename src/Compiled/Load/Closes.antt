-- ===== src/Compiled/Load/Closes.antt =====
-- How often a library is closed that `GzCompiledModule::load` of src/gz_compiled_module.cpp opened.
use gzscript.Base.{
  ℕ, ◌≡◌, refl, ◌+◌, ◌⊎◌, inl, inr, Bool, true, false, not, if◌then◌else◌, List, [], ◌∷◌, ◌++◌,
  Bytes, codes, Option, none, some, is_none, is_empty, ◌||◌, ◌==◌, length, replicate,
}
use gzscript.Base.Assoc.{lookup}
use gzscript.Compiled.Abi.{ScriptDescriptor, PropertyDescriptor}
use gzscript.Compiled.Engine.{Engine}
use gzscript.Compiled.Validate.{validate_descriptor}
use gzscript.Compiled.Load.{
  Library, Module, Outcome, Checked, layout_error, layout, Added, duplicate, added, add_property,
  add_properties, destroy, refuse, finish, new_module, with_layout, check_entries, omits_property,
  is_incomplete, load_descriptor, load_init, load,
}
use gzscript.Compiled.Codec.{from_view}

module _ (engine : Engine) where
  -- The closes of a module that is destroyed, if there is one.
  abbrev pub closes_later : Option (Module engine) → ℕ
  closes_later none = 0
  closes_later (some m) = destroy engine m

  -- The closes up to the end of the module's life.
  abbrev pub closes_in_all : Outcome engine → ℕ
  closes_in_all o = o.closes + closes_later o.loaded_module

  abbrev handle_of : Added engine → Bool
  handle_of (duplicate name m) = m.handle
  handle_of (added m) = m.handle

  either_handle :
      (b : Bool) (name : Bytes) (m : Module engine) (a : Added engine)
      → handle_of a ≡ m.handle
      → handle_of (if b then duplicate name m else a) ≡ m.handle
  either_handle true name m a h = refl
  either_handle false name m a h = h

  handle_kept :
      (i : ℕ) (ps : List PropertyDescriptor) (m : Module engine)
      → handle_of (add_properties engine i ps m) ≡ m.handle
  unfolding add_properties add_property
  handle_kept i [] m = refl
  handle_kept i (p ∷ ps) m =
      either_handle (not (is_none (lookup (from_view engine p.name) m.property_indices))) _ m _
        (handle_kept (i + 1) ps (add_property engine i p m))

  abbrev Once : Outcome engine → Type 0
  Once o =
      (closes_in_all o ≡ 1)
      ⊎ ((closes_in_all o ≡ 2)
          × (o.loaded_module ≡ none)
          × ((name : Bytes) × (o.error
                ≡ codes "Compiled Zig script has duplicate property name: " ++ name)))

  refused-Once : (message : Bytes) → Once (refuse engine message)
  unfolding refuse
  refused-Once message = inl refl

  choose :
      (b : Bool) (message : Bytes) (o : Outcome engine)
      → Once o
      → Once (if b then refuse engine message else o)
  choose true message o h = refused-Once message
  choose false message o h = h

  finished-Once :
      (d : ScriptDescriptor) (a : Added engine) → handle_of a ≡ true → Once (finish engine d a)
  unfolding destroy
  finished-Once d (duplicate name m) h = inr (rw h refl, refl, (name, refl))
  finished-Once d (added m) h = inl (rw h refl)

  laid_out-Once :
      (path : Bytes) (d : ScriptDescriptor) (c : Checked) → Once (with_layout engine path d c)
  laid_out-Once path d (layout_error message) = refused-Once message
  laid_out-Once path d (layout listed) =
      choose (omits_property listed) _ _
        (finished-Once d _ (handle_kept 0 d.properties.items (new_module engine path d)))

  descriptor-Once : (path : Bytes) (d : ScriptDescriptor) → Once (load_descriptor engine path d)
  unfolding load_descriptor
  descriptor-Once path d =
      let checked =
        check_entries (length d.properties.items) d.inspector_entries.items
          (replicate (length d.properties.items) false) in
      let laid : Once (with_layout engine path d checked) = laid_out-Once path d checked in
      let valid : Once (
          if not (is_empty (validate_descriptor d))
          then refuse engine (validate_descriptor d)
          else with_layout engine path d checked) =
        choose (not (is_empty (validate_descriptor d))) (validate_descriptor d)
          (with_layout engine path d checked) laid in
      choose (not (d.abi_version == 5) || not (d.struct_size == 136)) _ _
        (choose (is_incomplete d) _ _ valid)

  init-Once :
      (path : Bytes) (init : Option (ℕ × Option ScriptDescriptor))
      → Once (load_init engine path init)
  unfolding load_init
  init-Once path none = refused-Once _
  init-Once path (some (status, none)) = refused-Once _
  init-Once path (some (status, some d)) = choose (not (status == 0)) _ _ (descriptor-Once path d)

  -- A library that was opened is closed exactly once, at the failure or when the module is
  -- destroyed; only where loading fails with the error for a duplicate property name may it have
  -- been closed twice.
  pub load-closes :
      (path message : Bytes) (library : Library)
      → (closes_in_all (load engine path message (some library)) ≡ 1)
        ⊎ ((closes_in_all (load engine path message (some library)) ≡ 2)
            × ((load engine path message (some library)).loaded_module ≡ none)
            × ((name : Bytes) × ((load engine path message (some library)).error
                  ≡ codes "Compiled Zig script has duplicate property name: " ++ name)))
  unfolding load
  load-closes path message library = init-Once path library.init
