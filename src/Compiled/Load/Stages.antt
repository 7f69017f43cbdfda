-- ===== src/Compiled/Load/Stages.antt =====
-- What `GzCompiledModule::load` of src/gz_compiled_module.cpp has checked when it returns a module.
use gzscript.Base.{
  ℕ, ◌≡◌, refl, Bool, true, false, not, ◌||◌, ◌==◌, if◌then◌else◌, List, [], ◌∷◌, Bytes, is_empty,
  length, replicate, Option, none, some, map,
}
use gzscript.Compiled.Abi.{ScriptDescriptor}
use gzscript.Compiled.Engine.{Engine}
use gzscript.Compiled.Validate.{validate_descriptor}
use gzscript.Compiled.Load.{
  Library, Module, Outcome, is_incomplete, Checked, layout_error, layout, check_entries,
  omits_property, Added, duplicate, added, add_properties, inspector_property_info, refuse, finish,
  new_module, with_layout, load_descriptor, load_init, load,
}

module _ (engine : Engine) (path : Bytes) where
  -- The descriptor of a loaded module, and the results of the loops over it.
  pub record Loaded (m : Module engine) : Type 0 where
    pub d : ScriptDescriptor
    pub listed : List Bool
    pub filled : Module engine
    pub complete : is_incomplete d ≡ false
    pub safe : validate_descriptor d ≡ []
    pub checked :
        check_entries
          (length d.properties.items)
          d.inspector_entries.items
          (replicate (length d.properties.items) false)
        ≡ layout listed
    pub all_listed : omits_property listed ≡ false
    pub names : add_properties engine 0 d.properties.items (new_module engine path d) ≡ added filled
    pub result : m ≡ record filled {
      inspector_properties = map (inspector_property_info engine d) d.inspector_entries.items;
    }

  -- A module comes past a check only if the check fails to refuse it.
  passed :
      (m : Module engine) (refused : Bool) (message : Bytes) (rest : Outcome engine)
      → (if refused then refuse engine message else rest).loaded_module ≡ some m
      → (refused ≡ false) × (rest.loaded_module ≡ some m)
  unfolding refuse
  passed m true message rest h = absurd (cc h)
  passed m false message rest h = (refl, h)

  refused_none :
      {A : Type 0}
      → (m : Module engine) (message : Bytes) → (refuse engine message).loaded_module ≡ some m
      → A
  unfolding refuse
  refused_none m message h = absurd (cc h)

  finished :
      (m : Module engine) (d : ScriptDescriptor) (a : Added engine)
      → (finish engine d a).loaded_module ≡ some m
      → (filled : Module engine) × (a ≡ added filled)
        × (m ≡ record filled {
          inspector_properties = map (inspector_property_info engine d) d.inspector_entries.items;
        })
  finished m d (duplicate name x) h = absurd (cc h)
  finished m d (added x) h = (x, refl, cc h)

  laid_out :
      (m : Module engine) (d : ScriptDescriptor) (c : Checked)
      → (with_layout engine path d c).loaded_module ≡ some m
      → (listed : List Bool) × (c ≡ layout listed)
        × (omits_property listed ≡ false)
        × ((finish engine d
              (add_properties engine 0 d.properties.items (new_module engine path d))).loaded_module
            ≡ some m)
  laid_out m d (layout_error message) h = refused_none m message h
  laid_out m d (layout listed) h =
      let (all_listed, rest) = passed m (omits_property listed) _ _ h in
      (listed, refl, all_listed, rest)

  empty_text : (s : Bytes) → not (is_empty s) ≡ false → s ≡ []
  empty_text [] h = refl
  empty_text (c ∷ s) h = absurd (cc h)

  descriptor_Loaded :
      (m : Module engine) (d : ScriptDescriptor)
      → (load_descriptor engine path d).loaded_module ≡ some m
      → Loaded m
  unfolding load_descriptor
  descriptor_Loaded m d h =
      let (version, h1) = passed m (not (d.abi_version == 5) || not (d.struct_size == 136)) _ _ h in
      let (complete, h2) = passed m (is_incomplete d) _ _ h1 in
      let (safe, h3) = passed m (not (is_empty (validate_descriptor d))) _ _ h2 in
      let (listed, checked, all_listed, h4) = laid_out m d _ h3 in
      let (filled, names, result) = finished m d _ h4 in
      record {
        d = d;
        listed = listed;
        filled = filled;
        complete = complete;
        safe = empty_text _ safe;
        checked = checked;
        all_listed = all_listed;
        names = names;
        result = result;
      }

  init_Loaded :
      (m : Module engine) (init : Option (ℕ × Option ScriptDescriptor))
      → (load_init engine path init).loaded_module ≡ some m
      → Loaded m
  unfolding load_init
  init_Loaded m none h = refused_none m _ h
  init_Loaded m (some (status, none)) h = refused_none m _ h
  init_Loaded m (some (status, some d)) h =
      descriptor_Loaded m d ((passed m (not (status == 0)) _ _ h).1)

  -- A module is only returned after all checks.
  pub load-Loaded :
      (m : Module engine) (message : Bytes) (library : Option Library)
      → (load engine path message library).loaded_module ≡ some m
      → Loaded m
  unfolding load
  load-Loaded m message none h = absurd (cc h)
  load-Loaded m message (some library) h = init_Loaded m library.init h
