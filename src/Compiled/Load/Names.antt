-- ===== src/Compiled/Load/Names.antt =====
-- The names of the properties of a module that `GzCompiledModule::load` of
-- src/gz_compiled_module.cpp returns, and `find_property`.
use gzscript.Base.{
  subst, ℕ, ◌≡◌, refl, ap, sym, ◌∙◌, ◌+◌, suc, zero, ◌↔◌, Bool, true, false, not, ◌==◌,
  if◌then◌else◌, List, [], ◌∷◌, ◌++◌, Bytes, ===_iff, length, length-append, get_elem?, Option,
  none, some, arith, map, is_none,
}
use gzscript.Base.Assoc.{lookup, update, lookup-update}
use gzscript.Compiled.Abi.{ScriptDescriptor, PropertyDescriptor}
use gzscript.Compiled.Engine.{Engine}
use gzscript.Compiled.Codec.{from_view}
use gzscript.Compiled.Load.{
  Library, Module, Added, duplicate, added, add_property, add_properties, new_module, load,
  find_property,
}
use gzscript.Compiled.Load.Stages.{Loaded, load-Loaded}

get_elem?-snoc :
    (xs : List Bytes) (x : Bytes) (i : ℕ)
    → get_elem? (xs ++ x ∷ []) i ≡ (if i == length xs then some x else get_elem? xs i)
get_elem?-snoc [] x zero = ground arith
get_elem?-snoc [] x (suc i) = ground arith
get_elem?-snoc (y ∷ xs) x zero = ground arith
get_elem?-snoc (y ∷ xs) x (suc i) = ground (arith, get_elem?-snoc xs x i)

get_elem?-length : (xs : List Bytes) → get_elem? xs (length xs) ≡ none
get_elem?-length [] = refl
get_elem?-length (x ∷ xs) = get_elem?-length xs

append_assoc_one :
    (xs : List Bytes) (x : Bytes) (ys : List Bytes) → (xs ++ x ∷ []) ++ ys ≡ xs ++ x ∷ ys
append_assoc_one [] x ys = refl
append_assoc_one (y ∷ xs) x ys = ap (λ z. y ∷ z) (append_assoc_one xs x ys)

append_nil : (xs : List Bytes) → xs ++ [] ≡ xs
append_nil [] = refl
append_nil (x ∷ xs) = ap (λ z. x ∷ z) (append_nil xs)

-- A new name at the end of both.
inverse_snoc :
    (indices : List (Bytes × ℕ)) (names : List Bytes) (new name : Bytes) (i : ℕ)
    → (lookup name indices ≡ some i) ↔ (get_elem? names i ≡ some name)
    → (lookup new indices ≡ some i) ↔ (get_elem? names i ≡ some new)
    → lookup new indices ≡ none
    → (lookup name (update new (length names) indices) ≡ some i)
      ↔ (get_elem? (names ++ new ∷ []) i ≡ some name)
inverse_snoc indices names new name i h k e =
    rw (lookup-update new name (length names) indices, get_elem?-snoc names new i)
      (ground (arith, ===_iff new name, get_elem?-length names))

module _ (engine : Engine) where
  abbrev pub name_of : PropertyDescriptor → Bytes
  name_of property = from_view engine property.name

  -- The table of indices is the inverse of the list of names.
  abbrev pub Indexed : Module engine → Type 0
  Indexed m =
      (name : Bytes) (i : ℕ)
      → (lookup name m.property_indices ≡ some i) ↔ (get_elem? m.property_names i ≡ some name)

  added_Indexed :
      (property : PropertyDescriptor) (m : Module engine)
      → Indexed m
      → lookup (name_of property) m.property_indices ≡ none
      → Indexed (add_property engine (length m.property_names) property m)
  unfolding add_property
  added_Indexed property m h g name i =
      inverse_snoc m.property_indices m.property_names (name_of property) name i (h name i)
        (h (name_of property) i) g

  not_duplicate :
      (repeated : Bool) (name : Bytes) (m m' : Module engine) (rest : Added engine)
      → (if repeated then duplicate name m else rest) ≡ added m'
      → (repeated ≡ false) × (rest ≡ added m')
  not_duplicate true name m m' rest h = absurd (cc h)
  not_duplicate false name m m' rest h = (refl, h)

  -- What the loop does to a module.
  abbrev pub Filled : List PropertyDescriptor → Module engine → Module engine → Type 0
  Filled ps m m' =
      Indexed m'
      × (m'.property_names ≡ m.property_names ++ map name_of ps)
      × (m'.descriptor ≡ m.descriptor)
      × (m'.handle ≡ m.handle)
      × (m'.path ≡ m.path)

  filled :
      (i : ℕ) (ps : List PropertyDescriptor) (m m' : Module engine)
      → add_properties engine i ps m ≡ added m'
      → length m.property_names ≡ i
      → Indexed m
      → Filled ps m m'
  unfolding add_properties
  filled i [] m m' h e g =
      let same : m ≡ m' = cc h in
      subst (Filled [] m) same (g, sym (append_nil m.property_names), refl, refl, refl)
  filled i (p ∷ ps) m m' h e g =
      let next = add_property engine i p m in
      let (fresh, rest) =
        not_duplicate (not (is_none (lookup (name_of p) m.property_indices))) (name_of p) m m'
          (add_properties engine (i + 1) ps next) h in
      let new : lookup (name_of p) m.property_indices ≡ none = ground (arith, fresh) in
      let next_Indexed : Indexed next =
        subst (λ j. Indexed (add_property engine j p m)) e (added_Indexed p m g new) in
      let longer : length next.property_names ≡ i + 1 =
        unfold add_property in omega (arith, length-append m.property_names (name_of p ∷ []), e) in
      let (inverse, names, d, handle, path) = filled (i + 1) ps next m' rest longer next_Indexed in
      (
        inverse,
        names ∙ append_assoc_one m.property_names (name_of p) (map name_of ps),
        d,
        handle,
        path,
      )

  -- A loaded module, without its Inspector properties.
  Loaded-filled :
      (path : Bytes) (m : Module engine) (l : Loaded engine path m)
      → Filled l.d.properties.items (new_module engine path l.d) l.filled
  Loaded-filled path m l =
      filled 0 l.d.properties.items (new_module engine path l.d) l.filled l.names refl
        (λ name i. unfold lookup in (λ g. absurd (cc g), λ g. absurd (cc g)))

  pub Loaded-descriptor :
      (path : Bytes) (m : Module engine) (l : Loaded engine path m) → m.descriptor ≡ some l.d
  Loaded-descriptor path m l =
      ap (λ (x : Module engine). x.descriptor) l.result ∙ (Loaded-filled path m l).2

  pub Loaded-handle : (path : Bytes) (m : Module engine) → Loaded engine path m → m.handle ≡ true
  Loaded-handle path m l =
      ap (λ (x : Module engine). x.handle) l.result ∙ (Loaded-filled path m l).3

  -- Loading finds every property under its name, and nothing else: the names are those of the
  -- descriptor, in its order, and `find_property` gives an index exactly if the property at that
  -- index has the name; hence no name stands twice.
  pub find_property-load :
      (path message : Bytes) (library : Option Library) (m : Module engine)
      → (load engine path message library).loaded_module ≡ some m
      → (d : ScriptDescriptor) × (m.descriptor ≡ some d)
        × (m.property_names ≡ map name_of d.properties.items)
        × ((name : Bytes) (i : ℕ)
            → (find_property engine name m ≡ some i) ↔ (get_elem? m.property_names i ≡ some name))
  find_property-load path message library m h =
      let l : Loaded engine path m = load-Loaded engine path m message library h in
      let (inverse, names, descriptor, handle, same) = Loaded-filled path m l in
      (
        l.d,
        Loaded-descriptor path m l,
        ap (λ (x : Module engine). x.property_names) l.result ∙ names,
        λ name i.
            unfold find_property in
            subst
              (λ (x : Module engine).
                (lookup name x.property_indices ≡ some i)
                ↔ (get_elem? x.property_names i ≡ some name))
              (sym l.result) (inverse name i),
      )
