-- ===== src/Compiled/Load/Layout.antt =====
-- The Inspector layout of a module that `GzCompiledModule::load` of src/gz_compiled_module.cpp
-- returns.
use gzscript.Base.{
  subst, ℕ, ◌≡◌, refl, sym, ◌+◌, ◌≤◌, ◌<◌, suc, zero, Bool, true, false, ◌&&◌, ◌==◌, ltb,
  if◌then◌else◌, List, [], ◌∷◌, Bytes, length, replicate, get_elem?, set, Option, some, arith,
  Bool-cases, inl, inr, map, All, is_none,
}
use gzscript.Base.Sort.{count}
use gzscript.Compiled.Abi.{Counted, ScriptDescriptor, InspectorEntry}
use gzscript.Compiled.Engine.{Engine}
use gzscript.Compiled.Load.{
  Library, Module, layout, check_entries, omits_property, is_listed, is_incomplete,
  inspector_property_info, load,
}
use gzscript.Compiled.Load.Stages.{Loaded, load-Loaded}
use gzscript.Compiled.Load.Names.{Loaded-descriptor}
use gzscript.Compiled.Validate.Accepts.{IsSafe, validate_descriptor_iff}

-- The entry shows the property of an index.
abbrev pub shows : ℕ → InspectorEntry → Bool
shows i entry = (entry.kind == 0) && (entry.property_index == i)

abbrev bit : Bool → ℕ
bit b = if b then 1 else 0

length-set : (l : List Bool) (j : ℕ) (v : Bool) → length (set l j v) ≡ length l
length-set [] j v = refl
length-set (x ∷ l) zero v = refl
length-set (x ∷ l) (suc j) v = omega (arith, length-set l j v)

get_elem?-set :
    (l : List Bool) (j i : ℕ)
    → j < length l
    → is_listed (get_elem? (set l j true) i) ≡ (if j == i then true else is_listed (get_elem? l i))
get_elem?-set [] j i h = absurd (omega (arith, h))
get_elem?-set (x ∷ l) zero zero h = refl
get_elem?-set (x ∷ l) zero (suc i) h = ground arith
get_elem?-set (x ∷ l) (suc j) zero h = ground arith
get_elem?-set (x ∷ l) (suc j) (suc i) h = ground (arith, get_elem?-set l j i (omega (arith, h)))

-- What the loop marks is what the entries show; it marks nothing twice, and nothing outside.
checked_entries :
    (n i : ℕ) (es : List InspectorEntry) (l l' : List Bool)
    → check_entries n es l ≡ layout l'
    → length l ≡ n
    → (length l' ≡ n)
      × (bit (is_listed (get_elem? l' i)) ≡ bit (is_listed (get_elem? l i)) + count (shows i) es)
unfolding check_entries count
checked_entries n i [] l l' h e = ground (arith, h)
checked_entries n i (entry ∷ es) l l' h e = ground (
  arith,
  checked_entries n i es l l',
  checked_entries n i es (set l entry.property_index true) l',
  length-set l entry.property_index true,
  get_elem?-set l entry.property_index i,
)

-- All listed: every index in range is.
listed_within :
    (l : List Bool) (i : ℕ)
    → omits_property l ≡ false
    → is_listed (get_elem? l i) ≡ ltb i (length l)
unfolding omits_property
listed_within [] i h = ground arith
listed_within (x ∷ l) zero h = ground arith
listed_within (x ∷ l) (suc i) h = ground (arith, listed_within l i)

none_listed : (n i : ℕ) → is_listed (get_elem? (replicate n false) i) ≡ false
none_listed zero i = refl
none_listed (suc n) zero = refl
none_listed (suc n) (suc i) = none_listed n i

length-replicate : (n : ℕ) (b : Bool) → length (replicate n b) ≡ n
length-replicate zero b = refl
length-replicate (suc n) b = omega (arith, length-replicate n b)

-- A property that an entry shows is there.
entry_within :
    (n : ℕ) (es : List InspectorEntry) (l l' : List Bool)
    → check_entries n es l ≡ layout l'
    → All (λ (e : InspectorEntry). (e.kind ≤ 3) × (e.kind ≡ 0 → e.property_index < n)) es
unfolding check_entries
entry_within n [] l l' h = tt
entry_within n (entry ∷ es) l l' h =
    ground (arith, entry_within n es l l', entry_within n es (set l entry.property_index true) l')

get_elem?-within :
    {A : Type 0} → (xs : List A) (i : ℕ) → i < length xs → (a : A) × (get_elem? xs i ≡ some a)
get_elem?-within [] i h = absurd (omega (arith, h))
get_elem?-within (x ∷ xs) zero h = (x, refl)
get_elem?-within (x ∷ xs) (suc i) h = get_elem?-within xs i (omega (arith, h))

known_kinds :
    (n : ℕ) (es : List InspectorEntry)
    → All (λ (e : InspectorEntry). (e.kind ≤ 3) × (e.kind ≡ 0 → e.property_index < n)) es
    → All (λ (e : InspectorEntry). e.kind ≤ 3) es
known_kinds n [] h = tt
known_kinds n (e ∷ es) h = (h.0.0, known_kinds n es h.1)

-- An array is there, unless it is empty.
abbrev pub IsThere : {A : Type 0} → Counted A → Type 0
IsThere xs = 0 < length xs.items → xs.null ≡ false

-- The functions are there, and so are the arrays.
pub record IsComplete (d : ScriptDescriptor) : Type 0 where
  pub create_instance : d.create_instance ≡ true
  pub destroy_instance : d.destroy_instance ≡ true
  pub call_method : d.call_method ≡ true
  pub get_property : d.get_property ≡ true
  pub set_property : d.set_property ≡ true
  pub notification : d.notification ≡ true
  pub methods : IsThere d.methods
  pub properties : IsThere d.properties
  pub inspector_entries : IsThere d.inspector_entries
  pub signals : IsThere d.signals

incomplete-IsComplete : (d : ScriptDescriptor) → is_incomplete d ≡ false → IsComplete d
unfolding is_incomplete
incomplete-IsComplete d h = ground (arith, h)

module _ (engine : Engine) where
  info_within :
      (d : ScriptDescriptor) (e : InspectorEntry)
      → (e.kind ≤ 3) × (e.kind ≡ 0 → e.property_index < length d.properties.items)
      → is_none (inspector_property_info engine d e) ≡ false
  unfolding inspector_property_info
  info_within d e h = elim (Bool-cases (e.kind == 0)) [
    | inr other ↦ rw other refl
    | inl same ↦
        let (p, found) =
          get_elem?-within d.properties.items e.property_index (h.1 (ground (arith, same))) in
        rw (same, found) refl
  ]

  info-All :
      (d : ScriptDescriptor) (es : List InspectorEntry)
      → All
          (λ (e : InspectorEntry).
            (e.kind ≤ 3) × (e.kind ≡ 0 → e.property_index < length d.properties.items))
          es
      → All (λ o. is_none o ≡ false) (map (inspector_property_info engine d) es)
  info-All d [] h = tt
  info-All d (e ∷ es) h = (info_within d e h.0, info-All d es h.1)

  -- A module is only returned with a descriptor that has all six functions, in which no array that
  -- is not empty stands behind a null pointer, and whose texts, counts, types and hints are those
  -- that `validate_descriptor` allows; in its Inspector layout exactly one entry shows each property,
  -- none shows a property that does not exist, and the other entries are categories, groups and
  -- subgroups; and all that is kept for the Inspector was read within the array of properties.
  pub load-layout :
      (path message : Bytes) (library : Option Library) (m : Module engine)
      → (load engine path message library).loaded_module ≡ some m
      → (d : ScriptDescriptor) × (m.descriptor ≡ some d)
        × IsComplete d
        × IsSafe d
        × ((i : ℕ)
            → count (shows i) d.inspector_entries.items
              ≡ (if ltb i (length d.properties.items) then 1 else 0))
        × All (λ (e : InspectorEntry). e.kind ≤ 3) d.inspector_entries.items
        × All (λ o. is_none o ≡ false) m.inspector_properties
  load-layout path message library m h =
      let l : Loaded engine path m = load-Loaded engine path m message library h in
      let n = length l.d.properties.items in
      let once = λ (i : ℕ).
        checked_entries n i l.d.inspector_entries.items (replicate n false) l.listed l.checked
          (length-replicate n false) in
      let within =
        entry_within n l.d.inspector_entries.items (replicate n false) l.listed l.checked in
      (
        l.d,
        Loaded-descriptor engine path m l,
        incomplete-IsComplete l.d l.complete,
        (validate_descriptor_iff l.d).0 l.safe,
        λ i. ground (arith, once i, none_listed n i, listed_within l.listed i l.all_listed),
        known_kinds n l.d.inspector_entries.items within,
        subst (λ (x : Module engine). All (λ o. is_none o ≡ false) x.inspector_properties)
            (sym l.result) (info-All l.d l.d.inspector_entries.items within),
      )
