-- ===== src/Diagnostics/Store/Spec.antt =====
-- What a client of the store (src/diagnostics/gz_diagnostic_store.hpp) can see of a document, and
-- what each call does to it: the contract that the header states, over a function from keys in
-- place of the tables. Which sources have an entry, the queue and the counters are not part of it.
use gzscript.Base.{
  ℕ, ◌==◌, add64, ◌≡◌, refl, if◌then◌else◌, Bool, true, List, [], Bytes, ◌===◌, Option, none, some,
  fun_ext, subst, Bool-cases, inl, inr, ==_iff,
}
use gzscript.Base.Sort.{Sorter}
use gzscript.Diagnostics.Model.{
  Source, Diagnostic, zls, zig_compiler, gz_script, source_value, diagnostic_less,
}
use gzscript.Diagnostics.Model.Ordering.{source_value-injective}
use gzscript.Diagnostics.Path.{normalize_document_path}
use gzscript.Diagnostics.Store.Batch.{normalize_batch}
use gzscript.Diagnostics.Store.Defs.{
  BySource, DocumentState, Store, Update, find_source, set_source, entries, clear_sources, cleared,
}
use gzscript.Diagnostics.Store.Reach.{
  Call, open_path, advance, close, submit, clear_one, clear_path, clear_all, forget, take,
}
use gzscript.Base.Assoc.{lookup}

pub record DocumentView : Type 0 where
  pub generation : ℕ
  pub closed : Bool
  pub batch : Source → List Diagnostic

abbrev pub map_view {ℓ κ} : {A : Type ℓ} {B : Type κ} → (A → B) → Option A → Option B
map_view f none = none
map_view f (some a) = some (f a)

unfoldable pub to_view : DocumentState → DocumentView
to_view state = record {
  generation = state.generation;
  closed = state.closed;
  batch = λ source. entries (find_source source state.by_source);
}

abbrev pub view : Store → Bytes → Option DocumentView
view s k = map_view to_view (lookup k s.documents)

abbrev pub open_view : Option DocumentView → DocumentView
open_view none = record { generation = 1; closed = Bool.false; batch = λ _. [] }
open_view (some v) = record v { generation = if v.generation == 0 then 1 else v.generation }

-- The diagnostics of one source.
abbrev pub put_view : Source → List Diagnostic → DocumentView → DocumentView
put_view a ds v = record v {
  batch = λ b. if source_value a == source_value b then ds else v.batch b;
}

abbrev pub advance_view : DocumentView → DocumentView
advance_view v = record v { generation = add64 v.generation 1 }

abbrev pub close_view : DocumentView → DocumentView
close_view v = record v { closed = true }

abbrev pub clear_view : DocumentView → DocumentView
clear_view v = record v { batch = λ _. [] }

-- Only a batch of the current generation has an effect.
abbrev pub submit_view : Update → List Diagnostic → DocumentView → DocumentView
submit_view u batch v = if u.generation == v.generation then put_view u.source batch v else v

abbrev pub on_path : Bytes → Bytes → Option DocumentView → Option DocumentView → Option DocumentView
on_path path k new old = if normalize_document_path path === k then new else old

module _ (sorter : Sorter diagnostic_less) where
  -- What a call does to the document of a key.
  unfoldable pub spec : Call → Bytes → Option DocumentView → Option DocumentView
  spec (open_path path) k v = on_path path k (some (open_view v)) v
  spec (advance path) k v = on_path path k (map_view advance_view v) v
  spec (close path) k v = on_path path k (map_view close_view v) v
  spec (submit u) k v =
      on_path u.document_path k
        (map_view (submit_view u (normalize_batch sorter k u.diagnostics).0) v) v
  spec (clear_one path source) k v = on_path path k (map_view (put_view source []) v) v
  spec (clear_path path) k v = on_path path k (map_view clear_view v) v
  spec (clear_all source) k v = map_view (put_view source []) v
  spec (forget path) k v = on_path path k none v
  spec take k v = v

entries-set_source :
    (a b : Source) (ds : List Diagnostic) (m : BySource)
    → entries (find_source b (set_source a ds m))
      ≡ (if source_value a == source_value b then ds else entries (find_source b m))
unfolding find_source set_source source_value
entries-set_source zls zls ds m = refl
entries-set_source zls zig_compiler ds m = refl
entries-set_source zls gz_script ds m = refl
entries-set_source zig_compiler zls ds m = refl
entries-set_source zig_compiler zig_compiler ds m = refl
entries-set_source zig_compiler gz_script ds m = refl
entries-set_source gz_script zls ds m = refl
entries-set_source gz_script zig_compiler ds m = refl
entries-set_source gz_script gz_script ds m = refl

-- Views with the same fields are equal.
DocumentView-ext :
    (v : DocumentView) (f : Source → List Diagnostic)
    → ((b : Source) → v.batch b ≡ f b)
    → v ≡ record v { batch = f }
DocumentView-ext v f h = λ i. record v { batch = fun_ext h i }

pub to_view-set_source :
    (a : Source) (ds : List Diagnostic) (state : DocumentState)
    → to_view (record state { by_source = set_source a ds state.by_source })
      ≡ put_view a ds (to_view state)
unfolding to_view
to_view-set_source a ds state =
    DocumentView-ext (to_view (record state { by_source = set_source a ds state.by_source })) _
      (λ b. entries-set_source a b ds state.by_source)

entries_same :
    (a b : Source) (ds : List Diagnostic) (m : BySource)
    → entries (find_source a m) ≡ ds
    → entries (find_source b m)
      ≡ (if source_value a == source_value b then ds else entries (find_source b m))
entries_same a b ds m h = elim (Bool-cases (source_value a == source_value b)) [
  | inl e ↦
      let p : a ≡ b = source_value-injective a b ((==_iff _ _).0 e) in
      rw e (subst (λ z. entries (find_source z m) ≡ ds) p h)
  | inr e ↦ rw e
]

-- Putting back what is there changes nothing.
pub put_view_same :
    (a : Source) (ds : List Diagnostic) (state : DocumentState)
    → entries (find_source a state.by_source) ≡ ds
    → to_view state ≡ put_view a ds (to_view state)
unfolding to_view
put_view_same a ds state h =
    DocumentView-ext (to_view state) _ (λ b. entries_same a b ds state.by_source h)

entries-cleared : (o : Option (List Diagnostic)) → entries (cleared o) ≡ []
entries-cleared none = refl
entries-cleared (some ds) = refl

entries-clear_sources : (m : BySource) (b : Source) → entries (find_source b (clear_sources m)) ≡ []
unfolding find_source
entries-clear_sources m zls = entries-cleared m.of_zls
entries-clear_sources m zig_compiler = entries-cleared m.of_zig_compiler
entries-clear_sources m gz_script = entries-cleared m.of_gz_script

pub to_view-clear_sources :
    (state : DocumentState)
    → to_view (record state { by_source = clear_sources state.by_source })
      ≡ clear_view (to_view state)
unfolding to_view
to_view-clear_sources state =
    DocumentView-ext (to_view (record state { by_source = clear_sources state.by_source })) _
      (entries-clear_sources state.by_source)
