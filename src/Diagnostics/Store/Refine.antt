-- ===== src/Diagnostics/Store/Refine.antt =====
-- The methods of src/diagnostics/gz_diagnostic_store.cpp do to every document what the contract of
-- `Store/Spec` says.
use gzscript.Base.{
  ◌≡◌, refl, sym, ap, subst, ◌∙◌, inl, inr, if◌then◌else◌, false, [], Bytes, ◌===◌, ===→eq, Option,
  none, some, arith, Bool-cases, Option-cases, fun_ext,
}
use gzscript.Base.Assoc.{lookup, update, lookup-update}
use gzscript.Diagnostics.Model.{Source, zls, zig_compiler, gz_script}
use gzscript.Diagnostics.Path.{normalize_document_path}
use gzscript.Diagnostics.Store.Defs.{
  DocumentState, Store, no_sources, find_source, entries, opened, open_document, advance_generation,
  close_document,
}
use gzscript.Diagnostics.Store.Spec.{
  DocumentView, map_view, to_view, view, open_view, advance_view, close_view, on_path,
}

-- The document of a key after another state is put in.
view-update :
    (key k : Bytes) (state : DocumentState) (s : Store)
    → map_view to_view (lookup k (update key state s.documents))
      ≡ (if key === k then some (to_view state) else view s k)
view-update key k state s = elim (Bool-cases (key === k)) [
  | inl e ↦ rw (lookup-update key k state s.documents, e)
  | inr e ↦ rw (lookup-update key k state s.documents, e)
]

-- Where the document is found, and its state replaced.
pub on_found :
    (path k : Bytes) (state : DocumentState) (s : Store)
    (f : Option DocumentView → Option DocumentView)
    → f (view s (normalize_document_path path)) ≡ some (to_view state)
    → map_view to_view (lookup k (update (normalize_document_path path) state s.documents))
      ≡ on_path path k (f (view s k)) (view s k)
on_found path k state s f h = elim (Bool-cases (normalize_document_path path === k)) [
  | inl e ↦
      let p : normalize_document_path path ≡ k = ===→eq _ k e in
      view-update (normalize_document_path path) k state s ∙ rw e (sym h ∙ ap (λ z. f (view s z)) p)
  | inr e ↦ view-update (normalize_document_path path) k state s ∙ rw e
]

-- Where the store is left as it is.
pub on_same :
    (path k : Bytes) (s : Store) (f : Option DocumentView → Option DocumentView)
    → view s (normalize_document_path path) ≡ f (view s (normalize_document_path path))
    → view s k ≡ on_path path k (f (view s k)) (view s k)
on_same path k s f h = elim (Bool-cases (normalize_document_path path === k)) [
  | inl e ↦ rw e (subst (λ z. view s z ≡ f (view s z)) (===→eq _ k e) h)
  | inr e ↦ rw e
]

-- The view of a document that is found, and of one that is not.
view-found :
    (key : Bytes) (s : Store) (o : Option DocumentState)
    → lookup key s.documents ≡ o
    → view s key ≡ map_view to_view o
view-found key s o e = ap (map_view to_view) e

to_view-opened : (o : Option DocumentState) → to_view (opened o) ≡ open_view (map_view to_view o)
unfolding to_view opened
to_view-opened none = λ i. record { generation = 1; closed = false; batch = none_at i }
  where
    nothing : (b : Source) → entries (find_source b no_sources) ≡ []
    nothing zls = unfold find_source in refl
    nothing zig_compiler = unfold find_source in refl
    nothing gz_script = unfold find_source in refl

    none_at : (to_view (opened none)).batch ≡ (λ _. [])
    none_at = unfold to_view opened find_source in fun_ext nothing
to_view-opened (some state) = ground arith

pub view-open :
    (path k : Bytes) (s : Store)
    → view (open_document path s).1 k ≡ on_path path k (some (open_view (view s k))) (view s k)
view-open path k s =
    unfold open_document in
    on_found path k (opened (lookup (normalize_document_path path) s.documents)) s
      (λ v. some (open_view v))
      (ap some (sym (to_view-opened (lookup (normalize_document_path path) s.documents))))

pub view-advance :
    (path k : Bytes) (s : Store)
    → view (advance_generation path s).1 k
      ≡ on_path path k (map_view advance_view (view s k)) (view s k)
view-advance path k s = elim (Option-cases (lookup (normalize_document_path path) s.documents)) [
  | inl e ↦
      unfold advance_generation in
      rw (e, advance_generation) (on_same path k s (map_view advance_view) (simp e))
  | inr (state, e) ↦
      unfold advance_generation in
      rw (e, advance_generation)
        (on_found path k _ s (map_view advance_view) (simp e (unfold to_view in refl)))
]

pub view-close :
    (path k : Bytes) (s : Store)
    → view (close_document path s).1 k ≡ on_path path k (map_view close_view (view s k)) (view s k)
view-close path k s = elim (Option-cases (lookup (normalize_document_path path) s.documents)) [
  | inl e ↦
      unfold close_document in
      rw (e, close_document) (on_same path k s (map_view close_view) (simp e))
  | inr (state, e) ↦
      unfold close_document in
      rw (e, close_document)
        (on_found path k _ s (map_view close_view) (simp e (unfold to_view in refl)))
]
