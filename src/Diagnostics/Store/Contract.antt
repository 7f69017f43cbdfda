-- ===== src/Diagnostics/Store/Contract.antt =====
-- `replace`, clearing and removal in src/diagnostics/gz_diagnostic_store.cpp do to every document
-- what the contract of `Store/Spec` says, and so does every call.
use gzscript.Base.{
  ℕ, ltb, ◌≡◌, refl, sym, ap, ◌∙◌, inl, inr, if◌then◌else◌, Bool, true, false, List, [], ◌∷◌,
  is_empty, Bytes, ◌===◌, ===→eq, Option, none, some, arith, Bool-cases, Option-cases,
}
use gzscript.Base.Assoc.{lookup, lookup-erase}
use gzscript.Base.Sort.{Sorter}
use gzscript.Diagnostics.Model.{Source, Diagnostic, diagnostic_less}
use gzscript.Diagnostics.Model.Ordering.{diagnostic_equal_iff}
use gzscript.Diagnostics.Path.{normalize_document_path}
use gzscript.Diagnostics.Store.Batch.{normalize_batch}
use gzscript.Diagnostics.Store.Defs.{
  DocumentState, Store, Update, find_source, entries, mark_changed, apply_batch, replace_found,
  replace, clear_source, clear_document, clear_all_from_source, remove_document,
  take_changed_documents, batch_equal, count_ranges, has_entries, clear_if,
}
use gzscript.Diagnostics.Store.Invariant.{documents-mark_changed}
use gzscript.Diagnostics.Store.ClearAll.{clear_from, lookup-clear_all_loop}
use gzscript.Diagnostics.Store.Reach.{
  Call, open_path, advance, close, submit, clear_one, clear_path, clear_all, forget, take, step,
}
use gzscript.Diagnostics.Store.Spec.{
  DocumentView, map_view, to_view, view, put_view, clear_view, submit_view, on_path, spec,
  to_view-set_source, put_view_same, to_view-clear_sources,
}
use gzscript.Diagnostics.Store.Refine.{on_found, on_same, view-open, view-advance, view-close}

batch_equal_sound : (xs ys : List Diagnostic) → batch_equal xs ys ≡ true → xs ≡ ys
unfolding batch_equal
batch_equal_sound [] [] h = refl
batch_equal_sound [] (y ∷ ys) h = cc
batch_equal_sound (x ∷ xs) [] h = cc
batch_equal_sound (x ∷ xs) (y ∷ ys) h =
    ground (arith, diagnostic_equal_iff x y, batch_equal_sound xs ys)

-- The document of a key after a batch of its generation.
view-apply_batch :
    (path k : Bytes) (state : DocumentState) (source : Source) (batch : List Diagnostic) (s : Store)
    (f : Option DocumentView → Option DocumentView)
    → f (view s (normalize_document_path path)) ≡ some (put_view source batch (to_view state))
    → view (apply_batch (normalize_document_path path) state source batch s) k
      ≡ on_path path k (f (view s k)) (view s k)
view-apply_batch path k state source batch s f h =
    elim (Bool-cases (batch_equal (entries (find_source source state.by_source)) batch)) [
      | inl e ↦
          unfold apply_batch in
          rw (e, apply_batch)
            (on_found path k _ s f (
              h
              ∙ ap some (
                  ap (λ ds. put_view source ds (to_view state)) (sym (batch_equal_sound _ _ e))
                  ∙ sym (to_view-set_source source _ state))))
      | inr e ↦
          unfold apply_batch in
          rw (e, apply_batch, documents-mark_changed)
            (on_found path k _ s f (h ∙ ap some (sym (to_view-set_source source batch state))))
    ]

view-replace_found :
    (u : Update) (k : Bytes) (batch : List Diagnostic) (s : Store) (found : Option DocumentState)
    → lookup (normalize_document_path u.document_path) s.documents ≡ found
    → view (replace_found found (normalize_document_path u.document_path) u batch s).1 k
      ≡ on_path u.document_path k (map_view (submit_view u batch) (view s k)) (view s k)
view-replace_found u k batch s none e =
    unfold replace_found in on_same u.document_path k s (map_view (submit_view u batch)) (simp e)
view-replace_found u k batch s (some state) e =
    elim (Bool-cases (ltb u.generation state.generation)) [
      | inl f ↦
          unfold replace_found in
          rw (f, replace_found)
            (on_same u.document_path k s (map_view (submit_view u batch))
              (simp e (unfold to_view in ground arith)))
      | inr f ↦ elim (Bool-cases (ltb state.generation u.generation)) [
        | inl g ↦
            unfold replace_found in
            rw (f, g, replace_found)
              (on_same u.document_path k s (map_view (submit_view u batch))
                (simp e (unfold to_view in ground arith)))
        | inr g ↦
            unfold replace_found in
            rw (f, g, replace_found)
              (view-apply_batch u.document_path k state u.source batch s
                (map_view (submit_view u batch)) (simp e (unfold to_view in ground arith)))
      ]
    ]

on_path_at :
    (path k : Bytes) (g : Bytes → Option DocumentView) (v : Option DocumentView)
    → on_path path k (g (normalize_document_path path)) v ≡ on_path path k (g k) v
on_path_at path k g v = elim (Bool-cases (normalize_document_path path === k)) [
  | inl e ↦ rw e (ap g (===→eq _ k e))
  | inr e ↦ rw e
]

is_empty_eq : (xs : List Diagnostic) → is_empty xs ≡ true → xs ≡ []
is_empty_eq [] h = refl
is_empty_eq (x ∷ xs) h = cc

view-count_ranges : (n : ℕ) (s : Store) (k : Bytes) → view (count_ranges n s) k ≡ view s k
view-count_ranges n s k = elim (Bool-cases (ltb 0 n)) [ inl e ↦ rw e | inr e ↦ rw e ]

module _ (sorter : Sorter diagnostic_less) where
  view-replace :
      (u : Update) (k : Bytes) (s : Store)
      → view (replace sorter u s).1 k ≡ spec sorter (submit u) k (view s k)
  view-replace u k s =
      let key = normalize_document_path u.document_path in
      let n = (normalize_batch sorter key u.diagnostics).1 in
      let batch = (normalize_batch sorter key u.diagnostics).0 in
      unfold replace spec in
      view-replace_found u k batch (count_ranges n s) (lookup key (count_ranges n s).documents) refl
      ∙ (ap (λ v. on_path u.document_path k (map_view (submit_view u batch) v) v)
            (view-count_ranges n s k)
          ∙ on_path_at u.document_path k
              (λ j. map_view (submit_view u (normalize_batch sorter j u.diagnostics).0) (view s k))
              (view s k))

view-clear_source :
    (path k : Bytes) (source : Source) (s : Store)
    → view (clear_source path source s) k
      ≡ on_path path k (map_view (put_view source []) (view s k)) (view s k)
view-clear_source path k source s =
    elim (Option-cases (lookup (normalize_document_path path) s.documents)) [
      | inl e ↦
          unfold clear_source in
          rw (e, clear_source) (on_same path k s (map_view (put_view source [])) (simp e))
      | inr (state, e) ↦
          elim (Bool-cases (is_empty (entries (find_source source state.by_source)))) [
            | inl f ↦
                unfold clear_source in
                rw (e, f, clear_source)
                  (on_same path k s (map_view (put_view source []))
                    (simp e (ap some (put_view_same source [] state (is_empty_eq _ f)))))
            | inr f ↦
                unfold clear_source in
                rw (e, f, clear_source, documents-mark_changed)
                  (on_found path k _ s (map_view (put_view source []))
                    (simp e (ap some (sym (to_view-set_source source [] state)))))
          ]
    ]

documents-mark_cleared :
    (b : Bool) (key : Bytes) (s : Store)
    → (if b then mark_changed key s else s).documents ≡ s.documents
documents-mark_cleared true key s = documents-mark_changed key s
documents-mark_cleared false key s = refl

view-clear_document :
    (path k : Bytes) (s : Store)
    → view (clear_document path s) k ≡ on_path path k (map_view clear_view (view s k)) (view s k)
view-clear_document path k s =
    elim (Option-cases (lookup (normalize_document_path path) s.documents)) [
      | inl e ↦
          unfold clear_document in
          rw (e, clear_document) (on_same path k s (map_view clear_view) (simp e))
      | inr (state, e) ↦
          unfold clear_document in
          rw (e, clear_document, documents-mark_cleared)
            (on_found path k _ s (map_view clear_view)
              (simp e (ap some (sym (to_view-clear_sources state)))))
    ]

to_view-clear_if :
    (source : Source) (state : DocumentState)
    → to_view (clear_if (has_entries source state) source state)
      ≡ put_view source [] (to_view state)
to_view-clear_if source state =
    elim (Bool-cases (is_empty (entries (find_source source state.by_source)))) [
      | inl f ↦ rw f (put_view_same source [] state (is_empty_eq _ f))
      | inr f ↦ rw f (to_view-set_source source [] state)
    ]

view-clear_from :
    (source : Source) (o : Option DocumentState)
    → map_view to_view (clear_from source o) ≡ map_view (put_view source []) (map_view to_view o)
view-clear_from source none = refl
view-clear_from source (some state) = ap some (to_view-clear_if source state)

view-clear_all :
    (k : Bytes) (source : Source) (s : Store)
    → view (clear_all_from_source source s) k ≡ map_view (put_view source []) (view s k)
view-clear_all k source s =
    unfold clear_all_from_source in
    ap (map_view to_view) (lookup-clear_all_loop source k s.documents s)
    ∙ view-clear_from source (lookup k s.documents)

view-remove :
    (path k : Bytes) (s : Store) → view (remove_document path s) k ≡ on_path path k none (view s k)
view-remove path k s =
    unfold remove_document in
    rw (lookup-erase (normalize_document_path path) k s.documents)
      (elim (Bool-cases (normalize_document_path path === k)) [ inl e ↦ rw e | inr e ↦ rw e ])

-- Every call does to the document of every key what the contract says, and nothing else to it.
pub step-spec :
    (sorter : Sorter diagnostic_less) (c : Call) (s : Store) (k : Bytes)
    → view (step sorter c s) k ≡ spec sorter c k (view s k)
unfolding step spec
step-spec sorter (open_path path) s k = view-open path k s
step-spec sorter (advance path) s k = view-advance path k s
step-spec sorter (close path) s k = view-close path k s
step-spec sorter (submit u) s k = view-replace sorter u k s
step-spec sorter (clear_one path source) s k = view-clear_source path k source s
step-spec sorter (clear_path path) s k = view-clear_document path k s
step-spec sorter (clear_all source) s k = view-clear_all k source s
step-spec sorter (forget path) s k = view-remove path k s
step-spec sorter take s k = unfold take_changed_documents in refl
