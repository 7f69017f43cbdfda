-- ===== src/Diagnostics/Store/ClearAll.antt =====
-- `clear_all_from_source` of src/diagnostics/gz_diagnostic_store.cpp: what its loop over the
-- documents does to them, and that it keeps the invariant of the store.
use gzscript.Base.{
  ◌≡◌, refl, sym, ap, subst, ◌∙◌, inl, inr, Bool, true, false, List, [], ◌∷◌, Bytes, ◌===◌,
  ===_refl, Option, none, some, arith, Bool-cases,
}
use gzscript.Base.Assoc.{contains, lookup, keys}
use gzscript.Diagnostics.Model.{Source}
use gzscript.Diagnostics.Store.Defs.{
  DocumentState, Store, clear_all_loop, clear_all_from_source, has_entries, mark_if, clear_if,
}
use gzscript.Diagnostics.Store.Invariant.{
  HasBatches, IsQueue, IsConsistent, IsBatch-nil, set_source-HasBatches, documents-mark_changed,
  mark_changed-IsQueue,
}

-- A document after the loop.
abbrev pub clear_from : Source → Option DocumentState → Option DocumentState
clear_from source none = none
clear_from source (some state) = some (clear_if (has_entries source state) source state)

module _ (source : Source) where
  keys-clear_all_loop :
      (docs : List (Bytes × DocumentState)) (s : Store)
      → keys (clear_all_loop source docs s).0 ≡ keys docs
  unfolding keys clear_all_loop
  keys-clear_all_loop [] s = refl
  keys-clear_all_loop ((key, state) ∷ rest) s =
      ap (λ ks. key ∷ ks) (keys-clear_all_loop rest (mark_if (has_entries source state) key s))

  documents-mark_if :
      (b : Bool) (key : Bytes) (s : Store) → (mark_if b key s).documents ≡ s.documents
  documents-mark_if true key s = documents-mark_changed key s
  documents-mark_if false key s = refl

  pub lookup-clear_all_loop :
      (k : Bytes) (docs : List (Bytes × DocumentState)) (s : Store)
      → lookup k (clear_all_loop source docs s).0 ≡ clear_from source (lookup k docs)
  unfolding lookup clear_all_loop
  lookup-clear_all_loop k [] s = refl
  lookup-clear_all_loop k ((key, state) ∷ rest) s = elim (Bool-cases (key === k)) [
    | inl e ↦ rw e
    | inr e ↦ rw e (lookup-clear_all_loop k rest (mark_if (has_entries source state) key s))
  ]

  mark_if-IsQueue :
      (b : Bool) (key : Bytes) (s : Store)
      → contains key (keys s.documents) ≡ true
      → IsQueue s
      → IsQueue (mark_if b key s)
  mark_if-IsQueue true key s h q = mark_changed-IsQueue key s h q
  mark_if-IsQueue false key s h q = q

  clear_all_loop-IsQueue :
      (docs : List (Bytes × DocumentState)) (s : Store)
      → ((k : Bytes) → contains k (keys docs) ≡ true → contains k (keys s.documents) ≡ true)
      → IsQueue s
      → IsQueue (clear_all_loop source docs s).1
        × ((clear_all_loop source docs s).1.documents ≡ s.documents)
  unfolding clear_all_loop
  clear_all_loop-IsQueue [] s h q = (q, refl)
  clear_all_loop-IsQueue ((key, state) ∷ rest) s h q =
      let b = has_entries source state in
      let same : (mark_if b key s).documents ≡ s.documents = documents-mark_if b key s in
      let ih =
        clear_all_loop-IsQueue rest (mark_if b key s)
          (λ k g.
            subst (λ (d : List (Bytes × DocumentState)). contains k (keys d) ≡ true) (sym same)
              (h k (unfold keys contains in rw g (ground arith))))
          (mark_if-IsQueue b key s (h key (unfold keys contains in ground (arith, ===_refl key)))
            q) in
      (ih.0, ih.1 ∙ same)

  clear_if-HasBatches :
      (b : Bool) (key : Bytes) (state : DocumentState)
      → HasBatches key state.by_source
      → HasBatches key (clear_if b source state).by_source
  clear_if-HasBatches true key state h =
      set_source-HasBatches key source [] state.by_source (IsBatch-nil key) h
  clear_if-HasBatches false key state h = h

  clear_from-HasBatches :
      (key : Bytes) (o : Option DocumentState) (state : DocumentState)
      → ((old : DocumentState) → o ≡ some old → HasBatches key old.by_source)
      → clear_from source o ≡ some state
      → HasBatches key state.by_source
  clear_from-HasBatches key none state h e = absurd (cc e)
  clear_from-HasBatches key (some old) state h e =
      let p : clear_if (has_entries source old) source old ≡ state = ground (arith, e) in
      subst (λ (z : DocumentState). HasBatches key z.by_source) p
        (clear_if-HasBatches (has_entries source old) key old (h old refl))

  pub clear_all_from_source-IsConsistent :
      (s : Store) → IsConsistent s → IsConsistent (clear_all_from_source source s)
  clear_all_from_source-IsConsistent s c =
      let loop = clear_all_loop-IsQueue s.documents s (λ k g. g) c.queue in
      let q = loop.0 in
      unfold clear_all_from_source in
      record {
        distinct = rw (keys-clear_all_loop s.documents s) c.distinct;
        queue = record {
          distinct = q.distinct;
          same = q.same;
          tracked = λ k g. rw (keys-clear_all_loop s.documents s) (
              subst (λ (d : List (Bytes × DocumentState)). contains k (keys d) ≡ true) loop.1
                (q.tracked k g));
        };
        batches = λ k state e.
            clear_from-HasBatches k (lookup k s.documents) state (c.batches k)
              (sym (lookup-clear_all_loop k s.documents s) ∙ e);
      }
