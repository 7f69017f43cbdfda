-- ===== src/Diagnostics/Store/Invariant.antt =====
-- The invariant of the store of src/diagnostics/gz_diagnostic_store.cpp, and the parts of its
-- methods that keep it.
use gzscript.Base.{
  ◌≡◌, refl, sym, ap, subst, ◌∙◌, ◌⊎◌, inl, inr, if◌then◌else◌, true, ◌||◌, List, [], Bytes, ◌===◌,
  ===→eq, some, arith, Bool-cases,
}
use gzscript.Base.Assoc.{
  contains, Distinct, lookup, update, keys, lookup-update, keys-update, update-Distinct,
  contains-snoc, snoc-Distinct,
}
use gzscript.Diagnostics.Model.{Source, Diagnostic, zls, zig_compiler, gz_script}
use gzscript.Diagnostics.Store.Batch.{IsBatch}
use gzscript.Diagnostics.Store.Defs.{
  BySource, DocumentState, Stats, Store, find_source, set_source, entries, mark_changed, no_sources,
}

-- Every batch of a document is in stored form.
pub record HasBatches (key : Bytes) (b : BySource) : Type 0 where
  pub batch : (source : Source) → IsBatch key (entries (find_source source b))

-- The queue of changed documents names tracked documents, each once, and its set is its members.
pub record IsQueue (s : Store) : Type 0 where
  pub distinct : Distinct s.changed_order
  pub same : (k : Bytes) → contains k s.changed_set ≡ contains k s.changed_order
  pub tracked :
      (k : Bytes) → contains k s.changed_order ≡ true → contains k (keys s.documents) ≡ true

pub record IsConsistent (s : Store) : Type 0 where
  pub distinct : Distinct (keys s.documents)
  pub queue : IsQueue s
  pub batches :
      (k : Bytes) (state : DocumentState)
      → lookup k s.documents ≡ some state
      → HasBatches k state.by_source

pub IsBatch-nil : (key : Bytes) → IsBatch key []
IsBatch-nil key = record { sorted = tt; no_repeat = tt; stored = tt }

pub no_sources-HasBatches : (key : Bytes) → HasBatches key no_sources
no_sources-HasBatches key = record { batch = batch }
  where
    batch : (source : Source) → IsBatch key (entries (find_source source no_sources))
    batch zls = unfold find_source in IsBatch-nil key
    batch zig_compiler = unfold find_source in IsBatch-nil key
    batch gz_script = unfold find_source in IsBatch-nil key

-- One source is replaced and the others stay.
pub find_source-set_source :
    (a b : Source) (ds : List Diagnostic) (m : BySource)
    → (find_source b (set_source a ds m) ≡ find_source b m)
      ⊎ ((a ≡ b) × (find_source b (set_source a ds m) ≡ some ds))
unfolding find_source set_source
find_source-set_source zls zls ds m = inr (refl, refl)
find_source-set_source zig_compiler zig_compiler ds m = inr (refl, refl)
find_source-set_source gz_script gz_script ds m = inr (refl, refl)
find_source-set_source zls zig_compiler ds m = inl refl
find_source-set_source zls gz_script ds m = inl refl
find_source-set_source zig_compiler zls ds m = inl refl
find_source-set_source zig_compiler gz_script ds m = inl refl
find_source-set_source gz_script zls ds m = inl refl
find_source-set_source gz_script zig_compiler ds m = inl refl

pub set_source-HasBatches :
    (key : Bytes) (a : Source) (ds : List Diagnostic) (m : BySource)
    → IsBatch key ds
    → HasBatches key m
    → HasBatches key (set_source a ds m)
set_source-HasBatches key a ds m h k = record {
  batch = λ b. elim (find_source-set_source a b ds m) [
    | inl e ↦ subst (λ o. IsBatch key (entries o)) (sym e) (k.batch b)
    | inr (_, e) ↦ subst (λ o. IsBatch key (entries o)) (sym e) h
  ];
}

module _ (key : Bytes) (s : Store) where
  -- Marking a tracked document keeps the queue.
  pub mark_changed-IsQueue :
      contains key (keys s.documents) ≡ true → IsQueue s → IsQueue (mark_changed key s)
  unfolding mark_changed
  mark_changed-IsQueue h q = elim (Bool-cases (contains key s.changed_set)) [
    | inl e ↦ rw e q
    | inr e ↦ rw e (record {
      distinct = snoc-Distinct key s.changed_order q.distinct (sym (q.same key) ∙ e);
      same = λ k. unfold contains in ground (arith, contains-snoc key k s.changed_order, q.same k);
      tracked = λ k g. tracked k (sym (contains-snoc key k s.changed_order) ∙ g);
    })
  ]
    where
      tracked :
          (k : Bytes)
          → (contains k s.changed_order || (key === k)) ≡ true
          → contains k (keys s.documents) ≡ true
      tracked k g = elim (Bool-cases (key === k)) [
        | inl f ↦ subst (λ z. contains z (keys s.documents) ≡ true) (===→eq key k f) h
        | inr f ↦ q.tracked k (ground arith)
      ]

  pub documents-mark_changed : (mark_changed key s).documents ≡ s.documents
  unfolding mark_changed
  documents-mark_changed = ground arith

  pub mark_changed-IsConsistent :
      contains key (keys s.documents) ≡ true → IsConsistent s → IsConsistent (mark_changed key s)
  mark_changed-IsConsistent h c = record {
    distinct = rw documents-mark_changed c.distinct;
    queue = mark_changed-IsQueue h c.queue;
    batches = λ k state e. c.batches k state (ap (lookup k) (sym documents-mark_changed) ∙ e);
  }

  -- A tracked document's state is replaced, or a document is added.
  pub update-IsConsistent :
      (state : DocumentState) (st : Stats)
      → HasBatches key state.by_source
      → IsConsistent s
      → IsConsistent (record s { documents = update key state s.documents; stats = st })
  update-IsConsistent state st h c = record {
    distinct = update-Distinct key state s.documents c.distinct;
    queue = record {
      distinct = c.queue.distinct;
      same = c.queue.same;
      tracked = λ k g. ground (arith, keys-update key k state s.documents, c.queue.tracked k g);
    };
    batches = λ k state' e. batches k state' (sym (lookup-update key k state s.documents) ∙ e);
  }
    where
      batches :
          (k : Bytes) (state' : DocumentState)
          → (if key === k then some state else lookup k s.documents) ≡ some state'
          → HasBatches k state'.by_source
      batches k state' e = elim (Bool-cases (key === k)) [
        | inl f ↦
            let p : state ≡ state' = ground (arith, e, f) in
            subst (λ z. HasBatches z state'.by_source) (===→eq key k f)
              (subst (λ (z : DocumentState). HasBatches key z.by_source) p h)
        | inr f ↦ c.batches k state' (ground arith)
      ]

  pub stats-IsConsistent : (st : Stats) → IsConsistent s → IsConsistent (record s { stats = st })
  stats-IsConsistent st c = record {
    distinct = c.distinct;
    queue = record { distinct = c.queue.distinct; same = c.queue.same; tracked = c.queue.tracked };
    batches = c.batches;
  }
