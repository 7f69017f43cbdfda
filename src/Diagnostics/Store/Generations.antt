-- ===== src/Diagnostics/Store/Generations.antt =====
-- The generation contract of src/diagnostics/gz_diagnostic_store.hpp: which updates `replace`
-- accepts, and what becomes of the update of a producer that is late.
use gzscript.Base.{
  ℕ, ◌+◌, ◌^◌, ◌<◌, ltb, ◌≡◌, refl, ap, ◌∙◌, ◌↔◌, if◌then◌else◌, Bool, true, false, ◌||◌, List, [],
  ◌∷◌, Bytes, ◌===◌, ===_refl, Option, none, some, arith, length,
}
use gzscript.Base.Assoc.{lookup}
use gzscript.Base.Sort.{Sorter}
use gzscript.Diagnostics.Model.{Diagnostic, diagnostic_less}
use gzscript.Diagnostics.Path.{normalize_document_path}
use gzscript.Diagnostics.Store.Batch.{normalize_batch}
use gzscript.Diagnostics.Store.Defs.{
  UpdateResult, applied, stale, unknown_document, future_generation, DocumentState, Store, Update,
  replace_found, replace, count_ranges,
}
use gzscript.Diagnostics.Store.Reach.{
  Call, open_path, advance, close, submit, clear_one, clear_path, clear_all, forget, take, step,
  run,
}
use gzscript.Diagnostics.Store.Spec.{
  DocumentView, map_view, to_view, view, submit_view, spec, advance_view, open_view, put_view,
  close_view, clear_view,
}
use gzscript.Diagnostics.Store.Contract.{step-spec}

abbrev document_key : Update → Bytes
document_key u = normalize_document_path u.document_path

-- The answer to an update, by what the store shows of its document.
abbrev verdict : Update → Option DocumentView → UpdateResult
verdict u none = unknown_document
verdict u (some v) =
    if ltb u.generation v.generation
    then stale
    else if ltb v.generation u.generation
    then future_generation
    else applied

verdict_found :
    (u : Update) (batch : List Diagnostic) (s : Store) (found : Option DocumentState)
    → (replace_found found (document_key u) u batch s).0 ≡ verdict u (map_view to_view found)
verdict_found u batch s none = unfold replace_found in refl
verdict_found u batch s (some state) = unfold replace_found to_view in ground arith

documents-count_ranges : (n : ℕ) (s : Store) → (count_ranges n s).documents ≡ s.documents
documents-count_ranges n s = ground arith

pub replace-verdict :
    (sorter : Sorter diagnostic_less) (u : Update) (s : Store)
    → (replace sorter u s).0 ≡ verdict u (view s (document_key u))
replace-verdict sorter u s =
    let n = (normalize_batch sorter (document_key u) u.diagnostics).1 in
    unfold replace in
    verdict_found u _ (count_ranges n s) (lookup (document_key u) (count_ranges n s).documents)
    ∙ ap (λ d. verdict u (map_view to_view (lookup (document_key u) d)))
        (documents-count_ranges n s)

verdict-applied_iff :
    (u : Update) (o : Option DocumentView)
    → (verdict u o ≡ applied) ↔ ((v : DocumentView) × (o ≡ some v) × (v.generation ≡ u.generation))
verdict-applied_iff u none = (λ h. absurd (cc h), λ h. absurd (cc (h.1)))
verdict-applied_iff u (some v) = (λ h. (v, refl, ground (arith, h)), λ h. ground (arith, h.1, h.2))

-- An update is applied exactly if its document is tracked, at the generation of the update.
pub replace-applied_iff :
    (sorter : Sorter diagnostic_less) (u : Update) (s : Store)
    → ((replace sorter u s).0 ≡ applied) ↔ (
        (v : DocumentView) × (view s (normalize_document_path u.document_path) ≡ some v)
        × (v.generation ≡ u.generation))
replace-applied_iff sorter u s =
    rw (replace-verdict sorter u s) (verdict-applied_iff u (view s (document_key u)))

-- The calls that matter to a document's generation.
abbrev pub forgets : Bytes → Call → Bool
forgets key (forget path) = normalize_document_path path === key
forgets key _ = false

abbrev pub opens : Bytes → Call → Bool
opens key (open_path path) = normalize_document_path path === key
opens key _ = false

abbrev pub advances : Bytes → Call → Bool
advances key (advance path) = normalize_document_path path === key
advances key _ = false

-- Whether some call of a list does, and how many do.
unfoldable pub ever : (Call → Bool) → List Call → Bool
ever p [] = false
ever p (c ∷ cs) = p c || ever p cs

unfoldable pub times : (Call → Bool) → List Call → ℕ
times p [] = 0
times p (c ∷ cs) = (if p c then 1 else 0) + times p cs

-- A document that a call may replace by one of the same generation.
same_generation :
    (b : Bool) (new v : DocumentView)
    → new.generation ≡ v.generation
    → (w : DocumentView) × ((if b then some new else some v) ≡ some w)
      × (w.generation ≡ 0 + v.generation)
same_generation true new v h = (new, refl, omega arith)
same_generation false new v h = (v, refl, omega arith)

one_more :
    (b : Bool) (v : DocumentView)
    → v.generation + 1 < 2 ^ 64
    → (w : DocumentView) × ((if b then some (advance_view v) else some v) ≡ some w)
      × (w.generation ≡ (if b then 1 else 0) + v.generation)
one_more true v h = (advance_view v, refl, omega arith)
one_more false v h = (v, refl, omega arith)

module _ (sorter : Sorter diagnostic_less) (key : Bytes) where
  -- A call that does not forget a document keeps it, and counts its generation up if it advances.
  spec_generation :
      (c : Call) (v : DocumentView)
      → forgets key c ≡ false
      → 0 < v.generation
      → v.generation + 1 < 2 ^ 64
      → (w : DocumentView) × (spec sorter c key (some v) ≡ some w)
        × (w.generation ≡ (if advances key c then 1 else 0) + v.generation)
  unfolding spec
  spec_generation (open_path path) v k p b =
      same_generation (normalize_document_path path === key) (open_view (some v)) v (ground arith)
  spec_generation (advance path) v k p b = one_more (normalize_document_path path === key) v b
  spec_generation (submit u) v k p b =
      same_generation (normalize_document_path u.document_path === key)
        (submit_view u (normalize_batch sorter key u.diagnostics).0 v) v (ground arith)
  spec_generation (clear_all source) v k p b = same_generation true (put_view source [] v) v refl
  spec_generation (forget path) v k p b = rw k (v, refl, omega arith)
  spec_generation (close path) v k p b =
      same_generation (normalize_document_path path === key) (close_view v) v refl
  spec_generation (clear_one path source) v k p b =
      same_generation (normalize_document_path path === key) (put_view source [] v) v refl
  spec_generation (clear_path path) v k p b =
      same_generation (normalize_document_path path === key) (clear_view v) v refl
  spec_generation take v k p b = (v, refl, omega arith)

  -- The generation of a tracked document is the positive one that it had, plus the number of calls
  -- that advanced it, if none of the calls removes it and they are too few for 2 ^ 64 to be
  -- reached.
  pub generation_counts :
      (cs : List Call) (s : Store) (v : DocumentView)
      → view s key ≡ some v
      → ever (forgets key) cs ≡ false
      → 0 < v.generation
      → v.generation + length cs < 2 ^ 64
      → (w : DocumentView) × (view (run sorter cs s) key ≡ some w)
        × (w.generation ≡ v.generation + times (advances key) cs)
  unfolding ever times run
  generation_counts [] s v e k p b = (v, e, omega arith)
  generation_counts (c ∷ cs) s v e k p b =
      let (w, made, counted) = spec_generation c v (ground arith) p (omega arith) in
      let now : view (step sorter c s) key ≡ some w =
        step-spec sorter c s key ∙ (ap (spec sorter c key) e ∙ made) in
      let (x, seen, total) =
        generation_counts cs (step sorter c s) w now (ground arith) (omega arith)
          (ground (arith, counted)) in
      (x, seen, ground (arith, counted, total))

some_time : (p : Call → Bool) (cs : List Call) → ever p cs ≡ true → 0 < times p cs
unfolding ever times
some_time p [] h = absurd (cc h)
some_time p (c ∷ cs) h = ground (arith, some_time p cs)

-- A producer that took its positive generation from the store is too late once the document has
-- advanced, whatever else was called in between: its update is stale, provided that the document
-- was not removed meanwhile and the calls are too few for the generation to reach 2 ^ 64.
pub late_update_stale :
    (sorter : Sorter diagnostic_less) (u : Update) (cs : List Call) (s : Store) (v : DocumentView)
    → view s (normalize_document_path u.document_path) ≡ some v
    → u.generation ≡ v.generation
    → 0 < v.generation
    → ever (forgets (normalize_document_path u.document_path)) cs ≡ false
    → ever (advances (normalize_document_path u.document_path)) cs ≡ true
    → v.generation + length cs < 2 ^ 64
    → (replace sorter u (run sorter cs s)).0 ≡ stale
late_update_stale sorter u cs s v e g p k a b =
    let (w, seen, total) = generation_counts sorter (document_key u) cs s v e k p b in
    let more : 0 < times (advances (document_key u)) cs = some_time _ cs a in
    replace-verdict sorter u (run sorter cs s)
    ∙ (ap (verdict u) seen ∙ ground (arith, total, more, g))

-- Whether a call opens a document again after it was forgotten.
spec_forgotten :
    (sorter : Sorter diagnostic_less) (key : Bytes) (c : Call)
    → opens key c ≡ false
    → spec sorter c key none ≡ none
unfolding spec
spec_forgotten sorter key (open_path path) h = rw h
spec_forgotten sorter key (advance path) h = ground arith
spec_forgotten sorter key (close path) h = ground arith
spec_forgotten sorter key (submit u) h = ground arith
spec_forgotten sorter key (clear_one path source) h = ground arith
spec_forgotten sorter key (clear_path path) h = ground arith
spec_forgotten sorter key (clear_all source) h = refl
spec_forgotten sorter key (forget path) h = ground arith
spec_forgotten sorter key take h = refl

stays_forgotten :
    (sorter : Sorter diagnostic_less) (key : Bytes) (cs : List Call) (s : Store)
    → view s key ≡ none
    → ever (opens key) cs ≡ false
    → view (run sorter cs s) key ≡ none
unfolding ever run
stays_forgotten sorter key [] s e h = e
stays_forgotten sorter key (c ∷ cs) s e h =
    stays_forgotten sorter key cs (step sorter c s)
      (step-spec sorter c s key
        ∙ (ap (spec sorter c key) e ∙ spec_forgotten sorter key c (ground arith)))
      (ground arith)

spec_forget :
    (sorter : Sorter diagnostic_less) (path : Bytes) (v : Option DocumentView)
    → spec sorter (forget path) (normalize_document_path path) v ≡ none
unfolding spec
spec_forget sorter path v = rw (===_refl (normalize_document_path path))

-- A document that was removed is not brought back by updates: until it is opened again, every
-- update of it is answered with UnknownDocument.
pub removed_stays_unknown :
    (sorter : Sorter diagnostic_less) (u : Update) (cs : List Call) (s : Store)
    → ever (opens (normalize_document_path u.document_path)) cs ≡ false
    → (replace sorter u (run sorter (forget u.document_path ∷ cs) s)).0 ≡ unknown_document
removed_stays_unknown sorter u cs s h =
    let gone : view (run sorter (forget u.document_path ∷ cs) s) (document_key u) ≡ none =
      unfold run in
      stays_forgotten sorter (document_key u) cs (step sorter (forget u.document_path) s)
        (step-spec sorter (forget u.document_path) s (document_key u)
          ∙ spec_forget sorter u.document_path (view s (document_key u)))
        h in
    replace-verdict sorter u (run sorter (forget u.document_path ∷ cs) s) ∙ ap (verdict u) gone

spec_open_none :
    (sorter : Sorter diagnostic_less) (path : Bytes)
    → spec sorter (open_path path) (normalize_document_path path) none ≡ some (open_view none)
unfolding spec
spec_open_none sorter path = rw (===_refl (normalize_document_path path))

-- Removing a document and opening it again starts its generations at 1: an update of generation
-- 1 that a producer made before the removal is then applied, whatever the store was.
pub reopened_accepts_first :
    (sorter : Sorter diagnostic_less) (u : Update) (s : Store)
    → u.generation ≡ 1
    → (replace sorter u (run sorter (forget u.document_path ∷ open_path u.document_path ∷ []) s)).0
      ≡ applied
reopened_accepts_first sorter u s h =
    let calls : List Call = forget u.document_path ∷ open_path u.document_path ∷ [] in
    let opened_anew : view (run sorter calls s) (document_key u) ≡ some (open_view none) =
      unfold run in
      step-spec sorter (open_path u.document_path) (step sorter (forget u.document_path) s)
        (document_key u)
      ∙ (ap (spec sorter (open_path u.document_path) (document_key u)) (
            step-spec sorter (forget u.document_path) s (document_key u)
            ∙ spec_forget sorter u.document_path (view s (document_key u)))
          ∙ spec_open_none sorter u.document_path) in
    replace-verdict sorter u (run sorter calls s) ∙ (ap (verdict u) opened_anew ∙ ground (arith, h))
