-- ===== src/Diagnostics/Store/Snapshots.antt =====
-- What the snapshots of src/diagnostics/gz_diagnostic_store.cpp show.
use gzscript.Base.{
  ◌≡◌, refl, ap, ◌∙◌, inl, inr, Bool, true, false, not, ◌&&◌, ◌||◌, List, [], ◌∷◌, ◌++◌, Bytes,
  arith, Option-cases, keep,
}
use gzscript.Base.Assoc.{lookup}
use gzscript.Base.Order.{Order}
use gzscript.Base.Sort.{
  IsSorted, any, any-append, any-of_count-eq, stable_sort, stable_sort-IsSorted, count-stable_sort,
  keep-stable_sort,
}
use gzscript.Diagnostics.Model.{
  Diagnostic, Snapshot, zls, zig_compiler, gz_script, diagnostic_less, snapshot_valid, is_error,
  all_without_error,
}
use gzscript.Diagnostics.Model.Ordering.{
  diagnostic_less-IsWeakOrder, diagnostic_less-eq-lex, Key, key, key_order,
}
use gzscript.Diagnostics.Path.{normalize_document_path}
use gzscript.Diagnostics.Store.Defs.{Store, snapshot, snapshot_source}

-- The three views of one source, one after the other.
abbrev pub by_sources : Bytes → Store → List Diagnostic
by_sources path s =
    (snapshot_source path zls s).diagnostics
    ++ ((snapshot_source path zig_compiler s).diagnostics
        ++ (snapshot_source path gz_script s).diagnostics)

snapshot-stable_sort :
    (path : Bytes) (s : Store)
    → (snapshot path s).diagnostics ≡ stable_sort diagnostic_less (by_sources path s)
snapshot-stable_sort path s =
    elim (Option-cases (lookup (normalize_document_path path) s.documents)) [
      | inl e ↦ unfold snapshot snapshot_source stable_sort in rw (e, snapshot, snapshot_source)
      | inr (state, e) ↦ unfold snapshot snapshot_source in rw (e, snapshot, snapshot_source)
    ]

-- A combined snapshot is sorted, whatever the sources hold.
pub snapshot-IsSorted :
    (path : Bytes) (s : Store) → IsSorted diagnostic_less (snapshot path s).diagnostics
snapshot-IsSorted path s =
    rw (snapshot-stable_sort path s)
      (stable_sort-IsSorted diagnostic_less diagnostic_less-IsWeakOrder (by_sources path s))

-- A combined snapshot holds what the snapshots of the three sources hold, and nothing else: a
-- test holds of one of its diagnostics exactly if it holds of one of theirs.
pub any-snapshot :
    (p : Diagnostic → Bool) (path : Bytes) (s : Store)
    → any p (snapshot path s).diagnostics ≡ (
        any p (snapshot_source path zls s).diagnostics
        || (any p (snapshot_source path zig_compiler s).diagnostics
            || any p (snapshot_source path gz_script s).diagnostics))
any-snapshot p path s =
    ap (any p) (snapshot-stable_sort path s)
    ∙ (any-of_count-eq p _ _ (count-stable_sort diagnostic_less p (by_sources path s))
        ∙ (any-append p (snapshot_source path zls s).diagnostics _
            ∙ ap (λ b. any p (snapshot_source path zls s).diagnostics || b)
                (any-append p (snapshot_source path zig_compiler s).diagnostics
                  (snapshot_source path gz_script s).diagnostics)))

abbrev pub has_key : Key → Diagnostic → Bool
has_key k d = key_order.eq (key d) k

tied :
    (k : Key) (a b : Diagnostic)
    → has_key k a ≡ true
    → has_key k b ≡ true
    → diagnostic_less a b ≡ false
tied k a b h g = diagnostic_less-eq-lex a b ∙ less_self key_order (key a) (key b) k h g
  where
    less_self : (o : Order Key) (x y z : Key) → o.eq x z ≡ true → o.eq y z ≡ true → o.lt x y ≡ false
    less_self o x y z p q = rw ((o.eq_iff x z).0 p, (o.eq_iff y z).0 q) (o.irrefl z)

-- Diagnostics that the order cannot tell apart stand in the order of their sources.
pub keep-snapshot :
    (k : Key) (path : Bytes) (s : Store)
    → keep (has_key k) (snapshot path s).diagnostics ≡ keep (has_key k) (by_sources path s)
keep-snapshot k path s =
    ap (keep (has_key k)) (snapshot-stable_sort path s)
    ∙ keep-stable_sort diagnostic_less (has_key k) (tied k) (by_sources path s)

valid-any : (ds : List Diagnostic) → all_without_error ds ≡ not (any (λ d. is_error d.severity) ds)
unfolding all_without_error any
valid-any [] = refl
valid-any (d ∷ ds) = ground (arith, valid-any ds)

snapshot_valid-any :
    (s : Snapshot) → snapshot_valid s ≡ not (any (λ d. is_error d.severity) s.diagnostics)
snapshot_valid-any s = unfold snapshot_valid in valid-any s.diagnostics

-- A document is valid exactly if each of its sources is.
pub snapshot_valid-snapshot :
    (path : Bytes) (s : Store)
    → snapshot_valid (snapshot path s) ≡ (
        snapshot_valid (snapshot_source path zls s)
        && (snapshot_valid (snapshot_source path zig_compiler s)
            && snapshot_valid (snapshot_source path gz_script s)))
snapshot_valid-snapshot path s =
    rw
      (
        snapshot_valid-any (snapshot path s),
        snapshot_valid-any (snapshot_source path zls s),
        snapshot_valid-any (snapshot_source path zig_compiler s),
        snapshot_valid-any (snapshot_source path gz_script s),
        any-snapshot (λ d. is_error d.severity) path s,
      )
      (ground arith)
