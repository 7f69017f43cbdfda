-- ===== src/Diagnostics/Model/Ordering.antt =====
-- `==` and `gz_diagnostic_less` of src/diagnostics/gz_diagnostic.cpp: equality decides identity,
-- and the order is the lexicographic one over a key that leaves out the end of the range.
use gzscript.Base.{
  ℕ, ◌==◌, ◌≡◌, ap, ◌↔◌, true, false, Bytes, ===_iff, arith, fun_ext, ===_refl, Bool-cases, inl,
  inr,
}
use gzscript.Base.Order.{Order, lex, numbers, strings}
use gzscript.Base.Sort.{IsWeakOrder}
use gzscript.Diagnostics.Model.{
  Severity, Source, Position, Diagnostic, zls, zig_compiler, gz_script, source_value,
  severity_value, severity_rank, position_equal, position_less, diagnostic_equal, diagnostic_less,
}

pub source_value-injective : (a b : Source) → source_value a ≡ source_value b → a ≡ b
unfolding source_value
source_value-injective zls b h = ground arith
source_value-injective zig_compiler b h = ground arith
source_value-injective gz_script b h = ground arith

severity_value-injective : (a b : Severity) → severity_value a ≡ severity_value b → a ≡ b
unfolding severity_value
severity_value-injective a b h = ground arith

severity_rank-injective : (a b : Severity) → severity_rank a ≡ severity_rank b → a ≡ b
unfolding severity_rank
severity_rank-injective a b h = ground arith

position_equal_iff : (a b : Position) → (position_equal a b ≡ true) ↔ (a ≡ b)
unfolding position_equal
position_equal_iff a b = ground arith

diagnostic_equal_sound : (a b : Diagnostic) → diagnostic_equal a b ≡ true → a ≡ b
unfolding diagnostic_equal
diagnostic_equal_sound a b h = ground (
  arith,
  ===_iff a.document_path b.document_path,
  position_equal_iff a.range.start b.range.start,
  position_equal_iff a.range.end b.range.end,
  severity_value-injective a.severity b.severity,
  source_value-injective a.origin.kind b.origin.kind,
  ===_iff a.origin.name b.origin.name,
  ===_iff a.message b.message,
  ===_iff a.code b.code,
)

diagnostic_equal_refl : (a : Diagnostic) → diagnostic_equal a a ≡ true
unfolding diagnostic_equal
diagnostic_equal_refl a = simp (===_refl, equal_self, position_equal)
  where
    equal_self : (n : ℕ) → (n == n) ≡ true
    equal_self n = ground arith

-- Two diagnostics compare equal exactly when they are the same: every field takes part.
pub diagnostic_equal_iff : (a b : Diagnostic) → (diagnostic_equal a b ≡ true) ↔ (a ≡ b)
diagnostic_equal_iff a b = (diagnostic_equal_sound a b, λ e. rw e (diagnostic_equal_refl b))

-- What `gz_diagnostic_less` looks at, in its order.
abbrev pub Key : Type 0
Key = ℕ × (ℕ × (ℕ × (ℕ × (Bytes × (Bytes × (Bytes × Bytes))))))

abbrev pub key : Diagnostic → Key
key d = (
  d.range.start.line,
  (
    d.range.start.column,
    (
      severity_rank d.severity,
      (source_value d.origin.kind, (d.message, (d.code, (d.origin.name, d.document_path)))),
    ),
  ),
)

abbrev pub key_order : Order Key
key_order =
    lex numbers
      (lex numbers (lex numbers (lex numbers (lex strings (lex strings (lex strings strings))))))

-- The order on diagnostics is the lexicographic order of their keys.
pub diagnostic_less-eq-lex : (a b : Diagnostic) → diagnostic_less a b ≡ key_order.lt (key a) (key b)
unfolding diagnostic_less position_equal position_less
diagnostic_less-eq-lex a b = ground arith

-- A lexicographic order of keys, read back from any type, is a strict weak order.
order-IsWeakOrder {ℓ κ} :
    {A : Type ℓ} {K : Type κ} (o : Order K) (k : A → K)
    → IsWeakOrder (λ (a b : A). o.lt (k a) (k b))
order-IsWeakOrder o k = record {
  asymm = λ a b h. elim (Bool-cases (o.lt (k b) (k a))) [
    | inl e ↦ absurd (ground (arith, o.trans (k a) (k b) (k a), o.irrefl (k a)))
    | inr e ↦ e
  ];
  negative_trans = λ a b c h g. elim (Bool-cases (o.lt (k a) (k c))) [
    | inl e ↦ elim (Bool-cases (o.lt (k c) (k b))) [
      | inl f ↦ absurd (ground (arith, o.trans (k a) (k c) (k b)))
      | inr f ↦
          let p : k b ≡ k c = o.total (k b) (k c) g f in
          absurd (ground (arith, h, ap (λ z. o.lt (k a) z) p))
    ]
    | inr e ↦ e
  ];
}

-- `gz_diagnostic_less` is a strict weak order, as `std::sort` requires.
pub diagnostic_less-IsWeakOrder : IsWeakOrder diagnostic_less
diagnostic_less-IsWeakOrder =
    rw (fun_ext (λ a. fun_ext (λ b. diagnostic_less-eq-lex a b))) (order-IsWeakOrder key_order key)

tied_iff-eq {ℓ} :
    {K : Type ℓ} (o : Order K) (x y : K) → ((o.lt x y ≡ false) × (o.lt y x ≡ false)) ↔ (x ≡ y)
tied_iff-eq o x y = (λ h. o.total x y h.0 h.1, λ e. (rw e (o.irrefl y), rw e (o.irrefl y)))

-- Neither of two diagnostics comes before the other exactly when they have the same key.
pub tied_iff-key :
    (a b : Diagnostic)
    → ((diagnostic_less a b ≡ false) × (diagnostic_less b a ≡ false)) ↔ (key a ≡ key b)
tied_iff-key a b =
    rw (diagnostic_less-eq-lex a b, diagnostic_less-eq-lex b a)
      (tied_iff-eq key_order (key a) (key b))
