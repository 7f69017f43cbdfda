-- ===== src/Base/Order.antt =====
-- Strict total orders as Boolean tests, and their lexicographic product.
use gzscript.Base.Tests.{ltb, ◌==◌, ==_iff, if◌then◌else◌}
use gzscript.Base.Text.{
  Bytes, ◌===◌, ===_iff, bytes_less, bytes_less_irrefl, bytes_less_trans, bytes_less_total,
}
use Prim.Native.Nat.{ℕ}
use mathlib.Core.Path.{◌≡◌}
use mathlib.Core.Logic.{◌↔◌}
use mathlib.Core.Bool.{Bool, true, false, not, ◌&&◌}
use native.Mathlib.Omega.{arith}

pub record Order {ℓ} (A : Type ℓ) : Type ℓ where
  pub eq : A → A → Bool
  pub lt : A → A → Bool
  pub eq_iff : (a b : A) → (eq a b ≡ true) ↔ (a ≡ b)
  pub irrefl : (a : A) → lt a a ≡ false
  pub trans : (a b c : A) → lt a b ≡ true → lt b c ≡ true → lt a c ≡ true
  pub total : (a b : A) → lt a b ≡ false → lt b a ≡ false → a ≡ b

pub ltb_total : (a b : ℕ) → ltb a b ≡ false → ltb b a ≡ false → a ≡ b
ltb_total a b h k = ground arith

pub ltb_irrefl : (a : ℕ) → ltb a a ≡ false
ltb_irrefl a = ground arith

pub ltb_trans : (a b c : ℕ) → ltb a b ≡ true → ltb b c ≡ true → ltb a c ≡ true
ltb_trans a b c h k = ground arith

abbrev pub numbers : Order ℕ
numbers = record {
  eq = ◌==◌;
  lt = ltb;
  eq_iff = ==_iff;
  irrefl = ltb_irrefl;
  trans = ltb_trans;
  total = ltb_total;
}

abbrev pub strings : Order Bytes
strings = record {
  eq = ◌===◌;
  lt = bytes_less;
  eq_iff = ===_iff;
  irrefl = bytes_less_irrefl;
  trans = bytes_less_trans;
  total = bytes_less_total;
}

module _ {ℓ κ} {A : Type ℓ} {B : Type κ} (p : Order A) (q : Order B) where
  abbrev lex_eq : A × B → A × B → Bool
  lex_eq x y = p.eq x.0 y.0 && q.eq x.1 y.1

  -- The first components decide, unless they are equal.
  abbrev lex_lt : A × B → A × B → Bool
  lex_lt x y = if not (p.eq x.0 y.0) then p.lt x.0 y.0 else q.lt x.1 y.1

  pub lex_eq_iff : (x y : A × B) → (lex_eq x y ≡ true) ↔ (x ≡ y)
  lex_eq_iff (a, b) (c, d) = ground (arith, p.eq_iff a c, q.eq_iff b d)

  pub lex_irrefl : (x : A × B) → lex_lt x x ≡ false
  lex_irrefl (a, b) = ground (arith, p.eq_iff a a, q.irrefl b)

  pub lex_trans : (x y z : A × B) → lex_lt x y ≡ true → lex_lt y z ≡ true → lex_lt x z ≡ true
  lex_trans (a, b) (c, d) (e, f) h k = ground (
    arith,
    p.eq_iff a c,
    p.eq_iff c e,
    p.eq_iff a e,
    p.trans a c e,
    p.irrefl c,
    p.trans c a c,
    q.trans b d f,
  )

  pub lex_total : (x y : A × B) → lex_lt x y ≡ false → lex_lt y x ≡ false → x ≡ y
  lex_total (a, b) (c, d) h k = ground (arith, p.eq_iff a c, p.eq_iff c a, p.total a c, q.total b d)

  abbrev pub lex : Order (A × B)
  lex = record {
    eq = lex_eq;
    lt = lex_lt;
    eq_iff = lex_eq_iff;
    irrefl = lex_irrefl;
    trans = lex_trans;
    total = lex_total;
  }
