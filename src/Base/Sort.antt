-- ===== src/Base/Sort.antt =====
-- `std::stable_sort`, `std::sort` and `std::unique` over a Boolean `less`.
-- A stable sort has one result, and is a function. What `std::sort` does with elements that are
-- equivalent under `less` is open, so it is a parameter with the laws of its documentation.
use Prim.Native.Nat.{ℕ, ◌+◌}
use mathlib.Core.Path.{◌≡◌, refl, ap, ◌∙◌}
use mathlib.Core.Logic.{◌↔◌, inl, inr}
use mathlib.Core.List.{List, [], ◌∷◌, ◌++◌}
use mathlib.Core.Bool.{Bool, true, false, not, ◌||◌}
use native.Mathlib.Omega.{arith}
use gzscript.Base.Tests.{if◌then◌else◌, Bool-cases}
use gzscript.Base.Lists.{All, keep}

module _ {ℓ} {A : Type ℓ} where
  -- How many elements pass a test.
  unfoldable pub count : (A → Bool) → List A → ℕ
  count p [] = 0
  count p (x ∷ xs) = (if p x then 1 else 0) + count p xs

  unfoldable pub any : (A → Bool) → List A → Bool
  any p [] = false
  any p (x ∷ xs) = p x || any p xs

  pub any-eq-false_iff-count : (p : A → Bool) (xs : List A) → (any p xs ≡ false) ↔ (count p xs ≡ 0)
  unfolding any count
  any-eq-false_iff-count p [] = ground arith
  any-eq-false_iff-count p (x ∷ xs) = ground (arith, any-eq-false_iff-count p xs)

  pub any-of_count-eq :
      (p : A → Bool) (xs ys : List A) → count p xs ≡ count p ys → any p xs ≡ any p ys
  any-of_count-eq p xs ys h =
      ground (arith, any-eq-false_iff-count p xs, any-eq-false_iff-count p ys)

  pub any-append : (p : A → Bool) (xs ys : List A) → any p (xs ++ ys) ≡ (any p xs || any p ys)
  unfolding any
  any-append p [] ys = refl
  any-append p (x ∷ xs) ys = ground (arith, any-append p xs ys)

  -- A Boolean property of all elements, from the count of those without it.
  pub All-of_any-not :
      (p : A → Bool) (xs : List A) → any (λ x. not (p x)) xs ≡ false → All (λ x. p x ≡ true) xs
  unfolding any
  All-of_any-not p [] h = tt
  All-of_any-not p (x ∷ xs) h = (ground arith, All-of_any-not p xs (ground arith))

  pub any-not_of_All :
      (p : A → Bool) (xs : List A) → All (λ x. p x ≡ true) xs → any (λ x. not (p x)) xs ≡ false
  unfolding any
  any-not_of_All p [] h = refl
  any-not_of_All p (x ∷ xs) h = ground (arith, any-not_of_All p xs)

-- The laws of a `less` that a standard sort may be given.
pub record IsWeakOrder {ℓ} {A : Type ℓ} (less : A → A → Bool) : Type ℓ where
  pub asymm : (a b : A) → less a b ≡ true → less b a ≡ false
  pub negative_trans : (a b c : A) → less a b ≡ false → less b c ≡ false → less a c ≡ false

module _ {ℓ} {A : Type ℓ} (less : A → A → Bool) where
  -- No element is less than one before it.
  abbrev pub IsSorted : List A → Type ℓ
  IsSorted [] = Unit
  IsSorted (x ∷ xs) = All (λ y. less y x ≡ false) xs × IsSorted xs

  unfoldable pub stable_insert : A → List A → List A
  stable_insert x [] = x ∷ []
  stable_insert x (y ∷ ys) = if less y x then y ∷ stable_insert x ys else x ∷ y ∷ ys

  unfoldable pub stable_sort : List A → List A
  unfolding stable_insert
  stable_sort [] = []
  stable_sort (x ∷ xs) = stable_insert x (stable_sort xs)

  count-stable_insert :
      (p : A → Bool) (x : A) (ys : List A) → count p (stable_insert x ys) ≡ count p (x ∷ ys)
  unfolding stable_insert count
  count-stable_insert p x [] = refl
  count-stable_insert p x (y ∷ ys) = ground (arith, count-stable_insert p x ys)

  pub count-stable_sort : (p : A → Bool) (xs : List A) → count p (stable_sort xs) ≡ count p xs
  unfolding stable_sort count
  count-stable_sort p [] = refl
  count-stable_sort p (x ∷ xs) =
      count-stable_insert p x (stable_sort xs)
      ∙ ap (λ n. (if p x then 1 else 0) + n) (count-stable_sort p xs)

  module _ (order : IsWeakOrder less) where
    All-stable_insert :
        (z x : A) (ys : List A)
        → less x z ≡ false
        → All (λ y. less y z ≡ false) ys
        → All (λ y. less y z ≡ false) (stable_insert x ys)
    unfolding stable_insert
    All-stable_insert z x [] h k = (h, tt)
    All-stable_insert z x (y ∷ ys) h k = elim (Bool-cases (less y x)) [
      | inl e ↦ rw e (k.0, All-stable_insert z x ys h k.1)
      | inr e ↦ rw e (h, k)
    ]

    All-below :
        (z y : A) (ys : List A)
        → less y z ≡ false
        → All (λ w. less w y ≡ false) ys
        → All (λ w. less w z ≡ false) ys
    All-below z y [] h k = tt
    All-below z y (w ∷ ws) h k = (order.negative_trans w y z k.0 h, All-below z y ws h k.1)

    stable_insert-IsSorted : (x : A) (ys : List A) → IsSorted ys → IsSorted (stable_insert x ys)
    unfolding stable_insert
    stable_insert-IsSorted x [] h = (tt, tt)
    stable_insert-IsSorted x (y ∷ ys) h = elim (Bool-cases (less y x)) [
      | inl e ↦
          rw e (All-stable_insert y x ys (order.asymm y x e) h.0, stable_insert-IsSorted x ys h.1)
      | inr e ↦ rw e ((e, All-below x y ys e h.0), h)
    ]

    pub stable_sort-IsSorted : (xs : List A) → IsSorted (stable_sort xs)
    unfolding stable_sort
    stable_sort-IsSorted [] = tt
    stable_sort-IsSorted (x ∷ xs) =
        stable_insert-IsSorted x (stable_sort xs) (stable_sort-IsSorted xs)

  -- Elements that are pairwise not less keep their order.
  module _ (p : A → Bool) (tied : (a b : A) → p a ≡ true → p b ≡ true → less a b ≡ false) where
    keep-stable_insert : (x : A) (ys : List A) → keep p (stable_insert x ys) ≡ keep p (x ∷ ys)
    unfolding stable_insert
    keep-stable_insert x [] = refl
    keep-stable_insert x (y ∷ ys) = ground (arith, keep-stable_insert x ys, tied y x)

    pub keep-stable_sort : (xs : List A) → keep p (stable_sort xs) ≡ keep p xs
    unfolding stable_sort
    keep-stable_sort [] = refl
    keep-stable_sort (x ∷ xs) =
        keep-stable_insert x (stable_sort xs)
        ∙ ap (λ zs. if p x then x ∷ zs else zs) (keep-stable_sort xs)

-- What the documentation of `std::sort` promises for a `less`.
pub record Sorter {ℓ} {A : Type ℓ} (less : A → A → Bool) : Type ℓ where
  pub sort : List A → List A
  pub sorts : (xs : List A) → IsSorted less (sort xs)
  pub permutes : (p : A → Bool) (xs : List A) → count p (sort xs) ≡ count p xs

-- A stable sort is a sort.
abbrev pub stable_sorter {ℓ} : {A : Type ℓ} (less : A → A → Bool) → IsWeakOrder less → Sorter less
stable_sorter less order = record {
  sort = stable_sort less;
  sorts = stable_sort-IsSorted less order;
  permutes = count-stable_sort less;
}

-- `erase(unique(begin, end), end)`: an element equal to the last one kept is dropped.
module _ {ℓ} {A : Type ℓ} (eq : A → A → Bool) where
  unfoldable pub unique_after : A → List A → List A
  unique_after x [] = []
  unique_after x (y ∷ ys) = if eq x y then unique_after x ys else y ∷ unique_after y ys

  unfoldable pub unique : List A → List A
  unfolding unique_after
  unique [] = []
  unique (x ∷ xs) = x ∷ unique_after x xs

  -- No two neighbours are equal.
  abbrev pub NoRepeatAfter : A → List A → Type 0
  NoRepeatAfter x [] = Unit
  NoRepeatAfter x (y ∷ ys) = (eq x y ≡ false) × NoRepeatAfter y ys

  abbrev pub NoRepeat : List A → Type 0
  NoRepeat [] = Unit
  NoRepeat (x ∷ xs) = NoRepeatAfter x xs

  unique_after-NoRepeat : (x : A) (ys : List A) → NoRepeatAfter x (unique_after x ys)
  unfolding unique_after
  unique_after-NoRepeat x [] = tt
  unique_after-NoRepeat x (y ∷ ys) = elim (Bool-cases (eq x y)) [
    | inl e ↦ rw e (unique_after-NoRepeat x ys)
    | inr e ↦ rw e (e, unique_after-NoRepeat y ys)
  ]

  pub unique-NoRepeat : (xs : List A) → NoRepeat (unique xs)
  unfolding unique
  unique-NoRepeat [] = tt
  unique-NoRepeat (x ∷ xs) = unique_after-NoRepeat x xs

  unique_after-All {κ} :
      (P : A → Type κ) (x : A) (ys : List A) → All P ys → All P (unique_after x ys)
  unfolding unique_after
  unique_after-All P x [] h = tt
  unique_after-All P x (y ∷ ys) h = elim (Bool-cases (eq x y)) [
    | inl e ↦ rw e (unique_after-All P x ys h.1)
    | inr e ↦ rw e (h.0, unique_after-All P y ys h.1)
  ]

  pub unique-All {κ} : (P : A → Type κ) (xs : List A) → All P xs → All P (unique xs)
  unfolding unique
  unique-All P [] h = tt
  unique-All P (x ∷ xs) h = (h.0, unique_after-All P x xs h.1)

  unique_after-IsSorted :
      (less : A → A → Bool) (x : A) (ys : List A)
      → IsSorted less ys
      → IsSorted less (unique_after x ys)
  unfolding unique_after
  unique_after-IsSorted less x [] h = tt
  unique_after-IsSorted less x (y ∷ ys) h = elim (Bool-cases (eq x y)) [
    | inl e ↦ rw e (unique_after-IsSorted less x ys h.1)
    | inr e ↦ rw e (unique_after-All _ y ys h.0, unique_after-IsSorted less y ys h.1)
  ]

  pub unique-IsSorted :
      (less : A → A → Bool) (xs : List A) → IsSorted less xs → IsSorted less (unique xs)
  unfolding unique
  unique-IsSorted less [] h = tt
  unique-IsSorted less (x ∷ xs) h =
      (unique_after-All _ x xs h.0, unique_after-IsSorted less x xs h.1)

  module _ (sound : (a b : A) → eq a b ≡ true → a ≡ b) (p : A → Bool) where
    any-unique_after :
        (x : A) (ys : List A) → (p x || any p (unique_after x ys)) ≡ (p x || any p ys)
    unfolding unique_after any
    any-unique_after x [] = refl
    any-unique_after x (y ∷ ys) =
        ground (arith, any-unique_after x ys, any-unique_after y ys, sound x y)

    -- `unique` neither loses nor adds a value.
    pub any-unique : (xs : List A) → any p (unique xs) ≡ any p xs
    unfolding unique any
    any-unique [] = refl
    any-unique (x ∷ xs) = any-unique_after x xs
