-- ===== src/Base/Assoc.antt =====
-- A map from byte strings as an association list: `operator[]`, `find`, `erase`.
use mathlib.Core.Path.{◌≡◌, refl, ◌∙◌}
use mathlib.Core.List.{List, [], ◌∷◌, ◌++◌}
use mathlib.Core.Option.{Option, none, some}
use mathlib.Core.Bool.{Bool, true, false, ◌||◌}
use native.Mathlib.Omega.{arith}
use gzscript.Base.Tests.{if◌then◌else◌}
use gzscript.Base.Text.{Bytes, ◌===◌, ===_iff}

-- Membership in a set of strings.
unfoldable pub contains : Bytes → List Bytes → Bool
contains k [] = false
contains k (j ∷ js) = (j === k) || contains k js

-- No string twice.
abbrev pub Distinct : List Bytes → Type 0
Distinct [] = Unit
Distinct (k ∷ ks) = (contains k ks ≡ false) × Distinct ks

-- Every occurrence of a string is taken out.
unfoldable pub remove : Bytes → List Bytes → List Bytes
remove k [] = []
remove k (j ∷ js) = if j === k then remove k js else j ∷ remove k js

pub contains-remove :
    (k j : Bytes) (ks : List Bytes)
    → contains j (remove k ks) ≡ (if k === j then false else contains j ks)
unfolding contains remove
contains-remove k j [] = ground arith
contains-remove k j (i ∷ is) =
    ground (arith, contains-remove k j is, ===_iff i k, ===_iff i j, ===_iff k j)

pub remove-Distinct : (k : Bytes) (ks : List Bytes) → Distinct ks → Distinct (remove k ks)
unfolding remove
remove-Distinct k [] h = tt
remove-Distinct k (j ∷ js) h =
    ground (arith, contains-remove k j js, ===_iff j k, ===_iff k j, remove-Distinct k js)

pub contains-snoc :
    (k j : Bytes) (ks : List Bytes) → contains j (ks ++ k ∷ []) ≡ (contains j ks || (k === j))
unfolding contains
contains-snoc k j [] = ground arith
contains-snoc k j (i ∷ is) = ground (arith, contains-snoc k j is)

pub snoc-Distinct :
    (k : Bytes) (ks : List Bytes) → Distinct ks → contains k ks ≡ false → Distinct (ks ++ k ∷ [])
unfolding contains
snoc-Distinct k [] h g = (refl, tt)
snoc-Distinct k (j ∷ js) h g = (
  contains-snoc k j js ∙ ground (arith, ===_iff k j, ===_iff j k),
  snoc-Distinct k js h.1 (ground arith),
)

module _ {ℓ} {V : Type ℓ} where
  unfoldable pub lookup : Bytes → List (Bytes × V) → Option V
  lookup k [] = none
  lookup k ((j, v) ∷ m) = if j === k then some v else lookup k m

  unfoldable pub update : Bytes → V → List (Bytes × V) → List (Bytes × V)
  update k v [] = (k, v) ∷ []
  update k v ((j, w) ∷ m) = if j === k then (j, v) ∷ m else (j, w) ∷ update k v m

  unfoldable pub erase : Bytes → List (Bytes × V) → List (Bytes × V)
  erase k [] = []
  erase k ((j, w) ∷ m) = if j === k then erase k m else (j, w) ∷ erase k m

  unfoldable pub keys : List (Bytes × V) → List Bytes
  keys [] = []
  keys ((j, w) ∷ m) = j ∷ keys m

  pub lookup-update :
      (k j : Bytes) (v : V) (m : List (Bytes × V))
      → lookup j (update k v m) ≡ (if k === j then some v else lookup j m)
  unfolding lookup update
  lookup-update k j v [] = refl
  lookup-update k j v ((i, w) ∷ m) =
      ground (arith, ===_iff k j, ===_iff i k, ===_iff i j, lookup-update k j v m)

  pub lookup-erase :
      (k j : Bytes) (m : List (Bytes × V))
      → lookup j (erase k m) ≡ (if k === j then none else lookup j m)
  unfolding lookup erase
  lookup-erase k j [] = ground arith
  lookup-erase k j ((i, w) ∷ m) =
      ground (arith, ===_iff k j, ===_iff i k, ===_iff i j, lookup-erase k j m)

  pub keys-update :
      (k j : Bytes) (v : V) (m : List (Bytes × V))
      → contains j (keys (update k v m)) ≡ ((k === j) || contains j (keys m))
  unfolding keys update contains
  keys-update k j v [] = ground arith
  keys-update k j v ((i, w) ∷ m) =
      ground (arith, ===_iff k j, ===_iff i k, ===_iff i j, keys-update k j v m)

  pub keys-erase : (k : Bytes) (m : List (Bytes × V)) → keys (erase k m) ≡ remove k (keys m)
  unfolding keys erase remove
  keys-erase k [] = refl
  keys-erase k ((i, w) ∷ m) = ground (arith, keys-erase k m)

  pub update-Distinct :
      (k : Bytes) (v : V) (m : List (Bytes × V))
      → Distinct (keys m)
      → Distinct (keys (update k v m))
  unfolding keys update contains
  update-Distinct k v [] h = (refl, tt)
  update-Distinct k v ((i, w) ∷ m) h =
      ground (arith, ===_iff i k, ===_iff k i, keys-update k i v m, update-Distinct k v m)

  pub contains-keys :
      (k : Bytes) (v : V) (m : List (Bytes × V)) → lookup k m ≡ some v → contains k (keys m) ≡ true
  unfolding keys lookup contains
  contains-keys k v [] h = cc
  contains-keys k v ((i, w) ∷ m) h = ground (arith, contains-keys k v m)

  pub lookup-of_contains-keys :
      (k : Bytes) (m : List (Bytes × V))
      → contains k (keys m) ≡ true
      → (v : V) × (lookup k m ≡ some v)
  unfolding keys lookup contains
  lookup-of_contains-keys k [] h = cc
  lookup-of_contains-keys k ((i, w) ∷ m) h =
      elim (i === k)
          as (λ b.
            ((b || contains k (keys m)) ≡ true
              → (v : V) × ((if b then some w else lookup k m) ≡ some v))) [
                | true ↦ λ _. (w, refl)
                | false ↦ λ g. lookup-of_contains-keys k m g
              ]
        h
