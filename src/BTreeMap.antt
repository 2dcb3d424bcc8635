-- ===== src/BTreeMap.antt =====
-- `std::collections::BTreeMap<String, V>`: an association list in the order of its keys, searched
-- and changed by comparing keys, as the library's tree is.
pub mod Order
pub mod Inserts
use Prim.Native.Nat.{Ordering}
use Prim.Native.String.{compare}
use text.Mathlib.TextPositions.{compare_refl}
use text.Mathlib.TextEquality.{path_by_compare}
use Order.{compare_flip, compare_trans}
use omsrs.Prelude.{
  ℕ, ◌+◌, ◌≡◌, String, Option, none, some, List, [], ◌∷◌, Bool, is_some, arith, same_text, eq_iff,
  if◌then◌else◌,
}

abbrev pub BTreeMap {ℓ} : Type ℓ → Type ℓ
BTreeMap V = List (String × V)

module _ {ℓ} {V : Type ℓ} where
  -- `get`: the search stops at the first larger key.
  unfoldable pub lookup : String → BTreeMap V → Option V
  lookup k [] = none
  lookup k ((j, v) ∷ m) = elim (compare k j) [
    | Ordering.lt ↦ none
    | Ordering.eq ↦ some v
    | Ordering.gt ↦ lookup k m
  ]

  -- `contains_key`
  abbrev pub contains_key : String → BTreeMap V → Bool
  contains_key k m = is_some (lookup k m)

  -- `insert`: replaces the value of a key that is there.
  unfoldable pub insert : String → V → BTreeMap V → BTreeMap V
  insert k v [] = (k, v) ∷ []
  insert k v ((j, w) ∷ m) = elim (compare k j) [
    | Ordering.lt ↦ (k, v) ∷ (j, w) ∷ m
    | Ordering.eq ↦ (k, v) ∷ m
    | Ordering.gt ↦ (j, w) ∷ insert k v m
  ]

  pub lookup-insert_self : (k : String) (v : V) (m : BTreeMap V) → lookup k (insert k v m) ≡ some v
  unfolding lookup insert
  lookup-insert_self k v [] = ground (arith, compare_refl k)
  lookup-insert_self k v ((j, w) ∷ m) = ground (arith, compare_refl k, lookup-insert_self k v m)

-- The sum of a measure over the values, and how an insertion changes it.
module _ {ℓ} {V : Type ℓ} (f : V → ℕ) where
  unfoldable pub sum_of : BTreeMap V → ℕ
  sum_of [] = 0
  sum_of ((k, v) ∷ m) = f v + sum_of m

  pub sum_of-insert_new :
      (k : String) (v : V) (m : BTreeMap V)
      → lookup k m ≡ none
      → sum_of (insert k v m) ≡ sum_of m + f v
  unfolding lookup insert sum_of
  sum_of-insert_new k v [] h = ground arith
  sum_of-insert_new k v ((j, w) ∷ m) h = ground (arith, sum_of-insert_new k v m)

  pub sum_of-insert_old :
      (k : String) (v old : V) (m : BTreeMap V)
      → lookup k m ≡ some old
      → sum_of (insert k v m) + f old ≡ sum_of m + f v
  unfolding lookup insert sum_of
  sum_of-insert_old k v old [] h = ground arith
  sum_of-insert_old k v old ((j, w) ∷ m) h = ground (arith, sum_of-insert_old k v old m, h)

module _ {ℓ} {V : Type ℓ} where
  unfoldable pub remove : String → BTreeMap V → BTreeMap V
  remove k [] = []
  remove k ((j, w) ∷ m) = elim (compare k j) [
    | Ordering.lt ↦ (j, w) ∷ m
    | Ordering.eq ↦ m
    | Ordering.gt ↦ (j, w) ∷ remove k m
  ]

  -- What is found after an insertion.
  pub lookup-insert :
      (k j : String) (v : V) (m : BTreeMap V)
      → lookup j (insert k v m) ≡ (if same_text k j then some v else lookup j m)
  unfolding lookup insert
  lookup-insert k j v [] = ground (arith, eq_iff k j, compare_refl j, path_by_compare j k)
  lookup-insert k j v ((i, w) ∷ m) = ground (
    arith,
    eq_iff k j,
    compare_refl j,
    path_by_compare j k,
    path_by_compare k i,
    path_by_compare j i,
    compare_flip k i,
    compare_trans j k i,
    lookup-insert k j v m,
  )
