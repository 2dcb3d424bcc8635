-- ===== src/OrdMap.antt =====
-- `std::collections::BTreeMap<K, V>` over a key with an order: an association list in the order of
-- its keys.
use Prim.Native.Nat.{Ordering}
use omsrs.Prelude.{◌≡◌, refl, Option, none, some, List, [], ◌∷◌, arith}

-- The laws of a total order that `cmp` computes.
pub record IsOrder {ℓ} {K : Type ℓ} (cmp : K → K → Ordering) : Type ℓ where
  pub cmp_refl : (a : K) → cmp a a ≡ Ordering.eq
  pub eq_of_cmp : (a b : K) → cmp a b ≡ Ordering.eq → a ≡ b
  pub flip : (a b : K) → cmp a b ≡ Ordering.gt → cmp b a ≡ Ordering.lt
  pub trans : (a b c : K) → cmp a b ≡ Ordering.lt → cmp b c ≡ Ordering.lt → cmp a c ≡ Ordering.lt

abbrev pub OrdMap {ℓ κ} : Type ℓ → Type κ → Type (ℓ ⊔ κ)
OrdMap K V = List (K × V)

module _ {ℓ κ} {K : Type ℓ} {V : Type κ} (cmp : K → K → Ordering) where
  -- `get`: the search stops at the first larger key.
  unfoldable pub lookup : K → OrdMap K V → Option V
  lookup k [] = none
  lookup k ((j, v) ∷ m) = elim (cmp k j) [
    | Ordering.lt ↦ none
    | Ordering.eq ↦ some v
    | Ordering.gt ↦ lookup k m
  ]

  -- `insert`: replaces the value of a key that is there.
  unfoldable pub insert : K → V → OrdMap K V → OrdMap K V
  insert k v [] = (k, v) ∷ []
  insert k v ((j, w) ∷ m) = elim (cmp k j) [
    | Ordering.lt ↦ (k, v) ∷ (j, w) ∷ m
    | Ordering.eq ↦ (k, v) ∷ m
    | Ordering.gt ↦ (j, w) ∷ insert k v m
  ]

  -- What is found after an insertion.
  pub lookup-insert :
      (o : IsOrder cmp) (k j : K) (v : V) (m : OrdMap K V)
      → lookup j (insert k v m) ≡ elim (cmp j k) [ Ordering.eq ↦ some v | _ ↦ lookup j m ]
  unfolding lookup insert
  lookup-insert o k j v [] = ground arith
  lookup-insert o k j v ((i, w) ∷ m) = ground (
    arith,
    o.cmp_refl k,
    o.cmp_refl j,
    o.eq_of_cmp j k,
    o.eq_of_cmp k i,
    o.eq_of_cmp j i,
    o.flip k i,
    o.flip k j,
    o.trans j k i,
    lookup-insert o k j v m,
  )

  -- The value that is there changes nothing.
  pub insert-lookup :
      (o : IsOrder cmp) (k : K) (v : V) (m : OrdMap K V) → lookup k m ≡ some v → insert k v m ≡ m
  unfolding lookup insert
  insert-lookup o k v [] h = ground (arith, h)
  insert-lookup o k v ((j, w) ∷ m) h = ground (arith, h, o.eq_of_cmp k j, insert-lookup o k v m)

  -- A map whose values are changed in place.
  unfoldable pub map_values : (K → V → V) → OrdMap K V → OrdMap K V
  map_values f [] = []
  map_values f ((k, v) ∷ m) = (k, f k v) ∷ map_values f m

  pub lookup-map_values :
      (o : IsOrder cmp) (f : K → V → V) (k : K) (m : OrdMap K V)
      → lookup k (map_values f m) ≡ elim (lookup k m) [ none ↦ none | some v ↦ some (f k v) ]
  unfolding lookup map_values
  lookup-map_values o f k [] = refl
  lookup-map_values o f k ((j, v) ∷ m) = ground (arith, o.eq_of_cmp k j, lookup-map_values o f k m)
