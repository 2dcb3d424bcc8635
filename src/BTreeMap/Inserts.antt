-- ===== src/BTreeMap/Inserts.antt =====
-- Insertions one after the other, and what is found after them.
use Prim.Native.Nat.{Ordering}
use Prim.Native.String.{compare}
use text.Mathlib.TextPositions.{compare_refl}
use text.Mathlib.TextEquality.{path_by_compare}
use omsrs.Prelude.{
  ◌+◌, ◌≡◌, refl, sym, ap, String, Option, none, some, List, [], ◌∷◌, true, is_some, or_option,
  arith, same_text, eq_iff, if◌then◌else◌, length, ◌⊎◌, inl, inr,
}
use mathlib.Core.Path.{subst}
use omsrs.BTreeMap.{BTreeMap, lookup, insert, lookup-insert, contains_key}
use omsrs.BTreeMap.Order.{compare_trans}

Ordering-cases : (o : Ordering) → (o ≡ Ordering.lt) ⊎ ((o ≡ Ordering.eq) ⊎ (o ≡ Ordering.gt))
Ordering-cases Ordering.lt = inl refl
Ordering-cases Ordering.eq = inr (inl refl)
Ordering-cases Ordering.gt = inr (inr refl)

module _ {ℓ} {V : Type ℓ} where
  unfoldable pub inserts : List (String × V) → BTreeMap V → BTreeMap V
  inserts [] m = m
  inserts ((k, v) ∷ l) m = inserts l (insert k v m)

  -- A later map is found after the same insertions where it was found before.
  inserts-later :
      (j : String) (l : List (String × V)) (m n : BTreeMap V) (o : Option V)
      → lookup j m ≡ or_option (lookup j n) o
      → lookup j (inserts l m) ≡ or_option (lookup j (inserts l n)) o
  unfolding inserts
  inserts-later j [] m n o h = h
  inserts-later j ((k, v) ∷ l) m n o h =
      inserts-later j l (insert k v m) (insert k v n) o
        (ground (arith, lookup-insert k j v m, lookup-insert k j v n, h))

  pub lookup-inserts :
      (j : String) (l : List (String × V)) (m : BTreeMap V)
      → lookup j (inserts l m) ≡ or_option (lookup j (inserts l [])) (lookup j m)
  unfolding lookup
  lookup-inserts j l m = inserts-later j l m [] (lookup j m) refl

  -- The keys stand in their order, so that each is found.
  unfoldable pub IsMap : BTreeMap V → Type ℓ
  IsMap [] = Unit
  IsMap ((k, v) ∷ m) =
      ((j : String) → lookup j ((k, v) ∷ m) ≡ (if same_text k j then some v else lookup j m))
      × (lookup k m ≡ none)
      × IsMap m

  insert-order :
      (k i : String) (v w : V) (m : BTreeMap V) (o : Ordering)
      → compare k i ≡ o
      → insert k v ((i, w) ∷ m) ≡ elim o [
        | Ordering.lt ↦ (k, v) ∷ (i, w) ∷ m
        | Ordering.eq ↦ (k, v) ∷ m
        | Ordering.gt ↦ (i, w) ∷ insert k v m
      ]
  unfolding insert
  insert-order k i v w m o e = rw (e, insert)

  insert-IsMap : (k : String) (v : V) (m : BTreeMap V) → IsMap m → IsMap (insert k v m)
  unfolding IsMap insert lookup
  insert-IsMap k v [] h =
      (λ j. ground (arith, eq_iff k j, compare_refl j, path_by_compare j k), refl, tt)
  insert-IsMap k v ((i, w) ∷ m) h = elim (Ordering-cases (compare k i)) [
    | inl e ↦ subst IsMap (sym (insert-order k i v w m Ordering.lt e)) (
      λ j. ground (arith, e, eq_iff k j, compare_refl j, path_by_compare j k, compare_trans j k i),
      ground (arith, e),
      h,
    )
    | inr (inl e) ↦ subst IsMap (sym (insert-order k i v w m Ordering.eq e)) (
      λ j. ground (
        arith,
        e,
        eq_iff k j,
        compare_refl j,
        path_by_compare j k,
        path_by_compare k i,
        h.0 j,
        eq_iff i j,
      ),
      ground (arith, e, path_by_compare k i, h.1),
      h.2,
    )
    | inr (inr e) ↦ subst IsMap (sym (insert-order k i v w m Ordering.gt e)) (
      λ j. ground (
        arith,
        e,
        eq_iff i j,
        eq_iff k j,
        compare_refl j,
        path_by_compare j i,
        h.0 j,
        lookup-insert k j v m,
      ),
      ground (arith, e, lookup-insert k i v m, eq_iff k i, compare_refl i, h.1),
      insert-IsMap k v m h.2,
    )
  ]

  pub inserts-IsMap : (l : List (String × V)) (m : BTreeMap V) → IsMap m → IsMap (inserts l m)
  unfolding inserts
  inserts-IsMap [] m h = h
  inserts-IsMap ((k, v) ∷ l) m h = inserts-IsMap l (insert k v m) (insert-IsMap k v m h)

  pub lookup-nil : (j : String) → lookup {V = V} j [] ≡ none
  unfolding lookup
  lookup-nil j = refl

  -- A map put over another one.
  pub lookup-inserts_map :
      (j : String) (l m : BTreeMap V)
      → IsMap l
      → lookup j (inserts l m) ≡ or_option (lookup j l) (lookup j m)
  unfolding IsMap inserts
  lookup-inserts_map j [] m h = sym (ap (λ o. or_option o (lookup j m)) (lookup-nil j))
  lookup-inserts_map j ((k, v) ∷ l) m h = ground (
    arith,
    h.0 j,
    h.1,
    eq_iff k j,
    lookup-insert k j v m,
    lookup-inserts_map j l (insert k v m) h.2,
  )

  pub length-insert :
      (k : String) (v : V) (m : BTreeMap V)
      → length (insert k v m) ≡ length m + (if is_some (lookup k m) then 0 else 1)
  unfolding insert lookup
  length-insert k v [] = ground arith
  length-insert k v ((i, w) ∷ m) = ground (arith, length-insert k v m)

  -- Insertions of keys that are there leave the length.
  pub Present : List (String × V) → BTreeMap V → Type 0
  Present [] m = Unit
  Present ((k, v) ∷ l) m = (contains_key k m ≡ true) × Present l m

  contains-insert :
      (k j : String) (v : V) (m : BTreeMap V)
      → contains_key j m ≡ true
      → contains_key j (insert k v m) ≡ true
  contains-insert k j v m h = ground (arith, lookup-insert k j v m, h)

  Present-insert :
      (k : String) (v : V) (l : List (String × V)) (m : BTreeMap V)
      → Present l m
      → Present l (insert k v m)
  unfolding Present
  Present-insert k v [] m h = tt
  Present-insert k v ((j, w) ∷ l) m h = (contains-insert k j v m h.0, Present-insert k v l m h.1)

  contains-inserts :
      (j : String) (l : List (String × V)) (m : BTreeMap V)
      → contains_key j m ≡ true
      → contains_key j (inserts l m) ≡ true
  unfolding inserts
  contains-inserts j [] m h = h
  contains-inserts j ((k, v) ∷ l) m h =
      contains-inserts j l (insert k v m) (contains-insert k j v m h)

  pub inserts-Present : (l : List (String × V)) (m : BTreeMap V) → Present l (inserts l m)
  unfolding Present inserts
  inserts-Present [] m = tt
  inserts-Present ((k, v) ∷ l) m = (
    contains-inserts k l (insert k v m) (ground (arith, lookup-insert k k v m, eq_iff k k)),
    inserts-Present l (insert k v m),
  )

  pub length-inserts-Present :
      (l : List (String × V)) (m : BTreeMap V) → Present l m → length (inserts l m) ≡ length m
  unfolding Present inserts
  length-inserts-Present [] m h = refl
  length-inserts-Present ((k, v) ∷ l) m h = ground (
    arith,
    length-insert k v m,
    h.0,
    length-inserts-Present l (insert k v m) (Present-insert k v l m h.1),
  )

-- The keys alone give the length.
module _ {ℓ} {V : Type ℓ} where
  unfoldable pub keys_only : List (String × V) → List (String × Unit {0})
  keys_only [] = []
  keys_only ((k, v) ∷ l) = (k, tt) ∷ keys_only l

  pub length-keys_only :
      (l : List (String × V)) (m : BTreeMap V) (n : BTreeMap (Unit {0}))
      → length n ≡ length m
      → ((j : String) → contains_key j n ≡ contains_key j m)
      → length (inserts (keys_only l) n) ≡ length (inserts l m)
  unfolding inserts keys_only
  length-keys_only [] m n h s = h
  length-keys_only ((k, v) ∷ l) m n h s =
      length-keys_only l (insert k v m) (insert k tt n)
        (ground (arith, length-insert k v m, length-insert k tt n, s k, h))
        (λ j. ground (arith, lookup-insert k j v m, lookup-insert k j tt n, s j))
