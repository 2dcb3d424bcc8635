-- ===== src/SeqMap.antt =====
-- `std::collections::BTreeMap<u64, V>`: an association list in the order of its keys.
use Prim.Native.Nat.{Ordering, compare}
use omsrs.Prelude.{ℕ, suc, ◌+◌, ◌≡◌, refl, Option, none, some, List, [], ◌∷◌, ◌++◌, arith}

abbrev pub SeqMap {ℓ} : Type ℓ → Type ℓ
SeqMap V = List (ℕ × V)

module _ {ℓ} {V : Type ℓ} where
  unfoldable pub lookup : ℕ → SeqMap V → Option V
  lookup k [] = none
  lookup k ((j, v) ∷ m) = elim (compare k j) [
    | Ordering.lt ↦ none
    | Ordering.eq ↦ some v
    | Ordering.gt ↦ lookup k m
  ]

  unfoldable pub insert : ℕ → V → SeqMap V → SeqMap V
  insert k v [] = (k, v) ∷ []
  insert k v ((j, w) ∷ m) = elim (compare k j) [
    | Ordering.lt ↦ (k, v) ∷ (j, w) ∷ m
    | Ordering.eq ↦ (k, v) ∷ m
    | Ordering.gt ↦ (j, w) ∷ insert k v m
  ]

  -- The values `vs` under the keys `from`, `from + 1`, and so on.
  abbrev pub numbered : ℕ → List V → SeqMap V
  numbered from [] = []
  numbered from (v ∷ vs) = (from, v) ∷ numbered (suc from) vs

  abbrev pub count : List V → ℕ
  count [] = 0
  count (v ∷ vs) = suc (count vs)

  pub lookup-numbered_next :
      (from next : ℕ) (vs : List V) → from + count vs ≡ next → lookup next (numbered from vs) ≡ none
  unfolding lookup
  lookup-numbered_next from next [] h = refl
  lookup-numbered_next from next (v ∷ vs) h =
      ground (arith, lookup-numbered_next (suc from) next vs)

  pub insert-numbered_next :
      (from next : ℕ) (v : V) (vs : List V)
      → from + count vs ≡ next
      → insert next v (numbered from vs) ≡ numbered from (vs ++ v ∷ [])
  unfolding insert
  insert-numbered_next from next v [] h = ground arith
  insert-numbered_next from next v (w ∷ vs) h =
      ground (arith, insert-numbered_next (suc from) next v vs)

  pub lookup-numbered_last :
      (from next : ℕ) (v : V) (vs : List V)
      → from + count vs ≡ next
      → lookup next (numbered from (vs ++ v ∷ [])) ≡ some v
  unfolding lookup
  lookup-numbered_last from next v [] h = ground arith
  lookup-numbered_last from next v (w ∷ vs) h =
      ground (arith, lookup-numbered_last (suc from) next v vs)

  pub count-push : (v : V) (vs : List V) → count (vs ++ v ∷ []) ≡ count vs + 1
  count-push v [] = omega arith
  count-push v (w ∷ vs) = omega (arith, count-push v vs)
