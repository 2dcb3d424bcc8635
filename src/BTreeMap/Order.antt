-- ===== src/BTreeMap/Order.antt =====
-- The order of texts that the keys stand in: transitive, and reversed with its arguments.
use Prim.Native.Nat.{Ordering, compare as compare_ℕ}
use Prim.Native.Char.{code}
use Prim.Native.String.{String, [], ◌∷◌, compare, then}
use Prim.Native.String.compare
use omsrs.Prelude.{ℕ, ◌≡◌, arith, ◌∙◌, sym}

then_flip :
    (m n : ℕ) (o p : Ordering)
    → (o ≡ Ordering.gt → p ≡ Ordering.lt)
    → then (compare_ℕ m n) o ≡ Ordering.gt
    → then (compare_ℕ n m) p ≡ Ordering.lt
then_flip m n o p f h = ground (arith, f)

then_trans :
    (l m n : ℕ) (o p q : Ordering)
    → (o ≡ Ordering.lt → p ≡ Ordering.lt → q ≡ Ordering.lt)
    → then (compare_ℕ l m) o ≡ Ordering.lt
    → then (compare_ℕ m n) p ≡ Ordering.lt
    → then (compare_ℕ l n) q ≡ Ordering.lt
then_trans l m n o p q f h k = ground (arith, f)

pub compare_flip : (a b : String) → compare a b ≡ Ordering.gt → compare b a ≡ Ordering.lt
compare_flip [] [] h = cc (h, compare.nil-nil)
compare_flip [] (y ∷ t) h = cc (h, compare.nil-cons y t)
compare_flip (x ∷ s) [] h = compare.nil-cons x s
compare_flip (x ∷ s) (y ∷ t) h =
    compare.cons-cons y x t s
    ∙ then_flip (code x) (code y) (compare s t) (compare t s) (compare_flip s t)
        (sym (compare.cons-cons x y s t) ∙ h)

pub compare_trans :
    (a b c : String)
    → compare a b ≡ Ordering.lt
    → compare b c ≡ Ordering.lt
    → compare a c ≡ Ordering.lt
compare_trans [] [] c h k = k
compare_trans [] (y ∷ t) [] h k = cc (k, compare.cons-nil y t)
compare_trans [] (y ∷ t) (z ∷ u) h k = compare.nil-cons z u
compare_trans (x ∷ s) [] c h k = cc (h, compare.cons-nil x s)
compare_trans (x ∷ s) (y ∷ t) [] h k = cc (k, compare.cons-nil y t)
compare_trans (x ∷ s) (y ∷ t) (z ∷ u) h k =
    compare.cons-cons x z s u
    ∙ then_trans (code x) (code y) (code z) (compare s t) (compare t u) (compare s u)
        (compare_trans s t u) (sym (compare.cons-cons x y s t) ∙ h)
        (sym (compare.cons-cons y z t u) ∙ k)
