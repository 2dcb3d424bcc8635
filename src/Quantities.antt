-- ===== src/Quantities.antt =====
-- src/utils.rs, lines 14 to 27 and 99 to 121: the quantities of an order, brought to their total.
-- An i64 is an integer without bound: between quantities that are not negative, no sum or
-- difference of the source leaves the range.
use mathlib.Core.Path.{subst}
use omsrs.Prelude.{ℕ, zero, suc, ◌<◌, Bool, ◌+◌, ◌-◌, ◌≡◌, arith, leb, if◌then◌else◌}
use omsrs.Prelude.Int.{ℤ, pos, leb_ℤ, ◌-ℤ◌}

pub record Uqty : Type 0 where
  pub q : ℤ
  pub f : ℤ
  pub p : ℤ
  pub c : ℤ

abbrev min_ℤ : ℤ → ℤ → ℤ
min_ℤ a b = if leb_ℤ a b then a else b

abbrev is_positive : ℤ → Bool
is_positive a = leb_ℤ (pos 1) a

-- A cancelled quantity comes before a filled one, and that before a pending one.
unfoldable pub update_quantity : ℤ → ℤ → ℤ → ℤ → Uqty
update_quantity q f p c =
    if is_positive c
    then (let c' = min_ℤ c q in
        let f' = q -ℤ c' in record { q = q; f = f'; p = q -ℤ c' -ℤ f'; c = c' })
    else if is_positive f
    then (let f' = min_ℤ f q in record { q = q; f = f'; p = q -ℤ f'; c = c })
    else if is_positive p
    then (let p' = min_ℤ p q in record { q = q; f = q -ℤ p'; p = p'; c = c })
    else record { q = q; f = f; p = q -ℤ p; c = c }

-- The quantities `f`, `p` and `c` of a total `q`, none negative.
abbrev pub split : ℕ → ℕ → ℕ → ℕ → Uqty
split q f p c = record { q = pos q; f = pos f; p = pos p; c = pos c }

abbrev pub min_ℕ : ℕ → ℕ → ℕ
min_ℕ a b = if leb a b then a else b

-- The parts of a total: none is negative, and a second run changes nothing.
abbrev pub Settled : ℕ → Uqty → ℕ → Type 0
Settled q r c' =
    (f' : ℕ) × (p' : ℕ) × (r ≡ split q f' p' c')
    × (f' + p' + c' ≡ q)
    × (update_quantity (pos q) (pos f') (pos p') (pos c') ≡ split q f' p' c')

cancelled-Settled :
    (q f p c : ℕ) → 0 < c → Settled q (update_quantity (pos q) (pos f) (pos p) (pos c)) (min_ℕ c q)
unfolding update_quantity ◌-ℤ◌
cancelled-Settled q f p c h =
    (q - min_ℕ c q, 0, ground (arith, h), ground (arith, h), ground (arith, h))

filled-Settled : (q f p : ℕ) → 0 < f → Settled q (update_quantity (pos q) (pos f) (pos p) (pos 0)) 0
unfolding update_quantity ◌-ℤ◌
filled-Settled q f p h =
    (min_ℕ f q, q - min_ℕ f q, ground (arith, h), ground (arith, h), ground (arith, h))

pending-Settled : (q p : ℕ) → 0 < p → Settled q (update_quantity (pos q) (pos 0) (pos p) (pos 0)) 0
unfolding update_quantity ◌-ℤ◌
pending-Settled q p h =
    (q - min_ℕ p q, min_ℕ p q, ground (arith, h), ground (arith, h), ground (arith, h))

fresh-Settled : (q : ℕ) → Settled q (update_quantity (pos q) (pos 0) (pos 0) (pos 0)) 0
unfolding update_quantity ◌-ℤ◌
fresh-Settled q = (0, q, ground arith, ground arith, ground arith)

uncancelled-Settled : (q f p : ℕ) → Settled q (update_quantity (pos q) (pos f) (pos p) (pos 0)) 0
uncancelled-Settled q (suc f) p = filled-Settled q (suc f) p (omega arith)
uncancelled-Settled q zero (suc p) = pending-Settled q (suc p) (omega arith)
uncancelled-Settled q zero zero = fresh-Settled q

min_zero : (q : ℕ) → 0 ≡ min_ℕ 0 q
min_zero q = ground arith

-- For quantities that are not negative, update_quantity returns the given total with parts that
-- are not negative and add up to it, of which the cancelled part is the given one, cut off at the
-- total. Given these parts, update_quantity returns them again.
pub update_quantity-Settled :
    (q f p c : ℕ) → Settled q (update_quantity (pos q) (pos f) (pos p) (pos c)) (min_ℕ c q)
update_quantity-Settled q f p (suc c) = cancelled-Settled q f p (suc c) (omega arith)
update_quantity-Settled q f p zero =
    subst (Settled q (update_quantity (pos q) (pos f) (pos p) (pos 0))) (min_zero q)
      (uncancelled-Settled q f p)
