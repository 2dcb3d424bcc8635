-- ===== src/Scenarios/Amounts.antt =====
-- The theorem about quantities at a concrete input.
use omsrs.Prelude.Int.{pos}
use omsrs.Quantities.{update_quantity, Settled, update_quantity-Settled}

-- Of ten, three are filled; the pending ones are given wrongly.
update_quantity-Settled_example : Settled 10 (update_quantity (pos 10) (pos 3) (pos 9) (pos 0)) 0
update_quantity-Settled_example = update_quantity-Settled 10 3 9 0
