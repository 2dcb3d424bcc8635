-- ===== src/Scenarios/Foreign.antt =====
-- A batch on the row of another market: two evidences of one known execution, of which the first
-- brings the venue id and the second the fee.
use omsrs.Prelude.{◌≡◌, refl, List, [], ◌∷◌, some, none, Option, true, arith}
use omsrs.BTreeMap.{lookup, insert}
use omsrs.Equality.{same_refl}
use omsrs.Execution.Staging.{core_disagree_qty_price_venue, fee_conflict}
use omsrs.Execution.Inventory.{get}
use omsrs.Execution.Adjudicate.{adjudicate_foreign, foreign_known, core_hit, fee_hit}
use omsrs.Execution.Outcomes.{plan_of, refused_plan, published_entry}
use omsrs.Lifecycle.Events.{OrderEvent}
use omsrs.Execution.Types.{ExecutionEvidence, OrderRow, InventoryEntry, LedgerId-discrete}
use omsrs.Execution.Batch.{
  plan_entries, plans_of, verdicts_of, adjudicate, is_foreign_row, core_call,
}
use omsrs.Execution.Trade.{planned}
use omsrs.Scenarios.{four}
use omsrs.Scenarios.Transactions.{live_row, seen, stocked, met}

abbrev foreign_row : OrderRow
foreign_row = record live_row { ctx = record (live_row.ctx) { market = "n" } }

abbrev by_venue : ExecutionEvidence
by_venue = record seen { venue_order_id = some "v"; fee_cents = none }

abbrev by_fee : ExecutionEvidence
by_fee = record seen { venue_order_id = none; fee_cents = some 2 }

abbrev stored : List ExecutionEvidence → Option InventoryEntry
stored es = lookup "f1" (plan_entries [] (planned foreign_row stocked (OrderEvent.fill four) es))

is_foreign : is_foreign_row stocked foreign_row ≡ true
is_foreign = ground (arith, same_refl LedgerId-discrete stocked.ledger)

stored_alone : stored (by_venue ∷ []) ≡ some (record met { venue_order_id = some "v" })
unfolding plan_entries plans_of verdicts_of adjudicate adjudicate_foreign foreign_known core_hit
    fee_hit core_disagree_qty_price_venue fee_conflict get lookup insert plan_of refused_plan
    published_entry core_call
stored_alone = rw (is_foreign, verdicts_of) refl

-- The venue id is lost, for the second upgrade starts from the entry that the inventory holds.
stored_twice : stored (by_venue ∷ by_fee ∷ []) ≡ some (record met { fee_cents = some 2 })
unfolding plan_entries plans_of verdicts_of adjudicate adjudicate_foreign foreign_known core_hit
    fee_hit core_disagree_qty_price_venue fee_conflict get lookup insert plan_of refused_plan
    published_entry core_call
stored_twice = rw (is_foreign, verdicts_of) refl

-- Nor is another venue id seen as a conflict.
stored_other :
    stored (by_venue ∷ record by_venue { venue_order_id = some "w" } ∷ [])
    ≡ some (record met { venue_order_id = some "w" })
unfolding plan_entries plans_of verdicts_of adjudicate adjudicate_foreign foreign_known core_hit
    fee_hit core_disagree_qty_price_venue fee_conflict get lookup insert plan_of refused_plan
    published_entry core_call
stored_other = rw (is_foreign, verdicts_of) refl
