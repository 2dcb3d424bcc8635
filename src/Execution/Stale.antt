-- ===== src/Execution/Stale.antt =====
-- When a transaction is applied, and when it comes too late.
use omsrs.Prelude.{◌≡◌, Option, none, some, arith, inl, inr, Option-cases}
use omsrs.Equality.{eq_of_same, OrderState-discrete, OrderCtx-discrete}
use omsrs.Execution.Types.{
  OrderRow, MarketInventory, ExecutionTransaction, Result-cases, ok, LedgerId-discrete,
}
use omsrs.Execution.Commit.{apply_execution_txn, apply_row, write_row, apply_planned}

-- The row is the one that the transaction was prepared from.
pub record RowMatches (prepared target : OrderRow) : Type 0 where
  pub ledger : target.ledger ≡ prepared.ledger
  pub seq : target.cursor.seq ≡ prepared.cursor.seq
  pub state : target.state ≡ prepared.state
  pub ctx : target.ctx ≡ prepared.ctx

abbrev pub SameTarget : Option OrderRow → Option OrderRow → Type 0
SameTarget none none = Unit
SameTarget none (some target) = ⊥
SameTarget (some prepared) none = ⊥
SameTarget (some prepared) (some target) = RowMatches prepared target

abbrev pub row_after : ExecutionTransaction → Option OrderRow → Option OrderRow
row_after txn none = none
row_after txn (some target) = some (write_row txn target)

pub record Applied (txn : ExecutionTransaction) (target : Option OrderRow) (inv : MarketInventory)
    (row : Option OrderRow) (after : MarketInventory) : Type 0 where
  pub ledger : inv.ledger ≡ txn.prepared_inventory_ledger
  pub generation : inv.generation ≡ txn.expected_generation
  pub same_target : SameTarget txn.prepared_order target
  pub row_written : row ≡ row_after txn target
  pub inventory_written : after ≡ apply_planned txn inv

apply_row-ok :
    (txn : ExecutionTransaction) (prepared target row : OrderRow)
    → apply_row txn prepared target ≡ ok row
    → RowMatches prepared target × (row ≡ write_row txn target)
unfolding apply_row
apply_row-ok txn prepared target row h = ground (
  arith,
  eq_of_same LedgerId-discrete target.ledger prepared.ledger,
  eq_of_same OrderState-discrete target.state prepared.state,
  eq_of_same OrderCtx-discrete target.ctx prepared.ctx,
)

-- If an execution transaction is applied, the inventory has the ledger and the generation that it
-- was prepared from, a row is given exactly if it was prepared with one, that row has the ledger,
-- cursor, state and context of the preparation, and the results are the row and the inventory that
-- the transaction plans.
pub apply_execution_txn-Applied :
    (txn : ExecutionTransaction) (target row : Option OrderRow) (inv after : MarketInventory)
    → apply_execution_txn txn target inv ≡ ok (row, after)
    → Applied txn target inv row after
unfolding apply_execution_txn
apply_execution_txn-Applied txn none row inv after h = elim (Option-cases txn.prepared_order) [
  | inl e ↦ record {
    ledger = ground (arith, eq_of_same LedgerId-discrete inv.ledger txn.prepared_inventory_ledger);
    generation = ground arith;
    same_target = rw e tt;
    row_written = ground arith;
    inventory_written = ground arith;
  }
  | inr (prepared, e) ↦ absurd (ground arith)
]
apply_execution_txn-Applied txn (some target) row inv after h =
    elim (Option-cases txn.prepared_order) [
      | inl e ↦ absurd (ground arith)
      | inr (prepared, e) ↦ elim (Result-cases (apply_row txn prepared target)) [
        | inl (r, done) ↦ record {
          ledger =
              ground (arith, eq_of_same LedgerId-discrete inv.ledger txn.prepared_inventory_ledger);
          generation = ground arith;
          same_target = rw e (apply_row-ok txn prepared target r done).0;
          row_written = ground (arith, apply_row-ok txn prepared target r done);
          inventory_written = ground arith;
        }
        | inr (mismatch, refused) ↦ absurd (ground arith)
      ]
    ]
