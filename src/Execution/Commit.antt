-- ===== src/Execution/Commit.antt =====
-- src/execution.rs, lines 2077 to 2136: an execution transaction is applied to the inventory and
-- to the row that it was prepared for.
use omsrs.Prelude.{◌==◌, Option, none, some, [], ◌∷◌, true, false, ◌&&◌, if◌then◌else◌}
use omsrs.Prelude.Words.{saturating_add}
use omsrs.Equality.{same, OrderState-discrete, OrderCtx-discrete}
use omsrs.BTreeMap.{BTreeMap, insert}
use omsrs.Execution.Types.{
  InventoryEntry, ConflictFact, MarketInventory, OrderRow, ExecutionTransaction, ApplyMismatch,
  Result, ok, err, LedgerId-discrete,
}

unfoldable pub apply_entries : BTreeMap InventoryEntry → MarketInventory → MarketInventory
apply_entries [] inv = inv
apply_entries ((id, entry) ∷ planned) inv = apply_entries planned (record inv {
  entries = insert id entry inv.entries;
  generation = saturating_add inv.generation 1;
})

unfoldable pub apply_conflicts : BTreeMap ConflictFact → MarketInventory → MarketInventory
apply_conflicts [] inv = inv
apply_conflicts ((id, fact) ∷ planned) inv = apply_conflicts planned (record inv {
  conflicts = insert id fact inv.conflicts;
  generation = saturating_add inv.generation 1;
})

unfoldable pub apply_planned : ExecutionTransaction → MarketInventory → MarketInventory
apply_planned txn inv =
    apply_conflicts txn.planned_conflicts (apply_entries txn.planned_entries inv)

unfoldable pub write_row : ExecutionTransaction → OrderRow → OrderRow
write_row txn target =
    if txn.advance_cursor
    then elim txn.order_after [
      | none ↦ target
      | some (state, ctx) ↦ record target {
        state = state;
        ctx = ctx;
        cursor = record { seq = txn.next_seq };
      }
    ]
    else target

-- The row against the one of the preparation.
unfoldable pub apply_row :
    ExecutionTransaction → OrderRow → OrderRow → Result ApplyMismatch OrderRow
apply_row txn prepared target =
    if same LedgerId-discrete target.ledger prepared.ledger
    then (if target.cursor.seq == prepared.cursor.seq
        then (if same OrderState-discrete target.state prepared.state
              && same OrderCtx-discrete target.ctx prepared.ctx
            then ok (write_row txn target)
            else err ApplyMismatch.order_state_or_ctx)
        else err (ApplyMismatch.order_cursor prepared.cursor.seq target.cursor.seq))
    else err ApplyMismatch.ledger_identity

-- The row, if there is one, and the inventory after the transaction.
unfoldable pub apply_execution_txn :
    ExecutionTransaction
    → Option OrderRow
    → MarketInventory
    → Result ApplyMismatch (Option OrderRow × MarketInventory)
apply_execution_txn txn none inv = elim txn.prepared_order [
  | some _ ↦ err (ApplyMismatch.order_target true false)
  | none ↦
      if same LedgerId-discrete inv.ledger txn.prepared_inventory_ledger
      then (if inv.generation == txn.expected_generation
          then ok (none, apply_planned txn inv)
          else err (ApplyMismatch.inventory_generation txn.expected_generation inv.generation))
      else err ApplyMismatch.ledger_identity
]
apply_execution_txn txn (some target) inv = elim txn.prepared_order [
  | none ↦ err (ApplyMismatch.order_target false true)
  | some prepared ↦
      if same LedgerId-discrete inv.ledger txn.prepared_inventory_ledger
      then (if inv.generation == txn.expected_generation
          then elim (apply_row txn prepared target) [
            | ok row ↦ ok (some row, apply_planned txn inv)
            | err mismatch ↦ err mismatch
          ]
          else err (ApplyMismatch.inventory_generation txn.expected_generation inv.generation))
      else err ApplyMismatch.ledger_identity
]
