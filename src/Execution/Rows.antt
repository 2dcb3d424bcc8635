-- ===== src/Execution/Rows.antt =====
-- What an applied batch does to the row of its order, and what its line in the journal restores.
use omsrs.Prelude.{◌+◌, ◌≡◌, refl, sym, ◌⊎◌, inl, inr, none, some, List, arith, Bool-cases}
use omsrs.Equality.{same_refl, OrderState-discrete, OrderCtx-discrete}
use omsrs.Lifecycle.Events.{OrderEvent}
use omsrs.Execution.Types.{
  ExecutionEvidence, OrderRow, OrderTxnRecord, ExecutionTxnRecord, JournalLine, MarketInventory,
  ExecutionTransaction, ok, LedgerId-discrete,
}
use omsrs.Execution.Evidence.{state_after_transition}
use omsrs.Execution.Orders.{transition_changed, order_txn_record}
use omsrs.Execution.Restore.{restored_row}
use omsrs.Execution.Transact.{unseen_change}
use omsrs.Execution.NoRow.{Plan, execution_line}
use omsrs.Execution.Batch.{
  CoreCall, core_call, verdicts_of, admitted_of, is_foreign_row, order_part_of, batch_txn, batch_of,
  plans_of, outcomes_of, batch_ctx, batch_outcome, prepare_execution_batch,
}
use omsrs.Execution.Outcomes.{plan_of}
use omsrs.Execution.Commit.{apply_execution_txn, apply_row, apply_planned, write_row}

-- The call of the order core that a batch makes.
abbrev pub batch_call : OrderRow → MarketInventory → OrderEvent → List ExecutionEvidence → CoreCall
batch_call order inv event es =
    let (pre, staging) = verdicts_of inv order es in
    core_call order (is_foreign_row inv order) event pre (admitted_of 0 staging pre)

-- The row after a call of the order core, or after none.
abbrev pub Follows : OrderRow → CoreCall → OrderRow → Type 0
Follows order none r = r ≡ order
Follows order (some (transition, ctx)) r =
    (r.ledger ≡ order.ledger)
    × (r.state ≡ state_after_transition transition order.state)
    × (r.ctx ≡ ctx)

-- The row stays, or the journal line of the transaction holds the snapshot that restores it.
abbrev pub Restorable : OrderRow → ExecutionTransaction → OrderRow → Type 0
Restorable order txn r =
    (r ≡ order)
    ⊎ ((line : ExecutionTxnRecord) × (o : OrderTxnRecord) × (txn.journal
          ≡ some (JournalLine.execution_txn line))
        × (line.order ≡ some o)
        × (o.seq ≡ order.cursor.seq + 1)
        × (r ≡ restored_row order.ledger o))

batch-Follows :
    (order : OrderRow) (inv : MarketInventory) (event : OrderEvent) (call : CoreCall)
    (plans : List Plan)
    → Follows order call (write_row (batch_txn order inv event call plans) order)
unfolding batch_txn write_row order_part_of order_txn_record
batch-Follows order inv event none plans = refl
batch-Follows order inv event (some (transition, ctx)) plans =
    elim (Bool-cases (transition_changed order transition ctx)) [
      | inl seen ↦ rw seen (refl, refl, refl)
      | inr unseen ↦
          let (state, context) = unseen_change order transition ctx unseen in
          rw unseen (refl, sym state, sym context)
    ]

batch-Restorable :
    (order : OrderRow) (inv : MarketInventory) (event : OrderEvent) (call : CoreCall)
    (plans : List Plan)
    → Restorable order
        (batch_txn order inv event call plans)
        (write_row (batch_txn order inv event call plans) order)
unfolding batch_txn write_row order_part_of execution_line order_txn_record
batch-Restorable order inv event none plans = inl refl
batch-Restorable order inv event (some (transition, ctx)) plans =
    elim (Bool-cases (transition_changed order transition ctx)) [
      | inl seen ↦
          let o = order_txn_record order event transition ctx in
          inr (
            record {
              ledger = inv.ledger;
              inventory_generation_before = inv.generation;
              executions = outcomes_of plans;
              order = some o;
            },
            o,
            ground (arith, seen),
            refl,
            refl,
            ground (arith, seen),
          )
      | inr unseen ↦ rw unseen (inl refl)
    ]

pub apply_batch-ok :
    (order : OrderRow) (inv : MarketInventory) (event : OrderEvent) (call : CoreCall)
    (plans : List Plan)
    → apply_execution_txn (batch_txn order inv event call plans) (some order) inv
      ≡ ok (
        some (write_row (batch_txn order inv event call plans) order),
        apply_planned (batch_txn order inv event call plans) inv,
      )
unfolding batch_txn apply_execution_txn apply_row
apply_batch-ok order inv event call plans = ground (
  arith,
  same_refl LedgerId-discrete inv.ledger,
  same_refl LedgerId-discrete order.ledger,
  same_refl OrderState-discrete order.state,
  same_refl OrderCtx-discrete order.ctx,
)

-- A batch that is prepared against a row and an inventory is applied to them. The row follows the
-- call of the order core that the batch made: without a call it stays, and after a call it has the
-- state of the transition (the prior state after a rejection) and the context that the core left.
-- Either the row is unchanged, or the journal line of the transaction holds an order snapshot,
-- numbered one above the row's cursor, that restores exactly this row.
pub prepare_execution_batch-Follows :
    (order : OrderRow) (inv : MarketInventory) (event : OrderEvent) (es : List ExecutionEvidence)
    (txn : ExecutionTransaction)
    → prepare_execution_batch order inv event es ≡ ok txn
    → (r : OrderRow) × (apply_execution_txn txn (some order) inv
        ≡ ok (some r, apply_planned txn inv))
      × Follows order (batch_call order inv event es) r
      × Restorable order txn r
unfolding prepare_execution_batch batch_of
prepare_execution_batch-Follows order inv event es txn h =
    let (pre, staging) = verdicts_of inv order es in
    let call = batch_call order inv event es in
    let plans =
      plans_of
        (plan_of inv order (is_foreign_row inv order) staging (batch_ctx order call)
          (batch_outcome call))
        pre in
    let e : txn ≡ batch_txn order inv event call plans = ground (arith, h) in
    rw e (
      write_row (batch_txn order inv event call plans) order,
      apply_batch-ok order inv event call plans,
      batch-Follows order inv event call plans,
      batch-Restorable order inv event call plans,
    )
