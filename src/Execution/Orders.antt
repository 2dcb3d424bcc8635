-- ===== src/Execution/Orders.antt =====
-- src/execution.rs, lines 769 to 901: the debt of orders, `prepare_order_event`, and the
-- application of an order transaction.
use omsrs.Prelude.{
  ℕ, ◌+◌, ◌-◌, ◌==◌, Option, none, some, List, [], ◌∷◌, Bool, true, false, not, ◌||◌, ◌&&◌,
  is_empty, same_text, if◌then◌else◌,
}
use omsrs.Prelude.Words.{saturating_add}
use omsrs.Equality.{same, OrderState-discrete, OrderCtx-discrete}
use omsrs.Lifecycle.Types.{RejectReason}
use omsrs.Lifecycle.Events.{OrderEvent}
use omsrs.Lifecycle.Ctx.{OrderCtx}
use omsrs.Lifecycle.Outcome.{TransitionOutcome, effects, event_name}
use omsrs.Lifecycle.Apply.{apply_event}
use omsrs.Execution.Types.{
  OrderRow, OrderTxnRecord, JournalLine, OrderTransaction, PrepareError, ApplyMismatch, Result, ok,
  err, LedgerId-discrete,
}
use omsrs.Execution.Evidence.{
  split_effects, outcome_from_transition, state_after_transition, count_event_fills,
  event_has_identified_fills,
}

-- The fold of `execution_debt`: `saturating_sub` is the subtraction that stops at 0.
unfoldable pub execution_debt_from : ℕ → List OrderCtx → ℕ
execution_debt_from total [] = total
execution_debt_from total (ctx ∷ ctxs) =
    execution_debt_from (saturating_add total (ctx.fill_obligation - ctx.attributed_fill_qty)) ctxs

unfoldable pub execution_debt : List OrderCtx → ℕ
execution_debt ctxs = execution_debt_from 0 ctxs

-- A transaction that changes nothing, with the reason of a rejection if there is one.
unfoldable pub unchanged_txn : OrderRow → Option RejectReason → OrderTransaction
unchanged_txn order rejected = record {
  journal = none;
  effects = [];
  rejected = rejected;
  prepared_ledger = order.ledger;
  expected_cursor = order.cursor;
  expected_state = order.state;
  expected_ctx = order.ctx;
  state_after = order.state;
  ctx_after = order.ctx;
  advance_cursor = false;
  next_seq = order.cursor.seq;
}

unfoldable pub order_txn_record :
    OrderRow → OrderEvent → TransitionOutcome → OrderCtx → OrderTxnRecord
order_txn_record order event transition scratch_ctx = record {
  ledger = order.ledger;
  client_order_id = order.ctx.client_order_id;
  seq = order.cursor.seq + 1;
  event = event_name event;
  outcome = outcome_from_transition transition;
  core_records = (split_effects (effects transition)).0;
  state_after = state_after_transition transition order.state;
  ctx_after = scratch_ctx;
}

-- The state, the context or the effects show a change.
unfoldable pub transition_changed : OrderRow → TransitionOutcome → OrderCtx → Bool
transition_changed order transition scratch_ctx =
    let (core_records, non_journal) = split_effects (effects transition) in
    not (same OrderState-discrete (state_after_transition transition order.state) order.state)
    || not (same OrderCtx-discrete scratch_ctx order.ctx)
    || not (is_empty core_records)
    || not (is_empty non_journal)
    || not (is_empty (effects transition))

unfoldable pub changed_txn : OrderRow → OrderEvent → TransitionOutcome → OrderCtx → OrderTransaction
changed_txn order event transition scratch_ctx = record {
  journal = some (JournalLine.order_txn (order_txn_record order event transition scratch_ctx));
  effects = (split_effects (effects transition)).1;
  rejected = none;
  prepared_ledger = order.ledger;
  expected_cursor = order.cursor;
  expected_state = order.state;
  expected_ctx = order.ctx;
  state_after = state_after_transition transition order.state;
  ctx_after = scratch_ctx;
  advance_cursor = true;
  next_seq = order.cursor.seq + 1;
}

unfoldable pub transact : OrderRow → OrderEvent → TransitionOutcome × OrderCtx → OrderTransaction
transact order event (TransitionOutcome.rejected reason, scratch_ctx) =
    unchanged_txn order (some reason)
transact order event (TransitionOutcome.accepted s es, scratch_ctx) =
    let transition = TransitionOutcome.accepted s es in
    if transition_changed order transition scratch_ctx
    then changed_txn order event transition scratch_ctx
    else unchanged_txn order none
transact order event (TransitionOutcome.halted s reason es, scratch_ctx) =
    let transition = TransitionOutcome.halted s reason es in
    if transition_changed order transition scratch_ctx
    then changed_txn order event transition scratch_ctx
    else unchanged_txn order none

unfoldable pub prepare_order_event : OrderRow → OrderEvent → Result PrepareError OrderTransaction
prepare_order_event order event =
    if same_text order.ctx.market order.ledger.market
    then (if event_has_identified_fills event
        then err
            (PrepareError.fills_must_use_execution_api (event_name event) (count_event_fills event))
        else ok (transact order event (apply_event order.state order.ctx event)))
    else err (PrepareError.order_ref_inconsistent order.ledger.market order.ctx.market)

-- The row that `apply` writes, where its target is the one prepared for.
unfoldable pub apply_order_txn : OrderTransaction → OrderRow → Result ApplyMismatch OrderRow
apply_order_txn txn target =
    if same LedgerId-discrete target.ledger txn.prepared_ledger
    then (if target.cursor.seq == txn.expected_cursor.seq
        then (if same OrderState-discrete target.state txn.expected_state
              && same OrderCtx-discrete target.ctx txn.expected_ctx
            then ok (
                if txn.advance_cursor
                then record target {
                  state = txn.state_after;
                  ctx = txn.ctx_after;
                  cursor = record { seq = txn.next_seq };
                }
                else target)
            else err ApplyMismatch.order_state_or_ctx)
        else err (ApplyMismatch.order_cursor txn.expected_cursor.seq target.cursor.seq))
    else err ApplyMismatch.ledger_identity
