-- ===== src/Execution/Transact.antt =====
-- What a prepared order transaction does to the row that it is applied to.
use omsrs.Prelude.{if◌then◌else◌, ◌+◌, ◌≡◌, ◌≢◌, sym, ap, ◌∙◌, ◌⊎◌, true, false, arith}
use omsrs.Equality.{same_of_eq, eq_of_same, OrderState-discrete, OrderCtx-discrete}
use omsrs.Lifecycle.Types.{OrderState}
use omsrs.Lifecycle.Events.{OrderEvent}
use omsrs.Lifecycle.Outcome.{TransitionOutcome, is_reject}
use omsrs.Lifecycle.Apply.{apply_event}
use omsrs.Lifecycle.Ctx.{OrderCtx}
use omsrs.Execution.Types.{OrderRow, OrderTransaction, ApplyMismatch, ok, err, LedgerId-discrete}
use omsrs.Execution.Evidence.{state_after_transition}
use omsrs.Execution.Orders.{
  prepare_order_event, transact, transition_changed, changed_txn, unchanged_txn, apply_order_txn,
}

-- The target is the row that the transaction was prepared for.
pub record Matches (txn : OrderTransaction) (target : OrderRow) : Type 0 where
  pub ledger : target.ledger ≡ txn.prepared_ledger
  pub seq : target.cursor.seq ≡ txn.expected_cursor.seq
  pub state : target.state ≡ txn.expected_state
  pub ctx : target.ctx ≡ txn.expected_ctx

-- What the row becomes.
abbrev pub written : OrderTransaction → OrderRow → OrderRow
written txn target = elim txn.advance_cursor [
  | true ↦ record target {
    state = txn.state_after;
    ctx = txn.ctx_after;
    cursor = record { seq = txn.next_seq };
  }
  | false ↦ target
]

pub apply-of_Matches :
    (txn : OrderTransaction) (target : OrderRow)
    → Matches txn target
    → apply_order_txn txn target ≡ ok (written txn target)
unfolding apply_order_txn
apply-of_Matches txn target m = ground (
  arith,
  same_of_eq LedgerId-discrete target.ledger txn.prepared_ledger m.ledger,
  same_of_eq OrderState-discrete target.state txn.expected_state m.state,
  same_of_eq OrderCtx-discrete target.ctx txn.expected_ctx m.ctx,
)

-- If an order transaction is applied to a row, the row has the ledger, cursor, state and context
-- that the transaction was prepared from, and the result is the row with the planned state,
-- context and cursor if the transaction advances, and the row itself otherwise.
pub apply_order_txn-Matches :
    (txn : OrderTransaction) (target r : OrderRow)
    → apply_order_txn txn target ≡ ok r
    → Matches txn target × (r ≡ written txn target)
unfolding apply_order_txn
apply_order_txn-Matches txn target r h = ground (
  arith,
  eq_of_same LedgerId-discrete target.ledger txn.prepared_ledger,
  eq_of_same OrderState-discrete target.state txn.expected_state,
  eq_of_same OrderCtx-discrete target.ctx txn.expected_ctx,
)

-- The state after an outcome of `apply_event`: the new one, and after a rejection the one before.
abbrev pub Lands : TransitionOutcome → OrderState → OrderState → Type 0
Lands (TransitionOutcome.accepted new_state es) before after = after ≡ new_state
Lands (TransitionOutcome.halted new_state reason es) before after = after ≡ new_state
Lands (TransitionOutcome.rejected reason) before after = after ≡ before

-- What a row becomes by the outcome of `apply_event` and the context that it left.
pub record Realizes (row : OrderRow) (o : TransitionOutcome × OrderCtx) (r : OrderRow)
    : Type 0 where
  pub ledger : r.ledger ≡ row.ledger
  pub state : Lands o.0 row.state r.state
  pub ctx : r.ctx ≡ (if is_reject o.0 then row.ctx else o.1)
  pub numbered : (r ≡ row) ⊎ (r.cursor.seq ≡ row.cursor.seq + 1)

pub transact-Matches :
    (row : OrderRow) (ev : OrderEvent) (o : TransitionOutcome × OrderCtx)
    → Matches (transact row ev o) row
unfolding transact changed_txn unchanged_txn
transact-Matches row ev (TransitionOutcome.rejected reason, c) = ground arith
transact-Matches row ev (TransitionOutcome.accepted s es, c) = ground arith
transact-Matches row ev (TransitionOutcome.halted s reason es, c) = ground arith

-- A transition that is not seen as a change leaves the state and the context.
pub unseen_change :
    (row : OrderRow) (t : TransitionOutcome) (c : OrderCtx)
    → transition_changed row t c ≡ false
    → (state_after_transition t row.state ≡ row.state) × (c ≡ row.ctx)
unfolding transition_changed
unseen_change row t c h = ground (
  arith,
  eq_of_same OrderState-discrete (state_after_transition t row.state) row.state,
  eq_of_same OrderCtx-discrete c row.ctx,
)

transact-Realizes :
    (row : OrderRow) (ev : OrderEvent) (o : TransitionOutcome × OrderCtx)
    → Realizes row o (written (transact row ev o) row)
unfolding transact changed_txn unchanged_txn
transact-Realizes row ev (TransitionOutcome.rejected reason, c) = ground arith
transact-Realizes row ev (TransitionOutcome.accepted s es, c) =
    ground (arith, unseen_change row (TransitionOutcome.accepted s es) c)
transact-Realizes row ev (TransitionOutcome.halted s reason es, c) =
    ground (arith, unseen_change row (TransitionOutcome.halted s reason es) c)

pub prepare-ok :
    (row : OrderRow) (ev : OrderEvent) (txn : OrderTransaction)
    → prepare_order_event row ev ≡ ok txn
    → txn ≡ transact row ev (apply_event row.state row.ctx ev)
unfolding prepare_order_event
prepare-ok row ev txn h = ground arith

pub prepared-Matches :
    (row : OrderRow) (ev : OrderEvent) (txn : OrderTransaction)
    → prepare_order_event row ev ≡ ok txn
    → Matches txn row
prepared-Matches row ev txn h =
    rw (prepare-ok row ev txn h) (transact-Matches row ev (apply_event row.state row.ctx ev))

-- If prepare_order_event accepts an event for a row, its transaction can be applied to that row,
-- and the result has the same ledger, the state of apply_event's outcome (the prior state after a
-- rejection), the context that apply_event left (the prior context after a rejection), and either
-- is the row itself or has a cursor one higher.
pub prepare_order_event-Realizes :
    (row : OrderRow) (ev : OrderEvent) (txn : OrderTransaction)
    → prepare_order_event row ev ≡ ok txn
    → (r : OrderRow) × (apply_order_txn txn row ≡ ok r)
      × Realizes row (apply_event row.state row.ctx ev) r
prepare_order_event-Realizes row ev txn h = (
  written txn row,
  apply-of_Matches txn row (prepared-Matches row ev txn h),
  rw (prepare-ok row ev txn h) (transact-Realizes row ev (apply_event row.state row.ctx ev)),
)

transact-next :
    (row : OrderRow) (ev : OrderEvent) (o : TransitionOutcome × OrderCtx)
    → (transact row ev o).advance_cursor ≡ true
    → (transact row ev o).next_seq ≡ row.cursor.seq + 1
unfolding transact changed_txn unchanged_txn
transact-next row ev (TransitionOutcome.rejected reason, c) h = ground arith
transact-next row ev (TransitionOutcome.accepted s es, c) h = ground arith
transact-next row ev (TransitionOutcome.halted s reason es, c) h = ground arith

prepared-next :
    (row : OrderRow) (ev : OrderEvent) (txn : OrderTransaction)
    → prepare_order_event row ev ≡ ok txn
    → txn.advance_cursor ≡ true
    → txn.next_seq ≡ row.cursor.seq + 1
prepared-next row ev txn h moved =
    let e : txn ≡ transact row ev (apply_event row.state row.ctx ev) = prepare-ok row ev txn h in
    rw e (
      transact-next row ev (apply_event row.state row.ctx ev)
        (sym (ap (λ t. t.advance_cursor) e) ∙ moved))

refused_cursor :
    (txn : OrderTransaction) (target : OrderRow)
    → target.ledger ≡ txn.prepared_ledger
    → target.cursor.seq ≢ txn.expected_cursor.seq
    → apply_order_txn txn target
      ≡ err (ApplyMismatch.order_cursor txn.expected_cursor.seq target.cursor.seq)
unfolding apply_order_txn
refused_cursor txn target l n =
    ground (arith, same_of_eq LedgerId-discrete target.ledger txn.prepared_ledger l)

-- Of two transactions that were prepared from the same row, once the first is applied and moves
-- the cursor, the second is refused with an OrderCursor mismatch that expects the row's cursor and
-- finds the next one.
pub apply_order_txn-stale :
    (row r : OrderRow) (first second : OrderEvent) (txn late : OrderTransaction)
    → prepare_order_event row first ≡ ok txn
    → prepare_order_event row second ≡ ok late
    → txn.advance_cursor ≡ true
    → apply_order_txn txn row ≡ ok r
    → apply_order_txn late r ≡ err (ApplyMismatch.order_cursor row.cursor.seq (row.cursor.seq + 1))
apply_order_txn-stale row r first second txn late h k moved done =
    let m = prepared-Matches row second late k in
    let e : r ≡ written txn row = (apply_order_txn-Matches txn row r done).1 in
    let next : txn.next_seq ≡ row.cursor.seq + 1 = prepared-next row first txn h moved in
    let seq : r.cursor.seq ≡ row.cursor.seq + 1 = ground arith in
    let same_ledger : r.ledger ≡ late.prepared_ledger = ground (arith, m.ledger) in
    let refused = refused_cursor late r same_ledger (ground (arith, m.seq)) in
    cc (refused, m.seq, seq)
