-- ===== src/Lifecycle/Events.antt =====
-- src/lifecycle.rs, lines 394 to 764: the events of an order, the journal records and the effects.
-- A record that only execution.rs and observation.rs write is kept without its payload, which no
-- function of lifecycle.rs reads; so is the outcome that an observation round publishes.
use omsrs.Prelude.{ℕ, Option, List, Bool, true, false}
use omsrs.Prelude.Int.{ℤ}
use omsrs.Lifecycle.Types.{
  ClientOrderId, VenueOrderId, FillId, AttemptId, SubmissionCloseReason, HaltReason, CancelOutcome,
  SnapshotBoundary, FillRecord, BackfillOrderRecord, BackfillOrderStatus,
}

pub data OrderEvent : Type 0 where
  prepare_submit : OrderEvent
  start_submit : (attempt_id : AttemptId) → OrderEvent
  submit_response :
      (venue_order_id : VenueOrderId) (fill_count remaining_count : ℕ)
      (avg_price_cents fee_cents : Option ℕ) (snapshot_boundary : Option SnapshotBoundary)
      → OrderEvent
  submit_timeout : OrderEvent
  user_order_resting_claim : (venue_order_id : VenueOrderId) (remaining : ℕ) → OrderEvent
  user_order_terminal_claim :
      (venue_order_id : VenueOrderId) (filled : ℕ) (executed : Bool) → OrderEvent
  fill : FillRecord → OrderEvent
  cancel_requested : OrderEvent
  cancel_outcome : CancelOutcome → OrderEvent
  unknown_backfill_result : (exhaustive : Bool) (matched : List BackfillOrderRecord) → OrderEvent
  immediate_fill_backfill_result : (fills : List FillRecord) → OrderEvent
  backfill_deadline_elapsed : OrderEvent
  request_resubmit : (venue_idempotent_proven : Bool) → OrderEvent
  reconcile_result :
      (status : BackfillOrderStatus) (venue_order_id : Option VenueOrderId)
      (filled_qty remaining_qty : ℕ) (fills : List FillRecord) (authority_complete : Bool)
      → OrderEvent
  decrease_observed : (remaining : ℕ) (ts_ms : ℤ) → OrderEvent
  amend_observed : OrderEvent
  close_submission : (reason : SubmissionCloseReason) → OrderEvent

pub data OwnActionKind : Type 0 where
  decrease : (remaining : ℕ) (ts_ms : ℤ) → OwnActionKind
  amend : OwnActionKind

pub data TerminalKind : Type 0 where
  filled canceled terminal : TerminalKind

-- The records of the transaction and observation layers.
pub data ScopedRecord : Type 0 where
  order_txn execution_txn observation_txn amend_lineage user_order_received : ScopedRecord
  user_order_quarantined order_authority_hold user_order_staged order_state_txn : ScopedRecord
  rest_order_proof_txn : ScopedRecord

pub data JournalRecord : Type 0 where
  submit_prepared : (client_order_id : ClientOrderId) → JournalRecord
  submit_started : (attempt_id : AttemptId) → JournalRecord
  submit_response :
      (venue_order_id : VenueOrderId) (fill_count remaining_count : ℕ)
      (avg_price_cents fee_cents : Option ℕ) (snapshot_boundary : Option SnapshotBoundary)
      → JournalRecord
  submit_unknown : JournalRecord
  submit_unknown_cid : (client_order_id : ClientOrderId) → JournalRecord
  fill :
      (fill_id : FillId) (qty price_cents : ℕ) (ts_ns : ℤ) (fee_cents : Option ℕ)
      (venue_order_id : Option VenueOrderId)
      → JournalRecord
  fill_cid :
      (client_order_id : ClientOrderId) (fill_id : FillId) (qty price_cents : ℕ) (ts_ns : ℤ)
      (fee_cents : Option ℕ) (venue_order_id : Option VenueOrderId)
      → JournalRecord
  fee_correction : (fill_id : FillId) (delta_fee_cents : ℕ) → JournalRecord
  cancel_requested : JournalRecord
  cancel_outcome : CancelOutcome → JournalRecord
  cancel_requested_cid : (client_order_id : ClientOrderId) → JournalRecord
  cancel_outcome_cid : (client_order_id : ClientOrderId) (outcome : CancelOutcome) → JournalRecord
  venue_bound_cid :
      (client_order_id : ClientOrderId) (venue_order_id : VenueOrderId) → JournalRecord
  immediate_fill_unattributed :
      (venue_order_id : VenueOrderId) (fill_count remaining_count : ℕ)
      (avg_price_cents fee_cents : Option ℕ)
      → JournalRecord
  immediate_fill_unresolved : JournalRecord
  immediate_fill_unresolved_cid : (client_order_id : ClientOrderId) → JournalRecord
  unknown_no_match : JournalRecord
  unknown_no_match_cid : (client_order_id : ClientOrderId) → JournalRecord
  halted : (reason : HaltReason) → JournalRecord
  venue_bound : (venue_order_id : VenueOrderId) → JournalRecord
  obligation_raised : (fill_obligation authority_epoch : ℕ) → JournalRecord
  authority_latched : (epoch : ℕ) → JournalRecord
  authority_invalidated : (epoch : ℕ) → JournalRecord
  reconcile_observed :
      (venue_order_id : VenueOrderId)
      (venue_filled_qty venue_remaining_qty other_members_filled : ℕ)
      (shell_authority_complete : Bool) (authority_epoch : ℕ)
      → JournalRecord
  order_terminal :
      (kind : TerminalKind) (venue_order_id : Option VenueOrderId) (fill_obligation : ℕ)
      (authority_complete : Bool) (authority_epoch attributed_fill_qty attributed_fee_cents : ℕ)
      → JournalRecord
  scoped : ScopedRecord → JournalRecord
  own_action_cid : (client_order_id : ClientOrderId) (kind : OwnActionKind) → JournalRecord

pub data Effect : Type 0 where
  append_fsync : JournalRecord → Effect
  backfill_fills : (venue_order_id : VenueOrderId) → Effect
  backfill_unknown : (client_order_id : ClientOrderId) → Effect
  reconcile_cancel : (venue_order_id : Option VenueOrderId) → Effect
  request_authority_reconcile :
      (venue_order_id : Option VenueOrderId) (client_order_id : ClientOrderId) → Effect
  account_fill : (fill_id : FillId) (qty price_cents : ℕ) (ts_ns : ℤ) (fee_cents : ℕ) → Effect
  account_fee_correction : (fill_id : FillId) (delta_fee_cents : ℕ) → Effect
  release_reservation : Effect
  reserve_full : Effect
  halt_new_exposure : Effect
  observation : Effect

unfoldable pub fill_journal_record :
    ClientOrderId → FillId → ℕ → ℕ → ℤ → Option ℕ → Option VenueOrderId → JournalRecord
fill_journal_record = JournalRecord.fill_cid

unfoldable pub is_resubmit : Effect → Bool
is_resubmit _ = false

unfoldable pub is_io_effect : Effect → Bool
is_io_effect (Effect.append_fsync _) = true
is_io_effect (Effect.backfill_fills _) = true
is_io_effect (Effect.backfill_unknown _) = true
is_io_effect (Effect.reconcile_cancel _) = true
is_io_effect (Effect.request_authority_reconcile _ _) = true
is_io_effect Effect.halt_new_exposure = true
is_io_effect Effect.reserve_full = true
is_io_effect _ = false

unfoldable pub is_account_fill : Effect → Bool
is_account_fill (Effect.account_fill _ _ _ _ _) = true
is_account_fill _ = false

unfoldable pub is_fee_correction : Effect → Bool
is_fee_correction (Effect.account_fee_correction _ _) = true
is_fee_correction _ = false
