-- ===== src/Lifecycle/Types.antt =====
-- src/lifecycle.rs, lines 42 to 392: identities, order states, reasons, and the rows that the shell
-- injects. A newtype over `String` is the text itself; a struct-like variant keeps its field names.
use omsrs.Prelude.{ℕ, String, Option, List, [], ◌∷◌, Bool, true, false}
use omsrs.Prelude.Int.{ℤ}
use omsrs.Prelude.Text.{show, concat}

abbrev pub ClientOrderId : Type 0
ClientOrderId = String

abbrev pub VenueOrderId : Type 0
VenueOrderId = String

abbrev pub FillId : Type 0
FillId = String

abbrev pub AttemptId : Type 0
AttemptId = String

pub data Side : Type 0 where
  buy_yes sell_yes : Side

unfoldable pub derive_client_order_id : String → String → ℕ → ClientOrderId
derive_client_order_id market strategy seq = concat (market ∷ "|" ∷ strategy ∷ "|" ∷ show seq ∷ [])

pub data SubmissionCloseReason : Type 0 where
  local_not_sent definite_failure exhaustive_absent : SubmissionCloseReason

pub data ReconcileTerminal : Type 0 where
  canceled filled terminal : ReconcileTerminal

pub record ReconcileTarget : Type 0 where
  pub terminal : ReconcileTerminal
  pub venue_filled_qty : ℕ
  pub venue_remaining_qty : Option ℕ

pub data HaltReason : Type 0 where
  immediate_fill_cross_check_mismatch :
      (response_fill_count attributed_fill_qty response_remaining_count implied_remaining : ℕ)
      → HaltReason
  cross_check_mismatch : (detail : String) → HaltReason
  immediate_fill_unresolved : HaltReason
  unknown_no_match : HaltReason
  unproven_idempotent_resubmit : HaltReason
  post_terminal_fill : HaltReason
  over_fill : (attributed_fill_qty fill_qty order_qty : ℕ) → HaltReason
  response_zero_but_local_fills : (attributed_fill_qty remaining_count : ℕ) → HaltReason
  ambiguous_match : (count : ℕ) → HaltReason
  conflicting_fill_payload : (fill_id : FillId) → HaltReason
  fee_arrived_after_none : (fill_id : FillId) → HaltReason
  fee_overflow : (fill_id : FillId) → HaltReason
  fill_ownership_mismatch : (fill_id : FillId) (expected got : VenueOrderId) → HaltReason
  ownership_conflict : (expected got : VenueOrderId) → HaltReason
  obligation_exceeds_order_qty : (fill_obligation order_qty : ℕ) → HaltReason
  unverified_fill_provenance : (fill_id : FillId) → HaltReason
  operator : String → HaltReason

pub data OrderState : Type 0 where
  new : OrderState
  submit_prepared : OrderState
  submit_started : (attempt_id : AttemptId) → OrderState
  submit_unknown : OrderState
  accepted : (venue_order_id : VenueOrderId) → OrderState
  partial : (venue_order_id : VenueOrderId) (filled_qty remaining_qty : ℕ) → OrderState
  filled : OrderState
  cancel_pending :
      (venue_order_id : VenueOrderId) (filled_qty remaining_qty : ℕ)
      (response_fill_count response_avg_price_cents response_fee_cents : Option ℕ)
      (reconcile_target : Option ReconcileTarget)
      → OrderState
  reconcile_pending :
      (venue_order_id : VenueOrderId) (filled_qty remaining_qty : ℕ) (target : ReconcileTarget)
      (response_fill_count response_avg_price_cents response_fee_cents : Option ℕ)
      → OrderState
  canceled : OrderState
  terminal : OrderState
  immediate_fill_unattributed :
      (venue_order_id : VenueOrderId) (response_fill_count response_remaining_count : ℕ)
      (response_avg_price_cents response_fee_cents : Option ℕ)
      → OrderState
  immediate_fill_unresolved : OrderState
  unknown_no_match : OrderState
  halted : (reason : HaltReason) → OrderState
  submission_closed : (reason : SubmissionCloseReason) → OrderState

unfoldable pub is_terminal_or_halt : OrderState → Bool
is_terminal_or_halt OrderState.filled = true
is_terminal_or_halt OrderState.canceled = true
is_terminal_or_halt OrderState.terminal = true
is_terminal_or_halt OrderState.immediate_fill_unresolved = true
is_terminal_or_halt OrderState.unknown_no_match = true
is_terminal_or_halt (OrderState.halted _) = true
is_terminal_or_halt _ = false

unfoldable pub is_submission_closed : OrderState → Bool
is_submission_closed (OrderState.submission_closed _) = true
is_submission_closed _ = false

pub data RejectReason : Type 0 where
  illegal_transition : (state event : String) → RejectReason
  order_invariant_violated : (detail : String) → RejectReason
  already_prepared : RejectReason
  not_applicable : (detail : String) → RejectReason

pub data CancelOutcome : Type 0 where
  canceled accepted not_found already_terminal rejected transport_unknown unknown : CancelOutcome

pub record FillPayload : Type 0 where
  pub qty : ℕ
  pub price_cents : ℕ
  pub fee : Option ℕ
  pub venue_order_id : Option VenueOrderId
  pub ts_ns : ℤ

pub data SnapshotBoundary : Type 0 where
  ts_ns : ℤ → SnapshotBoundary
  seq : ℕ → SnapshotBoundary

pub record FillRecord : Type 0 where
  pub fill_id : FillId
  pub qty : ℕ
  pub price_cents : ℕ
  pub ts_ns : ℤ
  pub venue_order_id : Option VenueOrderId
  pub fee_cents : Option ℕ

pub data BackfillOrderStatus : Type 0 where
  open_order partial filled canceled : BackfillOrderStatus

pub record BackfillOrderRecord : Type 0 where
  pub client_order_id : ClientOrderId
  pub venue_order_id : VenueOrderId
  pub status : BackfillOrderStatus
  pub filled_qty : ℕ
  pub remaining_qty : ℕ
  pub other_members_filled : ℕ
  pub fills : List FillRecord
