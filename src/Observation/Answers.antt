-- ===== src/Observation/Answers.antt =====
-- src/observation.rs, lines 205 to 218, 236 to 291 and 333 to 362: what the registry answers, a round
-- of observation and its transaction.
use omsrs.Prelude.{ℕ, Option, List}
use omsrs.Lifecycle.Types.{ClientOrderId, VenueOrderId}
use omsrs.Lifecycle.Events.{Effect}
use omsrs.Execution.Types.{LedgerId, OrderRow, ExecutionOutcome, ApplyMismatch}
use omsrs.Observation.Types.{ObservationOutcome, MemberAfter, PageMeta, WireState, WireLine}

pub data Route : Type 0 where
  existing_owner unowned_unique new_unique : ClientOrderId → Route
  unowned_ambiguous new_ambiguous venue_only : Route

pub data WorkingView : Type 0 where
  known : ℕ → WorkingView
  unresolved : WorkingView

pub data Readiness : Type 0 where
  ready : Readiness
  unresolved : (member_debt wire_residual unresolved_venue_only tracked_scoped : ℕ) → Readiness
  conflict : Readiness

pub data MemberMismatchReason : Type 0 where
  wrong_cid foreign_scope foreign_market : MemberMismatchReason

pub data ReadinessError : Type 0 where
  missing_member : (cid : ClientOrderId) → ReadinessError
  member_mismatch : (cid : ClientOrderId) (reason : MemberMismatchReason) → ReadinessError

pub data RoundError : Type 0 where
  foreign_row : RoundError
  members_invalid : (missing extra duplicate mismatched : List ClientOrderId) → RoundError

pub data ObservationApplyMismatch : Type 0 where
  wire_generation : (expected found : ℕ) → ObservationApplyMismatch
  targets : (expected found : List ClientOrderId) → ObservationApplyMismatch
  member : ApplyMismatch → ObservationApplyMismatch

pub record ObservationRound : Type 0 where
  pub ledger : LedgerId
  pub wire : VenueOrderId
  pub outcomes : List ExecutionOutcome
  pub page : Option PageMeta

-- `prepared_members` are the rows that the round saw.
pub record ObservationTransaction : Type 0 where
  pub outcome : ObservationOutcome
  pub journal : Option WireLine
  pub effects : List Effect
  pub prepared_cids : List ClientOrderId
  pub prepared_members : List OrderRow
  pub expected_inventory_generation : ℕ
  pub expected_wire_generation : ℕ
  pub ledger : LedgerId
  pub wire : VenueOrderId
  pub members_after : List MemberAfter
  pub wire_after : WireState
