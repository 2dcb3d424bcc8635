-- ===== src/Observation/Amend.antt =====
-- src/observation.rs, lines 407 to 509: the record of an amend, and a frame of the order's state.
use omsrs.Prelude.{
  ◌==◌, Option, none, some, Bool, true, false, not, ◌&&◌, ◌||◌, ltb, leb, same_text, same_option,
  if◌then◌else◌,
}
use omsrs.Prelude.Int.{ℤ, eqb_ℤ}
use omsrs.Prelude.Words.{checked_add, checked_sub}
use omsrs.Lifecycle.Types.{VenueOrderId}
use omsrs.Execution.Types.{LedgerId, Result, ok, err}
use omsrs.Observation.Types.{
  AmendPhase, AmendLineage, UserOrderStatus, UserOrderEvidence, WireState, WireLine, WireRegistry,
  OrderStateProofError, same_user_order_state,
}
use omsrs.Observation.Registry.{wire_of, current_is}

abbrev pub same_lineage : AmendLineage → AmendLineage → Bool
same_lineage a b =
    same_text a.old_cid b.old_cid
    && same_text a.new_cid b.new_cid
    && a.pre_generation == b.pre_generation
    && a.declared_remaining == b.declared_remaining

-- The wire has moved one generation past the one before the amend, and its successor is current.
-- A generation that overflows is refused as the same error.
unfoldable pub is_succeeded : WireState → AmendLineage → Bool
is_succeeded ws lineage = elim (checked_add lineage.pre_generation 1) [
  | none ↦ false
  | some next ↦ ws.generation == next && current_is ws lineage.new_cid
]

unfoldable pub check_amend_start : WireState → AmendLineage → Option OrderStateProofError
check_amend_start ws lineage = elim ws.amend_lineage [
  | some _ ↦ some OrderStateProofError.pending_amend
  | none ↦
      if not (ws.generation == lineage.pre_generation)
      then some OrderStateProofError.pending_amend
      else if not (current_is ws lineage.old_cid) || same_text lineage.old_cid lineage.new_cid
      then some OrderStateProofError.wrong_current
      else none
]

abbrev is_applied : AmendPhase → Bool
is_applied AmendPhase.applied_needs_observation = true
is_applied _ = false

unfoldable pub check_amend_step : WireState → AmendLineage → Option OrderStateProofError
check_amend_step ws lineage = elim ws.amend_lineage [
  | none ↦ some OrderStateProofError.lineage_mismatch
  | some prior ↦
      if not (same_lineage prior lineage)
      then some OrderStateProofError.lineage_mismatch
      else if is_applied lineage.phase && not (is_succeeded ws lineage)
      then some OrderStateProofError.generation_changed
      else none
]

unfoldable pub check_amend : WireState → AmendLineage → Option OrderStateProofError
check_amend ws lineage = elim lineage.phase [
  | AmendPhase.http_pending ↦ check_amend_start ws lineage
  | _ ↦ check_amend_step ws lineage
]

unfoldable pub prepare_amend_lineage :
    WireRegistry → LedgerId → VenueOrderId → AmendLineage → Result OrderStateProofError WireLine
prepare_amend_lineage reg ledger wire lineage = elim (wire_of reg ledger wire) [
  | none ↦ err OrderStateProofError.missing_wire
  | some ws ↦ elim (check_amend ws lineage) [
    | some e ↦ err e
    | none ↦ ok (WireLine.amend_lineage ledger wire (some lineage))
  ]
]

abbrev pub other_index : Option ℤ → ℤ → Bool
other_index none index = false
other_index (some i) index = not (eqb_ℤ i index)

abbrev pub is_successor : WireState → UserOrderEvidence → Bool
is_successor ws e = elim ws.amend_lineage [
  | none ↦ false
  | some l ↦ same_text l.new_cid e.client_order_id
]

unfoldable pub quantity_valid : UserOrderEvidence → Bool
quantity_valid e =
    let open_rest = same_option ◌==◌ (checked_sub e.initial e.filled) (some e.remaining) in
    elim e.status [
      | UserOrderStatus.resting ↦ open_rest
      | UserOrderStatus.unknown ↦ open_rest
      | UserOrderStatus.canceled ↦ e.remaining == 0 && leb e.filled e.initial
      | UserOrderStatus.executed ↦ e.remaining == 0 && e.filled == e.initial
    ]

abbrev pub is_resting : UserOrderStatus → Bool
is_resting UserOrderStatus.resting = true
is_resting _ = false

-- An older frame, or another one of the same time.
unfoldable pub is_stale_frame : UserOrderEvidence → UserOrderEvidence → Bool
is_stale_frame prev e =
    ltb e.updated_ts_ms prev.updated_ts_ms
    || ltb e.filled prev.filled
    || e.updated_ts_ms == prev.updated_ts_ms && not (same_user_order_state e prev)
    || not (is_resting prev.status) && is_resting e.status

-- The journal line of a frame; none for a frame that repeats the last one.
unfoldable pub receive_frame :
    WireState
    → LedgerId
    → VenueOrderId
    → UserOrderEvidence
    → Result OrderStateProofError (Option WireLine)
receive_frame ws ledger wire e =
    let received = ok (some (WireLine.user_order_received ledger wire e)) in
    elim ws.latest_user_order [
      | none ↦ received
      | some prev ↦
          if same_text prev.client_order_id e.client_order_id
          then (if is_stale_frame prev e
              then err OrderStateProofError.stale_or_conflicting_version
              else if same_user_order_state e prev
              then ok none
              else received)
          else if not (current_is ws e.client_order_id) && not (is_successor ws e)
          then err OrderStateProofError.wrong_current
          else received
    ]

unfoldable pub prepare_user_order_received :
    WireRegistry
    → LedgerId
    → VenueOrderId
    → UserOrderEvidence
    → Result OrderStateProofError (Option WireLine)
prepare_user_order_received reg ledger wire e = elim (wire_of reg ledger wire) [
  | none ↦ err OrderStateProofError.missing_wire
  | some ws ↦
      if not (same_text e.wire wire)
        || not (same_text e.market ledger.market)
        || other_index ws.observed_exchange_index e.exchange_index
      then err OrderStateProofError.wrong_current
      else if not (current_is ws e.client_order_id || is_successor ws e)
      then err OrderStateProofError.wrong_current
      else if not (quantity_valid e)
      then err OrderStateProofError.quantity_mismatch
      else receive_frame ws ledger wire e
]
