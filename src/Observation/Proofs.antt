-- ===== src/Observation/Proofs.antt =====
-- src/observation.rs, lines 511 to 588: an order-state frame that proves what rests of the current
-- order.
use omsrs.Prelude.{
  ℕ, ◌==◌, Option, none, some, [], ◌∷◌, true, not, ◌&&◌, same_text, same_option, if◌then◌else◌,
}
use omsrs.Prelude.Words.{checked_add}
use omsrs.Equality.{same}
use omsrs.BTreeMap.{BTreeMap}
use omsrs.Lifecycle.Types.{ClientOrderId, VenueOrderId, FillId}
use omsrs.Execution.Types.{LedgerId, MarketInventory, Result, ok, err}
use omsrs.Execution.Inventory.{get}
use omsrs.Observation.Types.{
  AmendPhase, AmendLineage, ObservationOutcome, UserOrderEvidence, WireState, WireRegistry,
  OrderStateTxnRecord, OrderStateProofError, OrderStateTxnRecord-discrete,
}
use omsrs.Observation.Registry.{wire_of, put_wire, current_is}
use omsrs.Observation.Amend.{is_resting}

abbrev pub qty_of : MarketInventory → FillId → ℕ
qty_of inventory id = elim (get inventory id) [ none ↦ 0 | some entry ↦ entry.qty ]

-- The quantity of the held executions; none if the sum overflows.
unfoldable pub checked_sum : MarketInventory → ℕ → BTreeMap (Unit {0}) → Option ℕ
checked_sum inventory total [] = some total
checked_sum inventory total ((id, u) ∷ held) = elim (checked_add total (qty_of inventory id)) [
  | none ↦ none
  | some next ↦ checked_sum inventory next held
]

-- An amend that waits for the frame of its successor, with the quantity that it declared.
unfoldable pub check_resting_amend :
    WireState → UserOrderEvidence → AmendLineage → Option OrderStateProofError
check_resting_amend ws e lineage = elim lineage.phase [
  | AmendPhase.applied_needs_observation ↦
      if not (same_text e.client_order_id lineage.new_cid)
      then some OrderStateProofError.lineage_mismatch
      else elim (checked_add lineage.pre_generation 1) [
        | none ↦ some OrderStateProofError.generation_changed
        | some next ↦
            if not (ws.generation == next)
            then some OrderStateProofError.lineage_mismatch
            else if not (e.initial == lineage.declared_remaining)
            then some OrderStateProofError.quantity_mismatch
            else none
      ]
  | _ ↦ some OrderStateProofError.lineage_mismatch
]

-- Without an amend the order is of generation zero, or was proved at its generation.
unfoldable pub check_resting_lineage : WireState → UserOrderEvidence → Option OrderStateProofError
check_resting_lineage ws e = elim ws.amend_lineage [
  | some lineage ↦ check_resting_amend ws e lineage
  | none ↦
      if not (ws.generation == 0)
        && not (same_option same_text ws.proved_current_cid (some e.client_order_id))
      then some OrderStateProofError.lineage_mismatch
      else none
]

unfoldable pub check_filled : WireState → MarketInventory → ℕ → Option OrderStateProofError
check_filled ws inventory filled = elim (checked_sum inventory 0 ws.held) [
  | none ↦ some OrderStateProofError.fill_mismatch
  | some sum ↦ if filled == sum then none else some OrderStateProofError.fill_mismatch
]

-- The frame that the proof rests on.
unfoldable pub resting_evidence :
    WireState → MarketInventory → Result OrderStateProofError UserOrderEvidence
resting_evidence ws inventory =
    if ws.authority_hold
    then err OrderStateProofError.invalid_transition
    else elim ws.latest_user_order [
      | none ↦ err OrderStateProofError.missing_current
      | some e ↦
          if not (is_resting e.status)
          then err OrderStateProofError.invalid_transition
          else if not (current_is ws e.client_order_id)
          then err OrderStateProofError.lineage_mismatch
          else elim (check_resting_lineage ws e) [
            | some error ↦ err error
            | none ↦ elim (check_filled ws inventory e.filled) [
              | some error ↦ err error
              | none ↦ ok e
            ]
          ]
    ]

-- The wire after a proof that `remaining` rests under the client order id.
unfoldable pub proved_wire : WireState → ClientOrderId → ℕ → WireState
proved_wire ws cid remaining = record ws {
  last = some (ObservationOutcome.consistent true);
  remaining_observation =
      some (record { remaining = remaining; covered = ws.held; generation = ws.generation });
  proved_current_cid = some cid;
  amend_lineage = none;
}

unfoldable pub prepare_order_state_resting :
    WireRegistry
    → LedgerId
    → VenueOrderId
    → MarketInventory
    → Result OrderStateProofError OrderStateTxnRecord
prepare_order_state_resting reg ledger wire inventory = elim (wire_of reg ledger wire) [
  | none ↦ err OrderStateProofError.missing_wire
  | some ws ↦ elim (resting_evidence ws inventory) [
    | err error ↦ err error
    | ok e ↦ ok (record {
      ledger = ledger;
      wire = wire;
      evidence = e;
      inventory_generation_before = inventory.generation;
      wire_generation_before = ws.generation;
      wire_after = proved_wire ws e.client_order_id e.remaining;
    })
  ]
]

unfoldable pub apply_order_state_resting :
    WireRegistry → OrderStateTxnRecord → MarketInventory → Result OrderStateProofError WireRegistry
apply_order_state_resting reg txn inventory =
    if not (inventory.generation == txn.inventory_generation_before)
    then err OrderStateProofError.inventory_changed
    else elim (prepare_order_state_resting reg txn.ledger txn.wire inventory) [
      | err error ↦ err error
      | ok fresh ↦
          if same OrderStateTxnRecord-discrete fresh txn
          then ok (put_wire reg txn.ledger txn.wire txn.wire_after)
          else err OrderStateProofError.generation_changed
    ]
