-- ===== src/Observation/RestProofs.antt =====
-- src/observation.rs, lines 589 to 656: a REST page that proves what rests of the current order.
use omsrs.Prelude.{
  ℕ, ◌==◌, Option, none, some, Bool, true, false, not, ◌||◌, same_text, same_option, if◌then◌else◌,
}
use omsrs.Prelude.Words.{checked_add}
use omsrs.Equality.{same}
use omsrs.Lifecycle.Types.{ClientOrderId, VenueOrderId}
use omsrs.Execution.Types.{LedgerId, MarketInventory, Result, ok, err}
use omsrs.Observation.Types.{
  AmendPhase, AmendLineage, ObservationOutcome, WireState, WireRegistry, RestOrderProofTxnRecord,
  OrderStateProofError, RestOrderProofTxnRecord-discrete,
}
use omsrs.Observation.Registry.{wire_of, put_wire, current_is}
use omsrs.Observation.Proofs.{check_filled, proved_wire}

-- What a REST page says of an order.
pub record RestPage : Type 0 where
  pub client_order_id : ClientOrderId
  pub filled : ℕ
  pub remaining : ℕ
  pub initial : ℕ

unfoldable pub check_rest_lineage :
    WireState → RestPage → AmendLineage → Option OrderStateProofError
check_rest_lineage ws page lineage =
    if not (elim lineage.phase [
      | AmendPhase.applied_needs_observation ↦ true
      | AmendPhase.rest_due ↦ true
      | _ ↦ false
    ])
      || not (current_is ws page.client_order_id)
      || not (same_text lineage.new_cid page.client_order_id)
    then some OrderStateProofError.lineage_mismatch
    else elim (checked_add lineage.pre_generation 1) [
      | none ↦ some OrderStateProofError.generation_changed
      | some next ↦
          if not (ws.generation == next) then some OrderStateProofError.lineage_mismatch else none
    ]

abbrev is_stale_consistent : Option ObservationOutcome → Bool
is_stale_consistent (some (ObservationOutcome.consistent fresh)) = not fresh
is_stale_consistent _ = false

unfoldable pub check_rest_quantity :
    WireState → RestPage → AmendLineage → Option OrderStateProofError
check_rest_quantity ws page lineage =
    if not (page.initial == lineage.declared_remaining)
      || not (same_option ◌==◌ (checked_add page.filled page.remaining) (some page.initial))
      || not (is_stale_consistent ws.last)
    then some OrderStateProofError.quantity_mismatch
    else none

unfoldable pub check_rest : WireState → MarketInventory → RestPage → Option OrderStateProofError
check_rest ws inventory page = elim ws.amend_lineage [
  | none ↦ some OrderStateProofError.lineage_mismatch
  | some lineage ↦ elim (check_rest_lineage ws page lineage) [
    | some error ↦ some error
    | none ↦ elim (check_rest_quantity ws page lineage) [
      | some error ↦ some error
      | none ↦ check_filled ws inventory page.filled
    ]
  ]
]

unfoldable pub prepare_rest_order_proof :
    WireRegistry
    → LedgerId
    → VenueOrderId
    → RestPage
    → MarketInventory
    → Result OrderStateProofError RestOrderProofTxnRecord
prepare_rest_order_proof reg ledger wire page inventory = elim (wire_of reg ledger wire) [
  | none ↦ err OrderStateProofError.missing_wire
  | some ws ↦ elim (check_rest ws inventory page) [
    | some error ↦ err error
    | none ↦ ok (record {
      ledger = ledger;
      wire = wire;
      client_order_id = page.client_order_id;
      filled = page.filled;
      remaining = page.remaining;
      initial = page.initial;
      inventory_generation_before = inventory.generation;
      wire_generation_before = ws.generation;
      wire_after = record (proved_wire ws page.client_order_id page.remaining) {
        authority_hold = false;
      };
    })
  ]
]

abbrev pub page_of : RestOrderProofTxnRecord → RestPage
page_of txn = record {
  client_order_id = txn.client_order_id;
  filled = txn.filled;
  remaining = txn.remaining;
  initial = txn.initial;
}

unfoldable pub apply_rest_order_proof :
    WireRegistry
    → RestOrderProofTxnRecord
    → MarketInventory
    → Result OrderStateProofError WireRegistry
apply_rest_order_proof reg txn inventory =
    if not (inventory.generation == txn.inventory_generation_before)
    then err OrderStateProofError.inventory_changed
    else elim (prepare_rest_order_proof reg txn.ledger txn.wire (page_of txn) inventory) [
      | err error ↦ err error
      | ok fresh ↦
          if same RestOrderProofTxnRecord-discrete fresh txn
          then ok (put_wire reg txn.ledger txn.wire txn.wire_after)
          else err OrderStateProofError.generation_changed
    ]
