-- ===== src/Scenarios/Wires.antt =====
-- The theorems about wires at concrete inputs: an order of ten on wire "v1".
use omsrs.Prelude.{arith, ◌↔◌, ◌≡◌, refl, [], ◌∷◌, some, none, true, false}
use omsrs.Prelude.Int.{pos}
use omsrs.OrdMap.{lookup, insert}
use omsrs.Lifecycle.Types.{ClientOrderId, Side}
use omsrs.Execution.Types.{LedgerId-discrete, MarketInventory, ok}
use omsrs.Execution.Inventory.{new_inventory}
use omsrs.Observation.Types.{
  MemberRole, WireKind, AmendPhase, AmendLineage, UserOrderStatus, UserOrderEvidence, WireState,
  WireLine, WireRegistry, ObservationOutcome, OrderStateTxnRecord, RestOrderProofTxnRecord,
}
use omsrs.Observation.Answers.{WorkingView, Readiness}
use omsrs.Observation.Registry.{
  venue_only_wire, new_registry, wire_of, put_wire, current_of, current_is,
}
use omsrs.Observation.Amend.{
  check_amend_start, check_amend, prepare_amend_lineage, quantity_valid, receive_frame,
  prepare_user_order_received,
}
use omsrs.Observation.Frames.{Received, prepare_user_order_received-Received}
use omsrs.Observation.Fold.{fold_line}
use omsrs.Observation.AmendSteps.{AmendStep, prepare_amend_lineage-AmendStep}
use omsrs.Observation.Proofs.{
  checked_sum, check_filled, check_resting_lineage, resting_evidence, proved_wire,
  prepare_order_state_resting, apply_order_state_resting,
}
use omsrs.Observation.RestProofs.{
  RestPage, check_rest, check_rest_lineage, check_rest_quantity, prepare_rest_order_proof,
  apply_rest_order_proof,
}
use omsrs.Observation.Resting.{Rests, prepare_order_state_resting-Rests}
use omsrs.Observation.Paged.{Paged, prepare_rest_order_proof-Paged}
use omsrs.Observation.Views.{
  working_view, check_member, member_debts, add_wire, wire_debts, readiness_of, readiness,
}
use omsrs.Observation.Ready.{IsReady, readiness-IsReady}
use omsrs.Lifecycle.Ctx.{new_ctx}
use omsrs.Equality.{same_refl}
use omsrs.Scenarios.Transactions.{market, live_row}

-- The wire of an order that works at the venue.
abbrev pub order_wire : WireState
order_wire = record venue_only_wire {
  members = record { cid = "m|s|1"; role = MemberRole.current; bind_pos = 3 } ∷ [];
  kind = WireKind.scoped;
}

abbrev pub registry : WireRegistry
registry = put_wire new_registry market "v1" order_wire

abbrev pub frame : UserOrderEvidence
frame = record {
  wire = "v1";
  market = "m";
  exchange_index = pos 0;
  subaccount_number = pos 0;
  sid = 1;
  side = Side.buy_yes;
  yes_price_e4 = 4200;
  client_order_id = "m|s|1";
  status = UserOrderStatus.resting;
  filled = 0;
  remaining = 10;
  initial = 10;
  updated_ts_ms = 5;
  connection_generation = 1;
  payload_digest = "d";
}

frame-received :
    prepare_user_order_received registry market "v1" frame
    ≡ ok (some (WireLine.user_order_received market "v1" frame))
unfolding prepare_user_order_received wire_of put_wire lookup insert current_is current_of
    quantity_valid receive_frame venue_only_wire
frame-received = refl

pub registry-wire : wire_of registry market "v1" ≡ some order_wire
unfolding wire_of put_wire lookup insert
registry-wire = refl

prepare_user_order_received-Received_example :
    Received order_wire market "v1" frame
    × ((after : WireRegistry) × (fold_line registry 7
            (WireLine.user_order_received market "v1" frame)
          ≡ ok after)
        × (wire_of after market "v1"
            ≡ some (record order_wire {
              latest_user_order = some frame;
              latest_user_order_revision = 8;
              observed_exchange_index = some frame.exchange_index;
            })))
prepare_user_order_received-Received_example =
    prepare_user_order_received-Received registry market "v1" frame order_wire
      (WireLine.user_order_received market "v1" frame) 7 registry-wire frame-received

-- An amend of the order, before it is sent.
abbrev amend : AmendLineage
amend = record {
  old_cid = "m|s|1";
  new_cid = "m|s|2";
  pre_generation = 0;
  phase = AmendPhase.http_pending;
  declared_remaining = 8;
  applied_at_utc_ns = none;
}

amend-prepared :
    prepare_amend_lineage registry market "v1" amend
    ≡ ok (WireLine.amend_lineage market "v1" (some amend))
unfolding prepare_amend_lineage wire_of put_wire lookup insert check_amend check_amend_start
    current_is current_of
amend-prepared = refl

prepare_amend_lineage-AmendStep_example :
    AmendStep order_wire amend
    × ((after : WireRegistry) × (fold_line registry 8
            (WireLine.amend_lineage market "v1" (some amend))
          ≡ ok after)
        × (wire_of after market "v1" ≡ some (record order_wire { amend_lineage = some amend })))
prepare_amend_lineage-AmendStep_example =
    prepare_amend_lineage-AmendStep registry market "v1" amend order_wire
      (WireLine.amend_lineage market "v1" (some amend)) 8 registry-wire amend-prepared

abbrev pub stock : MarketInventory
stock = new_inventory market

-- The wire after the frame, and what it proves.
abbrev framed_wire : WireState
framed_wire = record order_wire { latest_user_order = some frame }

abbrev rest_txn : OrderStateTxnRecord
rest_txn = record {
  ledger = market;
  wire = "v1";
  evidence = frame;
  inventory_generation_before = 0;
  wire_generation_before = 0;
  wire_after = proved_wire framed_wire "m|s|1" 10;
}

rest-prepared :
    prepare_order_state_resting (put_wire new_registry market "v1" framed_wire) market "v1" stock
    ≡ ok rest_txn
unfolding prepare_order_state_resting wire_of put_wire lookup insert resting_evidence current_is
    current_of check_resting_lineage check_filled checked_sum new_inventory
rest-prepared = refl

prepare_order_state_resting-Rests_example :
    (ws : WireState) × (after : WireRegistry) × (wire_of
        (put_wire new_registry market "v1" framed_wire)
        market
        "v1"
      ≡ some ws)
    × Rests ws stock frame
    × (apply_order_state_resting (put_wire new_registry market "v1" framed_wire) rest_txn stock
        ≡ ok after)
    × (working_view after market "v1" ≡ WorkingView.known 10)
prepare_order_state_resting-Rests_example =
    prepare_order_state_resting-Rests (put_wire new_registry market "v1" framed_wire) market "v1"
      stock rest_txn rest-prepared

-- The wire after the amend, whose last round was consistent but not fresh.
abbrev amended_wire : WireState
amended_wire = record order_wire {
  members =
      record { cid = "m|s|1"; role = MemberRole.superseded; bind_pos = 3 }
      ∷ record { cid = "m|s|2"; role = MemberRole.current; bind_pos = 9 }
      ∷ [];
  generation = 1;
  amend_lineage = some (record amend { phase = AmendPhase.applied_needs_observation });
  last = some (ObservationOutcome.consistent false);
  authority_hold = true;
}

abbrev rest_page : RestPage
rest_page = record { client_order_id = "m|s|2"; filled = 0; remaining = 8; initial = 8 }

abbrev page_txn : RestOrderProofTxnRecord
page_txn = record {
  ledger = market;
  wire = "v1";
  client_order_id = "m|s|2";
  filled = 0;
  remaining = 8;
  initial = 8;
  inventory_generation_before = 0;
  wire_generation_before = 1;
  wire_after = record (proved_wire amended_wire "m|s|2" 8) { authority_hold = false };
}

page-prepared :
    prepare_rest_order_proof
      (put_wire new_registry market "v1" amended_wire)
      market
      "v1"
      rest_page
      stock
    ≡ ok page_txn
unfolding prepare_rest_order_proof wire_of put_wire lookup insert check_rest check_rest_lineage
    check_rest_quantity current_is current_of check_filled checked_sum new_inventory
page-prepared = refl

prepare_rest_order_proof-Paged_example :
    (ws : WireState) × (lineage : AmendLineage) × (after : WireRegistry) × (wire_of
        (put_wire new_registry market "v1" amended_wire)
        market
        "v1"
      ≡ some ws)
    × Paged ws stock rest_page lineage
    × (apply_rest_order_proof (put_wire new_registry market "v1" amended_wire) page_txn stock
        ≡ ok after)
    × (working_view after market "v1" ≡ WorkingView.known 8)
prepare_rest_order_proof-Paged_example =
    prepare_rest_order_proof-Paged (put_wire new_registry market "v1" amended_wire) market "v1"
      rest_page stock page_txn page-prepared

readiness-IsReady_example :
    (readiness registry market (λ (c : ClientOrderId). some live_row) stock ≡ ok Readiness.ready)
    ↔ IsReady registry market (λ (c : ClientOrderId). some live_row) stock
readiness-IsReady_example =
    readiness-IsReady registry market (λ (c : ClientOrderId). some live_row) stock

-- The order's row is there, nothing is tracked, and the ledger is ready.
ledger_ready :
    readiness registry market (λ (c : ClientOrderId). some live_row) stock ≡ ok Readiness.ready
unfolding readiness wire_debts member_debts check_member add_wire readiness_of put_wire insert
    new_inventory new_ctx
ledger_ready = ground (arith, same_refl LedgerId-discrete market)
