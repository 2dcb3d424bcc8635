-- ===== src/Scenarios/Traded.antt =====
-- A round whose page holds the one execution of the wire.
use omsrs.Prelude.{◌≡◌, ◌↔◌, [], ◌∷◌, some, none, true, arith}
use omsrs.Equality.{same_refl}
use omsrs.BTreeMap
use omsrs.OrdMap.{lookup, insert}
use omsrs.Lifecycle.Ctx.{new_ctx}
use omsrs.Execution.Inventory.{get}
use omsrs.Execution.Types.{
  ExecutionOutcome, OrderDisposition, InventoryDisposition, ok, LedgerId-discrete,
}
use omsrs.Observation.Types.{
  RowEvidence, ObservationOutcome, WireState, WireRegistry, IdSet-discrete,
}
use omsrs.Observation.Answers.{ObservationRound, ObservationTransaction}
use omsrs.Observation.Registry.{non_terminal_cids, new_registry, wire_of, put_wire}
use omsrs.Observation.Views.{held_sum}
use omsrs.Observation.Members.{
  duplicates, lacking, mismatches, note_foreign, check_members, page_ids, page_ids_from,
}
use omsrs.Observation.Observe.{round_outcome}
use omsrs.Observation.Round.{observation_of, finish}
use omsrs.Observation.Finished.{seen_wire, Covers, finish-Covers}
use omsrs.Scenarios.Transactions.{market, live_row, seen, stocked, met}
use omsrs.Scenarios.Wires.{order_wire}
use omsrs.Scenarios.Rounds.{round, row}

-- The wire has seen the execution, of four, that the inventory knows.
abbrev traded_wire : WireState
traded_wire = record order_wire { held = ("f1", tt) ∷ []; filled_hw = 4 }

abbrev traded_registry : WireRegistry
traded_registry = put_wire new_registry market "v1" traded_wire

abbrev known_trade : ExecutionOutcome
known_trade = record {
  evidence = seen;
  order = OrderDisposition.duplicate;
  inventory = InventoryDisposition.duplicate;
  entry_after = some met;
  conflict = none;
}

abbrev traded_round : ObservationRound
traded_round = record round { outcomes = known_trade ∷ [] }

abbrev traded_row : RowEvidence
traded_row = record row { filled = 4; remaining = 6 }

abbrev traded_txn : ObservationTransaction
traded_txn =
    observation_of traded_round (seen_wire traded_round traded_registry) stocked (live_row ∷ [])
      traded_row

traded-checked : check_members market traded_wire (live_row ∷ []) ≡ none
unfolding new_ctx check_members non_terminal_cids lacking duplicates mismatches note_foreign
traded-checked = ground (arith, same_refl LedgerId-discrete market)

traded-finished :
    finish traded_round traded_registry stocked (live_row ∷ []) traded_row ≡ ok traded_txn
unfolding finish wire_of put_wire lookup insert
traded-finished = ground (arith, same_refl LedgerId-discrete market, traded-checked)

traded-fresh : traded_txn.outcome ≡ ObservationOutcome.consistent true
unfolding observation_of round_outcome wire_of put_wire lookup insert page_ids page_ids_from
    BTreeMap.insert BTreeMap.lookup held_sum get
traded-fresh = ground (arith, same_refl IdSet-discrete (("f1", tt) ∷ []))

finish-Covers_example :
    (traded_txn.outcome ≡ ObservationOutcome.consistent true)
    ↔ Covers traded_round (seen_wire traded_round traded_registry) stocked traded_row
finish-Covers_example =
    finish-Covers traded_round traded_registry stocked (live_row ∷ []) traded_row traded_txn
      traded-finished
