-- ===== src/Scenarios/Restored.antt =====
-- The rebuild of an order with observations, at concrete inputs.
use omsrs.Prelude.{◌≡◌, List, [], ◌∷◌, some, none, arith}
use omsrs.Equality.{same_refl}
use omsrs.OrdMap.{lookup, insert}
use omsrs.SeqMap
use omsrs.Lifecycle.Types.{OrderState}
use omsrs.Lifecycle.Ctx.{new_ctx}
use omsrs.Execution.Types.{
  OrderRow, BatchOutcome, OrderTxnRecord, JournalLine, ok, LedgerId-discrete,
}
use omsrs.Execution.Restore.{collect_snap, collect_snaps, last_snap, rebuild_order}
use omsrs.Observation.Answers.{ObservationTransaction}
use omsrs.Observation.Registry.{non_terminal_cids, wire_of, put_wire}
use omsrs.Observation.Members.{duplicates, lacking, mismatches, note_foreign, check_members}
use omsrs.Observation.Round.{observation_of, finish}
use omsrs.Observation.Apply.{write_member}
use omsrs.Observation.Restore.{rebuild_order_with_observations}
use omsrs.Observation.Finished.{seen_wire}
use omsrs.Observation.Live.{journaled}
use omsrs.Observation.Agrees.{lines_of, rebuild_order_with_observations-agrees}
use omsrs.Observation.RoundRebuilt.{finish-rebuilds}
use omsrs.Scenarios.Transactions.{market, live_row}
use omsrs.Scenarios.Wires.{order_wire, registry, stock}
use omsrs.Scenarios.Rounds.{round, row}

-- The order after its first snapshot.
abbrev first_row : OrderRow
first_row = record live_row { cursor = record { seq = 1 } }

abbrev first_txn : OrderTxnRecord
first_txn = record {
  ledger = market;
  client_order_id = "m|s|1";
  seq = 1;
  event = "SubmitResponse";
  outcome = BatchOutcome.accept;
  core_records = [];
  state_after = OrderState.accepted "v1";
  ctx_after = live_row.ctx;
}

abbrev first_lines : List JournalLine
first_lines = JournalLine.order_txn first_txn ∷ []

first_row-rebuilt : rebuild_order market "m|s|1" first_lines ≡ ok (some first_row)
unfolding rebuild_order collect_snaps collect_snap last_snap SeqMap.lookup SeqMap.insert
first_row-rebuilt = ground (arith, same_refl LedgerId-discrete market)

rebuild_order_with_observations-agrees_example :
    rebuild_order_with_observations market "m|s|1" (lines_of first_lines) ≡ ok (some first_row)
rebuild_order_with_observations-agrees_example =
    rebuild_order_with_observations-agrees market "m|s|1" first_lines (some first_row)
      first_row-rebuilt

abbrev first_round : ObservationTransaction
first_round = observation_of round (seen_wire round registry) stock (first_row ∷ []) row

first_row-checked : check_members market order_wire (first_row ∷ []) ≡ none
unfolding new_ctx check_members non_terminal_cids lacking duplicates mismatches note_foreign
first_row-checked = ground (arith, same_refl LedgerId-discrete market)

first_round-finished : finish round registry stock (first_row ∷ []) row ≡ ok first_round
unfolding finish wire_of put_wire lookup insert
first_round-finished = ground (arith, same_refl LedgerId-discrete market, first_row-checked)

finish-rebuilds_example :
    rebuild_order_with_observations market "m|s|1"
      (journaled (lines_of first_lines) first_round.journal)
    ≡ ok (some (write_member first_round.members_after first_row))
unfolding new_ctx
finish-rebuilds_example =
    finish-rebuilds round registry stock [] [] first_row row first_round (lines_of first_lines)
      first_round-finished rebuild_order_with_observations-agrees_example
