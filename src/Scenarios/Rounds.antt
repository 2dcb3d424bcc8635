-- ===== src/Scenarios/Rounds.antt =====
-- The theorems about rounds, own actions and the registry's journal at concrete inputs.
use omsrs.Prelude.{◌≢◌, ◌≡◌, refl, List, [], ◌∷◌, some, none, true, arith}
use omsrs.Equality.{same_refl}
use omsrs.OrdMap.{lookup, insert}
use mathlib.Core.List.Memᴰ
use omsrs.Lifecycle.Types.{VenueOrderId, OrderState, BackfillOrderStatus}
use omsrs.Lifecycle.Events.{JournalRecord, OwnActionKind}
use omsrs.Execution.Types.{
  LedgerId, OrderRow, BatchOutcome, OrderTxnRecord, JournalLine, ok, LedgerId-discrete,
}
use omsrs.Lifecycle.Ctx.{new_ctx}
use omsrs.Observation.Types.{RowEvidence, WireLine, WireRegistry}
use omsrs.Observation.Answers.{ObservationRound, ObservationTransaction, WorkingView}
use omsrs.Observation.Registry.{
  key, venue_only_wire, non_terminal_cids, new_registry, wire_of, put_wire, ensured,
}
use omsrs.Observation.Binding.{bind_wire, bind_member}
use omsrs.Observation.OrderPart.{
  fold_core_record, fold_core_records, claims_end, terminal_hold_wire, end_hold, fold_order_part,
  seen,
}
use omsrs.Observation.Fold.{fold_line, fold_lines_from, rebuild_registry}
use omsrs.Observation.Views.{working_view}
use omsrs.Observation.Members.{
  begin_round, duplicates, lacking, mismatches, note_foreign, check_members,
}
use omsrs.Observation.Round.{observation_of, finish}
use omsrs.Observation.Apply.{apply_observation}
use omsrs.Observation.Finished.{seen_wire, fresh_view, finish-Applies}
use omsrs.Observation.Unproved.{rebuild_registry-unproved}
use omsrs.Observation.OwnAction.{own_action-unresolved}
use omsrs.Observation.OneCurrent.{IsProper}
use omsrs.Observation.Live.{Work, note, step, start, work}
use omsrs.Observation.ProperWork.{work-IsProper}
use omsrs.Observation.Coherent.{rebuild_registry-work}
use omsrs.Scenarios.{fresh_order}
use omsrs.Scenarios.Transactions.{market, live_row}
use omsrs.Scenarios.Wires.{order_wire, registry, registry-wire, stock, frame}

-- The venue's row of the order, and an empty page of executions.
abbrev pub round : ObservationRound
round = record (begin_round market "v1") {
  page = some (record { exhaustive = true; parse_failures = 0 });
}

abbrev pub row : RowEvidence
row = record {
  ledger = market;
  wire = "v1";
  status = BackfillOrderStatus.open_order;
  filled = 0;
  remaining = 10;
  client_order_id = some "m|s|1";
  marker = 0;
}

abbrev round_txn : ObservationTransaction
round_txn = observation_of round (seen_wire round registry) stock (live_row ∷ []) row

members-checked : check_members market order_wire (live_row ∷ []) ≡ none
unfolding new_ctx check_members non_terminal_cids lacking duplicates mismatches note_foreign
members-checked = ground (arith, same_refl LedgerId-discrete market)

round-finished : finish round registry stock (live_row ∷ []) row ≡ ok round_txn
unfolding finish wire_of put_wire lookup insert
round-finished = ground (arith, same_refl LedgerId-discrete market, members-checked)

finish-Applies_example :
    (rows : List OrderRow) × (after : WireRegistry) × (apply_observation round_txn
        (live_row ∷ [])
        registry
        stock
      ≡ ok (rows, after))
    × (wire_of after market "v1" ≡ some round_txn.wire_after)
    × (working_view after market "v1" ≡ fresh_view round_txn.outcome row)
    × ((at : LedgerId) (w : VenueOrderId)
        → key at w ≢ key market "v1"
        → wire_of after at w ≡ wire_of registry at w)
finish-Applies_example =
    finish-Applies round registry stock (live_row ∷ []) row round_txn round-finished

-- The order is bound to its wire, and later amended.
abbrev bind_txn : OrderTxnRecord
bind_txn = record {
  ledger = market;
  client_order_id = "m|s|1";
  seq = 4;
  event = "SubmitResponse";
  outcome = BatchOutcome.accept;
  core_records = JournalRecord.venue_bound_cid "m|s|1" "v1" ∷ [];
  state_after = OrderState.accepted "v1";
  ctx_after = fresh_order;
}

abbrev own_txn : OrderTxnRecord
own_txn = record bind_txn {
  seq = 5;
  event = "OwnAction";
  core_records = JournalRecord.own_action_cid "m|s|1" OwnActionKind.amend ∷ [];
}

abbrev morning : List WireLine
morning =
    WireLine.line (JournalLine.order_txn bind_txn)
    ∷ WireLine.user_order_received market "v1" frame
    ∷ []

abbrev bound_registry : WireRegistry
bound_registry = record (ensured new_registry market "v1" (bind_wire 0 "m|s|1")) {
  seen_order = bind_txn ∷ [];
}

rebuild_registry-unproved_example : working_view bound_registry market "v1" ≡ WorkingView.unresolved
unfolding rebuild_registry fold_lines_from fold_line fold_order_part seen fold_core_records
    fold_core_record claims_end terminal_hold_wire end_hold bind_member ensured wire_of put_wire
    lookup insert bind_wire
rebuild_registry-unproved_example =
    rebuild_registry-unproved market "v1" (WireLine.line (JournalLine.order_txn bind_txn) ∷ [])
      bound_registry refl (tt, tt)

-- After the own action the wire is of a new generation.
abbrev acted_registry : WireRegistry
acted_registry =
    fold_core_records (record registry { seen_order = own_txn ∷ registry.seen_order }) 12 own_txn
      own_txn.core_records

acted : fold_line registry 12 (WireLine.line (JournalLine.order_txn own_txn)) ≡ ok acted_registry
unfolding fold_line fold_order_part seen claims_end terminal_hold_wire end_hold put_wire
acted = refl

own_action-unresolved_example : working_view acted_registry market "v1" ≡ WorkingView.unresolved
unfolding fold_lines_from seen put_wire
own_action-unresolved_example =
    own_action-unresolved registry acted_registry acted_registry 12 own_txn "v1" order_wire "m|s|1"
      OwnActionKind.amend [] (Memᴰ.head refl) refl registry-wire refl acted refl tt

abbrev day : List Work
day =
    Work.noted (WireLine.line (JournalLine.order_txn bind_txn))
    ∷ Work.noted (WireLine.user_order_received market "v1" frame)
    ∷ Work.rested market "v1" stock
    ∷ Work.observed round stock (live_row ∷ []) row
    ∷ Work.noted (WireLine.order_authority_hold market "v1")
    ∷ []

rebuild_registry-work_example :
    rebuild_registry (work start day).journal ≡ ok (work start day).registry
rebuild_registry-work_example = rebuild_registry-work day

abbrev bound_day : List Work
bound_day = Work.noted (WireLine.line (JournalLine.order_txn bind_txn)) ∷ []

bound_day-wire :
    wire_of (work start bound_day).registry market "v1" ≡ some (bind_wire 0 "m|s|1" venue_only_wire)
unfolding work step note fold_line fold_order_part seen fold_core_records fold_core_record
    claims_end terminal_hold_wire end_hold bind_member ensured wire_of put_wire lookup insert
    bind_wire
bound_day-wire = refl

work-IsProper_example : IsProper (bind_wire 0 "m|s|1" venue_only_wire)
work-IsProper_example =
    work-IsProper bound_day market "v1" (bind_wire 0 "m|s|1" venue_only_wire) bound_day-wire
