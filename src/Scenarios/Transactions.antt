-- ===== src/Scenarios/Transactions.antt =====
-- The theorems about transactions at concrete inputs.
use omsrs.Prelude.{◌≡◌, refl, ◌⊎◌, List, [], ◌∷◌, some, none, true, false, arith, ◌↔◌}
use omsrs.Prelude.Int.{pos}
use omsrs.Prelude.Words.{saturating_add}
use omsrs.Equality.{same_refl}
use omsrs.BTreeMap.{lookup}
use omsrs.Lifecycle.Types.{Side, OrderState}
use omsrs.Lifecycle.Events.{OrderEvent, JournalRecord}
use omsrs.Lifecycle.Ctx.{new_ctx}
use omsrs.Lifecycle.Apply.{apply_event}
use omsrs.Lifecycle.Submission.{apply_new}
use omsrs.Execution.Types.{
  LedgerId, ExecutionSource, ExecutionEvidence, OrderRow, JournalLine, MarketInventory,
  OrderTransaction, ExecutionTransaction, ApplyMismatch, InventoryEntry, InventoryProvenance, ok,
  err, LedgerId-discrete,
}
use omsrs.Execution.Evidence.{
  event_has_identified_fills, count_event_fills, check_evidence_matches_fills, check_from,
  fill_mismatch, option_mismatch, flatten_event_fills,
}
use omsrs.Execution.Inventory.{new_inventory, get, rebuild_inventory}
use omsrs.Execution.Orders.{
  prepare_order_event, transact, apply_order_txn, execution_debt, changed_txn, transition_changed,
}
use omsrs.Execution.Restore.{rebuild_order}
use omsrs.Execution.Transact.{
  Matches, written, Realizes, apply-of_Matches, prepared-Matches, apply_order_txn-Matches,
  prepare_order_event-Realizes, apply_order_txn-stale,
}
use omsrs.Execution.Durable.{Step, own, other, run}
use omsrs.Execution.Rebuilt.{no_snapshot, rebuild_order-run}
use omsrs.Execution.Batch.{batch_of, check_ledgers, prepare_execution_batch}
use omsrs.Execution.Commit.{apply_execution_txn, apply_planned}
use omsrs.Execution.Rows.{batch_call, Follows, Restorable, prepare_execution_batch-Follows}
use omsrs.Execution.Identity.{Upgrades}
use omsrs.Execution.Retained.{prepare_execution_batch-Upgrades}
use omsrs.Execution.Stale.{Applied, apply_execution_txn-Applied}
use omsrs.Execution.Ingest.{
  SameInventory, Attempt, norow, batch, ingest_all, rebuild_inventory-ingest_all,
}
use omsrs.Execution.EvidenceMatch.{AllAgree, check_evidence-AllAgree}
use omsrs.Execution.Debt.{unattributed, execution_debt-unattributed}
use omsrs.Scenarios.{fresh_order, four, fresh_order-IsValid}

abbrev pub market : LedgerId
market = record { scope = "live"; market = "m" }

abbrev fresh_row : OrderRow
fresh_row = record {
  ledger = market;
  cursor = record { seq = 0 };
  state = OrderState.new;
  ctx = fresh_order;
}

abbrev prepared : OrderEvent → OrderTransaction
prepared event = transact fresh_row event (apply_event OrderState.new fresh_order event)

prepare_submit-prepared :
    prepare_order_event fresh_row OrderEvent.prepare_submit
    ≡ ok (prepared OrderEvent.prepare_submit)
unfolding prepare_order_event event_has_identified_fills count_event_fills new_ctx
prepare_submit-prepared = refl

cancel-prepared :
    prepare_order_event fresh_row OrderEvent.cancel_requested
    ≡ ok (prepared OrderEvent.cancel_requested)
unfolding prepare_order_event event_has_identified_fills count_event_fills new_ctx
cancel-prepared = refl

prepare_order_event-Realizes_example :
    (r : OrderRow) × (apply_order_txn (prepared OrderEvent.prepare_submit) fresh_row ≡ ok r)
    × Realizes fresh_row (apply_event OrderState.new fresh_order OrderEvent.prepare_submit) r
prepare_order_event-Realizes_example =
    prepare_order_event-Realizes fresh_row OrderEvent.prepare_submit
      (prepared OrderEvent.prepare_submit) prepare_submit-prepared

abbrev after_submit : OrderRow
after_submit = written (prepared OrderEvent.prepare_submit) fresh_row

submit-applied : apply_order_txn (prepared OrderEvent.prepare_submit) fresh_row ≡ ok after_submit
submit-applied = apply-of_Matches (prepared OrderEvent.prepare_submit) fresh_row (
    prepared-Matches fresh_row OrderEvent.prepare_submit (prepared OrderEvent.prepare_submit)
      prepare_submit-prepared)

apply_order_txn-Matches_example :
    Matches (prepared OrderEvent.prepare_submit) fresh_row
    × (after_submit ≡ written (prepared OrderEvent.prepare_submit) fresh_row)
apply_order_txn-Matches_example =
    apply_order_txn-Matches (prepared OrderEvent.prepare_submit) fresh_row after_submit
      submit-applied

submit-advances : (prepared OrderEvent.prepare_submit).advance_cursor ≡ true
unfolding apply_event apply_new transact transition_changed changed_txn
submit-advances = ground arith

apply_order_txn-stale_example :
    apply_order_txn (prepared OrderEvent.cancel_requested) after_submit
    ≡ err (ApplyMismatch.order_cursor 0 1)
apply_order_txn-stale_example =
    apply_order_txn-stale fresh_row after_submit OrderEvent.prepare_submit
      OrderEvent.cancel_requested (prepared OrderEvent.prepare_submit)
      (prepared OrderEvent.cancel_requested) prepare_submit-prepared cancel-prepared submit-advances
      submit-applied

-- A submission whose second line is appended twice, among other work.
abbrev morning : List Step
morning =
    own OrderEvent.prepare_submit false
    ∷ other (JournalLine.core JournalRecord.submit_unknown)
    ∷ own (OrderEvent.start_submit "a1") true
    ∷ own OrderEvent.submit_timeout false
    ∷ []

rebuild_order-run_example :
    (rebuild_order market "m|s|1" (run fresh_row morning).1 ≡ ok (some (run fresh_row morning).0))
    ⊎ ((rebuild_order market "m|s|1" (run fresh_row morning).1 ≡ ok none)
        × ((run fresh_row morning).0 ≡ fresh_row))
unfolding new_ctx
rebuild_order-run_example =
    rebuild_order-run fresh_row morning fresh_order-IsValid refl (no_snapshot refl, tt)

-- The fill of four, as the stream reports it, for a live order.
abbrev pub seen : ExecutionEvidence
seen = record {
  scope = "live";
  market = "m";
  execution_id = "f1";
  side = Side.buy_yes;
  qty = 4;
  price_cents = 42;
  ts_ns = pos 7;
  venue_order_id = some "v1";
  claimed_client_order_id = none;
  fee_cents = some 1;
  source = ExecutionSource.ws_fill;
}

abbrev pub live_row : OrderRow
live_row = record {
  ledger = market;
  cursor = record { seq = 4 };
  state = OrderState.accepted "v1";
  ctx = record fresh_order { venue_order_id = some "v1" };
}

-- The inventory has met the fill before, without its venue id and fee.
abbrev pub met : InventoryEntry
met = record {
  side = Side.buy_yes;
  qty = 4;
  price_cents = 42;
  first_seen_ts_ns = pos 6;
  venue_order_id = none;
  claimed_client_order_id = none;
  owner = none;
  fee_cents = none;
  source = ExecutionSource.venue_seed;
  provenance = InventoryProvenance.no_row;
}

abbrev pub stocked : MarketInventory
stocked = record (new_inventory market) { generation = 1; entries = ("f1", met) ∷ [] }

abbrev fill_txn : ExecutionTransaction
fill_txn = batch_of live_row stocked (OrderEvent.fill four) (seen ∷ [])

seen-matches : check_evidence_matches_fills (four ∷ []) (seen ∷ []) ≡ ok tt
unfolding check_evidence_matches_fills check_from fill_mismatch option_mismatch
seen-matches = refl

fill-prepared :
    prepare_execution_batch live_row stocked (OrderEvent.fill four) (seen ∷ []) ≡ ok fill_txn
unfolding prepare_execution_batch flatten_event_fills check_ledgers
fill-prepared = ground (arith, seen-matches, same_refl LedgerId-discrete market)

prepare_execution_batch-Follows_example :
    (r : OrderRow) × (apply_execution_txn fill_txn (some live_row) stocked
      ≡ ok (some r, apply_planned fill_txn stocked))
    × Follows live_row (batch_call live_row stocked (OrderEvent.fill four) (seen ∷ [])) r
    × Restorable live_row fill_txn r
prepare_execution_batch-Follows_example =
    prepare_execution_batch-Follows live_row stocked (OrderEvent.fill four) (seen ∷ []) fill_txn
      fill-prepared

abbrev filled_row : OrderRow
filled_row =
    (prepare_execution_batch-Follows live_row stocked (OrderEvent.fill four) (seen ∷ []) fill_txn
      fill-prepared).0

fill-applied :
    apply_execution_txn fill_txn (some live_row) stocked
    ≡ ok (some filled_row, apply_planned fill_txn stocked)
fill-applied =
    (prepare_execution_batch-Follows live_row stocked (OrderEvent.fill four) (seen ∷ []) fill_txn
      fill-prepared).1

prepare_execution_batch-Upgrades_example :
    (x : InventoryEntry) × (get (apply_planned fill_txn stocked) "f1" ≡ some x) × Upgrades met x
unfolding get lookup
prepare_execution_batch-Upgrades_example =
    prepare_execution_batch-Upgrades live_row live_row stocked (apply_planned fill_txn stocked)
      (OrderEvent.fill four) (seen ∷ []) fill_txn (some filled_row) "f1" met fill-prepared
      fill-applied refl

apply_execution_txn-Applied_example :
    Applied fill_txn (some live_row) stocked (some filled_row) (apply_planned fill_txn stocked)
apply_execution_txn-Applied_example =
    apply_execution_txn-Applied fill_txn (some live_row) (some filled_row) stocked
      (apply_planned fill_txn stocked) fill-applied

check_evidence-AllAgree_example :
    (check_evidence_matches_fills (four ∷ []) (seen ∷ []) ≡ ok tt)
    ↔ AllAgree (four ∷ []) (seen ∷ [])
check_evidence-AllAgree_example = check_evidence-AllAgree (four ∷ []) (seen ∷ [])

execution_debt-unattributed_example :
    execution_debt (fresh_order ∷ []) ≡ saturating_add 0 (unattributed (fresh_order ∷ []))
execution_debt-unattributed_example = execution_debt-unattributed (fresh_order ∷ [])

-- Executions without a row, and a batch in which one of them comes twice, once with another price.
abbrev stream : List Attempt
stream =
    norow seen
    ∷ norow (record seen { price_cents = 43 })
    ∷ batch live_row (OrderEvent.fill four) (seen ∷ [])
    ∷ batch (record live_row { ledger = record { scope = "live"; market = "n" } })
        (OrderEvent.fill four) (record seen { fee_cents = some 2 } ∷ [])
    ∷ []

rebuild_inventory-ingest_all_example :
    (r : MarketInventory) × (rebuild_inventory market (ingest_all (new_inventory market) stream).1
      ≡ ok r)
    × SameInventory r (ingest_all (new_inventory market) stream).0
rebuild_inventory-ingest_all_example = rebuild_inventory-ingest_all market stream
