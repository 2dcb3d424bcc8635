-- ===== src/Execution/Outcomes.antt =====
-- src/execution.rs, lines 1720 to 1885 and 1974 to 1990: what a batch reports of each evidence
-- after the order core has run, and what it plans for the inventory.
use omsrs.Prelude.{
  Option, none, some, Bool, true, false, not, ◌||◌, ◌&&◌, is_some, is_none, or_option, unwrap_or,
  if◌then◌else◌,
}
use omsrs.BTreeMap.{lookup}
use omsrs.Equality.{same, FillPayload-discrete}
use omsrs.Lifecycle.Types.{ClientOrderId, FillPayload, HaltReason}
use omsrs.Lifecycle.Ctx.{OrderCtx}
use omsrs.Execution.Types.{
  ExecutionEvidence, InventoryEntry, InventoryProvenance, ConflictFact, MarketInventory, OrderRow,
  BatchOutcome, OrderDisposition, IgnoreReason, InventoryDisposition,
}
use omsrs.Execution.Staging.{StagedPayload}
use omsrs.Execution.Inventory.{get}
use omsrs.Execution.Adjudicate.{PreCore, Staging}
use omsrs.Execution.NoRow.{Plan}

-- The halt that books a fill of an order which has ended.
abbrev pub is_post_terminal : BatchOutcome → Bool
is_post_terminal (BatchOutcome.halt HaltReason.post_terminal_fill) = true
is_post_terminal _ = false

abbrev pub same_booking : Option FillPayload → Option FillPayload → Bool
same_booking none none = true
same_booking none (some b) = false
same_booking (some a) none = false
same_booking (some a) (some b) = same FillPayload-discrete a b

-- How the order took an admitted fill, by its bookings before and after.
unfoldable pub order_disposition :
    BatchOutcome → Option FillPayload → Option FillPayload → OrderDisposition
order_disposition outcome before after =
    if is_none after
    then OrderDisposition.not_attributed_by_order outcome
    else if is_none before
    then (if is_post_terminal outcome
        then OrderDisposition.late_booked
        else OrderDisposition.attributed)
    else if same_booking before after
    then OrderDisposition.duplicate
    else OrderDisposition.enriched

abbrev pub is_booked : OrderDisposition → Bool
is_booked OrderDisposition.attributed = true
is_booked OrderDisposition.late_booked = true
is_booked OrderDisposition.duplicate = true
is_booked OrderDisposition.enriched = true
is_booked _ = false

unfoldable pub owner_for : OrderDisposition → ClientOrderId → Bool → Bool → Option ClientOrderId
owner_for disposition cid row_foreign in_after =
    if row_foreign || not in_after then none else if is_booked disposition then some cid else none

-- A known fill that the inventory lacks is recovered.
unfoldable pub admitted_provenance : OrderDisposition → Bool → Bool → InventoryProvenance
admitted_provenance disposition row_foreign in_before =
    if row_foreign then InventoryProvenance.row_foreign else elim disposition [
      | OrderDisposition.attributed ↦ InventoryProvenance.attributed
      | OrderDisposition.late_booked ↦ InventoryProvenance.late_booked
      | OrderDisposition.not_attributed_by_order o ↦ InventoryProvenance.not_attributed_by_order o
      | OrderDisposition.refused r ↦ InventoryProvenance.refused r
      | OrderDisposition.no_row ↦ InventoryProvenance.no_row
      | OrderDisposition.duplicate ↦
          if in_before then InventoryProvenance.recovered else InventoryProvenance.attributed
      | OrderDisposition.enriched ↦
          if in_before then InventoryProvenance.recovered else InventoryProvenance.attributed
      | OrderDisposition.ignored _ ↦ InventoryProvenance.attributed
    ]

-- The entry of an execution that the inventory lacks.
unfoldable pub admitted_entry :
    ExecutionEvidence → StagedPayload → Option ClientOrderId → InventoryProvenance → InventoryEntry
admitted_entry e final_staged owner provenance = record {
  side = final_staged.side;
  qty = final_staged.qty;
  price_cents = final_staged.price_cents;
  first_seen_ts_ns = e.ts_ns;
  venue_order_id = final_staged.venue_order_id;
  claimed_client_order_id = e.claimed_client_order_id;
  owner = owner;
  fee_cents = final_staged.fee_cents;
  source = e.source;
  provenance = provenance;
}

-- The entry takes what it leaves open: the owner where the order booked the fill, venue and fee.
unfoldable pub admitted_upgrade :
    InventoryEntry → StagedPayload → Option ClientOrderId → InventoryEntry
admitted_upgrade p final_staged owner = record p {
  owner = or_option p.owner owner;
  venue_order_id = or_option p.venue_order_id final_staged.venue_order_id;
  fee_cents = or_option p.fee_cents final_staged.fee_cents;
}

unfoldable pub admitted_upgrades : InventoryEntry → StagedPayload → Option ClientOrderId → Bool
admitted_upgrades p final_staged owner =
    is_none p.owner && is_some owner
    || is_none p.venue_order_id && is_some final_staged.venue_order_id
    || is_none p.fee_cents && is_some final_staged.fee_cents

unfoldable pub admitted_plan :
    MarketInventory
    → OrderRow
    → Bool
    → OrderCtx
    → BatchOutcome
    → ExecutionEvidence
    → StagedPayload
    → Plan
admitted_plan inventory order row_foreign scratch_ctx outcome e final_staged =
    let id = e.execution_id in
    let before = lookup id order.ctx.applied_fills in
    let after = lookup id scratch_ctx.applied_fills in
    let disposition = order_disposition outcome before after in
    let owner = owner_for disposition order.ctx.client_order_id row_foreign (is_some after) in
    elim (get inventory id) [
      | none ↦
          let provenance = admitted_provenance disposition row_foreign (is_some before) in
          let entry = admitted_entry e final_staged owner provenance in
          record {
            outcome = record {
              evidence = e;
              order = disposition;
              inventory = InventoryDisposition.ingested provenance;
              entry_after = some entry;
              conflict = none;
            };
            entry = some entry;
            conflict = none;
          }
      | some p ↦
          let entry = admitted_upgrade p final_staged owner in
          let upgraded = admitted_upgrades p final_staged owner in
          record {
            outcome = record {
              evidence = e;
              order = disposition;
              inventory =
                  if upgraded
                  then InventoryDisposition.upgraded
                  else InventoryDisposition.duplicate;
              entry_after = some entry;
              conflict = none;
            };
            entry = if upgraded then some entry else none;
            conflict = none;
          }
    ]

-- The entry of a foreign row's execution is published as it was staged last.
unfoldable pub published_entry :
    InventoryDisposition → Option StagedPayload → Option InventoryEntry → Option InventoryEntry
published_entry (InventoryDisposition.ingested InventoryProvenance.row_foreign) (some sp) (some p) =
    some (record p {
      venue_order_id = sp.venue_order_id;
      fee_cents = sp.fee_cents;
      claimed_client_order_id = sp.claimed_client_order_id;
    })
published_entry disposition staged entry = entry

abbrev pub plans_entry : InventoryDisposition → Bool
plans_entry (InventoryDisposition.ingested _) = true
plans_entry InventoryDisposition.upgraded = true
plans_entry _ = false

unfoldable pub refused_plan :
    ExecutionEvidence
    → OrderDisposition
    → InventoryDisposition
    → Option InventoryEntry
    → Option ConflictFact
    → Option StagedPayload
    → Plan
refused_plan e order inventory entry_after conflict staged =
    let published = published_entry inventory staged entry_after in
    record {
      outcome = record {
        evidence = e;
        order = order;
        inventory = inventory;
        entry_after = published;
        conflict = conflict;
      };
      entry = if plans_entry inventory then published else none;
      conflict = conflict;
    }

unfoldable pub ignored_plan : ExecutionEvidence → Plan
ignored_plan e = record {
  outcome = record {
    evidence = e;
    order = OrderDisposition.ignored IgnoreReason.zero_qty;
    inventory = InventoryDisposition.unchanged;
    entry_after = none;
    conflict = none;
  };
  entry = none;
  conflict = none;
}

unfoldable pub plan_of :
    MarketInventory
    → OrderRow
    → Bool
    → Staging
    → OrderCtx
    → BatchOutcome
    → ExecutionEvidence × PreCore
    → Plan
plan_of inventory order row_foreign staging scratch_ctx outcome (e, PreCore.ignored_zero) =
    ignored_plan e
plan_of inventory order row_foreign staging scratch_ctx outcome
      (e, PreCore.refused od idisp entry_after conflict) =
    refused_plan e od idisp entry_after conflict (lookup e.execution_id staging)
plan_of inventory order row_foreign staging scratch_ctx outcome (e, PreCore.admitted staged) =
    admitted_plan inventory order row_foreign scratch_ctx outcome e
      (unwrap_or (lookup e.execution_id staging) staged)
