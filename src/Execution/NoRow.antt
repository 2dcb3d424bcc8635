-- ===== src/Execution/NoRow.antt =====
-- src/execution.rs, lines 926 to 1106: an execution that no order row stands beside.
use omsrs.Prelude.{
  ◌==◌, Option, none, some, List, [], ◌∷◌, Bool, true, false, not, ◌||◌, ◌&&◌, any, is_some,
  is_none, or_option, if◌then◌else◌,
}
use omsrs.Equality.{same}
use omsrs.BTreeMap.{BTreeMap}
use omsrs.Lifecycle.Types.{FillId}
use omsrs.Execution.Types.{
  ExecutionEvidence, InventoryEntry, InventoryProvenance, ConflictWitness, ConflictClass,
  ConflictFact, MarketInventory, RefusalReason, OrderDisposition, IgnoreReason,
  InventoryDisposition, ExecutionOutcome, OrderTxnRecord, JournalLine, ExecutionTransaction,
  PrepareError, Result, ok, err, LedgerId-discrete,
}
use omsrs.Execution.Evidence.{evidence_ledger}
use omsrs.Execution.Staging.{same_side, core_disagree_qty_price_venue, fee_conflict}
use omsrs.Execution.Inventory.{get}

-- What an evidence does: its outcome, and the entry and the conflict that it plans.
pub record Plan : Type 0 where
  pub outcome : ExecutionOutcome
  pub entry : Option InventoryEntry
  pub conflict : Option ConflictFact

abbrev pub fact_of : ExecutionEvidence → ConflictClass → ConflictWitness → ConflictFact
fact_of e class witness = record {
  execution_id = e.execution_id;
  class = class;
  witness = witness;
  evidence = e;
}

unfoldable pub norow_conflict :
    ExecutionEvidence → InventoryEntry → ConflictClass → RefusalReason → Plan
norow_conflict e p class reason =
    let fact = fact_of e class (ConflictWitness.entry p) in
    record {
      outcome = record {
        evidence = e;
        order = OrderDisposition.refused reason;
        inventory = InventoryDisposition.conflict class;
        entry_after = some p;
        conflict = some fact;
      };
      entry = none;
      conflict = some fact;
    }

-- Only what the entry leaves open is taken from the evidence.
unfoldable pub norow_merged : ExecutionEvidence → InventoryEntry → InventoryEntry
norow_merged e p = record p {
  venue_order_id = or_option p.venue_order_id e.venue_order_id;
  fee_cents = or_option p.fee_cents e.fee_cents;
  claimed_client_order_id = or_option p.claimed_client_order_id e.claimed_client_order_id;
}

unfoldable pub norow_upgrades : ExecutionEvidence → InventoryEntry → Bool
norow_upgrades e p =
    is_none p.venue_order_id && is_some e.venue_order_id
    || is_none p.fee_cents && is_some e.fee_cents
    || is_none p.claimed_client_order_id && is_some e.claimed_client_order_id

unfoldable pub norow_known : ExecutionEvidence → InventoryEntry → Plan
norow_known e p =
    if core_disagree_qty_price_venue e.qty e.price_cents e.venue_order_id p.qty p.price_cents
        p.venue_order_id
      || not (same_side e.side p.side)
    then norow_conflict e p ConflictClass.core
        (RefusalReason.conflicting_execution ConflictClass.core)
    else if fee_conflict e.fee_cents p.fee_cents
    then norow_conflict e p ConflictClass.fee RefusalReason.fee_conflict
    else if norow_upgrades e p
    then record {
      outcome = record {
        evidence = e;
        order = OrderDisposition.no_row;
        inventory = InventoryDisposition.upgraded;
        entry_after = some (norow_merged e p);
        conflict = none;
      };
      entry = some (norow_merged e p);
      conflict = none;
    }
    else record {
      outcome = record {
        evidence = e;
        order = OrderDisposition.no_row;
        inventory = InventoryDisposition.duplicate;
        entry_after = some (norow_merged e p);
        conflict = none;
      };
      entry = none;
      conflict = none;
    }

abbrev pub norow_entry : ExecutionEvidence → InventoryEntry
norow_entry e = record {
  side = e.side;
  qty = e.qty;
  price_cents = e.price_cents;
  first_seen_ts_ns = e.ts_ns;
  venue_order_id = e.venue_order_id;
  claimed_client_order_id = e.claimed_client_order_id;
  owner = none;
  fee_cents = e.fee_cents;
  source = e.source;
  provenance = InventoryProvenance.no_row;
}

unfoldable pub norow_plan : MarketInventory → ExecutionEvidence → Plan
norow_plan inventory e =
    if e.qty == 0
    then record {
      outcome = record {
        evidence = e;
        order = OrderDisposition.ignored IgnoreReason.zero_qty;
        inventory = InventoryDisposition.unchanged;
        entry_after = none;
        conflict = none;
      };
      entry = none;
      conflict = none;
    }
    else elim (get inventory e.execution_id) [
      | some p ↦ norow_known e p
      | none ↦ record {
        outcome = record {
          evidence = e;
          order = OrderDisposition.no_row;
          inventory = InventoryDisposition.ingested InventoryProvenance.no_row;
          entry_after = some (norow_entry e);
          conflict = none;
        };
        entry = some (norow_entry e);
        conflict = none;
      }
    ]

-- The outcomes that the journal has to hold.
abbrev pub is_journaled : ExecutionOutcome → Bool
is_journaled o = elim o.inventory [
  | InventoryDisposition.ingested _ ↦ true
  | InventoryDisposition.upgraded ↦ true
  | InventoryDisposition.conflict _ ↦ true
  | _ ↦ false
]

unfoldable pub execution_line :
    MarketInventory → List ExecutionOutcome → Option OrderTxnRecord → Option JournalLine
execution_line inventory outcomes order =
    if is_some order || any is_journaled outcomes
    then some (
        JournalLine.execution_txn (record {
          ledger = inventory.ledger;
          inventory_generation_before = inventory.generation;
          executions = outcomes;
          order = order;
        }))
    else none

abbrev pub planned_one {ℓ} : {V : Type ℓ} → FillId → Option V → BTreeMap V
planned_one id none = []
planned_one id (some v) = (id, v) ∷ []

unfoldable pub norow_txn : MarketInventory → ExecutionEvidence → Plan → ExecutionTransaction
norow_txn inventory e plan = record {
  outcomes = plan.outcome ∷ [];
  journal = execution_line inventory (plan.outcome ∷ []) none;
  effects = [];
  prepared_inventory_ledger = inventory.ledger;
  expected_generation = inventory.generation;
  prepared_order = none;
  order_after = none;
  advance_cursor = false;
  next_seq = 0;
  planned_entries = planned_one e.execution_id plan.entry;
  planned_conflicts = planned_one e.execution_id plan.conflict;
}

unfoldable pub prepare_execution_norow :
    MarketInventory → ExecutionEvidence → Result PrepareError ExecutionTransaction
prepare_execution_norow inventory e =
    if same LedgerId-discrete (evidence_ledger e) inventory.ledger
    then ok (norow_txn inventory e (norow_plan inventory e))
    else err (PrepareError.foreign_ledger inventory.ledger (evidence_ledger e))
