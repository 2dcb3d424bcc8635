-- ===== src/Observation/Holding.antt =====
-- src/observation.rs, lines 840 to 878: the executions that a wire holds.
use omsrs.Prelude.{
  Option, none, some, List, [], ◌∷◌, Bool, true, false, not, ◌&&◌, is_none, unwrap_or, or_option,
  if◌then◌else◌,
}
use omsrs.BTreeMap.{BTreeMap, contains_key}
use omsrs.BTreeMap
use omsrs.Lifecycle.Types.{VenueOrderId, FillId}
use omsrs.Execution.Types.{LedgerId, InventoryEntry, InventoryDisposition, ExecutionOutcome}
use omsrs.Observation.Types.{WireKind, WireState, WireRegistry}
use omsrs.Observation.Registry.{ensured}

-- The wire holds the execution; a new one without an owner opens it again.
unfoldable pub hold_execution : FillId → InventoryEntry → WireState → WireState
hold_execution id entry ws =
    let newly = not (contains_key id ws.held) in
    let held = record ws { held = BTreeMap.insert id tt ws.held } in
    if newly && is_none entry.owner
    then elim ws.kind [
      | WireKind.venue_only ↦ record held { resolved = false }
      | WireKind.scoped ↦ record held { tracked = true }
    ]
    else held

abbrev pub is_entry_kept : InventoryDisposition → Bool
is_entry_kept (InventoryDisposition.ingested _) = true
is_entry_kept InventoryDisposition.upgraded = true
is_entry_kept _ = false

abbrev pub entry_wire : Option InventoryEntry → Option VenueOrderId
entry_wire none = none
entry_wire (some entry) = entry.venue_order_id

unfoldable pub note_index : WireRegistry → Option VenueOrderId → FillId → WireRegistry
note_index reg none id = reg
note_index reg (some wire) id = record reg {
  id_index =
      BTreeMap.insert wire
        (BTreeMap.insert id tt (unwrap_or (BTreeMap.lookup wire reg.id_index) [])) reg.id_index;
}

unfoldable pub hold_entry : WireRegistry → LedgerId → FillId → Option InventoryEntry → WireRegistry
hold_entry reg ledger id none = reg
hold_entry reg ledger id (some entry) = elim entry.venue_order_id [
  | none ↦ reg
  | some wire ↦ ensured reg ledger wire (hold_execution id entry)
]

unfoldable pub fold_execution : WireRegistry → LedgerId → ExecutionOutcome → WireRegistry
fold_execution reg ledger o =
    let id = o.evidence.execution_id in
    let noted =
      note_index reg (or_option (entry_wire o.entry_after) o.evidence.venue_order_id) id in
    if is_entry_kept o.inventory then hold_entry noted ledger id o.entry_after else noted

unfoldable pub fold_executions : WireRegistry → LedgerId → List ExecutionOutcome → WireRegistry
fold_executions reg ledger [] = reg
fold_executions reg ledger (o ∷ os) = fold_executions (fold_execution reg ledger o) ledger os
