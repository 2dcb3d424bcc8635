-- ===== src/Execution/Batch.antt =====
-- src/execution.rs, lines 905 to 924 and 1109 to 1972: a batch of executions, with the event of
-- the order that carries their fills.
use omsrs.Prelude.{
  ℕ, suc, ◌+◌, Option, none, some, List, [], ◌∷◌, Bool, true, false, not, ◌||◌, ◌&&◌, any, is_some,
  is_empty, unwrap_or, same_text, if◌then◌else◌,
}
use omsrs.Equality.{same}
use omsrs.BTreeMap.{BTreeMap, lookup, insert, remove}
use omsrs.Lifecycle.Types.{HaltReason}
use omsrs.Lifecycle.Events.{OrderEvent, Effect}
use omsrs.Lifecycle.Ctx.{OrderCtx}
use omsrs.Lifecycle.Outcome.{TransitionOutcome, effects, halt_with_reason}
use omsrs.Lifecycle.Frozen.{is_restart_frozen}
use omsrs.Lifecycle.Apply.{apply_event}
use omsrs.Execution.Types.{
  ExecutionEvidence, InventoryEntry, InventoryProvenance, ConflictFact, MarketInventory, OrderRow,
  BatchOutcome, RefusalReason, OrderDisposition, InventoryDisposition, ExecutionOutcome,
  OrderTxnRecord, ExecutionTransaction, PrepareError, Result, ok, err, LedgerId-discrete,
}
use omsrs.Execution.Evidence.{
  evidence_ledger, split_effects, outcome_from_transition, flatten_event_fills,
  check_evidence_matches_fills,
}
use omsrs.Execution.Staging.{StagedPayload, to_entry, same_side}
use omsrs.Execution.Inventory.{get}
use omsrs.Execution.NoRow.{Plan, execution_line, prepare_execution_norow}
use omsrs.Execution.Adjudicate.{PreCore, Staging, Verdict, adjudicate_foreign, adjudicate_own}
use omsrs.Execution.CoreEvent.{Admitted, rebuild_event_with_fills}
use omsrs.Execution.Outcomes.{plan_of}
use omsrs.Execution.Orders.{transition_changed, order_txn_record}

-- The verdicts on a batch, in its order, and the staging at its end.
abbrev pub Verdicts : Type 0
Verdicts = List (ExecutionEvidence × PreCore) × Staging

unfoldable pub adjudicate :
    (Staging → ExecutionEvidence → Verdict) → Staging → List ExecutionEvidence → Verdicts
adjudicate judge staging [] = ([], staging)
adjudicate judge staging (e ∷ es) =
    let (verdict, staging') = judge staging e in
    let (verdicts, last) = adjudicate judge staging' es in ((e, verdict) ∷ verdicts, last)

abbrev pub wrong_side : OrderRow → ExecutionEvidence → RefusalReason
wrong_side order e = RefusalReason.side_mismatch order.ctx.side e.side

-- An admitted evidence of the other side is kept from the order; the inventory takes it.
unfoldable pub side_refused :
    MarketInventory → OrderRow → Option StagedPayload → ExecutionEvidence → PreCore
side_refused inventory order staged e =
    let refusal = wrong_side order e in
    elim (get inventory e.execution_id) [
      | some p ↦
          PreCore.refused (OrderDisposition.refused refusal) InventoryDisposition.duplicate (some p)
            none
      | none ↦ elim staged [
        | some sp ↦
            PreCore.refused (OrderDisposition.refused refusal)
              (InventoryDisposition.ingested (InventoryProvenance.refused refusal))
              (some (to_entry sp none (InventoryProvenance.refused refusal))) none
        | none ↦
            PreCore.refused (OrderDisposition.refused refusal) InventoryDisposition.unchanged none
              none
      ]
    ]

unfoldable pub check_side :
    MarketInventory → OrderRow → Staging → ExecutionEvidence → PreCore → Verdict
check_side inventory order staging e (PreCore.admitted staged) =
    if same_side order.ctx.side e.side then (PreCore.admitted staged, staging) else (
      side_refused inventory order (lookup e.execution_id staging) e,
      remove e.execution_id staging,
    )
check_side inventory order staging e PreCore.ignored_zero = (PreCore.ignored_zero, staging)
check_side inventory order staging e (PreCore.refused od idisp entry conflict) =
    (PreCore.refused od idisp entry conflict, staging)

unfoldable pub check_sides :
    MarketInventory → OrderRow → Staging → List (ExecutionEvidence × PreCore) → Verdicts
check_sides inventory order staging [] = ([], staging)
check_sides inventory order staging ((e, verdict) ∷ pre) =
    let (verdict', staging') = check_side inventory order staging e verdict in
    let (pre', last) = check_sides inventory order staging' pre in ((e, verdict') ∷ pre', last)

abbrev pub is_foreign_row : MarketInventory → OrderRow → Bool
is_foreign_row inventory order =
    not (same LedgerId-discrete order.ledger inventory.ledger)
    || not (same_text order.ctx.market order.ledger.market)

unfoldable pub verdicts_of : MarketInventory → OrderRow → List ExecutionEvidence → Verdicts
verdicts_of inventory order evidences =
    if is_foreign_row inventory order
    then adjudicate
        (adjudicate_foreign inventory
          (RefusalReason.row_foreign order.ledger order.ctx.market inventory.ledger))
        [] evidences
    else (let (pre, staging) = adjudicate (adjudicate_own inventory order) [] evidences in
        check_sides inventory order staging pre)

-- The admitted evidences with their positions from `i` on.
unfoldable pub admitted_of : ℕ → Staging → List (ExecutionEvidence × PreCore) → List Admitted
admitted_of i staging [] = []
admitted_of i staging ((e, PreCore.admitted staged) ∷ pre) =
    record {
      position = i;
      id = e.execution_id;
      staged = unwrap_or (lookup e.execution_id staging) staged;
    }
    ∷ admitted_of (suc i) staging pre
admitted_of i staging ((e, PreCore.ignored_zero) ∷ pre) = admitted_of (suc i) staging pre
admitted_of i staging ((e, PreCore.refused _ _ _ _) ∷ pre) = admitted_of (suc i) staging pre

abbrev pub is_side_mismatch : ExecutionEvidence × PreCore → Bool
is_side_mismatch
      (e, PreCore.refused (OrderDisposition.refused (RefusalReason.side_mismatch _ _)) _ _ _) =
    true
is_side_mismatch _ = false

abbrev pub is_ignored_zero : ExecutionEvidence × PreCore → Bool
is_ignored_zero (e, PreCore.ignored_zero) = true
is_ignored_zero _ = false

unfoldable pub all_side_mismatch : List (ExecutionEvidence × PreCore) → List Admitted → Bool
all_side_mismatch pre admitted =
    not (is_empty pre)
    && not (any (λ v. not (is_side_mismatch v || is_ignored_zero v)) pre)
    && any is_side_mismatch pre
    && is_empty admitted

abbrev pub is_structured : OrderEvent → Bool
is_structured (OrderEvent.immediate_fill_backfill_result _) = true
is_structured (OrderEvent.unknown_backfill_result _ _) = true
is_structured (OrderEvent.reconcile_result _ _ _ _ _ _) = true
is_structured _ = false

-- What the order core did, if it was called.
abbrev pub CoreCall : Type 0
CoreCall = Option (TransitionOutcome × OrderCtx)

unfoldable pub core_call :
    OrderRow → Bool → OrderEvent → List (ExecutionEvidence × PreCore) → List Admitted → CoreCall
core_call order row_foreign event pre admitted =
    if row_foreign
    then none
    else if all_side_mismatch pre admitted
    then (if is_restart_frozen order.state
        then none
        else some (
          halt_with_reason
              (HaltReason.cross_check_mismatch "execution side mismatch with order ctx.side") [],
          order.ctx,
        ))
    else if not (is_empty admitted) || is_structured event
    then some (apply_event order.state order.ctx (rebuild_event_with_fills event admitted))
    else none

unfoldable pub plans_of :
    (ExecutionEvidence × PreCore → Plan) → List (ExecutionEvidence × PreCore) → List Plan
plans_of plan [] = []
plans_of plan (v ∷ pre) = plan v ∷ plans_of plan pre

unfoldable pub outcomes_of : List Plan → List ExecutionOutcome
outcomes_of [] = []
outcomes_of (p ∷ ps) = p.outcome ∷ outcomes_of ps

unfoldable pub plan_entries : BTreeMap InventoryEntry → List Plan → BTreeMap InventoryEntry
plan_entries planned [] = planned
plan_entries planned (p ∷ ps) = elim p.entry [
  | none ↦ plan_entries planned ps
  | some entry ↦ plan_entries (insert p.outcome.evidence.execution_id entry planned) ps
]

unfoldable pub plan_conflicts : BTreeMap ConflictFact → List Plan → BTreeMap ConflictFact
plan_conflicts planned [] = planned
plan_conflicts planned (p ∷ ps) = elim p.conflict [
  | none ↦ plan_conflicts planned ps
  | some fact ↦ plan_conflicts (insert fact.execution_id fact planned) ps
]

unfoldable pub order_part_of : OrderRow → OrderEvent → CoreCall → Option OrderTxnRecord
order_part_of order event none = none
order_part_of order event (some (transition, scratch_ctx)) =
    if transition_changed order transition scratch_ctx
    then some (order_txn_record order event transition scratch_ctx)
    else none

abbrev pub batch_outcome : CoreCall → BatchOutcome
batch_outcome none = BatchOutcome.accept
batch_outcome (some (transition, _)) = outcome_from_transition transition

abbrev pub batch_ctx : OrderRow → CoreCall → OrderCtx
batch_ctx order none = order.ctx
batch_ctx order (some (_, scratch_ctx)) = scratch_ctx

abbrev pub batch_effects : CoreCall → List Effect
batch_effects none = []
batch_effects (some (transition, _)) = (split_effects (effects transition)).1

-- The conflicts are planned at the verdicts, and once more at the outcomes.
unfoldable pub batch_txn :
    OrderRow → MarketInventory → OrderEvent → CoreCall → List Plan → ExecutionTransaction
batch_txn order inventory event call plans =
    let order_part = order_part_of order event call in
    record {
      outcomes = outcomes_of plans;
      journal = execution_line inventory (outcomes_of plans) order_part;
      effects = batch_effects call;
      prepared_inventory_ledger = inventory.ledger;
      expected_generation = inventory.generation;
      prepared_order = some order;
      order_after = elim order_part [ none ↦ none | some o ↦ some (o.state_after, o.ctx_after) ];
      advance_cursor = is_some order_part;
      next_seq = if is_some order_part then order.cursor.seq + 1 else order.cursor.seq;
      planned_entries = plan_entries [] plans;
      planned_conflicts = plan_conflicts (plan_conflicts [] plans) plans;
    }

unfoldable pub batch_of :
    OrderRow → MarketInventory → OrderEvent → List ExecutionEvidence → ExecutionTransaction
batch_of order inventory event evidences =
    let row_foreign = is_foreign_row inventory order in
    let (pre, staging) = verdicts_of inventory order evidences in
    let admitted = admitted_of 0 staging pre in
    let call = core_call order row_foreign event pre admitted in
    let plan =
      plan_of inventory order row_foreign staging (batch_ctx order call) (batch_outcome call) in
    batch_txn order inventory event call (plans_of plan pre)

-- All evidences are of one ledger, that of the inventory.
unfoldable pub check_ledgers : MarketInventory → List ExecutionEvidence → Option PrepareError
check_ledgers inventory [] = none
check_ledgers inventory (e ∷ es) =
    if any (λ o. not (same LedgerId-discrete (evidence_ledger o) (evidence_ledger e))) es
    then some PrepareError.mixed_ledger_batch
    else if same LedgerId-discrete (evidence_ledger e) inventory.ledger
    then none
    else some (PrepareError.foreign_ledger inventory.ledger (evidence_ledger e))

unfoldable pub prepare_execution_batch :
    OrderRow
    → MarketInventory
    → OrderEvent
    → List ExecutionEvidence
    → Result PrepareError ExecutionTransaction
prepare_execution_batch order inventory event evidences =
    elim (check_evidence_matches_fills (flatten_event_fills event) evidences) [
      | err e ↦ err e
      | ok _ ↦ elim (check_ledgers inventory evidences) [
        | some e ↦ err e
        | none ↦ ok (batch_of order inventory event evidences)
      ]
    ]

abbrev pub fill_event : ExecutionEvidence → OrderEvent
fill_event e = OrderEvent.fill (record {
  fill_id = e.execution_id;
  qty = e.qty;
  price_cents = e.price_cents;
  ts_ns = e.ts_ns;
  venue_order_id = e.venue_order_id;
  fee_cents = e.fee_cents;
})

unfoldable pub prepare_execution :
    Option OrderRow → MarketInventory → ExecutionEvidence → Result PrepareError ExecutionTransaction
prepare_execution none inventory e = prepare_execution_norow inventory e
prepare_execution (some order) inventory e =
    prepare_execution_batch order inventory (fill_event e) (e ∷ [])
