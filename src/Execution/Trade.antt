-- ===== src/Execution/Trade.antt =====
-- A batch that is prepared, applied and journaled, against the fold of the journal.
use omsrs.Prelude.{
  ◌<◌, ◌≡◌, refl, sym, ap, ◌∙◌, List, [], Option, some, Option-cases, inl, inr, ◌⊎◌,
}
use omsrs.Prelude.Words.{u64_limit}
use omsrs.BTreeMap.{lookup}
use omsrs.BTreeMap.Inserts.{inserts}
use omsrs.Lifecycle.Events.{OrderEvent}
use omsrs.Execution.Types.{
  ExecutionEvidence, MarketInventory, OrderRow, JournalLine, ok, err, Result-cases, PrepareError,
  ExecutionTransaction,
}
use omsrs.Execution.Inventory.{Fold}
use omsrs.Execution.NoRow.{Plan, execution_line}
use omsrs.Execution.Batch.{
  CoreCall, order_part_of, batch_txn, batch_of, outcomes_of, plans_of, verdicts_of,
  prepare_execution_batch, plan_conflicts, is_foreign_row, check_ledgers, batch_ctx, batch_outcome,
}
use omsrs.Execution.Commit.{apply_execution_txn, apply_planned, write_row}
use omsrs.Execution.Evidence.{check_evidence_matches_fills, flatten_event_fills}
use mathlib.Core.Path.{subst, ap₂}
use omsrs.Execution.Rows.{apply_batch-ok, batch_call}
use omsrs.Execution.Outcomes.{plan_of}
use omsrs.Execution.Identity.{verdicts_of-Keeps}
use omsrs.Execution.Staged.{verdicts_of-TakesOnce}
use omsrs.Execution.Coherence.{verdicts_of-AllTell, plans_of-AllCoherent, plans_of-Once}
use omsrs.Execution.Ledger.{Mirrors}
use omsrs.Execution.Planned.{conflict_pairs, plan_entries-inserts, plan_conflicts-inserts}
use omsrs.Execution.Mirror.{after_plans, apply_planned-after}
use omsrs.Execution.Folding.{lines_of, Folded, same-Folded, plans-Folded}

batch_txn-after :
    (order : OrderRow) (inv : MarketInventory) (event : OrderEvent) (call : CoreCall)
    (ps : List Plan)
    → inv.generation < u64_limit
    → apply_planned (batch_txn order inv event call ps) inv ≡ after_plans inv ps
unfolding batch_txn
batch_txn-after order inv event call ps g =
    apply_planned-after inv ps (batch_txn order inv event call ps) g (plan_entries-inserts ps []) (
      ap (λ m. plan_conflicts m ps) (plan_conflicts-inserts ps [])
      ∙ plan_conflicts-inserts ps (inserts (conflict_pairs ps) []))

batch_txn-journal :
    (order : OrderRow) (inv : MarketInventory) (event : OrderEvent) (call : CoreCall)
    (ps : List Plan)
    → (batch_txn order inv event call ps).journal
      ≡ execution_line inv (outcomes_of ps) (order_part_of order event call)
unfolding batch_txn
batch_txn-journal order inv event call ps = refl

-- The inventory and the lines after a batch; a batch that is refused leaves both.
unfoldable pub trade :
    OrderRow
    → MarketInventory
    → OrderEvent
    → List ExecutionEvidence
    → MarketInventory × List JournalLine
trade order inv event es = elim (prepare_execution_batch order inv event es) [
  | err _ ↦ (inv, [])
  | ok txn ↦ elim (apply_execution_txn txn (some order) inv) [
    | err _ ↦ (inv, [])
    | ok (_, after) ↦ (after, lines_of txn.journal)
  ]
]

-- The plans of a batch.
abbrev pub planned : OrderRow → MarketInventory → OrderEvent → List ExecutionEvidence → List Plan
planned order inv event es =
    let (pre, staging) = verdicts_of inv order es in
    let call = batch_call order inv event es in
    plans_of
      (plan_of inv order (is_foreign_row inv order) staging (batch_ctx order call)
        (batch_outcome call))
      pre

batch_planned :
    (order : OrderRow) (inv : MarketInventory) (event : OrderEvent) (es : List ExecutionEvidence)
    → batch_of order inv event es
      ≡ batch_txn order inv event (batch_call order inv event es) (planned order inv event es)
unfolding batch_of
batch_planned order inv event es = refl

prepare-batch :
    (order : OrderRow) (inv : MarketInventory) (event : OrderEvent) (es : List ExecutionEvidence)
    → ((e : PrepareError) × (prepare_execution_batch order inv event es ≡ err e))
      ⊎ (prepare_execution_batch order inv event es ≡ ok (batch_of order inv event es))
unfolding prepare_execution_batch
prepare-batch order inv event es =
    elim (Result-cases (check_evidence_matches_fills (flatten_event_fills event) es)) [
      | inr (e, h) ↦ inl (e, rw (h, prepare_execution_batch) refl)
      | inl (x, h) ↦ elim (Option-cases (check_ledgers inv es)) [
        | inl own ↦ inr (rw (h, prepare_execution_batch) (rw own refl))
        | inr (e, foreign) ↦ inl (e, rw (h, prepare_execution_batch) (rw foreign refl))
      ]
    ]

trade-refused :
    (order : OrderRow) (inv : MarketInventory) (event : OrderEvent) (es : List ExecutionEvidence)
    (reason : PrepareError)
    → prepare_execution_batch order inv event es ≡ err reason
    → trade order inv event es ≡ (inv, [])
unfolding trade
trade-refused order inv event es reason h = rw (h, trade) refl

trade-accepted :
    (order r : OrderRow) (inv after : MarketInventory) (event : OrderEvent)
    (es : List ExecutionEvidence) (txn : ExecutionTransaction)
    → prepare_execution_batch order inv event es ≡ ok txn
    → apply_execution_txn txn (some order) inv ≡ ok (some r, after)
    → trade order inv event es ≡ (after, lines_of txn.journal)
unfolding trade
trade-accepted order r inv after event es txn h k = rw (h, trade) (rw (k) refl)

trade-planned :
    (order : OrderRow) (inv : MarketInventory) (event : OrderEvent) (es : List ExecutionEvidence)
    → inv.generation < u64_limit
    → (trade order inv event es ≡ (inv, []))
      ⊎ (trade order inv event es ≡ (
        after_plans inv (planned order inv event es),
        lines_of (
            execution_line inv
              (outcomes_of (planned order inv event es))
              (order_part_of order event (batch_call order inv event es))),
      ))
trade-planned order inv event es g = elim (prepare-batch order inv event es) [
  | inl (reason, refused) ↦ inl (trade-refused order inv event es reason refused)
  | inr accepted ↦
      let call = batch_call order inv event es in
      let ps = planned order inv event es in
      let txn = batch_txn order inv event call ps in
      inr (
        trade-accepted order (write_row txn order) inv (apply_planned txn inv) event es txn
          (accepted ∙ ap ok (batch_planned order inv event es))
          (apply_batch-ok order inv event call ps)
        ∙ ap₂ (λ (i : MarketInventory) (l : Option JournalLine). (i, lines_of l))
            (batch_txn-after order inv event call ps g) (batch_txn-journal order inv event call ps))
]

pub trade-Folded :
    (order : OrderRow) (inv : MarketInventory) (event : OrderEvent) (es : List ExecutionEvidence)
    (f : Fold)
    → inv.generation < u64_limit
    → Mirrors f inv
    → Folded inv f (trade order inv event es)
unfolding lookup
trade-Folded order inv event es f g m =
    let pre = (verdicts_of inv order es).0 in
    let staging = (verdicts_of inv order es).1 in
    let call = batch_call order inv event es in
    let foreign = is_foreign_row inv order in
    let keep = verdicts_of-Keeps inv order es in
    let tell = verdicts_of-AllTell inv order es in
    elim (trade-planned order inv event es g) [
      | inl kept ↦ subst (Folded inv f) (sym kept) (same-Folded inv f g m)
      | inr moved ↦ subst (Folded inv f) (sym moved) (
          plans-Folded inv (planned order inv event es) (order_part_of order event call) f g
            (plans_of-AllCoherent inv order foreign staging (batch_ctx order call)
              (batch_outcome call) pre keep tell)
            (plans_of-Once inv order foreign staging (batch_ctx order call) (batch_outcome call) pre
              f.ingested_ids [] keep tell (verdicts_of-TakesOnce inv order es)
              (λ j h. m.ingested j h))
            m)
    ]
