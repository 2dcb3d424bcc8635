-- ===== src/Execution/Twice.antt =====
-- A journal that ingests one execution twice is refused by `rebuild`.
use omsrs.Prelude.{
  ◌≡◌, ◌≢◌, List, [], ◌∷◌, ◌++◌, Bool, true, false, is_some, any, arith, ◌&&◌, ◌||◌, same_text,
  eq_iff, Bool-cases, inl, inr,
}
use omsrs.Equality.{same}
use omsrs.BTreeMap.{contains_key, lookup-insert}
use omsrs.Lifecycle.Types.{FillId}
use omsrs.Execution.Types.{
  LedgerId, MarketInventory, ExecutionOutcome, ExecutionTxnRecord, JournalLine, Result-cases, ok,
  LedgerId-discrete,
}
use omsrs.Execution.Inventory.{
  Fold, TxnFold, fold_outcome, fold_outcomes, fold_txn, fold_lines, no_fold, open_txn,
  rebuild_inventory,
}
use omsrs.Execution.Ledger.{is_ingested}

-- The outcome ingests the execution.
abbrev pub ingests : FillId → ExecutionOutcome → Bool
ingests id o = same_text o.evidence.execution_id id && is_ingested o.inventory

-- The outcome ingests it with an entry.
abbrev pub stores : FillId → ExecutionOutcome → Bool
stores id o = ingests id o && is_some o.entry_after

-- The line is a transaction of the ledger, and holds such an outcome.
abbrev pub line_holds : LedgerId → (ExecutionOutcome → Bool) → JournalLine → Bool
line_holds ledger test (JournalLine.core _) = false
line_holds ledger test (JournalLine.order_txn _) = false
line_holds ledger test (JournalLine.execution_txn txn) =
    same LedgerId-discrete txn.ledger ledger && any test txn.executions

fold_outcome-kept :
    (id : FillId) (t t' : TxnFold) (o : ExecutionOutcome)
    → fold_outcome t o ≡ ok t'
    → contains_key id t.fold.ingested_ids || stores id o ≡ true
    → contains_key id t'.fold.ingested_ids ≡ true
unfolding fold_outcome
fold_outcome-kept id t t' o h k = ground (
  arith,
  h,
  k,
  lookup-insert o.evidence.execution_id id tt t.fold.ingested_ids,
  eq_iff o.evidence.execution_id id,
)

fold_outcome-refused :
    (id : FillId) (t t' : TxnFold) (o : ExecutionOutcome)
    → contains_key id t.fold.ingested_ids ≡ true
    → ingests id o ≡ true
    → fold_outcome t o ≢ ok t'
unfolding fold_outcome
fold_outcome-refused id t t' o k i h = ground (arith, h, k, i, eq_iff o.evidence.execution_id id)

fold_outcomes-kept :
    (id : FillId) (t t' : TxnFold) (os : List ExecutionOutcome)
    → fold_outcomes t os ≡ ok t'
    → contains_key id t.fold.ingested_ids || any (stores id) os ≡ true
    → contains_key id t'.fold.ingested_ids ≡ true
unfolding fold_outcomes
fold_outcomes-kept id t t' [] h k = ground (arith, h, k)
fold_outcomes-kept id t t' (o ∷ os) h k = elim (Result-cases (fold_outcome t o)) [
  | inl (t₁, e) ↦
      fold_outcomes-kept id t₁ t' os (rw (e, fold_outcomes) at h)
        (ground (arith, k, fold_outcome-kept id t t₁ o e))
  | inr (x, e) ↦ ground (arith, e, h)
]

fold_outcomes-refused :
    (id : FillId) (t t' : TxnFold) (os : List ExecutionOutcome)
    → contains_key id t.fold.ingested_ids ≡ true
    → any (ingests id) os ≡ true
    → fold_outcomes t os ≢ ok t'
unfolding fold_outcomes
fold_outcomes-refused id t t' [] k i h = cc i
fold_outcomes-refused id t t' (o ∷ os) k i h = elim (Result-cases (fold_outcome t o)) [
  | inl (t₁, e) ↦ elim (Bool-cases (ingests id o)) [
    | inl now ↦ fold_outcome-refused id t t₁ o k now e
    | inr later ↦
        fold_outcomes-refused id t₁ t' os (fold_outcome-kept id t t₁ o e (ground (arith, k)))
          (ground (arith, i, later)) (rw (e, fold_outcomes) at h)
  ]
  | inr (x, e) ↦ ground (arith, e, h)
]

fold_txn-kept :
    (ledger : LedgerId) (id : FillId) (f f' : Fold) (txn : ExecutionTxnRecord)
    → fold_txn ledger f txn ≡ ok f'
    → contains_key id f.ingested_ids
        || line_holds ledger (stores id) (JournalLine.execution_txn txn)
      ≡ true
    → contains_key id f'.ingested_ids ≡ true
unfolding fold_txn
fold_txn-kept ledger id f f' txn h k =
    elim (Result-cases (fold_outcomes (open_txn f) txn.executions)) [
      | inl (t, e) ↦ ground (arith, h, k, e, fold_outcomes-kept id (open_txn f) t txn.executions e)
      | inr (x, e) ↦ ground (arith, h, k, e)
    ]

fold_txn-refused :
    (ledger : LedgerId) (id : FillId) (f f' : Fold) (txn : ExecutionTxnRecord)
    → contains_key id f.ingested_ids ≡ true
    → line_holds ledger (ingests id) (JournalLine.execution_txn txn) ≡ true
    → fold_txn ledger f txn ≢ ok f'
unfolding fold_txn
fold_txn-refused ledger id f f' txn k i h =
    elim (Result-cases (fold_outcomes (open_txn f) txn.executions)) [
      | inl (t, e) ↦ fold_outcomes-refused id (open_txn f) t txn.executions k (ground (arith, i)) e
      | inr (x, e) ↦ ground (arith, h, i, e)
    ]

fold_lines-refused :
    (ledger : LedgerId) (id : FillId) (f f' : Fold) (lines : List JournalLine)
    → contains_key id f.ingested_ids ≡ true
    → any (line_holds ledger (ingests id)) lines ≡ true
    → fold_lines ledger f lines ≢ ok f'
unfolding fold_lines
fold_lines-refused ledger id f f' [] k i h = cc i
fold_lines-refused ledger id f f' (JournalLine.core _ ∷ lines) k i h =
    fold_lines-refused ledger id f f' lines k i h
fold_lines-refused ledger id f f' (JournalLine.order_txn _ ∷ lines) k i h =
    fold_lines-refused ledger id f f' lines k i h
fold_lines-refused ledger id f f' (JournalLine.execution_txn txn ∷ lines) k i h =
    elim (Result-cases (fold_txn ledger f txn)) [
      | inl (f₁, e) ↦
          elim (Bool-cases (line_holds ledger (ingests id) (JournalLine.execution_txn txn))) [
            | inl now ↦ fold_txn-refused ledger id f f₁ txn k now e
            | inr later ↦
                fold_lines-refused ledger id f₁ f' lines
                  (fold_txn-kept ledger id f f₁ txn e (ground (arith, k)))
                  (ground (arith, i, later)) (rw (e, fold_lines) at h)
          ]
      | inr (x, e) ↦ ground (arith, e, h)
    ]

fold_lines-twice :
    (ledger : LedgerId) (id : FillId) (f f' : Fold) (first later : List JournalLine)
    → contains_key id f.ingested_ids || any (line_holds ledger (stores id)) first ≡ true
    → any (line_holds ledger (ingests id)) later ≡ true
    → fold_lines ledger f (first ++ later) ≢ ok f'
unfolding fold_lines
fold_lines-twice ledger id f f' [] later k i h =
    fold_lines-refused ledger id f f' later (ground (arith, k)) i h
fold_lines-twice ledger id f f' (JournalLine.core _ ∷ first) later k i h =
    fold_lines-twice ledger id f f' first later k i h
fold_lines-twice ledger id f f' (JournalLine.order_txn _ ∷ first) later k i h =
    fold_lines-twice ledger id f f' first later k i h
fold_lines-twice ledger id f f' (JournalLine.execution_txn txn ∷ first) later k i h =
    elim (Result-cases (fold_txn ledger f txn)) [
      | inl (f₁, e) ↦
          fold_lines-twice ledger id f₁ f' first later
            (ground (arith, k, fold_txn-kept ledger id f f₁ txn e)) i (rw (e, fold_lines) at h)
      | inr (x, e) ↦ ground (arith, e, h)
    ]

-- If a journal holds a transaction of the ledger that ingests an execution with an entry, and a
-- later transaction of the ledger that ingests the same execution, rebuild returns no inventory.
pub rebuild_inventory-twice :
    (ledger : LedgerId) (id : FillId) (first later : List JournalLine) (inv : MarketInventory)
    → any (line_holds ledger (stores id)) first ≡ true
    → any (line_holds ledger (ingests id)) later ≡ true
    → rebuild_inventory ledger (first ++ later) ≢ ok inv
unfolding rebuild_inventory
rebuild_inventory-twice ledger id first later inv k i h =
    elim (Result-cases (fold_lines ledger no_fold (first ++ later))) [
      | inl (f, e) ↦ fold_lines-twice ledger id no_fold f first later (ground (arith, k)) i e
      | inr (x, e) ↦ ground (arith, e, h)
    ]
