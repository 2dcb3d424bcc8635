-- ===== src/Execution/Inventory.antt =====
-- src/execution.rs, lines 132 to 137 and 570 to 702: the inventory of a market, its view, and its
-- rebuild from the journal. The sum of `net` is an integer without bound: an i128 holds that of
-- 2^63 entries.
use omsrs.Prelude.{ℕ, ◌+◌, ◌==◌, Option, none, some, List, [], ◌∷◌, length, if◌then◌else◌}
use omsrs.Prelude.Int.{ℤ, pos, ◌+ℤ◌, ◌-ℤ◌, eqb_ℤ}
use omsrs.Prelude.Words.{saturating_add}
use omsrs.Equality.{same}
use omsrs.BTreeMap.{BTreeMap, lookup, insert, contains_key}
use omsrs.Lifecycle.Types.{Side, FillId}
use omsrs.Execution.Types.{
  LedgerId, InventoryEntry, ConflictClass, ConflictFact, MarketInventory, InventoryHealth,
  InventoryView, ChecksumDiagnostic, InventoryDisposition, ExecutionOutcome, ExecutionTxnRecord,
  JournalLine, RebuildError, Result, ok, err, LedgerId-discrete,
}

abbrev pub new_inventory : LedgerId → MarketInventory
new_inventory ledger = record { ledger = ledger; generation = 0; entries = []; conflicts = [] }

abbrev pub add_entry : ℤ → InventoryEntry → ℤ
add_entry n e = elim e.side [ Side.buy_yes ↦ n +ℤ pos e.qty | Side.sell_yes ↦ n -ℤ pos e.qty ]

unfoldable pub net_from : ℤ → BTreeMap InventoryEntry → ℤ
net_from n [] = n
net_from n ((id, e) ∷ es) = net_from (add_entry n e) es

unfoldable pub net : MarketInventory → ℤ
net inv = net_from (pos 0) inv.entries

-- The conflicts of each class.
unfoldable pub count_classes : ℕ × ℕ × ℕ → BTreeMap ConflictFact → ℕ × ℕ × ℕ
count_classes counts [] = counts
count_classes (core, ownership, fee) ((id, c) ∷ cs) =
    count_classes
      (elim c.class [
        | ConflictClass.core ↦ (core + 1, ownership, fee)
        | ConflictClass.ownership ↦ (core, ownership + 1, fee)
        | ConflictClass.fee ↦ (core, ownership, fee + 1)
      ])
      cs

unfoldable pub view : MarketInventory → InventoryView
view inv =
    let (core, ownership, fee) = count_classes (0, 0, 0) inv.conflicts in
    record {
      net = net inv;
      executions = length inv.entries;
      health =
          if core + ownership + fee == 0
          then InventoryHealth.clean
          else InventoryHealth.conflicted core ownership fee;
    }

unfoldable pub get : MarketInventory → FillId → Option InventoryEntry
get inv id = lookup id inv.entries

unfoldable pub checksum_diagnostic : MarketInventory → ℤ → ChecksumDiagnostic
checksum_diagnostic inv observed_net =
    if eqb_ℤ (net inv) observed_net
    then ChecksumDiagnostic.matched
    else ChecksumDiagnostic.mismatch (net inv) observed_net

-- What `rebuild` holds between two lines, and the ids that a transaction has touched so far. A
-- `BTreeSet` is a map to the unit.
pub record Fold : Type 0 where
  pub entries : BTreeMap InventoryEntry
  pub conflicts : BTreeMap ConflictFact
  pub generation : ℕ
  pub ingested_ids : BTreeMap (Unit {0})

pub record TxnFold : Type 0 where
  pub fold : Fold
  pub mutated_entry_ids : BTreeMap (Unit {0})
  pub conflict_ids : BTreeMap (Unit {0})

abbrev fold_conflict : TxnFold → Option ConflictFact → TxnFold
fold_conflict t none = t
fold_conflict t (some c) = record t {
  fold = record (t.fold) { conflicts = insert c.execution_id c t.fold.conflicts };
  conflict_ids = insert c.execution_id tt t.conflict_ids;
}

abbrev store_entry : TxnFold → FillId → InventoryEntry → TxnFold
store_entry t id e = record t {
  fold = record (t.fold) { entries = insert id e t.fold.entries };
  mutated_entry_ids = insert id tt t.mutated_entry_ids;
}

abbrev note_ingested : TxnFold → FillId → TxnFold
note_ingested t id = record t {
  fold = record (t.fold) { ingested_ids = insert id tt t.fold.ingested_ids };
}

unfoldable pub fold_outcome : TxnFold → ExecutionOutcome → Result RebuildError TxnFold
fold_outcome t₀ o =
    let id = o.evidence.execution_id in
    let t = fold_conflict t₀ o.conflict in
    elim o.inventory [
      | InventoryDisposition.ingested _ ↦
          if contains_key id t.fold.ingested_ids
          then err (RebuildError.duplicate_execution_record id)
          else elim o.entry_after [
            | none ↦ ok t
            | some e ↦ ok (store_entry (note_ingested t id) id e)
          ]
      | InventoryDisposition.upgraded ↦ elim o.entry_after [
        | none ↦ ok t
        | some e ↦ ok (store_entry t id e)
      ]
      | _ ↦ ok t
    ]

unfoldable pub fold_outcomes : TxnFold → List ExecutionOutcome → Result RebuildError TxnFold
fold_outcomes t [] = ok t
fold_outcomes t (o ∷ os) = elim (fold_outcome t o) [ ok t' ↦ fold_outcomes t' os | err e ↦ err e ]

abbrev pub open_txn : Fold → TxnFold
open_txn f = record { fold = f; mutated_entry_ids = []; conflict_ids = [] }

-- One bump for each entry and each conflict that the transaction touched.
abbrev pub close_txn : TxnFold → Fold
close_txn t = record (t.fold) {
  generation =
      saturating_add (saturating_add t.fold.generation (length t.mutated_entry_ids))
        (length t.conflict_ids);
}

unfoldable pub fold_txn : LedgerId → Fold → ExecutionTxnRecord → Result RebuildError Fold
fold_txn ledger f txn =
    if same LedgerId-discrete txn.ledger ledger
    then elim (fold_outcomes (open_txn f) txn.executions) [
      | ok t ↦ ok (close_txn t)
      | err e ↦ err e
    ]
    else ok f

unfoldable pub fold_lines : LedgerId → Fold → List JournalLine → Result RebuildError Fold
fold_lines ledger f [] = ok f
fold_lines ledger f (JournalLine.core _ ∷ lines) = fold_lines ledger f lines
fold_lines ledger f (JournalLine.order_txn _ ∷ lines) = fold_lines ledger f lines
fold_lines ledger f (JournalLine.execution_txn txn ∷ lines) = elim (fold_txn ledger f txn) [
  | ok f' ↦ fold_lines ledger f' lines
  | err e ↦ err e
]

abbrev pub no_fold : Fold
no_fold = record { entries = []; conflicts = []; generation = 0; ingested_ids = [] }

abbrev pub folded_inventory : LedgerId → Fold → MarketInventory
folded_inventory ledger f = record {
  ledger = ledger;
  generation = f.generation;
  entries = f.entries;
  conflicts = f.conflicts;
}

unfoldable pub rebuild_inventory : LedgerId → List JournalLine → Result RebuildError MarketInventory
rebuild_inventory ledger lines = elim (fold_lines ledger no_fold lines) [
  | ok f ↦ ok (folded_inventory ledger f)
  | err e ↦ err e
]
