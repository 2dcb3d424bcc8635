-- ===== src/Execution/Restore.antt =====
-- src/execution.rs, lines 704 to 767: an order rebuilt from the snapshots that its transactions
-- journaled, and the ids of the fills that stand in the journal outside a transaction.
use omsrs.Prelude.{ℕ, ◌+◌, ◌==◌, Option, none, some, List, [], ◌∷◌, ◌&&◌, same_text, if◌then◌else◌}
use omsrs.Equality.{same}
use omsrs.BTreeMap.{BTreeMap}
use omsrs.BTreeMap
use omsrs.SeqMap.{SeqMap, lookup, insert}
use omsrs.Lifecycle.Types.{ClientOrderId}
use omsrs.Lifecycle.Events.{JournalRecord}
use omsrs.Execution.Types.{
  LedgerId, OrderRow, OrderTxnRecord, JournalLine, RebuildError, Result, ok, err, LedgerId-discrete,
  OrderTxnRecord-discrete,
}

abbrev pub order_part : JournalLine → Option OrderTxnRecord
order_part (JournalLine.core _) = none
order_part (JournalLine.order_txn o) = some o
order_part (JournalLine.execution_txn e) = e.order

-- The row that a snapshot left.
abbrev pub restored_row : LedgerId → OrderTxnRecord → OrderRow
restored_row ledger o = record {
  ledger = ledger;
  cursor = record { seq = o.seq };
  state = o.state_after;
  ctx = o.ctx_after;
}

module _ (ledger : LedgerId) (client_order_id : ClientOrderId) where
  -- One snapshot: another order's is skipped, an equal one is a repeated line, and a different one
  -- under the same number is an error.
  unfoldable pub collect_snap :
      SeqMap OrderTxnRecord → OrderTxnRecord → Result RebuildError (SeqMap OrderTxnRecord)
  collect_snap snaps o =
      if same LedgerId-discrete o.ledger ledger && same_text o.client_order_id client_order_id
      then elim (lookup o.seq snaps) [
        | some prev ↦
            if same OrderTxnRecord-discrete prev o
            then ok snaps
            else err (RebuildError.divergent client_order_id o.seq)
        | none ↦ ok (insert o.seq o snaps)
      ]
      else ok snaps

  unfoldable pub collect_snaps :
      SeqMap OrderTxnRecord → List JournalLine → Result RebuildError (SeqMap OrderTxnRecord)
  collect_snaps snaps [] = ok snaps
  collect_snaps snaps (line ∷ lines) = elim (order_part line) [
    | none ↦ collect_snaps snaps lines
    | some o ↦ elim (collect_snap snaps o) [
      | ok snaps' ↦ collect_snaps snaps' lines
      | err e ↦ err e
    ]
  ]

  -- The numbers of the snapshots have to run from `expected` on; the last snapshot is returned.
  unfoldable pub last_snap :
      ℕ
      → Option OrderTxnRecord
      → SeqMap OrderTxnRecord
      → Result RebuildError (Option OrderTxnRecord)
  last_snap expected last [] = ok last
  last_snap expected last ((seq, o) ∷ snaps) =
      let rest = last_snap (expected + 1) (some o) snaps in
      if seq == expected then rest else err (RebuildError.seq_gap client_order_id expected seq)

  -- The state, the context and the cursor are those of a row of the ledger.
  unfoldable pub rebuild_order : List JournalLine → Result RebuildError (Option OrderRow)
  rebuild_order lines = elim (collect_snaps [] lines) [
    | err e ↦ err e
    | ok snaps ↦ elim (last_snap 1 none snaps) [
      | err e ↦ err e
      | ok none ↦ ok none
      | ok (some last) ↦ ok (some (restored_row ledger last))
    ]
  ]

unfoldable pub collect_fill_id : BTreeMap (Unit {0}) → JournalLine → BTreeMap (Unit {0})
collect_fill_id out (JournalLine.core (JournalRecord.fill id _ _ _ _ _)) = BTreeMap.insert id tt out
collect_fill_id out (JournalLine.core (JournalRecord.fill_cid _ id _ _ _ _ _)) =
    BTreeMap.insert id tt out
collect_fill_id out _ = out

unfoldable pub legacy_fill_ids_from : BTreeMap (Unit {0}) → List JournalLine → BTreeMap (Unit {0})
legacy_fill_ids_from out [] = out
legacy_fill_ids_from out (line ∷ lines) = legacy_fill_ids_from (collect_fill_id out line) lines

-- A `BTreeSet` is a map to the unit.
unfoldable pub legacy_fill_ids : List JournalLine → BTreeMap (Unit {0})
legacy_fill_ids lines = legacy_fill_ids_from [] lines
