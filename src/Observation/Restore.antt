-- ===== src/Observation/Restore.antt =====
-- src/observation.rs, lines 1047 to 1113: an order rebuilt from the snapshots of its transactions and
-- of the rounds that observed it.
use omsrs.Prelude.{
  ℕ, ◌+◌, ◌==◌, Option, none, some, List, [], ◌∷◌, true, false, ◌&&◌, same_text, if◌then◌else◌,
}
use omsrs.Equality.{same, OrderState-discrete, OrderCtx-discrete}
use omsrs.SeqMap.{SeqMap, lookup, insert}
use omsrs.Lifecycle.Types.{ClientOrderId, OrderState}
use omsrs.Lifecycle.Ctx.{OrderCtx}
use omsrs.Execution.Types.{
  LedgerId, OrderRow, OrderTxnRecord, RebuildError, Result, ok, err, LedgerId-discrete,
}
use omsrs.Execution.Restore.{order_part}
use omsrs.Observation.Types.{MemberAfter, WireLine}

abbrev pub Snap : Type 0
Snap = OrderState × OrderCtx

module _ (ledger : LedgerId) (client_order_id : ClientOrderId) where
  -- A different state or context under the same number is an error.
  unfoldable pub insert_snap :
      SeqMap Snap → ℕ → OrderState → OrderCtx → Result RebuildError (SeqMap Snap)
  insert_snap snaps seq state ctx = elim (lookup seq snaps) [
    | some (ps, pc) ↦
        if same OrderState-discrete ps state && same OrderCtx-discrete pc ctx
        then ok snaps
        else err (RebuildError.divergent client_order_id seq)
    | none ↦ ok (insert seq (state, ctx) snaps)
  ]

  unfoldable pub snap_order : SeqMap Snap → OrderTxnRecord → Result RebuildError (SeqMap Snap)
  snap_order snaps o =
      if same LedgerId-discrete o.ledger ledger && same_text o.client_order_id client_order_id
      then insert_snap snaps o.seq o.state_after o.ctx_after
      else ok snaps

  unfoldable pub snap_members : SeqMap Snap → List MemberAfter → Result RebuildError (SeqMap Snap)
  snap_members snaps [] = ok snaps
  snap_members snaps (m ∷ ms) = elim (same_text m.client_order_id client_order_id) [
    | false ↦ snap_members snaps ms
    | true ↦ elim (insert_snap snaps m.seq m.state_after m.ctx_after) [
      | err e ↦ err e
      | ok next ↦ snap_members next ms
    ]
  ]

  unfoldable pub snap_line : SeqMap Snap → WireLine → Result RebuildError (SeqMap Snap)
  snap_line snaps (WireLine.line l) = elim (order_part l) [
    | none ↦ ok snaps
    | some o ↦ snap_order snaps o
  ]
  snap_line snaps (WireLine.observation_txn t) =
      if same LedgerId-discrete t.ledger ledger
      then snap_members snaps t.members_after
      else ok snaps
  snap_line snaps (WireLine.amend_lineage _ _ _) = ok snaps
  snap_line snaps (WireLine.user_order_received _ _ _) = ok snaps
  snap_line snaps (WireLine.order_authority_hold _ _) = ok snaps
  snap_line snaps (WireLine.order_state_txn _) = ok snaps
  snap_line snaps (WireLine.rest_order_proof_txn _) = ok snaps

  unfoldable pub snap_lines : SeqMap Snap → List WireLine → Result RebuildError (SeqMap Snap)
  snap_lines snaps [] = ok snaps
  snap_lines snaps (l ∷ ls) = elim (snap_line snaps l) [
    | err e ↦ err e
    | ok next ↦ snap_lines next ls
  ]

  -- The numbers have to run from `expected` on; the last snapshot is returned with its number.
  unfoldable pub last_of_snaps :
      ℕ → Option (ℕ × Snap) → SeqMap Snap → Result RebuildError (Option (ℕ × Snap))
  last_of_snaps expected last [] = ok last
  last_of_snaps expected last ((seq, snap) ∷ snaps) =
      let rest = last_of_snaps (expected + 1) (some (expected, snap)) snaps in
      if seq == expected then rest else err (RebuildError.seq_gap client_order_id expected seq)

  unfoldable pub rebuild_order_with_observations :
      List WireLine → Result RebuildError (Option OrderRow)
  rebuild_order_with_observations lines = elim (snap_lines [] lines) [
    | err e ↦ err e
    | ok snaps ↦ elim (last_of_snaps 1 none snaps) [
      | err e ↦ err e
      | ok none ↦ ok none
      | ok (some (seq, (state, ctx))) ↦ ok (
          some
            (record { ledger = ledger; cursor = record { seq = seq }; state = state; ctx = ctx }))
    ]
  ]
