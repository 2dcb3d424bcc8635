-- ===== src/Observation/EveryLine.antt =====
-- src/observation.rs, lines 658 to 710, 837 to 871 and 1034 to 1043: what the lines of a journal keep
-- of every wire.
use mathlib.Core.Path.{subst}
use omsrs.Prelude.{
  ℕ, suc, ◌≡◌, Option, none, some, List, [], ◌∷◌, Bool, true, false, arith, or_option, inl, inr,
  if◌then◌else◌,
}
use omsrs.OrdMap.{lookup}
use omsrs.Lifecycle.Types.{ClientOrderId}
use omsrs.Execution.Types.{
  LedgerId, ExecutionOutcome, OrderTxnRecord, ExecutionTxnRecord, JournalLine, RebuildError, Result,
  Result-cases, ok, err,
}
use omsrs.Observation.Types.{WireState, MemberAfter, WireLine, WireKey, WireRegistry}
use omsrs.Observation.Registry.{key, wire_of, new_registry, is_terminal_state}
use omsrs.Observation.Binding.{terminalize}
use omsrs.Observation.OrderPart.{fold_order_part}
use omsrs.Observation.Holding.{
  is_entry_kept, entry_wire, note_index, hold_entry, fold_execution, fold_executions,
}
use omsrs.Observation.Fold.{
  terminalize_after, fold_observation, fold_execution_txn, receive, place_hold, fold_line,
  fold_lines_from, rebuild_registry,
}
use omsrs.Observation.Every.{IsKept, Every, Brings, AllBring, put_wire-Every, ensured-Every}
use omsrs.Observation.EveryPart.{fold_order_part-Every, note_index-Every, hold_entry-Every}

module _ (P : WireKey → WireState → Type 0) (kept : IsKept P) where
  -- Where a fold succeeds, its result is the next registry.
  landed :
      (folded next : WireRegistry)
      → ◌≡◌ {A = Result RebuildError WireRegistry} (ok folded) (ok next)
      → Every P folded
      → Every P next
  landed folded next p h = subst (λ (x : WireRegistry). Every P x) (ground (arith, p)) h

  kept_entry-Every :
      (reg : WireRegistry) (ledger : LedgerId) (o : ExecutionOutcome) (b : Bool)
      → Every P reg
      → Every P (if b then hold_entry reg ledger o.evidence.execution_id o.entry_after else reg)
  kept_entry-Every reg ledger o true h =
      hold_entry-Every P kept reg ledger o.evidence.execution_id o.entry_after h
  kept_entry-Every reg ledger o false h = h

  pub fold_executions-Every :
      (reg : WireRegistry) (ledger : LedgerId) (os : List ExecutionOutcome)
      → Every P reg
      → Every P (fold_executions reg ledger os)
  unfolding fold_executions fold_execution
  fold_executions-Every reg ledger [] h = h
  fold_executions-Every reg ledger (o ∷ os) h =
      let wire = or_option (entry_wire o.entry_after) o.evidence.venue_order_id in
      let noted = note_index reg wire o.evidence.execution_id in
      fold_executions-Every (fold_execution reg ledger o) ledger os (
        kept_entry-Every noted ledger o (is_entry_kept o.inventory)
          (note_index-Every P kept reg wire o.evidence.execution_id h))

  after_order-Every :
      (reg next : WireRegistry) (pos : ℕ) (e : ExecutionTxnRecord) (order : Option OrderTxnRecord)
      → elim order [
        | none ↦ ok (fold_executions reg e.ledger e.executions)
        | some o ↦ elim (fold_order_part reg pos o) [
          | err error ↦ err error
          | ok r ↦ ok (fold_executions r e.ledger e.executions)
        ]
      ]
        ≡ ok next
      → Every P reg
      → Every P next
  after_order-Every reg next pos e none p h =
      let folded : fold_executions reg e.ledger e.executions ≡ next = ground (arith, p) in
      subst (λ (r : WireRegistry). Every P r) folded
        (fold_executions-Every reg e.ledger e.executions h)
  after_order-Every reg next pos e (some o) p h = elim (Result-cases (fold_order_part reg pos o)) [
    | inr (x, q) ↦ ground (arith, p, q)
    | inl (r, q) ↦
        let folded : fold_executions r e.ledger e.executions ≡ next = ground (arith, p, q) in
        subst (λ (x : WireRegistry). Every P x) folded
          (fold_executions-Every r e.ledger e.executions
            (fold_order_part-Every P kept reg pos o r q h))
  ]

  terminalize_if-P :
      (k : WireKey) (ws : WireState) (cid : ClientOrderId) (b : Bool)
      → P k ws
      → P k (record ws { members = if b then terminalize cid ws.members else ws.members })
  terminalize_if-P k ws cid true h = kept.ended k cid ws h
  terminalize_if-P k ws cid false h = h

  terminalize_after-P :
      (k : WireKey) (ws : WireState) (after : List MemberAfter)
      → P k ws
      → P k (record ws { members = terminalize_after ws.members after })
  unfolding terminalize_after
  terminalize_after-P k ws [] h = h
  terminalize_after-P k ws (a ∷ rest) h =
      let b = is_terminal_state a.state_after in
      terminalize_after-P k
        (record ws { members = if b then terminalize a.client_order_id ws.members else ws.members })
        rest (terminalize_if-P k ws a.client_order_id b h)

  pub fold_line-Every :
      (reg next : WireRegistry) (pos : ℕ) (l : WireLine)
      → fold_line reg pos l ≡ ok next
      → Brings P l
      → Every P reg
      → Every P next
  unfolding fold_line fold_execution_txn fold_observation
  fold_line-Every reg next pos (WireLine.line (JournalLine.core r)) p b h = landed reg next p h
  fold_line-Every reg next pos (WireLine.line (JournalLine.order_txn o)) p b h =
      fold_order_part-Every P kept reg pos o next p h
  fold_line-Every reg next pos (WireLine.line (JournalLine.execution_txn e)) p b h =
      after_order-Every reg next pos e e.order p h
  fold_line-Every reg next pos (WireLine.observation_txn t) p b h =
      landed (fold_observation reg t) next p (
        put_wire-Every P reg t.ledger t.wire
          (record (t.wire_after) {
            members = terminalize_after t.wire_after.members t.members_after;
          })
          h (terminalize_after-P (key t.ledger t.wire) t.wire_after t.members_after b))
  fold_line-Every reg next pos (WireLine.amend_lineage ledger wire lineage) p b h =
      landed _ next p (
        ensured-Every P kept reg ledger wire
          (λ (ws : WireState). record ws { amend_lineage = lineage })
          (kept.amended (key ledger wire) lineage) h)
  fold_line-Every reg next pos (WireLine.user_order_received ledger wire e) p b h =
      landed _ next p (
        ensured-Every P kept reg ledger wire (receive pos e) (kept.received (key ledger wire) pos e)
          h)
  fold_line-Every reg next pos (WireLine.order_authority_hold ledger wire) p b h =
      landed _ next p
        (ensured-Every P kept reg ledger wire (place_hold pos) (kept.held (key ledger wire) pos) h)
  fold_line-Every reg next pos (WireLine.order_state_txn t) p b h =
      landed _ next p (put_wire-Every P reg t.ledger t.wire t.wire_after h b)
  fold_line-Every reg next pos (WireLine.rest_order_proof_txn t) p b h =
      landed _ next p (put_wire-Every P reg t.ledger t.wire t.wire_after h b)

  pub fold_lines_from-Every :
      (reg next : WireRegistry) (pos : ℕ) (ls : List WireLine)
      → fold_lines_from reg pos ls ≡ ok next
      → AllBring P ls
      → Every P reg
      → Every P next
  unfolding fold_lines_from
  fold_lines_from-Every reg next pos [] p b h = landed reg next p h
  fold_lines_from-Every reg next pos (l ∷ ls) p (b, bs) h =
      elim (Result-cases (fold_line reg pos l)) [
        | inr (x, q) ↦ ground (arith, p, q)
        | inl (r, q) ↦
            fold_lines_from-Every r next (suc pos) ls (ground (arith, p, q)) bs
              (fold_line-Every reg r pos l q b h)
      ]

  pub rebuild_registry-Every :
      (ls : List WireLine) (reg : WireRegistry)
      → rebuild_registry ls ≡ ok reg
      → AllBring P ls
      → Every P reg
  unfolding rebuild_registry wire_of lookup
  rebuild_registry-Every ls reg p b =
      fold_lines_from-Every new_registry reg 0 ls p b (λ ledger wire ws e. ground (arith, e))
