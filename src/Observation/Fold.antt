-- ===== src/Observation/Fold.antt =====
-- src/observation.rs, lines 666 to 711 and 1035 to 1044: the registry that the journal builds.
use omsrs.Prelude.{ℕ, suc, none, some, List, [], ◌∷◌, true, if◌then◌else◌}
use omsrs.Prelude.Words.{saturating_add}
use omsrs.Execution.Types.{ExecutionTxnRecord, JournalLine, RebuildError, Result, ok, err}
use omsrs.Observation.Types.{
  Member, UserOrderEvidence, WireState, MemberAfter, ObservationTxnRecord, WireLine, WireRegistry,
}
use omsrs.Observation.Registry.{put_wire, ensured, new_registry, is_terminal_state}
use omsrs.Observation.Binding.{terminalize}
use omsrs.Observation.OrderPart.{fold_order_part}
use omsrs.Observation.Holding.{fold_executions}

-- The members whose state after the round is terminal.
unfoldable pub terminalize_after : List Member → List MemberAfter → List Member
terminalize_after ms [] = ms
terminalize_after ms (a ∷ as₁) =
    terminalize_after
      (if is_terminal_state a.state_after then terminalize a.client_order_id ms else ms) as₁

unfoldable pub fold_observation : WireRegistry → ObservationTxnRecord → WireRegistry
fold_observation reg t =
    put_wire reg t.ledger t.wire
      (record (t.wire_after) { members = terminalize_after t.wire_after.members t.members_after })

unfoldable pub fold_execution_txn :
    WireRegistry → ℕ → ExecutionTxnRecord → Result RebuildError WireRegistry
fold_execution_txn reg pos e = elim e.order [
  | none ↦ ok (fold_executions reg e.ledger e.executions)
  | some o ↦ elim (fold_order_part reg pos o) [
    | err error ↦ err error
    | ok next ↦ ok (fold_executions next e.ledger e.executions)
  ]
]

abbrev pub receive : ℕ → UserOrderEvidence → WireState → WireState
receive pos e ws = record ws {
  latest_user_order = some e;
  latest_user_order_revision = saturating_add pos 1;
  observed_exchange_index = some e.exchange_index;
}

abbrev pub place_hold : ℕ → WireState → WireState
place_hold pos ws = record ws {
  authority_hold = true;
  authority_hold_revision = saturating_add pos 1;
}

-- `fold`: one line of the journal, at its position.
unfoldable pub fold_line : WireRegistry → ℕ → WireLine → Result RebuildError WireRegistry
fold_line reg pos (WireLine.line (JournalLine.core _)) = ok reg
fold_line reg pos (WireLine.line (JournalLine.order_txn o)) = fold_order_part reg pos o
fold_line reg pos (WireLine.line (JournalLine.execution_txn e)) = fold_execution_txn reg pos e
fold_line reg pos (WireLine.observation_txn t) = ok (fold_observation reg t)
fold_line reg pos (WireLine.amend_lineage ledger wire lineage) =
    ok (ensured reg ledger wire (λ (ws : WireState). record ws { amend_lineage = lineage }))
fold_line reg pos (WireLine.user_order_received ledger wire e) =
    ok (ensured reg ledger wire (receive pos e))
fold_line reg pos (WireLine.order_authority_hold ledger wire) =
    ok (ensured reg ledger wire (place_hold pos))
fold_line reg pos (WireLine.order_state_txn t) = ok (put_wire reg t.ledger t.wire t.wire_after)
fold_line reg pos (WireLine.rest_order_proof_txn t) = ok (put_wire reg t.ledger t.wire t.wire_after)

unfoldable pub fold_lines_from : WireRegistry → ℕ → List WireLine → Result RebuildError WireRegistry
fold_lines_from reg pos [] = ok reg
fold_lines_from reg pos (l ∷ ls) = elim (fold_line reg pos l) [
  | err error ↦ err error
  | ok next ↦ fold_lines_from next (suc pos) ls
]

unfoldable pub rebuild_registry : List WireLine → Result RebuildError WireRegistry
rebuild_registry lines = fold_lines_from new_registry 0 lines
