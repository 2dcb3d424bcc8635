-- ===== src/Observation/OrderPart.antt =====
-- src/observation.rs, lines 713 to 778: an order's transaction on the registry.
use omsrs.Prelude.{
  ℕ, ◌==◌, Option, none, some, List, [], ◌∷◌, Bool, true, false, not, ◌&&◌, ◌||◌, ltb, any, is_none,
  same_text, same_option, if◌then◌else◌,
}
use omsrs.Prelude.Int.{ℤ, eqb_ℤ}
use omsrs.Equality.{same}
use omsrs.Lifecycle.Types.{ClientOrderId, VenueOrderId, OrderState}
use omsrs.Lifecycle.Events.{JournalRecord}
use omsrs.Execution.Types.{
  OrderTxnRecord, RebuildError, Result, ok, err, LedgerId-discrete, OrderTxnRecord-discrete,
}
use omsrs.Observation.Types.{Member, UserOrderStatus, UserOrderEvidence, WireState, WireRegistry}
use omsrs.Observation.Registry.{current_is, is_current, is_terminal_member, wire_of, put_wire}
use omsrs.Observation.Binding.{bind_member, terminalize_cid, bump_generation}

unfoldable pub fold_core_record : WireRegistry → ℕ → OrderTxnRecord → JournalRecord → WireRegistry
fold_core_record reg pos o (JournalRecord.venue_bound_cid cid wire) =
    bind_member reg pos o.ledger wire cid
fold_core_record reg pos o (JournalRecord.order_terminal _ _ _ _ _ _ _) =
    terminalize_cid reg o.ledger o.client_order_id
fold_core_record reg pos o (JournalRecord.halted _) = terminalize_cid reg o.ledger o.client_order_id
fold_core_record reg pos o (JournalRecord.own_action_cid cid _) = bump_generation reg o.ledger cid
fold_core_record reg pos o _ = reg

unfoldable pub fold_core_records :
    WireRegistry → ℕ → OrderTxnRecord → List JournalRecord → WireRegistry
fold_core_records reg pos o [] = reg
fold_core_records reg pos o (r ∷ rs) = fold_core_records (fold_core_record reg pos o r) pos o rs

abbrev pub same_order_key : OrderTxnRecord → OrderTxnRecord → Bool
same_order_key a b =
    same LedgerId-discrete a.ledger b.ledger
    && same_text a.client_order_id b.client_order_id
    && a.seq == b.seq

unfoldable pub seen : OrderTxnRecord → List OrderTxnRecord → Option OrderTxnRecord
seen o [] = none
seen o (p ∷ ps) = let rest = seen o ps in if same_order_key p o then some p else rest

abbrev closes : OrderState → Bool
closes OrderState.canceled = true
closes OrderState.filled = true
closes OrderState.terminal = true
closes _ = false

abbrev is_filled : OrderState → Bool
is_filled OrderState.filled = true
is_filled _ = false

abbrev is_over : UserOrderStatus → Bool
is_over UserOrderStatus.canceled = true
is_over UserOrderStatus.executed = true
is_over _ = false

abbrev is_executed : UserOrderStatus → Bool
is_executed UserOrderStatus.executed = true
is_executed _ = false

-- The transaction claims the end of the order.
unfoldable pub claims_end : OrderTxnRecord → Bool
claims_end o =
    (same_text o.event "UserOrderTerminalClaim"
      || same_text o.event "Fill" && is_filled o.state_after)
    && closes o.state_after

-- The frame of the proved child tells the same end.
unfoldable pub frame_ends : OrderTxnRecord → VenueOrderId → Option ℤ → UserOrderEvidence → Bool
frame_ends o wire index e =
    same_text e.wire wire
    && same_text e.market o.ledger.market
    && same_text e.client_order_id o.client_order_id
    && same_option eqb_ℤ index (some e.exchange_index)
    && is_over e.status
    && (not (same_text o.event "Fill") || is_executed e.status)
    && e.filled == o.ctx_after.attributed_fill_qty

unfoldable pub hold_ends : OrderTxnRecord → VenueOrderId → WireState → Bool
hold_ends o wire ws =
    ws.authority_hold
    && ltb 0 ws.generation
    && is_none ws.amend_lineage
    && ltb ws.authority_hold_revision ws.latest_user_order_revision
    && current_is ws o.client_order_id
    && same_option same_text ws.proved_current_cid (some o.client_order_id)
    && elim ws.latest_user_order [
      | none ↦ false
      | some e ↦ frame_ends o wire ws.observed_exchange_index e
    ]

abbrev pub when : Bool → VenueOrderId → Option VenueOrderId
when b wire = if b then some wire else none

-- The wire whose hold the transaction may end.
unfoldable pub terminal_hold_wire : WireRegistry → OrderTxnRecord → Option VenueOrderId
terminal_hold_wire reg o =
    if claims_end o
    then elim o.ctx_after.venue_order_id [
      | none ↦ none
      | some wire ↦ elim (wire_of reg o.ledger wire) [
        | none ↦ none
        | some ws ↦ when (hold_ends o wire ws) wire
      ]
    ]
    else none

unfoldable pub release_hold : ClientOrderId → WireState → WireState
release_hold cid ws =
    if any (λ (m : Member). same_text m.cid cid && is_terminal_member m) ws.members
      && not (any is_current ws.members)
    then record ws { authority_hold = false }
    else ws

unfoldable pub end_hold : WireRegistry → OrderTxnRecord → Option VenueOrderId → WireRegistry
end_hold reg o none = reg
end_hold reg o (some wire) = elim (wire_of reg o.ledger wire) [
  | none ↦ reg
  | some ws ↦ put_wire reg o.ledger wire (release_hold o.client_order_id ws)
]

unfoldable pub fold_order_part :
    WireRegistry → ℕ → OrderTxnRecord → Result RebuildError WireRegistry
fold_order_part reg pos o = elim (seen o reg.seen_order) [
  | some prev ↦
      if same OrderTxnRecord-discrete prev o
      then ok reg
      else err (RebuildError.divergent o.client_order_id o.seq)
  | none ↦
      let noted = record reg { seen_order = o ∷ reg.seen_order } in
      ok (end_hold (fold_core_records noted pos o o.core_records) o (terminal_hold_wire noted o))
]
