-- ===== src/Observation/OwnAction.antt =====
-- src/observation.rs, lines 763 to 765 and 824 to 835: an own action withdraws what was known of the
-- wire.
use mathlib.Core.Path.{subst}
use mathlib.Core.List.{Memᴰ}
use omsrs.Prelude.{ℕ, suc, ◌≡◌, refl, sym, ◌∙◌, none, some, List, [], ◌∷◌, true, arith}
use omsrs.Equality.{same_refl}
use omsrs.OrdMap.{lookup-map_values}
use omsrs.Lifecycle.Types.{ClientOrderId, VenueOrderId}
use omsrs.Lifecycle.Events.{JournalRecord, OwnActionKind}
use omsrs.Execution.Types.{LedgerId, OrderTxnRecord, JournalLine, ok, LedgerId-discrete}
use omsrs.Observation.Types.{WireState, WireKey, WireLine, WireRegistry, compare_key}
use omsrs.Observation.Answers.{WorkingView}
use omsrs.Observation.Registry.{has_member, key, wire_of}
use omsrs.Observation.Binding.{bump_wire, bump_generation, all_wires, on_ledger}
use omsrs.Observation.OrderPart.{
  fold_core_record, fold_core_records, end_hold, terminal_hold_wire, fold_order_part, seen,
}
use omsrs.Observation.Fold.{fold_line, fold_lines_from}
use omsrs.Observation.Views.{working_view}
use omsrs.Observation.Keys.{compare_key-IsOrder}
use omsrs.Observation.Every.{Every, AllBring}
use omsrs.Observation.EveryPart.{fold_core_records-Every, end_hold-Every}
use omsrs.Observation.EveryLine.{fold_lines_from-Every}
use omsrs.Observation.Unproved.{IsUnproved, IsUnproved-IsKept, unproved-working_view}
use omsrs.Observation.Joined.{HasWire, fold_core_record-HasWire, bump_wire-none}

module _ (cid : ClientOrderId) where
  -- After the own action nothing is known of the wire.
  bump_generation-IsUnproved :
      (reg : WireRegistry) (ledger : LedgerId) (w : VenueOrderId)
      → HasWire cid reg ledger w
      → Every (IsUnproved ledger w) (bump_generation reg ledger cid)
  unfolding bump_generation wire_of
  bump_generation-IsUnproved reg ledger w (ws, e, h) at v x found k =
      let here : wire_of (all_wires reg ledger (bump_wire cid)) ledger w ≡ some (bump_wire cid ws) =
        lookup-map_values compare_key compare_key-IsOrder (on_ledger ledger (bump_wire cid))
          (key ledger w) reg.wires
        ∙ rw (e, same_refl LedgerId-discrete ledger) refl in
      let there : wire_of (all_wires reg ledger (bump_wire cid)) ledger w ≡ some x =
        subst
          (λ (q : WireKey). wire_of (all_wires reg ledger (bump_wire cid)) q.ledger q.wire ≡ some x)
          k found in
      let same_wire : bump_wire cid ws ≡ x = ground (arith, sym here ∙ there) in
      subst (λ (y : WireState). y.remaining_observation ≡ none) same_wire (bump_wire-none cid ws h)

  -- The records of a transaction with an own action on the member.
  fold_core_records-IsUnproved :
      (reg : WireRegistry) (pos : ℕ) (o : OrderTxnRecord) (rs : List JournalRecord)
      (w : VenueOrderId) (kind : OwnActionKind)
      → Memᴰ (JournalRecord.own_action_cid cid kind) rs
      → HasWire cid reg o.ledger w
      → Every (IsUnproved o.ledger w) (fold_core_records reg pos o rs)
  unfolding fold_core_records fold_core_record
  fold_core_records-IsUnproved reg pos o [] w kind m has = elim m [ ]
  fold_core_records-IsUnproved reg pos o (r ∷ rs) w kind (Memᴰ.head e) has =
      fold_core_records-Every (IsUnproved o.ledger w) (IsUnproved-IsKept o.ledger w)
        (fold_core_record reg pos o r) pos o rs
        (subst (λ (x : JournalRecord). Every (IsUnproved o.ledger w) (fold_core_record reg pos o x))
          e (bump_generation-IsUnproved reg o.ledger w has))
  fold_core_records-IsUnproved reg pos o (r ∷ rs) w kind (Memᴰ.tail m) has =
      fold_core_records-IsUnproved (fold_core_record reg pos o r) pos o rs w kind m
        (fold_core_record-HasWire cid reg pos o r o.ledger w has)

  noted-HasWire :
      (reg : WireRegistry) (o : OrderTxnRecord) (at : LedgerId) (w : VenueOrderId)
      → HasWire cid reg at w
      → HasWire cid (record reg { seen_order = o ∷ reg.seen_order }) at w
  unfolding wire_of
  noted-HasWire reg o at w h = h

  fold_order_part-IsUnproved :
      (reg next : WireRegistry) (pos : ℕ) (o : OrderTxnRecord) (w : VenueOrderId)
      (kind : OwnActionKind)
      → Memᴰ (JournalRecord.own_action_cid cid kind) o.core_records
      → seen o reg.seen_order ≡ none
      → HasWire cid reg o.ledger w
      → fold_order_part reg pos o ≡ ok next
      → Every (IsUnproved o.ledger w) next
  unfolding fold_order_part
  fold_order_part-IsUnproved reg next pos o w kind m fresh has h =
      let noted = record reg { seen_order = o ∷ reg.seen_order } in
      let folded : end_hold (fold_core_records noted pos o o.core_records) o
            (terminal_hold_wire noted o)
          ≡ next =
        ground (arith, h, fresh) in
      subst (λ (r : WireRegistry). Every (IsUnproved o.ledger w) r) folded
        (end_hold-Every (IsUnproved o.ledger w) (IsUnproved-IsKept o.ledger w)
          (fold_core_records noted pos o o.core_records) o (terminal_hold_wire noted o)
          (fold_core_records-IsUnproved noted pos o o.core_records w kind m
            (noted-HasWire reg o o.ledger w has)))

-- Take an order transaction that is new to the registry and holds an own action on an order that
-- is a member of a wire of its ledger. After it is folded, and after any further lines among which
-- no observation or proof of the wire brings a remaining quantity, the working view of the wire is
-- unresolved.
pub own_action-unresolved :
    (reg next final : WireRegistry) (pos : ℕ) (o : OrderTxnRecord) (wire : VenueOrderId)
    (ws : WireState) (cid : ClientOrderId) (kind : OwnActionKind) (lines : List WireLine)
    → Memᴰ (JournalRecord.own_action_cid cid kind) o.core_records
    → seen o reg.seen_order ≡ none
    → wire_of reg o.ledger wire ≡ some ws
    → has_member cid ws.members ≡ true
    → fold_line reg pos (WireLine.line (JournalLine.order_txn o)) ≡ ok next
    → fold_lines_from next (suc pos) lines ≡ ok final
    → AllBring (IsUnproved o.ledger wire) lines
    → working_view final o.ledger wire ≡ WorkingView.unresolved
unfolding fold_line
own_action-unresolved reg next final pos o wire ws cid kind lines m fresh found has h rest b =
    unproved-working_view final o.ledger wire (
      fold_lines_from-Every (IsUnproved o.ledger wire) (IsUnproved-IsKept o.ledger wire) next final
        (suc pos) lines rest b
        (fold_order_part-IsUnproved cid reg next pos o wire kind m fresh (ws, found, has) h))
