-- ===== src/Observation/EveryPart.antt =====
-- src/observation.rs, lines 712 to 871: what the parts of a transaction keep of every wire.
use omsrs.Prelude.{ℕ, ◌≡◌, refl, Option, none, some, List, [], ◌∷◌, arith, Option-cases, inl, inr}
use mathlib.Core.Path.{subst}
use omsrs.Lifecycle.Types.{VenueOrderId, FillId}
use omsrs.Lifecycle.Events.{JournalRecord}
use omsrs.Execution.Types.{LedgerId, InventoryEntry, OrderTxnRecord, ok}
use omsrs.Observation.Types.{WireState, WireKey, WireRegistry}
use omsrs.Observation.Registry.{key, wire_of, put_wire, ensured}
use omsrs.Observation.Binding.{
  terminalize_wire, terminalize_cid, bind_wire, bind_member, bump_wire, bump_generation,
}
use omsrs.Observation.OrderPart.{
  fold_core_record, fold_core_records, terminal_hold_wire, release_hold, end_hold, fold_order_part,
  seen,
}
use omsrs.Observation.Holding.{hold_execution, note_index, hold_entry}
use omsrs.Observation.Every.{IsKept, Every, put_wire-Every, ensured-Every, all_wires-Every}

module _ (P : WireKey → WireState → Type 0) (kept : IsKept P) where
  pub fold_core_record-Every :
      (reg : WireRegistry) (pos : ℕ) (o : OrderTxnRecord) (r : JournalRecord)
      → Every P reg
      → Every P (fold_core_record reg pos o r)
  unfolding fold_core_record bind_member terminalize_cid bump_generation
  fold_core_record-Every reg pos o (JournalRecord.venue_bound_cid cid wire) h =
      ensured-Every P kept reg o.ledger wire (bind_wire pos cid)
        (kept.bound (key o.ledger wire) pos cid) h
  fold_core_record-Every reg pos o (JournalRecord.order_terminal _ _ _ _ _ _ _) h =
      all_wires-Every P kept reg o.ledger (terminalize_wire o.client_order_id)
        (λ k. kept.ended k o.client_order_id) h
  fold_core_record-Every reg pos o (JournalRecord.halted _) h =
      all_wires-Every P kept reg o.ledger (terminalize_wire o.client_order_id)
        (λ k. kept.ended k o.client_order_id) h
  fold_core_record-Every reg pos o (JournalRecord.own_action_cid cid _) h =
      all_wires-Every P kept reg o.ledger (bump_wire cid) (λ k. kept.bumped k cid) h
  fold_core_record-Every reg pos o _ h = h

  pub fold_core_records-Every :
      (reg : WireRegistry) (pos : ℕ) (o : OrderTxnRecord) (rs : List JournalRecord)
      → Every P reg
      → Every P (fold_core_records reg pos o rs)
  unfolding fold_core_records
  fold_core_records-Every reg pos o [] h = h
  fold_core_records-Every reg pos o (r ∷ rs) h =
      fold_core_records-Every (fold_core_record reg pos o r) pos o rs
        (fold_core_record-Every reg pos o r h)

  released-Every :
      (reg : WireRegistry) (o : OrderTxnRecord) (wire : VenueOrderId) (found : Option WireState)
      → wire_of reg o.ledger wire ≡ found
      → Every P reg
      → Every P (elim found [
        | none ↦ reg
        | some ws ↦ put_wire reg o.ledger wire (release_hold o.client_order_id ws)
      ])
  released-Every reg o wire none e h = h
  released-Every reg o wire (some ws) e h =
      put_wire-Every P reg o.ledger wire (release_hold o.client_order_id ws) h
        (kept.released (key o.ledger wire) o.client_order_id ws (h o.ledger wire ws e))

  pub end_hold-Every :
      (reg : WireRegistry) (o : OrderTxnRecord) (wire : Option VenueOrderId)
      → Every P reg
      → Every P (end_hold reg o wire)
  unfolding end_hold
  end_hold-Every reg o none h = h
  end_hold-Every reg o (some wire) h = released-Every reg o wire (wire_of reg o.ledger wire) refl h

  pub noted-Every :
      (reg : WireRegistry) (o : OrderTxnRecord)
      → Every P reg
      → Every P (record reg { seen_order = o ∷ reg.seen_order })
  unfolding wire_of
  noted-Every reg o h = h

  pub fold_order_part-Every :
      (reg : WireRegistry) (pos : ℕ) (o : OrderTxnRecord) (next : WireRegistry)
      → fold_order_part reg pos o ≡ ok next
      → Every P reg
      → Every P next
  unfolding fold_order_part
  fold_order_part-Every reg pos o next e h = elim (Option-cases (seen o reg.seen_order)) [
    | inr (p, s) ↦
        let same_reg : reg ≡ next = ground (arith, e, s) in
        subst (λ (r : WireRegistry). Every P r) same_reg h
    | inl s ↦
        let noted = record reg { seen_order = o ∷ reg.seen_order } in
        let folded : end_hold (fold_core_records noted pos o o.core_records) o
              (terminal_hold_wire noted o)
            ≡ next =
          ground (arith, e, s) in
        subst (λ (r : WireRegistry). Every P r) folded
          (end_hold-Every (fold_core_records noted pos o o.core_records) o
            (terminal_hold_wire noted o)
            (fold_core_records-Every noted pos o o.core_records (noted-Every reg o h)))
  ]

  pub note_index-Every :
      (reg : WireRegistry) (wire : Option VenueOrderId) (id : FillId)
      → Every P reg
      → Every P (note_index reg wire id)
  unfolding note_index wire_of
  note_index-Every reg none id h = h
  note_index-Every reg (some wire) id h = h

  hold_wire-Every :
      (reg : WireRegistry) (ledger : LedgerId) (id : FillId) (entry : InventoryEntry)
      (wire : Option VenueOrderId)
      → Every P reg
      → Every P (elim wire [ none ↦ reg | some w ↦ ensured reg ledger w (hold_execution id entry) ])
  hold_wire-Every reg ledger id entry none h = h
  hold_wire-Every reg ledger id entry (some w) h =
      ensured-Every P kept reg ledger w (hold_execution id entry)
        (kept.holding (key ledger w) id entry) h

  pub hold_entry-Every :
      (reg : WireRegistry) (ledger : LedgerId) (id : FillId) (entry : Option InventoryEntry)
      → Every P reg
      → Every P (hold_entry reg ledger id entry)
  unfolding hold_entry
  hold_entry-Every reg ledger id none h = h
  hold_entry-Every reg ledger id (some entry) h =
      hold_wire-Every reg ledger id entry entry.venue_order_id h
