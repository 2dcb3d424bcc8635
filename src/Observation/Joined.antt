-- ===== src/Observation/Joined.antt =====
-- src/observation.rs, lines 752 to 835: a member stays a member of its wire.
use mathlib.Core.Path.{subst}
use Prim.Native.Nat.{Ordering}
use omsrs.Prelude.{
  ℕ, ◌≡◌, refl, ◌∙◌, none, some, List, [], ◌∷◌, ◌++◌, true, arith, unwrap_or, Bool-cases, inl, inr,
}
use omsrs.Equality.{same}
use omsrs.OrdMap.{lookup-map_values}
use omsrs.Lifecycle.Types.{ClientOrderId, VenueOrderId}
use omsrs.Lifecycle.Events.{JournalRecord}
use omsrs.Execution.Types.{LedgerId, OrderTxnRecord, LedgerId-discrete}
use omsrs.Observation.Types.{Member, WireState, WireKey, WireRegistry, compare_key}
use omsrs.Observation.Registry.{venue_only_wire, has_member, key, wire_of, put_wire, ensured}
use omsrs.Observation.Binding.{
  terminalize, terminalize_wire, terminalize_cid, supersede_all, bound_member, bind_wire,
  bind_member, bump_wire, bump_generation, all_wires, on_ledger,
}
use omsrs.Observation.OrderPart.{fold_core_record}
use omsrs.Observation.Keys.{compare_key-IsOrder, eq_of_compare_key, wire_of-put_wire_at}

module _ (cid : ClientOrderId) where
  has_member-append :
      (ms ns : List Member) → has_member cid ms ≡ true → has_member cid (ms ++ ns) ≡ true
  has_member-append [] ns h = ground (arith, h)
  has_member-append (m ∷ ms) ns h = ground (arith, h, has_member-append ms ns)

  pub has_member-supersede :
      (ms : List Member) → has_member cid (supersede_all ms) ≡ has_member cid ms
  unfolding supersede_all
  has_member-supersede [] = refl
  has_member-supersede (m ∷ ms) = ground (arith, has_member-supersede ms)

  has_member-terminalize :
      (c : ClientOrderId) (ms : List Member) → has_member cid (terminalize c ms) ≡ has_member cid ms
  unfolding terminalize
  has_member-terminalize c [] = refl
  has_member-terminalize c (m ∷ ms) = ground (arith, has_member-terminalize c ms)

  has_member-bind :
      (pos : ℕ) (c : ClientOrderId) (ws : WireState)
      → has_member cid ws.members ≡ true
      → has_member cid (bind_wire pos c ws).members ≡ true
  unfolding bind_wire
  has_member-bind pos c ws h = ground (
    arith,
    h,
    has_member-supersede ws.members,
    has_member-append (supersede_all ws.members) (bound_member pos c),
  )

  has_member-bump :
      (c : ClientOrderId) (ws : WireState)
      → has_member cid ws.members ≡ true
      → has_member cid (bump_wire c ws).members ≡ true
  unfolding bump_wire
  has_member-bump c ws h = ground (arith, h)

  pub bump_wire-none :
      (ws : WireState)
      → has_member cid ws.members ≡ true
      → (bump_wire cid ws).remaining_observation ≡ none
  unfolding bump_wire
  bump_wire-none ws h = ground (arith, h)

  -- The wire is there and has the member.
  abbrev pub HasWire : WireRegistry → LedgerId → VenueOrderId → Type 0
  HasWire reg ledger wire =
      (ws : WireState) × (wire_of reg ledger wire ≡ some ws) × (has_member cid ws.members ≡ true)

  put_wire-HasWire :
      (reg : WireRegistry) (ledger at : LedgerId) (wire w : VenueOrderId) (next : WireState)
      (o : Ordering)
      → compare_key (key at w) (key ledger wire) ≡ o
      → HasWire reg at w
      → (key at w ≡ key ledger wire → has_member cid next.members ≡ true)
      → HasWire (put_wire reg ledger wire next) at w
  put_wire-HasWire reg ledger at wire w next Ordering.eq o has c = (
    next,
    wire_of-put_wire_at reg ledger at wire w next ∙ rw o refl,
    c (eq_of_compare_key (key at w) (key ledger wire) o),
  )
  put_wire-HasWire reg ledger at wire w next Ordering.lt o (ws, e, h) c =
      (ws, wire_of-put_wire_at reg ledger at wire w next ∙ rw o e, h)
  put_wire-HasWire reg ledger at wire w next Ordering.gt o (ws, e, h) c =
      (ws, wire_of-put_wire_at reg ledger at wire w next ∙ rw o e, h)

  -- The wire that a change finds under its own key.
  found_member :
      (reg : WireRegistry) (ledger at : LedgerId) (wire w : VenueOrderId)
      → HasWire reg at w
      → key at w ≡ key ledger wire
      → has_member cid (unwrap_or (wire_of reg ledger wire) venue_only_wire).members ≡ true
  unfolding wire_of
  found_member reg ledger at wire w (ws, e, h) k =
      let same_wire : wire_of reg ledger wire ≡ some ws =
        subst (λ (q : WireKey). wire_of reg q.ledger q.wire ≡ some ws) k e in
      rw same_wire h

  bind_member-HasWire :
      (reg : WireRegistry) (pos : ℕ) (ledger at : LedgerId) (wire w : VenueOrderId)
      (c : ClientOrderId)
      → HasWire reg at w
      → HasWire (bind_member reg pos ledger wire c) at w
  unfolding bind_member ensured
  bind_member-HasWire reg pos ledger at wire w c has =
      let found = unwrap_or (wire_of reg ledger wire) venue_only_wire in
      put_wire-HasWire reg ledger at wire w (bind_wire pos c found)
        (compare_key (key at w) (key ledger wire)) refl has
        (λ k. has_member-bind pos c found (found_member reg ledger at wire w has k))

  all_wires-HasWire :
      (reg : WireRegistry) (ledger at : LedgerId) (w : VenueOrderId)
      (change : WireState → WireState)
      → ((ws : WireState)
          → has_member cid ws.members ≡ true
          → has_member cid (change ws).members ≡ true)
      → HasWire reg at w
      → HasWire (all_wires reg ledger change) at w
  unfolding wire_of
  all_wires-HasWire reg ledger at w change c (ws, e, h) =
      let found : wire_of (all_wires reg ledger change) at w
          ≡ some (on_ledger ledger change (key at w) ws) =
        lookup-map_values compare_key compare_key-IsOrder (on_ledger ledger change) (key at w)
          reg.wires
        ∙ rw e refl in
      elim (Bool-cases (same LedgerId-discrete at ledger)) [
        | inl s ↦ (on_ledger ledger change (key at w) ws, found, rw s (c ws h))
        | inr s ↦ (on_ledger ledger change (key at w) ws, found, rw s h)
      ]

  pub fold_core_record-HasWire :
      (reg : WireRegistry) (pos : ℕ) (o : OrderTxnRecord) (r : JournalRecord) (at : LedgerId)
      (w : VenueOrderId)
      → HasWire reg at w
      → HasWire (fold_core_record reg pos o r) at w
  unfolding fold_core_record terminalize_cid bump_generation
  fold_core_record-HasWire reg pos o (JournalRecord.venue_bound_cid c wire) at w h =
      bind_member-HasWire reg pos o.ledger at wire w c h
  fold_core_record-HasWire reg pos o (JournalRecord.order_terminal _ _ _ _ _ _ _) at w h =
      all_wires-HasWire reg o.ledger at w (terminalize_wire o.client_order_id)
        (λ ws m. has_member-terminalize o.client_order_id ws.members ∙ m) h
  fold_core_record-HasWire reg pos o (JournalRecord.halted _) at w h =
      all_wires-HasWire reg o.ledger at w (terminalize_wire o.client_order_id)
        (λ ws m. has_member-terminalize o.client_order_id ws.members ∙ m) h
  fold_core_record-HasWire reg pos o (JournalRecord.own_action_cid c _) at w h =
      all_wires-HasWire reg o.ledger at w (bump_wire c) (has_member-bump c) h
  fold_core_record-HasWire reg pos o _ at w h = h
