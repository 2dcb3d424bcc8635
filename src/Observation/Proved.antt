-- ===== src/Observation/Proved.antt =====
-- src/observation.rs, lines 548 to 562 and 910 to 932: the view of a wire whose current order is proved.
use omsrs.Prelude.{
  ℕ, ◌+◌, ◌<◌, ◌≡◌, refl, none, some, [], ◌∷◌, true, false, arith, Option-cases, inl, inr, eq_iff,
}
use omsrs.Equality.{same_refl}
use omsrs.Prelude.Words.{u64_limit, saturating_add}
use omsrs.BTreeMap.{BTreeMap, lookup}
use omsrs.Lifecycle.Types.{ClientOrderId, VenueOrderId}
use omsrs.Execution.Types.{LedgerId, MarketInventory}
use omsrs.Execution.Inventory.{get}
use omsrs.Observation.Types.{WireState, WireRegistry, IdSet-discrete}
use omsrs.Observation.Answers.{WorkingView}
use omsrs.Observation.Registry.{current_is, current_of, put_wire}
use omsrs.Observation.Proofs.{qty_of, checked_sum, check_filled, proved_wire}
use omsrs.Observation.Views.{
  held_sum, sigma_of, observation_stands, observed_view, wire_view, working_view,
}
use omsrs.Observation.Keys.{wire_of-put_wire}

-- The sum of the quantities that the inventory has under the held ids.
unfoldable pub held_qty : MarketInventory → BTreeMap (Unit {0}) → ℕ
held_qty inventory [] = 0
held_qty inventory ((id, u) ∷ held) = elim (lookup id inventory.entries) [
  | none ↦ held_qty inventory held
  | some entry ↦ entry.qty + held_qty inventory held
]

checked_sum-held_qty :
    (inventory : MarketInventory) (held : BTreeMap (Unit {0})) (total sum : ℕ)
    → checked_sum inventory total held ≡ some sum
    → sum ≡ total + held_qty inventory held
unfolding checked_sum held_qty get
checked_sum-held_qty inventory [] total sum h = ground (arith, h)
checked_sum-held_qty inventory ((id, u) ∷ held) total sum h =
    ground (arith, h, checked_sum-held_qty inventory held (total + qty_of inventory id) sum)

held_sum-held_qty :
    (inventory : MarketInventory) (total : ℕ) (held : BTreeMap (Unit {0}))
    → total < u64_limit
    → held_sum inventory total held ≡ saturating_add total (held_qty inventory held)
unfolding held_sum held_qty get
held_sum-held_qty inventory total [] h = ground arith
held_sum-held_qty inventory total ((id, u) ∷ held) h =
    ground (arith, held_sum-held_qty inventory (saturating_add total (qty_of inventory id)) held)

-- The sum that a round compares with the row.
pub sigma_of-held_qty :
    (inventory : MarketInventory) (ws : WireState)
    → sigma_of inventory ws ≡ saturating_add 0 (held_qty inventory ws.held)
sigma_of-held_qty inventory ws = held_sum-held_qty inventory 0 ws.held (omega arith)

pub check_filled-held_qty :
    (ws : WireState) (inventory : MarketInventory) (filled : ℕ)
    → check_filled ws inventory filled ≡ none
    → filled ≡ held_qty inventory ws.held
unfolding check_filled
check_filled-held_qty ws inventory filled h =
    elim (Option-cases (checked_sum inventory 0 ws.held)) [
      | inl over ↦ ground (arith, over, h)
      | inr (sum, e) ↦ ground (arith, e, h, checked_sum-held_qty inventory ws.held 0 sum e)
    ]

pub proved_wire-Known :
    (ws : WireState) (cid : ClientOrderId) (remaining : ℕ)
    → current_is ws cid ≡ true
    → observed_view (proved_wire ws cid remaining) ≡ WorkingView.known remaining
unfolding observed_view proved_wire observation_stands current_is
proved_wire-Known ws cid remaining h = elim (Option-cases (current_of ws.members)) [
  | inl missing ↦ ground (arith, missing, h)
  | inr (m, e) ↦
      ground (arith, e, h, same_refl IdSet-discrete ws.held, eq_iff m.cid cid, eq_iff cid m.cid)
]

pub view-put_wire :
    (reg : WireRegistry) (ledger : LedgerId) (wire : VenueOrderId) (ws : WireState)
    → working_view (put_wire reg ledger wire ws) ledger wire ≡ wire_view ws
unfolding working_view
view-put_wire reg ledger wire ws = rw (wire_of-put_wire reg ledger wire ws, working_view) refl

pub free_view : (ws : WireState) → ws.authority_hold ≡ false → wire_view ws ≡ observed_view ws
unfolding wire_view
free_view ws h = ground (arith, h)
