-- ===== src/Observation/Views.antt =====
-- src/observation.rs, lines 880 to 1033: where an execution belongs, what works of an order, and the
-- readiness of a ledger.
use omsrs.Prelude.{
  ℕ, suc, ◌-◌, ◌==◌, Option, none, some, List, [], ◌∷◌, Bool, true, false, not, ◌&&◌, ◌||◌,
  is_empty, is_some, same_text, same_option, if◌then◌else◌,
}
use omsrs.Prelude.Words.{saturating_add}
use omsrs.Equality.{same}
use omsrs.BTreeMap.{BTreeMap}
use omsrs.OrdMap.{OrdMap}
use omsrs.Lifecycle.Types.{ClientOrderId, VenueOrderId, FillId}
use omsrs.Execution.Types.{
  LedgerId, OrderRow, InventoryEntry, MarketInventory, Result, ok, err, LedgerId-discrete,
}
use omsrs.Execution.Inventory.{get}
use omsrs.Observation.Types.{
  Member, WireKind, RemainingObservation, ObservationOutcome, WireState, WireKey, WireRegistry,
  IdSet-discrete,
}
use omsrs.Observation.Answers.{Route, WorkingView, Readiness, MemberMismatchReason, ReadinessError}
use omsrs.Observation.Registry.{current, is_current, wire_of}
use omsrs.Observation.Proofs.{qty_of}

abbrev owner_of : Option InventoryEntry → Option ClientOrderId
owner_of none = none
owner_of (some entry) = entry.owner

abbrev pub members_of : Option WireState → List Member
members_of none = []
members_of (some ws) = ws.members

unfoldable pub route_members : Bool → List Member → Route
route_members has_entry [] = Route.venue_only
route_members has_entry (m ∷ []) =
    if has_entry then Route.unowned_unique m.cid else Route.new_unique m.cid
route_members has_entry (m ∷ n ∷ ms) =
    if has_entry then Route.unowned_ambiguous else Route.new_ambiguous

unfoldable pub route : WireRegistry → LedgerId → VenueOrderId → FillId → MarketInventory → Route
route reg ledger wire id inventory = elim (owner_of (get inventory id)) [
  | some c ↦ Route.existing_owner c
  | none ↦ route_members (is_some (get inventory id)) (members_of (wire_of reg ledger wire))
]

abbrev pub cid_of : Option Member → Option ClientOrderId
cid_of none = none
cid_of (some m) = some m.cid

-- The last observation covers what the wire holds, at its generation.
unfoldable pub observation_stands : WireState → RemainingObservation → Bool
observation_stands ws obs =
    same IdSet-discrete obs.covered ws.held
    && obs.generation == ws.generation
    && (ws.generation == 0 || same_option same_text ws.proved_current_cid (cid_of (current ws)))

unfoldable pub observed_view : WireState → WorkingView
observed_view ws = elim ws.remaining_observation [
  | none ↦ WorkingView.unresolved
  | some obs ↦ elim ws.last [
    | some (ObservationOutcome.consistent true) ↦
        if observation_stands ws obs
        then WorkingView.known obs.remaining
        else WorkingView.unresolved
    | _ ↦ WorkingView.unresolved
  ]
]

unfoldable pub wire_view : WireState → WorkingView
wire_view ws = if ws.authority_hold then WorkingView.unresolved else observed_view ws

unfoldable pub working_view : WireRegistry → LedgerId → VenueOrderId → WorkingView
working_view reg ledger wire = elim (wire_of reg ledger wire) [
  | none ↦ WorkingView.unresolved
  | some ws ↦ wire_view ws
]

unfoldable pub find_member : ClientOrderId → List Member → Option Member
find_member cid [] = none
find_member cid (m ∷ ms) =
    let rest = find_member cid ms in if same_text m.cid cid then some m else rest

-- The view of the first wire of the ledger that has the member.
unfoldable pub member_view_in :
    WireRegistry → LedgerId → ClientOrderId → OrdMap WireKey WireState → WorkingView
member_view_in reg ledger cid [] = WorkingView.unresolved
member_view_in reg ledger cid ((k, ws) ∷ wires) =
    let rest = member_view_in reg ledger cid wires in
    if same LedgerId-discrete k.ledger ledger
    then elim (find_member cid ws.members) [
      | none ↦ rest
      | some m ↦ if is_current m then working_view reg k.ledger k.wire else WorkingView.unresolved
    ]
    else rest

unfoldable pub member_working_view : WireRegistry → LedgerId → ClientOrderId → WorkingView
member_working_view reg ledger cid = member_view_in reg ledger cid reg.wires

-- The four numbers of a ledger that is not ready.
pub record Debts : Type 0 where
  pub member_debt : ℕ
  pub wire_residual : ℕ
  pub unresolved_venue_only : ℕ
  pub tracked_scoped : ℕ

unfoldable pub check_member : LedgerId → Member → OrderRow → Option MemberMismatchReason
check_member ledger m row =
    if not (same_text row.ctx.client_order_id m.cid)
    then some MemberMismatchReason.wrong_cid
    else if not (same_text row.ledger.scope ledger.scope)
    then some MemberMismatchReason.foreign_scope
    else if not (same_text row.ledger.market ledger.market)
        || not (same_text row.ctx.market ledger.market)
    then some MemberMismatchReason.foreign_market
    else none

abbrev pub debt_of : OrderRow → ℕ
debt_of row = row.ctx.fill_obligation - row.ctx.attributed_fill_qty

-- The debt of the wire's members so far, and that of all members.
unfoldable pub member_debts :
    (ClientOrderId → Option OrderRow)
    → LedgerId
    → ℕ
    → ℕ
    → List Member
    → Result ReadinessError (ℕ × ℕ)
member_debts find ledger this_debt total [] = ok (this_debt, total)
member_debts find ledger this_debt total (m ∷ ms) = elim (find m.cid) [
  | none ↦ err (ReadinessError.missing_member m.cid)
  | some row ↦ elim (check_member ledger m row) [
    | some reason ↦ err (ReadinessError.member_mismatch m.cid reason)
    | none ↦
        member_debts find ledger (saturating_add this_debt (debt_of row))
          (saturating_add total (debt_of row)) ms
  ]
]

-- The quantity of the held executions, cut off at the largest u64.
unfoldable pub held_sum : MarketInventory → ℕ → BTreeMap (Unit {0}) → ℕ
held_sum inventory total [] = total
held_sum inventory total ((id, u) ∷ held) =
    held_sum inventory (saturating_add total (qty_of inventory id)) held

abbrev pub sigma_of : MarketInventory → WireState → ℕ
sigma_of inventory ws = held_sum inventory 0 ws.held

abbrev pub is_open_venue_only : WireState → Bool
is_open_venue_only ws = elim ws.kind [
  | WireKind.venue_only ↦ not ws.resolved
  | WireKind.scoped ↦ false
]

abbrev pub is_tracked_scoped : WireState → Bool
is_tracked_scoped ws = elim ws.kind [ WireKind.venue_only ↦ false | WireKind.scoped ↦ ws.tracked ]

unfoldable pub add_wire : MarketInventory → WireState → ℕ → ℕ → Debts → Debts
add_wire inventory ws this_debt total d = record {
  member_debt = total;
  wire_residual = saturating_add d.wire_residual (ws.filled_hw - sigma_of inventory ws - this_debt);
  unresolved_venue_only =
      if is_open_venue_only ws then suc d.unresolved_venue_only else d.unresolved_venue_only;
  tracked_scoped = if is_tracked_scoped ws then suc d.tracked_scoped else d.tracked_scoped;
}

unfoldable pub wire_debts :
    (ClientOrderId → Option OrderRow)
    → LedgerId
    → MarketInventory
    → Debts
    → OrdMap WireKey WireState
    → Result ReadinessError Debts
wire_debts find ledger inventory d [] = ok d
wire_debts find ledger inventory d ((k, ws) ∷ wires) =
    elim (same LedgerId-discrete k.ledger ledger) [
      | false ↦ wire_debts find ledger inventory d wires
      | true ↦ elim (member_debts find k.ledger 0 d.member_debt ws.members) [
        | err e ↦ err e
        | ok (this_debt, total) ↦
            wire_debts find ledger inventory (add_wire inventory ws this_debt total d) wires
      ]
    ]

abbrev pub no_debts : Debts
no_debts = record {
  member_debt = 0;
  wire_residual = 0;
  unresolved_venue_only = 0;
  tracked_scoped = 0;
}

unfoldable pub readiness_of : Debts → Readiness
readiness_of d =
    if d.unresolved_venue_only == 0 && d.tracked_scoped == 0
    then Readiness.ready
    else Readiness.unresolved d.member_debt d.wire_residual d.unresolved_venue_only d.tracked_scoped

unfoldable pub readiness :
    WireRegistry
    → LedgerId
    → (ClientOrderId → Option OrderRow)
    → MarketInventory
    → Result ReadinessError Readiness
readiness reg ledger find inventory =
    if same LedgerId-discrete inventory.ledger ledger && not (is_empty inventory.conflicts)
    then ok Readiness.conflict
    else elim (wire_debts find ledger inventory no_debts reg.wires) [
      | err e ↦ err e
      | ok d ↦ ok (readiness_of d)
    ]
