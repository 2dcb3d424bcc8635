-- ===== src/Observation/Registry.antt =====
-- src/observation.rs, lines 171 to 206, 345 to 405 and 1619 to 1659: the state of a wire, its access
-- in the registry, and the helpers on states.
use omsrs.Prelude.{
  ℕ, ◌==◌, Option, none, some, List, [], ◌∷◌, Bool, true, false, ◌&&◌, ◌||◌, any, unwrap_or,
  or_option, same_text, if◌then◌else◌,
}
use omsrs.Equality.{same}
use omsrs.OrdMap.{OrdMap, lookup, insert}
use omsrs.Lifecycle.Types.{ClientOrderId, VenueOrderId, OrderState, BackfillOrderStatus}
use omsrs.Lifecycle.Ctx.{OrderCtx}
use omsrs.Execution.Types.{LedgerId, LedgerId-discrete}
use omsrs.Observation.Types.{
  MemberRole, Member, WireKind, AmendLineage, WireState, WireKey, WireRegistry, compare_key,
}

abbrev pub venue_only_wire : WireState
venue_only_wire = record {
  members = [];
  kind = WireKind.venue_only;
  held = [];
  filled_hw = 0;
  status = BackfillOrderStatus.open_order;
  generation = 0;
  tracked = false;
  last = none;
  resolved = false;
  remaining_observation = none;
  amend_lineage = none;
  latest_user_order = none;
  latest_user_order_revision = 0;
  proved_current_cid = none;
  observed_exchange_index = none;
  authority_hold = false;
  authority_hold_revision = 0;
}

abbrev pub is_current : Member → Bool
is_current m = elim m.role [ MemberRole.current ↦ true | _ ↦ false ]

abbrev pub is_terminal_member : Member → Bool
is_terminal_member m = elim m.role [ MemberRole.terminal ↦ true | _ ↦ false ]

unfoldable pub current_of : List Member → Option Member
current_of [] = none
current_of (m ∷ ms) = let rest = current_of ms in if is_current m then some m else rest

abbrev pub current : WireState → Option Member
current ws = current_of ws.members

unfoldable pub non_terminal_cids : List Member → List ClientOrderId
non_terminal_cids [] = []
non_terminal_cids (m ∷ ms) =
    let rest = non_terminal_cids ms in if is_terminal_member m then rest else m.cid ∷ rest

abbrev pub has_member : ClientOrderId → List Member → Bool
has_member cid ms = any (λ (m : Member). same_text m.cid cid) ms

-- The current member is the one of this id.
unfoldable pub current_is : WireState → ClientOrderId → Bool
current_is ws cid = elim (current ws) [ none ↦ false | some m ↦ same_text m.cid cid ]

abbrev pub new_registry : WireRegistry
new_registry = record { wires = []; id_index = []; seen_order = [] }

abbrev pub key : LedgerId → VenueOrderId → WireKey
key ledger wire = record { ledger = ledger; wire = wire }

-- `wire` and `get`
unfoldable pub wire_of : WireRegistry → LedgerId → VenueOrderId → Option WireState
wire_of reg ledger wire = lookup compare_key (key ledger wire) reg.wires

unfoldable pub put_wire : WireRegistry → LedgerId → VenueOrderId → WireState → WireRegistry
put_wire reg ledger wire ws = record reg {
  wires = insert compare_key (key ledger wire) ws reg.wires;
}

-- A change behind the pointer that `ensure` returns.
unfoldable pub ensured :
    WireRegistry → LedgerId → VenueOrderId → (WireState → WireState) → WireRegistry
ensured reg ledger wire change =
    put_wire reg ledger wire (change (unwrap_or (wire_of reg ledger wire) venue_only_wire))

abbrev pub generation_of : Option WireState → ℕ
generation_of none = 0
generation_of (some ws) = ws.generation

unfoldable pub marker : WireRegistry → LedgerId → VenueOrderId → ℕ
marker reg ledger wire = generation_of (wire_of reg ledger wire)

abbrev pub in_lineage : ClientOrderId → Option AmendLineage → Bool
in_lineage cid none = false
in_lineage cid (some l) = same_text l.old_cid cid || same_text l.new_cid cid

unfoldable pub matches_client : LedgerId → ClientOrderId → LedgerId → WireState → Bool
matches_client ledger cid candidate ws =
    same LedgerId-discrete candidate ledger
    && (has_member cid ws.members || in_lineage cid ws.amend_lineage)

unfoldable pub matching_wires :
    LedgerId → ClientOrderId → OrdMap WireKey WireState → List VenueOrderId
matching_wires ledger cid [] = []
matching_wires ledger cid ((k, ws) ∷ m) =
    let rest = matching_wires ledger cid m in
    if matches_client ledger cid k.ledger ws then k.wire ∷ rest else rest

abbrev unique : List VenueOrderId → Option VenueOrderId
unique (w ∷ []) = some w
unique _ = none

unfoldable pub wire_for_client : WireRegistry → LedgerId → ClientOrderId → Option VenueOrderId
wire_for_client reg ledger cid = unique (matching_wires ledger cid reg.wires)

unfoldable pub has_client : WireRegistry → LedgerId → ClientOrderId → Bool
has_client reg ledger cid =
    any (λ (kw : WireKey × WireState). matches_client ledger cid kw.0.ledger kw.1) reg.wires

unfoldable pub is_terminal_state : OrderState → Bool
is_terminal_state OrderState.filled = true
is_terminal_state OrderState.canceled = true
is_terminal_state OrderState.terminal = true
is_terminal_state (OrderState.halted _) = true
is_terminal_state OrderState.immediate_fill_unresolved = true
is_terminal_state OrderState.unknown_no_match = true
is_terminal_state _ = false

unfoldable pub sticky_status : BackfillOrderStatus → BackfillOrderStatus → BackfillOrderStatus
sticky_status BackfillOrderStatus.filled status = BackfillOrderStatus.filled
sticky_status BackfillOrderStatus.canceled status = BackfillOrderStatus.canceled
sticky_status BackfillOrderStatus.open_order status = status
sticky_status BackfillOrderStatus.partial status = status

unfoldable pub venue_from_state : OrderState → Option VenueOrderId
venue_from_state (OrderState.accepted v) = some v
venue_from_state (OrderState.partial v _ _) = some v
venue_from_state (OrderState.cancel_pending v _ _ _ _ _ _) = some v
venue_from_state (OrderState.reconcile_pending v _ _ _ _ _ _) = some v
venue_from_state (OrderState.immediate_fill_unattributed v _ _ _ _) = some v
venue_from_state _ = none

unfoldable pub live_with_remaining : OrderState → OrderCtx → ℕ → OrderState
live_with_remaining state ctx remaining =
    elim (or_option (venue_from_state state) ctx.venue_order_id) [
      | none ↦ state
      | some v ↦
          if ctx.attributed_fill_qty == 0 && remaining == ctx.qty
          then OrderState.accepted v
          else OrderState.partial v ctx.attributed_fill_qty remaining
    ]
