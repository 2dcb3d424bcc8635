-- ===== src/Observation/Frames.antt =====
-- src/observation.rs, lines 456 to 507: a frame of an order, against the wire that it changes.
use omsrs.Prelude.{
  ℕ, ◌+◌, ◌≤◌, ◌≡◌, ap, ◌∙◌, ◌⊎◌, Option, some, true, false, arith, eq_iff, unwrap_or,
}
use omsrs.Prelude.Words.{saturating_add}
use omsrs.Lifecycle.Types.{VenueOrderId}
use omsrs.Execution.Types.{LedgerId, ok}
use omsrs.Observation.Types.{WireState, WireLine, WireRegistry, UserOrderEvidence, UserOrderStatus}
use omsrs.Observation.Registry.{wire_of, ensured, current_is, venue_only_wire}
use omsrs.Observation.Amend.{
  quantity_valid, receive_frame, prepare_user_order_received, is_successor, is_stale_frame,
}
use omsrs.Observation.Fold.{fold_line, receive}
use omsrs.Observation.Keys.{wire_of-put_wire}

pub ensured-wire_of :
    (reg : WireRegistry) (ledger : LedgerId) (wire : VenueOrderId) (change : WireState → WireState)
    (ws : WireState)
    → wire_of reg ledger wire ≡ some ws
    → wire_of (ensured reg ledger wire change) ledger wire ≡ some (change ws)
unfolding ensured
ensured-wire_of reg ledger wire change ws h =
    wire_of-put_wire reg ledger wire (change (unwrap_or (wire_of reg ledger wire) venue_only_wire))
    ∙ ap (λ (o : Option WireState). some (change (unwrap_or o venue_only_wire))) h

-- The quantities of a frame: what rests is the rest, and an ended order has none.
abbrev pub Adds : UserOrderEvidence → Type 0
Adds e = elim e.status [
  | UserOrderStatus.resting ↦ e.filled + e.remaining ≡ e.initial
  | UserOrderStatus.unknown ↦ e.filled + e.remaining ≡ e.initial
  | UserOrderStatus.canceled ↦ (e.remaining ≡ 0) × (e.filled ≤ e.initial)
  | UserOrderStatus.executed ↦ (e.remaining ≡ 0) × (e.filled ≡ e.initial)
]

-- A frame `e` after the frame `prev` of the same order: no time and no filled quantity goes back,
-- and an order that has ended does not rest again.
pub record Follows (prev e : UserOrderEvidence) : Type 0 where
  pub time : prev.updated_ts_ms ≤ e.updated_ts_ms
  pub filled : prev.filled ≤ e.filled
  pub ended : e.status ≡ UserOrderStatus.resting → prev.status ≡ UserOrderStatus.resting

quantity_valid-Adds : (e : UserOrderEvidence) → quantity_valid e ≡ true → Adds e
unfolding quantity_valid
quantity_valid-Adds e h = ground (arith, h)

stale-Follows : (prev e : UserOrderEvidence) → is_stale_frame prev e ≡ false → Follows prev e
unfolding is_stale_frame
stale-Follows prev e h = ground (arith, h)

receive_frame-Follows :
    (ws : WireState) (ledger : LedgerId) (wire : VenueOrderId) (e prev : UserOrderEvidence)
    (l : WireLine)
    → receive_frame ws ledger wire e ≡ ok (some l)
    → ws.latest_user_order ≡ some prev
    → prev.client_order_id ≡ e.client_order_id
    → Follows prev e
unfolding receive_frame
receive_frame-Follows ws ledger wire e prev l h p c =
    ground (arith, h, p, c, eq_iff prev.client_order_id e.client_order_id, stale-Follows prev e)

receive_frame-line :
    (ws : WireState) (ledger : LedgerId) (wire : VenueOrderId) (e : UserOrderEvidence)
    (l : WireLine)
    → receive_frame ws ledger wire e ≡ ok (some l)
    → l ≡ WireLine.user_order_received ledger wire e
unfolding receive_frame
receive_frame-line ws ledger wire e l h = ground (arith, h)

-- What an accepted frame is to the wire before it.
pub record Received (ws : WireState) (ledger : LedgerId) (wire : VenueOrderId)
    (e : UserOrderEvidence) : Type 0 where
  pub of_wire : e.wire ≡ wire
  pub of_market : e.market ≡ ledger.market
  pub belongs : (current_is ws e.client_order_id ≡ true) ⊎ (is_successor ws e ≡ true)
  pub adds : Adds e
  pub follows :
      (prev : UserOrderEvidence)
      → ws.latest_user_order ≡ some prev
      → prev.client_order_id ≡ e.client_order_id
      → Follows prev e

received_line :
    (reg : WireRegistry) (ledger : LedgerId) (wire : VenueOrderId) (e : UserOrderEvidence)
    (ws : WireState) (l : WireLine)
    → wire_of reg ledger wire ≡ some ws
    → prepare_user_order_received reg ledger wire e ≡ ok (some l)
    → receive_frame ws ledger wire e ≡ ok (some l)
unfolding prepare_user_order_received
received_line reg ledger wire e ws l w h = ground (arith, w, h)

checked-Received :
    (reg : WireRegistry) (ledger : LedgerId) (wire : VenueOrderId) (e : UserOrderEvidence)
    (ws : WireState) (l : WireLine)
    → wire_of reg ledger wire ≡ some ws
    → prepare_user_order_received reg ledger wire e ≡ ok (some l)
    → Received ws ledger wire e
unfolding prepare_user_order_received
checked-Received reg ledger wire e ws l w h = record {
  of_wire = ground (arith, w, h, eq_iff e.wire wire);
  of_market = ground (arith, w, h, eq_iff e.market ledger.market);
  belongs = ground (arith, w, h);
  adds = quantity_valid-Adds e (ground (arith, w, h));
  follows = λ prev.
      receive_frame-Follows ws ledger wire e prev l (received_line reg ledger wire e ws l w h);
}

-- If a frame is accepted with a journal line for a wire of the registry, it is of this wire and
-- market, of the current order or of the successor of the amend in flight, and its quantities add
-- up as its status says. Against the latest frame of the same order, neither its time nor its
-- filled quantity goes back, and an order that did not rest does not rest again. The fold of the
-- line makes the frame the wire's latest, sets the revision of the latest frame to one after the
-- line's position (cut off at the largest u64) and the observed exchange index to the frame's, and
-- leaves the rest of the wire.
pub prepare_user_order_received-Received :
    (reg : WireRegistry) (ledger : LedgerId) (wire : VenueOrderId) (e : UserOrderEvidence)
    (ws : WireState) (l : WireLine) (pos : ℕ)
    → wire_of reg ledger wire ≡ some ws
    → prepare_user_order_received reg ledger wire e ≡ ok (some l)
    → Received ws ledger wire e
      × ((after : WireRegistry) × (fold_line reg pos l ≡ ok after)
          × (wire_of after ledger wire
              ≡ some (record ws {
                latest_user_order = some e;
                latest_user_order_revision = saturating_add pos 1;
                observed_exchange_index = some e.exchange_index;
              })))
unfolding fold_line
prepare_user_order_received-Received reg ledger wire e ws l pos w h = (
  checked-Received reg ledger wire e ws l w h,
  (
    ensured reg ledger wire (receive pos e),
    ap (fold_line reg pos)
        (receive_frame-line ws ledger wire e l (received_line reg ledger wire e ws l w h)),
    ensured-wire_of reg ledger wire (receive pos e) ws w,
  ),
)
