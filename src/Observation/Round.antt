-- ===== src/Observation/Round.antt =====
-- src/observation.rs, lines 1145 to 1172, 1229 to 1250 and 1413 to 1505: the end of a round.
use omsrs.Prelude.{
  ◌+◌, Option, none, some, List, [], ◌∷◌, ◌++◌, Bool, true, false, not, ◌&&◌, ◌||◌, any, is_empty,
  unwrap_or, same_text, if◌then◌else◌,
}
use omsrs.Equality.{same, OrderState-discrete, OrderCtx-discrete}
use omsrs.Lifecycle.Types.{ClientOrderId, OrderState, BackfillOrderStatus}
use omsrs.Lifecycle.Events.{Effect}
use omsrs.Execution.Types.{OrderRow, MarketInventory, Result, ok, err, LedgerId-discrete}
use omsrs.Observation.Types.{
  Member, MemberRole, WireKind, ObservationOutcome, WireState, MemberAfter, RowEvidence, WireLine,
  WireRegistry, WireState-discrete,
}
use omsrs.Observation.Answers.{ObservationRound, ObservationTransaction, RoundError}
use omsrs.Observation.Registry.{
  venue_only_wire, wire_of, is_terminal_member, is_terminal_state, sticky_status,
}
use omsrs.Observation.Members.{check_members, cids_of, page_ids}
use omsrs.Observation.Observe.{Scratch, observe_member, round_outcome, high_water}

abbrev pub is_reconcile_pending : OrderState → Bool
is_reconcile_pending (OrderState.reconcile_pending _ _ _ _ _ _ _) = true
is_reconcile_pending _ = false

-- Each row with what the round made of it.
abbrev pub Observed : Type 0
Observed = List (OrderRow × Scratch)

unfoldable pub observe_all : (OrderRow → Scratch) → List OrderRow → Observed
observe_all observe [] = []
observe_all observe (r ∷ rs) = (r, observe r) ∷ observe_all observe rs

unfoldable pub round_effects : Observed → List Effect
round_effects [] = []
round_effects ((r, s) ∷ os) = s.effects ++ round_effects os

abbrev pub post_pending : Observed → Bool
post_pending os = any (λ (o : OrderRow × Scratch). is_reconcile_pending o.1.state) os

abbrev pub is_unchanged : OrderRow → Scratch → Bool
is_unchanged r s = same OrderState-discrete s.state r.state && same OrderCtx-discrete s.ctx r.ctx

-- The rows that the round changes.
unfoldable pub changed_members : Observed → List MemberAfter
changed_members [] = []
changed_members ((r, s) ∷ os) =
    let rest = changed_members os in
    if is_unchanged r s
    then rest
    else record {
      client_order_id = r.ctx.client_order_id;
      seq = r.cursor.seq + 1;
      state_after = s.state;
      ctx_after = s.ctx;
    }
      ∷ rest

abbrev pub is_consistent : ObservationOutcome → Bool
is_consistent (ObservationOutcome.consistent _) = true
is_consistent _ = false

abbrev pub is_fresh : ObservationOutcome → Bool
is_fresh (ObservationOutcome.consistent fresh) = fresh
is_fresh _ = false

abbrev pub is_closed : BackfillOrderStatus → Bool
is_closed BackfillOrderStatus.filled = true
is_closed BackfillOrderStatus.canceled = true
is_closed _ = false

unfoldable pub find_after : ClientOrderId → List MemberAfter → Option MemberAfter
find_after cid [] = none
find_after cid (a ∷ rest) =
    let later = find_after cid rest in if same_text a.client_order_id cid then some a else later

abbrev pub ends_member : List MemberAfter → Member → Bool
ends_member after m = elim (find_after m.cid after) [
  | none ↦ false
  | some a ↦ is_terminal_state a.state_after
]

unfoldable pub mark_terminal : List MemberAfter → List Member → List Member
mark_terminal after [] = []
mark_terminal after (m ∷ ms) =
    let rest = mark_terminal after ms in
    if ends_member after m then record m { role = MemberRole.terminal } ∷ rest else m ∷ rest

-- What stays of a venue-only wire.
abbrev pub resolution : WireState → BackfillOrderStatus → ObservationOutcome → Bool
resolution ws status outcome = elim ws.kind [
  | WireKind.venue_only ↦ is_closed status && is_consistent outcome
  | WireKind.scoped ↦ ws.resolved
]

abbrev pub all_terminal : List Member → Bool
all_terminal ms = not (any (λ (m : Member). not (is_terminal_member m)) ms)

-- A reconciliation of every member to its end discharges the hold of the wire.
abbrev pub discharges : WireState → RowEvidence → ObservationOutcome → Bool → List Member → Bool
discharges ws row outcome pending members =
    ws.authority_hold
    && is_closed row.status
    && is_consistent outcome
    && not pending
    && not (is_empty members)
    && all_terminal members

unfoldable pub wire_after :
    WireState → RowEvidence → ObservationOutcome → Bool → List MemberAfter → WireState
wire_after ws row outcome pending after =
    let status = sticky_status ws.status row.status in
    let members = mark_terminal after ws.members in
    record ws {
      filled_hw = high_water ws row;
      status = status;
      tracked = not (is_consistent outcome) || pending;
      last = some outcome;
      authority_hold =
          if is_fresh outcome || discharges ws row outcome pending members
          then false
          else ws.authority_hold;
      remaining_observation =
          if is_fresh outcome
          then some
              (record { remaining = row.remaining; covered = ws.held; generation = ws.generation })
          else none;
      resolved = resolution ws status outcome;
      members = members;
    }

unfoldable pub observation_line :
    ObservationRound
    → MarketInventory
    → WireState
    → RowEvidence
    → ObservationOutcome
    → List MemberAfter
    → WireState
    → Option WireLine
observation_line round inventory ws row outcome after next =
    if is_empty after && same WireState-discrete next ws
    then none
    else some (
        WireLine.observation_txn (record {
          ledger = round.ledger;
          wire = round.wire;
          row = row;
          page = round.page;
          page_ids = page_ids round.outcomes;
          outcome = outcome;
          inventory_generation_before = inventory.generation;
          wire_generation_before = ws.generation;
          members_after = after;
          wire_after = next;
        }))

unfoldable pub observation_of :
    ObservationRound
    → WireState
    → MarketInventory
    → List OrderRow
    → RowEvidence
    → ObservationTransaction
observation_of round ws inventory members row =
    let outcome = round_outcome round ws inventory row in
    let observed = observe_all (observe_member outcome ws round.wire row) members in
    let after = changed_members observed in
    let next = wire_after ws row outcome (post_pending observed) after in
    record {
      outcome = outcome;
      journal = observation_line round inventory ws row outcome after next;
      effects = Effect.observation ∷ round_effects observed;
      prepared_cids = cids_of members;
      prepared_members = members;
      expected_inventory_generation = inventory.generation;
      expected_wire_generation = ws.generation;
      ledger = round.ledger;
      wire = round.wire;
      members_after = after;
      wire_after = next;
    }

unfoldable pub finish :
    ObservationRound
    → WireRegistry
    → MarketInventory
    → List OrderRow
    → RowEvidence
    → Result RoundError ObservationTransaction
finish round reg inventory members row =
    if not (same LedgerId-discrete row.ledger round.ledger) || not (same_text row.wire round.wire)
    then err RoundError.foreign_row
    else (let ws = unwrap_or (wire_of reg round.ledger round.wire) venue_only_wire in
        elim (check_members round.ledger ws members) [
          | some e ↦ err e
          | none ↦ ok (observation_of round ws inventory members row)
        ])
