-- ===== src/Observation/Types.antt =====
-- src/observation.rs, lines 18 to 169, 200 to 342 of the wires: members, amend lineages, order
-- frames, the state of a wire, the keys of the registry, and the records that the journal holds. A
-- `BTreeSet` is a map to the unit.
use Prim.Native.Nat.{Ordering}
use Prim.Native.String.{compare, then}
use mathlib.Core.List.{List-discrete}
use native.Mathlib.Decide.{ℕ_discrete}
use omsrs.Prelude.{ℕ, String, Option, List, Bool, ◌&&◌, ◌==◌, same_text}
use omsrs.Prelude.Int.{ℤ, eqb_ℤ}
use omsrs.Equality.{same, String-discrete, ℤ-discrete}
use omsrs.BTreeMap.{BTreeMap}
use omsrs.OrdMap.{OrdMap}
use omsrs.Lifecycle.Types.{ClientOrderId, VenueOrderId, Side, OrderState, BackfillOrderStatus}
use omsrs.Lifecycle.Ctx.{OrderCtx}
use omsrs.Execution.Staging.{same_side}
use omsrs.Execution.Types.{LedgerId, OrderTxnRecord, JournalLine, LedgerId-discrete}

pub data MemberRole : Type 0 where
  current superseded terminal : MemberRole

pub record Member : Type 0 where
  pub cid : ClientOrderId
  pub role : MemberRole
  pub bind_pos : ℕ

pub data WireKind : Type 0 where
  scoped venue_only : WireKind

pub record RemainingObservation : Type 0 where
  pub remaining : ℕ
  pub covered : BTreeMap (Unit {0})
  pub generation : ℕ

pub data ObservationOutcome : Type 0 where
  conflict incomplete not_covered row_inconsistent : ObservationOutcome
  consistent : (remaining_fresh : Bool) → ObservationOutcome

pub data AmendPhase : Type 0 where
  http_pending applied_needs_observation unknown rest_due : AmendPhase

pub record AmendLineage : Type 0 where
  pub old_cid : ClientOrderId
  pub new_cid : ClientOrderId
  pub pre_generation : ℕ
  pub phase : AmendPhase
  pub declared_remaining : ℕ
  pub applied_at_utc_ns : Option ℕ

pub data UserOrderStatus : Type 0 where
  resting canceled executed unknown : UserOrderStatus

pub record UserOrderEvidence : Type 0 where
  pub wire : VenueOrderId
  pub market : String
  pub exchange_index : ℤ
  pub subaccount_number : ℤ
  pub sid : ℕ
  pub side : Side
  pub yes_price_e4 : ℕ
  pub client_order_id : ClientOrderId
  pub status : UserOrderStatus
  pub filled : ℕ
  pub remaining : ℕ
  pub initial : ℕ
  pub updated_ts_ms : ℕ
  pub connection_generation : ℕ
  pub payload_digest : String

pub record WireState : Type 0 where
  pub members : List Member
  pub kind : WireKind
  pub held : BTreeMap (Unit {0})
  pub filled_hw : ℕ
  pub status : BackfillOrderStatus
  pub generation : ℕ
  pub tracked : Bool
  pub last : Option ObservationOutcome
  pub resolved : Bool
  pub remaining_observation : Option RemainingObservation
  pub amend_lineage : Option AmendLineage
  pub latest_user_order : Option UserOrderEvidence
  pub latest_user_order_revision : ℕ
  pub proved_current_cid : Option ClientOrderId
  pub observed_exchange_index : Option ℤ
  pub authority_hold : Bool
  pub authority_hold_revision : ℕ

unfoldable pub MemberRole-discrete : Discrete MemberRole
MemberRole-discrete = hlevel

unfoldable pub UserOrderStatus-discrete : Discrete UserOrderStatus
UserOrderStatus-discrete = hlevel

unfoldable pub ObservationOutcome-discrete : Discrete ObservationOutcome
ObservationOutcome-discrete = hlevel

unfoldable pub IdSet-discrete : Discrete (BTreeMap (Unit {0}))
IdSet-discrete = hlevel (String-discrete, List-discrete)

unfoldable pub UserOrderEvidence-discrete : Discrete UserOrderEvidence
UserOrderEvidence-discrete =
    hlevel (ℕ_discrete, ℤ-discrete, String-discrete, UserOrderStatus-discrete)

unfoldable pub WireState-discrete : Discrete WireState
WireState-discrete = hlevel (
  ℕ_discrete, ℤ-discrete, String-discrete, List-discrete, UserOrderEvidence-discrete,
  ObservationOutcome-discrete, MemberRole-discrete,
)

unfoldable pub same_user_order_state : UserOrderEvidence → UserOrderEvidence → Bool
same_user_order_state a b =
    same_text a.wire b.wire
    && same_text a.market b.market
    && eqb_ℤ a.exchange_index b.exchange_index
    && eqb_ℤ a.subaccount_number b.subaccount_number
    && same_side a.side b.side
    && a.yes_price_e4 == b.yes_price_e4
    && same_text a.client_order_id b.client_order_id
    && same UserOrderStatus-discrete a.status b.status
    && a.filled == b.filled
    && a.remaining == b.remaining
    && a.initial == b.initial
    && a.updated_ts_ms == b.updated_ts_ms

pub record OrderStateTxnRecord : Type 0 where
  pub ledger : LedgerId
  pub wire : VenueOrderId
  pub evidence : UserOrderEvidence
  pub inventory_generation_before : ℕ
  pub wire_generation_before : ℕ
  pub wire_after : WireState

pub record RestOrderProofTxnRecord : Type 0 where
  pub ledger : LedgerId
  pub wire : VenueOrderId
  pub client_order_id : ClientOrderId
  pub filled : ℕ
  pub remaining : ℕ
  pub initial : ℕ
  pub inventory_generation_before : ℕ
  pub wire_generation_before : ℕ
  pub wire_after : WireState

unfoldable pub OrderStateTxnRecord-discrete : Discrete OrderStateTxnRecord
OrderStateTxnRecord-discrete =
    hlevel (
      ℕ_discrete, String-discrete, LedgerId-discrete, UserOrderEvidence-discrete,
      WireState-discrete,
    )

unfoldable pub RestOrderProofTxnRecord-discrete : Discrete RestOrderProofTxnRecord
RestOrderProofTxnRecord-discrete =
    hlevel (ℕ_discrete, String-discrete, LedgerId-discrete, WireState-discrete)

pub data OrderStateProofError : Type 0 where
  missing_wire missing_current wrong_current pending_amend lineage_mismatch invalid_transition :
      OrderStateProofError
  stale_or_conflicting_version fill_mismatch quantity_mismatch generation_changed :
      OrderStateProofError
  inventory_changed : OrderStateProofError

pub record MemberAfter : Type 0 where
  pub client_order_id : ClientOrderId
  pub seq : ℕ
  pub state_after : OrderState
  pub ctx_after : OrderCtx

pub record RowEvidence : Type 0 where
  pub ledger : LedgerId
  pub wire : VenueOrderId
  pub status : BackfillOrderStatus
  pub filled : ℕ
  pub remaining : ℕ
  pub client_order_id : Option ClientOrderId
  pub marker : ℕ

pub record PageMeta : Type 0 where
  pub exhaustive : Bool
  pub parse_failures : ℕ

pub record ObservationTxnRecord : Type 0 where
  pub ledger : LedgerId
  pub wire : VenueOrderId
  pub row : RowEvidence
  pub page : Option PageMeta
  pub page_ids : BTreeMap (Unit {0})
  pub outcome : ObservationOutcome
  pub inventory_generation_before : ℕ
  pub wire_generation_before : ℕ
  pub members_after : List MemberAfter
  pub wire_after : WireState

-- The journal of the observation layer: the lines below it, and its own.
pub data WireLine : Type 0 where
  line : JournalLine → WireLine
  observation_txn : ObservationTxnRecord → WireLine
  amend_lineage :
      (ledger : LedgerId) (wire : VenueOrderId) (lineage : Option AmendLineage) → WireLine
  user_order_received :
      (ledger : LedgerId) (wire : VenueOrderId) (evidence : UserOrderEvidence) → WireLine
  order_authority_hold : (ledger : LedgerId) (wire : VenueOrderId) → WireLine
  order_state_txn : OrderStateTxnRecord → WireLine
  rest_order_proof_txn : RestOrderProofTxnRecord → WireLine

pub record WireKey : Type 0 where
  pub ledger : LedgerId
  pub wire : VenueOrderId

-- The derived order of `(LedgerId, VenueOrderId)`.
abbrev pub compare_key : WireKey → WireKey → Ordering
compare_key a b =
    then (compare a.ledger.scope b.ledger.scope)
      (then (compare a.ledger.market b.ledger.market) (compare a.wire b.wire))

-- `seen_order` is only searched and added to: its records stand under the ledger, the client order
-- id and the number that they hold.
pub record WireRegistry : Type 0 where
  pub wires : OrdMap WireKey WireState
  pub id_index : BTreeMap (BTreeMap (Unit {0}))
  pub seen_order : List OrderTxnRecord
