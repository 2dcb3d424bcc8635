-- ===== src/Observation/Resting.antt =====
-- src/observation.rs, lines 511 to 588: what an order-state frame proves of its wire.
use mathlib.Core.Path.{subst}
use omsrs.Prelude.{
  ◌+◌, ◌==◌, ◌≡◌, ap, ◌∙◌, some, none, true, false, arith, Option-cases, Bool-cases, inl, inr,
  eq_iff,
}
use omsrs.Equality.{same_refl}
use omsrs.Lifecycle.Types.{VenueOrderId}
use omsrs.Execution.Types.{LedgerId, MarketInventory, Result-cases, ok}
use omsrs.Observation.Types.{
  AmendPhase, AmendLineage, WireState, WireRegistry, OrderStateTxnRecord, UserOrderEvidence,
  UserOrderStatus, OrderStateTxnRecord-discrete,
}
use omsrs.Observation.Answers.{WorkingView}
use omsrs.Observation.Registry.{current_is, wire_of, put_wire}
use omsrs.Observation.Proofs.{
  check_resting_amend, check_resting_lineage, check_filled, resting_evidence, proved_wire,
  prepare_order_state_resting, apply_order_state_resting,
}
use omsrs.Observation.Amend.{is_resting}
use omsrs.Observation.Views.{wire_view, working_view}
use omsrs.Observation.Proved.{
  held_qty, check_filled-held_qty, proved_wire-Known, view-put_wire, free_view,
}

-- What lets a frame speak for the current order: no own action, a proof at this generation, or an
-- applied amend whose successor and declared quantity are the frame's.
pub data Speaks (ws : WireState) (e : UserOrderEvidence) : Type 0 where
  untouched : ws.amend_lineage ≡ none → ws.generation ≡ 0 → Speaks ws e
  proved : ws.amend_lineage ≡ none → ws.proved_current_cid ≡ some e.client_order_id → Speaks ws e
  amended :
      (l : AmendLineage)
      → ws.amend_lineage ≡ some l
      → l.phase ≡ AmendPhase.applied_needs_observation
      → l.new_cid ≡ e.client_order_id
      → ws.generation ≡ l.pre_generation + 1
      → e.initial ≡ l.declared_remaining
      → Speaks ws e

check_resting_amend-none :
    (ws : WireState) (e : UserOrderEvidence) (l : AmendLineage)
    → check_resting_amend ws e l ≡ none
    → (l.phase ≡ AmendPhase.applied_needs_observation)
      × (l.new_cid ≡ e.client_order_id)
      × (ws.generation ≡ l.pre_generation + 1)
      × (e.initial ≡ l.declared_remaining)
unfolding check_resting_amend
check_resting_amend-none ws e l h = ground (arith, h, eq_iff e.client_order_id l.new_cid)

check_resting_lineage-Speaks :
    (ws : WireState) (e : UserOrderEvidence) → check_resting_lineage ws e ≡ none → Speaks ws e
unfolding check_resting_lineage
check_resting_lineage-Speaks ws e h = elim (Option-cases ws.amend_lineage) [
  | inr (l, amend) ↦
      let (phase, successor, generation, declared) =
        check_resting_amend-none ws e l (ground (arith, h, amend)) in
      amended l amend phase successor generation declared
  | inl none_open ↦ elim (Bool-cases (ws.generation == 0)) [
    | inl zero ↦ untouched none_open (ground (arith, zero))
    | inr moved ↦ elim (Option-cases ws.proved_current_cid) [
      | inl unproved ↦ ground (arith, h, none_open, moved, unproved)
      | inr (cid, p) ↦
          proved none_open (ground (arith, h, none_open, moved, p, eq_iff cid e.client_order_id))
    ]
  ]
]

-- The frame rests and is the current order's, and it fills what the wire holds.
pub record Rests (ws : WireState) (inventory : MarketInventory) (e : UserOrderEvidence)
    : Type 0 where
  pub free : ws.authority_hold ≡ false
  pub frame : ws.latest_user_order ≡ some e
  pub resting : e.status ≡ UserOrderStatus.resting
  pub current : current_is ws e.client_order_id ≡ true
  pub speaks : Speaks ws e
  pub filled : e.filled ≡ held_qty inventory ws.held

is_resting-resting : (s : UserOrderStatus) → is_resting s ≡ true → s ≡ UserOrderStatus.resting
is_resting-resting s h = ground (arith, h)

resting_evidence-checked :
    (ws : WireState) (inventory : MarketInventory) (x e : UserOrderEvidence)
    → ws.latest_user_order ≡ some x
    → resting_evidence ws inventory ≡ ok e
    → (x ≡ e)
      × (ws.authority_hold ≡ false)
      × (is_resting x.status ≡ true)
      × (current_is ws x.client_order_id ≡ true)
      × (check_resting_lineage ws x ≡ none)
      × (check_filled ws inventory x.filled ≡ none)
unfolding resting_evidence
resting_evidence-checked ws inventory x e frame h = ground (arith, frame, h)

resting_evidence-Rests :
    (ws : WireState) (inventory : MarketInventory) (e : UserOrderEvidence)
    → resting_evidence ws inventory ≡ ok e
    → Rests ws inventory e
unfolding resting_evidence
resting_evidence-Rests ws inventory e h = elim (Option-cases ws.latest_user_order) [
  | inl missing ↦ ground (arith, missing, h)
  | inr (x, frame) ↦
      let (same_frame, free, rests, current, lineage, filled) =
        resting_evidence-checked ws inventory x e frame h in
      subst (λ (y : UserOrderEvidence). Rests ws inventory y) same_frame
        (record {
          free = free;
          frame = frame;
          resting = is_resting-resting x.status rests;
          current = current;
          speaks = check_resting_lineage-Speaks ws x lineage;
          filled = check_filled-held_qty ws inventory x.filled filled;
        })
]

-- The transaction of a proof that is prepared.
pub resting_txn-inv :
    (reg : WireRegistry) (ledger : LedgerId) (wire : VenueOrderId) (inventory : MarketInventory)
    (txn : OrderStateTxnRecord)
    → prepare_order_state_resting reg ledger wire inventory ≡ ok txn
    → (ws : WireState) × (wire_of reg ledger wire ≡ some ws)
      × (resting_evidence ws inventory ≡ ok txn.evidence)
      × (txn.ledger ≡ ledger)
      × (txn.wire ≡ wire)
      × (txn.inventory_generation_before ≡ inventory.generation)
      × (txn.wire_after ≡ proved_wire ws txn.evidence.client_order_id txn.evidence.remaining)
unfolding prepare_order_state_resting
resting_txn-inv reg ledger wire inventory txn h = elim (Option-cases (wire_of reg ledger wire)) [
  | inl missing ↦ ground (arith, missing, h)
  | inr (ws, found) ↦ elim (Result-cases (resting_evidence ws inventory)) [
    | inr (x, e) ↦ ground (arith, found, e, h)
    | inl (evidence, e) ↦ (
      ws,
      found,
      e ∙ ground (arith, found, e, h),
      ground (arith, found, e, h),
      ground (arith, found, e, h),
      ground (arith, found, e, h),
      ground (arith, found, e, h),
    )
  ]
]

apply_resting-prepared :
    (reg : WireRegistry) (ledger : LedgerId) (wire : VenueOrderId) (inventory : MarketInventory)
    (txn : OrderStateTxnRecord)
    → prepare_order_state_resting reg ledger wire inventory ≡ ok txn
    → txn.ledger ≡ ledger
    → txn.wire ≡ wire
    → txn.inventory_generation_before ≡ inventory.generation
    → apply_order_state_resting reg txn inventory ≡ ok (put_wire reg ledger wire txn.wire_after)
unfolding apply_order_state_resting
apply_resting-prepared reg ledger wire inventory txn h l w g =
    ground (arith, h, l, w, g, same_refl OrderStateTxnRecord-discrete txn)

-- If an order-state frame proves the current order, the wire is free of a hold, its latest frame
-- is the evidence, rests, is of the current order, and its filled quantity is that of the
-- executions that the wire holds. The wire has no amend and is of generation zero or was proved
-- for this order, or it has an applied amend, one generation after the amend began, whose
-- successor and declared quantity are the frame's. The transaction is applied to the same registry
-- and inventory, and the working view then is the remaining quantity of the frame.
pub prepare_order_state_resting-Rests :
    (reg : WireRegistry) (ledger : LedgerId) (wire : VenueOrderId) (inventory : MarketInventory)
    (txn : OrderStateTxnRecord)
    → prepare_order_state_resting reg ledger wire inventory ≡ ok txn
    → (ws : WireState) × (after : WireRegistry) × (wire_of reg ledger wire ≡ some ws)
      × Rests ws inventory txn.evidence
      × (apply_order_state_resting reg txn inventory ≡ ok after)
      × (working_view after ledger wire ≡ WorkingView.known txn.evidence.remaining)
unfolding proved_wire
prepare_order_state_resting-Rests reg ledger wire inventory txn h =
    let (ws, found, e, same_ledger, same_wire, generation, next) =
      resting_txn-inv reg ledger wire inventory txn h in
    let rests = resting_evidence-Rests ws inventory txn.evidence e in
    let cid = txn.evidence.client_order_id in
    let remaining = txn.evidence.remaining in
    (
      ws,
      put_wire reg ledger wire txn.wire_after,
      found,
      rests,
      apply_resting-prepared reg ledger wire inventory txn h same_ledger same_wire generation,
      view-put_wire reg ledger wire txn.wire_after
          ∙ ap wire_view next
          ∙ free_view (proved_wire ws cid remaining) rests.free
          ∙ proved_wire-Known ws cid remaining rests.current,
    )
