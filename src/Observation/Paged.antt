-- ===== src/Observation/Paged.antt =====
-- src/observation.rs, lines 589 to 656: what a REST page proves of its wire.
use omsrs.Prelude.{
  ◌⊎◌, ◌+◌, ◌≡◌, refl, ap, ◌∙◌, none, some, true, false, arith, same_text, Option-cases, inl, inr,
}
use omsrs.Equality.{same_refl}
use omsrs.Lifecycle.Types.{ClientOrderId, VenueOrderId}
use omsrs.Execution.Types.{LedgerId, MarketInventory, ok}
use omsrs.Observation.Types.{
  AmendPhase, ObservationOutcome, WireState, WireRegistry, RestOrderProofTxnRecord, AmendLineage,
  RestOrderProofTxnRecord-discrete,
}
use omsrs.Observation.Answers.{WorkingView}
use omsrs.Observation.Registry.{current_is, wire_of, put_wire}
use omsrs.Observation.Proofs.{proved_wire}
use omsrs.Observation.RestProofs.{
  RestPage, check_rest, check_rest_lineage, check_rest_quantity, prepare_rest_order_proof,
  apply_rest_order_proof, page_of,
}
use omsrs.Observation.Views.{wire_view, working_view}
use omsrs.Observation.Proved.{
  held_qty, check_filled-held_qty, proved_wire-Known, view-put_wire, free_view,
}

-- The page is the current order's, after the amend that the wire waits for, and it fills what the
-- wire holds.
pub record Paged (ws : WireState) (inventory : MarketInventory) (page : RestPage)
    (lineage : AmendLineage) : Type 0 where
  pub amend : ws.amend_lineage ≡ some lineage
  pub waits :
      (lineage.phase ≡ AmendPhase.applied_needs_observation) ⊎ (lineage.phase ≡ AmendPhase.rest_due)
  pub observed : ws.last ≡ some (ObservationOutcome.consistent false)
  pub successor : same_text lineage.new_cid page.client_order_id ≡ true
  pub current : current_is ws page.client_order_id ≡ true
  pub generation : ws.generation ≡ lineage.pre_generation + 1
  pub declared : page.initial ≡ lineage.declared_remaining
  pub split : page.filled + page.remaining ≡ page.initial
  pub filled : page.filled ≡ held_qty inventory ws.held

check_rest_lineage-none :
    (ws : WireState) (page : RestPage) (lineage : AmendLineage)
    → check_rest_lineage ws page lineage ≡ none
    → ((lineage.phase ≡ AmendPhase.applied_needs_observation)
        ⊎ (lineage.phase ≡ AmendPhase.rest_due))
      × (same_text lineage.new_cid page.client_order_id ≡ true)
      × (current_is ws page.client_order_id ≡ true)
      × (ws.generation ≡ lineage.pre_generation + 1)
unfolding check_rest_lineage
check_rest_lineage-none ws page lineage h = ground (arith, h)

check_rest_quantity-none :
    (ws : WireState) (page : RestPage) (lineage : AmendLineage)
    → check_rest_quantity ws page lineage ≡ none
    → (ws.last ≡ some (ObservationOutcome.consistent false))
      × (page.initial ≡ lineage.declared_remaining)
      × (page.filled + page.remaining ≡ page.initial)
unfolding check_rest_quantity
check_rest_quantity-none ws page lineage h = ground (arith, h)

check_rest-Paged :
    (ws : WireState) (inventory : MarketInventory) (page : RestPage)
    → check_rest ws inventory page ≡ none
    → (lineage : AmendLineage) × Paged ws inventory page lineage
unfolding check_rest
check_rest-Paged ws inventory page h = elim (Option-cases ws.amend_lineage) [
  | inl missing ↦ ground (arith, missing, h)
  | inr (lineage, amend) ↦ (
    lineage,
    ground (
      arith,
      amend,
      h,
      check_rest_lineage-none ws page lineage,
      check_rest_quantity-none ws page lineage,
      check_filled-held_qty ws inventory page.filled,
    ),
  )
]

pub rest_txn-inv :
    (reg : WireRegistry) (ledger : LedgerId) (wire : VenueOrderId) (page : RestPage)
    (inventory : MarketInventory) (txn : RestOrderProofTxnRecord)
    → prepare_rest_order_proof reg ledger wire page inventory ≡ ok txn
    → (ws : WireState) × (wire_of reg ledger wire ≡ some ws)
      × (check_rest ws inventory page ≡ none)
      × (txn.ledger ≡ ledger)
      × (txn.wire ≡ wire)
      × (page_of txn ≡ page)
      × (txn.inventory_generation_before ≡ inventory.generation)
      × (txn.wire_after
          ≡ record (proved_wire ws page.client_order_id page.remaining) { authority_hold = false })
unfolding prepare_rest_order_proof
rest_txn-inv reg ledger wire page inventory txn h = elim (Option-cases (wire_of reg ledger wire)) [
  | inl missing ↦ ground (arith, missing, h)
  | inr (ws, found) ↦ elim (Option-cases (check_rest ws inventory page)) [
    | inr (x, e) ↦ ground (arith, found, e, h)
    | inl e ↦ (
      ws,
      found,
      e,
      ground (arith, found, e, h),
      ground (arith, found, e, h),
      ground (arith, found, e, h),
      ground (arith, found, e, h),
      ground (arith, found, e, h),
    )
  ]
]

apply_rest-prepared :
    (reg : WireRegistry) (ledger : LedgerId) (wire : VenueOrderId) (page : RestPage)
    (inventory : MarketInventory) (txn : RestOrderProofTxnRecord)
    → prepare_rest_order_proof reg ledger wire page inventory ≡ ok txn
    → txn.ledger ≡ ledger
    → txn.wire ≡ wire
    → page_of txn ≡ page
    → txn.inventory_generation_before ≡ inventory.generation
    → apply_rest_order_proof reg txn inventory ≡ ok (put_wire reg ledger wire txn.wire_after)
unfolding apply_rest_order_proof
apply_rest-prepared reg ledger wire page inventory txn h l w p g =
    ground (arith, h, l, w, p, g, same_refl RestOrderProofTxnRecord-discrete txn)

freed_current :
    (ws : WireState) (cid : ClientOrderId)
    → current_is ws cid ≡ true
    → current_is (record ws { authority_hold = false }) cid ≡ true
unfolding current_is
freed_current ws cid h = h

-- If a REST page proves the current order, the last round of the wire was consistent but not
-- fresh, the wire has an amend that is applied or due for REST, whose successor is the page's
-- order and is current, one generation after the amend began, the page's initial quantity is the
-- declared one and its filled and remaining quantities add up to it, and the filled quantity is
-- that of the executions that the wire holds. The transaction is applied to the same registry and
-- inventory, and the working view then is the remaining quantity of the page.
pub prepare_rest_order_proof-Paged :
    (reg : WireRegistry) (ledger : LedgerId) (wire : VenueOrderId) (page : RestPage)
    (inventory : MarketInventory) (txn : RestOrderProofTxnRecord)
    → prepare_rest_order_proof reg ledger wire page inventory ≡ ok txn
    → (ws : WireState) × (lineage : AmendLineage) × (after : WireRegistry) × (wire_of reg ledger
          wire
        ≡ some ws)
      × Paged ws inventory page lineage
      × (apply_rest_order_proof reg txn inventory ≡ ok after)
      × (working_view after ledger wire ≡ WorkingView.known page.remaining)
unfolding proved_wire
prepare_rest_order_proof-Paged reg ledger wire page inventory txn h =
    let (ws, found, e, same_ledger, same_wire, same_page, generation, next) =
      rest_txn-inv reg ledger wire page inventory txn h in
    let (lineage, paged) = check_rest-Paged ws inventory page e in
    let freed = record ws { authority_hold = false } in
    (
      ws,
      lineage,
      put_wire reg ledger wire txn.wire_after,
      found,
      paged,
      apply_rest-prepared reg ledger wire page inventory txn h same_ledger same_wire same_page
          generation,
      view-put_wire reg ledger wire txn.wire_after
          ∙ ap wire_view next
          ∙ free_view (proved_wire freed page.client_order_id page.remaining) refl
          ∙ proved_wire-Known freed page.client_order_id page.remaining
              (freed_current ws page.client_order_id paged.current),
    )
