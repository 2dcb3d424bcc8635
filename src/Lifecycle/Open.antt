-- ===== src/Lifecycle/Open.antt =====
-- src/lifecycle.rs, lines 3032 to 3356: a fill that arrives while the order is open, and the
-- terminal that was waiting for it.
use omsrs.Prelude.{
  ℕ, Option, none, some, List, [], ◌∷◌, Bool, true, false, not, ◌&&◌, ltb, leb, ◌==◌, unwrap_or,
  if◌then◌else◌,
}
use omsrs.Prelude.Text.{show, concat}
use omsrs.Lifecycle.Types.{
  VenueOrderId, HaltReason, OrderState, ReconcileTerminal, ReconcileTarget, FillRecord,
}
use omsrs.Lifecycle.Events.{Effect}
use omsrs.Lifecycle.Ctx.{ok, err, OrderCtx, remaining_qty_checked}
use omsrs.Lifecycle.Outcome.{TransitionOutcome, accept, halt_with_reason}
use omsrs.Lifecycle.Venue.{note_fill_evidence, note_authority_complete, push_journal}
use omsrs.Lifecycle.Redelivery.{AccountAttempt}
use omsrs.Lifecycle.Fills.{try_account_fill}
use omsrs.Lifecycle.Finalize.{ProposedTerminal, not_ready_for_terminal, try_finalize_terminal}
use omsrs.Lifecycle.Attribution.{Handled, latch_and_finalize, route_live_or_filled}

-- The remaining quantity that a `Filled` target stands on.
abbrev pub target_remaining : OrderCtx → ReconcileTarget → ℕ
target_remaining ctx target = elim target.venue_remaining_qty [
  | some r ↦ r
  | none ↦ elim ctx.last_venue_remaining_qty [
    | some r ↦ r
    | none ↦ if target.venue_filled_qty == ctx.qty then 0 else 1
  ]
]

abbrev pub target_proposal : OrderCtx → ReconcileTarget → ReconcileTerminal → ProposedTerminal
target_proposal ctx target ReconcileTerminal.canceled = ProposedTerminal.canceled
target_proposal ctx target ReconcileTerminal.filled =
    ProposedTerminal.filled target.venue_filled_qty (target_remaining ctx target)
target_proposal ctx target ReconcileTerminal.terminal = ProposedTerminal.terminal

unfoldable pub finalize_reconcile_target :
    OrderCtx → ReconcileTarget → List Effect → VenueOrderId → TransitionOutcome
finalize_reconcile_target ctx target effects venue_order_id =
    try_finalize_terminal ctx (target_proposal ctx target target.terminal) venue_order_id effects
      target.terminal

abbrev pub pending_reconcile : OrderCtx → VenueOrderId → ℕ → ReconcileTarget → OrderState
pending_reconcile ctx venue_order_id remaining target =
    OrderState.reconcile_pending venue_order_id ctx.attributed_fill_qty remaining target
      ctx.response_fill_count ctx.response_avg_price_cents ctx.response_fee_cents

abbrev pub pending_cancel : OrderCtx → VenueOrderId → ℕ → Option ReconcileTarget → OrderState
pending_cancel ctx venue_order_id remaining target =
    OrderState.cancel_pending venue_order_id ctx.attributed_fill_qty remaining
      ctx.response_fill_count ctx.response_avg_price_cents ctx.response_fee_cents target

-- Full coverage of the order by fill ids latches authority.
unfoldable pub latch_if_covered : OrderCtx → List Effect → List Effect × OrderCtx
latch_if_covered ctx effects =
    if ctx.attributed_fill_qty == ctx.qty
    then (let (latched, ctx') = note_authority_complete ctx true in
        (push_journal effects latched, ctx'))
    else (effects, ctx)

-- The attribution against a known target, once the target's quantity is an obligation.
unfoldable pub settle_target : OrderCtx → VenueOrderId → ReconcileTarget → ℕ → List Effect → Handled
settle_target ctx venue_order_id target remaining effects =
    if ltb target.venue_filled_qty ctx.attributed_fill_qty
    then (if leb ctx.attributed_fill_qty ctx.qty
        then (
          not_ready_for_terminal ctx venue_order_id effects target.terminal true
              target.venue_remaining_qty,
          ctx,
        )
        else (
          halt_with_reason
              (HaltReason.cross_check_mismatch (
                concat (
                  "attributed_fill_qty="
                  ∷ show ctx.attributed_fill_qty
                  ∷ " > target.venue_filled_qty="
                  ∷ show target.venue_filled_qty
                  ∷ [])))
              effects,
          ctx,
        ))
    else if ctx.attributed_fill_qty == target.venue_filled_qty
        && ctx.attributed_fill_qty == ctx.fill_obligation
    then (let (latched, ctx') = latch_if_covered ctx effects in
        (finalize_reconcile_target ctx' target latched venue_order_id, ctx'))
    else (accept (pending_reconcile ctx venue_order_id remaining target) effects, ctx)

unfoldable pub after_fill_cancel_or_reconcile :
    OrderCtx → VenueOrderId → Option ReconcileTarget → List Effect → ℕ → Bool → Handled
after_fill_cancel_or_reconcile ctx venue_order_id reconcile_target effects last_fill_qty
      is_enrichment =
    elim (remaining_qty_checked ctx) [
      | none ↦ (
        halt_with_reason (HaltReason.over_fill ctx.attributed_fill_qty last_fill_qty ctx.qty)
            effects,
        ctx,
      )
      | some remaining ↦ elim reconcile_target [
        | some target ↦
            let (noted, ctx') = note_fill_evidence ctx target.venue_filled_qty in
            elim noted [
              | err reason ↦ (halt_with_reason reason effects, ctx')
              | ok jr ↦ settle_target ctx' venue_order_id target remaining (push_journal effects jr)
            ]
        | none ↦
            if remaining == 0 && not is_enrichment
            then latch_and_finalize ctx (ProposedTerminal.filled ctx.attributed_fill_qty 0)
                venue_order_id effects ReconcileTerminal.filled
            else (accept (pending_cancel ctx venue_order_id remaining none) effects, ctx)
      ]
    ]

-- After an enrichment: only a cancel or reconcile in flight looks at its terminal again.
unfoldable pub after_enrichment : OrderState → OrderCtx → List Effect → Handled
after_enrichment (OrderState.cancel_pending v _ _ _ _ _ target) ctx effects =
    after_fill_cancel_or_reconcile ctx v target effects 0 true
after_enrichment (OrderState.reconcile_pending v _ _ target _ _ _) ctx effects =
    after_fill_cancel_or_reconcile ctx v (some target) effects 0 true
after_enrichment state ctx effects = (accept state effects, ctx)

-- After a new fill.
unfoldable pub after_new_fill : OrderState → OrderCtx → List Effect → ℕ → Handled
after_new_fill (OrderState.submit_started attempt) ctx effects qty =
    (accept (OrderState.submit_started attempt) effects, ctx)
after_new_fill (OrderState.cancel_pending v _ _ _ _ _ target) ctx effects qty =
    after_fill_cancel_or_reconcile ctx v target effects qty false
after_new_fill (OrderState.reconcile_pending v _ _ target _ _ _) ctx effects qty =
    after_fill_cancel_or_reconcile ctx v (some target) effects qty false
after_new_fill state ctx effects qty =
    route_live_or_filled ctx (unwrap_or ctx.venue_order_id "unknown") effects

unfoldable pub apply_fill_while_open : OrderState → OrderCtx → FillRecord → Handled
apply_fill_while_open state ctx f =
    let (attempt, ctx') = try_account_fill ctx f in
    elim attempt [
      | AccountAttempt.no_op ↦ (accept state [], ctx')
      | AccountAttempt.halt reason effects ↦ (halt_with_reason reason effects, ctx')
      | AccountAttempt.enriched effects ↦ after_enrichment state ctx' effects
      | AccountAttempt.applied effects ↦ after_new_fill state ctx' effects f.qty
    ]

unfoldable pub apply_fill_dedup_only : OrderCtx → FillRecord → OrderState → Handled
apply_fill_dedup_only ctx f stay =
    let (attempt, ctx') = try_account_fill ctx f in
    elim attempt [
      | AccountAttempt.no_op ↦ (accept stay [], ctx')
      | AccountAttempt.halt reason effects ↦ (halt_with_reason reason effects, ctx')
      | AccountAttempt.enriched effects ↦ (accept stay effects, ctx')
      | AccountAttempt.applied effects ↦ (accept stay effects, ctx')
    ]
