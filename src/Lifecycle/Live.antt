-- ===== src/Lifecycle/Live.antt =====
-- src/lifecycle.rs, lines 1060 to 1082 and 1255 to 1577: the events of an order that the venue knows.
use omsrs.Prelude.{
  ℕ, Option, none, some, List, [], ◌∷◌, ◌++◌, Bool, false, not, ◌&&◌, ◌||◌, ltb, ◌!=◌,
  if◌then◌else◌,
}
use omsrs.Lifecycle.Types.{
  VenueOrderId, HaltReason, OrderState, ReconcileTerminal, ReconcileTarget, FillRecord,
  BackfillOrderStatus,
}
use omsrs.Lifecycle.Events.{OrderEvent, JournalRecord, Effect}
use omsrs.Lifecycle.Ctx.{OrderCtx, note_venue_remaining, remaining_qty}
use omsrs.Lifecycle.Outcome.{
  accept, prepend_effects, halt_with_reason, halt_with_reason_state, reject_illegal,
}
use omsrs.Lifecycle.Venue.{Resolved, resolve_reconcile_venue, authority_invalidate_effects, journal}
use omsrs.Lifecycle.Redelivery.{same_venue}
use omsrs.Lifecycle.Finalize.{ProposedTerminal}
use omsrs.Lifecycle.Attribution.{Handled, latch_and_finalize}
use omsrs.Lifecycle.Response.{apply_immediate_fill_backfill}
use omsrs.Lifecycle.Open.{apply_fill_while_open}
use omsrs.Lifecycle.Snapshot.{route_from_backfill_status}
use omsrs.Lifecycle.Cancel.{apply_cancel_outcome}
use omsrs.Lifecycle.Frozen.{own_action_accept}

-- The ways in which a terminal claim of the user-order channel is refused.
unfoldable pub claim_refused : OrderCtx → VenueOrderId → ℕ → Bool → Bool
claim_refused ctx venue_order_id filled executed =
    not (same_venue ctx.venue_order_id (some venue_order_id))
    || ctx.attributed_fill_qty != filled
    || (executed && filled != ctx.qty)
    || (not executed && ltb ctx.qty filled)

unfoldable pub apply_terminal_claim : OrderState → OrderCtx → VenueOrderId → ℕ → Bool → Handled
apply_terminal_claim state ctx venue_order_id filled executed =
    if claim_refused ctx venue_order_id filled executed
    then (
      reject_illegal state (OrderEvent.user_order_terminal_claim venue_order_id filled executed),
      ctx,
    )
    else let noted = note_venue_remaining ctx 0 in
      if executed
      then latch_and_finalize noted (ProposedTerminal.filled filled 0) venue_order_id []
          ReconcileTerminal.filled
      else latch_and_finalize noted ProposedTerminal.canceled venue_order_id []
          ReconcileTerminal.canceled

-- A cancel request: fills may race, so the generation of the authority ends.
unfoldable pub request_cancel : OrderCtx → VenueOrderId → Option ℕ → Option ℕ → Option ℕ → Handled
request_cancel ctx venue_order_id response_count avg fee =
    let (invalidated, ctx') = authority_invalidate_effects ctx in
    (
      accept
          (OrderState.cancel_pending venue_order_id ctx'.attributed_fill_qty (remaining_qty ctx')
            response_count avg fee none)
          (invalidated
            ++ Effect.append_fsync (JournalRecord.cancel_requested_cid ctx'.client_order_id) ∷ []),
      ctx',
    )

-- `Accepted` and `Partial`, at the venue order `venue_order_id`.
unfoldable pub apply_live : OrderState → VenueOrderId → OrderCtx → OrderEvent → Handled
apply_live state v ctx (OrderEvent.user_order_terminal_claim claimed filled executed) =
    apply_terminal_claim state ctx claimed filled executed
apply_live state v ctx (OrderEvent.fill f) = apply_fill_while_open state ctx f
apply_live state v ctx OrderEvent.cancel_requested =
    request_cancel ctx v ctx.response_fill_count ctx.response_avg_price_cents ctx.response_fee_cents
apply_live state v ctx (OrderEvent.decrease_observed remaining ts_ms) =
    (own_action_accept state ctx (OrderEvent.decrease_observed remaining ts_ms), ctx)
apply_live state v ctx OrderEvent.amend_observed =
    (own_action_accept state ctx OrderEvent.amend_observed, ctx)
apply_live state v ctx event = (reject_illegal state event, ctx)

-- A reconcile result for an order whose state carries `state_vid`.
unfoldable pub apply_reconcile_result :
    OrderCtx
    → VenueOrderId
    → BackfillOrderStatus
    → Option VenueOrderId
    → ℕ
    → ℕ
    → List FillRecord
    → Bool
    → Handled
apply_reconcile_result ctx state_vid status event_vid filled_qty remaining fills complete =
    let (venue, venue_ctx) = resolve_reconcile_venue ctx state_vid event_vid in
    elim venue [
      | Resolved.conflicted reason bind_jr ↦ (halt_with_reason reason (journal bind_jr), venue_ctx)
      | Resolved.resolved v bind_jr ↦
          let (outcome, ctx') =
            route_from_backfill_status venue_ctx
              (record {
                venue_order_id = v;
                status = status;
                filled_qty = filled_qty;
                remaining_qty = remaining;
                other_members_filled = 0;
              })
              fills complete false in
          (prepend_effects (journal bind_jr) outcome, ctx')
    ]

unfoldable pub apply_cancel_pending :
    OrderCtx
    → VenueOrderId
    → ℕ
    → ℕ
    → Option ℕ
    → Option ℕ
    → Option ℕ
    → Option ReconcileTarget
    → OrderEvent
    → Handled
apply_cancel_pending ctx v filled remaining count avg fee target
      (OrderEvent.user_order_terminal_claim claimed n executed) =
    apply_terminal_claim (OrderState.cancel_pending v filled remaining count avg fee target) ctx
      claimed n executed
apply_cancel_pending ctx v filled remaining count avg fee target
      (OrderEvent.cancel_outcome outcome) =
    apply_cancel_outcome ctx v filled remaining count avg fee target outcome
apply_cancel_pending ctx v filled remaining count avg fee target (OrderEvent.fill f) =
    apply_fill_while_open (OrderState.cancel_pending v filled remaining count avg fee target) ctx f
apply_cancel_pending ctx v filled remaining count avg fee target
      (OrderEvent.reconcile_result status vid venue_filled venue_remaining fills complete) =
    apply_reconcile_result ctx v status vid venue_filled venue_remaining fills complete
apply_cancel_pending ctx v filled remaining count avg fee target OrderEvent.cancel_requested =
    (accept (OrderState.cancel_pending v filled remaining count avg fee target) [], ctx)
apply_cancel_pending ctx v filled remaining count avg fee target
      (OrderEvent.decrease_observed r ts_ms) =
    (
      own_action_accept (OrderState.cancel_pending v filled remaining count avg fee target) ctx
          (OrderEvent.decrease_observed r ts_ms),
      ctx,
    )
apply_cancel_pending ctx v filled remaining count avg fee target OrderEvent.amend_observed = (
  own_action_accept (OrderState.cancel_pending v filled remaining count avg fee target) ctx
      OrderEvent.amend_observed,
  ctx,
)
apply_cancel_pending ctx v filled remaining count avg fee target event =
    (reject_illegal (OrderState.cancel_pending v filled remaining count avg fee target) event, ctx)

-- `ReconcilePending`, at the venue order `v`.
unfoldable pub apply_reconcile_pending : OrderState → VenueOrderId → OrderCtx → OrderEvent → Handled
apply_reconcile_pending state v ctx (OrderEvent.user_order_terminal_claim claimed n executed) =
    apply_terminal_claim state ctx claimed n executed
apply_reconcile_pending state v ctx (OrderEvent.fill f) = apply_fill_while_open state ctx f
apply_reconcile_pending state v ctx
      (OrderEvent.reconcile_result status vid venue_filled venue_remaining fills complete) =
    apply_reconcile_result ctx v status vid venue_filled venue_remaining fills complete
apply_reconcile_pending state v ctx OrderEvent.cancel_requested = (accept state [], ctx)
apply_reconcile_pending state v ctx (OrderEvent.cancel_outcome _) = (accept state [], ctx)
apply_reconcile_pending state v ctx (OrderEvent.decrease_observed r ts_ms) =
    (own_action_accept state ctx (OrderEvent.decrease_observed r ts_ms), ctx)
apply_reconcile_pending state v ctx OrderEvent.amend_observed =
    (own_action_accept state ctx OrderEvent.amend_observed, ctx)
apply_reconcile_pending state v ctx event = (reject_illegal state event, ctx)

-- `ImmediateFillUnattributed`, with the fill count, average and fees of its response.
unfoldable pub apply_unattributed :
    OrderState → VenueOrderId → ℕ → Option ℕ → Option ℕ → OrderCtx → OrderEvent → Handled
apply_unattributed state v count avg fee ctx (OrderEvent.immediate_fill_backfill_result fills) =
    apply_immediate_fill_backfill ctx state fills
apply_unattributed state v count avg fee ctx (OrderEvent.fill f) =
    apply_immediate_fill_backfill ctx state (f ∷ [])
apply_unattributed state v count avg fee ctx OrderEvent.cancel_requested =
    request_cancel ctx v (some count) avg fee
apply_unattributed state v count avg fee ctx (OrderEvent.decrease_observed r ts_ms) =
    (own_action_accept state ctx (OrderEvent.decrease_observed r ts_ms), ctx)
apply_unattributed state v count avg fee ctx OrderEvent.amend_observed =
    (own_action_accept state ctx OrderEvent.amend_observed, ctx)
apply_unattributed state v count avg fee ctx OrderEvent.backfill_deadline_elapsed = (
  halt_with_reason_state OrderState.immediate_fill_unresolved HaltReason.immediate_fill_unresolved
      (Effect.append_fsync (JournalRecord.immediate_fill_unresolved_cid ctx.client_order_id) ∷ []),
  ctx,
)
apply_unattributed state v count avg fee ctx event = (reject_illegal state event, ctx)
