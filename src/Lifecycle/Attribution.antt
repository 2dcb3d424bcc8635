-- ===== src/Lifecycle/Attribution.antt =====
-- src/lifecycle.rs, lines 2819 to 3030: the attribution of the fills that a response claims, and the
-- route to a live or filled order. A handler returns the outcome and the context after it.
use omsrs.Prelude.{
  ◌≡◌, refl, ◌⊎◌, inl, inr, ℕ, ◌-◌, String, Option, none, some, List, [], ◌∷◌, ◌++◌, true, ◌&&◌,
  ltb, ◌==◌, ◌!=◌, is_none, or_option, if◌then◌else◌,
}
use omsrs.Lifecycle.Types.{
  VenueOrderId, HaltReason, RejectReason, OrderState, ReconcileTerminal, FillRecord,
}
use omsrs.Lifecycle.Events.{Effect}
use omsrs.Lifecycle.Ctx.{OrderCtx, remaining_qty_checked}
use omsrs.Lifecycle.Outcome.{TransitionOutcome, accept, halt_with_reason}
use omsrs.Lifecycle.Venue.{note_authority_complete, push_journal}
use omsrs.Lifecycle.Domain.{has_reliable_boundary, notional_avg_mismatch, fee_cross_check_mismatch}
use omsrs.Lifecycle.Redelivery.{AccountAttempt}
use omsrs.Lifecycle.Fills.{try_account_fill}
use omsrs.Lifecycle.Finalize.{ProposedTerminal, try_finalize_terminal}

abbrev pub Handled : Type 0
Handled = TransitionOutcome × OrderCtx

-- The loop that accounts the fills of a page, up to the first halt.
pub data Booked : Type 0 where
  all_booked : (effects : List Effect) → Booked
  stopped : (reason : HaltReason) (effects : List Effect) → Booked

pub Booked-cases :
    (b : Booked)
    → ((es : List Effect) × (b ≡ Booked.all_booked es))
      ⊎ ((reason : HaltReason) × (es : List Effect) × (b ≡ Booked.stopped reason es))
Booked-cases (Booked.all_booked es) = inl (es, refl)
Booked-cases (Booked.stopped reason es) = inr (reason, es, refl)

unfoldable pub account_fills : OrderCtx → List Effect → List FillRecord → Booked × OrderCtx
account_fills ctx effects [] = (Booked.all_booked effects, ctx)
account_fills ctx effects (f ∷ fs) =
    let (attempt, ctx') = try_account_fill ctx f in
    elim attempt [
      | AccountAttempt.no_op ↦ account_fills ctx' effects fs
      | AccountAttempt.applied e ↦ account_fills ctx' (effects ++ e) fs
      | AccountAttempt.enriched e ↦ account_fills ctx' (effects ++ e) fs
      | AccountAttempt.halt reason e ↦ (Booked.stopped reason (effects ++ e), ctx')
    ]

-- The latch and the attempt to finalize that follow full attribution.
unfoldable pub latch_and_finalize :
    OrderCtx → ProposedTerminal → VenueOrderId → List Effect → ReconcileTerminal → Handled
latch_and_finalize ctx proposed venue_order_id effects fallback =
    let (latched, ctx') = note_authority_complete ctx true in
    (
      try_finalize_terminal ctx' proposed venue_order_id (push_journal effects latched) fallback,
      ctx',
    )

unfoldable pub route_live_or_filled : OrderCtx → VenueOrderId → List Effect → Handled
route_live_or_filled ctx venue_order_id effects = elim (remaining_qty_checked ctx) [
  | none ↦ (halt_with_reason (HaltReason.over_fill ctx.attributed_fill_qty 0 ctx.qty) effects, ctx)
  | some remaining ↦
      if remaining == 0
      then latch_and_finalize ctx (ProposedTerminal.filled ctx.attributed_fill_qty 0) venue_order_id
          effects ReconcileTerminal.filled
      else if ctx.attributed_fill_qty == 0
      then (accept (OrderState.accepted venue_order_id) effects, ctx)
      else (
        accept (OrderState.partial venue_order_id ctx.attributed_fill_qty remaining) effects,
        ctx,
      )
]

-- What the response says against the fills attributed so far: wait for more, halt, or go on.
pub data Attribution : Type 0 where
  lagging complete : Attribution
  contradicted : HaltReason → Attribution

unfoldable pub check_attribution : OrderCtx → ℕ → ℕ → Attribution
check_attribution ctx fill_count remaining_count =
    if has_reliable_boundary ctx
    then (if ltb ctx.response_domain_qty fill_count
        then Attribution.lagging
        else if ctx.response_domain_qty != fill_count
        then Attribution.contradicted (
            HaltReason.immediate_fill_cross_check_mismatch fill_count ctx.response_domain_qty
              remaining_count (ctx.qty - ctx.response_domain_qty))
        else if (ctx.qty - fill_count) != remaining_count
        then Attribution.contradicted (
            HaltReason.immediate_fill_cross_check_mismatch fill_count ctx.response_domain_qty
              remaining_count (ctx.qty - fill_count))
        else Attribution.complete)
    else if ltb ctx.attributed_fill_qty fill_count
    then Attribution.lagging
    else if is_none (remaining_qty_checked ctx)
    then Attribution.contradicted (HaltReason.over_fill ctx.attributed_fill_qty 0 ctx.qty)
    else Attribution.complete

abbrev pub avg_detail : OrderCtx → Option ℕ → ℕ → Option String
avg_detail ctx none fill_count = none
avg_detail ctx (some avg) fill_count =
    notional_avg_mismatch ctx.response_domain_notional_cents avg fill_count

-- The average and the fees of the response against its domain; the first mismatch counts.
unfoldable pub check_averages : OrderCtx → ℕ → Option ℕ → Option ℕ → Option HaltReason
check_averages ctx fill_count avg fee =
    if has_reliable_boundary ctx && ctx.response_domain_qty == fill_count
    then elim (avg_detail ctx (or_option avg ctx.response_avg_price_cents) fill_count) [
      | some detail ↦ some (HaltReason.cross_check_mismatch detail)
      | none ↦
          elim (fee_cross_check_mismatch (or_option fee ctx.response_fee_cents)
            ctx.response_domain_fee_cents) [
              | some detail ↦ some (HaltReason.cross_check_mismatch detail)
              | none ↦ none
            ]
    ]
    else none

unfoldable pub keep_response_averages : OrderCtx → Option ℕ → Option ℕ → OrderCtx
keep_response_averages ctx avg fee = record ctx {
  response_avg_price_cents = or_option ctx.response_avg_price_cents avg;
  response_fee_cents = or_option ctx.response_fee_cents fee;
}

unfoldable pub resolve_unattributed : OrderCtx → OrderState → List Effect → List Effect → Handled
resolve_unattributed ctx
      (OrderState.immediate_fill_unattributed venue_order_id fill_count remaining_count avg fee)
      prior enter =
    elim (check_attribution ctx fill_count remaining_count) [
      | Attribution.lagging ↦ (
        accept
            (OrderState.immediate_fill_unattributed venue_order_id fill_count remaining_count avg
              fee)
            (prior ++ enter),
        ctx,
      )
      | Attribution.contradicted reason ↦ (halt_with_reason reason (prior ++ enter), ctx)
      | Attribution.complete ↦ elim (check_averages ctx fill_count avg fee) [
        | some reason ↦ (halt_with_reason reason (prior ++ enter), ctx)
        | none ↦
            route_live_or_filled (keep_response_averages ctx avg fee) venue_order_id
              (prior ++ enter)
      ]
    ]
resolve_unattributed ctx _ prior enter = (
  TransitionOutcome.rejected
      (RejectReason.not_applicable "resolve_unattributed requires ImmediateFillUnattributed"),
  ctx,
)
