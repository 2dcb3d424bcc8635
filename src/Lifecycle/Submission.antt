-- ===== src/Lifecycle/Submission.antt =====
-- src/lifecycle.rs, lines 1074 to 1253: the events of an order whose submission is under way.
use omsrs.Prelude.{ℕ, [], ◌∷◌, ◌||◌, ◌!=◌, if◌then◌else◌}
use omsrs.Lifecycle.Types.{
  VenueOrderId, HaltReason, RejectReason, OrderState, SubmissionCloseReason,
}
use omsrs.Lifecycle.Events.{OrderEvent, JournalRecord, Effect}
use omsrs.Lifecycle.Ctx.{ok, err, OrderCtx, note_venue_remaining}
use omsrs.Lifecycle.Outcome.{TransitionOutcome, accept, halt_with_reason, reject_illegal}
use omsrs.Lifecycle.Venue.{bind_venue_id, journal}
use omsrs.Lifecycle.Attribution.{Handled}
use omsrs.Lifecycle.Response.{apply_submit_response}
use omsrs.Lifecycle.Open.{apply_fill_while_open, apply_fill_dedup_only}
use omsrs.Lifecycle.Unknown.{apply_unknown_backfill}
use omsrs.Lifecycle.Frozen.{try_close_submission}

unfoldable pub apply_new : OrderCtx → OrderEvent → Handled
apply_new ctx OrderEvent.prepare_submit = (
  accept OrderState.submit_prepared
      (Effect.append_fsync (JournalRecord.submit_prepared ctx.client_order_id) ∷ []),
  ctx,
)
apply_new ctx event = (reject_illegal OrderState.new event, ctx)

unfoldable pub apply_prepared : OrderCtx → OrderEvent → Handled
apply_prepared ctx (OrderEvent.start_submit attempt_id) = (
  accept (OrderState.submit_started attempt_id)
      (Effect.append_fsync (JournalRecord.submit_started attempt_id) ∷ []),
  ctx,
)
apply_prepared ctx (OrderEvent.submit_response _ _ _ _ _ _) = (
  TransitionOutcome.rejected (
      RejectReason.order_invariant_violated
        "SubmitResponse requires SubmitStarted (Started must be fsynced before HTTP/response)"),
  ctx,
)
apply_prepared ctx OrderEvent.submit_timeout = (
  TransitionOutcome.rejected
      (RejectReason.order_invariant_violated "SubmitTimeout only valid from SubmitStarted"),
  ctx,
)
apply_prepared ctx OrderEvent.prepare_submit =
    (TransitionOutcome.rejected RejectReason.already_prepared, ctx)
apply_prepared ctx event = (reject_illegal OrderState.submit_prepared event, ctx)

-- The closures that a started submission admits.
close_started : OrderState → OrderCtx → SubmissionCloseReason → TransitionOutcome
close_started state ctx SubmissionCloseReason.exhaustive_absent =
    reject_illegal state (OrderEvent.close_submission SubmissionCloseReason.exhaustive_absent)
close_started state ctx SubmissionCloseReason.local_not_sent =
    try_close_submission ctx SubmissionCloseReason.local_not_sent
close_started state ctx SubmissionCloseReason.definite_failure =
    try_close_submission ctx SubmissionCloseReason.definite_failure

unfoldable pub apply_started : OrderState → OrderCtx → OrderEvent → Handled
unfolding close_started
apply_started state ctx (OrderEvent.submit_response v fill_count remaining avg fee boundary) =
    apply_submit_response ctx v fill_count remaining avg fee boundary
apply_started state ctx OrderEvent.submit_timeout = (
  accept OrderState.submit_unknown (
      Effect.append_fsync (JournalRecord.submit_unknown_cid ctx.client_order_id)
      ∷ Effect.backfill_unknown ctx.client_order_id
      ∷ []),
  ctx,
)
apply_started state ctx (OrderEvent.fill f) = apply_fill_while_open state ctx f
apply_started state ctx (OrderEvent.start_submit _) = (
  TransitionOutcome.rejected (RejectReason.order_invariant_violated "already SubmitStarted"),
  ctx,
)
apply_started state ctx (OrderEvent.close_submission reason) = (close_started state ctx reason, ctx)
apply_started state ctx event = (reject_illegal state event, ctx)

unfoldable pub apply_resting_claim : OrderCtx → VenueOrderId → ℕ → Handled
apply_resting_claim ctx venue_order_id remaining =
    if ctx.attributed_fill_qty != 0 || remaining != ctx.qty
    then (
      reject_illegal OrderState.submit_unknown
          (OrderEvent.user_order_resting_claim venue_order_id remaining),
      ctx,
    )
    else let (bound, bound_ctx) = bind_venue_id ctx venue_order_id in
      elim bound [
        | err reason ↦ (halt_with_reason reason [], bound_ctx)
        | ok bind ↦ (
          accept (OrderState.accepted venue_order_id) (journal bind),
          note_venue_remaining bound_ctx remaining,
        )
      ]

-- The closures that an unknown submission admits.
close_unknown : OrderCtx → SubmissionCloseReason → TransitionOutcome
close_unknown ctx SubmissionCloseReason.exhaustive_absent =
    try_close_submission ctx SubmissionCloseReason.exhaustive_absent
close_unknown ctx reason =
    reject_illegal OrderState.submit_unknown (OrderEvent.close_submission reason)

unfoldable pub apply_unknown : OrderCtx → OrderEvent → Handled
unfolding apply_resting_claim close_unknown
apply_unknown ctx (OrderEvent.unknown_backfill_result exhaustive matched) =
    apply_unknown_backfill ctx exhaustive matched
apply_unknown ctx (OrderEvent.user_order_resting_claim v remaining) =
    apply_resting_claim ctx v remaining
apply_unknown ctx (OrderEvent.request_resubmit proven) = (
  (if proven
      then TransitionOutcome.rejected (
          RejectReason.not_applicable
            "core never emits resubmit; shell must open a new prepared attempt under proven venue-idempotency policy")
      else halt_with_reason HaltReason.unproven_idempotent_resubmit []),
  ctx,
)
apply_unknown ctx (OrderEvent.fill f) = apply_fill_dedup_only ctx f OrderState.submit_unknown
apply_unknown ctx (OrderEvent.close_submission reason) = (close_unknown ctx reason, ctx)
apply_unknown ctx event = (reject_illegal OrderState.submit_unknown event, ctx)
