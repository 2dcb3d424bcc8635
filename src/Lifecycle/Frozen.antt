-- ===== src/Lifecycle/Frozen.antt =====
-- src/lifecycle.rs, lines 1584 to 1697 and 4039 to 4061: frozen states, the closure of a submission,
-- and the own actions that only leave a record.
use omsrs.Prelude.{
  List, [], ◌∷◌, ◌++◌, Bool, true, false, not, ◌||◌, ltb, is_some, is_empty, if◌then◌else◌,
}
use omsrs.Prelude.Text.{concat}
use omsrs.Lifecycle.Types.{HaltReason, RejectReason, OrderState, SubmissionCloseReason, FillRecord}
use omsrs.Lifecycle.Events.{OrderEvent, OwnActionKind, JournalRecord, Effect}
use omsrs.Lifecycle.Ctx.{OrderCtx, ReservationHold, reservation_held}
use omsrs.Lifecycle.Outcome.{
  TransitionOutcome, accept, halt_with_reason, reject_illegal, state_name, event_name,
}
use omsrs.Lifecycle.Redelivery.{AccountAttempt}
use omsrs.Lifecycle.Fills.{try_account_fill}
use omsrs.Lifecycle.Attribution.{Handled}

unfoldable pub is_restart_frozen : OrderState → Bool
is_restart_frozen OrderState.filled = true
is_restart_frozen OrderState.canceled = true
is_restart_frozen OrderState.terminal = true
is_restart_frozen OrderState.immediate_fill_unresolved = true
is_restart_frozen OrderState.unknown_no_match = true
is_restart_frozen (OrderState.halted _) = true
is_restart_frozen (OrderState.submission_closed _) = true
is_restart_frozen _ = false

unfoldable pub submission_close_blocked : OrderCtx → Bool
submission_close_blocked ctx =
    is_some ctx.venue_order_id
    || not (is_empty ctx.applied_fills)
    || ltb 0 ctx.attributed_fill_qty
    || ltb 0 ctx.fill_obligation
    || is_some ctx.response_fill_count
    || is_some ctx.response_remaining_count
    || is_some ctx.response_avg_price_cents
    || is_some ctx.response_fee_cents
    || is_some ctx.response_snapshot_boundary
    || is_some ctx.last_venue_remaining_qty
    || ltb 0 ctx.attributed_notional_cents
    || ltb 0 ctx.attributed_fee_cents
    || ltb 0 ctx.response_domain_qty
    || ltb 0 ctx.response_domain_notional_cents
    || ltb 0 ctx.response_domain_fee_cents
    || ctx.authority_complete

unfoldable pub try_close_submission : OrderCtx → SubmissionCloseReason → TransitionOutcome
try_close_submission ctx reason =
    if submission_close_blocked ctx
    then TransitionOutcome.rejected (
        RejectReason.not_applicable
          "submission close contradiction: bound venue, fill evidence, obligation, or create-response present")
    else accept (OrderState.submission_closed reason) []

-- A released reservation is taken again.
abbrev pub reserve_again : OrderState → List Effect → List Effect
reserve_again state effects = elim (reservation_held state) [
  | ReservationHold.released ↦ effects ++ Effect.reserve_full ∷ []
  | ReservationHold.full ↦ effects
]

unfoldable pub late_fill : OrderState → OrderCtx → FillRecord → Handled
late_fill state ctx f =
    let (attempt, ctx') = try_account_fill ctx f in
    elim attempt [
      | AccountAttempt.no_op ↦ (accept state [], ctx')
      | AccountAttempt.halt reason effects ↦
          (halt_with_reason reason (reserve_again state effects), ctx')
      | AccountAttempt.enriched effects ↦ (accept state effects, ctx')
      | AccountAttempt.applied effects ↦
          (halt_with_reason HaltReason.post_terminal_fill (reserve_again state effects), ctx')
    ]

-- The text quotes the state's name, as `{:?}` does.
ignored : OrderState → OrderEvent → TransitionOutcome
ignored state event = TransitionOutcome.rejected (
    RejectReason.not_applicable (
      concat (
        "restart-safe: state \"" ∷ state_name state ∷ "\" ignores event " ∷ event_name event ∷ [])))

unfoldable pub restart_safe_handle : OrderState → OrderCtx → OrderEvent → Handled
unfolding late_fill ignored
restart_safe_handle state ctx (OrderEvent.decrease_observed _ _) = (accept state [], ctx)
restart_safe_handle state ctx OrderEvent.amend_observed = (accept state [], ctx)
restart_safe_handle state ctx (OrderEvent.fill f) = late_fill state ctx f
restart_safe_handle state ctx event = (ignored state event, ctx)

abbrev own_action : OrderState → OrderCtx → OwnActionKind → TransitionOutcome
own_action state ctx kind =
    accept state (Effect.append_fsync (JournalRecord.own_action_cid ctx.client_order_id kind) ∷ [])

unfoldable pub own_action_accept : OrderState → OrderCtx → OrderEvent → TransitionOutcome
own_action_accept state ctx (OrderEvent.decrease_observed remaining ts_ms) =
    own_action state ctx (OwnActionKind.decrease remaining ts_ms)
own_action_accept state ctx OrderEvent.amend_observed = own_action state ctx OwnActionKind.amend
own_action_accept state ctx event = reject_illegal state event
