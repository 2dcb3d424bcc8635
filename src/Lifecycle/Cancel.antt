-- ===== src/Lifecycle/Cancel.antt =====
-- src/lifecycle.rs, lines 3814 to 3952: the seven outcomes of a cancel.
use omsrs.Prelude.{
  ℕ, max, Option, none, some, List, [], ◌∷◌, ◌++◌, ltb, ◌==◌, ◌&&◌, or_option, if◌then◌else◌,
}
use omsrs.Lifecycle.Types.{
  VenueOrderId, OrderState, ReconcileTerminal, ReconcileTarget, CancelOutcome,
}
use omsrs.Lifecycle.Events.{JournalRecord, Effect}
use omsrs.Lifecycle.Ctx.{
  Result, ok, err, OrderCtx, raise_fill_obligation, note_venue_remaining, remaining_qty,
}
use omsrs.Lifecycle.Outcome.{TransitionOutcome, accept, halt_with_reason}
use omsrs.Lifecycle.Venue.{
  bind_venue_id, note_fill_evidence, authority_invalidate_effects, push_journal,
}
use omsrs.Lifecycle.Finalize.{ProposedTerminal, try_finalize_terminal}
use omsrs.Lifecycle.Attribution.{Handled}
use omsrs.Lifecycle.Response.{raise_records}

-- A result of one of the steps below, with the effects so far: those of a failed step stand too.
abbrev pub Noted : Type 0
Noted = Result (List Effect) × OrderCtx

-- The fill count that the state carries is an obligation.
unfoldable pub note_response_count : OrderCtx → Option ℕ → List Effect → Noted
note_response_count ctx none effects = (ok effects, ctx)
note_response_count ctx (some rc) effects =
    let noted = record ctx { response_fill_count = or_option ctx.response_fill_count (some rc) } in
    let (raised, ctx') = raise_fill_obligation noted rc in
    elim raised [
      | err reason ↦ (err reason, ctx')
      | ok _ ↦ (ok (effects ++ raise_records noted ctx'), ctx')
    ]

unfoldable pub keep_averages : OrderCtx → Option ℕ → Option ℕ → OrderCtx
keep_averages ctx avg fee = record ctx {
  response_avg_price_cents = or_option ctx.response_avg_price_cents avg;
  response_fee_cents = or_option ctx.response_fee_cents fee;
}

abbrev pub note_target_remaining : OrderCtx → Option ℕ → OrderCtx
note_target_remaining ctx none = ctx
note_target_remaining ctx (some r) = note_venue_remaining ctx r

-- So is the quantity of a known target.
unfoldable pub note_target : OrderCtx → Option ReconcileTarget → List Effect → Noted
note_target ctx none effects = (ok effects, ctx)
note_target ctx (some t) effects =
    let (noted, ctx') = note_fill_evidence ctx t.venue_filled_qty in
    elim noted [
      | err reason ↦ (err reason, ctx')
      | ok jr ↦ (ok (push_journal effects jr), note_target_remaining ctx' t.venue_remaining_qty)
    ]

-- The routing of the outcome, once its evidence is noted.
unfoldable pub route_cancel_outcome :
    OrderCtx
    → VenueOrderId
    → ℕ
    → ℕ
    → Option ReconcileTarget
    → List Effect
    → CancelOutcome
    → TransitionOutcome
route_cancel_outcome ctx v filled_qty remaining target effects CancelOutcome.canceled =
    try_finalize_terminal ctx ProposedTerminal.canceled v effects ReconcileTerminal.canceled
route_cancel_outcome ctx v filled_qty remaining target effects CancelOutcome.already_terminal =
    try_finalize_terminal ctx ProposedTerminal.terminal v effects
      (if ltb 0 ctx.fill_obligation then ReconcileTerminal.filled else ReconcileTerminal.canceled)
route_cancel_outcome ctx v filled_qty remaining target effects CancelOutcome.accepted =
    accept
      (OrderState.cancel_pending v filled_qty remaining ctx.response_fill_count
        ctx.response_avg_price_cents ctx.response_fee_cents target)
      effects
route_cancel_outcome ctx v filled_qty remaining target effects CancelOutcome.rejected =
    if filled_qty == 0 && ctx.attributed_fill_qty == 0
    then accept (OrderState.accepted v) effects
    else accept (OrderState.partial v (max ctx.attributed_fill_qty filled_qty) (remaining_qty ctx))
        effects
route_cancel_outcome ctx v filled_qty remaining target effects _ =
    accept
      (OrderState.cancel_pending v filled_qty remaining ctx.response_fill_count
        ctx.response_avg_price_cents ctx.response_fee_cents target)
      (effects ++ Effect.reconcile_cancel (some v) ∷ [])

-- The evidence behind the first two records, up to the bind of the parent.
unfoldable pub note_cancel_evidence :
    OrderCtx
    → VenueOrderId
    → Option ℕ
    → Option ℕ
    → Option ℕ
    → Option ReconcileTarget
    → List Effect
    → Noted × List Effect
note_cancel_evidence ctx v response_count avg fee target effects =
    let (counted, counted_ctx) = note_response_count ctx response_count effects in
    elim counted [
      | err reason ↦ ((err reason, counted_ctx), effects)
      | ok counted_effects ↦
          let (targeted, target_ctx) =
            note_target (keep_averages counted_ctx avg fee) target counted_effects in
          elim targeted [
            | err reason ↦ ((err reason, target_ctx), counted_effects)
            | ok target_effects ↦
                let (bound, bound_ctx) = bind_venue_id target_ctx v in
                elim bound [
                  | err reason ↦ ((err reason, bound_ctx), target_effects)
                  | ok jr ↦ ((ok (push_journal target_effects jr), bound_ctx), target_effects)
                ]
          ]
    ]

unfoldable pub apply_cancel_outcome :
    OrderCtx
    → VenueOrderId
    → ℕ
    → ℕ
    → Option ℕ
    → Option ℕ
    → Option ℕ
    → Option ReconcileTarget
    → CancelOutcome
    → Handled
apply_cancel_outcome ctx v filled_qty remaining response_count avg fee target outcome =
    let (invalidated, started_ctx) = authority_invalidate_effects ctx in
    let started =
      invalidated
      ++ Effect.append_fsync (JournalRecord.cancel_outcome_cid ctx.client_order_id outcome) ∷ [] in
    let (noted, before_halt) =
      note_cancel_evidence started_ctx v response_count avg fee target started in
    elim noted.0 [
      | err reason ↦ (halt_with_reason reason before_halt, noted.1)
      | ok effects ↦
          (route_cancel_outcome noted.1 v filled_qty remaining target effects outcome, noted.1)
    ]
