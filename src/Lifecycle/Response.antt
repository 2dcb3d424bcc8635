-- ===== src/Lifecycle/Response.antt =====
-- src/lifecycle.rs, lines 2677 to 2878: the create response, and the page of fills that backs it.
use omsrs.Prelude.{ℕ, Option, none, some, List, [], ◌∷◌, ◌++◌, ltb, ◌==◌, ◌!=◌, if◌then◌else◌}
use omsrs.Prelude.Text.{show, concat}
use omsrs.Lifecycle.Types.{
  VenueOrderId, HaltReason, OrderState, ReconcileTerminal, SnapshotBoundary, FillRecord,
}
use omsrs.Lifecycle.Events.{OrderEvent, JournalRecord, Effect}
use omsrs.Lifecycle.Ctx.{ok, err, OrderCtx, raise_fill_obligation, note_venue_remaining}
use omsrs.Lifecycle.Outcome.{accept, halt_with_reason, reject_illegal}
use omsrs.Lifecycle.Venue.{bind_venue_id, journal, push_journal}
use omsrs.Lifecycle.Domain.{response_domain_overfill_detail, recompute_response_domain}
use omsrs.Lifecycle.Finalize.{ProposedTerminal}
use omsrs.Lifecycle.Attribution.{
  Handled, Booked, account_fills, latch_and_finalize, route_live_or_filled, resolve_unattributed,
}

-- A response with `fill_count == 0`.
unfoldable pub zero_fill_response : OrderCtx → VenueOrderId → ℕ → List Effect → Handled
zero_fill_response ctx venue_order_id remaining_count effects =
    if ctx.attributed_fill_qty != 0
    then (if remaining_count == ctx.qty then route_live_or_filled ctx venue_order_id effects else (
      halt_with_reason
          (HaltReason.response_zero_but_local_fills ctx.attributed_fill_qty remaining_count)
          effects,
      ctx,
    ))
    else if remaining_count != ctx.qty
    then (if remaining_count == 0
        then latch_and_finalize ctx ProposedTerminal.canceled venue_order_id effects
            ReconcileTerminal.canceled
        else (
          halt_with_reason
              (HaltReason.cross_check_mismatch (
                concat (
                  "fill_count=0 remaining_count="
                  ∷ show remaining_count
                  ∷ " != order_qty="
                  ∷ show ctx.qty
                  ∷ [])))
              effects,
          ctx,
        ))
    else (accept (OrderState.accepted venue_order_id) effects, ctx)

-- The records of a raise of the obligation, and of the generation that it ends.
abbrev pub raise_records : OrderCtx → OrderCtx → List Effect
raise_records before after =
    (if ltb before.fill_obligation after.fill_obligation
      then Effect.append_fsync
          (JournalRecord.obligation_raised after.fill_obligation after.authority_epoch)
        ∷ []
      else [])
    ++ (if after.authority_epoch != before.authority_epoch
        then Effect.append_fsync (JournalRecord.authority_invalidated after.authority_epoch) ∷ []
        else [])

-- The snapshot of a response that claims fills.
abbrev pub noted_claim : OrderCtx → ℕ → ℕ → Option ℕ → Option ℕ → Option SnapshotBoundary → OrderCtx
noted_claim ctx fill_count remaining_count avg fee boundary = record ctx {
  response_fill_count = some fill_count;
  response_remaining_count = some remaining_count;
  response_avg_price_cents = avg;
  response_fee_cents = fee;
  response_snapshot_boundary = boundary;
}

-- A response that claims fills: nothing is booked from it.
unfoldable pub claimed_fill_response :
    OrderCtx
    → VenueOrderId
    → ℕ
    → ℕ
    → Option ℕ
    → Option ℕ
    → Option SnapshotBoundary
    → List Effect
    → Handled
claimed_fill_response ctx venue_order_id fill_count remaining_count avg fee boundary effects =
    let noted = noted_claim ctx fill_count remaining_count avg fee boundary in
    let (raised, raised_ctx) = raise_fill_obligation noted fill_count in
    elim raised [
      | err reason ↦ (halt_with_reason reason effects, raised_ctx)
      | ok _ ↦
          let recorded = effects ++ raise_records noted raised_ctx in
          let ctx' = recompute_response_domain raised_ctx in
          elim (response_domain_overfill_detail ctx') [
            | some detail ↦
                (halt_with_reason (HaltReason.cross_check_mismatch detail) recorded, ctx')
            | none ↦
                let entered =
                  recorded
                  ++ Effect.append_fsync (
                      JournalRecord.immediate_fill_unattributed venue_order_id fill_count
                        remaining_count avg fee)
                    ∷ Effect.backfill_fills venue_order_id
                    ∷ [] in
                let unattributed =
                  OrderState.immediate_fill_unattributed venue_order_id fill_count remaining_count
                    avg fee in
                if ltb 0 ctx'.attributed_fill_qty
                then resolve_unattributed ctx' unattributed [] entered
                else (accept unattributed entered, ctx')
          ]
    ]

unfoldable pub apply_submit_response :
    OrderCtx → VenueOrderId → ℕ → ℕ → Option ℕ → Option ℕ → Option SnapshotBoundary → Handled
apply_submit_response ctx venue_order_id fill_count remaining_count avg fee boundary =
    let responded : List Effect =
      Effect.append_fsync
        (JournalRecord.submit_response venue_order_id fill_count remaining_count avg fee boundary)
      ∷ [] in
    let (bound, bound_ctx) = bind_venue_id ctx venue_order_id in
    elim bound [
      | err reason ↦ (halt_with_reason reason responded, bound_ctx)
      | ok bind_jr ↦
          let effects = push_journal responded bind_jr in
          let ctx' = note_venue_remaining bound_ctx remaining_count in
          if fill_count == 0
          then zero_fill_response ctx' venue_order_id remaining_count effects
          else claimed_fill_response ctx' venue_order_id fill_count remaining_count avg fee boundary
              effects
    ]

-- The fills of a page, then the check against the response.
unfoldable pub apply_immediate_fill_backfill : OrderCtx → OrderState → List FillRecord → Handled
apply_immediate_fill_backfill ctx
      (OrderState.immediate_fill_unattributed venue_order_id fill_count remaining_count avg fee)
      fills =
    let (bound, bound_ctx) = bind_venue_id ctx venue_order_id in
    elim bound [
      | err reason ↦ (halt_with_reason reason [], bound_ctx)
      | ok bind_jr ↦
          let (booked, ctx') = account_fills bound_ctx (journal bind_jr) fills in
          elim booked [
            | Booked.stopped reason effects ↦ (halt_with_reason reason effects, ctx')
            | Booked.all_booked effects ↦
                resolve_unattributed ctx'
                  (OrderState.immediate_fill_unattributed venue_order_id fill_count remaining_count
                    avg fee)
                  effects []
          ]
    ]
apply_immediate_fill_backfill ctx state fills =
    (reject_illegal state (OrderEvent.immediate_fill_backfill_result fills), ctx)
