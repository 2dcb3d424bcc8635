-- ===== src/Lifecycle/Unknown.antt =====
-- src/lifecycle.rs, lines 3358 to 3493: the backfill of a submission whose outcome is unknown.
use omsrs.Prelude.{
  none, some, List, [], ◌∷◌, ◌++◌, Bool, true, not, ◌&&◌, ltb, length, is_empty, same_text,
  if◌then◌else◌,
}
use omsrs.Prelude.Text.{concat}
use omsrs.Lifecycle.Types.{VenueOrderId, HaltReason, OrderState, FillRecord, BackfillOrderRecord}
use omsrs.Lifecycle.Events.{JournalRecord, Effect}
use omsrs.Lifecycle.Ctx.{ok, err, OrderCtx}
use omsrs.Lifecycle.Outcome.{accept, prepend_effects, halt_with_reason, halt_with_reason_state}
use omsrs.Lifecycle.Venue.{bind_venue_id, note_authority_complete, journal, push_journal}
use omsrs.Lifecycle.Redelivery.{AccountAttempt}
use omsrs.Lifecycle.Fills.{try_account_fill}
use omsrs.Lifecycle.Attribution.{Handled, Booked}
use omsrs.Lifecycle.Snapshot.{Snapshot, note_snapshot, route_from_backfill_status}
use omsrs.Lifecycle.Backfill.{backfill_member_quantities}

-- The loop over the fills of the matched order: each of them must name its parent.
unfoldable pub account_matched_fills :
    OrderCtx → VenueOrderId → List Effect → List FillRecord → Booked × OrderCtx
account_matched_fills ctx parent effects [] = (Booked.all_booked effects, ctx)
account_matched_fills ctx parent effects (f ∷ fs) = elim f.venue_order_id [
  | none ↦ (
    Booked.stopped (HaltReason.fill_ownership_mismatch f.fill_id parent "<missing>") effects,
    ctx,
  )
  | some _ ↦
      let (attempt, ctx') = try_account_fill ctx f in
      elim attempt [
        | AccountAttempt.no_op ↦ account_matched_fills ctx' parent effects fs
        | AccountAttempt.applied e ↦ account_matched_fills ctx' parent (effects ++ e) fs
        | AccountAttempt.enriched e ↦ account_matched_fills ctx' parent (effects ++ e) fs
        | AccountAttempt.halt reason e ↦ (Booked.stopped reason (effects ++ e), ctx')
      ]
]

abbrev pub snapshot_of : BackfillOrderRecord → Snapshot
snapshot_of r = record {
  venue_order_id = r.venue_order_id;
  status = r.status;
  filled_qty = r.filled_qty;
  remaining_qty = r.remaining_qty;
  other_members_filled = r.other_members_filled;
}

-- The latch after the fills, and the routing by status.
unfoldable pub route_matched : OrderCtx → BackfillOrderRecord → List Effect → Handled
route_matched ctx r effects =
    let (latched, ctx') = note_authority_complete ctx true in
    let (outcome, final_ctx) = route_from_backfill_status ctx' (snapshot_of r) [] true true in
    (prepend_effects (push_journal effects latched) outcome, final_ctx)

-- The latch before the fills, and the fills.
unfoldable pub book_matched : OrderCtx → BackfillOrderRecord → List Effect → Handled
book_matched ctx r effects =
    let (latched, latched_ctx) = note_authority_complete ctx true in
    let (booked, booked_ctx) =
      account_matched_fills latched_ctx r.venue_order_id (push_journal effects latched) r.fills in
    elim booked [
      | Booked.stopped reason es ↦ (halt_with_reason reason es, booked_ctx)
      | Booked.all_booked es ↦ route_matched booked_ctx r es
    ]

-- The one match of an exhaustive backfill.
unfoldable pub apply_unique_match : OrderCtx → BackfillOrderRecord → Handled
apply_unique_match ctx r =
    elim (backfill_member_quantities ctx r.filled_qty r.other_members_filled) [
      | err reason ↦ (halt_with_reason reason [], ctx)
      | ok (member_filled, _) ↦
          let (bound, bound_ctx) = bind_venue_id ctx r.venue_order_id in
          elim bound [
            | err reason ↦ (halt_with_reason reason [], bound_ctx)
            | ok bind_jr ↦
                let (noted, noted_ctx, recorded) =
                  note_snapshot bound_ctx (snapshot_of r) member_filled (journal bind_jr) in
                elim noted [
                  | err reason ↦ (halt_with_reason reason recorded, noted_ctx)
                  | ok effects ↦ book_matched noted_ctx r effects
                ]
          ]
    ]

-- The one candidate of a backfill that is not exhaustive is not booked.
abbrev pub buffered : OrderCtx → BackfillOrderRecord → List Effect
buffered ctx r =
    Effect.backfill_unknown ctx.client_order_id
    ∷ (if ltb 0 r.filled_qty && is_empty r.fills
        then Effect.backfill_fills r.venue_order_id ∷ []
        else [])

unfoldable pub apply_unknown_backfill : OrderCtx → Bool → List BackfillOrderRecord → Handled
apply_unknown_backfill ctx exhaustive [] =
    if exhaustive
    then (
      halt_with_reason_state OrderState.unknown_no_match HaltReason.unknown_no_match
          (Effect.append_fsync (JournalRecord.unknown_no_match_cid ctx.client_order_id) ∷ []),
      ctx,
    )
    else (accept OrderState.submit_unknown (Effect.backfill_unknown ctx.client_order_id ∷ []), ctx)
apply_unknown_backfill ctx exhaustive (r ∷ []) =
    if not (same_text r.client_order_id ctx.client_order_id)
    then (
      halt_with_reason
          (HaltReason.operator (
            concat (
              "backfill client_order_id mismatch: got " ∷ r.client_order_id ∷ ", expected "
              ∷ ctx.client_order_id ∷ [])))
          [],
      ctx,
    )
    else if not exhaustive
    then (accept OrderState.submit_unknown (buffered ctx r), ctx)
    else apply_unique_match ctx r
apply_unknown_backfill ctx exhaustive (r ∷ s ∷ rest) =
    (halt_with_reason (HaltReason.ambiguous_match (length (r ∷ s ∷ rest))) [], ctx)
