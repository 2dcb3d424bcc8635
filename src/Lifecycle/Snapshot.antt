-- ===== src/Lifecycle/Snapshot.antt =====
-- src/lifecycle.rs, lines 3513 to 3742: a venue snapshot is recorded, its fills are booked, and its
-- status routes the order.
use omsrs.Prelude.{ℕ, List, [], ◌∷◌, ◌++◌, Bool, false, not, ◌&&◌, ltb, ◌==◌, if◌then◌else◌}
use omsrs.Prelude.Text.{show, concat}
use omsrs.Lifecycle.Types.{
  VenueOrderId, HaltReason, ReconcileTerminal, FillRecord, BackfillOrderStatus,
}
use omsrs.Lifecycle.Events.{JournalRecord, Effect}
use omsrs.Lifecycle.Ctx.{Result, ok, err, OrderCtx, note_venue_remaining}
use omsrs.Lifecycle.Outcome.{TransitionOutcome, halt_with_reason}
use omsrs.Lifecycle.Venue.{
  bind_venue_id, note_fill_evidence, note_authority_complete, journal, push_journal,
}
use omsrs.Lifecycle.Finalize.{ProposedTerminal}
use omsrs.Lifecycle.Attribution.{Handled, Booked, account_fills}
use omsrs.Lifecycle.Backfill.{
  backfill_member_quantities, finalize_from_backfill, route_live_backfill,
}

-- More is attributed here than the venue reports for this member.
abbrev pub over_attribution : OrderCtx → ℕ → ℕ → ℕ → HaltReason
over_attribution ctx venue_filled_qty member_filled other_members_filled =
    HaltReason.cross_check_mismatch (
      if other_members_filled == 0
      then concat (
          "attributed_fill_qty="
          ∷ show ctx.attributed_fill_qty
          ∷ " > venue_filled_qty="
          ∷ show venue_filled_qty
          ∷ [])
      else concat (
          "attributed_fill_qty="
          ∷ show ctx.attributed_fill_qty
          ∷ " > member_filled_qty="
          ∷ show member_filled
          ∷ []))

-- A venue snapshot: raw quantities, and those of the wire's other members.
pub record Snapshot : Type 0 where
  pub venue_order_id : VenueOrderId
  pub status : BackfillOrderStatus
  pub filled_qty : ℕ
  pub remaining_qty : ℕ
  pub other_members_filled : ℕ

abbrev pub observed : Snapshot → Bool → ℕ → Effect
observed s shell_authority_complete epoch = Effect.append_fsync (
    JournalRecord.reconcile_observed s.venue_order_id s.filled_qty s.remaining_qty
      s.other_members_filled shell_authority_complete epoch)

-- The routing by status, after the snapshot is recorded and its fills are booked.
unfoldable pub route_by_status :
    OrderCtx → Snapshot → ℕ → ℕ → List Effect → Bool → Bool → TransitionOutcome
route_by_status ctx s member_filled member_capacity effects shell_authority_complete
      from_submit_unknown =
    elim s.status [
      | BackfillOrderStatus.canceled ↦
          finalize_from_backfill ctx ProposedTerminal.canceled s.venue_order_id effects
            ReconcileTerminal.canceled (from_submit_unknown && not shell_authority_complete)
      | BackfillOrderStatus.filled ↦
          finalize_from_backfill ctx (ProposedTerminal.filled s.filled_qty s.remaining_qty)
            s.venue_order_id effects ReconcileTerminal.filled
            (from_submit_unknown && not shell_authority_complete)
      | BackfillOrderStatus.open_order ↦
          route_live_backfill ctx s.venue_order_id s.remaining_qty member_filled member_capacity
            effects shell_authority_complete from_submit_unknown
      | BackfillOrderStatus.partial ↦
          route_live_backfill ctx s.venue_order_id s.remaining_qty member_filled member_capacity
            effects shell_authority_complete from_submit_unknown
    ]

-- The latch that the shell proves, and the closing record of the snapshot.
unfoldable pub latch_snapshot : OrderCtx → Snapshot → List Effect → Bool → List Effect × OrderCtx
latch_snapshot ctx s effects shell_authority_complete =
    let (latched, ctx') = note_authority_complete ctx shell_authority_complete in
    (
      push_journal effects latched
          ++ (if shell_authority_complete
              then observed s shell_authority_complete ctx'.authority_epoch ∷ []
              else []),
      ctx',
    )

-- The context and effects once the snapshot's parent, remaining and obligation are noted.
unfoldable pub note_snapshot :
    OrderCtx → Snapshot → ℕ → List Effect → Result (List Effect) × OrderCtx × List Effect
note_snapshot ctx s member_filled effects =
    let remaining_ctx = note_venue_remaining ctx s.remaining_qty in
    let recorded = effects ++ observed s false remaining_ctx.authority_epoch ∷ [] in
    let (noted, ctx') = note_fill_evidence remaining_ctx member_filled in
    elim noted [
      | err reason ↦ (err reason, ctx', recorded)
      | ok jr ↦ (ok (push_journal recorded jr), ctx', recorded)
    ]

unfoldable pub route_from_backfill_status :
    OrderCtx → Snapshot → List FillRecord → Bool → Bool → Handled
route_from_backfill_status ctx s extra_fills shell_authority_complete from_submit_unknown =
    elim (backfill_member_quantities ctx s.filled_qty s.other_members_filled) [
      | err reason ↦ (halt_with_reason reason [], ctx)
      | ok (member_filled, member_capacity) ↦
          let (bound, bound_ctx) = bind_venue_id ctx s.venue_order_id in
          elim bound [
            | err reason ↦ (halt_with_reason reason [], bound_ctx)
            | ok bind_jr ↦
                let (noted, noted_ctx, recorded) =
                  note_snapshot bound_ctx s member_filled (journal bind_jr) in
                elim noted [
                  | err reason ↦ (halt_with_reason reason recorded, noted_ctx)
                  | ok effects ↦
                      let (booked, booked_ctx) = account_fills noted_ctx effects extra_fills in
                      elim booked [
                        | Booked.stopped reason es ↦ (halt_with_reason reason es, booked_ctx)
                        | Booked.all_booked es ↦
                            let (latched, ctx') =
                              latch_snapshot booked_ctx s es shell_authority_complete in
                            (
                              (if ltb member_filled ctx'.attributed_fill_qty
                                  then halt_with_reason
                                      (over_attribution ctx' s.filled_qty member_filled
                                        s.other_members_filled)
                                      latched
                                  else route_by_status ctx' s member_filled member_capacity latched
                                      shell_authority_complete from_submit_unknown),
                              ctx',
                            )
                      ]
                ]
          ]
    ]
