-- ===== src/Lifecycle/Rebuild.antt =====
-- src/lifecycle.rs, lines 4063 to 4291: the fold of journal records into a context after a crash.
-- The first error ends the fold.
use omsrs.Prelude.{
  ℕ, max, Option, none, some, List, [], ◌∷◌, Bool, true, false, ltb, is_none, if◌then◌else◌,
}
use omsrs.Prelude.Words.{checked_add}
use omsrs.BTreeMap.{lookup, insert}
use omsrs.Lifecycle.Types.{VenueOrderId, FillId, HaltReason, FillRecord, SnapshotBoundary}
use omsrs.Lifecycle.Events.{JournalRecord}
use omsrs.Lifecycle.Ctx.{
  Result, ok, err, OrderCtx, invalidate_authority, latch_authority_complete, note_venue_remaining,
}
use omsrs.Lifecycle.Venue.{bind_venue_id, restore_fill_obligation}
use omsrs.Lifecycle.Domain.{recompute_response_domain}
use omsrs.Lifecycle.Redelivery.{AccountAttempt}
use omsrs.Lifecycle.Fills.{try_account_fill_for_fold}
use omsrs.Lifecycle.Backfill.{backfill_member_quantities}

-- `?`: a failed step returns its reason, and the context is dropped.
infixl 5 ◌>>=◌
abbrev pub ◌>>=◌ {ℓ κ} : {A : Type ℓ} {B : Type κ} → Result A → (A → Result B) → Result B
ok a >>= k = k a
err reason >>= k = err reason

-- A step that changes the context in place.
abbrev pub changed {ℓ} : {A : Type ℓ} → Result A × OrderCtx → Result OrderCtx
changed (ok _, ctx) = ok ctx
changed (err reason, ctx) = err reason

abbrev fold_bind : OrderCtx → VenueOrderId → Result OrderCtx
fold_bind ctx v = changed (bind_venue_id ctx v)

abbrev fold_obligation : OrderCtx → ℕ → Result OrderCtx
fold_obligation ctx evidence = changed (restore_fill_obligation ctx evidence)

abbrev noted_response : OrderCtx → ℕ → ℕ → Option ℕ → Option ℕ → Option SnapshotBoundary → OrderCtx
noted_response ctx fill_count remaining_count avg fee boundary = record ctx {
  response_fill_count = some fill_count;
  response_remaining_count = some remaining_count;
  response_avg_price_cents = avg;
  response_fee_cents = fee;
  response_snapshot_boundary = boundary;
}

fold_response :
    OrderCtx
    → VenueOrderId
    → ℕ
    → ℕ
    → Option ℕ
    → Option ℕ
    → Option SnapshotBoundary
    → Result OrderCtx
fold_response ctx v fill_count remaining_count avg fee boundary = do
  bound ← fold_bind ctx v
  let noted = note_venue_remaining bound remaining_count
  if ltb 0 fill_count
      then (do
        restored ←
            fold_obligation (noted_response noted fill_count remaining_count avg fee boundary)
              fill_count
        ok (recompute_response_domain restored))
      else ok noted

fold_unattributed : OrderCtx → VenueOrderId → ℕ → ℕ → Option ℕ → Option ℕ → Result OrderCtx
fold_unattributed ctx v fill_count remaining_count avg fee = do
  bound ← fold_bind ctx v
  let noted =
      noted_response bound fill_count remaining_count avg fee bound.response_snapshot_boundary
  fold_obligation (note_venue_remaining noted remaining_count) fill_count

-- Only a halt of the accounting is an error.
unfoldable pub fold_fill : OrderCtx → FillRecord → Result OrderCtx
fold_fill ctx f =
    let (attempt, ctx') = try_account_fill_for_fold ctx f in
    elim attempt [ AccountAttempt.halt reason _ ↦ err reason | _ ↦ ok ctx' ]

fold_fee_correction : OrderCtx → FillId → ℕ → Result OrderCtx
fold_fee_correction ctx fill_id delta = elim (lookup fill_id ctx.applied_fills) [
  | none ↦ ok ctx
  | some p ↦
      if is_none p.fee
      then elim (checked_add ctx.attributed_fee_cents delta) [
        | none ↦ err (HaltReason.fee_overflow fill_id)
        | some total ↦ ok (record ctx {
          attributed_fee_cents = total;
          applied_fills = insert fill_id (record p { fee = some delta }) ctx.applied_fills;
        })
      ]
      else ok ctx
]

abbrev fold_cancel : OrderCtx → OrderCtx
fold_cancel ctx = if ctx.authority_complete then invalidate_authority ctx else ctx

-- A raise with a lag clears the authority.
abbrev clear_if_lagging : OrderCtx → OrderCtx
clear_if_lagging ctx =
    if ltb ctx.attributed_fill_qty ctx.fill_obligation
    then record ctx { authority_complete = false }
    else ctx

abbrev raise_epoch : OrderCtx → ℕ → OrderCtx
raise_epoch ctx epoch = record ctx { authority_epoch = max epoch ctx.authority_epoch }

fold_obligation_raised : OrderCtx → ℕ → ℕ → Result OrderCtx
fold_obligation_raised ctx fill_obligation epoch = do
  restored ← fold_obligation ctx fill_obligation
  ok (clear_if_lagging (raise_epoch restored epoch))

fold_reconcile_observed : OrderCtx → VenueOrderId → ℕ → ℕ → ℕ → Bool → ℕ → Result OrderCtx
fold_reconcile_observed ctx v venue_filled venue_remaining other_members complete epoch = do
  bound ← fold_bind ctx v
  let noted = raise_epoch (note_venue_remaining bound venue_remaining) epoch
  quantities ← backfill_member_quantities noted venue_filled other_members
  if ltb noted.qty quantities.0 then ok noted else (do
    restored ← fold_obligation noted quantities.0
    ok (if complete then latch_authority_complete restored else clear_if_lagging restored))

abbrev fold_bind_option : OrderCtx → Option VenueOrderId → Result OrderCtx
fold_bind_option ctx none = ok ctx
fold_bind_option ctx (some v) = fold_bind ctx v

fold_terminal : OrderCtx → Option VenueOrderId → ℕ → Bool → ℕ → ℕ → ℕ → Result OrderCtx
fold_terminal ctx v obligation complete epoch attributed fees = do
  bound ← fold_bind_option ctx v
  restored ← fold_obligation bound obligation
  let raised = raise_epoch restored epoch
  ok (record raised {
    authority_complete = if complete then true else raised.authority_complete;
    authority_latched_epoch = if complete then epoch else raised.authority_latched_epoch;
    attributed_fill_qty = max attributed raised.attributed_fill_qty;
    attributed_fee_cents = max fees raised.attributed_fee_cents;
  })

unfoldable pub fold_record : OrderCtx → JournalRecord → Result OrderCtx
unfolding fold_response fold_unattributed fold_fee_correction fold_obligation_raised
    fold_reconcile_observed fold_terminal
fold_record ctx (JournalRecord.submit_prepared client_order_id) =
    ok (record ctx { client_order_id = client_order_id })
fold_record ctx (JournalRecord.submit_response v fill_count remaining_count avg fee boundary) =
    fold_response ctx v fill_count remaining_count avg fee boundary
fold_record ctx (JournalRecord.fill fill_id qty price_cents ts_ns fee venue) =
    fold_fill ctx (record {
      fill_id = fill_id;
      qty = qty;
      price_cents = price_cents;
      ts_ns = ts_ns;
      venue_order_id = venue;
      fee_cents = fee;
    })
fold_record ctx (JournalRecord.fill_cid _ fill_id qty price_cents ts_ns fee venue) =
    fold_fill ctx (record {
      fill_id = fill_id;
      qty = qty;
      price_cents = price_cents;
      ts_ns = ts_ns;
      venue_order_id = venue;
      fee_cents = fee;
    })
fold_record ctx (JournalRecord.fee_correction fill_id delta) = fold_fee_correction ctx fill_id delta
fold_record ctx JournalRecord.cancel_requested = ok (fold_cancel ctx)
fold_record ctx (JournalRecord.cancel_outcome _) = ok (fold_cancel ctx)
fold_record ctx (JournalRecord.cancel_requested_cid _) = ok (fold_cancel ctx)
fold_record ctx (JournalRecord.cancel_outcome_cid _ _) = ok (fold_cancel ctx)
fold_record ctx (JournalRecord.immediate_fill_unattributed v fill_count remaining_count avg fee) =
    fold_unattributed ctx v fill_count remaining_count avg fee
fold_record ctx (JournalRecord.venue_bound v) = fold_bind ctx v
fold_record ctx (JournalRecord.venue_bound_cid _ v) = fold_bind ctx v
fold_record ctx (JournalRecord.obligation_raised fill_obligation epoch) =
    fold_obligation_raised ctx fill_obligation epoch
fold_record ctx (JournalRecord.authority_latched epoch) = ok (record ctx {
  authority_epoch = max epoch ctx.authority_epoch;
  authority_complete = true;
  authority_latched_epoch = epoch;
})
fold_record ctx (JournalRecord.authority_invalidated epoch) =
    ok (record ctx { authority_epoch = max epoch ctx.authority_epoch; authority_complete = false })
fold_record ctx
      (JournalRecord.reconcile_observed v venue_filled venue_remaining other_members complete
        epoch) =
    fold_reconcile_observed ctx v venue_filled venue_remaining other_members complete epoch
fold_record ctx (JournalRecord.order_terminal _ v obligation complete epoch attributed fees) =
    fold_terminal ctx v obligation complete epoch attributed fees
fold_record ctx _ = ok ctx

unfoldable pub rebuild_ctx_from_journal : OrderCtx → List JournalRecord → Result OrderCtx
rebuild_ctx_from_journal ctx [] = ok ctx
rebuild_ctx_from_journal ctx (rec ∷ recs) = elim (fold_record ctx rec) [
  | ok ctx' ↦ rebuild_ctx_from_journal ctx' recs
  | err reason ↦ err reason
]
