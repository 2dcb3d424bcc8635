-- ===== src/Lifecycle/Fills.antt =====
-- src/lifecycle.rs, lines 1849 to 2237: the accounting of one fill. `account_fill_core` is cut at its
-- three parts: the ownership test, the redelivery of a known fill, and the booking of a new one.
use omsrs.Prelude.{
  ℕ, ◌*◌, Option, none, some, List, [], ◌∷◌, ◌++◌, Bool, true, false, ltb, is_some, unwrap_or,
  same_text, if◌then◌else◌,
}
use omsrs.Prelude.Words.{checked_add, saturating_add_u128}
use omsrs.BTreeMap.{lookup, insert}
use omsrs.Lifecycle.Types.{HaltReason, FillRecord}
use omsrs.Lifecycle.Events.{JournalRecord, Effect, fill_journal_record}
use omsrs.Lifecycle.Ctx.{ok, err, OrderCtx, invalidate_authority, raise_fill_obligation}
use omsrs.Lifecycle.Venue.{restore_fill_obligation}
use omsrs.Lifecycle.Domain.{response_domain_overfill_detail, accumulate_response_domain}
use omsrs.Lifecycle.Redelivery.{AccountAttempt, new_payload, redeliver_fill}

-- A new fill of an order whose parent is known must name that parent.
unfoldable pub ownership_halt : OrderCtx → FillRecord → Option HaltReason
ownership_halt ctx f = elim ctx.venue_order_id [
  | none ↦ none
  | some expected ↦
      if is_some (lookup f.fill_id ctx.applied_fills) then none else elim f.venue_order_id [
        | some got ↦
            if same_text got expected
            then none
            else some (HaltReason.fill_ownership_mismatch f.fill_id expected got)
        | none ↦ some (HaltReason.fill_ownership_mismatch f.fill_id expected "<missing>")
      ]
]

-- The context once a new fill is stored, before its obligation is raised.
unfoldable pub store_fill : OrderCtx → FillRecord → ℕ → ℕ → OrderCtx
store_fill ctx f new_attr new_fee_total = record ctx {
  applied_fills = insert f.fill_id (new_payload f) ctx.applied_fills;
  attributed_fill_qty = new_attr;
  attributed_notional_cents =
      saturating_add_u128 ctx.attributed_notional_cents (f.qty * f.price_cents);
  attributed_fee_cents = new_fee_total;
}

-- The durable record of a fill, and its booking.
unfoldable pub fill_effects : OrderCtx → FillRecord → List Effect
fill_effects ctx f =
    Effect.append_fsync (
      fill_journal_record ctx.client_order_id f.fill_id f.qty f.price_cents f.ts_ns f.fee_cents
        f.venue_order_id)
    ∷ Effect.account_fill f.fill_id f.qty f.price_cents f.ts_ns (unwrap_or f.fee_cents 0)
    ∷ []

unfoldable pub accumulate_fill : OrderCtx → FillRecord → OrderCtx
accumulate_fill ctx f = accumulate_response_domain ctx f.qty f.price_cents f.fee_cents f.ts_ns

-- A stored fill on the live path.
unfoldable pub admit_fill : OrderCtx → FillRecord → ℕ → AccountAttempt × OrderCtx
admit_fill ctx f new_attr =
    let ctx' = invalidate_authority ctx in
    let invalidated : List Effect =
      Effect.append_fsync (JournalRecord.authority_invalidated ctx'.authority_epoch) ∷ [] in
    let (raised, raised_ctx) = raise_fill_obligation ctx' new_attr in
    elim raised [
      | err reason ↦
          (AccountAttempt.halt reason (invalidated ++ fill_effects raised_ctx f), raised_ctx)
      | ok _ ↦
          let effects =
            invalidated
            ++ (if ltb ctx'.fill_obligation raised_ctx.fill_obligation
                then Effect.append_fsync (
                    JournalRecord.obligation_raised raised_ctx.fill_obligation
                      raised_ctx.authority_epoch)
                  ∷ []
                else [])
            ++ fill_effects raised_ctx f in
          let final_ctx = accumulate_fill raised_ctx f in
          elim (response_domain_overfill_detail final_ctx) [
            | some detail ↦
                (AccountAttempt.halt (HaltReason.cross_check_mismatch detail) effects, final_ctx)
            | none ↦ (AccountAttempt.applied effects, final_ctx)
          ]
    ]

-- A stored fill in the fold of a journal.
unfoldable pub restore_fill : OrderCtx → FillRecord → ℕ → AccountAttempt × OrderCtx
restore_fill ctx f new_attr =
    let (restored, ctx') = restore_fill_obligation ctx new_attr in
    elim restored [
      | err reason ↦ (AccountAttempt.halt reason [], ctx')
      | ok _ ↦ (AccountAttempt.applied [], accumulate_fill ctx' f)
    ]

-- A fill whose id is new.
unfoldable pub book_fill : OrderCtx → FillRecord → Bool → AccountAttempt × OrderCtx
book_fill ctx f restore_mode =
    let over = HaltReason.over_fill ctx.attributed_fill_qty f.qty ctx.qty in
    elim (checked_add ctx.attributed_fill_qty f.qty) [
      | none ↦ (AccountAttempt.halt over [], ctx)
      | some new_attr ↦
          if ltb ctx.qty new_attr
          then (AccountAttempt.halt over [], ctx)
          else elim (checked_add ctx.attributed_fee_cents (unwrap_or f.fee_cents 0)) [
            | none ↦ (AccountAttempt.halt (HaltReason.fee_overflow f.fill_id) [], ctx)
            | some new_fee_total ↦
                if restore_mode
                then restore_fill (store_fill ctx f new_attr new_fee_total) f new_attr
                else admit_fill (store_fill ctx f new_attr new_fee_total) f new_attr
          ]
    ]

unfoldable pub account_fill_core : OrderCtx → FillRecord → Bool → AccountAttempt × OrderCtx
account_fill_core ctx f restore_mode = elim (ownership_halt ctx f) [
  | some reason ↦ (AccountAttempt.halt reason [], ctx)
  | none ↦ elim (lookup f.fill_id ctx.applied_fills) [
    | some prev ↦ redeliver_fill ctx f prev
    | none ↦ book_fill ctx f restore_mode
  ]
]

-- `try_account_fill`, `try_account_fill_record` and `try_account_fill_owned` are this call.
unfoldable pub try_account_fill : OrderCtx → FillRecord → AccountAttempt × OrderCtx
try_account_fill ctx f = account_fill_core ctx f false

unfoldable pub try_account_fill_for_fold : OrderCtx → FillRecord → AccountAttempt × OrderCtx
try_account_fill_for_fold ctx f = account_fill_core ctx f true
