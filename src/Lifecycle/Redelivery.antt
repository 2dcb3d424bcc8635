-- ===== src/Lifecycle/Redelivery.antt =====
-- src/lifecycle.rs, lines 1831 to 2103: the outcome of accounting a fill, and the redelivery of a
-- fill whose id is booked. The arguments that the source passes for a fill are the fields of a
-- `FillRecord`.
use omsrs.Prelude.{
  ◌≡◌, refl, ◌⊎◌, inl, inr, ℕ, Option, none, some, List, [], ◌∷◌, Bool, true, false, not, ◌&&◌,
  ◌||◌, ◌==◌, ◌!=◌, is_some, same_option, same_text, if◌then◌else◌,
}
use omsrs.Prelude.Int.{eqb_ℤ}
use omsrs.Prelude.Words.{checked_add, saturating_add}
use omsrs.BTreeMap.{insert}
use omsrs.Lifecycle.Types.{VenueOrderId, HaltReason, FillPayload, FillRecord}
use omsrs.Lifecycle.Events.{JournalRecord, Effect, fill_journal_record}
use omsrs.Lifecycle.Ctx.{Result, ok, err, OrderCtx}
use omsrs.Lifecycle.Domain.{fill_in_response_domain}

pub data AccountAttempt : Type 0 where
  no_op : AccountAttempt
  applied : (effects : List Effect) → AccountAttempt
  enriched : (effects : List Effect) → AccountAttempt
  halt : (reason : HaltReason) (effects : List Effect) → AccountAttempt

pub AccountAttempt-cases :
    (a : AccountAttempt)
    → ((a ≡ AccountAttempt.no_op) ⊎ ((es : List Effect) × (a ≡ AccountAttempt.applied es)))
      ⊎ (((es : List Effect) × (a ≡ AccountAttempt.enriched es))
          ⊎ ((reason : HaltReason) × (es : List Effect) × (a ≡ AccountAttempt.halt reason es)))
AccountAttempt-cases AccountAttempt.no_op = inl (inl refl)
AccountAttempt-cases (AccountAttempt.applied es) = inl (inr (es, refl))
AccountAttempt-cases (AccountAttempt.enriched es) = inr (inl (es, refl))
AccountAttempt-cases (AccountAttempt.halt reason es) = inr (inr (reason, es, refl))

unfoldable pub new_payload : FillRecord → FillPayload
new_payload f = record {
  qty = f.qty;
  price_cents = f.price_cents;
  fee = f.fee_cents;
  venue_order_id = f.venue_order_id;
  ts_ns = f.ts_ns;
}

unfoldable pub same_number : Option ℕ → Option ℕ → Bool
same_number = same_option ◌==◌

unfoldable pub same_venue : Option VenueOrderId → Option VenueOrderId → Bool
same_venue = same_option same_text

-- The derived equality of payloads.
unfoldable pub same_payload : FillPayload → FillPayload → Bool
same_payload a b =
    a.qty == b.qty
    && a.price_cents == b.price_cents
    && same_number a.fee b.fee
    && same_venue a.venue_order_id b.venue_order_id
    && eqb_ℤ a.ts_ns b.ts_ns

-- The provenance of a known fill after a redelivery, and whether it changed.
unfoldable pub upgrade_venue :
    Option VenueOrderId → FillRecord → Option VenueOrderId → Result (Option VenueOrderId × Bool)
upgrade_venue bound f none = elim f.venue_order_id [
  | none ↦ ok (none, false)
  | some v ↦ elim bound [
    | none ↦ ok (some v, true)
    | some b ↦
        if same_text v b
        then ok (some v, true)
        else err (HaltReason.fill_ownership_mismatch f.fill_id b v)
  ]
]
upgrade_venue bound f (some old) = elim f.venue_order_id [
  | none ↦ err (HaltReason.conflicting_fill_payload f.fill_id)
  | some new_v ↦
      if same_text old new_v
      then ok (some old, false)
      else err (HaltReason.conflicting_fill_payload f.fill_id)
]

-- What a fee that arrives for a known fill does.
pub record FeeUpgrade : Type 0 where
  pub ctx : OrderCtx
  pub fee : Option ℕ
  pub effects : List Effect
  pub changed : Bool

-- The context with a late fee added, also to the response domain if the fill stands in it.
unfoldable pub add_late_fee : OrderCtx → FillPayload → ℕ → ℕ → OrderCtx
add_late_fee ctx prev fee new_fee_total =
    let domain_fee =
      if fill_in_response_domain ctx prev.ts_ns
      then (if is_some ctx.response_fill_count
          then saturating_add ctx.response_domain_fee_cents fee
          else ctx.response_domain_fee_cents)
      else ctx.response_domain_fee_cents in
    record ctx { response_domain_fee_cents = domain_fee; attributed_fee_cents = new_fee_total }

unfoldable pub upgrade_fee : OrderCtx → FillRecord → FillPayload → Result FeeUpgrade
upgrade_fee ctx f prev = elim prev.fee [
  | none ↦ elim f.fee_cents [
    | none ↦ ok (record { ctx = ctx; fee = none; effects = []; changed = false })
    | some fee ↦ elim (checked_add ctx.attributed_fee_cents fee) [
      | none ↦ err (HaltReason.fee_overflow f.fill_id)
      | some new_fee_total ↦ ok (record {
        ctx = add_late_fee ctx prev fee new_fee_total;
        fee = some fee;
        effects =
            Effect.append_fsync (JournalRecord.fee_correction f.fill_id fee)
            ∷ Effect.account_fee_correction f.fill_id fee
            ∷ [];
        changed = true;
      })
    ]
  ]
  | some a ↦ elim f.fee_cents [
    | none ↦ err (HaltReason.conflicting_fill_payload f.fill_id)
    | some b ↦
        if a == b
        then ok (record { ctx = ctx; fee = some a; effects = []; changed = false })
        else err (HaltReason.conflicting_fill_payload f.fill_id)
  ]
]

-- The end of a redelivery: nothing changed, or the upgraded payload is stored and journaled.
unfoldable pub finish_redelivery :
    FillRecord → FillPayload → Option VenueOrderId → Bool → FeeUpgrade → AccountAttempt × OrderCtx
finish_redelivery f prev venue venue_changed u =
    if not (venue_changed || u.changed)
    then (
      (if not (eqb_ℤ prev.ts_ns f.ts_ns)
            && same_number prev.fee f.fee_cents
            && same_venue prev.venue_order_id f.venue_order_id
          then AccountAttempt.no_op
          else AccountAttempt.halt (HaltReason.conflicting_fill_payload f.fill_id) []),
      u.ctx,
    )
    else (
      AccountAttempt.enriched (
          Effect.append_fsync (
            fill_journal_record u.ctx.client_order_id f.fill_id f.qty f.price_cents prev.ts_ns u.fee
              venue)
          ∷ u.effects),
      record (u.ctx) {
        applied_fills =
            insert f.fill_id (record prev { venue_order_id = venue; fee = u.fee })
              u.ctx.applied_fills;
      },
    )

-- A fill whose id is booked already, with the payload `prev`.
unfoldable pub redeliver_fill : OrderCtx → FillRecord → FillPayload → AccountAttempt × OrderCtx
redeliver_fill ctx f prev =
    if same_payload prev (new_payload f)
    then (AccountAttempt.no_op, ctx)
    else if prev.qty != f.qty || prev.price_cents != f.price_cents
    then (AccountAttempt.halt (HaltReason.conflicting_fill_payload f.fill_id) [], ctx)
    else elim (upgrade_venue ctx.venue_order_id f prev.venue_order_id) [
      | err reason ↦ (AccountAttempt.halt reason [], ctx)
      | ok (venue, venue_changed) ↦ elim (upgrade_fee ctx f prev) [
        | err reason ↦ (AccountAttempt.halt reason [], ctx)
        | ok u ↦ finish_redelivery f prev venue venue_changed u
      ]
    ]
