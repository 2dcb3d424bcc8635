-- ===== src/Lifecycle/Venue.antt =====
-- src/lifecycle.rs, lines 1699 to 1829: the parent venue id, the obligation evidence and the
-- authority latch, each with the journal record that makes it durable.
use omsrs.Prelude.{
  ◌≡◌, refl, ◌⊎◌, inl, inr, ℕ, Option, none, some, List, [], ◌∷◌, ◌++◌, Bool, ltb, if◌then◌else◌,
  same_text,
}
use omsrs.BTreeMap.{BTreeMap}
use omsrs.Lifecycle.Types.{VenueOrderId, HaltReason, FillPayload}
use omsrs.Lifecycle.Events.{JournalRecord, Effect}
use omsrs.Lifecycle.Ctx.{
  Result, ok, err, OrderCtx, invalidate_authority, raise_fill_obligation, latch_authority_complete,
}

-- The loop over the fills booked before the parent was known: the first one of another parent.
unfoldable pub foreign_fill : VenueOrderId → BTreeMap FillPayload → Option HaltReason
foreign_fill new_id [] = none
foreign_fill new_id ((fid, payload) ∷ rest) = elim payload.venue_order_id [
  | none ↦ foreign_fill new_id rest
  | some got ↦
      if same_text got new_id
      then foreign_fill new_id rest
      else some (HaltReason.fill_ownership_mismatch fid new_id got)
]

unfoldable pub bind_venue_id : OrderCtx → VenueOrderId → Result (Option JournalRecord) × OrderCtx
bind_venue_id ctx new_id = elim ctx.venue_order_id [
  | none ↦ elim (foreign_fill new_id ctx.applied_fills) [
    | some reason ↦ (err reason, ctx)
    | none ↦ (
      ok (some (JournalRecord.venue_bound_cid ctx.client_order_id new_id)),
      record ctx { venue_order_id = some new_id },
    )
  ]
  | some existing ↦
      if same_text existing new_id
      then (ok none, ctx)
      else (err (HaltReason.ownership_conflict existing new_id), ctx)
]

-- `Result<(VenueOrderId, Option<JournalRecord>), (HaltReason, Option<JournalRecord>)>`
pub data Resolved : Type 0 where
  resolved : VenueOrderId → Option JournalRecord → Resolved
  conflicted : HaltReason → Option JournalRecord → Resolved

pub Resolved-cases :
    (r : Resolved)
    → ((v : VenueOrderId) × (jr : Option JournalRecord) × (r ≡ Resolved.resolved v jr))
      ⊎ ((reason : HaltReason) × (jr : Option JournalRecord) × (r ≡ Resolved.conflicted reason jr))
Resolved-cases (Resolved.resolved v jr) = inl (v, jr, refl)
Resolved-cases (Resolved.conflicted reason jr) = inr (reason, jr, refl)

-- The bind of the event's id, after the state's id was bound with the record `bind_jr`.
unfoldable pub resolve_event_venue :
    OrderCtx → VenueOrderId → Option JournalRecord → Option VenueOrderId → Resolved × OrderCtx
resolve_event_venue ctx state_vid bind_jr none = (Resolved.resolved state_vid bind_jr, ctx)
resolve_event_venue ctx state_vid bind_jr (some ev) =
    let (bound, ctx') = bind_venue_id ctx ev in
    elim bound [
      | ok none ↦ (Resolved.resolved ev bind_jr, ctx')
      | ok (some jr) ↦ (Resolved.resolved ev (some jr), ctx')
      | err reason ↦ (Resolved.conflicted reason bind_jr, ctx')
    ]

unfoldable pub resolve_reconcile_venue :
    OrderCtx → VenueOrderId → Option VenueOrderId → Resolved × OrderCtx
resolve_reconcile_venue ctx state_vid event_vid =
    let (bound, ctx') = bind_venue_id ctx state_vid in
    elim bound [
      | ok bind_jr ↦ resolve_event_venue ctx' state_vid bind_jr event_vid
      | err reason ↦ (Resolved.conflicted reason none, ctx')
    ]

unfoldable pub note_fill_evidence : OrderCtx → ℕ → Result (Option JournalRecord) × OrderCtx
note_fill_evidence ctx venue_filled =
    let (raised, ctx') = raise_fill_obligation ctx venue_filled in
    elim raised [
      | err reason ↦ (err reason, ctx')
      | ok _ ↦ (
        ok (
            if ltb ctx.fill_obligation ctx'.fill_obligation
            then some (JournalRecord.obligation_raised ctx'.fill_obligation ctx'.authority_epoch)
            else none),
        ctx',
      )
    ]

unfoldable pub restore_fill_obligation : OrderCtx → ℕ → Result (Unit {0}) × OrderCtx
restore_fill_obligation ctx evidence =
    if ltb ctx.qty evidence
    then (err (HaltReason.obligation_exceeds_order_qty evidence ctx.qty), ctx)
    else if ltb ctx.fill_obligation evidence
    then (ok tt, record ctx { fill_obligation = evidence })
    else (ok tt, ctx)

unfoldable pub note_authority_complete : OrderCtx → Bool → Option JournalRecord × OrderCtx
note_authority_complete ctx complete =
    if complete
    then (some (JournalRecord.authority_latched ctx.authority_epoch), latch_authority_complete ctx)
    else (none, ctx)

unfoldable pub authority_invalidate_effects : OrderCtx → List Effect × OrderCtx
authority_invalidate_effects ctx =
    let ctx' = invalidate_authority ctx in
    (Effect.append_fsync (JournalRecord.authority_invalidated ctx'.authority_epoch) ∷ [], ctx')

-- The effects behind `push_journal(&mut effects, jr)`.
abbrev pub journal : Option JournalRecord → List Effect
journal none = []
journal (some jr) = Effect.append_fsync jr ∷ []

abbrev pub push_journal : List Effect → Option JournalRecord → List Effect
push_journal es jr = es ++ journal jr
