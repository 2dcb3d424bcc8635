-- ===== src/Lifecycle/Invariant/Primitives.antt =====
-- The operations that handlers are made of advance a valid context.
use omsrs.Prelude.{ℕ, Option, none, some, [], ◌∷◌, Bool, arith}
use omsrs.Prelude.Int.{ℤ}
use omsrs.BTreeMap.{BTreeMap}
use omsrs.Lifecycle.Types.{VenueOrderId, FillPayload}
use omsrs.Lifecycle.Events.{JournalRecord}
use omsrs.Lifecycle.Ctx.{
  OrderCtx, invalidate_authority, raise_fill_obligation, latch_authority_complete,
  note_venue_remaining,
}
use omsrs.Lifecycle.Venue.{
  bind_venue_id, resolve_event_venue, resolve_reconcile_venue, note_fill_evidence,
  note_authority_complete, authority_invalidate_effects,
}
use omsrs.Lifecycle.Domain.{
  cleared_domain, accumulate_response_domain, accumulate_all, recompute_response_domain,
}
use omsrs.Lifecycle.Invariant.{IsValid, Advances, Advances-IsValid, Advances-refl, Advances-trans}

pub invalidate_authority-Advances : (c : OrderCtx) → IsValid c → Advances c (invalidate_authority c)
unfolding invalidate_authority
invalidate_authority-Advances c v = ground arith

pub latch-Advances : (c : OrderCtx) → IsValid c → Advances c (latch_authority_complete c)
unfolding latch_authority_complete
latch-Advances c v = ground arith

pub note_venue_remaining-Advances :
    (c : OrderCtx) (r : ℕ) → IsValid c → Advances c (note_venue_remaining c r)
unfolding note_venue_remaining
note_venue_remaining-Advances c r v = ground arith

pub raise-Advances : (c : OrderCtx) (e : ℕ) → IsValid c → Advances c (raise_fill_obligation c e).1
unfolding raise_fill_obligation invalidate_authority
raise-Advances c e v = ground arith

pub note_fill_evidence-Advances :
    (c : OrderCtx) (e : ℕ) → IsValid c → Advances c (note_fill_evidence c e).1
unfolding note_fill_evidence
note_fill_evidence-Advances c e v = ground (arith, raise-Advances c e v)

pub note_authority_complete-Advances :
    (c : OrderCtx) (b : Bool) → IsValid c → Advances c (note_authority_complete c b).1
unfolding note_authority_complete
note_authority_complete-Advances c b v = ground (arith, latch-Advances c v)

pub authority_invalidate_effects-Advances :
    (c : OrderCtx) → IsValid c → Advances c (authority_invalidate_effects c).1
unfolding authority_invalidate_effects
authority_invalidate_effects-Advances c v = ground (arith, invalidate_authority-Advances c v)

pub bind-Advances :
    (c : OrderCtx) (id : VenueOrderId) → IsValid c → Advances c (bind_venue_id c id).1
unfolding bind_venue_id
bind-Advances c id v = ground arith

resolve_event-Advances :
    (c : OrderCtx) (id : VenueOrderId) (jr : Option JournalRecord) (ev : Option VenueOrderId)
    → IsValid c
    → Advances c (resolve_event_venue c id jr ev).1
unfolding resolve_event_venue
resolve_event-Advances c id jr none v = Advances-refl v
resolve_event-Advances c id jr (some ev) v = ground (arith, bind-Advances c ev v)

pub resolve-Advances :
    (c : OrderCtx) (id : VenueOrderId) (ev : Option VenueOrderId)
    → IsValid c
    → Advances c (resolve_reconcile_venue c id ev).1
unfolding resolve_reconcile_venue resolve_event_venue
resolve-Advances c id none v = ground (arith, bind-Advances c id v)
resolve-Advances c id (some ev) v =
    ground (arith, bind-Advances c id v, bind-Advances (bind_venue_id c id).1 ev)

pub accumulate-Advances :
    (c : OrderCtx) (qty price : ℕ) (fee : Option ℕ) (ts : ℤ)
    → IsValid c
    → Advances c (accumulate_response_domain c qty price fee ts)
unfolding accumulate_response_domain
accumulate-Advances c qty price fee ts v = ground arith

accumulate_all-Advances :
    (c : OrderCtx) (m : BTreeMap FillPayload) → IsValid c → Advances c (accumulate_all c m)
unfolding accumulate_all
accumulate_all-Advances c [] v = Advances-refl v
accumulate_all-Advances c ((_, p) ∷ m) v =
    let a = accumulate-Advances c p.qty p.price_cents p.fee p.ts_ns v in
    Advances-trans a (
      accumulate_all-Advances (accumulate_response_domain c p.qty p.price_cents p.fee p.ts_ns) m
        (Advances-IsValid a))

pub recompute-Advances : (c : OrderCtx) → IsValid c → Advances c (recompute_response_domain c)
unfolding recompute_response_domain
recompute-Advances c v = ground (arith, accumulate_all-Advances (cleared_domain c) c.applied_fills)
