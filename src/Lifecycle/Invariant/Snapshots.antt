-- ===== src/Lifecycle/Invariant/Snapshots.antt =====
-- Venue snapshots, the backfill of an unknown submission, and cancel outcomes advance a valid
-- context.
use omsrs.Prelude.{
  ℕ, Option, none, some, List, [], ◌∷◌, ◌++◌, Bool, true, inl, inr, arith, or_option, Option-cases,
}
use omsrs.Lifecycle.Types.{
  VenueOrderId, FillRecord, ReconcileTarget, CancelOutcome, BackfillOrderRecord,
}
use omsrs.Lifecycle.Events.{Effect}
use omsrs.Lifecycle.Ctx.{OrderCtx, Result-cases, note_venue_remaining}
use omsrs.Lifecycle.Venue.{
  bind_venue_id, note_fill_evidence, note_authority_complete, authority_invalidate_effects, journal,
  push_journal,
}
use omsrs.Lifecycle.Redelivery.{AccountAttempt-cases}
use omsrs.Lifecycle.Fills.{try_account_fill}
use omsrs.Lifecycle.Attribution.{Booked-cases, account_fills}
use omsrs.Lifecycle.Backfill.{backfill_member_quantities}
use omsrs.Lifecycle.Snapshot.{Snapshot, latch_snapshot, note_snapshot, route_from_backfill_status}
use omsrs.Lifecycle.Unknown.{
  account_matched_fills, snapshot_of, route_matched, book_matched, apply_unique_match,
  apply_unknown_backfill,
}
use omsrs.Lifecycle.Cancel.{
  note_response_count, keep_averages, note_target_remaining, note_target, note_cancel_evidence,
  apply_cancel_outcome,
}
use omsrs.Lifecycle.Invariant.{IsValid, Advances, Advances-IsValid, Advances-refl, Advances-trans}
use omsrs.Lifecycle.Invariant.Primitives.{
  note_venue_remaining-Advances, raise-Advances, bind-Advances, note_fill_evidence-Advances,
  note_authority_complete-Advances, authority_invalidate_effects-Advances,
}
use omsrs.Lifecycle.Invariant.Accounting.{try_account_fill-Advances, account_fills-Advances}

note_snapshot-Advances :
    (c : OrderCtx) (s : Snapshot) (n : ℕ) (es : List Effect)
    → IsValid c
    → Advances c (note_snapshot c s n es).1
unfolding note_snapshot
note_snapshot-Advances c s n es h =
    let a = note_venue_remaining-Advances c s.remaining_qty h in
    let noted = note_venue_remaining c s.remaining_qty in
    ground (arith, Advances-trans a (note_fill_evidence-Advances noted n (Advances-IsValid a)))

latch_snapshot-Advances :
    (c : OrderCtx) (s : Snapshot) (es : List Effect) (b : Bool)
    → IsValid c
    → Advances c (latch_snapshot c s es b).1
unfolding latch_snapshot
latch_snapshot-Advances c s es b h = note_authority_complete-Advances c b h

-- A venue snapshot keeps a valid context valid.
pub route_from-Advances :
    (c : OrderCtx) (s : Snapshot) (fs : List FillRecord) (complete unknown : Bool)
    → IsValid c
    → Advances c (route_from_backfill_status c s fs complete unknown).1
unfolding route_from_backfill_status
route_from-Advances c s fs complete unknown h =
    elim (Result-cases (backfill_member_quantities c s.filled_qty s.other_members_filled)) [
      | inr (reason, e) ↦ rw (e, route_from_backfill_status) (Advances-refl h)
      | inl (q, e) ↦
          let bound : OrderCtx = (bind_venue_id c s.venue_order_id).1 in
          let a : Advances c bound = bind-Advances c s.venue_order_id h in
          elim (Result-cases (bind_venue_id c s.venue_order_id).0) [
            | inr (reason, e2) ↦ rw (e, e2, route_from_backfill_status) a
            | inl (jr, e2) ↦
                let noted : OrderCtx = (note_snapshot bound s q.0 (journal jr)).1 in
                let b : Advances c noted =
                  Advances-trans a
                    (note_snapshot-Advances bound s q.0 (journal jr) (Advances-IsValid a)) in
                elim (Result-cases (note_snapshot bound s q.0 (journal jr)).0) [
                  | inr (reason, e3) ↦ rw (e, e2, e3, route_from_backfill_status) b
                  | inl (es, e3) ↦
                      let booked : OrderCtx = (account_fills noted es fs).1 in
                      let d : Advances c booked =
                        Advances-trans b
                          (account_fills-Advances noted es fs (Advances-IsValid b)) in
                      elim (Booked-cases (account_fills noted es fs).0) [
                        | inr (reason, es', e4) ↦ rw (e, e2, e3, e4, route_from_backfill_status) d
                        | inl (es', e4) ↦
                            rw (e, e2, e3, e4, route_from_backfill_status)
                              (Advances-trans d (
                                latch_snapshot-Advances booked s es' complete (Advances-IsValid d)))
                      ]
                ]
          ]
    ]

matched-Advances :
    (c : OrderCtx) (v : VenueOrderId) (es : List Effect) (fs : List FillRecord)
    → IsValid c
    → Advances c (account_matched_fills c v es fs).1
unfolding account_matched_fills
matched-Advances c v es [] h = Advances-refl h
matched-Advances c v es (f ∷ fs) h =
    let d : OrderCtx = (try_account_fill c f).1 in
    let a : Advances c d = try_account_fill-Advances c f h in
    elim (Option-cases f.venue_order_id) [
      | inl e0 ↦ rw (e0, account_matched_fills) (Advances-refl h)
      | inr (parent, e0) ↦ elim (AccountAttempt-cases (try_account_fill c f).0) [
        | inl (inl e) ↦
            rw (e0, e, account_matched_fills)
              (Advances-trans a (matched-Advances d v es fs (Advances-IsValid a)))
        | inl (inr (new, e)) ↦
            rw (e0, e, account_matched_fills)
              (Advances-trans a (matched-Advances d v (es ++ new) fs (Advances-IsValid a)))
        | inr (inl (new, e)) ↦
            rw (e0, e, account_matched_fills)
              (Advances-trans a (matched-Advances d v (es ++ new) fs (Advances-IsValid a)))
        | inr (inr (reason, last, e)) ↦ rw (e0, e, account_matched_fills) a
      ]
    ]

route_matched-Advances :
    (c : OrderCtx) (r : BackfillOrderRecord) (es : List Effect)
    → IsValid c
    → Advances c (route_matched c r es).1
unfolding route_matched
route_matched-Advances c r es h =
    let a = note_authority_complete-Advances c true h in
    Advances-trans a (
      route_from-Advances (note_authority_complete c true).1 (snapshot_of r) [] true true
        (Advances-IsValid a))

book-Advances :
    (c noted : OrderCtx) (r : BackfillOrderRecord) (es : List Effect)
    → Advances c noted
    → Advances c (book_matched noted r es).1
unfolding book_matched
book-Advances c noted r es b =
    let (jr, latched) = note_authority_complete noted true in
    let d : Advances c latched =
      Advances-trans b (note_authority_complete-Advances noted true (Advances-IsValid b)) in
    let started = push_journal es jr in
    let booked : OrderCtx = (account_matched_fills latched r.venue_order_id started r.fills).1 in
    let g : Advances c booked =
      Advances-trans d
        (matched-Advances latched r.venue_order_id started r.fills (Advances-IsValid d)) in
    elim (Booked-cases (account_matched_fills latched r.venue_order_id started r.fills).0) [
      | inr (reason, es', e) ↦ rw (e, book_matched) g
      | inl (es', e) ↦
          rw (e, book_matched)
            (Advances-trans g (route_matched-Advances booked r es' (Advances-IsValid g)))
    ]

unique-Advances :
    (c : OrderCtx) (r : BackfillOrderRecord) → IsValid c → Advances c (apply_unique_match c r).1
unfolding apply_unique_match
unique-Advances c r h =
    elim (Result-cases (backfill_member_quantities c r.filled_qty r.other_members_filled)) [
      | inr (reason, e) ↦ rw (e, apply_unique_match) (Advances-refl h)
      | inl (q, e) ↦
          let bound : OrderCtx = (bind_venue_id c r.venue_order_id).1 in
          let a : Advances c bound = bind-Advances c r.venue_order_id h in
          elim (Result-cases (bind_venue_id c r.venue_order_id).0) [
            | inr (reason, e2) ↦ rw (e, e2, apply_unique_match) a
            | inl (jr, e2) ↦
                let s : Snapshot = snapshot_of r in
                let noted : OrderCtx = (note_snapshot bound s q.0 (journal jr)).1 in
                let b : Advances c noted =
                  Advances-trans a
                    (note_snapshot-Advances bound s q.0 (journal jr) (Advances-IsValid a)) in
                elim (Result-cases (note_snapshot bound s q.0 (journal jr)).0) [
                  | inr (reason, e3) ↦ rw (e, e2, e3, apply_unique_match) b
                  | inl (es, e3) ↦ rw (e, e2, e3, apply_unique_match) (book-Advances c noted r es b)
                ]
          ]
    ]

-- The backfill of an unknown submission keeps a valid context valid.
pub unknown-Advances :
    (c : OrderCtx) (exhaustive : Bool) (rs : List BackfillOrderRecord)
    → IsValid c
    → Advances c (apply_unknown_backfill c exhaustive rs).1
unfolding apply_unknown_backfill
unknown-Advances c exhaustive [] h = ground (arith, Advances-refl h)
unknown-Advances c exhaustive (r ∷ []) h = ground (arith, Advances-refl h, unique-Advances c r h)
unknown-Advances c exhaustive (r ∷ s ∷ rs) h = Advances-refl h

count-Advances :
    (c : OrderCtx) (n : Option ℕ) (es : List Effect)
    → IsValid c
    → Advances c (note_response_count c n es).1
unfolding note_response_count
count-Advances c none es h = Advances-refl h
count-Advances c (some n) es h = ground (
  arith,
  raise-Advances (record c { response_fill_count = or_option c.response_fill_count (some n) }) n,
)

averages-Advances :
    (c : OrderCtx) (avg fee : Option ℕ) → IsValid c → Advances c (keep_averages c avg fee)
unfolding keep_averages
averages-Advances c avg fee h = ground arith

target_remaining-Advances :
    (c : OrderCtx) (r : Option ℕ) → IsValid c → Advances c (note_target_remaining c r)
target_remaining-Advances c none h = Advances-refl h
target_remaining-Advances c (some r) h = note_venue_remaining-Advances c r h

target-Advances :
    (c : OrderCtx) (t : Option ReconcileTarget) (es : List Effect)
    → IsValid c
    → Advances c (note_target c t es).1
unfolding note_target
target-Advances c none es h = Advances-refl h
target-Advances c (some t) es h =
    let d : OrderCtx = (note_fill_evidence c t.venue_filled_qty).1 in
    let a : Advances c d = note_fill_evidence-Advances c t.venue_filled_qty h in
    ground (
      arith,
      a,
      Advances-trans a (target_remaining-Advances d t.venue_remaining_qty (Advances-IsValid a)),
    )

evidence-Advances :
    (c : OrderCtx) (v : VenueOrderId) (n avg fee : Option ℕ) (t : Option ReconcileTarget)
    (es : List Effect)
    → IsValid c
    → Advances c (note_cancel_evidence c v n avg fee t es).0.1
unfolding note_cancel_evidence
evidence-Advances c v n avg fee t es h =
    let d : OrderCtx = (note_response_count c n es).1 in
    let a : Advances c d = count-Advances c n es h in
    let kept : OrderCtx = keep_averages d avg fee in
    let b : Advances c kept = Advances-trans a (averages-Advances d avg fee (Advances-IsValid a)) in
    elim (Result-cases (note_response_count c n es).0) [
      | inr (reason, e) ↦ rw (e, note_cancel_evidence) a
      | inl (es', e) ↦
          let target : OrderCtx = (note_target kept t es').1 in
          let g : Advances c target =
            Advances-trans b (target-Advances kept t es' (Advances-IsValid b)) in
          let k : Advances c (bind_venue_id target v).1 =
            Advances-trans g (bind-Advances target v (Advances-IsValid g)) in
          elim (Result-cases (note_target kept t es').0) [
            | inr (reason, e2) ↦ rw (e, e2, note_cancel_evidence) g
            | inl (es2, e2) ↦ elim (Result-cases (bind_venue_id target v).0) [
              | inr (reason, e3) ↦ rw (e, e2, e3, note_cancel_evidence) k
              | inl (jr, e3) ↦ rw (e, e2, e3, note_cancel_evidence) k
            ]
          ]
    ]

-- A cancel outcome keeps a valid context valid.
pub cancel-Advances :
    (c : OrderCtx) (v : VenueOrderId) (filled remaining : ℕ) (n avg fee : Option ℕ)
    (t : Option ReconcileTarget) (o : CancelOutcome)
    → IsValid c
    → Advances c (apply_cancel_outcome c v filled remaining n avg fee t o).1
unfolding apply_cancel_outcome
cancel-Advances c v filled remaining n avg fee t o h =
    let d : OrderCtx = (authority_invalidate_effects c).1 in
    let a : Advances c d = authority_invalidate_effects-Advances c h in
    grind (
      arith,
      λ (es : List Effect).
          Advances-trans a (evidence-Advances d v n avg fee t es (Advances-IsValid a)),
    )
