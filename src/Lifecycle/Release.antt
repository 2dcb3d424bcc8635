-- ===== src/Lifecycle/Release.antt =====
-- What a released reservation, and a durable halt, rest on: `try_finalize_terminal`.
use omsrs.Prelude.{
  ℕ, Option, some, List, [], ◌∷◌, ◌++◌, Bool, true, false, any, any-append, ◌≡◌, refl, ap, ◌∙◌,
  arith,
}
use mathlib.Core.Path.{subst}
use omsrs.Lifecycle.Types.{HaltReason, VenueOrderId, ReconcileTerminal}
use omsrs.Lifecycle.Events.{JournalRecord, Effect}
use omsrs.Lifecycle.Ctx.{OrderCtx, authority_is_fresh}
use omsrs.Lifecycle.Outcome.{TransitionOutcome, accept, effects, new_state, halt_with_reason}
use omsrs.Lifecycle.Finalize.{
  ProposedTerminal, Gate, reconcile_requests, not_ready_for_terminal, filled_gate, common_gates,
  through_gate, release, proposed_remaining, terminal_kind, terminal_state, try_finalize_terminal,
}
use omsrs.Lifecycle.Releasable.{Releasable, ends}
use omsrs.Lifecycle.Gates.{gates-Releasable, Releasable-gates}

abbrev pub is_release : Effect → Bool
is_release Effect.release_reservation = true
is_release _ = false

abbrev pub releases : List Effect → Bool
releases = any is_release

releases-push :
    (es : List Effect) (e : Effect)
    → releases es ≡ false
    → is_release e ≡ false
    → releases (es ++ e ∷ []) ≡ false
releases-push es e h k = rw (any-append is_release es (e ∷ [])) (ground arith)

requests-releases :
    (c : OrderCtx) (v : VenueOrderId) (es : List Effect) (b : Bool)
    → releases es ≡ false
    → releases (reconcile_requests c v es b) ≡ false
unfolding reconcile_requests
requests-releases c v es b h = grind (arith, releases-push)

halt-releases :
    (reason : HaltReason) (es : List Effect)
    → releases es ≡ false
    → releases (effects (halt_with_reason reason es)) ≡ false
unfolding halt_with_reason
halt-releases reason es h = simp (any-append, h)

-- A gate that does not pass releases nothing.
gate-releases :
    (c : OrderCtx) (v : VenueOrderId) (es : List Effect) (t : ReconcileTerminal) (r : Option ℕ)
    (g : Gate) (rest : TransitionOutcome)
    → releases es ≡ false
    → releases (effects (through_gate c v es t r g rest)) ≡ true
    → (g ≡ Gate.pass) × (through_gate c v es t r g rest ≡ rest)
unfolding through_gate not_ready_for_terminal
gate-releases c v es t r Gate.pass rest h k = (refl, refl)
gate-releases c v es t r (Gate.stop reason) rest h k = ground (arith, halt-releases reason es h)
gate-releases c v es t r (Gate.wait true b) rest h k = ground (
  arith,
  requests-releases c v (es ++ Effect.backfill_fills v ∷ []) b,
  releases-push es (Effect.backfill_fills v) h,
)
gate-releases c v es t r (Gate.wait false b) rest h k = ground (arith, requests-releases c v es b h)

ends-state : (p : ProposedTerminal) → terminal_state p ≡ (ends p).0
ends-state (ProposedTerminal.filled _ _) = refl
ends-state ProposedTerminal.canceled = refl
ends-state ProposedTerminal.terminal = refl

ends-kind : (p : ProposedTerminal) → terminal_kind p ≡ (ends p).1
ends-kind (ProposedTerminal.filled _ _) = refl
ends-kind ProposedTerminal.canceled = refl
ends-kind ProposedTerminal.terminal = refl

release-ends :
    (c : OrderCtx) (p : ProposedTerminal) (es : List Effect)
    → authority_is_fresh c ≡ true
    → release c p es
      ≡ TransitionOutcome.accepted (ends p).0 (
          es
          ++ Effect.append_fsync (
              JournalRecord.order_terminal
                (ends p).1
                c.venue_order_id
                c.fill_obligation
                true
                c.authority_epoch
                c.attributed_fill_qty
                c.attributed_fee_cents)
            ∷ Effect.release_reservation
            ∷ [])
unfolding release accept
release-ends c p es fresh = rw (fresh, ends-state p, ends-kind p) refl

-- If the effects so far hold no release and those of try_finalize_terminal hold one, then the new
-- state is the one that the proposal ends in, and: with a bound venue id, every booked fill
-- carries it; the authority is complete, and latched in the current epoch; the attributed quantity
-- is the obligation; with a response boundary in time and a response count, the quantity of the
-- fills in the response domain is that count, their notional is within one cent per counted fill
-- of the response average times the count (where there is an average and the count is not zero),
-- and their fees are the response fee where there is one; and a Filled proposal has the order
-- quantity as its venue quantity and nothing remaining, with the whole order attributed.
pub try_finalize-release_only_if :
    (c : OrderCtx) (p : ProposedTerminal) (v : VenueOrderId) (es : List Effect)
    (t : ReconcileTerminal)
    → releases es ≡ false
    → releases (effects (try_finalize_terminal c p v es t)) ≡ true
    → Releasable c p × (new_state (try_finalize_terminal c p v es t) ≡ some (ends p).0)
unfolding try_finalize_terminal release
try_finalize-release_only_if c p v es t h k =
    let r = proposed_remaining c p in
    let last = through_gate c v es ReconcileTerminal.filled r (filled_gate c p) (release c p es) in
    let (common, first) = gate-releases c v es t r (common_gates c) last h k in
    let (filled, second) =
      gate-releases c v es ReconcileTerminal.filled r (filled_gate c p) (release c p es) h
        (subst (λ o. releases (effects o) ≡ true) first k) in
    (gates-Releasable c p common filled, ap new_state (first ∙ second) ∙ ap some (ends-state p))

-- Where the context and the proposal meet the conditions of a release (with a bound venue id,
-- every booked fill carries it; the authority is complete, and latched in the current epoch; the
-- attributed quantity is the obligation; with a response boundary in time and a response count,
-- the fills in the response domain add up to that count, to its average within one cent per
-- counted fill, and to its fee; and a Filled proposal covers the order), try_finalize_terminal
-- accepts the state that the proposal ends in. Its effects are those so far, then a record of the
-- terminal, of the kind of the proposal, with the venue id, the obligation, a complete authority,
-- the epoch, and the attributed quantity and fee, and then the release of the reservation.
pub try_finalize-release_if :
    (c : OrderCtx) (p : ProposedTerminal) (v : VenueOrderId) (es : List Effect)
    (t : ReconcileTerminal)
    → Releasable c p
    → try_finalize_terminal c p v es t
      ≡ TransitionOutcome.accepted (ends p).0 (
          es
          ++ Effect.append_fsync (
              JournalRecord.order_terminal
                (ends p).1
                c.venue_order_id
                c.fill_obligation
                true
                c.authority_epoch
                c.attributed_fill_qty
                c.attributed_fee_cents)
            ∷ Effect.release_reservation
            ∷ [])
unfolding try_finalize_terminal through_gate
try_finalize-release_if c p v es t r =
    let (fresh, common, filled) = Releasable-gates c p r in
    rw (common, filled) (release-ends c p es fresh)
