-- ===== src/Lifecycle/Gates.antt =====
-- src/lifecycle.rs, lines 2447 to 2602: the gates of `try_finalize_terminal` against the release
-- invariants that they test.
use mathlib.Core.Path.{subst}
use omsrs.Prelude.{
  ℕ, ◌≡◌, ◌⊎◌, Option, some, none, [], ◌∷◌, true, false, arith, eq_iff, Option-cases, inl, inr,
  refl,
}
use omsrs.Prelude.Int.{ℤ}
use omsrs.BTreeMap.{BTreeMap}
use omsrs.Lifecycle.Types.{VenueOrderId, FillPayload, SnapshotBoundary}
use omsrs.Lifecycle.Ctx.{OrderCtx, authority_is_fresh, remaining_qty_checked}
use omsrs.Lifecycle.Domain.{has_reliable_boundary, fee_cross_check_mismatch, boundary_is_ts}
use omsrs.Lifecycle.Finalize.{
  ProposedTerminal, Gate, and_then, mismatch_gate, provenance_gate, ownership_gate, avg_gate,
  domain_gate, filled_gate, authority_gate, common_gates,
}
use omsrs.Lifecycle.CrossChecks.{avg-pass, pass-avg, fee-pass, pass-fee}
use omsrs.Lifecycle.Releasable.{AllCarry, Answers, Releasable}

and_then-pass : (g h : Gate) → and_then g h ≡ Gate.pass → (g ≡ Gate.pass) × (h ≡ Gate.pass)
and_then-pass g h e = ground arith

boundary-cases :
    (b : Option SnapshotBoundary)
    → ((t : ℤ) × (b ≡ some (SnapshotBoundary.ts_ns t))) ⊎ (boundary_is_ts b ≡ false)
unfolding boundary_is_ts
boundary-cases none = inr refl
boundary-cases (some (SnapshotBoundary.ts_ns t)) = inl (t, refl)
boundary-cases (some (SnapshotBoundary.seq _)) = inr refl

provenance-AllCarry :
    (v : VenueOrderId) (fills : BTreeMap FillPayload)
    → provenance_gate v fills ≡ Gate.pass
    → AllCarry v fills
unfolding provenance_gate
provenance-AllCarry v [] h = tt
provenance-AllCarry v ((id, f) ∷ fills) h = elim (Option-cases f.venue_order_id) [
  | inl missing ↦ ground (arith, h, missing)
  | inr (got, e) ↦
      (ground (arith, h, e, eq_iff got v), provenance-AllCarry v fills (ground (arith, h, e)))
]

AllCarry-provenance :
    (v : VenueOrderId) (fills : BTreeMap FillPayload)
    → AllCarry v fills
    → provenance_gate v fills ≡ Gate.pass
unfolding provenance_gate
AllCarry-provenance v [] h = refl
AllCarry-provenance v ((id, f) ∷ fills) (e, h) =
    ground (arith, e, eq_iff v v, AllCarry-provenance v fills h)

ownership-pass :
    (c : OrderCtx)
    → ownership_gate c ≡ Gate.pass
    → (v : VenueOrderId) → c.venue_order_id ≡ some v
    → AllCarry v c.applied_fills
unfolding ownership_gate
ownership-pass c h v e = provenance-AllCarry v c.applied_fills (ground (arith, h, e))

pass-ownership :
    (c : OrderCtx)
    → ((v : VenueOrderId) → c.venue_order_id ≡ some v → AllCarry v c.applied_fills)
    → ownership_gate c ≡ Gate.pass
unfolding ownership_gate
pass-ownership c h = elim (Option-cases c.venue_order_id) [
  | inl e ↦ ground (arith, e)
  | inr (v, e) ↦ ground (arith, e, AllCarry-provenance v c.applied_fills (h v e))
]

-- Gate 3, from a boundary in time and a counted response.
domain-Answers :
    (c : OrderCtx) (rc : ℕ) (boundary : ℤ)
    → domain_gate c ≡ Gate.pass
    → c.response_fill_count ≡ some rc
    → c.response_snapshot_boundary ≡ some (SnapshotBoundary.ts_ns boundary)
    → Answers c rc
unfolding domain_gate has_reliable_boundary boundary_is_ts
domain-Answers c rc boundary h e b =
    let (closed, checks) : (c.response_domain_qty ≡ rc)
        × (and_then (avg_gate c rc) (
              mismatch_gate
                (fee_cross_check_mismatch c.response_fee_cents c.response_domain_fee_cents))
            ≡ Gate.pass) =
      ground (arith, h, e, b) in
    let (avg, fee) = and_then-pass (avg_gate c rc) _ checks in
    record {
      closed = closed;
      average = λ a k n. avg-pass c rc a avg k n;
      fee = λ f k. fee-pass c.response_fee_cents c.response_domain_fee_cents f fee k;
    }

answered-check :
    (c : OrderCtx) (rc : ℕ)
    → Answers c rc
    → and_then
        (avg_gate c rc)
        (mismatch_gate (fee_cross_check_mismatch c.response_fee_cents c.response_domain_fee_cents))
      ≡ Gate.pass
answered-check c rc a =
    rw (pass-avg c rc a, pass-fee c.response_fee_cents c.response_domain_fee_cents a.fee) refl

pass-domain :
    (c : OrderCtx)
    → ((rc : ℕ) (boundary : ℤ)
        → c.response_fill_count ≡ some rc
        → c.response_snapshot_boundary ≡ some (SnapshotBoundary.ts_ns boundary)
        → Answers c rc)
    → domain_gate c ≡ Gate.pass
unfolding domain_gate has_reliable_boundary boundary_is_ts
pass-domain c h = elim (Option-cases c.response_fill_count) [
  | inl e ↦ ground (arith, e)
  | inr (rc, e) ↦ elim (boundary-cases c.response_snapshot_boundary) [
    | inl (boundary, b) ↦
        let a = h rc boundary e b in ground (arith, e, b, a.closed, answered-check c rc a)
    | inr b ↦ ground (arith, e, b)
  ]
]

authority-pass :
    (c : OrderCtx)
    → authority_gate c ≡ Gate.pass
    → (c.authority_complete ≡ true)
      × (c.authority_latched_epoch ≡ c.authority_epoch)
      × (c.attributed_fill_qty ≡ c.fill_obligation)
unfolding authority_gate authority_is_fresh
authority-pass c e = ground (arith, e)

pass-authority :
    (c : OrderCtx)
    → c.authority_complete ≡ true
    → c.authority_latched_epoch ≡ c.authority_epoch
    → c.attributed_fill_qty ≡ c.fill_obligation
    → (authority_is_fresh c ≡ true) × (authority_gate c ≡ Gate.pass)
unfolding authority_gate authority_is_fresh
pass-authority c a l q = ground (arith, a, l, q)

filled-pass :
    (c : OrderCtx) (venue_filled venue_remaining : ℕ)
    → filled_gate c (ProposedTerminal.filled venue_filled venue_remaining) ≡ Gate.pass
    → (venue_filled ≡ c.qty) × (venue_remaining ≡ 0) × (c.attributed_fill_qty ≡ c.qty)
unfolding filled_gate remaining_qty_checked
filled-pass c venue_filled venue_remaining e = ground (arith, e)

pass-filled :
    (c : OrderCtx) (p : ProposedTerminal)
    → ((venue_filled venue_remaining : ℕ)
        → p ≡ ProposedTerminal.filled venue_filled venue_remaining
        → (venue_filled ≡ c.qty) × (venue_remaining ≡ 0) × (c.attributed_fill_qty ≡ c.qty))
    → filled_gate c p ≡ Gate.pass
unfolding filled_gate remaining_qty_checked
pass-filled c (ProposedTerminal.filled f r) h =
    let (filled, remaining, attributed) = h f r refl in
    ground (arith, filled, remaining, attributed)
pass-filled c ProposedTerminal.canceled h = refl
pass-filled c ProposedTerminal.terminal h = refl

filled-covered :
    (c : OrderCtx) (p : ProposedTerminal)
    → filled_gate c p ≡ Gate.pass
    → (venue_filled venue_remaining : ℕ) → p ≡ ProposedTerminal.filled venue_filled venue_remaining
    → (venue_filled ≡ c.qty) × (venue_remaining ≡ 0) × (c.attributed_fill_qty ≡ c.qty)
filled-covered c p h f r e = filled-pass c f r (subst (λ q. filled_gate c q ≡ Gate.pass) e h)

-- What the gates let pass is releasable.
pub gates-Releasable :
    (c : OrderCtx) (p : ProposedTerminal)
    → common_gates c ≡ Gate.pass
    → filled_gate c p ≡ Gate.pass
    → Releasable c p
unfolding common_gates
gates-Releasable c p common filled =
    let (owned, rest) = and_then-pass (ownership_gate c) _ common in
    let (authority, closed) = and_then-pass (authority_gate c) (domain_gate c) rest in
    let (complete, latched, attributed) = authority-pass c authority in
    record {
      owned = ownership-pass c owned;
      complete = complete;
      latched = latched;
      attributed = attributed;
      answered = λ rc b. domain-Answers c rc b closed;
      covered = filled-covered c p filled;
    }

-- What is releasable passes the gates, with an authority that is fresh.
pub Releasable-gates :
    (c : OrderCtx) (p : ProposedTerminal)
    → Releasable c p
    → (authority_is_fresh c ≡ true) × (common_gates c ≡ Gate.pass) × (filled_gate c p ≡ Gate.pass)
unfolding common_gates
Releasable-gates c p r =
    let (fresh, authority) = pass-authority c r.complete r.latched r.attributed in
    (
      fresh,
      rw (pass-ownership c r.owned, authority, pass-domain c r.answered) refl,
      pass-filled c p r.covered,
    )
