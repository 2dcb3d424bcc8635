-- ===== src/Observation/AmendSteps.antt =====
-- src/observation.rs, lines 414 to 454: the steps of an amend, against the wire that they change.
use omsrs.Prelude.{
  ℕ, ◌+◌, ◌≡◌, ◌≢◌, refl, ap, none, some, true, arith, Option-cases, inl, inr, eq_iff,
}
use omsrs.Lifecycle.Types.{VenueOrderId}
use omsrs.Execution.Types.{LedgerId, ok}
use omsrs.Observation.Types.{AmendPhase, AmendLineage, WireState, WireLine, WireRegistry}
use omsrs.Observation.Registry.{wire_of, ensured, current_is}
use omsrs.Observation.Amend.{
  is_succeeded, check_amend, check_amend_start, check_amend_step, prepare_amend_lineage,
}
use omsrs.Observation.Fold.{fold_line}
use omsrs.Observation.Frames.{ensured-wire_of}

-- One step of an amend. It starts where none is in flight, from the current order at the wire's
-- generation; later steps keep its orders, generation and quantity, and it is applied only where
-- the wire is one generation further, with the successor as its current order.
pub data AmendStep (ws : WireState) (next : AmendLineage) : Type 0 where
  starts :
      next.phase ≡ AmendPhase.http_pending
      → ws.amend_lineage ≡ none
      → ws.generation ≡ next.pre_generation
      → current_is ws next.old_cid ≡ true
      → next.old_cid ≢ next.new_cid
      → AmendStep ws next
  goes_on :
      (prior : AmendLineage)
      → ws.amend_lineage ≡ some prior
      → prior.old_cid ≡ next.old_cid
      → prior.new_cid ≡ next.new_cid
      → prior.pre_generation ≡ next.pre_generation
      → prior.declared_remaining ≡ next.declared_remaining
      → (next.phase ≡ AmendPhase.applied_needs_observation
          → (ws.generation ≡ next.pre_generation + 1) × (current_is ws next.new_cid ≡ true))
      → AmendStep ws next

check_amend_start-none :
    (ws : WireState) (next : AmendLineage)
    → check_amend_start ws next ≡ none
    → (ws.amend_lineage ≡ none)
      × (ws.generation ≡ next.pre_generation)
      × (current_is ws next.old_cid ≡ true)
      × (next.old_cid ≢ next.new_cid)
unfolding check_amend_start
check_amend_start-none ws next h = ground (arith, h, eq_iff next.old_cid next.new_cid)

check_amend_step-AmendStep :
    (ws : WireState) (next : AmendLineage) → check_amend_step ws next ≡ none → AmendStep ws next
unfolding check_amend_step is_succeeded
check_amend_step-AmendStep ws next h = elim (Option-cases ws.amend_lineage) [
  | inl missing ↦ ground (arith, missing, h)
  | inr (prior, e) ↦
      goes_on prior e (ground (arith, e, h, eq_iff prior.old_cid next.old_cid))
        (ground (arith, e, h, eq_iff prior.new_cid next.new_cid)) (ground (arith, e, h))
        (ground (arith, e, h)) (λ p. ground (arith, e, h, p))
]

phase-AmendStep :
    (ws : WireState) (next : AmendLineage) (phase : AmendPhase)
    → next.phase ≡ phase
    → elim phase [
      | AmendPhase.http_pending ↦ check_amend_start ws next
      | _ ↦ check_amend_step ws next
    ]
      ≡ none
    → AmendStep ws next
phase-AmendStep ws next AmendPhase.http_pending p h =
    let (idle, generation, current, differ) = check_amend_start-none ws next h in
    starts p idle generation current differ
phase-AmendStep ws next AmendPhase.applied_needs_observation p h =
    check_amend_step-AmendStep ws next h
phase-AmendStep ws next AmendPhase.unknown p h = check_amend_step-AmendStep ws next h
phase-AmendStep ws next AmendPhase.rest_due p h = check_amend_step-AmendStep ws next h

check_amend-AmendStep :
    (ws : WireState) (next : AmendLineage) → check_amend ws next ≡ none → AmendStep ws next
unfolding check_amend
check_amend-AmendStep ws next h = phase-AmendStep ws next next.phase refl h

check_amend-of :
    (reg : WireRegistry) (ledger : LedgerId) (wire : VenueOrderId) (next : AmendLineage)
    (ws : WireState) (l : WireLine)
    → wire_of reg ledger wire ≡ some ws
    → prepare_amend_lineage reg ledger wire next ≡ ok l
    → (check_amend ws next ≡ none) × (l ≡ WireLine.amend_lineage ledger wire (some next))
unfolding prepare_amend_lineage
check_amend-of reg ledger wire next ws l w h = elim (Option-cases (check_amend ws next)) [
  | inl fine ↦ ground (arith, w, h, fine)
  | inr (x, e) ↦ ground (arith, w, h, e)
]

-- If an amend is prepared for a wire of the registry, it either starts, where no amend is in
-- flight, from the current order at the wire's generation and with a different successor, or goes
-- on with the orders, generation and quantity of the amend in flight, and is applied only where
-- the wire is one generation further with the successor current. The fold of its line changes the
-- wire's amend and nothing else of the wire.
pub prepare_amend_lineage-AmendStep :
    (reg : WireRegistry) (ledger : LedgerId) (wire : VenueOrderId) (next : AmendLineage)
    (ws : WireState) (l : WireLine) (pos : ℕ)
    → wire_of reg ledger wire ≡ some ws
    → prepare_amend_lineage reg ledger wire next ≡ ok l
    → AmendStep ws next
      × ((after : WireRegistry) × (fold_line reg pos l ≡ ok after)
          × (wire_of after ledger wire ≡ some (record ws { amend_lineage = some next })))
unfolding fold_line
prepare_amend_lineage-AmendStep reg ledger wire next ws l pos w h =
    let (fine, same_line) = check_amend-of reg ledger wire next ws l w h in
    let change : WireState → WireState =
      λ (x : WireState). record x { amend_lineage = some next } in
    (
      check_amend-AmendStep ws next fine,
      (
        ensured reg ledger wire change,
        ap (fold_line reg pos) same_line,
        ensured-wire_of reg ledger wire change ws w,
      ),
    )
