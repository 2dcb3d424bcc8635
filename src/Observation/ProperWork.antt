-- ===== src/Observation/ProperWork.antt =====
-- src/observation.rs: the members of every wire, through all that is done with the registry.
use omsrs.Prelude.{
  ◌≤◌, ◌≡◌, refl, sym, ap, ◌∙◌, Option, some, List, [], ◌∷◌, Bool, false, arith, length, Bool-cases,
  Option-cases, inl, inr, unwrap_or,
}
use mathlib.Core.Path.{subst}
use omsrs.OrdMap.{lookup}
use omsrs.Lifecycle.Types.{VenueOrderId}
use omsrs.Execution.Types.{LedgerId, OrderRow, MarketInventory, Result-cases, ok}
use omsrs.Observation.Types.{
  RowEvidence, Member, MemberAfter, WireState, WireLine, WireRegistry, ObservationOutcome,
}
use omsrs.Observation.Answers.{ObservationRound, ObservationTransaction}
use omsrs.Observation.Registry.{venue_only_wire, wire_of, key}
use omsrs.Observation.Proofs.{proved_wire, prepare_order_state_resting, apply_order_state_resting}
use omsrs.Observation.RestProofs.{RestPage, prepare_rest_order_proof, apply_rest_order_proof}
use omsrs.Observation.Fold.{fold_line}
use omsrs.Observation.Round.{mark_terminal, wire_after, observation_of, finish}
use omsrs.Observation.Apply.{apply_observation}
use omsrs.Observation.Resting.{resting_txn-inv}
use omsrs.Observation.Paged.{rest_txn-inv}
use omsrs.Observation.Finished.{seen_wire, finish-inv}
use omsrs.Observation.Mirrored.{applied-inv}
use omsrs.Observation.Every.{Every, Brings, put_wire-Every}
use omsrs.Observation.EveryLine.{fold_line-Every}
use omsrs.Observation.OneCurrent.{
  currents, member_cids, IsProper, IsProper-IsKept, same_members-IsProper,
}
use omsrs.Observation.Live.{
  Live, Work, is_proof, journaled, note, observe, rest, page, step, start, work,
}
use omsrs.Observation.Coherent.{applied_resting, applied_rest}

abbrev AllProper : WireRegistry → Type 0
AllProper reg = Every (λ k. IsProper) reg

currents-mark :
    (after : List MemberAfter) (ms : List Member) → currents (mark_terminal after ms) ≤ currents ms
unfolding currents mark_terminal
currents-mark after [] = omega arith
currents-mark after (m ∷ ms) = ground (arith, currents-mark after ms)

member_cids-mark :
    (after : List MemberAfter) (ms : List Member)
    → member_cids (mark_terminal after ms) ≡ member_cids ms
unfolding mark_terminal
member_cids-mark after [] = refl
member_cids-mark after (m ∷ ms) = ground (arith, member_cids-mark after ms)

mark-nil : (after : List MemberAfter) (ms : List Member) → ms ≡ [] → mark_terminal after ms ≡ []
unfolding mark_terminal
mark-nil after [] h = refl
mark-nil after (m ∷ ms) h = ground (arith, h)

wire_after-IsProper :
    (ws : WireState) (row : RowEvidence) (outcome : ObservationOutcome) (pending : Bool)
    (after : List MemberAfter)
    → IsProper ws
    → IsProper (wire_after ws row outcome pending after)
unfolding wire_after
wire_after-IsProper ws row outcome pending after p = record {
  one_current = omega (arith, currents-mark after ws.members, p.one_current);
  distinct = rw (member_cids-mark after ws.members) (p.distinct);
  venue_only = λ q. mark-nil after ws.members (p.venue_only q);
}

seen_wire-IsProper :
    (round : ObservationRound) (reg : WireRegistry) → AllProper reg → IsProper (seen_wire round reg)
seen_wire-IsProper round reg h = elim (Option-cases (wire_of reg round.ledger round.wire)) [
  | inl e ↦
      subst (λ (o : Option WireState). IsProper (unwrap_or o venue_only_wire)) (sym e)
        (IsProper-IsKept.fresh (key round.ledger round.wire))
  | inr (ws, e) ↦
      subst (λ (o : Option WireState). IsProper (unwrap_or o venue_only_wire)) (sym e)
        (h round.ledger round.wire ws e)
]

observed-AllProper :
    (round : ObservationRound) (reg next : WireRegistry) (inventory : MarketInventory)
    (members rows : List OrderRow) (row : RowEvidence) (txn : ObservationTransaction)
    → AllProper reg
    → finish round reg inventory members row ≡ ok txn
    → apply_observation txn members reg inventory ≡ ok (rows, next)
    → AllProper next
unfolding observation_of
observed-AllProper round reg next inventory members rows row txn h p q =
    let (checked, e) = finish-inv round reg inventory members row txn p in
    let (r, g) = applied-inv round reg inventory members rows row next checked (
      sym (ap (λ (t : ObservationTransaction). apply_observation t members reg inventory) e) ∙ q) in
    subst (λ (x : WireRegistry). AllProper x) (sym g)
      (put_wire-Every (λ k. IsProper) reg round.ledger round.wire
        (observation_of round (seen_wire round reg) inventory members row).wire_after h
        (wire_after-IsProper (seen_wire round reg) row _ _ _ (seen_wire-IsProper round reg h)))

note-Brings : (l : WireLine) → is_proof l ≡ false → Brings (λ k. IsProper) l
note-Brings (WireLine.observation_txn t) h = ground (arith, h)
note-Brings (WireLine.order_state_txn t) h = ground (arith, h)
note-Brings (WireLine.rest_order_proof_txn t) h = ground (arith, h)
note-Brings _ h = tt

landed : (s t : Live) → s ≡ t → AllProper t.registry → AllProper s.registry
landed s t e h = subst (λ (x : Live). AllProper x.registry) (sym e) h

note-AllProper : (s : Live) (l : WireLine) → AllProper s.registry → AllProper (note s l).registry
unfolding note
note-AllProper s l h = elim (Bool-cases (is_proof l)) [
  | inl p ↦ landed (note s l) s (ground (arith, p)) h
  | inr p ↦ elim (Result-cases (fold_line s.registry (length s.journal) l)) [
    | inr (e, q) ↦ landed (note s l) s (ground (arith, p, q)) h
    | inl (next, q) ↦
        landed (note s l) (record { registry = next; journal = journaled s.journal (some l) })
          (ground (arith, p, q))
          (fold_line-Every (λ k. IsProper) IsProper-IsKept s.registry next (length s.journal) l q
            (note-Brings l p) h)
  ]
]

observe-AllProper :
    (s : Live) (round : ObservationRound) (inventory : MarketInventory) (members : List OrderRow)
    (row : RowEvidence)
    → AllProper s.registry
    → AllProper (observe s round inventory members row).registry
unfolding observe
observe-AllProper s round inventory members row h =
    let t = observe s round inventory members row in
    elim (Result-cases (finish round s.registry inventory members row)) [
      | inr (e, p) ↦ landed t s (ground (arith, p)) h
      | inl (txn, p) ↦ elim (Result-cases (apply_observation txn members s.registry inventory)) [
        | inr (e, q) ↦ landed t s (ground (arith, p, q)) h
        | inl ((rows, next), q) ↦
            landed t (record { registry = next; journal = journaled s.journal txn.journal })
              (ground (arith, p, q))
              (observed-AllProper round s.registry next inventory members rows row txn h p q)
      ]
    ]

rest-AllProper :
    (s : Live) (ledger : LedgerId) (wire : VenueOrderId) (inventory : MarketInventory)
    → AllProper s.registry
    → AllProper (rest s ledger wire inventory).registry
unfolding rest proved_wire
rest-AllProper s ledger wire inventory h =
    let t = rest s ledger wire inventory in
    elim (Result-cases (prepare_order_state_resting s.registry ledger wire inventory)) [
      | inr (e, p) ↦ landed t s (ground (arith, p)) h
      | inl (txn, p) ↦ elim (Result-cases (apply_order_state_resting s.registry txn inventory)) [
        | inr (e, q) ↦ landed t s (ground (arith, p, q)) h
        | inl (next, q) ↦
            let (ws, found, e, l, w, g, changed) =
              resting_txn-inv s.registry ledger wire inventory txn p in
            landed t
              (record {
                registry = next;
                journal = journaled s.journal (some (WireLine.order_state_txn txn));
              })
              (ground (arith, p, q))
              (subst (λ (x : WireRegistry). AllProper x)
                (sym (applied_resting s.registry next txn inventory q))
                (put_wire-Every (λ k. IsProper) s.registry txn.ledger txn.wire txn.wire_after h
                  (same_members-IsProper ws txn.wire_after
                    (ap (λ (x : WireState). x.members) changed)
                    (ap (λ (x : WireState). x.kind) changed) (h ledger wire ws found))))
      ]
    ]

page-AllProper :
    (s : Live) (ledger : LedgerId) (wire : VenueOrderId) (r : RestPage)
    (inventory : MarketInventory)
    → AllProper s.registry
    → AllProper (page s ledger wire r inventory).registry
unfolding page proved_wire
page-AllProper s ledger wire r inventory h =
    let t = page s ledger wire r inventory in
    elim (Result-cases (prepare_rest_order_proof s.registry ledger wire r inventory)) [
      | inr (e, p) ↦ landed t s (ground (arith, p)) h
      | inl (txn, p) ↦ elim (Result-cases (apply_rest_order_proof s.registry txn inventory)) [
        | inr (e, q) ↦ landed t s (ground (arith, p, q)) h
        | inl (next, q) ↦
            let (ws, found, c, l, w, pg, g, changed) =
              rest_txn-inv s.registry ledger wire r inventory txn p in
            landed t
              (record {
                registry = next;
                journal = journaled s.journal (some (WireLine.rest_order_proof_txn txn));
              })
              (ground (arith, p, q))
              (subst (λ (x : WireRegistry). AllProper x)
                (sym (applied_rest s.registry next txn inventory q))
                (put_wire-Every (λ k. IsProper) s.registry txn.ledger txn.wire txn.wire_after h
                  (same_members-IsProper ws txn.wire_after
                    (ap (λ (x : WireState). x.members) changed)
                    (ap (λ (x : WireState). x.kind) changed) (h ledger wire ws found))))
      ]
    ]

step-AllProper : (s : Live) (w : Work) → AllProper s.registry → AllProper (step s w).registry
unfolding step
step-AllProper s (Work.noted l) h = note-AllProper s l h
step-AllProper s (Work.observed round inventory members row) h =
    observe-AllProper s round inventory members row h
step-AllProper s (Work.rested ledger wire inventory) h = rest-AllProper s ledger wire inventory h
step-AllProper s (Work.paged ledger wire r inventory) h = page-AllProper s ledger wire r inventory h

work-AllProper : (s : Live) (ws : List Work) → AllProper s.registry → AllProper (work s ws).registry
unfolding work
work-AllProper s [] h = h
work-AllProper s (w ∷ ws) h = work-AllProper (step s w) ws (step-AllProper s w h)

-- After any such work from the empty registry, each wire has at most one current member, no order
-- is a member of it twice, and a venue-only wire has no members.
pub work-IsProper :
    (ws : List Work) (ledger : LedgerId) (wire : VenueOrderId) (found : WireState)
    → wire_of (work start ws).registry ledger wire ≡ some found
    → IsProper found
unfolding wire_of lookup
work-IsProper ws = work-AllProper start ws (λ ledger wire x e. ground (arith, e))
