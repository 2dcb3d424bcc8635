-- ===== src/Observation/Coherent.antt =====
-- src/observation.rs, lines 658 to 710 and 1034 to 1043: the registry that the journal rebuilds is the
-- live one.
use mathlib.Core.Path.{subst}
use omsrs.Prelude.{
  ℕ, suc, ◌+◌, ◌≡◌, refl, sym, ap, ◌∙◌, Option, none, some, List, [], ◌∷◌, ◌++◌, arith, length,
  Bool-cases, inl, inr,
}
use omsrs.Lifecycle.Types.{VenueOrderId}
use omsrs.Execution.Types.{LedgerId, OrderRow, MarketInventory, Result-cases, ok}
use omsrs.Observation.Types.{
  RowEvidence, WireLine, WireRegistry, OrderStateTxnRecord, RestOrderProofTxnRecord,
}
use omsrs.Observation.Answers.{ObservationRound}
use omsrs.Observation.Registry.{new_registry, put_wire}
use omsrs.Observation.Proofs.{prepare_order_state_resting, apply_order_state_resting}
use omsrs.Observation.RestProofs.{
  RestPage, prepare_rest_order_proof, apply_rest_order_proof, page_of,
}
use omsrs.Observation.Fold.{fold_line, fold_lines_from, rebuild_registry}
use omsrs.Observation.Round.{finish}
use omsrs.Observation.Apply.{apply_observation}
use omsrs.Observation.Mirrored.{Mirrors, finish-Mirrors}
use omsrs.Observation.Live.{
  Live, Work, journaled, is_proof, note, observe, rest, page, step, start, work,
}

-- The journal rebuilds the registry.
abbrev pub IsCoherent : Live → Type 0
IsCoherent s = rebuild_registry s.journal ≡ ok s.registry

fold_lines_from-snoc :
    (reg r next : WireRegistry) (pos : ℕ) (ls : List WireLine) (l : WireLine)
    → fold_lines_from reg pos ls ≡ ok r
    → fold_line r (pos + length ls) l ≡ ok next
    → fold_lines_from reg pos (ls ++ l ∷ []) ≡ ok next
unfolding fold_lines_from
fold_lines_from-snoc reg r next pos [] l h k =
    let same_reg : reg ≡ r = ground (arith, h) in
    let same_pos : pos + 0 ≡ pos = omega arith in ground (arith, k, same_reg, same_pos)
fold_lines_from-snoc reg r next pos (x ∷ ls) l h k = elim (Result-cases (fold_line reg pos x)) [
  | inr (e, q) ↦ ground (arith, h, q)
  | inl (y, q) ↦
      let same_pos : pos + suc (length ls) ≡ suc pos + length ls = omega arith in
      ground (
        arith,
        q,
        fold_lines_from-snoc y r next (suc pos) ls l (ground (arith, h, q))
            (ap (λ (n : ℕ). fold_line r n l) (sym same_pos) ∙ k),
      )
]

journaled-IsCoherent :
    (s : Live) (l : WireLine) (next : WireRegistry)
    → IsCoherent s
    → fold_line s.registry (length s.journal) l ≡ ok next
    → IsCoherent (record { registry = next; journal = journaled s.journal (some l) })
unfolding rebuild_registry
journaled-IsCoherent s l next h k =
    fold_lines_from-snoc new_registry s.registry next 0 s.journal l h
      (ap (λ (n : ℕ). fold_line s.registry n l) (omega arith) ∙ k)

-- A step that ends in this state keeps the journal coherent.
landed : (s t : Live) → s ≡ t → IsCoherent t → IsCoherent s
landed s t e h = subst (λ (x : Live). IsCoherent x) (sym e) h

note-IsCoherent : (s : Live) (l : WireLine) → IsCoherent s → IsCoherent (note s l)
unfolding note
note-IsCoherent s l h = elim (Bool-cases (is_proof l)) [
  | inl p ↦ landed (note s l) s (ground (arith, p)) h
  | inr p ↦ elim (Result-cases (fold_line s.registry (length s.journal) l)) [
    | inr (e, q) ↦ landed (note s l) s (ground (arith, p, q)) h
    | inl (next, q) ↦
        landed (note s l) (record { registry = next; journal = journaled s.journal (some l) })
          (ground (arith, p, q)) (journaled-IsCoherent s l next h q)
  ]
]

mirrored-IsCoherent :
    (s : Live) (members rows : List OrderRow) (journal : Option WireLine) (next : WireRegistry)
    → IsCoherent s
    → Mirrors s.registry members (length s.journal) journal rows next
    → IsCoherent (record { registry = next; journal = journaled s.journal journal })
mirrored-IsCoherent s members rows none next h (r, g) = rw g h
mirrored-IsCoherent s members rows (some l) next h k = journaled-IsCoherent s l next h k

observe-IsCoherent :
    (s : Live) (round : ObservationRound) (inventory : MarketInventory) (members : List OrderRow)
    (row : RowEvidence)
    → IsCoherent s
    → IsCoherent (observe s round inventory members row)
unfolding observe
observe-IsCoherent s round inventory members row h =
    let t = observe s round inventory members row in
    elim (Result-cases (finish round s.registry inventory members row)) [
      | inr (e, p) ↦ landed t s (ground (arith, p)) h
      | inl (txn, p) ↦ elim (Result-cases (apply_observation txn members s.registry inventory)) [
        | inr (e, q) ↦ landed t s (ground (arith, p, q)) h
        | inl ((rows, next), q) ↦
            landed t (record { registry = next; journal = journaled s.journal txn.journal })
              (ground (arith, p, q))
              (mirrored-IsCoherent s members rows txn.journal next h (
                finish-Mirrors round s.registry next inventory members rows row txn
                  (length s.journal) p q))
      ]
    ]

pub applied_resting :
    (reg next : WireRegistry) (txn : OrderStateTxnRecord) (inventory : MarketInventory)
    → apply_order_state_resting reg txn inventory ≡ ok next
    → next ≡ put_wire reg txn.ledger txn.wire txn.wire_after
unfolding apply_order_state_resting
applied_resting reg next txn inventory h =
    elim (Result-cases (prepare_order_state_resting reg txn.ledger txn.wire inventory)) [
      | inr (e, p) ↦ ground (arith, h, p)
      | inl (fresh, p) ↦ ground (arith, h, p)
    ]

pub applied_rest :
    (reg next : WireRegistry) (txn : RestOrderProofTxnRecord) (inventory : MarketInventory)
    → apply_rest_order_proof reg txn inventory ≡ ok next
    → next ≡ put_wire reg txn.ledger txn.wire txn.wire_after
unfolding apply_rest_order_proof
applied_rest reg next txn inventory h =
    elim (Result-cases (prepare_rest_order_proof reg txn.ledger txn.wire (page_of txn) inventory)) [
      | inr (e, p) ↦ ground (arith, h, p)
      | inl (fresh, p) ↦ ground (arith, h, p)
    ]

rest-IsCoherent :
    (s : Live) (ledger : LedgerId) (wire : VenueOrderId) (inventory : MarketInventory)
    → IsCoherent s
    → IsCoherent (rest s ledger wire inventory)
unfolding rest fold_line
rest-IsCoherent s ledger wire inventory h =
    let t = rest s ledger wire inventory in
    elim (Result-cases (prepare_order_state_resting s.registry ledger wire inventory)) [
      | inr (e, p) ↦ landed t s (ground (arith, p)) h
      | inl (txn, p) ↦ elim (Result-cases (apply_order_state_resting s.registry txn inventory)) [
        | inr (e, q) ↦ landed t s (ground (arith, p, q)) h
        | inl (next, q) ↦
            let l = WireLine.order_state_txn txn in
            landed t (record { registry = next; journal = journaled s.journal (some l) })
              (ground (arith, p, q))
              (journaled-IsCoherent s l next h
                (ap ok (sym (applied_resting s.registry next txn inventory q))))
      ]
    ]

page-IsCoherent :
    (s : Live) (ledger : LedgerId) (wire : VenueOrderId) (r : RestPage)
    (inventory : MarketInventory)
    → IsCoherent s
    → IsCoherent (page s ledger wire r inventory)
unfolding page fold_line
page-IsCoherent s ledger wire r inventory h =
    let t = page s ledger wire r inventory in
    elim (Result-cases (prepare_rest_order_proof s.registry ledger wire r inventory)) [
      | inr (e, p) ↦ landed t s (ground (arith, p)) h
      | inl (txn, p) ↦ elim (Result-cases (apply_rest_order_proof s.registry txn inventory)) [
        | inr (e, q) ↦ landed t s (ground (arith, p, q)) h
        | inl (next, q) ↦
            let l = WireLine.rest_order_proof_txn txn in
            landed t (record { registry = next; journal = journaled s.journal (some l) })
              (ground (arith, p, q))
              (journaled-IsCoherent s l next h
                (ap ok (sym (applied_rest s.registry next txn inventory q))))
      ]
    ]

step-IsCoherent : (s : Live) (w : Work) → IsCoherent s → IsCoherent (step s w)
unfolding step
step-IsCoherent s (Work.noted l) h = note-IsCoherent s l h
step-IsCoherent s (Work.observed round inventory members row) h =
    observe-IsCoherent s round inventory members row h
step-IsCoherent s (Work.rested ledger wire inventory) h = rest-IsCoherent s ledger wire inventory h
step-IsCoherent s (Work.paged ledger wire r inventory) h =
    page-IsCoherent s ledger wire r inventory h

work-IsCoherent : (s : Live) (ws : List Work) → IsCoherent s → IsCoherent (work s ws)
unfolding work
work-IsCoherent s [] h = h
work-IsCoherent s (w ∷ ws) h = work-IsCoherent (step s w) ws (step-IsCoherent s w h)

-- Start from the empty registry and do any work: lines that are journaled and folded at their
-- place (or refused), rounds that are finished and applied, and proofs of the current order by a
-- frame or by a page that are prepared and applied, each with its journal line if it has one. Then
-- rebuild of the journal succeeds and gives exactly the live registry.
pub rebuild_registry-work :
    (ws : List Work) → rebuild_registry (work start ws).journal ≡ ok (work start ws).registry
unfolding rebuild_registry fold_lines_from
rebuild_registry-work ws = work-IsCoherent start ws refl
