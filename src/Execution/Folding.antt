-- ===== src/Execution/Folding.antt =====
-- The line of a batch in the journal against the fold of the journal.
use omsrs.Prelude.{
  ◌<◌, ◌≡◌, refl, sym, ap, List, [], ◌∷◌, false, Option, some, none, is_some, any, arith, ◌||◌,
  Bool-cases, inl, inr,
}
use omsrs.Prelude.Words.{u64_limit}
use omsrs.Equality.{same_refl}
use omsrs.BTreeMap.Inserts.{inserts}
use omsrs.Lifecycle.Types.{FillId}
use omsrs.Execution.Types.{MarketInventory, JournalLine, OrderTxnRecord, ok, LedgerId-discrete}
use omsrs.Execution.Inventory.{Fold, fold_txn, fold_lines, open_txn, close_txn}
use omsrs.Execution.NoRow.{Plan, execution_line, is_journaled}
use omsrs.Execution.Batch.{outcomes_of}
use mathlib.Core.Path.{subst}
use omsrs.Execution.Ledger.{Mirrors, Coherent}
use omsrs.Execution.Planned.{
  entry_pairs, conflict_pairs, AllCoherent, Once, all_noted, fold_outcomes-noted,
}
use omsrs.Execution.Mirror.{after_plans, all_noted-Mirrors}

-- What is not journaled plans nothing.
silent-plan :
    (inv : MarketInventory) (id : FillId) (p : Plan)
    → Coherent inv id p
    → is_journaled p.outcome ≡ false
    → (p.entry ≡ none) × (p.conflict ≡ none)
silent-plan inv id p c h = ground (arith, c.silent h)

silent_pairs :
    (inv : MarketInventory) (ps : List Plan)
    → AllCoherent inv ps
    → any is_journaled (outcomes_of ps) ≡ false
    → (entry_pairs ps ≡ []) × (conflict_pairs ps ≡ [])
unfolding outcomes_of entry_pairs conflict_pairs
silent_pairs inv [] c h = (refl, refl)
silent_pairs inv (p ∷ ps) (c, cs) h = elim (Bool-cases (is_journaled p.outcome)) [
  | inl loud ↦ ground (arith, loud, h)
  | inr quiet ↦
      let (entry, conflict) = silent-plan inv _ p c quiet in
      let (entries, conflicts) = silent_pairs inv ps cs (ground (arith, quiet, h)) in
      (rw entry entries, rw conflict conflicts)
]

silent-after_plans :
    (inv : MarketInventory) (ps : List Plan)
    → inv.generation < u64_limit
    → entry_pairs ps ≡ []
    → conflict_pairs ps ≡ []
    → after_plans inv ps ≡ inv
unfolding inserts
silent-after_plans inv ps g e c = rw (e) (rw (c) (ground (arith, g)))

abbrev pub batch_line : MarketInventory → List Plan → Option OrderTxnRecord → JournalLine
batch_line inv ps order = JournalLine.execution_txn (record {
  ledger = inv.ledger;
  inventory_generation_before = inv.generation;
  executions = outcomes_of ps;
  order = order;
})

fold_lines-batch :
    (inv : MarketInventory) (ps : List Plan) (order : Option OrderTxnRecord) (f : Fold)
    → AllCoherent inv ps
    → Once f.ingested_ids ps
    → fold_lines inv.ledger f (batch_line inv ps order ∷ [])
      ≡ ok (close_txn (all_noted (open_txn f) ps))
unfolding fold_lines fold_txn
fold_lines-batch inv ps order f c o =
    ground
      (arith, same_refl LedgerId-discrete inv.ledger, fold_outcomes-noted inv ps (open_txn f) c o)

-- What is journaled, as a list.
abbrev pub lines_of : Option JournalLine → List JournalLine
lines_of none = []
lines_of (some line) = line ∷ []

-- The fold goes on over the lines of a step and mirrors the inventory after it.
abbrev pub Folded : MarketInventory → Fold → MarketInventory × List JournalLine → Type 0
Folded inv f o =
    (f' : Fold) × (fold_lines inv.ledger f o.1 ≡ ok f')
    × Mirrors f' (o.0)
    × (o.0.ledger ≡ inv.ledger)
    × (o.0.generation < u64_limit)

pub same-Folded :
    (inv : MarketInventory) (f : Fold)
    → inv.generation < u64_limit
    → Mirrors f inv
    → Folded inv f (inv, [])
unfolding fold_lines
same-Folded inv f g m = (f, refl, m, refl, g)

pub plans-Folded :
    (inv : MarketInventory) (ps : List Plan) (order : Option OrderTxnRecord) (f : Fold)
    → inv.generation < u64_limit
    → AllCoherent inv ps
    → Once f.ingested_ids ps
    → Mirrors f inv
    → Folded inv f (after_plans inv ps, lines_of (execution_line inv (outcomes_of ps) order))
unfolding execution_line
plans-Folded inv ps order f g c o m =
    elim (Bool-cases (is_some order || any is_journaled (outcomes_of ps))) [
      | inl loud ↦ rw loud (
        close_txn (all_noted (open_txn f) ps),
        fold_lines-batch inv ps order f c o,
        all_noted-Mirrors inv ps f c m,
        refl,
        ground arith,
      )
      | inr quiet ↦
          let (e, x) = silent_pairs inv ps c (ground (arith, quiet)) in
          subst (Folded inv f)
            (sym (
              rw quiet (
                ap (λ (i : MarketInventory). (i, lines_of none))
                  (silent-after_plans inv ps g e x))))
            (same-Folded inv f g m)
    ]
