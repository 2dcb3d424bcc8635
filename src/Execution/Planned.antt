-- ===== src/Execution/Planned.antt =====
-- The plans of a batch as insertions: those that `apply` makes and those that `rebuild` makes.
use omsrs.Prelude.{
  ℕ, suc, ◌<◌, ◌≡◌, refl, ap, ◌∙◌, none, some, List, [], ◌∷◌, true, false, arith, length,
  if◌then◌else◌, Option-cases, inl, inr,
}
use omsrs.Prelude.Words.{u64_limit, saturating_add}
use omsrs.BTreeMap.{BTreeMap, insert, contains_key}
use omsrs.BTreeMap.Inserts.{inserts, keys_only}
use omsrs.Lifecycle.Types.{FillId}
use omsrs.Execution.Types.{InventoryEntry, ConflictFact, MarketInventory, ok}
use omsrs.Execution.NoRow.{Plan}
use omsrs.Execution.Inventory.{TxnFold, fold_outcomes}
use omsrs.Execution.Batch.{plan_entries, plan_conflicts, outcomes_of}
use omsrs.Execution.Commit.{apply_entries, apply_conflicts}
use omsrs.Execution.Ledger.{Coherent, is_ingested, noted, fold_outcome-noted}

abbrev pub plan_id : Plan → FillId
plan_id p = p.outcome.evidence.execution_id

unfoldable pub entry_pairs : List Plan → List (FillId × InventoryEntry)
entry_pairs [] = []
entry_pairs (p ∷ ps) = elim p.entry [
  | none ↦ entry_pairs ps
  | some x ↦ (plan_id p, x) ∷ entry_pairs ps
]

unfoldable pub conflict_pairs : List Plan → List (FillId × ConflictFact)
conflict_pairs [] = []
conflict_pairs (p ∷ ps) = elim p.conflict [
  | none ↦ conflict_pairs ps
  | some c ↦ (c.execution_id, c) ∷ conflict_pairs ps
]

unfoldable pub ingested_pairs : List Plan → List (FillId × Unit {0})
ingested_pairs [] = []
ingested_pairs (p ∷ ps) =
    let rest = ingested_pairs ps in
    if is_ingested p.outcome.inventory then (plan_id p, tt) ∷ rest else rest

pub plan_entries-inserts :
    (ps : List Plan) (m : BTreeMap InventoryEntry) → plan_entries m ps ≡ inserts (entry_pairs ps) m
unfolding plan_entries entry_pairs inserts
plan_entries-inserts [] m = refl
plan_entries-inserts (p ∷ ps) m = elim (Option-cases p.entry) [
  | inl e ↦ rw (e, plan_entries) (plan_entries-inserts ps m)
  | inr (x, e) ↦ rw (e, plan_entries) (plan_entries-inserts ps (insert (plan_id p) x m))
]

pub plan_conflicts-inserts :
    (ps : List Plan) (m : BTreeMap ConflictFact)
    → plan_conflicts m ps ≡ inserts (conflict_pairs ps) m
unfolding plan_conflicts conflict_pairs inserts
plan_conflicts-inserts [] m = refl
plan_conflicts-inserts (p ∷ ps) m = elim (Option-cases p.conflict) [
  | inl e ↦ rw (e, plan_conflicts) (plan_conflicts-inserts ps m)
  | inr (x, e) ↦ rw (e, plan_conflicts) (plan_conflicts-inserts ps (insert x.execution_id x m))
]

saturating_add-suc :
    (g n : ℕ) → g < u64_limit → saturating_add (saturating_add g 1) n ≡ saturating_add g (suc n)
saturating_add-suc g n h = ground arith

pub apply_entries-inserts :
    (m : BTreeMap InventoryEntry) (inv : MarketInventory)
    → inv.generation < u64_limit
    → apply_entries m inv ≡ record inv {
      entries = inserts m inv.entries;
      generation = saturating_add inv.generation (length m);
    }
unfolding apply_entries inserts
apply_entries-inserts [] inv h = ground arith
apply_entries-inserts ((id, x) ∷ m) inv h =
    apply_entries-inserts m
      (record inv {
        entries = insert id x inv.entries;
        generation = saturating_add inv.generation 1;
      })
      (ground arith)
    ∙ ap (λ (g : ℕ). record inv { entries = inserts m (insert id x inv.entries); generation = g })
        (saturating_add-suc inv.generation (length m) h)

pub apply_conflicts-inserts :
    (m : BTreeMap ConflictFact) (inv : MarketInventory)
    → inv.generation < u64_limit
    → apply_conflicts m inv ≡ record inv {
      conflicts = inserts m inv.conflicts;
      generation = saturating_add inv.generation (length m);
    }
unfolding apply_conflicts inserts
apply_conflicts-inserts [] inv h = ground arith
apply_conflicts-inserts ((id, x) ∷ m) inv h =
    apply_conflicts-inserts m
      (record inv {
        conflicts = insert id x inv.conflicts;
        generation = saturating_add inv.generation 1;
      })
      (ground arith)
    ∙ ap
        (λ (g : ℕ). record inv {
          conflicts = inserts m (insert id x inv.conflicts);
          generation = g;
        })
        (saturating_add-suc inv.generation (length m) h)

-- The fold after the outcomes of all plans.
abbrev pub all_noted : TxnFold → List Plan → TxnFold
all_noted t ps = record {
  fold = record (t.fold) {
    entries = inserts (entry_pairs ps) t.fold.entries;
    conflicts = inserts (conflict_pairs ps) t.fold.conflicts;
    ingested_ids = inserts (ingested_pairs ps) t.fold.ingested_ids;
  };
  mutated_entry_ids = inserts (keys_only (entry_pairs ps)) t.mutated_entry_ids;
  conflict_ids = inserts (keys_only (conflict_pairs ps)) t.conflict_ids;
}

-- No execution is ingested twice, nor one that was ingested before.
abbrev pub Once : BTreeMap (Unit {0}) → List Plan → Type 0
Once seen [] = Unit
Once seen (p ∷ ps) =
    (is_ingested p.outcome.inventory ≡ true → contains_key (plan_id p) seen ≡ false)
    × Once (if is_ingested p.outcome.inventory then insert (plan_id p) tt seen else seen) ps

abbrev pub AllCoherent : MarketInventory → List Plan → Type 0
AllCoherent inv [] = Unit
AllCoherent inv (p ∷ ps) = Coherent inv (plan_id p) p × AllCoherent inv ps

all_noted-step :
    (inv : MarketInventory) (t : TxnFold) (p : Plan) (ps : List Plan)
    → Coherent inv (plan_id p) p
    → all_noted (noted t (plan_id p) p) ps ≡ all_noted t (p ∷ ps)
unfolding inserts entry_pairs conflict_pairs ingested_pairs keys_only
all_noted-step inv t p ps c = elim (Option-cases p.conflict) [
  | inl quiet ↦ ground (arith, quiet)
  | inr (fact, clash) ↦ ground (arith, clash, c.named fact clash)
]

all_noted-nil : (t : TxnFold) → t ≡ all_noted t []
unfolding inserts entry_pairs conflict_pairs ingested_pairs keys_only
all_noted-nil t = refl

pub fold_outcomes-noted :
    (inv : MarketInventory) (ps : List Plan) (t : TxnFold)
    → AllCoherent inv ps
    → Once t.fold.ingested_ids ps
    → fold_outcomes t (outcomes_of ps) ≡ ok (all_noted t ps)
unfolding fold_outcomes outcomes_of
fold_outcomes-noted inv [] t c o = ap ok (all_noted-nil t)
fold_outcomes-noted inv (p ∷ ps) t c o =
    let step = fold_outcome-noted inv (plan_id p) p t c.0 o.0 in
    rw (step, fold_outcomes)
      (fold_outcomes-noted inv ps (noted t (plan_id p) p) c.1 o.1
        ∙ ap ok (all_noted-step inv t p ps c.0))
