-- ===== src/Execution/Mirror.antt =====
-- The journal line of a batch against the inventory that the batch leaves.
use omsrs.Prelude.{
  ◌<◌, ◌≡◌, refl, sym, ap, ◌∙◌, List, [], ◌∷◌, true, is_some, arith, length, Option-cases,
  Bool-cases, inl, inr,
}
use omsrs.Prelude.Words.{u64_limit, saturating_add}
use omsrs.BTreeMap.{BTreeMap, lookup, insert, contains_key, lookup-insert}
use omsrs.BTreeMap.Inserts.{
  inserts, keys_only, lookup-inserts, lookup-inserts_map, inserts-IsMap, IsMap, inserts-Present,
  length-inserts-Present, length-keys_only,
}
use omsrs.Lifecycle.Types.{FillId}
use omsrs.Execution.Types.{InventoryEntry, MarketInventory, ExecutionTransaction}
use omsrs.Execution.NoRow.{Plan}
use omsrs.Execution.Inventory.{Fold, open_txn, close_txn}
use omsrs.Execution.Commit.{apply_conflicts, apply_planned}
use omsrs.Execution.Ledger.{Mirrors, Coherent, is_ingested}
use omsrs.Execution.Planned.{
  plan_id, entry_pairs, conflict_pairs, ingested_pairs, apply_entries-inserts,
  apply_conflicts-inserts, all_noted, AllCoherent,
}

-- What a batch plans, its entries once and its conflicts twice, put on the inventory.
abbrev pub after_plans : MarketInventory → List Plan → MarketInventory
after_plans inv ps =
    let entries = inserts (entry_pairs ps) [] in
    let conflicts = inserts (conflict_pairs ps) (inserts (conflict_pairs ps) []) in
    record inv {
      entries = inserts entries inv.entries;
      conflicts = inserts conflicts inv.conflicts;
      generation =
          saturating_add (saturating_add inv.generation (length entries)) (length conflicts);
    }

nil-IsMap {ℓ} : (V : Type ℓ) → IsMap {V = V} []
unfolding IsMap
nil-IsMap V = tt

-- A plan put over a map is the plan's insertions into it.
lookup-planned {ℓ} :
    {V : Type ℓ} (j : FillId) (l : List (FillId × V)) (m n : BTreeMap V)
    → lookup j m ≡ lookup j n
    → lookup j (inserts l m) ≡ lookup j (inserts (inserts l []) n)
lookup-planned j l m n h = ground (
  arith,
  lookup-inserts j l m,
  lookup-inserts_map j (inserts l []) n (inserts-IsMap l [] (nil-IsMap _)),
  h,
)

lookup-planned_twice {ℓ} :
    {V : Type ℓ} (j : FillId) (l : List (FillId × V)) (m n : BTreeMap V)
    → lookup j m ≡ lookup j n
    → lookup j (inserts l m) ≡ lookup j (inserts (inserts l (inserts l [])) n)
lookup-planned_twice j l m n h = ground (
  arith,
  lookup-inserts j l m,
  lookup-inserts j l (inserts l []),
  lookup-inserts_map j (inserts l (inserts l [])) n
      (inserts-IsMap l (inserts l []) (inserts-IsMap l [] (nil-IsMap _))),
  h,
)

ingested-entry :
    (inv : MarketInventory) (id : FillId) (p : Plan)
    → Coherent inv id p
    → is_ingested p.outcome.inventory ≡ true
    → is_some p.entry ≡ true
ingested-entry inv id p c new = ground (arith, c.entry, c.stored, new)

-- An execution that is ingested is stored.
contains-ingested :
    (inv : MarketInventory) (j : FillId) (ps : List Plan) (m : BTreeMap (Unit {0}))
    (n : BTreeMap InventoryEntry)
    → AllCoherent inv ps
    → (contains_key j m ≡ true → contains_key j n ≡ true)
    → contains_key j (inserts (ingested_pairs ps) m) ≡ true
    → contains_key j (inserts (entry_pairs ps) n) ≡ true
unfolding inserts entry_pairs ingested_pairs
contains-ingested inv j [] m n c h = h
contains-ingested inv j (p ∷ ps) m n (c, cs) h =
    elim (Bool-cases (is_ingested p.outcome.inventory)) [
      | inl new ↦ elim (Option-cases p.entry) [
        | inl quiet ↦ λ g. ground (arith, ingested-entry inv (plan_id p) p c new, quiet)
        | inr (x, e) ↦
            rw (new, e)
              (contains-ingested inv j ps (insert (plan_id p) tt m) (insert (plan_id p) x n) cs (
                ground
                  (arith, lookup-insert (plan_id p) j tt m, lookup-insert (plan_id p) j x n, h)))
      ]
      | inr old ↦ elim (Option-cases p.entry) [
        | inl quiet ↦ rw (old, quiet) (contains-ingested inv j ps m n cs h)
        | inr (x, e) ↦
            rw (old, e)
              (contains-ingested inv j ps m (insert (plan_id p) x n) cs
                (ground (arith, lookup-insert (plan_id p) j x n, h)))
      ]
    ]

length-entries {ℓ} :
    {V : Type ℓ} (l : List (FillId × V)) → length (inserts (keys_only l) []) ≡ length (inserts l [])
unfolding lookup
length-entries l = length-keys_only l [] [] refl (λ j. refl)

length-conflicts {ℓ} :
    {V : Type ℓ} (l : List (FillId × V))
    → length (inserts (keys_only l) []) ≡ length (inserts l (inserts l []))
length-conflicts l =
    length-entries l ∙ sym (length-inserts-Present l (inserts l []) (inserts-Present l []))

pub apply_planned-after :
    (inv : MarketInventory) (ps : List Plan) (txn : ExecutionTransaction)
    → inv.generation < u64_limit
    → txn.planned_entries ≡ inserts (entry_pairs ps) []
    → txn.planned_conflicts ≡ inserts (conflict_pairs ps) (inserts (conflict_pairs ps) [])
    → apply_planned txn inv ≡ after_plans inv ps
unfolding apply_planned
apply_planned-after inv ps txn g e c =
    let entries = inserts (entry_pairs ps) [] in
    rw (e) (
      rw (c) (
        ap (apply_conflicts (inserts (conflict_pairs ps) (inserts (conflict_pairs ps) [])))
          (apply_entries-inserts entries inv g)
        ∙ apply_conflicts-inserts (inserts (conflict_pairs ps) (inserts (conflict_pairs ps) []))
            (record inv {
              entries = inserts entries inv.entries;
              generation = saturating_add inv.generation (length entries);
            })
            (ground arith)))

pub all_noted-Mirrors :
    (inv : MarketInventory) (ps : List Plan) (f : Fold)
    → AllCoherent inv ps
    → Mirrors f inv
    → Mirrors (close_txn (all_noted (open_txn f) ps)) (after_plans inv ps)
all_noted-Mirrors inv ps f c m = record {
  entries = λ j. lookup-planned j (entry_pairs ps) f.entries inv.entries (m.entries j);
  conflicts =
      λ j. lookup-planned_twice j (conflict_pairs ps) f.conflicts inv.conflicts (m.conflicts j);
  generation =
      ground (
        arith,
        m.generation,
        length-entries (entry_pairs ps),
        length-conflicts (conflict_pairs ps),
      );
  ingested = λ j h. ground (
    arith,
    lookup-planned j (entry_pairs ps) inv.entries inv.entries refl,
    contains-ingested inv j ps f.ingested_ids inv.entries c (m.ingested j) h,
  );
}
