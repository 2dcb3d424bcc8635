-- ===== src/Scenarios/Twice.antt =====
-- A journal with one line twice.
use omsrs.Prelude.{◌≢◌, ◌≡◌, [], ◌∷◌, ◌++◌, some, none, any, true, arith}
use omsrs.Equality.{same_refl}
use omsrs.Execution.Types.{
  ExecutionOutcome, InventoryDisposition, InventoryProvenance, OrderDisposition, JournalLine, ok,
  LedgerId-discrete,
}
use omsrs.Execution.Inventory.{rebuild_inventory}
use omsrs.Execution.Twice.{line_holds, stores, ingests, rebuild_inventory-twice}
use omsrs.Scenarios.Transactions.{market, seen, met, stocked}

abbrev met_first : ExecutionOutcome
met_first = record {
  evidence = seen;
  order = OrderDisposition.no_row;
  inventory = InventoryDisposition.ingested InventoryProvenance.no_row;
  entry_after = some met;
  conflict = none;
}

abbrev line : JournalLine
line = JournalLine.execution_txn (record {
  ledger = market;
  inventory_generation_before = 0;
  executions = met_first ∷ [];
  order = none;
})

line-stores : any (line_holds market (stores "f1")) (line ∷ []) ≡ true
line-stores = ground (arith, same_refl LedgerId-discrete market)

line-ingests : any (line_holds market (ingests "f1")) (line ∷ []) ≡ true
line-ingests = ground (arith, same_refl LedgerId-discrete market)

rebuild_inventory-twice_example : rebuild_inventory market ((line ∷ []) ++ (line ∷ [])) ≢ ok stocked
rebuild_inventory-twice_example =
    rebuild_inventory-twice market "f1" (line ∷ []) (line ∷ []) stocked line-stores line-ingests
