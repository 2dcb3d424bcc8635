-- ===== src/Observation/Apply.antt =====
-- src/observation.rs, lines 1507 to 1585: an observation is applied to its members and its wire.
use Prim.Native.Nat.{Ordering}
use Prim.Native.String.{compare}
use omsrs.Prelude.{
  ◌==◌, String, Option, none, some, List, [], ◌∷◌, not, ◌||◌, is_empty, length, same_text,
  if◌then◌else◌,
}
use omsrs.Equality.{same, String-discrete, OrderState-discrete, OrderCtx-discrete}
use mathlib.Core.List.{List-discrete}
use omsrs.Lifecycle.Types.{ClientOrderId}
use omsrs.Execution.Types.{
  OrderRow, MarketInventory, ApplyMismatch, Result, ok, err, LedgerId-discrete,
}
use omsrs.Observation.Types.{MemberAfter, WireRegistry}
use omsrs.Observation.Answers.{ObservationTransaction, ObservationApplyMismatch}
use omsrs.Observation.Registry.{put_wire, marker}
use omsrs.Observation.Members.{cids_of, duplicates}
use omsrs.Observation.Round.{find_after}

-- `sort` of a vector of texts.
unfoldable pub insert_sorted : String → List String → List String
insert_sorted s [] = s ∷ []
insert_sorted s (t ∷ ts) = elim (compare s t) [
  | Ordering.gt ↦ t ∷ insert_sorted s ts
  | _ ↦ s ∷ t ∷ ts
]

unfoldable pub sort : List String → List String
sort [] = []
sort (s ∷ ss) = insert_sorted s (sort ss)

abbrev pub Ids-discrete : Discrete (List String)
Ids-discrete = List-discrete String-discrete

unfoldable pub find_prepared : ClientOrderId → List OrderRow → Option OrderRow
find_prepared cid [] = none
find_prepared cid (p ∷ ps) =
    let rest = find_prepared cid ps in if same_text p.ctx.client_order_id cid then some p else rest

-- A target against the row of the preparation.
unfoldable pub check_target : OrderRow → OrderRow → Option ApplyMismatch
check_target prepared target =
    if not (same LedgerId-discrete target.ledger prepared.ledger)
    then some ApplyMismatch.ledger_identity
    else if not (target.cursor.seq == prepared.cursor.seq)
    then some (ApplyMismatch.order_cursor prepared.cursor.seq target.cursor.seq)
    else if not (same OrderState-discrete target.state prepared.state)
        || not (same OrderCtx-discrete target.ctx prepared.ctx)
    then some ApplyMismatch.order_state_or_ctx
    else none

unfoldable pub check_targets :
    ObservationTransaction → List ClientOrderId → List OrderRow → Option ObservationApplyMismatch
check_targets txn found [] = none
check_targets txn found (t ∷ ts) =
    let rest = check_targets txn found ts in
    elim (find_prepared t.ctx.client_order_id txn.prepared_members) [
      | none ↦ some (ObservationApplyMismatch.targets txn.prepared_cids found)
      | some p ↦ elim (check_target p t) [
        | some e ↦ some (ObservationApplyMismatch.member e)
        | none ↦ rest
      ]
    ]

-- The ids of the targets against those of the preparation.
unfoldable pub check_ids :
    ObservationTransaction → List ClientOrderId → Option ObservationApplyMismatch
check_ids txn found =
    if not (same Ids-discrete (sort found) (sort txn.prepared_cids))
      || not (length found == length txn.prepared_cids)
      || not (is_empty (duplicates [] found))
    then some (ObservationApplyMismatch.targets txn.prepared_cids found)
    else none

unfoldable pub check_generations :
    ObservationTransaction → WireRegistry → MarketInventory → Option ObservationApplyMismatch
check_generations txn reg inventory =
    let found = marker reg txn.ledger txn.wire in
    if not (inventory.generation == txn.expected_inventory_generation)
    then some (
        ObservationApplyMismatch.member (
          ApplyMismatch.inventory_generation txn.expected_inventory_generation
            inventory.generation))
    else if not (found == txn.expected_wire_generation)
    then some (ObservationApplyMismatch.wire_generation txn.expected_wire_generation found)
    else none

unfoldable pub check_application :
    ObservationTransaction
    → List OrderRow
    → WireRegistry
    → MarketInventory
    → Option ObservationApplyMismatch
check_application txn members reg inventory = elim (check_ids txn (cids_of members)) [
  | some e ↦ some e
  | none ↦ elim (check_targets txn (cids_of members) members) [
    | some e ↦ some e
    | none ↦ check_generations txn reg inventory
  ]
]

unfoldable pub write_member : List MemberAfter → OrderRow → OrderRow
write_member after t = elim (find_after t.ctx.client_order_id after) [
  | none ↦ t
  | some a ↦ record t { state = a.state_after; ctx = a.ctx_after; cursor = record { seq = a.seq } }
]

unfoldable pub write_members : List MemberAfter → List OrderRow → List OrderRow
write_members after [] = []
write_members after (t ∷ ts) = write_member after t ∷ write_members after ts

-- The members and the registry after the observation.
unfoldable pub apply_observation :
    ObservationTransaction
    → List OrderRow
    → WireRegistry
    → MarketInventory
    → Result ObservationApplyMismatch (List OrderRow × WireRegistry)
apply_observation txn members reg inventory = elim (check_application txn members reg inventory) [
  | some e ↦ err e
  | none ↦
      ok (write_members txn.members_after members, put_wire reg txn.ledger txn.wire txn.wire_after)
]
