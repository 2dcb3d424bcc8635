-- ===== src/Observation/Targets.antt =====
-- src/observation.rs, lines 1163 to 1215 and 1506 to 1551: the rows that a round accepts are the
-- targets of its transaction.
use omsrs.Prelude.{◌≡◌, refl, none, some, List, [], ◌∷◌, true, false, arith, eq_iff}
use omsrs.Equality.{same_refl, OrderState-discrete, OrderCtx-discrete}
use omsrs.Lifecycle.Types.{ClientOrderId}
use omsrs.Execution.Types.{LedgerId, OrderRow, LedgerId-discrete}
use omsrs.Observation.Types.{WireState}
use omsrs.Observation.Answers.{ObservationTransaction}
use omsrs.Observation.Members.{cids_of, contains, duplicates, check_members}
use omsrs.Observation.Apply.{
  Ids-discrete, sort, find_prepared, check_target, check_targets, check_ids,
}

-- What was seen does not come again.
pub duplicates-contains :
    (c : ClientOrderId) (seen cids : List ClientOrderId)
    → contains c seen ≡ true
    → duplicates seen cids ≡ []
    → contains c cids ≡ false
unfolding duplicates
duplicates-contains c seen [] s h = refl
duplicates-contains c seen (d ∷ ds) s h =
    ground (arith, s, h, eq_iff d c, eq_iff d d, duplicates-contains c (d ∷ seen) ds)

-- Ids of which none was seen and none comes twice.
abbrev pub Distinct : List ClientOrderId → Type 0
Distinct [] = Unit {0}
Distinct (c ∷ cs) = (contains c cs ≡ false) × Distinct cs

pub duplicates-Distinct :
    (seen cids : List ClientOrderId) → duplicates seen cids ≡ [] → Distinct cids
unfolding duplicates
duplicates-Distinct seen [] h = tt
duplicates-Distinct seen (d ∷ ds) h = (
  duplicates-contains d (d ∷ seen) ds (ground (arith, eq_iff d d)) (ground (arith, h)),
  duplicates-Distinct (d ∷ seen) ds (ground (arith, h)),
)

pub check_members-Distinct :
    (ledger : LedgerId) (ws : WireState) (members : List OrderRow)
    → check_members ledger ws members ≡ none
    → duplicates [] (cids_of members) ≡ []
unfolding check_members
check_members-Distinct ledger ws members h = ground (arith, h)

-- Each row of the second list is found under its id in the first.
abbrev AllFound : List OrderRow → List OrderRow → Type 0
AllFound all [] = Unit {0}
AllFound all (t ∷ ts) = (find_prepared t.ctx.client_order_id all ≡ some t) × AllFound all ts

AllFound-cons :
    (p : OrderRow) (all ts : List OrderRow)
    → contains p.ctx.client_order_id (cids_of ts) ≡ false
    → AllFound all ts
    → AllFound (p ∷ all) ts
unfolding find_prepared
AllFound-cons p all [] fresh h = tt
AllFound-cons p all (t ∷ ts) fresh (h, hs) = (
  ground (
    arith,
    fresh,
    h,
    eq_iff p.ctx.client_order_id t.ctx.client_order_id,
    eq_iff t.ctx.client_order_id p.ctx.client_order_id,
  ),
  AllFound-cons p all ts (ground (arith, fresh)) hs,
)

AllFound-self : (ms : List OrderRow) → Distinct (cids_of ms) → AllFound ms ms
unfolding find_prepared
AllFound-self [] d = tt
AllFound-self (m ∷ ms) (fresh, d) = (
  ground (arith, eq_iff m.ctx.client_order_id m.ctx.client_order_id),
  AllFound-cons m ms ms fresh (AllFound-self ms d),
)

check_target_self : (t : OrderRow) → check_target t t ≡ none
unfolding check_target
check_target_self t = ground (
  arith,
  same_refl LedgerId-discrete t.ledger,
  same_refl OrderState-discrete t.state,
  same_refl OrderCtx-discrete t.ctx,
)

check_targets-AllFound :
    (txn : ObservationTransaction) (found : List ClientOrderId) (ts : List OrderRow)
    → AllFound txn.prepared_members ts
    → check_targets txn found ts ≡ none
unfolding check_targets
check_targets-AllFound txn found [] h = refl
check_targets-AllFound txn found (t ∷ ts) (h, hs) =
    ground (arith, h, check_target_self t, check_targets-AllFound txn found ts hs)

-- The rows that a round accepted pass as targets.
pub check_targets-prepared :
    (txn : ObservationTransaction) (found : List ClientOrderId)
    → duplicates [] (cids_of txn.prepared_members) ≡ []
    → check_targets txn found txn.prepared_members ≡ none
check_targets-prepared txn found h =
    check_targets-AllFound txn found txn.prepared_members
      (AllFound-self txn.prepared_members (duplicates-Distinct [] (cids_of txn.prepared_members) h))

pub check_ids-prepared :
    (txn : ObservationTransaction)
    → duplicates [] txn.prepared_cids ≡ []
    → check_ids txn txn.prepared_cids ≡ none
unfolding check_ids
check_ids-prepared txn h = ground (arith, h, same_refl Ids-discrete (sort txn.prepared_cids))
