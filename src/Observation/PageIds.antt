-- ===== src/Observation/PageIds.antt =====
-- src/observation.rs, lines 1589 to 1610: which executions a page is said to hold.
use mathlib.Core.Path.{subst}
use omsrs.Prelude.{
  ◌≡◌, ◌≢◌, ◌⊎◌, inl, inr, ◌↔◌, refl, none, some, List, [], ◌∷◌, Bool, true, false, not, ◌&&◌, ◌||◌,
  is_some, any, arith, eq_iff, same_text, if◌then◌else◌, Option-cases, Bool-cases,
}
use omsrs.BTreeMap.{BTreeMap, contains_key, lookup, insert, lookup-insert}
use omsrs.Execution.Types.{
  InventoryEntry, InventoryDisposition, OrderDisposition, ExecutionOutcome, IgnoreReason,
  ConflictClass,
}
use omsrs.Lifecycle.Types.{FillId}
use omsrs.Observation.Members.{page_ids_from, page_ids, is_zero_ignored, is_conflict}
use omsrs.Observation.Observe.{shows_conflict}

-- No execution is in conflict, with the inventory or by a conflict fact of its own.
abbrev pub Agree : List ExecutionOutcome → Type 0
Agree [] = Unit {0}
Agree (o ∷ os) =
    (o.conflict ≡ none)
    × ((class : ConflictClass) → o.inventory ≢ InventoryDisposition.conflict class)
    × Agree os

-- The outcome is of this execution, which was not ignored, and left an entry or is in conflict.
pub record Counts (id : FillId) (o : ExecutionOutcome) : Type 0 where
  pub is_of : o.evidence.execution_id ≡ id
  pub heeded : (reason : IgnoreReason) → o.order ≢ OrderDisposition.ignored reason
  pub known :
      ((entry : InventoryEntry) × (o.entry_after ≡ some entry))
      ⊎ ((class : ConflictClass) × (o.inventory ≡ InventoryDisposition.conflict class))

pub data OnPage (id : FillId) : List ExecutionOutcome → Type 0 where
  here : {o : ExecutionOutcome} {os : List ExecutionOutcome} → Counts id o → OnPage id (o ∷ os)
  there : {o : ExecutionOutcome} {os : List ExecutionOutcome} → OnPage id os → OnPage id (o ∷ os)

conflict-class :
    (d : InventoryDisposition)
    → is_conflict d ≡ true
    → (class : ConflictClass) × (d ≡ InventoryDisposition.conflict class)
conflict-class (InventoryDisposition.conflict class) h = (class, refl)
conflict-class (InventoryDisposition.ingested p) h = ground (arith, h)
conflict-class InventoryDisposition.duplicate h = ground (arith, h)
conflict-class InventoryDisposition.upgraded h = ground (arith, h)
conflict-class InventoryDisposition.unchanged h = ground (arith, h)

no_conflict :
    (d : InventoryDisposition)
    → (is_conflict d ≡ false) ↔ ((class : ConflictClass) → d ≢ InventoryDisposition.conflict class)
no_conflict (InventoryDisposition.conflict class) =
    (λ h. ground (arith, h), λ h. absurd (h class refl))
no_conflict (InventoryDisposition.ingested p) = (λ h class e. ground (arith, e), λ h. refl)
no_conflict InventoryDisposition.duplicate = (λ h class e. ground (arith, e), λ h. refl)
no_conflict InventoryDisposition.upgraded = (λ h class e. ground (arith, e), λ h. refl)
no_conflict InventoryDisposition.unchanged = (λ h class e. ground (arith, e), λ h. refl)

pub any-Agree : (os : List ExecutionOutcome) → any shows_conflict os ≡ false → Agree os
any-Agree [] h = tt
any-Agree (o ∷ os) h = (
  elim (Option-cases o.conflict) [ inl e ↦ e | inr (fact, e) ↦ ground (arith, h, e) ],
  (no_conflict o.inventory).0 (ground (arith, h)),
  any-Agree os (ground (arith, h)),
)

pub Agree-any : (os : List ExecutionOutcome) → Agree os → any shows_conflict os ≡ false
Agree-any [] h = refl
Agree-any (o ∷ os) (c, i, h) = ground (arith, c, (no_conflict o.inventory).1 i, Agree-any os h)

heed :
    (d : OrderDisposition)
    → (is_zero_ignored d ≡ false) ↔ ((reason : IgnoreReason) → d ≢ OrderDisposition.ignored reason)
heed (OrderDisposition.ignored reason) = (λ h. ground (arith, h), λ h. absurd (h reason refl))
heed OrderDisposition.attributed = (λ h reason e. ground (arith, e), λ h. refl)
heed OrderDisposition.enriched = (λ h reason e. ground (arith, e), λ h. refl)
heed OrderDisposition.duplicate = (λ h reason e. ground (arith, e), λ h. refl)
heed OrderDisposition.late_booked = (λ h reason e. ground (arith, e), λ h. refl)
heed (OrderDisposition.not_attributed_by_order b) = (λ h reason e. ground (arith, e), λ h. refl)
heed OrderDisposition.no_row = (λ h reason e. ground (arith, e), λ h. refl)
heed (OrderDisposition.refused r) = (λ h reason e. ground (arith, e), λ h. refl)

-- The test of the source.
abbrev counts : ExecutionOutcome → Bool
counts o = not (is_zero_ignored o.order) && (is_some o.entry_after || is_conflict o.inventory)

abbrev noted : BTreeMap (Unit {0}) → ExecutionOutcome → BTreeMap (Unit {0})
noted p o = if counts o then insert o.evidence.execution_id tt p else p

counts-Counts : (o : ExecutionOutcome) → counts o ≡ true → Counts o.evidence.execution_id o
counts-Counts o h = record {
  is_of = refl;
  heeded = (heed o.order).0 (ground (arith, h));
  known = elim (Option-cases o.entry_after) [
    | inr known ↦ inl known
    | inl e ↦ inr (conflict-class o.inventory (ground (arith, h, e)))
  ];
}

Counts-counts : (id : FillId) (o : ExecutionOutcome) → Counts id o → counts o ≡ true
Counts-counts id o c =
    let h = (heed o.order).1 c.heeded in
    elim c.known [ inl (entry, e) ↦ ground (arith, h, e) | inr (class, e) ↦ ground (arith, h, e) ]

-- What one outcome adds to the ids.
noted-Counts :
    (id : FillId) (p : BTreeMap (Unit {0})) (o : ExecutionOutcome)
    → contains_key id (noted p o) ≡ true
    → (contains_key id p ≡ true) ⊎ Counts id o
noted-Counts id p o h = elim (Bool-cases (counts o)) [
  | inl c ↦ elim (Bool-cases (same_text o.evidence.execution_id id)) [
    | inl same ↦
        inr
          (subst (λ i. Counts i o) ((eq_iff o.evidence.execution_id id).0 same) (counts-Counts o c))
    | inr other ↦ inl (ground (arith, h, c, other, lookup-insert o.evidence.execution_id id tt p))
  ]
  | inr c ↦ inl (ground (arith, h, c))
]

Counts-noted :
    (id : FillId) (p : BTreeMap (Unit {0})) (o : ExecutionOutcome)
    → Counts id o
    → contains_key id (noted p o) ≡ true
Counts-noted id p o c = ground (
  arith,
  Counts-counts id o c,
  c.is_of,
  eq_iff o.evidence.execution_id id,
  lookup-insert o.evidence.execution_id id tt p,
)

noted-contains_key :
    (id : FillId) (p : BTreeMap (Unit {0})) (o : ExecutionOutcome)
    → contains_key id p ≡ true
    → contains_key id (noted p o) ≡ true
noted-contains_key id p o h = ground (arith, h, lookup-insert o.evidence.execution_id id tt p)

page_ids_from-OnPage :
    (id : FillId) (p : BTreeMap (Unit {0})) (os : List ExecutionOutcome)
    → contains_key id (page_ids_from p os) ≡ true
    → (contains_key id p ≡ true) ⊎ OnPage id os
unfolding page_ids_from
page_ids_from-OnPage id p [] h = inl h
page_ids_from-OnPage id p (o ∷ os) h = elim (page_ids_from-OnPage id (noted p o) os h) [
  | inl k ↦ elim (noted-Counts id p o k) [ inl old ↦ inl old | inr c ↦ inr (OnPage.here c) ]
  | inr later ↦ inr (OnPage.there later)
]

page_ids_from-contains_key :
    (id : FillId) (p : BTreeMap (Unit {0})) (os : List ExecutionOutcome)
    → contains_key id p ≡ true
    → contains_key id (page_ids_from p os) ≡ true
unfolding page_ids_from
page_ids_from-contains_key id p [] h = h
page_ids_from-contains_key id p (o ∷ os) h =
    page_ids_from-contains_key id (noted p o) os (noted-contains_key id p o h)

OnPage-page_ids_from :
    (id : FillId) (p : BTreeMap (Unit {0})) {os : List ExecutionOutcome}
    → OnPage id os
    → contains_key id (page_ids_from p os) ≡ true
unfolding page_ids_from
OnPage-page_ids_from id p (OnPage.here {o} {os} c) =
    page_ids_from-contains_key id (noted p o) os (Counts-noted id p o c)
OnPage-page_ids_from id p (OnPage.there {o} later) = OnPage-page_ids_from id (noted p o) later

pub page_ids-OnPage :
    (id : FillId) (os : List ExecutionOutcome)
    → (contains_key id (page_ids os) ≡ true) ↔ OnPage id os
unfolding page_ids lookup
page_ids-OnPage id os = (
  λ h. elim (page_ids_from-OnPage id [] os h) [ inl k ↦ ground (arith, k) | inr on ↦ on ],
  OnPage-page_ids_from id [],
)
