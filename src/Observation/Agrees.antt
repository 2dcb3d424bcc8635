-- ===== src/Observation/Agrees.antt =====
-- src/observation.rs, lines 1046 to 1113: on a journal without observations the rebuild of an order
-- agrees with that of src/execution.rs.
use mathlib.Core.Path.{subst}
use omsrs.Prelude.{
  ℕ, ◌+◌, ◌==◌, ◌≡◌, refl, ap, ◌∙◌, Option, none, some, List, [], ◌∷◌, arith, ◌&&◌, same_text,
  Option-cases, Bool-cases, inl, inr,
}
use omsrs.Equality.{same, same_refl, eq_of_same, OrderState-discrete, OrderCtx-discrete}
use omsrs.SeqMap.{SeqMap, lookup, insert}
use omsrs.Lifecycle.Types.{ClientOrderId}
use omsrs.Execution.Types.{
  LedgerId, OrderRow, OrderTxnRecord, JournalLine, RebuildError, Result, Result-cases, ok,
  LedgerId-discrete, OrderTxnRecord-discrete,
}
use omsrs.Execution.Restore.{
  order_part, restored_row, collect_snap, collect_snaps, last_snap, rebuild_order,
}
use omsrs.Observation.Types.{WireLine}
use omsrs.Observation.Restore.{
  Snap, insert_snap, snap_order, snap_line, snap_lines, last_of_snaps,
  rebuild_order_with_observations,
}

abbrev pub lines_of : List JournalLine → List WireLine
lines_of [] = []
lines_of (l ∷ ls) = WireLine.line l ∷ lines_of ls

abbrev snap_of : OrderTxnRecord → Snap
snap_of o = (o.state_after, o.ctx_after)

abbrev snaps_of : SeqMap OrderTxnRecord → SeqMap Snap
snaps_of [] = []
snaps_of ((seq, o) ∷ m) = (seq, snap_of o) ∷ snaps_of m

-- Each record stands under its own number.
abbrev Keyed : SeqMap OrderTxnRecord → Type 0
Keyed [] = Unit {0}
Keyed ((seq, o) ∷ m) = (o.seq ≡ seq) × Keyed m

lookup-snaps_of :
    (k : ℕ) (m : SeqMap OrderTxnRecord)
    → lookup k (snaps_of m) ≡ elim (lookup k m) [ none ↦ none | some o ↦ some (snap_of o) ]
unfolding lookup
lookup-snaps_of k [] = refl
lookup-snaps_of k ((j, o) ∷ m) = ground (arith, lookup-snaps_of k m)

insert-snaps_of :
    (k : ℕ) (o : OrderTxnRecord) (m : SeqMap OrderTxnRecord)
    → insert k (snap_of o) (snaps_of m) ≡ snaps_of (insert k o m)
unfolding insert
insert-snaps_of k o [] = refl
insert-snaps_of k o ((j, p) ∷ m) = ground (arith, insert-snaps_of k o m)

insert-Keyed : (o : OrderTxnRecord) (m : SeqMap OrderTxnRecord) → Keyed m → Keyed (insert o.seq o m)
unfolding insert
insert-Keyed o [] h = (refl, tt)
insert-Keyed o ((j, p) ∷ m) (e, h) = ground (arith, e, h, insert-Keyed o m h)

module _ (ledger : LedgerId) (cid : ClientOrderId) where
  insert_snap-known :
      (m : SeqMap OrderTxnRecord) (o : OrderTxnRecord)
      → lookup o.seq m ≡ some o
      → insert_snap ledger cid (snaps_of m) o.seq o.state_after o.ctx_after ≡ ok (snaps_of m)
  unfolding insert_snap
  insert_snap-known m o h = ground (
    arith,
    h,
    lookup-snaps_of o.seq m,
    same_refl OrderState-discrete o.state_after,
    same_refl OrderCtx-discrete o.ctx_after,
  )

  insert_snap-new :
      (m : SeqMap OrderTxnRecord) (o : OrderTxnRecord)
      → lookup o.seq m ≡ none
      → insert_snap ledger cid (snaps_of m) o.seq o.state_after o.ctx_after
        ≡ ok (snaps_of (insert o.seq o m))
  unfolding insert_snap
  insert_snap-new m o h = ground (arith, h, lookup-snaps_of o.seq m, insert-snaps_of o.seq o m)

  moved :
      (m next : SeqMap OrderTxnRecord) (r : Result RebuildError (SeqMap Snap))
      → r ≡ ok (snaps_of m)
      → m ≡ next
      → Keyed m
      → (r ≡ ok (snaps_of next)) × Keyed next
  moved m next r h e k = (
    h ∙ ap (λ (x : SeqMap OrderTxnRecord). ok (snaps_of x)) e,
    subst (λ (x : SeqMap OrderTxnRecord). Keyed x) e k,
  )

  snap_order-collect :
      (m next : SeqMap OrderTxnRecord) (o : OrderTxnRecord)
      → collect_snap ledger cid m o ≡ ok next
      → Keyed m
      → (snap_order ledger cid (snaps_of m) o ≡ ok (snaps_of next)) × Keyed next
  unfolding collect_snap snap_order
  snap_order-collect m next o h k =
      elim (Bool-cases
        (same LedgerId-discrete o.ledger ledger && same_text o.client_order_id cid)) [
          | inr other ↦
              moved m next (snap_order ledger cid (snaps_of m) o) (ground (arith, other))
                (ground (arith, h, other)) k
          | inl own ↦ elim (Option-cases (lookup o.seq m)) [
            | inl new ↦
                moved (insert o.seq o m) next (snap_order ledger cid (snaps_of m) o)
                  (ground (arith, own, insert_snap-new m o new)) (ground (arith, h, own, new))
                  (insert-Keyed o m k)
            | inr (prev, known) ↦ elim (Bool-cases (same OrderTxnRecord-discrete prev o)) [
              | inr differ ↦ ground (arith, h, own, known, differ)
              | inl agree ↦
                  let again : lookup o.seq m ≡ some o =
                    known ∙ ap some (eq_of_same OrderTxnRecord-discrete prev o agree) in
                  moved m next (snap_order ledger cid (snaps_of m) o)
                    (ground (arith, own, insert_snap-known m o again))
                    (ground (arith, h, own, known, agree)) k
            ]
          ]
        ]

  snap_lines-collect :
      (m last : SeqMap OrderTxnRecord) (lines : List JournalLine)
      → collect_snaps ledger cid m lines ≡ ok last
      → Keyed m
      → (snap_lines ledger cid (snaps_of m) (lines_of lines) ≡ ok (snaps_of last)) × Keyed last
  unfolding collect_snaps snap_lines snap_line
  snap_lines-collect m last [] h k = moved m last (ok (snaps_of m)) refl (ground (arith, h)) k
  snap_lines-collect m last (l ∷ lines) h k = elim (Option-cases (order_part l)) [
    | inl other ↦
        let (e, kl) = snap_lines-collect m last lines (ground (arith, h, other)) k in
        (ground (arith, other, e), kl)
    | inr (o, own) ↦ elim (Result-cases (collect_snap ledger cid m o)) [
      | inr (x, p) ↦ ground (arith, h, own, p)
      | inl (next, p) ↦
          let (e, kn) = snap_order-collect m next o p k in
          let (f, kl) = snap_lines-collect next last lines (ground (arith, h, own, p)) kn in
          (ground (arith, own, e, f), kl)
    ]
  ]

  -- The last snapshot with its number.
  abbrev last_of : Option OrderTxnRecord → Option (ℕ × Snap)
  last_of none = none
  last_of (some o) = some (o.seq, snap_of o)

  last_of_snaps-last_snap :
      (expected : ℕ) (last found : Option OrderTxnRecord) (m : SeqMap OrderTxnRecord)
      → last_snap ledger cid expected last m ≡ ok found
      → Keyed m
      → last_of_snaps ledger cid expected (last_of last) (snaps_of m) ≡ ok (last_of found)
  unfolding last_snap last_of_snaps
  last_of_snaps-last_snap expected last found [] h k =
      ap (λ (o : Option OrderTxnRecord). ok (last_of o)) (ground (arith, h))
  last_of_snaps-last_snap expected last found ((seq, o) ∷ m) h (e, k) =
      elim (Bool-cases (seq == expected)) [
        | inr gap ↦ ground (arith, h, gap)
        | inl here ↦
            let same_seq : o.seq ≡ expected = ground (arith, e, here) in
            let rest =
              last_of_snaps-last_snap (expected + 1) (some o) found m (ground (arith, h, here)) k in
            let rest' =
              subst
                (λ (n : ℕ).
                  last_of_snaps ledger cid (expected + 1) (some (n, snap_of o)) (snaps_of m)
                  ≡ ok (last_of found))
                same_seq rest in
            ground (arith, here, rest')
      ]

  rebuilt-last_of :
      (lines : List JournalLine) (found : Option OrderRow)
      → rebuild_order ledger cid lines ≡ ok found
      → (snaps : SeqMap OrderTxnRecord) × (last : Option OrderTxnRecord) × (collect_snaps ledger cid
            [] lines
          ≡ ok snaps)
        × (last_snap ledger cid 1 none snaps ≡ ok last)
        × (found ≡ elim last [ none ↦ none | some o ↦ some (restored_row ledger o) ])
  unfolding rebuild_order
  rebuilt-last_of lines found h = elim (Result-cases (collect_snaps ledger cid [] lines)) [
    | inr (x, p) ↦ ground (arith, h, p)
    | inl (snaps, p) ↦ elim (Result-cases (last_snap ledger cid 1 none snaps)) [
      | inr (x, q) ↦ ground (arith, h, p, q)
      | inl (last, q) ↦ (snaps, last, p, q, ground (arith, h, p, q))
    ]
  ]

-- Where rebuild_order restores a row, or no row, from a journal of order and execution
-- transactions, rebuild_order_with_observations returns the same from the same journal.
pub rebuild_order_with_observations-agrees :
    (ledger : LedgerId) (cid : ClientOrderId) (lines : List JournalLine) (found : Option OrderRow)
    → rebuild_order ledger cid lines ≡ ok found
    → rebuild_order_with_observations ledger cid (lines_of lines) ≡ ok found
unfolding rebuild_order_with_observations
rebuild_order_with_observations-agrees ledger cid lines found h =
    let (snaps, last, p, q, e) = rebuilt-last_of ledger cid lines found h in
    let (collected, keyed) = snap_lines-collect ledger cid [] snaps lines p tt in
    let ended = last_of_snaps-last_snap ledger cid 1 none last snaps q keyed in
    ground (arith, collected, ended, e)
