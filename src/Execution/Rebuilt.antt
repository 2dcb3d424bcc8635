-- ===== src/Execution/Rebuilt.antt =====
-- The order that `rebuild_order` finds in a journal is the live one.
use mathlib.Core.List.{append_assoc, append-nil}
use omsrs.Prelude.{
  ℕ, suc, ◌+◌, ◌≡◌, ◌≢◌, refl, sym, ap, ◌∙◌, ◌⊎◌, inl, inr, Option, none, some, List, [], ◌∷◌, ◌++◌,
  arith, eq_iff,
}
use omsrs.Equality.{same_of_eq, same_refl, same_of_ne}
use omsrs.SeqMap.{
  SeqMap, lookup, insert, numbered, count, insert-numbered_next, lookup-numbered_next,
  lookup-numbered_last, count-push,
}
use omsrs.Lifecycle.Types.{ClientOrderId}
use omsrs.Lifecycle.Invariant.{IsValid, Advances-IsValid}
use omsrs.Execution.Types.{
  LedgerId, OrderRow, OrderTxnRecord, JournalLine, ok, LedgerId-discrete, OrderTxnRecord-discrete,
}
use omsrs.Execution.Restore.{
  order_part, collect_snap, collect_snaps, last_snap, restored_row, rebuild_order,
}
use omsrs.Execution.Durable.{Step, own, other, commit, run, Recorded, Written, commit-Written}

-- A line that the order does not own.
pub data IsForeign (ledger : LedgerId) (cid : ClientOrderId) (line : JournalLine) : Type 0 where
  no_snapshot : order_part line ≡ none → IsForeign ledger cid line
  other_ledger :
      (o : OrderTxnRecord)
      → order_part line ≡ some o
      → o.ledger ≢ ledger
      → IsForeign ledger cid line
  other_order :
      (o : OrderTxnRecord)
      → order_part line ≡ some o
      → o.client_order_id ≢ cid
      → IsForeign ledger cid line

abbrev pub OthersForeign : LedgerId → ClientOrderId → List Step → Type 0
OthersForeign ledger cid [] = Unit
OthersForeign ledger cid (own ev again ∷ ss) = OthersForeign ledger cid ss
OthersForeign ledger cid (other line ∷ ss) = IsForeign ledger cid line × OthersForeign ledger cid ss

module _ (ledger : LedgerId) (cid : ClientOrderId) where
  snap_new :
      (snaps : SeqMap OrderTxnRecord) (o : OrderTxnRecord)
      → o.ledger ≡ ledger
      → o.client_order_id ≡ cid
      → lookup o.seq snaps ≡ none
      → collect_snap ledger cid snaps o ≡ ok (insert o.seq o snaps)
  unfolding collect_snap
  snap_new snaps o l c n =
      ground
        (arith, same_of_eq LedgerId-discrete o.ledger ledger l, eq_iff o.client_order_id cid, n)

  snap_again :
      (snaps : SeqMap OrderTxnRecord) (o : OrderTxnRecord)
      → lookup o.seq snaps ≡ some o
      → collect_snap ledger cid snaps o ≡ ok snaps
  unfolding collect_snap
  snap_again snaps o found = ground (arith, same_refl OrderTxnRecord-discrete o, found)

  foreign_line :
      (snaps : SeqMap OrderTxnRecord) (line : JournalLine) (rest : List JournalLine)
      → IsForeign ledger cid line
      → collect_snaps ledger cid snaps (line ∷ rest) ≡ collect_snaps ledger cid snaps rest
  unfolding collect_snaps collect_snap
  foreign_line snaps line rest (no_snapshot e) = ground (arith, e)
  foreign_line snaps line rest (other_ledger o e n) =
      ground (arith, e, same_of_ne LedgerId-discrete o.ledger ledger n)
  foreign_line snaps line rest (other_order o e n) =
      ground (arith, e, eq_iff o.client_order_id cid, n)

  -- The row after the snapshots `done`.
  abbrev latest : OrderRow → List OrderTxnRecord → OrderRow
  latest row [] = row
  latest row (o ∷ os) = latest (restored_row ledger o) os

  latest-push :
      (row : OrderRow) (o : OrderTxnRecord) (os : List OrderTxnRecord)
      → latest row (os ++ o ∷ []) ≡ restored_row ledger o
  latest-push row o [] = refl
  latest-push row o (p ∷ os) = latest-push (restored_row ledger p) o os

  -- The snapshots so far are numbered from 1 and end at the row.
  record Tracks (start row : OrderRow) (done : List OrderTxnRecord) : Type 0 where
    ledger_kept : row.ledger ≡ ledger
    owner_kept : row.ctx.client_order_id ≡ cid
    valid : IsValid row.ctx
    counted : 1 + count done ≡ row.cursor.seq + 1
    ends : latest start done ≡ row

  Tracks-push :
      (start row r : OrderRow) (done : List OrderTxnRecord) (o : OrderTxnRecord)
      → Tracks start row done
      → Recorded row r o
      → Tracks start r (done ++ o ∷ [])
  Tracks-push start row r done o t rec = record {
    ledger_kept = ground (arith, t.ledger_kept, rec.restored);
    owner_kept = ground (arith, t.owner_kept, rec.advances);
    valid = Advances-IsValid rec.advances;
    counted = ground (arith, t.counted, rec.restored, rec.seq, count-push o done);
    ends =
        latest-push start o done
        ∙ ap (λ l. restored_row l o) (sym t.ledger_kept)
        ∙ sym rec.restored;
  }

  -- The lines of a step are read as its snapshots.
  abbrev Collected : OrderRow → OrderRow → List OrderTxnRecord → List JournalLine → Type 0
  Collected start r done lines =
      (done' : List OrderTxnRecord) × Tracks start r done'
      × ((rest : List JournalLine)
          → collect_snaps ledger cid (numbered 1 done) (lines ++ rest)
            ≡ collect_snaps ledger cid (numbered 1 done') rest)

  collect_once :
      (start row r : OrderRow) (done : List OrderTxnRecord) (o : OrderTxnRecord)
      (rest : List JournalLine)
      → Tracks start row done
      → Recorded row r o
      → collect_snaps ledger cid (numbered 1 done) (JournalLine.order_txn o ∷ rest)
        ≡ collect_snaps ledger cid (numbered 1 (done ++ o ∷ [])) rest
  unfolding collect_snaps
  collect_once start row r done o rest t rec =
      let next : 1 + count done ≡ o.seq = ground (arith, t.counted, rec.seq) in
      let fresh : lookup o.seq (numbered 1 done) ≡ none = lookup-numbered_next 1 o.seq done next in
      let taken =
        snap_new (numbered 1 done) o (rec.ledger ∙ t.ledger_kept) (rec.owner ∙ t.owner_kept)
          fresh in
      rw (taken, collect_snaps)
        (ap (λ m. collect_snaps ledger cid m rest) (insert-numbered_next 1 o.seq o done next))

  collect_again :
      (start row r : OrderRow) (done : List OrderTxnRecord) (o : OrderTxnRecord)
      (rest : List JournalLine)
      → Tracks start row done
      → Recorded row r o
      → collect_snaps ledger cid (numbered 1 (done ++ o ∷ [])) (JournalLine.order_txn o ∷ rest)
        ≡ collect_snaps ledger cid (numbered 1 (done ++ o ∷ [])) rest
  unfolding collect_snaps
  collect_again start row r done o rest t rec =
      let next : 1 + count done ≡ o.seq = ground (arith, t.counted, rec.seq) in
      let found =
        snap_again (numbered 1 (done ++ o ∷ [])) o (lookup-numbered_last 1 o.seq o done next) in
      rw (found, collect_snaps)

  Written-Collected :
      (start row r : OrderRow) (lines : List JournalLine) (done : List OrderTxnRecord)
      → Tracks start row done
      → Written row (r, lines)
      → Collected start r done lines
  Written-Collected start row r lines done t (inl (same_row, silent)) =
      (done, rw same_row t, λ rest. rw silent)
  Written-Collected start row r lines done t (inr (o, rec, inl once)) = (
    done ++ o ∷ [],
    Tracks-push start row r done o t rec,
    λ rest. rw once (collect_once start row r done o rest t rec),
  )
  Written-Collected start row r lines done t (inr (o, rec, inr twice)) = (
    done ++ o ∷ [],
    Tracks-push start row r done o t rec,
    λ rest. rw twice (
        collect_once start row r done o (JournalLine.order_txn o ∷ rest) t rec
        ∙ collect_again start row r done o rest t rec),
  )

  run-Collected :
      (start row : OrderRow) (steps : List Step) (done : List OrderTxnRecord)
      → Tracks start row done
      → OthersForeign ledger cid steps
      → Collected start (run row steps).0 done (run row steps).1
  unfolding run
  run-Collected start row [] done t f = (done, t, λ rest. refl)
  run-Collected start row (other line ∷ ss) done t (foreign, f) =
      let (done', t', same_tail) = run-Collected start row ss done t f in
      (
        done',
        t',
        λ rest.
            foreign_line (numbered 1 done) line ((run row ss).1 ++ rest) foreign ∙ same_tail rest,
      )
  run-Collected start row (own ev again ∷ ss) done t f =
      let (done', t', same_head) =
        Written-Collected start row (commit row (own ev again)).0 (commit row (own ev again)).1 done
          t (commit-Written row ev again t.valid) in
      let (done'', t'', same_tail) =
        run-Collected start (commit row (own ev again)).0 ss done' t' f in
      (
        done'',
        t'',
        λ rest.
            ap (collect_snaps ledger cid (numbered 1 done)) (
              append_assoc (commit row (own ev again)).1 (run (commit row (own ev again)).0 ss).1
                rest)
            ∙ same_head ((run (commit row (own ev again)).0 ss).1 ++ rest)
            ∙ same_tail rest,
      )

  abbrev last_of : Option OrderTxnRecord → List OrderTxnRecord → Option OrderTxnRecord
  last_of last [] = last
  last_of last (o ∷ os) = last_of (some o) os

  last_snap-numbered :
      (from : ℕ) (last : Option OrderTxnRecord) (os : List OrderTxnRecord)
      → last_snap ledger cid from last (numbered from os) ≡ ok (last_of last os)
  unfolding last_snap
  last_snap-numbered from last [] = refl
  last_snap-numbered from last (o ∷ os) = ground (arith, last_snap-numbered (suc from) (some o) os)

  latest-last_of :
      (row : OrderRow) (o : OrderTxnRecord) (os : List OrderTxnRecord)
      → (p : OrderTxnRecord) × (last_of (some o) os ≡ some p)
        × (latest (restored_row ledger o) os ≡ restored_row ledger p)
  latest-last_of row o [] = (o, refl, refl)
  latest-last_of row o (q ∷ os) = latest-last_of row q os

  rebuild-of_snaps :
      (lines : List JournalLine) (o : OrderTxnRecord) (os : List OrderTxnRecord)
      → collect_snaps ledger cid [] lines ≡ ok (numbered 1 (o ∷ os))
      → rebuild_order ledger cid lines ≡ ok (some (latest (restored_row ledger o) os))
  unfolding rebuild_order
  rebuild-of_snaps lines o os h =
      let (p, last, end) = latest-last_of (restored_row ledger o) o os in
      let snap : last_snap ledger cid 1 none (numbered 1 (o ∷ os)) ≡ ok (some p) =
        last_snap-numbered 1 none (o ∷ os) ∙ ap ok last in
      rw (h, rebuild_order) (rw (snap, rebuild_order) (ap (λ r. ok (some r)) (sym end)))

  rebuilt :
      (start row : OrderRow) (lines : List JournalLine) (done : List OrderTxnRecord)
      → Tracks start row done
      → collect_snaps ledger cid [] lines ≡ ok (numbered 1 done)
      → (rebuild_order ledger cid lines ≡ ok (some row))
        ⊎ ((rebuild_order ledger cid lines ≡ ok none) × (row ≡ start))
  unfolding rebuild_order last_snap
  rebuilt start row lines [] t h = inr (rw (h, rebuild_order), sym t.ends)
  rebuilt start row lines (o ∷ os) t h =
      inl (rebuild-of_snaps lines o os h ∙ ap (λ r. ok (some r)) t.ends)

starts :
    (row : OrderRow)
    → IsValid row.ctx
    → row.cursor.seq ≡ 0
    → Tracks row.ledger row.ctx.client_order_id row row []
starts row v fresh = record {
  ledger_kept = refl;
  owner_kept = refl;
  valid = v;
  counted = omega arith;
  ends = refl;
}

-- Take a row with a valid context and cursor 0, and any list of steps, each an event of the order
-- that is prepared, journaled once or twice and applied (or refused), or a journal line that is no
-- snapshot of this order in this ledger. From the journal written by these steps, rebuild_order
-- returns exactly the final row, or it returns no row and the steps have left the row unchanged.
pub rebuild_order-run :
    (row : OrderRow) (steps : List Step)
    → IsValid row.ctx
    → row.cursor.seq ≡ 0
    → OthersForeign row.ledger row.ctx.client_order_id steps
    → (rebuild_order row.ledger row.ctx.client_order_id (run row steps).1
        ≡ ok (some (run row steps).0))
      ⊎ ((rebuild_order row.ledger row.ctx.client_order_id (run row steps).1 ≡ ok none)
          × ((run row steps).0 ≡ row))
unfolding collect_snaps
rebuild_order-run row steps v fresh f =
    let (done, t, read) =
      run-Collected row.ledger row.ctx.client_order_id row row steps [] (starts row v fresh) f in
    rebuilt row.ledger row.ctx.client_order_id row (run row steps).0 (run row steps).1 done t (
      ap (collect_snaps row.ledger row.ctx.client_order_id []) (sym (append-nil (run row steps).1))
      ∙ read [])
