-- ===== src/Observation/RoundRebuilt.antt =====
-- src/observation.rs, lines 1046 to 1113 and 1403 to 1481: after a round its journal restores each of
-- its rows.
use omsrs.Prelude.{
  ℕ, ◌+◌, ◌≡◌, refl, sym, ap, ◌∙◌, Option, none, some, List, [], ◌∷◌, ◌++◌, false, arith, ◌&&◌,
  is_empty, same_text, eq_iff, if◌then◌else◌, Option-cases, Bool-cases, inl, inr,
}
use omsrs.Equality.{same, same_refl}
use omsrs.SeqMap.{SeqMap, numbered, count, lookup-numbered_next, insert-numbered_next}
use omsrs.Lifecycle.Types.{ClientOrderId}
use omsrs.Execution.Types.{LedgerId, OrderRow, MarketInventory, Result-cases, ok, LedgerId-discrete}
use omsrs.Observation.Types.{
  MemberAfter, RowEvidence, WireState, WireLine, WireRegistry, ObservationOutcome,
  WireState-discrete,
}
use omsrs.Observation.Answers.{ObservationRound, ObservationTransaction}
use omsrs.Observation.Members.{cids_of, contains}
use omsrs.Observation.Observe.{Scratch, observe_member, round_outcome}
use omsrs.Observation.Round.{
  is_unchanged, observe_all, changed_members, find_after, observation_line, observation_of, finish,
}
use omsrs.Observation.Apply.{write_member}
use omsrs.Observation.Restore.{
  Snap, insert_snap, snap_members, snap_line, snap_lines, last_of_snaps,
  rebuild_order_with_observations,
}
use omsrs.Observation.Targets.{Distinct, check_members-Distinct, duplicates-Distinct}
use omsrs.Observation.Marks.{after_cids, changed-contains, changed-Distinct}
use omsrs.Observation.Finished.{seen_wire, finish-inv}
use omsrs.Observation.Mirrored.{is_empty-nil}
use omsrs.Observation.Live.{journaled}
use omsrs.Observation.RoundRows.{
  last_numbered, last_numbered-first, last_numbered-push, last_of_snaps-numbered,
  numbered-last_of_snaps, snap_lines-append, snap_members-find,
}

find_after-other :
    (c : ClientOrderId) (after : List MemberAfter)
    → contains c (after_cids after) ≡ false
    → find_after c after ≡ none
unfolding find_after
find_after-other c [] h = refl
find_after-other c (a ∷ rest) h = ground (arith, h, find_after-other c rest)

-- What the round journals of a row that it changed.
abbrev entry : OrderRow → Scratch → MemberAfter
entry r s = record {
  client_order_id = r.ctx.client_order_id;
  seq = r.cursor.seq + 1;
  state_after = s.state;
  ctx_after = s.ctx;
}

distinct_other :
    (c : ClientOrderId) (before rest : List OrderRow) (row : OrderRow)
    → contains c (cids_of (before ++ row ∷ rest)) ≡ false
    → same_text row.ctx.client_order_id c ≡ false
distinct_other c [] rest row h = ground (arith, h)
distinct_other c (m ∷ before) rest row h = distinct_other c before rest row (ground (arith, h))

find_after-changed :
    (observe : OrderRow → Scratch) (before rest : List OrderRow) (row : OrderRow)
    → Distinct (cids_of (before ++ row ∷ rest))
    → find_after row.ctx.client_order_id
        (changed_members (observe_all observe (before ++ row ∷ rest)))
      ≡ (if is_unchanged row (observe row) then none else some (entry row (observe row)))
unfolding find_after changed_members observe_all
find_after-changed observe [] rest row (fresh, d) =
    let cid = row.ctx.client_order_id in
    let none_later =
      find_after-other cid (changed_members (observe_all observe rest))
        (changed-contains cid observe rest fresh) in
    elim (Bool-cases (is_unchanged row (observe row))) [
      | inl kept ↦ ground (arith, kept, none_later)
      | inr moved ↦ ground (arith, moved, eq_iff cid cid)
    ]
find_after-changed observe (m ∷ before) rest row (fresh, d) =
    let cid = row.ctx.client_order_id in
    let other = distinct_other m.ctx.client_order_id before rest row fresh in
    let later = find_after-changed observe before rest row d in
    elim (Bool-cases (is_unchanged m (observe m))) [
      | inl kept ↦ ground (arith, kept, later)
      | inr moved ↦ ground (
        arith,
        moved,
        other,
        eq_iff m.ctx.client_order_id cid,
        eq_iff cid m.ctx.client_order_id,
        later,
      )
    ]

-- The row that the snapshots restore.
abbrev row_of : LedgerId → Option (ℕ × Snap) → Option OrderRow
row_of ledger none = none
row_of ledger (some (seq, (state, ctx))) =
    some (record { ledger = ledger; cursor = record { seq = seq }; state = state; ctx = ctx })

module _ (ledger : LedgerId) (cid : ClientOrderId) where
  rebuilt_of :
      (lines : List WireLine) (snaps : SeqMap Snap) (last : Option (ℕ × Snap))
      → snap_lines ledger cid [] lines ≡ ok snaps
      → last_of_snaps ledger cid 1 none snaps ≡ ok last
      → rebuild_order_with_observations ledger cid lines ≡ ok (row_of ledger last)
  unfolding rebuild_order_with_observations
  rebuilt_of lines snaps none p q = ground (arith, p, q)
  rebuilt_of lines snaps (some (seq, (state, ctx))) p q = ground (arith, p, q)

  rebuilt_numbered :
      (lines : List WireLine) (found : Option OrderRow)
      → rebuild_order_with_observations ledger cid lines ≡ ok found
      → (vs : List Snap) × (snap_lines ledger cid [] lines ≡ ok (numbered 1 vs))
        × (found ≡ row_of ledger (last_numbered 1 none vs))
  unfolding rebuild_order_with_observations
  rebuilt_numbered lines found h = elim (Result-cases (snap_lines ledger cid [] lines)) [
    | inr (x, p) ↦ ground (arith, h, p)
    | inl (snaps, p) ↦ elim (Result-cases (last_of_snaps ledger cid 1 none snaps)) [
      | inr (x, q) ↦ ground (arith, h, p, q)
      | inl (last, q) ↦
          let (vs, e, f) = last_of_snaps-numbered ledger cid 1 none last snaps q in
          let r : ok found ≡ ok (row_of ledger last) = sym h ∙ rebuilt_of lines snaps last p q in
          let g : found ≡ row_of ledger last = ground (arith, r) in
          (vs, p ∙ ap ok e, g ∙ ap (row_of ledger) f)
    ]
  ]

  numbered_rebuilt :
      (lines : List WireLine) (vs : List Snap)
      → snap_lines ledger cid [] lines ≡ ok (numbered 1 vs)
      → rebuild_order_with_observations ledger cid lines
        ≡ ok (row_of ledger (last_numbered 1 none vs))
  numbered_rebuilt lines vs h =
      rebuilt_of lines (numbered 1 vs) (last_numbered 1 none vs) h
        (numbered-last_of_snaps ledger cid 1 none vs)

  -- One more snapshot, numbered one above the row that was rebuilt.
  pushed_snap :
      (vs : List Snap) (v : Snap) (row : OrderRow)
      → some row ≡ row_of ledger (last_numbered 1 none vs)
      → (insert_snap ledger cid (numbered 1 vs) (row.cursor.seq + 1) v.0 v.1
          ≡ ok (numbered 1 (vs ++ v ∷ [])))
        × (row_of ledger (last_numbered 1 none (vs ++ v ∷ []))
            ≡ some (record row {
              cursor = record { seq = row.cursor.seq + 1 };
              state = v.0;
              ctx = v.1;
            }))
  unfolding insert_snap
  pushed_snap vs v row h = elim (Option-cases (last_numbered 1 none vs)) [
    | inl empty ↦ ground (arith, h, empty)
    | inr ((seq, (state, ctx)), e) ↦
        let same_seq : row.cursor.seq ≡ seq = ground (arith, h, e) in
        let same_ledger : row.ledger ≡ ledger = ground (arith, h, e) in
        let next : 1 + count vs ≡ row.cursor.seq + 1 =
          last_numbered-first seq (state, ctx) vs e ∙ ap (λ (n : ℕ). n + 1) (sym same_seq) in
        (
          ground (
            arith,
            lookup-numbered_next 1 (row.cursor.seq + 1) vs next,
            insert-numbered_next 1 (row.cursor.seq + 1) v vs next,
          ),
          ap (row_of ledger) (last_numbered-push 1 none v vs) ∙ ground (arith, next, same_ledger),
        )
  ]

-- The line of a round that journals these members.
line-rebuilds :
    (ledger : LedgerId) (lines : List WireLine) (l : WireLine) (row : OrderRow)
    (after : List MemberAfter) (s : Scratch)
    → rebuild_order_with_observations ledger row.ctx.client_order_id lines ≡ ok (some row)
    → ((m : SeqMap Snap)
        → snap_line ledger row.ctx.client_order_id m l
          ≡ snap_members ledger row.ctx.client_order_id m after)
    → Distinct (after_cids after)
    → find_after row.ctx.client_order_id after
      ≡ (if is_unchanged row s then none else some (entry row s))
    → rebuild_order_with_observations ledger row.ctx.client_order_id (lines ++ l ∷ [])
      ≡ ok (some (write_member after row))
unfolding write_member
line-rebuilds ledger lines l row after s h same_line d found =
    let cid = row.ctx.client_order_id in
    let (vs, p, e) = rebuilt_numbered ledger cid lines (some row) h in
    let read =
      snap_lines-append ledger cid [] (numbered 1 vs) lines l p
      ∙ same_line (numbered 1 vs)
      ∙ snap_members-find ledger cid (numbered 1 vs) after d in
    elim (Bool-cases (is_unchanged row s)) [
      | inl kept ↦
          let nothing : find_after cid after ≡ none = ground (arith, found, kept) in
          numbered_rebuilt ledger cid (lines ++ l ∷ []) vs (ground (arith, read, nothing))
          ∙ ap ok (sym e)
          ∙ ground (arith, nothing)
      | inr moved ↦
          let one : find_after cid after ≡ some (entry row s) = ground (arith, found, moved) in
          let (pushed, restored) = pushed_snap ledger cid vs (s.state, s.ctx) row e in
          numbered_rebuilt ledger cid (lines ++ l ∷ []) (vs ++ (s.state, s.ctx) ∷ [])
            (ground (arith, read, one, pushed))
          ∙ ap ok restored
          ∙ ground (arith, one)
    ]

write_member_nil : (row : OrderRow) → write_member [] row ≡ row
unfolding write_member find_after
write_member_nil row = refl

observation_line-rebuilds :
    (round : ObservationRound) (inventory : MarketInventory) (ws next : WireState)
    (row_evidence : RowEvidence) (outcome : ObservationOutcome) (lines : List WireLine)
    (row : OrderRow) (after : List MemberAfter) (s : Scratch)
    → rebuild_order_with_observations round.ledger row.ctx.client_order_id lines ≡ ok (some row)
    → Distinct (after_cids after)
    → find_after row.ctx.client_order_id after
      ≡ (if is_unchanged row s then none else some (entry row s))
    → rebuild_order_with_observations round.ledger row.ctx.client_order_id
        (journaled lines (observation_line round inventory ws row_evidence outcome after next))
      ≡ ok (some (write_member after row))
unfolding observation_line snap_line
observation_line-rebuilds round inventory ws next row_evidence outcome lines row after s h d found =
    elim (Bool-cases (is_empty after && same WireState-discrete next ws)) [
      | inl e ↦
          let nothing : after ≡ [] = is_empty-nil after (ground (arith, e)) in
          rw e (
            h
            ∙ ap (λ (r : OrderRow). ok (some r))
                (sym (
                  ap (λ (a : List MemberAfter). write_member a row) nothing
                  ∙ write_member_nil row)))
      | inr e ↦ rw e (
          line-rebuilds round.ledger lines _ row after s h
            (λ m. rw (same_refl LedgerId-discrete round.ledger) refl) d found)
    ]

-- Take a round that finishes, one of its member rows, and a journal from which
-- rebuild_order_with_observations restores this row in the round's ledger. From the journal with
-- the round's line, if it has one, it restores exactly the row that the application of the round
-- writes.
pub finish-rebuilds :
    (round : ObservationRound) (reg : WireRegistry) (inventory : MarketInventory)
    (before rest : List OrderRow) (row : OrderRow) (row_evidence : RowEvidence)
    (txn : ObservationTransaction) (lines : List WireLine)
    → finish round reg inventory (before ++ row ∷ rest) row_evidence ≡ ok txn
    → rebuild_order_with_observations round.ledger row.ctx.client_order_id lines ≡ ok (some row)
    → rebuild_order_with_observations round.ledger row.ctx.client_order_id
        (journaled lines txn.journal)
      ≡ ok (some (write_member txn.members_after row))
unfolding observation_of
finish-rebuilds round reg inventory before rest row row_evidence txn lines h r =
    let members = before ++ row ∷ rest in
    let ws = seen_wire round reg in
    let (checked, e) = finish-inv round reg inventory members row_evidence txn h in
    let distinct =
      duplicates-Distinct [] (cids_of members)
        (check_members-Distinct round.ledger ws members checked) in
    let outcome = round_outcome round ws inventory row_evidence in
    let observe = observe_member outcome ws round.wire row_evidence in
    let after = changed_members (observe_all observe members) in
    rw e (
      observation_line-rebuilds round inventory ws _ row_evidence outcome lines row after
        (observe row) r (changed-Distinct observe members distinct)
        (find_after-changed observe before rest row distinct))
