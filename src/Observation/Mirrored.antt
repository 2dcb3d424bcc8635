-- ===== src/Observation/Mirrored.antt =====
-- src/observation.rs, lines 672 to 686, 1465 to 1481 and 1571 to 1586: the journal line of a round,
-- against the registry that the round leaves.
use omsrs.Prelude.{
  ℕ, ◌≡◌, refl, sym, ap, ◌∙◌, Option, none, some, List, [], ◌∷◌, true, ◌&&◌, arith, is_empty,
  Option-cases, Bool-cases, inl, inr,
}
use omsrs.Equality.{same, eq_of_same}
use omsrs.Execution.Types.{OrderRow, MarketInventory, ok}
use omsrs.Observation.Types.{
  ObservationOutcome, WireState, MemberAfter, RowEvidence, WireRegistry, WireLine,
  WireState-discrete, Member,
}
use omsrs.Observation.Answers.{ObservationRound, ObservationTransaction}
use omsrs.Observation.Registry.{venue_only_wire, wire_of, put_wire}
use omsrs.Observation.Members.{cids_of, check_members}
use omsrs.Observation.Observe.{round_outcome, observe_member}
use omsrs.Observation.Round.{find_after, wire_after, observation_line, observation_of, finish}
use omsrs.Observation.Fold.{terminalize_after, fold_observation, fold_line}
use omsrs.Observation.Apply.{write_member, write_members, apply_observation}
use omsrs.Observation.Keys.{put_wire-wire_of}
use omsrs.Observation.Targets.{check_members-Distinct, duplicates-Distinct}
use omsrs.Observation.Marks.{terminalize_after-round}
use omsrs.Observation.Finished.{seen_wire, finish-inv, finished-application}

write_members-none : (rows : List OrderRow) → write_members [] rows ≡ rows
unfolding write_members write_member find_after
write_members-none [] = refl
write_members-none (r ∷ rows) = ap (λ (rs : List OrderRow). r ∷ rs) (write_members-none rows)

-- Where a round changes nothing, the wire was there as it is.
unchanged-wire_of :
    (round : ObservationRound) (reg : WireRegistry) (next : WireState) (o : ObservationOutcome)
    → next.last ≡ some o
    → next ≡ seen_wire round reg
    → wire_of reg round.ledger round.wire ≡ some next
unfolding venue_only_wire
unchanged-wire_of round reg next o l h = elim (Option-cases (wire_of reg round.ledger round.wire)) [
  | inl e ↦ ground (arith, e, h, l, ap (λ (ws : WireState). ws.last) h)
  | inr (ws, e) ↦ ground (arith, e, h)
]

-- What the journal line of a round, or its absence, is to the registry and the rows before it.
abbrev pub Mirrors :
    WireRegistry → List OrderRow → ℕ → Option WireLine → List OrderRow → WireRegistry → Type 0
Mirrors reg members pos journal rows after = elim journal [
  | none ↦ (rows ≡ members) × (after ≡ reg)
  | some l ↦ fold_line reg pos l ≡ ok after
]

pub is_empty-nil : (as₁ : List MemberAfter) → is_empty as₁ ≡ true → as₁ ≡ []
is_empty-nil [] h = refl
is_empty-nil (a ∷ rest) h = ground (arith, h)

line-Mirrors :
    (round : ObservationRound) (reg : WireRegistry) (inventory : MarketInventory)
    (members : List OrderRow) (row : RowEvidence) (outcome : ObservationOutcome)
    (after : List MemberAfter) (next : WireState) (pos : ℕ)
    → next.last ≡ some outcome
    → terminalize_after next.members after ≡ next.members
    → Mirrors reg members pos
        (observation_line round inventory (seen_wire round reg) row outcome after next)
        (write_members after members)
        (put_wire reg round.ledger round.wire next)
unfolding observation_line fold_line fold_observation
line-Mirrors round reg inventory members row outcome after next pos l h =
    let ws = seen_wire round reg in
    elim (Bool-cases (is_empty after && same WireState-discrete next ws)) [
      | inl e ↦
          let nothing : after ≡ [] = is_empty-nil after (ground (arith, e)) in
          let same_wire : next ≡ ws = eq_of_same WireState-discrete next ws (ground (arith, e)) in
          rw e (
            rw nothing (write_members-none members),
            put_wire-wire_of reg round.ledger round.wire next
                (unchanged-wire_of round reg next outcome l same_wire),
          )
      | inr e ↦ rw e (
          ap
            (λ (ms : List Member).
              ok (put_wire reg round.ledger round.wire (record next { members = ms })))
            h)
    ]

round-marks :
    (round : ObservationRound) (ws : WireState) (inventory : MarketInventory)
    (members : List OrderRow) (row : RowEvidence)
    → check_members round.ledger ws members ≡ none
    → terminalize_after
        (observation_of round ws inventory members row).wire_after.members
        (observation_of round ws inventory members row).members_after
      ≡ (observation_of round ws inventory members row).wire_after.members
unfolding observation_of wire_after
round-marks round ws inventory members row h =
    let outcome = round_outcome round ws inventory row in
    terminalize_after-round (observe_member outcome ws round.wire row) members ws.members
      (duplicates-Distinct [] (cids_of members) (check_members-Distinct round.ledger ws members h))

observation_of-Mirrors :
    (round : ObservationRound) (reg : WireRegistry) (inventory : MarketInventory)
    (members : List OrderRow) (row : RowEvidence) (pos : ℕ)
    → check_members round.ledger (seen_wire round reg) members ≡ none
    → Mirrors reg members pos
        (observation_of round (seen_wire round reg) inventory members row).journal
        (write_members
          (observation_of round (seen_wire round reg) inventory members row).members_after
          members)
        (put_wire reg round.ledger round.wire
          (observation_of round (seen_wire round reg) inventory members row).wire_after)
unfolding observation_of wire_after
observation_of-Mirrors round reg inventory members row pos h =
    let ws = seen_wire round reg in
    let txn = observation_of round ws inventory members row in
    line-Mirrors round reg inventory members row txn.outcome txn.members_after txn.wire_after pos
      refl (round-marks round ws inventory members row h)

pub applied-inv :
    (round : ObservationRound) (reg : WireRegistry) (inventory : MarketInventory)
    (members rows : List OrderRow) (row : RowEvidence) (after : WireRegistry)
    → check_members round.ledger (seen_wire round reg) members ≡ none
    → apply_observation
        (observation_of round (seen_wire round reg) inventory members row)
        members
        reg
        inventory
      ≡ ok (rows, after)
    → (rows
        ≡ write_members
            (observation_of round (seen_wire round reg) inventory members row).members_after
            members)
      × (after
          ≡ put_wire reg round.ledger round.wire
              (observation_of round (seen_wire round reg) inventory members row).wire_after)
unfolding apply_observation observation_of
applied-inv round reg inventory members rows row after h a =
    let e = finished-application round reg inventory members row h in
    (ground (arith, e, a), ground (arith, e, a))

-- A round's line folds to the registry that the round leaves, and a round without one leaves all.
pub finish-Mirrors :
    (round : ObservationRound) (reg after : WireRegistry) (inventory : MarketInventory)
    (members rows : List OrderRow) (row : RowEvidence) (txn : ObservationTransaction) (pos : ℕ)
    → finish round reg inventory members row ≡ ok txn
    → apply_observation txn members reg inventory ≡ ok (rows, after)
    → Mirrors reg members pos txn.journal rows after
finish-Mirrors round reg after inventory members rows row txn pos h a =
    let (checked, e) = finish-inv round reg inventory members row txn h in
    let (r, g) = applied-inv round reg inventory members rows row after checked (
      sym (ap (λ (t : ObservationTransaction). apply_observation t members reg inventory) e) ∙ a) in
    rw (e, r, g) (observation_of-Mirrors round reg inventory members row pos checked)
