-- ===== src/Observation/Finished.antt =====
-- src/observation.rs, lines 1149 to 1586: what a finished round leaves of its wire.
use mathlib.Core.Path.{subst}
use omsrs.Prelude.{
  ◌≢◌, ◌≤◌, ◌≡◌, refl, sym, ap, ◌∙◌, ◌↔◌, none, some, List, Bool, true, false, arith, unwrap_or,
  if◌then◌else◌, Option-cases, inl, inr,
}
use omsrs.Equality.{same_refl, same_of_eq, eq_of_same}
use omsrs.Prelude.Words.{saturating_add}
use omsrs.BTreeMap.{contains_key}
use omsrs.Lifecycle.Types.{FillId, VenueOrderId}
use omsrs.Execution.Types.{LedgerId, OrderRow, MarketInventory, ok}
use omsrs.Observation.Types.{
  MemberAfter, PageMeta, ObservationOutcome, WireState, RowEvidence, WireRegistry, IdSet-discrete,
}
use omsrs.Observation.Answers.{ObservationRound, ObservationTransaction, WorkingView}
use omsrs.Observation.Registry.{key, venue_only_wire, wire_of, put_wire, marker}
use omsrs.Observation.Views.{observation_stands, observed_view, wire_view, working_view}
use omsrs.Observation.Members.{cids_of, check_members, page_ids}
use omsrs.Observation.Observe.{round_outcome, observe_member}
use omsrs.Observation.Round.{
  is_fresh, observe_all, post_pending, changed_members, wire_after, observation_of, finish,
}
use omsrs.Observation.Apply.{check_generations, check_application, write_members, apply_observation}
use omsrs.Observation.Keys.{wire_of-put_wire, wire_of-put_wire_other}
use omsrs.Observation.Proved.{held_qty, sigma_of-held_qty, view-put_wire}
use omsrs.Observation.PageIds.{Agree, OnPage, any-Agree, Agree-any, page_ids-OnPage}
use omsrs.Observation.Targets.{check_members-Distinct, check_targets-prepared, check_ids-prepared}

-- The wire as the round sees it.
abbrev pub seen_wire : ObservationRound → WireRegistry → WireState
seen_wire round reg = unwrap_or (wire_of reg round.ledger round.wire) venue_only_wire

pub finish-inv :
    (round : ObservationRound) (reg : WireRegistry) (inventory : MarketInventory)
    (members : List OrderRow) (row : RowEvidence) (txn : ObservationTransaction)
    → finish round reg inventory members row ≡ ok txn
    → (check_members round.ledger (seen_wire round reg) members ≡ none)
      × (txn ≡ observation_of round (seen_wire round reg) inventory members row)
unfolding finish
finish-inv round reg inventory members row txn h =
    elim (Option-cases (check_members round.ledger (seen_wire round reg) members)) [
      | inr (e, p) ↦ ground (arith, p, h)
      | inl p ↦ (p, ground (arith, p, h))
    ]

module _ (round : ObservationRound) (reg : WireRegistry) (inventory : MarketInventory)
    (members : List OrderRow) (row : RowEvidence) where
  abbrev finished : ObservationTransaction
  finished = observation_of round (seen_wire round reg) inventory members row

  finished-marker : check_generations finished reg inventory ≡ none
  unfolding check_generations marker observation_of
  finished-marker = elim (Option-cases (wire_of reg round.ledger round.wire)) [
    | inl e ↦ ground (arith, e)
    | inr (ws, e) ↦ ground (arith, e)
  ]

  pub finished-application :
      check_members round.ledger (seen_wire round reg) members ≡ none
      → check_application finished members reg inventory ≡ none
  unfolding check_application observation_of
  finished-application h =
      let distinct = check_members-Distinct round.ledger (seen_wire round reg) members h in
      ground (
        arith,
        check_ids-prepared finished distinct,
        check_targets-prepared finished (cids_of members) distinct,
        finished-marker,
      )

-- What makes a round fresh: no execution is in conflict, the page is exhaustive and holds exactly
-- the executions of the wire, their quantity is the row's filled quantity and the most that the wire
-- has seen, and no own action stands between.
pub record Covers (round : ObservationRound) (ws : WireState) (inventory : MarketInventory)
    (row : RowEvidence) : Type 0 where
  pub agreed : Agree round.outcomes
  pub whole :
      (p : PageMeta) × (round.page ≡ some p) × (p.exhaustive ≡ true) × (p.parse_failures ≡ 0)
  pub covered : page_ids round.outcomes ≡ ws.held
  pub on_page : (id : FillId) → (contains_key id ws.held ≡ true) ↔ OnPage id round.outcomes
  pub counted : row.filled ≡ saturating_add 0 (held_qty inventory ws.held)
  pub highest : ws.filled_hw ≤ row.filled
  pub first_generation : (ws.generation ≡ 0) × (row.marker ≡ 0)

module _ (round : ObservationRound) (ws : WireState) (inventory : MarketInventory)
    (row : RowEvidence) where
  fresh-Covers :
      round_outcome round ws inventory row ≡ ObservationOutcome.consistent true
      → Covers round ws inventory row
  unfolding round_outcome
  fresh-Covers h =
      let covers : page_ids round.outcomes ≡ ws.held =
        eq_of_same IdSet-discrete (page_ids round.outcomes) ws.held (ground (arith, h)) in
      elim (Option-cases round.page) [
        | inl none_yet ↦ ground (arith, h, none_yet)
        | inr (p, e) ↦ record {
          agreed = any-Agree round.outcomes (ground (arith, h));
          whole = (p, e, ground (arith, h, e), ground (arith, h, e));
          covered = covers;
          on_page = λ id.
              subst (λ held. (contains_key id held ≡ true) ↔ OnPage id round.outcomes) covers
                (page_ids-OnPage id round.outcomes);
          counted = ground (arith, h, sigma_of-held_qty inventory ws);
          highest = ground (arith, h);
          first_generation = ground (arith, h);
        }
      ]

  Covers-fresh :
      Covers round ws inventory row
      → round_outcome round ws inventory row ≡ ObservationOutcome.consistent true
  unfolding round_outcome
  Covers-fresh c =
      let (p, e, exhaustive, parsed) = c.whole in
      ground (
        arith,
        Agree-any round.outcomes c.agreed,
        e,
        exhaustive,
        parsed,
        same_of_eq IdSet-discrete (page_ids round.outcomes) ws.held c.covered,
        c.counted,
        sigma_of-held_qty inventory ws,
        c.highest,
        c.first_generation,
      )

-- The outcome of a finished round is consistent and fresh exactly where no recorded execution is
-- in conflict with the inventory or by a conflict fact; a page was noted that is exhaustive and
-- without parse failures; the ids of the page are the held ids of the wire, and these are those of
-- the recorded executions that were not ignored and that left an entry or are in conflict; the sum
-- of the quantities that the inventory has under the held ids (cut off at the largest u64) is the
-- filled quantity of the row, and not below what the wire has seen; and the wire's generation and
-- the row's marker are zero.
pub finish-Covers :
    (round : ObservationRound) (reg : WireRegistry) (inventory : MarketInventory)
    (members : List OrderRow) (row : RowEvidence) (txn : ObservationTransaction)
    → finish round reg inventory members row ≡ ok txn
    → (txn.outcome ≡ ObservationOutcome.consistent true)
      ↔ Covers round (seen_wire round reg) inventory row
unfolding observation_of
finish-Covers round reg inventory members row txn h =
    let ws = seen_wire round reg in
    let e =
      ap (λ (t : ObservationTransaction). t.outcome)
        (finish-inv round reg inventory members row txn h).1 in
    (
      λ p. fresh-Covers round ws inventory row (sym e ∙ p),
      λ c. e ∙ Covers-fresh round ws inventory row c,
    )

-- What works of a wire after a round: what the row says rests, if the round is fresh.
abbrev pub fresh_view : ObservationOutcome → RowEvidence → WorkingView
fresh_view outcome row =
    if is_fresh outcome then WorkingView.known row.remaining else WorkingView.unresolved

wire_after-view :
    (ws : WireState) (row : RowEvidence) (outcome : ObservationOutcome) (pending : Bool)
    (after : List MemberAfter)
    → (is_fresh outcome ≡ true → ws.generation ≡ 0)
    → wire_view (wire_after ws row outcome pending after) ≡ fresh_view outcome row
unfolding wire_view observed_view observation_stands wire_after
wire_after-view ws row (ObservationOutcome.consistent true) pending after h =
    ground (arith, h refl, same_refl IdSet-discrete ws.held)
wire_after-view ws row (ObservationOutcome.consistent false) pending after h = ground arith
wire_after-view ws row ObservationOutcome.conflict pending after h = ground arith
wire_after-view ws row ObservationOutcome.incomplete pending after h = ground arith
wire_after-view ws row ObservationOutcome.not_covered pending after h = ground arith
wire_after-view ws row ObservationOutcome.row_inconsistent pending after h = ground arith

is_fresh-consistent :
    (o : ObservationOutcome) → is_fresh o ≡ true → o ≡ ObservationOutcome.consistent true
is_fresh-consistent o h = ground (arith, h)

observation_of-view :
    (round : ObservationRound) (ws : WireState) (inventory : MarketInventory)
    (members : List OrderRow) (row : RowEvidence)
    → wire_view (observation_of round ws inventory members row).wire_after
      ≡ fresh_view (round_outcome round ws inventory row) row
unfolding observation_of
observation_of-view round ws inventory members row =
    let outcome = round_outcome round ws inventory row in
    let observed = observe_all (observe_member outcome ws round.wire row) members in
    wire_after-view ws row outcome (post_pending observed) (changed_members observed) (λ p.
      (fresh-Covers round ws inventory row (is_fresh-consistent outcome p)).first_generation.0)

-- A round that finishes against members, a registry and an inventory is applied to them. The wire
-- then is the one that the transaction plans, and its working view is the remaining quantity of
-- the venue's row if the outcome is a fresh consistent one, and unresolved otherwise. Every other
-- wire stays as it was.
pub finish-Applies :
    (round : ObservationRound) (reg : WireRegistry) (inventory : MarketInventory)
    (members : List OrderRow) (row : RowEvidence) (txn : ObservationTransaction)
    → finish round reg inventory members row ≡ ok txn
    → (rows : List OrderRow) × (after : WireRegistry) × (apply_observation txn members reg inventory
        ≡ ok (rows, after))
      × (wire_of after round.ledger round.wire ≡ some txn.wire_after)
      × (working_view after round.ledger round.wire ≡ fresh_view txn.outcome row)
      × ((at : LedgerId) (w : VenueOrderId)
          → key at w ≢ key round.ledger round.wire
          → wire_of after at w ≡ wire_of reg at w)
unfolding apply_observation observation_of
finish-Applies round reg inventory members row txn h =
    let ws = seen_wire round reg in
    let (checked, e) = finish-inv round reg inventory members row txn h in
    let next = txn.wire_after in
    (
      write_members txn.members_after members,
      put_wire reg round.ledger round.wire next,
      rw e (ground (arith, finished-application round reg inventory members row checked)),
      wire_of-put_wire reg round.ledger round.wire next,
      view-put_wire reg round.ledger round.wire next
          ∙ rw e (observation_of-view round ws inventory members row),
      λ at w. wire_of-put_wire_other reg round.ledger at round.wire w next,
    )
