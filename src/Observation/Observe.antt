-- ===== src/Observation/Observe.antt =====
-- src/observation.rs, lines 1229 to 1411: what a round's outcome does to each member.
use omsrs.Prelude.{
  ℕ, ◌-◌, ◌==◌, Option, none, some, List, [], ◌∷◌, ◌++◌, Bool, true, false, not, ◌&&◌, ◌||◌, any,
  is_some, ltb, unwrap_or, or_option, max, if◌then◌else◌,
}
use omsrs.Prelude.Text.{concat, show}
use omsrs.Equality.{same}
use omsrs.Lifecycle.Types.{
  VenueOrderId, OrderState, HaltReason, ReconcileTerminal, BackfillOrderStatus,
}
use omsrs.Lifecycle.Events.{JournalRecord, Effect}
use omsrs.Lifecycle.Ctx.{
  OrderCtx, ok, err, raise_fill_obligation, latch_authority_complete, note_venue_remaining,
}
use omsrs.Lifecycle.Outcome.{TransitionOutcome, effects, halt_with_reason}
use omsrs.Lifecycle.Finalize.{ProposedTerminal, try_finalize_terminal}
use omsrs.Lifecycle.Frozen.{is_restart_frozen}
use omsrs.Execution.Evidence.{state_after_transition}
use omsrs.Execution.Types.{OrderRow, ExecutionOutcome, MarketInventory}
use omsrs.Observation.Types.{PageMeta, ObservationOutcome, WireState, RowEvidence, IdSet-discrete}
use omsrs.Observation.Answers.{ObservationRound}
use omsrs.Observation.Registry.{current_is, venue_from_state, live_with_remaining}
use omsrs.Observation.Views.{sigma_of}
use omsrs.Observation.Members.{page_ids, is_conflict}

-- The filled quantity that the wire has seen at most.
abbrev pub high_water : WireState → RowEvidence → ℕ
high_water ws row = max ws.filled_hw row.filled

abbrev pub shows_conflict : ExecutionOutcome → Bool
shows_conflict o = is_conflict o.inventory || is_some o.conflict

abbrev pub is_incomplete : Option PageMeta → Bool
is_incomplete none = true
is_incomplete (some p) = not p.exhaustive || ltb 0 p.parse_failures

abbrev pub is_remaining_fresh : WireState → RowEvidence → MarketInventory → Bool
is_remaining_fresh ws row inventory =
    row.filled == sigma_of inventory ws && ws.generation == 0 && row.marker == 0

unfoldable pub round_outcome :
    ObservationRound → WireState → MarketInventory → RowEvidence → ObservationOutcome
round_outcome round ws inventory row =
    if any shows_conflict round.outcomes
    then ObservationOutcome.conflict
    else if is_incomplete round.page
    then ObservationOutcome.incomplete
    else if not (same IdSet-discrete (page_ids round.outcomes) ws.held)
    then ObservationOutcome.not_covered
    else if ltb (sigma_of inventory ws) (high_water ws row)
    then ObservationOutcome.row_inconsistent
    else ObservationOutcome.consistent (is_remaining_fresh ws row inventory)

-- A member in the round: its state, its context and the effects so far.
pub record Scratch : Type 0 where
  pub state : OrderState
  pub ctx : OrderCtx
  pub effects : List Effect

unfoldable pub apply_transition : Scratch → TransitionOutcome → Scratch
apply_transition s t = record s {
  state = state_after_transition t s.state;
  effects = s.effects ++ effects t;
}

abbrev pub emit : Scratch → Effect → Scratch
emit s e = record s { effects = s.effects ++ e ∷ [] }

abbrev pub start_scratch : OrderRow → Scratch
start_scratch r = record { state = r.state; ctx = r.ctx; effects = [] }

-- The evidence of the wire raises the obligation of its only member.
unfoldable pub raise_single : Scratch → ℕ → Scratch
raise_single s fw =
    let (result, ctx') = raise_fill_obligation s.ctx fw in
    let raised = record s { ctx = ctx' } in
    elim result [
      | err reason ↦ apply_transition raised (halt_with_reason reason [])
      | ok _ ↦
          if ltb s.ctx.fill_obligation ctx'.fill_obligation
          then emit raised (
              Effect.append_fsync
                (JournalRecord.obligation_raised ctx'.fill_obligation ctx'.authority_epoch))
          else raised
    ]

-- A round that proves nothing asks for another one.
unfoldable pub observe_unproved : Bool → ℕ → OrderRow → Scratch
observe_unproved single fw r =
    let s = start_scratch r in
    let asked = emit s (
      Effect.request_authority_reconcile (or_option r.ctx.venue_order_id (venue_from_state r.state))
        r.ctx.client_order_id) in
    if single then raise_single asked fw else asked

abbrev pub latched : Scratch → Scratch
latched s =
    let ctx' = latch_authority_complete s.ctx in
    emit (record s { ctx = ctx' })
      (Effect.append_fsync (JournalRecord.authority_latched ctx'.authority_epoch))

unfoldable pub finalize_member :
    Scratch → ProposedTerminal → VenueOrderId → ReconcileTerminal → Scratch
finalize_member s proposed vid fallback =
    apply_transition s (try_finalize_terminal s.ctx proposed vid [] fallback)

unfoldable pub observe_canceled : Bool → Scratch → VenueOrderId → Scratch
observe_canceled is_current s vid =
    if is_current
    then finalize_member s ProposedTerminal.canceled vid ReconcileTerminal.canceled
    else finalize_member s ProposedTerminal.terminal vid ReconcileTerminal.terminal

unfoldable pub observe_filled : Bool → ℕ → RowEvidence → Scratch → VenueOrderId → Scratch
observe_filled single fw row s vid =
    if single && fw == s.ctx.qty && row.remaining == 0
    then finalize_member s (ProposedTerminal.filled fw 0) vid ReconcileTerminal.filled
    else finalize_member s ProposedTerminal.terminal vid ReconcileTerminal.terminal

abbrev pub remaining_mismatch : ℕ → ℕ → HaltReason
remaining_mismatch remaining cap =
    HaltReason.cross_check_mismatch
      (concat ("live remaining " ∷ show remaining ∷ " > qty-attributed " ∷ show cap ∷ []))

unfoldable pub observe_live : Bool → RowEvidence → Scratch → Scratch
observe_live single row s =
    let cap = s.ctx.qty - s.ctx.attributed_fill_qty in
    if single && ltb cap row.remaining
    then apply_transition s (halt_with_reason (remaining_mismatch row.remaining cap) [])
    else (let ctx' = note_venue_remaining s.ctx row.remaining in
        record s { state = live_with_remaining s.state ctx' row.remaining; ctx = ctx' })

unfoldable pub observe_open : Bool → Bool → Bool → RowEvidence → Scratch → VenueOrderId → Scratch
observe_open single is_current remaining_fresh row s vid =
    if not is_current
    then finalize_member s ProposedTerminal.terminal vid ReconcileTerminal.terminal
    else if remaining_fresh
    then observe_live single row s
    else s

unfoldable pub observe_consistent :
    WireState → VenueOrderId → Bool → Bool → ℕ → RowEvidence → OrderRow → Scratch
observe_consistent ws wire single remaining_fresh fw row r =
    let is_current = current_is ws r.ctx.client_order_id in
    let vid = unwrap_or (or_option r.ctx.venue_order_id (venue_from_state r.state)) wire in
    let s = latched (start_scratch r) in
    elim row.status [
      | BackfillOrderStatus.canceled ↦ observe_canceled is_current s vid
      | BackfillOrderStatus.filled ↦ observe_filled single fw row s vid
      | BackfillOrderStatus.open_order ↦ observe_open single is_current remaining_fresh row s vid
      | BackfillOrderStatus.partial ↦ observe_open single is_current remaining_fresh row s vid
    ]

abbrev pub is_single : WireState → Bool
is_single ws = elim ws.members [ [] ↦ false | m ∷ ms ↦ elim ms [ [] ↦ true | _ ∷ _ ↦ false ] ]

-- A frozen member is left as it is, and so is each one in a conflict.
unfoldable pub observe_member :
    ObservationOutcome → WireState → VenueOrderId → RowEvidence → OrderRow → Scratch
observe_member outcome ws wire row r =
    if is_restart_frozen r.state then start_scratch r else elim outcome [
      | ObservationOutcome.conflict ↦ start_scratch r
      | ObservationOutcome.consistent remaining_fresh ↦
          observe_consistent ws wire (is_single ws) remaining_fresh (high_water ws row) row r
      | _ ↦ observe_unproved (is_single ws) (high_water ws row) r
    ]
