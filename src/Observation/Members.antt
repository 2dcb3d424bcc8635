-- ===== src/Observation/Members.antt =====
-- src/observation.rs, lines 1115 to 1227 and 1587 to 1617: the outcomes and the members of a round.
use omsrs.Prelude.{
  Option, none, some, List, [], ◌∷◌, ◌++◌, Bool, true, false, not, ◌&&◌, ◌||◌, any, is_empty,
  is_some, or_option, same_text, if◌then◌else◌,
}
use omsrs.Equality.{same}
use omsrs.BTreeMap.{BTreeMap, insert}
use omsrs.Lifecycle.Types.{ClientOrderId, VenueOrderId}
use omsrs.Execution.Types.{
  LedgerId, OrderRow, InventoryEntry, InventoryDisposition, OrderDisposition, ExecutionOutcome,
  Result, ok, err, LedgerId-discrete,
}
use omsrs.Observation.Types.{PageMeta, WireState}
use omsrs.Observation.Answers.{ObservationRound, RoundError}
use omsrs.Observation.Registry.{non_terminal_cids}

abbrev pub begin_round : LedgerId → VenueOrderId → ObservationRound
begin_round ledger wire = record { ledger = ledger; wire = wire; outcomes = []; page = none }

abbrev pub venue_of : Option InventoryEntry → Option VenueOrderId
venue_of none = none
venue_of (some entry) = entry.venue_order_id

abbrev pub is_of_wire : VenueOrderId → Option VenueOrderId → Bool
is_of_wire wire none = false
is_of_wire wire (some w) = same_text w wire

-- `record`: an execution of another wire is refused.
unfoldable pub record_outcome :
    ObservationRound → ExecutionOutcome → Result RoundError ObservationRound
record_outcome round o =
    if is_of_wire round.wire (or_option o.evidence.venue_order_id (venue_of o.entry_after))
    then ok (record round { outcomes = round.outcomes ++ o ∷ [] })
    else err RoundError.foreign_row

abbrev pub note_page : ObservationRound → PageMeta → ObservationRound
note_page round meta = record round { page = some meta }

abbrev pub cids_of : List OrderRow → List ClientOrderId
cids_of [] = []
cids_of (r ∷ rs) = r.ctx.client_order_id ∷ cids_of rs

abbrev pub contains : ClientOrderId → List ClientOrderId → Bool
contains cid cids = any (λ (c : ClientOrderId). same_text c cid) cids

-- The ids that `seen` or an earlier row has.
unfoldable pub duplicates : List ClientOrderId → List ClientOrderId → List ClientOrderId
duplicates seen [] = []
duplicates seen (c ∷ cs) =
    let rest = duplicates (c ∷ seen) cs in if contains c seen then c ∷ rest else rest

-- The ids of `cs` that `others` lacks.
unfoldable pub lacking : List ClientOrderId → List ClientOrderId → List ClientOrderId
lacking others [] = []
lacking others (c ∷ cs) =
    let rest = lacking others cs in if contains c others then rest else c ∷ rest

-- A row of another ledger or market. The source compares, twice more, the id of a row with its copy.
abbrev pub is_mismatched : LedgerId → OrderRow → Bool
is_mismatched ledger r =
    not (same LedgerId-discrete r.ledger ledger)
    || not (same_text r.ctx.market ledger.market)
    || not (same_text r.ledger.market ledger.market)

unfoldable pub mismatches : LedgerId → List OrderRow → List ClientOrderId
mismatches ledger [] = []
mismatches ledger (r ∷ rs) =
    let rest = mismatches ledger rs in
    if is_mismatched ledger r then r.ctx.client_order_id ∷ rest else rest

-- The second pass adds the rows of another ledger that are not noted yet.
unfoldable pub note_foreign : LedgerId → List ClientOrderId → List OrderRow → List ClientOrderId
note_foreign ledger noted [] = noted
note_foreign ledger noted (r ∷ rs) =
    note_foreign ledger
      (if not (same LedgerId-discrete r.ledger ledger) && not (contains r.ctx.client_order_id noted)
        then noted ++ r.ctx.client_order_id ∷ []
        else noted)
      rs

-- The members have to be the rows of the wire's ids that are not terminal, each once.
unfoldable pub check_members : LedgerId → WireState → List OrderRow → Option RoundError
check_members ledger ws members =
    let expected = non_terminal_cids ws.members in
    let found = cids_of members in
    let missing = lacking found expected in
    let extra = lacking expected found in
    let duplicate = duplicates [] found in
    let mismatched = note_foreign ledger (mismatches ledger members) members in
    if not (is_empty missing)
      || not (is_empty extra)
      || not (is_empty duplicate)
      || not (is_empty mismatched)
    then some (RoundError.members_invalid missing extra duplicate mismatched)
    else none

abbrev pub is_zero_ignored : OrderDisposition → Bool
is_zero_ignored (OrderDisposition.ignored _) = true
is_zero_ignored _ = false

abbrev pub is_conflict : InventoryDisposition → Bool
is_conflict (InventoryDisposition.conflict _) = true
is_conflict _ = false

-- Every disposition counts; an outcome without an entry only if it is a conflict.
unfoldable pub page_ids_from : BTreeMap (Unit {0}) → List ExecutionOutcome → BTreeMap (Unit {0})
page_ids_from p [] = p
page_ids_from p (o ∷ os) =
    page_ids_from
      (if not (is_zero_ignored o.order) && (is_some o.entry_after || is_conflict o.inventory)
        then insert o.evidence.execution_id tt p
        else p)
      os

unfoldable pub page_ids : List ExecutionOutcome → BTreeMap (Unit {0})
page_ids outcomes = page_ids_from [] outcomes
