-- ===== src/Execution/CoreEvent.antt =====
-- src/execution.rs, lines 1992 to 2075: the event that the order core sees, with the fills of a
-- batch that were admitted.
use omsrs.Prelude.{ℕ, ◌+◌, List, [], ◌∷◌, ◌++◌, length, ltb, if◌then◌else◌}
use omsrs.Lifecycle.Types.{FillId, FillRecord, BackfillOrderRecord}
use omsrs.Lifecycle.Events.{OrderEvent}
use omsrs.Execution.Staging.{StagedPayload, as_fill_record}

-- An admitted fill: its position among the evidences, its id and its final staged payload.
pub record Admitted : Type 0 where
  pub position : ℕ
  pub id : FillId
  pub staged : StagedPayload

abbrev pub admitted_fill : Admitted → FillRecord
admitted_fill a = as_fill_record a.staged a.id

unfoldable pub admitted_fills : List Admitted → List FillRecord
admitted_fills [] = []
admitted_fills (a ∷ as_) = admitted_fill a ∷ admitted_fills as_

-- A matched record, beside the fills that it gets.
abbrev pub Filled : Type 0
Filled = List (BackfillOrderRecord × List FillRecord)

unfoldable pub unfilled : List BackfillOrderRecord → Filled
unfilled [] = []
unfilled (m ∷ ms) = (m, []) ∷ unfilled ms

-- The fill goes to the record in whose span the position falls, and past all to the last record.
unfoldable pub place_fill : ℕ → Admitted → Filled → Filled
place_fill n a [] = []
place_fill n a ((m, fills) ∷ []) = (m, fills ++ admitted_fill a ∷ []) ∷ []
place_fill n a ((m, fills) ∷ next ∷ rest) =
    let later = place_fill (n + length m.fills) a (next ∷ rest) in
    if ltb a.position (n + length m.fills)
    then (m, fills ++ admitted_fill a ∷ []) ∷ next ∷ rest
    else (m, fills) ∷ later

unfoldable pub place_fills : List Admitted → Filled → Filled
place_fills [] filled = filled
place_fills (a ∷ as_) filled = place_fills as_ (place_fill 0 a filled)

unfoldable pub filled_records : Filled → List BackfillOrderRecord
filled_records [] = []
filled_records ((m, fills) ∷ rest) = record m { fills = fills } ∷ filled_records rest

-- For a bare fill the source takes the first admitted one, and is called only where there is one.
unfoldable pub rebuild_event_with_fills : OrderEvent → List Admitted → OrderEvent
rebuild_event_with_fills (OrderEvent.fill f) [] = OrderEvent.fill f
rebuild_event_with_fills (OrderEvent.fill f) (a ∷ as_) = OrderEvent.fill (admitted_fill a)
rebuild_event_with_fills (OrderEvent.immediate_fill_backfill_result _) admitted =
    OrderEvent.immediate_fill_backfill_result (admitted_fills admitted)
rebuild_event_with_fills (OrderEvent.unknown_backfill_result exhaustive matched) admitted =
    OrderEvent.unknown_backfill_result exhaustive
      (filled_records (place_fills admitted (unfilled matched)))
rebuild_event_with_fills
      (OrderEvent.reconcile_result status venue filled_qty remaining_qty _ complete) admitted =
    OrderEvent.reconcile_result status venue filled_qty remaining_qty (admitted_fills admitted)
      complete
rebuild_event_with_fills event admitted = event
