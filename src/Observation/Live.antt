-- ===== src/Observation/Live.antt =====
-- src/observation.rs as its caller uses it: each change of the registry is journaled and then applied
-- or folded, at its place in the journal.
use omsrs.Prelude.{Option, none, some, List, [], ◌∷◌, ◌++◌, Bool, true, false, length}
use omsrs.Lifecycle.Types.{VenueOrderId}
use omsrs.Execution.Types.{LedgerId, OrderRow, MarketInventory, ok, err}
use omsrs.Observation.Types.{RowEvidence, WireLine, WireRegistry}
use omsrs.Observation.Answers.{ObservationRound}
use omsrs.Observation.Registry.{new_registry}
use omsrs.Observation.Proofs.{prepare_order_state_resting, apply_order_state_resting}
use omsrs.Observation.RestProofs.{RestPage, prepare_rest_order_proof, apply_rest_order_proof}
use omsrs.Observation.Fold.{fold_line}
use omsrs.Observation.Round.{finish}
use omsrs.Observation.Apply.{apply_observation}

pub record Live : Type 0 where
  pub registry : WireRegistry
  pub journal : List WireLine

-- A line that only a round or a proof of the order writes.
abbrev pub is_proof : WireLine → Bool
is_proof (WireLine.observation_txn _) = true
is_proof (WireLine.order_state_txn _) = true
is_proof (WireLine.rest_order_proof_txn _) = true
is_proof _ = false

pub data Work : Type 0 where
  noted : (l : WireLine) → Work
  observed :
      (round : ObservationRound) (inventory : MarketInventory) (members : List OrderRow)
      (row : RowEvidence)
      → Work
  rested : (ledger : LedgerId) (wire : VenueOrderId) (inventory : MarketInventory) → Work
  paged :
      (ledger : LedgerId) (wire : VenueOrderId) (page : RestPage) (inventory : MarketInventory)
      → Work

abbrev pub journaled : List WireLine → Option WireLine → List WireLine
journaled journal none = journal
journaled journal (some l) = journal ++ l ∷ []

unfoldable pub note : Live → WireLine → Live
note s l = elim (is_proof l) [
  | true ↦ s
  | false ↦ elim (fold_line s.registry (length s.journal) l) [
    | err _ ↦ s
    | ok next ↦ record { registry = next; journal = journaled s.journal (some l) }
  ]
]

unfoldable pub observe :
    Live → ObservationRound → MarketInventory → List OrderRow → RowEvidence → Live
observe s round inventory members row = elim (finish round s.registry inventory members row) [
  | err _ ↦ s
  | ok txn ↦ elim (apply_observation txn members s.registry inventory) [
    | err _ ↦ s
    | ok (rows, next) ↦ record { registry = next; journal = journaled s.journal txn.journal }
  ]
]

unfoldable pub rest : Live → LedgerId → VenueOrderId → MarketInventory → Live
rest s ledger wire inventory = elim (prepare_order_state_resting s.registry ledger wire inventory) [
  | err _ ↦ s
  | ok txn ↦ elim (apply_order_state_resting s.registry txn inventory) [
    | err _ ↦ s
    | ok next ↦ record {
      registry = next;
      journal = journaled s.journal (some (WireLine.order_state_txn txn));
    }
  ]
]

unfoldable pub page : Live → LedgerId → VenueOrderId → RestPage → MarketInventory → Live
page s ledger wire p inventory =
    elim (prepare_rest_order_proof s.registry ledger wire p inventory) [
      | err _ ↦ s
      | ok txn ↦ elim (apply_rest_order_proof s.registry txn inventory) [
        | err _ ↦ s
        | ok next ↦ record {
          registry = next;
          journal = journaled s.journal (some (WireLine.rest_order_proof_txn txn));
        }
      ]
    ]

unfoldable pub step : Live → Work → Live
step s (Work.noted l) = note s l
step s (Work.observed round inventory members row) = observe s round inventory members row
step s (Work.rested ledger wire inventory) = rest s ledger wire inventory
step s (Work.paged ledger wire p inventory) = page s ledger wire p inventory

abbrev pub start : Live
start = record { registry = new_registry; journal = [] }

unfoldable pub work : Live → List Work → Live
work s [] = s
work s (w ∷ ws) = work (step s w) ws
