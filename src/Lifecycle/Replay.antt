-- ===== src/Lifecycle/Replay.antt =====
-- src/lifecycle.rs, lines 4293 to 4343: the fold of events through `apply_event`. A rejection ends
-- the fold; a halt goes on in the halted state.
use omsrs.Prelude.{Option, none, some, List, [], ◌∷◌, ◌++◌}
use omsrs.Lifecycle.Types.{HaltReason, RejectReason, OrderState}
use omsrs.Lifecycle.Events.{OrderEvent, Effect}
use omsrs.Lifecycle.Ctx.{OrderCtx}
use omsrs.Lifecycle.Outcome.{TransitionOutcome}
use omsrs.Lifecycle.Apply.{apply_event}

pub record ReplayResult : Type 0 where
  pub state : OrderState
  pub ctx : OrderCtx
  pub effects : List Effect
  pub reject : Option RejectReason
  pub halt : Option HaltReason

-- The loop, over the state, the context, the effects so far and the last halt.
unfoldable pub replay_from :
    OrderState → OrderCtx → List Effect → Option HaltReason → List OrderEvent → ReplayResult
replay_from state ctx all_effects halted [] = record {
  state = state;
  ctx = ctx;
  effects = all_effects;
  reject = none;
  halt = halted;
}
replay_from state ctx all_effects halted (ev ∷ evs) =
    let (outcome, ctx') = apply_event state ctx ev in
    elim outcome [
      | TransitionOutcome.accepted new_state es ↦
          replay_from new_state ctx' (all_effects ++ es) halted evs
      | TransitionOutcome.halted new_state reason es ↦
          replay_from new_state ctx' (all_effects ++ es) (some reason) evs
      | TransitionOutcome.rejected reason ↦ record {
        state = state;
        ctx = ctx';
        effects = all_effects;
        reject = some reason;
        halt = halted;
      }
    ]

unfoldable pub replay : OrderState → OrderCtx → List OrderEvent → ReplayResult
replay state ctx events = replay_from state ctx [] none events
