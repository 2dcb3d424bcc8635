-- ===== src/Lifecycle/Invariant/Replays.antt =====
-- The replay of events advances a valid context.
use omsrs.Prelude.{Option, none, some, List, [], ◌∷◌, ◌++◌, inl, inr}
use omsrs.Lifecycle.Types.{OrderState, HaltReason}
use omsrs.Lifecycle.Events.{OrderEvent, Effect}
use omsrs.Lifecycle.Ctx.{OrderCtx}
use omsrs.Lifecycle.Outcome.{TransitionOutcome-cases}
use omsrs.Lifecycle.Apply.{apply_event}
use omsrs.Lifecycle.Replay.{replay_from, replay}
use omsrs.Lifecycle.Invariant.{IsValid, Advances, Advances-IsValid, Advances-refl, Advances-trans}
use omsrs.Lifecycle.Invariant.Events.{apply_event-Advances}

replay_from-Advances :
    (s : OrderState) (c : OrderCtx) (es : List Effect) (halted : Option HaltReason)
    (evs : List OrderEvent)
    → IsValid c
    → Advances c (replay_from s c es halted evs).ctx
unfolding replay_from
replay_from-Advances s c es halted [] h = Advances-refl h
replay_from-Advances s c es halted (ev ∷ evs) h =
    let d : OrderCtx = (apply_event s c ev).1 in
    let a : Advances c d = apply_event-Advances s c ev h in
    elim (TransitionOutcome-cases (apply_event s c ev).0) [
      | inl (s', new, e) ↦
          rw (e, replay_from)
            (Advances-trans a
              (replay_from-Advances s' d (es ++ new) halted evs (Advances-IsValid a)))
      | inr (inl (s', reason, new, e)) ↦
          rw (e, replay_from)
            (Advances-trans a
              (replay_from-Advances s' d (es ++ new) (some reason) evs (Advances-IsValid a)))
      | inr (inr (reason, e)) ↦ rw (e, replay_from) a
    ]

-- From a valid context, the replay of any list of events from any state, up to its end or its
-- first rejection, leaves a context in which the identity, price, side and quantity of the order
-- stay, a bound parent venue id stays bound, the attributed quantity, the obligation and the
-- authority epoch do not fall, and the attributed quantity is still the sum of the booked fills,
-- at most the obligation, which is at most the order quantity.
replay-Advances :
    (s : OrderState) (c : OrderCtx) (evs : List OrderEvent)
    → IsValid c
    → Advances c (replay s c evs).ctx
unfolding replay
replay-Advances s c evs h = replay_from-Advances s c [] none evs h
