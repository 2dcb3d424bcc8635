-- ===== src/Lifecycle/Replayed.antt =====
-- src/lifecycle.rs, lines 4293 to 4343: what `replay` promises, as a relation on runs of events.
use mathlib.Core.Path.{subst}
use mathlib.Core.List.{append_assoc, append-nil}
use omsrs.Prelude.{
  ◌≡◌, refl, sym, ap, ◌∙◌, ◌⊎◌, inl, inr, ◌↔◌, Option, none, some, List, [], ◌∷◌, ◌++◌,
}
use omsrs.Lifecycle.Types.{OrderState, HaltReason, RejectReason}
use omsrs.Lifecycle.Events.{OrderEvent, Effect}
use omsrs.Lifecycle.Ctx.{OrderCtx}
use omsrs.Lifecycle.Outcome.{TransitionOutcome, TransitionOutcome-cases}
use omsrs.Lifecycle.Apply.{apply_event}
use omsrs.Lifecycle.Replay.{ReplayResult, replay_from, replay}

-- The events that an order takes from the state `s` and the context `c`, none of them rejected: the
-- effects of all in their order, the reason of the last halt, and where the order then is.
pub data Runs (s : OrderState) (c : OrderCtx)
    : List OrderEvent → List Effect → Option HaltReason → OrderState → OrderCtx → Type 0 where
  starts : Runs s c [] [] none s c
  accepts :
      (evs : List OrderEvent) (es new : List Effect) (s₁ : OrderState) (c₁ : OrderCtx)
      (ev : OrderEvent) {halt : Option HaltReason} {s₂ : OrderState} {c₂ : OrderCtx}
      → Runs s c evs es halt s₁ c₁
      → apply_event s₁ c₁ ev ≡ (TransitionOutcome.accepted s₂ new, c₂)
      → Runs s c (evs ++ ev ∷ []) (es ++ new) halt s₂ c₂
  halts :
      (evs : List OrderEvent) (es new : List Effect) (halt : Option HaltReason) (s₁ : OrderState)
      (c₁ : OrderCtx) (ev : OrderEvent) {reason : HaltReason} {s₂ : OrderState} {c₂ : OrderCtx}
      → Runs s c evs es halt s₁ c₁
      → apply_event s₁ c₁ ev ≡ (TransitionOutcome.halted s₂ reason new, c₂)
      → Runs s c (evs ++ ev ∷ []) (es ++ new) (some reason) s₂ c₂

-- The run took all the events.
pub record Whole (evs taken : List OrderEvent) (at : OrderCtx) (r : ReplayResult) : Type 0 where
  pub all : evs ≡ taken
  pub reject : r.reject ≡ none
  pub ctx : r.ctx ≡ at

-- After the run, the next event was rejected, and nothing was taken from there on.
pub record Cut (evs taken : List OrderEvent) (at : OrderCtx) (r : ReplayResult) : Type 0 where
  pub ev : OrderEvent
  pub rest : List OrderEvent
  pub reason : RejectReason
  pub next : evs ≡ taken ++ ev ∷ rest
  pub rejected : apply_event r.state at ev ≡ (TransitionOutcome.rejected reason, r.ctx)
  pub reject : r.reject ≡ some reason

pub record Replayed (s : OrderState) (c : OrderCtx) (evs : List OrderEvent) (r : ReplayResult)
    : Type 0 where
  pub taken : List OrderEvent
  pub at : OrderCtx
  pub run : Runs s c taken r.effects r.halt r.state at
  pub end : Whole evs taken at r ⊎ Cut evs taken at r

outcome-pair : (o : TransitionOutcome × OrderCtx) {t : TransitionOutcome} → o.0 ≡ t → o ≡ (t, o.1)
outcome-pair (t', d) e = ap (λ (u : TransitionOutcome). (u, d)) e

outcome-of : {o o' : TransitionOutcome × OrderCtx} → o ≡ o' → o.0 ≡ o'.0
outcome-of e = ap (λ (p : TransitionOutcome × OrderCtx). p.0) e

context-of : {o o' : TransitionOutcome × OrderCtx} → o ≡ o' → o.1 ≡ o'.1
context-of e = ap (λ (p : TransitionOutcome × OrderCtx). p.1) e

module _ (s : OrderState) (c : OrderCtx) where
  one_more :
      (taken : List OrderEvent) (ev : OrderEvent) (evs : List OrderEvent) (r : ReplayResult)
      → Replayed s c ((taken ++ ev ∷ []) ++ evs) r
      → Replayed s c (taken ++ ev ∷ evs) r
  one_more taken ev evs r h = subst (λ es. Replayed s c es r) (append_assoc taken (ev ∷ []) evs) h

  replay_from-Replayed :
      (taken : List OrderEvent) (es : List Effect) (halt : Option HaltReason) (s₁ : OrderState)
      (c₁ : OrderCtx) (evs : List OrderEvent)
      → Runs s c taken es halt s₁ c₁
      → Replayed s c (taken ++ evs) (replay_from s₁ c₁ es halt evs)
  unfolding replay_from
  replay_from-Replayed taken es halt s₁ c₁ [] run = record {
    taken = taken;
    at = c₁;
    run = run;
    end = inl (record { all = append-nil taken; reject = refl; ctx = refl });
  }
  replay_from-Replayed taken es halt s₁ c₁ (ev ∷ evs) run =
      let o = apply_event s₁ c₁ ev in
      elim (TransitionOutcome-cases o.0) [
        | inl (s₂, new, e) ↦
            rw (e, replay_from)
              (one_more taken ev evs _ (
                replay_from-Replayed (taken ++ ev ∷ []) (es ++ new) halt s₂ o.1 evs
                  (Runs.accepts taken es new s₁ c₁ ev run (outcome-pair o e))))
        | inr (inl (s₂, reason, new, e)) ↦
            rw (e, replay_from)
              (one_more taken ev evs _ (
                replay_from-Replayed (taken ++ ev ∷ []) (es ++ new) (some reason) s₂ o.1 evs
                  (Runs.halts taken es new halt s₁ c₁ ev run (outcome-pair o e))))
        | inr (inr (reason, e)) ↦
            rw (e, replay_from)
              (record {
                taken = taken;
                at = c₁;
                run = run;
                end = inr (record {
                  ev = ev;
                  rest = evs;
                  reason = reason;
                  next = refl;
                  rejected = outcome-pair o e;
                  reject = refl;
                });
              })
      ]

  -- After a run, the replay is at its state, with its effects and its halt.
  run-replay_from :
      {taken : List OrderEvent} {es : List Effect} {halt : Option HaltReason} {s₁ : OrderState}
      {c₁ : OrderCtx} (rest : List OrderEvent)
      → Runs s c taken es halt s₁ c₁
      → replay_from s c [] none (taken ++ rest) ≡ replay_from s₁ c₁ es halt rest
  unfolding replay_from
  run-replay_from rest Runs.starts = refl
  run-replay_from rest (Runs.accepts evs es new s₁ c₁ ev run e) =
      ap (replay_from s c [] none) (append_assoc evs (ev ∷ []) rest)
      ∙ run-replay_from (ev ∷ rest) run
      ∙ rw (outcome-of e, replay_from) (rw (context-of e) refl)
  run-replay_from rest (Runs.halts evs es new halt s₁ c₁ ev run e) =
      ap (replay_from s c [] none) (append_assoc evs (ev ∷ []) rest)
      ∙ run-replay_from (ev ∷ rest) run
      ∙ rw (outcome-of e, replay_from) (rw (context-of e) refl)

  Replayed-replay :
      (evs : List OrderEvent) (r : ReplayResult) → Replayed s c evs r → r ≡ replay s c evs
  unfolding replay replay_from
  Replayed-replay evs r h = elim h.end [
    | inl w ↦ sym (
        ap (replay_from s c [] none) (w.all ∙ sym (append-nil h.taken))
        ∙ run-replay_from [] h.run
        ∙ cc (w.reject, w.ctx))
    | inr w ↦ sym (
        ap (replay_from s c [] none) w.next
        ∙ run-replay_from (w.ev ∷ w.rest) h.run
        ∙ rw (w.rejected, replay_from) (cc (w.reject)))
  ]

-- A result is that of replay, from any state and context over any events, exactly where it comes
-- of a run that takes a first part of the events one by one through apply_event, each accepted or
-- halted in the state and the context that the one before left: its state is the run's last, its
-- effects are all of the run's in their order, and its halt is the run's last one. Either the run
-- takes every event, nothing is rejected and the context is the run's last, or the event after the
-- run is rejected there by apply_event, the result has the reason of this rejection and the
-- context that the rejection left, and no later event is taken.
pub replay-Replayed :
    (s : OrderState) (c : OrderCtx) (evs : List OrderEvent) (r : ReplayResult)
    → (r ≡ replay s c evs) ↔ Replayed s c evs r
unfolding replay
replay-Replayed s c evs r = (
  λ e. subst (Replayed s c evs) (sym e) (replay_from-Replayed s c [] [] none s c evs Runs.starts),
  Replayed-replay s c evs r,
)
