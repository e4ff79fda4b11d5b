-- ===== src/Runtime/Controller/Progress.antt =====
-- How the state of a run moves: steps, the end, a lost connection, a cancellation.
use temper_ml.Base.{
  Text, ℕ, ◌+◌, ◌≤◌, ◌≡◌, refl, ◌⊎◌, inl, inr, Bool, true, false, ◌||◌, Option, none, some, List,
  [], ◌∷◌, arith,
}
use temper_ml.Domain.Projections.{ContentIdentity}
use temper_ml.Runtime.Protocol.{
  Payload, launch, cancellation, disconnection, reconnection, RuntimeMessage,
}
use temper_ml.Runtime.Controller.Cases.{accept_cases, Taken-of_unknown, Taken}
use temper_ml.Runtime.Controller.Invariant.{unknown_above, frame, Reach-Inv, Reach, start, call}
use temper_ml.Runtime.Controller.{
  is_terminal, new, transition, recorded, accept, accept_all, ControllerState, active, cancelling,
  disconnected, cancelled, Controller,
}

last_step-transition : (p : Payload) (c : Controller) → c.last_step ≤ (transition p c).0.last_step
unfolding transition
last_step-transition (launch _ _) c = ground arith
last_step-transition _ c = ground arith

-- a cancellation was asked for, and the run has not ended in another way since
abbrev asked : ControllerState → Option ControllerState → Bool
asked cancelling s = true
asked cancelled s = true
asked disconnected (some cancelling) = true
asked _ _ = false

abbrev is_cancellation : Payload → Bool
is_cancellation cancellation = true
is_cancellation _ = false

unfoldable pub was_cancelled : List RuntimeMessage → Bool
was_cancelled [] = false
was_cancelled (m ∷ ms) = is_cancellation m.payload || was_cancelled ms

asked-transition :
    (p : Payload) (c : Controller)
    → (transition p c).1 ≡ none
    → asked (transition p c).0.state (transition p c).0.state_before_disconnect ≡ true
    → (is_cancellation p ≡ true) ⊎ (asked c.state c.state_before_disconnect ≡ true)
unfolding transition
asked-transition (launch _ _) c h s = ground arith
asked-transition _ c h s = ground arith

-- A lost connection keeps the state of the run, and its return restores it.
reconnect-transition :
    (a b : ℕ) (p q : Payload) (c d : Controller)
    → p ≡ disconnection a
    → q ≡ reconnection b
    → (transition p c).1 ≡ none
    → d.state ≡ (transition p c).0.state
    → d.state_before_disconnect ≡ (transition p c).0.state_before_disconnect
    → (transition q d).1 ≡ none
    → ((transition q d).0.state ≡ c.state) × ((c.state ≡ active) ⊎ (c.state ≡ cancelling))
unfolding transition
reconnect-transition a b p q c d e f h s t k = ground arith

module _ (sha256 : Text → Text) where
  -- One call never moves the step back, and numbers at most one message more.
  pub accept_monotone :
      (m : RuntimeMessage) (c : Controller)
      → (c.last_step ≤ (accept sha256 m c).0.last_step)
        × (c.last_sequence ≤ (accept sha256 m c).0.last_sequence)
        × ((accept sha256 m c).0.last_sequence ≤ c.last_sequence + 1)
  unfolding recorded
  accept_monotone m c = elim (accept_cases sha256 m c) [
    | inl same ↦ rw same (omega arith)
    | inr t ↦ rw t.result (omega (arith, last_step-transition m.payload c, t.next))
  ]

  pub accept_terminal :
      (m : RuntimeMessage) (c : Controller) → is_terminal c.state ≡ true → (accept sha256 m c).0 ≡ c
  accept_terminal m c h = elim (accept_cases sha256 m c) [
    | inl same ↦ same
    | inr t ↦ absurd (cc (h, t.running))
  ]

  -- After the end of a run no message, and no replay of its messages, changes the controller.
  pub accept_all_terminal :
      (ms : List RuntimeMessage) (c : Controller)
      → is_terminal c.state ≡ true
      → (accept_all sha256 ms c).0 ≡ c
  unfolding accept_all
  accept_all_terminal [] c h = refl
  accept_all_terminal (m ∷ ms) c h =
      ground (arith, accept_terminal m c h, accept_all_terminal ms c h)

  module _ (request : ContentIdentity) (run : Text) where
    -- A run is cancelled only after its cancellation was requested.
    pub cancelled_requested :
        {c : Controller}
        → Reach sha256 request run c
        → asked c.state c.state_before_disconnect ≡ true
        → was_cancelled c.messages ≡ true
    unfolding was_cancelled recorded new
    cancelled_requested (start e) h = ground (arith, e)
    cancelled_requested (call {b = b} {c = c} m r e) h = elim (accept_cases sha256 m b) [
      | inl same ↦ ground (arith, e, same, cancelled_requested r)
      | inr t ↦ ground (
        arith,
        e,
        t.result,
        t.admitted,
        frame m.payload b,
        asked-transition m.payload b,
        cancelled_requested r,
      )
    ]

    Taken-next :
        {c : Controller} (m : RuntimeMessage)
        → Reach sha256 request run c
        → m.sequence ≡ c.last_sequence + 1
        → (accept sha256 m c).1 ≡ none
        → Taken sha256 m c
    Taken-next {c} m r e h =
        Taken-of_unknown sha256 m c
          (unknown_above c.last_sequence m.sequence c.messages (Reach-Inv sha256 r).numbered
            (omega arith))
          h

    -- A run that loses its connection and gets it back by the next message goes on in the state
    -- in which it was: active or cancelling.
    pub reconnect_restores :
        {c : Controller} (a b : ℕ) (lost back : RuntimeMessage)
        → Reach sha256 request run c
        → lost.payload ≡ disconnection a
        → lost.sequence ≡ c.last_sequence + 1
        → (accept sha256 lost c).1 ≡ none
        → let d = (accept sha256 lost c).0 in
          back.payload ≡ reconnection b
          → back.sequence ≡ d.last_sequence + 1
          → (accept sha256 back d).1 ≡ none
          → ((accept sha256 back d).0.state ≡ c.state)
            × ((c.state ≡ active) ⊎ (c.state ≡ cancelling))
    unfolding recorded
    reconnect_restores {c} a b lost back r p s h q s' k =
        let t = Taken-next lost r s h in
        let u = Taken-next back (call lost r refl) s' k in
        rw u.result (
          reconnect-transition a b lost.payload back.payload c (accept sha256 lost c).0 p q
            t.admitted (rw t.result) (rw t.result) u.admitted)
