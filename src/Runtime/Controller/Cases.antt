-- ===== src/Runtime/Controller/Cases.antt =====
-- The two outcomes of a call of `accept`, and how far one call moves the controller.
use temper_ml.Base.{Text, ◌+◌, ◌≡◌, ◌⊎◌, inl, inr, false, none, some, arith}
use temper_ml.Runtime.Protocol.{Payload, launch, RuntimeMessage}
use temper_ml.Runtime.Controller.{
  is_terminal, transition, find_message, recorded, record_message, accept_new, accept_known, accept,
  ControllerError, Controller,
}

transition_error :
    (p : Payload) (c : Controller) (e : ControllerError)
    → (transition p c).1 ≡ some e
    → (transition p c).0 ≡ c
unfolding transition
transition_error (launch _ _) c e h = ground arith
transition_error _ c e h = ground arith

module _ (sha256 : Text → Text) where
  -- The message is the next one and its transition was made.
  pub record Taken (m : RuntimeMessage) (c : Controller) : Type 0 where
    pub subject : (m.request_identity ≡ c.request_identity) × (m.run_id ≡ c.run_id)
    pub unknown : find_message m.sequence c.messages ≡ none
    pub next : m.sequence ≡ c.last_sequence + 1
    pub running : is_terminal c.state ≡ false
    pub admitted : (transition m.payload c).1 ≡ none
    pub result : accept sha256 m c ≡ (recorded sha256 m (transition m.payload c).0, none)

  -- A call of `accept` takes the message, or leaves the controller as it was.
  pub accept_cases : (m : RuntimeMessage) (c : Controller) → ((accept sha256 m c).0 ≡ c) ⊎ Taken m c
  unfolding accept accept_known accept_new record_message
  accept_cases m c = ground (arith, transition_error m.payload c)

  -- A call that raises leaves the controller as it was.
  pub accept_error_unchanged :
      (m : RuntimeMessage) (c : Controller) (e : ControllerError)
      → (accept sha256 m c).1 ≡ some e
      → (accept sha256 m c).0 ≡ c
  accept_error_unchanged m c e h = elim (accept_cases m c) [
    | inl same ↦ same
    | inr t ↦ absurd (ground (arith, t.result))
  ]

  -- A call that returns, for a number that no message has yet, has taken the message.
  pub Taken-of_unknown :
      (m : RuntimeMessage) (c : Controller)
      → find_message m.sequence c.messages ≡ none
      → (accept sha256 m c).1 ≡ none
      → Taken m c
  unfolding accept accept_known accept_new record_message
  Taken-of_unknown m c f h = ground (arith, transition_error m.payload c)
