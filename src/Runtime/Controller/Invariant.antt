-- ===== src/Runtime/Controller/Invariant.antt =====
-- What holds of a controller between two calls of `accept`.
use temper_ml.Base.{
  Text, ℕ, suc, ◌+◌, ◌<◌, ◌≡◌, refl, ◌≢◌, ◌⊎◌, inl, inr, Option, none, some, List, [], ◌∷◌, arith,
}
use temper_ml.Runtime.Protocol.{Payload, launch, beat, bundle, completion, RuntimeMessage}
use temper_ml.Domain.Projections.{ContentIdentity}
use temper_ml.Runtime.Controller.Cases.{accept_cases}
use temper_ml.Runtime.Controller.{
  new, transition, find_message, recorded, accept, created, active, cancelling, disconnected,
  artifact_ready, completed, Controller,
}

-- The messages carry the sequence numbers n, …, 1, the newest first.
abbrev pub Numbered : ℕ → List RuntimeMessage → Type 0
Numbered n [] = n ≡ 0
Numbered n (m ∷ ms) = (p : ℕ) × (n ≡ suc p) × (m.sequence ≡ suc p) × Numbered p ms

-- The last message is the one that delivered the artifact.
abbrev pub Delivered : Option ContentIdentity → List RuntimeMessage → Type 0
Delivered a [] = ⊥
Delivered a (m ∷ ms) = (i : ContentIdentity) × (n : ℕ) × (m.payload ≡ bundle i n) × (a ≡ some i)

-- The last message completed the run, and the one before it delivered the artifact.
abbrev pub Completed : Option ContentIdentity → List RuntimeMessage → Type 0
Completed a [] = ⊥
Completed a (m ∷ ms) = (m.payload ≡ completion) × Delivered a ms

abbrev beats : Payload → ℕ
beats (beat _ _) = 1
beats _ = 0

abbrev pub count_beats : List RuntimeMessage → ℕ
count_beats [] = 0
count_beats (m ∷ ms) = beats m.payload + count_beats ms

pub record Inv (c : Controller) : Type 0 where
  pub numbered : Numbered c.last_sequence c.messages
  pub fresh : c.state ≡ created → c.last_sequence ≡ 0
  pub started : c.last_sequence ≡ 0 → c.state ≡ created
  pub delivered : c.state ≡ artifact_ready → Delivered c.artifact_identity c.messages
  pub finished : c.state ≡ completed → Completed c.artifact_identity c.messages
  pub resumable :
      c.state ≡ disconnected
      → (c.state_before_disconnect ≡ some active) ⊎ (c.state_before_disconnect ≡ some cancelling)
  pub counted : c.heartbeat_count ≡ count_beats c.messages

-- no message has a number above the last one
pub unknown_above :
    (n k : ℕ) (ms : List RuntimeMessage) → Numbered n ms → n < k → find_message k ms ≡ none
unfolding find_message
unknown_above n k [] h b = refl
unknown_above n k (m ∷ ms) (p, q, s, h) b = ground (arith, unknown_above p k ms h)

pub new-Inv : (i : ContentIdentity) (r : Text) → Inv (new i r)
unfolding new
new-Inv i r = ground arith

-- What `_transition` changes and leaves alone, when it takes a message.
pub frame :
    (p : Payload) (c : Controller)
    → ((transition p c).0.messages ≡ c.messages)
      × ((transition p c).0.last_sequence ≡ c.last_sequence)
      × ((transition p c).0.request_identity ≡ c.request_identity)
      × ((transition p c).0.run_id ≡ c.run_id)
      × ((transition p c).0.terminal_identity ≡ c.terminal_identity)
unfolding transition
frame (launch _ _) c = ground arith
frame _ c = ground arith

beats-transition :
    (p : Payload) (c : Controller)
    → (transition p c).1 ≡ none
    → (transition p c).0.heartbeat_count ≡ beats p + c.heartbeat_count
unfolding transition
beats-transition (launch _ _) c h = ground arith
beats-transition _ c h = ground arith

not-created :
    (p : Payload) (c : Controller)
    → (c.state ≡ disconnected
        → (c.state_before_disconnect ≡ some active) ⊎ (c.state_before_disconnect ≡ some cancelling))
    → (transition p c).1 ≡ none
    → (transition p c).0.state ≢ created
unfolding transition
not-created (launch _ _) c r h = ground arith
not-created _ c r h = ground arith

transition-resumable :
    (p : Payload) (c : Controller)
    → (transition p c).1 ≡ none
    → (transition p c).0.state ≡ disconnected
    → ((transition p c).0.state_before_disconnect ≡ some active)
      ⊎ ((transition p c).0.state_before_disconnect ≡ some cancelling)
unfolding transition
transition-resumable (launch _ _) c h s = ground arith
transition-resumable _ c h s = ground arith

transition-delivered :
    (p : Payload) (c : Controller)
    → (transition p c).1 ≡ none
    → (transition p c).0.state ≡ artifact_ready
    → (i : ContentIdentity) × (n : ℕ) × (p ≡ bundle i n)
      × ((transition p c).0.artifact_identity ≡ some i)
unfolding transition
transition-delivered (bundle i n) c h s = (i, n, refl, ground arith)
transition-delivered _ c h s = absurd (ground arith)

transition-finished :
    (p : Payload) (c : Controller)
    → (transition p c).1 ≡ none
    → (transition p c).0.state ≡ completed
    → (p ≡ completion)
      × (c.state ≡ artifact_ready)
      × ((transition p c).0.artifact_identity ≡ c.artifact_identity)
unfolding transition
transition-finished (launch _ _) c h s = ground arith
transition-finished _ c h s = ground arith

module _ (sha256 : Text → Text) where
  recorded-Inv :
      (m : RuntimeMessage) (c : Controller)
      → Inv c
      → m.sequence ≡ c.last_sequence + 1
      → (transition m.payload c).1 ≡ none
      → Inv (recorded sha256 m (transition m.payload c).0)
  unfolding recorded
  recorded-Inv m c v s h = record {
    numbered = (c.last_sequence, omega arith, omega arith, rw ((frame m.payload c).0) v.numbered);
    fresh = λ e. absurd (not-created m.payload c v.resumable h e);
    started = λ e. absurd (omega arith);
    delivered = λ e. transition-delivered m.payload c h e;
    finished = λ e.
        let (p, ready, same) = transition-finished m.payload c h e in
        (p, rw (same, (frame m.payload c).0) (v.delivered ready));
    resumable = λ e. transition-resumable m.payload c h e;
    counted = ground (arith, beats-transition m.payload c, frame m.payload c, v.counted);
  }

  -- Every call of `accept` keeps the invariant.
  pub accept-Inv : (m : RuntimeMessage) (c : Controller) → Inv c → Inv (accept sha256 m c).0
  accept-Inv m c v = elim (accept_cases sha256 m c) [
    | inl same ↦ rw same v
    | inr t ↦ rw t.result (recorded-Inv m c v t.next t.admitted)
  ]

  -- The controllers of one run, after any calls of `accept`, those that raised included.
  pub data Reach (request : ContentIdentity) (run : Text) : Controller → Type 0 where
    start : {c : Controller} → c ≡ new request run → Reach request run c
    call :
        {b c : Controller} (m : RuntimeMessage)
        → Reach request run b
        → c ≡ (accept sha256 m b).0
        → Reach request run c

  pub Reach-Inv :
      {request : ContentIdentity} {run : Text} {c : Controller} → Reach request run c → Inv c
  Reach-Inv {request} {run} (start e) = rw e (new-Inv request run)
  Reach-Inv (call {b = b} m r e) = rw e (accept-Inv m b (Reach-Inv r))

  -- A run that is completed has delivered its artifact by the message before its last one, and
  -- the controller holds the identity that this message carried.
  pub completed_delivered :
      {request : ContentIdentity} {run : Text} {c : Controller}
      → Reach request run c
      → c.state ≡ completed
      → Completed c.artifact_identity c.messages
  completed_delivered r h = (Reach-Inv r).finished h
