-- ===== src/Runtime/Controller.antt =====
-- src/temper_ml/runtime/controller.py: the owner of one run. A method returns the controller after
-- the call, and the error where it raised.
pub mod Cases
pub mod Invariant
pub mod Replay
pub mod Progress
use temper_ml.Base.{
  ltb, if◌then◌else◌, ◌==◌, nat_eq, list_eq, to_option, result_eq, sort_by, Text, ℕ, ◌+◌, Bool,
  true, false, not, ◌||◌, Option, none, some, List, [], ◌∷◌,
}
use temper_ml.Domain.Projections.{projection_error_eq, identity_eq, ContentIdentity}
use temper_ml.Runtime.Protocol.{
  message_identity, Payload, launch, progressed, measured, checkpointed, beat, cancellation, cancel,
  interruption, disconnection, reconnection, bundle, completion, failure, RuntimeMessage,
}

pub data ControllerState : Type 0 where
  created active cancelling disconnected artifact_ready cancelled interrupted completed failed :
      ControllerState

pub data ControllerError : Type 0 where
  subject_mismatch replay_conflict sequence_gap after_terminal duplicate_launch launch_missing
        activity_in_invalid_state progress_regressed checkpoint_regressed cancellation_invalid
        disconnect_invalid disconnect_sequence_mismatch reconnect_invalid
        reconnect_sequence_mismatch reconnect_state_missing artifact_invalid
        completion_without_artifact cancelled_without_request interruption_invalid :
      ControllerError

-- `terminal`
unfoldable pub is_terminal : ControllerState → Bool
is_terminal cancelled = true
is_terminal interrupted = true
is_terminal completed = true
is_terminal failed = true
is_terminal _ = false

pub record Controller : Type 0 where
  pub request_identity : ContentIdentity
  pub run_id : Text
  pub state : ControllerState
  pub last_sequence : ℕ
  pub last_step : ℕ
  pub heartbeat_count : ℕ
  pub checkpoint_count : ℕ
  pub metric_count : ℕ
  pub artifact_identity : Option ContentIdentity
  pub terminal_identity : Option ContentIdentity
  -- the dict from sequence numbers to messages, the newest first
  pub messages : List RuntimeMessage
  pub state_before_disconnect : Option ControllerState

-- The constructor, behind its check of `run_id`: the code refuses one that is no identifier, with
-- `controller_run_id_invalid`, and so has no controller of it.
unfoldable pub new : ContentIdentity → Text → Controller
new request run = record {
  request_identity = request;
  run_id = run;
  state = created;
  last_sequence = 0;
  last_step = 0;
  heartbeat_count = 0;
  checkpoint_count = 0;
  metric_count = 0;
  artifact_identity = none;
  terminal_identity = none;
  messages = [];
  state_before_disconnect = none;
}

abbrev pub Outcome : Type 0
Outcome = Controller × Option ControllerError

-- `{ACTIVE, CANCELLING}`
unfoldable pub is_working : ControllerState → Bool
is_working active = true
is_working cancelling = true
is_working _ = false

advance : ℕ → ControllerError → Controller → Controller → Outcome
advance step e c next =
    if ltb step c.last_step then (c, some e) else (record next { last_step = step }, none)

-- messages that report activity
activity : Payload → Controller → Outcome
unfolding advance
activity (progressed step _) c = advance step progress_regressed c c
activity (measured _ _ _) c = (record c { metric_count = c.metric_count + 1 }, none)
activity (checkpointed step _ _ _ _) c =
    advance step checkpoint_regressed c (record c { checkpoint_count = c.checkpoint_count + 1 })
activity (beat _ _) c = (record c { heartbeat_count = c.heartbeat_count + 1 }, none)
activity _ c = (c, none)

while_working : Payload → Controller → Outcome
unfolding activity is_working
while_working p c = if is_working c.state then activity p c else (c, some activity_in_invalid_state)

move : (ControllerState → Bool) → ControllerState → ControllerError → Controller → Outcome
move admits target e c = if admits c.state then (record c { state = target }, none) else (c, some e)

abbrev is_created : ControllerState → Bool
is_created created = true
is_created _ = false

abbrev is_active : ControllerState → Bool
is_active active = true
is_active _ = false

abbrev is_cancelling : ControllerState → Bool
is_cancelling cancelling = true
is_cancelling _ = false

abbrev is_disconnected : ControllerState → Bool
is_disconnected disconnected = true
is_disconnected _ = false

abbrev is_artifact_ready : ControllerState → Bool
is_artifact_ready artifact_ready = true
is_artifact_ready _ = false

-- `{ACTIVE, CANCELLING, DISCONNECTED}`
abbrev is_interruptible : ControllerState → Bool
is_interruptible active = true
is_interruptible cancelling = true
is_interruptible disconnected = true
is_interruptible _ = false

drop_connection : ℕ → Controller → Outcome
unfolding is_working
drop_connection last c =
    if not (is_working c.state)
    then (c, some disconnect_invalid)
    else if not (last == c.last_sequence)
    then (c, some disconnect_sequence_mismatch)
    else (record c { state_before_disconnect = some c.state; state = disconnected }, none)

restore : Option ControllerState → Controller → Outcome
unfolding is_working
restore none c = (c, some reconnect_state_missing)
restore (some s) c =
    if is_working s
    then (record c { state = s; state_before_disconnect = none }, none)
    else (c, some reconnect_state_missing)

resume : ℕ → Controller → Outcome
unfolding restore
resume after c =
    if not (is_disconnected c.state)
    then (c, some reconnect_invalid)
    else if not (after == c.last_sequence)
    then (c, some reconnect_sequence_mismatch)
    else restore c.state_before_disconnect c

receive_artifact : ContentIdentity → Controller → Outcome
receive_artifact identity c =
    if is_active c.state
    then (record c { artifact_identity = some identity; state = artifact_ready }, none)
    else (c, some artifact_invalid)

-- what follows the launch
launched_transition : Payload → Controller → Outcome
unfolding while_working move drop_connection resume receive_artifact
launched_transition cancellation c = move is_active cancelling cancellation_invalid c
launched_transition (disconnection last) c = drop_connection last c
launched_transition (reconnection after) c = resume after c
launched_transition (bundle identity _) c = receive_artifact identity c
launched_transition completion c = move is_artifact_ready completed completion_without_artifact c
launched_transition cancel c = move is_cancelling cancelled cancelled_without_request c
launched_transition (interruption _) c = move is_interruptible interrupted interruption_invalid c
launched_transition (failure _ _) c = (record c { state = failed }, none)
launched_transition p c = while_working p c

-- `_transition`
unfoldable pub transition : Payload → Controller → Outcome
unfolding launched_transition move
transition (launch _ _) c = move is_created active duplicate_launch c
transition p c = if is_created c.state then (c, some launch_missing) else launched_transition p c

abbrev pub sequence_lt : RuntimeMessage → RuntimeMessage → Bool
sequence_lt a b = ltb a.sequence b.sequence

-- the property `messages`
unfoldable pub message_log : Controller → List RuntimeMessage
unfolding sort_by
message_log c = sort_by sequence_lt c.messages

-- `self._messages.get(sequence)`
unfoldable pub find_message : ℕ → List RuntimeMessage → Option RuntimeMessage
find_message n [] = none
find_message n (m ∷ ms) = if m.sequence == n then some m else find_message n ms

module _ (sha256 : Text → Text) where
  -- the bookkeeping after `_transition`
  pub recorded : RuntimeMessage → Controller → Controller
  unfolding is_terminal
  recorded m c = record c {
    messages = m ∷ c.messages;
    last_sequence = m.sequence;
    terminal_identity =
        if is_terminal c.state then to_option (message_identity sha256 m) else c.terminal_identity;
  }

  record_message : RuntimeMessage → Outcome → Outcome
  unfolding recorded
  record_message m (c, some e) = (c, some e)
  record_message m (c, none) = (recorded m c, none)

  accept_new : RuntimeMessage → Controller → Outcome
  unfolding record_message transition is_terminal
  accept_new m c =
      if not (m.sequence == c.last_sequence + 1)
      then (c, some sequence_gap)
      else if is_terminal c.state
      then (c, some after_terminal)
      else record_message m (transition m.payload c)

  accept_known : RuntimeMessage → Option RuntimeMessage → Controller → Outcome
  unfolding accept_new
  accept_known m none c = accept_new m c
  accept_known m (some prior) c =
      if message_identity sha256 prior == message_identity sha256 m
      then (c, none)
      else (c, some replay_conflict)

  unfoldable pub accept : RuntimeMessage → Controller → Outcome
  unfolding accept_known find_message
  accept m c =
      if not (m.request_identity == c.request_identity) || not (m.run_id == c.run_id)
      then (c, some subject_mismatch)
      else accept_known m (find_message m.sequence c.messages) c

  -- the loop of `reconstruct`, which the first error ends
  unfoldable pub accept_all : List RuntimeMessage → Controller → Outcome
  accept_all [] c = (c, none)
  accept_all (m ∷ ms) c =
      let (c', raised) = accept m c in
      elim raised [ some e ↦ (c', some e) | none ↦ accept_all ms c' ]

  unfoldable pub reconstruct : ContentIdentity → Text → List RuntimeMessage → Outcome
  unfolding accept_all new
  reconstruct request run ms = accept_all ms (new request run)
