-- ===== src/Examples/Controller.antt =====
-- The life of one run, and the theorems about its controller at that run.
use temper_ml.Base.{
  nat_eq, List-discrete, list_eq, length, take, replicate, Text, codes, ℕ, ◌+◌, ◌%◌, ◌≤◌, ◌≡◌, refl,
  ◌⊎◌, true, none, some, List, [], ◌∷◌, ◌++◌,
}
use temper_ml.Domain.Projections.{ContentIdentity-discrete, ContentIdentity}
use temper_ml.Runtime.Protocol.{
  train, Payload, launch, progressed, cancellation, disconnection, reconnection, bundle, completion,
  RuntimeMessage,
}
use temper_ml.Runtime.Controller.Cases.{accept_error_unchanged}
use temper_ml.Runtime.Controller.Invariant.{
  Completed, new-Inv, accept-Inv, completed_delivered, Inv, Reach, start, call,
}
use temper_ml.Runtime.Controller.Replay.{accept_twice, reconstruct-message_log}
use temper_ml.Runtime.Controller.Progress.{
  was_cancelled, accept_monotone, accept_all_terminal, cancelled_requested, reconnect_restores,
}
use temper_ml.Runtime.Controller.{
  is_terminal, new, message_log, accept, accept_all, reconstruct, active, cancelling, completed,
  sequence_gap, Controller,
}

-- a stand-in for the digest, of the right form
abbrev digest : Text → Text
digest t = replicate 63 b'0' ++ (b'0' + length t % 10) ∷ []

abbrev request : ContentIdentity
request = record { algorithm = codes "sha256"; value = replicate 64 b'a' }

abbrev weights : ContentIdentity
weights = record { algorithm = codes "sha256"; value = replicate 64 b'b' }

abbrev run : Text
run = codes "run-1"

abbrev message : ℕ → Payload → RuntimeMessage
message n p = record { request_identity = request; run_id = run; sequence = n; payload = p }

abbrev first : RuntimeMessage
first = message 1 (launch train (codes "local"))

abbrev second : RuntimeMessage
second = message 2 (progressed 5 10)

abbrev third : RuntimeMessage
third = message 3 (bundle weights 3)

abbrev fourth : RuntimeMessage
fourth = message 4 completion

abbrev story : List RuntimeMessage
story = first ∷ second ∷ third ∷ fourth ∷ []

abbrev deliver : List RuntimeMessage → Controller → Controller
deliver [] c = c
deliver (m ∷ ms) c = deliver ms (accept digest m c).0

abbrev after : ℕ → Controller
after n = deliver (take n story) (new request run)

launched_run : Reach digest request run (after 1)
launched_run = call first (start refl) refl

whole_run : Reach digest request run (after 4)
whole_run = call fourth (call third (call second launched_run refl) refl) refl

ends_completed : (after 4).state ≡ completed
unfolding accept new ContentIdentity-discrete List-discrete
ends_completed = refl

completed_delivered_example : Completed (after 4).artifact_identity (after 4).messages
completed_delivered_example = completed_delivered digest whole_run ends_completed

reconstruct-message_log_example :
    reconstruct digest request run (message_log (after 4)) ≡ (after 4, none)
reconstruct-message_log_example = reconstruct-message_log digest request run whole_run

accept-Inv_example : Inv (accept digest first (new request run)).0
accept-Inv_example = accept-Inv digest first (new request run) (new-Inv request run)

accepted_second : accept digest second (after 1) ≡ (after 2, none)
unfolding accept new ContentIdentity-discrete List-discrete
accepted_second = refl

accept_twice_example : accept digest second (after 2) ≡ (after 2, none)
accept_twice_example = accept_twice digest second (after 1) (after 2) accepted_second

early_completion : (accept digest fourth (new request run)).1 ≡ some sequence_gap
unfolding accept new ContentIdentity-discrete List-discrete
early_completion = refl

accept_error_unchanged_example : (accept digest fourth (new request run)).0 ≡ new request run
accept_error_unchanged_example =
    accept_error_unchanged digest fourth (new request run) sequence_gap early_completion

accept_monotone_example :
    ((after 1).last_step ≤ (accept digest second (after 1)).0.last_step)
    × ((after 1).last_sequence ≤ (accept digest second (after 1)).0.last_sequence)
    × ((accept digest second (after 1)).0.last_sequence ≤ (after 1).last_sequence + 1)
accept_monotone_example = accept_monotone digest second (after 1)

is_over : is_terminal (after 4).state ≡ true
unfolding accept new ContentIdentity-discrete List-discrete is_terminal
is_over = refl

accept_all_terminal_example :
    (accept_all digest (second ∷ message 5 completion ∷ []) (after 4)).0 ≡ after 4
accept_all_terminal_example =
    accept_all_terminal digest (second ∷ message 5 completion ∷ []) (after 4) is_over

abbrev stopped : Controller
stopped = (accept digest (message 2 cancellation) (after 1)).0

stopping : Reach digest request run stopped
stopping = call (message 2 cancellation) launched_run refl

cancelled_requested_example : was_cancelled stopped.messages ≡ true
unfolding accept new ContentIdentity-discrete List-discrete
cancelled_requested_example = cancelled_requested digest request run stopping refl

reconnect_restores_example :
    ((accept digest
        (message 4 (reconnection 3))
        (accept digest (message 3 (disconnection 2)) stopped).0).0.state
      ≡ stopped.state)
    × ((stopped.state ≡ active) ⊎ (stopped.state ≡ cancelling))
unfolding accept new ContentIdentity-discrete List-discrete
reconnect_restores_example =
    reconnect_restores digest request run 2 3 (message 3 (disconnection 2))
      (message 4 (reconnection 3)) stopping refl refl refl refl refl refl
