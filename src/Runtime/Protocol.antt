-- ===== src/Runtime/Protocol.antt =====
-- src/temper_ml/runtime/protocol.py: the typed messages of a worker. A message carries the
-- payload that its kind admits.
pub mod Validation
use temper_ml.Base.{nat_eq, list_eq, ℤ, pos, Result, Text, codes, ℕ, String, Bool, true, false}
use temper_ml.Store.Json.{Json, bool, int, str, obj, Fields, no_fields, field}
use temper_ml.Domain.Projections.{
  content_identity, identity_fields, ProjectionError, HashProjection, ContentIdentity,
}

pub data RuntimeOperation : Type 0 where
  probe train evaluate infer_focused infer_batch : RuntimeOperation

pub data RuntimeMessageKind : Type 0 where
  launched progress metric checkpoint log heartbeat cancellation_requested cancelled interrupted
        disconnected reconnected artifact_ready completed failed :
      RuntimeMessageKind

-- `terminal`
unfoldable pub is_terminal_kind : RuntimeMessageKind → Bool
is_terminal_kind cancelled = true
is_terminal_kind interrupted = true
is_terminal_kind completed = true
is_terminal_kind failed = true
is_terminal_kind _ = false

-- The payloads that `_validate_payload` admits, one constructor for each kind.
pub data Payload : Type 0 where
  launch : RuntimeOperation → Text → Payload
  progressed : ℕ → ℕ → Payload
  measured : Text → ℤ → ℕ → Payload
  checkpointed : ℕ → ContentIdentity → ContentIdentity → ℕ → Bool → Payload
  logged : Text → ℕ → ℕ → Payload
  beat : ℕ → Text → Payload
  cancellation : Payload
  cancel : Payload
  interruption : ℕ → Payload
  disconnection : ℕ → Payload
  reconnection : ℕ → Payload
  bundle : ContentIdentity → ℕ → Payload
  completion : Payload
  failure : Text → Text → Payload

abbrev pub kind_of : Payload → RuntimeMessageKind
kind_of (launch _ _) = launched
kind_of (progressed _ _) = progress
kind_of (measured _ _ _) = metric
kind_of (checkpointed _ _ _ _ _) = checkpoint
kind_of (logged _ _ _) = log
kind_of (beat _ _) = heartbeat
kind_of cancellation = cancellation_requested
kind_of cancel = cancelled
kind_of (interruption _) = interrupted
kind_of (disconnection _) = disconnected
kind_of (reconnection _) = reconnected
kind_of (bundle _ _) = artifact_ready
kind_of completion = completed
kind_of (failure _ _) = failed

pub record RuntimeMessage : Type 0 where
  pub request_identity : ContentIdentity
  pub run_id : Text
  pub sequence : ℕ
  pub payload : Payload

abbrev pub operation_name : RuntimeOperation → Text
operation_name probe = codes "probe"
operation_name train = codes "train"
operation_name evaluate = codes "evaluate"
operation_name infer_focused = codes "infer_focused"
operation_name infer_batch = codes "infer_batch"

abbrev pub kind_name : RuntimeMessageKind → Text
kind_name launched = codes "launched"
kind_name progress = codes "progress"
kind_name metric = codes "metric"
kind_name checkpoint = codes "checkpoint"
kind_name log = codes "log"
kind_name heartbeat = codes "heartbeat"
kind_name cancellation_requested = codes "cancellation_requested"
kind_name cancelled = codes "cancelled"
kind_name interrupted = codes "interrupted"
kind_name disconnected = codes "disconnected"
kind_name reconnected = codes "reconnected"
kind_name artifact_ready = codes "artifact_ready"
kind_name completed = codes "completed"
kind_name failed = codes "failed"

abbrev count : ℕ → Json
count n = int (pos n)

abbrev entry : String → Json → Fields → Fields
entry k v fs = field (codes k) v fs

-- The mapping that a message of the code holds for a payload of that kind.
unfoldable pub payload_fields : Payload → Fields
payload_fields (launch operation target) =
    entry "operation" (str (operation_name operation)) (entry "target_class" (str target) no_fields)
payload_fields (progressed step total) =
    entry "step" (count step) (entry "total_steps" (count total) no_fields)
payload_fields (measured name value step) =
    entry "name" (str name)
      (entry "value_microunits" (int value) (entry "step" (count step) no_fields))
payload_fields (checkpointed step weights state bytes resumes) = entry "step" (count step) (
    entry "checkpoint_identity" (identity_fields weights) (
      entry "training_state_identity" (identity_fields state)
        (entry "byte_count" (count bytes) (entry "resume_compatible" (bool resumes) no_fields))))
payload_fields (logged code ordinal step) =
    entry "code" (str code) (entry "ordinal" (count ordinal) (entry "step" (count step) no_fields))
payload_fields (beat step state) = entry "step" (count step) (entry "state" (str state) no_fields)
payload_fields cancellation = entry "acknowledged" (bool true) no_fields
payload_fields cancel = entry "terminal" (bool true) no_fields
payload_fields (interruption checkpoints) =
    entry "terminal" (bool true) (entry "recovery_checkpoint_count" (count checkpoints) no_fields)
payload_fields (disconnection last) = entry "last_received_sequence" (count last) no_fields
payload_fields (reconnection after) = entry "resume_after_sequence" (count after) no_fields
payload_fields (bundle identity members) =
    entry "bundle_identity" (identity_fields identity)
      (entry "member_count" (count members) no_fields)
payload_fields completion =
    entry "terminal" (bool true) (entry "verified_transfer" (bool true) no_fields)
payload_fields (failure code phase) =
    entry "terminal" (bool true)
      (entry "failure_code" (str code) (entry "phase" (str phase) no_fields))

-- `RuntimeMessage.projected_fields`
unfoldable pub projected_fields : RuntimeMessage → Fields
unfolding payload_fields identity_fields
projected_fields m = entry "protocol_version" (str (codes "v1")) (
    entry "request_identity" (identity_fields m.request_identity) (
      entry "run_id" (str m.run_id) (
        entry "sequence" (count m.sequence) (
          entry "kind" (str (kind_name (kind_of m.payload)))
            (entry "payload" (obj (payload_fields m.payload)) no_fields)))))

abbrev pub runtime_message_projection : HashProjection
runtime_message_projection = record { name = codes "runtime.worker_message"; version = codes "v1" }

-- `RuntimeMessage.identity`
unfoldable pub message_identity :
    (Text → Text) → RuntimeMessage → Result ProjectionError ContentIdentity
unfolding content_identity projected_fields
message_identity sha256 m = content_identity sha256 runtime_message_projection (projected_fields m)
