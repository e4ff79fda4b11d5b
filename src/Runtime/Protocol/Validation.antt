-- ===== src/Runtime/Protocol/Validation.antt =====
-- `_validate_payload` of src/temper_ml/runtime/protocol.py with its helpers, and `parse_identity` of
-- src/temper_ml/domain/records.py. What is validated is returned as a payload.
pub mod Acceptance
use temper_ml.Base.{
  ltb, if◌then◌else◌, ◌==◌, nat_eq, list_eq, ℤ, pos, ◌>>=◌, Result, ok, err, is_empty, Text, codes,
  ℕ, String, Bool, true, Option, none, some, List, [], ◌∷◌,
}
use temper_ml.Store.Json.{get, has_exactly, Json, bool, int, str, obj, Fields}
use temper_ml.Domain.Projections.{make_identity, ContentIdentity}
use temper_ml.Domain.Identifiers.{is_identifier}
use temper_ml.Runtime.Protocol.{
  launch, progressed, measured, checkpointed, logged, beat, cancellation, cancel, interruption,
  disconnection, reconnection, bundle, completion, failure, RuntimeOperation, probe, train,
  evaluate, infer_focused, infer_batch, RuntimeMessageKind, launched, progress, metric, checkpoint,
  log, heartbeat, cancellation_requested, cancelled, interrupted, disconnected, reconnected,
  artifact_ready, completed, failed, Payload,
}

pub data RuntimeProtocolError : Type 0 where
  payload_fields_invalid payload_invalid : RuntimeProtocolError

-- `value[k]`
unfoldable pub item_of : Text → Fields → Result RuntimeProtocolError Json
unfolding get
item_of k fs = elim (get k fs) [ some v ↦ ok v | none ↦ err payload_invalid ]

-- `_non_negative_int`
abbrev pub non_negative_int : Json → Result RuntimeProtocolError ℕ
non_negative_int (int (pos n)) = ok n
non_negative_int _ = err payload_invalid

-- `_positive_int`
unfoldable pub positive_int : Json → Result RuntimeProtocolError ℕ
positive_int v = non_negative_int v >>= λ n. if n == 0 then err payload_invalid else ok n

unfoldable pub identifier_of : Json → Result RuntimeProtocolError Text
unfolding is_identifier
identifier_of (str t) = if is_identifier t then ok t else err payload_invalid
identifier_of _ = err payload_invalid

abbrev integer_of : Json → Result RuntimeProtocolError ℤ
integer_of (int n) = ok n
integer_of _ = err payload_invalid

abbrev boolean_of : Json → Result RuntimeProtocolError Bool
boolean_of (bool b) = ok b
boolean_of _ = err payload_invalid

text_of : Json → Result RuntimeProtocolError Text
unfolding is_empty
text_of (str t) = if is_empty t then err payload_invalid else ok t
text_of _ = err payload_invalid

-- `is not True`
abbrev true_of : Json → Result RuntimeProtocolError (Unit {0})
true_of (bool true) = ok tt
true_of _ = err payload_invalid

-- `parse_identity`, then the constructor
parsed_identity : Option Json → Option Json → Result RuntimeProtocolError ContentIdentity
unfolding make_identity
parsed_identity (some (str a)) (some (str v)) = elim (make_identity a v) [
  | ok i ↦ ok i
  | err e ↦ err payload_invalid
]
parsed_identity _ _ = err payload_invalid

-- `_identity_mapping`
unfoldable pub identity_mapping : Json → Result RuntimeProtocolError ContentIdentity
unfolding parsed_identity has_exactly get
identity_mapping (obj fs) =
    if has_exactly (codes "algorithm" ∷ codes "value" ∷ []) fs
    then parsed_identity (get (codes "algorithm") fs) (get (codes "value") fs)
    else err payload_invalid
identity_mapping _ = err payload_invalid

operation_of : Json → Result RuntimeProtocolError RuntimeOperation
operation_of (str t) =
    if t == codes "probe"
    then ok probe
    else if t == codes "train"
    then ok train
    else if t == codes "evaluate"
    then ok evaluate
    else if t == codes "infer_focused"
    then ok infer_focused
    else if t == codes "infer_batch"
    then ok infer_batch
    else err payload_invalid
operation_of _ = err payload_invalid

-- the entry `required[kind]`
abbrev pub required : RuntimeMessageKind → List Text
required launched = codes "operation" ∷ codes "target_class" ∷ []
required progress = codes "step" ∷ codes "total_steps" ∷ []
required metric = codes "name" ∷ codes "value_microunits" ∷ codes "step" ∷ []
required checkpoint =
    codes "step"
    ∷ codes "checkpoint_identity"
    ∷ codes "training_state_identity"
    ∷ codes "byte_count"
    ∷ codes "resume_compatible"
    ∷ []
required log = codes "code" ∷ codes "ordinal" ∷ codes "step" ∷ []
required heartbeat = codes "step" ∷ codes "state" ∷ []
required cancellation_requested = codes "acknowledged" ∷ []
required cancelled = codes "terminal" ∷ []
required interrupted = codes "terminal" ∷ codes "recovery_checkpoint_count" ∷ []
required disconnected = codes "last_received_sequence" ∷ []
required reconnected = codes "resume_after_sequence" ∷ []
required artifact_ready = codes "bundle_identity" ∷ codes "member_count" ∷ []
required completed = codes "terminal" ∷ codes "verified_transfer" ∷ []
required failed = codes "terminal" ∷ codes "failure_code" ∷ codes "phase" ∷ []

read :
    {A : Type 0}
    → String
    → (Json → Result RuntimeProtocolError A)
    → Fields
    → Result RuntimeProtocolError A
unfolding item_of
read k f fs = item_of (codes k) fs >>= f

-- the branch of the kind
payload_of : RuntimeMessageKind → Fields → Result RuntimeProtocolError Payload
unfolding read positive_int identifier_of text_of identity_mapping operation_of
payload_of launched fs = do
  operation ← read "operation" operation_of fs
  target ← read "target_class" identifier_of fs
  ok (launch operation target)
payload_of progress fs = do
  step ← read "step" non_negative_int fs
  total ← read "total_steps" positive_int fs
  if ltb total step then err payload_invalid else ok (progressed step total)
payload_of metric fs = do
  name ← read "name" identifier_of fs
  step ← read "step" non_negative_int fs
  value ← read "value_microunits" integer_of fs
  ok (measured name value step)
payload_of checkpoint fs = do
  step ← read "step" positive_int fs
  bytes ← read "byte_count" positive_int fs
  weights ← read "checkpoint_identity" identity_mapping fs
  state ← read "training_state_identity" identity_mapping fs
  resumes ← read "resume_compatible" boolean_of fs
  ok (checkpointed step weights state bytes resumes)
payload_of log fs = do
  ordinal ← read "ordinal" positive_int fs
  step ← read "step" non_negative_int fs
  code ← read "code" identifier_of fs
  ok (logged code ordinal step)
payload_of heartbeat fs = do
  step ← read "step" non_negative_int fs
  state ← read "state" text_of fs
  ok (beat step state)
payload_of cancellation_requested fs = read "acknowledged" true_of fs >>= λ _. ok cancellation
payload_of cancelled fs = read "terminal" true_of fs >>= λ _. ok cancel
payload_of interrupted fs = do
  _ ← read "terminal" true_of fs
  checkpoints ← read "recovery_checkpoint_count" non_negative_int fs
  ok (interruption checkpoints)
payload_of disconnected fs =
    read "last_received_sequence" non_negative_int fs >>= λ n. ok (disconnection n)
payload_of reconnected fs =
    read "resume_after_sequence" non_negative_int fs >>= λ n. ok (reconnection n)
payload_of artifact_ready fs = do
  identity ← read "bundle_identity" identity_mapping fs
  members ← read "member_count" positive_int fs
  ok (bundle identity members)
payload_of completed fs = do
  _ ← read "terminal" true_of fs
  _ ← read "verified_transfer" true_of fs
  ok completion
payload_of failed fs = do
  _ ← read "terminal" true_of fs
  code ← read "failure_code" identifier_of fs
  phase ← read "phase" identifier_of fs
  ok (failure code phase)

-- `_validate_payload`, with the payload that was checked, where the code returns nothing
unfoldable pub validate_payload : RuntimeMessageKind → Fields → Result RuntimeProtocolError Payload
unfolding has_exactly payload_of
validate_payload kind fs =
    if has_exactly (required kind) fs then payload_of kind fs else err payload_fields_invalid
