-- ===== src/Runtime/Protocol/Validation/Acceptance.antt =====
-- Which payloads are accepted, and that what is accepted is the payload that was sent.
use temper_ml.Base.{
  nat_eq, List-discrete, list_eq, Result, ok, err, is_empty, ◌≤◌, ◌≡◌, ◌↔◌, true, false, arith,
  ℕ_discrete,
}
use temper_ml.Domain.Projections.{make_identity, identity_fields, ProjectionError, ContentIdentity}
use temper_ml.Domain.Identifiers.{is_identifier}
use temper_ml.Runtime.Protocol.{
  launch, progressed, measured, checkpointed, logged, beat, cancellation, cancel, interruption,
  disconnection, reconnection, bundle, completion, failure, kind_of, payload_fields, probe, train,
  evaluate, infer_focused, infer_batch, Payload,
}
use temper_ml.Runtime.Protocol.Validation.{
  identity_mapping, validate_payload, RuntimeProtocolError, payload_invalid,
}

-- an algorithm and a digest that the constructor admits
abbrev pub IsIdentity : ContentIdentity → Type 0
IsIdentity i = make_identity i.algorithm i.value ≡ ok i

-- what the branch of its kind asks of a payload
abbrev pub Valid : Payload → Type 0
Valid (launch operation target) = is_identifier target ≡ true
Valid (progressed step total) = (1 ≤ total) × (step ≤ total)
Valid (measured name value step) = is_identifier name ≡ true
Valid (checkpointed step weights state bytes resumes) =
    (1 ≤ step) × (1 ≤ bytes) × IsIdentity weights × IsIdentity state
Valid (logged code ordinal step) = (1 ≤ ordinal) × (is_identifier code ≡ true)
Valid (beat step state) = is_empty state ≡ false
Valid cancellation = Unit
Valid cancel = Unit
Valid (interruption checkpoints) = Unit
Valid (disconnection last) = Unit
Valid (reconnection after) = Unit
Valid (bundle identity members) = IsIdentity identity × (1 ≤ members)
Valid completion = Unit
Valid (failure code phase) = (is_identifier code ≡ true) × (is_identifier phase ≡ true)

kept_result :
    (r : Result ProjectionError ContentIdentity) (i : ContentIdentity)
    → (elim r as (λ _. Result RuntimeProtocolError ContentIdentity) [
      | ok j ↦ ok j
      | err e ↦ err payload_invalid
    ]
        ≡ ok i)
      ↔ (r ≡ ok i)
kept_result (ok j) i = ground arith
kept_result (err e) i = ground arith

identity_mapping-identity_fields :
    (i : ContentIdentity) → identity_mapping (identity_fields i) ≡ ok i ↔ IsIdentity i
unfolding identity_mapping identity_fields List-discrete ℕ_discrete
identity_mapping-identity_fields i = kept_result (make_identity i.algorithm i.value) i

-- The mapping that a payload is on the wire is validated as that payload exactly when it is valid.
pub validate_payload-payload_fields :
    (p : Payload) → validate_payload (kind_of p) (payload_fields p) ≡ ok p ↔ Valid p
unfolding validate_payload payload_fields List-discrete ℕ_discrete
validate_payload-payload_fields (launch probe target) = ground arith
validate_payload-payload_fields (launch train target) = ground arith
validate_payload-payload_fields (launch evaluate target) = ground arith
validate_payload-payload_fields (launch infer_focused target) = ground arith
validate_payload-payload_fields (launch infer_batch target) = ground arith
validate_payload-payload_fields (progressed step total) = ground arith
validate_payload-payload_fields (measured name value step) = ground arith
validate_payload-payload_fields (checkpointed step weights state bytes resumes) =
    ground (arith, identity_mapping-identity_fields weights, identity_mapping-identity_fields state)
validate_payload-payload_fields (logged code ordinal step) = ground arith
validate_payload-payload_fields (beat step state) = ground arith
validate_payload-payload_fields cancellation = ground arith
validate_payload-payload_fields cancel = ground arith
validate_payload-payload_fields (interruption checkpoints) = ground arith
validate_payload-payload_fields (disconnection last) = ground arith
validate_payload-payload_fields (reconnection after) = ground arith
validate_payload-payload_fields (bundle identity members) =
    ground (arith, identity_mapping-identity_fields identity)
validate_payload-payload_fields completion = ground arith
validate_payload-payload_fields (failure code phase) = ground arith
