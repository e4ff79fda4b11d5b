-- ===== src/Examples/Protocol.antt =====
-- The validation of payloads.
use temper_ml.Base.{List-discrete, ok, err, codes, ◌≡◌, refl, ◌↔◌, true, ℕ_discrete}
use temper_ml.Store.Json.{null, bool, no_fields, field}
use temper_ml.Runtime.Protocol.{payload_fields, progress, cancelled, progressed}
use temper_ml.Runtime.Protocol.Validation.{
  validate_payload, payload_fields_invalid, payload_invalid,
}
use temper_ml.Runtime.Protocol.Validation.Acceptance.{Valid, validate_payload-payload_fields}

validate_payload-payload_fields_example :
    validate_payload progress (payload_fields (progressed 3 10)) ≡ ok (progressed 3 10)
    ↔ Valid (progressed 3 10)
validate_payload-payload_fields_example = validate_payload-payload_fields (progressed 3 10)

-- a step beyond the total
beyond : validate_payload progress (payload_fields (progressed 11 10)) ≡ err payload_invalid
unfolding validate_payload payload_fields List-discrete ℕ_discrete
beyond = refl

-- a field too many
one_more :
    validate_payload cancelled
      (field (codes "extra") null (field (codes "terminal") (bool true) no_fields))
    ≡ err payload_fields_invalid
unfolding validate_payload List-discrete ℕ_discrete
one_more = refl
