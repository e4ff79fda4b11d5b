-- ===== src/Store/EventStream/Envelopes.antt =====
-- The envelope that `append` makes: it is canonical, and `_validate_envelope` accepts it.
use temper_ml.Base.{
  ◌==◌, nat_eq, List-discrete, list_eq, option_eq, and-split, ok, length, all, contains, Text,
  codes, text_lt, ℕ, suc, ◌≡◌, refl, true, Option, none, some, [], ◌∷◌, arith, ℕ_discrete,
}
use temper_ml.Store.Json.{get, has_key, keys_within, has_exactly, str, obj, Fields}
use temper_ml.Store.Canonical.{is_encodable}
use temper_ml.Store.Scanner.RoundTrip.{Encodable, Canonical, CanonicalFields}
use temper_ml.Domain.Projections.{is_hex_digit, is_sha256_hex}
use temper_ml.Store.EventStream.{request_fields, predecessor_json, envelope_fields, EventRequest}
use temper_ml.Store.EventStream.Reading.{
  is_text, sequence_of, predecessor_of, filled_text, object_payload, validate_envelope,
}

abbrev pub Filled : Text → Type 0
Filled [] = ⊥
Filled (c ∷ cs) = Unit

-- A request as its constructor leaves it: texts with characters, and a canonical payload.
pub record WellFormed (r : EventRequest) : Type 0 where
  pub key_filled : Filled r.idempotency_key
  pub type_filled : Filled r.event_type
  pub key_encodable : Encodable r.idempotency_key
  pub type_encodable : Encodable r.event_type
  pub payload_canonical : Canonical (obj r.payload)

abbrev pub IsDigest : Option Text → Type 0
IsDigest none = Unit
IsDigest (some t) = is_sha256_hex t ≡ true

all-Encodable : (t : Text) → all is_encodable t ≡ true → Encodable t
unfolding all
all-Encodable [] h = tt
all-Encodable (c ∷ cs) h = ground (arith, h, all-Encodable cs)

hex-Encodable : (t : Text) → all is_hex_digit t ≡ true → Encodable t
unfolding all is_hex_digit is_encodable
hex-Encodable [] h = tt
hex-Encodable (c ∷ cs) h = ground (arith, h, hex-Encodable cs)

predecessor_json-Canonical : (p : Option Text) → IsDigest p → Canonical (predecessor_json p)
unfolding predecessor_json Canonical is_sha256_hex
predecessor_json-Canonical none h = tt
predecessor_json-Canonical (some t) h =
    hex-Encodable t (and-split (length t == 64) (all is_hex_digit t) h).1

pub envelope_fields-Canonical :
    (n : ℕ) (p : Option Text) (r : EventRequest)
    → IsDigest p
    → WellFormed r
    → Canonical (obj (envelope_fields n p r.idempotency_key r.event_type r.payload))
unfolding envelope_fields Canonical CanonicalFields text_lt all is_encodable
envelope_fields-Canonical n p r h w = (
  (
    (refl, (refl, (refl, (refl, (refl, (refl, tt)))))),
    (
      (refl, (refl, (refl, (refl, (refl, tt))))),
      (
        (refl, (refl, (refl, (refl, tt)))),
        ((refl, (refl, (refl, tt))), ((refl, (refl, tt)), ((refl, tt), (tt, tt)))),
      ),
    ),
  ),
  (
    all-Encodable (codes "event_type") refl,
    (
      w.type_encodable,
      (
        all-Encodable (codes "idempotency_key") refl,
        (
          w.key_encodable,
          (
            all-Encodable (codes "payload") refl,
            (
              w.payload_canonical,
              (
                all-Encodable (codes "predecessor_hash") refl,
                (
                  predecessor_json-Canonical p h,
                  (
                    all-Encodable (codes "projection_version") refl,
                    (
                      all-Encodable (codes "v1") refl,
                      (
                        all-Encodable (codes "schema_version") refl,
                        (
                          all-Encodable (codes "v1") refl,
                          (all-Encodable (codes "sequence") refl, (tt, tt)),
                        ),
                      ),
                    ),
                  ),
                ),
              ),
            ),
          ),
        ),
      ),
    ),
  ),
)

pub request_fields-Canonical :
    (r : EventRequest)
    → WellFormed r
    → Canonical (obj (request_fields r.idempotency_key r.event_type r.payload))
unfolding request_fields Canonical CanonicalFields text_lt all is_encodable
request_fields-Canonical r w = (
  ((refl, (refl, tt)), ((refl, tt), (tt, tt))),
  (
    all-Encodable (codes "event_type") refl,
    (
      w.type_encodable,
      (
        all-Encodable (codes "idempotency_key") refl,
        (w.key_encodable, (all-Encodable (codes "payload") refl, (w.payload_canonical, tt))),
      ),
    ),
  ),
)

predecessor_of-json :
    (p : Option Text) → IsDigest p → predecessor_of (some (predecessor_json p)) ≡ ok p
unfolding predecessor_of predecessor_json
predecessor_of-json none h = refl
predecessor_of-json (some t) h = rw h

filled_text-Filled : (t : Text) → Filled t → filled_text (some (str t)) ≡ ok t
unfolding filled_text
filled_text-Filled [] f = elim f [ ]
filled_text-Filled (c ∷ cs) f = refl

pub validate_envelope-envelope_fields :
    (n : ℕ) (p : Option Text) (key type : Text) (payload : Fields)
    → IsDigest p
    → Filled key
    → Filled type
    → validate_envelope (envelope_fields (suc n) p key type payload)
      ≡ ok (record {
        sequence = suc n;
        predecessor_hash = p;
        idempotency_key = key;
        event_type = type;
        payload = payload;
      })
unfolding validate_envelope envelope_fields has_exactly keys_within has_key contains all get is_text
    sequence_of object_payload ℕ_discrete List-discrete
validate_envelope-envelope_fields n p key type payload h k t =
    rw (predecessor_of-json p h, filled_text-Filled key k, filled_text-Filled type t) refl
