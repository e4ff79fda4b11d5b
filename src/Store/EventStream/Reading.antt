-- ===== src/Store/EventStream/Reading.antt =====
-- `_validate_envelope`, `read_verified` and `rebuild` of src/temper_ml/store/event_stream.py.
-- SHA-256 is an argument of what hashes.
use temper_ml.Base.{
  if◌then◌else◌, ◌==◌, nat_eq, list_eq, option_eq, pos, ◌>>=◌, ◌>>◌, ensure, Result, ok, err,
  contains, sort_by, Text, codes, text_lt, ℕ, suc, Bool, false, not, ◌&&◌, ◌||◌, Option, none, some,
  List, [], ◌∷◌, ◌++◌,
}
use temper_ml.Store.Json.{get, has_exactly, Json, null, int, str, obj, Fields}
use temper_ml.Store.Canonical.{dumps_canonical_json, CanonicalError}
use temper_ml.Store.Loads.{loads_canonical_json}
use temper_ml.Domain.Projections.{is_sha256_hex, content_identity, ProjectionError, ContentIdentity}
use temper_ml.Store.EventStream.{
  unwritable, unhashable, Directory, event_projection, match_event_name, is_temp_name,
  has_json_suffix, lock_name, EventStreamError, unexpected_entry, invalid_filename, invalid_content,
  not_an_object, invalid_envelope, not_contiguous, broken_link, duplicate_event_key, hash_mismatch,
  not_canonical_event, StoredEvent,
}

-- `_ENVELOPE_FIELDS`
abbrev pub envelope_names : List Text
envelope_names =
    codes "schema_version"
    ∷ codes "projection_version"
    ∷ codes "sequence"
    ∷ codes "predecessor_hash"
    ∷ codes "idempotency_key"
    ∷ codes "event_type"
    ∷ codes "payload"
    ∷ []

-- What is read of an envelope.
pub record Envelope : Type 0 where
  pub sequence : ℕ
  pub predecessor_hash : Option Text
  pub idempotency_key : Text
  pub event_type : Text
  pub payload : Fields

unfoldable pub is_text : Text → Option Json → Bool
is_text t (some (str s)) = s == t
is_text t _ = false

-- `isinstance(value, int)`, no `bool`, and not below 1
unfoldable pub sequence_of : Option Json → Result EventStreamError ℕ
sequence_of (some (int (pos (suc n)))) = ok (suc n)
sequence_of _ = err invalid_envelope

unfoldable pub predecessor_of : Option Json → Result EventStreamError (Option Text)
unfolding is_sha256_hex
predecessor_of (some null) = ok none
predecessor_of (some (str t)) = if is_sha256_hex t then ok (some t) else err invalid_envelope
predecessor_of _ = err invalid_envelope

unfoldable pub filled_text : Option Json → Result EventStreamError Text
filled_text (some (str (c ∷ cs))) = ok (c ∷ cs)
filled_text _ = err invalid_envelope

unfoldable pub object_payload : Option Json → Result EventStreamError Fields
object_payload (some (obj fs)) = ok fs
object_payload _ = err invalid_envelope

-- `_validate_envelope`, with what is read of the envelope behind it
unfoldable pub validate_envelope : Fields → Result EventStreamError Envelope
unfolding has_exactly get is_text sequence_of predecessor_of filled_text object_payload
validate_envelope fs =
    ensure (has_exactly envelope_names fs) invalid_envelope
    >> (ensure (is_text (codes "v1") (get (codes "schema_version") fs)) invalid_envelope
        >> (ensure (is_text (codes "v1") (get (codes "projection_version") fs)) invalid_envelope
            >> (sequence_of (get (codes "sequence") fs) >>= λ sequence.
                predecessor_of (get (codes "predecessor_hash") fs) >>= λ predecessor.
                filled_text (get (codes "idempotency_key") fs) >>= λ key.
                filled_text (get (codes "event_type") fs) >>= λ type.
                object_payload (get (codes "payload") fs) >>= λ payload. ok (record {
                  sequence = sequence;
                  predecessor_hash = predecessor;
                  idempotency_key = key;
                  event_type = type;
                  payload = payload;
                }))))

-- The variables of the loop of `read_verified`.
pub record Chain : Type 0 where
  pub expected_sequence : ℕ
  pub seen_keys : List Text
  pub predecessor : Option Text
  pub events : List StoredEvent

abbrev pub empty_chain : Chain
empty_chain = record { expected_sequence = 1; seen_keys = []; predecessor = none; events = [] }

unfoldable pub filename_of : Option (ℕ × Text) → Result EventStreamError (ℕ × Text)
filename_of (some p) = ok p
filename_of none = err invalid_filename

unfoldable pub object_of : Result CanonicalError Json → Result EventStreamError Fields
object_of (ok (obj fs)) = ok fs
object_of (ok _) = err not_an_object
object_of (err e) = err invalid_content

unfoldable pub hashed :
    Result ProjectionError ContentIdentity → Result EventStreamError ContentIdentity
hashed (ok i) = ok i
hashed (err e) = err (unhashable e)

unfoldable pub written : Result CanonicalError Text → Result EventStreamError Text
written (ok t) = ok t
written (err e) = err (unwritable e)

unfoldable pub linked : Chain → Text → Envelope → ContentIdentity → Chain
linked c name e i = record {
  expected_sequence = suc c.expected_sequence;
  seen_keys = e.idempotency_key ∷ c.seen_keys;
  predecessor = some i.value;
  events =
      c.events
      ++ record {
        sequence = e.sequence;
        predecessor_hash = e.predecessor_hash;
        idempotency_key = e.idempotency_key;
        event_type = e.event_type;
        payload = e.payload;
        identity = i;
        path = name;
      }
        ∷ [];
}

-- the checks of an event against the events before it
unfoldable pub check_link : Chain → ℕ → Envelope → Result EventStreamError Unit
unfolding contains
check_link c n e =
    ensure (e.sequence == c.expected_sequence && n == e.sequence) not_contiguous
    >> (ensure (e.predecessor_hash == c.predecessor) broken_link
        >> ensure (not (contains e.idempotency_key c.seen_keys)) duplicate_event_key)

-- the body of the loop
unfoldable pub verify_event : (Text → Text) → Chain → Text × Text → Result EventStreamError Chain
unfolding filename_of match_event_name object_of loads_canonical_json validate_envelope check_link
    hashed content_identity written dumps_canonical_json linked
verify_event sha256 c (name, raw) = filename_of (match_event_name name) >>= λ p.
    object_of (loads_canonical_json raw) >>= λ fs. validate_envelope fs >>= λ e.
    check_link c p.0 e
    >> (hashed (content_identity sha256 event_projection fs) >>= λ i.
        ensure (p.1 == i.value) hash_mismatch
        >> (written (dumps_canonical_json (obj fs)) >>= λ t.
            ensure (raw == t) not_canonical_event >> ok (linked c name e i)))

unfoldable pub verify_events : (Text → Text) → Chain → Directory → Result EventStreamError Chain
unfolding verify_event
verify_events sha256 c [] = ok c
verify_events sha256 c (f ∷ fs) = verify_event sha256 c f >>= λ c'. verify_events sha256 c' fs

unfoldable pub is_skipped : Text → Bool
unfolding is_temp_name
is_skipped name = name == lock_name || is_temp_name name

-- the entries that hold events
unfoldable pub event_files : Directory → Result EventStreamError Directory
unfolding is_skipped has_json_suffix
event_files [] = ok []
event_files (f ∷ fs) =
    let later = event_files fs in
    if is_skipped f.0
    then later
    else if has_json_suffix f.0
    then (later >>= λ gs. ok (f ∷ gs))
    else err unexpected_entry

abbrev pub name_lt : Text × Text → Text × Text → Bool
name_lt f g = text_lt f.0 g.0

unfoldable pub read_chain : (Text → Text) → Directory → Result EventStreamError Chain
unfolding event_files verify_events sort_by text_lt
read_chain sha256 d = event_files d >>= λ fs. verify_events sha256 empty_chain (sort_by name_lt fs)

-- a directory that is missing reads as one without entries
unfoldable pub read_verified :
    (Text → Text) → Directory → Result EventStreamError (List StoredEvent)
unfolding read_chain
read_verified sha256 d = read_chain sha256 d >>= λ c. ok c.events

unfoldable pub fold_events : {S : Type 0} → (S → StoredEvent → S) → S → List StoredEvent → S
fold_events reducer s [] = s
fold_events reducer s (e ∷ es) = fold_events reducer (reducer s e) es

unfoldable pub rebuild :
    (Text → Text) → {S : Type 0} → (S → StoredEvent → S) → S → Directory → Result EventStreamError S
unfolding read_verified fold_events
rebuild sha256 reducer s d = read_verified sha256 d >>= λ es. ok (fold_events reducer s es)
