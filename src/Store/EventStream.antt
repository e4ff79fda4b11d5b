-- ===== src/Store/EventStream.antt =====
-- src/temper_ml/store/event_stream.py: the requests, the stored events, and the names of the files
-- of a stream. A directory is the list of its files, each a name and the text that its bytes decode
-- to; its entries are regular files.
pub mod Reading
pub mod Appending
pub mod Steps
pub mod Digests
pub mod Chains
pub mod Names
pub mod Envelopes
pub mod Consistency
pub mod Entries
pub mod Appended
pub mod Outcomes
pub mod Promises
pub mod Retries
pub mod Interrupted
pub mod Log
use temper_ml.Base.{
  ltb, if◌then◌else◌, ◌==◌, nat_eq, list_eq, is_some, pos, length, all, take, drop, replicate, Text,
  codes, ℕ, ◌-◌, Bool, ◌&&◌, Option, none, some, List, ◌∷◌, ◌++◌,
}
use temper_ml.Store.Json.{Json, null, int, str, obj, Fields, no_fields, field}
use temper_ml.Store.Canonical.{show_ℕ, CanonicalError}
use temper_ml.Store.Scanner.Numbers.{is_digit, number_of}
use temper_ml.Domain.Projections.{
  is_hex_digit, is_sha256_hex, ProjectionError, HashProjection, ContentIdentity,
}

-- `EventConflict`, the reasons of `EventStreamCorrupt`, and what the calls below let through.
pub data EventStreamError : Type 0 where
  conflict : EventStreamError
  unexpected_entry invalid_filename invalid_content not_an_object invalid_envelope :
      EventStreamError
  not_contiguous broken_link duplicate_event_key hash_mismatch not_canonical_event :
      EventStreamError
  path_exists unsafe_write : EventStreamError
  unwritable : CanonicalError → EventStreamError
  unhashable : ProjectionError → EventStreamError

pub record EventRequest : Type 0 where
  pub idempotency_key : Text
  pub event_type : Text
  pub payload : Fields

pub record StoredEvent : Type 0 where
  pub sequence : ℕ
  pub predecessor_hash : Option Text
  pub idempotency_key : Text
  pub event_type : Text
  pub payload : Fields
  pub identity : ContentIdentity
  pub path : Text

-- the name and the text of a file
abbrev pub File : Type 0
File = Text × Text

abbrev pub Directory : Type 0
Directory = List File

-- How far `write_once_bytes` of src/temper_ml/store/safe_io.py comes: it returns, it raises before
-- `os.link` has placed the file, or it raises after that.
pub data Commit : Type 0 where
  committed not_linked unconfirmed : Commit

-- `EVENT_PROJECTION`
abbrev pub event_projection : HashProjection
event_projection = record { name = codes "event.envelope"; version = codes "v1" }

-- `canonical_fields` of a request, `request_fields` of an event
unfoldable pub request_fields : Text → Text → Fields → Fields
request_fields key type payload =
    field (codes "event_type") (str type)
      (field (codes "idempotency_key") (str key) (field (codes "payload") (obj payload) no_fields))

unfoldable pub predecessor_json : Option Text → Json
predecessor_json none = null
predecessor_json (some t) = str t

-- the envelope of an event, with its keys in order
unfoldable pub envelope_fields : ℕ → Option Text → Text → Text → Fields → Fields
unfolding predecessor_json
envelope_fields sequence predecessor key type payload = field (codes "event_type") (str type) (
    field (codes "idempotency_key") (str key) (
      field (codes "payload") (obj payload) (
        field (codes "predecessor_hash") (predecessor_json predecessor) (
          field (codes "projection_version") (str (codes "v1")) (
            field (codes "schema_version") (str (codes "v1"))
              (field (codes "sequence") (int (pos sequence)) no_fields))))))

-- `f"{n:020d}"`
unfoldable pub padded : ℕ → Text
unfolding show_ℕ
padded n = replicate (20 - length (show_ℕ n)) b'0' ++ show_ℕ n

-- `f"{sequence:020d}-{value}.json"`
unfoldable pub event_name : ℕ → Text → Text
unfolding padded
event_name n value = padded n ++ (b'-' ∷ (value ++ codes ".json"))

-- `_EVENT_NAME`: the sequence and the digest
unfoldable pub match_event_name : Text → Option (ℕ × Text)
unfolding number_of is_sha256_hex all
match_event_name t =
    if all is_digit (take 20 t)
      && (length (take 20 t) == 20
          && (take 1 (drop 20 t) == codes "-"
              && (is_sha256_hex (take 64 (drop 21 t)) && drop 85 t == codes ".json")))
    then some (number_of 0 (take 20 t), take 64 (drop 21 t))
    else none

-- `_TEMP_NAME`
unfoldable pub is_temp_name : Text → Bool
unfolding match_event_name is_hex_digit all
is_temp_name t =
    take 1 t == codes "."
    && (is_some (match_event_name (take 90 (drop 1 t)))
        && (take 1 (drop 91 t) == codes "."
            && (all is_hex_digit (take 32 (drop 92 t))
                && (length (take 32 (drop 92 t)) == 32 && drop 124 t == codes ".tmp"))))

-- `path.suffix == ".json"`
unfoldable pub has_json_suffix : Text → Bool
has_json_suffix t = ltb 5 (length t) && drop (length t - 5) t == codes ".json"

abbrev pub lock_name : Text
lock_name = codes ".append.lock"
