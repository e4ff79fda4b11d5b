-- ===== src/Store/EventStream/Appending.antt =====
-- `append` of src/temper_ml/store/event_stream.py, under its lock. The call returns the directory
-- that it leaves, also where it raises. How the write of the event ends is an argument.
use temper_ml.Base.{
  if◌then◌else◌, ◌==◌, nat_eq, list_eq, is_some, ◌>>=◌, ◌>>◌, ensure, Result, ok, err, length, Text,
  codes, find, suc, not, Option, none, some, List, [], ◌∷◌, ◌++◌,
}
use temper_ml.Store.Json.{get, Json, obj, Fields}
use temper_ml.Store.Canonical.{dumps_canonical_json, CanonicalError}
use temper_ml.Store.Loads.{loads_canonical_json}
use temper_ml.Domain.Projections.{content_identity}
use temper_ml.Store.EventStream.{
  conflict, unwritable, File, Directory, event_projection, request_fields, envelope_fields,
  event_name, lock_name, EventStreamError, not_an_object, path_exists, unsafe_write, EventRequest,
  StoredEvent, Commit, committed, not_linked, unconfirmed,
}
use temper_ml.Store.EventStream.Reading.{hashed, written, read_verified}

-- `_metadata_lock` makes the lock file where there is none; one that is there holds its byte already
unfoldable pub locked : Directory → Directory
unfolding find
locked d = if is_some (find lock_name d) then d else d ++ (lock_name, 0 ∷ []) ∷ []

-- the first event of that key
unfoldable pub event_of_key : Text → List StoredEvent → Option StoredEvent
event_of_key key [] = none
event_of_key key (e ∷ es) =
    let later = event_of_key key es in if e.idempotency_key == key then some e else later

unfoldable pub last_value : List StoredEvent → Option Text
last_value [] = none
last_value (e ∷ []) = some e.identity.value
last_value (e ∷ f ∷ es) = last_value (f ∷ es)

-- the payload that the request canonicalizes to
unfoldable pub canonical_payload : Result CanonicalError Json → Result EventStreamError Fields
unfolding get
canonical_payload (ok (obj fs)) = elim (get (codes "payload") fs) [
  | some (obj payload) ↦ ok payload
  | _ ↦ err not_an_object
]
canonical_payload (ok _) = err not_an_object
canonical_payload (err e) = err (unwritable e)

-- an event of the key of the request: the request again, or another one
unfoldable pub reused : StoredEvent → Text → Result EventStreamError (Option File × StoredEvent)
unfolding written dumps_canonical_json request_fields
reused e requested =
    written (dumps_canonical_json (obj (request_fields e.idempotency_key e.event_type e.payload)))
    >>= λ t. if t == requested then ok (none, e) else err conflict

unfoldable pub new_event :
    (Text → Text)
    → Directory
    → List StoredEvent
    → EventRequest
    → Fields
    → Result EventStreamError (Option File × StoredEvent)
unfolding hashed content_identity envelope_fields last_value written dumps_canonical_json event_name
    find
new_event sha256 d events r payload =
    let sequence = suc (length events) in
    let predecessor = last_value events in
    let envelope = envelope_fields sequence predecessor r.idempotency_key r.event_type payload in
    hashed (content_identity sha256 event_projection envelope) >>= λ i.
    let path = event_name sequence i.value in
    ensure (not (is_some (find path d))) path_exists
    >> (written (dumps_canonical_json (obj envelope)) >>= λ t. ok (
      some (path, t),
      record {
        sequence = sequence;
        predecessor_hash = predecessor;
        idempotency_key = r.idempotency_key;
        event_type = r.event_type;
        payload = payload;
        identity = i;
        path = path;
      },
    ))

-- the loop over the events, and what follows it
unfoldable pub at_key :
    (Text → Text)
    → Directory
    → List StoredEvent
    → EventRequest
    → Text
    → Fields
    → Option StoredEvent
    → Result EventStreamError (Option File × StoredEvent)
unfolding reused new_event
at_key sha256 d events r requested payload (some e) = reused e requested
at_key sha256 d events r requested payload none = new_event sha256 d events r payload

-- `_append_locked` up to the write: the file that is to be written, if there is one, and the event
unfoldable pub prepared :
    (Text → Text) → Directory → EventRequest → Result EventStreamError (Option File × StoredEvent)
unfolding read_verified written dumps_canonical_json request_fields canonical_payload
    loads_canonical_json event_of_key at_key
prepared sha256 d r = read_verified sha256 d >>= λ events.
    written (dumps_canonical_json (obj (request_fields r.idempotency_key r.event_type r.payload)))
    >>= λ requested. canonical_payload (loads_canonical_json requested) >>= λ payload.
        at_key sha256 d events r requested payload (event_of_key r.idempotency_key events)

-- `_atomic_write`, without the temporary file, which no call reads
unfoldable pub atomic_write : Commit → Directory → File → Directory × Result EventStreamError Unit
atomic_write committed d f = (d ++ f ∷ [], ok tt)
atomic_write not_linked d f = (d, err unsafe_write)
atomic_write unconfirmed d f = (d ++ f ∷ [], err unsafe_write)

-- the write, and the return
unfoldable pub finish :
    Commit
    → Directory
    → Result EventStreamError (Option File × StoredEvent)
    → Directory × Result EventStreamError StoredEvent
unfolding atomic_write
finish w d (ok (none, e)) = (d, ok e)
finish w d (ok (some f, e)) = let (d', done) = atomic_write w d f in (d', done >> ok e)
finish w d (err x) = (d, err x)

-- `_append_locked`
unfoldable pub append_locked :
    (Text → Text)
    → Commit
    → Directory
    → EventRequest
    → Directory × Result EventStreamError StoredEvent
unfolding prepared finish
append_locked sha256 w d r = finish w d (prepared sha256 d r)

unfoldable pub append :
    (Text → Text)
    → Commit
    → Directory
    → EventRequest
    → Directory × Result EventStreamError StoredEvent
unfolding locked append_locked
append sha256 w d r = append_locked sha256 w (locked d) r
