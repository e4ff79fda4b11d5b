-- ===== src/Store/WriteOnce.antt =====
-- `WriteOnceStore` of src/temper_ml/store/write_once.py. The files below the root of a store are a
-- dict from paths to texts; links and temporary files are not modelled. SHA-256 is an argument of
-- what hashes.
pub mod Records
use temper_ml.Base.{
  ltb, if◌then◌else◌, ◌==◌, nat_eq, list_eq, ◌>>=◌, Result, ok, err, length, Text, codes, find, put,
  suc, Bool, false, ◌&&◌, Option, none, some, List, [], ◌∷◌, ◌++◌,
}
use temper_ml.Store.Json.{Json, obj, Fields}
use temper_ml.Store.Canonical.{dumps_canonical_json, CanonicalError}
use temper_ml.Store.Loads.{loads_canonical_json}
use temper_ml.Domain.Projections.{
  identity_eq, content_identity, ProjectionError, HashProjection, ContentIdentity,
}
use temper_ml.Store.Paths.{safe_relative_path, PathError}

-- `WriteOnceExists`, the reasons of `WriteOnceCorrupt` and of `WriteOnceError`, a missing file, and
-- what the calls below let through.
pub data WriteOnceError : Type 0 where
  exists missing : WriteOnceError
  corrupt_json corrupt_object corrupt_identity : WriteOnceError
  not_a_json_object : WriteOnceError
  bad_path : PathError → WriteOnceError
  bad_value : CanonicalError → WriteOnceError
  bad_hash : ProjectionError → WriteOnceError

abbrev pub Files : Type 0
Files = List (List Text × Text)

pub record WrittenRecord : Type 0 where
  pub identity : ContentIdentity
  pub path : List Text

unfoldable pub from_path : Result PathError (List Text) → Result WriteOnceError (List Text)
from_path (ok a) = ok a
from_path (err e) = err (bad_path e)

unfoldable pub from_dumps : Result CanonicalError Text → Result WriteOnceError Text
from_dumps (ok t) = ok t
from_dumps (err e) = err (bad_value e)

unfoldable pub from_hash :
    Result ProjectionError ContentIdentity → Result WriteOnceError ContentIdentity
from_hash (ok i) = ok i
from_hash (err e) = err (bad_hash e)

-- the record that a payload canonicalizes to
unfoldable pub mapping_of : Result CanonicalError Json → Result WriteOnceError Fields
mapping_of (ok (obj fs)) = ok fs
mapping_of (ok _) = err not_a_json_object
mapping_of (err e) = err (bad_value e)

-- `_immutable_path`
unfoldable pub immutable_path : Text → ContentIdentity → Result WriteOnceError (List Text)
unfolding from_path safe_relative_path
immutable_path area i = from_path (safe_relative_path area) >>= λ parts.
    ok (codes "immutable" ∷ (parts ++ i.algorithm ∷ (i.value ++ codes ".json") ∷ []))

-- what is stored, as a mapping
unfoldable pub stored_mapping : Result CanonicalError Json → Result WriteOnceError Fields
stored_mapping (ok (obj fs)) = ok fs
stored_mapping (ok _) = err corrupt_object
stored_mapping (err e) = err corrupt_json

unfoldable pub stored_record :
    (Text → Text) → HashProjection → ContentIdentity → Text → Result WriteOnceError Fields
unfolding stored_mapping loads_canonical_json from_hash content_identity
stored_record sha256 p i t = stored_mapping (loads_canonical_json t) >>= λ fs.
    from_hash (content_identity sha256 p fs) >>= λ j. if j == i then ok fs else err corrupt_identity

-- `_verify_immutable_record`
unfoldable pub verify_immutable_record :
    (Text → Text)
    → Files
    → List Text
    → HashProjection
    → ContentIdentity
    → Result WriteOnceError Fields
unfolding find stored_record
verify_immutable_record sha256 files path p i = elim (find path files) [
  | some t ↦ stored_record sha256 p i t
  | none ↦ err missing
]

-- what is written where no file stands, or raised where one does
unfoldable pub write_at :
    (Text → Text)
    → Files
    → List Text
    → HashProjection
    → ContentIdentity
    → Text
    → Result WriteOnceError (Files × WrittenRecord)
unfolding find put stored_record
write_at sha256 files path p i payload = elim (find path files) [
  | some t ↦ stored_record sha256 p i t >>= λ fs. err exists
  | none ↦ ok (put path payload files, record { identity = i; path = path })
]

unfoldable pub write_projected_json :
    (Text → Text)
    → Files
    → Text
    → HashProjection
    → Fields
    → Result WriteOnceError (Files × WrittenRecord)
unfolding from_dumps dumps_canonical_json mapping_of loads_canonical_json from_hash content_identity
    immutable_path write_at
write_projected_json sha256 files area p r =
    from_dumps (dumps_canonical_json (obj r)) >>= λ payload.
    mapping_of (loads_canonical_json payload) >>= λ canonical.
    from_hash (content_identity sha256 p canonical) >>= λ i.
    immutable_path area i >>= λ path. write_at sha256 files path p i payload

unfoldable pub read_projected_json :
    (Text → Text) → Files → Text → HashProjection → ContentIdentity → Result WriteOnceError Fields
unfolding immutable_path verify_immutable_record
read_projected_json sha256 files area p i =
    immutable_path area i >>= λ path. verify_immutable_record sha256 files path p i

-- the text in front of the last point, where it stands behind the first character and in front of
-- the last one
last_point : Text → Option Text
last_point [] = none
last_point (c ∷ cs) = elim (last_point cs) [
  | some t ↦ some (c ∷ t)
  | none ↦ if c == b'.' then some [] else none
]

has_suffix_behind : Text → Option Text → Bool
has_suffix_behind t none = false
has_suffix_behind t (some stem) = ltb 0 (length stem) && ltb (suc (length stem)) (length t)

-- `with_suffix(".json")` of the last part
json_name : Text → Text
unfolding last_point has_suffix_behind
json_name t = elim (last_point t) [
  | some stem ↦
      if has_suffix_behind t (some stem) then stem ++ codes ".json" else t ++ codes ".json"
  | none ↦ t ++ codes ".json"
]

unfoldable pub with_json_suffix : List Text → List Text
unfolding json_name
with_json_suffix [] = []
with_json_suffix (t ∷ []) = json_name t ∷ []
with_json_suffix (t ∷ u ∷ ts) = t ∷ with_json_suffix (u ∷ ts)

unfoldable pub derived_path : Text → Result WriteOnceError (List Text)
unfolding from_path safe_relative_path with_json_suffix
derived_path name =
    from_path (safe_relative_path name) >>= λ parts. ok (codes "derived" ∷ with_json_suffix parts)

unfoldable pub write_derived_state :
    Files → Text → Fields → Result WriteOnceError (Files × List Text)
unfolding derived_path from_dumps dumps_canonical_json put
write_derived_state files name state = derived_path name >>= λ path.
    from_dumps (dumps_canonical_json (obj state)) >>= λ t. ok (put path t files, path)
