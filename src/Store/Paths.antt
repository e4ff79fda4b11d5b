-- ===== src/Store/Paths.antt =====
-- The names that may become paths: `_safe_relative_path` of src/temper_ml/store/write_once.py, and
-- `_component` and `StoreLayout` of src/temper_ml/store/layout.py. A path is the list of its parts.
pub mod Parts
use temper_ml.Base.{
  ltb, leb, if◌then◌else◌, ◌==◌, nat_eq, list_eq, ◌>>=◌, Result, ok, err, any, contains, last_or,
  Text, codes, ℕ, ◌+◌, Bool, false, ◌&&◌, ◌||◌, List, [], ◌∷◌, ◌++◌, map,
}
use temper_ml.Domain.Projections.{ContentIdentity}

pub data PathError : Type 0 where
  invalid_component absolute_path path_traversal not_portable : PathError

lowered_char : ℕ → ℕ
lowered_char c = if leb b'A' c && leb c b'Z' then c + 32 else c

-- the text in front of the first point
before_point : Text → Text
before_point [] = []
before_point (c ∷ cs) = let rest = before_point cs in if c == b'.' then [] else c ∷ rest

-- `com[1-9]` and `lpt[1-9]`
is_port : Text → Bool
is_port (a ∷ b ∷ c ∷ d ∷ []) =
    (a ∷ b ∷ c ∷ [] == codes "com" || a ∷ b ∷ c ∷ [] == codes "lpt") && (leb b'1' d && leb d b'9')
is_port t = false

-- `_WINDOWS_RESERVED`, for a text without control characters
unfoldable pub is_windows_reserved : Text → Bool
unfolding lowered_char before_point is_port
is_windows_reserved t =
    let stem = before_point (map lowered_char t) in
    stem == codes "con"
    || stem == codes "prn"
    || stem == codes "aux"
    || stem == codes "nul"
    || is_port stem

unfoldable pub is_control : ℕ → Bool
is_control c = ltb c 32 || c == 127

-- `part.endswith((".", " "))`
unfoldable pub ends_loosely : Text → Bool
ends_loosely t = last_or 0 t == b'.' || last_or 0 t == b' '

unfoldable pub is_not_portable : Text → Bool
unfolding any is_control ends_loosely is_windows_reserved
is_not_portable t = any is_control t || ends_loosely t || is_windows_reserved t

unfoldable pub is_traversal : Text → Bool
is_traversal t = t == [] || t == codes "." || t == codes ".."

unfoldable pub is_slash : ℕ → Bool
is_slash c = c == b'/' || c == b'\\'

unfoldable pub starts_with_slash : Text → Bool
unfolding is_slash
starts_with_slash [] = false
starts_with_slash (c ∷ cs) = is_slash c

unfoldable pub push_char : ℕ → List Text → List Text
push_char c [] = (c ∷ []) ∷ []
push_char c (t ∷ ts) = (c ∷ t) ∷ ts

-- the parts between slashes of both kinds: `split("/")`, and each chunk `split("\\")`
unfoldable pub parts_of : Text → List Text
unfolding is_slash push_char
parts_of [] = [] ∷ []
parts_of (c ∷ cs) = let rest = parts_of cs in if is_slash c then [] ∷ rest else push_char c rest

unfoldable pub safe_relative_path : Text → Result PathError (List Text)
unfolding starts_with_slash contains any parts_of is_traversal is_not_portable
safe_relative_path t =
    if starts_with_slash t || contains b':' t
    then err absolute_path
    else if any is_traversal (parts_of t)
    then err path_traversal
    else if any is_not_portable (parts_of t)
    then err not_portable
    else ok (parts_of t)

-- `_component`
unfoldable pub component : Text → Result PathError Text
unfolding is_traversal contains any is_control ends_loosely is_windows_reserved
component t =
    if is_traversal t
    then err invalid_component
    else if contains b'/' t || contains b'\\' t || contains b':' t
    then err invalid_component
    else if any is_control t
    then err invalid_component
    else if ends_loosely t || is_windows_reserved t
    then err not_portable
    else ok t

-- `StoreLayout`: paths below `.temper` of the project
unfoldable pub below : List Text → Text → List Text → Result PathError (List Text)
unfolding component
below front t back = component t >>= λ c. ok (front ++ c ∷ back)

unfoldable pub run_events : Text → Result PathError (List Text)
unfolding below
run_events run_id = below (codes "runs" ∷ []) run_id (codes "events" ∷ [])

unfoldable pub run_state : Text → Result PathError (List Text)
unfolding below
run_state run_id = below (codes "runs" ∷ []) run_id (codes "state.json" ∷ [])

unfoldable pub registry_events : List Text
registry_events = codes "registry" ∷ codes "events" ∷ []

unfoldable pub registry_state : List Text
registry_state = codes "registry" ∷ codes "state.json" ∷ []

unfoldable pub artifact_record : Text → Result PathError (List Text)
unfolding below
artifact_record artifact_id =
    below (codes "artifacts" ∷ []) artifact_id (codes "artifact.json" ∷ [])

unfoldable pub records_root : List Text
records_root = codes "immutable" ∷ codes "records" ∷ []

unfoldable pub record_directory : Text → Result PathError (List Text)
unfolding below records_root
record_directory record_type = below records_root record_type (codes "sha256" ∷ [])

unfoldable pub record_path : Text → ContentIdentity → Result PathError (List Text)
unfolding record_directory
record_path record_type i =
    record_directory record_type >>= λ d. ok (d ++ (i.value ++ codes ".json") ∷ [])

unfoldable pub stream_events : Text → Result PathError (List Text)
unfolding below
stream_events stream_id = below (codes "streams" ∷ []) stream_id (codes "events" ∷ [])

unfoldable pub stream_state : Text → Result PathError (List Text)
unfolding below
stream_state stream_id =
    below (codes "derived" ∷ codes "streams" ∷ []) stream_id (codes "state.json" ∷ [])

unfoldable pub bundle_manifests_root : List Text
bundle_manifests_root = codes "immutable" ∷ codes "bundle-manifests" ∷ codes "sha256" ∷ []

unfoldable pub bundle_manifest_path : ContentIdentity → List Text
unfolding bundle_manifests_root
bundle_manifest_path i = bundle_manifests_root ++ (i.value ++ codes ".json") ∷ []
