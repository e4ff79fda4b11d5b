-- ===== src/Store/Scanner/Values.antt =====
-- `json.loads` of a value, with the hooks of src/temper_ml/store/canonical_json.py. A call takes a
-- unit of fuel for each value, list or dict that it enters.
use temper_ml.Base.{
  if◌then◌else◌, ◌==◌, nat_eq, list_eq, ◌>>=◌, Result, ok, err, Text, codes, ℕ, zero, suc, Bool,
  true, false, ◌||◌, Option, none, some, [], ◌∷◌,
}
use temper_ml.Store.Json.{
  has_key, set_key, Json, null, bool, str, arr, obj, Items, no_items, item, Fields, no_fields,
  field,
}
use temper_ml.Store.Canonical.{CanonicalError, not_finite, not_json, duplicate_key}
use temper_ml.Store.Scanner.Numbers.{match_number}
use temper_ml.Store.Scanner.Strings.{scan_string}

abbrev Scan : Type 0
Scan = Result CanonicalError (Json × Text)

unfoldable pub is_space : ℕ → Bool
is_space c = c == 32 || c == 9 || c == 10 || c == 13

unfoldable pub skip_spaces : Text → Text
unfolding is_space
skip_spaces [] = []
skip_spaces (c ∷ cs) = let rest = skip_spaces cs in if is_space c then rest else c ∷ cs

-- What a text starts with.
unfoldable pub strip_prefix : Text → Text → Option Text
strip_prefix [] t = some t
strip_prefix (p ∷ ps) [] = none
strip_prefix (p ∷ ps) (c ∷ cs) = if p == c then strip_prefix ps cs else none

unfoldable pub scanned : Option (Json × Text) → Scan
scanned none = err not_json
scanned (some r) = ok r

unfoldable pub literal : Option Text → Json → Scan → Scan
literal (some rest) v other = ok (v, rest)
literal none v other = other

-- `_reject_constant`
unfoldable pub reject_constant : Option Text → Scan → Scan
reject_constant (some rest) other = err not_finite
reject_constant none other = other

-- the values that hold no other
unfoldable pub scan_scalar : Text → Scan
unfolding scanned literal reject_constant strip_prefix match_number
scan_scalar t = literal (strip_prefix (codes "null") t) null (
    literal (strip_prefix (codes "true") t) (bool true) (
      literal (strip_prefix (codes "false") t) (bool false) (
        reject_constant (strip_prefix (codes "NaN") t) (
          reject_constant (strip_prefix (codes "Infinity") t)
            (reject_constant (strip_prefix (codes "-Infinity") t) (scanned (match_number t)))))))

-- What a value starts with, and what stands behind that.
pub data Start : Type 0 where
  quote bracket brace other : Text → Start

unfoldable pub start_of : Text → Start
start_of [] = other []
start_of (c ∷ cs) =
    if c == b'"'
    then quote cs
    else if c == b'['
    then bracket cs
    else if c == b'{'
    then brace cs
    else other (c ∷ cs)

-- What stands behind an element, behind the spaces: a comma, or the closing character.
pub data Follow : Type 0 where
  more done : Text → Follow
  neither : Follow

unfoldable pub follow_of : ℕ → Text → Follow
unfolding skip_spaces
follow_of end [] = neither
follow_of end (c ∷ cs) =
    if c == end then done cs else if c == b',' then more (skip_spaces cs) else neither

-- `scanstring` of a key, the colon and the spaces: the key, and the text from its value on
unfoldable pub colon : Text → Text → Result CanonicalError (Text × Text)
unfolding skip_spaces
colon k [] = err not_json
colon k (c ∷ cs) = if c == b':' then ok (k, skip_spaces cs) else err not_json

unfoldable pub key_colon : Option (Text × Text) → Result CanonicalError (Text × Text)
unfolding skip_spaces colon
key_colon none = err not_json
key_colon (some (k, rest)) = colon k (skip_spaces rest)

unfoldable pub scan_key : Text → Result CanonicalError (Text × Text)
unfolding key_colon scan_string
scan_key [] = err not_json
scan_key (c ∷ cs) = if c == b'"' then key_colon (scan_string cs) else err not_json

-- `_reject_duplicate_keys`, from the dict that was made so far
unfoldable pub reject_from : Fields → Fields → Result CanonicalError Fields
unfolding has_key set_key
reject_from made no_fields = ok made
reject_from made (field k v fs) =
    let rest = reject_from (set_key k v made) fs in
    if has_key k made then err duplicate_key else rest

unfoldable pub reject_duplicate_keys : Fields → Result CanonicalError Fields
unfolding reject_from
reject_duplicate_keys fs = reject_from no_fields fs

unfoldable pub string_value : Option (Text × Text) → Scan
string_value none = err not_json
string_value (some (t, rest)) = ok (str t, rest)

unfoldable pub dict_value : Fields × Text → Scan
unfolding reject_duplicate_keys
dict_value (fs, rest) = reject_duplicate_keys fs >>= λ made. ok (obj made, rest)

unfoldable mutual
  unfolding start_of follow_of skip_spaces scan_scalar scan_key scan_string string_value dict_value

  -- `scan_once`
  pub scan_value : ℕ → Text → Scan
  scan_value zero t = err not_json
  scan_value (suc n) t = elim (start_of t) [
    | quote cs ↦ string_value (scan_string cs)
    | bracket cs ↦ (elim (follow_of b']' (skip_spaces cs)) [
      | done rest ↦ ok (arr no_items, rest)
      | _ ↦ scan_items n (skip_spaces cs) >>= λ r. ok (arr r.0, r.1)
    ])
    | brace cs ↦ (elim (follow_of b'}' (skip_spaces cs)) [
      | done rest ↦ ok (obj no_fields, rest)
      | _ ↦ scan_fields n (skip_spaces cs) >>= dict_value
    ])
    | other cs ↦ scan_scalar cs
  ]

  -- the elements of a list from here on, of which there is one at least
  pub scan_items : ℕ → Text → Result CanonicalError (Items × Text)
  scan_items zero t = err not_json
  scan_items (suc n) t = scan_value n t >>= λ r. elim (follow_of b']' (skip_spaces r.1)) [
    | done rest ↦ ok (item r.0 no_items, rest)
    | more rest ↦ scan_items n rest >>= λ later. ok (item r.0 later.0, later.1)
    | neither ↦ err not_json
  ]

  -- the same for the keys of a dict and their values
  pub scan_fields : ℕ → Text → Result CanonicalError (Fields × Text)
  scan_fields zero t = err not_json
  scan_fields (suc n) t = scan_key t >>= λ k. scan_value n k.1 >>= λ r.
      elim (follow_of b'}' (skip_spaces r.1)) [
        | done rest ↦ ok (field k.0 r.0 no_fields, rest)
        | more rest ↦ scan_fields n rest >>= λ later. ok (field k.0 r.0 later.0, later.1)
        | neither ↦ err not_json
      ]
