-- ===== src/Domain/Experiments/Changes.antt =====
-- `ManifestChange`, `ManifestDiff`, `_diff_values` and `_apply_change` of
-- src/temper_ml/domain/experiments.py. A manifest is a JSON value in canonical form, as
-- `thaw_json(freeze_json_value(…))` returns it.
pub mod Outcomes
pub mod Placement
pub mod Splits
pub mod Groups
pub mod Joins
pub mod Differences
use temper_ml.Base.{
  if◌then◌else◌, ◌==◌, nat_eq, list_eq, ◌>>=◌, result_eq, Result, ok, err, is_empty, sort_by, Text,
  text_lt, Bool, true, false, not, ◌&&◌, Option, none, some, List, [], ◌∷◌, ◌++◌,
}
use temper_ml.Store.Json.{get, has_key, Json, obj, Fields, no_fields, field}
use temper_ml.Store.Canonical.{dumps_canonical_json, CanonicalError}
use temper_ml.Domain.Projections.{projection_error_eq, identity_eq, ProjectionError}
use temper_ml.Domain.Experiments.Pointer.{escape_pointer, parse_pointer, PointerError}

pub data DiffOperation : Type 0 where
  add remove replace : DiffOperation

pub data ManifestError : Type 0 where
  bad_pointer : PointerError → ManifestError
  not_canonical_value : CanonicalError → ManifestError
  no_identity : ProjectionError → ManifestError
  identifier_invalid root_only_replaced add_values remove_values replace_values not_altered no_op
        same_identity no_changes not_unique overlapping not_an_object root_present root_removed
        path_missing add_present before_mismatch parent_mismatch derived_mismatch :
      ManifestError

-- The values of an operation that passed the checks of `ManifestChange`.
pub data Edit : Type 0 where
  adds : Json → Edit
  removes : Json → Edit
  replaces : Json → Json → Edit

pub record ManifestChange : Type 0 where
  pub path : Text
  pub edit : Edit

canonical_text : Json → Result ManifestError Text
unfolding dumps_canonical_json
canonical_text v = elim (dumps_canonical_json v) [
  | ok t ↦ ok t
  | err e ↦ err (not_canonical_value e)
]

-- `_canonical_equal` of two values that are there
unfoldable pub canonical_equal : Json → Json → Result ManifestError Bool
unfolding canonical_text
canonical_equal a b = canonical_text a >>= λ s. canonical_text b >>= λ t. ok (s == t)

unfoldable pub pointer_tokens : Text → Result ManifestError (List Text)
unfolding parse_pointer
pointer_tokens p = elim (parse_pointer p) [ ok ks ↦ ok ks | err e ↦ err (bad_pointer e) ]

frozen_edit : Edit → Result ManifestError Edit
unfolding canonical_text canonical_equal
frozen_edit (adds a) = canonical_text a >>= λ _. ok (adds a)
frozen_edit (removes b) = canonical_text b >>= λ _. ok (removes b)
frozen_edit (replaces b a) = canonical_text b >>= λ _. canonical_text a >>= λ _.
    canonical_equal b a >>= λ same. if same then err not_altered else ok (replaces b a)

-- which values an operation takes
edit_of : DiffOperation → Option Json → Option Json → Result ManifestError Edit
edit_of add none (some a) = ok (adds a)
edit_of add _ _ = err add_values
edit_of remove (some b) none = ok (removes b)
edit_of remove _ _ = err remove_values
edit_of replace (some b) (some a) = ok (replaces b a)
edit_of replace _ _ = err replace_values

is_replace : DiffOperation → Bool
is_replace replace = true
is_replace _ = false

-- the constructor of a change, with its checks
unfoldable pub make_change :
    Text → DiffOperation → Option Json → Option Json → Result ManifestError ManifestChange
unfolding frozen_edit edit_of is_empty is_replace pointer_tokens
make_change path operation before after = pointer_tokens path >>= λ _.
    if is_empty path && not (is_replace operation)
    then err root_only_replaced
    else (edit_of operation before after >>= λ e.
        frozen_edit e >>= λ f. ok (record { path = path; edit = f }))

abbrev pub child_path : Text → Text → Text
child_path path k = path ++ b'/' ∷ escape_pointer k

pub one_change : Result ManifestError ManifestChange → Result ManifestError (List ManifestChange)
one_change r = r >>= λ c. ok (c ∷ [])

replace_unless : Bool → Text → Json → Json → Result ManifestError (List ManifestChange)
unfolding one_change make_change
replace_unless true path p d = ok []
replace_unless false path p d = one_change (make_change path replace (some p) (some d))

pub replace_value : Text → Json → Json → Result ManifestError (List ManifestChange)
unfolding canonical_equal replace_unless
replace_value path p d = canonical_equal p d >>= λ same. replace_unless same path p d

-- The changes of each key, before they are put in the order of the keys.
abbrev pub Groups : Type 0
Groups = List (Text × List ManifestChange)

pub added : Text → Fields → Fields → Result ManifestError Groups
unfolding one_change has_key make_change
added path fs no_fields = ok []
added path fs (field j w gs) = added path fs gs >>= λ rest.
    if has_key j fs
    then ok rest
    else (one_change (make_change (child_path path j) add none (some w)) >>= λ here.
        ok ((j, here) ∷ rest))

abbrev pub group_lt : Text × List ManifestChange → Text × List ManifestChange → Bool
group_lt a b = text_lt a.0 b.0

pub concat_groups : Groups → List ManifestChange
concat_groups [] = []
concat_groups ((k, cs) ∷ rest) = cs ++ concat_groups rest

pub in_order : Groups → List ManifestChange
unfolding sort_by concat_groups
in_order groups = concat_groups (sort_by group_lt groups)

-- `_diff_values`: the keys of both objects in order, those of the parent by `kept`
unfoldable mutual
  unfolding replace_value added in_order one_change get make_change

  pub diff_values : Text → Json → Json → Result ManifestError (List ManifestChange)
  diff_values path (obj fs) (obj gs) =
      kept path fs gs >>= λ old. added path fs gs >>= λ fresh. ok (in_order (old ++ fresh))
  diff_values path p d = replace_value path p d

  pub kept : Text → Fields → Fields → Result ManifestError Groups
  kept path no_fields gs = ok []
  kept path (field k v fs) gs =
      elim (get k gs) [
        | none ↦ one_change (make_change (child_path path k) remove (some v) none)
        | some w ↦ diff_values (child_path path k) v w
      ]
      >>= λ here. kept path fs gs >>= λ rest. ok ((k, here) ∷ rest)
