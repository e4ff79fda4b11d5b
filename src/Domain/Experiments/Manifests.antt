-- ===== src/Domain/Experiments/Manifests.antt =====
-- `_apply_change` and `ManifestDiff` of src/temper_ml/domain/experiments.py: a diff between two
-- manifests, and its replay.
pub mod Outcomes
use temper_ml.Base.{
  if◌then◌else◌, ◌==◌, nat_eq, list_eq, ◌>>=◌, ◌>>◌, ensure, result_eq, Result, ok, err, is_empty,
  is_unique, sort_by, Text, codes, text_lt, Bool, true, false, not, ◌||◌, Option, none, some, List,
  [], ◌∷◌, map,
}
use temper_ml.Store.Json.{get, update_key, Json, obj, Fields}
use temper_ml.Domain.Projections.{
  projection_error_eq, identity_eq, content_identity, HashProjection, ContentIdentity,
}
use temper_ml.Domain.Identifiers.{is_identifier}
use temper_ml.Domain.Experiments.Pointer.{is_pointer_ancestor}
use temper_ml.Domain.Experiments.Changes.{
  canonical_equal, pointer_tokens, diff_values, ManifestError, bad_pointer, no_identity,
  identifier_invalid, no_op, same_identity, no_changes, not_unique, overlapping, not_an_object,
  root_present, root_removed, path_missing, add_present, before_mismatch, parent_mismatch,
  derived_mismatch, Edit, adds, removes, replaces, ManifestChange,
}

-- The effect of an edit on the value that stands under its last key, if there is one.
matching : Bool → Option Json → Result ManifestError (Option Json)
matching true s = ok s
matching false s = err before_mismatch

unfoldable pub edit_slot : Edit → Option Json → Result ManifestError (Option Json)
unfolding matching canonical_equal
edit_slot (adds a) none = ok (some a)
edit_slot (adds a) (some v) = err add_present
edit_slot (removes b) none = err before_mismatch
edit_slot (removes b) (some v) = canonical_equal v b >>= λ same. matching same none
edit_slot (replaces b a) none = err before_mismatch
edit_slot (replaces b a) (some v) = canonical_equal v b >>= λ same. matching same (some a)

-- the empty path
edit_root : Edit → Json → Result ManifestError Json
unfolding canonical_equal
edit_root (adds a) v = err root_present
edit_root (removes b) v =
    canonical_equal v b >>= λ same. err (if same then root_removed else before_mismatch)
edit_root (replaces b a) v =
    canonical_equal v b >>= λ same. if same then ok a else err before_mismatch

-- `child = parent.get(token)`, which must be a dict
unfoldable pub child_object : Option Json → Result ManifestError Fields
child_object (some (obj gs)) = ok gs
child_object _ = err path_missing

unfoldable pub apply_tokens : List Text → Edit → Fields → Result ManifestError Fields
unfolding edit_slot child_object get update_key
apply_tokens [] e fs = err not_an_object
apply_tokens (k ∷ []) e fs = edit_slot e (get k fs) >>= λ s. ok (update_key k s fs)
apply_tokens (k ∷ j ∷ ks) e fs = child_object (get k fs) >>= λ child.
    apply_tokens (j ∷ ks) e child >>= λ c. ok (update_key k (some (obj c)) fs)

unfoldable pub apply_edit : List Text → Edit → Json → Result ManifestError Json
unfolding edit_root apply_tokens
apply_edit [] e v = edit_root e v
apply_edit (k ∷ ks) e (obj fs) = apply_tokens (k ∷ ks) e fs >>= λ gs. ok (obj gs)
apply_edit (k ∷ ks) e v = err not_an_object

-- `_apply_change`
unfoldable pub apply_change : Json → ManifestChange → Result ManifestError Json
unfolding apply_edit pointer_tokens
apply_change root c = pointer_tokens c.path >>= λ ks. apply_edit ks c.edit root

unfoldable pub apply_changes : Json → List ManifestChange → Result ManifestError Json
unfolding apply_change
apply_changes v [] = ok v
apply_changes v (c ∷ cs) = apply_change v c >>= λ w. apply_changes w cs

pub record ManifestDiff : Type 0 where
  pub diff_id : Text
  pub parent_manifest_identity : ContentIdentity
  pub derived_manifest_identity : ContentIdentity
  pub changes : List ManifestChange

abbrev pub path_lt : ManifestChange → ManifestChange → Bool
path_lt a b = text_lt a.path b.path

paths_of : List ManifestChange → List Text
paths_of = map (λ (c : ManifestChange). c.path)

ancestor_of_some : Text → List Text → Result ManifestError Bool
unfolding is_pointer_ancestor
ancestor_of_some p [] = ok false
ancestor_of_some p (q ∷ qs) = elim (is_pointer_ancestor p q) [
  | ok true ↦ ok true
  | ok false ↦ ancestor_of_some p qs
  | err e ↦ err (bad_pointer e)
]

-- the double loop: no path is an ancestor of a later one
overlaps : List Text → Result ManifestError Bool
unfolding ancestor_of_some
overlaps [] = ok false
overlaps (p ∷ ps) = ancestor_of_some p ps >>= λ here. overlaps ps >>= λ later. ok (here || later)

-- the constructor of a diff, with its checks
unfoldable pub make_diff :
    Text
    → ContentIdentity
    → ContentIdentity
    → List ManifestChange
    → Result ManifestError ManifestDiff
unfolding overlaps is_empty is_unique sort_by is_identifier paths_of
make_diff diff_id parent derived changes =
    ensure (is_identifier diff_id) identifier_invalid
    >> (ensure (not (parent == derived)) same_identity
        >> (ensure (not (is_empty changes)) no_changes
            >> (let ordered = sort_by path_lt changes in
                ensure (is_unique (paths_of ordered)) not_unique
                >> (overlaps (paths_of ordered) >>= λ o.
                    ensure (not o) overlapping
                    >> ok (record {
                      diff_id = diff_id;
                      parent_manifest_identity = parent;
                      derived_manifest_identity = derived;
                      changes = ordered;
                    })))))

abbrev pub experiment_manifest_projection : HashProjection
experiment_manifest_projection = record { name = codes "experiment.manifest"; version = codes "v1" }

module _ (sha256 : Text → Text) where
  unfoldable pub manifest_identity : Json → Result ManifestError ContentIdentity
  unfolding content_identity
  manifest_identity (obj fs) = elim (content_identity sha256 experiment_manifest_projection fs) [
    | ok i ↦ ok i
    | err e ↦ err (no_identity e)
  ]
  manifest_identity v = err not_an_object

  -- `ManifestDiff.between`
  unfoldable pub between : Text → Fields → Fields → Result ManifestError ManifestDiff
  unfolding manifest_identity diff_values make_diff is_empty
  between diff_id parent derived = diff_values [] (obj parent) (obj derived) >>= λ changes.
      ensure (not (is_empty changes)) no_op
      >> (manifest_identity (obj parent) >>= λ p.
          manifest_identity (obj derived) >>= λ d. make_diff diff_id p d changes)

  -- `ManifestDiff.apply`
  unfoldable pub apply : ManifestDiff → Fields → Result ManifestError Json
  unfolding manifest_identity apply_changes
  apply diff parent = manifest_identity (obj parent) >>= λ p.
      ensure (p == diff.parent_manifest_identity) parent_mismatch
      >> (apply_changes (obj parent) diff.changes >>= λ result. manifest_identity result >>= λ d.
          ensure (d == diff.derived_manifest_identity) derived_mismatch >> ok result)
