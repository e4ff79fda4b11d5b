-- ===== src/Domain/Experiments/Manifests/Outcomes.antt =====
-- What a diff holds, once `between` has returned it.
use temper_ml.Base.{
  nat_eq, list_eq, ◌>>=◌, ◌>>◌, ensure, unbind, ok, is_empty, sort_by, Text, ◌≡◌, sym, ap, ◌∙◌, not,
  List, [], arith,
}
use temper_ml.Store.Json.{obj, Fields}
use temper_ml.Domain.Projections.{identity_eq, ContentIdentity}
use temper_ml.Domain.Experiments.Changes.{diff_values, no_op, ManifestChange}
use temper_ml.Domain.Experiments.Manifests.{
  path_lt, make_diff, manifest_identity, between, ManifestDiff,
}

make_diff-fields :
    (i : Text) (p d : ContentIdentity) (cs : List ManifestChange) (diff : ManifestDiff)
    → make_diff i p d cs ≡ ok diff
    → (diff.parent_manifest_identity ≡ p)
      × (diff.derived_manifest_identity ≡ d)
      × (diff.changes ≡ sort_by path_lt cs)
unfolding make_diff
make_diff-fields i p d cs diff h = ground arith

pub between-changes :
    (sha256 : Text → Text) (i : Text) (fs gs : Fields) (diff : ManifestDiff)
    → between sha256 i fs gs ≡ ok diff
    → (cs : List ManifestChange) × ((diff_values [] (obj fs) (obj gs) ≡ ok cs)
        × ((manifest_identity sha256 (obj fs) ≡ ok diff.parent_manifest_identity)
            × ((manifest_identity sha256 (obj gs) ≡ ok diff.derived_manifest_identity)
                × (diff.changes ≡ sort_by path_lt cs))))
unfolding between
between-changes sha256 i fs gs diff h =
    let (cs, (found, h')) =
      unbind
        (λ cs.
          ensure (not (is_empty cs)) no_op
          >> (manifest_identity sha256 (obj fs) >>= λ p.
              manifest_identity sha256 (obj gs) >>= λ d. make_diff i p d cs))
        diff (diff_values [] (obj fs) (obj gs)) h in
    let (one, (some_changes, h'')) =
      unbind
        (λ _. manifest_identity sha256 (obj fs) >>= λ p.
          manifest_identity sha256 (obj gs) >>= λ d. make_diff i p d cs)
        diff (ensure (not (is_empty cs)) no_op) h' in
    let (p, (hp, h3)) =
      unbind (λ p. manifest_identity sha256 (obj gs) >>= λ d. make_diff i p d cs) diff
        (manifest_identity sha256 (obj fs)) h'' in
    let (d, (hd, h4)) =
      unbind (λ d. make_diff i p d cs) diff (manifest_identity sha256 (obj gs)) h3 in
    let (qp, qd, qs) = make_diff-fields i p d cs diff h4 in
    (cs, (found, (hp ∙ ap ok (sym qp), (hd ∙ ap ok (sym qd), qs))))
