-- ===== src/Domain/Experiments/Replay.antt =====
-- The replay of a diff: `ManifestDiff.apply` after `ManifestDiff.between`.
use mathlib.Core.List.Permᴰ
use temper_ml.Base.{
  nat_eq, list_eq, eq_refl, unbind, ok_inj, ok, all, Text, sort_by-Perm, Perm-map, ◌≡◌, refl, sym,
  ap, ◌∙◌, subst, Permᴰ, List, [], ◌∷◌, map,
}
use temper_ml.Store.Json.{Json, obj, Fields}
use temper_ml.Store.Canonical.{encode, dumps_canonical_json}
use temper_ml.Domain.Projections.{identity_eq, projection_preimage, content_identity}
use temper_ml.Domain.Experiments.Pointer.{pointer}
use temper_ml.Domain.Experiments.Pointer.RoundTrip.{parse-pointer}
use temper_ml.Domain.Experiments.Changes.{pointer_tokens, diff_values, ManifestChange}
use temper_ml.Domain.Experiments.Changes.Placement.{placed, Ordered}
use temper_ml.Domain.Experiments.Changes.Differences.{diff-Covered}
use temper_ml.Domain.Experiments.Manifests.Outcomes.{between-changes}
use temper_ml.Domain.Experiments.Manifests.{
  apply_tokens, apply_changes, path_lt, manifest_identity, between, apply, ManifestDiff,
}
use temper_ml.Domain.Experiments.Edits.{Edits, Deep, fields_all}
use temper_ml.Domain.Experiments.Coverage.{
  Reached-object, Fills-Reached, Covers, untouched, replaced, inside,
}
use temper_ml.Domain.Experiments.Order.{Covers-Perm}

pointer_tokens-pointer : (ks : List Text) → pointer_tokens (pointer ks) ≡ ok ks
unfolding pointer_tokens
pointer_tokens-pointer ks = rw (pointer_tokens, parse-pointer ks) refl

apply_changes-fields :
    (l : Edits) (fs gs : Fields)
    → Deep l
    → fields_all l fs ≡ ok gs
    → apply_changes (obj fs) (map (placed []) l) ≡ ok (obj gs)
unfolding apply_changes fields_all
apply_changes-fields [] fs gs d h = ap (λ x. ok (obj x)) (ok_inj fs gs h)
apply_changes-fields (([], e) ∷ l) fs gs d h = elim d [ ]
apply_changes-fields ((k ∷ ks, e) ∷ l) fs gs d h =
    let (hs, (one, rest)) = unbind (fields_all l) gs (apply_tokens (k ∷ ks) e fs) h in
    rw (pointer_tokens-pointer (k ∷ ks), one) (apply_changes-fields l hs gs d rest)

-- What the changes of a covering list make of an object.
Applied : List ManifestChange → Fields → Fields → Type 0
Applied cs fs gs =
    (r : Fields) × ((apply_changes (obj fs) cs ≡ ok (obj r)) × (encode (obj r) ≡ encode (obj gs)))

Covers-Applied :
    {l : Edits} {fs gs : Fields} → Covers l (obj fs) (obj gs) → Applied (map (placed []) l) fs gs
unfolding Applied apply_changes
Covers-Applied {fs = fs} (untouched e h) = (fs, (rw e refl, h))
Covers-Applied {gs = gs} (replaced e h) = (gs, (rw (e, pointer_tokens-pointer [], h) refl, refl))
Covers-Applied {l = l} {fs = fs} {gs = gs} (inside d s t h) =
    let (r, (all, same)) = Reached-object l fs gs d s t (λ k. Fills-Reached (h k)) in
    (r, (apply_changes-fields l fs r d all, same))

-- The changes that a diff found, in any order, lead from the parent to a manifest with the text of
-- the derived one.
apply_changes-diff_values :
    (fs gs : Fields) (cs ds : List ManifestChange)
    → Ordered (obj fs)
    → Ordered (obj gs)
    → diff_values [] (obj fs) (obj gs) ≡ ok cs
    → Permᴰ cs ds
    → Applied ds fs gs
unfolding pointer
apply_changes-diff_values fs gs cs ds o o' h w =
    let (l, (p, c)) = diff-Covered [] (obj fs) (obj gs) cs o o' h in
    let (m, (q, v)) = Perm-map (placed []) (Permᴰ.trans (Permᴰ.symm p) w) l refl in
    subst (λ x. Applied x fs gs) (sym q) (Covers-Applied (Covers-Perm v c))

dumps-same : (p d : Json) → encode p ≡ encode d → dumps_canonical_json p ≡ dumps_canonical_json d
unfolding dumps_canonical_json
dumps-same p d h = rw h refl

module _ (sha256 : Text → Text) where
  -- A manifest's identity depends on its text alone.
  manifest_identity-same :
      (fs gs : Fields)
      → encode (obj fs) ≡ encode (obj gs)
      → manifest_identity sha256 (obj fs) ≡ manifest_identity sha256 (obj gs)
  unfolding manifest_identity
  manifest_identity-same fs gs h =
      rw (manifest_identity, content_identity, projection_preimage, dumps-same (obj fs) (obj gs) h)
        refl

  apply-accepted :
      (diff : ManifestDiff) (fs r : Fields)
      → manifest_identity sha256 (obj fs) ≡ ok diff.parent_manifest_identity
      → apply_changes (obj fs) diff.changes ≡ ok (obj r)
      → manifest_identity sha256 (obj r) ≡ ok diff.derived_manifest_identity
      → apply sha256 diff fs ≡ ok (obj r)
  unfolding apply
  apply-accepted diff fs r p q d =
      rw (p, eq_refl diff.parent_manifest_identity, q, d, eq_refl diff.derived_manifest_identity)
        refl

  -- A diff between two canonical manifests, applied to the parent, is accepted and gives a manifest
  -- with the canonical text of the derived one.
  pub apply-between :
      (i : Text) (fs gs : Fields) (diff : ManifestDiff)
      → Ordered (obj fs)
      → Ordered (obj gs)
      → between sha256 i fs gs ≡ ok diff
      → (r : Fields) × ((apply sha256 diff fs ≡ ok (obj r))
          × (dumps_canonical_json (obj r) ≡ dumps_canonical_json (obj gs)))
  unfolding Applied
  apply-between i fs gs diff o o' h =
      let (cs, (found, (parent, (derived, sorted)))) = between-changes sha256 i fs gs diff h in
      let (r, (applied, same)) =
        apply_changes-diff_values fs gs cs diff.changes o o' found
          (subst (Permᴰ cs) (sym sorted) (Permᴰ.symm (sort_by-Perm path_lt cs))) in
      (
        r,
        (
          apply-accepted diff fs r parent applied (manifest_identity-same r gs same ∙ derived),
          dumps-same (obj r) (obj gs) same,
        ),
      )
