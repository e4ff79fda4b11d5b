-- ===== src/Domain/Experiments/Changes/Differences.antt =====
-- What `_diff_values` finds covers the way from the parent to the derived manifest.
use temper_ml.Base.{
  nat_eq, list_eq, ◌>>=◌, unbind, ok_inj, Result, ok, Text, ◌≡◌, subst, none, some, Permᴰ, List, [],
  ◌∷◌, ◌++◌,
}
use temper_ml.Store.Json.{
  get, Json, null, bool, int, decimal, str, arr, obj, Fields, no_fields, field,
}
use temper_ml.Store.Json.Keys.{SortedFields}
use temper_ml.Domain.Experiments.Pointer.{pointer}
use temper_ml.Domain.Experiments.Changes.{
  make_change, child_path, one_change, Groups, added, concat_groups, in_order, diff_values, kept,
  remove, ManifestError, ManifestChange,
}
use temper_ml.Domain.Experiments.Changes.Placement.{
  Covered, Ordered, OrderedFields, pointer-snoc, replace_value-Covered,
}
use temper_ml.Domain.Experiments.Changes.Splits.{Kept, Split}
use temper_ml.Domain.Experiments.Changes.Groups.{get-Ordered, key_Covered}
use temper_ml.Domain.Experiments.Changes.Joins.{added-Split, Kept-key, Kept-nothing, Covers-Split}

mutual
  unfolding diff_values concat_groups Ordered

  pub diff-Covered :
      (ks : List Text) (p d : Json) (cs : List ManifestChange)
      → Ordered p
      → Ordered d
      → diff_values (pointer ks) p d ≡ ok cs
      → Covered ks cs p d
  diff-Covered ks (obj fs) (obj gs) cs o o' h =
      let (old, (ho, h')) =
        unbind (λ old. added (pointer ks) fs gs >>= λ late. ok (in_order (old ++ late))) cs
          (kept (pointer ks) fs gs) h in
      let (late, (hf, last)) =
        unbind (λ late. ok (in_order (old ++ late))) cs (added (pointer ks) fs gs) h' in
      subst (λ c. Covered ks c (obj fs) (obj gs)) (ok_inj (in_order (old ++ late)) cs last)
        (Covers-Split ks fs gs old late o.0 o'.0 (kept-Split ks fs gs old o.0 o.1 o'.1 ho)
          (added-Split fs gs ks late o'.0 hf))
  diff-Covered ks (obj fs) null cs o o' h = replace_value-Covered ks (obj fs) null cs h
  diff-Covered ks (obj fs) (bool b) cs o o' h = replace_value-Covered ks (obj fs) (bool b) cs h
  diff-Covered ks (obj fs) (int n) cs o o' h = replace_value-Covered ks (obj fs) (int n) cs h
  diff-Covered ks (obj fs) (decimal n) cs o o' h =
      replace_value-Covered ks (obj fs) (decimal n) cs h
  diff-Covered ks (obj fs) (str t) cs o o' h = replace_value-Covered ks (obj fs) (str t) cs h
  diff-Covered ks (obj fs) (arr xs) cs o o' h = replace_value-Covered ks (obj fs) (arr xs) cs h
  diff-Covered ks null d cs o o' h = replace_value-Covered ks null d cs h
  diff-Covered ks (bool b) d cs o o' h = replace_value-Covered ks (bool b) d cs h
  diff-Covered ks (int n) d cs o o' h = replace_value-Covered ks (int n) d cs h
  diff-Covered ks (decimal n) d cs o o' h = replace_value-Covered ks (decimal n) d cs h
  diff-Covered ks (str t) d cs o o' h = replace_value-Covered ks (str t) d cs h
  diff-Covered ks (arr xs) d cs o o' h = replace_value-Covered ks (arr xs) d cs h

  kept-Split :
      (ks : List Text) (fs gs : Fields) (groups : Groups)
      → SortedFields fs
      → OrderedFields fs
      → OrderedFields gs
      → kept (pointer ks) fs gs ≡ ok groups
      → Split Kept ks (concat_groups groups) fs gs
  kept-Split ks no_fields gs groups s o o' h =
      subst (λ g. Split Kept ks (concat_groups g) no_fields gs) (ok_inj [] groups h)
        ([], (Permᴰ.nil, (tt, λ k. Kept-nothing k (get k gs))))
  kept-Split ks (field k v fs) gs groups s o o' h =
      let path = child_path (pointer ks) k in
      let one : Result ManifestError (List ManifestChange) = elim (get k gs) [
        | none ↦ one_change (make_change path remove (some v) none)
        | some w ↦ diff_values path v w
      ] in
      let (here, (hh, h')) =
        unbind (λ here. kept (pointer ks) fs gs >>= λ rest. ok ((k, here) ∷ rest)) groups one h in
      let (rest, (hr, last)) =
        unbind (λ rest. ok ((k, here) ∷ rest)) groups (kept (pointer ks) fs gs) h' in
      subst (λ g. Split Kept ks (concat_groups g) (field k v fs) gs)
        (ok_inj ((k, here) ∷ rest) groups last)
        (Kept-key ks k v fs gs here (concat_groups rest) s.0
          (key_Covered ks k v (get k gs) here
            (λ w e m.
              diff-Covered (ks ++ k ∷ []) v w here o.0 (get-Ordered k w gs o' e)
                (subst (λ t. diff_values t v w ≡ ok here) (pointer-snoc ks k) m))
            hh)
          (kept-Split ks fs gs rest s.1 o.1 o' hr))
