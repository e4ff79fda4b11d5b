-- ===== src/Domain/Experiments/Changes/Groups.antt =====
-- The changes of one key, and the groups that `_diff_values` collects, in the order of their keys.
use mathlib.Core.List.Permᴰ
use temper_ml.Base.{
  ◌==◌, nat_eq, list_eq, eq_iff, Bool-cases, unbind, some_inj, ok, Text, sort_by-Perm,
  Perm-append_exchange, ◌≡◌, refl, sym, ap, ◌∙◌, subst, subst₂, inl, inr, true, false, Option, none,
  some, append_assoc, Permᴰ, List, [], ◌∷◌, ◌++◌, arith,
}
use temper_ml.Store.Json.{get, has_key, Json, Fields, no_fields, field}
use temper_ml.Store.Json.Keys.{get-head}
use temper_ml.Domain.Experiments.Pointer.{pointer}
use temper_ml.Domain.Experiments.Changes.{
  adds, removes, make_change, child_path, one_change, Groups, group_lt, concat_groups, in_order,
  diff_values, add, remove, ManifestChange,
}
use temper_ml.Domain.Experiments.Changes.Outcomes.{make_change-add, make_change-remove}
use temper_ml.Domain.Experiments.Changes.Placement.{
  Covered, Ordered, OrderedFields, pointer-snoc, one_change-Covered,
}
use temper_ml.Domain.Experiments.Changes.Splits.{KeyCovered}
use temper_ml.Domain.Experiments.Coverage.{fresh, gone, both}

pub concat_groups-append :
    (a b : Groups) → concat_groups (a ++ b) ≡ concat_groups a ++ concat_groups b
unfolding concat_groups
concat_groups-append [] b = refl
concat_groups-append ((k, cs) ∷ a) b =
    ap (λ r. cs ++ r) (concat_groups-append a b)
    ∙ sym (append_assoc cs (concat_groups a) (concat_groups b))

pub concat_groups-Perm : {a b : Groups} → Permᴰ a b → Permᴰ (concat_groups a) (concat_groups b)
unfolding concat_groups
concat_groups-Perm Permᴰ.nil = Permᴰ.nil
concat_groups-Perm (Permᴰ.cons {a = g} {l₁ = a} {l₂ = b} e p) =
    subst (λ h. Permᴰ (g.1 ++ concat_groups a) (h.1 ++ concat_groups b)) e
      (Permᴰ.append_left g.1 (concat_groups-Perm p))
concat_groups-Perm (Permᴰ.swap {a = g} {b = h} {l = l} e f) =
    subst₂ (λ x y. Permᴰ (g.1 ++ (h.1 ++ concat_groups l)) (y.1 ++ (x.1 ++ concat_groups l))) e f
      (Perm-append_exchange g.1 h.1 (concat_groups l))
concat_groups-Perm (Permᴰ.trans p q) = Permᴰ.trans (concat_groups-Perm p) (concat_groups-Perm q)

pub in_order-Perm : (a b : Groups) → Permᴰ (in_order (a ++ b)) (concat_groups a ++ concat_groups b)
unfolding in_order
in_order-Perm a b =
    subst (λ cs. Permᴰ (in_order (a ++ b)) cs) (concat_groups-append a b)
      (concat_groups-Perm (sort_by-Perm group_lt (a ++ b)))

pub get-has_key : (k : Text) (fs : Fields) → has_key k fs ≡ true → (v : Json) × (get k fs ≡ some v)
unfolding get has_key
get-has_key k no_fields h = absurd (cc h)
get-has_key k (field j v fs) h = elim (Bool-cases (j == k)) [
  | inl y ↦ (v, rw y refl)
  | inr n ↦ let (w, q) = get-has_key k fs (rw n at h) in (w, rw n q)
]

pub get-not_has_key : (k : Text) (fs : Fields) → has_key k fs ≡ false → get k fs ≡ none
unfolding get has_key
get-not_has_key k no_fields h = refl
get-not_has_key k (field j v fs) h = ground (arith, get-not_has_key k fs)

pub get-Ordered :
    (k : Text) (w : Json) (fs : Fields) → OrderedFields fs → get k fs ≡ some w → Ordered w
unfolding get OrderedFields
get-Ordered k w no_fields o h = absurd (cc h)
get-Ordered k w (field j v fs) o h = elim (Bool-cases (j == k)) [
  | inl y ↦
      let q : some v ≡ some w =
        sym (get-head j v fs)
        ∙ subst (λ i. get i (field j v fs) ≡ some w) (sym ((eq_iff j k).0 y)) h in
      subst Ordered (some_inj v w q) o.0
  | inr n ↦ get-Ordered k w fs o.1 (rw n at h)
]

-- the changes of a key that both objects have, or the parent alone
pub key_Covered :
    (ks : List Text) (k : Text) (v : Json) (s : Option Json) (cs : List ManifestChange)
    → ((w : Json)
        → s ≡ some w
        → diff_values (child_path (pointer ks) k) v w ≡ ok cs
        → Covered (ks ++ k ∷ []) cs v w)
    → elim s [
      | none ↦ one_change (make_change (child_path (pointer ks) k) remove (some v) none)
      | some w ↦ diff_values (child_path (pointer ks) k) v w
    ]
      ≡ ok cs
    → KeyCovered ks k cs (some v) s
unfolding one_change
key_Covered ks k v none cs ih h =
    let path = child_path (pointer ks) k in
    let r = make_change path remove (some v) none in
    let (c, (made, one)) = unbind (λ c. ok (c ∷ [])) cs r h in
    let outcome = make_change-remove path v in
    (
      ([], removes v) ∷ [],
      (
        one_change-Covered (ks ++ k ∷ []) r (removes v) cs
            (λ c m.
              (outcome c m).0 ∙ ap (λ t. record { path = t; edit = removes v }) (pointer-snoc ks k))
            h,
        gone refl (outcome c made).1,
      ),
    )
key_Covered ks k v (some w) cs ih h = let (l, (p, c)) = ih w refl h in (l, (p, both c))

-- the changes of a key that only the derived object has
pub added_Covered :
    (ks : List Text) (k : Text) (w : Json) (cs : List ManifestChange)
    → one_change (make_change (child_path (pointer ks) k) add none (some w)) ≡ ok cs
    → KeyCovered ks k cs none (some w)
unfolding one_change
added_Covered ks k w cs h =
    let path = child_path (pointer ks) k in
    let r = make_change path add none (some w) in
    (
      ([], adds w) ∷ [],
      (
        one_change-Covered (ks ++ k ∷ []) r (adds w) cs
            (λ c m.
              make_change-add path w c m
              ∙ ap (λ t. record { path = t; edit = adds w }) (pointer-snoc ks k))
            h,
        fresh refl,
      ),
    )
