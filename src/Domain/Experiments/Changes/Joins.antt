-- ===== src/Domain/Experiments/Changes/Joins.antt =====
-- The keys of two objects, one by one: those of the parent, and those of the derived object alone.
use mathlib.Core.List.Permᴰ
use mathlib.Core.List.{map-append}
use temper_ml.Base.{
  if◌then◌else◌, ◌==◌, nat_eq, list_eq, eq_iff, Bool-cases, ◌>>=◌, unbind, ok_inj, ok, Text, ◌≡◌,
  refl, sym, subst, subst₂, inl, inr, Option, none, some, Permᴰ, List, [], ◌∷◌, ◌++◌, map,
}
use temper_ml.Store.Json.{get, has_key, Json, obj, Fields, no_fields, field}
use temper_ml.Store.Json.Keys.{Above, SortedFields, get-Above_self, get-head, get-tail}
use temper_ml.Domain.Experiments.Pointer.{pointer}
use temper_ml.Domain.Experiments.Changes.{
  make_change, child_path, one_change, Groups, added, concat_groups, in_order, add, ManifestChange,
}
use temper_ml.Domain.Experiments.Changes.Placement.{placed, Covered}
use temper_ml.Domain.Experiments.Changes.Splits.{
  Kept, Fresh, Fills-append, under-append, Deep-append, Split, KeyCovered, Split-key,
}
use temper_ml.Domain.Experiments.Changes.Groups.{
  in_order-Perm, get-has_key, get-not_has_key, added_Covered,
}
use temper_ml.Domain.Experiments.Edits.{Edits, under}
use temper_ml.Domain.Experiments.Coverage.{inside, Fills, absent}

pub Fresh-nothing : (k : Text) (s : Option Json) → Fresh (under k []) s none
unfolding under
Fresh-nothing k none = absent refl
Fresh-nothing k (some v) = refl

pub Fresh-any :
    (l : Edits) (s t u : Option Json) (v : Json) → s ≡ some v → Fresh l s t → Fresh l s u
Fresh-any l none t u v e h = absurd (cc e)
Fresh-any l (some x) t u v e h = h

pub Fills-none : (l : Edits) → Fills l none none → l ≡ []
Fills-none l (absent e) = e

-- the slots of a key that the parent has: another value of the derived object is no news
pub Fresh-known :
    (fs gs : Fields) (j : Text) (w v : Json) (l : Edits)
    → get j fs ≡ some v
    → ((k : Text) → Fresh (under k l) (get k fs) (get k gs))
    → (k : Text) → Fresh (under k l) (get k fs) (get k (field j w gs))
Fresh-known fs gs j w v l e slots k = elim (Bool-cases (j == k)) [
  | inl y ↦
      Fresh-any (under k l) (get k fs) (get k gs) (get k (field j w gs)) v
        (subst (λ i. get i fs ≡ some v) ((eq_iff j k).0 y) e) (slots k)
  | inr n ↦ subst (Fresh (under k l) (get k fs)) (sym (get-tail k j w gs n)) (slots k)
]

-- a key that only the derived object has, and the others
pub Fresh-key :
    (ks : List Text) (j : Text) (w : Json) (fs gs : Fields) (here rest : List ManifestChange)
    → get j fs ≡ none
    → Above j gs
    → KeyCovered ks j here none (some w)
    → Split Fresh ks rest fs gs
    → Split Fresh ks (here ++ rest) fs (field j w gs)
Fresh-key ks j w fs gs here rest q a head tail =
    Split-key Fresh ks j here rest fs gs fs (field j w gs)
      (subst₂ (KeyCovered ks j here) (sym q) (sym (get-head j w gs)) head)
      (λ l f.
        subst (λ s. Fresh l s (get j (field j w gs))) (sym q)
          (subst (λ s. Fills l s (get j (field j w gs))) q f))
      (λ l f. Fills-none l (subst₂ (Fresh l) q (get-Above_self j gs a) f))
      (λ k n. (refl, get-tail k j w gs n)) tail

pub added-Split :
    (fs gs : Fields) (ks : List Text) (groups : Groups)
    → SortedFields gs
    → added (pointer ks) fs gs ≡ ok groups
    → Split Fresh ks (concat_groups groups) fs gs
unfolding added concat_groups
added-Split fs no_fields ks groups s h =
    subst (λ g. Split Fresh ks (concat_groups g) fs no_fields) (ok_inj [] groups h)
      (
        [],
        (
          Permᴰ.nil,
          (
            tt,
            λ k.
                subst (Fresh (under k []) (get k fs)) (sym (get-Above_self k no_fields tt))
                  (Fresh-nothing k (get k fs)),
          ),
        ),
      )
added-Split fs (field j w gs) ks groups s h =
    let one = one_change (make_change (child_path (pointer ks) j) add none (some w)) in
    let (rest, (hr, h')) =
      unbind (λ rest. if has_key j fs then ok rest else (one >>= λ here. ok ((j, here) ∷ rest)))
        groups (added (pointer ks) fs gs) h in
    let tail = added-Split fs gs ks rest s.1 hr in
    elim (Bool-cases (has_key j fs)) [
      | inl y ↦
          let (v, e) = get-has_key j fs y in
          let (l, (p, (d, slots))) = tail in
          subst (λ g. Split Fresh ks (concat_groups g) fs (field j w gs))
            (ok_inj rest groups (rw y at h')) (l, (p, (d, Fresh-known fs gs j w v l e slots)))
      | inr n ↦
          let (here, (made, last)) =
            unbind (λ here. ok ((j, here) ∷ rest)) groups one (rw n at h') in
          subst (λ g. Split Fresh ks (concat_groups g) fs (field j w gs))
            (ok_inj ((j, here) ∷ rest) groups last)
            (Fresh-key ks j w fs gs here (concat_groups rest) (get-not_has_key j fs n) s.0
              (added_Covered ks j w here made) tail)
    ]

-- a key of the parent, and the others
pub Kept-key :
    (ks : List Text) (k : Text) (v : Json) (fs gs : Fields) (here rest : List ManifestChange)
    → Above k fs
    → KeyCovered ks k here (some v) (get k gs)
    → Split Kept ks rest fs gs
    → Split Kept ks (here ++ rest) (field k v fs) gs
Kept-key ks k v fs gs here rest a head tail =
    let q = get-head k v fs in
    Split-key Kept ks k here rest fs gs (field k v fs) gs
      (subst (λ s. KeyCovered ks k here s (get k gs)) (sym q) head)
      (λ l f. subst (λ s. Kept l s (get k gs)) (sym q) (subst (λ s. Fills l s (get k gs)) q f))
      (λ l f. subst (λ s. Kept l s (get k gs)) (get-Above_self k fs a) f)
      (λ j n. (get-tail j k v fs n, refl)) tail

pub Kept-nothing : (k : Text) (t : Option Json) → Kept (under k []) (get k no_fields) t
unfolding under get
Kept-nothing k t = refl

pub Covers-Split :
    (ks : List Text) (fs gs : Fields) (old late : Groups)
    → SortedFields fs
    → SortedFields gs
    → Split Kept ks (concat_groups old) fs gs
    → Split Fresh ks (concat_groups late) fs gs
    → Covered ks (in_order (old ++ late)) (obj fs) (obj gs)
Covers-Split ks fs gs old late s t (l, (p, (d, slots))) (m, (q, (e, slots'))) = (
  l ++ m,
  (
    subst (Permᴰ (in_order (old ++ late))) (sym (map-append (placed ks) l m)) (
        Permᴰ.trans (in_order-Perm old late) (
          Permᴰ.trans (Permᴰ.append_right (concat_groups late) p)
            (Permᴰ.append_left (map (placed ks) l) q))),
    inside (Deep-append l m d e) s t (λ k.
        subst (λ x. Fills x (get k fs) (get k gs)) (sym (under-append k l m))
          (Fills-append (under k l) (under k m) (get k fs) (get k gs) (slots k) (slots' k))),
  ),
)
