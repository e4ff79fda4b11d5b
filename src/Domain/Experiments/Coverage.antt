-- ===== src/Domain/Experiments/Coverage.antt =====
-- What makes a list of edits lead from one manifest to another, in whatever order they stand.
use temper_ml.Base.{ok, all, Text, ◌≡◌, refl, sym, subst, true, Option, none, some, [], ◌∷◌}
use temper_ml.Store.Json.{get, Json, obj, Fields}
use temper_ml.Store.Json.Keys.{SortedFields}
use temper_ml.Store.Canonical.{encode}
use temper_ml.Store.Canonical.Extensional.{SameSlot, encode_fields_of_same}
use temper_ml.Domain.Experiments.Changes.{canonical_equal, adds, removes, replaces}
use temper_ml.Domain.Experiments.Manifests.{edit_slot}
use temper_ml.Domain.Experiments.Edits.{
  Edits, under, Deep, slot_one, slot_all, fields_all, slots_all, slot_all-object,
}

-- `canonical_equal v v` returns when `v` has a canonical text.
abbrev pub HasText : Json → Type 0
HasText v = canonical_equal v v ≡ ok true

mutual
  -- The edits lead from the value `p` to the value `d`, or to one with the same text.
  pub data Covers : Edits → Json → Json → Type 0 where
    untouched : {l : Edits} {p d : Json} → l ≡ [] → encode p ≡ encode d → Covers l p d
    replaced : {l : Edits} {p d : Json} → l ≡ ([], replaces p d) ∷ [] → HasText p → Covers l p d
    inside :
        {l : Edits} {fs gs : Fields}
        → Deep l
        → SortedFields fs
        → SortedFields gs
        → ((k : Text) → Fills (under k l) (get k fs) (get k gs))
        → Covers l (obj fs) (obj gs)

  -- The same of the slot of one key.
  pub data Fills : Edits → Option Json → Option Json → Type 0 where
    absent : {l : Edits} → l ≡ [] → Fills l none none
    fresh : {l : Edits} {w : Json} → l ≡ ([], adds w) ∷ [] → Fills l none (some w)
    gone : {l : Edits} {v : Json} → l ≡ ([], removes v) ∷ [] → HasText v → Fills l (some v) none
    both : {l : Edits} {v w : Json} → Covers l v w → Fills l (some v) (some w)

-- What the edits make of a slot, up to its text.
abbrev pub Reached : Edits → Option Json → Option Json → Type 0
Reached l s t = (r : Option Json) × ((slot_all l s ≡ ok r) × SameSlot r t)

-- the objects that slots of the same text make up
encode-object :
    (fs gs : Fields)
    → SortedFields fs
    → SortedFields gs
    → ((k : Text) → SameSlot (get k fs) (get k gs))
    → encode (obj fs) ≡ encode (obj gs)
unfolding encode
encode-object fs gs s t h = rw (encode_fields_of_same fs gs s t h) refl

-- what the edits make of an object
pub Reached-object :
    (l : Edits) (fs gs : Fields)
    → Deep l
    → SortedFields fs
    → SortedFields gs
    → ((k : Text) → Reached (under k l) (get k fs) (get k gs))
    → (hs : Fields) × ((fields_all l fs ≡ ok hs) × (encode (obj hs) ≡ encode (obj gs)))
Reached-object l fs gs d s t h =
    let (hs, (all, (sorted, slots))) = slots_all l fs (λ k. (h k).0) d s (λ k. (h k).1.0) in
    (
      hs,
      (
        all,
        encode-object hs gs sorted t
            (λ k. subst (λ o. SameSlot o (get k gs)) (sym (slots k)) (h k).1.1),
      ),
    )

mutual
  unfolding slot_all slot_one edit_slot

  pub Covers-Reached : {l : Edits} {p d : Json} → Covers l p d → Reached l (some p) (some d)
  Covers-Reached {p = p} (untouched e h) = (some p, (rw e refl, h))
  Covers-Reached {d = d} (replaced e h) = (some d, (rw (e, h) refl, refl))
  Covers-Reached {l = l} (inside {fs = fs} {gs = gs} d s t h) =
      let (hs, (all, same)) = Reached-object l fs gs d s t (λ k. Fills-Reached (h k)) in
      (some (obj hs), (slot_all-object l fs hs d all, same))

  pub Fills-Reached : {l : Edits} {s t : Option Json} → Fills l s t → Reached l s t
  Fills-Reached (absent e) = (none, (rw e refl, tt))
  Fills-Reached (fresh {w = w} e) = (some w, (rw e refl, refl))
  Fills-Reached (gone e h) = (none, (rw (e, h) refl, tt))
  Fills-Reached (both c) = Covers-Reached c
