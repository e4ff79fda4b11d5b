-- ===== src/Domain/Experiments/Edits.antt =====
-- Lists of edits with their paths as keys: what they do to an object is what their tails do under
-- each of its keys.
use temper_ml.Base.{
  if◌then◌else◌, ◌==◌, nat_eq, list_eq, eq_iff, eq_refl, Bool-cases, ◌>>=◌, unbind, ok_inj, Result,
  ok, Text, ◌≡◌, refl, sym, ◌∙◌, subst, inl, inr, false, Option, some, List, [], ◌∷◌,
}
use temper_ml.Store.Json.{get, update_key, Json, obj, Fields}
use temper_ml.Store.Json.Keys.{SortedFields, get-update_key, SortedFields-update_key}
use temper_ml.Domain.Experiments.Changes.{ManifestError, Edit}
use temper_ml.Domain.Experiments.Manifests.{edit_slot, child_object, apply_tokens}

abbrev pub Edits : Type 0
Edits = List (List Text × Edit)

-- the edits below a key, with their paths from there
unfoldable pub under : Text → Edits → Edits
under k [] = []
under k (([], e) ∷ l) = under k l
under k ((j ∷ ks, e) ∷ l) = if j == k then (ks, e) ∷ under k l else under k l

-- no edit is about the whole object
abbrev pub Deep : Edits → Type 0
Deep [] = Unit
Deep (([], e) ∷ l) = ⊥
Deep ((k ∷ ks, e) ∷ l) = Deep l

unfoldable pub slot_one : List Text → Edit → Option Json → Result ManifestError (Option Json)
unfolding edit_slot child_object apply_tokens
slot_one [] e s = edit_slot e s
slot_one (k ∷ ks) e s = child_object s >>= λ c. apply_tokens (k ∷ ks) e c >>= λ d. ok (some (obj d))

-- the edits below a key, one after the other, at the slot of that key
unfoldable pub slot_all : Edits → Option Json → Result ManifestError (Option Json)
unfolding slot_one
slot_all [] s = ok s
slot_all ((ks, e) ∷ l) s = slot_one ks e s >>= slot_all l

unfoldable pub fields_all : Edits → Fields → Result ManifestError Fields
unfolding apply_tokens
fields_all [] fs = ok fs
fields_all ((ks, e) ∷ l) fs = apply_tokens ks e fs >>= fields_all l

apply_tokens-slot_one :
    (k : Text) (ks : List Text) (e : Edit) (fs : Fields) (s : Option Json)
    → slot_one ks e (get k fs) ≡ ok s
    → apply_tokens (k ∷ ks) e fs ≡ ok (update_key k s fs)
unfolding slot_one apply_tokens
apply_tokens-slot_one k [] e fs s h = rw h refl
apply_tokens-slot_one k (j ∷ ks) e fs s h =
    let (c, (child, inner)) =
      unbind (λ c. apply_tokens (j ∷ ks) e c >>= λ d. ok (some (obj d))) s (child_object (get k fs))
        h in
    let (d, (below, last)) = unbind (λ d. ok (some (obj d))) s (apply_tokens (j ∷ ks) e c) inner in
    rw (child, below, ← ok_inj (some (obj d)) s last) refl

under-same :
    (k : Text) (ks : List Text) (e : Edit) (l : Edits)
    → under k ((k ∷ ks, e) ∷ l) ≡ (ks, e) ∷ under k l
unfolding under
under-same k ks e l = rw (eq_refl k) refl

pub under-other :
    (j k : Text) (ks : List Text) (e : Edit) (l : Edits)
    → (j == k) ≡ false
    → under k ((j ∷ ks, e) ∷ l) ≡ under k l
unfolding under
under-other j k ks e l h = rw h refl

get-update_self :
    (k : Text) (s : Option Json) (fs : Fields) → SortedFields fs → get k (update_key k s fs) ≡ s
get-update_self k s fs h = rw (get-update_key k k s fs h, eq_refl k) refl

get-update_other :
    (j k : Text) (s : Option Json) (fs : Fields)
    → SortedFields fs
    → (j == k) ≡ false
    → get k (update_key j s fs) ≡ get k fs
get-update_other j k s fs h n = rw (get-update_key k j s fs h, n) refl

-- After its first edit an object still leads to the slots that the edits ask for.
slots_next :
    (j : Text) (ks : List Text) (e : Edit) (l : Edits) (fs : Fields) (r : Text → Option Json)
    (t : Option Json)
    → SortedFields fs
    → ((k : Text) → slot_all (under k ((j ∷ ks, e) ∷ l)) (get k fs) ≡ ok (r k))
    → slot_all (under j l) t ≡ ok (r j)
    → (k : Text) → slot_all (under k l) (get k (update_key j t fs)) ≡ ok (r k)
slots_next j ks e l fs r t s h rest k = elim (Bool-cases (j == k)) [
  | inl y ↦
      subst (λ i. slot_all (under i l) (get i (update_key j t fs)) ≡ ok (r i)) ((eq_iff j k).0 y)
        (rw (get-update_self j t fs s) rest)
  | inr n ↦ rw (get-update_other j k t fs s n, ← under-other j k ks e l n) (h k)
]

slot_all-nothing : (k : Text) (s : Option Json) → slot_all (under k []) s ≡ ok s
unfolding under slot_all
slot_all-nothing k s = refl

first_slot :
    (k : Text) (ks : List Text) (e : Edit) (l : Edits) (s r : Option Json)
    → slot_all (under k ((k ∷ ks, e) ∷ l)) s ≡ ok r
    → slot_one ks e s >>= slot_all (under k l) ≡ ok r
first_slot k ks e l s r h = unfold slot_all in (rw (under-same k ks e l) at h)

-- what an object becomes, slot by slot
pub slots_all :
    (l : Edits) (fs : Fields) (r : Text → Option Json)
    → Deep l
    → SortedFields fs
    → ((k : Text) → slot_all (under k l) (get k fs) ≡ ok (r k))
    → (gs : Fields) × ((fields_all l fs ≡ ok gs)
        × (SortedFields gs × ((k : Text) → get k gs ≡ r k)))
unfolding fields_all
slots_all [] fs r d s h =
    (fs, (refl, (s, λ k. ok_inj (get k fs) (r k) (sym (slot_all-nothing k (get k fs)) ∙ h k))))
slots_all (([], e) ∷ l) fs r d s h = elim d [ ]
slots_all ((j ∷ ks, e) ∷ l) fs r d s h =
    let (t, (one, rest)) =
      unbind (slot_all (under j l)) (r j) (slot_one ks e (get j fs))
        (first_slot j ks e l (get j fs) (r j) (h j)) in
    let (gs, (later, found)) =
      slots_all l (update_key j t fs) r d (SortedFields-update_key j t fs s)
        (slots_next j ks e l fs r t s h rest) in
    (gs, (rw (apply_tokens-slot_one j ks e fs t one) later, found))

-- an object that stands in a slot
pub slot_all-object :
    (l : Edits) (fs gs : Fields)
    → Deep l
    → fields_all l fs ≡ ok gs
    → slot_all l (some (obj fs)) ≡ ok (some (obj gs))
unfolding slot_all slot_one fields_all child_object
slot_all-object [] fs gs d h = rw (ok_inj fs gs h) refl
slot_all-object (([], e) ∷ l) fs gs d h = elim d [ ]
slot_all-object ((k ∷ ks, e) ∷ l) fs gs d h =
    let (hs, (one, rest)) = unbind (fields_all l) gs (apply_tokens (k ∷ ks) e fs) h in
    rw one (slot_all-object l hs gs d rest)
