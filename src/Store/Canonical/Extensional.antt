-- ===== src/Store/Canonical/Extensional.antt =====
-- Dicts that agree at every key have one canonical text.
use temper_ml.Base.{
  ◌==◌, nat_eq, list_eq, eq_iff, Bool-cases, Text, text_lt, text_lt_total, ◌≡◌, refl, sym, subst,
  subst₂, inl, inr, true, Option, none, some,
}
use temper_ml.Store.Json.{get, Json, Fields, no_fields, field}
use temper_ml.Store.Json.Keys.{Above, SortedFields, Above-trans, get-Above_self, get-head, get-tail}
use temper_ml.Store.Canonical.{encode, encode_fields}

-- Two slots are both empty, or hold values with the same text.
abbrev pub SameSlot : Option Json → Option Json → Type 0
SameSlot none none = Unit
SameSlot (some a) (some b) = encode a ≡ encode b
SameSlot _ _ = ⊥

not-SameSlot : (a : Json) (s : Option Json) → SameSlot (some a) s → s ≡ none → ⊥
not-SameSlot a none h e = h
not-SameSlot a (some b) h e = cc e

tails_agree :
    (k : Text) (v w : Json) (fs gs : Fields)
    → Above k fs
    → Above k gs
    → ((i : Text) → SameSlot (get i (field k v fs)) (get i (field k w gs)))
    → (i : Text) → SameSlot (get i fs) (get i gs)
tails_agree k v w fs gs a b h i = elim (Bool-cases (k == i)) [
  | inl e ↦
      let q : k ≡ i = (eq_iff k i).0 e in
      rw (← q) (rw (get-Above_self k fs a, get-Above_self k gs b) tt)
  | inr n ↦ subst₂ SameSlot (get-tail i k v fs n) (get-tail i k w gs n) (h i)
]

-- the smaller of two first keys is missing on the other side
heads_agree :
    (k j : Text) (v : Json) (w : Json) (fs gs : Fields)
    → Above j gs
    → text_lt k j ≡ true
    → SameSlot (get k (field k v fs)) (get k (field j w gs))
    → ⊥
heads_agree k j v w fs gs b l h =
    not-SameSlot v (get k (field j w gs)) (rw (get-head k v fs) at h)
      (get-Above_self k (field j w gs) (l, Above-trans k j gs l b))

not-SameSlot_right : (s t : Option Json) (w : Json) → SameSlot s t → s ≡ none → t ≡ some w → ⊥
not-SameSlot_right none none w h p q = cc q
not-SameSlot_right none (some b) w h p q = h
not-SameSlot_right (some a) t w h p q = cc p

SameSlot-flip : (s t : Option Json) → SameSlot s t → SameSlot t s
SameSlot-flip none none h = tt
SameSlot-flip none (some b) h = h
SameSlot-flip (some a) none h = h
SameSlot-flip (some a) (some b) h = sym h

first_keys :
    (k j : Text) (v w : Json) (fs gs : Fields)
    → Above k fs
    → Above j gs
    → ((i : Text) → SameSlot (get i (field k v fs)) (get i (field j w gs)))
    → k ≡ j
first_keys k j v w fs gs a b h = elim (Bool-cases (text_lt k j)) [
  | inl l ↦ elim (heads_agree k j v w fs gs b l (h k)) [ ]
  | inr m ↦ elim (Bool-cases (text_lt j k)) [
    | inl l ↦
        elim (heads_agree j k w v gs fs a l
          (SameSlot-flip (get j (field k v fs)) (get j (field j w gs)) (h j))) [ ]
    | inr n ↦ text_lt_total k j m n
  ]
]

encode_same :
    (s t : Option Json) (v w : Json) → SameSlot s t → s ≡ some v → t ≡ some w → encode v ≡ encode w
encode_same none t v w h p q = cc p
encode_same (some a) none v w h p q = cc q
encode_same (some a) (some b) v w h p q = cc (h, p, q)

pub encode_fields_of_same :
    (fs gs : Fields)
    → SortedFields fs
    → SortedFields gs
    → ((i : Text) → SameSlot (get i fs) (get i gs))
    → encode_fields fs ≡ encode_fields gs
unfolding encode
encode_fields_of_same no_fields no_fields s t h = refl
encode_fields_of_same no_fields (field j w gs) s t h =
    elim (not-SameSlot_right (get j no_fields) (get j (field j w gs)) w (h j)
      (get-Above_self j no_fields tt) (get-head j w gs)) [ ]
encode_fields_of_same (field k v fs) no_fields s t h =
    elim (not-SameSlot_right (get k no_fields) (get k (field k v fs)) v
      (SameSlot-flip (get k (field k v fs)) (get k no_fields) (h k)) (get-Above_self k no_fields tt)
      (get-head k v fs)) [ ]
encode_fields_of_same (field k v fs) (field j w gs) s t h =
    let q : k ≡ j = first_keys k j v w fs gs s.0 t.0 h in
    let tail : encode_fields fs ≡ encode_fields gs = encode_fields_of_same fs gs s.1 t.1 (
      tails_agree k v w fs gs s.0 (subst (λ i. Above i gs) (sym q) t.0) (
        subst (λ i. (l : Text) → SameSlot (get l (field k v fs)) (get l (field i w gs))) (sym q)
          h)) in
    let head : encode v ≡ encode w =
      encode_same (get k (field k v fs)) (get k (field j w gs)) v w (h k) (get-head k v fs)
        (subst (λ i. get i (field j w gs) ≡ some w) (sym q) (get-head j w gs)) in
    rw (q, head, tail) refl
