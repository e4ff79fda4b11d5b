-- ===== src/Store/Scanner/Dicts.antt =====
-- Dicts with their keys in order: they are written in that order, and `_reject_duplicate_keys`
-- rebuilds them.
use temper_ml.Base.{
  nat_eq, list_eq, unbind, ok_inj, ok, All, insert_by, sort_by, Text, text_lt, text_lt_irrefl,
  text_lt_asym, ◌≡◌, refl, sym, ap, ◌∙◌, subst, true, false, List, [], ◌∷◌, arith,
}
use temper_ml.Store.Json.{has_key, set_key, Json, Fields, no_fields, field}
use temper_ml.Store.Json.Keys.{Above, SortedFields}
use temper_ml.Store.Canonical.{key_lt, encode, encode_fields}
use temper_ml.Store.Scanner.Values.{reject_from, reject_duplicate_keys}

abbrev Ascending : List (Text × Text) → Type 0
Ascending [] = Unit
Ascending (p ∷ ps) = All (λ q. text_lt p.0 q.0 ≡ true) ps × Ascending ps

sort_by-Ascending : (ps : List (Text × Text)) → Ascending ps → sort_by key_lt ps ≡ ps
unfolding sort_by insert_by
sort_by-Ascending [] a = refl
sort_by-Ascending (p ∷ []) a = refl
sort_by-Ascending (p ∷ q ∷ ps) a = rw (sort_by-Ascending (q ∷ ps) a.1, text_lt_asym p.0 q.0 a.0.0)

encode_fields-Above :
    (k : Text) (fs : Fields) (ts : List (Text × Text))
    → Above k fs
    → encode_fields fs ≡ ok ts
    → All (λ q. text_lt k q.0 ≡ true) ts
unfolding encode_fields
encode_fields-Above k no_fields ts a h =
    subst (λ x. All (λ q. text_lt k q.0 ≡ true) x) (ok_inj [] ts h) tt
encode_fields-Above k (field j v fs) ts a h =
    let (t, ht) = unbind _ ts (encode v) h in
    let (us, hu) = unbind _ ts (encode_fields fs) ht.1 in
    subst (λ x. All (λ q. text_lt k q.0 ≡ true) x) (ok_inj _ ts hu.1)
      (a.0, encode_fields-Above k fs us a.1 hu.0)

encode_fields-Ascending :
    (fs : Fields) (ts : List (Text × Text))
    → SortedFields fs
    → encode_fields fs ≡ ok ts
    → Ascending ts
unfolding encode_fields
encode_fields-Ascending no_fields ts s h = subst Ascending (ok_inj [] ts h) tt
encode_fields-Ascending (field j v fs) ts s h =
    let (t, ht) = unbind _ ts (encode v) h in
    let (us, hu) = unbind _ ts (encode_fields fs) ht.1 in
    subst Ascending (ok_inj _ ts hu.1)
      (encode_fields-Above j fs us s.0 hu.0, encode_fields-Ascending fs us s.1 hu.0)

pub sort_by-encode_fields :
    (fs : Fields) (ts : List (Text × Text))
    → SortedFields fs
    → encode_fields fs ≡ ok ts
    → sort_by key_lt ts ≡ ts
sort_by-encode_fields fs ts s h = sort_by-Ascending ts (encode_fields-Ascending fs ts s h)

-- `fs` behind `made`
abbrev then_fields : Fields → Fields → Fields
then_fields no_fields gs = gs
then_fields (field k v fs) gs = field k v (then_fields fs gs)

-- every key of `made` is below `k`, or below every key of `fs`
abbrev Below : Fields → Text → Type 0
Below no_fields k = Unit
Below (field j v made) k = (text_lt j k ≡ true) × Below made k

abbrev AllBelow : Fields → Fields → Type 0
AllBelow made no_fields = Unit
AllBelow made (field k v fs) = Below made k × AllBelow made fs

has_key-Below : (k : Text) (made : Fields) → Below made k → has_key k made ≡ false
unfolding has_key
has_key-Below k no_fields b = refl
has_key-Below k (field j v made) b = ground (arith, text_lt_irrefl k, has_key-Below k made b.1, b.0)

set_key-Below :
    (k : Text) (v : Json) (made : Fields)
    → Below made k
    → set_key k v made ≡ then_fields made (field k v no_fields)
unfolding set_key
set_key-Below k v no_fields b = refl
set_key-Below k v (field j w made) b =
    ground (arith, text_lt_irrefl k, text_lt_asym j k b.0, set_key-Below k v made b.1, b.0)

Below-then_fields :
    (k j : Text) (v : Json) (made : Fields)
    → Below made k
    → text_lt j k ≡ true
    → Below (then_fields made (field j v no_fields)) k
Below-then_fields k j v no_fields b h = (h, tt)
Below-then_fields k j v (field i w made) b h = (b.0, Below-then_fields k j v made b.1 h)

AllBelow-then_fields :
    (j : Text) (v : Json) (made fs : Fields)
    → AllBelow made fs
    → Above j fs
    → AllBelow (then_fields made (field j v no_fields)) fs
AllBelow-then_fields j v made no_fields b a = tt
AllBelow-then_fields j v made (field k w fs) b a =
    (Below-then_fields k j v made b.0 a.0, AllBelow-then_fields j v made fs b.1 a.1)

then_fields_assoc :
    (made fs gs : Fields)
    → then_fields (then_fields made fs) gs ≡ then_fields made (then_fields fs gs)
then_fields_assoc no_fields fs gs = refl
then_fields_assoc (field k v made) fs gs = ap (field k v) (then_fields_assoc made fs gs)

then_fields-empty : (made : Fields) → then_fields made no_fields ≡ made
then_fields-empty no_fields = refl
then_fields-empty (field k v made) = ap (field k v) (then_fields-empty made)

reject_from-Below :
    (made fs : Fields)
    → SortedFields fs
    → AllBelow made fs
    → reject_from made fs ≡ ok (then_fields made fs)
unfolding reject_from
reject_from-Below made no_fields s b = ap ok (sym (then_fields-empty made))
reject_from-Below made (field k v fs) s b =
    rw (has_key-Below k made b.0, set_key-Below k v made b.0)
      (reject_from-Below (then_fields made (field k v no_fields)) fs s.1
          (AllBelow-then_fields k v made fs b.1 s.0)
        ∙ ap ok (then_fields_assoc made (field k v no_fields) fs))

AllBelow-empty : (fs : Fields) → AllBelow no_fields fs
AllBelow-empty no_fields = tt
AllBelow-empty (field k v fs) = (tt, AllBelow-empty fs)

pub reject_duplicate_keys-Sorted :
    (fs : Fields) → SortedFields fs → reject_duplicate_keys fs ≡ ok fs
unfolding reject_duplicate_keys
reject_duplicate_keys-Sorted fs s = reject_from-Below no_fields fs s (AllBelow-empty fs)
