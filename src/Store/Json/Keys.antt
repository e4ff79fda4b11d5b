-- ===== src/Store/Json/Keys.antt =====
-- Dicts with their keys in order: lookups after updates, and dicts that agree at every key.
use temper_ml.Base.{
  if◌then◌else◌, ◌==◌, nat_eq, list_eq, Text, text_lt, text_lt_irrefl, text_lt_trans, text_lt_total,
  ◌≡◌, refl, true, false, Option, none, some, arith,
}
use temper_ml.Store.Json.{no_fields, field, get, set_key, del_key, update_key, Json, Fields}

-- every key is above `k`
abbrev pub Above : Text → Fields → Type 0
Above k no_fields = Unit
Above k (field j v fs) = (text_lt k j ≡ true) × Above k fs

abbrev pub SortedFields : Fields → Type 0
SortedFields no_fields = Unit
SortedFields (field k v fs) = Above k fs × SortedFields fs

pub Above-trans : (i k : Text) (fs : Fields) → text_lt i k ≡ true → Above k fs → Above i fs
Above-trans i k no_fields h a = tt
Above-trans i k (field j v fs) h a = (text_lt_trans i k j h a.0, Above-trans i k fs h a.1)

pub get-Above_self : (k : Text) (fs : Fields) → Above k fs → get k fs ≡ none
unfolding get
get-Above_self k no_fields a = refl
get-Above_self k (field j v fs) a = ground (arith, text_lt_irrefl k, get-Above_self k fs)

pub get-head : (k : Text) (v : Json) (fs : Fields) → get k (field k v fs) ≡ some v
unfolding get
get-head k v fs = ground arith

-- a key above the first one is looked up in the rest
pub get-tail :
    (i k : Text) (v : Json) (fs : Fields) → (k == i) ≡ false → get i (field k v fs) ≡ get i fs
unfolding get
get-tail i k v fs h = rw h

pub get-set_key :
    (j k : Text) (v : Json) (fs : Fields)
    → get j (set_key k v fs) ≡ (if k == j then some v else get j fs)
unfolding get set_key
get-set_key j k v no_fields = refl
get-set_key j k v (field i w fs) = ground (arith, get-set_key j k v fs)

pub get-del_key :
    (j k : Text) (fs : Fields)
    → SortedFields fs
    → get j (del_key k fs) ≡ (if k == j then none else get j fs)
unfolding get del_key
get-del_key j k no_fields s = ground arith
get-del_key j k (field i w fs) s = ground (arith, get-del_key j k fs s.1, get-Above_self i fs s.0)

-- The slot of a key after it was updated, and the slots of the other keys.
pub get-update_key :
    (j k : Text) (s : Option Json) (fs : Fields)
    → SortedFields fs
    → get j (update_key k s fs) ≡ (if k == j then s else get j fs)
unfolding update_key
get-update_key j k none fs h = get-del_key j k fs h
get-update_key j k (some v) fs h = get-set_key j k v fs

Above-set_key :
    (i k : Text) (v : Json) (fs : Fields)
    → text_lt i k ≡ true
    → Above i fs
    → Above i (set_key k v fs)
unfolding set_key
Above-set_key i k v no_fields h a = (h, tt)
Above-set_key i k v (field j w fs) h a = ground (arith, Above-set_key i k v fs h a.1)

Above-del_key : (i k : Text) (fs : Fields) → Above i fs → Above i (del_key k fs)
unfolding del_key
Above-del_key i k no_fields a = tt
Above-del_key i k (field j w fs) a = ground (arith, Above-del_key i k fs a.1)

SortedFields-set_key :
    (k : Text) (v : Json) (fs : Fields) → SortedFields fs → SortedFields (set_key k v fs)
unfolding set_key
SortedFields-set_key k v no_fields s = (tt, tt)
SortedFields-set_key k v (field j w fs) s = ground (
  arith,
  SortedFields-set_key k v fs s.1,
  text_lt_total k j,
  Above-set_key j k v fs,
  Above-trans k j fs,
)

SortedFields-del_key : (k : Text) (fs : Fields) → SortedFields fs → SortedFields (del_key k fs)
unfolding del_key
SortedFields-del_key k no_fields s = tt
SortedFields-del_key k (field j w fs) s =
    ground (arith, SortedFields-del_key k fs s.1, Above-del_key j k fs s.0)

pub SortedFields-update_key :
    (k : Text) (s : Option Json) (fs : Fields) → SortedFields fs → SortedFields (update_key k s fs)
unfolding update_key
SortedFields-update_key k none fs h = SortedFields-del_key k fs h
SortedFields-update_key k (some v) fs h = SortedFields-set_key k v fs h
