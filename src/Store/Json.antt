-- ===== src/Store/Json.antt =====
-- The JSON values that src/temper_ml/store/canonical_json.py admits. A dict is the list of its
-- items; `Decimal` is what `Decimal.as_tuple` shows of a decimal.
pub mod Keys
use temper_ml.Base.{
  if◌then◌else◌, ◌==◌, nat_eq, list_eq, ℤ, all, contains, Text, text_lt, ℕ, Bool, true, false, ◌&&◌,
  Option, none, some, List,
}

-- A finite exponent, or the mark of a NaN or an infinity.
pub data Exponent : Type 0 where
  finite : ℤ → Exponent
  special : Exponent

pub record Decimal : Type 0 where
  pub sign : Bool
  pub digits : List ℕ
  pub exponent : Exponent

mutual
  pub data Json : Type 0 where
    null : Json
    bool : Bool → Json
    int : ℤ → Json
    decimal : Decimal → Json
    str : Text → Json
    arr : Items → Json
    obj : Fields → Json

  pub data Items : Type 0 where
    no_items : Items
    item : Json → Items → Items

  pub data Fields : Type 0 where
    no_fields : Fields
    field : Text → Json → Fields → Fields

-- `d.get(key)`
unfoldable pub get : Text → Fields → Option Json
get k no_fields = none
get k (field j v fs) = if j == k then some v else get k fs

-- `key in d`
unfoldable pub has_key : Text → Fields → Bool
has_key k no_fields = false
has_key k (field j v fs) = if j == k then true else has_key k fs

-- Updates of a dict that is held with its keys in order. Nothing modelled here reads the order in
-- which the keys of such a dict came, so `d[key] = v` may insert at the place of the key.
unfoldable pub set_key : Text → Json → Fields → Fields
unfolding text_lt
set_key k v no_fields = field k v no_fields
set_key k v (field j w fs) =
    if j == k
    then field j v fs
    else if text_lt k j
    then field k v (field j w fs)
    else field j w (set_key k v fs)

-- `del d[key]`
unfoldable pub del_key : Text → Fields → Fields
del_key k no_fields = no_fields
del_key k (field j w fs) = if j == k then fs else field j w (del_key k fs)

unfoldable pub update_key : Text → Option Json → Fields → Fields
unfolding set_key del_key
update_key k none fs = del_key k fs
update_key k (some v) fs = set_key k v fs

unfoldable pub keys_within : List Text → Fields → Bool
unfolding contains
keys_within names no_fields = true
keys_within names (field k v fs) = contains k names && keys_within names fs

-- `set(value) == required`
unfoldable pub has_exactly : List Text → Fields → Bool
unfolding keys_within all has_key
has_exactly names fs = keys_within names fs && all (λ k. has_key k fs) names
