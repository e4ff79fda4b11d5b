-- ===== src/Store/Loads/RoundTrip.antt =====
-- `loads_canonical_json` of what `dumps_canonical_json` returned.
use temper_ml.Base.{
  if◌then◌else◌, nat_eq, list_eq, eq_refl, unbind, ok_inj, Result, ok, err, length, length-append,
  is_empty, all, Text, suc, ◌+◌, ◌≡◌, refl, sym, Bool, true, false, List, [], ◌∷◌, ◌++◌, arith,
  ℕ_discrete,
}
use temper_ml.Store.Json.{
  Json, null, bool, int, decimal, str, arr, obj, Items, no_items, item, Fields, no_fields, field,
}
use temper_ml.Store.Canonical.{
  encode, encode_items, encode_fields, is_encodable, dumps_canonical_json, CanonicalError, not_utf8,
}
use temper_ml.Store.Scanner.Values.{is_space, skip_spaces, scan_value}
use temper_ml.Store.Scanner.Openings.{opens, Opens, skip_spaces-Opens, scan_value-Opens}
use temper_ml.Store.Scanner.RoundTrip.{Canonical}
use temper_ml.Store.Scanner.Encoded.{encode-Reads}
use temper_ml.Store.Loads.{
  validate, validate_items, validate_fields, whole, starts_with_bom, json_loads, in_canonical_form,
  loads_canonical_json,
}

mutual
  unfolding validate encode

  encode-validate : (v : Json) (t : Text) → encode v ≡ ok t → validate v ≡ ok tt
  encode-validate null t h = refl
  encode-validate (bool b) t h = refl
  encode-validate (int z) t h = refl
  encode-validate (decimal d) t h = rw h
  encode-validate (str s) t h = refl
  encode-validate (arr xs) t h =
      let (ts, ht) = unbind _ t (encode_items xs) h in encode_items-validate xs ts ht.0
  encode-validate (obj fs) t h =
      let (ts, ht) = unbind _ t (encode_fields fs) h in encode_fields-validate fs ts ht.0

  encode_items-validate :
      (xs : Items) (ts : List Text) → encode_items xs ≡ ok ts → validate_items xs ≡ ok tt
  encode_items-validate no_items ts h = refl
  encode_items-validate (item x xs) ts h =
      let (t, ht) = unbind _ ts (encode x) h in
      let (us, hu) = unbind _ ts (encode_items xs) ht.1 in
      rw (encode-validate x t ht.0, encode_items-validate xs us hu.0)

  encode_fields-validate :
      (fs : Fields) (ts : List (Text × Text))
      → encode_fields fs ≡ ok ts
      → validate_fields fs ≡ ok tt
  encode_fields-validate no_fields ts h = refl
  encode_fields-validate (field k v fs) ts h =
      let (t, ht) = unbind _ ts (encode v) h in
      let (us, hu) = unbind _ ts (encode_fields fs) ht.1 in
      rw (encode-validate v t ht.0, encode_fields-validate fs us hu.0)

starts_with_bom-Opens : (t : Text) → Opens t → starts_with_bom t ≡ false
unfolding starts_with_bom is_space opens
starts_with_bom-Opens [] o = elim o [ ]
starts_with_bom-Opens (c ∷ cs) o = ground (arith, o)

whole-newline : (v : Json) → whole (v, 10 ∷ []) ≡ ok v
unfolding whole skip_spaces is_space is_empty ℕ_discrete
whole-newline v = refl

json_loads-encode :
    (v : Json) (t : Text) → Canonical v → encode v ≡ ok t → json_loads (t ++ 10 ∷ []) ≡ ok v
unfolding json_loads ℕ_discrete
json_loads-encode v t c h =
    let fuel = suc (length (t ++ 10 ∷ []) + length (t ++ 10 ∷ [])) in
    let read : scan_value fuel (t ++ 10 ∷ []) ≡ ok (v, 10 ∷ []) =
      encode-Reads v t c h fuel (10 ∷ []) (omega (arith, length-append t (10 ∷ [])))
        (refl, (refl, (refl, refl))) in
    let o = scan_value-Opens fuel (t ++ 10 ∷ []) (v, 10 ∷ []) read in
    rw (starts_with_bom-Opens (t ++ 10 ∷ []) o, skip_spaces-Opens (t ++ 10 ∷ []) o, read)
      (whole-newline v)

when_encodable :
    (b : Bool) (s t : Text)
    → Path (Result CanonicalError Text) (if b then ok (s ++ 10 ∷ []) else err not_utf8) (ok t)
    → t ≡ s ++ 10 ∷ []
when_encodable true s t h = sym (ok_inj (s ++ 10 ∷ []) t h)
when_encodable false s t h = cc h

dumps_canonical_json-encode :
    (v : Json) (t : Text)
    → dumps_canonical_json v ≡ ok t
    → (s : Text) × ((encode v ≡ ok s) × (t ≡ s ++ 10 ∷ []))
unfolding dumps_canonical_json
dumps_canonical_json-encode v t h =
    let (s, hs) = unbind _ t (encode v) h in
    (s, (hs.0, when_encodable (all is_encodable s) s t hs.1))

-- What a canonical value is written as, it is read back from.
pub loads_canonical_json-dumps_canonical_json :
    (v : Json) (t : Text)
    → Canonical v
    → dumps_canonical_json v ≡ ok t
    → loads_canonical_json t ≡ ok v
unfolding loads_canonical_json in_canonical_form
loads_canonical_json-dumps_canonical_json v t c h =
    let (s, hs) = dumps_canonical_json-encode v t h in
    let read : json_loads t ≡ ok v = rw hs.1 (json_loads-encode v s c hs.0) in
    rw (read, encode-validate v s hs.0, h, eq_refl t) refl
