-- ===== src/Store/Loads.antt =====
-- `loads_canonical_json` and `_validate` of src/temper_ml/store/canonical_json.py, on the text that
-- the bytes decode to.
pub mod RoundTrip
use temper_ml.Base.{
  if◌then◌else◌, ◌==◌, nat_eq, list_eq, ◌>>=◌, ◌>>◌, unbind, ok_inj, Result, ok, err, length,
  is_empty, Text, suc, ◌+◌, ◌≡◌, subst₂, Bool, false, [], ◌∷◌, arith,
}
use temper_ml.Store.Json.{
  Json, null, bool, int, decimal, str, arr, obj, Items, no_items, item, Fields, no_fields, field,
}
use temper_ml.Store.Canonical.{
  format_decimal, dumps_canonical_json, CanonicalError, not_json, not_canonical_form,
}
use temper_ml.Store.Scanner.Values.{skip_spaces, scan_value}

unfoldable mutual
  unfolding format_decimal

  -- `_validate`
  pub validate : Json → Result CanonicalError Unit
  validate null = ok tt
  validate (bool b) = ok tt
  validate (int n) = ok tt
  validate (decimal d) = format_decimal d >>= λ t. ok tt
  validate (str t) = ok tt
  validate (arr xs) = validate_items xs
  validate (obj fs) = validate_fields fs

  pub validate_items : Items → Result CanonicalError Unit
  validate_items no_items = ok tt
  validate_items (item x xs) = validate x >> validate_items xs

  pub validate_fields : Fields → Result CanonicalError Unit
  validate_fields no_fields = ok tt
  validate_fields (field k v fs) = validate v >> validate_fields fs

-- nothing but spaces may follow
unfoldable pub whole : Json × Text → Result CanonicalError Json
unfolding skip_spaces
whole (v, rest) = if is_empty (skip_spaces rest) then ok v else err not_json

unfoldable pub starts_with_bom : Text → Bool
starts_with_bom [] = false
starts_with_bom (c ∷ cs) = c == 0xFEFF

-- `json.loads`; a value, a list and a dict each take a character at least
unfoldable pub json_loads : Text → Result CanonicalError Json
unfolding whole starts_with_bom skip_spaces scan_value is_empty
json_loads t =
    if starts_with_bom t
    then err not_json
    else scan_value (suc (length t + length t)) (skip_spaces t) >>= whole

unfoldable pub in_canonical_form : Text → Json → Text → Result CanonicalError Json
in_canonical_form t v t' = if t == t' then ok v else err not_canonical_form

unfoldable pub loads_canonical_json : Text → Result CanonicalError Json
unfolding json_loads validate dumps_canonical_json in_canonical_form
loads_canonical_json t =
    json_loads t >>= λ v. validate v >> (dumps_canonical_json v >>= in_canonical_form t v)

in_canonical_form_lem :
    (t : Text) (v w : Json) (t' : Text) → in_canonical_form t w t' ≡ ok v → (t' ≡ t) × (w ≡ v)
unfolding in_canonical_form
in_canonical_form_lem t v w t' h = ground (arith, ok_inj w v)

-- A text that is read is what its value is written as.
pub loads_canonical_json-Canonical :
    (t : Text) (v : Json) → loads_canonical_json t ≡ ok v → dumps_canonical_json v ≡ ok t
unfolding loads_canonical_json
loads_canonical_json-Canonical t v h =
    let (w, hw) = unbind _ v (json_loads t) h in
    let (u, hu) = unbind _ v (validate w) hw.1 in
    let (t', ht) = unbind _ v (dumps_canonical_json w) hu.1 in
    let r = in_canonical_form_lem t v w t' ht.1 in
    subst₂ (λ x y. dumps_canonical_json x ≡ ok y) r.1 r.0 ht.0
