-- ===== src/Store/Canonical.antt =====
-- `_encode`, `_format_decimal` and `dumps_canonical_json` of
-- src/temper_ml/store/canonical_json.py. The bytes are kept as the code points that their UTF-8
-- spells, since UTF-8 is a bijection on the texts that it admits.
pub mod Extensional
use temper_ml.Base.{
  ltb, leb, if◌then◌else◌, ◌==◌, nat_eq, list_eq, ℤ, pos, negsuc, ◌>>=◌, Result, ok, err, length,
  all, sort_by, take, drop, replicate, last_or, Text, codes, text_lt, join, ℕ, zero, suc, ◌+◌, ◌-◌,
  ◌/◌, ◌%◌, Bool, ◌||◌, List, [], ◌∷◌, ◌++◌, map,
}
use temper_ml.Store.Json.{
  Exponent, finite, special, Decimal, Json, null, bool, int, decimal, str, arr, obj, Items,
  no_items, item, Fields, no_fields, field,
}

pub data CanonicalError : Type 0 where
  not_finite not_normalized not_utf8 not_json duplicate_key not_canonical_form : CanonicalError

-- `str(n)`: at most one digit for each unit of fuel
unfoldable pub show_digits : ℕ → ℕ → Text → Text
show_digits zero n acc = acc
show_digits (suc fuel) n acc =
    let rest = show_digits fuel (n / 10) ((b'0' + n % 10) ∷ acc) in
    if ltb n 10 then (b'0' + n) ∷ acc else rest

unfoldable pub show_ℕ : ℕ → Text
unfolding show_digits
show_ℕ n = show_digits (suc n) n []

unfoldable pub show_ℤ : ℤ → Text
unfolding show_ℕ
show_ℤ (pos n) = show_ℕ n
show_ℤ (negsuc n) = b'-' ∷ show_ℕ (suc n)

unfoldable pub hex_digit : ℕ → ℕ
hex_digit n = if ltb n 10 then b'0' + n else b'a' + (n - 10)

-- `json.dumps` of a `str`, with `ensure_ascii=False`
unfoldable pub escape_char : ℕ → Text
unfolding hex_digit
escape_char c =
    if c == b'"'
    then codes "\\\""
    else if c == b'\\'
    then codes "\\\\"
    else if c == 8
    then codes "\\b"
    else if c == 9
    then codes "\\t"
    else if c == 10
    then codes "\\n"
    else if c == 12
    then codes "\\f"
    else if c == 13
    then codes "\\r"
    else if ltb c 32
    then codes "\\u00" ++ (hex_digit (c / 16) ∷ hex_digit (c % 16) ∷ [])
    else c ∷ []

unfoldable pub escape_text : Text → Text
escape_text [] = []
escape_text (c ∷ cs) = escape_char c ++ escape_text cs

unfoldable pub encode_text : Text → Text
unfolding escape_char escape_text
encode_text t = b'"' ∷ (escape_text t ++ b'"' ∷ [])

unfoldable pub digit_text : List ℕ → Text
digit_text ds = map (λ d. b'0' + d) ds

-- the two sides of the point, for a fraction of `places` digits
unfoldable pub split_point : Text → ℕ → Text
split_point t places =
    if leb (length t) places
    then codes "0." ++ (replicate (places - length t) b'0' ++ t)
    else take (length t - places) t ++ (b'.' ∷ drop (length t - places) t)

unfoldable pub format_exponent : Exponent → Decimal → Result CanonicalError Text
unfolding digit_text split_point
format_exponent special d = err not_finite
format_exponent (finite (pos n)) d = err not_normalized
format_exponent (finite (negsuc n)) d =
    if last_or 0 d.digits == 0
    then err not_normalized
    else ok ((if d.sign then codes "-" else []) ++ split_point (digit_text d.digits) (suc n))

-- an empty digit list reads as ending in 0: both are refused
unfoldable pub format_decimal : Decimal → Result CanonicalError Text
unfolding format_exponent
format_decimal d = format_exponent d.exponent d

-- keys first, as `sorted(value)` compares them
abbrev pub key_lt : Text × Text → Text × Text → Bool
key_lt a b = text_lt a.0 b.0

unfoldable pub member : Text × Text → Text
unfolding encode_text
member (k, v) = encode_text k ++ (b':' ∷ v)

unfoldable mutual
  unfolding show_ℤ encode_text format_decimal join sort_by text_lt member

  pub encode : Json → Result CanonicalError Text
  encode null = ok (codes "null")
  encode (bool b) = ok (if b then codes "true" else codes "false")
  encode (int n) = ok (show_ℤ n)
  encode (decimal d) = format_decimal d
  encode (str t) = ok (encode_text t)
  encode (arr xs) = encode_items xs >>= λ parts. ok (b'[' ∷ (join (codes ",") parts ++ codes "]"))
  encode (obj fs) = encode_fields fs >>= λ parts.
      ok (b'{' ∷ (join (codes ",") (map member (sort_by key_lt parts)) ++ codes "}"))

  pub encode_items : Items → Result CanonicalError (List Text)
  encode_items no_items = ok []
  encode_items (item x xs) = encode x >>= λ t. encode_items xs >>= λ ts. ok (t ∷ ts)

  pub encode_fields : Fields → Result CanonicalError (List (Text × Text))
  encode_fields no_fields = ok []
  encode_fields (field k v fs) = encode v >>= λ t. encode_fields fs >>= λ ts. ok ((k, t) ∷ ts)

-- A lone surrogate has no UTF-8.
unfoldable pub is_encodable : ℕ → Bool
is_encodable c = ltb c 0xD800 || leb 0xE000 c

unfoldable pub dumps_canonical_json : Json → Result CanonicalError Text
unfolding encode is_encodable all
dumps_canonical_json v =
    encode v >>= λ t. if all is_encodable t then ok (t ++ 10 ∷ []) else err not_utf8
