-- ===== src/Domain/Experiments/Pointer.antt =====
-- RFC 6901 pointers: `_escape_pointer`, `_parse_pointer` and `_is_pointer_ancestor` of
-- src/temper_ml/domain/experiments.py.
pub mod RoundTrip
use temper_ml.Base.{
  if◌then◌else◌, ◌==◌, nat_eq, list_eq, ◌>>=◌, Result, ok, err, Text, codes, ℕ, Bool, true, false,
  ◌&&◌, List, [], ◌∷◌, ◌++◌,
}

pub data PointerError : Type 0 where
  not_a_pointer invalid_escaping : PointerError

-- `value.replace(c, with)` for one character
replace_char : ℕ → Text → Text → Text
replace_char c by [] = []
replace_char c by (x ∷ xs) = (if x == c then by else x ∷ []) ++ replace_char c by xs

unfoldable pub escape_pointer : Text → Text
unfolding replace_char
escape_pointer t = replace_char b'/' (codes "~1") (replace_char b'~' (codes "~0") t)

attach : ℕ → List Text → List Text
attach x [] = (x ∷ []) ∷ []
attach x (t ∷ ts) = (x ∷ t) ∷ ts

-- `value.split(c)`
split_on : ℕ → Text → List Text
unfolding attach
split_on c [] = [] ∷ []
split_on c (x ∷ xs) = let rest = split_on c xs in if x == c then [] ∷ rest else attach x rest

unescaped : ℕ → Result PointerError Text → Result PointerError Text
unescaped y rest =
    if y == b'0'
    then (rest >>= λ t. ok (b'~' ∷ t))
    else if y == b'1'
    then (rest >>= λ t. ok (b'/' ∷ t))
    else err invalid_escaping

-- the `while` loop over one raw token
decode_token : Text → Result PointerError Text
unfolding unescaped
decode_token [] = ok []
decode_token (x ∷ []) = if x == b'~' then err invalid_escaping else ok (x ∷ [])
decode_token (x ∷ y ∷ rest) =
    let after = decode_token rest in
    let next = decode_token (y ∷ rest) in
    if x == b'~' then unescaped y after else (next >>= λ t. ok (x ∷ t))

decode_all : List Text → Result PointerError (List Text)
unfolding decode_token
decode_all [] = ok []
decode_all (raw ∷ raws) = decode_token raw >>= λ t. decode_all raws >>= λ ts. ok (t ∷ ts)

unfoldable pub parse_pointer : Text → Result PointerError (List Text)
unfolding decode_all split_on
parse_pointer [] = ok []
parse_pointer (x ∷ xs) = if x == b'/' then decode_all (split_on b'/' xs) else err not_a_pointer

-- The path that `_diff_values` builds for these keys, one `f"{path}/{_escape_pointer(key)}"` each.
unfoldable pub pointer : List Text → Text
unfolding escape_pointer
pointer [] = []
pointer (k ∷ ks) = b'/' ∷ (escape_pointer k ++ pointer ks)

is_proper_prefix : List Text → List Text → Bool
is_proper_prefix [] [] = false
is_proper_prefix [] (y ∷ ys) = true
is_proper_prefix (x ∷ xs) [] = false
is_proper_prefix (x ∷ xs) (y ∷ ys) = x == y && is_proper_prefix xs ys

unfoldable pub is_pointer_ancestor : Text → Text → Result PointerError Bool
unfolding parse_pointer is_proper_prefix
is_pointer_ancestor parent child =
    parse_pointer parent >>= λ ps. parse_pointer child >>= λ cs. ok (is_proper_prefix ps cs)
