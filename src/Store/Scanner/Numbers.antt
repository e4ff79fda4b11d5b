-- ===== src/Store/Scanner/Numbers.antt =====
-- The numbers of `json.loads`, with `parse_float=Decimal`: a text with a fraction or an exponent is
-- the decimal that it spells, and any other is an integer.
use temper_ml.Base.{
  leb, if◌then◌else◌, ◌==◌, nat_eq, ℤ, pos, negsuc, length, Text, ℕ, suc, ◌+◌, ◌-◌, ◌*◌, Bool, true,
  false, ◌&&◌, ◌||◌, Option, none, some, List, [], ◌∷◌, ◌++◌, map,
}
use temper_ml.Store.Json.{finite, Decimal, Json, int, decimal}

abbrev pub is_digit : ℕ → Bool
is_digit c = leb b'0' c && leb c b'9'

-- `\d*`
unfoldable pub digits_of : Text → Text × Text
digits_of [] = ([], [])
digits_of (c ∷ cs) =
    let rest = digits_of cs in if is_digit c then (c ∷ rest.0, rest.1) else ([], c ∷ cs)

-- `int(digits)`
unfoldable pub number_of : ℕ → Text → ℕ
number_of acc [] = acc
number_of acc (c ∷ cs) = number_of (acc * 10 + (c - b'0')) cs

-- `(?:0|[1-9]\d*)`
unfoldable pub integer_part : Text → Option (Text × Text)
unfolding digits_of
integer_part [] = none
integer_part (c ∷ cs) =
    if c == b'0' then some (c ∷ [], cs) else if is_digit c then some (digits_of (c ∷ cs)) else none

unfoldable pub some_digits : Text × Text → Option (Text × Text)
some_digits ([], t) = none
some_digits (c ∷ cs, t) = some (c ∷ cs, t)

-- `(\.\d+)?`
unfoldable pub fraction_part : Text → Option (Text × Text)
unfolding some_digits digits_of
fraction_part [] = none
fraction_part (c ∷ cs) = if c == b'.' then some_digits (digits_of cs) else none

unfoldable pub signed_int : Bool → ℕ → ℤ
signed_int true (suc n) = negsuc n
signed_int _ n = pos n

exponent_digits : Bool → Option (Text × Text) → Option (ℤ × Text)
unfolding number_of signed_int
exponent_digits minus none = none
exponent_digits minus (some (ds, t)) = some (signed_int minus (number_of 0 ds), t)

exponent_sign : Text → Option (ℤ × Text)
unfolding exponent_digits some_digits digits_of
exponent_sign [] = none
exponent_sign (c ∷ cs) =
    if c == b'-'
    then exponent_digits true (some_digits (digits_of cs))
    else if c == b'+'
    then exponent_digits false (some_digits (digits_of cs))
    else exponent_digits false (some_digits (digits_of (c ∷ cs)))

-- `([eE][-+]?\d+)?`
unfoldable pub exponent_part : Text → Option (ℤ × Text)
unfolding exponent_sign
exponent_part [] = none
exponent_part (c ∷ cs) = if c == b'e' || c == b'E' then exponent_sign cs else none

-- the digits of a decimal, without leading zeros
unfoldable pub stripped : List ℕ → List ℕ
stripped [] = []
stripped (d ∷ []) = d ∷ []
stripped (d ∷ e ∷ ds) = let rest = stripped (e ∷ ds) in if d == 0 then rest else d ∷ e ∷ ds

abbrev pub digit_values : Text → List ℕ
digit_values t = map (λ c. c - b'0') t

-- `e - places`
unfoldable pub lowered : ℤ → ℕ → ℤ
lowered (pos e) places = if leb places e then pos (e - places) else negsuc (places - e - 1)
lowered (negsuc e) places = negsuc (e + places)

-- `Decimal(text).as_tuple()`
unfoldable pub decimal_of : Bool → Text → Text → ℤ → Decimal
unfolding stripped lowered
decimal_of sign whole fraction e = record {
  sign = sign;
  digits = stripped (digit_values (whole ++ fraction));
  exponent = finite (lowered e (length fraction));
}

-- what follows the integer part
unfoldable pub after_fraction : Bool → Text → Text → Text → Option (ℤ × Text) → Json × Text
unfolding decimal_of
after_fraction sign whole fraction rest none =
    (decimal (decimal_of sign whole fraction (pos 0)), rest)
after_fraction sign whole fraction rest (some (e, rest')) =
    (decimal (decimal_of sign whole fraction e), rest')

unfoldable pub after_integer : Bool → Text → Text → Option (ℤ × Text) → Json × Text
unfolding decimal_of number_of signed_int
after_integer sign whole rest none = (int (signed_int sign (number_of 0 whole)), rest)
after_integer sign whole rest (some (e, rest')) = (decimal (decimal_of sign whole [] e), rest')

unfoldable pub after_whole : Bool → Text → Text → Option (Text × Text) → Json × Text
unfolding after_fraction after_integer exponent_part
after_whole sign whole rest (some (fraction, rest')) =
    after_fraction sign whole fraction rest' (exponent_part rest')
after_whole sign whole rest none = after_integer sign whole rest (exponent_part rest)

unfoldable pub unsigned : Bool → Option (Text × Text) → Option (Json × Text)
unfolding after_whole fraction_part
unsigned sign none = none
unsigned sign (some (whole, rest)) = some (after_whole sign whole rest (fraction_part rest))

-- `match_number`
unfoldable pub match_number : Text → Option (Json × Text)
unfolding unsigned integer_part
match_number [] = none
match_number (c ∷ cs) =
    if c == b'-' then unsigned true (integer_part cs) else unsigned false (integer_part (c ∷ cs))
