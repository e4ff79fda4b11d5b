-- ===== src/Store/Scanner/Strings.antt =====
-- The strings of `json.loads`: `scanstring` in strict mode, from behind the opening quote.
use temper_ml.Base.{
  ltb, leb, if◌then◌else◌, ◌==◌, nat_eq, list_eq, Text, ℕ, ◌+◌, ◌-◌, ◌*◌, Bool, ◌&&◌, Option, none,
  some, [], ◌∷◌, ◌++◌,
}

-- Where the scan of a string stands: between characters, behind a backslash, or in a `\uXXXX`
-- that lacks so many digits.
pub data Place : Type 0 where
  plain escaped : Place
  hex : ℕ → ℕ → Place

-- What a character does: it ends the string, it cannot stand there, it is read and spells nothing
-- yet, or it is the last one of a code point.
pub data Move : Type 0 where
  close refuse : Move
  read : Place → Move
  emit : ℕ → Move

-- `BACKSLASH`
unfoldable pub escape_of : ℕ → Move
escape_of c =
    if c == b'"'
    then emit b'"'
    else if c == b'\\'
    then emit b'\\'
    else if c == b'/'
    then emit b'/'
    else if c == b'b'
    then emit 8
    else if c == b'f'
    then emit 12
    else if c == b'n'
    then emit 10
    else if c == b'r'
    then emit 13
    else if c == b't'
    then emit 9
    else if c == b'u'
    then read (hex 4 0)
    else refuse

unfoldable pub hex_value : ℕ → Option ℕ
hex_value c =
    if leb b'0' c && leb c b'9'
    then some (c - b'0')
    else if leb b'a' c && leb c b'f'
    then some (c - b'a' + 10)
    else if leb b'A' c && leb c b'F'
    then some (c - b'A' + 10)
    else none

-- `left` digits are to come, this one included
unfoldable pub hex_move : ℕ → ℕ → Option ℕ → Move
hex_move left acc none = refuse
hex_move left acc (some d) =
    if leb left 1 then emit (acc * 16 + d) else read (hex (left - 1) (acc * 16 + d))

unfoldable pub move : Place → ℕ → Move
unfolding escape_of hex_value hex_move
move plain c =
    if c == b'"'
    then close
    else if ltb c 32
    then refuse
    else if c == b'\\'
    then read escaped
    else emit c
move escaped c = escape_of c
move (hex left acc) c = hex_move left acc (hex_value c)

-- The text from here, once its later part was read.
unfoldable pub prepend : ℕ → Option (Text × Text) → Option (Text × Text)
prepend c none = none
prepend c (some (t, rest)) = some (c ∷ t, rest)

unfoldable pub next_place : Move → Place
next_place (read p) = p
next_place _ = plain

unfoldable pub after_move : Move → Text → Option (Text × Text) → Option (Text × Text)
unfolding prepend
after_move close cs later = some ([], cs)
after_move refuse cs later = none
after_move (read p) cs later = later
after_move (emit c) cs later = prepend c later

-- The code points that are spelled, with the surrogates as they stand, and what is left.
unfoldable pub scan_units : Place → Text → Option (Text × Text)
unfolding move next_place after_move
scan_units p [] = none
scan_units p (c ∷ cs) = after_move (move p c) cs (scan_units (next_place (move p c)) cs)

unfoldable pub is_high : ℕ → Bool
is_high c = leb 0xD800 c && leb c 0xDBFF

unfoldable pub is_low : ℕ → Bool
is_low c = leb 0xDC00 c && leb c 0xDFFF

-- A high surrogate and the low one behind it are one character, which is no surrogate. The first
-- argument is the character before.
unfoldable pub pair_from : ℕ → Text → Text
unfolding is_high is_low
pair_from c [] = c ∷ []
pair_from c (d ∷ ds) =
    let paired = is_high c && is_low d in
    (if paired then [] else c ∷ [])
    ++ pair_from (if paired then 0x10000 + (c - 0xD800) * 0x400 + (d - 0xDC00) else d) ds

unfoldable pub pair_surrogates : Text → Text
unfolding pair_from
pair_surrogates [] = []
pair_surrogates (c ∷ cs) = pair_from c cs

unfoldable pub paired : Option (Text × Text) → Option (Text × Text)
unfolding pair_surrogates
paired none = none
paired (some (t, rest)) = some (pair_surrogates t, rest)

unfoldable pub scan_string : Text → Option (Text × Text)
unfolding scan_units paired
scan_string cs = paired (scan_units plain cs)
