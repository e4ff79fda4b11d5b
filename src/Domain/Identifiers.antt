-- ===== src/Domain/Identifiers.antt =====
-- The checks on texts of src/temper_ml/domain/records.py.
use temper_ml.Base.{leb, ◌==◌, nat_eq, length, all, Text, ℕ, Bool, false, ◌&&◌, ◌||◌, [], ◌∷◌}

-- `[A-Za-z0-9]`
unfoldable pub is_alnum : ℕ → Bool
is_alnum c = (leb b'A' c && leb c b'Z') || (leb b'a' c && leb c b'z') || (leb b'0' c && leb c b'9')

-- `[A-Za-z0-9._-]`
unfoldable pub is_identifier_char : ℕ → Bool
unfolding is_alnum
is_identifier_char c = is_alnum c || c == b'.' || c == b'_' || c == b'-'

-- `_IDENTIFIER` matches the whole text
unfoldable pub is_identifier : Text → Bool
unfolding is_identifier_char all
is_identifier [] = false
is_identifier (c ∷ cs) = is_alnum c && all is_identifier_char cs && leb (length cs) 127
