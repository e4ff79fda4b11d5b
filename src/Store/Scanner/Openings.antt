-- ===== src/Store/Scanner/Openings.antt =====
-- How a text that is read as a value starts: with no space, no comma, no closing bracket and no byte order mark.
use temper_ml.Base.{
  ◌==◌, nat_eq, list_eq, Bool-cases, unbind, ok, err, All, Text, ℕ, zero, suc, ◌≡◌, refl, ap, ◌∙◌,
  inl, inr, Bool, true, false, not, ◌||◌, none, append_assoc, [], ◌∷◌, ◌++◌, arith, ℕ_discrete,
}
use temper_ml.Store.Json.{Json, Items, Fields}
use temper_ml.Store.Canonical.{escape_text, encode_text, is_encodable, not_json}
use temper_ml.Store.Scanner.Numbers.{integer_part, unsigned, match_number}
use temper_ml.Store.Scanner.Quoted.{scan_string-escape_text}
use temper_ml.Store.Scanner.Values.{
  is_space, skip_spaces, strip_prefix, scanned, literal, reject_constant, scan_scalar, start_of,
  follow_of, colon, key_colon, scan_key, scan_value, scan_items, scan_fields, other, neither,
}

unfoldable pub opens : ℕ → Bool
unfolding is_space
opens c = not (is_space c || c == b']' || c == b',' || c == 0xFEFF)

abbrev pub Opens : Text → Type 0
Opens [] = ⊥
Opens (c ∷ cs) = opens c ≡ true

abbrev pub OpensKey : Text → Type 0
OpensKey [] = ⊥
OpensKey (c ∷ cs) = (c == b'"') ≡ true

pub skip_spaces-Opens : (t : Text) → Opens t → skip_spaces t ≡ t
unfolding skip_spaces is_space opens
skip_spaces-Opens [] o = elim o [ ]
skip_spaces-Opens (c ∷ cs) o = ground (arith, o)

pub follow_of-Opens : (t : Text) → Opens t → follow_of b']' t ≡ neither
unfolding follow_of is_space opens
follow_of-Opens [] o = elim o [ ]
follow_of-Opens (c ∷ cs) o = ground (arith, o)

pub OpensKey-Opens : (t : Text) → OpensKey t → Opens t
unfolding is_space opens
OpensKey-Opens [] o = o
OpensKey-Opens (c ∷ cs) o = ground (arith, o)

pub follow_of-OpensKey : (t : Text) → OpensKey t → follow_of b'}' t ≡ neither
unfolding follow_of
follow_of-OpensKey [] o = elim o [ ]
follow_of-OpensKey (c ∷ cs) o = ground (arith, o)

start_of-closed : (c : ℕ) (cs : Text) → opens c ≡ false → start_of (c ∷ cs) ≡ other (c ∷ cs)
unfolding start_of is_space opens
start_of-closed c cs h = ground (arith, h)

match_number-closed : (c : ℕ) (cs : Text) → opens c ≡ false → match_number (c ∷ cs) ≡ none
unfolding match_number unsigned integer_part is_space opens
match_number-closed c cs h = ground (arith, h)

scan_scalar-closed :
    (c : ℕ) (cs : Text) → opens c ≡ false → scan_scalar (c ∷ cs) ≡ scanned (match_number (c ∷ cs))
unfolding scan_scalar literal reject_constant strip_prefix is_space opens
scan_scalar-closed c cs h = ground (arith, h)

scan_value-closed : (n c : ℕ) (cs : Text) → opens c ≡ false → scan_value n (c ∷ cs) ≡ err not_json
unfolding scan_value scanned
scan_value-closed zero c cs h = refl
scan_value-closed (suc n) c cs h =
    rw (scan_value, start_of-closed c cs h)
      (scan_scalar-closed c cs h ∙ ap scanned (match_number-closed c cs h))

pub scan_value-Opens : (n : ℕ) (t : Text) (r : Json × Text) → scan_value n t ≡ ok r → Opens t
unfolding scan_value start_of scan_scalar literal reject_constant strip_prefix match_number scanned
scan_value-Opens zero t r h = cc h
scan_value-Opens (suc n) [] r h = cc h
scan_value-Opens (suc n) (c ∷ cs) r h = elim (Bool-cases (opens c)) [
  | inl o ↦ o
  | inr o ↦ cc (h, scan_value-closed (suc n) c cs o)
]

pub scan_items-Opens : (n : ℕ) (t : Text) (r : Items × Text) → scan_items n t ≡ ok r → Opens t
unfolding scan_items
scan_items-Opens zero t r h = cc h
scan_items-Opens (suc n) t r h =
    let (s, hs) = unbind _ r (scan_value n t) h in scan_value-Opens n t s hs.0

scan_key-OpensKey : (t : Text) (r : Text × Text) → scan_key t ≡ ok r → OpensKey t
unfolding scan_key
scan_key-OpensKey [] r h = cc h
scan_key-OpensKey (c ∷ cs) r h = elim (Bool-cases (c == b'"')) [
  | inl o ↦ o
  | inr o ↦ cc (rw o at h)
]

pub scan_fields-OpensKey :
    (n : ℕ) (t : Text) (r : Fields × Text) → scan_fields n t ≡ ok r → OpensKey t
unfolding scan_fields
scan_fields-OpensKey zero t r h = cc h
scan_fields-OpensKey (suc n) t r h =
    let (k, hk) = unbind _ r (scan_key t) h in scan_key-OpensKey t k hk.0

-- A key as it is written, its colon, and a value behind it.
pub scan_key-encode_text :
    (k t : Text)
    → All (λ c. is_encodable c ≡ true) k
    → Opens t
    → scan_key (encode_text k ++ b':' ∷ t) ≡ ok (k, t)
unfolding scan_key key_colon colon encode_text skip_spaces is_space ℕ_discrete
scan_key-encode_text k t a o = rw (
  append_assoc (escape_text k) (b'"' ∷ []) (b':' ∷ t),
  scan_string-escape_text k (b':' ∷ t) a,
  skip_spaces-Opens t o,
)
