-- ===== src/Store/Scanner/Scalars.antt =====
-- Values that hold no other, read by `scan_once`.
use temper_ml.Base.{
  if◌then◌else◌, ◌==◌, nat_eq, list_eq, eq_iff, Bool-cases, ok, All, Text, codes, ℕ, suc, ◌≡◌, refl,
  sym, ◌∙◌, subst, inl, inr, Bool, true, false, none, some, append_assoc, [], ◌∷◌, ◌++◌, arith,
  ℕ_discrete,
}
use temper_ml.Store.Json.{Json, null, bool, str}
use temper_ml.Store.Canonical.{escape_text, encode_text, is_encodable}
use temper_ml.Store.Scanner.Numbers.{is_digit, integer_part, unsigned, match_number}
use temper_ml.Store.Scanner.Quoted.{scan_string-escape_text}
use temper_ml.Store.Scanner.Values.{
  strip_prefix, scanned, literal, reject_constant, scan_scalar, start_of, string_value, scan_value,
  other,
}

-- A text that opens with a digit is no word.
scan_scalar-digit :
    (c : ℕ) (cs : Text) → is_digit c ≡ true → scan_scalar (c ∷ cs) ≡ scanned (match_number (c ∷ cs))
unfolding scan_scalar literal reject_constant strip_prefix
scan_scalar-digit c cs h = ground (arith, h)

start_of-digit : (c : ℕ) (cs : Text) → is_digit c ≡ true → start_of (c ∷ cs) ≡ other (c ∷ cs)
unfolding start_of
start_of-digit c cs h = ground (arith, h)

integer_part-none : (c : ℕ) (cs : Text) → is_digit c ≡ false → integer_part (c ∷ cs) ≡ none
unfolding integer_part
integer_part-none c cs h = ground (arith, h)

-- A number starts with a digit.
unsigned-digit :
    (sign : Bool) (c : ℕ) (cs : Text) (r : Json × Text)
    → unsigned sign (integer_part (c ∷ cs)) ≡ some r
    → is_digit c ≡ true
unfolding unsigned
unsigned-digit sign c cs r h = elim (Bool-cases (is_digit c)) [
  | inl d ↦ d
  | inr d ↦ cc (h, integer_part-none c cs d)
]

scan_scalar-minus :
    (d : ℕ) (ds : Text)
    → is_digit d ≡ true
    → scan_scalar (b'-' ∷ d ∷ ds) ≡ scanned (match_number (b'-' ∷ d ∷ ds))
unfolding scan_scalar literal reject_constant strip_prefix ℕ_discrete
scan_scalar-minus d ds h = ground (arith, h)

scan_value-other :
    (n : ℕ) (c : ℕ) (cs : Text)
    → start_of (c ∷ cs) ≡ other (c ∷ cs)
    → scan_value (suc n) (c ∷ cs) ≡ scan_scalar (c ∷ cs)
unfolding scan_value
scan_value-other n c cs h = rw (scan_value, h)

scanned-some :
    (t : Text) (r : Json × Text) → match_number t ≡ some r → scanned (match_number t) ≡ ok r
unfolding scanned
scanned-some t r h = rw h

-- The text behind a minus that opens a number starts with a digit.
minus-number :
    (n : ℕ) (cs : Text) (r : Json × Text)
    → match_number (b'-' ∷ cs) ≡ some r
    → scan_value (suc n) (b'-' ∷ cs) ≡ ok r
unfolding match_number start_of ℕ_discrete
minus-number n [] r h = cc h
minus-number n (d ∷ ds) r h =
    scan_value-other n b'-' (d ∷ ds) refl
    ∙ scan_scalar-minus d ds (unsigned-digit true d ds r h)
    ∙ scanned-some (b'-' ∷ d ∷ ds) r h

pub scan_value-number :
    (n : ℕ) (t : Text) (r : Json × Text) → match_number t ≡ some r → scan_value (suc n) t ≡ ok r
unfolding match_number
scan_value-number n [] r h = cc h
scan_value-number n (c ∷ cs) r h = elim (Bool-cases (c == b'-')) [
  | inl e ↦
      let q : b'-' ≡ c = sym ((eq_iff c b'-').0 e) in
      subst (λ x. match_number (x ∷ cs) ≡ some r → scan_value (suc n) (x ∷ cs) ≡ ok r) q
        (minus-number n cs r) h
  | inr e ↦
      let d : is_digit c ≡ true = unsigned-digit false c cs r (rw e at h) in
      scan_value-other n c cs (start_of-digit c cs d)
      ∙ scan_scalar-digit c cs d
      ∙ scanned-some (c ∷ cs) r h
]

pub scan_value-encode_text :
    (n : ℕ) (t rest : Text)
    → All (λ c. is_encodable c ≡ true) t
    → scan_value (suc n) (encode_text t ++ rest) ≡ ok (str t, rest)
unfolding scan_value start_of encode_text string_value ℕ_discrete
scan_value-encode_text n t rest a =
    rw (append_assoc (escape_text t) (b'"' ∷ []) rest, scan_string-escape_text t rest a)

pub scan_value-null :
    (n : ℕ) (rest : Text) → scan_value (suc n) (codes "null" ++ rest) ≡ ok (null, rest)
unfolding scan_value start_of scan_scalar literal strip_prefix ℕ_discrete
scan_value-null n rest = refl

pub scan_value-bool :
    (n : ℕ) (b : Bool) (rest : Text)
    → scan_value (suc n) ((if b then codes "true" else codes "false") ++ rest) ≡ ok (bool b, rest)
unfolding scan_value start_of scan_scalar literal strip_prefix ℕ_discrete
scan_value-bool n true rest = refl
scan_value-bool n false rest = refl
