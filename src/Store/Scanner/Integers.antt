-- ===== src/Store/Scanner/Integers.antt =====
-- The integers that `str` writes, read by `match_number`.
use temper_ml.Base.{
  ◌==◌, nat_eq, Bool-cases, ℤ, pos, negsuc, Text, ℕ, suc, ◌≡◌, refl, sym, ◌∙◌, subst, inl, inr,
  Bool, true, false, none, some, [], ◌∷◌, ◌++◌, arith, ℕ_discrete,
}
use temper_ml.Store.Json.{int}
use temper_ml.Store.Canonical.{show_ℕ, show_ℤ}
use temper_ml.Store.Scanner.Numbers.{
  is_digit, integer_part, fraction_part, signed_int, exponent_part, after_integer, after_whole,
  unsigned, match_number,
}
use temper_ml.Store.Scanner.Numerals.{Stops, digits_of-append, Numeral, show_ℕ-Numeral}

-- No number goes on with this text.
abbrev pub Ends : Text → Type 0
Ends [] = Unit
Ends (c ∷ cs) =
    (is_digit c ≡ false) × (((c == b'.') ≡ false) × (((c == b'e') ≡ false) × ((c == b'E') ≡ false)))

pub Ends-Stops : (t : Text) → Ends t → Stops t
Ends-Stops [] e = tt
Ends-Stops (c ∷ cs) e = e.0

fraction_part-Ends : (t : Text) → Ends t → fraction_part t ≡ none
unfolding fraction_part
fraction_part-Ends [] e = refl
fraction_part-Ends (c ∷ cs) e = rw e.1.0

pub exponent_part-Ends : (t : Text) → Ends t → exponent_part t ≡ none
unfolding exponent_part
exponent_part-Ends [] e = refl
exponent_part-Ends (c ∷ cs) e = rw (e.1.1.0, e.1.1.1)

integer_part-digit :
    (c : ℕ) (t : Text) → is_digit c ≡ true → Stops t → integer_part (c ∷ t) ≡ some (c ∷ [], t)
unfolding integer_part
integer_part-digit c t d s = elim (Bool-cases (c == b'0')) [
  | inl z ↦ rw z
  | inr z ↦ rw (z, d, digits_of-append [] t tt s)
]

pub integer_part-Numeral :
    (n : ℕ) (ds t : Text) → Numeral n ds → Stops t → integer_part (ds ++ t) ≡ some (ds, t)
unfolding integer_part
integer_part-Numeral n [] t h s = elim h.1.1 [ ]
integer_part-Numeral n (c ∷ cs) t (v, (a, inl l)) s = rw (l, a.0, digits_of-append cs t a.1 s)
integer_part-Numeral n (c ∷ cs) t (v, (a, inr l)) s =
    subst (λ x. integer_part (c ∷ (x ++ t)) ≡ some (c ∷ x, t)) (sym l.1)
      (integer_part-digit c t a.0 s)

match_number-digit :
    (n : ℕ) (ds t : Text)
    → Numeral n ds
    → match_number (ds ++ t) ≡ unsigned false (integer_part (ds ++ t))
unfolding match_number
match_number-digit n [] t h = elim h.1.1 [ ]
match_number-digit n (c ∷ cs) t h = ground (arith, h.1.0.0)

pub match_number-minus : (t : Text) → match_number (b'-' ∷ t) ≡ unsigned true (integer_part t)
unfolding match_number ℕ_discrete
match_number-minus t = refl

unsigned-int :
    (sign : Bool) (n : ℕ) (ds t : Text)
    → Numeral n ds
    → Ends t
    → unsigned sign (integer_part (ds ++ t)) ≡ some (int (signed_int sign n), t)
unfolding unsigned after_whole after_integer
unsigned-int sign n ds t h e = rw (
  integer_part-Numeral n ds t h (Ends-Stops t e),
  fraction_part-Ends t e,
  exponent_part-Ends t e,
  h.0,
)

pub match_number-show_ℤ :
    (z : ℤ) (t : Text) → Ends t → match_number (show_ℤ z ++ t) ≡ some (int z, t)
unfolding show_ℤ signed_int
match_number-show_ℤ (pos n) t e =
    match_number-digit n (show_ℕ n) t (show_ℕ-Numeral n)
    ∙ unsigned-int false n (show_ℕ n) t (show_ℕ-Numeral n) e
match_number-show_ℤ (negsuc n) t e =
    match_number-minus (show_ℕ (suc n) ++ t)
    ∙ unsigned-int true (suc n) (show_ℕ (suc n)) t (show_ℕ-Numeral (suc n)) e
