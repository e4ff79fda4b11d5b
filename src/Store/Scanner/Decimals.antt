-- ===== src/Store/Scanner/Decimals.antt =====
-- The decimals that `_format_decimal` writes, read by `match_number`.
use temper_ml.Base.{
  ltb, leb, if◌then◌else◌, ◌==◌, nat_eq, eq_iff, Bool-cases, pos, negsuc, ok_inj, ok, length,
  length-append, All, take, drop, replicate, last_or, Text, codes, ℕ, zero, suc, ◌+◌, ◌-◌, ◌≡◌,
  refl, sym, ap, ◌∙◌, inl, inr, Bool, true, false, none, some, append_assoc, List, [], ◌∷◌, ◌++◌,
  arith, ℕ_discrete,
}
use temper_ml.Store.Json.{Exponent, finite, special, Decimal, Json, decimal}
use temper_ml.Store.Canonical.{digit_text, split_point, format_exponent, format_decimal}
use temper_ml.Store.Scanner.Numbers.{
  number_of, integer_part, fraction_part, stripped, digit_values, lowered, decimal_of,
  after_fraction, after_whole, unsigned, match_number,
}
use temper_ml.Store.Scanner.Numerals.{AllDigits, digits_of-append, Numeral}
use temper_ml.Store.Scanner.Integers.{
  Ends, Ends-Stops, exponent_part-Ends, integer_part-Numeral, match_number-minus,
}

-- What `as_tuple` shows of a decimal that `_format_decimal` admits: digits, the first one not 0.
abbrev pub Significant : List ℕ → Type 0
Significant [] = Unit
Significant (d ∷ ds) = ((d == 0) ≡ false) × All (λ e. ltb e 10 ≡ true) (d ∷ ds)

module _ {ℓ} {A : Type ℓ} where
  pub take-drop : (n : ℕ) (xs : List A) → take n xs ++ drop n xs ≡ xs
  take-drop zero xs = refl
  take-drop (suc n) [] = refl
  take-drop (suc n) (x ∷ xs) = ap (λ ys. x ∷ ys) (take-drop n xs)

  pub length-drop : (n : ℕ) (xs : List A) → length (drop n xs) ≡ length xs - n
  length-drop zero xs = omega arith
  length-drop (suc n) [] = omega arith
  length-drop (suc n) (x ∷ xs) = omega (arith, length-drop n xs)

  pub length-replicate : (n : ℕ) (a : A) → length (replicate n a) ≡ n
  length-replicate zero a = refl
  length-replicate (suc n) a = ap suc (length-replicate n a)

AllDigits-take : (n : ℕ) (ds : Text) → AllDigits ds → AllDigits (take n ds)
AllDigits-take zero ds a = tt
AllDigits-take (suc n) [] a = tt
AllDigits-take (suc n) (d ∷ ds) a = (a.0, AllDigits-take n ds a.1)

AllDigits-drop : (n : ℕ) (ds : Text) → AllDigits ds → AllDigits (drop n ds)
AllDigits-drop zero ds a = a
AllDigits-drop (suc n) [] a = tt
AllDigits-drop (suc n) (d ∷ ds) a = AllDigits-drop n ds a.1

pub AllDigits-zeros : (n : ℕ) (ds : Text) → AllDigits ds → AllDigits (replicate n b'0' ++ ds)
AllDigits-zeros zero ds a = a
AllDigits-zeros (suc n) ds a = (refl, AllDigits-zeros n ds a)

pub length-zeros :
    (t : Text) (n : ℕ) → leb (length t) n ≡ true → length (replicate (n - length t) b'0' ++ t) ≡ n
length-zeros t n h =
    rw
      (
        length-append (replicate (n - length t) b'0') t,
        length-replicate {A = ℕ} (n - length t) b'0',
      )
      (ground arith)

AllDigits-digit_text : (ds : List ℕ) → All (λ e. ltb e 10 ≡ true) ds → AllDigits (digit_text ds)
unfolding digit_text
AllDigits-digit_text [] a = tt
AllDigits-digit_text (d ∷ ds) a = (ground (arith, a.0), AllDigits-digit_text ds a.1)

add_sub_cancel : (d : ℕ) → b'0' + d - b'0' ≡ d
add_sub_cancel d = omega arith

digit_values-digit_text : (ds : List ℕ) → digit_values (digit_text ds) ≡ ds
unfolding digit_text
digit_values-digit_text [] = refl
digit_values-digit_text (d ∷ ds) = rw (digit_values-digit_text ds, add_sub_cancel d)

length-digit_text : (ds : List ℕ) → length (digit_text ds) ≡ length ds
unfolding digit_text
length-digit_text [] = refl
length-digit_text (d ∷ ds) = ap suc (length-digit_text ds)

digit_values-zeros :
    (n : ℕ) (t : Text) → digit_values (replicate n b'0' ++ t) ≡ replicate n 0 ++ digit_values t
digit_values-zeros zero t = refl
digit_values-zeros (suc n) t = ap (λ ds. 0 ∷ ds) (digit_values-zeros n t)

stripped-id : (ds : List ℕ) → Significant ds → stripped ds ≡ ds
unfolding stripped
stripped-id [] s = refl
stripped-id (d ∷ []) s = refl
stripped-id (d ∷ e ∷ ds) s = rw s.0

stripped-zeros : (n d : ℕ) (ds : List ℕ) → stripped (replicate n 0 ++ d ∷ ds) ≡ stripped (d ∷ ds)
unfolding stripped ℕ_discrete
stripped-zeros zero d ds = refl
stripped-zeros (suc zero) d ds = refl
stripped-zeros (suc (suc n)) d ds = stripped-zeros (suc n) d ds

stripped-all_zeros :
    (n d : ℕ) (ds : List ℕ)
    → Significant (d ∷ ds)
    → stripped (digit_values ((b'0' ∷ []) ++ (replicate n b'0' ++ digit_text (d ∷ ds)))) ≡ d ∷ ds
stripped-all_zeros n d ds s =
    ap stripped (digit_values-zeros (suc n) (digit_text (d ∷ ds)))
    ∙ ap (λ x. stripped (replicate (suc n) 0 ++ x)) (digit_values-digit_text (d ∷ ds))
    ∙ stripped-zeros (suc n) d ds
    ∙ stripped-id (d ∷ ds) s

not_suc : (n : ℕ) → 0 ≡ suc n → ⊥
not_suc n h = omega (arith, h)

-- A number with a point: what stands on its two sides is what is read.
unsigned-point :
    (sign : Bool) (m : ℕ) (whole fraction t : Text) (places : ℕ)
    → Numeral m whole
    → AllDigits fraction
    → length fraction ≡ suc places
    → Ends t
    → unsigned sign (integer_part (whole ++ b'.' ∷ (fraction ++ t)))
      ≡ some (decimal (decimal_of sign whole fraction (pos 0)), t)
unfolding unsigned after_whole after_fraction fraction_part ℕ_discrete
unsigned-point sign m whole [] t places h a l e = elim (not_suc places l) [ ]
unsigned-point sign m whole (c ∷ cs) t places h a l e = rw (
  integer_part-Numeral m whole (b'.' ∷ (c ∷ cs ++ t)) h refl,
  digits_of-append (c ∷ cs) t a (Ends-Stops t e),
  exponent_part-Ends t e,
)

lowered-zero : (n : ℕ) → lowered (pos 0) (suc n) ≡ negsuc n
unfolding lowered
lowered-zero n = ground arith

decimal_of-places :
    (sign : Bool) (whole fraction : Text) (places : ℕ) (ds : List ℕ)
    → length fraction ≡ suc places
    → stripped (digit_values (whole ++ fraction)) ≡ ds
    → decimal_of sign whole fraction (pos 0)
      ≡ record { sign = sign; digits = ds; exponent = finite (negsuc places) }
unfolding decimal_of
decimal_of-places sign whole fraction places ds l h = rw (h, l, lowered-zero places)

abbrev PointRead : Bool → List ℕ → ℕ → Text → Type 0
PointRead sign ds places shown =
    (t : Text)
    → Ends t
    → unsigned sign (integer_part (shown ++ t))
      ≡ some (decimal (record { sign = sign; digits = ds; exponent = finite (negsuc places) }), t)

point-Read :
    (sign : Bool) (m : ℕ) (whole fraction : Text) (places : ℕ) (ds : List ℕ)
    → Numeral m whole
    → AllDigits fraction
    → length fraction ≡ suc places
    → stripped (digit_values (whole ++ fraction)) ≡ ds
    → PointRead sign ds places (whole ++ b'.' ∷ fraction)
point-Read sign m whole fraction places ds h a l r t e =
    ap (λ x. unsigned sign (integer_part x)) (append_assoc whole (b'.' ∷ fraction) t)
    ∙ unsigned-point sign m whole fraction t places h a l e
    ∙ ap (λ x. some (decimal x, t)) (decimal_of-places sign whole fraction places ds l r)

split_point-zeros :
    (t : Text) (places : ℕ)
    → leb (length t) places ≡ true
    → split_point t places ≡ (b'0' ∷ []) ++ b'.' ∷ (replicate (places - length t) b'0' ++ t)
unfolding split_point
split_point-zeros t places h = rw h

split_point-among :
    (t : Text) (places : ℕ)
    → leb (length t) places ≡ false
    → split_point t places ≡ take (length t - places) t ++ b'.' ∷ drop (length t - places) t
unfolding split_point
split_point-among t places h = rw h

zero-Numeral : Numeral 0 (b'0' ∷ [])
unfolding number_of
zero-Numeral = (refl, ((refl, tt), inr (refl, refl)))

-- The point stands in front of all the digits, or among them.
zeros-PointRead :
    (sign : Bool) (d : ℕ) (ds : List ℕ) (places : ℕ)
    → Significant (d ∷ ds)
    → leb (length (digit_text (d ∷ ds))) (suc places) ≡ true
    → PointRead sign (d ∷ ds) places (split_point (digit_text (d ∷ ds)) (suc places))
zeros-PointRead sign d ds places s l =
    let t = digit_text (d ∷ ds) in
    let n = suc places - length t in
    rw (split_point-zeros t (suc places) l) (
      point-Read sign 0 (b'0' ∷ []) (replicate n b'0' ++ t) places (d ∷ ds) zero-Numeral
        (AllDigits-zeros n t (AllDigits-digit_text (d ∷ ds) s.1)) (length-zeros t (suc places) l)
        (stripped-all_zeros n d ds s))

among-Numeral :
    (d : ℕ) (ds : List ℕ) (n : ℕ)
    → Significant (d ∷ ds)
    → (m : ℕ) × Numeral m (take (suc n) (digit_text (d ∷ ds)))
unfolding digit_text
among-Numeral d ds n s = (
  _,
  (
    refl,
    (
      AllDigits-take (suc n) (digit_text (d ∷ ds)) (AllDigits-digit_text (d ∷ ds) s.1),
      inl (ground (arith, s.0)),
    ),
  ),
)

among-PointRead :
    (sign : Bool) (d : ℕ) (ds : List ℕ) (places k : ℕ)
    → Significant (d ∷ ds)
    → leb (length (digit_text (d ∷ ds))) (suc places) ≡ false
    → length (digit_text (d ∷ ds)) - suc places ≡ suc k
    → PointRead sign (d ∷ ds) places (split_point (digit_text (d ∷ ds)) (suc places))
among-PointRead sign d ds places k s l h =
    let t = digit_text (d ∷ ds) in
    let (m, numeral) = among-Numeral d ds k s in
    rw (split_point-among t (suc places) l, h)
      (point-Read sign m (take (suc k) t) (drop (suc k) t) places (d ∷ ds) numeral
        (AllDigits-drop (suc k) t (AllDigits-digit_text (d ∷ ds) s.1))
        (omega (arith, length-drop (suc k) t, h))
        (ap (λ x. stripped (digit_values x)) (take-drop (suc k) t)
          ∙ ap stripped (digit_values-digit_text (d ∷ ds))
          ∙ stripped-id (d ∷ ds) s))

above : (n places : ℕ) → leb n places ≡ false → (k : ℕ) × (n - places ≡ suc k)
above n places h = (n - places - 1, ground arith)

split_point-Read :
    (sign : Bool) (ds : List ℕ) (places : ℕ)
    → Significant ds
    → (last_or 0 ds == 0) ≡ false
    → PointRead sign ds places (split_point (digit_text ds) (suc places))
unfolding ℕ_discrete
split_point-Read sign [] places s h = cc h
split_point-Read sign (d ∷ ds) places s h =
    elim (Bool-cases (leb (length (digit_text (d ∷ ds))) (suc places))) [
      | inl l ↦ zeros-PointRead sign d ds places s l
      | inr l ↦
          let (k, hk) = above (length (digit_text (d ∷ ds))) (suc places) l in
          among-PointRead sign d ds places k s l hk
    ]

format_exponent-shown :
    (sign : Bool) (ds : List ℕ) (n : ℕ) (shown : Text)
    → format_exponent
        (finite (negsuc n))
        (record { sign = sign; digits = ds; exponent = finite (negsuc n) })
      ≡ ok shown
    → ((last_or 0 ds == 0) ≡ false)
      × (shown ≡ (if sign then codes "-" else []) ++ split_point (digit_text ds) (suc n))
unfolding format_exponent
format_exponent-shown sign ds n shown h = elim (Bool-cases (last_or 0 ds == 0)) [
  | inl e ↦ cc (rw e at h)
  | inr e ↦ (e, sym (ok_inj _ shown (rw e at h)))
]

integer_part-minus : (cs : Text) → integer_part (b'-' ∷ cs) ≡ none
unfolding integer_part ℕ_discrete
integer_part-minus cs = refl

match_number-unsigned :
    (t : Text) (r : Json × Text)
    → unsigned false (integer_part t) ≡ some r
    → match_number t ≡ some r
unfolding match_number unsigned
match_number-unsigned [] r h = cc h
match_number-unsigned (c ∷ cs) r h = elim (Bool-cases (c == b'-')) [
  | inl e ↦ cc (h, (eq_iff c b'-').0 e, integer_part-minus cs)
  | inr e ↦ rw e h
]

signed-Read :
    (sign : Bool) (ds : List ℕ) (places : ℕ) (shown t : Text)
    → PointRead sign ds places shown
    → Ends t
    → match_number (((if sign then codes "-" else []) ++ shown) ++ t)
      ≡ some (decimal (record { sign = sign; digits = ds; exponent = finite (negsuc places) }), t)
signed-Read true ds places shown t h e = match_number-minus (shown ++ t) ∙ h t e
signed-Read false ds places shown t h e = match_number-unsigned (shown ++ t) _ (h t e)

exponent-Read :
    (sign : Bool) (ds : List ℕ) (x : Exponent) (shown t : Text)
    → Significant ds
    → format_exponent x (record { sign = sign; digits = ds; exponent = x }) ≡ ok shown
    → Ends t
    → match_number (shown ++ t)
      ≡ some (decimal (record { sign = sign; digits = ds; exponent = x }), t)
unfolding format_exponent
exponent-Read sign ds special shown t s h e = cc h
exponent-Read sign ds (finite (pos n)) shown t s h e = cc h
exponent-Read sign ds (finite (negsuc n)) shown t s h e =
    let (l, r) = format_exponent-shown sign ds n shown h in
    rw r (
      signed-Read sign ds n (split_point (digit_text ds) (suc n)) t (split_point-Read sign ds n s l)
        e)

pub match_number-format_decimal :
    (d : Decimal) (shown t : Text)
    → Significant d.digits
    → format_decimal d ≡ ok shown
    → Ends t
    → match_number (shown ++ t) ≡ some (decimal d, t)
unfolding format_decimal
match_number-format_decimal d shown t s h e = exponent-Read d.sign d.digits d.exponent shown t s h e
