-- ===== src/Store/EventStream/Names.antt =====
-- The names of event files: what is read of a name, and their order.
use temper_ml.Base.{
  ltb, leb, ◌==◌, nat_eq, List-discrete, list_eq, eq_iff, Bool-cases, and-split, when-some, length,
  length-append, all, take, drop, replicate, Text, codes, text_lt, ℕ, zero, suc, ◌+◌, ◌-◌, ◌*◌, ◌<◌,
  ◌≡◌, refl, sym, ap, ◌∙◌, subst, inl, inr, true, false, some, List, [], ◌∷◌, ◌++◌, arith,
  ℕ_discrete,
}
use temper_ml.Store.Canonical.{show_ℕ}
use temper_ml.Store.Scanner.Numbers.{is_digit, number_of}
use temper_ml.Store.Scanner.Numerals.{AllDigits, show_ℕ-Numeral}
use temper_ml.Store.Scanner.Decimals.{take-drop, AllDigits-zeros, length-zeros}
use temper_ml.Domain.Projections.{is_sha256_hex}
use temper_ml.Store.EventStream.{
  padded, event_name, match_event_name, is_temp_name, has_json_suffix, lock_name,
}

suc-zero : (n : ℕ) → suc n ≡ 0 → ⊥
suc-zero n h = omega (arith, h)

lt_self : (n : ℕ) → n < n → ⊥
lt_self n h = omega (arith, h)

lt-both : (m n : ℕ) → m < n → n < m → ⊥
lt-both m n h l = omega (arith, h, l)

neither-lt : (d e : ℕ) → ltb d e ≡ false → ltb e d ≡ false → e ≡ d
neither-lt d e h l = ground (arith, h, l)

-- Lists cut where they were joined.
module _ {ℓ} {A : Type ℓ} where
  take-joined : (n : ℕ) (p q : List A) → length p ≡ n → take n (p ++ q) ≡ p
  take-joined zero [] q h = refl
  take-joined zero (x ∷ xs) q h = elim (suc-zero (length xs) h) [ ]
  take-joined (suc n) [] q h = elim (suc-zero n (sym h)) [ ]
  take-joined (suc n) (x ∷ xs) q h = ap (λ ys. x ∷ ys) (take-joined n xs q (omega (arith, h)))

  drop-joined : (n : ℕ) (p q : List A) → length p ≡ n → drop n (p ++ q) ≡ q
  drop-joined zero [] q h = refl
  drop-joined zero (x ∷ xs) q h = elim (suc-zero (length xs) h) [ ]
  drop-joined (suc n) [] q h = elim (suc-zero n (sym h)) [ ]
  drop-joined (suc n) (x ∷ xs) q h = drop-joined n xs q (omega (arith, h))

  drop-nil : (n : ℕ) → drop {A = A} n [] ≡ []
  drop-nil zero = refl
  drop-nil (suc n) = refl

  drop-drop : (m n k : ℕ) (xs : List A) → k ≡ n + m → drop m (drop n xs) ≡ drop k xs
  drop-drop m zero k xs h = ap (λ j. drop j xs) (omega (arith, h))
  drop-drop m (suc n) k [] h = drop-nil m ∙ sym (drop-nil k)
  drop-drop m (suc n) zero (x ∷ xs) h = elim (suc-zero (n + m) (omega (arith, h))) [ ]
  drop-drop m (suc n) (suc k) (x ∷ xs) h = drop-drop m n k xs (omega (arith, h))

all-AllDigits : (t : Text) → AllDigits t → all is_digit t ≡ true
unfolding all
all-AllDigits [] a = refl
all-AllDigits (c ∷ cs) a = rw (a.0, all-AllDigits cs a.1)

AllDigits-all : (t : Text) → all is_digit t ≡ true → AllDigits t
unfolding all
AllDigits-all [] h = tt
AllDigits-all (c ∷ cs) h = ground (arith, h, AllDigits-all cs)

number_of-zeros : (n : ℕ) (t : Text) → number_of 0 (replicate n b'0' ++ t) ≡ number_of 0 t
unfolding number_of
number_of-zeros zero t = refl
number_of-zeros (suc n) t = number_of-zeros n t

-- A number with at most 20 digits.
abbrev pub Numbered : ℕ → Type 0
Numbered n = leb (length (show_ℕ n)) 20 ≡ true

length-padded : (n : ℕ) → Numbered n → length (padded n) ≡ 20
unfolding padded
length-padded n h = length-zeros (show_ℕ n) 20 h

padded-AllDigits : (n : ℕ) → AllDigits (padded n)
unfolding padded
padded-AllDigits n = AllDigits-zeros (20 - length (show_ℕ n)) (show_ℕ n) (show_ℕ-Numeral n).1.0

number_of-padded : (n : ℕ) → number_of 0 (padded n) ≡ n
unfolding padded
number_of-padded n = number_of-zeros (20 - length (show_ℕ n)) (show_ℕ n) ∙ (show_ℕ-Numeral n).0

-- Of two numerals of one length, the one of the smaller number comes first.
number_of_mono :
    (a b : ℕ) (ds es : Text)
    → length ds ≡ length es
    → AllDigits ds
    → AllDigits es
    → a < b
    → number_of a ds < number_of b es
unfolding number_of
number_of_mono a b [] [] l p q h = h
number_of_mono a b [] (e ∷ es) l p q h = elim (suc-zero (length es) (sym l)) [ ]
number_of_mono a b (d ∷ ds) [] l p q h = elim (suc-zero (length ds) l) [ ]
number_of_mono a b (d ∷ ds) (e ∷ es) l p q h =
    number_of_mono (a * 10 + (d - b'0')) (b * 10 + (e - b'0')) ds es (omega (arith, l)) p.1 q.1
      (ground (arith, p.0, q.0, h))

text_lt-number_of :
    (a : ℕ) (ds es s t : Text)
    → length ds ≡ length es
    → AllDigits ds
    → AllDigits es
    → number_of a ds < number_of a es
    → text_lt (ds ++ s) (es ++ t) ≡ true
unfolding number_of text_lt
text_lt-number_of a [] [] s t l p q h = elim (lt_self (number_of a []) h) [ ]
text_lt-number_of a [] (e ∷ es) s t l p q h = elim (suc-zero (length es) (sym l)) [ ]
text_lt-number_of a (d ∷ ds) [] s t l p q h = elim (suc-zero (length ds) l) [ ]
text_lt-number_of a (d ∷ ds) (e ∷ es) s t l p q h = elim (Bool-cases (ltb d e)) [
  | inl y ↦ rw y refl
  | inr y ↦ elim (Bool-cases (ltb e d)) [
    | inl z ↦
        elim (lt-both _ _ h (
          number_of_mono (a * 10 + (e - b'0')) (a * 10 + (d - b'0')) es ds (omega (arith, l)) q.1
            p.1 (ground (arith, p.0, q.0, z)))) [ ]
    | inr z ↦
        rw (y, z)
          (text_lt-number_of (a * 10 + (d - b'0')) ds es s t (omega (arith, l)) p.1 q.1 (
            subst (λ x. number_of (a * 10 + (d - b'0')) ds < number_of (a * 10 + (x - b'0')) es)
              (neither-lt d e y z) h))
  ]
]

DigitFirst : Text → Type 0
DigitFirst [] = ⊥
DigitFirst (c ∷ cs) = is_digit c ≡ true

DigitFirst-append : (p q : Text) (n : ℕ) → length p ≡ suc n → AllDigits p → DigitFirst (p ++ q)
unfolding DigitFirst
DigitFirst-append [] q n l a = elim (suc-zero n (sym l)) [ ]
DigitFirst-append (c ∷ cs) q n l a = a.0

no_dot : (t : Text) → DigitFirst t → (take 1 t == codes ".") ≡ false
unfolding DigitFirst
no_dot [] d = elim d [ ]
no_dot (c ∷ cs) d = ground (arith, d)

no_lock : (t : Text) → DigitFirst t → (t == lock_name) ≡ false
unfolding DigitFirst
no_lock [] d = elim d [ ]
no_lock (c ∷ cs) d = ground (arith, d)

sha256_hex-length : (t : Text) → is_sha256_hex t ≡ true → length t ≡ 64
unfolding is_sha256_hex
sha256_hex-length t h = ground (arith, h)

module _ (n : ℕ) (value : Text) (h : Numbered n) (v : is_sha256_hex value ≡ true) where
  name_digits : take 20 (event_name n value) ≡ padded n
  unfolding event_name
  name_digits = take-joined 20 (padded n) (b'-' ∷ (value ++ codes ".json")) (length-padded n h)

  name_rest : drop 20 (event_name n value) ≡ b'-' ∷ (value ++ codes ".json")
  unfolding event_name
  name_rest = drop-joined 20 (padded n) (b'-' ∷ (value ++ codes ".json")) (length-padded n h)

  name_value : drop 21 (event_name n value) ≡ value ++ codes ".json"
  name_value = sym (drop-drop 1 20 21 (event_name n value) refl) ∙ ap (drop 1) name_rest

  name_suffix : drop 85 (event_name n value) ≡ codes ".json"
  name_suffix =
      sym (drop-drop 64 21 85 (event_name n value) refl)
      ∙ ap (drop 64) name_value
      ∙ drop-joined 64 value (codes ".json") (sha256_hex-length value v)

  pub match_event_name-event_name : match_event_name (event_name n value) ≡ some (n, value)
  unfolding match_event_name ℕ_discrete List-discrete
  match_event_name-event_name =
      rw
        (
          name_digits,
          name_rest,
          name_value,
          name_suffix,
          all-AllDigits (padded n) (padded-AllDigits n),
          length-padded n h,
          take-joined 64 value (codes ".json") (sha256_hex-length value v),
          v,
          number_of-padded n,
        )
        refl

  length_name : length (event_name n value) ≡ 90
  unfolding event_name
  length_name = omega (
    arith,
    length-append (padded n) (b'-' ∷ (value ++ codes ".json")),
    length-padded n h,
    length-append value (codes ".json"),
    sha256_hex-length value v,
  )

  pub has_json_suffix-event_name : has_json_suffix (event_name n value) ≡ true
  unfolding has_json_suffix ℕ_discrete List-discrete
  has_json_suffix-event_name = rw (length_name, name_suffix) refl

  first : DigitFirst (event_name n value)
  unfolding event_name
  first =
      DigitFirst-append (padded n) (b'-' ∷ (value ++ codes ".json")) 19 (length-padded n h)
        (padded-AllDigits n)

  pub is_temp_name-event_name : is_temp_name (event_name n value) ≡ false
  unfolding is_temp_name
  is_temp_name-event_name = rw (no_dot (event_name n value) first) refl

  pub not_lock_name : (event_name n value == lock_name) ≡ false
  not_lock_name = no_lock (event_name n value) first

-- What a name that is matched starts with.
digits_first :
    (t : Text) (m : ℕ) (value : Text)
    → match_event_name t ≡ some (m, value)
    → AllDigits (take 20 t) × ((length (take 20 t) ≡ 20) × (number_of 0 (take 20 t) ≡ m))
unfolding match_event_name
digits_first t m value h =
    let w = when-some _ _ _ h in
    let a = and-split (all is_digit (take 20 t)) _ w.0 in
    let b = and-split (length (take 20 t) == 20) _ a.1 in
    (AllDigits-all (take 20 t) a.0, ((eq_iff (length (take 20 t)) 20).0 b.0, ap (λ p. p.0) w.1))

pub text_lt-event_name :
    (t : Text) (m n : ℕ) (old value : Text)
    → match_event_name t ≡ some (m, old)
    → m < n
    → Numbered n
    → text_lt t (event_name n value) ≡ true
unfolding event_name
text_lt-event_name t m n old value h l k =
    let d = digits_first t m old h in
    subst (λ x. text_lt x (event_name n value) ≡ true) (take-drop 20 t)
      (text_lt-number_of 0 (take 20 t) (padded n) (drop 20 t) (b'-' ∷ (value ++ codes ".json"))
        (d.1.0 ∙ sym (length-padded n k)) d.0 (padded-AllDigits n)
        (omega (arith, d.1.1, number_of-padded n, l)))
