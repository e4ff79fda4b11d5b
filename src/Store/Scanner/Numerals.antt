-- ===== src/Store/Scanner/Numerals.antt =====
-- The numerals that `str` writes for a natural number, and how a scan of digits reads them.
use temper_ml.Base.{
  ltb, ◌==◌, nat_eq, Bool-cases, All, Text, ℕ, zero, suc, ◌+◌, ◌-◌, ◌*◌, ◌/◌, ◌%◌, ◌≤◌, ◌<◌, ◌≡◌,
  refl, sym, ◌∙◌, subst, ◌⊎◌, inl, inr, true, false, append_assoc, append-nil, [], ◌∷◌, ◌++◌, arith,
}
use temper_ml.Store.Canonical.{show_digits, show_ℕ}
use temper_ml.Store.Scanner.Numbers.{is_digit, digits_of, number_of}

abbrev pub AllDigits : Text → Type 0
AllDigits ds = All (λ c. is_digit c ≡ true) ds

-- no digit comes first
abbrev pub Stops : Text → Type 0
Stops [] = Unit
Stops (c ∷ cs) = is_digit c ≡ false

pub digits_of-append : (ds t : Text) → AllDigits ds → Stops t → digits_of (ds ++ t) ≡ (ds, t)
unfolding digits_of
digits_of-append [] [] a s = refl
digits_of-append [] (c ∷ cs) a s = rw s
digits_of-append (d ∷ ds) t a s = rw (digits_of-append ds t a.1 s, a.0)

number_of-snoc :
    (acc : ℕ) (ds : Text) (d : ℕ)
    → number_of acc (ds ++ d ∷ []) ≡ number_of acc ds * 10 + (d - b'0')
unfolding number_of
number_of-snoc acc [] d = refl
number_of-snoc acc (c ∷ cs) d = number_of-snoc (acc * 10 + (c - b'0')) cs d

-- no leading zero, except for the number 0
abbrev pub Leads : ℕ → Text → Type 0
Leads n [] = ⊥
Leads n (c ∷ cs) = ((c == b'0') ≡ false) ⊎ ((n ≡ 0) × (cs ≡ []))

abbrev pub Numeral : ℕ → Text → Type 0
Numeral n ds = (number_of 0 ds ≡ n) × (AllDigits ds × Leads n ds)

AllDigits-snoc : (ds : Text) (d : ℕ) → AllDigits ds → is_digit d ≡ true → AllDigits (ds ++ d ∷ [])
AllDigits-snoc [] d a h = (h, tt)
AllDigits-snoc (c ∷ cs) d a h = (a.0, AllDigits-snoc cs d a.1 h)

tenth-positive : (n : ℕ) → 10 ≤ n → n / 10 ≡ 0 → ⊥
tenth-positive n h e = omega (arith, h, e)

Leads-snoc : (n : ℕ) (ds : Text) (d : ℕ) → 10 ≤ n → Leads (n / 10) ds → Leads n (ds ++ d ∷ [])
Leads-snoc n [] d h l = elim l [ ]
Leads-snoc n (c ∷ cs) d h (inl l) = inl l
Leads-snoc n (c ∷ cs) d h (inr l) = elim (tenth-positive n h l.0) [ ]

Numeral-snoc :
    (n : ℕ) (ds : Text) → 10 ≤ n → Numeral (n / 10) ds → Numeral n (ds ++ (b'0' + n % 10) ∷ [])
Numeral-snoc n ds h (v, (a, l)) = (
  omega (arith, v, number_of-snoc 0 ds (b'0' + n % 10)),
  (AllDigits-snoc ds (b'0' + n % 10) a (ground arith), Leads-snoc n ds (b'0' + n % 10) h l),
)

Numeral-digit : (n : ℕ) → n < 10 → Numeral n ((b'0' + n) ∷ [])
unfolding number_of
Numeral-digit zero h = (refl, ((refl, tt), inr (refl, refl)))
Numeral-digit (suc n) h = (omega arith, ((ground arith, tt), inl (ground arith)))

lt-zero : (n : ℕ) → n < 0 → ⊥
lt-zero n h = omega (arith, h)

show_digits-Numeral :
    (fuel n : ℕ) (acc : Text)
    → n < fuel
    → (ds : Text) × ((show_digits fuel n acc ≡ ds ++ acc) × Numeral n ds)
unfolding show_digits
show_digits-Numeral zero n acc h = elim (lt-zero n h) [ ]
show_digits-Numeral (suc fuel) n acc h = elim (Bool-cases (ltb n 10)) [
  | inl e ↦ ((b'0' + n) ∷ [], (rw e, Numeral-digit n (ground arith)))
  | inr e ↦
      let (ds, (shown, numeral)) =
        show_digits-Numeral fuel (n / 10) ((b'0' + n % 10) ∷ acc) (ground arith) in
      (
        ds ++ (b'0' + n % 10) ∷ [],
        (
          rw (e, shown, append_assoc ds ((b'0' + n % 10) ∷ []) acc),
          Numeral-snoc n ds (ground arith) numeral,
        ),
      )
]

pub show_ℕ-Numeral : (n : ℕ) → Numeral n (show_ℕ n)
unfolding show_ℕ
show_ℕ-Numeral n =
    let (ds, (shown, numeral)) = show_digits-Numeral (suc n) n [] (omega arith) in
    subst (Numeral n) (sym (shown ∙ append-nil ds)) numeral
