-- ===== src/Store/Scanner/Quoted.antt =====
-- The strings that `json.dumps` writes, read by `scan_string`.
use temper_ml.Base.{
  ltb, ◌==◌, nat_eq, eq_iff, Bool-cases, All, Text, codes, ℕ, ◌+◌, ◌*◌, ◌/◌, ◌%◌, ◌<◌, ◌≡◌, refl,
  sym, ap, ◌∙◌, subst, inl, inr, true, false, ◌&&◌, some, append_assoc, [], ◌∷◌, ◌++◌, arith,
  ℕ_discrete,
}
use temper_ml.Store.Canonical.{hex_digit, escape_char, escape_text, is_encodable}
use temper_ml.Store.Scanner.Strings.{
  escape_of, hex_value, hex_move, move, prepend, next_place, after_move, scan_units, is_high,
  is_low, pair_from, pair_surrogates, paired, scan_string, Place, plain, escaped, hex, read, emit,
}

hex_value-hex_digit : (n : ℕ) → n < 16 → hex_value (hex_digit n) ≡ some n
unfolding hex_value hex_digit
hex_value-hex_digit n h = ground arith

-- one move that reads, one that emits
scan_units-read :
    (p q : Place) (c : ℕ) (t : Text) → move p c ≡ read q → scan_units p (c ∷ t) ≡ scan_units q t
unfolding scan_units next_place after_move
scan_units-read p q c t h = rw h

scan_units-emit :
    (p : Place) (c d : ℕ) (t : Text)
    → move p c ≡ emit d
    → scan_units p (c ∷ t) ≡ prepend d (scan_units plain t)
unfolding scan_units next_place after_move
scan_units-emit p c d t h = rw h

move-hex :
    (left acc n : ℕ) → n < 16 → move (hex left acc) (hex_digit n) ≡ hex_move left acc (some n)
unfolding move
move-hex left acc n h = rw (hex_value-hex_digit n h)

abbrev EscapeRead : ℕ → Type 0
EscapeRead c = (t : Text) → scan_units plain (escape_char c ++ t) ≡ prepend c (scan_units plain t)

-- the escapes by a letter
escape-Read : (c e : ℕ) → escape_char c ≡ b'\\' ∷ e ∷ [] → move escaped e ≡ emit c → EscapeRead c
unfolding move ℕ_discrete
escape-Read c e h m t =
    rw h (scan_units-read plain escaped b'\\' (e ∷ t) refl ∙ scan_units-emit escaped e c t m)

literal-Read : (c : ℕ) → escape_char c ≡ c ∷ [] → move plain c ≡ emit c → EscapeRead c
literal-Read c h m t = rw h (scan_units-emit plain c c t m)

control-Read :
    (c : ℕ)
    → c < 32
    → escape_char c ≡ codes "\\u00" ++ (hex_digit (c / 16) ∷ hex_digit (c % 16) ∷ [])
    → EscapeRead c
unfolding move escape_of hex_move hex_value ℕ_discrete
control-Read c l h t = rw h (
    scan_units-read plain escaped b'\\' _ refl
    ∙ scan_units-read escaped (hex 4 0) b'u' _ refl
    ∙ scan_units-read (hex 4 0) (hex 3 0) b'0' _ refl
    ∙ scan_units-read (hex 3 0) (hex 2 0) b'0' _ refl
    ∙ scan_units-read (hex 2 0) (hex 1 (0 * 16 + c / 16)) (hex_digit (c / 16)) _
        (move-hex 2 0 (c / 16) (omega (arith, l)))
    ∙ scan_units-emit (hex 1 (0 * 16 + c / 16)) (hex_digit (c % 16)) c t
        (move-hex 1 (0 * 16 + c / 16) (c % 16) (omega arith) ∙ ap emit (omega arith)))

-- a character that a test has found
known : (c k : ℕ) → (c == k) ≡ true → EscapeRead k → EscapeRead c
known c k h r = subst EscapeRead (sym ((eq_iff c k).0 h)) r

letter-Read :
    (k e : ℕ)
    → escape_char k ≡ b'\\' ∷ e ∷ []
    → move escaped e ≡ emit k
    → (c : ℕ) → (c == k) ≡ true
    → EscapeRead c
letter-Read k e h m c q = known c k q (escape-Read k e h m)

escape_char-literal :
    (c : ℕ) → (c == b'"') ≡ false → (c == b'\\') ≡ false → ltb c 32 ≡ false → escape_char c ≡ c ∷ []
unfolding escape_char
escape_char-literal c q b l = ground arith

escape_control-Read :
    (c : ℕ) → (c == b'"') ≡ false → (c == b'\\') ≡ false → ltb c 32 ≡ true → EscapeRead c
unfolding escape_char move escape_of ℕ_discrete
escape_control-Read c q b l = elim (Bool-cases (c == 8)) [
  | inl e ↦ letter-Read 8 b'b' refl refl c e
  | inr e8 ↦ elim (Bool-cases (c == 9)) [
    | inl e ↦ letter-Read 9 b't' refl refl c e
    | inr e9 ↦ elim (Bool-cases (c == 10)) [
      | inl e ↦ letter-Read 10 b'n' refl refl c e
      | inr e10 ↦ elim (Bool-cases (c == 12)) [
        | inl e ↦ letter-Read 12 b'f' refl refl c e
        | inr e12 ↦ elim (Bool-cases (c == 13)) [
          | inl e ↦ letter-Read 13 b'r' refl refl c e
          | inr e13 ↦ control-Read c (ground arith) (rw (q, b, e8, e9, e10, e12, e13, l))
        ]
      ]
    ]
  ]
]

escape_char-Read : (c : ℕ) → EscapeRead c
unfolding escape_char move escape_of ℕ_discrete
escape_char-Read c = elim (Bool-cases (c == b'"')) [
  | inl q ↦ letter-Read b'"' b'"' refl refl c q
  | inr q ↦ elim (Bool-cases (c == b'\\')) [
    | inl b ↦ letter-Read b'\\' b'\\' refl refl c b
    | inr b ↦ elim (Bool-cases (ltb c 32)) [
      | inl l ↦ escape_control-Read c q b l
      | inr l ↦ literal-Read c (escape_char-literal c q b l) (rw (q, l, b))
    ]
  ]
]

scan_close : (rest : Text) → scan_units plain (b'"' ∷ rest) ≡ some ([], rest)
unfolding scan_units move after_move ℕ_discrete
scan_close rest = refl

escape_text-Read :
    (t rest : Text) → scan_units plain (escape_text t ++ b'"' ∷ rest) ≡ some (t, rest)
unfolding escape_text prepend
escape_text-Read [] rest = scan_close rest
escape_text-Read (c ∷ cs) rest = rw (
  append_assoc (escape_char c) (escape_text cs) (b'"' ∷ rest),
  escape_char-Read c (escape_text cs ++ b'"' ∷ rest),
  escape_text-Read cs rest,
)

not_paired : (c d : ℕ) → is_encodable c ≡ true → (is_high c && is_low d) ≡ false
unfolding is_encodable is_high
not_paired c d h = ground arith

pair_from-id :
    (c : ℕ) (t : Text)
    → is_encodable c ≡ true
    → All (λ d. is_encodable d ≡ true) t
    → pair_from c t ≡ c ∷ t
unfolding pair_from
pair_from-id c [] h a = refl
pair_from-id c (d ∷ ds) h a = rw (not_paired c d h, pair_from-id d ds a.0 a.1)

pair_surrogates-id : (t : Text) → All (λ c. is_encodable c ≡ true) t → pair_surrogates t ≡ t
unfolding pair_surrogates
pair_surrogates-id [] a = refl
pair_surrogates-id (c ∷ cs) a = pair_from-id c cs a.0 a.1

pub scan_string-escape_text :
    (t rest : Text)
    → All (λ c. is_encodable c ≡ true) t
    → scan_string (escape_text t ++ b'"' ∷ rest) ≡ some (t, rest)
unfolding scan_string paired
scan_string-escape_text t rest a = rw (escape_text-Read t rest, pair_surrogates-id t a)
