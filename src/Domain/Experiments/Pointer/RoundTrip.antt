-- ===== src/Domain/Experiments/Pointer/RoundTrip.antt =====
-- A path names the keys that it was built from.
use temper_ml.Base.{
  if◌then◌else◌, ◌==◌, nat_eq, list_eq, eq_iff, eq_refl, Bool-cases, ◌>>=◌, ok, All, Text, codes, ℕ,
  ◌≡◌, refl, sym, ap, ◌∙◌, inl, inr, false, append_assoc, append-nil, List, [], ◌∷◌, ◌++◌, arith,
  ℕ_discrete,
}
use temper_ml.Domain.Experiments.Pointer.{
  replace_char, escape_pointer, split_on, decode_token, decode_all, parse_pointer, pointer,
}

-- what one character becomes
escape_char : ℕ → Text
escape_char x = if x == b'~' then codes "~0" else if x == b'/' then codes "~1" else x ∷ []

replace_char-append :
    (c : ℕ) (by xs ys : Text)
    → replace_char c by (xs ++ ys) ≡ replace_char c by xs ++ replace_char c by ys
unfolding replace_char
replace_char-append c by [] ys = refl
replace_char-append c by (x ∷ xs) ys = rw (replace_char-append c by xs ys) (
    sym
      (append_assoc (if x == c then by else x ∷ []) (replace_char c by xs) (replace_char c by ys)))

escape_one :
    (x : ℕ)
    → replace_char b'/' (codes "~1") (if x == b'~' then codes "~0" else x ∷ []) ≡ escape_char x
unfolding replace_char escape_char ℕ_discrete
escape_one x = elim (Bool-cases (x == b'~')) [ inl e ↦ rw e refl | inr e ↦ rw e (append-nil _) ]

escape_pointer-cons :
    (x : ℕ) (t : Text) → escape_pointer (x ∷ t) ≡ escape_char x ++ escape_pointer t
unfolding escape_pointer
escape_pointer-cons x t =
    replace_char-append b'/' (codes "~1") (if x == b'~' then codes "~0" else x ∷ [])
      (replace_char b'~' (codes "~0") t)
    ∙ ap (λ (u : Text). u ++ escape_pointer t) (escape_one x)

-- no character of the text is `c`
abbrev Free : ℕ → Text → Type 0
Free c t = All (λ (x : ℕ). (x == c) ≡ false) t

Free-append : (c : ℕ) (s t : Text) → Free c s → Free c t → Free c (s ++ t)
Free-append c [] t h k = k
Free-append c (x ∷ s) t h k = (h.0, Free-append c s t h.1 k)

escape_char-Free : (x : ℕ) → Free b'/' (escape_char x)
unfolding escape_char
escape_char-Free x = ground arith

escape_pointer-Free : (t : Text) → Free b'/' (escape_pointer t)
escape_pointer-Free [] = unfold escape_pointer replace_char in tt
escape_pointer-Free (x ∷ t) = rw (escape_pointer-cons x t) (
    Free-append b'/' (escape_char x) (escape_pointer t) (escape_char-Free x)
      (escape_pointer-Free t))

split_on-Free_end : (c : ℕ) (t : Text) → Free c t → split_on c t ≡ t ∷ []
unfolding split_on
split_on-Free_end c [] h = refl
split_on-Free_end c (x ∷ t) h = rw (h.0, split_on-Free_end c t h.1)

split_on-Free :
    (c : ℕ) (t rest : Text) → Free c t → split_on c (t ++ c ∷ rest) ≡ t ∷ split_on c rest
unfolding split_on
split_on-Free c [] rest h = rw (eq_refl c)
split_on-Free c (x ∷ t) rest h = rw (h.0, split_on-Free c t rest h.1)

decode_token-plain :
    (x : ℕ) (t : Text)
    → (x == b'~') ≡ false
    → decode_token (x ∷ t) ≡ (decode_token t >>= λ u. ok (x ∷ u))
unfolding decode_token
decode_token-plain x [] h = rw h
decode_token-plain x (y ∷ t) h = rw h

decode_token-escape_char :
    (x : ℕ) (t : Text) → decode_token (escape_char x ++ t) ≡ (decode_token t >>= λ u. ok (x ∷ u))
unfolding escape_char decode_token ℕ_discrete
decode_token-escape_char x t = elim (Bool-cases (x == b'~')) [
  | inl e ↦ rw (e, (eq_iff x b'~').0 e)
  | inr e ↦ elim (Bool-cases (x == b'/')) [
    | inl f ↦ rw (e, f, (eq_iff x b'/').0 f)
    | inr f ↦ rw (e, f) (decode_token-plain x t e)
  ]
]

decode_token-escape_pointer : (t : Text) → decode_token (escape_pointer t) ≡ ok t
decode_token-escape_pointer [] = unfold escape_pointer decode_token in refl
decode_token-escape_pointer (x ∷ t) = rw (
  escape_pointer-cons x t,
  decode_token-escape_char x (escape_pointer t),
  decode_token-escape_pointer t,
)

decode-pointer :
    (k : Text) (ks : List Text)
    → decode_all (split_on b'/' (escape_pointer k ++ pointer ks)) ≡ ok (k ∷ ks)
unfolding pointer decode_all
decode-pointer k [] = rw (
  append-nil (escape_pointer k),
  split_on-Free_end b'/' (escape_pointer k) (escape_pointer-Free k),
  decode_token-escape_pointer k,
)
decode-pointer k (j ∷ ks) = rw (
  split_on-Free b'/' (escape_pointer k) (escape_pointer j ++ pointer ks) (escape_pointer-Free k),
  decode_token-escape_pointer k,
  decode-pointer j ks,
)

-- Parsing a path that was built from keys gives back these keys, whatever characters they hold.
pub parse-pointer : (ks : List Text) → parse_pointer (pointer ks) ≡ ok ks
unfolding parse_pointer pointer ℕ_discrete
parse-pointer [] = refl
parse-pointer (k ∷ ks) = decode-pointer k ks
