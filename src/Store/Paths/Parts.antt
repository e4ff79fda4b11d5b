-- ===== src/Store/Paths/Parts.antt =====
-- The parts of a path that `_safe_relative_path` accepts, and its agreement with `_component`.
use temper_ml.Base.{
  if◌then◌else◌, ◌==◌, nat_eq, list_eq, Bool-cases, or-split, ok_inj, unless-ok, ok, any, All,
  contains, Text, codes, join, ℕ, ◌≡◌, refl, sym, ap, ◌∙◌, subst, ◌↔◌, inl, inr, Bool, false, ◌||◌,
  List, [], ◌∷◌, map, arith,
}
use temper_ml.Store.Paths.{
  is_windows_reserved, is_control, ends_loosely, is_not_portable, is_traversal, is_slash,
  starts_with_slash, push_char, parts_of, safe_relative_path, component, invalid_component,
  absolute_path, path_traversal, not_portable,
}

-- A part that stays in its directory, and that every system takes for one name.
abbrev pub SafePart : Text → Type 0
SafePart p = (any is_slash p ≡ false) × ((is_traversal p ≡ false) × (is_not_portable p ≡ false))

any-All : {A : Type 0} (p : A → Bool) (xs : List A) → any p xs ≡ false → All (λ x. p x ≡ false) xs
unfolding any
any-All p [] h = tt
any-All p (x ∷ xs) h = ground (arith, h, any-All p xs)

parts_of-plain : (t : Text) → any is_slash t ≡ false → parts_of t ≡ t ∷ []
unfolding any parts_of push_char
parts_of-plain [] h = refl
parts_of-plain (c ∷ cs) h =
    let b = or-split (is_slash c) (any is_slash cs) h in rw (b.0, parts_of-plain cs b.1) refl

push_char-All :
    (c : ℕ) (ts : List Text)
    → is_slash c ≡ false
    → All (λ p. any is_slash p ≡ false) ts
    → All (λ p. any is_slash p ≡ false) (push_char c ts)
unfolding push_char any
push_char-All c [] h a = (rw h refl, tt)
push_char-All c (t ∷ ts) h a = (rw (h, a.0) refl, a.1)

-- no part holds a slash
parts_of-All : (t : Text) → All (λ p. any is_slash p ≡ false) (parts_of t)
unfolding parts_of any
parts_of-All [] = (refl, tt)
parts_of-All (c ∷ cs) = elim (Bool-cases (is_slash c)) [
  | inl h ↦ rw h (refl, parts_of-All cs)
  | inr h ↦ rw h (push_char-All c (parts_of cs) h (parts_of-All cs))
]

together :
    (ps : List Text)
    → All (λ p. any is_slash p ≡ false) ps
    → All (λ p. is_traversal p ≡ false) ps
    → All (λ p. is_not_portable p ≡ false) ps
    → All SafePart ps
together [] a b c = tt
together (p ∷ ps) a b c = ((a.0, (b.0, c.0)), together ps a.1 b.1 c.1)

-- slashes of both kinds as one
abbrev pub unified : ℕ → ℕ
unified c = if is_slash c then b'/' else c

join-push_char :
    (c : ℕ) (ts : List Text) (t : Text)
    → join (codes "/") (push_char c (t ∷ ts)) ≡ c ∷ join (codes "/") (t ∷ ts)
unfolding join push_char
join-push_char c [] t = refl
join-push_char c (u ∷ ts) t = refl

parts_of-first : (t : Text) → (p : Text) × ((ps : List Text) × (parts_of t ≡ p ∷ ps))
unfolding parts_of push_char
parts_of-first [] = ([], ([], refl))
parts_of-first (c ∷ cs) = elim (Bool-cases (is_slash c)) [
  | inl h ↦ ([], (parts_of cs, rw h refl))
  | inr h ↦ let (p, (ps, e)) = parts_of-first cs in (c ∷ p, (ps, rw (h, e) refl))
]

join-parts_of : (t : Text) → join (codes "/") (parts_of t) ≡ map unified t
unfolding parts_of join
join-parts_of [] = refl
join-parts_of (c ∷ cs) =
    let (p, (ps, e)) = parts_of-first cs in
    let later : join (codes "/") (p ∷ ps) ≡ map unified cs =
      subst (λ x. join (codes "/") x ≡ map unified cs) e (join-parts_of cs) in
    elim (Bool-cases (is_slash c)) [
      | inl h ↦ rw (h, e) (ap (λ x. b'/' ∷ x) later)
      | inr h ↦ rw (h, e) (join-push_char c ps p ∙ ap (λ x. c ∷ x) later)
    ]

slashes-any :
    (t : Text) → contains b'/' t ≡ false → contains b'\\' t ≡ false → any is_slash t ≡ false
unfolding contains any is_slash
slashes-any [] h k = refl
slashes-any (c ∷ cs) h k =
    let a = or-split (c == b'/') (contains b'/' cs) h in
    let b = or-split (c == b'\\') (contains b'\\' cs) k in
    rw (a.0, b.0, slashes-any cs a.1 b.1) refl

any-slashes :
    (t : Text) → any is_slash t ≡ false → (contains b'/' t ≡ false) × (contains b'\\' t ≡ false)
unfolding contains any is_slash
any-slashes [] h = (refl, refl)
any-slashes (c ∷ cs) h =
    let a = or-split (is_slash c) (any is_slash cs) h in
    let b = or-split (c == b'/') (c == b'\\') a.0 in
    let later = any-slashes cs a.1 in (rw (b.0, later.0) refl, rw (b.1, later.1) refl)

starts-any : (t : Text) → any is_slash t ≡ false → starts_with_slash t ≡ false
unfolding any starts_with_slash
starts-any [] h = refl
starts-any (c ∷ cs) h = (or-split (is_slash c) (any is_slash cs) h).0

safe_relative_path-lem :
    (t : Text) (ps : List Text)
    → safe_relative_path t ≡ ok ps
    → (contains b':' t ≡ false)
      × ((any is_traversal (parts_of t) ≡ false)
          × ((any is_not_portable (parts_of t) ≡ false) × (ps ≡ parts_of t)))
unfolding safe_relative_path
safe_relative_path-lem t ps h =
    let a = unless-ok (starts_with_slash t || contains b':' t) absolute_path _ ps h in
    let b = unless-ok (any is_traversal (parts_of t)) path_traversal _ ps a.1 in
    let c = unless-ok (any is_not_portable (parts_of t)) not_portable _ ps b.1 in
    (
      (or-split (starts_with_slash t) (contains b':' t) a.0).1,
      (b.0, (c.0, sym (ok_inj (parts_of t) ps c.1))),
    )

-- A path that is accepted has parts that stay in their directory, without a slash, and they are
-- what stands between the slashes of the text, of which a backslash is one.
pub safe_relative_path-SafePart :
    (t : Text) (ps : List Text)
    → safe_relative_path t ≡ ok ps
    → All SafePart ps × (join (codes "/") ps ≡ map unified t)
safe_relative_path-SafePart t ps h =
    let w = safe_relative_path-lem t ps h in
    rw w.1.1.1 (
      together (parts_of t) (parts_of-All t) (any-All is_traversal (parts_of t) w.1.0)
          (any-All is_not_portable (parts_of t) w.1.1.0),
      join-parts_of t,
    )

-- what both of the checks ask of a single name
Name : Text → Type 0
Name t =
    (is_traversal t ≡ false)
    × ((any is_slash t ≡ false) × ((contains b':' t ≡ false) × (is_not_portable t ≡ false)))

component-Name : (t c : Text) → component t ≡ ok c → Name t
unfolding component is_not_portable Name
component-Name t c h =
    let a = unless-ok (is_traversal t) invalid_component _ c h in
    let b =
      unless-ok (contains b'/' t || contains b'\\' t || contains b':' t) invalid_component _ c
        a.1 in
    let d = unless-ok (any is_control t) invalid_component _ c b.1 in
    let e = unless-ok (ends_loosely t || is_windows_reserved t) not_portable _ c d.1 in
    let colon = or-split (contains b'/' t || contains b'\\' t) (contains b':' t) b.0 in
    let slash = or-split (contains b'/' t) (contains b'\\' t) colon.0 in
    let f = or-split (ends_loosely t) (is_windows_reserved t) e.0 in
    (a.0, (slashes-any t slash.0 slash.1, (colon.1, rw (d.0, f.0, f.1) refl)))

Name-component : (t : Text) → Name t → component t ≡ ok t
unfolding component is_not_portable Name
Name-component t n =
    let s = any-slashes t n.1.0 in
    let a = or-split (any is_control t || ends_loosely t) (is_windows_reserved t) n.1.1.1 in
    let b = or-split (any is_control t) (ends_loosely t) a.0 in
    rw (n.0, s.0, s.1, n.1.1.0, b.0, b.1, a.1) refl

Name-safe_relative_path : (t : Text) → Name t → safe_relative_path t ≡ ok (t ∷ [])
unfolding safe_relative_path any Name
Name-safe_relative_path t n =
    rw (starts-any t n.1.0, n.1.1.0, parts_of-plain t n.1.0, n.0, n.1.1.1) refl

safe_relative_path-Name : (t : Text) → safe_relative_path t ≡ ok (t ∷ []) → Name t
unfolding Name
safe_relative_path-Name t h =
    let w = safe_relative_path-lem t (t ∷ []) h in
    let safe = (safe_relative_path-SafePart t (t ∷ []) h).0.0 in
    (safe.1.0, (safe.0, (w.0, safe.1.1)))

-- A text is a component of the store's layout exactly when it is, by itself, a safe relative path.
pub component-safe_relative_path :
    (t : Text) → (component t ≡ ok t) ↔ (safe_relative_path t ≡ ok (t ∷ []))
component-safe_relative_path t = (
  λ h. Name-safe_relative_path t (component-Name t t h),
  λ h. Name-component t (safe_relative_path-Name t h),
)
