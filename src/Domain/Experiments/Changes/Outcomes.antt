-- ===== src/Domain/Experiments/Changes/Outcomes.antt =====
-- What a change holds, once its constructor has returned, and what equal canonical texts say.
use temper_ml.Base.{
  ◌==◌, nat_eq, list_eq, eq_iff, eq_refl, ◌>>=◌, unbind, ok_inj, ok, Text, ℕ, ◌≡◌, refl, sym, ap,
  ◌∙◌, true, none, some, List, [], ◌∷◌, ◌++◌, arith,
}
use temper_ml.Store.Json.{Json}
use temper_ml.Store.Canonical.{encode, dumps_canonical_json}
use temper_ml.Domain.Experiments.Changes.{
  adds, removes, replaces, canonical_text, canonical_equal, frozen_edit, edit_of, make_change, add,
  remove, replace, ManifestChange,
}
use temper_ml.Domain.Experiments.Coverage.{HasText}

snoc_inj : (x : ℕ) (s t : List ℕ) → s ++ x ∷ [] ≡ t ++ x ∷ [] → s ≡ t
snoc_inj x [] [] h = refl
snoc_inj x [] (b ∷ []) h = absurd (cc h)
snoc_inj x [] (b ∷ c ∷ t) h = absurd (cc h)
snoc_inj x (a ∷ []) [] h = absurd (cc h)
snoc_inj x (a ∷ c ∷ s) [] h = absurd (cc h)
snoc_inj x (a ∷ s) (b ∷ t) h = let q : s ≡ t = snoc_inj x s t (cc h) in cc (h, q)

HasText-of_text : (v : Json) (t : Text) → canonical_text v ≡ ok t → HasText v
unfolding canonical_equal
HasText-of_text v t h = rw h (rw (eq_refl t) refl)

-- the text that a value with a canonical text has before the last newline
encode-of_dumps :
    (v : Json) (t : Text)
    → canonical_text v ≡ ok t
    → (s : Text) × ((encode v ≡ ok s) × (t ≡ s ++ 10 ∷ []))
unfolding canonical_text dumps_canonical_json
encode-of_dumps v t h = ground arith

pub encode-of_equal : (p d : Json) → canonical_equal p d ≡ ok true → encode p ≡ encode d
unfolding canonical_equal
encode-of_equal p d h =
    let (s, (ps, h')) =
      unbind (λ s. canonical_text d >>= λ t. ok (s == t)) true (canonical_text p) h in
    let (t, (pt, same)) = unbind (λ t. ok (s == t)) true (canonical_text d) h' in
    let (x, (px, sx)) = encode-of_dumps p s ps in
    let (y, (py, ty)) = encode-of_dumps d t pt in
    let equal : s ≡ t = (eq_iff s t).0 (ok_inj (s == t) true same) in
    let q : x ≡ y = snoc_inj 10 x y (sym sx ∙ equal ∙ ty) in px ∙ ap ok q ∙ sym py

pub make_change-add :
    (path : Text) (w : Json) (c : ManifestChange)
    → make_change path add none (some w) ≡ ok c
    → c ≡ record { path = path; edit = adds w }
unfolding make_change frozen_edit edit_of
make_change-add path w c h = ground arith

pub make_change-remove :
    (path : Text) (v : Json) (c : ManifestChange)
    → make_change path remove (some v) none ≡ ok c
    → (c ≡ record { path = path; edit = removes v }) × HasText v
unfolding make_change frozen_edit edit_of
make_change-remove path v c h = ground arith

pub make_change-replace :
    (path : Text) (p d : Json) (c : ManifestChange)
    → make_change path replace (some p) (some d) ≡ ok c
    → (c ≡ record { path = path; edit = replaces p d }) × HasText p
unfolding make_change frozen_edit edit_of
make_change-replace path p d c h = ground arith
