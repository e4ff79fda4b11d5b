-- ===== src/Domain/Experiments/Changes/Splits.antt =====
-- The edits of an object put together: those of the keys that its parent has, and those of the keys
-- that it has not.
use mathlib.Core.List.Permᴰ
use mathlib.Core.List.{map-append}
use temper_ml.Base.{
  ◌==◌, nat_eq, list_eq, eq_iff, eq_refl, Bool-cases, Text, ◌≡◌, refl, sym, ap, ◌∙◌, subst, inl,
  inr, false, Option, none, some, append-nil, Permᴰ, List, [], ◌∷◌, ◌++◌, map,
}
use temper_ml.Store.Json.{get, Json, Fields}
use temper_ml.Domain.Experiments.Changes.{ManifestChange}
use temper_ml.Domain.Experiments.Changes.Placement.{placed, push, map-placed}
use temper_ml.Domain.Experiments.Edits.{Edits, under, Deep}
use temper_ml.Domain.Experiments.Coverage.{Fills}

-- the slot of a key that the parent has
abbrev pub Kept : Edits → Option Json → Option Json → Type 0
Kept l none t = l ≡ []
Kept l (some v) t = Fills l (some v) t

-- the slot of a key that the parent has not
abbrev pub Fresh : Edits → Option Json → Option Json → Type 0
Fresh l none t = Fills l none t
Fresh l (some v) t = l ≡ []

pub Fills-append : (a b : Edits) (s t : Option Json) → Kept a s t → Fresh b s t → Fills (a ++ b) s t
Fills-append a b none t h k = subst (λ l. Fills (l ++ b) none t) (sym h) k
Fills-append a b (some v) t h k =
    subst (λ l. Fills l (some v) t) (sym (append-nil a) ∙ ap (λ m. a ++ m) (sym k)) h

pub under-append : (k : Text) (l m : Edits) → under k (l ++ m) ≡ under k l ++ under k m
unfolding under
under-append k [] m = refl
under-append k (([], e) ∷ l) m = under-append k l m
under-append k ((j ∷ ks, e) ∷ l) m = elim (Bool-cases (j == k)) [
  | inl y ↦ rw y (ap (λ r. (ks, e) ∷ r) (under-append k l m))
  | inr n ↦ rw n (under-append k l m)
]

under-push_same : (k : Text) (l : Edits) → under k (map (push k) l) ≡ l
unfolding under push
under-push_same k [] = refl
under-push_same k (a ∷ l) = rw (eq_refl k) (ap (λ r. a ∷ r) (under-push_same k l))

under-push_other : (j k : Text) (l : Edits) → (j == k) ≡ false → under k (map (push j) l) ≡ []
unfolding under push
under-push_other j k [] n = refl
under-push_other j k (a ∷ l) n = rw n (under-push_other j k l n)

Deep-push : (k : Text) (l : Edits) → Deep (map (push k) l)
unfolding push
Deep-push k [] = tt
Deep-push k (a ∷ l) = Deep-push k l

pub Deep-append : (l m : Edits) → Deep l → Deep m → Deep (l ++ m)
Deep-append [] m d e = e
Deep-append (([], x) ∷ l) m d e = d
Deep-append ((k ∷ ks, x) ∷ l) m d e = Deep-append l m d e

-- changes below these keys, for the slots of two objects
abbrev pub Split :
    (Edits → Option Json → Option Json → Type 0)
    → List Text
    → List ManifestChange
    → Fields
    → Fields
    → Type 0
Split P ks cs fs gs =
    (l : Edits) × (Permᴰ cs (map (placed ks) l)
      × (Deep l × ((k : Text) → P (under k l) (get k fs) (get k gs))))

-- the changes of one key, by its slots
abbrev pub KeyCovered : List Text → Text → List ManifestChange → Option Json → Option Json → Type 0
KeyCovered ks k cs s t = (l : Edits) × (Permᴰ cs (map (placed (ks ++ k ∷ [])) l) × Fills l s t)

-- The changes of a key before those of other keys.
pub Perm-placed :
    (ks : List Text) (k : Text) (here rest : List ManifestChange) (l m : Edits)
    → Permᴰ here (map (placed (ks ++ k ∷ [])) l)
    → Permᴰ rest (map (placed ks) m)
    → Permᴰ (here ++ rest) (map (placed ks) (map (push k) l ++ m))
Perm-placed ks k here rest l m p q =
    subst (λ cs. Permᴰ (here ++ rest) cs)
      (ap (λ cs. cs ++ map (placed ks) m) (map-placed ks k l)
        ∙ sym (map-append (placed ks) (map (push k) l) m))
      (Permᴰ.trans (Permᴰ.append_right rest p)
        (Permᴰ.append_left (map (placed (ks ++ k ∷ [])) l) q))

-- The slots after the changes of one more key.
pub Split-key :
    (P : Edits → Option Json → Option Json → Type 0) (ks : List Text) (k : Text)
    (here rest : List ManifestChange) (fs gs fs' gs' : Fields)
    → (head : KeyCovered ks k here (get k fs') (get k gs'))
    → ((l : Edits) → Fills l (get k fs') (get k gs') → P l (get k fs') (get k gs'))
    → ((l : Edits) → P l (get k fs) (get k gs) → l ≡ [])
    → ((j : Text) → (k == j) ≡ false → (get j fs' ≡ get j fs) × (get j gs' ≡ get j gs))
    → Split P ks rest fs gs
    → Split P ks (here ++ rest) fs' gs'
Split-key P ks k here rest fs gs fs' gs' (l, (p, f)) lift empty others (m, (q, (d, slots))) = (
  map (push k) l ++ m,
  (
    Perm-placed ks k here rest l m p q,
    (
      Deep-append (map (push k) l) m (Deep-push k l) d,
      λ j. elim (Bool-cases (k == j)) [
        | inl y ↦
            subst (λ i. P (under i (map (push k) l ++ m)) (get i fs') (get i gs'))
              ((eq_iff k j).0 y)
              (subst (λ e. P e (get k fs') (get k gs'))
                (sym (append-nil l)
                  ∙ ap (λ e. l ++ e) (sym (empty (under k m) (slots k)))
                  ∙ ap (λ e. e ++ under k m) (sym (under-push_same k l))
                  ∙ sym (under-append k (map (push k) l) m))
                (lift l f))
        | inr n ↦
            rw
              (
                under-append j (map (push k) l) m,
                under-push_other k j l n,
                (others j n).0,
                (others j n).1,
              )
              (slots j)
      ],
    ),
  ),
)
