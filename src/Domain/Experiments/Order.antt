-- ===== src/Domain/Experiments/Order.antt =====
-- The order of the edits does not matter.
use mathlib.Core.List.Permᴰ
use temper_ml.Base.{
  if◌then◌else◌, ◌==◌, nat_eq, list_eq, Text, Perm-nil, Perm-one, ◌≡◌, refl, subst, subst₂, true,
  false, Option, Permᴰ, List, [], ◌∷◌,
}
use temper_ml.Store.Json.{Json}
use temper_ml.Domain.Experiments.Changes.{Edit}
use temper_ml.Domain.Experiments.Edits.{Edits, under, Deep}
use temper_ml.Domain.Experiments.Coverage.{
  Covers, untouched, replaced, inside, Fills, absent, fresh, gone, both,
}

abbrev Entry : Type 0
Entry = List Text × Edit

under-cons :
    (k : Text) (a b : Entry) (l m : Edits)
    → a ≡ b
    → Permᴰ (under k l) (under k m)
    → Permᴰ (under k (a ∷ l)) (under k (b ∷ m))
unfolding under
under-cons k ([], e) b l m q p = subst (λ c. Permᴰ (under k l) (under k (c ∷ m))) q p
under-cons k (j ∷ ks, e) b l m q p =
    subst (λ c. Permᴰ (under k ((j ∷ ks, e) ∷ l)) (under k (c ∷ m))) q
      (elim (j == k)
        as (λ b.
          Permᴰ (if b then (ks, e) ∷ under k l else under k l)
            (if b then (ks, e) ∷ under k m else under k m)) [
              | true ↦ Permᴰ.cons refl p
              | false ↦ p
            ])

under-swap :
    (k : Text) (a b : Entry) (l : Edits) → Permᴰ (under k (a ∷ b ∷ l)) (under k (b ∷ a ∷ l))
unfolding under
under-swap k ([], e) ([], f) l = Permᴰ.refl (under k l)
under-swap k ([], e) (j ∷ ks, f) l = Permᴰ.refl (under k ((j ∷ ks, f) ∷ l))
under-swap k (i ∷ hs, e) ([], f) l = Permᴰ.refl (under k ((i ∷ hs, e) ∷ l))
under-swap k (i ∷ hs, e) (j ∷ ks, f) l =
    elim (i == k)
      as (λ b.
        Permᴰ (if b then (hs, e) ∷ under k ((j ∷ ks, f) ∷ l) else under k ((j ∷ ks, f) ∷ l)) (
          if j == k
          then (ks, f) ∷ (if b then (hs, e) ∷ under k l else under k l)
          else if b
          then (hs, e) ∷ under k l
          else under k l)) [
            | true ↦
                elim (j == k)
                  as (λ b.
                    Permᴰ ((hs, e) ∷ (if b then (ks, f) ∷ under k l else under k l))
                      (if b then (ks, f) ∷ (hs, e) ∷ under k l else (hs, e) ∷ under k l)) [
                        | true ↦ Permᴰ.swap refl refl
                        | false ↦ Permᴰ.refl ((hs, e) ∷ under k l)
                      ]
            | false ↦ Permᴰ.refl (under k ((j ∷ ks, f) ∷ l))
          ]

under-Perm : (k : Text) {l m : Edits} → Permᴰ l m → Permᴰ (under k l) (under k m)
under-Perm k Permᴰ.nil = Permᴰ.refl (under k [])
under-Perm k (Permᴰ.cons {a = a} {b = b} {l₁ = l} {l₂ = m} q p) =
    under-cons k a b l m q (under-Perm k p)
under-Perm k (Permᴰ.swap {a = a} {b = b} {l = l} e f) =
    subst₂ (λ c d. Permᴰ (under k (a ∷ b ∷ l)) (under k (d ∷ c ∷ l))) e f (under-swap k a b l)
under-Perm k (Permᴰ.trans p q) = Permᴰ.trans (under-Perm k p) (under-Perm k q)

Deep-cons : (a : Entry) (l m : Edits) → (Deep l → Deep m) → Deep (a ∷ l) → Deep (a ∷ m)
Deep-cons ([], e) l m f d = d
Deep-cons (k ∷ ks, e) l m f d = f d

Deep-swap : (a b : Entry) (l : Edits) → Deep (a ∷ b ∷ l) → Deep (b ∷ a ∷ l)
Deep-swap ([], e) b l d = elim d [ ]
Deep-swap (k ∷ ks, e) ([], f) l d = elim d [ ]
Deep-swap (k ∷ ks, e) (j ∷ js, f) l d = d

Deep-Perm : {l m : Edits} → Permᴰ l m → Deep l → Deep m
Deep-Perm Permᴰ.nil d = d
Deep-Perm (Permᴰ.cons {a = a} {l₁ = l} {l₂ = m} q p) d =
    subst (λ c. Deep (c ∷ m)) q (Deep-cons a l m (Deep-Perm p) d)
Deep-Perm (Permᴰ.swap {a = a} {b = b} {l = l} e f) d =
    subst₂ (λ c d. Deep (d ∷ c ∷ l)) e f (Deep-swap a b l d)
Deep-Perm (Permᴰ.trans p q) d = Deep-Perm q (Deep-Perm p d)

mutual
  pub Covers-Perm : {l m : Edits} {p d : Json} → Permᴰ l m → Covers l p d → Covers m p d
  Covers-Perm w (untouched e h) = untouched (Perm-nil w e) h
  Covers-Perm w (replaced e h) = replaced (Perm-one w _ e) h
  Covers-Perm w (inside d s t h) =
      inside (Deep-Perm w d) s t (λ k. Fills-Perm (under-Perm k w) (h k))

  Fills-Perm : {l m : Edits} {s t : Option Json} → Permᴰ l m → Fills l s t → Fills m s t
  Fills-Perm w (absent e) = absent (Perm-nil w e)
  Fills-Perm w (fresh e) = fresh (Perm-one w _ e)
  Fills-Perm w (gone e h) = gone (Perm-one w _ e) h
  Fills-Perm w (both c) = both (Covers-Perm w c)
