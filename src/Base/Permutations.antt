-- ===== src/Base/Permutations.antt =====
-- Permutations: what a sort leaves, and what a permutation of a short or a mapped list is.
use mathlib.Core.Path.{◌≡◌, refl, ◌∙◌, subst, subst₂}
use mathlib.Core.Bool.{Bool, true, false}
use mathlib.Core.List.{append_assoc, List, [], ◌∷◌, ◌++◌, map, Permᴰ, Memᴰ}
use mathlib.Core.List.Permᴰ
use temper_ml.Base.Tests.{if◌then◌else◌}
use temper_ml.Base.Lists.{All, insert_by, sort_by}

module _ {ℓ} {A : Type ℓ} where
  insert_by-Perm : (lt : A → A → Bool) (x : A) (ys : List A) → Permᴰ (insert_by lt x ys) (x ∷ ys)
  unfolding insert_by
  insert_by-Perm lt x [] = Permᴰ.refl (x ∷ [])
  insert_by-Perm lt x (y ∷ ys) =
      elim (lt y x) as (λ b. Permᴰ (if b then y ∷ insert_by lt x ys else x ∷ y ∷ ys) (x ∷ y ∷ ys)) [
        | true ↦ Permᴰ.trans (Permᴰ.cons refl (insert_by-Perm lt x ys)) (Permᴰ.swap refl refl)
        | false ↦ Permᴰ.refl (x ∷ y ∷ ys)
      ]

  pub sort_by-Perm : (lt : A → A → Bool) (xs : List A) → Permᴰ (sort_by lt xs) xs
  unfolding sort_by
  sort_by-Perm lt [] = Permᴰ.nil
  sort_by-Perm lt (x ∷ xs) =
      Permᴰ.trans (insert_by-Perm lt x (sort_by lt xs)) (Permᴰ.cons refl (sort_by-Perm lt xs))

  pub Perm-nil : {xs ys : List A} → Permᴰ xs ys → xs ≡ [] → ys ≡ []
  Perm-nil Permᴰ.nil h = refl
  Perm-nil (Permᴰ.cons e d) h = cc h
  Perm-nil (Permᴰ.swap e f) h = cc h
  Perm-nil (Permᴰ.trans d d') h = Perm-nil d' (Perm-nil d h)

  pub Perm-one : {xs ys : List A} → Permᴰ xs ys → (a : A) → xs ≡ a ∷ [] → ys ≡ a ∷ []
  Perm-one Permᴰ.nil a h = cc h
  Perm-one (Permᴰ.cons {l₁ = l} {l₂ = m} e d) a h =
      let q : m ≡ [] = Perm-nil d (cc h) in cc (h, e, q)
  Perm-one (Permᴰ.swap e f) a h = cc h
  Perm-one (Permᴰ.trans d d') a h = Perm-one d' a (Perm-one d a h)

  pub Perm-append_swap : (xs ys : List A) → Permᴰ (xs ++ ys) (ys ++ xs)
  Perm-append_swap [] ys = Permᴰ.symm (Permᴰ.append-nil ys)
  Perm-append_swap (x ∷ xs) ys =
      Permᴰ.trans (Permᴰ.cons refl (Perm-append_swap xs ys)) (Permᴰ.symm (Permᴰ.middle x ys xs))

module _ {ℓ} {A : Type ℓ} where
  pub Perm-append_exchange : (xs ys zs : List A) → Permᴰ (xs ++ (ys ++ zs)) (ys ++ (xs ++ zs))
  Perm-append_exchange xs ys zs =
      subst₂ Permᴰ (append_assoc xs ys zs) (append_assoc ys xs zs)
        (Permᴰ.append_right zs (Perm-append_swap xs ys))

pub All-Perm {ℓ κ} :
    {A : Type ℓ} (P : A → Type κ) {xs ys : List A} → Permᴰ xs ys → All P xs → All P ys
All-Perm P Permᴰ.nil a = a
All-Perm P (Permᴰ.cons e p) a = (subst P e a.0, All-Perm P p a.1)
All-Perm P (Permᴰ.swap e f) a = (subst P f a.1.0, (subst P e a.0, a.1.1))
All-Perm P (Permᴰ.trans p q) a = All-Perm P q (All-Perm P p a)

pub Mem-Perm {ℓ} : {A : Type ℓ} {a : A} {xs ys : List A} → Permᴰ xs ys → Memᴰ a xs → Memᴰ a ys
Mem-Perm Permᴰ.nil m = m
Mem-Perm (Permᴰ.cons e p) (Memᴰ.head q) = Memᴰ.head (q ∙ e)
Mem-Perm (Permᴰ.cons e p) (Memᴰ.tail m) = Memᴰ.tail (Mem-Perm p m)
Mem-Perm (Permᴰ.swap e f) (Memᴰ.head q) = Memᴰ.tail (Memᴰ.head (q ∙ e))
Mem-Perm (Permᴰ.swap e f) (Memᴰ.tail (Memᴰ.head q)) = Memᴰ.head (q ∙ f)
Mem-Perm (Permᴰ.swap e f) (Memᴰ.tail (Memᴰ.tail m)) = Memᴰ.tail (Memᴰ.tail m)
Mem-Perm (Permᴰ.trans p q) m = Mem-Perm q (Mem-Perm p m)

-- A permutation of the images of a list is the images of a permutation of it.
pub Perm-map {ℓ} :
    {A B : Type ℓ} (f : A → B) {xs ys : List B}
    → Permᴰ xs ys
    → (l : List A) → xs ≡ map f l
    → (m : List A) × ((ys ≡ map f m) × Permᴰ l m)
Perm-map f Permᴰ.nil [] h = ([], (refl, Permᴰ.nil))
Perm-map f Permᴰ.nil (x ∷ l) h = absurd (cc h)
Perm-map f (Permᴰ.cons e d) [] h = absurd (cc h)
Perm-map f (Permᴰ.cons e d) (x ∷ l) h =
    let (m, (q, p)) = Perm-map f d l (cc h) in (x ∷ m, (cc (h, e, q), Permᴰ.cons refl p))
Perm-map f (Permᴰ.swap e g) [] h = absurd (cc h)
Perm-map f (Permᴰ.swap e g) (x ∷ []) h = absurd (cc h)
Perm-map f (Permᴰ.swap e g) (x ∷ y ∷ l) h = (y ∷ x ∷ l, (cc (h, e, g), Permᴰ.swap refl refl))
Perm-map f (Permᴰ.trans d d') l h =
    let (m, (q, p)) = Perm-map f d l h in
    let (n, (q', p')) = Perm-map f d' m q in (n, (q', Permᴰ.trans p p'))
