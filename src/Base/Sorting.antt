-- ===== src/Base/Sorting.antt =====
-- What `sorted` returns for an order: nothing stands before what is below it. Orders of pairs.
use mathlib.Core.Path.{◌≡◌}
use mathlib.Core.Logic.{inl, inr}
use mathlib.Core.Bool.{Bool, true, false}
use mathlib.Core.List.{List, [], ◌∷◌}
use native.Mathlib.Omega.{arith}
use temper_ml.Base.Tests.{if◌then◌else◌, Bool-cases}
use temper_ml.Base.Lists.{All, insert_by, sort_by}
use temper_ml.Base.Texts.{text_lt}
use temper_ml.Base.TextOrder.{text_lt_trans, text_lt_total, text_lt_asym, text_lt_irrefl}

pub record IsOrder {ℓ} {A : Type ℓ} (lt : A → A → Bool) : Type ℓ where
  pub asym : (a b : A) → lt a b ≡ true → lt b a ≡ false
  pub chain : (a b c : A) → lt a b ≡ false → lt b c ≡ false → lt a c ≡ false

pub text_lt-IsOrder : IsOrder text_lt
text_lt-IsOrder = record {
  asym = text_lt_asym;
  chain = λ a b c h k. ground (
    arith,
    text_lt_trans b c a,
    text_lt_trans b a c,
    text_lt_total a b,
    text_lt_total b c,
    text_lt_total a c,
    text_lt_asym a c,
    text_lt_irrefl a,
  );
}

-- the order of pairs, by their first parts and then by their second ones
unfoldable pub pair_lt {ℓ} : {A B : Type ℓ} → (A → A → Bool) → (B → B → Bool) → A × B → A × B → Bool
pair_lt lt lt' p q = if lt p.0 q.0 then true else if lt q.0 p.0 then false else lt' p.1 q.1

pub pair_lt-IsOrder {ℓ} :
    {A B : Type ℓ} (lt : A → A → Bool) (lt' : B → B → Bool)
    → IsOrder lt
    → IsOrder lt'
    → IsOrder (pair_lt lt lt')
unfolding pair_lt
pair_lt-IsOrder lt lt' o o' = record {
  asym = λ a b h. ground (arith, o.asym a.0 b.0, o.asym b.0 a.0, o'.asym a.1 b.1);
  chain = λ a b c h k. ground (
    arith,
    o.asym a.0 b.0,
    o.asym b.0 a.0,
    o.asym b.0 c.0,
    o.asym c.0 b.0,
    o.asym a.0 c.0,
    o.asym c.0 a.0,
    o.chain a.0 b.0 c.0,
    o.chain c.0 b.0 a.0,
    o.chain b.0 a.0 c.0,
    o.chain a.0 c.0 b.0,
    o.chain c.0 a.0 b.0,
    o.chain b.0 c.0 a.0,
    o'.chain a.1 b.1 c.1,
  );
}

module _ {ℓ} {A : Type ℓ} (lt : A → A → Bool) where
  -- nothing is below what stands before it
  abbrev pub InOrder : List A → Type ℓ
  InOrder [] = Unit
  InOrder (x ∷ xs) = All (λ y. lt y x ≡ false) xs × InOrder xs

  All-insert_by :
      (P : A → Type 0) (x : A) (ys : List A) → P x → All P ys → All P (insert_by lt x ys)
  unfolding insert_by
  All-insert_by P x [] p a = (p, tt)
  All-insert_by P x (y ∷ ys) p a = elim (Bool-cases (lt y x)) [
    | inl e ↦ rw e (a.0, All-insert_by P x ys p a.1)
    | inr e ↦ rw e (p, a)
  ]

  All-chain :
      IsOrder lt
      → (x y : A) (zs : List A) → lt y x ≡ false
      → All (λ z. lt z y ≡ false) zs
      → All (λ z. lt z x ≡ false) zs
  All-chain o x y [] h a = tt
  All-chain o x y (z ∷ zs) h a = (o.chain z y x a.0 h, All-chain o x y zs h a.1)

  InOrder-insert_by : IsOrder lt → (x : A) (ys : List A) → InOrder ys → InOrder (insert_by lt x ys)
  unfolding insert_by
  InOrder-insert_by o x [] h = (tt, tt)
  InOrder-insert_by o x (y ∷ ys) h = elim (Bool-cases (lt y x)) [
    | inl e ↦
        rw e (
          All-insert_by (λ z. lt z y ≡ false) x ys (o.asym y x e) h.0,
          InOrder-insert_by o x ys h.1,
        )
    | inr e ↦ rw e ((e, All-chain o x y ys e h.0), h)
  ]

  pub sort_by-InOrder : IsOrder lt → (xs : List A) → InOrder (sort_by lt xs)
  unfolding sort_by
  sort_by-InOrder o [] = tt
  sort_by-InOrder o (x ∷ xs) = InOrder-insert_by o x (sort_by lt xs) (sort_by-InOrder o xs)
