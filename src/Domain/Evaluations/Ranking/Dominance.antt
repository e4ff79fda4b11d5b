-- ===== src/Domain/Evaluations/Ranking/Dominance.antt =====
-- Dominance is a strict order, and what dominates stands first in the order of ranks.
use temper_ml.Base.{
  nat_eq, list_eq, ok, text_lt, text_lt_irrefl, ℕ, ◌≡◌, refl, true, List, [], ◌∷◌, arith,
}
use temper_ml.Domain.Evaluations.Ranking.{all_le, any_lt, dominates_cohorts}

pub dominates-below : (a b : List ℕ) → dominates_cohorts a b ≡ ok true → text_lt a b ≡ true
unfolding dominates_cohorts text_lt
dominates-below [] [] h = ground arith
dominates-below [] (y ∷ b) h = ground arith
dominates-below (x ∷ a) [] h = ground arith
dominates-below (x ∷ a) (y ∷ b) h = ground (arith, dominates-below a b)

pub all_le_trans :
    (a b c : List ℕ) → all_le a b ≡ ok true → all_le b c ≡ ok true → all_le a c ≡ ok true
unfolding all_le
all_le_trans [] [] [] h k = refl
all_le_trans [] [] (z ∷ c) h k = ground arith
all_le_trans [] (y ∷ b) c h k = ground arith
all_le_trans (x ∷ a) [] c h k = ground arith
all_le_trans (x ∷ a) (y ∷ b) [] h k = ground arith
all_le_trans (x ∷ a) (y ∷ b) (z ∷ c) h k = ground (arith, all_le_trans a b c)

any_lt_trans :
    (a b c : List ℕ)
    → all_le a b ≡ ok true
    → all_le b c ≡ ok true
    → any_lt a b ≡ ok true
    → any_lt a c ≡ ok true
unfolding all_le any_lt
any_lt_trans [] [] c h k m = ground arith
any_lt_trans [] (y ∷ b) c h k m = ground arith
any_lt_trans (x ∷ a) [] c h k m = ground arith
any_lt_trans (x ∷ a) (y ∷ b) [] h k m = ground arith
any_lt_trans (x ∷ a) (y ∷ b) (z ∷ c) h k m = ground (arith, any_lt_trans a b c)

-- No tuple of cohorts dominates itself, and dominance is transitive.
pub dominates_order :
    (a b c : List ℕ)
    → (¬ (dominates_cohorts a a ≡ ok true))
      × (dominates_cohorts a b ≡ ok true
          → dominates_cohorts b c ≡ ok true
          → dominates_cohorts a c ≡ ok true)
unfolding dominates_cohorts
dominates_order a b c = (
  (λ h. ground (arith, dominates-below a a, text_lt_irrefl a)),
  λ h k. ground (arith, all_le_trans a b c, any_lt_trans a b c),
)
