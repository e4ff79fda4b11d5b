-- ===== src/Domain/Evaluations/Ranking/Returns.antt =====
-- With a tuple of cohorts for each result, all of one length, the rankings are returned.
use temper_ml.Base.{
  nat_eq, list_eq, is_ok, is_ok-bind, ok, length, All, ℕ, ◌≡◌, refl, sym, ap, ◌∙◌, true, List, [],
  ◌∷◌, arith,
}
use temper_ml.Domain.Evaluations.Ranking.{
  CohortKeys, cohorts_of, all_le, any_lt, dominates, is_dominated, nondominated, pareto_results,
  keyed, rank_results, EvaluationResult,
}

-- the dict has a tuple of this length for the result
abbrev pub HasCohorts : ℕ → CohortKeys → EvaluationResult → Type 0
HasCohorts n keys r = (a : List ℕ) × ((cohorts_of keys r ≡ ok a) × (length a ≡ n))

all_le-returns : (a b : List ℕ) → length a ≡ length b → is_ok (all_le a b) ≡ true
unfolding all_le
all_le-returns [] [] h = refl
all_le-returns [] (y ∷ b) h = ground arith
all_le-returns (x ∷ a) [] h = ground arith
all_le-returns (x ∷ a) (y ∷ b) h = ground (arith, all_le-returns a b)

any_lt-returns : (a b : List ℕ) → length a ≡ length b → is_ok (any_lt a b) ≡ true
unfolding any_lt
any_lt-returns [] [] h = refl
any_lt-returns [] (y ∷ b) h = ground arith
any_lt-returns (x ∷ a) [] h = ground arith
any_lt-returns (x ∷ a) (y ∷ b) h = ground (arith, any_lt-returns a b)

dominates-returns :
    (n : ℕ) (keys : CohortKeys) (r s : EvaluationResult)
    → HasCohorts n keys r
    → HasCohorts n keys s
    → is_ok (dominates keys r s) ≡ true
unfolding dominates
dominates-returns n keys r s (a, (ha, la)) (b, (hb, lb)) =
    let q : length a ≡ length b = la ∙ sym lb in
    ground (arith, ha, hb, all_le-returns a b q, any_lt-returns a b q)

is_dominated-returns :
    (n : ℕ) (keys : CohortKeys) (c : EvaluationResult) (others : List EvaluationResult)
    → HasCohorts n keys c
    → All (HasCohorts n keys) others
    → is_ok (is_dominated keys c others) ≡ true
unfolding is_dominated
is_dominated-returns n keys c [] h a = refl
is_dominated-returns n keys c (r ∷ rs) h a =
    ground (arith, dominates-returns n keys r c a.0 h, is_dominated-returns n keys c rs h a.1)

nondominated-returns :
    (n : ℕ) (keys : CohortKeys) (results cs : List EvaluationResult)
    → All (HasCohorts n keys) results
    → All (HasCohorts n keys) cs
    → is_ok (nondominated keys results cs) ≡ true
unfolding nondominated
nondominated-returns n keys results [] a b = refl
nondominated-returns n keys results (c ∷ cs) a b =
    is_ok-bind _ (is_dominated keys c results) (is_dominated-returns n keys c results b.0 a) (λ d.
      is_ok-bind _ (nondominated keys results cs) (nondominated-returns n keys results cs a b.1)
        (λ rest. refl))

keyed-returns :
    (n : ℕ) (keys : CohortKeys) (results : List EvaluationResult)
    → All (HasCohorts n keys) results
    → is_ok (keyed keys results) ≡ true
unfolding keyed
keyed-returns n keys [] a = refl
keyed-returns n keys (r ∷ rs) a =
    is_ok-bind _ (cohorts_of keys r) (ap is_ok a.0.1.0)
      (λ b. is_ok-bind _ (keyed keys rs) (keyed-returns n keys rs a.1) (λ rest. refl))

-- When the dict has a tuple for each result, all of one length, both rankings are returned.
pub rankings_return :
    (n : ℕ) (keys : CohortKeys) (results : List EvaluationResult)
    → All (HasCohorts n keys) results
    → (is_ok (rank_results keys results) ≡ true) × (is_ok (pareto_results keys results) ≡ true)
unfolding rank_results pareto_results
rankings_return n keys results a = (
  is_ok-bind _ (keyed keys results) (keyed-returns n keys results a) (λ ks. refl),
  is_ok-bind _ (nondominated keys results results) (nondominated-returns n keys results results a a)
      (λ kept. refl),
)
