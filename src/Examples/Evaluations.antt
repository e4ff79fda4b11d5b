-- ===== src/Examples/Evaluations.antt =====
-- Rankings of three results.
use temper_ml.Base.{
  List-discrete, is_ok, ok, All, replicate, codes, text_lt, pair_lt, ℕ, ◌≡◌, refl, true, Permᴰ,
  Memᴰ, List, [], ◌∷◌, ◌++◌, ℕ_discrete,
}
use temper_ml.Domain.Evaluations.Ranking.{
  reference_key, CohortKeys, cohorts_of, pareto_results, rank_results, EvaluationResult,
}
use temper_ml.Domain.Evaluations.Ranking.Selection.{
  Unbeaten, rank_results-Unbeaten, selected-Pareto,
}
use temper_ml.Domain.Evaluations.Ranking.Returns.{HasCohorts, rankings_return}

abbrev result : ℕ → EvaluationResult
result n = record {
  result_id = codes "result-" ++ n ∷ [];
  candidate = record {
    record_type = codes "artifact";
    logical_id = codes "adapter-" ++ n ∷ [];
    identity = record { algorithm = codes "sha256"; value = replicate 64 n };
  };
}

abbrev three : List EvaluationResult
three = result b'a' ∷ result b'b' ∷ result b'c' ∷ []

-- `b` is best in the first objective, `a` in the second one; `c` is dominated by `a`
abbrev cohorts : CohortKeys
cohorts =
    (reference_key (result b'a').candidate, 1 ∷ 0 ∷ [])
    ∷ (reference_key (result b'b').candidate, 0 ∷ 2 ∷ [])
    ∷ (reference_key (result b'c').candidate, 1 ∷ 1 ∷ [])
    ∷ []

ranked : rank_results cohorts three ≡ ok (result b'b' ∷ result b'a' ∷ result b'c' ∷ [])
unfolding rank_results pair_lt text_lt reference_key List-discrete ℕ_discrete
ranked = refl

front : pareto_results cohorts three ≡ ok (result b'a' ∷ result b'b' ∷ [])
unfolding pareto_results pair_lt text_lt reference_key List-discrete ℕ_discrete
front = refl

rank_results-Unbeaten_example :
    Permᴰ (result b'b' ∷ result b'a' ∷ result b'c' ∷ []) three
    × Unbeaten cohorts (result b'b' ∷ result b'a' ∷ result b'c' ∷ [])
rank_results-Unbeaten_example =
    rank_results-Unbeaten cohorts three (result b'b' ∷ result b'a' ∷ result b'c' ∷ []) ranked

selected-Pareto_example : Memᴰ (result b'b') (result b'a' ∷ result b'b' ∷ [])
selected-Pareto_example =
    selected-Pareto cohorts three (result b'a' ∷ result b'c' ∷ []) (result b'a' ∷ result b'b' ∷ [])
      (result b'b') ranked front

All-HasCohorts : All (HasCohorts 2 cohorts) three
unfolding cohorts_of reference_key List-discrete ℕ_discrete
All-HasCohorts =
    ((1 ∷ 0 ∷ [], (refl, refl)), ((0 ∷ 2 ∷ [], (refl, refl)), ((1 ∷ 1 ∷ [], (refl, refl)), tt)))

rankings_return_example :
    (is_ok (rank_results cohorts three) ≡ true) × (is_ok (pareto_results cohorts three) ≡ true)
rankings_return_example = rankings_return 2 cohorts three All-HasCohorts
