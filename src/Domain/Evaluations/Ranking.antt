-- ===== src/Domain/Evaluations/Ranking.antt =====
-- `_rank_results`, `_pareto_results` and `_dominates` of src/temper_ml/domain/evaluations.py, for the
-- cohort keys that the caller gives. Of a result they read the candidate.
pub mod Dominance
pub mod Selection
pub mod Returns
use temper_ml.Domain.Records.{RecordReference}
use temper_ml.Base.{
  ltb, leb, if◌then◌else◌, ◌==◌, nat_eq, list_eq, ◌>>=◌, Result, ok, err, sort_by, Text, text_lt,
  pair_lt, ℕ, Bool, true, false, not, ◌&&◌, List, [], ◌∷◌, map,
}

-- a `KeyError`, and the `ValueError` of `zip(…, strict=True)`
pub data RankingError : Type 0 where
  key_missing lengths_differ : RankingError

-- the fields that the rankings read
pub record EvaluationResult : Type 0 where
  pub result_id : Text
  pub candidate : RecordReference

abbrev pub ReferenceKey : Type 0
ReferenceKey = Text × (Text × Text)

-- `_reference_key`
unfoldable pub reference_key : RecordReference → ReferenceKey
reference_key r = (r.record_type, (r.logical_id, r.identity.value))

abbrev pub key_lt : ReferenceKey → ReferenceKey → Bool
key_lt = pair_lt text_lt (pair_lt text_lt text_lt)

unfoldable pub same_key : ReferenceKey → ReferenceKey → Bool
same_key a b = a.0 == b.0 && (a.1.0 == b.1.0 && a.1.1 == b.1.1)

-- the dict `cohort_keys`
abbrev pub CohortKeys : Type 0
CohortKeys = List (ReferenceKey × List ℕ)

unfoldable pub lookup_key : ReferenceKey → CohortKeys → Result RankingError (List ℕ)
unfolding same_key
lookup_key k [] = err key_missing
lookup_key k ((j, v) ∷ rest) = let later = lookup_key k rest in if same_key j k then ok v else later

unfoldable pub cohorts_of : CohortKeys → EvaluationResult → Result RankingError (List ℕ)
unfolding lookup_key reference_key
cohorts_of keys r = lookup_key (reference_key r.candidate) keys

-- `all(left <= right for … in zip(…, strict=True))`, which stops at the first that is not
unfoldable pub all_le : List ℕ → List ℕ → Result RankingError Bool
all_le [] [] = ok true
all_le [] (y ∷ ys) = err lengths_differ
all_le (x ∷ xs) [] = err lengths_differ
all_le (x ∷ xs) (y ∷ ys) = let rest = all_le xs ys in if leb x y then rest else ok false

-- `any(left < right for …)`
unfoldable pub any_lt : List ℕ → List ℕ → Result RankingError Bool
any_lt [] [] = ok false
any_lt [] (y ∷ ys) = err lengths_differ
any_lt (x ∷ xs) [] = err lengths_differ
any_lt (x ∷ xs) (y ∷ ys) = let rest = any_lt xs ys in if ltb x y then ok true else rest

unfoldable pub dominates_cohorts : List ℕ → List ℕ → Result RankingError Bool
unfolding all_le any_lt
dominates_cohorts a b = all_le a b >>= λ below. if below then any_lt a b else ok false

-- `_dominates`
unfoldable pub dominates :
    CohortKeys → EvaluationResult → EvaluationResult → Result RankingError Bool
unfolding dominates_cohorts cohorts_of
dominates keys left right =
    cohorts_of keys left >>= λ a. cohorts_of keys right >>= λ b. dominates_cohorts a b

-- One result is allowed for each candidate, so that `other is not candidate` compares their keys.
unfoldable pub is_other : EvaluationResult → EvaluationResult → Bool
unfolding same_key reference_key
is_other other candidate =
    not (same_key (reference_key other.candidate) (reference_key candidate.candidate))

-- `any(…)` over the other results
unfoldable pub is_dominated :
    CohortKeys → EvaluationResult → List EvaluationResult → Result RankingError Bool
unfolding dominates is_other
is_dominated keys candidate [] = ok false
is_dominated keys candidate (other ∷ others) =
    let later = is_dominated keys candidate others in
    if is_other other candidate
    then (dominates keys other candidate >>= λ d. if d then ok true else later)
    else later

unfoldable pub nondominated :
    CohortKeys
    → List EvaluationResult
    → List EvaluationResult
    → Result RankingError (List EvaluationResult)
unfolding is_dominated
nondominated keys results [] = ok []
nondominated keys results (c ∷ cs) = is_dominated keys c results >>= λ d.
    nondominated keys results cs >>= λ rest. ok (if d then rest else c ∷ rest)

abbrev pub candidate_lt : EvaluationResult → EvaluationResult → Bool
candidate_lt a b = key_lt (reference_key a.candidate) (reference_key b.candidate)

-- `_pareto_results`
unfoldable pub pareto_results :
    CohortKeys → List EvaluationResult → Result RankingError (List EvaluationResult)
unfolding nondominated sort_by
pareto_results keys results =
    nondominated keys results results >>= λ kept. ok (sort_by candidate_lt kept)

-- a result with its key for the sort
abbrev pub Keyed : Type 0
Keyed = (List ℕ × ReferenceKey) × EvaluationResult

unfoldable pub keyed : CohortKeys → List EvaluationResult → Result RankingError (List Keyed)
unfolding cohorts_of reference_key
keyed keys [] = ok []
keyed keys (r ∷ rs) = cohorts_of keys r >>= λ a.
    keyed keys rs >>= λ rest. ok (((a, reference_key r.candidate), r) ∷ rest)

-- tuples of numbers are compared as texts are: the first difference decides, a prefix is below
abbrev pub rank_lt : Keyed → Keyed → Bool
rank_lt a b = pair_lt text_lt key_lt a.0 b.0

-- `_rank_results`
unfoldable pub rank_results :
    CohortKeys → List EvaluationResult → Result RankingError (List EvaluationResult)
unfolding keyed sort_by
rank_results keys results =
    keyed keys results >>= λ ks. ok (map (λ (k : Keyed). k.1) (sort_by rank_lt ks))
