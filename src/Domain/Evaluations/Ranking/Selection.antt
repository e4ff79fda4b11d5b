-- ===== src/Domain/Evaluations/Ranking/Selection.antt =====
-- The ranks against dominance: no result is dominated by one of a later rank, and the first is on the
-- Pareto front.
use mathlib.Core.List.Permᴰ
use mathlib.Core.List.{Memᴰ}
use temper_ml.Base.{
  if◌then◌else◌, nat_eq, list_eq, ◌>>=◌, unbind, ok_inj, ok, All, sort_by, text_lt, sort_by-Perm,
  All-Perm, Mem-Perm, text_lt-IsOrder, pair_lt, pair_lt-IsOrder, InOrder, sort_by-InOrder, IsOrder,
  ◌≡◌, refl, sym, ap, ◌∙◌, subst, Bool, true, false, Permᴰ, Memᴰ, List, [], ◌∷◌, map, arith,
}
use temper_ml.Domain.Evaluations.Ranking.{
  reference_key, key_lt, CohortKeys, cohorts_of, dominates_cohorts, dominates, is_dominated,
  nondominated, candidate_lt, pareto_results, Keyed, keyed, rank_lt, rank_results, EvaluationResult,
}
use temper_ml.Domain.Evaluations.Ranking.Dominance.{dominates-below, dominates_order}

-- no result is dominated by a later one
abbrev pub Unbeaten : CohortKeys → List EvaluationResult → Type 0
Unbeaten keys [] = Unit
Unbeaten keys (r ∷ rs) = All (λ s. ¬ (dominates keys s r ≡ ok true)) rs × Unbeaten keys rs

-- the entry holds the cohorts of its result
abbrev Faithful : CohortKeys → Keyed → Type 0
Faithful keys k = cohorts_of keys k.1 ≡ ok k.0.0

rank_lt-IsOrder : IsOrder rank_lt
rank_lt-IsOrder =
    let keys : IsOrder key_lt =
      pair_lt-IsOrder text_lt (pair_lt text_lt text_lt) text_lt-IsOrder
        (pair_lt-IsOrder text_lt text_lt text_lt-IsOrder text_lt-IsOrder) in
    let o : IsOrder (pair_lt text_lt key_lt) =
      pair_lt-IsOrder text_lt key_lt text_lt-IsOrder keys in
    record { asym = λ a b. o.asym a.0 b.0; chain = λ a b c. o.chain a.0 b.0 c.0 }

results-Perm :
    {xs ys : List Keyed}
    → Permᴰ xs ys
    → Permᴰ (map (λ (k : Keyed). k.1) xs) (map (λ (k : Keyed). k.1) ys)
results-Perm Permᴰ.nil = Permᴰ.nil
results-Perm (Permᴰ.cons e p) = Permᴰ.cons (ap (λ k. k.1) e) (results-Perm p)
results-Perm (Permᴰ.swap e f) = Permᴰ.swap (ap (λ k. k.1) e) (ap (λ k. k.1) f)
results-Perm (Permᴰ.trans p q) = Permᴰ.trans (results-Perm p) (results-Perm q)

keyed-Faithful :
    (keys : CohortKeys) (rs : List EvaluationResult) (ks : List Keyed)
    → keyed keys rs ≡ ok ks
    → All (Faithful keys) ks × (map (λ (k : Keyed). k.1) ks ≡ rs)
unfolding keyed
keyed-Faithful keys [] ks h =
    subst (λ l. All (Faithful keys) l × (map (λ (k : Keyed). k.1) l ≡ [])) (ok_inj [] ks h)
      (tt, refl)
keyed-Faithful keys (r ∷ rs) ks h =
    let (a, (ha, h')) =
      unbind (λ a. keyed keys rs >>= λ rest. ok (((a, reference_key r.candidate), r) ∷ rest)) ks
        (cohorts_of keys r) h in
    let (rest, (hr, last)) =
      unbind (λ rest. ok (((a, reference_key r.candidate), r) ∷ rest)) ks (keyed keys rs) h' in
    let (f, q) = keyed-Faithful keys rs rest hr in
    subst (λ l. All (Faithful keys) l × (map (λ (k : Keyed). k.1) l ≡ r ∷ rs))
      (ok_inj (((a, reference_key r.candidate), r) ∷ rest) ks last) ((ha, f), ap (λ l. r ∷ l) q)

not_dominated :
    (keys : CohortKeys) (x y : Keyed)
    → Faithful keys x
    → Faithful keys y
    → rank_lt y x ≡ false
    → ¬ (dominates keys y.1 x.1 ≡ ok true)
unfolding dominates pair_lt
not_dominated keys x y fx fy h d =
    let e : dominates_cohorts y.0.0 x.0.0 ≡ ok true = rw (fy, fx) at d in
    ground (arith, h, dominates-below y.0.0 x.0.0 e)

none_dominates :
    (keys : CohortKeys) (x : Keyed) (ys : List Keyed)
    → Faithful keys x
    → All (Faithful keys) ys
    → All (λ y. rank_lt y x ≡ false) ys
    → All (λ s. ¬ (dominates keys s x.1 ≡ ok true)) (map (λ (k : Keyed). k.1) ys)
none_dominates keys x [] fx f o = tt
none_dominates keys x (y ∷ ys) fx f o =
    (not_dominated keys x y fx f.0 o.0, none_dominates keys x ys fx f.1 o.1)

Unbeaten-of_order :
    (keys : CohortKeys) (ks : List Keyed)
    → All (Faithful keys) ks
    → InOrder rank_lt ks
    → Unbeaten keys (map (λ (k : Keyed). k.1) ks)
Unbeaten-of_order keys [] f o = tt
Unbeaten-of_order keys (k ∷ ks) f o =
    (none_dominates keys k ks f.0 f.1 o.0, Unbeaten-of_order keys ks f.1 o.1)

-- The ranking that `_rank_results` returns holds the results, each once, and no result in it is
-- dominated by one of a later rank.
pub rank_results-Unbeaten :
    (keys : CohortKeys) (results ranked : List EvaluationResult)
    → rank_results keys results ≡ ok ranked
    → Permᴰ ranked results × Unbeaten keys ranked
unfolding rank_results
rank_results-Unbeaten keys results ranked h =
    let (ks, (hk, last)) =
      unbind (λ ks. ok (map (λ (k : Keyed). k.1) (sort_by rank_lt ks))) ranked (keyed keys results)
        h in
    let (f, q) = keyed-Faithful keys results ks hk in
    let p : Permᴰ (sort_by rank_lt ks) ks = sort_by-Perm rank_lt ks in
    subst (λ l. Permᴰ l results × Unbeaten keys l)
      (ok_inj (map (λ (k : Keyed). k.1) (sort_by rank_lt ks)) ranked last)
      (
        subst (Permᴰ (map (λ (k : Keyed). k.1) (sort_by rank_lt ks))) q (results-Perm p),
        Unbeaten-of_order keys (sort_by rank_lt ks) (All-Perm (Faithful keys) (Permᴰ.symm p) f)
            (sort_by-InOrder rank_lt rank_lt-IsOrder ks),
      )

not_dominated_by_itself :
    (keys : CohortKeys) (r : EvaluationResult) → ¬ (dominates keys r r ≡ ok true)
unfolding dominates
not_dominated_by_itself keys r h =
    let (a, (ha, h')) =
      unbind (λ a. cohorts_of keys r >>= λ b. dominates_cohorts a b) true (cohorts_of keys r) h in
    (dominates_order a a a).0 (rw ha at h')

is_dominated-by_none :
    (keys : CohortKeys) (c : EvaluationResult) (others : List EvaluationResult)
    → All (λ r. ¬ (dominates keys r c ≡ ok true)) others
    → ¬ (is_dominated keys c others ≡ ok true)
unfolding is_dominated
is_dominated-by_none keys c [] a h = ground arith
is_dominated-by_none keys c (r ∷ rs) a h = ground (arith, a.0, is_dominated-by_none keys c rs a.1)

keeps_one :
    (d : Bool) (c s : EvaluationResult) (cs rest : List EvaluationResult)
    → (s ≡ c → d ≡ true → ⊥)
    → Memᴰ s (c ∷ cs)
    → (Memᴰ s cs → Memᴰ s rest)
    → Memᴰ s (if d then rest else c ∷ rest)
keeps_one true c s cs rest n (Memᴰ.head q) f = elim (n q refl) [ ]
keeps_one true c s cs rest n (Memᴰ.tail m) f = f m
keeps_one false c s cs rest n (Memᴰ.head q) f = Memᴰ.head q
keeps_one false c s cs rest n (Memᴰ.tail m) f = Memᴰ.tail (f m)

nondominated-keeps :
    (keys : CohortKeys) (results cs kept : List EvaluationResult) (s : EvaluationResult)
    → ¬ (is_dominated keys s results ≡ ok true)
    → Memᴰ s cs
    → nondominated keys results cs ≡ ok kept
    → Memᴰ s kept
unfolding nondominated
nondominated-keeps keys results [] kept s n m h = elim m [ ]
nondominated-keeps keys results (c ∷ cs) kept s n m h =
    let (d, (hd, h')) =
      unbind (λ d. nondominated keys results cs >>= λ rest. ok (if d then rest else c ∷ rest)) kept
        (is_dominated keys c results) h in
    let (rest, (hr, last)) =
      unbind (λ rest. ok (if d then rest else c ∷ rest)) kept (nondominated keys results cs) h' in
    subst (Memᴰ s) (ok_inj (if d then rest else c ∷ rest) kept last) (
      keeps_one d c s cs rest
        (λ q t. n (subst (λ x. is_dominated keys x results ≡ ok true) (sym q) (hd ∙ ap ok t))) m
        (λ m'. nondominated-keeps keys results cs rest s n m' hr))

-- The candidate that is recommended, the first in the ranking, is on the Pareto front.
pub selected-Pareto :
    (keys : CohortKeys) (results rest front : List EvaluationResult) (s : EvaluationResult)
    → rank_results keys results ≡ ok (s ∷ rest)
    → pareto_results keys results ≡ ok front
    → Memᴰ s front
unfolding pareto_results
selected-Pareto keys results rest front s h k =
    let (p, (best, later)) = rank_results-Unbeaten keys results (s ∷ rest) h in
    let all : All (λ r. ¬ (dominates keys r s ≡ ok true)) results =
      All-Perm (λ r. ¬ (dominates keys r s ≡ ok true)) p (not_dominated_by_itself keys s, best) in
    let (kept, (hk, last)) =
      unbind (λ kept. ok (sort_by candidate_lt kept)) front (nondominated keys results results) k in
    subst (Memᴰ s) (ok_inj (sort_by candidate_lt kept) front last) (
      Mem-Perm (Permᴰ.symm (sort_by-Perm candidate_lt kept)) (
        nondominated-keeps keys results results kept s (is_dominated-by_none keys s results all)
          (Mem-Perm p (Memᴰ.head refl)) hk))
