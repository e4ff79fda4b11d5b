-- ===== src/Base/Dicts.antt =====
-- Python's `dict` as the list of its items, in the order in which the keys came.
use mathlib.Core.Path.{◌≡◌, refl}
use mathlib.Core.Option.{Option, none, some}
use mathlib.Core.List.{List, [], ◌∷◌}
use native.Mathlib.Omega.{arith}
use temper_ml.Base.Tests.{if◌then◌else◌, ◌==◌, Eq}

module _ {ℓ} {K V : Type ℓ} ⦃e : Eq K⦄ where
  -- `d.get(k)`
  unfoldable pub find : K → List (K × V) → Option V
  find k [] = none
  find k ((j, v) ∷ d) = if j == k then some v else find k d

  -- `d[k] = v`: in place, or at the end
  unfoldable pub put : K → V → List (K × V) → List (K × V)
  put k v [] = (k, v) ∷ []
  put k v ((j, w) ∷ d) = if j == k then (j, v) ∷ d else (j, w) ∷ put k v d

  -- `d.pop(k)`, of a dict that has each key once
  unfoldable pub pop : K → List (K × V) → List (K × V)
  pop k [] = []
  pop k ((j, w) ∷ d) = if j == k then d else (j, w) ∷ pop k d

  pub find-put :
      (k j : K) (v : V) (d : List (K × V))
      → find j (put k v d) ≡ (if k == j then some v else find j d)
  unfolding find put
  find-put k j v [] = refl
  find-put k j v ((i, w) ∷ d) = ground (arith, find-put k j v d)

  pub pop-put_absent : (k : K) (v : V) (d : List (K × V)) → find k d ≡ none → pop k (put k v d) ≡ d
  unfolding find put pop
  pop-put_absent k v [] h = ground arith
  pop-put_absent k v ((i, w) ∷ d) h = ground (arith, pop-put_absent k v d)
