-- ===== src/Examples/Resources.antt =====
-- The coordinator of one accelerator.
use temper_ml.Base.{
  nat_eq, List-discrete, list_eq, ok, err, Text, codes, find, ℕ, ◌≡◌, refl, none, List, [], ◌∷◌,
  ℕ_discrete,
}
use temper_ml.Runtime.Resources.{
  make_coordinator, acquire, release, resource_unavailable, ResourceLease, Coordinator,
}
use temper_ml.Runtime.Resources.Capacity.{Inv}
use temper_ml.Runtime.Resources.Leases.{
  capacity_respected, release-acquire, acquire_again, none_made, acquired, let_go,
}

abbrev gpu : Text
gpu = codes "gpu"

abbrev capacities : List (Text × ℕ)
capacities = (gpu, 1) ∷ []

abbrev idle : Coordinator
idle = record { capacities = capacities; leases = [] }

made : make_coordinator capacities ≡ ok idle
unfolding make_coordinator ℕ_discrete
made = refl

abbrev run_lease : ResourceLease
run_lease = record { owner_id = codes "run-1"; resources = gpu ∷ [] }

leased : (acquire (codes "run-1") (gpu ∷ []) idle).1 ≡ ok run_lease
unfolding acquire ℕ_discrete List-discrete
leased = refl

refused :
    (acquire (codes "run-2") (gpu ∷ []) (acquire (codes "run-1") (gpu ∷ []) idle).0).1
    ≡ err resource_unavailable
unfolding acquire ℕ_discrete List-discrete
refused = refl

capacity_respected_example :
    Inv (release (codes "run-1") (acquire (codes "run-1") (gpu ∷ []) idle).0).0
capacity_respected_example =
    capacity_respected capacities made
      (let_go (codes "run-1") (acquired (codes "run-1") (gpu ∷ []) (none_made refl) refl) refl)

is_absent : find (codes "run-1") idle.leases ≡ none
unfolding find
is_absent = refl

release-acquire_example :
    release (codes "run-1") (acquire (codes "run-1") (gpu ∷ []) idle).0 ≡ (idle, ok run_lease)
release-acquire_example = release-acquire (codes "run-1") (gpu ∷ []) idle run_lease is_absent leased

acquire_again_example :
    acquire (codes "run-1") (gpu ∷ []) (acquire (codes "run-1") (gpu ∷ []) idle).0
    ≡ ((acquire (codes "run-1") (gpu ∷ []) idle).0, ok run_lease)
acquire_again_example = acquire_again (codes "run-1") (gpu ∷ []) idle run_lease leased
