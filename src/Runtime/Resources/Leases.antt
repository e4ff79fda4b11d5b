-- ===== src/Runtime/Resources/Leases.antt =====
-- Any calls of a coordinator in any order, a lease that is asked for again, and its release.
use temper_ml.Base.{
  nat_eq, list_eq, Result, ok, Text, find, put, find-put, pop-put_absent, ℕ, ◌≡◌, inl, inr, none,
  List, [], arith,
}
use temper_ml.Runtime.Resources.{
  make_coordinator, usage, is_known, lease_again, lease_for, acquire_sorted, acquire, released,
  release, ResourceError, ResourceLease, Coordinator,
}
use temper_ml.Runtime.Resources.Capacity.{
  granted, acquire_cases, acquire-Inv, release-Inv, Inv, Granted,
}

-- The coordinators that any calls make, in any order and by any owners.
pub data Calls (c : Coordinator) : Coordinator → Type 0 where
  none_made : {d : Coordinator} → d ≡ c → Calls c d
  acquired :
      {b d : Coordinator} (owner : Text) (resources : List Text)
      → Calls c b
      → d ≡ (acquire owner resources b).0
      → Calls c d
  let_go : {b d : Coordinator} (owner : Text) → Calls c b → d ≡ (release owner b).0 → Calls c d

make_coordinator-Inv :
    (capacities : List (Text × ℕ)) (c : Coordinator) → make_coordinator capacities ≡ ok c → Inv c
unfolding make_coordinator usage
make_coordinator-Inv capacities c h = record {
  within = λ r k f. let e : c.leases ≡ [] = ground arith in rw e (unfold usage in omega arith);
}

-- Whatever is acquired and released, a resource is never in more leases than its capacity.
pub capacity_respected :
    (capacities : List (Text × ℕ)) {c d : Coordinator}
    → make_coordinator capacities ≡ ok c
    → Calls c d
    → Inv d
capacity_respected capacities {c} h (none_made e) = rw e (make_coordinator-Inv capacities c h)
capacity_respected capacities h (acquired {b = b} owner resources r e) =
    rw e (acquire-Inv owner b (capacity_respected capacities h r) resources)
capacity_respected capacities h (let_go {b = b} owner r e) =
    rw e (release-Inv owner b (capacity_respected capacities h r))

-- The release of a lease that was just made restores the coordinator, and returns that lease.
pub release-acquire :
    (owner : Text) (resources : List Text) (c : Coordinator) (l : ResourceLease)
    → find owner c.leases ≡ none
    → (acquire owner resources c).1 ≡ ok l
    → release owner (acquire owner resources c).0 ≡ (c, ok l)
unfolding release released
release-acquire owner resources c l f h = elim (acquire_cases owner resources c) [
  | inl (same, held) ↦ absurd (cc (held l h, f))
  | inr g ↦ rw g.result (
      ground (
        arith,
        g.result,
        find-put owner owner (granted owner resources) c.leases,
        pop-put_absent owner (granted owner resources) c.leases f,
      ))
]

pair_eta :
    (r : Coordinator × Result ResourceError ResourceLease) (c : Coordinator)
    (x : Result ResourceError ResourceLease)
    → r.0 ≡ c
    → r.1 ≡ x
    → r ≡ (c, x)
pair_eta (d, y) c x e f = ground arith

held_again :
    (owner : Text) (resources : List Text) (c : Coordinator)
    → Granted owner resources c
    → let d = record c { leases = put owner (granted owner resources) c.leases } in
      acquire owner resources d ≡ (d, ok (granted owner resources))
unfolding acquire acquire_sorted lease_for lease_again granted is_known
held_again owner resources c g =
    rw (find-put owner owner (granted owner resources) c.leases)
      (ground (arith, g.owned, g.present, g.known, g.unique))

-- An owner that asks again for the same resources gets the lease that it has.
pub acquire_again :
    (owner : Text) (resources : List Text) (c : Coordinator) (l : ResourceLease)
    → (acquire owner resources c).1 ≡ ok l
    → acquire owner resources (acquire owner resources c).0 ≡ ((acquire owner resources c).0, ok l)
acquire_again owner resources c l h = elim (acquire_cases owner resources c) [
  | inl (same, _) ↦ rw same (pair_eta (acquire owner resources c) c (ok l) same h)
  | inr g ↦
      let e : l ≡ granted owner resources = cc (h, g.result) in
      rw (g.result, e) (held_again owner resources c g)
]
