-- ===== src/Runtime/Resources/Capacity.antt =====
-- No resource is leased beyond its capacity, and leases come and go.
use temper_ml.Domain.Identifiers.{is_identifier}
use temper_ml.Base.{
  nat_eq, List-discrete, list_eq, Option-cases, ok, is_empty, all, any, contains, is_unique,
  sort_by, Text, text_lt, find, put, pop, ℕ, ◌+◌, ◌≤◌, ◌≡◌, refl, ◌⊎◌, inl, inr, Bool, true, false,
  none, some, List, [], ◌∷◌, arith, ℕ_discrete,
}
use temper_ml.Runtime.Resources.{
  occurrences, usage, is_exhausted, is_known, lease_again, lease_new, lease_for, acquire_sorted,
  acquire, released, release, ResourceLease, Coordinator,
}

-- No resource is in use more often than its capacity.
pub record Inv (c : Coordinator) : Type 0 where
  pub within : (r : Text) (k : ℕ) → find r c.capacities ≡ some k → usage r c.leases ≤ k

usage-put :
    (r o : Text) (l : ResourceLease) (ls : List (Text × ResourceLease))
    → find o ls ≡ none
    → usage r (put o l ls) ≡ usage r ls + occurrences r l.resources
unfolding usage find put
usage-put r o l [] h = omega arith
usage-put r o l ((p, m) ∷ ls) h = ground (arith, usage-put r o l ls)

usage-pop-le : (r o : Text) (ls : List (Text × ResourceLease)) → usage r (pop o ls) ≤ usage r ls
unfolding usage pop
usage-pop-le r o [] = omega arith
usage-pop-le r o ((p, m) ∷ ls) = ground (arith, usage-pop-le r o ls)

occurrences_absent : (r : Text) (xs : List Text) → contains r xs ≡ false → occurrences r xs ≡ 0
unfolding occurrences contains
occurrences_absent r [] h = refl
occurrences_absent r (x ∷ xs) h = ground (arith, occurrences_absent r xs)

occurrences_unique : (r : Text) (xs : List Text) → is_unique xs ≡ true → occurrences r xs ≤ 1
unfolding occurrences is_unique
occurrences_unique r [] h = omega arith
occurrences_unique r (x ∷ xs) h = ground (arith, occurrences_absent x xs, occurrences_unique r xs)

occurrences_none :
    (p : Text → Bool) (r : Text) (xs : List Text)
    → any p xs ≡ false
    → p r ≡ true
    → occurrences r xs ≡ 0
unfolding occurrences any
occurrences_none p r [] h t = refl
occurrences_none p r (x ∷ xs) h t = elim (List-discrete ℕ_discrete x r) [
  | yes e ↦ absurd (ground (arith, e))
  | no n ↦ ground (arith, occurrences_none p r xs)
]

-- the lease that `acquire` makes
unfoldable pub granted : Text → List Text → ResourceLease
granted owner resources = record { owner_id = owner; resources = sort_by text_lt resources }

-- A call of `acquire` that makes a new lease.
pub record Granted (owner : Text) (resources : List Text) (c : Coordinator) : Type 0 where
  pub owned : is_identifier owner ≡ true
  pub present : is_empty (sort_by text_lt resources) ≡ false
  pub known : all (is_known c) (sort_by text_lt resources) ≡ true
  pub unique : is_unique (sort_by text_lt resources) ≡ true
  pub absent : find owner c.leases ≡ none
  pub available : any (is_exhausted c) (sort_by text_lt resources) ≡ false
  pub result : acquire owner resources c ≡ (
    record c { leases = put owner (granted owner resources) c.leases },
    ok (granted owner resources),
  )

pub acquire_cases :
    (owner : Text) (resources : List Text) (c : Coordinator)
    → (((acquire owner resources c).0 ≡ c)
        × ((l : ResourceLease)
            → (acquire owner resources c).1 ≡ ok l
            → find owner c.leases ≡ some l))
      ⊎ Granted owner resources c
unfolding acquire acquire_sorted lease_for lease_again lease_new granted
acquire_cases owner resources c = ground arith

module _ (owner : Text) (c : Coordinator) (v : Inv c) where
  granted-Inv :
      (resources : List Text)
      → Granted owner resources c
      → Inv (record c { leases = put owner (granted owner resources) c.leases })
  unfolding granted is_exhausted
  granted-Inv resources g = record {
    within = λ r k h. ground (
      arith,
      v.within r k h,
      occurrences_unique r (sort_by text_lt resources) g.unique,
      occurrences_none (is_exhausted c) r (sort_by text_lt resources) g.available,
      usage-put r owner (granted owner resources) c.leases g.absent,
    );
  }

  -- `acquire` keeps every resource within its capacity.
  pub acquire-Inv : (resources : List Text) → Inv (acquire owner resources c).0
  acquire-Inv resources = elim (acquire_cases owner resources c) [
    | inl (same, _) ↦ rw same v
    | inr g ↦ rw g.result (granted-Inv resources g)
  ]

  -- So does `release`.
  pub release-Inv : Inv (release owner c).0
  unfolding release released
  release-Inv = elim (Option-cases (find owner c.leases)) [
    | inl e ↦ rw e v
    | inr (l, e) ↦
        rw e (record {
          within = λ r k h. omega (arith, v.within r k h, usage-pop-le r owner c.leases);
        })
  ]
