-- ===== src/Runtime/Resources.antt =====
-- `SerializedResourceCoordinator` of src/temper_ml/runtime/controller.py: leases of the local
-- accelerators. A method returns the coordinator after the call, and its result or its error.
pub mod Capacity
pub mod Leases
use temper_ml.Base.{
  leb, if◌then◌else◌, ◌==◌, nat_eq, list_eq, Result, ok, err, is_empty, all, any, is_unique,
  sort_by, Text, text_lt, find, put, pop, ℕ, ◌+◌, Bool, true, false, not, ◌&&◌, ◌||◌, Option, none,
  some, List, [], ◌∷◌,
}
use temper_ml.Domain.Identifiers.{is_identifier}

pub data ResourceError : Type 0 where
  capacities_invalid owner_invalid request_invalid resource_unknown owner_conflict
        resource_unavailable lease_missing :
      ResourceError

pub record ResourceLease : Type 0 where
  pub owner_id : Text
  pub resources : List Text

pub record Coordinator : Type 0 where
  pub capacities : List (Text × ℕ)
  pub leases : List (Text × ResourceLease)

abbrev pub Reply : Type 0
Reply = Coordinator × Result ResourceError ResourceLease

abbrev capacity_lt : Text × ℕ → Text × ℕ → Bool
capacity_lt a b = text_lt a.0 b.0

valid_capacity : Text × ℕ → Bool
unfolding is_identifier
valid_capacity (resource, capacity) = is_identifier resource && leb 1 capacity

-- the constructor
unfoldable pub make_coordinator : List (Text × ℕ) → Result ResourceError Coordinator
unfolding valid_capacity is_empty all sort_by
make_coordinator capacities =
    if is_empty capacities || not (all valid_capacity capacities)
    then err capacities_invalid
    else ok (record { capacities = sort_by capacity_lt capacities; leases = [] })

-- how often a resource stands in a list
unfoldable pub occurrences : Text → List Text → ℕ
occurrences r [] = 0
occurrences r (x ∷ xs) = (if x == r then 1 else 0) + occurrences r xs

-- `usage[resource]`
unfoldable pub usage : Text → List (Text × ResourceLease) → ℕ
unfolding occurrences
usage r [] = 0
usage r ((o, l) ∷ ls) = occurrences r l.resources + usage r ls

-- at capacity: `usage[resource] >= self._capacities[resource]`
unfoldable pub is_exhausted : Coordinator → Text → Bool
unfolding usage
is_exhausted c r = elim (find r c.capacities) [ none ↦ true | some k ↦ leb k (usage r c.leases) ]

unfoldable pub is_known : Coordinator → Text → Bool
unfolding find
is_known c r = elim (find r c.capacities) [ none ↦ false | some k ↦ true ]

lease_again : List Text → ResourceLease → Coordinator → Reply
lease_again requested l c = if l.resources == requested then (c, ok l) else (c, err owner_conflict)

lease_new : Text → List Text → Coordinator → Reply
unfolding is_exhausted any put
lease_new owner requested c =
    let l : ResourceLease = record { owner_id = owner; resources = requested } in
    if any (is_exhausted c) requested
    then (c, err resource_unavailable)
    else (record c { leases = put owner l c.leases }, ok l)

lease_for : Text → List Text → Option ResourceLease → Coordinator → Reply
unfolding lease_again lease_new
lease_for owner requested (some l) c = lease_again requested l c
lease_for owner requested none c = lease_new owner requested c

acquire_sorted : Text → List Text → Coordinator → Reply
unfolding lease_for is_empty is_unique is_known all find
acquire_sorted owner requested c =
    if is_empty requested || not (is_unique requested)
    then (c, err request_invalid)
    else if not (all (is_known c) requested)
    then (c, err resource_unknown)
    else lease_for owner requested (find owner c.leases) c

unfoldable pub acquire : Text → List Text → Coordinator → Reply
unfolding acquire_sorted is_identifier sort_by
acquire owner resources c =
    if not (is_identifier owner)
    then (c, err owner_invalid)
    else acquire_sorted owner (sort_by text_lt resources) c

released : Text → Option ResourceLease → Coordinator → Reply
unfolding pop
released owner none c = (c, err lease_missing)
released owner (some l) c = (record c { leases = pop owner c.leases }, ok l)

unfoldable pub release : Text → Coordinator → Reply
unfolding released find
release owner c = released owner (find owner c.leases) c
