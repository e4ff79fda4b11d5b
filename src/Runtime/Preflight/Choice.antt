-- ===== src/Runtime/Preflight/Choice.antt =====
-- Which target is selected: one that is supported, and never by chance.
use temper_ml.Base.{
  ◌==◌, nat_eq, list_eq, eq_iff, Bool-cases, ok_inj, ok, contains, sort_by, Text, sort_by-Perm,
  Perm-one, Mem-Perm, ◌≡◌, refl, sym, ap, ◌∙◌, subst, ◌↔◌, inl, inr, Bool, true, Option, none, some,
  Memᴰ, List, [], ◌∷◌, arith,
}
use temper_ml.Domain.Hardware.{target_eq, ExecutionTarget, HardwareRequirements}
use temper_ml.Runtime.Preflight.{
  is_supported, filter, id_lt, compatible_targets, selected_target, only_target,
  select_execution_target,
}

filtered_one :
    (p : ExecutionTarget → Bool) (t u : ExecutionTarget) (ts : List ExecutionTarget)
    → p u ≡ true
    → Memᴰ t (u ∷ filter p ts)
    → (Memᴰ t (filter p ts) → Memᴰ t ts × (p t ≡ true))
    → Memᴰ t (u ∷ ts) × (p t ≡ true)
filtered_one p t u ts y (Memᴰ.head e) f = (Memᴰ.head e, ap p e ∙ y)
filtered_one p t u ts y (Memᴰ.tail m) f = (Memᴰ.tail (f m).0, (f m).1)

mem-filter :
    (p : ExecutionTarget → Bool) (t : ExecutionTarget) (ts : List ExecutionTarget)
    → Memᴰ t (filter p ts)
    → Memᴰ t ts × (p t ≡ true)
unfolding filter
mem-filter p t [] m = elim m [ ]
mem-filter p t (u ∷ ts) m = elim (Bool-cases (p u)) [
  | inl y ↦ filtered_one p t u ts y (rw y at m) (mem-filter p t ts)
  | inr n ↦ let (k, q) = mem-filter p t ts (rw n at m) in (Memᴰ.tail k, q)
]

contains-mem : (t : ExecutionTarget) (ts : List ExecutionTarget) → contains t ts ≡ true → Memᴰ t ts
unfolding contains
contains-mem t [] h = absurd (cc h)
contains-mem t (u ∷ ts) h = elim (Bool-cases (u == t)) [
  | inl y ↦ Memᴰ.head (sym ((eq_iff u t).0 y))
  | inr n ↦ Memᴰ.tail (contains-mem t ts (rw n at h))
]

compatible_member :
    (requirements : HardwareRequirements) (targets : List ExecutionTarget) (t : ExecutionTarget)
    → Memᴰ t (compatible_targets requirements targets)
    → Memᴰ t targets × (is_supported requirements t ≡ true)
unfolding compatible_targets
compatible_member requirements targets t m =
    mem-filter (is_supported requirements) t targets
      (Mem-Perm (sort_by-Perm id_lt (filter (is_supported requirements) targets)) m)

selected_target-contained :
    (compatible selected : List ExecutionTarget) (t : ExecutionTarget)
    → selected_target compatible selected ≡ ok t
    → (contains t compatible ≡ true) × (selected ≡ t ∷ [])
unfolding selected_target
selected_target-contained compatible [] t h = ground arith
selected_target-contained compatible (u ∷ []) t h = elim (Bool-cases (contains u compatible)) [
  | inl y ↦
      let q : u ≡ t = ok_inj u t (rw y at h) in
      (subst (λ v. contains v compatible ≡ true) q y, ap (λ v. v ∷ []) q)
  | inr n ↦ absurd (cc (rw n at h))
]
selected_target-contained compatible (u ∷ v ∷ us) t h = ground arith

only_target-one :
    (ts : List ExecutionTarget) (t : ExecutionTarget) → only_target ts ≡ ok t → ts ≡ t ∷ []
unfolding only_target
only_target-one [] t h = ground arith
only_target-one (u ∷ []) t h = ground arith
only_target-one (u ∷ v ∷ ts) t h = ground arith

-- how the choice was free of chance: the only target of the id, or the only supported one
abbrev pub Unambiguous :
    HardwareRequirements → List ExecutionTarget → Option Text → ExecutionTarget → Type 0
Unambiguous requirements targets (some id) t = filter (λ u. u.target_id == id) targets ≡ t ∷ []
Unambiguous requirements targets none t = filter (is_supported requirements) targets ≡ t ∷ []

-- A target that is selected is one of the targets, and is supported. With an id it is the only
-- target of that id; without one it is the only supported target.
pub select_execution_target-Unambiguous :
    (requirements : HardwareRequirements) (targets : List ExecutionTarget) (id : Option Text)
    (t : ExecutionTarget)
    → select_execution_target requirements targets id ≡ ok t
    → Memᴰ t targets × (is_supported requirements t ≡ true) × Unambiguous requirements targets id t
unfolding select_execution_target compatible_targets
select_execution_target-Unambiguous requirements targets (some id) t h =
    let (c, one) =
      selected_target-contained (compatible_targets requirements targets)
        (filter (λ u. u.target_id == id) targets) t h in
    let (m, s) =
      compatible_member requirements targets t
        (contains-mem t (compatible_targets requirements targets) c) in
    (m, s, one)
select_execution_target-Unambiguous requirements targets none t h =
    let one = only_target-one (compatible_targets requirements targets) t h in
    let (m, s) =
      compatible_member requirements targets t (subst (Memᴰ t) (sym one) (Memᴰ.head refl)) in
    (m, s, Perm-one (sort_by-Perm id_lt (filter (is_supported requirements) targets)) t one)

-- Without an id, a target is selected exactly when it is the only supported one.
pub select_execution_target-without_id :
    (requirements : HardwareRequirements) (targets : List ExecutionTarget) (t : ExecutionTarget)
    → select_execution_target requirements targets none ≡ ok t
      ↔ filter (is_supported requirements) targets ≡ t ∷ []
unfolding select_execution_target compatible_targets only_target sort_by
select_execution_target-without_id requirements targets t =
    ((λ h. (select_execution_target-Unambiguous requirements targets none t h).2), λ h. rw h refl)
