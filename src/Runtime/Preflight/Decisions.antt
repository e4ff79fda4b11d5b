-- ===== src/Runtime/Preflight/Decisions.antt =====
-- What it means that a run is ready, and that no selected target is blocked as a target.
use temper_ml.Base.{
  ltb, leb, ◌==◌, nat_eq, bool_eq, list_eq, eq_iff, eq_refl, Bool-cases, and-split, Eq, int_eq, all,
  All, contains, Text, codes, ℕ, ◌≤◌, ◌≡◌, refl, sym, ◌↔◌, ◌⊎◌, inl, inr, true, ◌||◌, Option, none,
  some, Memᴰ, List, [], ◌∷◌, arith,
}
use temper_ml.Domain.Records.{reference_eq}
use temper_ml.Domain.Hardware.{ExecutionTarget, HardwareRequirements, HardwareCapabilityProfile}
use temper_ml.Store.Json.{get, Json, Fields, no_fields, field}
use temper_ml.Domain.Compatibility.{covers}
use temper_ml.Runtime.Preflight.Constraints.{
  max_or_zero, json_equal, holds_version, versions_match, constraint_checks, is_ready,
  RecipeResolution, PreflightEstimate,
}

module _ {A : Type 0} ⦃eq : Eq A⦄ where
  contains-Mem : (a : A) (xs : List A) → contains a xs ≡ true → Memᴰ a xs
  unfolding contains
  contains-Mem a [] h = cc h
  contains-Mem a (x ∷ xs) h = elim (Bool-cases (x == a)) [
    | inl e ↦ Memᴰ.head (sym ((eq_iff x a).0 e))
    | inr e ↦ Memᴰ.tail (contains-Mem a xs (rw e at h))
  ]

  Mem-contains : (a : A) (xs : List A) → Memᴰ a xs → contains a xs ≡ true
  unfolding contains
  Mem-contains a [] m = elim m [ ]
  Mem-contains a (x ∷ xs) (Memᴰ.head e) = rw (← e, eq_refl a) refl
  Mem-contains a (x ∷ xs) (Memᴰ.tail m) = ground (arith, Mem-contains a xs m)

-- everything that is required is offered
abbrev pub Offers : List Text → List Text → Type 0
Offers offered required = All (λ c. Memᴰ c offered) required

covers-Offers :
    (offered required : List Text) → covers offered required ≡ true → Offers offered required
unfolding covers
covers-Offers offered [] h = tt
covers-Offers offered (c ∷ cs) h =
    let s = and-split (contains c offered) (covers offered cs) h in
    (contains-Mem c offered s.0, covers-Offers offered cs s.1)

Offers-covers :
    (offered required : List Text) → Offers offered required → covers offered required ≡ true
unfolding covers
Offers-covers offered [] o = refl
Offers-covers offered (c ∷ cs) o =
    rw (Mem-contains c offered o.0, Offers-covers offered cs o.1) refl

-- Some accelerator has so much memory, or none is needed.
abbrev pub HasMemory : ℕ → List ℕ → Type 0
HasMemory need ms = (need ≡ 0) ⊎ ((n : ℕ) × (Memᴰ n ms × (need ≤ n)))

max_or_zero-HasMemory :
    (need : ℕ) (ms : List ℕ) → leb need (max_or_zero ms) ≡ true → HasMemory need ms
unfolding max_or_zero
max_or_zero-HasMemory need [] h = inl (ground (arith, h))
max_or_zero-HasMemory need (m ∷ ms) h = elim (Bool-cases (ltb (max_or_zero ms) m)) [
  | inl e ↦ inr (m, (Memᴰ.head refl, ground (arith, rw e at h)))
  | inr e ↦ elim (max_or_zero-HasMemory need ms (rw e at h)) [
    | inl z ↦ inl z
    | inr s ↦ inr (s.0, (Memᴰ.tail s.1.0, s.1.1))
  ]
]

Mem-max_or_zero : (n : ℕ) (ms : List ℕ) → Memᴰ n ms → n ≤ max_or_zero ms
unfolding max_or_zero
Mem-max_or_zero n [] m = elim m [ ]
Mem-max_or_zero n (k ∷ ms) (Memᴰ.head e) = ground (arith, e)
Mem-max_or_zero n (k ∷ ms) (Memᴰ.tail m) = ground (arith, Mem-max_or_zero n ms m)

HasMemory-max_or_zero :
    (need : ℕ) (ms : List ℕ) → HasMemory need ms → leb need (max_or_zero ms) ≡ true
HasMemory-max_or_zero need ms (inl z) = ground (arith, z)
HasMemory-max_or_zero need ms (inr s) = ground (arith, s.1.1, Mem-max_or_zero s.0 ms s.1.0)

-- every required version is observed, and is equal
abbrev pub Observed : Fields → Fields → Type 0
Observed no_fields observed = Unit
Observed (field k v fs) observed =
    ((w : Json) × ((get k observed ≡ some w) × (json_equal w v ≡ true))) × Observed fs observed

holds_version-lem :
    (o : Option Json) (v : Json)
    → holds_version o v ≡ true
    → (w : Json) × ((o ≡ some w) × (json_equal w v ≡ true))
unfolding holds_version
holds_version-lem none v h = cc h
holds_version-lem (some w) v h = (w, (refl, h))

versions_match-Observed :
    (fs observed : Fields) → versions_match fs observed ≡ true → Observed fs observed
unfolding versions_match
versions_match-Observed no_fields observed h = tt
versions_match-Observed (field k v fs) observed h =
    let s = and-split (holds_version (get k observed) v) (versions_match fs observed) h in
    (holds_version-lem (get k observed) v s.0, versions_match-Observed fs observed s.1)

Observed-versions_match :
    (fs observed : Fields) → Observed fs observed → versions_match fs observed ≡ true
unfolding versions_match holds_version
Observed-versions_match no_fields observed o = refl
Observed-versions_match (field k v fs) observed o =
    rw (o.0.1.0, o.0.1.1, Observed-versions_match fs observed o.1) refl

-- What a run needs of its target, of the profile of its machine and of its estimate.
pub record Fits (r : RecipeResolution) (h : HardwareRequirements) (t : ExecutionTarget)
    (p : HardwareCapabilityProfile) (e : PreflightEstimate) : Type 0 where
  pub class_allowed : Memᴰ t.target_class h.execution_target_classes
  pub backend_allowed : Memᴰ t.accelerator_backend h.accelerator_backends
  pub backend_same : p.accelerator_backend ≡ t.accelerator_backend
  pub target_offers : Offers t.capabilities h.required_capabilities
  pub profile_offers : Offers p.capabilities h.required_capabilities
  pub versions_observed : Observed r.library_versions p.library_versions
  pub minimum_accelerator : HasMemory h.minimum_accelerator_memory_bytes p.accelerator_memory_bytes
  pub estimated_accelerator : HasMemory e.accelerator_memory_bytes p.accelerator_memory_bytes
  pub minimum_system : h.minimum_system_memory_bytes ≤ p.system_memory_bytes
  pub estimated_system : e.system_memory_bytes ≤ p.system_memory_bytes
  pub precision_modes : Offers p.supported_precision_modes h.required_precision_modes
  pub precision : Memᴰ r.precision p.supported_precision_modes
  pub quantization_modes : Offers p.supported_quantization_modes h.required_quantization_modes
  pub quantization :
      (r.quantization ≡ codes "none") ⊎ Memᴰ r.quantization p.supported_quantization_modes

quantization-lem :
    (q : Text) (modes : List Text)
    → (q == codes "none" || contains q modes) ≡ true
    → (q ≡ codes "none") ⊎ Memᴰ q modes
quantization-lem q modes h = elim (Bool-cases (q == codes "none")) [
  | inl e ↦ inl ((eq_iff q (codes "none")).0 e)
  | inr e ↦ inr (contains-Mem q modes (rw e at h))
]

lem-quantization :
    (q : Text) (modes : List Text)
    → (q ≡ codes "none") ⊎ Memᴰ q modes
    → (q == codes "none" || contains q modes) ≡ true
lem-quantization q modes (inl e) = ground (arith, e)
lem-quantization q modes (inr m) = ground (arith, Mem-contains q modes m)

leb-le : (m n : ℕ) → leb m n ≡ true → m ≤ n
leb-le m n h = ground (arith, h)

le-leb : (m n : ℕ) → m ≤ n → leb m n ≡ true
le-leb m n h = ground (arith, h)

module _ (r : RecipeResolution) (h : HardwareRequirements) (t : ExecutionTarget)
    (p : HardwareCapabilityProfile) (e : PreflightEstimate) where
  is_ready-Fits : is_ready (constraint_checks r h t p e) ≡ true → Fits r h t p e
  unfolding is_ready all constraint_checks
  is_ready-Fits k =
      let a = and-split _ _ k in
      let b = and-split _ _ a.1 in
      let c = and-split _ _ b.1 in
      let d = and-split _ _ c.1 in
      let f = and-split _ _ d.1 in
      let g = and-split _ _ f.1 in
      let i = and-split _ _ g.1 in
      let j = and-split _ _ i.1 in
      let l = and-split _ _ j.1 in
      let m = and-split _ _ l.1 in
      let n = and-split _ _ m.1 in
      let o = and-split _ _ n.1 in
      let q = and-split _ _ o.1 in
      let s = and-split _ _ q.1 in
      record {
        class_allowed = contains-Mem t.target_class h.execution_target_classes a.0;
        backend_allowed = contains-Mem t.accelerator_backend h.accelerator_backends b.0;
        backend_same = (eq_iff p.accelerator_backend t.accelerator_backend).0 c.0;
        target_offers = covers-Offers t.capabilities h.required_capabilities d.0;
        profile_offers = covers-Offers p.capabilities h.required_capabilities f.0;
        versions_observed = versions_match-Observed r.library_versions p.library_versions g.0;
        minimum_accelerator =
            max_or_zero-HasMemory h.minimum_accelerator_memory_bytes p.accelerator_memory_bytes i.0;
        estimated_accelerator =
            max_or_zero-HasMemory e.accelerator_memory_bytes p.accelerator_memory_bytes j.0;
        minimum_system = leb-le h.minimum_system_memory_bytes p.system_memory_bytes l.0;
        estimated_system = leb-le e.system_memory_bytes p.system_memory_bytes m.0;
        precision_modes = covers-Offers p.supported_precision_modes h.required_precision_modes n.0;
        precision = contains-Mem r.precision p.supported_precision_modes o.0;
        quantization_modes =
            covers-Offers p.supported_quantization_modes h.required_quantization_modes q.0;
        quantization = quantization-lem r.quantization p.supported_quantization_modes s.0;
      }

  Fits-is_ready : Fits r h t p e → is_ready (constraint_checks r h t p e) ≡ true
  unfolding is_ready all constraint_checks
  Fits-is_ready f =
      rw
        (
          Mem-contains t.target_class h.execution_target_classes f.class_allowed,
          Mem-contains t.accelerator_backend h.accelerator_backends f.backend_allowed,
          (eq_iff p.accelerator_backend t.accelerator_backend).1 f.backend_same,
          Offers-covers t.capabilities h.required_capabilities f.target_offers,
          Offers-covers p.capabilities h.required_capabilities f.profile_offers,
          Observed-versions_match r.library_versions p.library_versions f.versions_observed,
          HasMemory-max_or_zero h.minimum_accelerator_memory_bytes p.accelerator_memory_bytes
              f.minimum_accelerator,
          HasMemory-max_or_zero e.accelerator_memory_bytes p.accelerator_memory_bytes
              f.estimated_accelerator,
          le-leb h.minimum_system_memory_bytes p.system_memory_bytes f.minimum_system,
          le-leb e.system_memory_bytes p.system_memory_bytes f.estimated_system,
          Offers-covers p.supported_precision_modes h.required_precision_modes f.precision_modes,
          Mem-contains r.precision p.supported_precision_modes f.precision,
          Offers-covers p.supported_quantization_modes h.required_quantization_modes
              f.quantization_modes,
          lem-quantization r.quantization p.supported_quantization_modes f.quantization,
        )
        refl

  -- A run is ready exactly when its target, the profile of its machine and its estimate fit what
  -- the resolution and the requirements ask for.
  pub is_ready-iff_Fits : (is_ready (constraint_checks r h t p e) ≡ true) ↔ Fits r h t p e
  is_ready-iff_Fits = (is_ready-Fits, Fits-is_ready)
