-- ===== src/Runtime/Preflight/Selected.antt =====
-- The preflight of a selected target with the estimate of its resolution.
use temper_ml.Base.{
  nat_eq, bool_eq, list_eq, eq_iff, and-split, int_eq, unbind, ok_inj, ok, All, contains, Text, ◌≡◌,
  refl, sym, ap, subst, true, Option, List,
}
use temper_ml.Domain.Records.{reference_eq}
use temper_ml.Domain.Hardware.{
  target_reference, requirements_reference, ExecutionTarget, HardwareRequirements,
  HardwareCapabilityProfile,
}
use temper_ml.Runtime.Preflight.{is_supported, select_execution_target}
use temper_ml.Runtime.Preflight.Choice.{select_execution_target-Unambiguous}
use temper_ml.Runtime.Preflight.Constraints.{
  validate_preflight_estimate, validate_estimate_resolution, estimated, estimate_resources,
  constraint_checks, preflight, RecipeResolution, EstimateComponents, PreflightEstimate, CheckCode,
  target_class_allowed, accelerator_backend_allowed, target_capabilities_present, ConstraintCheck,
}

-- the checks that look at the target alone
abbrev pub AboutTarget : CheckCode → Type 0
AboutTarget target_class_allowed = Unit
AboutTarget accelerator_backend_allowed = Unit
AboutTarget target_capabilities_present = Unit
AboutTarget _ = ⊥

-- the target is not blocked by what it is
abbrev pub TargetSatisfied : List ConstraintCheck → Type 0
TargetSatisfied checks = All (λ c. AboutTarget c.code → c.satisfied ≡ true) checks

constraint_checks-TargetSatisfied :
    (r : RecipeResolution) (h : HardwareRequirements) (t : ExecutionTarget)
    (p : HardwareCapabilityProfile) (e : PreflightEstimate)
    → is_supported h t ≡ true
    → TargetSatisfied (constraint_checks r h t p e)
unfolding constraint_checks is_supported
constraint_checks-TargetSatisfied r h t p e s =
    let a = and-split (contains t.target_class h.execution_target_classes) _ s in
    let b = and-split (contains t.accelerator_backend h.accelerator_backends) _ a.1 in
    (
      λ u. a.0,
      (
        λ u. b.0,
        (
          λ u. elim u [ ],
          (
            λ u. b.1,
            (
              λ u. elim u [ ],
              (
                λ u. elim u [ ],
                (
                  λ u. elim u [ ],
                  (
                    λ u. elim u [ ],
                    (
                      λ u. elim u [ ],
                      (
                        λ u. elim u [ ],
                        (
                          λ u. elim u [ ],
                          (λ u. elim u [ ], (λ u. elim u [ ], (λ u. elim u [ ], tt))),
                        ),
                      ),
                    ),
                  ),
                ),
              ),
            ),
          ),
        ),
      ),
    )

-- an estimate that was made is valid, and has the sizes of the resolution
estimate_resources-lem :
    (r : RecipeResolution) (c : EstimateComponents) (e : PreflightEstimate)
    → estimate_resources r c ≡ ok e
    → (validate_preflight_estimate e ≡ ok tt)
      × ((e.training_steps ≡ r.training_steps) × (e.effective_batch_size ≡ r.effective_batch_size))
unfolding estimate_resources estimated
estimate_resources-lem r c e h =
    let (u, w) = unbind _ e (validate_preflight_estimate (estimated r c)) h in
    let q = ok_inj (estimated r c) e w.1 in
    (
      subst (λ x. validate_preflight_estimate x ≡ ok tt) q w.0,
      (ap (λ x. x.training_steps) (sym q), ap (λ x. x.effective_batch_size) (sym q)),
    )

preflight-ok :
    (r : RecipeResolution) (h : HardwareRequirements) (t : ExecutionTarget)
    (p : HardwareCapabilityProfile) (c : EstimateComponents) (e : PreflightEstimate)
    → estimate_resources r c ≡ ok e
    → r.hardware_requirements ≡ requirements_reference h
    → r.execution_target ≡ target_reference t
    → p.execution_target ≡ target_reference t
    → preflight r h t p e ≡ ok (constraint_checks r h t p e)
unfolding preflight validate_estimate_resolution
preflight-ok r h t p c e k a b d =
    let w = estimate_resources-lem r c e k in
    rw
      (
        w.0,
        (eq_iff e.training_steps r.training_steps).1 w.1.0,
        (eq_iff e.effective_batch_size r.effective_batch_size).1 w.1.1,
        (eq_iff r.hardware_requirements (requirements_reference h)).1 a,
        (eq_iff r.execution_target (target_reference t)).1 b,
        (eq_iff p.execution_target (target_reference t)).1 d,
      )
      refl

-- A target that was selected, with the estimate that was made for the resolution, passes through
-- `preflight` without an error, and no check of the target alone blocks it.
pub preflight-select_execution_target :
    (r : RecipeResolution) (h : HardwareRequirements) (targets : List ExecutionTarget)
    (id : Option Text) (t : ExecutionTarget) (p : HardwareCapabilityProfile)
    (c : EstimateComponents) (e : PreflightEstimate)
    → select_execution_target h targets id ≡ ok t
    → estimate_resources r c ≡ ok e
    → r.hardware_requirements ≡ requirements_reference h
    → r.execution_target ≡ target_reference t
    → p.execution_target ≡ target_reference t
    → (checks : List ConstraintCheck) × ((preflight r h t p e ≡ ok checks) × TargetSatisfied checks)
preflight-select_execution_target r h targets id t p c e s k a b d = (
  constraint_checks r h t p e,
  (
    preflight-ok r h t p c e k a b d,
    constraint_checks-TargetSatisfied r h t p e
        (select_execution_target-Unambiguous h targets id t s).1,
  ),
)
