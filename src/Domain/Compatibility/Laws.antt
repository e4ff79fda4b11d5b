-- ===== src/Domain/Compatibility/Laws.antt =====
-- When two records are compatible: exactly when what the relationship names agrees.
use temper_ml.Domain.Identifiers.{is_identifier}
use temper_ml.Domain.Hardware.{ExecutionTarget}
use temper_ml.Base.{
  nat_eq, list_eq, eq_iff, ◌>>◌, ensure, is_ok, Result, ok, err, contains, is_unique, Text, ◌≡◌,
  refl, sym, ◌∙◌, ◌↔◌, Bool, true, false, not, ◌||◌, Option, none, some, List, [], ◌∷◌, ◌++◌, arith,
}
use temper_ml.Domain.Projections.{identity_eq, ContentIdentity}
use temper_ml.Domain.Compatibility.{
  Violation-discrete, violation_eq, make_decision, is_compatible, note, check_comparison, lora,
  merge_violations, check_merge, check_resume, target_constraint, covers, constraint_violations,
  check_runtime_target, refers_to, check_deployment, CompatibilityRelationship, merge, deployment,
  Violation, base_model_mismatch, tokenizer_mismatch, adapter_type_mismatch,
  compatibility_group_mismatch, integrity_evidence_mismatch, CompatibilityDecision,
  CompatibilityError, invalid_merge_method, ComparisonProfile, RuntimeTargetConstraint,
  CompatibilityGroup, ResumeCheckpoint, ResumeRequest, Artifact,
}

-- The outcome of a check that did not raise: no violation was found.
abbrev pub Passes : Result CompatibilityError CompatibilityDecision → Type 0
Passes (ok d) = is_compatible d ≡ true
Passes (err e) = ⊥

-- What two comparable profiles share.
pub record SameTask (left right : ComparisonProfile) : Type 0 where
  pub policy : left.project_policy.identity ≡ right.project_policy.identity
  pub task : left.task_definition.identity ≡ right.task_definition.identity
  pub evaluation : left.evaluation_policy ≡ right.evaluation_policy
  pub objectives : left.objectives ≡ right.objectives

-- Two profiles are comparable exactly when they share policy, task, evaluation and objectives.
pub comparison_iff :
    (left right : ComparisonProfile) → Passes (check_comparison left right) ↔ SameTask left right
unfolding check_comparison is_compatible Violation-discrete
comparison_iff left right = ground arith

-- Comparability is an equivalence, so that candidates fall into cohorts.
pub comparison_equivalence :
    (a b c : ComparisonProfile)
    → Passes (check_comparison a a)
      × (Passes (check_comparison a b) → Passes (check_comparison b a))
      × (Passes (check_comparison a b)
          → Passes (check_comparison b c)
          → Passes (check_comparison a c))
comparison_equivalence a b c = (
  (comparison_iff a a).1
      (record { policy = refl; task = refl; evaluation = refl; objectives = refl }),
  (λ h. (comparison_iff b a).1 (ground (arith, (comparison_iff a b).0 h))),
  λ h k.
      (comparison_iff a c).1 (ground (arith, (comparison_iff a b).0 h, (comparison_iff b c).0 k)),
)

-- What a merge of two adapters needs.
pub record Mergeable (left right : CompatibilityGroup) (method : Text)
    (left_verified right_verified : Bool) : Type 0 where
  pub identifier : is_identifier method ≡ true
  pub left_lora : left.adapter_type ≡ lora
  pub right_lora : right.adapter_type ≡ lora
  pub model : left.base_model_revision.identity ≡ right.base_model_revision.identity
  pub tokenizer : left.tokenizer_identity ≡ right.tokenizer_identity
  pub modules : left.target_modules ≡ right.target_modules
  pub left_method : contains method left.merge_methods ≡ true
  pub right_method : contains method right.merge_methods ≡ true
  pub left_checked : left_verified ≡ true
  pub right_checked : right_verified ≡ true

decision-empty :
    (r : CompatibilityRelationship) (vs : List Violation) → Passes (make_decision r vs) → vs ≡ []
unfolding make_decision is_compatible
decision-empty r [] h = refl
decision-empty r (v ∷ vs) h = absurd (ground arith)

empty-Passes :
    (r : CompatibilityRelationship) (vs : List Violation) → vs ≡ [] → Passes (make_decision r vs)
unfolding make_decision is_compatible
empty-Passes r vs e = rw e refl

Mergeable-of_empty :
    (left right : CompatibilityGroup) (method : Text) (a b : Bool)
    → is_identifier method ≡ true
    → merge_violations left right method a b ≡ []
    → Mergeable left right method a b
unfolding merge_violations
Mergeable-of_empty left right method a b i h = ground arith

-- A test that holds adds no violation.
no_note :
    (b : Bool) (v : Violation) (vs : List Violation)
    → b ≡ true
    → vs ≡ []
    → note (not b) v ++ vs ≡ []
no_note b v vs h e = ground arith

no_note_both :
    (b c : Bool) (v : Violation) (vs : List Violation)
    → b ≡ true
    → c ≡ true
    → vs ≡ []
    → note (not b || not c) v ++ vs ≡ []
no_note_both b c v vs h k e = ground arith

last_note : (b : Bool) (v : Violation) → b ≡ true → note (not b) v ≡ []
last_note b v h = ground arith

empty_of_Mergeable :
    (left right : CompatibilityGroup) (method : Text) (a b : Bool)
    → Mergeable left right method a b
    → merge_violations left right method a b ≡ []
unfolding merge_violations
empty_of_Mergeable left right method a b h =
    no_note_both _ _ _ _ ((eq_iff _ _).1 h.left_lora) ((eq_iff _ _).1 h.right_lora) (
      no_note _ _ _ ((eq_iff _ _).1 h.model) (
        no_note _ _ _ ((eq_iff _ _).1 h.tokenizer) (
          no_note _ _ _ ((eq_iff _ _).1 (h.left_lora ∙ sym h.right_lora)) (
            no_note _ _ _ ((eq_iff _ _).1 h.modules) (
              no_note_both _ _ _ _ h.left_method h.right_method
                (no_note _ _ _ h.left_checked (last_note _ _ h.right_checked)))))))

ensure-Passes :
    (b : Bool) (m : Result CompatibilityError CompatibilityDecision)
    → Passes (ensure b invalid_merge_method >> m) ↔ ((b ≡ true) × Passes m)
ensure-Passes true m = ((λ h. (refl, h)), λ h. h.1)
ensure-Passes false m = ((λ h. absurd h), λ h. cc h.0)

-- Two groups merge exactly when both are LoRA adapters of one model, one tokenizer and the same
-- modules, the method is a logical identifier that both list, and the integrity of both is verified.
pub merge_iff :
    (left right : CompatibilityGroup) (method : Text) (a b : Bool)
    → Passes (check_merge left right method a b) ↔ Mergeable left right method a b
unfolding check_merge
merge_iff left right method a b =
    let e =
      ensure-Passes (is_identifier method)
        (make_decision merge (merge_violations left right method a b)) in
    (
      (λ h. Mergeable-of_empty left right method a b (e.0 h).0 (decision-empty merge _ (e.0 h).1)),
      λ h. e.1 (h.identifier, empty-Passes merge _ (empty_of_Mergeable left right method a b h)),
    )

-- Which of two adapters stands on the left does not matter.
pub merge_symmetric :
    (left right : CompatibilityGroup) (method : Text) (a b : Bool)
    → Passes (check_merge left right method a b)
    → Passes (check_merge right left method b a)
merge_symmetric left right method a b h =
    (merge_iff right left method b a).1 (ground (arith, (merge_iff left right method a b).0 h))

pub record Resumable (checkpoint : ResumeCheckpoint) (request : ResumeRequest) : Type 0 where
  pub available : checkpoint.available ≡ true
  pub manifest : checkpoint.experiment_manifest_identity ≡ request.experiment_manifest_identity
  pub recipe : checkpoint.recipe_resolution.identity ≡ request.recipe_resolution.identity
  pub training : checkpoint.training_state_identity ≡ request.training_state_identity
  pub target : checkpoint.execution_target.identity ≡ request.execution_target.identity

-- A checkpoint resumes exactly the request that it was made for, and only while it is available.
pub resume_iff :
    (checkpoint : ResumeCheckpoint) (request : ResumeRequest)
    → Passes (check_resume checkpoint request) ↔ Resumable checkpoint request
unfolding check_resume is_compatible Violation-discrete
resume_iff checkpoint request = ground arith

-- The constraint of the target's class, and what it asks of the target.
abbrev pub Admits : ExecutionTarget → Option RuntimeTargetConstraint → Type 0
Admits target none = ⊥
Admits target (some c) =
    (c.accelerator_backend ≡ target.accelerator_backend)
    × (c.runtime_contract ≡ target.runtime_contract)
    × (covers target.capabilities c.required_capabilities ≡ true)

pub record Deployable (artifact : Artifact) (group : CompatibilityGroup) (target : ExecutionTarget)
    (evidence : ContentIdentity) : Type 0 where
  pub listed : refers_to group.identity artifact.compatibility_groups ≡ true
  pub model : artifact.base_model_revision.identity ≡ group.base_model_revision.identity
  pub tokenizer : artifact.tokenizer_identity ≡ group.tokenizer_identity
  pub adapter : artifact.adapter_type ≡ group.adapter_type
  pub admitted : Admits target (target_constraint target.target_class group.runtime_targets)
  pub integrity : artifact.integrity_evidence ≡ evidence

-- An artifact deploys exactly when it lists the group, agrees with it, carries the evidence, and
-- the group declares the target's class with constraints that the target meets.
pub deployment_iff :
    (artifact : Artifact) (group : CompatibilityGroup) (target : ExecutionTarget)
    (evidence : ContentIdentity)
    → Passes (check_deployment artifact group target evidence)
      ↔ Deployable artifact group target evidence
unfolding check_deployment is_compatible Violation-discrete
deployment_iff artifact group target evidence = ground arith

structural_returns :
    (group : CompatibilityGroup) (target : ExecutionTarget)
    → check_runtime_target group target
      ≡ ok (record {
        relationship = deployment;
        violations =
            constraint_violations target
              (target_constraint target.target_class group.runtime_targets);
      })
unfolding check_runtime_target Violation-discrete
structural_returns group target = ground arith

-- The violations of a structural check stand between the others without repeating one.
deployment_unique :
    (a b c d e : Bool) (target : ExecutionTarget) (o : Option RuntimeTargetConstraint)
    → is_unique (
        note a compatibility_group_mismatch
        ++ (note b base_model_mismatch
            ++ (note c tokenizer_mismatch
                ++ (note d adapter_type_mismatch
                    ++ (constraint_violations target o ++ note e integrity_evidence_mismatch)))))
      ≡ true
unfolding is_unique constraint_violations Violation-discrete
deployment_unique a b c d e target none = ground arith
deployment_unique a b c d e target (some x) = ground arith

-- The merge check raises exactly when the method is no logical identifier. No check finds a
-- violation twice, so none of the others raises.
pub checks_return :
    (p q : ComparisonProfile) (left right : CompatibilityGroup) (method : Text) (a b : Bool)
    (checkpoint : ResumeCheckpoint) (request : ResumeRequest) (artifact : Artifact)
    (target : ExecutionTarget) (evidence : ContentIdentity)
    → (is_ok (check_comparison p q) ≡ true)
      × (is_ok (check_merge left right method a b) ≡ is_identifier method)
      × (is_ok (check_resume checkpoint request) ≡ true)
      × (is_ok (check_runtime_target left target) ≡ true)
      × (is_ok (check_deployment artifact left target evidence) ≡ true)
checks_return p q left right method a b checkpoint request artifact target evidence = (
  (unfold check_comparison Violation-discrete in ground arith),
  (unfold check_merge Violation-discrete in ground arith),
  (unfold check_resume Violation-discrete in ground arith),
  rw (structural_returns left target),
  (unfold check_deployment in
      rw (structural_returns left target) (
        rw (
          deployment_unique _ _ _ _ _ target
            (target_constraint target.target_class left.runtime_targets)))),
)
