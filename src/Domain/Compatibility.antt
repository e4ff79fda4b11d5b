-- ===== src/Domain/Compatibility.antt =====
-- src/temper_ml/domain/compatibility.py: the four compatibility relationships. A violation stands for
-- its pair of code and field.
pub mod Laws
use temper_ml.Base.{
  if◌then◌else◌, ◌==◌, nat_eq, list_eq, Eq, ◌>>=◌, ◌>>◌, ensure, Result, ok, err, contains,
  is_unique, Text, codes, Bool, true, false, not, ◌&&◌, ◌||◌, Option, none, some, List, [], ◌∷◌,
  ◌++◌,
}
use temper_ml.Domain.Identifiers.{is_identifier}
use temper_ml.Domain.Hardware.{ExecutionTarget}
use temper_ml.Domain.Records.{RecordReference}
use temper_ml.Domain.Projections.{identity_eq, ContentIdentity}

pub data CompatibilityRelationship : Type 0 where
  comparable merge resume deployment : CompatibilityRelationship

pub data Violation : Type 0 where
  project_policy_mismatch task_definition_mismatch evaluation_policy_mismatch objectives_mismatch
        adapter_not_lora base_model_mismatch tokenizer_mismatch adapter_type_mismatch
        target_modules_mismatch merge_method_unsupported left_integrity_unverified
        right_integrity_unverified checkpoint_unavailable experiment_manifest_mismatch
        recipe_resolution_mismatch training_state_mismatch execution_target_mismatch
        compatibility_group_mismatch integrity_evidence_mismatch runtime_target_undeclared
        accelerator_backend_mismatch runtime_contract_mismatch runtime_capability_missing :
      Violation

unfoldable pub Violation-discrete : Discrete Violation
Violation-discrete = hlevel

instance abbrev pub violation_eq : Eq Violation
violation_eq = record { dec = Violation-discrete }

pub record CompatibilityDecision : Type 0 where
  pub relationship : CompatibilityRelationship
  pub violations : List Violation

-- `invalid_merge_method` is the `RecordValidationError` of `require_identifier`.
pub data CompatibilityError : Type 0 where
  not_unique invalid_merge_method : CompatibilityError
  rejected : CompatibilityDecision → CompatibilityError

-- the constructor of a decision, which wants its violations unique
unfoldable pub make_decision :
    CompatibilityRelationship → List Violation → Result CompatibilityError CompatibilityDecision
unfolding is_unique
make_decision r vs =
    if is_unique vs then ok (record { relationship = r; violations = vs }) else err not_unique

-- `compatible`
unfoldable pub is_compatible : CompatibilityDecision → Bool
is_compatible d = elim d.violations [ [] ↦ true | v ∷ vs ↦ false ]

-- `require`
unfoldable pub require : CompatibilityDecision → Result CompatibilityError CompatibilityDecision
unfolding is_compatible
require d = if is_compatible d then ok d else err (rejected d)

-- `if test: violations.append(v)`
abbrev pub note : Bool → Violation → List Violation
note true v = v ∷ []
note false v = []

pub record ComparisonProfile : Type 0 where
  pub task_definition : RecordReference
  pub project_policy : RecordReference
  pub evaluation_policy : ContentIdentity
  pub objectives : List Text
  pub base_model_revision : RecordReference

unfoldable pub check_comparison :
    ComparisonProfile → ComparisonProfile → Result CompatibilityError CompatibilityDecision
unfolding make_decision
check_comparison left right = make_decision comparable (
    note (not (left.project_policy.identity == right.project_policy.identity))
      project_policy_mismatch
    ++ (note (not (left.task_definition.identity == right.task_definition.identity))
          task_definition_mismatch
        ++ (note (not (left.evaluation_policy == right.evaluation_policy))
              evaluation_policy_mismatch
            ++ note (not (left.objectives == right.objectives)) objectives_mismatch)))

pub record RuntimeTargetConstraint : Type 0 where
  pub target_class : Text
  pub accelerator_backend : Text
  pub runtime_contract : ContentIdentity
  pub required_capabilities : List Text

-- `identity` is the content identity of the record that the group is.
pub record CompatibilityGroup : Type 0 where
  pub identity : ContentIdentity
  pub base_model_revision : RecordReference
  pub tokenizer_identity : ContentIdentity
  pub adapter_type : Text
  pub target_modules : List Text
  pub runtime_targets : List RuntimeTargetConstraint
  pub merge_methods : List Text

abbrev pub lora : Text
lora = codes "lora"

unfoldable pub merge_violations :
    CompatibilityGroup → CompatibilityGroup → Text → Bool → Bool → List Violation
unfolding contains
merge_violations left right method left_verified right_verified =
    note (not (left.adapter_type == lora) || not (right.adapter_type == lora)) adapter_not_lora
    ++ (note (not (left.base_model_revision.identity == right.base_model_revision.identity))
          base_model_mismatch
        ++ (note (not (left.tokenizer_identity == right.tokenizer_identity)) tokenizer_mismatch
            ++ (note (not (left.adapter_type == right.adapter_type)) adapter_type_mismatch
                ++ (note (not (left.target_modules == right.target_modules)) target_modules_mismatch
                    ++ (note
                          (not (contains method left.merge_methods)
                            || not (contains method right.merge_methods))
                          merge_method_unsupported
                        ++ (note (not left_verified) left_integrity_unverified
                            ++ note (not right_verified) right_integrity_unverified))))))

unfoldable pub check_merge :
    CompatibilityGroup
    → CompatibilityGroup
    → Text
    → Bool
    → Bool
    → Result CompatibilityError CompatibilityDecision
unfolding is_identifier make_decision merge_violations
check_merge left right method left_verified right_verified =
    ensure (is_identifier method) invalid_merge_method
    >> make_decision merge (merge_violations left right method left_verified right_verified)

pub record ResumeCheckpoint : Type 0 where
  pub experiment_manifest_identity : ContentIdentity
  pub recipe_resolution : RecordReference
  pub training_state_identity : ContentIdentity
  pub execution_target : RecordReference
  pub available : Bool

pub record ResumeRequest : Type 0 where
  pub experiment_manifest_identity : ContentIdentity
  pub recipe_resolution : RecordReference
  pub training_state_identity : ContentIdentity
  pub execution_target : RecordReference

unfoldable pub check_resume :
    ResumeCheckpoint → ResumeRequest → Result CompatibilityError CompatibilityDecision
unfolding make_decision
check_resume checkpoint request = make_decision resume (
    note (not checkpoint.available) checkpoint_unavailable
    ++ (note (not (checkpoint.experiment_manifest_identity == request.experiment_manifest_identity))
          experiment_manifest_mismatch
        ++ (note (not (checkpoint.recipe_resolution.identity == request.recipe_resolution.identity))
              recipe_resolution_mismatch
            ++ (note (not (checkpoint.training_state_identity == request.training_state_identity))
                  training_state_mismatch
                ++ note
                    (not
                      (checkpoint.execution_target.identity == request.execution_target.identity))
                    execution_target_mismatch))))

-- `target_constraint`: the first constraint of the class
unfoldable pub target_constraint :
    Text → List RuntimeTargetConstraint → Option RuntimeTargetConstraint
target_constraint c [] = none
target_constraint c (t ∷ ts) = if t.target_class == c then some t else target_constraint c ts

-- `set(required) - set(offered)` is empty
unfoldable pub covers : List Text → List Text → Bool
unfolding contains
covers offered [] = true
covers offered (c ∷ cs) = contains c offered && covers offered cs

unfoldable pub constraint_violations :
    ExecutionTarget → Option RuntimeTargetConstraint → List Violation
unfolding covers
constraint_violations target none = runtime_target_undeclared ∷ []
constraint_violations target (some c) =
    note (not (c.accelerator_backend == target.accelerator_backend)) accelerator_backend_mismatch
    ++ (note (not (c.runtime_contract == target.runtime_contract)) runtime_contract_mismatch
        ++ note (not (covers target.capabilities c.required_capabilities))
            runtime_capability_missing)

unfoldable pub check_runtime_target :
    CompatibilityGroup → ExecutionTarget → Result CompatibilityError CompatibilityDecision
unfolding make_decision constraint_violations target_constraint
check_runtime_target group target =
    make_decision deployment
      (constraint_violations target (target_constraint target.target_class group.runtime_targets))

pub record Artifact : Type 0 where
  pub compatibility_groups : List RecordReference
  pub base_model_revision : RecordReference
  pub tokenizer_identity : ContentIdentity
  pub adapter_type : Text
  pub integrity_evidence : ContentIdentity

-- the references' identities hold `i`
unfoldable pub refers_to : ContentIdentity → List RecordReference → Bool
refers_to i [] = false
refers_to i (r ∷ rs) = r.identity == i || refers_to i rs

unfoldable pub check_deployment :
    Artifact
    → CompatibilityGroup
    → ExecutionTarget
    → ContentIdentity
    → Result CompatibilityError CompatibilityDecision
unfolding check_runtime_target refers_to make_decision
check_deployment artifact group target evidence =
    check_runtime_target group target >>= λ structural. make_decision deployment (
      note (not (refers_to group.identity artifact.compatibility_groups))
        compatibility_group_mismatch
      ++ (note (not (artifact.base_model_revision.identity == group.base_model_revision.identity))
            base_model_mismatch
          ++ (note (not (artifact.tokenizer_identity == group.tokenizer_identity))
                tokenizer_mismatch
              ++ (note (not (artifact.adapter_type == group.adapter_type)) adapter_type_mismatch
                  ++ (structural.violations
                      ++ note (not (artifact.integrity_evidence == evidence))
                          integrity_evidence_mismatch)))))
