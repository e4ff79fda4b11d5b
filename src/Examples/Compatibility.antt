-- ===== src/Examples/Compatibility.antt =====
-- The compatibility relationships at concrete records.
use temper_ml.Domain.Identifiers.{is_identifier}
use temper_ml.Domain.Records.{RecordReference}
use temper_ml.Domain.Hardware.{ExecutionTarget}
use temper_ml.Base.{
  nat_eq, List-discrete, is_ok, err, replicate, Text, codes, ◌≡◌, refl, ◌↔◌, true, false, [], ◌∷◌,
  ℕ_discrete,
}
use temper_ml.Domain.Projections.{ContentIdentity-discrete, ContentIdentity}
use temper_ml.Domain.Compatibility.{
  Violation-discrete, is_compatible, check_comparison, lora, check_merge, check_resume,
  check_runtime_target, check_deployment, invalid_merge_method, ComparisonProfile,
  RuntimeTargetConstraint, CompatibilityGroup, ResumeCheckpoint, ResumeRequest, Artifact,
}
use temper_ml.Domain.Compatibility.Laws.{
  Passes, comparison_iff, merge_iff, resume_iff, deployment_iff, checks_return, SameTask, Mergeable,
  Resumable, Deployable,
}

abbrev hash : Text → ContentIdentity
hash t = record { algorithm = codes "sha256"; value = t }

abbrev model_hash : ContentIdentity
model_hash = hash (replicate 64 b'1')

abbrev other_hash : ContentIdentity
other_hash = hash (replicate 64 b'2')

abbrev reference : ContentIdentity → RecordReference
reference i = record {
  record_type = codes "base_model_revision";
  logical_id = codes "tiny";
  identity = i;
}

abbrev profile : ContentIdentity → ComparisonProfile
profile i = record {
  task_definition = reference model_hash;
  project_policy = reference other_hash;
  evaluation_policy = other_hash;
  objectives = codes "accuracy" ∷ codes "latency" ∷ [];
  base_model_revision = reference i;
}

abbrev constraint : RuntimeTargetConstraint
constraint = record {
  target_class = codes "local";
  accelerator_backend = codes "cuda";
  runtime_contract = other_hash;
  required_capabilities = codes "bf16" ∷ [];
}

abbrev group : CompatibilityGroup
group = record {
  identity = other_hash;
  base_model_revision = reference model_hash;
  tokenizer_identity = model_hash;
  adapter_type = lora;
  target_modules = codes "q_proj" ∷ codes "v_proj" ∷ [];
  runtime_targets = constraint ∷ [];
  merge_methods = codes "linear" ∷ [];
}

abbrev checkpoint : ResumeCheckpoint
checkpoint = record {
  experiment_manifest_identity = model_hash;
  recipe_resolution = reference other_hash;
  training_state_identity = model_hash;
  execution_target = reference model_hash;
  available = true;
}

abbrev request : ResumeRequest
request = record {
  experiment_manifest_identity = model_hash;
  recipe_resolution = reference other_hash;
  training_state_identity = model_hash;
  execution_target = reference model_hash;
}

abbrev target : ExecutionTarget
target = record {
  target_id = codes "here";
  identity = other_hash;
  target_class = codes "local";
  accelerator_backend = codes "cuda";
  runtime_contract = other_hash;
  capabilities = codes "fp16" ∷ codes "bf16" ∷ [];
}

abbrev artifact : Artifact
artifact = record {
  compatibility_groups = reference other_hash ∷ [];
  base_model_revision = reference model_hash;
  tokenizer_identity = model_hash;
  adapter_type = lora;
  integrity_evidence = model_hash;
}

-- profiles of two base models are comparable: the model is not compared
models_differ : Passes (check_comparison (profile model_hash) (profile other_hash))
unfolding check_comparison is_compatible Violation-discrete ContentIdentity-discrete List-discrete
models_differ = refl

comparison_iff_example :
    Passes (check_comparison (profile model_hash) (profile other_hash))
    ↔ SameTask (profile model_hash) (profile other_hash)
comparison_iff_example = comparison_iff (profile model_hash) (profile other_hash)

merge_iff_example :
    Passes (check_merge group group (codes "linear") true true)
    ↔ Mergeable group group (codes "linear") true true
merge_iff_example = merge_iff group group (codes "linear") true true

groups_merge : Passes (check_merge group group (codes "linear") true true)
unfolding check_merge is_compatible Violation-discrete ContentIdentity-discrete List-discrete
groups_merge = refl

-- a method that a group may list, and that the check does not take
method_refused :
    check_merge group group (codes "weighted average") true true ≡ err invalid_merge_method
unfolding check_merge is_identifier ℕ_discrete
method_refused = refl

resume_iff_example : Passes (check_resume checkpoint request) ↔ Resumable checkpoint request
resume_iff_example = resume_iff checkpoint request

deploys : Passes (check_deployment artifact group target model_hash)
unfolding check_deployment is_compatible Violation-discrete ContentIdentity-discrete List-discrete
deploys = refl

deployment_iff_example :
    Passes (check_deployment artifact group target model_hash)
    ↔ Deployable artifact group target model_hash
deployment_iff_example = deployment_iff artifact group target model_hash

checks_return_example :
    (is_ok (check_comparison (profile model_hash) (profile other_hash)) ≡ true)
    × (is_ok (check_merge group group (codes "weighted average") true false)
        ≡ is_identifier (codes "weighted average"))
    × (is_ok (check_resume checkpoint request) ≡ true)
    × (is_ok (check_runtime_target group target) ≡ true)
    × (is_ok (check_deployment artifact group target other_hash) ≡ true)
checks_return_example =
    checks_return (profile model_hash) (profile other_hash) group group (codes "weighted average")
      true false checkpoint request artifact target other_hash
