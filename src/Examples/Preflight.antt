-- ===== src/Examples/Preflight.antt =====
-- The selection among two targets.
use mathlib.Core.List.{Memᴰ}
use temper_ml.Base.{
  List-discrete, ok, err, replicate, Text, codes, ℕ, ◌≡◌, refl, ◌↔◌, true, none, some, Memᴰ, List,
  [], ◌∷◌, ◌++◌, ℕ_discrete,
}
use temper_ml.Domain.Projections.{ContentIdentity}
use temper_ml.Domain.Hardware.{
  ExecutionTarget-discrete, target_reference, requirements_reference, ExecutionTarget,
  HardwareRequirements, HardwareCapabilityProfile,
}
use temper_ml.Store.Json.{str, no_fields, field}
use temper_ml.Runtime.Preflight.Constraints.{
  estimated, estimate_resources, constraint_checks, preflight, is_ready, blocking_reasons,
  RecipeResolution, EstimateComponents, estimated_accelerator_memory, ConstraintCheck,
}
use temper_ml.Runtime.Preflight.Decisions.{is_ready-iff_Fits, Fits}
use temper_ml.Runtime.Preflight.Selected.{TargetSatisfied, preflight-select_execution_target}
use temper_ml.Runtime.Preflight.{
  is_supported, filter, select_execution_target, selected_target_incompatible,
}
use temper_ml.Runtime.Preflight.Choice.{
  Unambiguous, select_execution_target-Unambiguous, select_execution_target-without_id,
}

abbrev hash : ℕ → ContentIdentity
hash n = record { algorithm = codes "sha256"; value = replicate 64 n }

abbrev target : ℕ → Text → ExecutionTarget
target n backend = record {
  target_id = codes "target-" ++ n ∷ [];
  target_class = codes "local";
  accelerator_backend = backend;
  runtime_contract = hash b'c';
  capabilities = codes "bf16" ∷ [];
  identity = hash n;
}

abbrev targets : List ExecutionTarget
targets = target b'1' (codes "cuda") ∷ target b'2' (codes "rocm") ∷ []

abbrev requirements : HardwareRequirements
requirements = record {
  requirements_id = codes "req";
  execution_target_classes = codes "local" ∷ [];
  accelerator_backends = codes "rocm" ∷ [];
  minimum_accelerator_memory_bytes = 0;
  minimum_system_memory_bytes = 0;
  required_precision_modes = [];
  required_quantization_modes = [];
  required_capabilities = codes "bf16" ∷ [];
  identity = hash b'r';
}

selected : select_execution_target requirements targets none ≡ ok (target b'2' (codes "rocm"))
unfolding select_execution_target List-discrete ℕ_discrete
selected = refl

incompatible :
    select_execution_target requirements targets (some (codes "target-1"))
    ≡ err selected_target_incompatible
unfolding select_execution_target ExecutionTarget-discrete List-discrete ℕ_discrete
incompatible = refl

select_execution_target-Unambiguous_example :
    Memᴰ (target b'2' (codes "rocm")) targets
    × (is_supported requirements (target b'2' (codes "rocm")) ≡ true)
    × Unambiguous requirements targets none (target b'2' (codes "rocm"))
select_execution_target-Unambiguous_example =
    select_execution_target-Unambiguous requirements targets none (target b'2' (codes "rocm"))
      selected

select_execution_target-without_id_example :
    select_execution_target requirements targets none ≡ ok (target b'2' (codes "rocm"))
    ↔ filter (is_supported requirements) targets ≡ target b'2' (codes "rocm") ∷ []
select_execution_target-without_id_example =
    select_execution_target-without_id requirements targets (target b'2' (codes "rocm"))

abbrev resolution : RecipeResolution
resolution = record {
  hardware_requirements = requirements_reference requirements;
  execution_target = target_reference (target b'2' (codes "rocm"));
  effective_batch_size = 8;
  training_steps = 100;
  precision = codes "bf16";
  quantization = codes "none";
  library_versions = field (codes "torch") (str (codes "2.4")) no_fields;
}

abbrev profile : HardwareCapabilityProfile
profile = record {
  execution_target = target_reference (target b'2' (codes "rocm"));
  accelerator_backend = codes "rocm";
  accelerator_memory_bytes = 24 ∷ [];
  system_memory_bytes = 64;
  supported_precision_modes = codes "bf16" ∷ codes "fp16" ∷ [];
  supported_quantization_modes = [];
  capabilities = codes "bf16" ∷ [];
  library_versions = field (codes "torch") (str (codes "2.4")) no_fields;
}

abbrev components : ℕ → EstimateComponents
components n = record {
  base_model_bytes = n;
  adapter_optimizer_bytes = 3;
  peak_activation_bytes = 4;
  accelerator_runtime_overhead_bytes = 1;
  dataset_bytes = 2;
  host_runtime_overhead_bytes = 1;
}

blocked :
    blocking_reasons (
      constraint_checks resolution requirements
        (target b'2' (codes "rocm"))
        profile
        (estimated resolution (components 20)))
    ≡ estimated_accelerator_memory ∷ []
unfolding blocking_reasons constraint_checks estimated List-discrete ℕ_discrete
blocked = refl

is_ready-iff_Fits_example :
    (is_ready (
        constraint_checks resolution requirements
          (target b'2' (codes "rocm"))
          profile
          (estimated resolution (components 10)))
      ≡ true)
    ↔ Fits resolution requirements
        (target b'2' (codes "rocm"))
        profile
        (estimated resolution (components 10))
is_ready-iff_Fits_example =
    is_ready-iff_Fits resolution requirements (target b'2' (codes "rocm")) profile
      (estimated resolution (components 10))

estimates :
    estimate_resources resolution (components 20) ≡ ok (estimated resolution (components 20))
unfolding estimate_resources
estimates = refl

preflight-select_execution_target_example :
    (checks : List ConstraintCheck) × ((preflight resolution requirements
          (target b'2' (codes "rocm"))
          profile
          (estimated resolution (components 20))
        ≡ ok checks)
      × TargetSatisfied checks)
preflight-select_execution_target_example =
    preflight-select_execution_target resolution requirements targets none
      (target b'2' (codes "rocm")) profile (components 20) (estimated resolution (components 20))
      selected estimates refl refl refl
