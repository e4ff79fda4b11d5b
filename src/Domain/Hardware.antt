-- ===== src/Domain/Hardware.antt =====
-- Execution targets and hardware requirements (src/temper_ml/domain/hardware.py): the
-- fields that the checks read, with the content identity that each record has.
use temper_ml.Store.Json.{Fields}
use temper_ml.Domain.Records.{RecordReference}
use temper_ml.Base.{nat_eq, list_eq, Eq, Text, codes, ℕ, List, ℕ_discrete}
use temper_ml.Domain.Projections.{ContentIdentity-discrete, identity_eq, ContentIdentity}

pub record ExecutionTarget : Type 0 where
  pub target_id : Text
  pub target_class : Text
  pub accelerator_backend : Text
  pub runtime_contract : ContentIdentity
  pub capabilities : List Text
  pub identity : ContentIdentity

unfoldable pub ExecutionTarget-discrete : Discrete ExecutionTarget
unfolding ContentIdentity-discrete ℕ_discrete
ExecutionTarget-discrete = hlevel (ℕ_discrete, ContentIdentity-discrete)

instance abbrev pub target_eq : Eq ExecutionTarget
target_eq = record { dec = ExecutionTarget-discrete }

pub record HardwareRequirements : Type 0 where
  pub requirements_id : Text
  pub execution_target_classes : List Text
  pub accelerator_backends : List Text
  pub minimum_accelerator_memory_bytes : ℕ
  pub minimum_system_memory_bytes : ℕ
  pub required_precision_modes : List Text
  pub required_quantization_modes : List Text
  pub required_capabilities : List Text
  pub identity : ContentIdentity

pub record HardwareCapabilityProfile : Type 0 where
  pub execution_target : RecordReference
  pub accelerator_backend : Text
  pub accelerator_memory_bytes : List ℕ
  pub system_memory_bytes : ℕ
  pub supported_precision_modes : List Text
  pub supported_quantization_modes : List Text
  pub capabilities : List Text
  pub library_versions : Fields

-- `record_reference` of a target and of requirements
unfoldable pub target_reference : ExecutionTarget → RecordReference
target_reference t = record {
  record_type = codes "execution_target";
  logical_id = t.target_id;
  identity = t.identity;
}

unfoldable pub requirements_reference : HardwareRequirements → RecordReference
requirements_reference r = record {
  record_type = codes "hardware_requirements";
  logical_id = r.requirements_id;
  identity = r.identity;
}
