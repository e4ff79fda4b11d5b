-- ===== src/Runtime/Preflight/Constraints.antt =====
-- The estimate and the constraint checks of src/temper_ml/runtime/preflight.py. Of a resolution only
-- the fields that they read are kept; the numbers that its record checks are natural.
use temper_ml.Base.{
  ltb, leb, if◌then◌else◌, ◌==◌, nat_eq, bool_eq, list_eq, int_eq, ℤ, pos, ◌>>◌, ensure, Result, ok,
  all, contains, sort_by, Text, codes, text_lt, ℕ, ◌+◌, Bool, true, false, ◌&&◌, ◌||◌, Option, none,
  some, List, [], ◌∷◌,
}
use temper_ml.Store.Json.{
  get, Exponent, finite, Decimal, Json, null, bool, int, decimal, str, arr, obj, Items, no_items,
  item, Fields, no_fields, field,
}
use temper_ml.Domain.Records.{reference_eq, RecordReference}
use temper_ml.Domain.Hardware.{
  target_reference, requirements_reference, ExecutionTarget, HardwareRequirements,
  HardwareCapabilityProfile,
}
use temper_ml.Domain.Compatibility.{covers}
use temper_ml.Runtime.Preflight.{
  PreflightError, training_steps_invalid, effective_batch_size_invalid,
  estimate_training_steps_mismatch, estimate_effective_batch_size_mismatch,
  resolution_requirements_mismatch, resolution_target_mismatch, profile_target_mismatch,
}

pub record RecipeResolution : Type 0 where
  pub hardware_requirements : RecordReference
  pub execution_target : RecordReference
  pub effective_batch_size : ℕ
  pub training_steps : ℕ
  pub precision : Text
  pub quantization : Text
  pub library_versions : Fields

pub record EstimateComponents : Type 0 where
  pub base_model_bytes : ℕ
  pub adapter_optimizer_bytes : ℕ
  pub peak_activation_bytes : ℕ
  pub accelerator_runtime_overhead_bytes : ℕ
  pub dataset_bytes : ℕ
  pub host_runtime_overhead_bytes : ℕ

pub record PreflightEstimate : Type 0 where
  pub accelerator_memory_bytes : ℕ
  pub system_memory_bytes : ℕ
  pub training_steps : ℕ
  pub effective_batch_size : ℕ

-- `_validate_preflight_estimate`
unfoldable pub validate_preflight_estimate : PreflightEstimate → Result PreflightError Unit
validate_preflight_estimate e =
    ensure (ltb 0 e.training_steps) training_steps_invalid
    >> ensure (ltb 0 e.effective_batch_size) effective_batch_size_invalid

-- `_validate_estimate_resolution`
unfoldable pub validate_estimate_resolution :
    PreflightEstimate → RecipeResolution → Result PreflightError Unit
validate_estimate_resolution e r =
    ensure (e.training_steps == r.training_steps) estimate_training_steps_mismatch
    >> ensure (e.effective_batch_size == r.effective_batch_size)
        estimate_effective_batch_size_mismatch

-- the estimate, before its constructor checks it
unfoldable pub estimated : RecipeResolution → EstimateComponents → PreflightEstimate
estimated r c = record {
  accelerator_memory_bytes =
      c.base_model_bytes + c.adapter_optimizer_bytes + c.peak_activation_bytes
      + c.accelerator_runtime_overhead_bytes;
  system_memory_bytes = c.base_model_bytes + c.dataset_bytes + c.host_runtime_overhead_bytes;
  training_steps = r.training_steps;
  effective_batch_size = r.effective_batch_size;
}

unfoldable pub estimate_resources :
    RecipeResolution → EstimateComponents → Result PreflightError PreflightEstimate
unfolding validate_preflight_estimate estimated
estimate_resources r c = validate_preflight_estimate (estimated r c) >> ok (estimated r c)

pub data CheckCode : Type 0 where
  target_class_allowed accelerator_backend_allowed profile_backend_matches : CheckCode
  target_capabilities_present profile_capabilities_present : CheckCode
  resolved_library_versions_match minimum_accelerator_memory : CheckCode
  estimated_accelerator_memory minimum_system_memory estimated_system_memory : CheckCode
  required_precision_modes resolved_precision_supported : CheckCode
  required_quantization_modes resolved_quantization_supported : CheckCode

-- What a check shows of its two sides.
pub data Shown : Type 0 where
  one : Text → Shown
  several : List Text → Shown
  bytes : ℕ → Shown
  versions : Fields → Shown

pub record ConstraintCheck : Type 0 where
  pub code : CheckCode
  pub satisfied : Bool
  pub required : Shown
  pub observed : Shown

abbrev check : CheckCode → Bool → Shown → Shown → ConstraintCheck
check c b r o = record { code = c; satisfied = b; required = r; observed = o }

-- `max(xs)`, and 0 for an empty tuple
unfoldable pub max_or_zero : List ℕ → ℕ
max_or_zero [] = 0
max_or_zero (n ∷ ns) = let rest = max_or_zero ns in if ltb rest n then n else rest

exponent_equal : Exponent → Exponent → Bool
exponent_equal (finite m) (finite n) = m == n
exponent_equal _ _ = false

truth_number : Bool → ℤ
truth_number true = pos 1
truth_number false = pos 0

decimal_equal : Decimal → Decimal → Bool
unfolding exponent_equal
decimal_equal d e =
    d.sign == e.sign && (d.digits == e.digits && exponent_equal d.exponent e.exponent)

-- `a == b` of JSON values whose decimals are normalized: in Python a Boolean is also a number.
unfoldable mutual
  unfolding decimal_equal truth_number

  pub json_equal : Json → Json → Bool
  json_equal null null = true
  json_equal (bool a) (bool b) = a == b
  json_equal (bool a) (int n) = truth_number a == n
  json_equal (int n) (bool b) = n == truth_number b
  json_equal (int m) (int n) = m == n
  json_equal (decimal d) (decimal e) = decimal_equal d e
  json_equal (str s) (str t) = s == t
  json_equal (arr xs) (arr ys) = items_equal xs ys
  json_equal (obj fs) (obj gs) = fields_equal fs gs
  json_equal _ _ = false

  items_equal : Items → Items → Bool
  items_equal no_items no_items = true
  items_equal (item x xs) (item y ys) = json_equal x y && items_equal xs ys
  items_equal _ _ = false

  fields_equal : Fields → Fields → Bool
  fields_equal no_fields no_fields = true
  fields_equal (field j v fs) (field k w gs) = j == k && (json_equal v w && fields_equal fs gs)
  fields_equal _ _ = false

unfoldable pub holds_version : Option Json → Json → Bool
unfolding json_equal
holds_version none v = false
holds_version (some w) v = json_equal w v

-- every required version is the observed one
unfoldable pub versions_match : Fields → Fields → Bool
unfolding holds_version get
versions_match no_fields observed = true
versions_match (field k v fs) observed =
    holds_version (get k observed) v && versions_match fs observed

sorted_texts : List Text → List Text
unfolding sort_by text_lt
sorted_texts ts = sort_by text_lt ts

-- the decisions, in the order of the code
unfoldable pub constraint_checks :
    RecipeResolution
    → HardwareRequirements
    → ExecutionTarget
    → HardwareCapabilityProfile
    → PreflightEstimate
    → List ConstraintCheck
unfolding contains covers versions_match max_or_zero sorted_texts
constraint_checks r h t p e =
    let available = max_or_zero p.accelerator_memory_bytes in
    check target_class_allowed (contains t.target_class h.execution_target_classes)
      (several h.execution_target_classes) (one t.target_class)
    ∷ check accelerator_backend_allowed (contains t.accelerator_backend h.accelerator_backends)
        (several h.accelerator_backends) (one t.accelerator_backend)
    ∷ check profile_backend_matches (p.accelerator_backend == t.accelerator_backend)
        (one t.accelerator_backend) (one p.accelerator_backend)
    ∷ check target_capabilities_present (covers t.capabilities h.required_capabilities)
        (several (sorted_texts h.required_capabilities)) (several (sorted_texts t.capabilities))
    ∷ check profile_capabilities_present (covers p.capabilities h.required_capabilities)
        (several (sorted_texts h.required_capabilities)) (several (sorted_texts p.capabilities))
    ∷ check resolved_library_versions_match (versions_match r.library_versions p.library_versions)
        (versions r.library_versions) (versions p.library_versions)
    ∷ check minimum_accelerator_memory (leb h.minimum_accelerator_memory_bytes available)
        (bytes h.minimum_accelerator_memory_bytes) (bytes available)
    ∷ check estimated_accelerator_memory (leb e.accelerator_memory_bytes available)
        (bytes e.accelerator_memory_bytes) (bytes available)
    ∷ check minimum_system_memory (leb h.minimum_system_memory_bytes p.system_memory_bytes)
        (bytes h.minimum_system_memory_bytes) (bytes p.system_memory_bytes)
    ∷ check estimated_system_memory (leb e.system_memory_bytes p.system_memory_bytes)
        (bytes e.system_memory_bytes) (bytes p.system_memory_bytes)
    ∷ check required_precision_modes (covers p.supported_precision_modes h.required_precision_modes)
        (several (sorted_texts h.required_precision_modes)) (several p.supported_precision_modes)
    ∷ check resolved_precision_supported (contains r.precision p.supported_precision_modes)
        (one r.precision) (several p.supported_precision_modes)
    ∷ check required_quantization_modes
        (covers p.supported_quantization_modes h.required_quantization_modes)
        (several (sorted_texts h.required_quantization_modes))
        (several p.supported_quantization_modes)
    ∷ check resolved_quantization_supported
        (r.quantization == codes "none" || contains r.quantization p.supported_quantization_modes)
        (one r.quantization) (several p.supported_quantization_modes)
    ∷ []

-- `_canonical_constraint_checks`, which `preflight` returns with what it was asked about
unfoldable pub preflight :
    RecipeResolution
    → HardwareRequirements
    → ExecutionTarget
    → HardwareCapabilityProfile
    → PreflightEstimate
    → Result PreflightError (List ConstraintCheck)
unfolding validate_preflight_estimate validate_estimate_resolution constraint_checks
    requirements_reference target_reference
preflight r h t p e =
    validate_preflight_estimate e
    >> (validate_estimate_resolution e r
        >> (ensure (r.hardware_requirements == requirements_reference h)
              resolution_requirements_mismatch
            >> (ensure (r.execution_target == target_reference t) resolution_target_mismatch
                >> (ensure (p.execution_target == target_reference t) profile_target_mismatch
                    >> ok (constraint_checks r h t p e)))))

-- `PreflightResult.ready` and `blocking_reasons`
unfoldable pub is_ready : List ConstraintCheck → Bool
unfolding all
is_ready checks = all (λ c. c.satisfied) checks

unfoldable pub blocking_reasons : List ConstraintCheck → List CheckCode
blocking_reasons [] = []
blocking_reasons (c ∷ cs) =
    let rest = blocking_reasons cs in if c.satisfied then rest else c.code ∷ rest
