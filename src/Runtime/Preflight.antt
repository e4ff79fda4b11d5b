-- ===== src/Runtime/Preflight.antt =====
-- `_target_supported` and `select_execution_target` of src/temper_ml/runtime/preflight.py.
pub mod Choice
pub mod Constraints
pub mod Decisions
pub mod Selected
use temper_ml.Base.{
  if◌then◌else◌, ◌==◌, nat_eq, list_eq, Result, ok, err, contains, sort_by, Text, text_lt, Bool,
  not, ◌&&◌, Option, none, some, List, [], ◌∷◌,
}
use temper_ml.Domain.Hardware.{target_eq, ExecutionTarget, HardwareRequirements}
use temper_ml.Domain.Compatibility.{covers}

pub data PreflightError : Type 0 where
  selected_target_not_found selected_target_incompatible execution_target_unavailable
        execution_target_selection_required :
      PreflightError
  training_steps_invalid effective_batch_size_invalid : PreflightError
  estimate_training_steps_mismatch estimate_effective_batch_size_mismatch : PreflightError
  resolution_requirements_mismatch resolution_target_mismatch profile_target_mismatch :
      PreflightError

unfoldable pub is_supported : HardwareRequirements → ExecutionTarget → Bool
unfolding contains covers
is_supported requirements target =
    contains target.target_class requirements.execution_target_classes
    && (contains target.accelerator_backend requirements.accelerator_backends
        && covers target.capabilities requirements.required_capabilities)

-- `tuple(x for x in xs if p(x))`
unfoldable pub filter : {A : Type 0} → (A → Bool) → List A → List A
filter p [] = []
filter p (x ∷ xs) = let rest = filter p xs in if p x then x ∷ rest else rest

abbrev pub id_lt : ExecutionTarget → ExecutionTarget → Bool
id_lt a b = text_lt a.target_id b.target_id

unfoldable pub compatible_targets :
    HardwareRequirements → List ExecutionTarget → List ExecutionTarget
unfolding filter is_supported sort_by
compatible_targets requirements targets = sort_by id_lt (filter (is_supported requirements) targets)

-- `selected[0]`, if it is the only one and among the compatible ones
selected_target :
    List ExecutionTarget → List ExecutionTarget → Result PreflightError ExecutionTarget
unfolding contains
selected_target compatible (t ∷ []) =
    if not (contains t compatible) then err selected_target_incompatible else ok t
selected_target compatible _ = err selected_target_not_found

only_target : List ExecutionTarget → Result PreflightError ExecutionTarget
only_target [] = err execution_target_unavailable
only_target (t ∷ []) = ok t
only_target (t ∷ u ∷ ts) = err execution_target_selection_required

unfoldable pub select_execution_target :
    HardwareRequirements
    → List ExecutionTarget
    → Option Text
    → Result PreflightError ExecutionTarget
unfolding selected_target only_target compatible_targets filter
select_execution_target requirements targets (some id) =
    selected_target (compatible_targets requirements targets)
      (filter (λ t. t.target_id == id) targets)
select_execution_target requirements targets none =
    only_target (compatible_targets requirements targets)
