-- ===== src/Domain/Experiments.antt =====
-- Manifests of experiments, and the changes between them (src/temper_ml/domain/experiments.py).
pub mod Pointer
pub mod Changes
pub mod Manifests
pub mod Edits
pub mod Coverage
pub mod Order
pub mod Replay
