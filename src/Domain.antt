-- ===== src/Domain.antt =====
-- The domain records (src/temper_ml/domain).
pub mod Projections
pub mod Identifiers
pub mod Records
pub mod Hardware
pub mod Compatibility
pub mod Experiments
pub mod Evaluations
