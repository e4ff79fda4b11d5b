-- ===== src/Runtime.antt =====
-- The local runtime (src/temper_ml/runtime).
pub mod Protocol
pub mod Controller
pub mod Resources
pub mod Preflight
