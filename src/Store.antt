-- ===== src/Store.antt =====
-- The canonical local store (src/temper_ml/store).
pub mod Json
pub mod Canonical
pub mod Scanner
pub mod Loads
pub mod EventStream
pub mod Paths
pub mod WriteOnce
