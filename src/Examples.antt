-- ===== src/Examples.antt =====
-- Tests and instances of the theorems at concrete inputs.
mod Canonical
mod Compatibility
mod Controller
mod Evaluations
mod Experiments
mod Preflight
mod Protocol
mod Resources
mod Streams
mod Stores
