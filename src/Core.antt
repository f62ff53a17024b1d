-- ===== src/Core.antt =====
-- crates/arkforge-core: the canonical digest model, identifiers, effects and steps.
pub mod Cbor
pub mod Digest
pub mod Ids
pub mod Binding
pub mod Fitting
pub mod Effect
pub mod Step
pub mod Projection
