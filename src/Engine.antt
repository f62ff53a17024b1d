-- ===== src/Engine.antt =====
-- crates/arkforge-engine: the journal, its recovery, and the life of a job.
pub mod Job
pub mod Kind
pub mod Journal
pub mod Recovery
pub mod Durable
pub mod Step
pub mod Superseding
