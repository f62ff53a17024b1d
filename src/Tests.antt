-- ===== src/Tests.antt =====
-- Sample data, and the theorems at concrete inputs.
mod Samples
mod Core
mod Authority
mod Journal
mod Recovery
mod Step
mod Wire
mod Reopen
mod Plans
