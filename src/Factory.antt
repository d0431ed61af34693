-- ===== src/Factory.antt =====
-- src/intent_packages/factory: the front door to the orchestrator, a service that this repository
-- only calls. A verb reads from it over HTTP, judges what it read, and writes at most a few times.
pub mod Session
pub mod Api
pub mod Views
pub mod Reads
pub mod Execution
pub mod Verify
pub mod Validations
pub mod Decompose
pub mod Journey
