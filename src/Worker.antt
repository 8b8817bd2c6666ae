-- ===== src/Worker.antt =====
-- The worker process (workers/).
pub mod Lifecycle
pub mod Lease
pub mod Renewing
pub mod Deadline
pub mod Retention
pub mod Failures
pub mod Classification
pub mod Families
pub mod Publication
pub mod Rotation
pub mod Turns
pub mod Trying
pub mod Traces
pub mod Traced
pub mod Recovering
mod TraceTests
mod Tests
mod PublicationTests
