-- ===== src/Jobs.antt =====
-- persistence/jobs.py, with the table, the constraints and the trigger that its migrations create.
pub mod Record
pub mod Token
pub mod Guard
pub mod Trigger
pub mod Payload
pub mod Schedule
pub mod Queue
pub mod Attempt
pub mod Recovery
pub mod Table
pub mod Machine
pub mod Refinement
pub mod Refusals
pub mod Cancelling
pub mod Permits
pub mod Failing
pub mod Hooked
pub mod Outcomes
pub mod Steps
pub mod Isolation
pub mod Lineage
pub mod History
pub mod Returned
pub mod Fencing
pub mod RawWrites
pub mod Claiming
pub mod Agreement
pub mod Total
pub mod Publishing
pub mod Claims
pub mod Exclusion
pub mod Delays
pub mod Idempotence
pub mod Renewal
pub mod Sample
mod Tests
mod AttemptTests
mod RefusalTests
pub mod Transitions
