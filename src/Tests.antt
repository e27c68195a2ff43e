-- ===== src/Tests.antt =====
-- Concrete runs: each property at an input that meets its hypotheses.
pub mod Sample
pub mod Queues
pub mod Links
pub mod Packets
pub mod Candidates
pub mod Session
pub mod Requests
pub mod Setup
pub mod Socket
pub mod Start
pub mod Report
pub mod Program
pub mod Launch
pub mod Meeting
pub mod LogTime
pub mod Threads
