-- ===== src/Tests.antt =====
-- Concrete inputs for the theorems of the other modules.
pub mod Samples
pub mod Storage
pub mod Messages
pub mod Rounds
pub mod Pools
pub mod CommandLine
pub mod Select
pub mod Mutex
pub mod Race
pub mod Serving
pub mod Listing
pub mod Sessions
pub mod Polling
pub mod Greetings
pub mod Threads
pub mod Programs
