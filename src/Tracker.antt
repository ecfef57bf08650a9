-- ===== src/Tracker.antt =====
-- bin/tracker: the chain follower.
pub mod Error
pub mod Select
pub mod Sql
pub mod Store
pub mod Migrations
pub mod Predicate
pub mod Retry
pub mod Specialization
pub mod Candidates
pub mod Messages
pub mod Process
pub mod Config
pub mod Upstream
pub mod Opening
pub mod Session
mod Tests
mod SessionTests
