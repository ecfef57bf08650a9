-- ===== src/Cardano.antt =====
-- crates/tx3-lift-cardano: the Cardano implementation.
pub mod Ledger
pub mod Signs
pub mod Summarize
pub mod Matching
pub mod Datum
pub mod Party
pub mod Lifting
pub mod Routing
mod Tests
