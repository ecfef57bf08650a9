-- ===== src/Lift.antt =====
-- crates/tx3-lift: the chain-neutral core.
pub mod Tir
pub mod Expr
pub mod Payload
pub mod Error
pub mod Library
pub mod Fingerprint
pub mod Specialize
pub mod Anchors
pub mod Lifted
pub mod Match
mod Tests
