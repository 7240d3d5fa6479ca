-- ===== src/Analyzer.antt =====
-- nexus/src/analyzer.rs: the analyzer reads the inscription in the signature script of a
-- transaction and makes an operation of it. Each child models one part.
pub mod Result
pub mod Windows
pub mod Headers
pub mod Parse
pub mod Envelope
pub mod Source
pub mod Arms
pub mod Detect
pub mod Deploys
pub mod Emits
pub mod Scoped
pub mod Reveals
pub mod NoPanic
pub mod Opened
pub mod Faults
pub mod Panics
pub mod Handoff
pub mod Second
pub mod Redeem
