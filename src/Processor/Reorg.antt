-- ===== src/Processor/Reorg.antt =====
-- The removals of a reorganisation in nexus/src/processor.rs: blocks, operations, deployments,
-- listings, and the ownership that is rebuilt from the history that survives.
mod Blocks
mod Operations
pub mod Ownership
pub mod Removed
pub mod Undone
pub mod Relisted
pub mod Lowest
pub mod Listings
unfoldable pub use Blocks.*
unfoldable pub use Operations.*
unfoldable pub use Ownership.*
