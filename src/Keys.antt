-- ===== src/Keys.antt =====
-- database/src/database/partition.rs: the keys of the partitions, each with its encoding as words
-- in the order of the source's `owned_key`, and the values that are stored under them.
mod Defs
mod Instances
mod Equality
mod Scripts
pub use Defs.*
pub use Instances.*
pub use Equality.*
pub use Scripts.*
