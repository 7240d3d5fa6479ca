-- ===== src/Processor.antt =====
-- nexus/src/processor.rs: the processor applies the operations of the chain to the database and
-- takes them back in a reorganisation. Each child models one group of its methods.
pub mod Mint
pub mod Transfer
pub mod Discount
pub mod Market
pub mod Custody
pub mod Apply
pub mod Reorg
pub mod Chain
