-- ===== src/Inscription.antt =====
-- core/src/inscriptions, core/src/constants.rs and core/src/model/krc721/tick.rs: what an
-- inscription is made of. Each child models one part.
pub mod Codes
pub mod Ticks
pub mod TickLaws
pub mod Listing
