-- ===== src/View.antt =====
-- The read side of the indexer: nexus/src/nft_view.rs, the collector of nexus/src/utils.rs, and the
-- pages that nexus/src/accessor.rs makes of the views.
pub mod Requests
pub mod Ranges
pub mod Follow
pub mod Operations
pub mod Available
pub mod Quotes
pub mod Holdings
pub mod Listings
mod Answers
mod Pages
mod Entries
mod Lists
mod Lookups
mod Nfts
unfoldable pub use Answers.*
unfoldable pub use Pages.*
unfoldable pub use Entries.*
unfoldable pub use Lists.*
unfoldable pub use Lookups.*
unfoldable pub use Nfts.*
