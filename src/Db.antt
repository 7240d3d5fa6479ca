-- ===== src/Db.antt =====
-- database/src/database.rs and database/src/database/stats.rs: the database as one record of
-- partitions, and the running statistics. A write transaction is the record that it would commit.
use krc721_protocol.Prelude.{ℕ, ◌+◌, ◌-◌, Option, none, [], ltb, if◌then◌else◌, u64_max}
use krc721_protocol.Partition.{Partition}
use krc721_protocol.Model.{
  Tick, RpcHash, TransactionId, ScriptPublicKey, CheckedOperation, DeployInfoWithCommon,
  VirtualChainChanges,
}
use krc721_protocol.Keys.{
  BlueScoredChainBlockHash, DeploymentKey, TokenMintsKey, ScoredDeployInfoWithCommon,
  MintHistoryKey, OwnershipHistoryKey, OwnershipKey, CurrentOwnershipValue, RangeKey, TokenMetaKey,
  PreModRange, AddressHoldingKey, ScoredDiscountKey, VipKey, ListingValue, ListingByTickKey,
}
pub mod StatsLaws

-- `Stats`, and `StatsDiffs`, which is the same type.
pub record Stats : Type 0 where
  pub deployments : ℕ
  pub mints : ℕ
  pub transfers : ℕ
  pub royalty_fees : ℕ
  pub security_fees : ℕ
  pub listings : ℕ
  pub sends : ℕ

-- `Stats::default()`
abbrev pub stats_default : Stats
stats_default = record {
  deployments = 0;
  mints = 0;
  transfers = 0;
  royalty_fees = 0;
  security_fees = 0;
  listings = 0;
  sends = 0;
}

-- `u64::saturating_add`
abbrev pub saturating_add : ℕ → ℕ → ℕ
saturating_add a b = if ltb u64_max (a + b) then u64_max else a + b

-- `u64::saturating_sub`, which stops at 0 as `-` does here.
abbrev pub saturating_sub : ℕ → ℕ → ℕ
saturating_sub a b = a - b

-- `Add for Stats`, which `AddAssign` calls
unfoldable pub add : Stats → Stats → Stats
add s d = record {
  deployments = saturating_add s.deployments d.deployments;
  mints = saturating_add s.mints d.mints;
  transfers = saturating_add s.transfers d.transfers;
  royalty_fees = saturating_add s.royalty_fees d.royalty_fees;
  security_fees = saturating_add s.security_fees d.security_fees;
  listings = saturating_add s.listings d.listings;
  sends = saturating_add s.sends d.sends;
}

-- `Sub for Stats`
unfoldable pub sub : Stats → Stats → Stats
sub s d = record {
  deployments = saturating_sub s.deployments d.deployments;
  mints = saturating_sub s.mints d.mints;
  transfers = saturating_sub s.transfers d.transfers;
  royalty_fees = saturating_sub s.royalty_fees d.royalty_fees;
  security_fees = saturating_sub s.security_fees d.security_fees;
  listings = saturating_sub s.listings d.listings;
  sends = saturating_sub s.sends d.sends;
}

pub record Db : Type 0 where
  pub blockhash_to_score : Partition RpcHash ℕ
  pub chain_block_scores : Partition BlueScoredChainBlockHash (Unit {0})
  pub operation_history : Partition ℕ CheckedOperation
  pub tx_id_to_opscore : Partition TransactionId ℕ
  pub collection_deployments : Partition DeploymentKey DeployInfoWithCommon
  pub collection_registry : Partition Tick ScoredDeployInfoWithCommon
  pub mint_history : Partition MintHistoryKey (Unit {0})
  pub ownership_changes : Partition TokenMintsKey (Unit {0})
  pub ownership_history : Partition OwnershipHistoryKey ScriptPublicKey
  pub current_ownership : Partition OwnershipKey CurrentOwnershipValue
  pub available_ranges : Partition RangeKey (ℕ × ℕ)
  pub range_lengths : Partition Tick ℕ
  pub token_id_meta : Partition TokenMetaKey PreModRange
  pub address_holdings : Partition AddressHoldingKey ℕ
  -- the value under `StatsKey::IndexerStats`
  pub stats : Option Stats
  pub notification_queue : Partition ℕ VirtualChainChanges
  pub score_to_discount : Partition ScoredDiscountKey ℕ
  pub vip : Partition VipKey (Unit {0})
  pub listings : Partition OwnershipKey ListingValue
  pub listings_by_tick : Partition ListingByTickKey (Unit {0})
  pub address_listings : Partition AddressHoldingKey ℕ

-- A database that was just created.
abbrev pub empty_db : Db
empty_db = record {
  blockhash_to_score = [];
  chain_block_scores = [];
  operation_history = [];
  tx_id_to_opscore = [];
  collection_deployments = [];
  collection_registry = [];
  mint_history = [];
  ownership_changes = [];
  ownership_history = [];
  current_ownership = [];
  available_ranges = [];
  range_lengths = [];
  token_id_meta = [];
  address_holdings = [];
  stats = none;
  notification_queue = [];
  score_to_discount = [];
  vip = [];
  listings = [];
  listings_by_tick = [];
  address_listings = [];
}
