-- ===== src/Keys/Defs.antt =====
-- The key and value types of the partitions (database/src/database/partition.rs), and their
-- constructors that reverse a score or a sequence number so that the newest entry comes first.
use krc721_protocol.Prelude.{ℕ, ◌-◌, u64_max, Bool, List}
use krc721_protocol.Model.{Tick, RpcHash, TransactionId, ScriptPublicKey, DeployInfoWithCommon}

pub record BlueScoredChainBlockHash : Type 0 where
  pub blue_score : ℕ
  pub block_hash : RpcHash

pub record DeploymentKey : Type 0 where
  pub score : ℕ
  pub tick : Tick

pub record TokenMintsKey : Type 0 where
  pub score : ℕ
  pub tick : Tick
  pub token_id : ℕ
  pub reversed_seq_number : ℕ

pub record ScoredDeployInfoWithCommon : Type 0 where
  pub score : ℕ
  pub info : DeployInfoWithCommon

pub record MintHistoryKey : Type 0 where
  pub tick : Tick
  pub reversed_seq : ℕ
  pub token_id : ℕ
  pub score : ℕ

pub record OwnershipHistoryKey : Type 0 where
  pub tick : Tick
  pub token_id : ℕ
  pub reversed_score : ℕ

pub record OwnershipKey : Type 0 where
  pub tick : Tick
  pub token_id : ℕ

pub record CurrentOwnershipValue : Type 0 where
  pub owner : ScriptPublicKey
  pub mod_tx_score : ℕ

pub record RangeKey : Type 0 where
  pub tick : Tick
  pub index : ℕ

pub record TokenMetaKey : Type 0 where
  pub tick : Tick
  pub token_id : ℕ

pub record PreModRange : Type 0 where
  pub range_index : ℕ
  pub start : ℕ
  pub size : ℕ
  pub removed : Bool
  pub split : Bool
  pub is_initial : Bool

pub record AddressHoldingKey : Type 0 where
  pub spk : ScriptPublicKey
  pub tick : Tick
  pub token_id : ℕ

pub record ScoredDiscountKey : Type 0 where
  pub score : ℕ
  pub tick : Tick
  pub spk : ScriptPublicKey

pub record VipKey : Type 0 where
  pub spk : ScriptPublicKey
  pub tick : Tick
  pub reversed_score : ℕ
  pub fee : ℕ

pub record ListingValue : Type 0 where
  pub seller : ScriptPublicKey
  pub listing_tx_id : TransactionId
  pub utxo_address : ScriptPublicKey
  pub redeem_script : List ℕ
  pub op_score : ℕ

pub record ListingByTickKey : Type 0 where
  pub tick : Tick
  pub token_id : ℕ

-- `TokenMintsKey::with_seq`
abbrev pub token_mints_key : ℕ → Tick → ℕ → ℕ → TokenMintsKey
token_mints_key score tick token_id seq = record {
  score = score;
  tick = tick;
  token_id = token_id;
  reversed_seq_number = u64_max - seq;
}

-- `MintHistoryKey::with_seq`
abbrev pub mint_history_key : Tick → ℕ → ℕ → ℕ → MintHistoryKey
mint_history_key tick seq token_id score = record {
  tick = tick;
  reversed_seq = u64_max - seq;
  token_id = token_id;
  score = score;
}

-- `OwnershipHistoryKey::with_score`
abbrev pub ownership_history_key : Tick → ℕ → ℕ → OwnershipHistoryKey
ownership_history_key tick token_id score = record {
  tick = tick;
  token_id = token_id;
  reversed_score = u64_max - score;
}
