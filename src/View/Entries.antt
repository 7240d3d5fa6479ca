-- ===== src/View/Entries.antt =====
-- What the views of nexus/src/nft_view.rs return for one entry of a partition, and the functions
-- that make it.
use krc721_protocol.Prelude.{ℕ, ◌-◌, ◌^◌, ◌==◌, Option, none, some, List, u64_max, get_or}
use Prim.Native.String.{String}
use mathlib.Core.Bool.{Bool, not}
use krc721_protocol.Partition.{get, first_where}
use krc721_protocol.Model.{
  Tick, TransactionId, ScriptPublicKey, DeployInfoWithCommon, has_incompatible_uri_prefix,
}
use krc721_protocol.Keys.{
  number_key, ownership_key_instance, MintHistoryKey, OwnershipHistoryKey, OwnershipKey,
  CurrentOwnershipValue, AddressHoldingKey, ListingValue, DeploymentKey, ownership_key,
}
use krc721_protocol.Db.{Db}
use krc721_protocol.View.Answers.{
  Answer, done, ◌>>=◌, or_fail, listing_index_inconsistency, view_panic,
}

-- `Tick::MAX`, the upper bound of ranges over ticks.
abbrev pub tick_max : Tick
tick_max = 256 ^ 10 - 1

-- `Collection`, whose state is always `Deployed`.
pub record Collection : Type 0 where
  pub deploy_info_with_common : DeployInfoWithCommon
  pub minted : ℕ
  pub op_score_modified : ℕ
  pub mts_mod : ℕ
  pub op_score_added : ℕ

pub record NftLookupEntry : Type 0 where
  pub token_id : ℕ
  pub mod_tx_score : ℕ
  pub listing : Option ListingValue

pub record Ownership : Type 0 where
  pub token_id : ℕ
  pub owner : ScriptPublicKey
  pub mod_tx_score : ℕ
  pub listing : Option ListingValue

pub record TokenLookupEntry : Type 0 where
  pub owner : ScriptPublicKey
  pub mod_tx_score : ℕ
  pub listing : Option ListingValue

pub record TokenHistoryRecord : Type 0 where
  pub owner : ScriptPublicKey
  pub mod_tx_score : ℕ
  pub tx_id : TransactionId

pub record ListingEntry : Type 0 where
  pub tick : Tick
  pub token_id : ℕ
  pub seller : ScriptPublicKey
  pub listing_tx_id : TransactionId
  pub redeem_script : List ℕ
  pub op_score : ℕ

-- The last mint of a tick: `score` and `seq_no` of what `last_minted_token_seq_no_rtx` returns.
pub record TokenScoreSeqNo : Type 0 where
  pub score : ℕ
  pub seq_no : ℕ

unfoldable pub last_minted_token_seq_no_rtx : Tick → Db → Option TokenScoreSeqNo
last_minted_token_seq_no_rtx t db =
    elim (first_where (λ (k : MintHistoryKey). k.tick == t) db.mint_history) [
      | none ↦ none
      | some e ↦ some (record { score = e.0.score; seq_no = u64_max - e.0.reversed_seq })
    ]

abbrev pub token_listing : Tick → ℕ → Db → Option ListingValue
token_listing tick token_id db = get (ownership_key tick token_id) db.listings

-- `!v.has_incompatible_uri_prefix(restricted_protocols)`
abbrev pub is_compatible : List String → DeployInfoWithCommon → Bool
is_compatible restricted d = not (has_incompatible_uri_prefix d.info.metadata restricted)

abbrev pub collection_of : ℕ → DeployInfoWithCommon → Option TokenScoreSeqNo → Option ℕ → Collection
collection_of score info last mts_mod = record {
  deploy_info_with_common = info;
  minted = elim last [ none ↦ 0 | some t ↦ t.seq_no ];
  op_score_modified = elim last [ none ↦ score | some t ↦ t.score ];
  mts_mod = get_or mts_mod info.common.block_time;
  op_score_added = score;
}

abbrev pub block_time_at : ℕ → Db → Option ℕ
block_time_at score db = elim (get score db.operation_history) [
  | none ↦ none
  | some v ↦ some v.operation.common.block_time
]

-- `process_fn` of `krc721_collection_list`
unfoldable pub collection_entry : Db → DeploymentKey × DeployInfoWithCommon → Answer Collection
collection_entry db (key, info) = elim (last_minted_token_seq_no_rtx key.tick db) [
  | none ↦ done (collection_of key.score info none none)
  | some t ↦
      or_fail view_panic (block_time_at t.score db)
      >>= (λ time. done (collection_of key.score info (some t) (some time)))
]

-- `processed_fn` of `krc721_token_list`
abbrev pub ownership_entry : Tick → Db → OwnershipKey × CurrentOwnershipValue → Answer Ownership
ownership_entry tick db (key, v) = done (record {
  token_id = key.token_id;
  owner = v.owner;
  mod_tx_score = v.mod_tx_score;
  listing = token_listing tick key.token_id db;
})

-- `processed_fn` of `krc721_token_history_list`; `OwnershipHistoryKey::score`
abbrev pub history_entry : Db → OwnershipHistoryKey × ScriptPublicKey → Answer TokenHistoryRecord
history_entry db (key, owner) =
    let score = u64_max - key.reversed_score in
    or_fail view_panic (get score db.operation_history) >>= (λ op.
      done (record { owner = owner; mod_tx_score = score; tx_id = op.operation.common.tx_id }))

-- `processed_fn` of `krc721_address_nft_lookup`
abbrev pub nft_entry : Tick → Db → AddressHoldingKey × ℕ → Answer NftLookupEntry
nft_entry tick db (key, mod_tx_score) = done (record {
  token_id = key.token_id;
  mod_tx_score = mod_tx_score;
  listing = token_listing tick key.token_id db;
})

-- `processed_fn` of `krc721_active_listings` and of `krc721_address_listings`
unfoldable pub listing_entry : Db → Tick → ℕ → Answer ListingEntry
listing_entry db tick token_id =
    or_fail listing_index_inconsistency (token_listing tick token_id db) >>= (λ l. done (record {
      tick = tick;
      token_id = token_id;
      seller = l.seller;
      listing_tx_id = l.listing_tx_id;
      redeem_script = l.redeem_script;
      op_score = l.op_score;
    }))
