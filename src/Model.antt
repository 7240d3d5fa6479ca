-- ===== src/Model.antt =====
-- core/src/model/krc721/database.rs and model.rs: the operations of the protocol, their validation
-- errors, and the chain changes that carry them.
-- A tick, a block hash and a transaction id are byte arrays of a fixed size, read big-endian as
-- one number: equality and order are those of the arrays.
use Prim.Native.String.{String}
use text.Mathlib.Text.{starts_with}
use krc721_protocol.Prelude.{
  ℕ, ◌*◌, ◌^◌, Bool, true, not, ◌&&◌, Option, List, [], ◌∷◌, words_eq, ◌==◌,
}

abbrev pub Tick : Type 0
Tick = ℕ

abbrev pub RpcHash : Type 0
RpcHash = ℕ

abbrev pub TransactionId : Type 0
TransactionId = ℕ

-- `Tick::MIN`, which starts every range over ticks.
abbrev pub tick_min : Tick
tick_min = b'0' * 256 ^ 9

-- `RpcHash::default()`
abbrev pub hash_default : RpcHash
hash_default = 0

-- The script of an address: its version and its bytes.
pub record ScriptPublicKey : Type 0 where
  pub version : ℕ
  pub script : List ℕ

-- `==` on scripts
unfoldable pub spk_eq : ScriptPublicKey → ScriptPublicKey → Bool
spk_eq a b = (a.version == b.version) && words_eq a.script b.script

pub record Attribute : Type 0 where
  pub trait_type : String
  pub value : String
  pub display_type : Option String

pub record LocalMetadata : Type 0 where
  pub name : String
  pub description : String
  pub image : String
  pub attributes : Option (List Attribute)

pub data Metadata : Type 0 where
  remote : String → Metadata
  local : LocalMetadata → Metadata

pub record RoyaltyDetails : Type 0 where
  pub beneficiary : ScriptPublicKey
  pub fee : ℕ

pub record DeployInfo : Type 0 where
  pub metadata : Metadata
  pub max : ℕ
  pub deployer : ScriptPublicKey
  pub royalty : Option RoyaltyDetails
  pub mint_start_daa : ℕ
  pub premint : ℕ

pub record MintInfo : Type 0 where
  pub token_id : ℕ
  pub to : ScriptPublicKey
  pub royalty : Option RoyaltyDetails

pub record TransferInfo : Type 0 where
  pub token_id : ℕ
  pub to : ScriptPublicKey

pub record DiscountInfo : Type 0 where
  pub to : ScriptPublicKey
  pub fee : ℕ

pub record ListingInfo : Type 0 where
  pub token_id : ℕ
  pub utxo_address : ScriptPublicKey
  pub redeem_script : List ℕ

pub record SendInfo : Type 0 where
  pub token_id : ℕ
  pub payment_amount : ℕ
  pub buyer : Option ScriptPublicKey
  pub listing_utxo_txid : TransactionId

pub record OperationCommon : Type 0 where
  pub tick : Tick
  pub tx_id : TransactionId
  pub block_time : ℕ
  pub sender : ScriptPublicKey
  pub fee : ℕ
  pub accepting_block_daa_score : ℕ

pub record DeployInfoWithCommon : Type 0 where
  pub info : DeployInfo
  pub common : OperationCommon

pub data OperationInfo : Type 0 where
  deploy : DeployInfo → OperationInfo
  mint : MintInfo → OperationInfo
  transfer : TransferInfo → OperationInfo
  discount : DiscountInfo → OperationInfo
  list : ListingInfo → OperationInfo
  send : SendInfo → OperationInfo

pub record Operation : Type 0 where
  pub common : OperationCommon
  pub info : OperationInfo

pub data CtxValidationError : Type 0 where
  tick_exists : CtxValidationError
  tick_reserved : CtxValidationError
  insufficient_royalty_fee : CtxValidationError
  missing_royalty_mint_fee : CtxValidationError
  invalid_beneficiary_for_royalty_mint_fee : CtxValidationError
  tick_not_found : CtxValidationError
  minting_finished : CtxValidationError
  token_not_found : CtxValidationError
  wrong_owner : CtxValidationError
  -- tick, current and start accepting block DAA score
  minting_not_started : Tick → ℕ → ℕ → CtxValidationError
  wrong_deployer : CtxValidationError
  discount_fee_overflow : CtxValidationError
  token_already_listed : CtxValidationError
  listing_not_found : CtxValidationError
  wrong_listing_utxo : CtxValidationError
  token_is_listed : CtxValidationError
  invalid_listing_p2sh : CtxValidationError

pub record CheckedOperation : Type 0 where
  pub operation : Operation
  pub error : Option CtxValidationError

pub record MergesetOperation : Type 0 where
  pub block_index_within_mergeset : ℕ
  pub index_within_merged_block : ℕ
  pub operation : Operation

pub record Mergeset : Type 0 where
  pub operations : List MergesetOperation
  pub entropy : ℕ
  pub blue_score : ℕ
  pub accepted_chain_block_hash : RpcHash

pub record VirtualChainChanges : Type 0 where
  pub removed_chain_block_hashes : List RpcHash
  pub forced_rollback_blue_score : Option ℕ
  pub mergesets : List Mergeset

no_prefix_of : String → List String → Bool
no_prefix_of uri [] = true
no_prefix_of uri (p ∷ ps) = not (starts_with uri p) && no_prefix_of uri ps

-- `Metadata::has_incompatible_uri_prefix`
unfoldable pub has_incompatible_uri_prefix : Metadata → List String → Bool
unfolding no_prefix_of
has_incompatible_uri_prefix (remote buri) ps = no_prefix_of buri ps
has_incompatible_uri_prefix (local m) ps = no_prefix_of m.image ps
