-- ===== src/Keys/Instances.antt =====
-- The `owned_key` of each key type (database/src/database/partition.rs) as words. A script is
-- encoded by its version and its bytes, without a length.
use krc721_protocol.Prelude.{ℕ, ◌≡◌, refl, List, [], ◌∷◌, ◌++◌, append-eq, arith}
use krc721_protocol.Model.{ScriptPublicKey}
use krc721_protocol.Partition.{Key}
use krc721_protocol.Keys.Defs.{
  BlueScoredChainBlockHash, DeploymentKey, TokenMintsKey, MintHistoryKey, OwnershipHistoryKey,
  OwnershipKey, RangeKey, TokenMetaKey, AddressHoldingKey, ScoredDiscountKey, VipKey,
  ListingByTickKey,
}

pub number-injective : (a b : ℕ) → ◌≡◌ {A = List ℕ} (a ∷ []) (b ∷ []) → a ≡ b
number-injective a b h = cc

-- A `u64`, a `Tick`, a `Hash` and a `TransactionId` are keys of one word.
instance abbrev pub number_key : Key ℕ
number_key = record { owned_key = λ n. n ∷ []; owned_key-injective = number-injective }

abbrev pub blue_scored_chain_block_hash_words : BlueScoredChainBlockHash → List ℕ
blue_scored_chain_block_hash_words k = k.blue_score ∷ k.block_hash ∷ []

pub blue_scored_chain_block_hash-injective :
    (a b : BlueScoredChainBlockHash)
    → blue_scored_chain_block_hash_words a ≡ blue_scored_chain_block_hash_words b
    → a ≡ b
blue_scored_chain_block_hash-injective a b h = ground arith

instance abbrev pub blue_scored_chain_block_hash_instance : Key BlueScoredChainBlockHash
blue_scored_chain_block_hash_instance = record {
  owned_key = blue_scored_chain_block_hash_words;
  owned_key-injective = blue_scored_chain_block_hash-injective;
}

abbrev pub deployment_key_words : DeploymentKey → List ℕ
deployment_key_words k = k.score ∷ k.tick ∷ []

pub deployment_key-injective :
    (a b : DeploymentKey) → deployment_key_words a ≡ deployment_key_words b → a ≡ b
deployment_key-injective a b h = ground arith

instance abbrev pub deployment_key_instance : Key DeploymentKey
deployment_key_instance = record {
  owned_key = deployment_key_words;
  owned_key-injective = deployment_key-injective;
}

abbrev pub token_mints_key_words : TokenMintsKey → List ℕ
token_mints_key_words k = k.score ∷ k.tick ∷ k.token_id ∷ k.reversed_seq_number ∷ []

pub token_mints_key-injective :
    (a b : TokenMintsKey) → token_mints_key_words a ≡ token_mints_key_words b → a ≡ b
token_mints_key-injective a b h = ground arith

instance abbrev pub token_mints_key_instance : Key TokenMintsKey
token_mints_key_instance = record {
  owned_key = token_mints_key_words;
  owned_key-injective = token_mints_key-injective;
}

abbrev pub mint_history_key_words : MintHistoryKey → List ℕ
mint_history_key_words k = k.tick ∷ k.reversed_seq ∷ k.token_id ∷ k.score ∷ []

pub mint_history_key-injective :
    (a b : MintHistoryKey) → mint_history_key_words a ≡ mint_history_key_words b → a ≡ b
mint_history_key-injective a b h = ground arith

instance abbrev pub mint_history_key_instance : Key MintHistoryKey
mint_history_key_instance = record {
  owned_key = mint_history_key_words;
  owned_key-injective = mint_history_key-injective;
}

abbrev pub ownership_history_key_words : OwnershipHistoryKey → List ℕ
ownership_history_key_words k = k.tick ∷ k.token_id ∷ k.reversed_score ∷ []

pub ownership_history_key-injective :
    (a b : OwnershipHistoryKey)
    → ownership_history_key_words a ≡ ownership_history_key_words b
    → a ≡ b
ownership_history_key-injective a b h = ground arith

instance abbrev pub ownership_history_key_instance : Key OwnershipHistoryKey
ownership_history_key_instance = record {
  owned_key = ownership_history_key_words;
  owned_key-injective = ownership_history_key-injective;
}

abbrev pub ownership_key_words : OwnershipKey → List ℕ
ownership_key_words k = k.tick ∷ k.token_id ∷ []

pub ownership_key-injective :
    (a b : OwnershipKey) → ownership_key_words a ≡ ownership_key_words b → a ≡ b
ownership_key-injective a b h = ground arith

instance abbrev pub ownership_key_instance : Key OwnershipKey
ownership_key_instance = record {
  owned_key = ownership_key_words;
  owned_key-injective = ownership_key-injective;
}

abbrev pub range_key_words : RangeKey → List ℕ
range_key_words k = k.tick ∷ k.index ∷ []

pub range_key-injective : (a b : RangeKey) → range_key_words a ≡ range_key_words b → a ≡ b
range_key-injective a b h = ground arith

instance abbrev pub range_key_instance : Key RangeKey
range_key_instance = record {
  owned_key = range_key_words;
  owned_key-injective = range_key-injective;
}

abbrev pub token_meta_key_words : TokenMetaKey → List ℕ
token_meta_key_words k = k.tick ∷ k.token_id ∷ []

pub token_meta_key-injective :
    (a b : TokenMetaKey) → token_meta_key_words a ≡ token_meta_key_words b → a ≡ b
token_meta_key-injective a b h = ground arith

instance abbrev pub token_meta_key_instance : Key TokenMetaKey
token_meta_key_instance = record {
  owned_key = token_meta_key_words;
  owned_key-injective = token_meta_key-injective;
}

abbrev pub listing_by_tick_key_words : ListingByTickKey → List ℕ
listing_by_tick_key_words k = k.tick ∷ k.token_id ∷ []

pub listing_by_tick_key-injective :
    (a b : ListingByTickKey) → listing_by_tick_key_words a ≡ listing_by_tick_key_words b → a ≡ b
listing_by_tick_key-injective a b h = ground arith

instance abbrev pub listing_by_tick_key_instance : Key ListingByTickKey
listing_by_tick_key_instance = record {
  owned_key = listing_by_tick_key_words;
  owned_key-injective = listing_by_tick_key-injective;
}

abbrev pub spk_words : ScriptPublicKey → List ℕ
spk_words s = s.version ∷ s.script

abbrev pub address_holding_key_words : AddressHoldingKey → List ℕ
address_holding_key_words k = spk_words k.spk ++ (k.tick ∷ k.token_id ∷ [])

pub address_holding_key-injective :
    (a b : AddressHoldingKey) → address_holding_key_words a ≡ address_holding_key_words b → a ≡ b
address_holding_key-injective a b h = ground (
  arith,
  append-eq (spk_words a.spk) (spk_words b.spk) (a.tick ∷ a.token_id ∷ [])
      (b.tick ∷ b.token_id ∷ []) refl h,
)

instance abbrev pub address_holding_key_instance : Key AddressHoldingKey
address_holding_key_instance = record {
  owned_key = address_holding_key_words;
  owned_key-injective = address_holding_key-injective;
}

abbrev pub vip_key_words : VipKey → List ℕ
vip_key_words k = spk_words k.spk ++ (k.tick ∷ k.reversed_score ∷ k.fee ∷ [])

pub vip_key-injective : (a b : VipKey) → vip_key_words a ≡ vip_key_words b → a ≡ b
vip_key-injective a b h = ground (
  arith,
  append-eq (spk_words a.spk) (spk_words b.spk) (a.tick ∷ a.reversed_score ∷ a.fee ∷ [])
      (b.tick ∷ b.reversed_score ∷ b.fee ∷ []) refl h,
)

instance abbrev pub vip_key_instance : Key VipKey
vip_key_instance = record { owned_key = vip_key_words; owned_key-injective = vip_key-injective }

abbrev pub scored_discount_key_words : ScoredDiscountKey → List ℕ
scored_discount_key_words k = k.score ∷ k.tick ∷ spk_words k.spk

pub scored_discount_key-injective :
    (a b : ScoredDiscountKey) → scored_discount_key_words a ≡ scored_discount_key_words b → a ≡ b
scored_discount_key-injective a b h = ground arith

instance abbrev pub scored_discount_key_instance : Key ScoredDiscountKey
scored_discount_key_instance = record {
  owned_key = scored_discount_key_words;
  owned_key-injective = scored_discount_key-injective;
}
