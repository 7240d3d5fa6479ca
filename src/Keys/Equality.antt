-- ===== src/Keys/Equality.antt =====
-- When two keys of database/src/database/partition.rs are the same key.
use krc721_protocol.Prelude.{ℕ, ◌≡◌, ◌&&◌, ◌==◌, words_eq, arith}
use krc721_protocol.Partition.{key_eq}
use krc721_protocol.Model.{Tick}
use krc721_protocol.Keys.Defs.{OwnershipKey, RangeKey, TokenMetaKey, ListingByTickKey}
use krc721_protocol.Keys.Instances.{
  number_key, range_key_instance, token_meta_key_instance, ownership_key_instance,
  listing_by_tick_key_instance,
}

abbrev pub range_key : Tick → ℕ → RangeKey
range_key t i = record { tick = t; index = i }

abbrev pub token_meta_key : Tick → ℕ → TokenMetaKey
token_meta_key t id = record { tick = t; token_id = id }

abbrev pub ownership_key : Tick → ℕ → OwnershipKey
ownership_key t id = record { tick = t; token_id = id }

abbrev pub listing_by_tick_key : Tick → ℕ → ListingByTickKey
listing_by_tick_key t id = record { tick = t; token_id = id }

pub number_key-eq : (a b : ℕ) → key_eq a b ≡ (a == b)
unfolding words_eq
number_key-eq a b = ground arith

module _ (t u : Tick) (i j : ℕ) where
  pub range_key-eq : key_eq (range_key t i) (range_key u j) ≡ ((t == u) && (i == j))
  unfolding words_eq
  range_key-eq = ground arith

  pub token_meta_key-eq : key_eq (token_meta_key t i) (token_meta_key u j) ≡ ((t == u) && (i == j))
  unfolding words_eq
  token_meta_key-eq = ground arith

  pub ownership_key-eq : key_eq (ownership_key t i) (ownership_key u j) ≡ ((t == u) && (i == j))
  unfolding words_eq
  ownership_key-eq = ground arith

  pub listing_by_tick_key-eq :
      key_eq (listing_by_tick_key t i) (listing_by_tick_key u j) ≡ ((t == u) && (i == j))
  unfolding words_eq
  listing_by_tick_key-eq = ground arith
