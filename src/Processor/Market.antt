-- ===== src/Processor/Market.antt =====
-- `process_list` and `process_send` of nexus/src/processor.rs: the marketplace.
pub mod Index
pub mod Conditions
use krc721_protocol.Prelude.{ℕ, not, Option, none, some, ◌==◌, is_some, if◌then◌else◌}
use krc721_protocol.Partition.{get, insert, remove}
use krc721_protocol.Model.{
  Tick, ScriptPublicKey, spk_eq, ListingInfo, SendInfo, OperationCommon, invalid_listing_p2sh,
  tick_not_found, token_not_found, wrong_owner, token_already_listed, listing_not_found,
  wrong_listing_utxo,
}
use krc721_protocol.Keys.{
  address_holding_key, number_key, ownership_key_instance, listing_by_tick_key_instance,
  address_holding_key_instance, ListingValue, ownership_key, listing_by_tick_key,
}
use krc721_protocol.Db.{Db}
use krc721_protocol.Outcome.{Validation, accepted, rejected}
use krc721_protocol.External.{External}
use krc721_protocol.Processor.Transfer.{change_owner}

-- The three writes of a listing: by token, by collection and by seller.
unfoldable pub put_listing : Tick → ℕ → ListingValue → Db → Db
put_listing tick token_id listing db = record db {
  listings = insert (ownership_key tick token_id) listing db.listings;
  listings_by_tick = insert (listing_by_tick_key tick token_id) tt db.listings_by_tick;
  address_listings =
      insert (address_holding_key listing.seller tick token_id) listing.op_score
        db.address_listings;
}

-- The three removals of a listing.
unfoldable pub drop_listing : Tick → ℕ → ScriptPublicKey → Db → Db
drop_listing tick token_id seller db = record db {
  listings = remove (ownership_key tick token_id) db.listings;
  listings_by_tick = remove (listing_by_tick_key tick token_id) db.listings_by_tick;
  address_listings = remove (address_holding_key seller tick token_id) db.address_listings;
}

abbrev pub listing_value : ℕ → OperationCommon → ListingInfo → ListingValue
listing_value tx_score common info = record {
  seller = common.sender;
  listing_tx_id = common.tx_id;
  utxo_address = info.utxo_address;
  redeem_script = info.redeem_script;
  op_score = tx_score;
}

unfoldable pub process_list : External → ℕ → OperationCommon → ListingInfo → Db → Validation × Db
process_list ext tx_score common info db =
    if not (spk_eq (ext.pay_to_script_hash_script info.redeem_script) info.utxo_address)
    then (rejected invalid_listing_p2sh, db)
    else if not (is_some (get common.tick db.collection_registry))
    then (rejected tick_not_found, db)
    else elim (get (ownership_key common.tick info.token_id) db.current_ownership) [
      | none ↦ (rejected token_not_found, db)
      | some value ↦
          if not (spk_eq value.owner common.sender)
          then (rejected wrong_owner, db)
          else if is_some (get (ownership_key common.tick info.token_id) db.listings)
          then (rejected token_already_listed, db)
          else (
            accepted,
            put_listing common.tick info.token_id (listing_value tx_score common info) db,
          )
    ]

-- With a buyer the send is a sale; without one it takes the listing back.
unfoldable pub process_send : ℕ → OperationCommon → SendInfo → Db → Validation × Db
process_send tx_score common info db =
    elim (get (ownership_key common.tick info.token_id) db.listings) [
      | none ↦ (rejected listing_not_found, db)
      | some listing ↦
          if not (info.listing_utxo_txid == listing.listing_tx_id)
          then (rejected wrong_listing_utxo, db)
          else (
            accepted,
            drop_listing common.tick info.token_id listing.seller (elim info.buyer [
              | none ↦ db
              | some buyer ↦ change_owner common.tick info.token_id tx_score listing.seller buyer db
            ]),
          )
    ]
