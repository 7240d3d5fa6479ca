-- ===== src/Processor/Reorg/Listings.antt =====
-- The listing that a removed send of nexus/src/processor.rs brings back.
use krc721_protocol.Prelude.{ℕ, ◌≡◌, sym, ap, ◌∙◌, false, none, some, arith}
use mathlib.Core.Path.{subst}
use krc721_protocol.Partition.{get}
use krc721_protocol.Partition.Laws.{get-insert, get-insert_self}
use krc721_protocol.Model.{
  Tick, spk_eq, ListingInfo, OperationCommon, CheckedOperation, SendInfo, list,
}
use krc721_protocol.Keys.{
  number_key, ownership_key_instance, listing_by_tick_key_instance, address_holding_key_instance,
  address_holding_key, ownership_key, ownership_key-eq, address_holding_key-eq, spk_eq_refl,
  ListingValue,
}
use krc721_protocol.Db.{Db}
use krc721_protocol.Processor.Market.{put_listing}
use krc721_protocol.Processor.Market.Index.{listing, Indexed, put_listing-Indexed}
use krc721_protocol.Processor.Reorg.Operations.{restore_listing, restore_listing_for_reorged_send}

-- The send spent the output of a list operation that is still in the history, and was accepted.
pub record Survives (info : SendInfo) (score : ℕ) (checked : CheckedOperation) (l : ListingInfo)
    (db : Db) : Type 0 where
  pub known : get info.listing_utxo_txid db.tx_id_to_opscore ≡ some score
  pub in_history : get score db.operation_history ≡ some checked
  pub accepted : checked.error ≡ none
  pub is_list : checked.operation.info ≡ list l

-- The listing as the list operation had made it.
abbrev pub restored : SendInfo → ℕ → CheckedOperation → ListingInfo → ListingValue
restored info score checked l = record {
  seller = checked.operation.common.sender;
  listing_tx_id = info.listing_utxo_txid;
  utxo_address = l.utxo_address;
  redeem_script = l.redeem_script;
  op_score = score;
}

put_listing-kept :
    (t : Tick) (id : ℕ) (l old : ListingValue) (db : Db)
    → Indexed db
    → listing t id db ≡ some old
    → spk_eq old.seller l.seller ≡ false
    → get (address_holding_key old.seller t id) (put_listing t id l db).address_listings
      ≡ some old.op_score
unfolding put_listing
put_listing-kept t id l old db ix e other = ground (
  arith,
  ix.by_seller old.seller t id,
  e,
  spk_eq_refl old.seller,
  get-insert (address_holding_key l.seller t id) (address_holding_key old.seller t id) l.op_score
      db.address_listings,
  address_holding_key-eq old.seller l.seller t t id id,
)

-- A listing that is put over that of another seller leaves the entry of the other seller.
put_listing-stale :
    (t : Tick) (id : ℕ) (l old : ListingValue) (db : Db)
    → Indexed db
    → listing t id db ≡ some old
    → spk_eq old.seller l.seller ≡ false
    → ¬ Indexed (put_listing t id l db)
unfolding put_listing
put_listing-stale t id l old db ix e other broken = ground (
  arith,
  ix.by_seller old.seller t id,
  e,
  spk_eq_refl old.seller,
  get-insert (address_holding_key l.seller t id) (address_holding_key old.seller t id) l.op_score
      db.address_listings,
  address_holding_key-eq old.seller l.seller t t id id,
  broken.by_seller old.seller t id,
  get-insert (ownership_key t id) (ownership_key t id) l db.listings,
  ownership_key-eq t t id id,
)

module _ (common : OperationCommon) (info : SendInfo) (score : ℕ) (checked : CheckedOperation)
    (l : ListingInfo) (db : Db) (s : Survives info score checked l db) where
  pub restore-eq :
      restore_listing_for_reorged_send common info db
      ≡ put_listing common.tick info.token_id (restored info score checked l) db
  unfolding restore_listing_for_reorged_send restore_listing
  restore-eq = ground (arith, s.known, s.in_history, s.accepted, s.is_list)

  put_listing-listing :
      listing common.tick info.token_id
        (put_listing common.tick info.token_id (restored info score checked l) db)
      ≡ some (restored info score checked l)
  unfolding put_listing
  put_listing-listing = get-insert_self _ _ _

  -- Where the tables of listings agree, and a send spent the output of a list operation that is
  -- still in the history and was accepted, undoing the send puts the listing back with the score
  -- of the list operation, and the tables still agree, if the token is not listed by then.
  pub restore-Indexed :
      listing common.tick info.token_id db ≡ none
      → Indexed db
      → (listing common.tick info.token_id (restore_listing_for_reorged_send common info db)
          ≡ some (restored info score checked l))
        × Indexed (restore_listing_for_reorged_send common info db)
  restore-Indexed free ix = (
    ap (listing common.tick info.token_id) restore-eq ∙ put_listing-listing,
    subst Indexed (sym restore-eq)
        (put_listing-Indexed common.tick info.token_id db (restored info score checked l) free ix),
  )

  -- Where the tables of listings agree, and a send spent the output of a list operation that is
  -- still in the history and was accepted, if another seller lists the token by then, undoing the
  -- send puts the listing of the list operation in the place of that of the seller, keeps the
  -- entry of that seller in the table by seller, and so breaks the agreement of the tables of
  -- listings.
  pub restore-stale :
      (old : ListingValue)
      → listing common.tick info.token_id db ≡ some old
      → spk_eq old.seller checked.operation.common.sender ≡ false
      → Indexed db
      → (listing common.tick info.token_id (restore_listing_for_reorged_send common info db)
          ≡ some (restored info score checked l))
        × (get
              (address_holding_key old.seller common.tick info.token_id)
              (restore_listing_for_reorged_send common info db).address_listings
            ≡ some old.op_score)
        × (¬ Indexed (restore_listing_for_reorged_send common info db))
  restore-stale old e other ix = (
    ap (listing common.tick info.token_id) restore-eq ∙ put_listing-listing,
    ap
          (λ (x : Db).
            get (address_holding_key old.seller common.tick info.token_id) x.address_listings)
          restore-eq
        ∙ put_listing-kept common.tick info.token_id (restored info score checked l) old db ix e
            other,
    λ broken.
        put_listing-stale common.tick info.token_id (restored info score checked l) old db ix e
          other (subst Indexed restore-eq broken),
  )
