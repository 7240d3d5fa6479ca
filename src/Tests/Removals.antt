-- ===== src/Tests/Removals.antt =====
-- The theorems on the removal of operations in nexus/src/processor.rs, on rejected operations, on
-- the fees and on the numbers, at concrete inputs.
use krc721_protocol.Processor.Reorg.{
  identify_reorg_blocks_and_delete, uncount_operation, restore_listing_for_reorged_send,
  remove_affected_operations,
}
use krc721_protocol.Processor.Reorg.Lowest.{CutAt, identify-CutAt}
use krc721_protocol.Processor.Reorg.Relisted.{restore-process_send}
use krc721_protocol.Processor.Custody.{Custody, owns, put_listing-Custody}
use krc721_protocol.Processor.Transfer.Laws.{owner}
use krc721_protocol.Processor.Market.{process_send, put_listing}
use krc721_protocol.Model.{Tick, tick_min, spk_eq, DiscountInfo, deploy, transfer, wrong_owner}
use krc721_protocol.Prelude.{
  ◌≤◌, inl, inr, true, words_lt, ℕ, ◌<◌, ◌≡◌, refl, false, none, some, [], ◌∷◌, arith, leb,
  if◌then◌else◌, words_eq, ◌↔◌,
}
use krc721_protocol.Tests.{
  owned-Custody, base-Custody, address, alice, bob, carol, common_of, ext, base_db, owned_db,
  history_db, history-Indexed, listing_by, listing_operation, purchase, to_bob, collection, entry,
  base_registered,
}
use krc721_protocol.Processor.Reorg.Undone.{BeforeChange, SameOwners, reconstruct-SameOwners}
use krc721_protocol.Processor.Reorg.Ownership.{
  last_owner_with_tx_mod_score, reconstruct_token_ownership,
}
use krc721_protocol.Processor.Transfer.{change_owner, process_transfer}
use krc721_protocol.Processor.Custody.Minting.{record_mint-Custody}
use krc721_protocol.Keys.{
  address_holding_key, ownership_key_instance, ownership_history_key_instance,
  mint_history_key_instance, number_key, address_holding_key_instance, listing_by_tick_key_instance,
  vip_key_instance, blue_scored_chain_block_hash_instance, BlueScoredChainBlockHash,
}
use krc721_protocol.Processor.Mint.{record_mint, last_fee}
use krc721_protocol.Partition.{get, insert}
use krc721_protocol.Db.{Db, Stats, stats_default, empty_db}
use krc721_protocol.Outcome.{ok, accepted, rejected}
use krc721_protocol.Score.{
  calculate_tx_score, calculate_tx_score_from_blue, calculate_blue_score_from_tx_score,
}
use krc721_protocol.Score.Laws.{InLimits, Before, tx_score_of_blue_score, tx_score_order}
use krc721_protocol.Processor.Discount.{process_discount}
use krc721_protocol.Processor.Discount.Laws.{
  MayDiscount, process_discount-accepted, process_discount-last_fee,
}
use krc721_protocol.Processor.Market.Index.{Indexed, listing, put_listing-Indexed}
use krc721_protocol.Processor.Apply.{dispatch, count_operation}
use krc721_protocol.Processor.Apply.Atomic.{dispatch-rejected}
use krc721_protocol.Processor.Reorg.Removed.{
  remove_affected_operations-history, count-uncount, with_premint,
}
use krc721_protocol.Processor.Reorg.Listings.{Survives, restore-stale}

remove_affected_operations-history_example :
    (diff : Stats) × (db' : Db) × (remove_affected_operations 50 history_db ≡ ok (diff, db'))
    × ((score : ℕ)
        → get score db'.operation_history
          ≡ (if leb 50 score then none else get score history_db.operation_history))
remove_affected_operations-history_example =
    remove_affected_operations-history 50 history_db (tt, tt)

abbrev block : ℕ → ℕ → BlueScoredChainBlockHash
block score hash = record { blue_score = score; block_hash = hash }

abbrev blocks_db : Db
blocks_db = record empty_db {
  chain_block_scores = (block 10 77, tt) ∷ (block 12 66, tt) ∷ [];
  blockhash_to_score = (66, 12) ∷ (77, 10) ∷ [];
}

history-Survives :
    Survives purchase 100 listing_operation
      (record { token_id = 1; utxo_address = address 9; redeem_script = 9 ∷ [] })
      history_db
unfolding get words_eq
history-Survives = record { known = refl; in_history = refl; accepted = refl; is_list = refl }

unlisted : listing 7 1 history_db ≡ none
unfolding get record_mint
unlisted = refl

-- Bob has bought the token since, and lists it.
abbrev resold_db : Db
resold_db = put_listing 7 1 (listing_by bob 300) history_db

resold-Survives :
    Survives purchase 100 listing_operation
      (record { token_id = 1; utxo_address = address 9; redeem_script = 9 ∷ [] })
      resold_db
unfolding get words_eq put_listing
resold-Survives = record { known = refl; in_history = refl; accepted = refl; is_list = refl }

resold : listing 7 1 resold_db ≡ some (listing_by bob 300)
unfolding get words_eq put_listing insert record_mint
resold = refl

other_seller : spk_eq bob alice ≡ false
unfolding spk_eq words_eq
other_seller = refl

restore-stale_example :
    (listing 7 1 (restore_listing_for_reorged_send (common_of 50 bob) purchase resold_db)
      ≡ some (listing_by alice 100))
    × (get
          (address_holding_key bob 7 1)
          (restore_listing_for_reorged_send (common_of 50 bob) purchase resold_db).address_listings
        ≡ some 300)
    × (¬ Indexed (restore_listing_for_reorged_send (common_of 50 bob) purchase resold_db))
restore-stale_example =
    restore-stale (common_of 50 bob) purchase 100 listing_operation
      (record { token_id = 1; utxo_address = address 9; redeem_script = 9 ∷ [] }) resold_db
      resold-Survives (listing_by bob 300) resold other_seller
      (put_listing-Indexed 7 1 history_db (listing_by bob 300) unlisted history-Indexed)

count-uncount_example :
    count_operation (common_of 1 alice) (deploy (collection 2)) stats_default
    ≡ with_premint
        (deploy (collection 2))
        (uncount_operation (common_of 1 alice) (deploy (collection 2)) stats_default)
count-uncount_example = count-uncount (common_of 1 alice) (deploy (collection 2)) stats_default

stolen :
    dispatch ext 3 7000 (common_of 60 carol) (transfer to_bob) owned_db
    ≡ ok (rejected wrong_owner, transfer to_bob, owned_db)
unfolding dispatch process_transfer get insert record_mint words_eq spk_eq
stolen = refl

dispatch-rejected_example : owned_db ≡ owned_db
dispatch-rejected_example =
    dispatch-rejected ext 3 7000 (common_of 60 carol) (transfer to_bob) (transfer to_bob)
      wrong_owner owned_db owned_db refl stolen

abbrev half_price : DiscountInfo
half_price = record { to = bob; fee = 50 }

process_discount-accepted_example :
    ((process_discount 6000 (common_of 70 alice) half_price base_db).0 ≡ accepted)
    ↔ MayDiscount (common_of 70 alice) half_price base_db
process_discount-accepted_example =
    process_discount-accepted 6000 (common_of 70 alice) half_price base_db

may_discount : MayDiscount (common_of 70 alice) half_price base_db
unfolding spk_eq words_eq
may_discount = (entry 0, base_registered, refl, omega arith)

process_discount-last_fee_example :
    last_fee bob 7 (process_discount 6000 (common_of 70 alice) half_price base_db).1.vip ≡ some 50
process_discount-last_fee_example =
    process_discount-last_fee 6000 (common_of 70 alice) half_price base_db (omega arith)
      (omega arith) tt (process_discount-accepted_example.1 may_discount)

abbrev limits : InLimits 248 1000 3 7
limits = record { block_lt = omega arith; tx_lt = omega arith; fits = omega arith }

abbrev later : InLimits 248 1000 4 0
later = record { block_lt = omega arith; tx_lt = omega arith; fits = omega arith }

abbrev threshold_limits : InLimits 248 1000 0 0
threshold_limits = record { block_lt = omega arith; tx_lt = omega arith; fits = omega arith }

tx_score_of_blue_score_example :
    ((calculate_tx_score_from_blue 248 1000 ≤ calculate_tx_score 248 1000 3 7) ↔ (1000 ≤ 1000))
    × (calculate_blue_score_from_tx_score 248 (calculate_tx_score 248 1000 3 7) ≡ 1000)
tx_score_of_blue_score_example = tx_score_of_blue_score 248 1000 1000 3 7 limits threshold_limits

tx_score_order_example :
    (calculate_tx_score 248 1000 3 7 < calculate_tx_score 248 1000 4 0) ↔ Before 1000 3 7 1000 4 0
tx_score_order_example = tx_score_order 248 1000 3 7 1000 4 0 limits later

abbrev minted_db : Db
minted_db = record_mint tick_min 1 1 5000 alice base_db

before_transfer : BeforeChange 6000 tick_min 1 6000 5000 alice minted_db
unfolding get insert record_mint words_eq words_lt last_owner_with_tx_mod_score
before_transfer = record {
  older = (refl, tt);
  late = omega arith;
  valid_tick = omega arith;
  unrecorded = refl;
  no_mint = refl;
  last_owner = refl;
  owned = refl;
  held = (record_mint-Custody tick_min 1 1 5000 alice base_db refl base-Custody).held;
}

reconstruct-SameOwners_example :
    (db' : Db) × (reconstruct_token_ownership 6000 []
        (change_owner tick_min 1 6000 alice bob minted_db)
      ≡ ok db')
    × SameOwners minted_db db'
reconstruct-SameOwners_example =
    reconstruct-SameOwners 6000 [] tick_min 1 6000 5000 alice bob minted_db before_transfer

known_block : get 66 blocks_db.blockhash_to_score ≡ some 12
unfolding get words_eq
known_block = refl

identify-CutAt_example :
    (low : ℕ) × (low ≤ 12)
    × CutAt low (identify_reorg_blocks_and_delete (55 ∷ 66 ∷ []) none blocks_db) blocks_db
identify-CutAt_example =
    identify-CutAt 66 12 (55 ∷ 66 ∷ []) none blocks_db (inr (inl refl)) known_block

history-Custody : Custody history_db
history-Custody = record {
  indexed = history-Indexed;
  held = owned-Custody.held;
  sellers_own = owned-Custody.sellers_own;
}

-- Alice lists the token.
abbrev for_sale_db : Db
for_sale_db = put_listing 7 1 (listing_by alice 100) history_db

for_sale_owned : owns alice (owner 7 1 history_db) ≡ true
unfolding get insert record_mint words_eq spk_eq
for_sale_owned = refl

for_sale-Survives :
    Survives purchase 100 listing_operation
      (record { token_id = 1; utxo_address = address 9; redeem_script = 9 ∷ [] })
      for_sale_db
unfolding get words_eq put_listing
for_sale-Survives = record { known = refl; in_history = refl; accepted = refl; is_list = refl }

for_sale : listing 7 1 for_sale_db ≡ some (listing_by alice 100)
unfolding get words_eq put_listing insert record_mint
for_sale = refl

restore-process_send_example :
    ((u : Tick) (j : ℕ)
      → listing u j (
          restore_listing_for_reorged_send
            (common_of 50 bob)
            purchase
            (process_send 6000 (common_of 50 bob) purchase for_sale_db).1)
        ≡ listing u j for_sale_db)
    × Indexed (
        restore_listing_for_reorged_send
          (common_of 50 bob)
          purchase
          (process_send 6000 (common_of 50 bob) purchase for_sale_db).1)
restore-process_send_example =
    restore-process_send 6000 (common_of 50 bob) purchase 100 listing_operation
      (record { token_id = 1; utxo_address = address 9; redeem_script = 9 ∷ [] }) for_sale_db
      (put_listing-Custody 7 1 (listing_by alice 100) history_db unlisted for_sale_owned
        history-Custody)
      for_sale-Survives for_sale
