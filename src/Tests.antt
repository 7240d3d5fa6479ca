-- ===== src/Tests.antt =====
-- The theorems on nexus/src/processor.rs and nexus/src/lib.rs at concrete inputs: one collection, 7,
-- with up to ten tokens, and three addresses.
pub mod Removals
pub mod Utf8
pub mod Texts
pub mod Scripts
pub mod Inscriptions
pub mod Queues
pub mod Views
use krc721_protocol.Processor.Custody.Batch.{process_nft_operations-Custody}
use krc721_protocol.Processor.Apply.{
  ContextOperation, process_nft_operations, dispatch, count_operation,
}
use krc721_protocol.Db.{Stats, stats_default, Db, empty_db, add, sub}
use krc721_protocol.Model.{
  transfer, list, Tick, ScriptPublicKey, spk_eq, Metadata, remote, RoyaltyDetails, DeployInfo,
  MintInfo, TransferInfo, DiscountInfo, ListingInfo, SendInfo, OperationCommon, CheckedOperation,
  deploy, mint, send, discount, wrong_owner, CtxValidationError,
}
use krc721_protocol.Processor.Mint.Conditions.{MayMint, mint_error-MayMint}
use krc721_protocol.Prelude.{
  ◌<◌, u64_max, ◌↔◌, none, false, arith, ℕ, ◌+◌, ◌-◌, ◌≤◌, ◌≡◌, ◌≢◌, refl, inl, inr, Bool, true,
  Option, some, List, [], ◌∷◌, ◌==◌, leb, if◌then◌else◌, is_some, words_eq, add_u64, sub_u64,
  words_lt,
}
use krc721_protocol.Partition.{Partition, get, insert, remove, range_from, key_lt}
use krc721_protocol.Partition.Order.{All, Sorted, insert-Sorted}
use krc721_protocol.Keys.{
  number_key, ownership_key_instance, ownership_key, address_holding_key_instance,
  listing_by_tick_key_instance, ListingValue, ScoredDeployInfoWithCommon, vip_key_instance,
  blue_scored_chain_block_hash_instance, BlueScoredChainBlockHash,
}
use krc721_protocol.Db.StatsLaws.{Fits, sub-add}
use krc721_protocol.TokenId.Mass.{mass}
use krc721_protocol.Outcome.{Outcome, ok, err, Validation, accepted, rejected}
use krc721_protocol.External.{External}
use krc721_protocol.Score.{
  calculate_tx_score, calculate_tx_score_from_blue, calculate_blue_score_from_tx_score,
}
use krc721_protocol.Score.Laws.{InLimits, Before, tx_score_order}
use krc721_protocol.Processor.Mint.{
  mint_error, process_mint, record_mint, process_deployment, last_mint, last_fee, in_prefix_range,
  vip_key, royalty_error, last_minted_token_seq_no,
}
use krc721_protocol.Processor.Mint.Supply.{Supply, Minted, process_mint-Minted}
use krc721_protocol.Processor.Mint.Premint.{
  Fresh, InSequence, process_deployment-Supply, registered, deployment_entry,
}
use krc721_protocol.Processor.Transfer.{process_transfer, change_owner}
use krc721_protocol.Processor.Transfer.Laws.{
  Moved, MayTransfer, process_transfer-accepted, process_transfer-Moved, owner,
}
use krc721_protocol.Processor.Discount.{process_discount}
use krc721_protocol.Processor.Discount.Laws.{
  MayDiscount, process_discount-accepted, process_discount-last_fee,
}
use krc721_protocol.Processor.Market.{process_list, process_send, put_listing}
use krc721_protocol.Processor.Market.Index.{Indexed, listing, put_listing-Indexed}
use krc721_protocol.Processor.Market.Conditions.{
  MayList, MaySend, process_list-accepted, process_send-accepted, process_send-Moved,
}
use krc721_protocol.Processor.Apply.Atomic.{dispatch-rejected}
use krc721_protocol.Processor.Custody.{Custody}
use krc721_protocol.Processor.Custody.Minting.{record_mint-Custody}
use krc721_protocol.Processor.Custody.Dispatch.{Ready, Keeps, dispatch-Custody}
use krc721_protocol.Processor.Reorg.{
  restore_listing_for_reorged_send, remove_affected_operations, remove_chain_state_from_blue_score,
}
use krc721_protocol.Processor.Reorg.Removed.{
  remove_affected_operations-history, remove_chain_state-blocks, count-uncount, with_premint,
}
use krc721_protocol.Processor.Reorg.Listings.{Survives, restored, restore-Indexed, restore-stale}

abbrev pub address : ℕ → ScriptPublicKey
address n = record { version = 0; script = n ∷ [] }

abbrev pub alice : ScriptPublicKey
alice = address 1

abbrev pub bob : ScriptPublicKey
bob = address 2

abbrev pub carol : ScriptPublicKey
carol = address 3

-- An operation of `sender` in transaction `tx_id`.
abbrev pub common_of : ℕ → ScriptPublicKey → OperationCommon
common_of tx_id sender = record {
  tick = 7;
  tx_id = tx_id;
  block_time = 1000;
  sender = sender;
  fee = 10;
  accepting_block_daa_score = 50;
}

abbrev pub ext : External
ext = record {
  merge_set_limit = 248;
  pay_to_script_hash_script = λ s. record { version = 0; script = s };
}

-- Ten tokens, `premint` of them minted in advance; a mint pays 100 to the deployer.
abbrev pub collection : ℕ → DeployInfo
collection premint = record {
  metadata = remote "ipfs://cats";
  max = 10;
  deployer = alice;
  royalty = some (record { beneficiary = alice; fee = 100 });
  mint_start_daa = 0;
  premint = premint;
}

abbrev pub entry : ℕ → ScoredDeployInfoWithCommon
entry premint = deployment_entry 5 (common_of 1 alice) (collection premint)

-- The collection is deployed, and no token is minted yet.
abbrev pub base_db : Db
base_db = record empty_db { collection_registry = (7, entry 0) ∷ [] }

abbrev pub paid_mint : MintInfo
paid_mint = record {
  token_id = 0;
  to = bob;
  royalty = some (record { beneficiary = alice; fee = 100 });
}

empty-Fresh : Fresh 7 empty_db
unfolding get
empty-Fresh = record {
  unregistered = refl;
  no_mints = tt;
  no_ranges = refl;
  no_slots = λ i. refl;
  no_owners = λ id. refl;
}

pub base-Supply : Supply 7 (collection 0) base_db
unfolding get last_minted_token_seq_no mass
base-Supply = record {
  history = tt;
  premint_done = omega arith;
  ids = record {
    ranges = record {
      filled = λ i h. absurd (omega (arith, h));
      bounds = λ i s z h. absurd (cc);
      disjoint = λ i j s z s' z' h h' ne. absurd (cc);
    };
    mass_bound = omega arith;
  };
  balance = refl;
  unowned = λ id free. refl;
}

pub base-Custody : Custody base_db
unfolding get
base-Custody = record {
  indexed = record { by_tick = λ t id. refl; by_seller = λ spk t id. refl };
  held = λ spk t id. refl;
  sellers_own = λ t id l e. cc;
}

valid_mint : mint_error (collection 0) (common_of 20 bob) paid_mint false base_db ≡ none
unfolding mint_error last_minted_token_seq_no royalty_error last_fee spk_eq get words_eq add_u64
valid_mint = refl

-- Token 1 belongs to alice.
abbrev pub owned_db : Db
owned_db = record_mint 7 1 1 5000 alice base_db

pub owned-Custody : Custody owned_db
unfolding get
owned-Custody = record_mint-Custody 7 1 1 5000 alice base_db refl base-Custody

abbrev pub listing_by : ScriptPublicKey → ℕ → ListingValue
listing_by seller score = record {
  seller = seller;
  listing_tx_id = 40;
  utxo_address = address 9;
  redeem_script = 9 ∷ [];
  op_score = score;
}

-- And alice lists it.
abbrev pub listed_db : Db
listed_db = put_listing 7 1 (listing_by alice 100) owned_db

-- The history has the operation that lists it.
abbrev pub listing_operation : CheckedOperation
listing_operation = record {
  operation = record {
    common = common_of 40 alice;
    info = list (record { token_id = 1; utxo_address = address 9; redeem_script = 9 ∷ [] });
  };
  error = none;
}

abbrev pub history_db : Db
history_db = record owned_db {
  tx_id_to_opscore = (40, 100) ∷ [];
  operation_history = (100, listing_operation) ∷ [];
}

pub history-Indexed : Indexed history_db
unfolding get record_mint insert
history-Indexed = record {
  by_tick = owned-Custody.indexed.by_tick;
  by_seller = owned-Custody.indexed.by_seller;
}

abbrev pub purchase : SendInfo
purchase = record { token_id = 1; payment_amount = 5; buyer = some bob; listing_utxo_txid = 40 }

abbrev pub to_bob : TransferInfo
to_bob = record { token_id = 1; to = bob }

abbrev pub list_token : ListingInfo
list_token = record { token_id = 1; utxo_address = address 9; redeem_script = 9 ∷ [] }

pub base_registered : get 7 base_db.collection_registry ≡ some (entry 0)
unfolding get words_eq
base_registered = refl

dispatch-Custody_example : Keeps ext 3 20000 (common_of 20 bob) (mint paid_mint) base_db
dispatch-Custody_example =
    dispatch-Custody ext 3 20000 (common_of 20 bob) base_db base-Custody (mint paid_mint)
      (inr (entry 0, base_registered, omega arith, base-Supply))

process_mint-Minted_example :
    (id : ℕ) × (db' : Db) × (process_mint 3 20000 (common_of 20 bob) paid_mint false base_db
      ≡ ok (accepted, record paid_mint { token_id = id }, db'))
    × Minted (common_of 20 bob) (collection 0) paid_mint 20000 base_db id db'
process_mint-Minted_example =
    process_mint-Minted 3 20000 (common_of 20 bob) paid_mint base_db (entry 0) base_registered
      (omega arith) base-Supply valid_mint

process_deployment-Supply_example :
    (db' : Db) × (process_deployment 5000 (common_of 1 alice) (collection 2) empty_db
      ≡ ok (accepted, db'))
    × (registered 7 db' ≡ some (deployment_entry 5000 (common_of 1 alice) (collection 2)))
    × (last_mint 7 db' ≡ 2)
    × InSequence 7 5000 (collection 2) 2 db'
    × Supply 7 (collection 2) db'
process_deployment-Supply_example =
    process_deployment-Supply 5000 (common_of 1 alice) (collection 2) empty_db (omega arith)
      (omega arith) empty-Fresh

process_transfer-accepted_example :
    ((process_transfer 6000 (common_of 30 alice) to_bob owned_db).0 ≡ accepted)
    ↔ MayTransfer (common_of 30 alice) to_bob owned_db
process_transfer-accepted_example =
    process_transfer-accepted 6000 (common_of 30 alice) to_bob owned_db

may_transfer : MayTransfer (common_of 30 alice) to_bob owned_db
unfolding get insert record_mint words_eq
may_transfer = (5000, refl, refl)

process_transfer-Moved_example :
    Moved 7 1 6000 alice bob owned_db (process_transfer 6000 (common_of 30 alice) to_bob owned_db).1
process_transfer-Moved_example =
    process_transfer-Moved 6000 (common_of 30 alice) to_bob owned_db
      (process_transfer-accepted_example.1 may_transfer)

process_list-accepted_example :
    ((process_list ext 6000 (common_of 40 alice) list_token owned_db).0 ≡ accepted)
    ↔ MayList ext (common_of 40 alice) list_token owned_db
process_list-accepted_example =
    process_list-accepted ext 6000 (common_of 40 alice) list_token owned_db

process_send-accepted_example :
    ((process_send 6000 (common_of 50 bob) purchase listed_db).0 ≡ accepted)
    ↔ MaySend (common_of 50 bob) purchase listed_db
process_send-accepted_example = process_send-accepted 6000 (common_of 50 bob) purchase listed_db

purchase_accepted : (process_send 6000 (common_of 50 bob) purchase listed_db).0 ≡ accepted
unfolding process_send put_listing get insert record_mint words_eq
purchase_accepted = refl

process_send-Moved_example :
    (listing 7 1 (process_send 6000 (common_of 50 bob) purchase listed_db).1 ≡ none)
    × ((buyer : ScriptPublicKey)
        → some bob ≡ some buyer
        → (l : ListingValue) × (listing 7 1 listed_db ≡ some l)
          × Moved 7 1 6000 l.seller buyer listed_db
              (process_send 6000 (common_of 50 bob) purchase listed_db).1)
    × (some bob ≡ none
        → (process_send 6000 (common_of 50 bob) purchase listed_db).1.current_ownership
          ≡ listed_db.current_ownership)
process_send-Moved_example =
    process_send-Moved 6000 (common_of 50 bob) purchase listed_db purchase_accepted

no_mints_yet : last_mint 7 base_db < u64_max
unfolding last_minted_token_seq_no
no_mints_yet = omega arith

mint_error-MayMint_example :
    (mint_error (collection 0) (common_of 20 bob) paid_mint false base_db ≡ none)
    ↔ MayMint (collection 0) (common_of 20 bob) paid_mint base_db
mint_error-MayMint_example =
    mint_error-MayMint (collection 0) (common_of 20 bob) paid_mint base_db (omega arith)
      no_mints_yet

-- Alice transfers the token to bob, who lists it.
abbrev two_operations : List ContextOperation
two_operations =
    (record {
      tx_score = 6000;
      operation = record { common = common_of 30 alice; info = transfer to_bob };
      mergeset_entropy = 3;
    })
    ∷ (record {
      tx_score = 6001;
      operation = record { common = common_of 31 bob; info = list list_token };
      mergeset_entropy = 3;
    })
    ∷ []

process_nft_operations-Custody_example :
    (r : Stats × Db) × (process_nft_operations ext two_operations stats_default owned_db ≡ ok r)
    × Custody r.1
process_nft_operations-Custody_example =
    process_nft_operations-Custody ext two_operations stats_default owned_db owned-Custody
      (tt, λ r e. (tt, λ r' e'. tt))
