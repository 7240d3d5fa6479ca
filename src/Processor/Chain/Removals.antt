-- ===== src/Processor/Chain/Removals.antt =====
-- The removals of nexus/src/processor.rs and the queue of historical changes, which they leave as it
-- is.
use krc721_protocol.Prelude.{
  ℕ, ◌≡◌, refl, ap, ◌∙◌, Bool, true, false, Option, none, some, List, [], ◌∷◌, ltb, arith,
  Option-cases, Bool-cases, inl, inr, reverse, u64_max,
}
use krc721_protocol.Partition.{Partition, get, remove, remove_if_exists, range_from, keys}
use krc721_protocol.Model.{
  RpcHash, OperationCommon, OperationInfo, SendInfo, CheckedOperation, deploy, mint, transfer,
  discount, list, send, Tick, hash_default, tick_min,
}
use krc721_protocol.Keys.{
  number_key, ownership_key_instance, BlueScoredChainBlockHash, DeploymentKey, OwnershipKey,
  ListingValue, TokenMintsKey, ScoredDiscountKey, ownership_history_key,
  blue_scored_chain_block_hash_instance, deployment_key_instance, token_mints_key_instance,
  scored_discount_key_instance, ownership_history_key_instance, mint_history_key_instance,
}
use krc721_protocol.Db.{Db, Stats, stats_default}
use krc721_protocol.Outcome.{ok, Outcome-cases}
use krc721_protocol.External.{External}
use krc721_protocol.Score.{calculate_tx_score_from_blue}
use krc721_protocol.TokenId.{rollback_token_generation}
use krc721_protocol.TokenId.Frame.{rollback-Outside}
use krc721_protocol.Processor.Discount.{drop_discounts, remove_discounts}
use krc721_protocol.Processor.Market.{put_listing, drop_listing}
use krc721_protocol.Processor.Reorg.{
  lookup_removed_block_score, remove_blocks, remove_chain_state_from_blue_score,
  remove_block_scores, identify_reorg_blocks_and_delete, restore_listing,
  restore_listing_for_reorged_send, undo_send, remove_operation, remove_operations,
  remove_affected_operations, remove_deployments, remove_affected_deployments, drop_listings,
  remove_affected_listings, last_owner_with_tx_mod_score, premint_of, mint_history_key_of,
  undo_change, undo_changes, Affected, get_affected_token_operations, remove_ownership_records,
  drop_holding, rebuild_owner, rebuild_ownership_state, reconstruct_token_ownership,
}
use krc721_protocol.Processor.Chain.{remove_from_score, process_removal}

-- Two databases with the same queue.
abbrev pub SameQueue : Db → Db → Type 0
SameQueue db' db = db'.notification_queue ≡ db.notification_queue

remove_blocks-queue :
    (bs : List BlueScoredChainBlockHash) (db : Db) → SameQueue (remove_blocks bs db) db
unfolding remove_blocks
remove_blocks-queue [] db = refl
remove_blocks-queue (b ∷ bs) db = remove_blocks-queue bs _

remove_block_scores-queue :
    (blocks : List RpcHash) (low : ℕ) (found : Bool) (db : Db)
    → SameQueue (remove_block_scores blocks low found db).2 db
unfolding remove_block_scores
remove_block_scores-queue [] low found db = refl
remove_block_scores-queue (b ∷ bs) low found db =
    elim (Option-cases (lookup_removed_block_score b db)) [
      | inl e ↦ rw (remove_block_scores, e) (remove_block_scores-queue bs low found db)
      | inr (score, e) ↦
          rw (remove_block_scores, e)
            (remove_block_scores-queue bs _ true
              (record db { blockhash_to_score = remove b db.blockhash_to_score }))
    ]

identify-queue :
    (removed : List RpcHash) (forced : Option ℕ) (db : Db)
    → SameQueue (identify_reorg_blocks_and_delete removed forced db).1 db
unfolding identify_reorg_blocks_and_delete remove_chain_state_from_blue_score
identify-queue removed none db =
    let (low, found, db1) = remove_block_scores removed u64_max false db in
    elim (Bool-cases found) [
      | inl e ↦ ground (
        arith,
        e,
        remove_blocks-queue (keys (range_from (low ∷ hash_default ∷ []) db1.chain_block_scores))
            db1,
        remove_block_scores-queue removed u64_max false db,
      )
      | inr e ↦ ground (arith, e, remove_block_scores-queue removed u64_max false db)
    ]
identify-queue removed (some s) db =
    remove_blocks-queue _ _ ∙ remove_block_scores-queue removed _ _ db

restore_listing-queue :
    (score : ℕ) (checked : CheckedOperation) (common : OperationCommon) (info : SendInfo) (db : Db)
    → SameQueue (restore_listing score checked common info db) db
unfolding restore_listing put_listing
restore_listing-queue score checked common info db = ground arith

undo_send-queue :
    (common : OperationCommon) (info : OperationInfo) (db : Db)
    → SameQueue (undo_send common info db) db
unfolding undo_send restore_listing_for_reorged_send
undo_send-queue common (send s) db =
    elim (Option-cases (get s.listing_utxo_txid db.tx_id_to_opscore)) [
      | inl e ↦ rw (undo_send, restore_listing_for_reorged_send, e) refl
      | inr (score, e) ↦ elim (Option-cases (get score db.operation_history)) [
        | inl f ↦ rw (undo_send, restore_listing_for_reorged_send, e, f) refl
        | inr (checked, f) ↦
            rw (undo_send, restore_listing_for_reorged_send, e, f)
              (restore_listing-queue score checked common s db)
      ]
    ]
undo_send-queue common (deploy d) db = refl
undo_send-queue common (mint d) db = refl
undo_send-queue common (transfer d) db = refl
undo_send-queue common (discount d) db = refl
undo_send-queue common (list d) db = refl

remove_operation-queue :
    (score : ℕ) (op : CheckedOperation) (diff : Stats) (db : Db) {diff' : Stats} {db' : Db}
    → remove_operation score op diff db ≡ ok (diff', db')
    → SameQueue db' db
unfolding remove_operation
remove_operation-queue score op diff db e =
    elim (Option-cases (remove_if_exists score db.operation_history).0) [
      | inl f ↦ ground (arith, e, f)
      | inr (checked, f) ↦ elim (Option-cases checked.error) [
        | inl g ↦ ground (
          arith,
          e,
          f,
          g,
          undo_send-queue checked.operation.common checked.operation.info (record db {
            tx_id_to_opscore = remove op.operation.common.tx_id db.tx_id_to_opscore;
            operation_history = (remove_if_exists score db.operation_history).1;
          }),
        )
        | inr (x, g) ↦ ground (arith, e, f, g)
      ]
    ]

remove_operations-queue :
    (ops : Partition ℕ CheckedOperation) (diff : Stats) (db : Db) {diff' : Stats} {db' : Db}
    → remove_operations ops diff db ≡ ok (diff', db')
    → SameQueue db' db
unfolding remove_operations
remove_operations-queue [] diff db e = ground (arith, e)
remove_operations-queue ((score, op) ∷ ops) diff db {diff'} {db'} e =
    elim (Outcome-cases (remove_operation score op diff db)) [
      | inl (x, f) ↦ ground (arith, e, f)
      | inr ((diff1, db1), f) ↦
          let rest : remove_operations ops diff1 db1 ≡ ok (diff', db') = ground (arith, e, f) in
          remove_operations-queue ops diff1 db1 rest ∙ remove_operation-queue score op diff db f
    ]

remove_deployments-queue :
    (ks : List DeploymentKey) (counts : Partition Tick ℕ) (db : Db)
    → SameQueue (remove_deployments ks counts db).1 db
unfolding remove_deployments
remove_deployments-queue [] counts db = refl
remove_deployments-queue (k ∷ ks) counts db = remove_deployments-queue ks _ _

drop_listings-queue :
    (ls : Partition OwnershipKey ListingValue) (db : Db) → SameQueue (drop_listings ls db) db
unfolding drop_listings drop_listing
drop_listings-queue [] db = refl
drop_listings-queue ((k, l) ∷ ls) db = drop_listings-queue ls _

drop_discounts-queue :
    (ds : Partition ScoredDiscountKey ℕ) (db : Db) → SameQueue (drop_discounts ds db) db
unfolding drop_discounts
drop_discounts-queue [] db = refl
drop_discounts-queue ((k, fee) ∷ ds) db = drop_discounts-queue ds _

remove_ownership_records-queue :
    (a : Affected) (db : Db) → SameQueue (remove_ownership_records a db) db
unfolding remove_ownership_records
remove_ownership_records-queue [] db = refl
remove_ownership_records-queue ((k, h) ∷ a) db = remove_ownership_records-queue a _

drop_holding-queue :
    (k : TokenMintsKey) (h : Option _) (db : Db) → SameQueue (drop_holding k h db) db
unfolding drop_holding
drop_holding-queue k none db = refl
drop_holding-queue k (some x) db = refl

rebuild_owner-queue : (k : TokenMintsKey) (db : Db) → SameQueue (rebuild_owner k db) db
unfolding rebuild_owner
rebuild_owner-queue k db =
    elim (Option-cases (last_owner_with_tx_mod_score k.tick k.token_id db.ownership_history)) [
      | inl e ↦ rw (rebuild_owner, e) refl
      | inr (x, e) ↦ rw (rebuild_owner, e) refl
    ]

rebuild_ownership_state-queue :
    (a : Affected) (db : Db) → SameQueue (rebuild_ownership_state a db) db
unfolding rebuild_ownership_state
rebuild_ownership_state-queue [] db = refl
rebuild_ownership_state-queue ((k, h) ∷ a) db =
    rebuild_ownership_state-queue a (rebuild_owner k (drop_holding k h db))
    ∙ rebuild_owner-queue k (drop_holding k h db)
    ∙ drop_holding-queue k h db

undo_change-queue :
    (counts : Partition Tick ℕ) (k : TokenMintsKey) (db : Db) {h : Option _} {db' : Db}
    → undo_change counts k db ≡ ok (h, db')
    → SameQueue db' db
unfolding undo_change
undo_change-queue counts k db {h} {db'} e =
    let (holder, history) =
      remove_if_exists (ownership_history_key k.tick k.token_id k.score) db.ownership_history in
    let (minted, mints) = remove_if_exists (mint_history_key_of k) db.mint_history in
    let db1 : Db = record db {
      ownership_history = history;
      ownership_changes = remove k db.ownership_changes;
      mint_history = mints;
    } in
    elim (Option-cases minted) [
      | inl f ↦ ground (arith, e, f)
      | inr (x, f) ↦ elim (Option-cases (premint_of k.tick counts db1)) [
        | inl g ↦ ground (arith, e, f, g)
        | inr (premint, g) ↦ elim (Bool-cases (ltb premint k.token_id)) [
          | inr l ↦ ground (arith, e, f, g, l)
          | inl l ↦ elim (Outcome-cases (rollback_token_generation k.tick k.token_id db1)) [
            | inl (y, r) ↦ ground (arith, e, f, g, l, r)
            | inr (db2, r) ↦ ground (
              arith,
              e,
              f,
              g,
              l,
              r,
              ap (λ (z : Db). z.notification_queue) (rollback-Outside k.tick k.token_id db1 db2 r),
            )
          ]
        ]
      ]
    ]

undo_changes-queue :
    (counts : Partition Tick ℕ) (ks : List TokenMintsKey) (db : Db) {a : Affected} {db' : Db}
    → undo_changes counts ks db ≡ ok (a, db')
    → SameQueue db' db
unfolding undo_changes
undo_changes-queue counts [] db e = ground (arith, e)
undo_changes-queue counts (k ∷ ks) db {a} {db'} e = elim (Outcome-cases (undo_change counts k db)) [
  | inl (x, f) ↦ ground (arith, e, f)
  | inr ((h, db1), f) ↦ elim (Outcome-cases (undo_changes counts ks db1)) [
    | inl (x, g) ↦ ground (arith, e, f, g)
    | inr ((rest, db2), g) ↦
        ground (arith, e, f, g, undo_changes-queue counts ks db1 g, undo_change-queue counts k db f)
  ]
]

reconstruct-queue :
    (threshold : ℕ) (counts : Partition Tick ℕ) (db : Db) {db' : Db}
    → reconstruct_token_ownership threshold counts db ≡ ok db'
    → SameQueue db' db
unfolding reconstruct_token_ownership get_affected_token_operations
reconstruct-queue threshold counts db {db'} e =
    let ks = reverse (keys (range_from (threshold ∷ tick_min ∷ 0 ∷ 0 ∷ []) db.ownership_changes)) in
    elim (Outcome-cases (undo_changes counts ks db)) [
      | inl (x, f) ↦ ground (arith, e, f)
      | inr ((a, db1), f) ↦ ground (
        arith,
        e,
        f,
        undo_changes-queue counts ks db f,
        remove_ownership_records-queue a db1,
        rebuild_ownership_state-queue a (remove_ownership_records a db1),
      )
    ]

removed_before-queue :
    (threshold : ℕ) (db : Db)
    → SameQueue
        (remove_affected_listings threshold
          (remove_discounts threshold (remove_affected_deployments threshold db).1))
        db
unfolding remove_affected_deployments remove_affected_listings remove_discounts
removed_before-queue threshold db =
    drop_listings-queue _ _ ∙ drop_discounts-queue _ _ ∙ remove_deployments-queue _ [] db

remove_from_score-queue :
    (threshold : ℕ) (db : Db) {diffs : Stats} {db' : Db}
    → remove_from_score threshold db ≡ ok (diffs, db')
    → SameQueue db' db
unfolding remove_from_score remove_affected_operations
remove_from_score-queue threshold db {diffs} {db'} e =
    let ops = range_from (threshold ∷ []) db.operation_history in
    elim (Outcome-cases (remove_operations ops stats_default db)) [
      | inl (x, f) ↦ ground (arith, e, f)
      | inr ((diffs1, db1), f) ↦
          let (premints, db2) = remove_affected_deployments threshold db1 in
          let db3 = remove_affected_listings threshold (remove_discounts threshold db2) in
          elim (Outcome-cases (reconstruct_token_ownership threshold premints db3)) [
            | inl (x, g) ↦ ground (arith, e, f, g)
            | inr (db4, g) ↦ ground (
              arith,
              e,
              f,
              g,
              reconstruct-queue threshold premints db3 g,
              removed_before-queue threshold db1,
              remove_operations-queue ops stats_default db f,
            )
          ]
    ]

pub process_removal-queue :
    (ext : External) (removed : List RpcHash) (forced : Option ℕ) (db : Db) {diffs : Stats}
    {db' : Db}
    → process_removal ext removed forced db ≡ ok (diffs, db')
    → SameQueue db' db
unfolding process_removal
process_removal-queue ext removed forced db {diffs} {db'} e =
    let (found, db1) = identify_reorg_blocks_and_delete removed forced db in
    elim (Option-cases found) [
      | inl f ↦ ground (arith, e, f, identify-queue removed forced db)
      | inr (low, f) ↦
          let rest : remove_from_score (calculate_tx_score_from_blue ext.merge_set_limit low) db1
              ≡ ok (diffs, db') =
            ground (arith, e, f) in
          remove_from_score-queue (calculate_tx_score_from_blue ext.merge_set_limit low) db1 rest
          ∙ identify-queue removed forced db
    ]
