-- ===== src/Processor/Reorg/Operations.antt =====
-- `remove_affected_operations`, `restore_listing_for_reorged_send`, `remove_affected_deployments`
-- and `remove_affected_listings` of nexus/src/processor.rs.
use krc721_protocol.Prelude.{ℕ, none, some, List, [], ◌∷◌, leb, add_u64, filter_by}
use krc721_protocol.Partition.{Partition, get, insert, remove, remove_if_exists, range_from, keys}
use krc721_protocol.Model.{
  Tick, tick_min, OperationInfo, OperationCommon, CheckedOperation, SendInfo, deploy, mint,
  transfer, discount, list, send,
}
use krc721_protocol.Keys.{
  number_key, deployment_key_instance, ownership_key_instance, DeploymentKey, OwnershipKey,
  ListingValue,
}
use krc721_protocol.Db.{Db, Stats, stats_default}
use krc721_protocol.Outcome.{Outcome, ok, err, panic}
use krc721_protocol.Processor.Discount.{royalty_fee}
use krc721_protocol.Processor.Market.{put_listing, drop_listing}

-- A list operation that survives and was accepted has its listing put back.
unfoldable pub restore_listing : ℕ → CheckedOperation → OperationCommon → SendInfo → Db → Db
restore_listing list_op_score checked common info db = elim checked.error [
  | some e ↦ db
  | none ↦ elim checked.operation.info [
    | list l ↦
        put_listing common.tick info.token_id
          (record {
            seller = checked.operation.common.sender;
            listing_tx_id = info.listing_utxo_txid;
            utxo_address = l.utxo_address;
            redeem_script = l.redeem_script;
            op_score = list_op_score;
          })
          db
    | _ ↦ db
  ]
]

unfoldable pub restore_listing_for_reorged_send : OperationCommon → SendInfo → Db → Db
restore_listing_for_reorged_send common info db =
    elim (get info.listing_utxo_txid db.tx_id_to_opscore) [
      | none ↦ db
      | some list_op_score ↦ elim (get list_op_score db.operation_history) [
        | none ↦ db
        | some checked ↦ restore_listing list_op_score checked common info db
      ]
    ]

-- What a removed operation takes from the statistics. The premint of a deployment is not taken.
unfoldable pub uncount_operation : OperationCommon → OperationInfo → Stats → Stats
uncount_operation common (deploy d) diff = record diff {
  security_fees = add_u64 diff.security_fees common.fee;
  deployments = add_u64 diff.deployments 1;
  royalty_fees = add_u64 diff.royalty_fees (royalty_fee d.royalty);
}
uncount_operation common (mint m) diff = record diff {
  security_fees = add_u64 diff.security_fees common.fee;
  mints = add_u64 diff.mints 1;
  royalty_fees = add_u64 diff.royalty_fees (royalty_fee m.royalty);
}
uncount_operation common (transfer t) diff = record diff {
  security_fees = add_u64 diff.security_fees common.fee;
  transfers = add_u64 diff.transfers 1;
}
uncount_operation common (discount d) diff = record diff {
  security_fees = add_u64 diff.security_fees common.fee;
}
uncount_operation common (list l) diff = record diff {
  security_fees = add_u64 diff.security_fees common.fee;
  listings = add_u64 diff.listings 1;
}
uncount_operation common (send s) diff = record diff {
  security_fees = add_u64 diff.security_fees common.fee;
  sends = add_u64 diff.sends 1;
}

-- A removed send first puts its listing back.
unfoldable pub undo_send : OperationCommon → OperationInfo → Db → Db
undo_send common (send s) db = restore_listing_for_reorged_send common s db
undo_send common _ db = db

-- One operation of the loop: `op` was read before it, the entry is removed and read again.
unfoldable pub remove_operation : ℕ → CheckedOperation → Stats → Db → Outcome (Stats × Db)
remove_operation score op diff db =
    let db1 = record db {
      tx_id_to_opscore = remove op.operation.common.tx_id db.tx_id_to_opscore;
    } in
    let (found, history) = remove_if_exists score db1.operation_history in
    let db2 = record db1 { operation_history = history } in
    elim found [
      | none ↦ err panic
      | some checked ↦ elim checked.error [
        | some e ↦ ok (diff, db2)
        | none ↦ ok (
          uncount_operation checked.operation.common checked.operation.info diff,
          undo_send checked.operation.common checked.operation.info db2,
        )
      ]
    ]

unfoldable pub remove_operations : Partition ℕ CheckedOperation → Stats → Db → Outcome (Stats × Db)
remove_operations [] diff db = ok (diff, db)
remove_operations ((score, op) ∷ ops) diff db = elim (remove_operation score op diff db) [
  | err e ↦ err e
  | ok (diff1, db1) ↦ remove_operations ops diff1 db1
]

unfoldable pub remove_affected_operations : ℕ → Db → Outcome (Stats × Db)
remove_affected_operations score_threshold db =
    remove_operations (range_from (score_threshold ∷ []) db.operation_history) stats_default db

-- The premint counts of the removed collections are kept for the mints that are undone later.
unfoldable pub remove_deployments :
    List DeploymentKey → Partition Tick ℕ → Db → Partition Tick ℕ × Db
remove_deployments [] counts db = (counts, db)
remove_deployments (k ∷ ks) counts db =
    let db1 = record db { collection_deployments = remove k db.collection_deployments } in
    let (found, registry) = remove_if_exists k.tick db1.collection_registry in
    remove_deployments ks
      (elim found [ none ↦ counts | some d ↦ insert k.tick d.info.info.premint counts ])
      (record db1 { collection_registry = registry })

unfoldable pub remove_affected_deployments : ℕ → Db → Partition Tick ℕ × Db
remove_affected_deployments score_threshold db =
    remove_deployments
      (keys (range_from (score_threshold ∷ tick_min ∷ []) db.collection_deployments)) [] db

unfoldable pub drop_listings : Partition OwnershipKey ListingValue → Db → Db
drop_listings [] db = db
drop_listings ((k, listing) ∷ rest) db =
    drop_listings rest (drop_listing k.tick k.token_id listing.seller db)

unfoldable pub remove_affected_listings : ℕ → Db → Db
remove_affected_listings score_threshold db =
    drop_listings
      (filter_by (λ (e : OwnershipKey × ListingValue). leb score_threshold e.1.op_score)
        db.listings)
      db
