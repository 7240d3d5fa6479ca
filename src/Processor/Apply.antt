-- ===== src/Processor/Apply.antt =====
-- `process_nft_operations` and `process_additions` of nexus/src/processor.rs: the operations of new
-- mergesets, each recorded with its validation error, and the statistics that they add.
-- The channels that report each checked operation to a test are not modelled.
pub mod Atomic
use krc721_protocol.Prelude.{
  ℕ, ◌+◌, ◌*◌, ◌/◌, Bool, true, false, not, ◌&&◌, Option, none, some, List, [], ◌∷◌, ltb,
  if◌then◌else◌, get_or, is_some, add_u64,
}
use krc721_protocol.Partition.{
  Partition, get, insert, insert_if_not_exist, last_entry, first_where, key_lt,
}
use krc721_protocol.Model.{
  Tick, hash_default, RoyaltyDetails, OperationInfo, Operation, OperationCommon, CheckedOperation,
  MergesetOperation, Mergeset, deploy, mint, transfer, discount, list, send,
}
use krc721_protocol.Keys.{
  number_key, blue_scored_chain_block_hash_instance, BlueScoredChainBlockHash,
}
use krc721_protocol.Db.{Db, Stats, stats_default, add}
use krc721_protocol.Outcome.{
  Outcome, ok, err, Validation, accepted, rejected, validation_err, ◌>>=◌,
}
use krc721_protocol.External.{External}
use krc721_protocol.Score.{calculate_tx_score, calculate_blue_score_from_tx_score}
use krc721_protocol.Processor.Mint.{process_mint, process_deployment}
use krc721_protocol.Processor.Transfer.{process_transfer}
use krc721_protocol.Processor.Discount.{process_discount, royalty_fee}
use krc721_protocol.Processor.Market.{process_list, process_send}

pub record ContextOperation : Type 0 where
  pub tx_score : ℕ
  pub operation : Operation
  pub mergeset_entropy : ℕ

-- What an accepted operation adds to the statistics; `+=` on a `u64` wraps.
unfoldable pub count_operation : OperationCommon → OperationInfo → Stats → Stats
count_operation common (deploy d) diff = record diff {
  mints = add_u64 diff.mints d.premint;
  security_fees = add_u64 diff.security_fees common.fee;
  deployments = add_u64 diff.deployments 1;
  royalty_fees = add_u64 diff.royalty_fees (royalty_fee d.royalty);
}
count_operation common (mint m) diff = record diff {
  security_fees = add_u64 diff.security_fees common.fee;
  mints = add_u64 diff.mints 1;
  royalty_fees = add_u64 diff.royalty_fees (royalty_fee m.royalty);
}
count_operation common (transfer t) diff = record diff {
  security_fees = add_u64 diff.security_fees common.fee;
  transfers = add_u64 diff.transfers 1;
}
count_operation common (discount d) diff = record diff {
  security_fees = add_u64 diff.security_fees common.fee;
}
count_operation common (list l) diff = record diff {
  security_fees = add_u64 diff.security_fees common.fee;
  listings = add_u64 diff.listings 1;
}
count_operation common (send s) diff = record diff {
  security_fees = add_u64 diff.security_fees common.fee;
  sends = add_u64 diff.sends 1;
}

-- The handler of an operation. Only a mint changes the operation: it gets the id of its token.
unfoldable pub dispatch :
    External
    → ℕ
    → ℕ
    → OperationCommon
    → OperationInfo
    → Db
    → Outcome (Validation × OperationInfo × Db)
dispatch ext entropy score common (deploy d) db = do
  (v, db1) ← process_deployment score common d db
  ok (v, deploy d, db1)
dispatch ext entropy score common (mint m) db = do
  (v, m1, db1) ← process_mint entropy score common m false db
  ok (v, mint m1, db1)
dispatch ext entropy score common (transfer t) db =
    let (v, db1) = process_transfer score common t db in ok (v, transfer t, db1)
dispatch ext entropy score common (discount d) db =
    let (v, db1) = process_discount score common d db in ok (v, discount d, db1)
dispatch ext entropy score common (list l) db =
    let (v, db1) = process_list ext score common l db in ok (v, list l, db1)
dispatch ext entropy score common (send s) db =
    let (v, db1) = process_send score common s db in ok (v, send s, db1)

-- The record of a processed operation, accepted or not.
unfoldable pub record_operation : ℕ → CheckedOperation → Db → Db
record_operation tx_score checked db = record db {
  operation_history = insert tx_score checked db.operation_history;
  tx_id_to_opscore = insert checked.operation.common.tx_id tx_score db.tx_id_to_opscore;
}

abbrev pub count_if : Validation → OperationCommon → OperationInfo → Stats → Stats
count_if accepted common info diff = count_operation common info diff
count_if (rejected e) common info diff = diff

-- One operation of the loop of `process_nft_operations`.
unfoldable pub apply_operation : External → ContextOperation → Stats → Db → Outcome (Stats × Db)
apply_operation ext op diff db = do
  let common = op.operation.common
  (v, info, db1) ← dispatch ext op.mergeset_entropy op.tx_score common op.operation.info db
  ok (
    count_if v common info diff,
    record_operation op.tx_score
        (record { operation = record { common = common; info = info }; error = validation_err v })
        db1,
  )

unfoldable pub process_nft_operations :
    External → List ContextOperation → Stats → Db → Outcome (Stats × Db)
process_nft_operations ext [] diff db = ok (diff, db)
process_nft_operations ext (op ∷ ops) diff db = elim (apply_operation ext op diff db) [
  | err e ↦ err e
  | ok (diff1, db1) ↦ process_nft_operations ext ops diff1 db1
]

-- The operations of a mergeset that no score is recorded for, each with its own score.
unfoldable pub scored_operations :
    External → Mergeset → List MergesetOperation → Db → List ContextOperation
scored_operations ext m [] db = []
scored_operations ext m (op ∷ ops) db =
    let rest = scored_operations ext m ops db in
    let tx_score =
      calculate_tx_score ext.merge_set_limit m.blue_score op.block_index_within_mergeset
        op.index_within_merged_block in
    if is_some (get op.operation.common.tx_id db.tx_id_to_opscore)
    then rest
    else record { tx_score = tx_score; operation = op.operation; mergeset_entropy = m.entropy }
      ∷ rest

-- `last_accepted_block_wtx(…).map(blue_score).unwrap_or_default()`
unfoldable pub last_accepted_blue_score : Db → ℕ
last_accepted_blue_score db = elim (last_entry db.chain_block_scores) [
  | none ↦ 0
  | some e ↦ e.0.blue_score
]

abbrev pub chain_block : Mergeset → BlueScoredChainBlockHash
chain_block m = record { blue_score = m.blue_score; block_hash = m.accepted_chain_block_hash }

-- One mergeset of the loop of `process_additions`: an old or a known block is skipped.
unfoldable pub add_mergeset : External → ℕ → Mergeset → Stats → Db → Outcome (Stats × Db)
add_mergeset ext last m diff db =
    if ltb m.blue_score last
    then ok (diff, db)
    else let (inserted, blocks) = insert_if_not_exist (chain_block m) tt db.chain_block_scores in
      elim inserted [
        | false ↦ ok (diff, db)
        | true ↦ do
          let db1 = record db {
            chain_block_scores = blocks;
            blockhash_to_score =
                insert m.accepted_chain_block_hash m.blue_score db.blockhash_to_score;
          }
          (d, db2) ←
              process_nft_operations ext (scored_operations ext m m.operations db1) stats_default
                db1
          ok (add diff d, db2)
      ]

unfoldable pub add_mergesets : External → ℕ → List Mergeset → Stats → Db → Outcome (Stats × Db)
add_mergesets ext last [] diff db = ok (diff, db)
add_mergesets ext last (m ∷ ms) diff db = elim (add_mergeset ext last m diff db) [
  | err e ↦ err e
  | ok (diff1, db1) ↦ add_mergesets ext last ms diff1 db1
]

unfoldable pub process_additions : External → List Mergeset → Db → Outcome (Stats × Db)
process_additions ext ms db = add_mergesets ext (last_accepted_blue_score db) ms stats_default db
