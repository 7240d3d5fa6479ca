-- ===== src/Processor/Reorg/Removed.antt =====
-- What the removal phase of nexus/src/processor.rs leaves of the chain blocks and of the history of
-- the operations, and what it takes from the statistics.
use mathlib.Core.Path.{subst}
use krc721_protocol.Prelude.{
  ℕ, ◌≡◌, refl, sym, ap, ◌∙◌, not, none, some, List, [], ◌∷◌, leb, if◌then◌else◌, words_lt, arith,
  inl, inr, add_u64, Option-cases,
}
use krc721_protocol.Partition.{Partition, get, remove, remove_if_exists, range_from, keys}
use krc721_protocol.Partition.Order.{Sorted}
use krc721_protocol.Partition.Range.{
  remove_keys, get-remove_range, Present, Sorted-Present, is_below,
}
use krc721_protocol.Model.{
  hash_default, OperationInfo, OperationCommon, CheckedOperation, deploy, mint, transfer, discount,
  list, send, SendInfo,
}
use krc721_protocol.Keys.{
  number_key, blue_scored_chain_block_hash_instance, BlueScoredChainBlockHash,
}
use krc721_protocol.Db.{Db, Stats, stats_default}
use krc721_protocol.Outcome.{ok}
use krc721_protocol.Processor.Market.{put_listing}
use krc721_protocol.Processor.Apply.{count_operation}
use krc721_protocol.Processor.Reorg.Blocks.{remove_blocks, remove_chain_state_from_blue_score}
use krc721_protocol.Processor.Reorg.Operations.{
  uncount_operation, undo_send, restore_listing, restore_listing_for_reorged_send, remove_operation,
  remove_operations, remove_affected_operations,
}

remove_blocks-scores :
    (bs : List BlueScoredChainBlockHash) (db : Db)
    → (remove_blocks bs db).chain_block_scores ≡ remove_keys bs db.chain_block_scores
unfolding remove_blocks
remove_blocks-scores [] db = refl
remove_blocks-scores (b ∷ bs) db = remove_blocks-scores bs _

below-score :
    (low : ℕ) (b : BlueScoredChainBlockHash)
    → is_below (low ∷ hash_default ∷ []) b ≡ not (leb low b.blue_score)
unfolding words_lt
below-score low b = ground arith

below-threshold :
    (threshold score : ℕ) → is_below (threshold ∷ []) score ≡ not (leb threshold score)
unfolding words_lt
below-threshold threshold score = ground arith

-- After the removal no chain block has a score from the given one on, and the blocks below it are
-- those that there were.
pub remove_chain_state-blocks :
    (low : ℕ) (b : BlueScoredChainBlockHash) (db : Db)
    → get b (remove_chain_state_from_blue_score low db).chain_block_scores
      ≡ (if leb low b.blue_score then none else get b db.chain_block_scores)
unfolding remove_chain_state_from_blue_score
remove_chain_state-blocks low b db =
    ap (get b) (remove_blocks-scores _ db)
    ∙ get-remove_range (low ∷ hash_default ∷ []) b db.chain_block_scores
    ∙ ground (arith, below-score low b)

restore_listing-history :
    (score : ℕ) (checked : CheckedOperation) (common : OperationCommon) (info : SendInfo) (db : Db)
    → (restore_listing score checked common info db).operation_history ≡ db.operation_history
unfolding restore_listing put_listing
restore_listing-history score checked common info db = elim (Option-cases checked.error) [
  | inl e ↦ ground arith
  | inr (x, e) ↦ ground arith
]

undo_send-history :
    (common : OperationCommon) (info : OperationInfo) (db : Db)
    → (undo_send common info db).operation_history ≡ db.operation_history
unfolding undo_send restore_listing_for_reorged_send
undo_send-history common (send s) db =
    elim (Option-cases (get s.listing_utxo_txid db.tx_id_to_opscore)) [
      | inl e ↦ ground arith
      | inr (score, e) ↦ elim (Option-cases (get score db.operation_history)) [
        | inl f ↦ ground arith
        | inr (checked, f) ↦ ground (arith, restore_listing-history score checked common s db)
      ]
    ]
undo_send-history common _ db = refl

-- The database without the entries of an operation.
abbrev without : ℕ → CheckedOperation → Db → Db
without score op db = record db {
  tx_id_to_opscore = remove op.operation.common.tx_id db.tx_id_to_opscore;
  operation_history = remove score db.operation_history;
}

abbrev OperationRemoved : ℕ → CheckedOperation → Stats → Db → Type 0
OperationRemoved score op diff db =
    (r : Stats × Db) × (remove_operation score op diff db ≡ ok r)
    × (r.1.operation_history ≡ remove score db.operation_history)

-- An operation that is in the history is removed without a panic.
remove_operation-ok :
    (score : ℕ) (op : CheckedOperation) (diff : Stats) (db : Db)
    → get score db.operation_history ≡ some op
    → OperationRemoved score op diff db
unfolding remove_operation remove_if_exists
remove_operation-ok score op diff db e = elim (Option-cases op.error) [
  | inl f ↦ (
    (
      uncount_operation op.operation.common op.operation.info diff,
      undo_send op.operation.common op.operation.info (without score op db),
    ),
    ground (arith, e, f),
    undo_send-history op.operation.common op.operation.info (without score op db),
  )
  | inr (x, f) ↦ ((diff, without score op db), ground (arith, e, f), refl)
]

remove_operations-ok :
    (ops : Partition ℕ CheckedOperation) (diff : Stats) (db : Db)
    → Present ops db.operation_history
    → (r : Stats × Db) × (remove_operations ops diff db ≡ ok r)
      × (r.1.operation_history ≡ remove_keys (keys ops) db.operation_history)
unfolding remove_operations
remove_operations-ok [] diff db h = ((diff, db), refl, refl)
remove_operations-ok ((score, op) ∷ ops) diff db (e, h) =
    let (r1, one, history) = remove_operation-ok score op diff db e in
    let (r, rest, removed) =
      remove_operations-ok ops r1.0 r1.1 (subst (Present ops) (sym history) h) in
    (r, ground (arith, one, rest), removed ∙ ap (remove_keys (keys ops)) history)

-- In a sorted history the removal of the operations from a score on does not panic, leaves none of
-- them in the history, and leaves all that are older.
pub remove_affected_operations-history :
    (threshold : ℕ) (db : Db)
    → Sorted db.operation_history
    → (diff : Stats) × (db' : Db) × (remove_affected_operations threshold db ≡ ok (diff, db'))
      × ((score : ℕ)
          → get score db'.operation_history
            ≡ (if leb threshold score then none else get score db.operation_history))
unfolding remove_affected_operations
remove_affected_operations-history threshold db s =
    let (r, e, history) =
      remove_operations-ok (range_from (threshold ∷ []) db.operation_history) stats_default db
        (Sorted-Present (threshold ∷ []) db.operation_history s) in
    (
      r.0,
      r.1,
      e,
      λ score.
          ap (get score) history
          ∙ get-remove_range (threshold ∷ []) score db.operation_history
          ∙ ground (arith, below-threshold threshold score),
    )

-- What a counter of mints also gets for the premint of a deployment.
abbrev pub with_premint : OperationInfo → Stats → Stats
with_premint (deploy d) s = record s { mints = add_u64 s.mints d.premint }
with_premint _ s = s

-- For every operation the removal counts what the addition counted, but for the premint of a
-- deployment, which the addition counts among the mints and the removal does not.
pub count-uncount :
    (common : OperationCommon) (info : OperationInfo) (diff : Stats)
    → count_operation common info diff ≡ with_premint info (uncount_operation common info diff)
unfolding count_operation uncount_operation
count-uncount common (deploy d) diff = refl
count-uncount common (mint m) diff = refl
count-uncount common (transfer t) diff = refl
count-uncount common (discount d) diff = refl
count-uncount common (list l) diff = refl
count-uncount common (send s) diff = refl
