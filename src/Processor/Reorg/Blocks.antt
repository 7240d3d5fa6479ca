-- ===== src/Processor/Reorg/Blocks.antt =====
-- `identify_reorg_blocks_and_delete`, `remove_chain_state_from_blue_score` and
-- `lookup_removed_block_score` of nexus/src/processor.rs.
use Prim.Native.Nat.{min}
use krc721_protocol.Prelude.{
  ℕ, Bool, true, false, Option, none, some, List, [], ◌∷◌, ◌==◌, if◌then◌else◌, u64_max,
}
use krc721_protocol.Partition.{get, remove, range_from, last_entry, keys}
use krc721_protocol.Model.{RpcHash, hash_default}
use krc721_protocol.Keys.{
  number_key, blue_scored_chain_block_hash_instance, BlueScoredChainBlockHash,
}
use krc721_protocol.Db.{Db}

-- The tip of the chain answers for a block whose score entry is missing.
unfoldable pub lookup_removed_block_score : RpcHash → Db → Option ℕ
lookup_removed_block_score block db = elim (get block db.blockhash_to_score) [
  | some score ↦ some score
  | none ↦ elim (last_entry db.chain_block_scores) [
    | none ↦ none
    | some e ↦ if e.0.block_hash == block then some e.0.blue_score else none
  ]
]

unfoldable pub remove_blocks : List BlueScoredChainBlockHash → Db → Db
remove_blocks [] db = db
remove_blocks (b ∷ bs) db = remove_blocks bs (record db {
  chain_block_scores = remove b db.chain_block_scores;
  blockhash_to_score = remove b.block_hash db.blockhash_to_score;
})

unfoldable pub remove_chain_state_from_blue_score : ℕ → Db → Db
remove_chain_state_from_blue_score min_blue_score db =
    remove_blocks (keys (range_from (min_blue_score ∷ hash_default ∷ []) db.chain_block_scores)) db

-- The lowest score among the removed blocks that are known, and whether there is one.
unfoldable pub remove_block_scores : List RpcHash → ℕ → Bool → Db → ℕ × Bool × Db
remove_block_scores [] low found db = (low, found, db)
remove_block_scores (block ∷ blocks) low found db = elim (lookup_removed_block_score block db) [
  | none ↦ remove_block_scores blocks low found db
  | some score ↦
      remove_block_scores blocks (min low score) true
        (record db { blockhash_to_score = remove block db.blockhash_to_score })
]

unfoldable pub identify_reorg_blocks_and_delete : List RpcHash → Option ℕ → Db → Option ℕ × Db
identify_reorg_blocks_and_delete removed forced db =
    let (low, found, db1) = remove_block_scores removed u64_max false db in
    elim forced [
      | some score ↦ (some (min low score), remove_chain_state_from_blue_score (min low score) db1)
      | none ↦ if found then (some low, remove_chain_state_from_blue_score low db1) else (none, db1)
    ]
