-- ===== src/Score.antt =====
-- nexus/src/lib.rs: a transaction's score packs the blue score of its chain block, the index of its
-- block within the mergeset and its index within that block into one `u64`.
pub mod Laws
use krc721_protocol.Prelude.{ℕ, ◌+◌, ◌*◌, ◌/◌, add_u64, mul_u64}

-- `BLOCK_TX_CAPACITY`
abbrev pub block_tx_capacity : ℕ
block_tx_capacity = 1000

-- The first argument is `MERGE_SET_LIMIT`.
unfoldable pub calculate_tx_score : ℕ → ℕ → ℕ → ℕ → ℕ
calculate_tx_score limit blue_score block_index tx_index =
    add_u64
      (add_u64 (mul_u64 (mul_u64 blue_score limit) block_tx_capacity)
        (mul_u64 block_index block_tx_capacity))
      tx_index

unfoldable pub calculate_tx_score_from_blue : ℕ → ℕ → ℕ
unfolding calculate_tx_score
calculate_tx_score_from_blue limit blue_score = calculate_tx_score limit blue_score 0 0

unfoldable pub calculate_blue_score_from_tx_score : ℕ → ℕ → ℕ
calculate_blue_score_from_tx_score limit tx_score = tx_score / (limit * block_tx_capacity)
