-- ===== src/Score/Laws.antt =====
-- The scores of nexus/src/lib.rs against the positions of the transactions, while nothing
-- overflows.
use native.Mathlib.Decide.{dec_le, dec_lt}
use krc721_protocol.Prelude.{
  ℕ, inl, inr, ap, ◌∙◌, ◌↔◌, ◌+◌, ◌*◌, ◌/◌, ◌≤◌, ◌<◌, ◌≡◌, ◌⊎◌, u64_max, add_u64, mul_u64, arith,
}
use krc721_protocol.Score.{
  block_tx_capacity, calculate_tx_score, calculate_tx_score_from_blue,
  calculate_blue_score_from_tx_score,
}

-- A position in the chain whose indices are within their limits and whose score fits a `u64`.
pub record InLimits (limit blue block tx : ℕ) : Type 0 where
  pub block_lt : block < limit
  pub tx_lt : tx < block_tx_capacity
  pub fits : (blue + 1) * (limit * block_tx_capacity) ≤ u64_max

plain_score :
    (limit blue block tx : ℕ)
    → InLimits limit blue block tx
    → calculate_tx_score limit blue block tx
      ≡ blue * (limit * block_tx_capacity) + block * block_tx_capacity + tx
unfolding calculate_tx_score add_u64 mul_u64
plain_score limit blue block tx h = omega arith

mul_step : (a b k : ℕ) → a < b → a * k + k ≤ b * k
mul_step a b k h = grind arith

mul_mono : (a b k : ℕ) → a ≤ b → a * k ≤ b * k
mul_mono a b k h = grind arith

packed_div : (a k q : ℕ) → q < k → (a * k + q) / k ≡ a
packed_div a k q h = grind arith

-- Within the limits of a mergeset the blue score is read back from a transaction's score.
blue_score_of_tx_score :
    (limit blue block tx : ℕ)
    → InLimits limit blue block tx
    → calculate_blue_score_from_tx_score limit (calculate_tx_score limit blue block tx) ≡ blue
unfolding calculate_blue_score_from_tx_score
blue_score_of_tx_score limit blue block tx h =
    ap (λ s. s / (limit * block_tx_capacity)) (plain_score limit blue block tx h ∙ omega arith)
    ∙ packed_div blue (limit * block_tx_capacity) (block * block_tx_capacity + tx) (omega arith)

-- Within the limits of a mergeset, the threshold of a reorganisation at a blue score is at or
-- below a transaction's score exactly if its block's blue score is that or more.
tx_score_threshold :
    (limit min blue block tx : ℕ)
    → InLimits limit blue block tx
    → InLimits limit min 0 0
    → (calculate_tx_score_from_blue limit min ≤ calculate_tx_score limit blue block tx)
      ↔ (min ≤ blue)
unfolding calculate_tx_score_from_blue
tx_score_threshold limit min blue block tx h m = (
  λ le. elim (dec_le min blue) [
    | yes p ↦ p
    | no p ↦ absurd (
        omega (
          arith,
          le,
          plain_score limit blue block tx h,
          plain_score limit min 0 0 m,
          mul_step blue min (limit * block_tx_capacity) (omega arith),
        ))
  ],
  λ le. omega (
    arith,
    plain_score limit blue block tx h,
    plain_score limit min 0 0 m,
    mul_mono min blue (limit * block_tx_capacity) le,
  ),
)

-- Within the limits of a mergeset, the threshold of a reorganisation at a blue score is at or
-- below a transaction's score exactly if its block's blue score is that or more, and the blue
-- score is read back from the transaction's score.
pub tx_score_of_blue_score :
    (limit min blue block tx : ℕ)
    → InLimits limit blue block tx
    → InLimits limit min 0 0
    → ((calculate_tx_score_from_blue limit min ≤ calculate_tx_score limit blue block tx)
        ↔ (min ≤ blue))
      × (calculate_blue_score_from_tx_score limit (calculate_tx_score limit blue block tx) ≡ blue)
tx_score_of_blue_score limit min blue block tx h m =
    (tx_score_threshold limit min blue block tx h m, blue_score_of_tx_score limit blue block tx h)

-- Position by position: block by block, then by the block within the mergeset, then in the block.
abbrev pub Before : ℕ → ℕ → ℕ → ℕ → ℕ → ℕ → Type 0
Before blue block tx blue' block' tx' =
    (blue < blue') ⊎ ((blue ≡ blue') × ((block < block') ⊎ ((block ≡ block') × (tx < tx'))))

same_block :
    (block tx block' tx' : ℕ)
    → tx' < block_tx_capacity
    → tx < block_tx_capacity
    → block * block_tx_capacity + tx < block' * block_tx_capacity + tx'
    → (block < block') ⊎ ((block ≡ block') × (tx < tx'))
same_block block tx block' tx' h k lt = elim (dec_lt block block') [
  | yes earlier ↦ inl earlier
  | no e ↦ inr (omega arith, omega arith)
]

-- Within the limits of a mergeset, scores are ordered as the positions of the transactions are: by
-- chain block, then by block of the mergeset, then by index in the block.
pub tx_score_order :
    (limit blue block tx blue' block' tx' : ℕ)
    → InLimits limit blue block tx
    → InLimits limit blue' block' tx'
    → (calculate_tx_score limit blue block tx < calculate_tx_score limit blue' block' tx')
      ↔ Before blue block tx blue' block' tx'
tx_score_order limit blue block tx blue' block' tx' h k =
    let p = plain_score limit blue block tx h in
    let p' = plain_score limit blue' block' tx' k in
    let size = limit * block_tx_capacity in
    (
      λ lt. elim (dec_lt blue blue') [
        | yes earlier ↦ inl earlier
        | no e ↦ elim (dec_lt blue' blue) [
          | yes later ↦ absurd (omega (arith, p, p', lt, mul_step blue' blue size later))
          | no l ↦
              let same : blue ≡ blue' = omega arith in
              inr (
                same,
                same_block block tx block' tx' k.tx_lt h.tx_lt
                    (omega (arith, p, p', lt, ap (λ (b : ℕ). b * size) same)),
              )
        ]
      ],
      λ b. elim b [
        | inl earlier ↦ omega (arith, p, p', mul_step blue blue' size earlier)
        | inr (same, inl lt) ↦ omega (arith, p, p', ap (λ (b : ℕ). b * size) same)
        | inr (same, inr (e, lt)) ↦ omega (arith, p, p', ap (λ (b : ℕ). b * size) same)
      ],
    )
