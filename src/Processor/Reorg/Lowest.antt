-- ===== src/Processor/Reorg/Lowest.antt =====
-- The blue score from which `identify_reorg_blocks_and_delete` of nexus/src/processor.rs takes the
-- chain back, against those of the removed blocks.
use Prim.Native.Nat.{min}
use krc721_protocol.Prelude.{
  ℕ, ◌≤◌, ◌≡◌, ◌⊎◌, refl, sym, ap, ◌∙◌, Bool, true, false, Option, none, some, List, [], ◌∷◌, leb,
  ◌==◌, if◌then◌else◌, arith, inl, inr, Option-cases, Bool-cases, u64_max,
}
use krc721_protocol.Partition.{Partition, get, remove}
use krc721_protocol.Partition.Laws.{get-remove}
use krc721_protocol.Model.{RpcHash}
use krc721_protocol.Keys.{
  number_key, number_key-eq, blue_scored_chain_block_hash_instance, BlueScoredChainBlockHash,
}
use krc721_protocol.Db.{Db}
use krc721_protocol.Processor.Reorg.Blocks.{
  lookup_removed_block_score, remove_block_scores, identify_reorg_blocks_and_delete,
}
use krc721_protocol.Processor.Reorg.Removed.{remove_chain_state-blocks}

abbrev pub Among : RpcHash → List RpcHash → Type 0
Among b [] = ⊥
Among b (x ∷ xs) = (b ≡ x) ⊎ Among b xs

known-lookup :
    (b : RpcHash) (s : ℕ) (db : Db)
    → get b db.blockhash_to_score ≡ some s
    → lookup_removed_block_score b db ≡ some s
unfolding lookup_removed_block_score
known-lookup b s db e = ground (arith, e)

abbrev without_block : RpcHash → Db → Db
without_block x db = record db { blockhash_to_score = remove x db.blockhash_to_score }

module _ (x : RpcHash) (xs : List RpcHash) (low : ℕ) (found : Bool) (db : Db) where
  scores_skip :
      lookup_removed_block_score x db ≡ none
      → remove_block_scores (x ∷ xs) low found db ≡ remove_block_scores xs low found db
  unfolding remove_block_scores
  scores_skip e = ground (arith, e)

  scores_take :
      (s : ℕ)
      → lookup_removed_block_score x db ≡ some s
      → remove_block_scores (x ∷ xs) low found db
        ≡ remove_block_scores xs (min low s) true (without_block x db)
  unfolding remove_block_scores
  scores_take s e = ground (arith, e)

scores_end :
    (low : ℕ) (found : Bool) (db : Db) → remove_block_scores [] low found db ≡ (low, found, db)
unfolding remove_block_scores
scores_end low found db = refl

-- The loop lowers the score only, and keeps what it found.
scores_lower :
    (blocks : List RpcHash) (low : ℕ) (found : Bool) (db : Db)
    → ((remove_block_scores blocks low found db).0 ≤ low)
      × (found ≡ true → (remove_block_scores blocks low found db).1 ≡ true)
      × ((remove_block_scores blocks low found db).2.chain_block_scores ≡ db.chain_block_scores)
scores_lower [] low found db = rw (scores_end low found db) (omega arith, λ h. h, refl)
scores_lower (x ∷ xs) low found db = elim (Option-cases (lookup_removed_block_score x db)) [
  | inl e ↦ rw (scores_skip x xs low found db e) (scores_lower xs low found db)
  | inr (s, e) ↦
      let (below, kept, blocks) = scores_lower xs (min low s) true (without_block x db) in
      rw (scores_take x xs low found db s e) (omega (arith, below), λ h. kept refl, blocks)
]

-- A removed block that is known is found, and the score ends at or below its own.
scores_bound :
    (b : RpcHash) (s : ℕ) (blocks : List RpcHash) (low : ℕ) (found : Bool) (db : Db)
    → Among b blocks
    → get b db.blockhash_to_score ≡ some s
    → ((remove_block_scores blocks low found db).0 ≤ s)
      × ((remove_block_scores blocks low found db).1 ≡ true)
scores_bound b s [] low found db among e = absurd among
scores_bound b s (x ∷ xs) low found db (inl same) e =
    let known : lookup_removed_block_score x db ≡ some s =
      known-lookup x s db (ap (λ h. get h db.blockhash_to_score) (sym same) ∙ e) in
    let (below, kept, _) = scores_lower xs (min low s) true (without_block x db) in
    rw (scores_take x xs low found db s known) (omega (arith, below), kept refl)
scores_bound b s (x ∷ xs) low found db (inr later) e =
    elim (Option-cases (lookup_removed_block_score x db)) [
      | inl f ↦ rw (scores_skip x xs low found db f) (scores_bound b s xs low found db later e)
      | inr (z, f) ↦ elim (Bool-cases (b == x)) [
        | inl same ↦
            let known : lookup_removed_block_score x db ≡ some s =
              known-lookup x s db (ground (arith, same, e)) in
            let (below, kept, _) = scores_lower xs (min low s) true (without_block x db) in
            rw (scores_take x xs low found db s known) (omega (arith, below), kept refl)
        | inr other ↦ rw (scores_take x xs low found db z f) (
            scores_bound b s xs (min low z) true (without_block x db) later
              (get-remove x b db.blockhash_to_score ∙ ground (arith, number_key-eq b x, other, e)))
      ]
    ]

-- The chain is cut at a score.
abbrev pub CutAt : ℕ → Option ℕ × Db → Db → Type 0
CutAt low r db =
    (r.0 ≡ some low)
    × ((c : BlueScoredChainBlockHash)
        → get c r.1.chain_block_scores
          ≡ (if leb low c.blue_score then none else get c db.chain_block_scores))

abbrev cut_lookup :
    ℕ → BlueScoredChainBlockHash → Partition BlueScoredChainBlockHash (Unit {0}) → Option (Unit {0})
cut_lookup low c m = if leb low c.blue_score then none else get c m

-- If one of the removed blocks is known, the chain is cut at a score at or below its own: no chain
-- block with that score or more is left, and those below are as they were, also where a rollback
-- to a score is forced.
pub identify-CutAt :
    (b : RpcHash) (s : ℕ) (removed : List RpcHash) (forced : Option ℕ) (db : Db)
    → Among b removed
    → get b db.blockhash_to_score ≡ some s
    → (low : ℕ) × (low ≤ s) × CutAt low (identify_reorg_blocks_and_delete removed forced db) db
unfolding identify_reorg_blocks_and_delete
identify-CutAt b s removed none db among e =
    let (bound, found) = scores_bound b s removed u64_max false db among e in
    let (_, _, blocks) = scores_lower removed u64_max false db in
    (
      (remove_block_scores removed u64_max false db).0,
      bound,
      rw found (
        refl,
        λ c.
            remove_chain_state-blocks _ c _
            ∙ ap (cut_lookup (remove_block_scores removed u64_max false db).0 c) blocks,
      ),
    )
identify-CutAt b s removed (some score) db among e =
    let (bound, found) = scores_bound b s removed u64_max false db among e in
    let (_, _, blocks) = scores_lower removed u64_max false db in
    (
      min (remove_block_scores removed u64_max false db).0 score,
      omega (arith, bound),
      (
        refl,
        λ c.
            remove_chain_state-blocks _ c _
            ∙ ap (cut_lookup (min (remove_block_scores removed u64_max false db).0 score) c) blocks,
      ),
    )
