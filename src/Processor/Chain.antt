-- ===== src/Processor/Chain.antt =====
-- `process_removal`, `process_chain_changes`, `process_queue` and `process_queue_application` of
-- nexus/src/processor.rs, with `StatsPartition::addition` and `removal` of
-- database/src/database/partition.rs. The mirror of the statistics in the metrics, and the channel
-- that tells a test of a commit, are not modelled.
pub mod Additions
pub mod Removals
pub mod Queue
use krc721_protocol.Prelude.{
  ℕ, zero, suc, ◌+◌, ◌-◌, Bool, true, false, Option, none, some, List, [], ◌∷◌, ◌||◌, not, ◌==◌,
  is_some, if◌then◌else◌, get_or, add_u64, mul_u64,
}
use krc721_protocol.Partition.{insert, remove_if_exists, first_entry, last_entry}
use krc721_protocol.Model.{RpcHash, VirtualChainChanges}
use krc721_protocol.Keys.{number_key}
use krc721_protocol.Db.{Db, Stats, stats_default, add, sub}
use krc721_protocol.Outcome.{Outcome, ok, err, ◌>>=◌, expect}
use krc721_protocol.External.{External}
use krc721_protocol.Score.{calculate_tx_score_from_blue}
use krc721_protocol.Processor.Apply.{process_additions}
use krc721_protocol.Processor.Discount.{remove_discounts}
use krc721_protocol.Processor.Reorg.{
  identify_reorg_blocks_and_delete, remove_affected_operations, remove_affected_deployments,
  remove_affected_listings, reconstruct_token_ownership,
}

-- The removals from a transaction score on, in the order of the source.
unfoldable pub remove_from_score : ℕ → Db → Outcome (Stats × Db)
remove_from_score threshold db = do
  (diffs, db1) ← remove_affected_operations threshold db
  let (premints, db2) = remove_affected_deployments threshold db1
  let db3 = remove_affected_listings threshold (remove_discounts threshold db2)
  db4 ← reconstruct_token_ownership threshold premints db3
  ok (diffs, db4)

unfoldable pub process_removal : External → List RpcHash → Option ℕ → Db → Outcome (Stats × Db)
process_removal ext removed forced db =
    let (min_blue_score, db1) = identify_reorg_blocks_and_delete removed forced db in
    elim min_blue_score [
      | none ↦ ok (stats_default, db1)
      | some low ↦ remove_from_score (calculate_tx_score_from_blue ext.merge_set_limit low) db1
    ]

-- `StatsPartition::addition` and `StatsPartition::removal`
unfoldable pub stats_addition : Stats → Db → Db
stats_addition diffs db = record db { stats = some (add (get_or db.stats stats_default) diffs) }

unfoldable pub stats_removal : Stats → Db → Db
stats_removal diffs db = record db { stats = some (sub (get_or db.stats stats_default) diffs) }

abbrev is_empty {ℓ} : {A : Type ℓ} → List A → Bool
is_empty [] = true
is_empty (x ∷ xs) = false

-- The first phase, if there is anything to remove.
unfoldable pub removal_phase : External → VirtualChainChanges → Db → Outcome Db
removal_phase ext vcc db =
    if not (is_empty vcc.removed_chain_block_hashes) || is_some vcc.forced_rollback_blue_score
    then (do
      (diffs, db1) ←
          process_removal ext vcc.removed_chain_block_hashes vcc.forced_rollback_blue_score db
      ok (stats_removal diffs db1))
    else ok db

-- The second phase, if there is anything to add.
unfoldable pub addition_phase : External → VirtualChainChanges → Db → Outcome Db
addition_phase ext vcc db =
    if not (is_empty vcc.mergesets)
    then (do (diffs, db1) ← process_additions ext vcc.mergesets db; ok (stats_addition diffs db1))
    else ok db

unfoldable pub process_chain_changes_wtx : External → VirtualChainChanges → Db → Outcome Db
process_chain_changes_wtx ext vcc db = do db1 ← removal_phase ext vcc db; addition_phase ext vcc db1

-- What the database holds after a transaction: its result if it commits, the old content otherwise.
unfoldable pub commit : Outcome Db → Db → Db
commit (ok db1) db = db1
commit (err e) db = db

unfoldable pub process_chain_changes : External → VirtualChainChanges → Db → Db
process_chain_changes ext vcc db = commit (process_chain_changes_wtx ext vcc db) db

-- The keys of the queue count up from 1.
unfoldable pub next_key : Db → ℕ
next_key db = elim (last_entry db.notification_queue) [ none ↦ 1 | some e ↦ add_u64 e.0 1 ]

unfoldable pub process_queue : VirtualChainChanges → Db → Db
process_queue vcc db = record db {
  notification_queue = insert (next_key db) vcc db.notification_queue;
}

-- The loop `for i in first..=last`, over the rounds left.
unfoldable pub apply_queue : External → ℕ → ℕ → Db → Outcome Db
apply_queue ext zero i db = ok db
apply_queue ext (suc rounds) i db =
    let (found, queue) = remove_if_exists i db.notification_queue in
    elim (do
      vcc ← expect found
      process_chain_changes_wtx ext vcc (record db { notification_queue = queue })) [
        | err e ↦ err e
        | ok db1 ↦ apply_queue ext rounds (i + 1) db1
      ]

abbrev pub entry_key {ℓ} : {A : Type ℓ} → Option (ℕ × A) → ℕ
entry_key none = 0
entry_key (some e) = e.0

unfoldable pub process_queue_application_wtx : External → Db → Outcome Db
process_queue_application_wtx ext db =
    let first = entry_key (first_entry db.notification_queue) in
    let last = entry_key (last_entry db.notification_queue) in
    if mul_u64 first last == 0 then ok db else apply_queue ext (last + 1 - first) first db

unfoldable pub process_queue_application : External → Db → Db
process_queue_application ext db = commit (process_queue_application_wtx ext db) db
