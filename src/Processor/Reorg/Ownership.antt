-- ===== src/Processor/Reorg/Ownership.antt =====
-- `reconstruct_token_ownership` of nexus/src/processor.rs and the methods that it calls, with
-- `last_owner_with_tx_mod_score_wtx` of database/src/database/partition.rs.
use krc721_protocol.Prelude.{
  ℕ, ◌-◌, ◌&&◌, Option, none, some, List, [], ◌∷◌, ltb, ◌==◌, if◌then◌else◌, reverse, u64_max,
}
use krc721_protocol.Partition.{
  Partition, get, insert, remove, remove_if_exists, range_from, keys, first_where,
}
use krc721_protocol.Model.{Tick, tick_min, ScriptPublicKey}
use krc721_protocol.Keys.{
  address_holding_key, number_key, token_mints_key_instance, ownership_history_key_instance,
  mint_history_key_instance, ownership_key_instance, address_holding_key_instance, TokenMintsKey,
  OwnershipHistoryKey, MintHistoryKey, ownership_history_key, ownership_key,
}
use krc721_protocol.Db.{Db}
use krc721_protocol.Outcome.{Outcome, ok, err, ◌>>=◌, expect}
use krc721_protocol.TokenId.{rollback_token_generation}

-- The newest entry of a token comes first, as its score is reversed in the key.
unfoldable pub last_owner_with_tx_mod_score :
    Tick → ℕ → Partition OwnershipHistoryKey ScriptPublicKey → Option (ScriptPublicKey × ℕ)
last_owner_with_tx_mod_score tick token_id m =
    elim (first_where (λ (k : OwnershipHistoryKey). (k.tick == tick) && (k.token_id == token_id))
      m) [ none ↦ none | some e ↦ some (e.1, u64_max - e.0.reversed_score) ]

-- The premint of a collection, which the same reorganisation may have removed.
unfoldable pub premint_of : Tick → Partition Tick ℕ → Db → Option ℕ
premint_of tick counts db = elim (get tick counts) [
  | some n ↦ some n
  | none ↦ elim (get tick db.collection_registry) [
    | none ↦ none
    | some d ↦ some d.info.info.premint
  ]
]

abbrev pub mint_history_key_of : TokenMintsKey → MintHistoryKey
mint_history_key_of k = record {
  tick = k.tick;
  reversed_seq = k.reversed_seq_number;
  token_id = k.token_id;
  score = k.score;
}

-- One ownership change is taken back; a mint that drew its id also gives it back.
unfoldable pub undo_change :
    Partition Tick ℕ → TokenMintsKey → Db → Outcome (Option ScriptPublicKey × Db)
undo_change counts k db =
    let (holder, history) =
      remove_if_exists (ownership_history_key k.tick k.token_id k.score) db.ownership_history in
    let (minted, mints) = remove_if_exists (mint_history_key_of k) db.mint_history in
    let db1 = record db {
      ownership_history = history;
      ownership_changes = remove k db.ownership_changes;
      mint_history = mints;
    } in
    elim minted [
      | none ↦ ok (holder, db1)
      | some _ ↦ do
        premint ← expect (premint_of k.tick counts db1)
        db2 ←
            if ltb premint k.token_id
            then rollback_token_generation k.tick k.token_id db1
            else ok db1
        ok (holder, db2)
    ]

abbrev pub Affected : Type 0
Affected = List (TokenMintsKey × Option ScriptPublicKey)

unfoldable pub undo_changes : Partition Tick ℕ → List TokenMintsKey → Db → Outcome (Affected × Db)
undo_changes counts [] db = ok ([], db)
undo_changes counts (k ∷ ks) db = elim (undo_change counts k db) [
  | err e ↦ err e
  | ok (holder, db1) ↦ elim (undo_changes counts ks db1) [
    | err e ↦ err e
    | ok (rest, db2) ↦ ok ((k, holder) ∷ rest, db2)
  ]
]

-- The newest change is taken back first.
unfoldable pub get_affected_token_operations : ℕ → Partition Tick ℕ → Db → Outcome (Affected × Db)
get_affected_token_operations score_threshold counts db =
    undo_changes counts
      (reverse (keys (range_from (score_threshold ∷ tick_min ∷ 0 ∷ 0 ∷ []) db.ownership_changes)))
      db

unfoldable pub remove_ownership_records : Affected → Db → Db
remove_ownership_records [] db = db
remove_ownership_records ((k, _) ∷ rest) db = remove_ownership_records rest (record db {
  current_ownership = remove (ownership_key k.tick k.token_id) db.current_ownership;
})

-- The holding of the address that the removed entry named.
unfoldable pub drop_holding : TokenMintsKey → Option ScriptPublicKey → Db → Db
drop_holding k none db = db
drop_holding k (some spk) db = record db {
  address_holdings = remove (address_holding_key spk k.tick k.token_id) db.address_holdings;
}

-- The token belongs to the last owner that the history names, if there is one.
unfoldable pub rebuild_owner : TokenMintsKey → Db → Db
rebuild_owner k db = elim (last_owner_with_tx_mod_score k.tick k.token_id db.ownership_history) [
  | none ↦ db
  | some (owner, mod_tx_score) ↦ record db {
    current_ownership =
        insert (ownership_key k.tick k.token_id)
          (record { owner = owner; mod_tx_score = mod_tx_score }) db.current_ownership;
    address_holdings =
        insert (address_holding_key owner k.tick k.token_id) mod_tx_score db.address_holdings;
  }
]

unfoldable pub rebuild_ownership_state : Affected → Db → Db
rebuild_ownership_state [] db = db
rebuild_ownership_state ((k, holder) ∷ rest) db =
    rebuild_ownership_state rest (rebuild_owner k (drop_holding k holder db))

unfoldable pub reconstruct_token_ownership : ℕ → Partition Tick ℕ → Db → Outcome Db
reconstruct_token_ownership score_threshold counts db = do
  (affected, db1) ← get_affected_token_operations score_threshold counts db
  ok (rebuild_ownership_state affected (remove_ownership_records affected db1))
