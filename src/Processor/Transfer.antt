-- ===== src/Processor/Transfer.antt =====
-- `process_transfer` of nexus/src/processor.rs.
pub mod Laws
use krc721_protocol.Prelude.{ℕ, not, none, some, is_some, if◌then◌else◌}
use krc721_protocol.Partition.{get, insert, remove}
use krc721_protocol.Model.{
  Tick, ScriptPublicKey, spk_eq, TransferInfo, OperationCommon, token_not_found, wrong_owner,
  token_is_listed,
}
use krc721_protocol.Keys.{
  address_holding_key, token_mints_key_instance, ownership_history_key_instance,
  ownership_key_instance, address_holding_key_instance, token_mints_key, ownership_history_key,
  ownership_key,
}
use krc721_protocol.Db.{Db}
use krc721_protocol.Outcome.{Validation, accepted, rejected}

-- The five writes by which a token passes from one address to another, here and in a sale.
unfoldable pub change_owner : Tick → ℕ → ℕ → ScriptPublicKey → ScriptPublicKey → Db → Db
change_owner tick token_id tx_score from to db = record db {
  ownership_changes = insert (token_mints_key tx_score tick token_id 0) tt db.ownership_changes;
  ownership_history = insert (ownership_history_key tick token_id tx_score) to db.ownership_history;
  current_ownership =
      insert (ownership_key tick token_id) (record { owner = to; mod_tx_score = tx_score })
        db.current_ownership;
  address_holdings =
      insert (address_holding_key to tick token_id) tx_score
        (remove (address_holding_key from tick token_id) db.address_holdings);
}

unfoldable pub process_transfer : ℕ → OperationCommon → TransferInfo → Db → Validation × Db
process_transfer tx_score common info db =
    elim (get (ownership_key common.tick info.token_id) db.current_ownership) [
      | none ↦ (rejected token_not_found, db)
      | some value ↦
          if not (spk_eq value.owner common.sender)
          then (rejected wrong_owner, db)
          else if is_some (get (ownership_key common.tick info.token_id) db.listings)
          then (rejected token_is_listed, db)
          else (accepted, change_owner common.tick info.token_id tx_score value.owner info.to db)
    ]
