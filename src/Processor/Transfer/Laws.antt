-- ===== src/Processor/Transfer/Laws.antt =====
-- What `process_transfer` of nexus/src/processor.rs checks, and where a token is afterwards.
use mathlib.Core.Path.{subst}
use krc721_protocol.Prelude.{
  ℕ, ◌≡◌, ◌∙◌, sym, ap, ◌≢◌, ◌↔◌, inl, inr, Option, none, some, arith, Option-cases,
}
use krc721_protocol.Partition.{get, remove}
use krc721_protocol.Partition.Laws.{get-insert_self, get-insert_ne, get-remove_ne, get-remove_self}
use krc721_protocol.Model.{Tick, ScriptPublicKey, TransferInfo, OperationCommon}
use krc721_protocol.Keys.{
  ownership_key_instance, address_holding_key_instance, ownership_key, address_holding_key,
  spk_eq_sound, spk_eq_refl, CurrentOwnershipValue, AddressHoldingKey,
}
use krc721_protocol.Db.{Db}
use krc721_protocol.Outcome.{Validation, accepted}
use krc721_protocol.Processor.Transfer.{change_owner, process_transfer}

abbrev pub owner : Tick → ℕ → Db → Option CurrentOwnershipValue
owner t id db = get (ownership_key t id) db.current_ownership

abbrev pub holding : ScriptPublicKey → Tick → ℕ → Db → Option ℕ
holding spk t id db = get (address_holding_key spk t id) db.address_holdings

-- The token has passed to an address: by the ownership record, and by the two holdings.
pub record Moved (t : Tick) (id score : ℕ) (from to : ScriptPublicKey) (db db' : Db) : Type 0 where
  pub owned : owner t id db' ≡ some (record { owner = to; mod_tx_score = score })
  pub held : holding to t id db' ≡ some score
  pub left : from ≢ to → holding from t id db' ≡ none
  pub others_owned :
      (u : Tick) (j : ℕ) → ownership_key u j ≢ ownership_key t id → owner u j db' ≡ owner u j db
  pub others_held :
      (spk : ScriptPublicKey) (u : Tick) (j : ℕ)
      → address_holding_key spk u j ≢ address_holding_key from t id
      → address_holding_key spk u j ≢ address_holding_key to t id
      → holding spk u j db' ≡ holding spk u j db

pub change_owner-Moved :
    (t : Tick) (id score : ℕ) (from to : ScriptPublicKey) (db : Db)
    → Moved t id score from to db (change_owner t id score from to db)
unfolding change_owner
change_owner-Moved t id score from to db = record {
  owned = get-insert_self _ _ _;
  held = get-insert_self _ _ _;
  left = λ ne.
      get-insert_ne (address_holding_key to t id) (address_holding_key from t id) score
        (remove (address_holding_key from t id) db.address_holdings)
        (λ e. ne (ap (λ (k : AddressHoldingKey). k.spk) e))
      ∙ get-remove_self (address_holding_key from t id) db.address_holdings;
  others_owned = λ u j ne. get-insert_ne _ _ _ _ ne;
  others_held = λ spk u j ne ne'.
      get-insert_ne (address_holding_key to t id) (address_holding_key spk u j) score
        (remove (address_holding_key from t id) db.address_holdings) ne'
      ∙ get-remove_ne (address_holding_key from t id) (address_holding_key spk u j)
          db.address_holdings ne;
}

-- The sender owns the token, and it is not listed.
abbrev pub MayTransfer : OperationCommon → TransferInfo → Db → Type 0
MayTransfer common info db =
    (score : ℕ) × (owner common.tick info.token_id db
      ≡ some (record { owner = common.sender; mod_tx_score = score }))
    × (get (ownership_key common.tick info.token_id) db.listings ≡ none)

module _ (score : ℕ) (common : OperationCommon) (info : TransferInfo) (db : Db) where
  pub allowed : (process_transfer score common info db).0 ≡ accepted → MayTransfer common info db
  unfolding process_transfer
  allowed h = elim (Option-cases (owner common.tick info.token_id db)) [
    | inl e ↦ absurd (ground arith)
    | inr (v, e) ↦
        (v.mod_tx_score, ground (arith, spk_eq_sound v.owner common.sender), ground arith)
  ]

  pub transferred :
      MayTransfer common info db
      → process_transfer score common info db
        ≡ (accepted, change_owner common.tick info.token_id score common.sender info.to db)
  unfolding process_transfer
  transferred (s, e, l) = ground (arith, spk_eq_refl common.sender)

  -- A transfer is accepted exactly when the sender owns the token and it is not listed.
  pub process_transfer-accepted :
      ((process_transfer score common info db).0 ≡ accepted) ↔ MayTransfer common info db
  process_transfer-accepted = (allowed, λ m. ap (λ r. r.0) (transferred m))

  -- An accepted transfer passes the token from the sender to the receiver, in the ownership record
  -- and in both holdings, and changes those of no other token or address.
  pub process_transfer-Moved :
      (process_transfer score common info db).0 ≡ accepted
      → Moved common.tick info.token_id score common.sender info.to db
          (process_transfer score common info db).1
  process_transfer-Moved h =
      subst
        (λ (r : Validation × Db).
          Moved common.tick info.token_id score common.sender info.to db r.1)
        (sym (transferred (allowed h)))
        (change_owner-Moved common.tick info.token_id score common.sender info.to db)

  -- A rejected transfer changes nothing.
  pub process_transfer-rejected :
      (process_transfer score common info db).0 ≢ accepted
      → (process_transfer score common info db).1 ≡ db
  unfolding process_transfer
  process_transfer-rejected h = elim (Option-cases (owner common.tick info.token_id db)) [
    | inl e ↦ ground arith
    | inr (v, e) ↦ ground arith
  ]
