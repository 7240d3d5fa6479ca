-- ===== src/Processor/Discount.antt =====
-- `process_discount` and `remove_discounts` of nexus/src/processor.rs.
pub mod Laws
use krc721_protocol.Prelude.{
  ℕ, ◌-◌, not, Option, none, some, List, [], ◌∷◌, leb, if◌then◌else◌, u64_max,
}
use krc721_protocol.Partition.{Partition, get, insert, remove, range_from}
use krc721_protocol.Model.{
  ScriptPublicKey, spk_eq, RoyaltyDetails, DiscountInfo, OperationCommon, tick_not_found,
  wrong_deployer, discount_fee_overflow,
}
use krc721_protocol.Keys.{
  number_key, scored_discount_key_instance, vip_key_instance, ScoredDiscountKey,
}
use krc721_protocol.Db.{Db}
use krc721_protocol.Outcome.{Validation, accepted, rejected}
use krc721_protocol.Processor.Mint.{vip_key}

-- `royalty.map(|r| r.fee).unwrap_or_default()`
abbrev pub royalty_fee : Option RoyaltyDetails → ℕ
royalty_fee none = 0
royalty_fee (some r) = r.fee

-- The two writes of a discount.
unfoldable pub record_discount : ℕ → OperationCommon → DiscountInfo → Db → Db
record_discount score common info db = record db {
  score_to_discount =
      insert (record { score = score; tick = common.tick; spk = info.to }) info.fee
        db.score_to_discount;
  vip = insert (vip_key info.to common.tick (u64_max - score) info.fee) tt db.vip;
}

unfoldable pub process_discount : ℕ → OperationCommon → DiscountInfo → Db → Validation × Db
process_discount score common info db = elim (get common.tick db.collection_registry) [
  | none ↦ (rejected tick_not_found, db)
  | some deployment ↦
      let deploy = deployment.info.info in
      if not (spk_eq common.sender deploy.deployer)
      then (rejected wrong_deployer, db)
      else if leb (royalty_fee deploy.royalty) info.fee
      then (rejected discount_fee_overflow, db)
      else (accepted, record_discount score common info db)
]

-- The entry of `vip` that belongs to an entry of `score_to_discount`.
unfoldable pub drop_discounts : Partition ScoredDiscountKey ℕ → Db → Db
drop_discounts [] db = db
drop_discounts ((k, fee) ∷ rest) db =
    drop_discounts rest
      (record db { vip = remove (vip_key k.spk k.tick (u64_max - k.score) fee) db.vip })

-- The range starts at the bare score, below every key with that score.
unfoldable pub remove_discounts : ℕ → Db → Db
remove_discounts tx_score_threshold db =
    drop_discounts (range_from (tx_score_threshold ∷ []) db.score_to_discount) db
