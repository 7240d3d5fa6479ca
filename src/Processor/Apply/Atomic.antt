-- ===== src/Processor/Apply/Atomic.antt =====
-- What an operation that nexus/src/processor.rs rejects does to the database.
use krc721_protocol.Prelude.{ℕ, ◌≡◌, ◌≢◌, Bool, true, false, arith, inl, inr, Option-cases}
use krc721_protocol.Partition.{get}
use krc721_protocol.Model.{
  OperationInfo, OperationCommon, CtxValidationError, MintInfo, DiscountInfo, deploy, mint,
  transfer, discount, list, send,
}
use krc721_protocol.Keys.{number_key}
use krc721_protocol.Db.{Db}
use krc721_protocol.Outcome.{ok, accepted, rejected, Outcome-cases}
use krc721_protocol.External.{External}
use krc721_protocol.Processor.Mint.{process_mint, mint_error, assign_token_id}
use krc721_protocol.Processor.Transfer.Laws.{process_transfer-rejected}
use krc721_protocol.Processor.Discount.{process_discount}
use krc721_protocol.Processor.Market.Conditions.{process_list-rejected, process_send-rejected}
use krc721_protocol.Processor.Apply.{dispatch}

pub process_discount-rejected :
    (score : ℕ) (common : OperationCommon) (info : DiscountInfo) (db : Db)
    → (process_discount score common info db).0 ≢ accepted
    → (process_discount score common info db).1 ≡ db
unfolding process_discount
process_discount-rejected score common info db h =
    elim (Option-cases (get common.tick db.collection_registry)) [
      | inl e ↦ ground arith
      | inr (d, e) ↦ ground arith
    ]

process_mint-unchanged :
    (entropy score : ℕ) (common : OperationCommon) (info info1 : MintInfo) (b : Bool)
    (e : CtxValidationError) (db db1 : Db)
    → process_mint entropy score common info b db ≡ ok (rejected e, info1, db1)
    → db1 ≡ db
unfolding process_mint
process_mint-unchanged entropy score common info info1 b e db db1 h =
    elim (Option-cases (get common.tick db.collection_registry)) [
      | inl f ↦ ground arith
      | inr (d, f) ↦ elim (Option-cases (mint_error d.info.info common info b db)) [
        | inl g ↦ elim (Outcome-cases (assign_token_id d.info.info entropy common.tick db)) [
          | inl (x, u) ↦ ground arith
          | inr (r, u) ↦ ground arith
        ]
        | inr (x, g) ↦ ground arith
      ]
    ]

abbrev is_deploy : OperationInfo → Bool
is_deploy (deploy d) = true
is_deploy _ = false

-- Of all operations but a deployment, one that is rejected changes nothing in the database, on
-- every branch that rejects.
pub dispatch-rejected :
    (ext : External) (entropy score : ℕ) (common : OperationCommon) (info info1 : OperationInfo)
    (e : CtxValidationError) (db db1 : Db)
    → is_deploy info ≡ false
    → dispatch ext entropy score common info db ≡ ok (rejected e, info1, db1)
    → db1 ≡ db
unfolding dispatch
dispatch-rejected ext entropy score common (deploy d) info1 e db db1 other h = cc
dispatch-rejected ext entropy score common (mint m) info1 e db db1 other h =
    elim (Outcome-cases (process_mint entropy score common m false db)) [
      | inl (x, u) ↦ ground arith
      | inr ((v, m1, db2), u) ↦
          ground (arith, process_mint-unchanged entropy score common m m1 false e db db1)
    ]
dispatch-rejected ext entropy score common (transfer t) info1 e db db1 other h =
    ground (arith, process_transfer-rejected score common t db)
dispatch-rejected ext entropy score common (discount d) info1 e db db1 other h =
    ground (arith, process_discount-rejected score common d db)
dispatch-rejected ext entropy score common (list l) info1 e db db1 other h =
    ground (arith, process_list-rejected ext score common l db)
dispatch-rejected ext entropy score common (send s) info1 e db db1 other h =
    ground (arith, process_send-rejected score common s db)
