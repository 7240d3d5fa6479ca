-- ===== src/Processor/Chain/Additions.antt =====
-- The handlers of nexus/src/processor.rs and the queue of historical changes, which they leave as it
-- is.
use krc721_protocol.Prelude.{
  ℕ, zero, suc, ◌≡◌, ap, ◌∙◌, Bool, true, false, none, List, [], ◌∷◌, ltb, arith, Option-cases,
  Bool-cases, inl, inr, not, ◌&&◌,
}
use krc721_protocol.Partition.{get, insert, insert_if_not_exist}
use krc721_protocol.Model.{
  Mergeset, OperationCommon, OperationInfo, DeployInfo, MintInfo, TransferInfo, DiscountInfo,
  ListingInfo, SendInfo, deploy, mint, transfer, discount, list, send, Tick,
}
use krc721_protocol.Keys.{
  number_key, ownership_key, ownership_key_instance, blue_scored_chain_block_hash_instance,
}
use krc721_protocol.Db.{Db, Stats, stats_default}
use krc721_protocol.Outcome.{ok, Validation, accepted, rejected, Outcome-cases}
use krc721_protocol.External.{External}
use krc721_protocol.TokenId.{generate_token_id}
use krc721_protocol.TokenId.Frame.{generate_token_id-Outside}
use krc721_protocol.Processor.Mint.{
  process_mint, record_mint, premint_tokens, record_deployment, process_deployment, mint_error,
  assign_token_id, should_premint,
}
use krc721_protocol.Processor.Transfer.{process_transfer, change_owner}
use krc721_protocol.Processor.Discount.{process_discount, record_discount}
use krc721_protocol.Processor.Market.{process_list, put_listing, process_send, drop_listing}
use krc721_protocol.Processor.Apply.{
  ContextOperation, dispatch, record_operation, apply_operation, process_nft_operations,
  scored_operations, add_mergeset, add_mergesets, process_additions, chain_block,
}

process_transfer-queue :
    (score : ℕ) (common : OperationCommon) (info : TransferInfo) (db : Db)
    → (process_transfer score common info db).1.notification_queue ≡ db.notification_queue
unfolding process_transfer change_owner
process_transfer-queue score common info db =
    elim (Option-cases (get (ownership_key common.tick info.token_id) db.current_ownership)) [
      | inl e ↦ ground (arith, e)
      | inr (v, e) ↦ ground (arith, e)
    ]

process_discount-queue :
    (score : ℕ) (common : OperationCommon) (info : DiscountInfo) (db : Db)
    → (process_discount score common info db).1.notification_queue ≡ db.notification_queue
unfolding process_discount record_discount
process_discount-queue score common info db =
    elim (Option-cases (get common.tick db.collection_registry)) [
      | inl e ↦ ground (arith, e)
      | inr (v, e) ↦ ground (arith, e)
    ]

process_list-queue :
    (ext : External) (score : ℕ) (common : OperationCommon) (info : ListingInfo) (db : Db)
    → (process_list ext score common info db).1.notification_queue ≡ db.notification_queue
unfolding process_list put_listing
process_list-queue ext score common info db =
    elim (Option-cases (get (ownership_key common.tick info.token_id) db.current_ownership)) [
      | inl e ↦ ground (arith, e)
      | inr (v, e) ↦ ground (arith, e)
    ]

process_send-queue :
    (score : ℕ) (common : OperationCommon) (info : SendInfo) (db : Db)
    → (process_send score common info db).1.notification_queue ≡ db.notification_queue
unfolding process_send drop_listing change_owner
process_send-queue score common info db =
    elim (Option-cases (get (ownership_key common.tick info.token_id) db.listings)) [
      | inl e ↦ ground (arith, e)
      | inr (v, e) ↦ elim (Option-cases info.buyer) [
        | inl f ↦ ground (arith, e, f)
        | inr (b, f) ↦ ground (arith, e, f)
      ]
    ]

assign_token_id-queue :
    (info : DeployInfo) (entropy : ℕ) (tick : Tick) (db : Db) {id : ℕ} {db' : Db}
    → assign_token_id info entropy tick db ≡ ok (id, db')
    → db'.notification_queue ≡ db.notification_queue
unfolding assign_token_id
assign_token_id-queue info entropy tick db {id} {db'} e =
    elim (Bool-cases (not (should_premint info tick db) && ltb info.premint info.max)) [
      | inl h ↦
          let drawn : generate_token_id tick entropy info.max info.premint db ≡ ok (id, db') =
            ground (arith, h, e) in
          ap (λ (x : Db). x.notification_queue)
            (generate_token_id-Outside tick entropy info.max info.premint db id db' drawn)
      | inr h ↦ ground (arith, h, e)
    ]

process_mint-queue :
    (entropy score : ℕ) (common : OperationCommon) (m : MintInfo) (deployment : Bool) (db : Db)
    {v : Validation} {m' : MintInfo} {db' : Db}
    → process_mint entropy score common m deployment db ≡ ok (v, m', db')
    → db'.notification_queue ≡ db.notification_queue
unfolding process_mint record_mint
process_mint-queue entropy score common m deployment db e =
    elim (Option-cases (get common.tick db.collection_registry)) [
      | inl f ↦ ground (arith, e, f)
      | inr (d, f) ↦ elim (Option-cases (mint_error d.info.info common m deployment db)) [
        | inr (x, g) ↦ ground (arith, e, f, g)
        | inl g ↦ elim (Outcome-cases (assign_token_id d.info.info entropy common.tick db)) [
          | inl (x, h) ↦ ground (arith, e, f, g, h)
          | inr (x, h) ↦
              ground (arith, e, f, g, h, assign_token_id-queue d.info.info entropy common.tick db h)
        ]
      ]
    ]

premint_tokens-queue :
    (n score : ℕ) (common : OperationCommon) (info : DeployInfo) (db : Db) {v : Validation}
    {db' : Db}
    → premint_tokens n score common info db ≡ ok (v, db')
    → db'.notification_queue ≡ db.notification_queue
unfolding premint_tokens
premint_tokens-queue zero score common info db e = ground (arith, e)
premint_tokens-queue (suc n) score common info db {v} {db'} e =
    let m : MintInfo = record { token_id = 0; to = info.deployer; royalty = none } in
    elim (Outcome-cases (process_mint 0 score common m true db)) [
      | inl (x, f) ↦ ground (arith, e, f)
      | inr ((accepted, m', db1), f) ↦
          let rest : premint_tokens n score common info db1 ≡ ok (v, db') = ground (arith, e, f) in
          premint_tokens-queue n score common info db1 rest
          ∙ process_mint-queue 0 score common m true db f
      | inr ((rejected x, m', db1), f) ↦
          ground (arith, e, f, process_mint-queue 0 score common m true db f)
    ]

process_deployment-queue :
    (score : ℕ) (common : OperationCommon) (info : DeployInfo) (db : Db) {v : Validation} {db' : Db}
    → process_deployment score common info db ≡ ok (v, db')
    → db'.notification_queue ≡ db.notification_queue
unfolding process_deployment record_deployment
process_deployment-queue score common info db {v} {db'} e =
    elim (Option-cases (get common.tick db.collection_registry)) [
      | inr (d, f) ↦ ground (arith, e, f)
      | inl f ↦
          let mints : premint_tokens info.premint score common info
                (record_deployment score common info db)
              ≡ ok (v, db') =
            ground (arith, e, f) in
          premint_tokens-queue info.premint score common info
            (record_deployment score common info db) mints
    ]

dispatch-queue :
    (ext : External) (entropy score : ℕ) (common : OperationCommon) (info : OperationInfo) (db : Db)
    {v : Validation} {info' : OperationInfo} {db' : Db}
    → dispatch ext entropy score common info db ≡ ok (v, info', db')
    → db'.notification_queue ≡ db.notification_queue
unfolding dispatch
dispatch-queue ext entropy score common (deploy d) db e =
    elim (Outcome-cases (process_deployment score common d db)) [
      | inl (x, f) ↦ ground (arith, e, f)
      | inr (x, f) ↦ ground (arith, e, f, process_deployment-queue score common d db f)
    ]
dispatch-queue ext entropy score common (mint m) db e =
    elim (Outcome-cases (process_mint entropy score common m false db)) [
      | inl (x, f) ↦ ground (arith, e, f)
      | inr (x, f) ↦ ground (arith, e, f, process_mint-queue entropy score common m false db f)
    ]
dispatch-queue ext entropy score common (transfer t) db e =
    ground (arith, e, process_transfer-queue score common t db)
dispatch-queue ext entropy score common (discount d) db e =
    ground (arith, e, process_discount-queue score common d db)
dispatch-queue ext entropy score common (list l) db e =
    ground (arith, e, process_list-queue ext score common l db)
dispatch-queue ext entropy score common (send s) db e =
    ground (arith, e, process_send-queue score common s db)

apply_operation-queue :
    (ext : External) (op : ContextOperation) (diff : Stats) (db : Db) {diff' : Stats} {db' : Db}
    → apply_operation ext op diff db ≡ ok (diff', db')
    → db'.notification_queue ≡ db.notification_queue
unfolding apply_operation record_operation
apply_operation-queue ext op diff db e =
    let common = op.operation.common in
    elim (Outcome-cases
      (dispatch ext op.mergeset_entropy op.tx_score common op.operation.info db)) [
        | inl (x, f) ↦ ground (arith, e, f)
        | inr (x, f) ↦ ground (
          arith,
          e,
          f,
          dispatch-queue ext op.mergeset_entropy op.tx_score common op.operation.info db f,
        )
      ]

process_nft_operations-queue :
    (ext : External) (ops : List ContextOperation) (diff : Stats) (db : Db) {diff' : Stats}
    {db' : Db}
    → process_nft_operations ext ops diff db ≡ ok (diff', db')
    → db'.notification_queue ≡ db.notification_queue
unfolding process_nft_operations
process_nft_operations-queue ext [] diff db e = ground (arith, e)
process_nft_operations-queue ext (op ∷ ops) diff db {diff'} {db'} e =
    elim (Outcome-cases (apply_operation ext op diff db)) [
      | inl (x, f) ↦ ground (arith, e, f)
      | inr ((diff1, db1), f) ↦
          let rest : process_nft_operations ext ops diff1 db1 ≡ ok (diff', db') =
            ground (arith, e, f) in
          process_nft_operations-queue ext ops diff1 db1 rest
          ∙ apply_operation-queue ext op diff db f
    ]

add_mergeset-queue :
    (ext : External) (last : ℕ) (m : Mergeset) (diff : Stats) (db : Db) {diff' : Stats} {db' : Db}
    → add_mergeset ext last m diff db ≡ ok (diff', db')
    → db'.notification_queue ≡ db.notification_queue
unfolding add_mergeset
add_mergeset-queue ext last m diff db e =
    let blocks = insert_if_not_exist (chain_block m) tt db.chain_block_scores in
    let db1 : Db = record db {
      chain_block_scores = blocks.1;
      blockhash_to_score = insert m.accepted_chain_block_hash m.blue_score db.blockhash_to_score;
    } in
    elim (Bool-cases (ltb m.blue_score last)) [
      | inl f ↦ ground (arith, e, f)
      | inr f ↦ elim (Bool-cases blocks.0) [
        | inr g ↦ ground (arith, e, f, g)
        | inl g ↦
            elim (Outcome-cases (
              process_nft_operations ext (scored_operations ext m m.operations db1) stats_default
                db1)) [
                  | inl (x, h) ↦ ground (arith, e, f, g, h)
                  | inr ((d, db2), h) ↦ ground (
                    arith,
                    e,
                    f,
                    g,
                    h,
                    process_nft_operations-queue ext (scored_operations ext m m.operations db1)
                        stats_default db1 h,
                  )
                ]
      ]
    ]

add_mergesets-queue :
    (ext : External) (last : ℕ) (ms : List Mergeset) (diff : Stats) (db : Db) {diff' : Stats}
    {db' : Db}
    → add_mergesets ext last ms diff db ≡ ok (diff', db')
    → db'.notification_queue ≡ db.notification_queue
unfolding add_mergesets
add_mergesets-queue ext last [] diff db e = ground (arith, e)
add_mergesets-queue ext last (m ∷ ms) diff db {diff'} {db'} e =
    elim (Outcome-cases (add_mergeset ext last m diff db)) [
      | inl (x, f) ↦ ground (arith, e, f)
      | inr ((diff1, db1), f) ↦
          let rest : add_mergesets ext last ms diff1 db1 ≡ ok (diff', db') = ground (arith, e, f) in
          add_mergesets-queue ext last ms diff1 db1 rest ∙ add_mergeset-queue ext last m diff db f
    ]

pub process_additions-queue :
    (ext : External) (ms : List Mergeset) (db : Db) {diff : Stats} {db' : Db}
    → process_additions ext ms db ≡ ok (diff, db')
    → db'.notification_queue ≡ db.notification_queue
unfolding process_additions
process_additions-queue ext ms db e = add_mergesets-queue ext _ ms _ db e
