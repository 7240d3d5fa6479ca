-- ===== src/Processor/Custody/Dispatch.antt =====
-- The custody of the tokens over `dispatch`, for all the operations of nexus/src/processor.rs.
use mathlib.Core.Path.{subst}
use krc721_protocol.Prelude.{
  ℕ, ◌<◌, ◌≤◌, ◌≡◌, refl, sym, ap, ◌∙◌, ◌⊎◌, inl, inr, if_of_false, false, none, some, arith,
  Option-cases, u64_max, leb,
}
use krc721_protocol.Partition.{get}
use krc721_protocol.Model.{
  OperationCommon, OperationInfo, DeployInfo, MintInfo, DiscountInfo, deploy, mint, transfer,
  discount, list, send, tick_exists, tick_not_found,
}
use krc721_protocol.Keys.{number_key, ScoredDeployInfoWithCommon}
use krc721_protocol.Db.{Db}
use krc721_protocol.Outcome.{ok, Validation, accepted, rejected, ◌>>=◌}
use krc721_protocol.External.{External}
use krc721_protocol.Processor.Mint.{mint_error, record_deployment}
use krc721_protocol.Processor.Mint.Supply.{Supply, process_mint-rejected, process_mint-unknown}
use krc721_protocol.Processor.Mint.Premint.{Fresh, deployed, process_deployment-again}
use krc721_protocol.Processor.Discount.{process_discount, record_discount}
use krc721_protocol.Processor.Apply.{dispatch}
use krc721_protocol.Processor.Apply.Atomic.{process_discount-rejected}
use krc721_protocol.Processor.Custody.{Custody}
use krc721_protocol.Processor.Custody.Operations.{
  either_way, process_transfer-Custody, process_list-Custody, process_send-Custody,
}
use krc721_protocol.Processor.Custody.Minting.{process_mint-Custody, record_mint-Custody}

-- What an operation needs of its collection, beyond what the processor tests itself: a deployment is
-- of a tick that is new or was deployed before, and a mint is of a tick that is new or whose supply
-- is in balance. The analyzer lets no premint pass that is above the maximum.
abbrev pub Ready : ℕ → OperationCommon → OperationInfo → Db → Type 0
Ready score common (deploy d) db =
    (Fresh common.tick db × (d.max < u64_max) × (d.premint ≤ d.max))
    ⊎ ((dep : ScoredDeployInfoWithCommon) × (get common.tick db.collection_registry ≡ some dep)
        × (leb score dep.score ≡ false))
Ready score common (mint m) db =
    (get common.tick db.collection_registry ≡ none)
    ⊎ ((dep : ScoredDeployInfoWithCommon) × (get common.tick db.collection_registry ≡ some dep)
        × (dep.info.info.max < u64_max)
        × Supply common.tick dep.info.info db)
Ready score common _ db = Unit

-- The operation returns, and keeps the custody.
abbrev pub Keeps : External → ℕ → ℕ → OperationCommon → OperationInfo → Db → Type 0
Keeps ext entropy score common info db =
    (r : Validation × OperationInfo × Db) × (dispatch ext entropy score common info db ≡ ok r)
    × Custody r.2

record_deployment-Custody :
    (score : ℕ) (common : OperationCommon) (info : DeployInfo) (db : Db)
    → Custody db
    → Custody (record_deployment score common info db)
unfolding record_deployment
record_deployment-Custody score common info db c = record {
  indexed = record { by_tick = c.indexed.by_tick; by_seller = c.indexed.by_seller };
  held = c.held;
  sellers_own = c.sellers_own;
}

record_discount-Custody :
    (score : ℕ) (common : OperationCommon) (info : DiscountInfo) (db : Db)
    → Custody db
    → Custody (record_discount score common info db)
unfolding record_discount
record_discount-Custody score common info db c = record {
  indexed = record { by_tick = c.indexed.by_tick; by_seller = c.indexed.by_seller };
  held = c.held;
  sellers_own = c.sellers_own;
}

recorded_discount :
    (score : ℕ) (common : OperationCommon) (info : DiscountInfo) (db : Db)
    → (process_discount score common info db).0 ≡ accepted
    → (process_discount score common info db).1 ≡ record_discount score common info db
unfolding process_discount
recorded_discount score common info db h =
    elim (Option-cases (get common.tick db.collection_registry)) [
      | inl e ↦ ground arith
      | inr (d, e) ↦ ground arith
    ]

process_discount-Custody :
    (score : ℕ) (common : OperationCommon) (info : DiscountInfo) (db : Db)
    → Custody db
    → Custody (process_discount score common info db).1
process_discount-Custody score common info db c =
    either_way Custody (process_discount score common info db) db c
      (λ h.
        subst Custody (sym (recorded_discount score common info db h))
          (record_discount-Custody score common info db c))
      (process_discount-rejected score common info db)

module _ (ext : External) (entropy score : ℕ) (common : OperationCommon) (db : Db)
    (c : Custody db) where
  dispatch_deploy :
      (d : DeployInfo)
      → Ready score common (deploy d) db
      → Keeps ext entropy score common (deploy d) db
  unfolding dispatch
  dispatch_deploy d (inl (fresh, small, fits)) =
      let (db', e, _, c') =
        deployed score common d db small fits fresh Custody
          (λ id x free cx. record_mint-Custody common.tick id id score d.deployer x free cx)
          (record_deployment-Custody score common d db c) in
      ((accepted, deploy d, db'), ap (λ o. o >>= (λ r. ok (r.0, deploy d, r.1))) e, c')
  dispatch_deploy d (inr (dep, e, newer)) = (
    (rejected tick_exists, deploy d, db),
    ap (λ o. o >>= (λ r. ok (r.0, deploy d, r.1)))
        (process_deployment-again score common d db dep e ∙ if_of_false _ _ newer),
    c,
  )

  dispatch_mint :
      (m : MintInfo) → Ready score common (mint m) db → Keeps ext entropy score common (mint m) db
  unfolding dispatch
  dispatch_mint m (inl e) = (
    (rejected tick_not_found, mint m, db),
    ap (λ o. o >>= (λ r. ok (r.0, mint r.1, r.2)))
        (process_mint-unknown entropy score common m db e),
    c,
  )
  dispatch_mint m (inr (dep, e, small, s)) =
      elim (Option-cases (mint_error dep.info.info common m false db)) [
        | inl valid ↦ minted dep e small s valid
        | inr (x, invalid) ↦ (
          (rejected x, mint m, db),
          ap (λ o. o >>= (λ r. ok (r.0, mint r.1, r.2)))
              (process_mint-rejected entropy score common m db dep e x invalid),
          c,
        )
      ]
    where
      minted :
          (dep : ScoredDeployInfoWithCommon)
          → get common.tick db.collection_registry ≡ some dep
          → dep.info.info.max < u64_max
          → Supply common.tick dep.info.info db
          → mint_error dep.info.info common m false db ≡ none
          → Keeps ext entropy score common (mint m) db
      minted dep e small s valid =
          let (id, db', made, c') =
            process_mint-Custody entropy score common m db dep e small s c valid in
          (
            (accepted, mint (record m { token_id = id }), db'),
            ap (λ o. o >>= (λ r. ok (r.0, mint r.1, r.2))) made,
            c',
          )

  -- In a database where the holdings of the addresses agree with the owners of the tokens, the
  -- three tables of listings agree and a seller owns what it lists, every operation on a
  -- collection in order (one that is new and has a premint up to its maximum, or one that an older
  -- operation deployed, for a deployment; an unknown one or one whose supply is in balance, for a
  -- mint; maximum below u64::MAX for both) returns without an error or a panic and leaves the
  -- database so, accepted or not.
  pub dispatch-Custody :
      (info : OperationInfo) → Ready score common info db → Keeps ext entropy score common info db
  unfolding dispatch
  dispatch-Custody (deploy d) h = dispatch_deploy d h
  dispatch-Custody (mint m) h = dispatch_mint m h
  dispatch-Custody (transfer t) h = (_, refl, process_transfer-Custody score common db c t)
  dispatch-Custody (discount d) h = (_, refl, process_discount-Custody score common d db c)
  dispatch-Custody (list l) h = (_, refl, process_list-Custody score common db c ext l)
  dispatch-Custody (send s) h = (_, refl, process_send-Custody score common db c s)
