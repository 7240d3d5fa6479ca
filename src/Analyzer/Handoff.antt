-- ===== src/Analyzer/Handoff.antt =====
-- From `detect_krc721` of nexus/src/analyzer.rs to `process_deployment` of nexus/src/processor.rs:
-- what the processor needs of a deployment, and what its sender has paid.
use krc721_protocol.Prelude.{
  ℕ, ◌+◌, ◌*◌, ◌≤◌, ◌≡◌, refl, ◌%◌, add_u64, mul_u64, Option, some, u64_max, u64_modulus, arith,
}
use krc721_protocol.Model.{DeployInfo, Operation, OperationInfo, RoyaltyDetails, ScriptPublicKey}
use krc721_protocol.Db.{Db}
use krc721_protocol.Outcome.{ok, accepted}
use krc721_protocol.Processor.Mint.{process_deployment, last_mint}
use krc721_protocol.Processor.Mint.Supply.{Supply}
use krc721_protocol.Processor.Mint.Premint.{
  Fresh, InSequence, registered, deployment_entry, process_deployment-Supply,
}
use krc721_protocol.Inscription.Codes.{
  Script, kspr_fee_deploy, kspr_fee_mint, min_royalty_fee, max_royalty_fee,
}
use krc721_protocol.Analyzer.Result
use krc721_protocol.Analyzer.Source.{ContextTransaction}
use krc721_protocol.Analyzer.Arms.{
  Analyzer, Libraries, Scope, UserOperation, Op, total_deploy_fee, common_of,
}
use krc721_protocol.Analyzer.Deploys.{MayDeploy, Royalty, no_royalty, royalty}
use krc721_protocol.Analyzer.Emits.{Emitted, Emits, emitted}
use krc721_protocol.Analyzer.Detect.{detect_krc721}
use krc721_protocol.Analyzer.Reveals.{detect_krc721-Reveals}

total_deploy_fee-wraps :
    (s : Script) (premint : ℕ)
    → total_deploy_fee s premint ≡ (kspr_fee_deploy s + premint * kspr_fee_mint s) % u64_modulus
unfolding total_deploy_fee mul_u64 add_u64
total_deploy_fee-wraps s premint = omega arith

Royalty-bounds :
    (s : Script) (to : ScriptPublicKey) {o : Option ℕ} {given : Option RoyaltyDetails}
    (r : RoyaltyDetails)
    → Royalty s to o given
    → given ≡ some r
    → (min_royalty_fee s ≤ r.fee) × (r.fee ≤ max_royalty_fee s)
Royalty-bounds s to r no_royalty e = ground (arith, e)
Royalty-bounds s to r (royalty fee low high) e =
    let same : fee ≡ r.fee = ground (arith, e) in rw (← same) (low, high)

module _ (l : Libraries) (a : Analyzer) (t : ContextTransaction) where
  -- A deployment that passed the tests of some inscription.
  pub data Deployed (op : Operation) (info : DeployInfo) : Type 0 where
    deployed :
        (c : Scope) (model : UserOperation)
        → op.common ≡ common_of t c
        → MayDeploy l.script a t c model info
        → Deployed op info

  as_deploy :
      (c : Scope) (model : UserOperation) (o : Op) (x : OperationInfo) (info : DeployInfo)
      → Emits l a t c model o x
      → x ≡ OperationInfo.deploy info
      → MayDeploy l.script a t c model info
  as_deploy c model _ _ info (Emits.deploys i m) e =
      let same : i ≡ info = ground (arith, e) in rw (← same) m
  as_deploy c model _ _ info (Emits.mints h) e = ground (arith, e)
  as_deploy c model _ _ info (Emits.transfers x0 x1 y z) e = ground (arith, e)
  as_deploy c model _ _ info (Emits.discounts x0 x1 y z) e = ground (arith, e)
  as_deploy c model _ _ info (Emits.lists x0 x1 x2 x3 x4 v w x y z) e = ground (arith, e)
  as_deploy c model _ _ info (Emits.sends x0 x1 x2 x y z) e = ground (arith, e)

  Emitted-Deployed :
      (c : Scope) (model : UserOperation) (o : Op) {op : Operation} (info : DeployInfo)
      → Emitted l a t c model o op
      → op.info ≡ OperationInfo.deploy info
      → Deployed op info
  Emitted-Deployed c model o info (emitted x m) e =
      deployed c model refl (as_deploy c model o x info m e)

  pub detect_krc721-Deployed :
      (op : Operation) (info : DeployInfo)
      → detect_krc721 l a t ≡ Result.ok (some op)
      → op.info ≡ OperationInfo.deploy info
      → Deployed op info
  detect_krc721-Deployed op info e f =
      let (script, there, h, r) = detect_krc721-Reveals l a t op e in
      Emitted-Deployed r.scope r.model r.model.op info r.asked f

  -- A deployment that the analyzer finds, with a maximum that is a 64-bit number, is accepted by
  -- the processor in a database that knows nothing of its collection: it is registered, its last
  -- sequence number is its premint, every id from 1 to its premint has the deployer as its owner
  -- since the score of the deployment, and a mint under a sequence number equal to the id, no
  -- other id has an owner, and its supply is in balance for the mints that follow.
  pub detect_krc721-process_deployment :
      (op : Operation) (info : DeployInfo) (score : ℕ) (db : Db)
      → detect_krc721 l a t ≡ Result.ok (some op)
      → op.info ≡ OperationInfo.deploy info
      → info.max ≤ u64_max
      → Fresh op.common.tick db
      → (db' : Db) × (process_deployment score op.common info db ≡ ok (accepted, db'))
        × (registered op.common.tick db' ≡ some (deployment_entry score op.common info))
        × (last_mint op.common.tick db' ≡ info.premint)
        × InSequence op.common.tick score info info.premint db'
        × Supply op.common.tick info db'
  detect_krc721-process_deployment op info score db e f word fresh =
      ready (detect_krc721-Deployed op info e f)
    where
      ready :
          Deployed op info
          → (db' : Db) × (process_deployment score op.common info db ≡ ok (accepted, db'))
            × (registered op.common.tick db' ≡ some (deployment_entry score op.common info))
            × (last_mint op.common.tick db' ≡ info.premint)
            × InSequence op.common.tick score info info.premint db'
            × Supply op.common.tick info db'
      ready (deployed c model x m) =
          process_deployment-Supply score op.common info db (ground (arith, word, m.max_fits))
            m.premint_fits fresh

  common_fee :
      (op : Operation) {n : ℕ} (c : Scope)
      → op.common ≡ common_of t c
      → n ≤ t.fee
      → n ≤ op.common.fee
  unfolding common_of
  common_fee op c e h = rw e h

  -- A deployment that the analyzer finds has paid at least the fee of a deployment and that of a
  -- mint for each token of its premint, their sum taken modulo 2^64, and its royalty fee, if it
  -- has one, is within the bounds.
  pub detect_krc721-fees :
      (op : Operation) (info : DeployInfo)
      → detect_krc721 l a t ≡ Result.ok (some op)
      → op.info ≡ OperationInfo.deploy info
      → ((kspr_fee_deploy l.script + info.premint * kspr_fee_mint l.script) % u64_modulus
          ≤ op.common.fee)
        × ((r : RoyaltyDetails)
            → info.royalty ≡ some r
            → (min_royalty_fee l.script ≤ r.fee) × (r.fee ≤ max_royalty_fee l.script))
  detect_krc721-fees op info e f = paid (detect_krc721-Deployed op info e f)
    where
      paid :
          Deployed op info
          → ((kspr_fee_deploy l.script + info.premint * kspr_fee_mint l.script) % u64_modulus
              ≤ op.common.fee)
            × ((r : RoyaltyDetails)
                → info.royalty ≡ some r
                → (min_royalty_fee l.script ≤ r.fee) × (r.fee ≤ max_royalty_fee l.script))
      paid (deployed c model x m) = (
        common_fee op c x (rw (← total_deploy_fee-wraps l.script info.premint) m.paid),
        λ r. Royalty-bounds l.script c.royalty_to r m.royalty_fits,
      )
