-- ===== src/Processor/Custody/Minting.antt =====
-- The custody of the tokens over the mints of nexus/src/processor.rs.
use mathlib.Core.Path.{subst}
use krc721_protocol.Prelude.{ℕ, ◌+◌, ◌<◌, ◌≡◌, sym, ap, ◌∙◌, false, none, some, arith, u64_max}
use krc721_protocol.Partition.{get}
use krc721_protocol.Partition.Laws.{get-insert}
use krc721_protocol.Model.{Tick, ScriptPublicKey, OperationCommon, MintInfo}
use krc721_protocol.Keys.{
  number_key, ownership_key_instance, address_holding_key_instance, ownership_key-eq,
  address_holding_key-eq, ScoredDeployInfoWithCommon,
}
use krc721_protocol.Db.{Db}
use krc721_protocol.Outcome.{ok, accepted}
use krc721_protocol.TokenId.Frame.{Outside}
use krc721_protocol.Processor.Mint.{record_mint, process_mint, mint_error, last_mint}
use krc721_protocol.Processor.Mint.Supply.{Supply, process_mint-Minted}
use krc721_protocol.Processor.Transfer.Laws.{owner}
use krc721_protocol.Processor.Market.Index.{Indexed}
use krc721_protocol.Processor.Custody.{Held, SellersOwn, Custody}

ruleset reads = (get-insert, ownership_key-eq, address_holding_key-eq)

-- The ranges of ids are no part of it.
pub Outside-Custody : (db db1 : Db) → Outside db db1 → Custody db → Custody db1
Outside-Custody db db1 out c = subst Custody (sym out) (record {
  indexed = record { by_tick = c.indexed.by_tick; by_seller = c.indexed.by_seller };
  held = c.held;
  sellers_own = c.sellers_own;
})

module _ (t : Tick) (id seq score : ℕ) (to : ScriptPublicKey) (db : Db)
    (free : owner t id db ≡ none) where
  record_mint-Held : Held db → Held (record_mint t id seq score to db)
  unfolding record_mint
  record_mint-Held h spk u j = simp reads (ground (arith, h spk u j))

  record_mint-SellersOwn : SellersOwn db → SellersOwn (record_mint t id seq score to db)
  unfolding record_mint
  record_mint-SellersOwn so u j l e = simp reads (ground (arith, so u j l e))

  record_mint-Indexed : Indexed db → Indexed (record_mint t id seq score to db)
  unfolding record_mint
  record_mint-Indexed ix = record { by_tick = ix.by_tick; by_seller = ix.by_seller }

  -- A token that has no owner yet is given to an address.
  pub record_mint-Custody : Custody db → Custody (record_mint t id seq score to db)
  record_mint-Custody c = record {
    indexed = record_mint-Indexed c.indexed;
    held = record_mint-Held c.held;
    sellers_own = record_mint-SellersOwn c.sellers_own;
  }

module _ (entropy score : ℕ) (common : OperationCommon) (mint : MintInfo) (db : Db)
    (dep : ScoredDeployInfoWithCommon)
    (registered : get common.tick db.collection_registry ≡ some dep) where
  -- After the premint, a mint that no test rejects keeps the custody of the tokens.
  pub process_mint-Custody :
      dep.info.info.max < u64_max
      → Supply common.tick dep.info.info db
      → Custody db
      → mint_error dep.info.info common mint false db ≡ none
      → (id : ℕ) × (db' : Db) × (process_mint entropy score common mint false db
          ≡ ok (accepted, record mint { token_id = id }, db'))
        × Custody db'
  process_mint-Custody small s c valid =
      let (id, db', e, m) =
        process_mint-Minted entropy score common mint db dep registered small s valid in
      let (db1, out, written) = m.recorded in
      (
        id,
        db',
        e,
        subst Custody (sym written) (
            record_mint-Custody common.tick id (last_mint common.tick db + 1) score mint.to db1
              (ap (λ (x : Db). owner common.tick id x) out ∙ s.unowned id m.takes.was_available)
              (Outside-Custody db db1 out c)),
      )
