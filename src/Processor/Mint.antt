-- ===== src/Processor/Mint.antt =====
-- `process_mint` and `process_deployment` of nexus/src/processor.rs, with the partition reads
-- `last_minted_token_seq_no_wtx` and `last_fee_wtx` of database/src/database/partition.rs.
pub mod Supply
pub mod Premint
pub mod Conditions
use krc721_protocol.Prelude.{
  ℕ, zero, suc, ◌+◌, ◌-◌, Bool, true, false, not, ◌&&◌, ◌||◌, Option, none, some, ltb, leb, ◌==◌,
  if◌then◌else◌, get_or, add_u64, u64_max,
}
use krc721_protocol.Partition.{Partition, get, insert, first_where, key_lt}
use krc721_protocol.Model.{
  Tick, ScriptPublicKey, spk_eq, RoyaltyDetails, DeployInfo, MintInfo, OperationCommon,
  DeployInfoWithCommon, CtxValidationError, tick_exists, insufficient_royalty_fee,
  missing_royalty_mint_fee, invalid_beneficiary_for_royalty_mint_fee, tick_not_found,
  minting_finished, minting_not_started,
}
use krc721_protocol.Keys.{
  number_key, mint_history_key_instance, token_mints_key_instance, ownership_history_key_instance,
  ownership_key_instance, address_holding_key_instance, deployment_key_instance, vip_key_instance,
  MintHistoryKey, VipKey, address_holding_key, mint_history_key, token_mints_key,
  ownership_history_key, ownership_key,
}
use krc721_protocol.Db.{Db}
use krc721_protocol.Outcome.{
  Outcome, ok, err, unexpected_kaspa_node_behaviour, Validation, accepted, rejected, ◌>>=◌,
}
use krc721_protocol.TokenId.{generate_token_id}

-- The newest mint of a tick comes first, as its sequence number is reversed in the key.
unfoldable pub last_minted_token_seq_no : Tick → Partition MintHistoryKey (Unit {0}) → Option ℕ
last_minted_token_seq_no t m = elim (first_where (λ (k : MintHistoryKey). k.tick == t) m) [
  | none ↦ none
  | some e ↦ some (u64_max - e.0.reversed_seq)
]

abbrev pub vip_key : ScriptPublicKey → Tick → ℕ → ℕ → VipKey
vip_key spk tick reversed_score fee = record {
  spk = spk;
  tick = tick;
  reversed_score = reversed_score;
  fee = fee;
}

-- The keys between the two that `VipKey::prefix_range` makes.
abbrev pub in_prefix_range : ScriptPublicKey → Tick → VipKey → Bool
in_prefix_range spk tick k =
    not (key_lt k (vip_key spk tick 0 0)) && key_lt k (vip_key spk tick u64_max u64_max)

-- The newest discount of an address comes first, as its score is reversed in the key.
unfoldable pub last_fee : ScriptPublicKey → Tick → Partition VipKey (Unit {0}) → Option ℕ
last_fee spk tick m = elim (first_where (in_prefix_range spk tick) m) [
  | none ↦ none
  | some e ↦ some e.0.fee
]

-- The validation of the royalty that a mint pays: `none` if the mint may go on.
unfoldable pub royalty_error :
    Option RoyaltyDetails
    → Option RoyaltyDetails
    → ScriptPublicKey
    → Tick
    → Db
    → Option CtxValidationError
royalty_error (some d) (some m) to tick db =
    if ltb m.fee (get_or (last_fee to tick db.vip) d.fee)
    then some insufficient_royalty_fee
    else if not (spk_eq d.beneficiary m.beneficiary)
    then some invalid_beneficiary_for_royalty_mint_fee
    else none
royalty_error (some d) none to tick db = some missing_royalty_mint_fee
royalty_error none r to tick db = none

-- The five writes of a mint.
unfoldable pub record_mint : Tick → ℕ → ℕ → ℕ → ScriptPublicKey → Db → Db
record_mint tick token_id token_seq_no score to db = record db {
  mint_history = insert (mint_history_key tick token_seq_no token_id score) tt db.mint_history;
  ownership_changes =
      insert (token_mints_key score tick token_id token_seq_no) tt db.ownership_changes;
  ownership_history = insert (ownership_history_key tick token_id score) to db.ownership_history;
  current_ownership =
      insert (ownership_key tick token_id) (record { owner = to; mod_tx_score = score })
        db.current_ownership;
  address_holdings = insert (address_holding_key to tick token_id) score db.address_holdings;
}

-- The sequence number of the last mint of a tick, or 0.
abbrev pub last_mint : Tick → Db → ℕ
last_mint tick db = get_or (last_minted_token_seq_no tick db.mint_history) 0

abbrev pub should_premint : DeployInfo → Tick → Db → Bool
should_premint info tick db = ltb 0 info.premint && ltb (last_mint tick db) info.premint

-- The id of the minted token: drawn at random after the premint, in sequence otherwise.
unfoldable pub assign_token_id : DeployInfo → ℕ → Tick → Db → Outcome (ℕ × Db)
assign_token_id info mergeset_entropy tick db =
    if not (should_premint info tick db) && ltb info.premint info.max
    then generate_token_id tick mergeset_entropy info.max info.premint db
    else ok (add_u64 (last_mint tick db) 1, db)

-- What rejects a mint of a collection, in the order of the tests.
unfoldable pub mint_error :
    DeployInfo → OperationCommon → MintInfo → Bool → Db → Option CtxValidationError
mint_error info common mint is_deployment db =
    if not is_deployment && ltb common.accepting_block_daa_score info.mint_start_daa
    then some (minting_not_started common.tick common.accepting_block_daa_score info.mint_start_daa)
    else if info.max == 0
    then some minting_finished
    else elim (if should_premint info common.tick db
        then none
        else royalty_error info.royalty mint.royalty mint.to common.tick db) [
          | some e ↦ some e
          | none ↦
              if ltb info.max (add_u64 (last_mint common.tick db) 1)
              then some minting_finished
              else none
        ]

-- A mint also gives its `MintInfo` the id of the token.
unfoldable pub process_mint :
    ℕ → ℕ → OperationCommon → MintInfo → Bool → Db → Outcome (Validation × MintInfo × Db)
process_mint mergeset_entropy score common mint is_deployment db =
    elim (get common.tick db.collection_registry) [
      | none ↦ ok (rejected tick_not_found, mint, db)
      | some deployment ↦
          let info = deployment.info.info in
          elim (mint_error info common mint is_deployment db) [
            | some e ↦ ok (rejected e, mint, db)
            | none ↦ do
              let token_seq_no = add_u64 (last_mint common.tick db) 1
              (token_id, db1) ← assign_token_id info mergeset_entropy common.tick db
              ok (
                accepted,
                record mint { token_id = token_id },
                record_mint common.tick token_id token_seq_no score mint.to db1,
              )
          ]
    ]

-- The mints of a deployment, for `1..=premint`; the first that is rejected ends them.
unfoldable pub premint_tokens :
    ℕ → ℕ → OperationCommon → DeployInfo → Db → Outcome (Validation × Db)
premint_tokens zero score common info db = ok (accepted, db)
premint_tokens (suc n) score common info db =
    let mint : MintInfo = record { token_id = 0; to = info.deployer; royalty = none } in
    elim (process_mint 0 score common mint true db) [
      | err e ↦ err e
      | ok (rejected e, _, db1) ↦ ok (rejected e, db1)
      | ok (accepted, _, db1) ↦ premint_tokens n score common info db1
    ]

-- The two writes that register a collection.
unfoldable pub record_deployment : ℕ → OperationCommon → DeployInfo → Db → Db
record_deployment tx_score common info db =
    let both : DeployInfoWithCommon = record { info = info; common = common } in
    record db {
      collection_registry =
          insert common.tick (record { score = tx_score; info = both }) db.collection_registry;
      collection_deployments =
          insert (record { score = tx_score; tick = common.tick }) both db.collection_deployments;
    }

-- What a rejected premint left in the transaction stays in it.
unfoldable pub process_deployment :
    ℕ → OperationCommon → DeployInfo → Db → Outcome (Validation × Db)
process_deployment tx_score common info db = elim (get common.tick db.collection_registry) [
  | some d ↦
      if leb tx_score d.score
      then err unexpected_kaspa_node_behaviour
      else ok (rejected tick_exists, db)
  | none ↦
      premint_tokens info.premint tx_score common info (record_deployment tx_score common info db)
]
