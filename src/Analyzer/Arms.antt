-- ===== src/Analyzer/Arms.antt =====
-- The branches of `detect_krc721` of nexus/src/analyzer.rs, one for each kind of operation.
use Prim.Native.String.{String}
use krc721_protocol.Prelude.{
  ℕ, not, Option, none, some, List, [], ◌∷◌, ◌==◌, ltb, get_or, if◌then◌else◌, ◌⊎◌, u64_max,
  add_u64, mul_u64,
}
use krc721_protocol.Model.{
  Tick, ScriptPublicKey, spk_eq, Metadata, RoyaltyDetails, OperationCommon, Operation,
  OperationInfo, has_incompatible_uri_prefix,
}
use krc721_protocol.External.{External}
use krc721_protocol.Inscription.Codes.{
  Script, kspr_fee_deploy, kspr_fee_mint, min_royalty_fee, max_royalty_fee,
}
use krc721_protocol.Inscription.Ticks.{Unicode, as_str}
use krc721_protocol.Inscription.Listing.{Address, Builder, compute_listing_p2sh}
use krc721_protocol.Analyzer.Result.{
  Result, ok, err, ◌>>=◌, ok_or, op_discount_missing_value, op_transfer_missing_value,
  insufficient_mint_fee, restricted_tick_deploy, op_deploy_missing_value,
  restricted_metadata_protocol, max_supply_overflow, premint_greater_than_max,
  insufficient_deploy_fee, underflow_royalty_fee, overflow_royalty_fee, op_list_missing_value,
  op_send_missing_value, refuse, expect,
}
use krc721_protocol.Analyzer.Source.{
  ContextTransaction, output_spk, output_amt, first_beneficiary, first_output_amt, input_prev_txid,
  sender_pubkey_bytes,
}

pub data Op : Type 0 where
  deploy mint transfer discount list send : Op

-- The JSON of an inscription.
pub record UserOperation : Type 0 where
  pub op : Op
  pub tick : Tick
  pub token_id : Option ℕ
  pub metadata : Option Metadata
  pub max : Option ℕ
  pub to : Option String
  pub royalty_to : Option String
  pub royalty_fee : Option ℕ
  pub daa_mint_start : Option ℕ
  pub discount_fee : Option ℕ
  pub premint : Option ℕ

pub record Analyzer : Type 0 where
  pub restricted_tokens : List (Tick × ScriptPublicKey)
  pub address_prefix : ℕ
  pub restricted_protocols : List String
  pub daa_ecdsa_fix : ℕ

-- What the branches take from what is before them: the sender, and the scripts of the addresses.
pub record Scope : Type 0 where
  pub tick : Tick
  pub sender : ScriptPublicKey
  pub to_param : Option ScriptPublicKey
  pub royalty_to : ScriptPublicKey

unfoldable pub common_of : ContextTransaction → Scope → OperationCommon
common_of t c = record {
  tick = c.tick;
  tx_id = t.tx.id;
  block_time = t.block_time;
  sender = c.sender;
  fee = t.fee;
  accepting_block_daa_score = t.accepting_block_daa_score;
}

-- `restricted_tokens.get`
unfoldable pub restricted : Tick → List (Tick × ScriptPublicKey) → Option ScriptPublicKey
restricted tick [] = none
restricted tick (e ∷ es) = if e.0 == tick then some e.1 else restricted tick es

abbrev pub check_restricted : Tick → ScriptPublicKey → Option ScriptPublicKey → Result (Unit {0})
check_restricted tick sender none = ok tt
check_restricted tick sender (some expected) =
    refuse (not (spk_eq expected sender)) (restricted_tick_deploy tick expected sender)

abbrev pub checked_royalty : Script → ScriptPublicKey → Option ℕ → Result (Option RoyaltyDetails)
checked_royalty s royalty_to none = ok none
checked_royalty s royalty_to (some fee) =
    if ltb fee (min_royalty_fee s)
    then err underflow_royalty_fee
    else if ltb (max_royalty_fee s) fee
    then err overflow_royalty_fee
    else ok (some (record { beneficiary = royalty_to; fee = fee }))

-- `KSPR_FEE_DEPLOY + (premint * KSPR_FEE_MINT)` on 64 bits.
unfoldable pub total_deploy_fee : Script → ℕ → ℕ
total_deploy_fee s premint = add_u64 (kspr_fee_deploy s) (mul_u64 premint (kspr_fee_mint s))

unfoldable pub analyze_deploy :
    Script → Analyzer → ContextTransaction → Scope → UserOperation → Result Operation
analyze_deploy s a t c model = do
  _ ← check_restricted c.tick c.sender (restricted c.tick a.restricted_tokens)
  metadata ← ok_or model.metadata (op_deploy_missing_value "metadata")
  _ ←
      refuse (has_incompatible_uri_prefix metadata a.restricted_protocols)
        (restricted_metadata_protocol a.restricted_protocols)
  max ← ok_or model.max (op_deploy_missing_value "max")
  _ ← refuse (max == u64_max) max_supply_overflow
  let premint = get_or model.premint 0
  _ ← refuse (ltb max premint) (premint_greater_than_max max)
  _ ← refuse (ltb t.fee (total_deploy_fee s premint)) (insufficient_deploy_fee t.fee)
  royalty ← checked_royalty s c.royalty_to model.royalty_fee
  ok (record {
    common = common_of t c;
    info = OperationInfo.deploy (record {
      metadata = metadata;
      max = max;
      deployer = get_or c.to_param c.sender;
      royalty = royalty;
      mint_start_daa = get_or model.daa_mint_start 0;
      premint = premint;
    });
  })

-- `zip`
abbrev pub royalty_details : Option ℕ → Option ScriptPublicKey → Option RoyaltyDetails
royalty_details none beneficiary = none
royalty_details (some fee) none = none
royalty_details (some fee) (some beneficiary) =
    some (record { beneficiary = beneficiary; fee = fee })

unfoldable pub analyze_mint : Script → ContextTransaction → Scope → Result Operation
analyze_mint s t c =
    if ltb t.fee (kspr_fee_mint s)
    then err (insufficient_mint_fee t.fee)
    else ok (record {
      common = common_of t c;
      info = OperationInfo.mint (record {
        token_id = 0;
        to = get_or c.to_param c.sender;
        royalty = royalty_details (first_output_amt t) (first_beneficiary t);
      });
    })

unfoldable pub analyze_transfer : ContextTransaction → Scope → UserOperation → Result Operation
analyze_transfer t c model = do
  token_id ← ok_or model.token_id (op_transfer_missing_value "token_id")
  transfer_to ← ok_or c.to_param (op_transfer_missing_value "to")
  ok (record {
    common = common_of t c;
    info = OperationInfo.transfer (record { token_id = token_id; to = transfer_to });
  })

unfoldable pub analyze_discount : ContextTransaction → Scope → UserOperation → Result Operation
analyze_discount t c model = do
  fee ← ok_or model.discount_fee (op_discount_missing_value "discount_fee")
  to ← ok_or c.to_param (op_discount_missing_value "to")
  ok (record {
    common = common_of t c;
    info = OperationInfo.discount (record { to = to; fee = fee });
  })

-- What the analyzer takes from the Kaspa crates, the standard library and `serde`. A parser returns
-- the text of its error or a value. The versions are those of the two classes of scripts.
pub record Libraries : Type 0 where
  pub external : External
  pub unicode : Unicode
  pub builder : Builder
  pub script : Script
  pub deserialize_user_operation : List ℕ → String ⊎ UserOperation
  pub address_try_from : String → String ⊎ Address
  pub pay_to_address_script : Address → ScriptPublicKey
  pub pub_key_version : ℕ
  pub pub_key_ecdsa_version : ℕ

unfoldable pub analyze_list :
    Libraries → Analyzer → ContextTransaction → Scope → UserOperation → Result Operation
analyze_list l a t c model = do
  token_id ← ok_or model.token_id (op_list_missing_value "token_id")
  sender_pubkey ← ok_or (sender_pubkey_bytes l.script t) (op_list_missing_value "sender pubkey")
  text ← expect (as_str l.unicode c.tick)
  listing ← expect (
      compute_listing_p2sh l.external l.unicode l.builder l.script sender_pubkey text token_id
        a.address_prefix)
  utxo_address ← ok_or (output_spk t 0) (op_list_missing_value "output[0] for P2SH UTXO")
  ok (record {
    common = common_of t c;
    info =
        OperationInfo.list
          (record { token_id = token_id; utxo_address = utxo_address; redeem_script = listing.1 });
  })

unfoldable pub analyze_send : ContextTransaction → Scope → UserOperation → Result Operation
analyze_send t c model = do
  token_id ← ok_or model.token_id (op_send_missing_value "token_id")
  payment_amount ← ok_or (output_amt t 0) (op_send_missing_value "output[0] payment amount")
  listing_utxo_txid ←
      ok_or (input_prev_txid t 0) (op_send_missing_value "input[0] previous outpoint")
  ok (record {
    common = common_of t c;
    info = OperationInfo.send (record {
      token_id = token_id;
      payment_amount = payment_amount;
      buyer = output_spk t 1;
      listing_utxo_txid = listing_utxo_txid;
    });
  })
