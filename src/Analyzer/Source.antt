-- ===== src/Analyzer/Source.antt =====
-- `ContextTransaction` of nexus/src/analyzer.rs and its `ITransaction` implementation. The
-- transaction is that of the Kaspa crates, with its id in place of the hash that computes it.
use krc721_protocol.Prelude.{
  ℕ, zero, suc, ◌&&◌, ◌||◌, not, ◌==◌, Option, none, some, List, [], ◌∷◌, if◌then◌else◌, length,
}
use krc721_protocol.Model.{ScriptPublicKey, TransactionId}
use krc721_protocol.Inscription.Codes.{Script, Opcode, Item, opcode, tx_script_error}
use krc721_protocol.Analyzer.Result.{ok, err, panic}
use krc721_protocol.Analyzer.Parse.{parse_script, second_item, collect_opcodes}

pub record TransactionInput : Type 0 where
  pub signature_script : List ℕ
  pub previous_transaction_id : TransactionId

pub record TransactionOutput : Type 0 where
  pub value : ℕ
  pub script_public_key : ScriptPublicKey

pub record Transaction : Type 0 where
  pub id : TransactionId
  pub inputs : List TransactionInput
  pub outputs : List TransactionOutput

pub record ContextTransaction : Type 0 where
  pub tx : Transaction
  pub fee : ℕ
  pub block_time : ℕ
  pub accepting_block_daa_score : ℕ
  pub index_within_merged_block : ℕ

abbrev map_option {ℓ κ} : {A : Type ℓ} {B : Type κ} → (A → B) → Option A → Option B
map_option f none = none
map_option f (some a) = some (f a)

-- `get`
abbrev pub get_elem? {ℓ} : {A : Type ℓ} → List A → ℕ → Option A
get_elem? [] i = none
get_elem? (x ∷ xs) zero = some x
get_elem? (x ∷ xs) (suc i) = get_elem? xs i

unfoldable pub signature_script : ContextTransaction → Option (List ℕ)
signature_script t =
    map_option (λ (i : TransactionInput). i.signature_script) (get_elem? t.tx.inputs 0)

unfoldable pub output_spk : ContextTransaction → ℕ → Option ScriptPublicKey
output_spk t i =
    map_option (λ (o : TransactionOutput). o.script_public_key) (get_elem? t.tx.outputs i)

unfoldable pub output_amt : ContextTransaction → ℕ → Option ℕ
output_amt t i = map_option (λ (o : TransactionOutput). o.value) (get_elem? t.tx.outputs i)

unfoldable pub first_beneficiary : ContextTransaction → Option ScriptPublicKey
first_beneficiary t =
    map_option (λ (o : TransactionOutput). o.script_public_key) (get_elem? t.tx.outputs 0)

unfoldable pub first_output_amt : ContextTransaction → Option ℕ
first_output_amt t = map_option (λ (o : TransactionOutput). o.value) (get_elem? t.tx.outputs 0)

unfoldable pub input_prev_txid : ContextTransaction → ℕ → Option TransactionId
input_prev_txid t i =
    map_option (λ (i : TransactionInput). i.previous_transaction_id) (get_elem? t.tx.inputs i)

-- The key of the redeem script: 32 bytes of Schnorr or 33 of ECDSA.
unfoldable pub pubkey_of : List Opcode → Option (List ℕ)
pubkey_of [] = none
pubkey_of (key ∷ rest) =
    if key.is_push_opcode && (length key.get_data == 32 || length key.get_data == 33)
    then some key.get_data
    else none

unfoldable pub pubkey_of_redeem : Script → Opcode → Option (List ℕ)
pubkey_of_redeem s second =
    if not second.is_push_opcode
    then none
    else elim (collect_opcodes (parse_script s second.get_data)) [
      | ok inner_opcodes ↦ pubkey_of inner_opcodes
      | err e ↦ none
      | panic ↦ none
    ]

abbrev pubkey_of_item : Script → Option Item → Option (List ℕ)
pubkey_of_item s none = none
pubkey_of_item s (some (tx_script_error e)) = none
pubkey_of_item s (some (opcode second)) = pubkey_of_redeem s second

unfoldable pub sender_pubkey_bytes : Script → ContextTransaction → Option (List ℕ)
sender_pubkey_bytes s t = elim (signature_script t) [
  | none ↦ none
  | some sig_script ↦ pubkey_of_item s (second_item (parse_script s sig_script))
]
