-- ===== src/Analyzer/Detect.antt =====
-- `detect_krc721` of nexus/src/analyzer.rs: the operation in the signature script of a transaction,
-- if there is one; and `detect_krc20`. The receiver's address, which is only logged, is left out.
use Prim.Native.String.{String}
use krc721_protocol.Prelude.{
  ℕ, ◌-◌, ◌&&◌, not, ◌⊎◌, inl, inr, Option, none, some, List, [], ◌∷◌, ◌++◌, ◌==◌, ltb, leb, get_or,
  if◌then◌else◌, length,
}
use krc721_protocol.Model.{Tick, ScriptPublicKey, Operation}
use krc721_protocol.Inscription.Codes.{Script, Opcode, Item, opcode, tx_script_error}
use krc721_protocol.Inscription.Ticks.{TickError, from_str, as_str}
use krc721_protocol.Inscription.Listing.{Address}
use krc721_protocol.Analyzer.Result.{
  Result, ok, err, panic, ◌>>=◌, index, refuse, expect, tx_script, insufficient_opcode_len,
  empty_opcode_data, missing_krc721_header, invalid_redeem_envelope_format, serde_with_path,
  nft_inscription_model_field_value_parsing_error, tick_error, unknown_sender_type, address_error,
}
use krc721_protocol.Analyzer.Headers.{
  detect_kspr_header, detect_krc721_header, detect_kasplex_header, detect_krc20_header,
}
use krc721_protocol.Analyzer.Parse.{parse_script, second_item, collect_opcodes}
use krc721_protocol.Analyzer.Envelope.{validate_redeem_envelope}
use krc721_protocol.Analyzer.Source.{ContextTransaction, signature_script, get_elem?}
use krc721_protocol.Analyzer.Arms.{
  UserOperation, Analyzer, Scope, Libraries, analyze_deploy, analyze_mint, analyze_transfer,
  analyze_discount, analyze_list, analyze_send, Op,
}

-- `pay_to_pub_key` and `pay_to_pub_key_ecdsa`, with their `assert_eq!`.
unfoldable pub pay_to_pub_key : Script → List ℕ → Result (List ℕ)
pay_to_pub_key s payload =
    if length payload == 32 then ok (s.op_data32 ∷ payload ++ s.op_check_sig ∷ []) else panic

unfoldable pub pay_to_pub_key_ecdsa : Script → List ℕ → Result (List ℕ)
pay_to_pub_key_ecdsa s payload =
    if length payload == 33 then ok (s.op_data33 ∷ payload ++ s.op_check_sig_ecdsa ∷ []) else panic

-- The sender of the transaction that reveals the inscription.
unfoldable pub reveal_sender :
    Libraries → Analyzer → ContextTransaction → Opcode → Opcode → Result ScriptPublicKey
reveal_sender l a t first_opcode second_opcode =
    if second_opcode.value == l.script.op_check_sig
    then (do
      script ← pay_to_pub_key l.script first_opcode.get_data
      ok (record { version = l.pub_key_version; script = script }))
    else if not (second_opcode.value == l.script.op_check_sig_ecdsa)
    then err unknown_sender_type
    else if ltb t.accepting_block_daa_score a.daa_ecdsa_fix
    then err address_error
    else (do
      script ← pay_to_pub_key_ecdsa l.script first_opcode.get_data
      ok (record { version = l.pub_key_ecdsa_version; script = script }))

abbrev pub on_network : ℕ → String → String ⊎ Address → Result (Option Address)
on_network prefix field (inl e) = err (nft_inscription_model_field_value_parsing_error field e)
on_network prefix field (inr address) =
    if address.prefix == prefix
    then ok (some address)
    else err (nft_inscription_model_field_value_parsing_error field "network mismatch")

-- An address of the inscription, if it is given, is one of the network.
unfoldable pub resolve : Libraries → ℕ → String → Option String → Result (Option Address)
resolve l prefix field none = ok none
resolve l prefix field (some text) = on_network prefix field (l.address_try_from text)

abbrev pub pay_to : Libraries → Option Address → Option ScriptPublicKey
pay_to l none = none
pay_to l (some address) = some (l.pay_to_address_script address)

abbrev pub tick_or_error : TickError ⊎ Tick → Result Tick
tick_or_error (inl e) = err (tick_error e)
tick_or_error (inr tick) = ok tick

abbrev pub user_operation : String ⊎ UserOperation → Result UserOperation
user_operation (inl e) = err (serde_with_path e)
user_operation (inr model) = ok model

abbrev pub opcode_or_error : Option Item → Result Opcode
opcode_or_error none = err insufficient_opcode_len
opcode_or_error (some (tx_script_error e)) = err (tx_script e)
opcode_or_error (some (opcode o)) = ok o

-- The second push of the signature script, if it has the header of the protocol.
unfoldable pub redeem_push : List Item → Result Opcode
redeem_push items = do
  push ← opcode_or_error (second_item items)
  _ ← refuse push.is_empty empty_opcode_data
  _ ← refuse (not push.is_push_opcode) missing_krc721_header
  _ ← refuse (not (detect_krc721_header push.get_data)) missing_krc721_header
  ok push

-- The opcodes of the redeem script, in the format of an envelope.
unfoldable pub envelope_of : Script → Opcode → Result (List Opcode)
envelope_of s push = do
  inner_opcodes ← collect_opcodes (parse_script s push.get_data)
  _ ← validate_redeem_envelope s inner_opcodes
  ok inner_opcodes

-- The inscription, which is the last opcode but one.
unfoldable pub inscription_of : Libraries → List Opcode → Result UserOperation
inscription_of l inner_opcodes = do
  second_to_last_opcode ← index inner_opcodes (length inner_opcodes - 2)
  _ ←
      refuse (not second_to_last_opcode.is_push_opcode)
        (invalid_redeem_envelope_format "Content op is not push opcode")
  user_operation (l.deserialize_user_operation second_to_last_opcode.get_data)

-- The addresses, the sender and the tick, in the order of the source.
unfoldable pub scope_of :
    Libraries → Analyzer → ContextTransaction → List Opcode → UserOperation → Result Scope
scope_of l a t inner_opcodes model = do
  first_opcode ← index inner_opcodes 0
  second_opcode ← index inner_opcodes 1
  resolved_to ← resolve l a.address_prefix "to" model.to
  resolved_royalty_to ← resolve l a.address_prefix "royalty_to" model.royalty_to
  sender ← reveal_sender l a t first_opcode second_opcode
  text ← expect (as_str l.unicode model.tick)
  tick ← tick_or_error (from_str l.unicode text)
  ok (record {
    tick = tick;
    sender = sender;
    to_param = pay_to l resolved_to;
    royalty_to = get_or (pay_to l resolved_royalty_to) sender;
  })

-- `match model.op`
unfoldable pub operation_of :
    Libraries → Analyzer → ContextTransaction → Scope → UserOperation → Op → Result Operation
operation_of l a t c model Op.deploy = analyze_deploy l.script a t c model
operation_of l a t c model Op.mint = analyze_mint l.script t c
operation_of l a t c model Op.transfer = analyze_transfer t c model
operation_of l a t c model Op.discount = analyze_discount t c model
operation_of l a t c model Op.list = analyze_list l a t c model
operation_of l a t c model Op.send = analyze_send t c model

unfoldable pub analyze_items :
    Libraries → Analyzer → ContextTransaction → List Item → Result Operation
analyze_items l a t items = do
  push ← redeem_push items
  inner_opcodes ← envelope_of l.script push
  model ← inscription_of l inner_opcodes
  scope ← scope_of l a t inner_opcodes model
  operation_of l a t scope model model.op

unfoldable pub detect_krc721 : Libraries → Analyzer → ContextTransaction → Result (Option Operation)
detect_krc721 l a t = elim (signature_script t) [
  | none ↦ ok none
  | some script ↦
      if not (detect_kspr_header script)
      then ok none
      else (do op ← analyze_items l a t (parse_script l.script script); ok (some op))
]

module _ {ℓ} {TokenTransaction : Type ℓ} (from_slice : List ℕ → Option TokenTransaction) where
  -- The last item but one, where it is an opcode that holds a token transaction.
  abbrev krc20_content : Option Item → Option TokenTransaction
  krc20_content none = none
  krc20_content (some (tx_script_error e)) = none
  krc20_content (some (opcode o)) = from_slice o.get_data

  unfoldable pub krc20_in : List Item → Option TokenTransaction
  krc20_in inner_opcodes =
      if leb 2 (length inner_opcodes)
      then krc20_content (get_elem? inner_opcodes (length inner_opcodes - 2))
      else none

  abbrev krc20_of : Script → Option Item → Option TokenTransaction
  krc20_of s none = none
  krc20_of s (some (tx_script_error e)) = none
  krc20_of s (some (opcode o)) =
      if not o.is_empty && (o.is_push_opcode && detect_krc20_header o.get_data)
      then krc20_in (parse_script s o.get_data)
      else none

  -- An error of the parsers is logged and dropped.
  unfoldable pub detect_krc20 : Script → ContextTransaction → Option TokenTransaction
  detect_krc20 s t = elim (signature_script t) [
    | none ↦ none
    | some script ↦
        if detect_kasplex_header script
        then krc20_of s (second_item (parse_script s script))
        else none
  ]
