-- ===== src/Analyzer/NoPanic.antt =====
-- The functions of nexus/src/analyzer.rs that never panic.
use Prim.Native.String.{String}
use krc721_protocol.Prelude.{
  ℕ, ◌-◌, ◌≢◌, not, Option, none, some, List, ltb, ◌⊎◌, inl, inr, arith, length, ◌==◌, [], ◌∷◌,
  u64_max, get_or,
}
use krc721_protocol.Model.{Tick, has_incompatible_uri_prefix, ScriptPublicKey}
use krc721_protocol.Inscription.Codes.{Script, Opcode, Item, opcode, tx_script_error}
use krc721_protocol.Inscription.Ticks.{TickError}
use krc721_protocol.Inscription.Listing.{Address}
use krc721_protocol.Analyzer.Result.{
  ok, panic, ◌>>=◌, index, refuse, ok_or, no_panic_bind, no_panic_refuse, no_panic_ok_or,
  no_panic_ok, empty_opcode_data, missing_krc721_header,
}
use krc721_protocol.Analyzer.Headers.{detect_krc721_header}
use krc721_protocol.Analyzer.Parse.{parse_script, second_item, collect_opcodes}
use krc721_protocol.Analyzer.Envelope.{
  validate_redeem_envelope, Envelope, validate_redeem_envelope-panic,
}
use krc721_protocol.Analyzer.Source.{ContextTransaction, output_amt, input_prev_txid}
use krc721_protocol.Analyzer.Arms.{
  UserOperation, Analyzer, Scope, Libraries, checked_royalty, check_restricted, restricted,
  total_deploy_fee, analyze_deploy, analyze_mint, analyze_transfer, analyze_discount, analyze_send,
}
use krc721_protocol.Analyzer.Detect.{
  redeem_push, envelope_of, inscription_of, opcode_or_error, resolve, tick_or_error, user_operation,
  on_network,
}

collect_opcodes-panic : (items : List Item) → collect_opcodes items ≢ panic
unfolding collect_opcodes
collect_opcodes-panic [] = no_panic_ok []
collect_opcodes-panic (opcode o ∷ items) =
    no_panic_bind (collect_opcodes items) (λ _. _) (collect_opcodes-panic items)
      (λ os. no_panic_ok (o ∷ os))
collect_opcodes-panic (tx_script_error e ∷ items) = λ h. ground (arith, h)

pub redeem_push-panic : (items : List Item) → redeem_push items ≢ panic
unfolding redeem_push
redeem_push-panic items = second_panic (second_item items)
  where
    second_panic :
        (o : Option Item)
        → (do
          push ← opcode_or_error o
          _ ← refuse push.is_empty empty_opcode_data
          _ ← refuse (not push.is_push_opcode) missing_krc721_header
          _ ← refuse (not (detect_krc721_header push.get_data)) missing_krc721_header
          ok push)
          ≢ panic
    second_panic none h = ground (arith, h)
    second_panic (some (tx_script_error e)) h = ground (arith, h)
    second_panic (some (opcode o)) h = ground (arith, h)

pub envelope_of-panic : (s : Script) (push : Opcode) → envelope_of s push ≢ panic
unfolding envelope_of
envelope_of-panic s push =
    no_panic_bind (collect_opcodes (parse_script s push.get_data)) (λ _. _)
      (collect_opcodes-panic _)
      (λ ops.
        no_panic_bind (validate_redeem_envelope s ops) (λ _. _)
          (validate_redeem_envelope-panic s ops) (λ u. no_panic_ok ops))

-- An envelope has a first, a second and a last opcode but one.
pub index-Envelope :
    (s : Script) {ops : List Opcode}
    → Envelope s ops
    → (index ops 0 ≢ panic) × (index ops 1 ≢ panic) × (index ops (length ops - 2) ≢ panic)
index-Envelope s (Envelope.plain x0 x1 x2 x3 x4 x5 x6 x7 a b c d e f g) =
    (λ h. ground (arith, h), λ h. ground (arith, h), λ h. ground (arith, h))
index-Envelope s (Envelope.with_text x0 x1 x2 x3 x4 x5 x6 x7 x8 x9 a b c d e f g h i) =
    (λ h. ground (arith, h), λ h. ground (arith, h), λ h. ground (arith, h))

module _ (l : Libraries) (a : Analyzer) (t : ContextTransaction) where
  user_operation-panic : (r : String ⊎ UserOperation) → user_operation r ≢ panic
  user_operation-panic (inl e) h = ground (arith, h)
  user_operation-panic (inr m) h = ground (arith, h)

  pub inscription_of-panic :
      {ops : List Opcode} → Envelope l.script ops → inscription_of l ops ≢ panic
  unfolding inscription_of
  inscription_of-panic {ops} v =
      no_panic_bind (index ops (length ops - 2)) (λ _. _) (index-Envelope l.script v).2
        (λ o.
          no_panic_bind (refuse (not o.is_push_opcode) _) (λ _. _) (no_panic_refuse _ _)
            (λ u. user_operation-panic (l.deserialize_user_operation o.get_data)))

  on_network-panic :
      (field : String) (r : String ⊎ Address) → on_network a.address_prefix field r ≢ panic
  on_network-panic field (inl e) h = ground (arith, h)
  on_network-panic field (inr x) h = ground (arith, h)

  pub resolve-panic :
      (field : String) (o : Option String) → resolve l a.address_prefix field o ≢ panic
  unfolding resolve
  resolve-panic field none = no_panic_ok none
  resolve-panic field (some text) = on_network-panic field (l.address_try_from text)

  pub tick_or_error-panic : (r : TickError ⊎ Tick) → tick_or_error r ≢ panic
  tick_or_error-panic (inl e) h = ground (arith, h)
  tick_or_error-panic (inr x) h = ground (arith, h)

  checked_royalty-panic :
      (s : Script) (to : ScriptPublicKey) (o : Option ℕ) → checked_royalty s to o ≢ panic
  checked_royalty-panic s to none = no_panic_ok none
  checked_royalty-panic s to (some fee) = λ h. ground (arith, h)

  check_restricted-panic :
      (tick : Tick) (sender : ScriptPublicKey) (o : Option ScriptPublicKey)
      → check_restricted tick sender o ≢ panic
  check_restricted-panic tick sender none = no_panic_ok tt
  check_restricted-panic tick sender (some x) = no_panic_refuse _ _

  pub analyze_deploy-panic :
      (c : Scope) (model : UserOperation) → analyze_deploy l.script a t c model ≢ panic
  unfolding analyze_deploy
  analyze_deploy-panic c model =
      no_panic_bind (check_restricted c.tick c.sender (restricted c.tick a.restricted_tokens))
        (λ _. _) (check_restricted-panic _ _ _)
        λ u.
          no_panic_bind (ok_or model.metadata _) (λ _. _) (no_panic_ok_or _ _)
            λ metadata.
              no_panic_bind (refuse (has_incompatible_uri_prefix metadata a.restricted_protocols) _)
                (λ _. _) (no_panic_refuse _ _)
                λ u2.
                  no_panic_bind (ok_or model.max _) (λ _. _) (no_panic_ok_or _ _)
                    λ max.
                      no_panic_bind (refuse (max == u64_max) _) (λ _. _) (no_panic_refuse _ _)
                        λ u3.
                          no_panic_bind (refuse (ltb max (get_or model.premint 0)) _) (λ _. _)
                            (no_panic_refuse _ _)
                            λ u4.
                              no_panic_bind
                                (refuse
                                  (ltb t.fee (total_deploy_fee l.script (get_or model.premint 0)))
                                  _)
                                (λ _. _) (no_panic_refuse _ _)
                                λ u5.
                                  no_panic_bind
                                    (checked_royalty l.script c.royalty_to model.royalty_fee)
                                    (λ _. _)
                                    (checked_royalty-panic l.script c.royalty_to model.royalty_fee)
                                    λ r. no_panic_ok _

  module _ (c : Scope) (model : UserOperation) where
    pub analyze_mint-panic : analyze_mint l.script t c ≢ panic
    unfolding analyze_mint
    analyze_mint-panic h = ground (arith, h)

    pub analyze_transfer-panic : analyze_transfer t c model ≢ panic
    unfolding analyze_transfer
    analyze_transfer-panic =
        no_panic_bind (ok_or model.token_id _) (λ _. _) (no_panic_ok_or _ _)
          λ token_id.
            no_panic_bind (ok_or c.to_param _) (λ _. _) (no_panic_ok_or _ _) λ to. no_panic_ok _

    pub analyze_discount-panic : analyze_discount t c model ≢ panic
    unfolding analyze_discount
    analyze_discount-panic =
        no_panic_bind (ok_or model.discount_fee _) (λ _. _) (no_panic_ok_or _ _)
          λ fee.
            no_panic_bind (ok_or c.to_param _) (λ _. _) (no_panic_ok_or _ _) λ to. no_panic_ok _

    pub analyze_send-panic : analyze_send t c model ≢ panic
    unfolding analyze_send
    analyze_send-panic =
        no_panic_bind (ok_or model.token_id _) (λ _. _) (no_panic_ok_or _ _)
          λ token_id.
            no_panic_bind (ok_or (output_amt t 0) _) (λ _. _) (no_panic_ok_or _ _)
              λ amount.
                no_panic_bind (ok_or (input_prev_txid t 0) _) (λ _. _) (no_panic_ok_or _ _)
                  λ txid. no_panic_ok _
