-- ===== src/Analyzer/Faults.antt =====
-- The keys and the listings on which the parts of `detect_krc721` of nexus/src/analyzer.rs panic.
use krc721_protocol.Prelude.{
  ℕ, ◌≤◌, ◌≡◌, ◌≢◌, refl, none, some, List, ◌↔◌, inl, inr, arith, Bool-cases, length, ◌==◌,
}
use krc721_protocol.Inscription.Codes.{Opcode}
use krc721_protocol.Inscription.Ticks.{Text, as_str}
use krc721_protocol.Inscription.Listing.{compute_listing_p2sh}
use krc721_protocol.Analyzer.Result.{
  panic, ok_or-ok, expect-ok, bind_panic, expect, ok_or, no_panic_bind, no_panic_ok_or, no_panic_ok,
  expect-panic,
}
use krc721_protocol.Analyzer.Source.{ContextTransaction, sender_pubkey_bytes, output_spk}
use krc721_protocol.Analyzer.Arms.{UserOperation, Analyzer, Scope, Libraries, Op, analyze_list}
use krc721_protocol.Analyzer.Detect.{
  operation_of, reveal_sender, pay_to_pub_key, pay_to_pub_key_ecdsa,
}
use krc721_protocol.Analyzer.NoPanic.{
  analyze_deploy-panic, analyze_mint-panic, analyze_transfer-panic, analyze_discount-panic,
  analyze_send-panic,
}

module _ (l : Libraries) (a : Analyzer) (t : ContextTransaction) where
  -- A key of the wrong length for its signature check.
  pub data WrongLength (key check : Opcode) : Type 0 where
    schnorr : check.value ≡ l.script.op_check_sig → length key.get_data ≢ 32 → WrongLength key check
    ecdsa :
        check.value ≢ l.script.op_check_sig
        → check.value ≡ l.script.op_check_sig_ecdsa
        → a.daa_ecdsa_fix ≤ t.accepting_block_daa_score
        → length key.get_data ≢ 33
        → WrongLength key check

  pub panic-WrongLength :
      (key check : Opcode) → reveal_sender l a t key check ≡ panic → WrongLength key check
  unfolding reveal_sender pay_to_pub_key pay_to_pub_key_ecdsa
  panic-WrongLength key check e = elim (Bool-cases (check.value == l.script.op_check_sig)) [
    | inl same ↦ schnorr (ground arith) (ground (arith, same, e))
    | inr other ↦
        ecdsa (ground arith) (ground (arith, other, e)) (ground (arith, other, e))
          (ground (arith, other, e))
  ]

  pub WrongLength-panic :
      (key check : Opcode) → WrongLength key check → reveal_sender l a t key check ≡ panic
  unfolding reveal_sender pay_to_pub_key pay_to_pub_key_ecdsa
  WrongLength-panic key check (schnorr x y) = ground (arith, x, y)
  WrongLength-panic key check (ecdsa x y z w) = ground (arith, x, y, z, w)

  pub reveal_sender-panic :
      (key check : Opcode) → (reveal_sender l a t key check ≡ panic) ↔ WrongLength key check
  reveal_sender-panic key check = (panic-WrongLength key check, WrongLength-panic key check)

  -- The listing of a token by a key has no script or no address, or the tick has no text.
  pub data NoListing (c : Scope) (model : UserOperation) : Type 0 where
    no_tick_text :
        (token_id : ℕ) (key : List ℕ)
        → model.token_id ≡ some token_id
        → sender_pubkey_bytes l.script t ≡ some key
        → as_str l.unicode c.tick ≡ none
        → NoListing c model
    not_built :
        (token_id : ℕ) (key : List ℕ) (text : Text)
        → model.token_id ≡ some token_id
        → sender_pubkey_bytes l.script t ≡ some key
        → as_str l.unicode c.tick ≡ some text
        → compute_listing_p2sh l.external l.unicode l.builder l.script key text token_id
            a.address_prefix
          ≡ none
        → NoListing c model

  pub analyze_list-NoListing :
      (c : Scope) (model : UserOperation) → NoListing c model → analyze_list l a t c model ≡ panic
  unfolding analyze_list
  analyze_list-NoListing c model (no_tick_text token_id key e1 e2 e3) =
      rw (analyze_list, e1, e2, e3) refl
  analyze_list-NoListing c model (not_built token_id key text e1 e2 e3 e4) =
      rw (analyze_list, e1, e2, e3, e4) refl

  analyze_list-panic :
      (c : Scope) (model : UserOperation) → analyze_list l a t c model ≡ panic → NoListing c model
  unfolding analyze_list
  analyze_list-panic c model e = elim (bind_panic (ok_or model.token_id _) (λ _. _) e) [
    | inl f ↦ absurd (no_panic_ok_or _ _ f)
    | inr (token_id, e1, f1) ↦
        elim (bind_panic (ok_or (sender_pubkey_bytes l.script t) _) (λ _. _) f1) [
          | inl f ↦ absurd (no_panic_ok_or _ _ f)
          | inr (key, e2, f2) ↦
              let id = ok_or-ok model.token_id _ e1 in
              let by = ok_or-ok (sender_pubkey_bytes l.script t) _ e2 in
              elim (bind_panic (expect (as_str l.unicode c.tick)) (λ _. _) f2) [
                | inl f ↦ no_tick_text token_id key id by (expect-panic _ f)
                | inr (text, e3, f3) ↦
                    elim (bind_panic
                      (expect (
                        compute_listing_p2sh l.external l.unicode l.builder l.script key text
                          token_id a.address_prefix))
                      (λ _. _) f3) [
                        | inl f ↦
                            not_built token_id key text id by (expect-ok _ e3) (expect-panic _ f)
                        | inr (listing, _, f4) ↦ absurd (
                            no_panic_bind (ok_or (output_spk t 0) _) (λ _. _) (no_panic_ok_or _ _)
                              (λ utxo. no_panic_ok _) f4)
                      ]
              ]
        ]
  ]

  pub operation_of-panic :
      (c : Scope) (model : UserOperation) (o : Op)
      → operation_of l a t c model o ≡ panic
      → (o ≡ Op.list) × NoListing c model
  unfolding operation_of
  operation_of-panic c model Op.deploy e = absurd (analyze_deploy-panic l a t c model e)
  operation_of-panic c model Op.mint e = absurd (analyze_mint-panic l a t c model e)
  operation_of-panic c model Op.transfer e = absurd (analyze_transfer-panic l a t c model e)
  operation_of-panic c model Op.discount e = absurd (analyze_discount-panic l a t c model e)
  operation_of-panic c model Op.list e = (refl, analyze_list-panic c model e)
  operation_of-panic c model Op.send e = absurd (analyze_send-panic l a t c model e)
